-- ===== src/Commands.antt =====
-- The reports to the manager (main_alive.cpp): alive status, heartbeat with the interfaces,
-- metadata health, and the refresh that only connects.
pub mod Tests
pub mod Tries
pub mod Reply
pub mod Answer
pub mod Exchange
pub mod Served
pub mod Connected
pub mod Reports
pub mod Refresh
pub mod Heartbeat
pub mod Metadata
pub mod Fields
use Prim.Native.String.{String}
use dummy_client.Common.{
  ℕ, zero, suc, ◌+◌, ◌≤◌, Option, none, some, List, [], ◌∷◌, ◌++◌, Bool, true, false,
}
use dummy_client.Common.{if◌then◌else◌, ◌==◌, ◌&&◌, not, leb, length, codes, same_text}
use dummy_client.Common.Int.{ℤ, pos, negsuc, eqb_ℤ}
use dummy_client.Trace.{logged, Level, error, info, Param, no_param, int_param}
use dummy_client.Outcome.{
  fit, Outcome, ok, fault, Fault, out_of_bounds, uninitialised, null_pointer,
}
use dummy_client.Packet.State.{Packet, Session, M}
use dummy_client.Packet.Reads.{new_packet, init_socket, init_command, read_int, is_eod}
use dummy_client.Packet.Writes.{write_int, write_string, until_nul}
use dummy_client.Os.{Os}
use dummy_client.Wire.{send_packet, receive_packet}
use dummy_client.RestClient.{Curl, Response, get}
use dummy_client.Connect.{
  World, C, ◌>>=◌, ◌>>◌, pure, on, log_line, close_to_server, connect_loop, connect_tries,
}

-- `struct ConnInfo`, with the texts that its pointers lead to.
pub record ConnInfo : Type 0 where
  pub ip : List ℕ
  pub port : ℤ
  pub server_type : ℤ
  pub external_ip : List ℕ
  pub availability_zone : List ℕ
  pub host : List ℕ
  pub metaname : List ℕ
  pub uuid : List ℕ

abbrev pub cat_request : ℤ
cat_request = pos 1

abbrev pub req_registry_heartbeat : ℤ
req_registry_heartbeat = pos 3

abbrev pub req_alive_status : ℤ
req_alive_status = pos 4

abbrev pub req_refresh_info : ℤ
req_refresh_info = pos 5

abbrev pub req_metadata_report : ℤ
req_metadata_report = pos 6

abbrev pub err_failed : ℤ
err_failed = pos 1

-- `ifa_addr`, which may be null: an address of the family `AF_INET` as text, or another one.
pub data Address : Type 0 where
  null_address : Address
  other_family : Address
  inet : List ℕ → Address

-- An entry of `getifaddrs`.
pub record Interface : Type 0 where
  pub name : List ℕ
  pub address : Address

-- `sprintf(tmp,"%s:%s,",ifa->ifa_name,addr)`.
unfoldable pub interface_text : List ℕ → List ℕ → List ℕ
interface_text name addr = name ++ (b':' ∷ (addr ++ (b',' ∷ [])))

-- The loop over the interfaces: `tmp` has 64 bytes and `l_szclient_ips` has 256.
unfoldable pub client_ips : List Interface → List ℕ → Outcome (List ℕ)
client_ips [] ips = ok ips
client_ips (i ∷ rest) ips = elim i.address [
  | null_address ↦ fault null_pointer
  | other_family ↦ client_ips rest ips
  | inet addr ↦ elim (same_text (codes "lo") i.name) [
    | true ↦ client_ips rest ips
    | false ↦ elim (fit 64 (interface_text i.name addr)) [
      | ok tmp ↦ elim (fit 256 (ips ++ tmp)) [ ok ips' ↦ client_ips rest ips' | fault e ↦ fault e ]
      | fault e ↦ fault e
    ]
  ]
]

-- `getifaddrs`, whose result is not looked at: where it fails, `ifap` is not set.
unfoldable pub gather : Option (List Interface) → Outcome (List ℕ)
gather none = fault uninitialised
gather (some found) = client_ips found []

-- The writes of a packet, each followed by its test.
unfoldable pub write_fields : {N : Type 0} → List (M N Bool) → M N Bool
write_fields [] s = ok (true, s)
write_fields (m ∷ ms) s = elim (m s) [
  | ok (true, s') ↦ write_fields ms s'
  | ok (false, s') ↦ ok (false, s')
  | fault e ↦ fault e
]

-- Whether a report ends with TRUE.
unfoldable pub is_answered : Option ℤ → Bool
is_answered none = false
is_answered (some _) = true

module _ {N : Type 0} (os : Os N) where
  -- `CloseToServer(sock); return FALSE;`
  unfoldable pub give_up : ℤ → C N Bool
  give_up sock = close_to_server os sock >> pure false

  -- Behind `ReadInt` and `IsEOD`: the error code decides.
  unfoldable pub judge : ℤ → ℤ → C N Bool
  judge sock errorcode =
      if eqb_ℤ errorcode err_failed then give_up sock else (close_to_server os sock >> pure true)

  -- The reply is one number and nothing else.
  unfoldable pub read_reply : ℤ → Packet → C N (Option ℤ)
  read_reply sock p = on p read_int >>= λ r. elim r.0 [
    | none ↦ close_to_server os sock >> pure none
    | some errorcode ↦ on r.1 is_eod >>= λ e.
        if e.0 then pure (some errorcode) else (close_to_server os sock >> pure none)
  ]

  -- Receive the reply and judge it: the error code, if the command is to return TRUE.
  unfoldable pub await_reply : ℤ → C N (Option ℤ)
  await_reply sock = on (init_socket sock (new_packet (pos 0))) (receive_packet os) >>= λ got.
      if not got.0
      then (close_to_server os sock >> pure none)
      else (read_reply sock got.1 >>= λ r. elim r [
        | none ↦ pure none
        | some errorcode ↦
            judge sock errorcode >>= λ good. if good then pure (some errorcode) else pure none
      ])

  -- Write the fields, send, and wait for the reply: what all three reports do once is_answered.
  unfoldable pub exchange : ℤ → ℤ → List (M N Bool) → C N (Option ℤ)
  exchange command sock fields =
      on (init_command cat_request command sock (new_packet (pos 0))) (write_fields fields)
      >>= λ written.
          if not written.0
          then (close_to_server os sock >> pure none)
          else (on written.1 (send_packet os) >>= λ sent.
              if not sent.0 then (close_to_server os sock >> pure none) else await_reply sock)

  -- The last round of the connecting loop.
  unfoldable pub exceed : String → ℤ → C N (Unit {0})
  exceed message sock = close_to_server os sock >> log_line error message (negsuc 0) no_param

  unfoldable pub command_alive_report : ConnInfo → C N Bool
  command_alive_report conninfo =
      connect_loop os (exceed "Connect try count exceed") conninfo.ip conninfo.port connect_tries
        (pos 0)
      >>= λ r. elim r [
        | none ↦ pure false
        | some sock ↦
            exchange req_alive_status sock
              (write_string conninfo.metaname ∷ write_string conninfo.uuid ∷ [])
            >>= λ reply. pure (is_answered reply)
      ]

  -- `command_refresh_info` logs before it closes, in the last round, and sends nothing at all.
  unfoldable pub refresh_exceed : ℤ → C N (Unit {0})
  refresh_exceed sock =
      log_line error "Connect try count exceed" (negsuc 0) no_param
      >> (close_to_server os sock >> pure tt)

  unfoldable pub command_refresh_info : ConnInfo → C N Bool
  command_refresh_info conninfo =
      connect_loop os refresh_exceed conninfo.ip conninfo.port connect_tries (pos 0) >>= λ r.
      elim r [
        | none ↦ pure false
        | some sock ↦ do
          close_to_server os sock
          log_line info "CMD REFRESH_INFO Response" sock (int_param (pos 0))
          pure true
      ]

  -- The fields of the heartbeat, in the order of the source.
  abbrev pub heartbeat_fields : ConnInfo → List ℕ → List (M N Bool)
  heartbeat_fields conninfo ips =
      write_string conninfo.metaname
      ∷ write_string conninfo.host
      ∷ write_int conninfo.server_type
      ∷ write_string conninfo.uuid
      ∷ write_string ips
      ∷ write_string conninfo.availability_zone
      ∷ write_string conninfo.external_ip
      ∷ []

  unfoldable pub command_heartbeat_report : (N → Option (List Interface)) → ConnInfo → C N Bool
  command_heartbeat_report interfaces conninfo =
      connect_loop os (exceed "Connect try count exceed - command_heartbeat_report") conninfo.ip
        conninfo.port connect_tries (pos 0)
      >>= λ r. elim r [
        | none ↦ pure false
        | some sock ↦ λ w. elim (gather (interfaces w.net)) [
          | fault e ↦ fault e
          | ok ips ↦
              (exchange req_registry_heartbeat sock (heartbeat_fields conninfo ips) >>= λ reply.
              elim reply [
                | none ↦ pure false
                | some errorcode ↦
                    log_line info "CMD HEARTBEAT Response" sock (int_param errorcode) >> pure true
              ])
                w
        ]
      ]

abbrev pub metadata_url : List ℕ
metadata_url = codes "http://169.254.169.254/openstack/latest/meta_data.json"

abbrev pub address_url : List ℕ
address_url = codes "http://bot.whatismyipaddress.com"

-- `external_ip` has 64 bytes: the body is copied there, and then printed there as a text.
unfoldable pub external_address : Response → Outcome (List ℕ)
external_address res =
    if not (eqb_ℤ res.code (pos 0))
    then (if leb (length res.body) 64 then fit 64 (until_nul res.body) else fault out_of_bounds)
    else ok (codes "none")

module _ {N : Type 0} (os : Os N) (curl : Curl N) where
  -- `RestClient::get` with no header lines. The response starts with a code of no known value.
  unfoldable pub http_get : ℤ → List ℕ → C N Response
  http_get indeterminate url w =
      let (res, net) = get curl indeterminate url [] w.net in ok (res, record w { net = net })

  abbrev pub metadata_fields : ConnInfo → List ℕ → Bool → List (M N Bool)
  metadata_fields conninfo external_ip meta_health =
      write_string conninfo.uuid
      ∷ write_string external_ip
      ∷ write_int (if meta_health then pos 1 else pos 0)
      ∷ []

  unfoldable pub command_metadata_report : ℤ → ℤ → ConnInfo → C N Bool
  command_metadata_report first second conninfo =
      connect_loop os (exceed os "Connect try count exceed - command_metadata_report") conninfo.ip
        conninfo.port connect_tries (pos 0)
      >>= λ r. elim r [
        | none ↦ pure false
        | some sock ↦ http_get first metadata_url >>= λ meta. http_get second address_url >>= λ res.
            λ w. elim (external_address res) [
              | fault e ↦ fault e
              | ok external_ip ↦
                  (exchange os req_metadata_report sock
                        (metadata_fields conninfo external_ip (not (eqb_ℤ meta.code (pos 0))))
                      >>= λ reply. pure (is_answered reply))
                    w
            ]
      ]
