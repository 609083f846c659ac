-- ===== src/Commands/Metadata.antt =====
-- `command_metadata_report` as a whole.
use dummy_client.Common.{
  Option, some, ℕ, ◌+◌, ◌^◌, ◌≤◌, ◌≡◌, refl, ap, arith, Bool, true, List, [], ◌++◌, length,
  length-append, if◌then◌else◌, not,
}
use dummy_client.Common.Int.{ℤ, pos, pos_part, bits32, eqb_ℤ}
use dummy_client.Bytes.Order.{big_endian32}
use dummy_client.Outcome.{ok, fault}
use dummy_client.Packet.Strings.{string_bytes}
use dummy_client.Os.{Os, ReadLaws, WriteLaws}
use dummy_client.RestClient.{Curl, Response, get}
use dummy_client.Connect.{C, World, ◌>>=◌, pure, connect_loop, connect_tries}
use dummy_client.Commands.{
  ConnInfo, req_metadata_report, exchange, exceed, is_answered, metadata_url, address_url,
  external_address, http_get, metadata_fields, command_metadata_report,
}
use dummy_client.Commands.Tries.{exceed-Closing}
use dummy_client.Commands.Fields.{AllWrite, nothing, also, write_string-Writes, write_int-Writes}
use dummy_client.Commands.Exchange.{exchange-Exchanged}
use dummy_client.Commands.Connected.{Done, Reported, connected-Reported}
use dummy_client.Commands.Reports.{Answered, finished}

-- What the metadata report sends.
abbrev pub metadata_bytes : ConnInfo → List ℕ → Bool → List ℕ
metadata_bytes conninfo external_ip meta_health =
    string_bytes conninfo.uuid
    ++ (string_bytes external_ip
        ++ (big_endian32 (bits32 (if meta_health then pos 1 else pos 0)) ++ []))

length-metadata_bytes :
    (conninfo : ConnInfo) (ip : List ℕ) (b : Bool)
    → length (metadata_bytes conninfo ip b)
      ≡ length (string_bytes conninfo.uuid) + (length (string_bytes ip) + 4)
length-metadata_bytes conninfo ip b = omega (
  arith,
  length-append (string_bytes conninfo.uuid)
      (string_bytes ip ++ (big_endian32 (bits32 (if b then pos 1 else pos 0)) ++ [])),
  length-append (string_bytes ip) (big_endian32 (bits32 (if b then pos 1 else pos 0)) ++ []),
)

metadata_fields-AllWrite :
    {N : Type 0} (os : Os N) (curl : Curl N) (conninfo : ConnInfo) (ip : List ℕ) (health : Bool)
    → AllWrite (metadata_fields os curl conninfo ip health) (metadata_bytes conninfo ip health)
metadata_fields-AllWrite os curl conninfo ip health = also (write_string-Writes conninfo.uuid) (
    also (write_string-Writes ip)
      (also (write_int-Writes (if health then pos 1 else pos 0)) nothing))

module _ {N : Type 0} (curl : Curl N) (first second : ℤ) where
  -- The answers of the two web servers to a command that is connected in the network `n`.
  abbrev pub meta_answer : N → Response × N
  meta_answer n = get curl first metadata_url [] n

  abbrev pub address_answer : N → Response × N
  address_answer n = get curl second address_url [] (meta_answer n).1

  -- Whether the metadata server gave a status.
  abbrev pub healthy : N → Bool
  healthy n = not (eqb_ℤ (meta_answer n).0.code (pos 0))

module _ {N : Type 0} (os : Os N) (curl : Curl N) (incoming sent : ℤ → N → List ℕ)
    (reads : ReadLaws os incoming) (writes : WriteLaws os sent) (first second : ℤ)
    (conninfo : ConnInfo) where
  -- What the command does on its socket.
  abbrev metadata_on : ℤ → C N Bool
  metadata_on sock = http_get os curl first metadata_url >>= λ meta.
      http_get os curl second address_url >>= λ res. λ w. elim (external_address res) [
        | fault e ↦ fault e
        | ok external_ip ↦
            (exchange os req_metadata_report sock
                  (metadata_fields os curl conninfo external_ip (not (eqb_ℤ meta.code (pos 0))))
                >>= λ reply. pure (is_answered reply))
              w
      ]

  -- The second web server's answer gave an address, and the frame with it was sent and answered.
  abbrev pub Told : ℤ → World N → N → Type 0
  Told sock start final =
      (ip : List ℕ) × (external_address (address_answer curl first second start.net).0 ≡ ok ip)
      × Answered os incoming sent reads writes req_metadata_report
          (metadata_bytes conninfo ip (healthy curl first second start.net)) sock
          (record start { net = (address_answer curl first second start.net).1 }) final

  -- The tries of the metadata report.
  abbrev pub metadata_tries : C N (Option ℤ)
  metadata_tries =
      connect_loop os (exceed os "Connect try count exceed - command_metadata_report") conninfo.ip
        conninfo.port connect_tries (pos 0)

  metadata_by :
      (sock : ℤ) (w : World N) (ip : List ℕ)
      → external_address (address_answer curl first second w.net).0 ≡ ok ip
      → length (metadata_bytes conninfo ip true) ≤ 2 ^ 30
      → Done sock (Told sock w) w (metadata_on sock w)
  unfolding http_get
  metadata_by sock w ip addressed small =
      let w' : World N = record {
        net = (address_answer curl first second w.net).1;
        trace = w.trace;
      } in
      let bytes : List ℕ = metadata_bytes conninfo ip (healthy curl first second w.net) in
      let fields = metadata_fields os curl conninfo ip (healthy curl first second w.net) in
      let d : Done sock (Answered os incoming sent reads writes req_metadata_report bytes sock w')
          w'
          ((exchange os req_metadata_report sock fields >>= λ reply. pure (is_answered reply)) w') =
        finished os incoming sent reads writes req_metadata_report sock fields bytes w'
          (exchange-Exchanged os incoming sent reads writes req_metadata_report sock fields bytes w'
            (λ e. absurd (omega (arith, ap pos_part e)))
            (metadata_fields-AllWrite os curl conninfo ip (healthy curl first second w.net))
            (omega (
              arith,
              small,
              length-metadata_bytes conninfo ip true,
              length-metadata_bytes conninfo ip (healthy curl first second w.net),
            )))
          _ refl in
      record {
        done = d.done;
        world = d.world;
        runs = rw (◌>>=◌, addressed) d.runs;
        once = d.once;
        means = λ p. (ip, addressed, d.means p);
      }

  -- Over stream sockets, and for every descriptor but 0: where the answer of the second web server
  -- behind the connection gives a text that fits its array and with the uuid a packet,
  -- `command_metadata_report` returns and closes the descriptor as often as it opens it. If it
  -- returns TRUE, it sent the frame with the uuid, this text and whether the metadata server gave a
  -- status on the socket of its tries, behind both answers, and then received a whole frame from it
  -- whose data is one number, which is not `ERR_FAILED`.
  pub command_metadata_report-Reported :
      (fd : ℤ)
      → ¬ (fd ≡ pos 0)
      → (w : World N)
      → ((sock : ℤ) (start : World N)
          → metadata_tries w ≡ ok (some sock, start)
          → (ip : List ℕ) × (external_address (address_answer curl first second start.net).0
              ≡ ok ip)
            × (length (metadata_bytes conninfo ip true) ≤ 2 ^ 30))
      → Reported fd metadata_tries Told w (command_metadata_report os curl first second conninfo w)
  unfolding command_metadata_report
  command_metadata_report-Reported fd h w addresses =
      connected-Reported os fd h (exceed os "Connect try count exceed - command_metadata_report")
        (exceed-Closing os fd "Connect try count exceed - command_metadata_report") conninfo.ip
        conninfo.port metadata_on Told w
        (λ sock w' connects.
          let (ip, addressed, small) = addresses sock w' connects in
          metadata_by sock w' ip addressed small)
