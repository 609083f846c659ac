-- ===== src/Main/Setup.antt =====
-- What main.cpp finds out about the machine: its server type, its metadata and its address.
use Prim.Native.String.{String}
use dummy_client.Common.{
  ℕ, Option, none, some, List, [], ◌∷◌, if◌then◌else◌, length, ltb, codes, same_text, replicate,
  ◌==◌,
}
use dummy_client.Common.Int.{ℤ, pos, negsuc}
use dummy_client.Outcome.{Outcome, ok, fault, out_of_bounds, uninitialised}
use dummy_client.Trace.{info, chars_param, chars_params}
use dummy_client.Packet.State.{Cell}
use dummy_client.Packet.Writes.{until_nul}
use dummy_client.RestClient.{Curl, get}
use dummy_client.Connect.{C, ◌>>=◌, ◌>>◌, pure, log_line}
use dummy_client.Json.{Json}
use dummy_client.JsonParser.{JsonParser, new_parser, init_data, read_parse, read_value_string}
use dummy_client.Commands.{metadata_url, address_url}
use dummy_client.Main.{Settings}

-- The fields of `conninfo` that `main` fills. A pointer that it does not set is `none`: the variable
-- is not initialised.
pub record Setup : Type 0 where
  pub server_type : ℤ
  pub uuid : Option (List ℕ)
  pub availability_zone : Option (List ℕ)
  pub host : Option (List ℕ)
  pub metaname : Option (List ℕ)
  pub external_ip : Option (List ℕ)

-- The C string in an array.
unfoldable pub array_text : List Cell → Outcome (List ℕ)
array_text [] = fault out_of_bounds
array_text (none ∷ cells) = fault uninitialised
array_text (some b ∷ cells) =
    let rest = array_text cells in
    if b == 0 then ok [] else elim rest [ ok text ↦ ok (b ∷ text) | fault e ↦ fault e ]

-- An array that `memset` cleared.
abbrev pub cleared : ℕ → List Cell
cleared size = replicate size (some 0)

-- `strcmp("VM", SERVER_TYPE)`.
unfoldable pub server_type_of : List ℕ → ℤ
server_type_of server_type = if same_text (codes "VM") server_type then pos 1 else pos 0

module _ {Value Double : Type 0} (json : Json Value Double) where
  -- `ReadValueString` into a cleared array of `size` bytes, and the text that `conninfo` has then.
  unfoldable pub read_text : List ℕ → ℕ → JsonParser Value → Outcome (Option (List ℕ))
  read_text key size p = elim (read_value_string json key (cleared size) p) [
    | fault e ↦ fault e
    | ok none ↦ ok none
    | ok (some cells) ↦ elim (array_text cells) [ fault e ↦ fault e | ok text ↦ ok (some text) ]
  ]

  -- A text that is found is logged.
  unfoldable pub take_text :
      {N : Type 0} → String → List ℕ → ℕ → JsonParser Value → C N (Option (List ℕ))
  take_text message key size p w = elim (read_text key size p) [
    | fault e ↦ fault e
    | ok none ↦ ok (none, w)
    | ok (some text) ↦ (log_line info message (negsuc 0) (chars_param text) >> pure (some text)) w
  ]

  -- The address is the whole answer, if it is not empty.
  unfoldable pub take_address : {N : Type 0} → List ℕ → C N (Option (List ℕ))
  take_address body =
      if ltb 0 (length body)
      then (log_line info "myip : " (negsuc 0) (chars_param (until_nul body))
          >> pure (some (until_nul body)))
      else pure none

  unfoldable pub get_address : {N : Type 0} → Curl N → ℤ → C N (Option (List ℕ))
  get_address curl indeterminate w =
      let (res, net) = get curl indeterminate address_url [] w.net in
      (take_address res.body >>= λ external_ip.
      log_line info "MetadataURL : " (negsuc 0) (chars_params metadata_url (until_nul res.body))
      >> pure external_ip)
        (record w { net = net })

  -- From `conninfo.server_type` on, by the codes that the two responses start with.
  unfoldable pub find_out : {N : Type 0} → Curl N → ℤ → ℤ → Settings → C N Setup
  find_out curl first second settings w =
      let (res, net) = get curl first metadata_url [] w.net in
      let p = (read_parse json (init_data json (until_nul res.body) (pos 0) (new_parser json))).1 in
      (take_text "Meta UUID : " (codes "uuid") 128 p >>= λ uuid.
      take_text "Meta Availability_zone" (codes "availability_zone") 32 p >>= λ availability_zone.
      take_text "Meta Hostname" (codes "hostname") 32 p >>= λ host.
      take_text "VM Name" (codes "name") 32 p >>= λ metaname.
      get_address curl second >>= λ external_ip. pure (record {
        server_type = server_type_of settings.server_type;
        uuid = uuid;
        availability_zone = availability_zone;
        host = host;
        metaname = metaname;
        external_ip = external_ip;
      }))
        (record w { net = net })
