-- ===== src/Main/Found.antt =====
-- What `main` finds out about the machine, where the texts of the metadata fit their arrays.
use Prim.Native.String.{String}
use dummy_client.Common.{
  ℕ, ◌≡◌, arith, Option, none, some, List, [], ◌∷◌, Bool-cases, inl, inr, length, ltb, codes,
}
use dummy_client.Common.Int.{ℤ, pos, negsuc}
use dummy_client.Outcome.{ok}
use dummy_client.Trace.{logged, info, chars_param, chars_params}
use dummy_client.Packet.Writes.{until_nul}
use dummy_client.RestClient.{Curl, get}
use dummy_client.Connect.{World}
use dummy_client.Json.{Json}
use dummy_client.JsonParser.{JsonParser, new_parser, init_data, read_parse}
use dummy_client.Commands.{metadata_url, address_url}
use dummy_client.Main.{Settings}
use dummy_client.Main.Setup.{
  Setup, read_text, take_text, take_address, get_address, find_out, server_type_of,
}

module _ {Value Double : Type 0} (json : Json Value Double) where
  -- The parser behind an answer with the metadata.
  abbrev pub parsed : List ℕ → JsonParser Value
  parsed body = (read_parse json (init_data json (until_nul body) (pos 0) (new_parser json))).1

  -- Each of the four texts is absent or has room in its array.
  pub record Readable (p : JsonParser Value) : Type 0 where
    pub uuid : (t : Option (List ℕ)) × (read_text json (codes "uuid") 128 p ≡ ok t)
    pub availability_zone :
        (t : Option (List ℕ)) × (read_text json (codes "availability_zone") 32 p ≡ ok t)
    pub host : (t : Option (List ℕ)) × (read_text json (codes "hostname") 32 p ≡ ok t)
    pub metaname : (t : Option (List ℕ)) × (read_text json (codes "name") 32 p ≡ ok t)

  module _ {N : Type 0} where
    take_text-returns :
        (message : String) (key : List ℕ) (size : ℕ) (p : JsonParser Value) (t : Option (List ℕ))
        (w : World N)
        → read_text json key size p ≡ ok t
        → (w' : World N) × (take_text json message key size p w ≡ ok (t, w'))
    unfolding take_text
    take_text-returns message key size p none w e = (w, ground (arith, e))
    take_text-returns message key size p (some text) w e = (
      record w {
        trace =
            logged (record {
              level = info;
              message = message;
              sockfd = negsuc 0;
              param = chars_param text;
            })
            ∷ w.trace;
      },
      ground (arith, e),
    )

    take_address-returns :
        (body : List ℕ) (w : World N)
        → (t : Option (List ℕ)) × (w' : World N) × (take_address json body w ≡ ok (t, w'))
    unfolding take_address
    take_address-returns body w = elim (Bool-cases (ltb 0 (length body))) [
      | inl more ↦ (
        some (until_nul body),
        record w {
          trace =
              logged (record {
                level = info;
                message = "myip : ";
                sockfd = negsuc 0;
                param = chars_param (until_nul body);
              })
              ∷ w.trace;
        },
        ground (arith, more),
      )
      | inr empty ↦ (none, w, ground (arith, empty))
    ]

    get_address-returns :
        (curl : Curl N) (indeterminate : ℤ) (w : World N)
        → (t : Option (List ℕ)) × (w' : World N) × (get_address json curl indeterminate w
            ≡ ok (t, w'))
    unfolding get_address
    get_address-returns curl indeterminate w =
        let (res, net) = get curl indeterminate address_url [] w.net in
        let (t, w', runs) = take_address-returns res.body (record w { net = net }) in
        (
          t,
          record w' {
            trace =
                logged (record {
                  level = info;
                  message = "MetadataURL : ";
                  sockfd = negsuc 0;
                  param = chars_params metadata_url (until_nul res.body);
                })
                ∷ w'.trace;
          },
          ground (arith, runs),
        )

    -- Where each text fits, `main` finds out about the machine.
    pub find_out-returns :
        (curl : Curl N) (first second : ℤ) (s : Settings) (w : World N)
        → Readable (parsed (get curl first metadata_url [] w.net).0.body)
        → (setup : Setup) × (w' : World N) × (find_out json curl first second s w ≡ ok (setup, w'))
    unfolding find_out
    find_out-returns curl first second s w readable =
        let (res, net) = get curl first metadata_url [] w.net in
        let p = parsed res.body in
        let r : Readable p = readable in
        let (a, ra) = r.uuid in
        let (b, rb) = r.availability_zone in
        let (c, rc) = r.host in
        let (d, rd) = r.metaname in
        let (wa, ea) =
          take_text-returns "Meta UUID : " (codes "uuid") 128 p a (record w { net = net }) ra in
        let (wb, eb) =
          take_text-returns "Meta Availability_zone" (codes "availability_zone") 32 p b wa rb in
        let (wc, ec) = take_text-returns "Meta Hostname" (codes "hostname") 32 p c wb rc in
        let (wd, ed) = take_text-returns "VM Name" (codes "name") 32 p d wc rd in
        let (e, we, ee) = get_address-returns curl second wd in
        (
          record {
            server_type = server_type_of s.server_type;
            uuid = a;
            availability_zone = b;
            host = c;
            metaname = d;
            external_ip = e;
          },
          we,
          ground (arith, ea, eb, ec, ed, ee),
        )
