-- ===== src/Wire/Select.antt =====
-- `ReceivePacket_Select`: what it accepts.
use Prim.Native.String.{String}
use dummy_client.Common.{ℕ, ◌≡◌, ◌≢◌, refl, sym, arith, true, false, ◌||◌, not}
use dummy_client.Common.{
  Option, none, some, List, ◌∷◌, ◌++◌, length, ◌==◌, Bool-cases, inl, inr, if◌then◌else◌,
}
use native.Mathlib.Decide.{ℕ_discrete}
use mathlib.Core.Path.{subst}
use dummy_client.Common.Int.{ℤ, pos, negsuc, eqb_ℤ, eqb_ℤ-ne}
use dummy_client.Trace.{Trace, logged, error, info, no_param, int_param}
use dummy_client.Outcome.{ok}
use dummy_client.Packet.State.{Session}
use dummy_client.Os.{Os, ReadLaws, SelectLaws, in_set}
use dummy_client.Wire.{
  read_some, rewind, report_flagged, select_header, call_select, wait_readable, select_read,
  receive_packet_select, receive_body, body_length, byte_at, protocol_ver, count_read,
}
use dummy_client.Wire.Body.{Returned, Returned-no, receive_body-Returned}
use dummy_client.Wire.Filled.{text_error, renewed, Rewinds, pos-injective}

-- The start of a frame, as `ReceivePacket_Select` checks it: the first two bytes are not tested.
abbrev pub LooseStart : List ℕ → Type 0
LooseStart h = byte_at 2 h ≡ protocol_ver

report_flagged-Rewinds : {N : Type 0} (os : Os N) → Rewinds (report_flagged os)
unfolding report_flagged rewind
report_flagged-Rewinds os s = elim (Bool-cases (eqb_ℤ s.packet.logflag (pos 0))) [
  | inl e ↦ (s.trace, rw e refl)
  | inr e ↦ (
    logged (record {
      level = info;
      message = "CPacket::ReceivePacket_Select()";
      sockfd = s.packet.client_sockfd;
      param = int_param s.packet.command;
    })
        ∷ s.trace,
    rw e refl,
  )
]

module _ {N : Type 0} (os : Os N) (incoming : ℤ → N → List ℕ) (laws : ReadLaws os incoming) where
  module _ (s : Session N) (header before : List ℕ) where
    -- The trace behind the test of the first two bytes.
    abbrev tested : Session N
    tested = record s {
      trace =
          if not (byte_at 0 header == 0xff) || not (byte_at 1 header == 0xff)
          then text_error s "CPacket::ReceivePacket_Select" "header 체크 오류"
          else s.trace;
    }

    header_version :
        byte_at 2 header ≢ protocol_ver
        → select_header os header s
          ≡ ok (
            false,
            renewed s s.packet s.net
                (text_error tested "CPacket::ReceivePacket_Select()" "version 체크 오류"),
          )
    unfolding select_header
    header_version other = ground (arith, other)

    header_goes :
        byte_at 2 header ≡ protocol_ver
        → select_header os header s
          ≡ receive_body os "CPacket::ReceivePacket_Select()" (report_flagged os) header tested
    unfolding select_header
    header_goes version =
        let right : (byte_at 2 header == protocol_ver) ≡ true = ground (arith, version) in
        elim (Bool-cases (not (byte_at 0 header == 0xff) || not (byte_at 1 header == 0xff))) [
          | inl wrong ↦ rw (wrong, right) refl
          | inr good ↦ rw (good, right) refl
        ]

    select_header-Returned :
        length header ≡ 10
        → before ≡ header ++ incoming s.packet.client_sockfd s.net
        → Returned os incoming laws LooseStart s.packet.client_sockfd before
            (select_header os header s)
    select_header-Returned ten came = elim (ℕ_discrete (byte_at 2 header) protocol_ver) [
      | no other ↦ Returned-no os incoming laws s.packet s.net _ (header_version other)
      | yes version ↦
          subst (Returned os incoming laws LooseStart s.packet.client_sockfd before)
            (sym (header_goes version))
            (receive_body-Returned os incoming laws "CPacket::ReceivePacket_Select()"
              (report_flagged os) (report_flagged-Rewinds os) tested header before
              (body_length header) refl ten version came)
    ]

  read_short :
      (s : Session N) (r : Option (List ℕ)) (w : N)
      → os.read s.packet.client_sockfd 10 s.net ≡ (r, w)
      → count_read r ≢ pos 10
      → select_read os s
        ≡ ok (
          false,
          renewed s s.packet w (text_error s "CPacket::ReceivePacket_Select()" "header read()"),
        )
  unfolding select_read read_some
  read_short s r w e h = ground (arith, eqb_ℤ-ne (count_read r) (pos 10) h)

  read_header :
      (s : Session N) (header : List ℕ) (w : N)
      → os.read s.packet.client_sockfd 10 s.net ≡ (some header, w)
      → length header ≡ 10
      → select_read os s ≡ select_header os header (record s { net = w })
  unfolding select_read read_some
  read_header s header w e ten = ground arith

  read_by :
      (s : Session N) (r : Option (List ℕ)) (w : N)
      → os.read s.packet.client_sockfd 10 s.net ≡ (r, w)
      → Returned os incoming laws LooseStart s.packet.client_sockfd
          (incoming s.packet.client_sockfd s.net)
          (select_read os s)
  read_by s none w e = Returned-no os incoming laws s.packet w _ (read_short s none w e (λ p. cc))
  read_by s (some header) w e = elim (ℕ_discrete (length header) 10) [
    | no other ↦
        Returned-no os incoming laws s.packet w _
          (read_short s (some header) w e (λ p. other (pos-injective _ _ p)))
    | yes ten ↦
        subst
          (Returned os incoming laws LooseStart s.packet.client_sockfd
            (incoming s.packet.client_sockfd s.net))
          (sym (read_header s header w e ten))
          (select_header-Returned (record s { net = w }) header _ ten
            (laws.read_some _ _ _ _ _ e).1)
  ]

  module _ (keeps : SelectLaws os incoming) (s : Session N) where
    -- The network behind `select`, and the trace behind the message.
    abbrev waited : N
    waited = (os.select s.packet.client_sockfd 2 s.net).1

    abbrev plain_error : String → Trace
    plain_error message =
        logged (record {
          level = error;
          message = message;
          sockfd = s.packet.client_sockfd;
          param = no_param;
        })
        ∷ s.trace

    reads_on :
        in_set s.packet.client_sockfd ≡ true
        → eqb_ℤ (os.select s.packet.client_sockfd 2 s.net).0 (pos 0) ≡ false
        → eqb_ℤ (os.select s.packet.client_sockfd 2 s.net).0 (negsuc 0) ≡ false
        → receive_packet_select os s ≡ select_read os (record s { net = waited })
    unfolding receive_packet_select wait_readable call_select
    reads_on placed here ready = ground (arith, placed, here, ready)

    -- Over a stream socket that an `fd_set` has a place for, `ReceivePacket_Select` returns from
    -- every packet and on every input. If it returns TRUE, what it took from the stream is a header
    -- of ten bytes with the right version, whose first two bytes may be any, and exactly the data of
    -- the length in it; the packet has the category and the command of the header, and it holds that
    -- data, with its pointer at the start.
    pub receive_packet_select-Returned :
        in_set s.packet.client_sockfd ≡ true
        → Returned os incoming laws LooseStart s.packet.client_sockfd
            (incoming s.packet.client_sockfd s.net)
            (receive_packet_select os s)
    unfolding receive_packet_select wait_readable call_select
    receive_packet_select-Returned placed =
        let result : ℤ = (os.select s.packet.client_sockfd 2 s.net).0 in
        elim (Bool-cases (eqb_ℤ result (pos 0))) [
          | inl late ↦
              Returned-no os incoming laws s.packet waited
                (plain_error "CPacket::ReceivePacket_Select() - RECEIVE TIMEOUT")
                (ground (arith, placed, late))
          | inr here ↦ elim (Bool-cases (eqb_ℤ result (negsuc 0))) [
            | inl gone ↦
                Returned-no os incoming laws s.packet waited
                  (plain_error "CPacket::ReceivePacket_Select() - SOCKET CLOSE")
                  (ground (arith, placed, here, gone))
            | inr ready ↦
                subst
                  (Returned os incoming laws LooseStart s.packet.client_sockfd
                    (incoming s.packet.client_sockfd s.net))
                  (sym (reads_on placed here ready))
                  (subst
                    (λ before.
                      Returned os incoming laws LooseStart s.packet.client_sockfd before
                        (select_read os (record s { net = waited })))
                    (keeps.select_keeps s.packet.client_sockfd 2 s.net)
                    (read_by (record s { net = waited }) _ _ refl))
          ]
        ]
