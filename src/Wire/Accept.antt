-- ===== src/Wire/Accept.antt =====
-- `ReceivePacket`: what it accepts.
use dummy_client.Common.{ℕ, ◌≡◌, ◌≢◌, refl, sym, arith}
use dummy_client.Common.{Option, none, some, List, ◌++◌, Bool, true, false, length}
use dummy_client.Common.{inl, inr, ◌||◌, not, ◌==◌, Bool-cases}
use mathlib.Core.Path.{subst}
use native.Mathlib.Decide.{ℕ_discrete}
use dummy_client.Common.Int.{ℤ, pos, eqb_ℤ-ne}
use dummy_client.Outcome.{ok}
use dummy_client.Packet.State.{Session}
use dummy_client.Os.{Os, ReadLaws}
use dummy_client.Wire.{
  byte_at, body_length, count_read, protocol_ver, read_some, receive_body, receive_header,
  receive_packet, report_always,
}
use dummy_client.Wire.Body.{Returned, Returned-no, receive_body-Returned}
use dummy_client.Wire.Filled.{text_error, renewed, report_always-Rewinds, pos-injective}

-- The start of a frame, as `ReceivePacket` checks it.
abbrev pub StrictStart : List ℕ → Type 0
StrictStart h = (byte_at 0 h ≡ 0xff) × (byte_at 1 h ≡ 0xff) × (byte_at 2 h ≡ protocol_ver)

module _ {N : Type 0} (os : Os N) (incoming : ℤ → N → List ℕ) (laws : ReadLaws os incoming) where
  module _ (s : Session N) (header before : List ℕ) where
    -- The test of the first two bytes.
    abbrev magic_wrong : Bool
    magic_wrong = not (byte_at 0 header == 0xff) || not (byte_at 1 header == 0xff)

    header_magic :
        magic_wrong ≡ true
        → receive_header os header s
          ≡ ok (
            false,
            renewed s s.packet s.net (text_error s "CPacket::ReceivePacket" "header 체크 오류"),
          )
    unfolding receive_header
    header_magic wrong = ground (arith, wrong)

    header_version :
        magic_wrong ≡ false
        → byte_at 2 header ≢ protocol_ver
        → receive_header os header s
          ≡ ok (
            false,
            renewed s s.packet s.net (text_error s "CPacket::ReceivePacket" "version 체크 오류"),
          )
    unfolding receive_header
    header_version right other = ground (arith, right, other)

    pub header_goes :
        magic_wrong ≡ false
        → byte_at 2 header ≡ protocol_ver
        → receive_header os header s
          ≡ receive_body os "CPacket::ReceivePacket" (report_always os) header s
    unfolding receive_header
    header_goes right version = ground (arith, right, version)

    strict_start : magic_wrong ≡ false → byte_at 2 header ≡ protocol_ver → StrictStart header
    strict_start right version = ground (arith, right, version)

    receive_header-Returned :
        length header ≡ 10
        → before ≡ header ++ incoming s.packet.client_sockfd s.net
        → Returned os incoming laws StrictStart s.packet.client_sockfd before
            (receive_header os header s)
    receive_header-Returned ten came = elim (Bool-cases magic_wrong) [
      | inl wrong ↦ Returned-no os incoming laws s.packet s.net _ (header_magic wrong)
      | inr right ↦ elim (ℕ_discrete (byte_at 2 header) protocol_ver) [
        | no other ↦ Returned-no os incoming laws s.packet s.net _ (header_version right other)
        | yes version ↦
            subst (Returned os incoming laws StrictStart s.packet.client_sockfd before)
              (sym (header_goes right version))
              (receive_body-Returned os incoming laws "CPacket::ReceivePacket" (report_always os)
                (report_always-Rewinds os) s header before (body_length header) refl ten
                (strict_start right version) came)
      ]
    ]

  packet_short :
      (s : Session N) (r : Option (List ℕ)) (w : N)
      → os.read s.packet.client_sockfd 10 s.net ≡ (r, w)
      → count_read r ≢ pos 10
      → receive_packet os s
        ≡ ok (false, renewed s s.packet w (text_error s "CPacket::ReceivePacket" "header read()"))
  unfolding receive_packet read_some
  packet_short s r w e h = ground (arith, eqb_ℤ-ne (count_read r) (pos 10) h)

  pub packet_header :
      (s : Session N) (header : List ℕ) (w : N)
      → os.read s.packet.client_sockfd 10 s.net ≡ (some header, w)
      → length header ≡ 10
      → receive_packet os s ≡ receive_header os header (record s { net = w })
  unfolding receive_packet read_some
  packet_header s header w e ten = ground arith

  packet_by :
      (s : Session N) (r : Option (List ℕ)) (w : N)
      → os.read s.packet.client_sockfd 10 s.net ≡ (r, w)
      → Returned os incoming laws StrictStart s.packet.client_sockfd
          (incoming s.packet.client_sockfd s.net)
          (receive_packet os s)
  packet_by s none w e =
      Returned-no os incoming laws s.packet w _ (packet_short s none w e (λ p. cc))
  packet_by s (some header) w e = elim (ℕ_discrete (length header) 10) [
    | no other ↦
        Returned-no os incoming laws s.packet w _
          (packet_short s (some header) w e (λ p. other (pos-injective _ _ p)))
    | yes ten ↦
        subst
          (Returned os incoming laws StrictStart s.packet.client_sockfd
            (incoming s.packet.client_sockfd s.net))
          (sym (packet_header s header w e ten))
          (receive_header-Returned (record s { net = w }) header _ ten
            (laws.read_some _ _ _ _ _ e).1)
  ]

  -- Over a stream socket, `ReceivePacket` returns from every packet and on every input, however few
  -- bytes each `read` gives. If it returns TRUE, the bytes that it took from the stream are a
  -- header of ten bytes with the right magic and version and exactly the data of the length in it,
  -- the packet has the category and the command of the header, and it holds that data, with its
  -- pointer at the start.
  pub receive_packet-Returned :
      (s : Session N)
      → Returned os incoming laws StrictStart s.packet.client_sockfd
          (incoming s.packet.client_sockfd s.net)
          (receive_packet os s)
  receive_packet-Returned s = packet_by s _ _ refl
