-- ===== src/Wire/Frame.antt =====
-- The frame of a packet, and what `SendPacket` as a whole puts on the wire.
use dummy_client.Common.{ℕ, suc, ◌+◌, ◌%◌, ◌^◌, ◌≤◌, ◌≡◌, ◌∙◌, ◌≢◌, refl, sym, ap, arith}
use dummy_client.Common.{List, [], ◌∷◌, ◌++◌, Bool, true, false, ◌⊎◌, inl, inr}
use dummy_client.Common.{
  length, length-append, take, take-append_less, take-append_past, take_all, append_assoc,
  append-nil,
}
use native.Mathlib.Decide.{ℕ_discrete}
use mathlib.Core.Path.{subst}
use dummy_client.Common.Int.{ℤ, pos, negsuc, bits8, eqb_ℤ-ne}
use dummy_client.Bytes.Order.{big_endian32, store32-swap32}
use dummy_client.Trace.{Trace, logged, error, int_param, text_param}
use dummy_client.Outcome.{Outcome, ok}
use dummy_client.Packet.State.{Cell, Packet, Session}
use dummy_client.Packet.Build.{Built}
use dummy_client.Os.{Os, WriteLaws}
use dummy_client.Wire.{protocol_ver, write_some, send_loop, send_frame, send_header, send_packet}
use dummy_client.Wire.Send.{after, SentData, send_loop-sends}

-- Magic, version, the whole length, category, command and a 0, and then the data.
abbrev pub frame_header : ℤ → ℤ → ℕ → List ℕ
frame_header category command n =
    0xff
    ∷ 0xff
    ∷ protocol_ver
    ∷ (big_endian32 (n + 10) ++ (bits8 category ∷ bits8 command ∷ 0 ∷ []))

abbrev pub frame : ℤ → ℤ → List ℕ → List ℕ
frame category command bs = frame_header category command (length bs) ++ bs

pub send_header-frame :
    (p : Packet) (bs : List ℕ) (slack : List Cell)
    → Built p bs slack
    → send_header p ≡ frame_header p.category p.command (length bs)
unfolding send_header
send_header-frame p bs slack h =
    rw (h.is_pointer, store32-swap32 ((length bs + 10) % 2 ^ 32))
      (ap
        (λ n.
          0xff
          ∷ 0xff
          ∷ protocol_ver
          ∷ (big_endian32 n ++ (bits8 p.category ∷ bits8 p.command ∷ 0 ∷ [])))
        (omega (arith, h.bounded)))

pos-injective : (m n : ℕ) → pos m ≡ pos n → m ≡ n
pos-injective m n e = cc

module _ {N : Type 0} (os : Os N) (sent : ℤ → N → List ℕ) (laws : WriteLaws os sent) where
  -- What a run of `SendPacket` leaves: so many bytes of `out` have been sent.
  pub record SentFrame (s : Session N) (out : List ℕ) (r : Outcome (Bool × Session N))
      : Type 0 where
    pub done : Bool
    pub count : ℕ
    pub net : N
    pub trace : Trace
    pub runs : r ≡ ok (done, after s net trace)
    pub within : count ≤ length out
    pub sent_is :
        sent s.packet.client_sockfd net ≡ sent s.packet.client_sockfd s.net ++ take count out
    pub whole : done ≡ true → count ≡ length out

  -- The two error lines behind a header that was not written whole.
  abbrev header_errors : Session N → ℤ → Trace
  header_errors s nsend =
      logged (record {
        level = error;
        message = "CPacket::SendPacket";
        sockfd = s.packet.client_sockfd;
        param = text_param "header write()";
      })
      ∷ logged (record {
        level = error;
        message = "CPacket::SendPacket header length ";
        sockfd = s.packet.client_sockfd;
        param = int_param nsend;
      })
      ∷ s.trace

  send_frame-fails :
      (s : Session N) (z : ℤ) (w : N)
      → os.write s.packet.client_sockfd (send_header s.packet) s.net ≡ (z, w)
      → z ≢ pos 10
      → send_frame os s ≡ ok (false, after s w (header_errors s z))
  unfolding send_frame write_some
  send_frame-fails s z w e h = ground (arith, eqb_ℤ-ne z (pos 10) h)

  pub send_frame-goes :
      (s : Session N) (w : N)
      → os.write s.packet.client_sockfd (send_header s.packet) s.net ≡ (pos 10, w)
      → send_frame os s ≡ send_loop os (suc s.packet.data_pointer) 0 (after s w s.trace)
  unfolding send_frame write_some
  send_frame-goes s w e = ground arith

  module _ (s : Session N) (bs : List ℕ) (slack : List Cell) (h : Built s.packet bs slack) where
    abbrev header : List ℕ
    header = send_header s.packet

    length-header : length header ≡ 10
    length-header = ap length (send_header-frame s.packet bs slack h)

    SentFrame-data :
        (w : N)
        → os.write s.packet.client_sockfd header s.net ≡ (pos 10, w)
        → SentFrame s (header ++ bs) (send_frame os s)
    SentFrame-data w e =
        let base : List ℕ = sent s.packet.client_sockfd s.net ++ header in
        let start : sent s.packet.client_sockfd w ≡ base ++ take 0 bs =
          (laws.write_some _ _ _ _ _ e).1
          ∙ ap (λ xs. sent s.packet.client_sockfd s.net ++ xs)
              (take_all 10 header (omega (arith, length-header)))
          ∙ sym (append-nil base) in
        let d : SentData os sent laws (after s w s.trace) bs base
            (send_loop os (suc s.packet.data_pointer) 0 (after s w s.trace)) =
          send_loop-sends os sent laws (suc s.packet.data_pointer) (after s w s.trace) bs base slack
            0 h (omega (arith, h.is_pointer)) (omega arith) start in
        record {
          done = d.done;
          count = length header + d.total;
          net = d.net;
          trace = d.trace;
          runs = send_frame-goes s w e ∙ d.runs;
          within = omega (arith, length-append header bs, d.within);
          sent_is =
              d.sent_is
              ∙ append_assoc (sent s.packet.client_sockfd s.net) header (take d.total bs)
              ∙ ap (λ xs. sent s.packet.client_sockfd s.net ++ xs)
                  (sym (take-append_past d.total header bs));
          whole = λ p. omega (arith, length-append header bs, d.whole p);
        }

    SentFrame-header :
        (z : ℤ) (w : N)
        → os.write s.packet.client_sockfd header s.net ≡ (z, w)
        → SentFrame s (header ++ bs) (send_frame os s)
    SentFrame-header (negsuc k) w e = record {
      done = false;
      count = 0;
      net = w;
      trace = header_errors s (negsuc k);
      runs = send_frame-fails s (negsuc k) w e (λ p. cc);
      within = omega arith;
      sent_is = laws.write_none _ _ _ _ _ e ∙ sym (append-nil _);
      whole = λ p. cc;
    }
    SentFrame-header (pos k) w e = elim (ℕ_discrete k 10) [
      | no other ↦ record {
        done = false;
        count = k;
        net = w;
        trace = header_errors s (pos k);
        runs = send_frame-fails s (pos k) w e (λ p. other (pos-injective k 10 p));
        within = omega (arith, length-append header bs, (laws.write_some _ _ _ _ _ e).0);
        sent_is =
            (laws.write_some _ _ _ _ _ e).1
            ∙ ap (λ xs. sent s.packet.client_sockfd s.net ++ xs)
                (sym (take-append_less k header bs (laws.write_some _ _ _ _ _ e).0));
        whole = λ p. cc;
      }
      | yes ten ↦ SentFrame-data w (e ∙ ap (λ n. (pos n, w)) ten)
    ]

    -- Over a stream socket, `SendPacket` of a packet under construction with a category and a
    -- command that are not 0 returns, however few bytes each `write` takes: what it has sent is a
    -- front of the frame, the ten bytes of the header and then the packet's bytes, and the whole
    -- frame if it returns TRUE. It leaves the packet as it was.
    pub send_packet-SentFrame :
        s.packet.category ≢ pos 0
        → s.packet.command ≢ pos 0
        → SentFrame s (frame s.packet.category s.packet.command bs) (send_packet os s)
    unfolding send_packet
    send_packet-SentFrame ca co =
        rw (eqb_ℤ-ne s.packet.category (pos 0) ca, eqb_ℤ-ne s.packet.command (pos 0) co)
          (subst (λ xs. SentFrame s (xs ++ bs) (send_frame os s))
            (send_header-frame s.packet bs slack h) (SentFrame-header _ _ refl))

  -- Where the header is not written whole, nothing is sent behind it.
  pub send_packet-fails :
      (s : Session N) (bs : List ℕ) (slack : List Cell) (z : ℤ) (w : N)
      → Built s.packet bs slack
      → s.packet.category ≢ pos 0
      → s.packet.command ≢ pos 0
      → os.write s.packet.client_sockfd
          (frame_header s.packet.category s.packet.command (length bs))
          s.net
        ≡ (z, w)
      → z ≢ pos 10
      → (t : Trace) × (send_packet os s ≡ ok (false, after s w t))
  unfolding send_packet
  send_packet-fails s bs slack z w h ca co e short = (
    header_errors s z,
    rw (eqb_ℤ-ne s.packet.category (pos 0) ca, eqb_ℤ-ne s.packet.command (pos 0) co)
        (send_frame-fails s z w
          (subst (λ xs. os.write s.packet.client_sockfd xs s.net ≡ (z, w))
            (sym (send_header-frame s.packet bs slack h)) e)
          short),
  )

  -- A packet with no category or no command is not sent.
  pub send_packet-refuses :
      (s : Session N)
      → (s.packet.category ≡ pos 0) ⊎ (s.packet.command ≡ pos 0)
      → send_packet os s ≡ ok (false, s)
  unfolding send_packet
  send_packet-refuses s (inl e) = ground arith
  send_packet-refuses s (inr e) = ground arith
