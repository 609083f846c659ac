-- ===== src/Wire/Taken.antt =====
-- A packet goes out: `SendPacket` over a socket that takes what it is given.
use dummy_client.Common.{ℕ, zero, suc, ◌+◌, ◌-◌, ◌≤◌, ◌<◌, ◌≡◌, ◌≢◌, ◌∙◌, refl, sym, arith}
use dummy_client.Common.{some, List, true, length, drop, length-take, length-drop}
use mathlib.Core.Path.{subst}
use native.Mathlib.Decide.{dec_lt}
use dummy_client.Common.Int.{ℤ, pos, eqb_ℤ-ne}
use dummy_client.Outcome.{ok}
use dummy_client.Packet.State.{Cell, Session}
use dummy_client.Packet.Build.{Built}
use dummy_client.Os.{Os, WriteLaws}
use dummy_client.Wire.{send_loop, send_some, write_some, chunk_size, send_packet}
use dummy_client.Wire.Send.{
  after, chunk, chunk-load, chunk_size_bounds, send_loop-ends, send_loop-goes,
}
use dummy_client.Wire.Frame.{frame_header, send_header-frame, send_frame-goes}

-- Each `write` of something takes a byte at least.
pub record Taking {N : Type 0} (os : Os N) : Type 0 where
  pub takes :
      (fd : ℤ) (bs : List ℕ) (w : N)
      → 1 ≤ length bs
      → (k : ℕ) × (w' : N) × (os.write fd bs w ≡ (pos (suc k), w'))

module _ {N : Type 0} (os : Os N) (sent : ℤ → N → List ℕ) (laws : WriteLaws os sent)
    (taking : Taking os) where
  module _ (s : Session N) (bs : List ℕ) (slack : List Cell) (total : ℕ)
      (h : Built s.packet bs slack) (left : total < length bs) where
    chunk_some : 1 ≤ length (chunk os sent laws s bs total)
    chunk_some = omega (
      arith,
      left,
      length-take (chunk_size (length bs - total)) (drop total bs),
      length-drop total bs,
      chunk_size_bounds (length bs - total) (omega (arith, left)),
    )

    send_some-takes :
        (k : ℕ) (w : N)
        → os.write s.packet.client_sockfd (chunk os sent laws s bs total) s.net ≡ (pos (suc k), w)
        → send_some os total s ≡ ok (some (suc k), after s w s.trace)
    unfolding send_some write_some
    send_some-takes k w e = ground (arith, chunk-load os sent laws s bs total slack h left)

    -- No more than what was left is taken.
    taken_within :
        (k : ℕ) (w : N)
        → os.write s.packet.client_sockfd (chunk os sent laws s bs total) s.net ≡ (pos (suc k), w)
        → total + suc k ≤ length bs
    taken_within k w e = omega (
      arith,
      left,
      (laws.write_some _ _ _ _ _ e).0,
      length-take (chunk_size (length bs - total)) (drop total bs),
      chunk_size_bounds (length bs - total) (omega (arith, left)),
    )

  -- What each `write` keeps of the network, the loop keeps.
  module _ (fd : ℤ) (P : N → Type 0)
      (keeps : (bs : List ℕ) (n n' : N) (k : ℕ) → os.write fd bs n ≡ (pos k, n') → P n → P n') where
    send_loop-takes :
        (fuel : ℕ) (s : Session N) (bs : List ℕ) (slack : List Cell) (total : ℕ)
        → Built s.packet bs slack
        → length bs < total + fuel
        → total ≤ length bs
        → s.packet.client_sockfd ≡ fd
        → P s.net
        → (s' : Session N) × (send_loop os fuel total s ≡ ok (true, s')) × P s'.net
    send_loop-takes zero s bs slack total h enough within on p = absurd (omega arith)
    send_loop-takes (suc fuel) s bs slack total h enough within on p =
        elim (dec_lt total (length bs)) [
          | no finished ↦
              (s, send_loop-ends os sent laws fuel s total (omega (arith, h.is_pointer)), p)
          | yes left ↦
              let (k, w, e) =
                taking.takes s.packet.client_sockfd (chunk os sent laws s bs total) s.net
                  (chunk_some s bs slack total h left) in
              let (s', runs, kept) =
                send_loop-takes fuel (after s w s.trace) bs slack (total + suc k) h
                  (omega (arith, enough)) (taken_within s bs slack total h left k w e) on
                  (keeps _ s.net w (suc k)
                    (subst
                      (λ d. os.write d (chunk os sent laws s bs total) s.net ≡ (pos (suc k), w)) on
                      e)
                    p) in
              (
                s',
                send_loop-goes os sent laws fuel s (after s w s.trace) total (suc k)
                      (omega (arith, h.is_pointer, left))
                      (send_some-takes s bs slack total h left k w e)
                    ∙ runs,
                kept,
              )
        ]

  -- Over a stream socket that takes a byte at least of what it is given: where the first `write` takes
  -- the header whole, `SendPacket` of a packet under construction with a category and a command that
  -- are not 0 returns TRUE, and keeps of the network what each `write` keeps.
  pub send_packet-takes :
      (P : N → Type 0) (s : Session N) (bs : List ℕ) (slack : List Cell) (w : N)
      → ((xs : List ℕ) (n n' : N) (k : ℕ)
          → os.write s.packet.client_sockfd xs n ≡ (pos k, n')
          → P n
          → P n')
      → P s.net
      → Built s.packet bs slack
      → s.packet.category ≢ pos 0
      → s.packet.command ≢ pos 0
      → os.write s.packet.client_sockfd
          (frame_header s.packet.category s.packet.command (length bs))
          s.net
        ≡ (pos 10, w)
      → (s' : Session N) × (send_packet os s ≡ ok (true, s')) × P s'.net
  unfolding send_packet
  send_packet-takes P s bs slack w keeps p h ca co e =
      let (s', runs, kept) =
        send_loop-takes s.packet.client_sockfd P keeps (suc s.packet.data_pointer)
          (after s w s.trace) bs slack 0 h (omega (arith, h.is_pointer)) (omega arith) refl
          (keeps (frame_header s.packet.category s.packet.command (length bs)) s.net w 10 e p) in
      (
        s',
        rw (eqb_ℤ-ne s.packet.category (pos 0) ca, eqb_ℤ-ne s.packet.command (pos 0) co)
            (send_frame-goes os sent laws s w (
                subst (λ xs. os.write s.packet.client_sockfd xs s.net ≡ (pos 10, w))
                  (sym (send_header-frame s.packet bs slack h)) e)
              ∙ runs),
        kept,
      )
