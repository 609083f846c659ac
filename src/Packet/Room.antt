-- ===== src/Packet/Room.antt =====
-- `CheckDataBuffer` makes the room that it is asked for, up to a packet of 2 ^ 30 bytes.
use dummy_client.Common.{ℕ, zero, suc, ◌+◌, ◌*◌, ◌^◌, ◌≤◌, ◌≡◌, ◌∙◌, refl, ap, arith}
use dummy_client.Common.{inl, inr, List, true, false}
use dummy_client.Common.{length, ltb, ltb→lt, Bool-cases}
use dummy_client.Common.Int.{pos, sub_int-pos}
use dummy_client.Outcome.{Outcome, ok}
use dummy_client.Packet.State.{Cell, Packet, Session, bind-ok}
use dummy_client.Packet.Buffer.{enlarge, is_short, grow, check_data_buffer}
use dummy_client.Packet.Build.{
  Built, SameHead, SameHead-trans, Enlarged, enlarge-Built, with_packet, next_total,
  next_total-effective, effective, effective-pos, effective-same, next_total-pos,
}
use native.Mathlib.Nat.{pow-suc}

-- What a run of the loop, or of `check_data_buffer`, leaves: the same bytes and room for `size` more.
pub record Grown {N : Type 0} (s : Session N) (bs : List ℕ) (size : ℕ)
    (r : Outcome (Unit {0} × Session N)) : Type 0 where
  pub packet : Packet
  pub slack : List Cell
  pub runs : r ≡ ok (tt, with_packet s packet)
  pub built : Built packet bs slack
  pub head : SameHead s.packet packet
  pub room : size ≤ length slack

le→not_ltb : (a b : ℕ) → a ≤ b → ltb b a ≡ false
le→not_ltb a b h = ground arith

-- One doubling less to go.
doubled :
    (t fuel need : ℕ)
    → need ≤ effective t * 2 ^ suc fuel
    → need ≤ effective (next_total t) * 2 ^ fuel
doubled t fuel need h =
    rw (next_total-effective t) (omega (arith, ap (λ (x : ℕ). effective t * x) (pow-suc 2 fuel)))

is_short-Built :
    {N : Type 0} (s : Session N) (bs : List ℕ) (slack : List Cell) (size : ℕ)
    → Built s.packet bs slack
    → is_short (pos size) s ≡ ok (ltb (length slack) size, s)
unfolding is_short
is_short-Built s bs slack size h =
    rw
      (
        h.is_length,
        h.is_pointer,
        sub_int-pos (length bs + length slack) (length bs) (omega arith) h.bounded,
      )
      (ground arith)

-- After a round the loop goes on in the session that `enlarge` left.
Grown-enlarge :
    {N : Type 0} (fuel : ℕ) (s : Session N) (bs : List ℕ) (size total : ℕ)
    → is_short (pos size) s ≡ ok (true, s)
    → (e : Enlarged s bs total)
    → Grown (with_packet s e.packet) bs size (grow fuel (pos size) (with_packet s e.packet))
    → Grown s bs size (grow (suc fuel) (pos size) s)
unfolding grow
Grown-enlarge fuel s bs size total short e g = record {
  packet = g.packet;
  slack = g.slack;
  runs = bind-ok (is_short (pos size)) _ short ∙ bind-ok enlarge _ e.runs ∙ g.runs;
  built = g.built;
  head = SameHead-trans e.head g.head;
  room = g.room;
}

Grown-enough :
    {N : Type 0} (fuel : ℕ) (s : Session N) (bs : List ℕ) (slack : List Cell) (size : ℕ)
    → Built s.packet bs slack
    → ltb (length slack) size ≡ false
    → Grown s bs size (grow (suc fuel) (pos size) s)
unfolding grow
Grown-enough fuel s bs slack size h enough = record {
  packet = s.packet;
  slack = slack;
  runs =
      bind-ok (is_short (pos size)) _
        (is_short-Built s bs slack size h ∙ ap (λ b. ok (b, s)) enough);
  built = h;
  head = record { category = refl; command = refl; client_sockfd = refl; logflag = refl };
  room = ground arith;
}

-- The loop with `fuel` rounds left after this one, where so many doublings suffice.
grow-Built :
    {N : Type 0} (fuel : ℕ) (s : Session N) (bs : List ℕ) (slack : List Cell) (size : ℕ)
    → Built s.packet bs slack
    → length bs + size ≤ 2 ^ 30
    → length bs + size ≤ effective (length bs + length slack) * 2 ^ fuel
    → 1 ≤ length bs + length slack + fuel
    → Grown s bs size (grow (suc fuel) (pos size) s)
grow-Built zero s bs slack size h small reach some_left = Grown-enough zero s bs slack size h (
    le→not_ltb size (length slack)
      (omega (arith, effective-same (length bs + length slack) (omega arith))))
grow-Built (suc fuel) s bs slack size h small reach some_left =
    elim (Bool-cases (ltb (length slack) size)) [
      | inr enough ↦ Grown-enough (suc fuel) s bs slack size h enough
      | inl short ↦
          let e : Enlarged s bs (next_total (length bs + length slack)) =
            enlarge-Built s bs slack h (omega (arith, ltb→lt (length slack) size short)) in
          let total = length bs + length slack in
          Grown-enlarge (suc fuel) s bs size _ (rw (is_short-Built s bs slack size h, short) refl) e
            (grow-Built fuel (with_packet s e.packet) bs e.slack size e.built small
              (rw e.total_is (doubled total fuel (length bs + size) reach))
              (rw e.total_is (omega (arith, next_total-pos total))))
    ]

-- On a packet under construction, `CheckDataBuffer` returns whenever the bytes written and those
-- asked for are at most 2 ^ 30 together: it leaves room for the bytes asked for, keeps the bytes
-- written and the other fields, and logs nothing.
pub check_data_buffer-Built :
    {N : Type 0} (s : Session N) (bs : List ℕ) (slack : List Cell) (size : ℕ)
    → Built s.packet bs slack
    → length bs + size ≤ 2 ^ 30
    → Grown s bs size (check_data_buffer (pos size) s)
unfolding check_data_buffer
check_data_buffer-Built s bs slack size h small =
    grow-Built 33 s bs slack size h small
      (omega (arith, effective-pos (length bs + length slack) h.roomy)) (omega arith)
