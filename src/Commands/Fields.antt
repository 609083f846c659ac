-- ===== src/Commands/Fields.antt =====
-- The fields of a report, written one after the other.
use dummy_client.Common.{ℕ, ◌+◌, ◌^◌, ◌≤◌, refl, sym, arith, List, [], ◌∷◌, ◌++◌, Bool}
use dummy_client.Common.{length, length-append, append-nil, append_assoc}
use mathlib.Core.Path.{subst}
use dummy_client.Common.Int.{ℤ, bits32}
use dummy_client.Bytes.Order.{big_endian32}
use dummy_client.Packet.State.{Cell, Session, M}
use dummy_client.Packet.Writes.{write_string, write_int, strlen}
use dummy_client.Packet.Build.{Built, SameHead-trans, with_packet}
use dummy_client.Packet.Appends.{Appended, write_int-Appended}
use dummy_client.Packet.Strings.{string_bytes, write_string-Appended}
use dummy_client.Commands.{write_fields}

-- A write that appends these bytes to each packet that has room for them.
pub record Writes {N : Type 0} (xs : List ℕ) (m : M N Bool) : Type 0 where
  pub appends :
      (s : Session N) (bs : List ℕ) (slack : List Cell)
      → Built s.packet bs slack
      → length bs + length xs ≤ 2 ^ 30
      → Appended s bs xs (m s)

pub write_string-Writes :
    {N : Type 0} (text : List ℕ) → Writes {N = N} (string_bytes text) (write_string text)
unfolding strlen
write_string-Writes text = record {
  appends = λ s bs slack h small. write_string-Appended s bs slack h text (omega arith);
}

pub write_int-Writes : {N : Type 0} (z : ℤ) → Writes {N = N} (big_endian32 (bits32 z)) (write_int z)
write_int-Writes z = record {
  appends = λ s bs slack h small. write_int-Appended s bs slack h z (omega arith);
}

-- The bytes of all fields, and that each write appends its own.
pub data AllWrite {N : Type 0} : List (M N Bool) → List ℕ → Type 0 where
  nothing : AllWrite [] []
  also :
      {m : M N Bool} {ms : List (M N Bool)} {xs ys : List ℕ}
      → Writes xs m
      → AllWrite ms ys
      → AllWrite (m ∷ ms) (xs ++ ys)

no_fields :
    {N : Type 0} (s : Session N) (bs : List ℕ) (slack : List Cell)
    → Built s.packet bs slack
    → Appended s bs [] (write_fields [] s)
unfolding write_fields
no_fields s bs slack h = record {
  packet = s.packet;
  slack = slack;
  runs = refl;
  built = subst (λ xs. Built s.packet xs slack) (sym (append-nil bs)) h;
  head = record { category = refl; command = refl; client_sockfd = refl; logflag = refl };
}

more_fields :
    {N : Type 0} {s : Session N} {bs xs ys : List ℕ} (m : M N Bool) (ms : List (M N Bool))
    → (a : Appended s bs xs (m s))
    → Appended (with_packet s a.packet) (bs ++ xs) ys (write_fields ms (with_packet s a.packet))
    → Appended s bs (xs ++ ys) (write_fields (m ∷ ms) s)
unfolding write_fields
more_fields {bs = bs} {xs = xs} {ys = ys} m ms a b = record {
  packet = b.packet;
  slack = b.slack;
  runs = ground (arith, a.runs, b.runs);
  built = subst (λ zs. Built b.packet zs b.slack) (append_assoc bs xs ys) b.built;
  head = SameHead-trans a.head b.head;
}

-- Fields with room for all their bytes are written whole.
pub write_fields-Appended :
    {N : Type 0} {ms : List (M N Bool)} {xs : List ℕ} (s : Session N) (bs : List ℕ)
    (slack : List Cell)
    → AllWrite ms xs
    → Built s.packet bs slack
    → length bs + length xs ≤ 2 ^ 30
    → Appended s bs xs (write_fields ms s)
write_fields-Appended s bs slack nothing h small = no_fields s bs slack h
write_fields-Appended s bs slack (also {m = m} {ms = ms} {xs = xs} {ys = ys} w ws) h small =
    let a : Appended s bs xs (m s) = w.appends s bs slack h (omega (arith, length-append xs ys)) in
    more_fields m ms a (
      write_fields-Appended (with_packet s a.packet) (bs ++ xs) a.slack ws a.built
        (omega (arith, length-append xs ys, length-append bs xs)))
