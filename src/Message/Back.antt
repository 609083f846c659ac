-- ===== src/Message/Back.antt =====
-- A message that a packet holds is read back.
use dummy_client.Common.{
  ℕ, ◌/◌, ◌%◌, ◌^◌, ◌<◌, ◌≡◌, ◌∙◌, refl, sym, ap, arith, Option, some, List, [], ◌∷◌, ◌++◌,
  append_assoc, append-nil, length,
}
use mathlib.Core.Path.{subst}
use dummy_client.Common.Int.{ℤ, pos, bits8, bits16, bits64}
use dummy_client.Bytes.Order.{big_endian16, big_endian32}
use dummy_client.Outcome.{Outcome, ok}
use dummy_client.Packet.State.{Session, M, ◌>>=◌, bind-ok}
use dummy_client.Packet.Reads.{
  read_tiny_int, read_short_int, read_int, read_big_int, read_short_string, read_string,
}
use dummy_client.Packet.Writes.{until_nul, strlen}
use dummy_client.Packet.Reading.{Holds, moved, moved-Holds, is_eod-Holds}
use dummy_client.Packet.RoundTrip.{
  read_tiny_int-back, read_short_int-word, read_int-back, read_big_int-back, read_string-back,
  read_short_string-back,
}
use dummy_client.Message.{
  Field, Slot, Value, as_number, as_array, read_slot, read_slots, read_message, field_bytes,
  message_bytes, Carries, tiny_carries, short_carries, int_carries, big_carries, short_text_carries,
  text_carries, AllCarry, no_more, one_more,
}

bits16_small : (n : ℕ) → n < 2 ^ 16 → bits16 (pos n) ≡ n
unfolding bits16
bits16_small n h = omega arith

-- A read that gave the value and moved the pointer behind these bytes; nothing else changed.
pub record Taken {N A : Type 0} (s : Session N) (front xs rest : List ℕ) (value : A)
    (r : Outcome (Option A × Session N)) : Type 0 where
  pub session : Session N
  pub runs : r ≡ ok (some value, session)
  pub holds : Holds session.packet (front ++ xs) rest
  pub quiet : (session.net ≡ s.net) × (session.trace ≡ s.trace)

module _ {N : Type 0} (s : Session N) (front rest : List ℕ) where
  number-Taken :
      (xs : List ℕ) (m : M N (Option ℤ)) (z : ℤ)
      → m s ≡ ok (some z, moved s (length xs))
      → Holds s.packet front (xs ++ rest)
      → Taken s front xs rest (Value.a_number z) ((m >>= as_number) s)
  number-Taken xs m z e h = record {
    session = moved s (length xs);
    runs = bind-ok m as_number e;
    holds = moved-Holds s front xs rest h;
    quiet = (refl, refl);
  }

  -- Bytes that are taken in two parts.
  moved_twice-Holds :
      (xs ys : List ℕ)
      → Holds s.packet front ((xs ++ ys) ++ rest)
      → Holds (moved (moved s (length xs)) (length ys)).packet (front ++ (xs ++ ys)) rest
  moved_twice-Holds xs ys h =
      subst (λ zs. Holds (moved (moved s (length xs)) (length ys)).packet zs rest)
        (append_assoc front xs ys)
        (moved-Holds (moved s (length xs)) (front ++ xs) ys rest (
          moved-Holds s front xs (ys ++ rest)
            (subst (Holds s.packet front) (append_assoc xs ys rest) h)))

  slot-Taken :
      {field : Field} {slot : Slot} {value : Value}
      → Carries field slot value
      → Holds s.packet front (field_bytes field ++ rest)
      → Taken s front (field_bytes field) rest value (read_slot slot s)
  unfolding strlen
  slot-Taken (tiny_carries z fits) h =
      number-Taken (bits8 z ∷ []) read_tiny_int z (read_tiny_int-back s front rest z fits h) h
  slot-Taken (short_carries n small) h =
      number-Taken (big_endian16 (bits16 (pos n))) read_short_int (pos n)
        (read_short_int-word s front rest (bits16 (pos n))
            (omega (arith, bits16_small n small, small)) h
          ∙ ap (λ w. ok (some (pos w), moved s 2)) (bits16_small n small))
        h
  slot-Taken (int_carries z fits) h =
      number-Taken _ read_int z (read_int-back s front rest z fits h) h
  slot-Taken (big_carries z fits) h = record {
    session = moved (moved s 4) 4;
    runs = bind-ok read_big_int as_number (read_big_int-back s front rest z fits h);
    holds =
        moved_twice-Holds (big_endian32 (bits64 z / 2 ^ 32)) (big_endian32 (bits64 z % 2 ^ 32)) h;
    quiet = (refl, refl);
  }
  slot-Taken (short_text_carries text target limit small under fits) h = record {
    session = moved (moved s 2) (strlen text);
    runs =
        bind-ok (read_short_string target (pos limit)) as_array
          (read_short_string-back s front rest text target limit h small under fits);
    holds = moved_twice-Holds (big_endian16 (strlen text % 2 ^ 16)) (until_nul text) h;
    quiet = (refl, refl);
  }
  slot-Taken (text_carries text target limit small under fits) h = record {
    session = moved (moved s 4) (strlen text);
    runs =
        bind-ok (read_string target (pos limit)) as_array
          (read_string-back s front rest text target limit h small under fits);
    holds = moved_twice-Holds (big_endian32 (strlen text)) (until_nul text) h;
    quiet = (refl, refl);
  }

no_slots :
    {N : Type 0} (s : Session N) (front rest : List ℕ)
    → Holds s.packet front rest
    → Taken s front [] rest [] (read_slots [] s)
unfolding read_slots
no_slots s front rest h = record {
  session = s;
  runs = refl;
  holds = subst (λ xs. Holds s.packet xs rest) (sym (append-nil front)) h;
  quiet = (refl, refl);
}

more_slots :
    {N : Type 0} (s : Session N) (front xs ys rest : List ℕ) (slot : Slot) (slots : List Slot)
    (value : Value) (values : List Value)
    → (a : Taken s front xs (ys ++ rest) value (read_slot slot s))
    → Taken a.session (front ++ xs) ys rest values (read_slots slots a.session)
    → Taken s front (xs ++ ys) rest (value ∷ values) (read_slots (slot ∷ slots) s)
unfolding read_slots
more_slots s front xs ys rest slot slots value values a b = record {
  session = b.session;
  runs = ground (arith, a.runs, b.runs);
  holds = subst (λ zs. Holds b.session.packet zs rest) (append_assoc front xs ys) b.holds;
  quiet = (b.quiet.0 ∙ a.quiet.0, b.quiet.1 ∙ a.quiet.1);
}

pub slots-Taken :
    {N : Type 0} (s : Session N) (front rest : List ℕ) {fields : List Field} {slots : List Slot}
    {values : List Value}
    → AllCarry fields slots values
    → Holds s.packet front (message_bytes fields ++ rest)
    → Taken s front (message_bytes fields) rest values (read_slots slots s)
unfolding message_bytes
slots-Taken s front rest no_more h = no_slots s front rest h
slots-Taken s front rest
      (one_more {field = field} {slot = slot} {value = value} {fields = fields} {slots = slots}
        {values = values} c cs)
      h =
    let xs : List ℕ = field_bytes field in
    let ys : List ℕ = message_bytes fields in
    let a : Taken s front xs (ys ++ rest) value (read_slot slot s) =
      slot-Taken s front (ys ++ rest) c
        (subst (Holds s.packet front) (append_assoc xs ys rest) h) in
    more_slots s front xs ys rest slot slots value values a
      (slots-Taken a.session (front ++ xs) rest cs a.holds)

-- A packet that holds the bytes of a message and no more gives the values of its slots.
pub read_message-back :
    {N : Type 0} (s : Session N) {fields : List Field} {slots : List Slot} {values : List Value}
    → AllCarry fields slots values
    → Holds s.packet [] (message_bytes fields)
    → (s' : Session N) × (read_message slots s ≡ ok (some values, s'))
      × ((s'.net ≡ s.net) × (s'.trace ≡ s.trace))
unfolding read_message
read_message-back s {fields = fields} {slots = slots} {values = values} cs h =
    let t : Taken s [] (message_bytes fields) [] values (read_slots slots s) =
      slots-Taken s [] [] cs
        (subst (Holds s.packet []) (sym (append-nil (message_bytes fields))) h) in
    (
      t.session,
      ground (arith, t.runs, is_eod-Holds t.session (message_bytes fields) [] t.holds),
      t.quiet,
    )
