-- ===== src/Packet/Strings.antt =====
-- `WriteString` and `WriteShortString` append a length and a text.
use dummy_client.Common.{ℕ, ◌+◌, ◌%◌, ◌^◌, ◌≤◌, ◌<◌, ◌≡◌, refl, sym, arith}
use mathlib.Core.Path.{subst, subst₂}
use dummy_client.Common.{List, ◌++◌, Bool, false, not, if◌then◌else◌, length, take_all}
use dummy_client.Common.{length-append}
use dummy_client.Common.Int.{ℤ, pos, bits16, bits32, signed32}
use dummy_client.Bytes.Order.{big_endian16, big_endian32}
use dummy_client.Packet.State.{Cell, Session, M, ◌>>=◌, pure}
use dummy_client.Packet.Writes.{
  write_short_int, write_int, write_char, until_nul, strlen, write_string, write_short_string,
  int_of_size,
}
use dummy_client.Packet.Build.{Built, with_packet}
use dummy_client.Packet.Appends.{
  Appended, Appended-then, write_int-Appended, write_short_int-Appended, write_char-Appended,
}

-- A text of less than 2 ^ 30 bytes has its length for its `int` size.
int_of_size-pos : (n : ℕ) → n < 2 ^ 31 → int_of_size n ≡ pos n
unfolding signed32
int_of_size-pos n h = ground arith

bits32-pos : (n : ℕ) → n < 2 ^ 31 → bits32 (pos n) ≡ n
unfolding bits32
bits32-pos n h = omega arith

bits16-pos : (n : ℕ) → bits16 (pos n) ≡ n % 2 ^ 16
unfolding bits16
bits16-pos n = refl

-- What `WriteString` sends of a text: its length and its bytes up to the first 0.
abbrev pub string_bytes : List ℕ → List ℕ
string_bytes text = big_endian32 (strlen text) ++ until_nul text

abbrev pub short_string_bytes : List ℕ → List ℕ
short_string_bytes text = big_endian16 (strlen text % 2 ^ 16) ++ until_nul text

-- A size, and then the text of that size.
abbrev then_text : {N : Type 0} → (ℤ → M N Bool) → List ℕ → ℤ → M N Bool
then_text write_size text size =
    write_size size >>= λ sized. if not sized then pure false else write_char text size

then_text-Appended :
    {N : Type 0} (s : Session N) (bs xs text : List ℕ) (write_size : ℤ → M N Bool)
    → Appended s bs xs (write_size (pos (length text)) s)
    → length bs + length xs + length text ≤ 2 ^ 30
    → Appended s bs (xs ++ text) (then_text write_size text (pos (length text)) s)
then_text-Appended s bs xs text write_size a small =
    Appended-then (write_size (pos (length text))) _ a (
      subst
        (λ t.
          Appended (with_packet s a.packet) (bs ++ xs) t
            (write_char text (pos (length text)) (with_packet s a.packet)))
        (take_all (length text) text (omega arith))
        (write_char-Appended (with_packet s a.packet) (bs ++ xs) a.slack a.built text (length text)
          (omega arith) (omega (arith, length-append bs xs))))

module _ {N : Type 0} (s : Session N) (bs : List ℕ) (slack : List Cell)
    (h : Built s.packet bs slack) where
  -- On a packet under construction with 2 ^ 30 bytes at most, these included, `WriteString` returns
  -- TRUE and appends the length of the text up to its first 0, in four bytes with the highest
  -- first, and then that text, behind the bytes already written, which it keeps with the packet's
  -- other fields.
  pub write_string-Appended :
      (text : List ℕ)
      → length bs + 4 + strlen text ≤ 2 ^ 30
      → Appended s bs (string_bytes text) (write_string text s)
  unfolding write_string strlen
  write_string-Appended text small =
      let n : ℕ = length (until_nul text) in
      subst₂
        (λ size w.
          Appended s bs (big_endian32 w ++ until_nul text)
            (then_text write_int (until_nul text) size s))
        (sym (int_of_size-pos n (omega arith))) (bits32-pos n (omega arith))
        (then_text-Appended s bs (big_endian32 (bits32 (pos n))) (until_nul text) write_int
          (write_int-Appended s bs slack h (pos n) (omega arith)) (omega arith))

  -- On a packet under construction with 2 ^ 30 bytes at most, these included, `WriteShortString`
  -- returns TRUE and appends the length of the text up to its first 0, modulo 2 ^ 16 and in two
  -- bytes with the highest first, and then that text, behind the bytes already written, which it
  -- keeps with the packet's other fields.
  pub write_short_string-Appended :
      (text : List ℕ)
      → length bs + 2 + strlen text ≤ 2 ^ 30
      → Appended s bs (short_string_bytes text) (write_short_string text s)
  unfolding write_short_string strlen
  write_short_string-Appended text small =
      let n : ℕ = length (until_nul text) in
      subst₂
        (λ size w.
          Appended s bs (big_endian16 w ++ until_nul text)
            (then_text write_short_int (until_nul text) size s))
        (sym (int_of_size-pos n (omega arith))) (bits16-pos n)
        (then_text-Appended s bs (big_endian16 (bits16 (pos n))) (until_nul text) write_short_int
          (write_short_int-Appended s bs slack h (pos n) (omega arith)) (omega arith))
