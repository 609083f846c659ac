-- ===== src/Packet/RoundTrip.antt =====
-- What a `Write` method appends, the matching `Read` method gives back.
use dummy_client.Common.{ℕ, ◌^◌, ◌/◌, ◌%◌, ◌≤◌, ◌<◌, ◌≡◌, ◌∙◌, ap, arith}
use mathlib.Core.Path.{subst}
use dummy_client.Common.{some, List, ◌∷◌, ◌++◌, length}
use dummy_client.Common.Int.{
  ℤ, pos, FitsAt, bits8, bits32, bits64, signed32, signed64, signed8-bits8, signed32-bits32,
  bits32-lt, bits32-signed32, signed64-bits64, bits64-lt,
}
use dummy_client.Bytes.Order.{big_endian16, big_endian32, swap32-load32, swap16-load16}
use dummy_client.Outcome.{ok}
use dummy_client.Packet.State.{Cell, Session, bind-ok}
use dummy_client.Packet.Reads.{
  read_tiny_int, read_short_int, read_int, read_big_int, read_big_int_rest, join_parts,
  read_text_rest, read_string, read_short_string,
}
use dummy_client.Packet.Writes.{until_nul, strlen}
use dummy_client.Packet.Strings.{string_bytes, short_string_bytes}
use dummy_client.Packet.Reading.{
  Holds, moved, moved-Holds, read_tiny_int-Holds, read_short_int-Holds, read_int-Holds,
}
use dummy_client.Packet.Texts.{text_over, read_text_rest-Holds}

module _ {N : Type 0} (s : Session N) (front rest : List ℕ) where
  -- Any pattern of 32 bits in network order.
  pub read_int-word :
      (w : ℕ)
      → w < 2 ^ 32
      → Holds s.packet front (big_endian32 w ++ rest)
      → read_int s ≡ ok (some (signed32 w), moved s 4)
  read_int-word w small h =
      read_int-Holds s front rest _ _ _ _ h
      ∙ ap (λ v. ok (some (signed32 v), moved s 4)) (swap32-load32 w small)

  pub read_short_int-word :
      (w : ℕ)
      → w < 2 ^ 16
      → Holds s.packet front (big_endian16 w ++ rest)
      → read_short_int s ≡ ok (some (pos w), moved s 2)
  read_short_int-word w small h =
      read_short_int-Holds s front rest _ _ h
      ∙ ap (λ v. ok (some (pos v), moved s 2)) (swap16-load16 w small)

  -- `ReadInt` gives back an `int` whose four bytes come next, the highest first, and moves the
  -- pointer behind them.
  pub read_int-back :
      (z : ℤ)
      → FitsAt (2 ^ 32) z
      → Holds s.packet front (big_endian32 (bits32 z) ++ rest)
      → read_int s ≡ ok (some z, moved s 4)
  read_int-back z fits h =
      read_int-word (bits32 z) (bits32-lt z) h
      ∙ ap (λ v. ok (some v, moved s 4)) (signed32-bits32 z fits)

  pub read_tiny_int-back :
      (z : ℤ)
      → FitsAt (2 ^ 8) z
      → Holds s.packet front (bits8 z ∷ rest)
      → read_tiny_int s ≡ ok (some z, moved s 1)
  read_tiny_int-back z fits h =
      read_tiny_int-Holds s front rest (bits8 z) h
      ∙ ap (λ v. ok (some v, moved s 1)) (signed8-bits8 z fits)

-- The two halves of a 64-bit pattern, the upper one first.
join_halves :
    (w : ℕ) → w < 2 ^ 64 → join_parts (signed32 (w / 2 ^ 32)) (signed32 (w % 2 ^ 32)) ≡ signed64 w
unfolding join_parts
join_halves w h =
    rw (bits32-signed32 (w / 2 ^ 32) (omega arith), bits32-signed32 (w % 2 ^ 32) (omega arith))
      (ap signed64 (omega arith))

module _ {N : Type 0} (s : Session N) (front rest : List ℕ) where
  read_big_int-word :
      (w : ℕ)
      → w < 2 ^ 64
      → Holds s.packet front ((big_endian32 (w / 2 ^ 32) ++ big_endian32 (w % 2 ^ 32)) ++ rest)
      → read_big_int s ≡ ok (some (signed64 w), moved (moved s 4) 4)
  unfolding read_big_int read_big_int_rest
  read_big_int-word w small h = ground (
    arith,
    read_int-word s front (big_endian32 (w % 2 ^ 32) ++ rest) (w / 2 ^ 32) (omega arith) h,
    read_int-word (moved s 4) (front ++ big_endian32 (w / 2 ^ 32)) rest (w % 2 ^ 32) (omega arith)
        (moved-Holds s front (big_endian32 (w / 2 ^ 32)) (big_endian32 (w % 2 ^ 32) ++ rest) h),
    join_halves w small,
  )

  -- `ReadBigInt` gives back a `long long` whose eight bytes come next as `WriteBigInt` appends
  -- them, and moves the pointer behind them.
  pub read_big_int-back :
      (z : ℤ)
      → FitsAt (2 ^ 64) z
      → Holds s.packet front
          ((big_endian32 (bits64 z / 2 ^ 32) ++ big_endian32 (bits64 z % 2 ^ 32)) ++ rest)
      → read_big_int s ≡ ok (some z, moved (moved s 4) 4)
  read_big_int-back z fits h =
      read_big_int-word (bits64 z) (bits64-lt z) h
      ∙ ap (λ v. ok (some v, moved (moved s 4) 4)) (signed64-bits64 z fits)

  signed32-size : (n : ℕ) → n < 2 ^ 31 → signed32 n ≡ pos n
  unfolding signed32
  signed32-size n h = ground arith

  -- Where the bytes that `WriteString` appends for a text come next, the text has less than 2 ^ 31
  -- characters, and no more than `maxsize`, and the caller's array has more than it, `ReadString`
  -- returns TRUE, has put the text up to its first 0 and a final 0 at the front of the array and
  -- left the rest of it alone, and moves the pointer behind the text.
  pub read_string-back :
      (text : List ℕ) (target : List Cell) (limit : ℕ)
      → Holds s.packet front (string_bytes text ++ rest)
      → strlen text < 2 ^ 31
      → strlen text ≤ limit
      → strlen text < length target
      → read_string target (pos limit) s
        ≡ ok (some (text_over (until_nul text) target), moved (moved s 4) (strlen text))
  unfolding read_string strlen
  read_string-back text target limit h small under fits =
      let xs : List ℕ = until_nul text in
      bind-ok read_int (read_text_rest "CPacket::ReadString" target (pos limit)) (
        read_int-word s front (xs ++ rest) (length xs) (omega arith) h
        ∙ ap (λ v. ok (some v, moved s 4)) (signed32-size (length xs) small))
      ∙ read_text_rest-Holds (moved s 4) (front ++ big_endian32 (length xs)) xs rest target
          "CPacket::ReadString" limit
          (moved-Holds s front (big_endian32 (length xs)) (xs ++ rest) h) fits under

  -- Where the bytes that `WriteShortString` appends for a text come next, the text has less than
  -- 2 ^ 16 characters, and no more than `maxsize`, and the caller's array has more than it,
  -- `ReadShortString` returns TRUE, has put the text up to its first 0 and a final 0 at the front of
  -- the array and left the rest of it alone, and moves the pointer behind the text.
  pub read_short_string-back :
      (text : List ℕ) (target : List Cell) (limit : ℕ)
      → Holds s.packet front (short_string_bytes text ++ rest)
      → strlen text < 2 ^ 16
      → strlen text ≤ limit
      → strlen text < length target
      → read_short_string target (pos limit) s
        ≡ ok (some (text_over (until_nul text) target), moved (moved s 2) (strlen text))
  unfolding read_short_string strlen
  read_short_string-back text target limit h small under fits =
      let xs : List ℕ = until_nul text in
      let h' : Holds s.packet front ((big_endian16 (length xs) ++ xs) ++ rest) =
        subst (λ w. Holds s.packet front ((big_endian16 w ++ xs) ++ rest)) (omega arith) h in
      bind-ok read_short_int (read_text_rest "CPacket::ReadShortString" target (pos limit))
        (read_short_int-word s front (xs ++ rest) (length xs) (omega arith) h')
      ∙ read_text_rest-Holds (moved s 2) (front ++ big_endian16 (length xs)) xs rest target
          "CPacket::ReadShortString" limit
          (moved-Holds s front (big_endian16 (length xs)) (xs ++ rest) h') fits under
