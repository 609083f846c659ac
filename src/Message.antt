-- ===== src/Message.antt =====
-- Messages as lists of typed fields: what a pair of programs exchange by CPacket (Packet.cpp).
pub mod Written
pub mod Back
pub mod Channel
pub mod Tests
use dummy_client.Common.{
  ℕ, ◌+◌, ◌^◌, ◌/◌, ◌%◌, ◌≤◌, ◌<◌, Option, none, some, List, [], ◌∷◌, ◌++◌, map, Bool, true, false,
  if◌then◌else◌, length,
}
use dummy_client.Common.Int.{ℤ, pos, FitsAt, bits8, bits16, bits32, bits64}
use dummy_client.Bytes.Order.{big_endian16, big_endian32}
use dummy_client.Packet.State.{Cell, M, ◌>>=◌, pure}
use dummy_client.Packet.Reads.{
  read_tiny_int, read_short_int, read_int, read_big_int, read_short_string, read_string, is_eod,
}
use dummy_client.Packet.Writes.{
  until_nul, strlen, write_tiny_int, write_short_int, write_int, write_big_int, write_short_string,
  write_string,
}
use dummy_client.Packet.Strings.{string_bytes, short_string_bytes}
use dummy_client.Packet.Texts.{text_over}
use dummy_client.Commands.{write_fields}

-- What a sender writes.
pub data Field : Type 0 where
  tiny_field short_field int_field big_field : ℤ → Field
  short_text_field text_field : List ℕ → Field

-- How a receiver reads a field: a text goes to an array, by its `maxsize`.
pub data Slot : Type 0 where
  tiny_slot short_slot int_slot big_slot : Slot
  short_text_slot text_slot : List Cell → ℕ → Slot

-- What it gets: a number, or its array.
pub data Value : Type 0 where
  a_number : ℤ → Value
  an_array : List Cell → Value

abbrev pub write_field : {N : Type 0} → Field → M N Bool
write_field (tiny_field z) = write_tiny_int z
write_field (short_field z) = write_short_int z
write_field (int_field z) = write_int z
write_field (big_field z) = write_big_int z
write_field (short_text_field text) = write_short_string text
write_field (text_field text) = write_string text

abbrev pub as_number : {N : Type 0} → Option ℤ → M N (Option Value)
as_number none = pure none
as_number (some z) = pure (some (a_number z))

abbrev pub as_array : {N : Type 0} → Option (List Cell) → M N (Option Value)
as_array none = pure none
as_array (some cells) = pure (some (an_array cells))

abbrev pub read_slot : {N : Type 0} → Slot → M N (Option Value)
read_slot tiny_slot = read_tiny_int >>= as_number
read_slot short_slot = read_short_int >>= as_number
read_slot int_slot = read_int >>= as_number
read_slot big_slot = read_big_int >>= as_number
read_slot (short_text_slot target limit) = read_short_string target (pos limit) >>= as_array
read_slot (text_slot target limit) = read_string target (pos limit) >>= as_array

-- The slots one after the other: `none` once a read has returned FALSE.
unfoldable pub read_slots : {N : Type 0} → List Slot → M N (Option (List Value))
read_slots [] = pure (some [])
read_slots (slot ∷ slots) = read_slot slot >>= λ v. elim v [
  | none ↦ pure none
  | some value ↦ read_slots slots >>= λ vs. elim vs [
    | none ↦ pure none
    | some values ↦ pure (some (value ∷ values))
  ]
]

-- All fields of a packet, and nothing behind them.
unfoldable pub read_message : {N : Type 0} → List Slot → M N (Option (List Value))
read_message slots = read_slots slots >>= λ vs. elim vs [
  | none ↦ pure none
  | some values ↦ is_eod >>= λ ended. if ended then pure (some values) else pure none
]

-- The bytes of a field.
abbrev pub field_bytes : Field → List ℕ
field_bytes (tiny_field z) = bits8 z ∷ []
field_bytes (short_field z) = big_endian16 (bits16 z)
field_bytes (int_field z) = big_endian32 (bits32 z)
field_bytes (big_field z) = big_endian32 (bits64 z / 2 ^ 32) ++ big_endian32 (bits64 z % 2 ^ 32)
field_bytes (short_text_field text) = short_string_bytes text
field_bytes (text_field text) = string_bytes text

unfoldable pub message_bytes : List Field → List ℕ
message_bytes [] = []
message_bytes (field ∷ fields) = field_bytes field ++ message_bytes fields

-- What a slot gives for a field: a number that fits its bytes, where a short one is not negative, or
-- a text that fits its length, its `maxsize` and its array.
pub data Carries : Field → Slot → Value → Type 0 where
  tiny_carries : (z : ℤ) → FitsAt (2 ^ 8) z → Carries (tiny_field z) tiny_slot (a_number z)
  short_carries : (n : ℕ) → n < 2 ^ 16 → Carries (short_field (pos n)) short_slot (a_number (pos n))
  int_carries : (z : ℤ) → FitsAt (2 ^ 32) z → Carries (int_field z) int_slot (a_number z)
  big_carries : (z : ℤ) → FitsAt (2 ^ 64) z → Carries (big_field z) big_slot (a_number z)
  short_text_carries :
      (text : List ℕ) (target : List Cell) (limit : ℕ)
      → strlen text < 2 ^ 16
      → strlen text ≤ limit
      → strlen text < length target
      → Carries
          (short_text_field text)
          (short_text_slot target limit)
          (an_array (text_over (until_nul text) target))
  text_carries :
      (text : List ℕ) (target : List Cell) (limit : ℕ)
      → strlen text < 2 ^ 31
      → strlen text ≤ limit
      → strlen text < length target
      → Carries
          (text_field text)
          (text_slot target limit)
          (an_array (text_over (until_nul text) target))

-- The same of a whole message.
pub data AllCarry : List Field → List Slot → List Value → Type 0 where
  no_more : AllCarry [] [] []
  one_more :
      {field : Field} {slot : Slot} {value : Value} {fields : List Field} {slots : List Slot}
      {values : List Value}
      → Carries field slot value
      → AllCarry fields slots values
      → AllCarry (field ∷ fields) (slot ∷ slots) (value ∷ values)
