-- ===== src/Packet/Tests.antt =====
-- Runs of CPacket on small inputs, and its theorems at concrete packets.
use dummy_client.Common.{
  ◌/◌, ◌%◌, ◌^◌, ℕ, ◌<◌, ◌≡◌, refl, ap, inl, arith, none, some, List, [], ◌∷◌, ◌++◌,
}
use dummy_client.Common.{map, replicate, length}
use dummy_client.Common.Int.{pos, negsuc, bits32, bits64}
use dummy_client.Bytes.Order.{big_endian32}
use dummy_client.Outcome.{ok}
use dummy_client.Packet.Typed.{Typed, IsWord, reads-Typed}
use dummy_client.Packet.Reads.{read_tiny_int, read_short_int, read_big_int}
use dummy_client.Common.Int.{FitsAt}
use dummy_client.Packet.State.{Session}
use dummy_client.Packet.Buffer.{check_data_buffer}
use dummy_client.Packet.Reads.{new_packet, read_int, read_string, read_big_int, read_short_string}
use dummy_client.Packet.Writes.{write_string, write_short_string, write_big_int, strlen, until_nul}
use dummy_client.Packet.Build.{Built}
use dummy_client.Packet.Room.{Grown, check_data_buffer-Built}
use dummy_client.Packet.Appends.{Appended, write_big_int-Appended}
use dummy_client.Packet.Strings.{
  string_bytes, short_string_bytes, write_string-Appended, write_short_string-Appended,
}
use dummy_client.Packet.Reading.{Holds, moved}
use dummy_client.Packet.Texts.{text_over}
use dummy_client.Packet.Safe.{Safe, read_string-Safe}
use dummy_client.Packet.RoundTrip.{read_big_int-back, read_string-back, read_short_string-back}

abbrev empty_session : Session (Unit {0})
empty_session = record { packet = new_packet (pos 3); net = tt; trace = [] }

empty-Built : Built empty_session.packet [] []
unfolding new_packet
empty-Built = record {
  is_data = refl;
  is_length = refl;
  is_pointer = refl;
  bounded = omega arith;
  roomy = inl refl;
}

-- "hi" with its final 0.
abbrev hi : List ℕ
hi = b'h' ∷ b'i' ∷ 0 ∷ []

abbrev holding : List ℕ → Session (Unit {0})
holding bs = record {
  packet = record (new_packet (pos 3)) {
    data_length = pos (length bs);
    str_data = some (map some bs);
  };
  net = tt;
  trace = [];
}

holding-Holds : (bs : List ℕ) → length bs < 2048 → Holds (holding bs).packet [] bs
unfolding new_packet
holding-Holds bs h = record {
  is_data = refl;
  is_length = ap pos (omega arith);
  is_pointer = refl;
  bounded = omega arith;
}

check_data_buffer-Built_example :
    Grown empty_session [] 5000 (check_data_buffer (pos 5000) empty_session)
check_data_buffer-Built_example =
    check_data_buffer-Built empty_session [] [] 5000 empty-Built (omega arith)

write_string-Appended_example :
    Appended empty_session [] (string_bytes hi) (write_string hi empty_session)
unfolding strlen until_nul
write_string-Appended_example =
    write_string-Appended empty_session [] [] empty-Built hi (omega arith)

write_big_int-Appended_example :
    Appended empty_session []
      (big_endian32 (bits64 (negsuc 4) / 2 ^ 32) ++ big_endian32 (bits64 (negsuc 4) % 2 ^ 32))
      (write_big_int (negsuc 4) empty_session)
write_big_int-Appended_example =
    write_big_int-Appended empty_session [] [] empty-Built (negsuc 4) (omega arith)

-- -2 ^ 33, in network order.
abbrev wide : List ℕ
wide =
    big_endian32 (bits64 (negsuc 8589934591) / 2 ^ 32)
    ++ big_endian32 (bits64 (negsuc 8589934591) % 2 ^ 32)

wide_is : wide ≡ 0xff ∷ 0xff ∷ 0xff ∷ 0xfe ∷ 0 ∷ 0 ∷ 0 ∷ 0 ∷ []
unfolding bits64
wide_is = refl

read_big_int-back_example :
    read_big_int (holding wide) ≡ ok (some (negsuc 8589934591), moved (moved (holding wide) 4) 4)
read_big_int-back_example =
    read_big_int-back (holding wide) [] [] (negsuc 8589934591) (omega arith)
      (holding-Holds wide (omega arith))

read_string-back_example :
    read_string (replicate 4 none) (pos 3) (holding (string_bytes hi))
    ≡ ok (
      some (text_over (until_nul hi) (replicate 4 none)),
      moved (moved (holding (string_bytes hi)) 4) (strlen hi),
    )
unfolding strlen until_nul
read_string-back_example =
    read_string-back (holding (string_bytes hi)) [] [] hi (replicate 4 none) 3
      (holding-Holds (string_bytes hi) (omega arith)) (omega arith) (omega arith) (omega arith)

write_short_string-Appended_example :
    Appended empty_session [] (short_string_bytes hi) (write_short_string hi empty_session)
unfolding strlen until_nul
write_short_string-Appended_example =
    write_short_string-Appended empty_session [] [] empty-Built hi (omega arith)

read_short_string-back_example :
    read_short_string (replicate 4 none) (pos 3) (holding (short_string_bytes hi))
    ≡ ok (
      some (text_over (until_nul hi) (replicate 4 none)),
      moved (moved (holding (short_string_bytes hi)) 2) (strlen hi),
    )
unfolding strlen until_nul
read_short_string-back_example =
    read_short_string-back (holding (short_string_bytes hi)) [] [] hi (replicate 4 none) 3
      (holding-Holds (short_string_bytes hi) (omega arith)) (omega arith) (omega arith)
      (omega arith)

-- -2 in four bytes.
abbrev minus_two : List ℕ
minus_two = big_endian32 (bits32 (negsuc 1))

-- A text with a negative length.
read_string-Safe_example :
    Safe
      ([] ++ minus_two)
      (replicate 4 none)
      (read_string (replicate 4 none) (pos 3) (holding minus_two))
read_string-Safe_example =
    read_string-Safe (holding minus_two) (replicate 4 none) 3 (omega arith) [] minus_two
      (holding-Holds minus_two (omega arith))

-- Four bytes: enough for each type but the last.
reads-Typed_example :
    Typed 1 (FitsAt (2 ^ 8)) [] minus_two (read_tiny_int (holding minus_two))
    × Typed 2 IsWord [] minus_two (read_short_int (holding minus_two))
    × Typed 4 (FitsAt (2 ^ 32)) [] minus_two (read_int (holding minus_two))
    × Typed 8 (FitsAt (2 ^ 64)) [] minus_two (read_big_int (holding minus_two))
reads-Typed_example =
    reads-Typed (holding minus_two) [] minus_two (holding-Holds minus_two (omega arith))
      (omega arith)
