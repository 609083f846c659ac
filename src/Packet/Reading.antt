-- ===== src/Packet/Reading.antt =====
-- What a packet to be read holds, and each number read off its front.
use Prim.Native.String.{String}
use dummy_client.Common.{ℕ, ◌+◌, ◌^◌, ◌≤◌, ◌<◌, ◌≡◌, ◌∙◌, refl, ap, arith}
use dummy_client.Common.{none, some, List, [], ◌∷◌, ◌++◌, map, true, false, length}
use dummy_client.Common.{length-append, length-map, append_assoc, map-append, leb, ◌==◌}
use dummy_client.Common.Int.{ℤ, pos, leb_ℤ, sub_int, sub_int-pos, signed8, signed32}
use dummy_client.Bytes.{load16, load32, swap16, swap32}
use dummy_client.Trace.{logged, error, int_param}
use dummy_client.Outcome.{ok}
use dummy_client.Packet.State.{Packet, Session, cells, load}
use dummy_client.Packet.Memory.{load-append}
use dummy_client.Packet.Buffer.{check_data_exists}
use dummy_client.Packet.Reads.{peek, read_tiny_int, read_short_int, read_int, is_eod}

-- The bytes `front` have been read, and `rest` is still to come.
pub record Holds (p : Packet) (front rest : List ℕ) : Type 0 where
  pub is_data : cells p.str_data ≡ map some front ++ map some rest
  pub is_length : p.data_length ≡ pos (length front + length rest)
  pub is_pointer : p.data_pointer ≡ length front
  pub bounded : length front + length rest < 2 ^ 31

-- The session with the pointer moved on, and with one error line more.
abbrev pub moved : {N : Type 0} → Session N → ℕ → Session N
moved s n = record s { packet = record s.packet { data_pointer = s.packet.data_pointer + n } }

abbrev pub with_error : {N : Type 0} → Session N → String → ℤ → Session N
with_error s message size = record s {
  trace =
      logged (record {
        level = error;
        message = message;
        sockfd = s.packet.client_sockfd;
        param = int_param size;
      })
      ∷ s.trace;
}

module _ {N : Type 0} (s : Session N) (front : List ℕ) where
  exists_test :
      (rest : List ℕ) (size : ℕ)
      → Holds s.packet front rest
      → leb_ℤ (pos size) (sub_int s.packet.data_length (pos s.packet.data_pointer))
        ≡ leb size (length rest)
  exists_test rest size h =
      rw
        (
          h.is_length,
          h.is_pointer,
          sub_int-pos (length front + length rest) (length front) (omega arith) h.bounded,
        )
        (ground arith)

  pub check_data_exists-enough :
      (rest : List ℕ) (size : ℕ)
      → Holds s.packet front rest
      → size ≤ length rest
      → check_data_exists (pos size) s ≡ ok (true, s)
  unfolding check_data_exists
  check_data_exists-enough rest size h enough = ground (arith, exists_test rest size h)

  pub check_data_exists-short :
      (rest : List ℕ) (size : ℕ)
      → Holds s.packet front rest
      → length rest < size
      → check_data_exists (pos size) s
        ≡ ok (false, with_error s "CPacket::CheckDataExists" (pos size))
  unfolding check_data_exists
  check_data_exists-short rest size h short = ground (arith, exists_test rest size h)

  pub peek-Holds :
      (xs rest : List ℕ) → Holds s.packet front (xs ++ rest) → peek (length xs) s ≡ ok (xs, s)
  unfolding peek
  peek-Holds xs rest h = ground (arith, loaded)
    where
      loaded : load s.packet.data_pointer (length xs) (cells s.packet.str_data) ≡ ok xs
      loaded =
          rw (h.is_data, map-append some xs rest)
            (load-append s.packet.data_pointer (map some front) xs (map some rest)
              (omega (arith, h.is_pointer, length-map {0, 0} some front)))

  pub moved-Holds :
      (xs rest : List ℕ)
      → Holds s.packet front (xs ++ rest)
      → Holds (moved s (length xs)).packet (front ++ xs) rest
  moved-Holds xs rest h = record {
    is_data = h.is_data ∙ rw (map-append some xs rest, map-append some front xs, append_assoc) refl;
    is_length = h.is_length ∙ ap pos (omega (arith, length-append front xs, length-append xs rest));
    is_pointer = omega (arith, length-append front xs, h.is_pointer);
    bounded = omega (arith, length-append front xs, length-append xs rest, h.bounded);
  }

-- A number is read whole, with the pointer moved past it.
module _ {N : Type 0} (s : Session N) (front rest : List ℕ) where
  pub read_int-Holds :
      (a b c d : ℕ)
      → Holds s.packet front (a ∷ b ∷ c ∷ d ∷ rest)
      → read_int s ≡ ok (some (signed32 (swap32 (load32 (a ∷ b ∷ c ∷ d ∷ [])))), moved s 4)
  unfolding read_int
  read_int-Holds a b c d h = ground (
    arith,
    check_data_exists-enough s front (a ∷ b ∷ c ∷ d ∷ rest) 4 h (omega arith),
    peek-Holds s front (a ∷ b ∷ c ∷ d ∷ []) rest h,
  )

  pub read_short_int-Holds :
      (a b : ℕ)
      → Holds s.packet front (a ∷ b ∷ rest)
      → read_short_int s ≡ ok (some (pos (swap16 (load16 (a ∷ b ∷ [])))), moved s 2)
  unfolding read_short_int
  read_short_int-Holds a b h = ground (
    arith,
    check_data_exists-enough s front (a ∷ b ∷ rest) 2 h (omega arith),
    peek-Holds s front (a ∷ b ∷ []) rest h,
  )

  pub read_tiny_int-Holds :
      (a : ℕ) → Holds s.packet front (a ∷ rest) → read_tiny_int s ≡ ok (some (signed8 a), moved s 1)
  unfolding read_tiny_int
  read_tiny_int-Holds a h = ground (
    arith,
    check_data_exists-enough s front (a ∷ rest) 1 h (omega arith),
    peek-Holds s front (a ∷ []) rest h,
  )

  -- Too few bytes left: FALSE, one line in the error log, and nothing else changes.
  pub read_int-short :
      Holds s.packet front rest
      → length rest < 4
      → read_int s ≡ ok (none, with_error s "CPacket::CheckDataExists" (pos 4))
  unfolding read_int
  read_int-short h short = ground (arith, check_data_exists-short s front rest 4 h short)

  -- `IsEOD` is the test that nothing is left.
  pub is_eod-Holds : Holds s.packet front rest → is_eod s ≡ ok (length rest == 0, s)
  unfolding is_eod
  is_eod-Holds h = rw (h.is_length, h.is_pointer) (ground arith)
