-- ===== src/Packet/Reads.antt =====
-- The constructor, the four `InitPacket`, and the `Read` methods of CPacket. A read returns
-- `none` where the C++ method returns FALSE and leaves its out parameter alone.
use Prim.Native.String.{String}
use dummy_client.Common.{ℕ, ◌+◌, ◌*◌, ◌^◌, Option, none, some, List, [], ◌∷◌, Bool}
use dummy_client.Common.{◌||◌, not, if◌then◌else◌}
use dummy_client.Common.Int.{ℤ, pos, pos_part, ltb_ℤ, eqb_ℤ, signed8}
use dummy_client.Common.Int.{signed32, signed64, bits32}
use dummy_client.Bytes.{load16, load32, swap16, swap32}
use dummy_client.Trace.{error, int_param}
use dummy_client.Packet.State.{
  Cell, Packet, M, ◌>>=◌, ◌>>◌, pure, lift, this, advance, write_log, cells, load, store,
}
use dummy_client.Packet.Buffer.{check_data_exists}

-- `CPacket::CPacket`. It does not set the socket, which has some value all the same.
unfoldable pub new_packet : ℤ → Packet
new_packet indeterminate = record {
  category = pos 0;
  command = pos 0;
  client_sockfd = indeterminate;
  data_length = pos 0;
  data_pointer = 0;
  str_data = none;
  logflag = pos 1;
}

-- The overloads of `CPacket::InitPacket`, in the order of the source.
unfoldable pub init_socket : ℤ → Packet → Packet
init_socket fd p = record p { client_sockfd = fd }

unfoldable pub init_socket_log : ℤ → ℤ → Packet → Packet
init_socket_log fd logflag p = record p { client_sockfd = fd; logflag = logflag }

unfoldable pub init_command : ℤ → ℤ → ℤ → Packet → Packet
init_command category command fd p = record p {
  category = category;
  command = command;
  client_sockfd = fd;
}

unfoldable pub init_command_log : ℤ → ℤ → ℤ → ℤ → Packet → Packet
init_command_log category command fd logflag p = record p {
  category = category;
  command = command;
  client_sockfd = fd;
  logflag = logflag;
}

-- `memcpy` of `n` bytes from `m_strData + m_nDataPointer`.
unfoldable pub peek : {N : Type 0} → ℕ → M N (List ℕ)
peek n = do p ← this; lift (load p.data_pointer n (cells p.str_data))

abbrev pub first_byte : List ℕ → ℕ
first_byte [] = 0
first_byte (b ∷ _) = b

-- The byte is a `char`, which is signed.
unfoldable pub read_tiny_int : {N : Type 0} → M N (Option ℤ)
read_tiny_int = do
  enough ← check_data_exists (pos 1)
  if enough then (do bs ← peek 1; advance 1; pure (some (signed8 (first_byte bs)))) else pure none

-- `ntohs` returns a `uint16_t`, so the result is never negative.
unfoldable pub read_short_int : {N : Type 0} → M N (Option ℤ)
read_short_int = do
  enough ← check_data_exists (pos 2)
  if enough then (do bs ← peek 2; advance 2; pure (some (pos (swap16 (load16 bs))))) else pure none

unfoldable pub read_int : {N : Type 0} → M N (Option ℤ)
read_int = do
  enough ← check_data_exists (pos 4)
  if enough
      then (do bs ← peek 4; advance 4; pure (some (signed32 (swap32 (load32 bs)))))
      else pure none

-- The first number read goes to the upper half of the `long long`. A first read that succeeds
-- has moved the pointer also where the second fails.
unfoldable pub join_parts : ℤ → ℤ → ℤ
join_parts lowpart highpart = signed64 (bits32 highpart + bits32 lowpart * 2 ^ 32)

unfoldable pub read_big_int_rest : {N : Type 0} → Option ℤ → M N (Option ℤ)
read_big_int_rest none = pure none
read_big_int_rest (some lowpart) = read_int >>= λ r. elim r [
  | none ↦ pure none
  | some highpart ↦ pure (some (join_parts lowpart highpart))
]

unfoldable pub read_big_int : {N : Type 0} → M N (Option ℤ)
read_big_int = read_int >>= read_big_int_rest

-- The bytes and a final 0 go to the caller's array, which is the argument and the result.
unfoldable pub copy_text : {N : Type 0} → ℕ → List Cell → M N (Option (List Cell))
copy_text size target = do
  bs ← peek size
  filled ← lift (store 0 bs target)
  ended ← lift (store size (0 ∷ []) filled)
  advance size
  pure (some ended)

unfoldable pub read_char : {N : Type 0} → List Cell → ℤ → M N (Option (List Cell))
read_char target size = do
  enough ← check_data_exists size
  if not enough || ltb_ℤ size (pos 0) then pure none else copy_text (pos_part size) target

-- What `ReadShortString` and `ReadString` share after the size has been read; `name` is the one
-- that the error log gives. A refused size has been consumed.
unfoldable pub read_text_rest :
    {N : Type 0} → String → List Cell → ℤ → Option ℤ → M N (Option (List Cell))
read_text_rest name target maxsize none = pure none
read_text_rest name target maxsize (some size) = do
  enough ← check_data_exists size
  if not enough
      then pure none
      else if ltb_ℤ size (pos 0) || ltb_ℤ maxsize size
      then write_log error name (int_param size) >> pure none
      else copy_text (pos_part size) target

unfoldable pub read_short_string : {N : Type 0} → List Cell → ℤ → M N (Option (List Cell))
read_short_string target maxsize =
    read_short_int >>= read_text_rest "CPacket::ReadShortString" target maxsize

unfoldable pub read_string : {N : Type 0} → List Cell → ℤ → M N (Option (List Cell))
read_string target maxsize = read_int >>= read_text_rest "CPacket::ReadString" target maxsize

unfoldable pub is_eod : {N : Type 0} → M N Bool
is_eod = do p ← this; pure (eqb_ℤ p.data_length (pos p.data_pointer))
