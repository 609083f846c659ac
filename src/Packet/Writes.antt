-- ===== src/Packet/Writes.antt =====
-- The `Write` methods of CPacket. Each makes room, copies the bytes to the pointer and moves it
-- on; they return TRUE always.
use dummy_client.Common.{ℕ, ◌/◌, ◌%◌, ◌^◌, some, List, [], ◌∷◌, Bool, true}
use dummy_client.Common.{false, not, if◌then◌else◌, length, take, leb, ◌==◌}
use dummy_client.Common.Int.{ℤ, pos, negsuc, bits8, bits16, bits32, bits64, signed32}
use dummy_client.Bytes.{store16, store32, swap16, swap32}
use dummy_client.Outcome.{Outcome, ok, fault, out_of_bounds}
use dummy_client.Packet.State.{M, ◌>>=◌, ◌>>◌, pure, lift, this, set_this, advance, cells, store}
use dummy_client.Packet.Buffer.{check_data_buffer}

-- `memcpy` of bytes to `m_strData + m_nDataPointer`.
unfoldable pub poke : {N : Type 0} → List ℕ → M N (Unit {0})
poke bs = do
  p ← this
  filled ← lift (store p.data_pointer bs (cells p.str_data))
  set_this (record p { str_data = some filled })

-- Copy, and `m_nDataPointer += size`.
unfoldable pub put : {N : Type 0} → List ℕ → M N (Unit {0})
put bs = poke bs >> advance (length bs)

unfoldable pub write_tiny_int : {N : Type 0} → ℤ → M N Bool
write_tiny_int intvalue = do check_data_buffer (pos 1); put (bits8 intvalue ∷ []); pure true

unfoldable pub write_short_int : {N : Type 0} → ℤ → M N Bool
write_short_int intvalue = do
  check_data_buffer (pos 2)
  put (store16 (swap16 (bits16 intvalue)))
  pure true

unfoldable pub write_int : {N : Type 0} → ℤ → M N Bool
write_int intvalue = do
  check_data_buffer (pos 4)
  put (store32 (swap32 (bits32 intvalue)))
  pure true

-- The upper half goes first.
unfoldable pub write_big_int : {N : Type 0} → ℤ → M N Bool
write_big_int longvalue = do
  check_data_buffer (pos 8)
  put (store32 (swap32 (bits64 longvalue / 2 ^ 32)))
  put (store32 (swap32 (bits64 longvalue % 2 ^ 32)))
  pure true

-- `memcpy` of the first `size` bytes at `charvalue`; a negative size is a huge `size_t`.
unfoldable pub source_bytes : List ℕ → ℤ → Outcome (List ℕ)
source_bytes charvalue (pos n) =
    if leb n (length charvalue) then ok (take n charvalue) else fault out_of_bounds
source_bytes charvalue (negsuc n) = fault out_of_bounds

unfoldable pub write_char : {N : Type 0} → List ℕ → ℤ → M N Bool
write_char charvalue size = do
  check_data_buffer size
  bs ← lift (source_bytes charvalue size)
  put bs
  pure true

-- `int size = strlen(stringvalue)`: the text up to its first 0.
unfoldable pub until_nul : List ℕ → List ℕ
until_nul [] = []
until_nul (b ∷ bs) = if b == 0 then [] else b ∷ until_nul bs

unfoldable pub strlen : List ℕ → ℕ
unfolding until_nul
strlen s = length (until_nul s)

abbrev pub int_of_size : ℕ → ℤ
int_of_size n = signed32 (n % 2 ^ 32)

unfoldable pub write_string : {N : Type 0} → List ℕ → M N Bool
write_string stringvalue = do
  let size = int_of_size (strlen stringvalue)
  sized ← write_int size
  if not sized then pure false else write_char (until_nul stringvalue) size

unfoldable pub write_short_string : {N : Type 0} → List ℕ → M N Bool
write_short_string stringvalue = do
  let size = int_of_size (strlen stringvalue)
  sized ← write_short_int size
  if not sized then pure false else write_char (until_nul stringvalue) size
