-- ===== src/Bytes.antt =====
-- The memory image of a C number on the little-endian target, and the `hton` and `ntoh` swaps.
-- A byte is a number below 256.
pub mod Order
use dummy_client.Common.{ℕ, ◌+◌, ◌*◌, ◌/◌, ◌%◌, ◌^◌, ◌<◌, List, [], ◌∷◌}

abbrev pub IsByte : ℕ → Type 0
IsByte b = b < 256

abbrev pub AllBytes : List ℕ → Type 0
AllBytes [] = Unit
AllBytes (b ∷ bs) = IsByte b × AllBytes bs

-- The bytes of a 16-bit and of a 32-bit pattern, lowest address first.
unfoldable pub store16 : ℕ → List ℕ
store16 w = (w % 256) ∷ (w / 2 ^ 8 % 256) ∷ []

unfoldable pub store32 : ℕ → List ℕ
store32 w = (w % 256) ∷ (w / 2 ^ 8 % 256) ∷ (w / 2 ^ 16 % 256) ∷ (w / 2 ^ 24 % 256) ∷ []

-- The pattern that the first bytes at an address hold.
unfoldable pub load16 : List ℕ → ℕ
load16 (a ∷ b ∷ _) = a + b * 2 ^ 8
load16 _ = 0

unfoldable pub load32 : List ℕ → ℕ
load32 (a ∷ b ∷ c ∷ d ∷ _) = a + b * 2 ^ 8 + c * 2 ^ 16 + d * 2 ^ 24
load32 _ = 0

-- `htons` and `ntohs`, `htonl` and `ntohl`: the bytes in the opposite order.
unfoldable pub swap16 : ℕ → ℕ
swap16 w = w % 256 * 2 ^ 8 + w / 2 ^ 8 % 256

unfoldable pub swap32 : ℕ → ℕ
swap32 w = w % 256 * 2 ^ 24 + w / 2 ^ 8 % 256 * 2 ^ 16 + w / 2 ^ 16 % 256 * 2 ^ 8 + w / 2 ^ 24 % 256
