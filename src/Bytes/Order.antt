-- ===== src/Bytes/Order.antt =====
-- What the stores and the swaps give together: network byte order.
use dummy_client.Common.{ℕ, ◌/◌, ◌%◌, ◌^◌, ◌<◌, ◌≡◌, arith, List, [], ◌∷◌}
use dummy_client.Bytes.{store16, store32, load16, load32, swap16, swap32, AllBytes}

-- The highest byte first, the order on the wire.
abbrev pub big_endian16 : ℕ → List ℕ
big_endian16 w = (w / 2 ^ 8 % 256) ∷ (w % 256) ∷ []

abbrev pub big_endian32 : ℕ → List ℕ
big_endian32 w = (w / 2 ^ 24 % 256) ∷ (w / 2 ^ 16 % 256) ∷ (w / 2 ^ 8 % 256) ∷ (w % 256) ∷ []

pub store32-swap32 : (w : ℕ) → store32 (swap32 w) ≡ big_endian32 w
unfolding store32 swap32
store32-swap32 w = ground arith

pub store16-swap16 : (w : ℕ) → store16 (swap16 w) ≡ big_endian16 w
unfolding store16 swap16
store16-swap16 w = ground arith

pub swap32-load32 : (w : ℕ) → w < 2 ^ 32 → swap32 (load32 (big_endian32 w)) ≡ w
unfolding swap32 load32
swap32-load32 w h = omega arith

pub swap16-load16 : (w : ℕ) → w < 2 ^ 16 → swap16 (load16 (big_endian16 w)) ≡ w
unfolding swap16 load16
swap16-load16 w h = omega arith

pub load32-store32 : (w : ℕ) → w < 2 ^ 32 → load32 (store32 w) ≡ w
unfolding load32 store32
load32-store32 w h = omega arith

pub big_endian32-AllBytes : (w : ℕ) → AllBytes (big_endian32 w)
big_endian32-AllBytes w = omega arith

pub swap16-lt : (w : ℕ) → swap16 w < 2 ^ 16
unfolding swap16
swap16-lt w = omega arith

pub swap32-lt : (w : ℕ) → swap32 w < 2 ^ 32
unfolding swap32
swap32-lt w = omega arith
