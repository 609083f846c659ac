-- ===== src/Common/Int.antt =====
-- Signed integers over the native numbers, and the C types that the program keeps in them.
use Prim.Native.Nat.{ℕ, suc, ◌+◌, ◌-◌, ◌%◌, ◌^◌, ◌≤◌, ◌<◌}
use mathlib.Core.Path.{◌≡◌}
use mathlib.Core.Logic.{inl, inr, ◌≢◌}
use mathlib.Core.Bool.{Bool, true, false}
use native.Mathlib.Omega.{arith}
use dummy_client.Common.Tests.{ltb, leb, ◌==◌, if◌then◌else◌, Bool-cases, ltb→lt}

-- `negsuc n` is -(n + 1).
pub data ℤ : Type 0 where
  pos : ℕ → ℤ
  negsuc : ℕ → ℤ

abbrev pub pos_part : ℤ → ℕ
pos_part (pos n) = n
pos_part (negsuc n) = 0

abbrev pub neg_part : ℤ → ℕ
neg_part (pos n) = 0
neg_part (negsuc n) = suc n

abbrev pub sub_ℕ : ℕ → ℕ → ℤ
sub_ℕ a b = if leb b a then pos (a - b) else negsuc (b - a - 1)

abbrev pub ltb_ℤ : ℤ → ℤ → Bool
ltb_ℤ a b = ltb (pos_part a + neg_part b) (pos_part b + neg_part a)

abbrev pub leb_ℤ : ℤ → ℤ → Bool
leb_ℤ a b = leb (pos_part a + neg_part b) (pos_part b + neg_part a)

abbrev pub eqb_ℤ : ℤ → ℤ → Bool
eqb_ℤ a b = (pos_part a + neg_part b) == (pos_part b + neg_part a)

-- The two's complement pattern of a value at `m` = 2 ^ width, and the value of a pattern.
abbrev pub bits_at : ℕ → ℤ → ℕ
bits_at m (pos n) = n % m
bits_at m (negsuc n) = m - 1 - n % m

abbrev pub signed_at : ℕ → ℕ → ℤ
signed_at m w = if ltb (w + w) m then pos w else negsuc (m - 1 - w)

-- `char`, `short`, `int` and `long long` as their patterns, on the 64-bit Linux target.
unfoldable pub bits8 : ℤ → ℕ
bits8 = bits_at (2 ^ 8)

unfoldable pub bits16 : ℤ → ℕ
bits16 = bits_at (2 ^ 16)

unfoldable pub bits32 : ℤ → ℕ
bits32 = bits_at (2 ^ 32)

unfoldable pub bits64 : ℤ → ℕ
bits64 = bits_at (2 ^ 64)

unfoldable pub signed8 : ℕ → ℤ
signed8 = signed_at (2 ^ 8)

unfoldable pub signed16 : ℕ → ℤ
signed16 = signed_at (2 ^ 16)

unfoldable pub signed32 : ℕ → ℤ
signed32 = signed_at (2 ^ 32)

unfoldable pub signed64 : ℕ → ℤ
signed64 = signed_at (2 ^ 64)

-- The values that fit a signed type of `m` = 2 ^ width patterns.
abbrev pub FitsAt : ℕ → ℤ → Type 0
FitsAt m (pos n) = n + n < m
FitsAt m (negsuc n) = n + n < m

-- `int` arithmetic, wrapped to 32 bits.
abbrev pub diff_ℤ : ℤ → ℤ → ℤ
diff_ℤ a b = sub_ℕ (pos_part a + neg_part b) (neg_part a + pos_part b)

unfoldable pub sub_int : ℤ → ℤ → ℤ
unfolding signed32 bits32
sub_int a b = signed32 (bits32 (diff_ℤ a b))

unfoldable pub double_int : ℤ → ℤ
unfolding signed32 bits32
double_int a = signed32 (bits32 (diff_ℤ a (diff_ℤ (pos 0) a)))

pub signed8-bits8 : (z : ℤ) → FitsAt (2 ^ 8) z → signed8 (bits8 z) ≡ z
unfolding signed8 bits8
signed8-bits8 (pos n) h = ground arith
signed8-bits8 (negsuc n) h = ground arith

pub signed32-bits32 : (z : ℤ) → FitsAt (2 ^ 32) z → signed32 (bits32 z) ≡ z
unfolding signed32 bits32
signed32-bits32 (pos n) h = ground arith
signed32-bits32 (negsuc n) h = ground arith

pub signed64-bits64 : (z : ℤ) → FitsAt (2 ^ 64) z → signed64 (bits64 z) ≡ z
unfolding signed64 bits64
signed64-bits64 (pos n) h = ground arith
signed64-bits64 (negsuc n) h = ground arith

pub bits32-signed32 : (w : ℕ) → w < 2 ^ 32 → bits32 (signed32 w) ≡ w
unfolding signed32 bits32
bits32-signed32 w h = ground arith

pub bits32-lt : (z : ℤ) → bits32 z < 2 ^ 32
unfolding bits32
bits32-lt (pos n) = omega arith
bits32-lt (negsuc n) = omega arith

pub bits64-lt : (z : ℤ) → bits64 z < 2 ^ 64
unfolding bits64
bits64-lt (pos n) = omega arith
bits64-lt (negsuc n) = omega arith

pub bits8-lt : (z : ℤ) → bits8 z < 2 ^ 8
unfolding bits8
bits8-lt (pos n) = omega arith
bits8-lt (negsuc n) = omega arith

pub signed32_fits : (w : ℕ) → w < 2 ^ 32 → FitsAt (2 ^ 32) (signed32 w)
unfolding signed32
signed32_fits w h = elim (Bool-cases (ltb (w + w) (2 ^ 32))) [
  | inl small ↦ rw small (ltb→lt _ _ small)
  | inr large ↦ rw large (ground arith)
]

pub signed8_fits : (b : ℕ) → b < 256 → FitsAt (2 ^ 8) (signed8 b)
unfolding signed8
signed8_fits b h = elim (Bool-cases (ltb (b + b) (2 ^ 8))) [
  | inl small ↦ rw small (ltb→lt _ _ small)
  | inr large ↦ rw large (ground arith)
]

pub signed64_fits : (w : ℕ) → w < 2 ^ 64 → FitsAt (2 ^ 64) (signed64 w)
unfolding signed64
signed64_fits w h = elim (Bool-cases (ltb (w + w) (2 ^ 64))) [
  | inl small ↦ rw small (ltb→lt _ _ small)
  | inr large ↦ rw large (ground arith)
]

-- Where the true result is a value of `int`, the operation gives it.
pub sub_int-pos : (a b : ℕ) → b ≤ a → a < 2 ^ 31 → sub_int (pos a) (pos b) ≡ pos (a - b)
unfolding sub_int
sub_int-pos a b h k = ground arith

pub double_int-pos : (a : ℕ) → a < 2 ^ 30 → double_int (pos a) ≡ pos (a + a)
unfolding double_int
double_int-pos a h = ground arith

pub eqb_ℤ-ne : (a b : ℤ) → a ≢ b → eqb_ℤ a b ≡ false
eqb_ℤ-ne (pos m) (pos n) h = ground arith
eqb_ℤ-ne (pos m) (negsuc n) h = ground arith
eqb_ℤ-ne (negsuc m) (pos n) h = ground arith
eqb_ℤ-ne (negsuc m) (negsuc n) h = ground arith

pub eqb_ℤ-eq : (a b : ℤ) → eqb_ℤ a b ≡ true → a ≡ b
eqb_ℤ-eq (pos m) (pos n) h = ground arith
eqb_ℤ-eq (pos m) (negsuc n) h = ground arith
eqb_ℤ-eq (negsuc m) (pos n) h = ground arith
eqb_ℤ-eq (negsuc m) (negsuc n) h = ground arith
