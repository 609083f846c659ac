-- ===== src/Outcome.antt =====
-- How a run of C++ code ends: with a value, or with a fault that no caller handles.
use dummy_client.Common.{ℕ, ◌+◌, List, if◌then◌else◌, leb, length}

-- `uncaught` is an exception of a library, `out_of_range` a conversion whose result has no place in its
-- type, `bad_mutex` a call on a mutex in a state for which it is not defined or never returns. `out_of_fuel` is no C++ behaviour: a loop of the model has
-- used up its bound.
pub data Fault : Type 0 where
  out_of_bounds uninitialised bad_alloc out_of_fuel uncaught out_of_range bad_mutex null_pointer :
      Fault

pub data Outcome {ℓ} (A : Type ℓ) : Type ℓ where
  ok : A → Outcome A
  fault : Fault → Outcome A

infixl 5 ◌>>=◌
abbrev pub ◌>>=◌ {ℓ κ} : {A : Type ℓ} {B : Type κ} → Outcome A → (A → Outcome B) → Outcome B
ok a >>= f = f a
fault e >>= f = fault e

-- A text and its final 0 in a buffer of so many bytes.
unfoldable pub fit : ℕ → List ℕ → Outcome (List ℕ)
fit size text = if leb (length text + 1) size then ok text else fault out_of_bounds
