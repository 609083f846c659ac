-- ===== src/Json.antt =====
-- JsonCpp, as the program uses it: a parameter, with what its header documents as laws.
use dummy_client.Common.{
  ℕ, ◌^◌, ◌≡◌, Option, none, some, List, Bool, true, false, if◌then◌else◌, same_text,
}
use dummy_client.Common.Int.{ℤ, FitsAt}
use dummy_client.Outcome.{Outcome, ok}

-- The operations of `Json::Value`, `Json::Reader` and `Json::StyledWriter`. A call on a value of
-- the wrong type throws or fails an assertion, which is a fault.
pub record Json (Value Double : Type 0) : Type 0 where
  pub null : Value
  pub is_member : List ℕ → Value → Outcome Bool
  -- `get(key, defaultValue)`.
  pub get : List ℕ → Value → Value → Outcome Value
  -- `value[key]`, the element and the value behind the call, which may have a new member.
  pub at_key : List ℕ → Value → Outcome (Value × Value)
  -- `value[key] = element`.
  pub set_key : List ℕ → Value → Value → Outcome Value
  -- `size()`, as an `int`.
  pub size : Value → ℤ
  pub at_index : ℤ → Value → Outcome Value
  -- `value.append(element)`.
  pub append : Value → Value → Outcome Value
  pub as_int : Value → Outcome ℤ
  pub as_double : Value → Outcome Double
  pub as_bool : Value → Outcome Bool
  pub as_cstring : Value → Outcome (List ℕ)
  pub from_int : ℤ → Value
  pub from_long_long : ℤ → Value
  pub from_double : Double → Value
  pub from_bool : Bool → Value
  pub from_cstring : List ℕ → Value
  -- `parse(document, root)`: whether it succeeds, and the root.
  pub parse : List ℕ → Value → Bool × Value
  pub write : Value → List ℕ

abbrev pub is_some {ℓ} : {A : Type ℓ} → Option A → Bool
is_some none = false
is_some (some _) = true

abbrev pub or_else {ℓ} : {A : Type ℓ} → A → Option A → A
or_else d none = d
or_else d (some a) = a

-- What an operation that changes an object returns: an object in which the key leads to the
-- element, and every other key to what it did before.
pub record Stored {Value : Type 0} (IsObject : Value → Type 0)
    (find : List ℕ → Value → Option Value) (key : List ℕ) (element before : Value) (after : Value)
    : Type 0 where
  pub is_object : IsObject after
  pub finds :
      (k : List ℕ) → find k after ≡ (if same_text k key then some element else find k before)

-- What the header documents, of the values that are objects or null and of what their keys lead to.
pub record JsonLaws {Value Double : Type 0} (json : Json Value Double) (IsObject : Value → Type 0)
    (find : List ℕ → Value → Option Value) : Type 0 where
  pub null_object : IsObject json.null
  pub null_find : (k : List ℕ) → find k json.null ≡ none
  pub is_member_find :
      (k : List ℕ) (v : Value) → IsObject v → json.is_member k v ≡ ok (is_some (find k v))
  pub get_find :
      (k : List ℕ) (d v : Value) → IsObject v → json.get k d v ≡ ok (or_else d (find k v))
  pub at_found :
      (k : List ℕ) (v u : Value) → IsObject v → find k v ≡ some u → json.at_key k v ≡ ok (u, v)
  -- A key that leads nowhere is created.
  pub at_missing :
      (k : List ℕ) (v : Value)
      → IsObject v
      → find k v ≡ none
      → (v' : Value) × (json.at_key k v ≡ ok (json.null, v'))
        × Stored IsObject find k json.null v v'
  pub set_stored :
      (k : List ℕ) (u v : Value)
      → IsObject v
      → (v' : Value) × (json.set_key k u v ≡ ok v') × Stored IsObject find k u v v'
  pub int_back : (z : ℤ) → FitsAt (2 ^ 32) z → json.as_int (json.from_int z) ≡ ok z
  pub double_back : (x : Double) → json.as_double (json.from_double x) ≡ ok x
  pub bool_back : (b : Bool) → json.as_bool (json.from_bool b) ≡ ok b
  pub cstring_back : (t : List ℕ) → json.as_cstring (json.from_cstring t) ≡ ok t
  pub null_bool : json.as_bool json.null ≡ ok false
