-- ===== src/JsonParser/Tests.antt =====
-- The theorems on CJsonParser over a small JSON library of objects and numbers.
use dummy_client.Common.{
  ℕ, ◌≡◌, refl, arith, Option, none, some, List, [], ◌∷◌, ◌++◌, map, Bool, true, false,
  if◌then◌else◌, drop, same_text,
}
use dummy_client.Common.Int.{ℤ, pos}
use dummy_client.Outcome.{Outcome, ok, fault, ◌>>=◌, out_of_bounds}
use dummy_client.Packet.State.{Cell}
use dummy_client.Packet.Writes.{until_nul, strlen}
use dummy_client.Json.{Json, JsonLaws, Stored, is_some, or_else}
use dummy_client.JsonParser.{
  JsonParser, read_value_int, read_value_string, write_value, write_value_int, write_value_string,
  read_array_value_int, read_array_value_bool, write_array_value_int,
}
use dummy_client.JsonParser.Values.{read_value_int-back, read_value_string-back}
use dummy_client.JsonParser.Pairs.{Under, read_array_value_int-both, read_array_value_bool-adds}

mutual
  pub data Value : Type 0 where
    number : ℤ → Value
    truth : Bool → Value
    text : List ℕ → Value
    object : Members → Value

  pub data Members : Type 0 where
    done : Members
    member : List ℕ → Value → Members → Members

unfoldable pub is_object : Value → Bool
is_object (object ms) = true
is_object _ = false

unfoldable pub lookup : List ℕ → Members → Option Value
lookup k done = none
lookup k (member key value rest) = if same_text k key then some value else lookup k rest

unfoldable pub find : List ℕ → Value → Option Value
find k (object ms) = lookup k ms
find k _ = none

-- A value that holds the member in front of those that it had.
unfoldable pub with_member : List ℕ → Value → Value → Outcome Value
with_member k u (object ms) = ok (object (member k u ms))
with_member k u _ = fault out_of_bounds

unfoldable pub is_member : List ℕ → Value → Outcome Bool
is_member k (object ms) = ok (is_some (lookup k ms))
is_member k _ = fault out_of_bounds

unfoldable pub get_member : List ℕ → Value → Value → Outcome Value
get_member k d (object ms) = ok (or_else d (lookup k ms))
get_member k d _ = fault out_of_bounds

unfoldable pub found_or_new : List ℕ → Members → Option Value → Value × Value
found_or_new k ms (some u) = (u, object ms)
found_or_new k ms none = (object done, object (member k (object done) ms))

unfoldable pub at_key : List ℕ → Value → Outcome (Value × Value)
at_key k (object ms) = ok (found_or_new k ms (lookup k ms))
at_key k _ = fault out_of_bounds

unfoldable pub as_int : Value → Outcome ℤ
as_int (number z) = ok z
as_int _ = fault out_of_bounds

unfoldable pub as_bool : Value → Outcome Bool
as_bool (truth b) = ok b
as_bool (object ms) = ok false
as_bool _ = fault out_of_bounds

unfoldable pub as_cstring : Value → Outcome (List ℕ)
as_cstring (text t) = ok t
as_cstring _ = fault out_of_bounds

abbrev pub json : Json Value ℤ
json = record {
  null = object done;
  is_member = is_member;
  get = get_member;
  at_key = at_key;
  set_key = with_member;
  size = λ v. pos 0;
  at_index = λ i v. fault out_of_bounds;
  append = λ e v. fault out_of_bounds;
  as_int = as_int;
  as_double = as_int;
  as_bool = as_bool;
  as_cstring = as_cstring;
  from_int = number;
  from_long_long = number;
  from_double = number;
  from_bool = truth;
  from_cstring = text;
  parse = λ document v. (false, v);
  write = λ v. [];
}

abbrev pub IsObject : Value → Type 0
IsObject v = is_object v ≡ true

stored :
    (k : List ℕ) (u v : Value)
    → IsObject v
    → (v' : Value) × (with_member k u v ≡ ok v') × Stored IsObject find k u v v'
unfolding with_member is_object find lookup
stored k u (object ms) h =
    (object (member k u ms), refl, record { is_object = refl; finds = λ j. refl })
stored k u (number z) h = absurd (cc)
stored k u (truth b) h = absurd (cc)
stored k u (text t) h = absurd (cc)

member_found : (k : List ℕ) (v : Value) → IsObject v → is_member k v ≡ ok (is_some (find k v))
unfolding is_member is_object find
member_found k (object ms) h = refl
member_found k (number z) h = absurd (cc)
member_found k (truth b) h = absurd (cc)
member_found k (text t) h = absurd (cc)

got : (k : List ℕ) (d v : Value) → IsObject v → get_member k d v ≡ ok (or_else d (find k v))
unfolding get_member is_object find
got k d (object ms) h = refl
got k d (number z) h = absurd (cc)
got k d (truth b) h = absurd (cc)
got k d (text t) h = absurd (cc)

at_found : (k : List ℕ) (v u : Value) → IsObject v → find k v ≡ some u → at_key k v ≡ ok (u, v)
unfolding at_key is_object find found_or_new
at_found k (object ms) u h e = rw e refl
at_found k (number z) u h e = absurd (cc)
at_found k (truth b) u h e = absurd (cc)
at_found k (text t) u h e = absurd (cc)

at_missing :
    (k : List ℕ) (v : Value)
    → IsObject v
    → find k v ≡ none
    → (v' : Value) × (at_key k v ≡ ok (object done, v')) × Stored IsObject find k (object done) v v'
unfolding at_key is_object find found_or_new lookup
at_missing k (object ms) h e =
    (object (member k (object done) ms), rw e refl, record { is_object = refl; finds = λ j. refl })
at_missing k (number z) h e = absurd (cc)
at_missing k (truth b) h e = absurd (cc)
at_missing k (text t) h e = absurd (cc)

pub laws : JsonLaws json IsObject find
unfolding is_object find lookup as_int as_bool as_cstring
laws = record {
  null_object = refl;
  null_find = λ k. refl;
  is_member_find = member_found;
  get_find = got;
  at_found = at_found;
  at_missing = at_missing;
  set_stored = stored;
  int_back = λ z h. refl;
  double_back = λ x. refl;
  bool_back = λ b. refl;
  cstring_back = λ t. refl;
  null_bool = refl;
}

abbrev empty : JsonParser Value
empty = record { str_data = []; root = object done; logflag = pos 0 }

abbrev cell : List Cell
cell = some 1 ∷ some 2 ∷ none ∷ []

read_value_int-back_example :
    (q : JsonParser Value) × ((write_value_int json (b'a' ∷ []) (pos 7) empty >>= λ r.
    write_value json (b'b' ∷ []) (text (b'x' ∷ [])) r)
      ≡ ok q)
    × (read_value_int json (b'a' ∷ []) q ≡ ok (some (pos 7)))
unfolding is_object same_text
read_value_int-back_example =
    read_value_int-back json IsObject find laws (b'a' ∷ []) (b'b' ∷ []) (pos 7) (text (b'x' ∷ []))
      empty refl refl (omega arith)

read_value_string-back_example :
    (q : JsonParser Value) × ((write_value_string json (b'a' ∷ []) (b'x' ∷ b'y' ∷ []) empty >>= λ r.
    write_value json (b'b' ∷ []) (number (pos 7)) r)
      ≡ ok q)
    × (read_value_string json (b'a' ∷ []) cell q
        ≡ ok (
            some
              (map some (until_nul (b'x' ∷ b'y' ∷ [])) ++ drop (strlen (b'x' ∷ b'y' ∷ [])) cell)))
unfolding is_object same_text until_nul strlen
read_value_string-back_example =
    read_value_string-back json IsObject find laws (b'a' ∷ []) (b'b' ∷ []) (b'x' ∷ b'y' ∷ [])
      (number (pos 7)) cell empty refl refl (omega arith) (omega arith)

read_array_value_int-both_example :
    (q : JsonParser Value) × ((write_array_value_int json (b'k' ∷ []) (b'a' ∷ []) (pos 3) empty
        >>= λ r. write_array_value_int json (b'k' ∷ []) (b'b' ∷ []) (pos 4) r)
      ≡ ok q)
    × (read_array_value_int json (b'k' ∷ []) (b'a' ∷ []) q ≡ ok (some (pos 3), q))
    × (read_array_value_int json (b'k' ∷ []) (b'b' ∷ []) q ≡ ok (some (pos 4), q))
unfolding is_object same_text find lookup
read_array_value_int-both_example =
    read_array_value_int-both json IsObject find laws (b'k' ∷ []) (b'a' ∷ []) (b'b' ∷ []) (pos 3)
      (pos 4) empty refl refl refl (omega arith) (omega arith)

-- The key "k" leads to an object with no members.
abbrev one_key : JsonParser Value
one_key = record empty { root = object (member (b'k' ∷ []) (object done) done) }

one_key-Under : Under json IsObject find laws (b'k' ∷ []) (object done) one_key
unfolding is_object find lookup same_text
one_key-Under = record { root_object = refl; leads = refl; object = refl }

read_array_value_bool-adds_example :
    (q : JsonParser Value) × (v : Value) × (read_array_value_bool json
        (b'k' ∷ [])
        (b'f' ∷ [])
        one_key
      ≡ ok (some false, q))
    × (find (b'k' ∷ []) q.root ≡ some v)
    × Stored IsObject find (b'f' ∷ []) (object done) (object done) v
unfolding find lookup
read_array_value_bool-adds_example =
    read_array_value_bool-adds json IsObject find laws (b'k' ∷ []) (b'f' ∷ []) (object done) one_key
      one_key-Under refl
