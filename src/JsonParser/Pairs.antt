-- ===== src/JsonParser/Pairs.antt =====
-- The pairs that CJsonParser keeps under one key: each is read back.
use dummy_client.Common.{ℕ, ◌^◌, ◌≡◌, ◌∙◌, refl, Option, none, some, List, false, same_text}
use dummy_client.Common.Int.{ℤ, pos, FitsAt}
use dummy_client.Outcome.{Outcome, ok, ◌>>=◌}
use dummy_client.Json.{Json, JsonLaws, Stored}
use dummy_client.JsonParser.{
  JsonParser, root_at, read_pair, read_array_value_int, read_array_value_bool, pair_copy,
  write_pair, write_array_value_int,
}
use dummy_client.JsonParser.Values.{write_value-Wrote, found_self, found_other}

module _ {Value Double : Type 0} (json : Json Value Double) (IsObject : Value → Type 0)
    (find : List ℕ → Value → Option Value) (laws : JsonLaws json IsObject find) where
  -- The key leads to this object, in a parser whose root is one.
  pub record Under (key : List ℕ) (u : Value) (p : JsonParser Value) : Type 0 where
    pub root_object : IsObject p.root
    pub leads : find key p.root ≡ some u
    pub object : IsObject u

  Under-root_at :
      {key : List ℕ} {u : Value} {p : JsonParser Value}
      → Under key u p
      → root_at json key p ≡ ok (u, p)
  unfolding root_at
  Under-root_at {key = key} {u = u} {p = p} h =
      rw (laws.at_found key p.root u h.root_object h.leads) refl

  -- A pair goes into an object behind the key: a copy with the pair in it takes its place.
  pub record Paired (key1 key2 : List ℕ) (x u : Value) (r : Outcome (JsonParser Value))
      : Type 0 where
    pub parser : JsonParser Value
    pub copy : Value
    pub runs : r ≡ ok parser
    pub under : Under key1 copy parser
    pub stored : Stored IsObject find key2 x u copy

  pair_added :
      {key1 : List ℕ} (key2 : List ℕ) (x u : Value) (p : JsonParser Value)
      → IsObject p.root
      → IsObject u
      → pair_copy json key1 p ≡ ok (u, p)
      → Paired key1 key2 x u (write_pair json key1 key2 x p)
  unfolding write_pair
  pair_added {key1 = key1} key2 x u p h o copied =
      let (copy, e, s) = laws.set_stored key2 x u o in
      let w = write_value-Wrote json IsObject find laws key1 copy p h in
      record {
        parser = w.parser;
        copy = copy;
        runs = rw (copied, e) w.runs;
        under = record {
          root_object = w.stored.is_object;
          leads = found_self json IsObject find laws w.stored;
          object = s.is_object;
        };
        stored = s;
      }

  pair_in_new :
      {key1 : List ℕ} (key2 : List ℕ) (x : Value) (p : JsonParser Value)
      → IsObject p.root
      → find key1 p.root ≡ none
      → Paired key1 key2 x json.null (write_pair json key1 key2 x p)
  unfolding pair_copy
  pair_in_new {key1 = key1} key2 x p h missing =
      pair_added key2 x json.null p h laws.null_object
        (rw (laws.is_member_find key1 p.root h, missing) refl)

  pair_in_old :
      {key1 : List ℕ} (key2 : List ℕ) (x : Value) {u : Value} {p : JsonParser Value}
      → Under key1 u p
      → Paired key1 key2 x u (write_pair json key1 key2 x p)
  unfolding pair_copy
  pair_in_old {key1 = key1} key2 x {u = u} {p = p} h =
      pair_added key2 x u p h.root_object h.object
        (rw (laws.is_member_find key1 p.root h.root_object, h.leads) (Under-root_at h))

  read_pair_found :
      {A : Type 0} {key1 : List ℕ} (key2 : List ℕ) (d : Value) (as_a : Value → Outcome A)
      {u x : Value} {a : A} {p : JsonParser Value}
      → Under key1 u p
      → find key2 u ≡ some x
      → as_a x ≡ ok a
      → read_pair json key1 key2 d as_a p ≡ ok (some a, p)
  unfolding read_pair
  read_pair_found {key1 = key1} key2 d as_a {u = u} {p = p} h found e =
      rw
        (
          laws.is_member_find key1 p.root h.root_object,
          h.leads,
          Under-root_at h,
          laws.get_find key2 d u h.object,
          found,
          e,
        )
        refl

  -- In an object that has no member `key1`, where JsonCpp does what its header documents: after
  -- `WriteArrayValueInt` of two `int`s under `key1` and different second keys, `ReadArrayValueInt`
  -- gives both back, and the reading leaves the parser as it was.
  pub read_array_value_int-both :
      (key1 a b : List ℕ) (x y : ℤ) (p : JsonParser Value)
      → IsObject p.root
      → find key1 p.root ≡ none
      → same_text a b ≡ false
      → FitsAt (2 ^ 32) x
      → FitsAt (2 ^ 32) y
      → (q : JsonParser Value) × ((write_array_value_int json key1 a x p >>= λ r.
            write_array_value_int json key1 b y r)
          ≡ ok q)
        × (read_array_value_int json key1 a q ≡ ok (some x, q))
        × (read_array_value_int json key1 b q ≡ ok (some y, q))
  unfolding read_array_value_int write_array_value_int
  read_array_value_int-both key1 a b x y p h missing differs x_fits y_fits =
      let one = pair_in_new {key1 = key1} a (json.from_int x) p h missing in
      let two = pair_in_old b (json.from_int y) one.under in
      (
        two.parser,
        rw one.runs two.runs,
        read_pair_found a (json.from_int (pos 0)) json.as_int two.under
            (found_other json IsObject find laws a two.stored differs
              ∙ found_self json IsObject find laws one.stored)
            (laws.int_back x x_fits),
        read_pair_found b (json.from_int (pos 0)) json.as_int two.under
            (found_self json IsObject find laws two.stored) (laws.int_back y y_fits),
      )

  -- Where `key1` leads to an object that has no member `key2`, and JsonCpp does what its header
  -- documents: `ReadArrayValueBool` succeeds with false, and adds the member `key2` with null.
  pub read_array_value_bool-adds :
      (key1 key2 : List ℕ) (u : Value) (p : JsonParser Value)
      → Under key1 u p
      → find key2 u ≡ none
      → (q : JsonParser Value) × (v : Value) × (read_array_value_bool json key1 key2 p
          ≡ ok (some false, q))
        × (find key1 q.root ≡ some v)
        × Stored IsObject find key2 json.null u v
  unfolding read_array_value_bool
  read_array_value_bool-adds key1 key2 u p h missing =
      let (v, e, s) = laws.at_missing key2 u h.object missing in
      let (root, f, t) = laws.set_stored key1 v p.root h.root_object in
      (
        record p { root = root },
        v,
        rw
            (
              laws.is_member_find key1 p.root h.root_object,
              h.leads,
              Under-root_at h,
              e,
              f,
              laws.null_bool,
            )
            refl,
        found_self json IsObject find laws t,
        s,
      )
