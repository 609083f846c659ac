-- ===== src/JsonParser/Values.antt =====
-- A value that CJsonParser has written is read back.
use dummy_client.Common.{
  ℕ, ◌^◌, ◌≤◌, ◌<◌, ◌≡◌, ◌∙◌, refl, ap, arith, Option, some, List, [], ◌∷◌, ◌++◌, map, true, false,
  length, drop, take_all, same_text,
}
use dummy_client.Common.Int.{ℤ, pos, FitsAt, signed32}
use dummy_client.Outcome.{Outcome, ok, ◌>>=◌}
use dummy_client.Packet.State.{Cell}
use dummy_client.Packet.Memory.{store-append}
use dummy_client.Packet.Writes.{until_nul, strlen, int_of_size, source_bytes}
use dummy_client.Json.{Json, JsonLaws, Stored, or_else}
use dummy_client.JsonParser.{
  JsonParser, copy_chars, when_member, read_value_int, read_value_string, write_value,
  write_value_int, write_value_string,
}

pub same_text_self : (t : List ℕ) → same_text t t ≡ true
unfolding same_text
same_text_self [] = refl
same_text_self (b ∷ bs) = ground (arith, same_text_self bs)

-- The size of a text of less than 2 ^ 31 characters is not wrapped, and all of it is copied.
pub copy_chars-fits :
    (text : List ℕ) (target : List Cell)
    → strlen text < 2 ^ 31
    → strlen text ≤ length target
    → copy_chars text target ≡ ok (map some (until_nul text) ++ drop (strlen text) target)
unfolding copy_chars strlen source_bytes signed32
copy_chars-fits text target small fits =
    let xs : List ℕ = until_nul text in
    let size : int_of_size (length xs) ≡ pos (length xs) = ground arith in
    ground
      (arith, size, take_all (length xs) xs (omega arith), store-append 0 [] target xs refl fits)

until_nul-until_nul : (t : List ℕ) → until_nul (until_nul t) ≡ until_nul t
unfolding until_nul
until_nul-until_nul [] = refl
until_nul-until_nul (b ∷ bs) = ground (arith, until_nul-until_nul bs)

pub copied :
    (t : List ℕ) (target : List Cell)
    → strlen t < 2 ^ 31
    → strlen t ≤ length target
    → copy_chars (until_nul t) target ≡ ok (map some (until_nul t) ++ drop (strlen t) target)
unfolding strlen
copied t target small fits =
    let twice : until_nul (until_nul t) ≡ until_nul t = until_nul-until_nul t in
    copy_chars-fits (until_nul t) target (rw twice small) (rw twice fits) ∙ rw twice refl

module _ {Value Double : Type 0} (json : Json Value Double) (IsObject : Value → Type 0)
    (find : List ℕ → Value → Option Value) (laws : JsonLaws json IsObject find) where
  -- A parser behind a write: its root is an object in which the key leads to the value.
  pub record Wrote (key : List ℕ) (value : Value) (p : JsonParser Value)
      (r : Outcome (JsonParser Value)) : Type 0 where
    pub parser : JsonParser Value
    pub runs : r ≡ ok parser
    pub stored : Stored IsObject find key value p.root parser.root

  pub write_value-Wrote :
      (key : List ℕ) (value : Value) (p : JsonParser Value)
      → IsObject p.root
      → Wrote key value p (write_value json key value p)
  unfolding write_value
  write_value-Wrote key value p h =
      let (root, e, s) = laws.set_stored key value p.root h in
      record { parser = record p { root = root }; runs = ground (arith, e); stored = s }

  pub found_self :
      {key : List ℕ} {value before after : Value}
      → Stored IsObject find key value before after
      → find key after ≡ some value
  found_self {key = key} {value = value} s = s.finds key ∙ rw (same_text_self key) refl

  pub found_other :
      {key : List ℕ} {value before after : Value} (k : List ℕ)
      → Stored IsObject find key value before after
      → same_text k key ≡ false
      → find k after ≡ find k before
  found_other k s other = s.finds k ∙ rw other refl

  pub when_found :
      {A : Type 0} (key : List ℕ) (p : JsonParser Value) (v : Value) (rest : Outcome A) (a : A)
      → IsObject p.root
      → find key p.root ≡ some v
      → rest ≡ ok a
      → when_member json key p rest ≡ ok (some a)
  unfolding when_member
  when_found key p v rest a h e f = ground (arith, laws.is_member_find key p.root h, e, f)

  module _ (key other : List ℕ) (v : Value) (p : JsonParser Value) (h : IsObject p.root)
      (differs : same_text key other ≡ false) where
    -- A write of the key and then one of another key.
    abbrev both_written : Value → Outcome (JsonParser Value)
    both_written value = write_value json key value p >>= λ q. write_value json other v q

    both :
        (value : Value)
        → (q : JsonParser Value) × (both_written value ≡ ok q)
          × IsObject q.root
          × (find key q.root ≡ some value)
    both value =
        let a : Wrote key value p (write_value json key value p) =
          write_value-Wrote key value p h in
        let b : Wrote other v a.parser (write_value json other v a.parser) =
          write_value-Wrote other v a.parser a.stored.is_object in
        (
          b.parser,
          rw a.runs b.runs,
          b.stored.is_object,
          found_other key b.stored differs ∙ found_self a.stored,
        )

    -- A use of the value that the key leads to is made of this one after both writes.
    pub back :
        {A : Type 0} (value : Value) (rest : JsonParser Value → Outcome A) (a : A)
        → ((q : JsonParser Value)
            → json.get key (json.from_int (pos 0)) q.root ≡ ok value
            → json.get key (json.from_cstring []) q.root ≡ ok value
            → rest q ≡ ok a)
        → (q : JsonParser Value) × (both_written value ≡ ok q)
          × (when_member json key q (rest q) ≡ ok (some a))
    back value rest a e =
        let (q, runs, object, found) = both value in
        let got : (d : Value) → json.get key d q.root ≡ ok value =
          λ d. laws.get_find key d q.root object ∙ ap (λ o. ok (or_else d o)) found in
        (
          q,
          runs,
          when_found key q value (rest q) a object found
              (e q (got (json.from_int (pos 0))) (got (json.from_cstring []))),
        )

  -- In an object, where JsonCpp does what its header documents: after `WriteValueInt` of an `int` and
  -- then a write of another key, `ReadValueInt` gives the number back.
  pub read_value_int-back :
      (key other : List ℕ) (z : ℤ) (v : Value) (p : JsonParser Value)
      → IsObject p.root
      → same_text key other ≡ false
      → FitsAt (2 ^ 32) z
      → (q : JsonParser Value) × ((write_value_int json key z p >>= λ r. write_value json other v r)
          ≡ ok q)
        × (read_value_int json key q ≡ ok (some z))
  unfolding read_value_int write_value_int
  read_value_int-back key other z v p h differs fits =
      back key other v p h differs (json.from_int z)
        (λ q. json.get key (json.from_int (pos 0)) q.root >>= json.as_int) z
        (λ _ got _. rw got (laws.int_back z fits))

  -- In an object, where JsonCpp does what its header documents: after `WriteValueString` of a text of
  -- less than 2 ^ 31 characters and then a write of another key, `ReadValueString` into an array that
  -- has room for its characters copies them to the front, without a final 0, and changes nothing
  -- behind them.
  pub read_value_string-back :
      (key other t : List ℕ) (v : Value) (target : List Cell) (p : JsonParser Value)
      → IsObject p.root
      → same_text key other ≡ false
      → strlen t < 2 ^ 31
      → strlen t ≤ length target
      → (q : JsonParser Value) × ((write_value_string json key t p >>= λ r.
            write_value json other v r)
          ≡ ok q)
        × (read_value_string json key target q
            ≡ ok (some (map some (until_nul t) ++ drop (strlen t) target)))
  unfolding read_value_string write_value_string
  read_value_string-back key other t v target p h differs small fits =
      back key other v p h differs (json.from_cstring (until_nul t))
        (λ q. json.get key (json.from_cstring []) q.root >>= json.as_cstring >>= λ text.
          copy_chars text target)
        (map some (until_nul t) ++ drop (strlen t) target)
        (λ _ _ got. rw (got, laws.cstring_back (until_nul t)) (copied t target small fits))
