-- ===== src/Main/Texts.antt =====
-- Which texts of the metadata fit the arrays of main.cpp.
use dummy_client.Common.{
  ℕ, zero, suc, ◌-◌, ◌^◌, ◌<◌, ◌≤◌, ◌≡◌, ◌∙◌, refl, ap, arith, Option, some, List, [], ◌∷◌, ◌++◌,
  map, if◌then◌else◌, length, ltb, drop, length-replicate, Bool-cases, inl, inr, ◌==◌, take_all,
}
use dummy_client.Common.Int.{pos, signed32}
use dummy_client.Outcome.{ok, fault, out_of_bounds, ◌>>=◌}
use dummy_client.Packet.State.{Cell, store}
use dummy_client.Packet.Writes.{until_nul, strlen, int_of_size, source_bytes}
use dummy_client.Json.{Json, JsonLaws}
use dummy_client.JsonParser.{JsonParser, copy_chars, when_member, read_value_string}
use dummy_client.JsonParser.Values.{copy_chars-fits}
use dummy_client.Main.Setup.{array_text, cleared, read_text}

copy_chars-long :
    (text : List ℕ) (target : List Cell)
    → strlen text < 2 ^ 31
    → length target < strlen text
    → copy_chars text target ≡ fault out_of_bounds
unfolding copy_chars strlen source_bytes signed32 store
copy_chars-long text target small long =
    let xs : List ℕ = until_nul text in
    let size : int_of_size (length xs) ≡ pos (length xs) = ground arith in
    ground (arith, size, take_all (length xs) xs (omega arith))

array_text-empty : (size : ℕ) → 1 ≤ size → array_text (cleared size) ≡ ok []
unfolding array_text
array_text-empty zero h = absurd (omega arith)
array_text-empty (suc n) h = refl

-- A text in front of cleared bytes is the C string of an array with one of them at least.
array_text-cleared :
    (text : List ℕ) (size : ℕ)
    → 1 ≤ size
    → array_text (map some (until_nul text) ++ cleared size) ≡ ok (until_nul text)
unfolding array_text until_nul
array_text-cleared [] size h = array_text-empty size h
array_text-cleared (b ∷ bs) size h = elim (Bool-cases (b == 0)) [
  | inl nul ↦ rw nul (array_text-empty size h)
  | inr other ↦ ground (arith, other, array_text-cleared bs size h)
]

-- One with none of them has no end.
array_text-full :
    (text : List ℕ) → array_text (map some (until_nul text) ++ []) ≡ fault out_of_bounds
unfolding array_text until_nul
array_text-full [] = refl
array_text-full (b ∷ bs) = ground (arith, array_text-full bs)

drop-cleared : (n size : ℕ) → n ≤ size → drop n (cleared size) ≡ cleared (size - n)
drop-cleared zero size h = ap cleared (omega arith)
drop-cleared (suc n) zero h = absurd (omega arith)
drop-cleared (suc n) (suc size) h = drop-cleared n size (omega arith) ∙ ap cleared (omega arith)

module _ {Value Double : Type 0} (json : Json Value Double) (IsObject : Value → Type 0)
    (find : List ℕ → Value → Option Value) (laws : JsonLaws json IsObject find) where
  -- What `ReadValueString` does where its key leads to a text.
  read_value_string-found :
      (key text : List ℕ) (target : List Cell) (v : Value) (p : JsonParser Value)
      → IsObject p.root
      → find key p.root ≡ some v
      → json.as_cstring v ≡ ok text
      → read_value_string json key target p ≡ (copy_chars text target >>= λ cells. ok (some cells))
  unfolding read_value_string when_member
  read_value_string-found key text target v p h found e =
      rw
        (
          laws.is_member_find key p.root h,
          laws.get_find key (json.from_cstring []) p.root h,
          found,
          e,
        )
        refl

  -- Where `key` leads to a text of less than 2 ^ 31 characters in an object, and JsonCpp does what its
  -- header documents: reading it into a cleared array of `size` bytes gives the text if it has fewer
  -- than `size` characters, and an access out of the array's bounds if not.
  pub read_text-bound :
      (key text : List ℕ) (size : ℕ) (v : Value) (p : JsonParser Value)
      → IsObject p.root
      → find key p.root ≡ some v
      → json.as_cstring v ≡ ok text
      → strlen text < 2 ^ 31
      → read_text json key size p
        ≡ (if ltb (strlen text) size then ok (some (until_nul text)) else fault out_of_bounds)
  unfolding read_text
  read_text-bound key text size v p h found e small =
      let read : read_value_string json key (cleared size) p
          ≡ (copy_chars text (cleared size) >>= λ cells. ok (some cells)) =
        read_value_string-found key text (cleared size) v p h found e in
      let filled : strlen text ≤ size
          → copy_chars text (cleared size)
            ≡ ok (map some (until_nul text) ++ cleared (size - strlen text)) =
        λ fits.
          copy_chars-fits text (cleared size) small
            (omega (arith, fits, length-replicate {A = Cell} size (some 0)))
          ∙ rw (drop-cleared (strlen text) size fits) refl in
      elim (Bool-cases (ltb (strlen text) size)) [
        | inl less ↦
            rw (read_text, read, filled (ground (arith, less)), less)
              (rw (array_text-cleared text (size - strlen text) (ground (arith, less))) refl)
        | inr more ↦ elim (Bool-cases (ltb size (strlen text))) [
          | inl beyond ↦
              rw
                (
                  read_text,
                  read,
                  copy_chars-long text (cleared size) small
                      (ground (arith, beyond, length-replicate {A = Cell} size (some 0))),
                  more,
                )
                refl
          | inr equal ↦
              let none_left : size - strlen text ≡ 0 = ground (arith, equal, more) in
              rw
                (
                  read_text,
                  read,
                  filled (ground (arith, equal)),
                  more,
                  none_left,
                  array_text-full text,
                )
                refl
        ]
      ]
