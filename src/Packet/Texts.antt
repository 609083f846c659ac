-- ===== src/Packet/Texts.antt =====
-- `ReadShortString` and `ReadString`: what they copy out, what they refuse, and that they stay
-- within the caller's array.
use Prim.Native.String.{String}
use dummy_client.Common.{ℕ, ◌≤◌, ◌<◌, ◌≡◌, refl, arith}
use dummy_client.Common.{none, some, List, [], ◌∷◌, ◌++◌, map, length}
use dummy_client.Common.{length-append, length-map}
use dummy_client.Common.{drop, length-drop}
use dummy_client.Common.Int.{pos}
use dummy_client.Outcome.{ok}
use dummy_client.Packet.State.{Cell, Session, store}
use dummy_client.Packet.Memory.{store-append}
use dummy_client.Packet.Reads.{copy_text, read_text_rest}
use dummy_client.Packet.Reading.{Holds, moved, with_error, check_data_exists-enough, peek-Holds}

-- The caller's array with the text and its final 0 over its front.
abbrev pub text_over : List ℕ → List Cell → List Cell
text_over xs target = (map some xs ++ map some (0 ∷ [])) ++ drop 1 (drop (length xs) target)

store-text :
    (xs : List ℕ) (target : List Cell)
    → length xs ≤ length target
    → store 0 xs target ≡ ok (map some xs ++ drop (length xs) target)
store-text xs target h = store-append 0 [] target xs refl h

store-end :
    (xs : List ℕ) (target : List Cell)
    → length xs < length target
    → store (length xs) (0 ∷ []) (map some xs ++ drop (length xs) target) ≡ ok (text_over xs target)
store-end xs target h =
    store-append (length xs) (map some xs) (drop (length xs) target) (0 ∷ [])
      (omega (arith, length-map {0, 0} some xs)) (omega (arith, length-drop (length xs) target))

module _ {N : Type 0} (s : Session N) (front xs rest : List ℕ) (target : List Cell) where
  pub copy_text-Holds :
      Holds s.packet front (xs ++ rest)
      → length xs < length target
      → copy_text (length xs) target s ≡ ok (some (text_over xs target), moved s (length xs))
  unfolding copy_text
  copy_text-Holds h fits = ground (
    arith,
    peek-Holds s front xs rest h,
    store-text xs target (omega arith),
    store-end xs target fits,
  )

  -- A size that is in the packet and no more than the limit.
  pub read_text_rest-Holds :
      (name : String) (limit : ℕ)
      → Holds s.packet front (xs ++ rest)
      → length xs < length target
      → length xs ≤ limit
      → read_text_rest name target (pos limit) (some (pos (length xs))) s
        ≡ ok (some (text_over xs target), moved s (length xs))
  unfolding read_text_rest
  read_text_rest-Holds name limit h fits small = ground (
    arith,
    check_data_exists-enough s front (xs ++ rest) (length xs) h
        (omega (arith, length-append xs rest)),
    copy_text-Holds h fits,
  )

  -- A size that is in the packet but over the limit is logged under the method's name.
  pub read_text_rest-long :
      (name : String) (limit : ℕ)
      → Holds s.packet front (xs ++ rest)
      → limit < length xs
      → read_text_rest name target (pos limit) (some (pos (length xs))) s
        ≡ ok (none, with_error s name (pos (length xs)))
  unfolding read_text_rest
  read_text_rest-long name limit h long = ground (
    arith,
    check_data_exists-enough s front (xs ++ rest) (length xs) h
        (omega (arith, length-append xs rest)),
  )
