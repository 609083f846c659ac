-- ===== src/Packet/Memory.antt =====
-- `memcpy` and `new` of the packet code where they stay within their arrays.
use dummy_client.Common.{
  ℕ, zero, suc, ◌+◌, ◌≤◌, ◌≡◌, refl, ap, arith, none, some, List, [], ◌∷◌, ◌++◌, map,
}
use dummy_client.Common.{length, take, drop, replicate, le→leb}
use dummy_client.Common.{length-append, length-map, length-replicate, length-drop, length-take}
use dummy_client.Common.{take-append_at, drop-append_at, drop-append_past, append_assoc}
use dummy_client.Outcome.{ok}
use dummy_client.Packet.State.{Cell, defined, load, store, copy_front}
use dummy_client.Packet.Buffer.{clear_new, pointer_size}

-- A store that fits returns an array of the same length.
pub store_fits :
    (p : ℕ) (bs : List ℕ) (cs : List Cell)
    → p + length bs ≤ length cs
    → store p bs cs ≡ ok (take p cs ++ (map some bs ++ drop (p + length bs) cs))
unfolding store
store_fits p bs cs h = rw (le→leb _ _ h)

pub length-store :
    (p : ℕ) (bs : List ℕ) (cs : List Cell)
    → p + length bs ≤ length cs
    → length (take p cs ++ (map some bs ++ drop (p + length bs) cs)) ≡ length cs
length-store p bs cs h = omega (
  arith,
  length-append (take p cs) (map some bs ++ drop (p + length bs) cs),
  length-append (map some bs) (drop (p + length bs) cs),
  length-take p cs,
  length-map {0, 0} some bs,
  length-drop (p + length bs) cs,
)

-- A store at the seam of two parts overwrites the front of the second.
pub store-append :
    (p : ℕ) (front slack : List Cell) (bs : List ℕ)
    → p ≡ length front
    → length bs ≤ length slack
    → store p bs (front ++ slack) ≡ ok ((front ++ map some bs) ++ drop (length bs) slack)
store-append p front slack bs e h =
    rw
      (
        store_fits p bs (front ++ slack) (omega (arith, length-append front slack)),
        take-append_at p front slack e,
        drop-append_past (p + length bs) (length bs) front slack (omega arith),
        append_assoc,
      )
      refl

pub copy_front-append :
    (n : ℕ) (front slack new : List Cell)
    → n ≡ length front
    → n ≤ length new
    → copy_front n (front ++ slack) new ≡ ok (front ++ drop n new)
unfolding copy_front
copy_front-append n front slack new e h =
    rw
      (
        le→leb n (length (front ++ slack)) (omega (arith, length-append front slack)),
        le→leb n (length new) h,
        take-append_at n front slack e,
      )
      refl

-- What has been stored is read back.
pub defined-map : (bs : List ℕ) → defined (map some bs) ≡ ok bs
unfolding defined
defined-map [] = refl
defined-map (b ∷ bs) = rw (defined-map bs)

pub load-append :
    (p : ℕ) (front : List Cell) (bs : List ℕ) (back : List Cell)
    → p ≡ length front
    → load p (length bs) (front ++ (map some bs ++ back)) ≡ ok bs
unfolding load
load-append p front bs back e =
    rw
      (
        le→leb (p + length bs) (length (front ++ (map some bs ++ back))) (
            omega (
              arith,
              length-append front (map some bs ++ back),
              length-append (map some bs) back,
              length-map {0, 0} some bs,
            )),
        drop-append_at p front (map some bs ++ back) e,
        take-append_at (length bs) (map some bs) back (omega (arith, length-map {0, 0} some bs)),
      )
      (defined-map bs)

-- The new array of the packet code, 8 bytes of it cleared.
pub clear_new_fits :
    (n : ℕ) → 8 ≤ n → (cs : List Cell) × (clear_new (replicate n none) ≡ ok cs) × (length cs ≡ n)
unfolding clear_new
clear_new_fits n h = (
  _,
  store_fits 0 (replicate pointer_size 0) (replicate n none)
      (omega (arith, length-replicate {A = Cell} n none)),
  omega (
    arith,
    length-replicate {A = Cell} n none,
    length-store 0 (replicate pointer_size 0) (replicate n none),
  ),
)

-- A part of what has been stored is read back from the middle.
slice-map :
    (p n : ℕ) (bs : List ℕ) (slack : List Cell)
    → p + n ≤ length bs
    → take n (drop p (map some bs ++ slack)) ≡ map some (take n (drop p bs))
slice-map p zero bs slack h = refl
slice-map zero (suc n) [] slack h = absurd (omega arith)
slice-map zero (suc n) (b ∷ bs) slack h =
    ap (λ cs. some b ∷ cs) (slice-map zero n bs slack (omega arith))
slice-map (suc p) (suc n) [] slack h = absurd (omega arith)
slice-map (suc p) (suc n) (b ∷ bs) slack h = slice-map p (suc n) bs slack (omega arith)

pub load-map :
    (p n : ℕ) (bs : List ℕ) (slack : List Cell)
    → p + n ≤ length bs
    → load p n (map some bs ++ slack) ≡ ok (take n (drop p bs))
unfolding load
load-map p n bs slack h =
    rw
      (
        le→leb (p + n) (length (map some bs ++ slack))
            (omega (arith, length-append (map some bs) slack, length-map {0, 0} some bs)),
        slice-map p n bs slack h,
      )
      (defined-map (take n (drop p bs)))
