-- ===== src/MiscUtil/Sweep.antt =====
-- Which files the loop over the log directory deletes.
use dummy_client.Common.{
  ℕ, ◌+◌, ◌≤◌, ◌≡◌, refl, arith, Option, none, some, List, [], ◌∷◌, Bool, true, false,
}
use dummy_client.Common.{length}
use mathlib.Core.Path.{ap₂}
use dummy_client.Outcome.{Outcome}
use dummy_client.MiscUtil.{Swept}
use dummy_client.Common.{
  leb, ap, ◌<◌, ◌≢◌, ◌++◌, codes, ltb, ltb→lt, same_text, Bool-cases, inl, inr, sym, ◌∙◌,
}
use dummy_client.Common.Int.{ℤ, pos_part, neg_part, ltb_ℤ, diff_ℤ, sub_ℕ}
use dummy_client.Outcome.{ok, fit}
use dummy_client.MiscUtil.{Stat, Entry, new_path, is_old, also, sweep}

-- Each path fits in 256 bytes with its final 0.
unfoldable pub Fits : List ℕ → List Entry → Type 0
Fits log_path [] = Unit
Fits log_path (entry ∷ entries) =
    (length (new_path log_path entry) + 1 ≤ 256) × Fits log_path entries

-- The entries before the first that `lstat` fails on, with what it says of them.
unfoldable pub known : List Entry → List (Entry × Stat)
known [] = []
known (entry ∷ entries) = elim entry.stat [ none ↦ [] | some stat ↦ (entry, stat) ∷ known entries ]

-- Whether `lstat` fails on none.
unfoldable pub all_known : List Entry → Bool
all_known [] = true
all_known (entry ∷ entries) = elim entry.stat [ none ↦ false | some stat ↦ all_known entries ]

-- A regular file, whose last change is more than `seconds` before `the_time`: the difference of the
-- integers is written as a sum on either side.
abbrev pub IsOld : ℤ → ℤ → Entry → Stat → Type 0
IsOld seconds the_time entry stat =
    (stat.is_reg ≡ true)
    × (entry.d_name ≢ codes ".")
    × (entry.d_name ≢ codes "..")
    × (pos_part stat.mtime + pos_part seconds + neg_part the_time
        < pos_part the_time + neg_part stat.mtime + neg_part seconds)

-- The paths of the old files among some entries, and no others.
pub data Deletes (seconds the_time : ℤ) (log_path : List ℕ)
    : List (Entry × Stat) → List (List ℕ) → Type 0 where
  deletes_none : Deletes seconds the_time log_path [] []
  deletes :
      {entry : Entry} {stat : Stat} {rest : List (Entry × Stat)} {paths : List (List ℕ)}
      → IsOld seconds the_time entry stat
      → Deletes seconds the_time log_path rest paths
      → Deletes seconds the_time log_path
          ((entry, stat) ∷ rest)
          ((log_path ++ (b'/' ∷ entry.d_name)) ∷ paths)
  keeps :
      {entry : Entry} {stat : Stat} {rest : List (Entry × Stat)} {paths : List (List ℕ)}
      → ¬ IsOld seconds the_time entry stat
      → Deletes seconds the_time log_path rest paths
      → Deletes seconds the_time log_path ((entry, stat) ∷ rest) paths

shifted :
    (a b m n : ℕ) → ltb (m + neg_part (sub_ℕ a b)) (pos_part (sub_ℕ a b) + n) ≡ ltb (m + b) (a + n)
shifted a b m n = elim (Bool-cases (leb b a)) [
  | inl le ↦ rw le (ground (arith, le))
  | inr gt ↦ rw gt (ground (arith, gt))
]

older :
    (seconds the_time mtime : ℤ)
    → ltb_ℤ mtime (diff_ℤ the_time seconds) ≡ true
    → pos_part mtime + pos_part seconds + neg_part the_time
      < pos_part the_time + neg_part mtime + neg_part seconds
older seconds the_time mtime e =
    let f : ltb (pos_part mtime + (neg_part the_time + pos_part seconds))
          (pos_part the_time + neg_part seconds + neg_part mtime)
        ≡ true =
      sym (
        shifted (pos_part the_time + neg_part seconds) (neg_part the_time + pos_part seconds)
          (pos_part mtime) (neg_part mtime))
      ∙ e in
    omega (arith, ltb→lt _ _ f)

not_older :
    (seconds the_time mtime : ℤ)
    → ltb_ℤ mtime (diff_ℤ the_time seconds) ≡ false
    → ¬ (
        pos_part mtime + pos_part seconds + neg_part the_time
        < pos_part the_time + neg_part mtime + neg_part seconds)
not_older seconds the_time mtime e h =
    let f : ltb (pos_part mtime + (neg_part the_time + pos_part seconds))
          (pos_part the_time + neg_part seconds + neg_part mtime)
        ≡ false =
      sym (
        shifted (pos_part the_time + neg_part seconds) (neg_part the_time + pos_part seconds)
          (pos_part mtime) (neg_part mtime))
      ∙ e in
    ground (arith, f, h)

same_text_refl : (text : List ℕ) → same_text text text ≡ true
unfolding same_text
same_text_refl [] = refl
same_text_refl (b ∷ bs) = ground (arith, same_text_refl bs)

same_text-eq : (as' bs : List ℕ) → same_text as' bs ≡ true → as' ≡ bs
unfolding same_text
same_text-eq [] [] h = refl
same_text-eq [] (b ∷ bs) h = absurd (cc)
same_text-eq (a ∷ as') [] h = absurd (cc)
same_text-eq (a ∷ as') (b ∷ bs) h =
    let tail : as' ≡ bs = same_text-eq as' bs (ground (arith, h)) in
    let head : a ≡ b = ground (arith, h) in ap₂ ◌∷◌ head tail

differs : (as' bs : List ℕ) → same_text as' bs ≡ false → bs ≢ as'
differs as' bs h e =
    absurd (true_not_false (sym (same_text_refl as') ∙ ap (same_text as') (sym e) ∙ h))
  where
    true_not_false : ¬ (◌≡◌ {A = Bool} true false)
    true_not_false p = cc

is_old-IsOld :
    (seconds the_time : ℤ) (entry : Entry) (stat : Stat)
    → is_old seconds the_time entry stat ≡ true
    → IsOld seconds the_time entry stat
unfolding is_old
is_old-IsOld seconds the_time entry stat h = (
  ground (arith, h),
  differs (codes ".") entry.d_name (ground (arith, h)),
  differs (codes "..") entry.d_name (ground (arith, h)),
  older seconds the_time stat.mtime (ground (arith, h)),
)

is_old-not :
    (seconds the_time : ℤ) (entry : Entry) (stat : Stat)
    → is_old seconds the_time entry stat ≡ false
    → ¬ IsOld seconds the_time entry stat
unfolding is_old
is_old-not seconds the_time entry stat h (reg, one, two, late) =
    elim (Bool-cases (same_text (codes ".") entry.d_name)) [
      | inl e ↦ one (sym (same_text-eq _ _ e))
      | inr e ↦ elim (Bool-cases (same_text (codes "..") entry.d_name)) [
        | inl f ↦ two (sym (same_text-eq _ _ f))
        | inr f ↦ not_older seconds the_time stat.mtime (ground (arith, h, reg, e, f)) late
      ]
    ]

-- What the loop gives for a list of entries.
pub record Sweeps (seconds the_time : ℤ) (log_path : List ℕ) (entries : List Entry)
    (r : Outcome Swept) : Type 0 where
  pub paths : List (List ℕ)
  pub runs : r ≡ ok (record { unlinked = paths; finished = all_known entries })
  pub old_ones : Deletes seconds the_time log_path (known entries) paths

sweep_by :
    (seconds the_time : ℤ) (log_path : List ℕ) (entry : Entry) (entries : List Entry)
    (stat : Option Stat)
    → entry.stat ≡ stat
    → length (new_path log_path entry) + 1 ≤ 256
    → Sweeps seconds the_time log_path entries (sweep seconds the_time log_path entries)
    → Sweeps seconds the_time log_path
        (entry ∷ entries)
        (sweep seconds the_time log_path (entry ∷ entries))
unfolding sweep known all_known fit also new_path
sweep_by seconds the_time log_path entry entries none e h rest = record {
  paths = [];
  runs = ground (arith, e, h);
  old_ones = rw (known, e) deletes_none;
}
sweep_by seconds the_time log_path entry entries (some stat) e h rest =
    elim (Bool-cases (is_old seconds the_time entry stat)) [
      | inl old ↦ record {
        paths = new_path log_path entry ∷ rest.paths;
        runs = ground (arith, e, h, rest.runs, old);
        old_ones =
            rw (known, e) (deletes (is_old-IsOld seconds the_time entry stat old) rest.old_ones);
      }
      | inr recent ↦ record {
        paths = rest.paths;
        runs = ground (arith, e, h, rest.runs, recent);
        old_ones =
            rw (known, e) (keeps (is_old-not seconds the_time entry stat recent) rest.old_ones);
      }
    ]

-- Where each path fits in its array, the loop of `InitLog` and `ClearOldLog` returns, deletes, of
-- the entries that it comes to before `lstat` first fails, exactly the regular files that are older
-- than the limit, and comes to the end of the directory if `lstat` never fails.
pub sweep-Sweeps :
    (seconds the_time : ℤ) (log_path : List ℕ) (entries : List Entry)
    → Fits log_path entries
    → Sweeps seconds the_time log_path entries (sweep seconds the_time log_path entries)
unfolding sweep Fits known all_known
sweep-Sweeps seconds the_time log_path [] h = record {
  paths = [];
  runs = refl;
  old_ones = deletes_none;
}
sweep-Sweeps seconds the_time log_path (entry ∷ entries) (h, hs) =
    sweep_by seconds the_time log_path entry entries entry.stat refl h
      (sweep-Sweeps seconds the_time log_path entries hs)
