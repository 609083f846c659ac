-- ===== src/MiscUtil.antt =====
-- The old log files that `CMiscUtil::InitLog` and `ClearOldLog` delete (MiscUtil.cpp).
pub mod Sweep
pub mod Log
pub mod OneLine
use dummy_client.Common.{ℕ, ◌*◌, Option, none, some, List, [], ◌∷◌, ◌++◌, Bool, true, false}
use dummy_client.Common.{if◌then◌else◌, not, ◌||◌, ◌&&◌, codes, same_text}
use dummy_client.Common.Int.{ℤ, pos, ltb_ℤ, diff_ℤ}
use dummy_client.Outcome.{Outcome, ok, fault, fit}

-- What `lstat` tells of a file; times are 64 bits wide, and far from their bounds.
pub record Stat : Type 0 where
  pub is_reg : Bool
  pub mtime : ℤ

-- An entry of the directory, and what `lstat` says of its path: `none` for -1.
pub record Entry : Type 0 where
  pub d_name : List ℕ
  pub stat : Option Stat

-- The paths given to `unlink`, in order, and whether the loop came to the end of the directory.
pub record Swept : Type 0 where
  pub unlinked : List (List ℕ)
  pub finished : Bool

-- `sprintf(newpath, "%s/%s", m_strLogPath, entry->d_name)`.
unfoldable pub new_path : List ℕ → Entry → List ℕ
new_path log_path entry = log_path ++ (b'/' ∷ entry.d_name)

unfoldable pub is_old : ℤ → ℤ → Entry → Stat → Bool
is_old seconds the_time entry stat =
    stat.is_reg
    && not (same_text (codes ".") entry.d_name || same_text (codes "..") entry.d_name)
    && ltb_ℤ stat.mtime (diff_ℤ the_time seconds)

unfoldable pub also : Bool → List ℕ → Swept → Swept
also old path r = if old then record r { unlinked = path ∷ r.unlinked } else r

-- The loop of both; `newpath` has 256 bytes.
unfoldable pub sweep : ℤ → ℤ → List ℕ → List Entry → Outcome Swept
sweep seconds the_time log_path [] = ok (record { unlinked = []; finished = true })
sweep seconds the_time log_path (entry ∷ entries) = elim (fit 256 (new_path log_path entry)) [
  | fault e ↦ fault e
  | ok path ↦ elim entry.stat [
    | none ↦ ok (record { unlinked = []; finished = false })
    | some stat ↦ elim (sweep seconds the_time log_path entries) [
      | fault e ↦ fault e
      | ok r ↦ ok (also (is_old seconds the_time entry stat) path r)
    ]
  ]
]

-- What `opendir` gives: nothing, or the entries.
unfoldable pub sweep_dir : ℤ → ℤ → List ℕ → Option (List Entry) → Outcome (Option Swept)
sweep_dir seconds the_time log_path none = ok none
sweep_dir seconds the_time log_path (some entries) =
    elim (sweep seconds the_time log_path entries) [ fault e ↦ fault e | ok r ↦ ok (some r) ]

-- `InitLog`: the path that it keeps, and the paths deleted. The directory stays open.
unfoldable pub init_log : ℤ → List ℕ → Option (List Entry) → Outcome (List ℕ × Option Swept)
init_log the_time log_path dir = elim (fit 256 log_path) [
  | fault e ↦ fault e
  | ok kept ↦ elim (sweep_dir (pos (30 * 24 * 3600)) the_time kept dir) [
    | fault e ↦ fault e
    | ok r ↦ ok (kept, r)
  ]
]

-- `ClearOldLog`: the directory is closed if the loop came to its end.
unfoldable pub clear_old_log : ℤ → List ℕ → Option (List Entry) → Outcome (Option Swept)
clear_old_log the_time kept dir = sweep_dir (pos (5 * 24 * 3600)) the_time kept dir
