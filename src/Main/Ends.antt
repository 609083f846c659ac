-- ===== src/Main/Ends.antt =====
-- Every file that may be read as a configuration.
use dummy_client.Common.{
  ℕ, zero, suc, ◌+◌, ◌≤◌, ◌<◌, ◌≡◌, refl, ap, arith, List, [], ◌∷◌, Bool, true, false, length,
  Bool-cases, inl, inr, ◌==◌, leb,
}
use dummy_client.Outcome.{Outcome, ok, fault, fit, ◌>>=◌, out_of_bounds}
use dummy_client.Common.{◌^◌, ◌-◌, not, sym, if◌then◌else◌}
use mathlib.Core.Path.{subst}
use dummy_client.Common.Int.{ℤ, pos, sub_ℕ}
use dummy_client.Outcome.{out_of_range}
use dummy_client.PerfInfo.{first_word}
use dummy_client.Main.{starts_number, digits_value}
use dummy_client.Packet.Writes.{until_nul, strlen}
use dummy_client.PerfInfo.{skip_space}
use dummy_client.Main.{
  Settings, split_line, scan_line, scan_int, scan_text, unsigned_int, signed_int, set_line,
  conf_loop, read_conf,
}

-- The run gave a value, left an array, or met a number that has no place in its type.
pub data Ends {A : Type 0} (r : Outcome A) : Type 0 where
  gives : (a : A) → r ≡ ok a → Ends r
  overruns : r ≡ fault out_of_bounds → Ends r
  overflows : r ≡ fault out_of_range → Ends r

bind-Ends :
    {A B : Type 0} {f : A → Outcome B} (r : Outcome A)
    → Ends r
    → ((a : A) → r ≡ ok a → Ends (f a))
    → Ends (r >>= f)
bind-Ends {f = f} r (gives a e) k = subst (λ q. Ends (q >>= f)) (sym e) (k a e)
bind-Ends {f = f} r (overruns e) k = overruns (ap (λ q. q >>= f) e)
bind-Ends {f = f} r (overflows e) k = overflows (ap (λ q. q >>= f) e)

if-Ends : {A : Type 0} (b : Bool) {r q : Outcome A} → Ends r → Ends q → Ends (if b then r else q)
if-Ends true h k = h
if-Ends false h k = k

length-split_line :
    (file : List ℕ) → length (split_line file).0 + length (split_line file).1 ≡ length file
unfolding split_line
length-split_line [] = refl
length-split_line (b ∷ bs) = ground (arith, length-split_line bs)

module _ (is_space : ℕ → Bool) where
  length-skip_space : (text : List ℕ) → length (skip_space is_space text) ≤ length text
  unfolding skip_space
  length-skip_space [] = omega arith
  length-skip_space (b ∷ bs) = ground (arith, length-skip_space bs)

  fit-Ends : (size : ℕ) (text : List ℕ) → Ends (fit size text)
  unfolding fit
  fit-Ends size text = elim (Bool-cases (leb (length text + 1) size)) [
    | inl e ↦ gives text (ground (arith, e))
    | inr e ↦ overruns (ground (arith, e))
  ]

  unsigned_int-Ends : (minus : Bool) (text : List ℕ) (old : ℤ) → Ends (unsigned_int minus text old)
  unfolding unsigned_int
  unsigned_int-Ends minus text old =
      let n : ℕ = digits_value 0 text in
      if-Ends (not (starts_number text)) (gives old refl) (
        if-Ends minus (if-Ends (leb n (2 ^ 31)) (gives (sub_ℕ 0 n) refl) (overflows refl))
          (if-Ends (leb n (2 ^ 31 - 1)) (gives (pos n) refl) (overflows refl)))

  signed_int-Ends : (text : List ℕ) (old : ℤ) → Ends (signed_int text old)
  unfolding signed_int
  signed_int-Ends [] old = gives old refl
  signed_int-Ends (b ∷ bs) old =
      if-Ends (b == b'-') (unsigned_int-Ends true bs old) (
        if-Ends (b == b'+') (unsigned_int-Ends false bs old) (unsigned_int-Ends false (b ∷ bs) old))

  scan_int-Ends : (text : List ℕ) (old : ℤ) → Ends (scan_int is_space text old)
  unfolding scan_int
  scan_int-Ends text old = signed_int-Ends (skip_space is_space text) old

  scan_text-Ends : (size : ℕ) (text old : List ℕ) → Ends (scan_text is_space size text old)
  unfolding scan_text
  scan_text-Ends size text old =
      if-Ends (length (first_word is_space (skip_space is_space text)) == 0) (gives old refl)
        (fit-Ends size (first_word is_space (skip_space is_space text)))

  -- A scan into one variable.
  sets : {A : Type 0} (r : Outcome A) (set : A → Settings) → Ends r → Ends (r >>= λ x. ok (set x))
  sets r set h = bind-Ends r h (λ a e. gives (set a) refl)

  set_line-Ends : (n : ℕ) (buffer : List ℕ) (s : Settings) → Ends (set_line is_space n buffer s)
  unfolding set_line
  set_line-Ends n buffer s = if-Ends (n == 0) (sets _ _ (scan_int-Ends buffer s.server_index)) (
      if-Ends (n == 1) (sets _ _ (scan_text-Ends 128 buffer s.manager_ip)) (
        if-Ends (n == 2) (sets _ _ (scan_int-Ends buffer s.manager_port)) (
          if-Ends (n == 3) (sets _ _ (scan_text-Ends 256 buffer s.manager_log_path)) (
            if-Ends (n == 4) (sets _ _ (scan_int-Ends buffer s.process_pool_size)) (
              if-Ends (n == 5) (sets _ _ (scan_text-Ends 16 buffer s.server_type))
                (gives s refl))))))

  -- How a line is scanned: what is left behind one that is not empty is shorter.
  data Scanned (file : List ℕ) (r : Outcome (List ℕ × List ℕ)) : Type 0 where
    too_long : r ≡ fault out_of_bounds → Scanned file r
    no_line : (rest : List ℕ) → r ≡ ok ([], rest) → Scanned file r
    one_line :
        (line rest : List ℕ) → r ≡ ok (line, rest) → length rest + 1 ≤ length file → Scanned file r

  scan_line-Scanned : (file : List ℕ) → Scanned file (scan_line is_space file)
  unfolding scan_line fit
  scan_line-Scanned file =
      let line : List ℕ = (split_line file).0 in
      let rest : List ℕ = (split_line file).1 in
      elim (Bool-cases (length line == 0)) [
        | inl empty ↦ no_line file (ground (arith, empty))
        | inr full ↦ elim (Bool-cases (leb (length line + 1) 500)) [
          | inl fits ↦
              one_line line (skip_space is_space rest) (ground (arith, full, fits))
                (ground (arith, full, length-split_line file, length-skip_space rest))
          | inr long ↦ too_long (ground (arith, full, long))
        ]
      ]

  module _ (n : ℕ)
      (again : (file : List ℕ) (count : ℕ) (s : Settings)
        → length file < n
        → Ends (conf_loop is_space n file count s))
      (file : List ℕ) (count : ℕ) (s : Settings) (h : length file < suc n) where
    conf_loop_by :
        Scanned file (scan_line is_space file) → Ends (conf_loop is_space (suc n) file count s)
    unfolding conf_loop strlen until_nul
    conf_loop_by (too_long e) = overruns (ground (arith, e))
    conf_loop_by (no_line rest e) = gives s (ground (arith, e))
    conf_loop_by (one_line line rest e shorter) = elim (Bool-cases (strlen line == 0)) [
      | inl empty ↦ gives s (ground (arith, e, empty))
      | inr full ↦
          rw (e, full)
            (bind-Ends (set_line is_space count (until_nul line) s)
              (set_line-Ends count (until_nul line) s)
              (λ s' _. again rest (count + 1) s' (omega (arith, h, shorter))))
    ]

  conf_loop-Ends :
      (n : ℕ) (file : List ℕ) (count : ℕ) (s : Settings)
      → length file < n
      → Ends (conf_loop is_space n file count s)
  conf_loop-Ends zero file count s h = absurd (omega arith)
  conf_loop-Ends (suc n) file count s h =
      conf_loop_by n (conf_loop-Ends n) file count s h (scan_line-Scanned file)

  -- The loop over the configuration comes to an end on every file, and there is no other: it gives
  -- settings, or a line or a word leaves its array, or a number has no place in an `int`.
  pub read_conf-ends : (file : List ℕ) (s : Settings) → Ends (read_conf is_space file s)
  unfolding read_conf
  read_conf-ends file s = conf_loop-Ends (length file + 1) file 0 s (omega arith)
