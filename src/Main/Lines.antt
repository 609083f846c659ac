-- ===== src/Main/Lines.antt =====
-- What the loop over the configuration reads.
use dummy_client.Common.{
  ℕ, zero, suc, ◌+◌, ◌≤◌, ◌<◌, ◌≡◌, ◌≢◌, refl, ap, arith, List, [], ◌∷◌, ◌++◌, Bool, true, false,
  length, length-append, ◌==◌,
}
use dummy_client.Outcome.{Outcome, ok, fault, fit, ◌>>=◌}
use dummy_client.Common.{◌∙◌}
use dummy_client.Packet.Writes.{until_nul, strlen}
use dummy_client.PerfInfo.{skip_space}
use dummy_client.Main.{
  Settings, split_line, scan_line, scan_int, scan_text, set_line, conf_loop, read_conf,
}

-- A value that goes into a variable first.
bind_as :
    {A B C : Type 0} (set : A → B) (k : A → Outcome C) (k' : B → Outcome C) (r : Outcome A)
    → ((a : A) → k' (set a) ≡ k a)
    → ((r >>= λ x. ok (set x)) >>= k') ≡ (r >>= k)
bind_as set k k' (ok a) h = h a
bind_as set k k' (fault e) h = refl

bind_same :
    {A B : Type 0} {f g : A → Outcome B} (r : Outcome A)
    → ((a : A) → f a ≡ g a)
    → (r >>= f) ≡ (r >>= g)
bind_same (ok a) h = h a
bind_same (fault e) h = refl

-- Neither a newline nor a 0.
unfoldable pub Chars : List ℕ → Type 0
Chars [] = Unit
Chars (b ∷ bs) = (b ≢ b'\n') × (b ≢ 0) × Chars bs

-- A file of lines, each with its newline.
unfoldable pub conf_file : List (List ℕ) → List ℕ
conf_file [] = []
conf_file (line ∷ lines) = line ++ (b'\n' ∷ conf_file lines)

split_line-line :
    (line rest : List ℕ) → Chars line → split_line (line ++ (b'\n' ∷ rest)) ≡ (line, b'\n' ∷ rest)
unfolding split_line Chars
split_line-line [] rest h = refl
split_line-line (b ∷ bs) rest (newline, nul, h) = ground (arith, newline, split_line-line bs rest h)

until_nul-line : (line : List ℕ) → Chars line → until_nul line ≡ line
unfolding until_nul Chars
until_nul-line [] h = refl
until_nul-line (b ∷ bs) (newline, nul, h) = ground (arith, nul, until_nul-line bs h)

module _ (is_space : ℕ → Bool) where
  -- A line that is read as it is: it starts with no space, fits the buffer with its final 0, and
  -- holds no newline and no 0.
  pub record Line (line : List ℕ) : Type 0 where
    pub first : ℕ
    pub others : List ℕ
    pub is_line : line ≡ first ∷ others
    pub visible : is_space first ≡ false
    pub short : length line + 1 ≤ 500
    pub chars : Chars line

  unfoldable pub Lines : List (List ℕ) → Type 0
  Lines [] = Unit
  Lines (line ∷ lines) = Line line × Lines lines

  -- The settings that some lines make, from the line of this number on.
  unfoldable pub set_lines : ℕ → List (List ℕ) → Settings → Outcome Settings
  set_lines confcount [] s = ok s
  set_lines confcount (line ∷ lines) s =
      set_line is_space confcount line s >>= set_lines (confcount + 1) lines

  skip_space-conf_file :
      (lines : List (List ℕ))
      → Lines lines
      → skip_space is_space (conf_file lines) ≡ conf_file lines
  unfolding skip_space conf_file Lines
  skip_space-conf_file [] h = refl
  skip_space-conf_file (line ∷ lines) (l, h) = rw l.is_line (ground (arith, l.visible))

  module _ (newline : is_space b'\n' ≡ true) where
    scan_line-conf_file :
        (line : List ℕ) (lines : List (List ℕ))
        → Line line
        → Lines lines
        → scan_line is_space (conf_file (line ∷ lines)) ≡ ok (line, conf_file lines)
    unfolding scan_line fit conf_file skip_space
    scan_line-conf_file line lines l h = ground (
      arith,
      split_line-line line (conf_file lines) l.chars,
      l.short,
      ap length l.is_line,
      newline,
      skip_space-conf_file lines h,
    )

    conf_loop-conf_file :
        (n : ℕ) (lines : List (List ℕ)) (count : ℕ) (s : Settings)
        → Lines lines
        → length (conf_file lines) < n
        → conf_loop is_space n (conf_file lines) count s ≡ set_lines count lines s
    unfolding conf_loop strlen Lines set_lines scan_line conf_file split_line until_nul
    conf_loop-conf_file zero lines count s h small = absurd (omega arith)
    conf_loop-conf_file (suc n) [] count s h small = refl
    conf_loop-conf_file (suc n) (line ∷ lines) count s (l, h) small =
        let full : (length line == 0) ≡ false = ground (arith, ap length l.is_line) in
        let less : length (conf_file lines) < n =
          omega (arith, small, length-append line (b'\n' ∷ conf_file lines)) in
        rw (scan_line-conf_file line lines l h, until_nul-line line l.chars, full)
          (bind_same (set_line is_space count line s)
            (λ s'. conf_loop-conf_file n lines (count + 1) s' h less))

    read_conf-set_lines :
        (lines : List (List ℕ)) (s : Settings)
        → Lines lines
        → read_conf is_space (conf_file lines) s ≡ set_lines 0 lines s
    unfolding read_conf
    read_conf-set_lines lines s h =
        conf_loop-conf_file (length (conf_file lines) + 1) lines 0 s h (omega arith)

    -- A line from the seventh on sets nothing.
    set_lines-past :
        (k : ℕ) (lines : List (List ℕ)) (s : Settings) → set_lines (6 + k) lines s ≡ ok s
    unfolding set_lines set_line
    set_lines-past k [] s = refl
    set_lines-past k (line ∷ lines) s = ground (arith, set_lines-past (suc k) lines s)

    -- A configuration of six lines at least, which start with no space, fit the buffer, and hold no
    -- newline and no 0, is read so: the lines are the index, the address and the port of the manager,
    -- the path of the logs, the size of the pool and the server type, in this order, each scanned as a
    -- number or into an array of its size; a line behind them sets nothing.
    pub read_conf-settings :
        (index ip port log_path pool server : List ℕ) (others : List (List ℕ)) (s : Settings)
        → Lines (index ∷ ip ∷ port ∷ log_path ∷ pool ∷ server ∷ others)
        → read_conf is_space (conf_file (index ∷ ip ∷ port ∷ log_path ∷ pool ∷ server ∷ others)) s
          ≡ (scan_int is_space index s.server_index >>= λ a.
              scan_text is_space 128 ip s.manager_ip >>= λ b.
              scan_int is_space port s.manager_port >>= λ c.
              scan_text is_space 256 log_path s.manager_log_path >>= λ d.
              scan_int is_space pool s.process_pool_size >>= λ e.
              scan_text is_space 16 server s.server_type >>= λ f. ok (record {
                server_index = a;
                manager_ip = b;
                manager_port = c;
                manager_log_path = d;
                process_pool_size = e;
                server_type = f;
              }))
    unfolding set_lines set_line
    read_conf-settings index ip port log_path pool server others s h =
        read_conf-set_lines (index ∷ ip ∷ port ∷ log_path ∷ pool ∷ server ∷ others) s h
        ∙ bind_as _ _ _ (scan_int is_space index s.server_index) (λ a.
          bind_as _ _ _ (scan_text is_space 128 ip s.manager_ip) (λ b.
            bind_as _ _ _ (scan_int is_space port s.manager_port) (λ c.
              bind_as _ _ _ (scan_text is_space 256 log_path s.manager_log_path) (λ d.
                bind_as _ _ _ (scan_int is_space pool s.process_pool_size) (λ e.
                  bind_as _ _ _ (scan_text is_space 16 server s.server_type)
                    (λ f. set_lines-past 0 others _))))))
