-- ===== src/Main.antt =====
-- The start of the daemon (main.cpp): its configuration.
pub mod Lines
pub mod Ends
pub mod Setup
pub mod Texts
pub mod Threads
pub mod Started
pub mod Found
pub mod Launched
pub mod Tests
use dummy_client.Common.{
  ℕ, zero, suc, ◌+◌, ◌-◌, ◌*◌, ◌^◌, List, [], ◌∷◌, Bool, true, false, if◌then◌else◌, leb, ◌==◌,
  ◌&&◌, not, length,
}
use dummy_client.Common.Int.{ℤ, pos, sub_ℕ}
use dummy_client.Outcome.{Outcome, ok, fault, ◌>>=◌, fit, out_of_fuel, out_of_range}
use dummy_client.Packet.Writes.{until_nul, strlen}
use dummy_client.PerfInfo.{first_word, skip_space}

-- The global variables that the configuration sets.
pub record Settings : Type 0 where
  pub server_index : ℤ
  pub manager_ip : List ℕ
  pub manager_port : ℤ
  pub manager_log_path : List ℕ
  pub process_pool_size : ℤ
  pub server_type : List ℕ

abbrev pub settings_start : Settings
settings_start = record {
  server_index = pos 0;
  manager_ip = [];
  manager_port = pos 0;
  manager_log_path = [];
  process_pool_size = pos 0;
  server_type = [];
}

-- The characters up to the next newline, and the rest from it on.
unfoldable pub split_line : List ℕ → List ℕ × List ℕ
split_line [] = ([], [])
split_line (b ∷ bs) = elim (b == b'\n') [
  | true ↦ ([], b ∷ bs)
  | false ↦ let (line, rest) = split_line bs in (b ∷ line, rest)
]

abbrev pub is_digit : ℕ → Bool
is_digit b = leb b'0' b && leb b b'9'

-- The number that some digits begin with, behind the digits of `n`.
unfoldable pub digits_value : ℕ → List ℕ → ℕ
digits_value n [] = n
digits_value n (b ∷ bs) = if is_digit b then digits_value (n * 10 + (b - b'0')) bs else n

abbrev pub starts_number : List ℕ → Bool
starts_number [] = false
starts_number (b ∷ bs) = is_digit b

-- `%d` of the digits behind a sign, into an `int`: with no digit, the variable keeps its value.
unfoldable pub unsigned_int : Bool → List ℕ → ℤ → Outcome ℤ
unsigned_int minus text old =
    if not (starts_number text)
    then ok old
    else (let n = digits_value 0 text in
        if minus
        then (if leb n (2 ^ 31) then ok (sub_ℕ 0 n) else fault out_of_range)
        else (if leb n (2 ^ 31 - 1) then ok (pos n) else fault out_of_range))

unfoldable pub signed_int : List ℕ → ℤ → Outcome ℤ
signed_int [] old = ok old
signed_int (b ∷ bs) old =
    if b == b'-'
    then unsigned_int true bs old
    else if b == b'+'
    then unsigned_int false bs old
    else unsigned_int false (b ∷ bs) old

-- The functions of the C library, by what `isspace` says.
module _ (is_space : ℕ → Bool) where
  -- `fscanf(file, "%[^\n]\n", buffer)` into 500 cleared bytes: the text, and the file that is left.
  unfoldable pub scan_line : List ℕ → Outcome (List ℕ × List ℕ)
  scan_line file =
      let (line, rest) = split_line file in
      if length line == 0
      then ok ([], file)
      else (fit 500 line >>= λ buffer. ok (buffer, skip_space is_space rest))

  -- `sscanf(text, "%d", &old)`.
  unfoldable pub scan_int : List ℕ → ℤ → Outcome ℤ
  scan_int text old = signed_int (skip_space is_space text) old

  -- `sscanf(text, "%s", old)` into `size` bytes.
  unfoldable pub scan_text : ℕ → List ℕ → List ℕ → Outcome (List ℕ)
  scan_text size text old =
      let word = first_word is_space (skip_space is_space text) in
      if length word == 0 then ok old else fit size word

  -- The cases of `confcount`.
  unfoldable pub set_line : ℕ → List ℕ → Settings → Outcome Settings
  set_line confcount buffer s =
      if confcount == 0
      then (scan_int buffer s.server_index >>= λ x. ok (record s { server_index = x }))
      else if confcount == 1
      then (scan_text 128 buffer s.manager_ip >>= λ x. ok (record s { manager_ip = x }))
      else if confcount == 2
      then (scan_int buffer s.manager_port >>= λ x. ok (record s { manager_port = x }))
      else if confcount == 3
      then (scan_text 256 buffer s.manager_log_path >>= λ x. ok (record s { manager_log_path = x }))
      else if confcount == 4
      then (scan_int buffer s.process_pool_size >>= λ x. ok (record s { process_pool_size = x }))
      else if confcount == 5
      then (scan_text 16 buffer s.server_type >>= λ x. ok (record s { server_type = x }))
      else ok s

  -- The loop, on fuel: each round but the last takes a character at least.
  unfoldable pub conf_loop : ℕ → List ℕ → ℕ → Settings → Outcome Settings
  conf_loop zero file confcount s = fault out_of_fuel
  conf_loop (suc n) file confcount s = scan_line file >>= λ r.
      if strlen r.0 == 0
      then ok s
      else (set_line confcount (until_nul r.0) s >>= λ s'. conf_loop n r.1 (confcount + 1) s')

  unfoldable pub read_conf : List ℕ → Settings → Outcome Settings
  read_conf file s = conf_loop (length file + 1) file 0 s
