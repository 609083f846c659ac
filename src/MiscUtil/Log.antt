-- ===== src/MiscUtil/Log.antt =====
-- `WriteLog` and `WriteErrorLog` of MiscUtil.cpp: the file and the line of a log entry.
use dummy_client.Common.{
  ℕ, zero, suc, ◌+◌, ◌-◌, ◌/◌, ◌%◌, List, [], ◌∷◌, ◌++◌, Option, none, some, if◌then◌else◌, ltb,
  length, replicate, take, codes,
}
use dummy_client.Common.Int.{ℤ, pos, negsuc, eqb_ℤ}
use dummy_client.Outcome.{Outcome, ok, ◌>>=◌, fit}
use dummy_client.Trace.{
  Level, info, error, Param, no_param, int_param, long_param, text_param, texts_param, chars_param,
  chars_params, Entry,
}
use dummy_client.Packet.Writes.{until_nul}

-- What `localtime_r` and `gettimeofday` give; the year counts from 1900 and the month from 0.
pub record Time : Type 0 where
  pub tm_year : ℕ
  pub tm_mon : ℕ
  pub tm_mday : ℕ
  pub tm_hour : ℕ
  pub tm_min : ℕ
  pub tm_sec : ℕ
  pub tv_usec : ℕ

-- The digits of a number, on fuel: a round for each unit is enough, since each divides by ten.
unfoldable pub digits_on : ℕ → ℕ → List ℕ
digits_on zero n = []
digits_on (suc fuel) n =
    let rest = digits_on fuel (n / 10) in
    if ltb n 10 then (b'0' + n) ∷ [] else rest ++ ((b'0' + n % 10) ∷ [])

unfoldable pub decimal : ℕ → List ℕ
decimal n = digits_on (n + 1) n

-- `%0wd` and `%d`.
unfoldable pub padded : ℕ → ℕ → List ℕ
padded width n = replicate (width - length (decimal n)) b'0' ++ decimal n

unfoldable pub signed_decimal : ℤ → List ℕ
signed_decimal (pos n) = decimal n
signed_decimal (negsuc n) = b'-' ∷ decimal (n + 1)

-- `%.300s`.
abbrev pub at_most_300 : List ℕ → List ℕ
at_most_300 text = take 300 (until_nul text)

abbrev pub first_param : List ℕ
first_param = b',' ∷ b' ' ∷ b'P' ∷ b'1' ∷ b' ' ∷ b'-' ∷ b' ' ∷ []

abbrev pub second_param : List ℕ
second_param = b',' ∷ b' ' ∷ b'P' ∷ b'2' ∷ b' ' ∷ b'-' ∷ b' ' ∷ []

-- The cases of `logtype1`, without the newline that ends each.
unfoldable pub param_text : Param → List ℕ
param_text no_param = []
param_text (int_param z) = first_param ++ signed_decimal z
param_text (long_param z) = first_param ++ signed_decimal z
param_text (text_param t) = first_param ++ at_most_300 (codes t)
param_text (texts_param t u) =
    first_param ++ (at_most_300 (codes t) ++ (second_param ++ at_most_300 (codes u)))
param_text (chars_param t) = first_param ++ at_most_300 t
param_text (chars_params t u) = first_param ++ (at_most_300 t ++ (second_param ++ at_most_300 u))

unfoldable pub socket_text : ℤ → List ℕ
socket_text sockfd =
    if eqb_ℤ sockfd (negsuc 0)
    then []
    else b','
      ∷ b' '
      ∷ b'S'
      ∷ b'O'
      ∷ b'C'
      ∷ b'K'
      ∷ b'E'
      ∷ b'T'
      ∷ b' '
      ∷ b'-'
      ∷ b' '
      ∷ signed_decimal sockfd

-- `[hour:minute:second microsecond] `.
unfoldable pub time_text : Time → List ℕ
time_text t =
    b'['
    ∷ (padded 2 t.tm_hour
        ++ (b':'
            ∷ (padded 2 t.tm_min
                ++ (b':'
                    ∷ (padded 2 t.tm_sec ++ (b' ' ∷ (padded 6 t.tv_usec ++ (b']' ∷ b' ' ∷ []))))))))

-- What the four calls of `fprintf` append.
unfoldable pub log_text : Time → Entry → List ℕ
log_text t e =
    time_text t
    ++ (codes e.message ++ (socket_text e.sockfd ++ (param_text e.param ++ (b'\n' ∷ []))))

unfoldable pub date_text : Time → List ℕ
date_text t =
    padded 4 (t.tm_year + 1900) ++ (b'-' ∷ (padded 2 (t.tm_mon + 1) ++ (b'-' ∷ padded 2 t.tm_mday)))

-- The file: one for each hour, or for each day.
unfoldable pub log_path : List ℕ → Level → Time → List ℕ
log_path directory info t =
    directory ++ (b'I' ∷ b'N' ∷ b'F' ∷ b'O' ∷ b'_' ∷ (date_text t ++ (b'_' ∷ padded 2 t.tm_hour)))
log_path directory error t = directory ++ (b'E' ∷ b'R' ∷ b'R' ∷ b'O' ∷ b'R' ∷ b'_' ∷ date_text t)

-- The path and the line, by whether `fopen` opens the path; `logpath` has 256 bytes.
unfoldable pub write_entry :
    (List ℕ → Option (List ℕ)) → List ℕ → Time → Entry → Outcome (Option (List ℕ × List ℕ))
write_entry opens directory t e = fit 256 (log_path directory e.level t) >>= λ path.
    elim (opens path) [ none ↦ ok none | some before ↦ ok (some (path, before ++ log_text t e)) ]
