-- ===== src/MiscUtil/OneLine.antt =====
-- Each log entry is one line.
use dummy_client.Common.{
  ℕ, zero, suc, ◌+◌, ◌-◌, ◌/◌, ◌%◌, ◌≡◌, refl, arith, List, [], ◌∷◌, ◌++◌, Bool, true, not, ◌&&◌,
  ◌==◌, replicate, take, codes, length, append_assoc,
}
use dummy_client.Common.Int.{ℤ, pos, negsuc}
use dummy_client.Trace.{
  Param, no_param, int_param, long_param, text_param, texts_param, chars_param, chars_params, Entry,
}
use dummy_client.Packet.Writes.{until_nul}
use dummy_client.MiscUtil.Log.{
  Time, digits_on, decimal, padded, signed_decimal, at_most_300, param_text, socket_text, time_text,
  log_text, first_param, second_param,
}

-- No newline is in the text.
unfoldable pub is_one_line : List ℕ → Bool
is_one_line [] = true
is_one_line (b ∷ bs) = not (b == b'\n') && is_one_line bs

-- Nor in the texts of a parameter.
unfoldable pub is_one_line_param : Param → Bool
is_one_line_param no_param = true
is_one_line_param (int_param z) = true
is_one_line_param (long_param z) = true
is_one_line_param (text_param t) = is_one_line (codes t)
is_one_line_param (texts_param t u) = is_one_line (codes t) && is_one_line (codes u)
is_one_line_param (chars_param t) = is_one_line t
is_one_line_param (chars_params t u) = is_one_line t && is_one_line u

append-one :
    (xs ys : List ℕ) → is_one_line xs ≡ true → is_one_line ys ≡ true → is_one_line (xs ++ ys) ≡ true
unfolding is_one_line
append-one [] ys h k = k
append-one (x ∷ xs) ys h k = ground (arith, h, append-one xs ys (ground (arith, h)) k)

digits-one : (fuel n : ℕ) → is_one_line (digits_on fuel n) ≡ true
unfolding digits_on is_one_line
digits-one zero n = refl
digits-one (suc fuel) n = ground (
  arith,
  append-one (digits_on fuel (n / 10)) ((b'0' + n % 10) ∷ []) (digits-one fuel (n / 10))
      (ground arith),
)

zeros-one : (n : ℕ) → is_one_line (replicate n b'0') ≡ true
unfolding is_one_line
zeros-one zero = refl
zeros-one (suc n) = zeros-one n

padded-one : (width n : ℕ) → is_one_line (padded width n) ≡ true
unfolding padded decimal
padded-one width n =
    append-one (replicate (width - length (decimal n)) b'0') (decimal n)
      (zeros-one (width - length (decimal n))) (digits-one (n + 1) n)

signed-one : (z : ℤ) → is_one_line (signed_decimal z) ≡ true
unfolding signed_decimal decimal is_one_line
signed-one (pos n) = digits-one (n + 1) n
signed-one (negsuc n) = digits-one (n + 1 + 1) (n + 1)

front-one :
    (n : ℕ) (text : List ℕ) → is_one_line text ≡ true → is_one_line (take n (until_nul text)) ≡ true
unfolding is_one_line until_nul
front-one zero text h = refl
front-one (suc n) [] h = refl
front-one (suc n) (b ∷ bs) h = ground (arith, h, front-one n bs (ground (arith, h)))

first-one : (text : List ℕ) → is_one_line text ≡ true → is_one_line (first_param ++ text) ≡ true
unfolding is_one_line
first-one text h = h

second-one : (text : List ℕ) → is_one_line text ≡ true → is_one_line (second_param ++ text) ≡ true
unfolding is_one_line
second-one text h = h

-- Two texts of a parameter.
two-one :
    (t u : List ℕ)
    → is_one_line t && is_one_line u ≡ true
    → is_one_line (first_param ++ (at_most_300 t ++ (second_param ++ at_most_300 u))) ≡ true
two-one t u h = first-one _ (
    append-one (at_most_300 t) _ (front-one 300 t (ground (arith, h)))
      (second-one _ (front-one 300 u (ground (arith, h)))))

param-one : (p : Param) → is_one_line_param p ≡ true → is_one_line (param_text p) ≡ true
unfolding param_text is_one_line_param is_one_line
param-one no_param h = refl
param-one (int_param z) h = first-one (signed_decimal z) (signed-one z)
param-one (long_param z) h = first-one (signed_decimal z) (signed-one z)
param-one (text_param t) h = first-one (at_most_300 (codes t)) (front-one 300 (codes t) h)
param-one (texts_param t u) h = two-one (codes t) (codes u) h
param-one (chars_param t) h = first-one (at_most_300 t) (front-one 300 t h)
param-one (chars_params t u) h = two-one t u h

socket-one : (fd : ℤ) → is_one_line (socket_text fd) ≡ true
unfolding socket_text is_one_line
socket-one fd = ground (arith, signed-one fd)

time-one : (t : Time) → is_one_line (time_text t) ≡ true
unfolding time_text is_one_line
time-one t = append-one (padded 2 t.tm_hour) _ (padded-one 2 t.tm_hour) (
    append-one (padded 2 t.tm_min) _ (padded-one 2 t.tm_min) (
      append-one (padded 2 t.tm_sec) _ (padded-one 2 t.tm_sec)
        (append-one (padded 6 t.tv_usec) _ (padded-one 6 t.tv_usec) refl)))

-- Where neither the message nor a text among the parameters holds a newline, `WriteLog` and
-- `WriteErrorLog` append one line: a text with no newline, and then a newline.
pub log_text-one_line :
    (t : Time) (e : Entry)
    → is_one_line (codes e.message) ≡ true
    → is_one_line_param e.param ≡ true
    → (line : List ℕ) × (log_text t e ≡ line ++ (b'\n' ∷ [])) × (is_one_line line ≡ true)
unfolding log_text
log_text-one_line t e message param =
    let front : List ℕ = codes e.message ++ (socket_text e.sockfd ++ param_text e.param) in
    (
      time_text t ++ front,
      rw (append_assoc, append_assoc, append_assoc) refl,
      append-one (time_text t) front (time-one t) (
          append-one (codes e.message) _ message (
            append-one (socket_text e.sockfd) (param_text e.param) (socket-one e.sockfd)
              (param-one e.param param))),
    )
