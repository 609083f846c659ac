-- ===== src/Connect/Balance.antt =====
-- The descriptors that connecting opens and closes.
use dummy_client.Common.{
  ℕ, zero, suc, ◌+◌, ◌≡◌, ◌∙◌, refl, ap, arith, true, false, Bool-cases, inl, inr,
}
use dummy_client.Common.{Option, none, some, List, [], ◌∷◌, if◌then◌else◌, ◌==◌}
use dummy_client.Common.Int.{ℤ, pos, negsuc, eqb_ℤ, eqb_ℤ-ne, eqb_ℤ-eq}
use dummy_client.Trace.{Trace, logged, opened, closed, error, no_param}
use dummy_client.Outcome.{Outcome, ok}
use dummy_client.Os.{Os}
use dummy_client.Connect.{
  C, World, ◌>>=◌, open_socket, close_to_server, connect_socket, set_options, connect_to_server,
  try_connect, connect_loop,
}

abbrev pub is : ℤ → ℤ → ℕ
is fd sock = if eqb_ℤ fd sock then 1 else 0

pub is-zero : (fd : ℤ) → ¬ (fd ≡ pos 0) → is fd (pos 0) ≡ 0
is-zero fd h = rw (eqb_ℤ-ne fd (pos 0) h)

-- How often a trace opens and closes a descriptor.
unfoldable pub opens : ℤ → Trace → ℕ
opens fd [] = 0
opens fd (logged _ ∷ t) = opens fd t
opens fd (opened sock ∷ t) = is fd sock + opens fd t
opens fd (closed _ ∷ t) = opens fd t

unfoldable pub closes : ℤ → Trace → ℕ
closes fd [] = 0
closes fd (logged _ ∷ t) = closes fd t
closes fd (opened _ ∷ t) = closes fd t
closes fd (closed sock ∷ t) = is fd sock + closes fd t

-- A run that returned, behind which `fd` is held `held value` times more than before.
pub record Held {N A : Type 0} (fd : ℤ) (held : A → ℕ) (w : World N) (r : Outcome (A × World N))
    : Type 0 where
  pub value : A
  pub world : World N
  pub runs : r ≡ ok (value, world)
  pub balance :
      opens fd world.trace + closes fd w.trace
      ≡ closes fd world.trace + opens fd w.trace + held value

-- What the loop leaves: no socket, or one that is not 0.
pub IsConnected : Option ℤ → Type 0
IsConnected none = Unit
IsConnected (some sock) = ¬ (sock ≡ pos 0)

unfoldable pub is_held : ℤ → Option ℤ → ℕ
is_held fd none = 0
is_held fd (some sock) = is fd sock

-- A loop entered with `sock`, which returned.
pub record Looped {N : Type 0} (fd sock : ℤ) (w : World N) (r : Outcome (Option ℤ × World N))
    : Type 0 where
  pub value : Option ℤ
  pub world : World N
  pub runs : r ≡ ok (value, world)
  pub connected : IsConnected value
  pub balance :
      opens fd world.trace + closes fd w.trace + is fd sock
      ≡ closes fd world.trace + opens fd w.trace + is_held fd value

-- What the loop does before it returns FALSE: it closes what it is given.
abbrev pub Closing : {N : Type 0} → ℤ → (ℤ → C N (Unit {0})) → Type 0
Closing {N} fd give_up =
    (sock : ℤ) (w : World N)
    → (w' : World N) × (give_up sock w ≡ ok (tt, w'))
      × (opens fd w'.trace + closes fd w.trace + is fd sock ≡ closes fd w'.trace + opens fd w.trace)

module _ {N : Type 0} (os : Os N) (fd : ℤ) where
  open_socket-Held :
      (w : World N)
      → Held fd (λ sock. if eqb_ℤ sock (negsuc 0) then 0 else is fd sock) w (open_socket os w)
  unfolding open_socket opens closes
  open_socket-Held w = elim (Bool-cases (eqb_ℤ (os.socket w.net).0 (negsuc 0))) [
    | inl e ↦ record { value = _; world = _; runs = refl; balance = rw e (omega arith) }
    | inr e ↦ record { value = _; world = _; runs = refl; balance = rw e (omega arith) }
  ]

  connect_to_server-Held :
      (ip : List ℕ) (port : ℤ) (w : World N)
      → Held fd (λ r. if r.0 then is fd r.1 else 0) w (connect_to_server os ip port w)
  unfolding connect_to_server open_socket connect_socket close_to_server set_options opens closes
  connect_to_server-Held ip port w =
      let (sock, net) = os.socket w.net in
      let done = (os.connect sock ip port net).0 in
      elim (Bool-cases (eqb_ℤ sock (negsuc 0))) [
        | inl e ↦ rw e (record { value = _; world = _; runs = refl; balance = omega arith })
        | inr e ↦ elim (Bool-cases done) [
          | inl d ↦ rw (e, d) (record { value = _; world = _; runs = refl; balance = omega arith })
          | inr d ↦ rw (e, d) (record { value = _; world = _; runs = refl; balance = omega arith })
        ]
      ]

  try_connect-Held :
      (ip : List ℕ) (port : ℤ) (w : World N)
      → ¬ (fd ≡ pos 0)
      → Held fd (is fd) w (try_connect os ip port w)
  unfolding try_connect opens closes
  try_connect-Held ip port w h =
      let c : Held fd (λ r. if r.0 then is fd r.1 else 0) w (connect_to_server os ip port w) =
        connect_to_server-Held ip port w in
      elim (Bool-cases c.value.0) [
        | inl e ↦ record {
          value = c.value.1;
          world = c.world;
          runs = rw (◌>>=◌, c.runs, e) refl;
          balance = omega (arith, rw e at c.balance);
        }
        | inr e ↦ record {
          value = pos 0;
          world = record c.world {
            trace =
                logged (record {
                  level = error;
                  message = "Connect Error";
                  sockfd = c.value.1;
                  param = no_param;
                })
                ∷ c.world.trace;
          };
          runs = rw (◌>>=◌, c.runs, e) refl;
          balance = omega (arith, rw e at c.balance, is-zero fd h);
        }
      ]

  module _ (give_up : ℤ → C N (Unit {0})) (closing : Closing fd give_up) (h : ¬ (fd ≡ pos 0)) where
    -- A socket that is not 0 ends the loop.
    kept :
        (ip : List ℕ) (port : ℤ) (n : ℕ) (sock : ℤ) (w : World N)
        → eqb_ℤ sock (pos 0) ≡ false
        → Looped fd sock w (connect_loop os give_up ip port (suc n) sock w)
    unfolding connect_loop IsConnected is_held
    kept ip port n sock w e = record {
      value = some sock;
      world = w;
      runs = rw (connect_loop, e) refl;
      connected = λ z. absurd (cc);
      balance = omega arith;
    }

    not_zero : (n : ℕ) → (suc n == 0) ≡ false
    not_zero n = ground arith

    again :
        (ip : List ℕ) (port : ℤ) (n : ℕ) (sock sock' : ℤ) (w w' : World N)
        → eqb_ℤ sock (pos 0) ≡ true
        → try_connect os ip port w ≡ ok (sock', w')
        → connect_loop os give_up ip port (suc (suc n)) sock w
          ≡ connect_loop os give_up ip port (suc n) sock' w'
    unfolding connect_loop
    again ip port n sock sock' w w' e t = rw (connect_loop, e, ◌>>=◌, t, not_zero n) refl

    connect_loop-Looped :
        (ip : List ℕ) (port : ℤ) (n : ℕ) (sock : ℤ) (w : World N)
        → Looped fd sock w (connect_loop os give_up ip port (suc n) sock w)
    unfolding connect_loop IsConnected is_held
    connect_loop-Looped ip port zero sock w = elim (Bool-cases (eqb_ℤ sock (pos 0))) [
      | inr e ↦ kept ip port 0 sock w e
      | inl e ↦
          let t : Held fd (is fd) w (try_connect os ip port w) = try_connect-Held ip port w h in
          let (w', closes_it, balance) = closing t.value t.world in
          record {
            value = none;
            world = w';
            runs = rw (connect_loop, e, ◌>>=◌, t.runs, closes_it) refl;
            connected = tt;
            balance =
                omega
                  (arith, balance, t.balance, is-zero fd h, ap (is fd) (eqb_ℤ-eq sock (pos 0) e));
          }
    ]
    connect_loop-Looped ip port (suc n) sock w = elim (Bool-cases (eqb_ℤ sock (pos 0))) [
      | inr e ↦ kept ip port (suc n) sock w e
      | inl e ↦
          let t : Held fd (is fd) w (try_connect os ip port w) = try_connect-Held ip port w h in
          let r : Looped fd t.value t.world
              (connect_loop os give_up ip port (suc n) t.value t.world) =
            connect_loop-Looped ip port n t.value t.world in
          record {
            value = r.value;
            world = r.world;
            runs = again ip port n sock t.value w t.world e t.runs ∙ r.runs;
            connected = r.connected;
            balance =
                omega
                  (arith, r.balance, t.balance, is-zero fd h, ap (is fd) (eqb_ℤ-eq sock (pos 0) e));
          }
    ]

    -- For every descriptor but 0: the loop of tries returns, with no socket or with one that is
    -- not 0, and behind it the descriptor has been opened as often as closed since the loop
    -- began, but once more if it is the socket that the loop returns. Nothing is assumed of the
    -- system calls.
    pub connect_loop-balance :
        (ip : List ℕ) (port : ℤ) (n : ℕ) (w : World N)
        → Looped fd (pos 0) w (connect_loop os give_up ip port (suc n) (pos 0) w)
    connect_loop-balance ip port n w = connect_loop-Looped ip port n (pos 0) w
