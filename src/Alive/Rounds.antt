-- ===== src/Alive/Rounds.antt =====
-- The counters of the thread, and which report `ret` holds.
use dummy_client.Common.{ℕ, zero, suc, ◌+◌, ◌%◌, ◌≡◌, ◌∙◌, refl, ap, arith, Bool, true, false}
use dummy_client.Common.{inl, inr, Bool-cases, ltb, if◌then◌else◌}
use Prim.Native.String.{String}
use dummy_client.Common.Int.{negsuc}
use dummy_client.Trace.{Entry, logged, info, no_param}
use dummy_client.Common.{◌∷◌}
use dummy_client.Outcome.{Outcome, ok}
use dummy_client.Connect.{C, World, ◌>>=◌}
use dummy_client.Alive.{
  AliveState, alive_start, refresh_interval, metadata_interval, heartbeat_step, refresh_step,
  metadata_step, alive_round, alive_rounds,
}

-- A report that returns in every world.
abbrev pub Total : {N : Type 0} → C N Bool → Type 0
Total {N} m = (w : World N) → (b : Bool) × (w' : World N) × (m w ≡ ok (b, w'))

-- The counter's next value, at the interval `limit`.
abbrev pub next : ℕ → ℕ → ℕ
next limit c = if ltb c limit then c + 1 else 0

next_refresh : (n : ℕ) → next refresh_interval (n % 3601) ≡ suc n % 3601
next_refresh n = ground arith

next_metadata : (n : ℕ) → next metadata_interval (n % 61) ≡ suc n % 61
next_metadata n = ground arith

module _ {N : Type 0} where
  -- A step that returned a state of which `P` holds.
  abbrev pub Steps : (AliveState → Type 0) → Outcome (AliveState × World N) → Type 0
  Steps P r = (s : AliveState) × (w : World N) × (r ≡ ok (s, w)) × P s

  -- The world behind an `info` line of the thread.
  abbrev pub behind : String → World N → World N
  behind message w =
      let entry : Entry = record {
        level = info;
        message = message;
        sockfd = negsuc 0;
        param = no_param;
      } in
      record w { trace = logged entry ∷ w.trace }

  pub bind-ok :
      {A B : Type 0} (m : C N A) (f : A → C N B) {w w' : World N} {a : A}
      → m w ≡ ok (a, w')
      → (m >>= f) w ≡ f a w'
  bind-ok m f e = rw (e, ◌>>=◌)

module _ {N : Type 0} (heartbeat alive metadata : C N Bool) where
  heartbeat_step-Total :
      Total heartbeat → (ret : Bool) → Total (heartbeat_step heartbeat alive metadata ret)
  unfolding heartbeat_step
  heartbeat_step-Total total true w = (true, w, refl)
  heartbeat_step-Total total false w = total w

  refresh_step-Steps :
      Total heartbeat
      → (s : AliveState) (w : World N)
      → Steps
          (λ s'. (s'.refresh ≡ next refresh_interval s.refresh) × (s'.metareport ≡ s.metareport))
          (refresh_step heartbeat alive metadata s w)
  unfolding refresh_step
  refresh_step-Steps total s w =
      let (b, w', e) = total w in
      elim (Bool-cases (ltb s.refresh refresh_interval)) [
        | inl h ↦ (record s { refresh = s.refresh + 1 }, w, rw h, (rw h, refl))
        | inr h ↦ (
          record s { ret = b; refresh = 0 },
          behind "Refresh Client Informs packet send" w',
          rw h (bind-ok heartbeat _ e),
          (rw h, refl),
        )
      ]

  metadata_step-Steps :
      Total metadata
      → (s : AliveState) (w : World N)
      → Steps
          (λ s'. (s'.refresh ≡ s.refresh) × (s'.metareport ≡ next metadata_interval s.metareport))
          (metadata_step heartbeat alive metadata s w)
  unfolding metadata_step
  metadata_step-Steps total s w =
      let (b, w', e) = total w in
      elim (Bool-cases (ltb s.metareport metadata_interval)) [
        | inl h ↦ (record s { metareport = s.metareport + 1 }, w, rw h, (refl, rw h))
        | inr h ↦ (
          record s { ret = b; metareport = 0 },
          behind "Metadata healthcheck report" w',
          rw h (bind-ok metadata _ e),
          (refl, rw h),
        )
      ]

  alive_round-Steps :
      Total heartbeat
      → Total alive
      → Total metadata
      → (s : AliveState) (w : World N)
      → Steps
          (λ s'.
            (s'.refresh ≡ next refresh_interval s.refresh)
            × (s'.metareport ≡ next metadata_interval s.metareport))
          (alive_round heartbeat alive metadata s w)
  unfolding alive_round
  alive_round-Steps heartbeat_total alive_total metadata_total s w =
      let (ret, w1, e1) = heartbeat_step-Total heartbeat_total s.ret w in
      let (_, w2, e2) = alive_total w1 in
      let (s3, w3, e3, (refresh3, metareport3)) =
        refresh_step-Steps heartbeat_total (record s { ret = ret }) w2 in
      let (s4, w4, e4, (refresh4, metareport4)) = metadata_step-Steps metadata_total s3 w3 in
      (
        s4,
        w4,
        bind-ok (heartbeat_step heartbeat alive metadata s.ret) _ e1
            ∙ bind-ok (alive) _ e2
            ∙ bind-ok (refresh_step heartbeat alive metadata (record s { ret = ret })) _ e3
            ∙ e4,
        (refresh4 ∙ refresh3, metareport4 ∙ ap (next metadata_interval) metareport3),
      )

  -- Rounds from a state with given counters.
  alive_rounds-Steps :
      Total heartbeat
      → Total alive
      → Total metadata
      → (n m : ℕ) (s : AliveState) (w : World N) → s.refresh ≡ m % 3601
      → s.metareport ≡ m % 61
      → Steps
          (λ s'. (s'.refresh ≡ (n + m) % 3601) × (s'.metareport ≡ (n + m) % 61))
          (alive_rounds heartbeat alive metadata n s w)
  unfolding alive_rounds
  alive_rounds-Steps h a d zero m s w e f = (s, w, refl, (omega (arith, e), omega (arith, f)))
  alive_rounds-Steps h a d (suc n) m s w e f =
      let (s1, w1, e1, (refresh1, metareport1)) = alive_round-Steps h a d s w in
      let (s2, w2, e2, (refresh2, metareport2)) =
        alive_rounds-Steps h a d n (suc m) s1 w1
          (refresh1 ∙ ap (next refresh_interval) e ∙ next_refresh m)
          (metareport1 ∙ ap (next metadata_interval) f ∙ next_metadata m) in
      (
        s2,
        w2,
        bind-ok (alive_round heartbeat alive metadata s) _ e1 ∙ e2,
        (omega (arith, refresh2), omega (arith, metareport2)),
      )

  -- While each report returns in every world, whatever it returns, `n` rounds of
  -- `alive_process_thread`'s loop return, and leave its counters at `n` modulo 3601 and 61.
  pub alive_rounds-counters :
      Total heartbeat
      → Total alive
      → Total metadata
      → (n : ℕ) (w : World N)
      → Steps
          (λ s'. (s'.refresh ≡ n % 3601) × (s'.metareport ≡ n % 61))
          (alive_rounds heartbeat alive metadata n alive_start w)
  alive_rounds-counters h a d n w =
      let (s, w', e, (refresh_is, metareport_is)) =
        alive_rounds-Steps h a d n 0 alive_start w refl refl in
      (s, w', e, (omega (arith, refresh_is), omega (arith, metareport_is)))
