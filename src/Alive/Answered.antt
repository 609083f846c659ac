-- ===== src/Alive/Answered.antt =====
-- The rounds behind a heartbeat that was answered: alive reports and nothing else.
use dummy_client.Common.{ℕ, zero, suc, ◌+◌, ◌≤◌, ◌≡◌, ◌∙◌, refl, ap, arith, Bool, true}
use dummy_client.Outcome.{Outcome, ok, fault}
use dummy_client.Connect.{C, World, ◌>>◌, pure}
use dummy_client.Common.{false}
use dummy_client.Alive.Rounds.{behind, bind-ok}
use dummy_client.Alive.{
  AliveState, heartbeat_step, refresh_step, metadata_step, alive_round, alive_rounds,
}

-- A command so many times, whatever it returns.
unfoldable pub repeats : {N : Type 0} → C N Bool → ℕ → C N (Unit {0})
repeats m zero = pure tt
repeats m (suc n) = m >> repeats m n

module _ {N : Type 0} (heartbeat alive metadata : C N Bool) where
  -- A round that is due for nothing but the alive report.
  one_round :
      (s : AliveState) (w : World N) (r : Outcome (Bool × World N))
      → s.ret ≡ true
      → s.refresh + 1 ≤ 3600
      → s.metareport + 1 ≤ 60
      → alive w ≡ r
      → alive_round heartbeat alive metadata s w
        ≡ (alive
              >> pure
                  (record { ret = true; refresh = s.refresh + 1; metareport = s.metareport + 1 }))
            w
  unfolding alive_round heartbeat_step refresh_step metadata_step
  one_round s w (ok (b, w')) on early soon e = ground (arith, on, e)
  one_round s w (fault f) on early soon e = ground (arith, on, e)

  -- A first round, and then rounds that do what `k` says from the world behind it.
  more_rounds :
      (n : ℕ) (s s' : AliveState) (k : C N AliveState) (w : World N) (r : Outcome (Bool × World N))
      → alive w ≡ r
      → alive_round heartbeat alive metadata s w ≡ (alive >> pure s') w
      → ((v : World N) → alive_rounds heartbeat alive metadata n s' v ≡ k v)
      → alive_rounds heartbeat alive metadata (suc n) s w ≡ (alive >> k) w
  unfolding alive_rounds
  more_rounds n s s' k w (ok (b, w')) e first later = ground (arith, e, first, later w')
  more_rounds n s s' k w (fault f) e first later = ground (arith, e, first)

  -- The state after `n` rounds that only count.
  abbrev pub counted : ℕ → AliveState → AliveState
  counted n s = record { ret = true; refresh = s.refresh + n; metareport = s.metareport + n }

  counted_again : (n : ℕ) (s : AliveState) → counted n (counted 1 s) ≡ counted (suc n) s
  counted_again n s = ground arith

  -- The first of some alive reports, and the others.
  one_more_report :
      (n : ℕ) (a : AliveState) (w : World N) (r : Outcome (Bool × World N))
      → alive w ≡ r
      → (alive >> (repeats alive n >> pure a)) w ≡ (repeats alive (suc n) >> pure a) w
  unfolding repeats
  one_more_report n a w (ok (b, w')) e = ground (arith, e)
  one_more_report n a w (fault f) e = ground (arith, e)

  -- Behind a heartbeat that was answered, for as long as neither the refresh nor the metadata report
  -- is due: `n` rounds are `n` alive reports, whatever these return, and no other command is
  -- run; both counters go up by `n`.
  pub alive_rounds-repeats :
      (n : ℕ) (s : AliveState) (w : World N)
      → s.ret ≡ true
      → s.refresh + n ≤ 3600
      → s.metareport + n ≤ 60
      → alive_rounds heartbeat alive metadata n s w ≡ (repeats alive n >> pure (counted n s)) w
  unfolding alive_rounds repeats
  alive_rounds-repeats zero s w on early soon = ap (λ a. ok (a, w)) (ground (arith, on))
  alive_rounds-repeats (suc n) s w on early soon =
      more_rounds n s (counted 1 s) (repeats alive n >> pure (counted n (counted 1 s))) w (alive w)
        refl (one_round s w (alive w) on (omega (arith, early)) (omega (arith, soon)) refl)
        (λ v.
          alive_rounds-repeats n (counted 1 s) v refl (omega (arith, early)) (omega (arith, soon)))
      ∙ one_more_report n (counted n (counted 1 s)) w (alive w) refl
      ∙ ap (λ a. (repeats alive (suc n) >> pure a) w) (counted_again n s)

  -- The round in which the metadata report is due.
  due_round :
      (s : AliveState) (w w1 w2 w3 : World N) (b : Bool)
      → s.ret ≡ false
      → s.refresh + 1 ≤ 3600
      → s.metareport ≡ 60
      → heartbeat w ≡ ok (false, w1)
      → alive w1 ≡ ok (b, w2)
      → metadata w2 ≡ ok (true, w3)
      → alive_round heartbeat alive metadata s w
        ≡ ok (
          record { ret = true; refresh = s.refresh + 1; metareport = 0 },
          behind "Metadata healthcheck report" w3,
        )
  unfolding alive_round heartbeat_step refresh_step metadata_step
  due_round s w w1 w2 w3 b off early due h a d = ground (arith, off, early, due, h, a, d)

  -- A metadata report hides a heartbeat that failed: where no heartbeat has been answered and the one
  -- of this round fails too, and the metadata report, which is due in it, succeeds, up to sixty
  -- rounds behind it are alive reports and nothing else, as if a heartbeat had been answered, as
  -- long as the refresh is not due.
  pub alive_rounds-masks :
      (n : ℕ) (s : AliveState) (w w1 w2 w3 : World N) (b : Bool)
      → s.ret ≡ false
      → s.refresh + suc n ≤ 3600
      → s.metareport ≡ 60
      → n ≤ 60
      → heartbeat w ≡ ok (false, w1)
      → alive w1 ≡ ok (b, w2)
      → metadata w2 ≡ ok (true, w3)
      → alive_rounds heartbeat alive metadata (suc n) s w
        ≡ (repeats alive n
              >> pure (counted n (record { ret = true; refresh = s.refresh + 1; metareport = 0 })))
            (behind "Metadata healthcheck report" w3)
  unfolding alive_rounds
  alive_rounds-masks n s w w1 w2 w3 b off early due soon h a d =
      bind-ok (alive_round heartbeat alive metadata s) _
        (due_round s w w1 w2 w3 b off (omega (arith, early)) due h a d)
      ∙ alive_rounds-repeats n (record { ret = true; refresh = s.refresh + 1; metareport = 0 })
          (behind "Metadata healthcheck report" w3) refl (omega (arith, early))
          (omega (arith, soon))
