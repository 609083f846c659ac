-- ===== src/Main/Started.antt =====
-- Which threads run behind main.
use dummy_client.Common.{
  ℕ, zero, suc, ◌+◌, ◌≤◌, ◌≡◌, ◌≢◌, ◌∙◌, refl, sym, ap, arith, List, [], ◌∷◌, ◌++◌, true, false,
  replicate, append_assoc, append-nil, Bool-cases, inl, inr,
}
use dummy_client.Common.Int.{ℤ, pos, negsuc, eqb_ℤ, eqb_ℤ-eq, pos_part}
use dummy_client.Outcome.{Outcome, ok}
use dummy_client.Trace.{logged, error, no_param}
use dummy_client.Connect.{World, ◌>>=◌}
use dummy_client.Main.Threads.{
  Thread, clean_worker, alive_worker, report_worker, Start, create_thread, start_report, start_pool,
  start_threads,
}

module _ {N : Type 0} (create : Thread → N → ℤ × N) where
  -- Threads of the pool that can be made one after the other, and the networks around them.
  pub data Makes : ℕ → N → N → Type 0 where
    makes_none : {n n' : N} → n ≡ n' → Makes zero n n'
    makes_one :
        {k : ℕ} {n n' : N}
        → (create alive_worker n).0 ≡ pos 0
        → Makes k (create alive_worker n).1 n'
        → Makes (suc k) n n'

  -- What becomes of a pool of `size` threads behind the `first`, in the network `n`.
  pub data Pools (first : List Thread) (size : ℕ) (n : N) (s : Start) : Type 0 where
    reporting :
        (n' : N)
        → Makes size n n'
        → (create report_worker n').0 ≡ pos 0
        → s.running ≡ true
        → s.threads ≡ first ++ (replicate size alive_worker ++ (report_worker ∷ []))
        → Pools first size n s
    silent :
        (n' : N)
        → Makes size n n'
        → (create report_worker n').0 ≢ pos 0
        → s.running ≡ true
        → s.threads ≡ first ++ replicate size alive_worker
        → Pools first size n s
    broken :
        (k : ℕ) (n' : N)
        → k + 1 ≤ size
        → Makes k n n'
        → (create alive_worker n').0 ≢ pos 0
        → s.running ≡ false
        → s.threads ≡ first ++ replicate k alive_worker
        → Pools first size n s

  -- What becomes of all threads: none, if the first cannot be made.
  pub data Starts (size : ℕ) (n : N) (s : Start) : Type 0 where
    nothing :
        (create clean_worker n).0 ≢ pos 0 → s.running ≡ false → s.threads ≡ [] → Starts size n s
    cleaning :
        (create clean_worker n).0 ≡ pos 0
        → Pools (clean_worker ∷ []) size (create clean_worker n).1 s
        → Starts size n s

  pub record Pooled (first : List Thread) (size : ℕ) (n : N) (r : Outcome (Start × World N))
      : Type 0 where
    pub start : Start
    pub world : World N
    pub runs : r ≡ ok (start, world)
    pub pools : Pools first size n start

  pub record Started (size : ℕ) (n : N) (r : Outcome (Start × World N)) : Type 0 where
    pub start : Start
    pub world : World N
    pub runs : r ≡ ok (start, world)
    pub starts : Starts size n start

  differs : (z : ℤ) → eqb_ℤ z (pos 0) ≡ false → z ≢ pos 0
  differs z e f = absurd (differs_by (sym (ap (λ y. eqb_ℤ y (pos 0)) f) ∙ e))
    where
      differs_by : ¬ (eqb_ℤ (pos 0) (pos 0) ≡ false)
      differs_by h = ground (arith, h)

  -- One thread more in front of a pool.
  Pools-suc :
      (first : List Thread) (size : ℕ) (n : N) (s : Start)
      → (create alive_worker n).0 ≡ pos 0
      → Pools (first ++ (alive_worker ∷ [])) size (create alive_worker n).1 s
      → Pools first (suc size) n s
  Pools-suc first size n s made (reporting n' h c running threads) =
      reporting n' (makes_one made h) c running (threads ∙ append_assoc first (alive_worker ∷ []) _)
  Pools-suc first size n s made (silent n' h c running threads) =
      silent n' (makes_one made h) c running (threads ∙ append_assoc first (alive_worker ∷ []) _)
  Pools-suc first size n s made (broken k n' fewer h c running threads) =
      broken (suc k) n' (omega (arith, fewer)) (makes_one made h) c running
        (threads ∙ append_assoc first (alive_worker ∷ []) _)

  start_report-Pooled :
      (first : List Thread) (w : World N) → Pooled first 0 w.net (start_report create first w)
  unfolding start_report create_thread
  start_report-Pooled first w = elim (Bool-cases (eqb_ℤ (create report_worker w.net).0 (pos 0))) [
    | inl done ↦ record {
      start = _;
      world = _;
      runs = refl;
      pools = reporting w.net (makes_none refl) (eqb_ℤ-eq _ _ done) refl (rw done refl);
    }
    | inr failed ↦ record {
      start = _;
      world = _;
      runs = refl;
      pools =
          silent w.net (makes_none refl) (differs _ failed) refl
            (rw failed (sym (append-nil first)));
    }
  ]

  start_pool-Pooled :
      (size : ℕ) (first : List Thread) (w : World N)
      → Pooled first size w.net (start_pool create size first w)
  unfolding start_pool create_thread
  start_pool-Pooled zero first w = start_report-Pooled first w
  start_pool-Pooled (suc size) first w =
      elim (Bool-cases (eqb_ℤ (create alive_worker w.net).0 (pos 0))) [
        | inl done ↦
            let r =
              start_pool-Pooled size (first ++ (alive_worker ∷ []))
                (record w { net = (create alive_worker w.net).1 }) in
            record {
              start = r.start;
              world = r.world;
              runs = rw (◌>>=◌, done) r.runs;
              pools = Pools-suc first size w.net r.start (eqb_ℤ-eq _ _ done) r.pools;
            }
        | inr failed ↦ record {
          start = record { threads = first; running = false };
          world = record {
            net = (create alive_worker w.net).1;
            trace =
                logged (record {
                  level = error;
                  message = "WMI Monitor Manager Process Thread Process failed";
                  sockfd = negsuc 0;
                  param = no_param;
                })
                ∷ w.trace;
          };
          runs = rw (◌>>=◌, failed) refl;
          pools =
              broken 0 w.net (omega arith) (makes_none refl) (differs _ failed) refl
                (sym (append-nil first));
        }
      ]

  -- Whatever `pthread_create` returns: if it cannot make the thread that clears the logs, `main`
  -- ends with none. If it can, `main` starts the threads of the pool, as many as
  -- `PROCESS_POOL_SIZE`, and then the one for the performance, if that can be made, and goes on; it
  -- ends instead behind the first of the pool that cannot be made, with those before it.
  pub start_threads-Started :
      (process_pool_size : ℤ) (w : World N)
      → Started (pos_part process_pool_size) w.net (start_threads create process_pool_size w)
  unfolding start_threads create_thread
  start_threads-Started process_pool_size w =
      elim (Bool-cases (eqb_ℤ (create clean_worker w.net).0 (pos 0))) [
        | inl made ↦
            let r =
              start_pool-Pooled (pos_part process_pool_size) (clean_worker ∷ [])
                (record w { net = (create clean_worker w.net).1 }) in
            record {
              start = r.start;
              world = r.world;
              runs = rw (◌>>=◌, made) r.runs;
              starts = cleaning (eqb_ℤ-eq _ _ made) r.pools;
            }
        | inr failed ↦ record {
          start = record { threads = []; running = false };
          world = record {
            net = (create clean_worker w.net).1;
            trace =
                logged (record {
                  level = error;
                  message = "Clean Thread Create Error Log";
                  sockfd = negsuc 0;
                  param = no_param;
                })
                ∷ w.trace;
          };
          runs = rw (◌>>=◌, failed) refl;
          starts = nothing (differs _ failed) refl refl;
        }
      ]
