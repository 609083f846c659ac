-- ===== src/Main/Threads.antt =====
-- The threads of the daemon, and main as a whole (main.cpp, main_clean.cpp).
use dummy_client.Common.{
  ℕ, zero, suc, Option, none, some, List, [], ◌∷◌, ◌++◌, Bool, true, false, if◌then◌else◌, not,
}
use dummy_client.Common.Int.{ℤ, pos, negsuc, eqb_ℤ, pos_part}
use dummy_client.Outcome.{Outcome, ok, fault}
use dummy_client.Trace.{error, no_param}
use dummy_client.Os.{Os}
use dummy_client.RestClient.{Curl}
use dummy_client.Connect.{C, ◌>>=◌, ◌>>◌, pure, log_line}
use dummy_client.MiscUtil.{Entry, Swept, init_log, clear_old_log}
use dummy_client.PerfInfo.{PerfInfo, perf_start, init}
use dummy_client.Json.{Json}
use dummy_client.Main.{Settings, settings_start, read_conf}
use dummy_client.Main.Setup.{Setup, find_out}

-- The functions that `main` starts.
pub data Thread : Type 0 where
  clean_worker alive_worker report_worker : Thread

-- The threads that run, the first first, and whether the process goes on with them.
pub record Start : Type 0 where
  pub threads : List Thread
  pub running : Bool

-- What `main` leaves to the threads: the fields of CPerfInfo, what it found out, unless it ended
-- before, and the threads.
pub record Launch : Type 0 where
  pub perf : PerfInfo
  pub setup : Option Setup
  pub start : Start

-- The first rounds of `clean_thread`, by the time and the directory that each finds.
unfoldable pub clean_thread :
    List ℕ → List (ℤ × Option (List Entry)) → Outcome (List (Option Swept))
clean_thread log_path [] = ok []
clean_thread log_path ((the_time, dir) ∷ rounds) = elim (clear_old_log the_time log_path dir) [
  | fault e ↦ fault e
  | ok swept ↦ elim (clean_thread log_path rounds) [ fault e ↦ fault e | ok r ↦ ok (swept ∷ r) ]
]

-- By what `pthread_create` returns for a thread.
module _ {N : Type 0} (create : Thread → N → ℤ × N) where
  unfoldable pub create_thread : Thread → C N Bool
  create_thread thread w =
      let (result, net) = create thread w.net in ok (eqb_ℤ result (pos 0), record w { net = net })

  -- The result of the last creation is not looked at.
  unfoldable pub start_report : List Thread → C N Start
  start_report started = create_thread report_worker >>= λ done. pure (record {
    threads = if done then started ++ (report_worker ∷ []) else started;
    running = true;
  })

  -- The loop over `PROCESS_POOL_SIZE`, behind the threads that have started.
  unfoldable pub start_pool : ℕ → List Thread → C N Start
  start_pool zero started = start_report started
  start_pool (suc n) started = create_thread alive_worker >>= λ done.
      if done
      then start_pool n (started ++ (alive_worker ∷ []))
      else (log_line error "WMI Monitor Manager Process Thread Process failed" (negsuc 0) no_param
          >> pure (record { threads = started; running = false }))

  unfoldable pub start_threads : ℤ → C N Start
  start_threads process_pool_size = create_thread clean_worker >>= λ done.
      if done
      then start_pool (pos_part process_pool_size) (clean_worker ∷ [])
      else (log_line error "Clean Thread Create Error Log" (negsuc 0) no_param
          >> pure (record { threads = []; running = false }))

-- `main`, by the configuration file, the time and the directory that `InitLog` finds, and what
-- `sem_init` and the two `pthread_mutex_init` return. Without a file the process ends at once.
module _ {N Value Double : Type 0} (os : Os N) (curl : Curl N) (json : Json Value Double)
    (create : Thread → N → ℤ × N) (is_space : ℕ → Bool) (peer : ℤ → N → List ℕ) (the_time : ℤ)
    (dir : Option (List Entry)) (semaphore connect_result perf_result first second : ℤ) where
  unfoldable pub start_with : Settings → C N Launch
  start_with s =
      init os is_space peer connect_result perf_result s.server_index s.manager_ip s.manager_port
        perf_start
      >>= λ r.
          if not (eqb_ℤ semaphore (pos 0))
          then (log_line error "WMI Monitor Manager Process Pool Semaphore Process failed"
                (negsuc 0) no_param
              >> pure (record {
                perf = r.1;
                setup = none;
                start = record { threads = []; running = false };
              }))
          else (find_out json curl first second s >>= λ setup.
              start_threads create s.process_pool_size >>= λ started.
              pure (record { perf = r.1; setup = some setup; start = started }))

  unfoldable pub main : Option (List ℕ) → C N Launch
  main none w = ok (
    record { perf = perf_start; setup = none; start = record { threads = []; running = false } },
    w,
  )
  main (some file) w = elim (read_conf is_space file settings_start) [
    | fault e ↦ fault e
    | ok s ↦ elim (init_log the_time s.manager_log_path dir) [
      | fault e ↦ fault e
      | ok r ↦ start_with s w
    ]
  ]
