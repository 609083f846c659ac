-- ===== src/PerfInfo/Locked.antt =====
-- `Init` of CPerfInfo and the mutexes: what the reports find of `m_PerfLock`.
use dummy_client.Common.{
  ℕ, suc, ◌≡◌, ◌≢◌, ap, arith, ◌⊎◌, inl, inr, Bool, true, false, Bool-cases, Option, none, some,
  List, [], ◌∷◌, not,
}
use dummy_client.Common.Int.{ℤ, pos, negsuc, pos_part, eqb_ℤ, eqb_ℤ-ne}
use dummy_client.Outcome.{Outcome, ok, fault, bad_mutex}
use Prim.Native.String.{String}
use dummy_client.Trace.{logged, Level, error, info, Param, int_param, no_param, text_param}
use dummy_client.Mutex.{Mutex, unset, free, mutex_init, mutex_lock}
use dummy_client.Packet.Writes.{write_int}
use dummy_client.Os.{Os, ReadLaws, WriteLaws, SelectLaws, Descriptors, Usable}
use dummy_client.Connect.{World}
use dummy_client.Commands.Fields.{nothing, also, write_int-Writes}
use dummy_client.PerfInfo.{
  PerfInfo, scan_word, connect_to_monitor, report, req_server_restart, send_to_restart, greet, init,
  take_count, send_to_perf, report_perf_thread, err_none,
}
use dummy_client.PerfInfo.Report.{Logged, report-Logged}
use dummy_client.PerfInfo.Kept.{Ready}
use dummy_client.PerfInfo.Monitored.{Monitored, connect_to_monitor-Monitored}

-- A run that returned with the same locks.
record Unchanged {N : Type 0} (lock : Mutex) (r : Outcome ((Bool × PerfInfo) × World N))
    : Type 0 where
  done : Bool
  perf : PerfInfo
  world : World N
  runs : r ≡ ok ((done, perf), world)
  same_lock : perf.perf_lock ≡ lock

-- The world behind a log line.
abbrev log_behind : {N : Type 0} → Level → String → ℤ → Param → World N → World N
log_behind level message fd param w = record w {
  trace =
      logged (record { level = level; message = message; sockfd = fd; param = param }) ∷ w.trace;
}

module _ {N : Type 0} (os : Os N) (incoming sent : ℤ → N → List ℕ) (reads : ReadLaws os incoming)
    (writes : WriteLaws os sent) (selects : SelectLaws os incoming)
    (descriptors : Descriptors os) where
  restart_by :
      (p : PerfInfo) (w w' : World N) (value : Option ℤ)
      → report os req_server_restart p.sock (write_int p.serveridx ∷ []) w ≡ ok (value, w')
      → (done : Bool) × (w'' : World N) × (send_to_restart os p w ≡ ok (done, w''))
  unfolding send_to_restart
  restart_by p w w' none e = (false, w', ground (arith, e))
  restart_by p w w' (some errorcode) e = elim (Bool-cases (not (eqb_ℤ errorcode err_none))) [
    | inl bad ↦ (
      false,
      log_behind error "SERVER_RESTART REPORT ERRORCODE" p.sock (int_param errorcode) w',
      ground (arith, e, bad),
    )
    | inr good ↦ (
      true,
      log_behind info "SERVER_RESTART REPORT SUCCESS" p.sock (int_param errorcode) w',
      ground (arith, e, good),
    )
  ]

  -- `SendToRestart` returns.
  restarts :
      (p : PerfInfo) (w : World N)
      → Usable p.sock
      → (done : Bool) × (w' : World N) × (send_to_restart os p w ≡ ok (done, w'))
  restarts p w usable =
      let l : Logged w (report os req_server_restart p.sock (write_int p.serveridx ∷ []) w) =
        report-Logged os incoming sent reads writes selects descriptors req_server_restart p.sock _
          _ w (λ e. absurd (omega (arith, ap pos_part e)))
          (also (write_int-Writes p.serveridx) nothing) (omega arith) usable in
      restart_by p w l.world l.value l.runs

  module _ (is_space : ℕ → Bool) (peer : ℤ → N → List ℕ) where
    greet_by :
        (p q : PerfInfo) (w w' : World N) (done : Bool)
        → connect_to_monitor os p w ≡ ok ((done, q), w')
        → Ready q
        → (r : PerfInfo) × (w'' : World N) × (greet os is_space peer p w ≡ ok ((true, r), w''))
          × Ready r
    unfolding greet
    greet_by p q w w' false e ready = (q, w', ground (arith, e), ready)
    greet_by p q w w' true e ready =
        let r : PerfInfo = record q { localip = peer q.sock w'.net } in
        let (told, w'', runs) = restarts r w' ready.1 in
        elim (Bool-cases told) [
          | inl t ↦ (r, w'', ground (arith, e, runs, t), ready)
          | inr t ↦ (
            r,
            log_behind error "SERVER_RESTART REPORT FAILED" r.sock no_param w'',
            ground (arith, e, runs, t),
            ready,
          )
        ]

    -- `Init` where both mutexes are made and the address fits.
    pub init-Ready :
        (serveridx : ℤ) (monitor_ip ip : List ℕ) (monitor_port : ℤ) (p : PerfInfo) (w : World N)
        → scan_word is_space monitor_ip p.monitor_ip ≡ ok ip
        → (q : PerfInfo) × (w' : World N) × (init os is_space peer
              (pos 0)
              (pos 0)
              serveridx
              monitor_ip
              monitor_port
              p
              w
            ≡ ok ((true, q), w'))
          × Ready q
    unfolding init mutex_init
    init-Ready serveridx monitor_ip ip monitor_port p w scanned =
        let q : PerfInfo = record p {
          connectioncnt = pos 0;
          serveridx = serveridx;
          monitor_ip = ip;
          monitor_port = monitor_port;
          connect_lock = free;
          perf_lock = free;
        } in
        let m : Monitored (pos 1) free w (connect_to_monitor os q w) =
          connect_to_monitor-Monitored os descriptors (pos 1) q w in
        let (r, w', runs, ready) =
          greet_by q m.perf w m.world m.done m.runs (m.same_lock, m.usable) in
        (r, w', ground (arith, scanned, runs), ready)

module _ {N : Type 0} (os : Os N) (is_space : ℕ → Bool) (peer : ℤ → N → List ℕ) where
  -- A mutex that was never made is locked in the first round.
  unmade :
      (n : ℕ) (p : PerfInfo) (w : World N)
      → p.perf_lock ≡ unset
      → report_perf_thread os (suc n) p w ≡ fault bad_mutex
  unfolding report_perf_thread send_to_perf take_count mutex_lock
  unmade n p w e = ground (arith, e)

  module _ (connect_result perf_result : ℤ) (serveridx : ℤ) (monitor_ip ip : List ℕ)
      (monitor_port : ℤ) (p : PerfInfo) (w : World N)
      (scanned : scan_word is_space monitor_ip p.monitor_ip ≡ ok ip) where
    -- The fields behind the first mutex, and the world behind the line that says which failed.
    abbrev first_made : PerfInfo
    first_made = record p {
      connectioncnt = pos 0;
      serveridx = serveridx;
      monitor_ip = ip;
      monitor_port = monitor_port;
      connect_lock = mutex_init connect_result p.connect_lock;
    }

    abbrev failed : String → World N
    failed name = log_behind error "CPerfInfo::Init" (negsuc 0) (text_param name) w

    abbrev EndsWith : World N → Type 0
    EndsWith w' =
        init os is_space peer connect_result perf_result serveridx monitor_ip monitor_port p w
        ≡ ok ((false, first_made), w')

    no_connect_lock :
        eqb_ℤ connect_result (pos 0) ≡ false → EndsWith (failed "Connect pthread_mutex_init")
    unfolding init
    no_connect_lock e = ground (arith, scanned, e)

    no_perf_lock :
        eqb_ℤ connect_result (pos 0) ≡ true
        → eqb_ℤ perf_result (pos 0) ≡ false
        → EndsWith (failed "PerfLock pthread_mutex_init")
    unfolding init
    no_perf_lock made e = ground (arith, scanned, made, e)

    one_failed : (connect_result ≢ pos 0) ⊎ (perf_result ≢ pos 0) → (w' : World N) × EndsWith w'
    one_failed (inl bad) = (_, no_connect_lock (eqb_ℤ-ne connect_result (pos 0) bad))
    one_failed (inr bad) = elim (Bool-cases (eqb_ℤ connect_result (pos 0))) [
      | inl made ↦ (_, no_perf_lock made (eqb_ℤ-ne perf_result (pos 0) bad))
      | inr e ↦ (_, no_connect_lock e)
    ]

  -- Where the address of the monitor fits in 32 bytes and one of the two `pthread_mutex_init` fails,
  -- before which `m_PerfLock` was not made: `Init` returns FALSE with `m_PerfLock` not made, and the
  -- first round of `report_perf_thread` behind it locks it none the less, which is not defined.
  pub init-unmade :
      (connect_result perf_result : ℤ) (serveridx : ℤ) (monitor_ip ip : List ℕ) (monitor_port : ℤ)
      (p : PerfInfo) (w : World N) (n : ℕ)
      → scan_word is_space monitor_ip p.monitor_ip ≡ ok ip
      → p.perf_lock ≡ unset
      → (connect_result ≢ pos 0) ⊎ (perf_result ≢ pos 0)
      → (q : PerfInfo) × (w' : World N) × (init os is_space peer connect_result perf_result
            serveridx monitor_ip monitor_port p w
          ≡ ok ((false, q), w'))
        × (report_perf_thread os (suc n) q w' ≡ fault bad_mutex)
  init-unmade connect_result perf_result serveridx monitor_ip ip monitor_port p w n scanned
        unmade_before bad =
      let (w', runs) =
        one_failed connect_result perf_result serveridx monitor_ip ip monitor_port p w scanned
          bad in
      (_, w', runs, unmade n _ w' unmade_before)
