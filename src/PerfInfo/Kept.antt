-- ===== src/PerfInfo/Kept.antt =====
-- The connection that CPerfInfo keeps: `m_hSock` is the only descriptor that it holds.
use dummy_client.Common.{
  ℕ, zero, suc, ◌+◌, ◌≡◌, ◌∙◌, refl, ap, arith, Bool, true, false, Bool-cases, inl, inr, not,
}
use dummy_client.Common.{Option, none, some, List, [], ◌∷◌, if◌then◌else◌}
use dummy_client.Common.{sym}
use mathlib.Core.Path.{subst}
use dummy_client.Common.Int.{ℤ, pos, pos_part, eqb_ℤ, eqb_ℤ-eq}
use dummy_client.Outcome.{Outcome, ok}
use dummy_client.Trace.{logged, closed, error, info, int_param}
use dummy_client.Trace.Logs.{OnlyLogs}
use dummy_client.Mutex.{free, mutex_lock, mutex_unlock}
use dummy_client.Packet.Writes.{write_int}
use dummy_client.Os.{Os, ReadLaws, WriteLaws, SelectLaws, Descriptors, Usable, in_set}
use dummy_client.Connect.{World, ◌>>=◌, close_to_server}
use dummy_client.Connect.Balance.{is, is-zero, opens, closes}
use dummy_client.Connect.Count.{OnlyLogs-Unclosed}
use dummy_client.Commands.Fields.{nothing, also, write_int-Writes}
use dummy_client.PerfInfo.{
  PerfInfo, connect_to_monitor, report, req_perf_report, send_perf_on, send_to_perf, perf_by_count,
  take_count, err_none, report_perf_thread,
}
use dummy_client.PerfInfo.Report.{Logged, report-Logged}
use dummy_client.PerfInfo.Monitored.{Monitored, connect_to_monitor-Monitored}

-- `m_PerfLock` is free, and `m_hSock` is 0, another descriptor of the process, or -1.
abbrev pub Ready : PerfInfo → Type 0
Ready p = (p.perf_lock ≡ free) × Usable p.sock

pub zero-Usable : Usable (pos 0)
unfolding in_set
zero-Usable = inl refl

-- A run that returned: behind it, the descriptor has been opened more often than closed by as much
-- as `m_hSock` now is the descriptor and was not before, and `m_PerfLock` is free and
-- `m_hSock` may be used.
pub record Kept {N : Type 0} (fd before : ℤ) (w : World N) (r : Outcome (PerfInfo × World N))
    : Type 0 where
  pub perf : PerfInfo
  pub world : World N
  pub runs : r ≡ ok (perf, world)
  pub balance :
      opens fd world.trace + closes fd w.trace + is fd before
      ≡ closes fd world.trace + opens fd w.trace + is fd perf.sock
  pub ready : Ready perf

module _ {N : Type 0} (os : Os N) (incoming sent : ℤ → N → List ℕ) (reads : ReadLaws os incoming)
    (writes : WriteLaws os sent) (selects : SelectLaws os incoming) (descriptors : Descriptors os)
    (fd : ℤ) (h : ¬ (fd ≡ pos 0)) where
  perf_by :
      (connection : ℤ) (p : PerfInfo) (w w' : World N) (value : Option ℤ)
      → report os req_perf_report p.sock (write_int p.serveridx ∷ write_int connection ∷ []) w
        ≡ ok (value, w')
      → OnlyLogs w.trace w'.trace
      → Ready p
      → Kept fd p.sock w (send_perf_on os connection p w)
  unfolding send_perf_on close_to_server opens closes
  perf_by connection p w w' none e quiet ready = record {
    ready = (ready.0, zero-Usable);
    perf = record p { sock = pos 0 };
    world = record { net = (os.close p.sock w'.net).1; trace = closed p.sock ∷ w'.trace };
    runs = ground (arith, e);
    balance = ground (arith, (OnlyLogs-Unclosed quiet).counts fd, is-zero fd h);
  }
  perf_by connection p w w' (some errorcode) e quiet ready =
      elim (Bool-cases (not (eqb_ℤ errorcode err_none))) [
        | inl bad ↦ record {
          perf = p;
          ready = ready;
          world = record w' {
            trace =
                logged (record {
                  level = info;
                  message = "Return REQ_PERF_REPORT";
                  sockfd = p.sock;
                  param = int_param errorcode;
                })
                ∷ logged (record {
                  level = error;
                  message = "Performance report Error";
                  sockfd = p.sock;
                  param = int_param errorcode;
                })
                ∷ w'.trace;
          };
          runs = ground (arith, e, bad);
          balance = ground (arith, (OnlyLogs-Unclosed quiet).counts fd);
        }
        | inr good ↦ record {
          perf = p;
          ready = ready;
          world = record w' {
            trace =
                logged (record {
                  level = info;
                  message = "Return REQ_PERF_REPORT";
                  sockfd = p.sock;
                  param = int_param errorcode;
                })
                ∷ w'.trace;
          };
          runs = ground (arith, e, good);
          balance = ground (arith, (OnlyLogs-Unclosed quiet).counts fd);
        }
      ]

  send_perf_on-Kept :
      (connection : ℤ) (p : PerfInfo) (w : World N)
      → Ready p
      → Kept fd p.sock w (send_perf_on os connection p w)
  send_perf_on-Kept connection p w ready =
      let l : Logged w
          (report os req_perf_report p.sock (write_int p.serveridx ∷ write_int connection ∷ []) w) =
        report-Logged os incoming sent reads writes selects descriptors req_perf_report p.sock _ _ w
          (λ e. absurd (omega (arith, ap pos_part e)))
          (also (write_int-Writes p.serveridx) (also (write_int-Writes connection) nothing))
          (omega arith) ready.1 in
      perf_by connection p w l.world l.value l.runs l.quiet ready

  -- `SendToPerf` with no connection.
  connected_by :
      (connection : ℤ) (p : PerfInfo) (w w' : World N) (done : Bool) (q : PerfInfo)
      → eqb_ℤ p.sock (pos 0) ≡ true
      → connect_to_monitor os p w ≡ ok ((done, q), w')
      → opens fd w'.trace + closes fd w.trace
        ≡ closes fd w'.trace + opens fd w.trace + (if done then is fd q.sock else 0)
      → Ready q
      → Kept fd p.sock w (perf_by_count os connection p w)
  unfolding perf_by_count
  connected_by connection p w w' false q unset e balance ready = record {
    perf = record q { sock = pos 0 };
    world = w';
    runs = ground (arith, unset, e);
    balance = omega (arith, balance, is-zero fd h, ap (is fd) (eqb_ℤ-eq p.sock (pos 0) unset));
    ready = (ready.0, zero-Usable);
  }
  connected_by connection p w w' true q unset e balance ready =
      let k : Kept fd q.sock w' (send_perf_on os connection q w') =
        send_perf_on-Kept connection q w' ready in
      record {
        perf = k.perf;
        world = k.world;
        runs = ground (arith, unset, e, k.runs);
        balance =
            omega
              (arith, balance, k.balance, is-zero fd h, ap (is fd) (eqb_ℤ-eq p.sock (pos 0) unset));
        ready = k.ready;
      }

  perf_by_count-Kept :
      (connection : ℤ) (p : PerfInfo) (w : World N)
      → Ready p
      → Kept fd p.sock w (perf_by_count os connection p w)
  unfolding perf_by_count
  perf_by_count-Kept connection p w ready = elim (Bool-cases (eqb_ℤ p.sock (pos 0))) [
    | inl unset ↦
        let m : Monitored fd p.perf_lock w (connect_to_monitor os p w) =
          connect_to_monitor-Monitored os descriptors fd p w in
        connected_by connection p w m.world m.done m.perf unset m.runs m.balance
          (m.same_lock ∙ ready.0, m.usable)
    | inr set ↦ rw set (send_perf_on-Kept connection p w ready)
  ]

  counts :
      (p : PerfInfo)
      → p.perf_lock ≡ free
      → take_count p ≡ ok (p.connectioncnt, record p { connectioncnt = pos 0; perf_lock = free })
  unfolding take_count mutex_lock mutex_unlock
  counts p e = ground (arith, e)

  behind_count :
      (p q : PerfInfo) (connection : ℤ) (w : World N)
      → take_count p ≡ ok (connection, q)
      → send_to_perf os p w ≡ perf_by_count os connection q w
  unfolding send_to_perf
  behind_count p q connection w e = ground (arith, e)

  pub send_to_perf-Kept :
      (p : PerfInfo) (w : World N) → Ready p → Kept fd p.sock w (send_to_perf os p w)
  send_to_perf-Kept p w ready =
      subst (Kept fd p.sock w) (sym (behind_count p _ p.connectioncnt w (counts p ready.0))) (
        perf_by_count-Kept p.connectioncnt (record p { connectioncnt = pos 0; perf_lock = free }) w
          (refl, ready.1))

  -- Over stream sockets of a process with at most 1024 descriptors, from a free `m_PerfLock` and a
  -- descriptor of the process or -1 in `m_hSock`, and for every descriptor but 0: any number of
  -- rounds of `report_perf_thread` return, whatever the monitor does, and leave the lock free, and
  -- behind them the descriptor has been opened more often than closed exactly by whether `m_hSock`
  -- is it now, less whether it was before.
  pub report_perf_thread-Kept :
      (n : ℕ) (p : PerfInfo) (w : World N)
      → Ready p
      → Kept fd p.sock w (report_perf_thread os n p w)
  unfolding report_perf_thread
  report_perf_thread-Kept zero p w ready = record {
    ready = ready;
    perf = p;
    world = w;
    runs = refl;
    balance = omega arith;
  }
  report_perf_thread-Kept (suc n) p w ready =
      let k : Kept fd p.sock w (send_to_perf os p w) = send_to_perf-Kept p w ready in
      let l : Kept fd k.perf.sock k.world (report_perf_thread os n k.perf k.world) =
        report_perf_thread-Kept n k.perf k.world k.ready in
      record {
        perf = l.perf;
        world = l.world;
        runs = rw (◌>>=◌, k.runs) l.runs;
        balance = omega (arith, k.balance, l.balance);
        ready = l.ready;
      }
