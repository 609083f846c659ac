-- ===== src/PerfInfo/Monitored.antt =====
-- The connection that CPerfInfo makes to the monitor.
use dummy_client.Common.{◌+◌, ◌≡◌, refl, arith, Bool, true, false, Bool-cases, inl, inr}
use dummy_client.Common.{if◌then◌else◌}
use dummy_client.Common.Int.{ℤ, negsuc, eqb_ℤ}
use dummy_client.Outcome.{Outcome, ok}
use dummy_client.Mutex.{Mutex}
use dummy_client.Os.{Os, Descriptors, Usable}
use dummy_client.Connect.{World, open_socket, connect_socket, set_options, close_to_server}
use dummy_client.Connect.Balance.{is, opens, closes}
use dummy_client.PerfInfo.{PerfInfo, connect_to_monitor}

-- What `ConnectToMonitor` leaves: the socket is held if it returned TRUE, and the lock as it was.
pub record Monitored {N : Type 0} (fd : ℤ) (lock : Mutex) (w : World N)
    (r : Outcome ((Bool × PerfInfo) × World N)) : Type 0 where
  pub done : Bool
  pub perf : PerfInfo
  pub world : World N
  pub runs : r ≡ ok ((done, perf), world)
  pub balance :
      opens fd world.trace + closes fd w.trace
      ≡ closes fd world.trace + opens fd w.trace + (if done then is fd perf.sock else 0)
  pub same_lock : perf.perf_lock ≡ lock
  pub usable : Usable perf.sock

module _ {N : Type 0} (os : Os N) (descriptors : Descriptors os) (fd : ℤ) where
  pub connect_to_monitor-Monitored :
      (p : PerfInfo) (w : World N) → Monitored fd p.perf_lock w (connect_to_monitor os p w)
  unfolding connect_to_monitor open_socket connect_socket close_to_server set_options opens closes
  connect_to_monitor-Monitored p w =
      let (sock, net) = os.socket w.net in
      let done = (os.connect sock p.monitor_ip p.monitor_port net).0 in
      elim (Bool-cases (eqb_ℤ sock (negsuc 0))) [
        | inl e ↦ rw e (record {
          done = false;
          perf = _;
          world = _;
          runs = refl;
          balance = omega arith;
          same_lock = refl;
          usable = descriptors.numbered w.net;
        })
        | inr e ↦ elim (Bool-cases done) [
          | inl d ↦
              rw (e, d)
                (record {
                  done = true;
                  perf = _;
                  world = _;
                  runs = refl;
                  balance = omega arith;
                  same_lock = refl;
                  usable = descriptors.numbered w.net;
                })
          | inr d ↦
              rw (e, d)
                (record {
                  done = false;
                  perf = _;
                  world = _;
                  runs = refl;
                  balance = omega arith;
                  same_lock = refl;
                  usable = descriptors.numbered w.net;
                })
        ]
      ]
