-- ===== src/PerfInfo/Refused.antt =====
-- `Init` of CPerfInfo when the monitor cannot be reached.
use dummy_client.Common.{ℕ, ◌+◌, ◌≡◌, refl, arith, List, Bool, true, false, Bool-cases, inl, inr}
use dummy_client.Common.Int.{ℤ, pos, negsuc, eqb_ℤ}
use dummy_client.Outcome.{Outcome, ok}
use dummy_client.Os.{Os}
use dummy_client.Mutex.{free, mutex_init}
use dummy_client.Connect.{World, open_socket, connect_socket, close_to_server}
use dummy_client.Connect.Balance.{opens, closes}
use dummy_client.PerfInfo.{PerfInfo, scan_word, connect_to_monitor, greet, init}

-- A call that returned, with a descriptor field and no descriptor held that was not held before.
pub record Unheld {N : Type 0} (sock : ℤ) (w : World N) (r : Outcome ((Bool × PerfInfo) × World N))
    : Type 0 where
  pub done : Bool
  pub perf : PerfInfo
  pub world : World N
  pub runs : r ≡ ok ((done, perf), world)
  pub sock_is : perf.sock ≡ sock
  pub balance :
      (fd : ℤ) → opens fd world.trace + closes fd w.trace ≡ closes fd world.trace + opens fd w.trace

module _ {N : Type 0} (os : Os N)
    (refuses : (fd : ℤ) (ip : List ℕ) (port : ℤ) (w : N)
      → (os.connect fd ip port w).0 ≡ false) where
  -- The monitor refuses: FALSE, and nothing is left open.
  pub connect_to_monitor-Unheld :
      (p : PerfInfo) (w : World N)
      → (u : Unheld (os.socket w.net).0 w (connect_to_monitor os p w)) × (u.done ≡ false)
  unfolding connect_to_monitor open_socket connect_socket close_to_server opens closes
  connect_to_monitor-Unheld p w =
      let (sock, net) = os.socket w.net in
      elim (Bool-cases (eqb_ℤ sock (negsuc 0))) [
        | inl e ↦ rw e (
          record {
            done = false;
            perf = _;
            world = _;
            runs = refl;
            sock_is = refl;
            balance = λ fd. omega arith;
          },
          refl,
        )
        | inr e ↦
            rw (e, refuses)
              (
                record {
                  done = false;
                  perf = _;
                  world = _;
                  runs = refl;
                  sock_is = refl;
                  balance = λ fd. omega arith;
                },
                refl,
              )
      ]

  module _ (is_space : ℕ → Bool) (peer : ℤ → N → List ℕ) where
    -- `Init`, where the mutexes are made, the address of the monitor fits in 32 bytes, and the
    -- monitor refuses each connection: it returns TRUE, no descriptor is left open, and yet `m_hSock`
    -- is the descriptor that `socket` returned, or -1.
    pub init-Unheld :
        (serveridx : ℤ) (monitor_ip ip : List ℕ) (monitor_port : ℤ) (p : PerfInfo) (w : World N)
        → scan_word is_space monitor_ip p.monitor_ip ≡ ok ip
        → (u : Unheld
            (os.socket w.net).0
            w
            (init os is_space peer (pos 0) (pos 0) serveridx monitor_ip monitor_port p w))
          × (u.done ≡ true)
    unfolding init greet mutex_init
    init-Unheld serveridx monitor_ip ip monitor_port p w scanned =
        let q : PerfInfo = record p {
          connectioncnt = pos 0;
          serveridx = serveridx;
          monitor_ip = ip;
          monitor_port = monitor_port;
          connect_lock = free;
          perf_lock = free;
        } in
        let (u, failed) = connect_to_monitor-Unheld q w in
        (
          record {
            done = true;
            perf = u.perf;
            world = u.world;
            runs = ground (arith, scanned, u.runs, failed);
            sock_is = u.sock_is;
            balance = u.balance;
          },
          refl,
        )
