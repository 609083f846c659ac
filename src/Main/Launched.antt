-- ===== src/Main/Launched.antt =====
-- `main` as a whole, where the files, the mutexes and the metadata are as they should be.
use dummy_client.Common.{ℕ, ◌≡◌, ap, arith, Option, some, List, [], Bool}
use dummy_client.Common.Int.{ℤ, pos, pos_part}
use dummy_client.Outcome.{Outcome, ok}
use dummy_client.Mutex.{free}
use dummy_client.Os.{Os, ReadLaws, WriteLaws, SelectLaws, Descriptors}
use dummy_client.RestClient.{Curl}
use dummy_client.Connect.{World}
use dummy_client.MiscUtil.{Entry, Swept, init_log}
use dummy_client.Common.{true}
use dummy_client.RestClient.{get}
use dummy_client.Commands.{metadata_url}
use dummy_client.PerfInfo.{PerfInfo, perf_start, init, scan_word, report_perf_thread}
use dummy_client.PerfInfo.Locked.{init-Ready}
use dummy_client.PerfInfo.Kept.{Kept, report_perf_thread-Kept}
use dummy_client.Json.{Json}
use dummy_client.Main.{Settings, settings_start, read_conf}
use dummy_client.Main.Setup.{Setup}
use dummy_client.Main.Threads.{Thread, Start, Launch, start_threads, start_with, main}
use dummy_client.Main.Started.{Starts, Started, start_threads-Started}
use dummy_client.Main.Found.{Readable, parsed, find_out-returns}

-- What `main` leaves: threads that start, what it found out, and a `m_PerfLock` that each round of
-- the performance thread can take, in whatever world.
pub record Launched {N : Type 0} (os : Os N) (create : Thread → N → ℤ × N) (pool : ℤ)
    (r : Outcome (Launch × World N)) : Type 0 where
  pub perf : PerfInfo
  pub setup : Setup
  pub start : Start
  pub world : World N
  pub runs : r ≡ ok (record { perf = perf; setup = some setup; start = start }, world)
  pub found : World N
  pub starting : start_threads create pool found ≡ ok (start, world)
  pub starts : Starts create (pos_part pool) found.net start
  pub reporting :
      (n : ℕ) (w : World N)
      → (p : PerfInfo) × (w' : World N) × (report_perf_thread os n perf w ≡ ok (p, w'))
        × (p.perf_lock ≡ free)

module _ {N Value Double : Type 0} (os : Os N) (curl : Curl N) (json : Json Value Double)
    (create : Thread → N → ℤ × N) (is_space : ℕ → Bool) (peer : ℤ → N → List ℕ) (the_time : ℤ)
    (dir : Option (List Entry)) (first second : ℤ) (incoming sent : ℤ → N → List ℕ)
    (reads : ReadLaws os incoming) (writes : WriteLaws os sent) (selects : SelectLaws os incoming)
    (descriptors : Descriptors os) where
  module _ (s : Settings) (w : World N) (ip : List ℕ)
      (scanned : scan_word is_space s.manager_ip [] ≡ ok ip)
      (readable : (q : PerfInfo) (w' : World N)
        → init os is_space peer
            (pos 0)
            (pos 0)
            s.server_index
            s.manager_ip
            s.manager_port
            perf_start
            w
          ≡ ok ((true, q), w')
        → Readable json (parsed json (get curl first metadata_url [] w'.net).0.body)) where
    start_with-Launch : Launched os create s.process_pool_size (
        start_with os curl json create is_space peer the_time dir
          (pos 0)
          (pos 0)
          (pos 0)
          first
          second
          s
          w)
    unfolding start_with
    start_with-Launch =
        let (q, wq, eq, ready) =
          init-Ready os incoming sent reads writes selects descriptors is_space peer s.server_index
            s.manager_ip ip s.manager_port perf_start w scanned in
        let (setup, ws, es) = find_out-returns json curl first second s wq (readable q wq eq) in
        let st : Started create (pos_part s.process_pool_size) ws.net
            (start_threads create s.process_pool_size ws) =
          start_threads-Started create s.process_pool_size ws in
        record {
          perf = q;
          setup = setup;
          start = st.start;
          world = st.world;
          runs = ground (arith, eq, es, st.runs);
          found = ws;
          starting = st.runs;
          starts = st.starts;
          reporting = λ n v.
              let k : Kept (pos 1) q.sock v (report_perf_thread os n q v) =
                report_perf_thread-Kept os incoming sent reads writes selects descriptors (pos 1)
                  (λ e. absurd (omega (arith, ap pos_part e))) n q v ready in
              (k.perf, k.world, k.runs, k.ready.0);
        }

    -- Over stream sockets of a process with at most 1024 descriptors, where the configuration is read,
    -- the old logs are looked through, the first word of the monitor's address fits in 32 bytes, each
    -- text of the metadata that the web server then gives is absent or fits its array, and the
    -- semaphore and both mutexes can be made: `main` starts the threads that can be made, as
    -- `start_threads-Started` says, and any number of rounds of the performance thread return from
    -- what `main` left, in whatever world, and leave `m_PerfLock` free.
    pub main-Launched :
        (file log_path : List ℕ) (swept : Option Swept)
        → read_conf is_space file settings_start ≡ ok s
        → init_log the_time s.manager_log_path dir ≡ ok (log_path, swept)
        → Launched os create s.process_pool_size (
            main os curl json create is_space peer the_time dir
              (pos 0)
              (pos 0)
              (pos 0)
              first
              second
              (some file)
              w)
    unfolding main
    main-Launched file log_path swept conf logs =
        let l = start_with-Launch in
        record {
          perf = l.perf;
          setup = l.setup;
          start = l.start;
          world = l.world;
          runs = ground (arith, conf, logs, l.runs);
          found = l.found;
          starting = l.starting;
          starts = l.starts;
          reporting = l.reporting;
        }
