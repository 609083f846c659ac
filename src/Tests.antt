-- ===== src/Tests.antt =====
-- The theorems on connecting, the thread and the upload at concrete inputs.
use dummy_client.Common.{
  ℕ, ◌+◌, ◌≡◌, ◌%◌, ap, refl, arith, Bool, true, false, none, some, List, [], ◌∷◌, ◌++◌, ◌==◌,
}
use dummy_client.Common.Int.{ℤ, pos, pos_part}
use dummy_client.Outcome.{ok, fit}
use dummy_client.Os.{Os}
use dummy_client.Connect.{C, World, pure, connect_loop}
use dummy_client.Connect.Balance.{Looped, connect_loop-balance}
use dummy_client.Commands.{exceed}
use dummy_client.Commands.Tries.{exceed-Closing}
use dummy_client.RestClient.{UploadObject}
use dummy_client.RestClient.Upload.{upload, upload_whole, room}
use dummy_client.PerfInfo.{perf_start, init, scan_word, first_word, skip_space}
use dummy_client.Alive.Answered.{alive_rounds-masks, repeats, counted, alive_rounds-repeats}
use dummy_client.Connect.{◌>>◌}
use dummy_client.Mutex.{free}
use dummy_client.Outcome.{fault, bad_mutex}
use dummy_client.Common.{inr}
use dummy_client.PerfInfo.{PerfInfo}
use dummy_client.PerfInfo.Locked.{init-unmade}
use dummy_client.PerfInfo.Refused.{Unheld, init-Unheld}
use dummy_client.MiscUtil.{Entry, sweep, new_path}
use dummy_client.Trace
use dummy_client.Trace.{chars_param}
use dummy_client.MiscUtil.Log.{Time, log_text}
use dummy_client.MiscUtil.OneLine.{is_one_line, is_one_line_param, log_text-one_line}
use dummy_client.MiscUtil.Sweep.{Fits, Sweeps, sweep-Sweeps}
use dummy_client.Alive.{AliveState, alive_start, alive_rounds}
use dummy_client.Alive.Rounds.{behind, Steps, Total, alive_rounds-counters}
use dummy_client.Packet.Writes.{until_nul, strlen}
use dummy_client.PerfInfo.{report_perf_thread}
use dummy_client.Wire.Tests.{
  guarded_os, guarded-ReadLaws, guarded-WriteLaws, guarded-SelectLaws, guarded-Descriptors,
}
use dummy_client.PerfInfo.Kept.{zero-Usable, Kept, report_perf_thread-Kept}
use dummy_client.Alive.{alive_process_thread}
use dummy_client.Alive.Thread.{alive_process_thread-runs}
use dummy_client.Connect.Balance.{opens, closes}
use dummy_client.Commands.Tests.{quiet, conninfo, web, interfaces, gathers, addresses}
use dummy_client.Wire.Tests.{Pipe, pipe_os, pipe_sent, pipe_incoming, pipe-ReadLaws, pipe-WriteLaws}

connect_loop-balance_example : Looped (pos 3) (pos 0) quiet (
    connect_loop pipe_os
      (exceed pipe_os "Connect try count exceed")
      []
      (pos 8000)
      100
      (pos 0)
      quiet)
connect_loop-balance_example =
    connect_loop-balance pipe_os (pos 3) (exceed pipe_os "Connect try count exceed")
      (exceed-Closing pipe_os (pos 3) "Connect try count exceed") (λ e. absurd (cc)) [] (pos 8000)
      99 quiet

-- "put" in two pieces of two bytes.
abbrev put_object : UploadObject
put_object = record { content = b'p' ∷ b'u' ∷ b't' ∷ []; length = 3 }

upload_whole_example : (upload ((1, 2) ∷ (2, 1) ∷ []) put_object).0 ≡ b'p' ∷ b'u' ∷ b't' ∷ []
unfolding room
upload_whole_example = upload_whole ((1, 2) ∷ (2, 1) ∷ []) put_object refl (omega arith)

abbrev good : C Pipe Bool
good = pure true

abbrev bad : C Pipe Bool
bad = pure false

good-Total : Total good
good-Total w = (true, w, refl)

bad-Total : Total bad
bad-Total w = (false, w, refl)

alive_rounds-counters_example :
    Steps
      (λ s. (s.refresh ≡ 5000 % 3601) × (s.metareport ≡ 5000 % 61))
      (alive_rounds bad good good 5000 alive_start quiet)
alive_rounds-counters_example =
    alive_rounds-counters bad good good bad-Total good-Total good-Total 5000 quiet

-- Forty rounds, of alive reports that fail.
abbrev counting : AliveState
counting = record { ret = true; refresh = 3000; metareport = 20 }

alive_rounds-repeats_example :
    alive_rounds good bad good 40 counting quiet
    ≡ (repeats bad 40 >> pure (counted good bad good 40 counting)) quiet
alive_rounds-repeats_example =
    alive_rounds-repeats good bad good 40 counting quiet refl (omega arith) (omega arith)

abbrev due : AliveState
due = record { ret = false; refresh = 60; metareport = 60 }

-- Fifty rounds without a heartbeat, behind one that failed.
alive_rounds-masks_example :
    alive_rounds bad bad good 51 due quiet
    ≡ (repeats bad 50
          >> pure (counted bad bad good 50 (record { ret = true; refresh = 61; metareport = 0 })))
        (behind "Metadata healthcheck report" quiet)
alive_rounds-masks_example =
    alive_rounds-masks bad bad good 50 due quiet quiet quiet quiet false refl (omega arith) refl
      (omega arith) refl refl refl

-- A network in which each connection is refused.
abbrev refusing_os : Os Pipe
refusing_os = record pipe_os { connect = λ fd ip port w. (false, w) }

abbrev is_blank : ℕ → Bool
is_blank b = b == 32

abbrev no_peer : ℤ → Pipe → List ℕ
no_peer fd w = []

init-Unheld_example :
    (u : Unheld (pos 3) quiet (
      init refusing_os is_blank no_peer
        (pos 0)
        (pos 0)
        (pos 1)
        (b'1' ∷ b'.' ∷ b'2' ∷ [])
        (pos 80)
        perf_start
        quiet))
    × (u.done ≡ true)
unfolding scan_word first_word skip_space fit
init-Unheld_example =
    init-Unheld refusing_os (λ fd ip port w. refl) is_blank no_peer (pos 1)
      (b'1' ∷ b'.' ∷ b'2' ∷ []) (b'1' ∷ b'.' ∷ b'2' ∷ []) (pos 80) perf_start quiet refl

-- A file of the first second, a directory, and one that `lstat` fails on.
abbrev log_entries : List Entry
log_entries =
    record { d_name = b'a' ∷ []; stat = some (record { is_reg = true; mtime = pos 1 }) }
    ∷ record { d_name = b'b' ∷ []; stat = some (record { is_reg = false; mtime = pos 1 }) }
    ∷ record { d_name = b'c' ∷ []; stat = none }
    ∷ []

sweep-Sweeps_example :
    Sweeps
      (pos 432000)
      (pos 1000000)
      (b'l' ∷ [])
      log_entries
      (sweep (pos 432000) (pos 1000000) (b'l' ∷ []) log_entries)
unfolding Fits new_path
sweep-Sweeps_example =
    sweep-Sweeps (pos 432000) (pos 1000000) (b'l' ∷ []) log_entries
      (omega arith, (omega arith, (omega arith, tt)))

alive_process_thread-runs_example :
    (s : AliveState) × (w' : World Pipe) × (alive_process_thread pipe_os web interfaces
        (pos 0)
        conninfo
        5000
        quiet
      ≡ ok (s, w'))
    × ((s.refresh ≡ 5000 % 3601) × (s.metareport ≡ 5000 % 61))
    × ((fd : ℤ)
        → ¬ (fd ≡ pos 0)
        → opens fd w'.trace + closes fd quiet.trace ≡ closes fd w'.trace + opens fd quiet.trace)
unfolding until_nul strlen
alive_process_thread-runs_example =
    alive_process_thread-runs pipe_os web pipe_incoming pipe_sent pipe-ReadLaws pipe-WriteLaws
      interfaces (pos 0) conninfo gathers addresses (omega arith) 5000 quiet

abbrev unlocked : PerfInfo
unlocked = record perf_start { perf_lock = free }

report_perf_thread-Kept_example :
    Kept (pos 3) (pos 0) quiet (report_perf_thread guarded_os 7 unlocked quiet)
report_perf_thread-Kept_example =
    report_perf_thread-Kept guarded_os pipe_incoming pipe_sent guarded-ReadLaws guarded-WriteLaws
      guarded-SelectLaws guarded-Descriptors (pos 3) (λ e. absurd (omega (arith, ap pos_part e))) 7
      unlocked quiet (refl, zero-Usable)

init-unmade_example :
    (q : PerfInfo) × (w' : World Pipe) × (init pipe_os is_blank no_peer
        (pos 0)
        (pos 12)
        (pos 1)
        (b'1' ∷ b'.' ∷ b'2' ∷ [])
        (pos 80)
        perf_start
        quiet
      ≡ ok ((false, q), w'))
    × (report_perf_thread pipe_os 3 q w' ≡ fault bad_mutex)
unfolding scan_word first_word skip_space fit
init-unmade_example =
    init-unmade pipe_os is_blank no_peer (pos 0) (pos 12) (pos 1) (b'1' ∷ b'.' ∷ b'2' ∷ [])
      (b'1' ∷ b'.' ∷ b'2' ∷ []) (pos 80) perf_start quiet 2 refl refl
      (inr (λ e. absurd (omega (arith, ap pos_part e))))

-- Half past noon, on the fifth day of the year.
abbrev noon : Time
noon = record {
  tm_year = 126;
  tm_mon = 0;
  tm_mday = 5;
  tm_hour = 12;
  tm_min = 30;
  tm_sec = 0;
  tv_usec = 7;
}

abbrev log_entry : Trace.Entry
log_entry = record {
  level = Trace.error;
  message = "read";
  sockfd = pos 3;
  param = chars_param (b'o' ∷ b'k' ∷ []);
}

log_text-one_line_example :
    (line : List ℕ) × (log_text noon log_entry ≡ line ++ (b'\n' ∷ [])) × (is_one_line line ≡ true)
unfolding is_one_line is_one_line_param
log_text-one_line_example = log_text-one_line noon log_entry refl refl
