-- ===== src/Wire/Quiet.antt =====
-- Sending and receiving do nothing to the trace but log.
use Prim.Native.String.{String}
use dummy_client.Common.{ℕ, zero, suc, ◌+◌, List, Bool, true, false, none, some, ltb, replicate}
use dummy_client.Common.Int.{pos, ltb_ℤ, pos_part, signed8}
use dummy_client.Trace.{error, text_param}
use dummy_client.Trace.Logs.{none_more}
use dummy_client.Outcome.{fault, out_of_fuel}
use dummy_client.Packet.State.{M}
use dummy_client.Packet.Writes.{poke}
use dummy_client.Packet.State.{advance}
use dummy_client.Packet.Quiet.{
  Quiet, QuietRun, pure-Quiet, this-Quiet, set_this-Quiet, lift-Quiet, write_log-Quiet, bind-Quiet,
  if-Quiet, case-Quiet, option-Quiet,
}
use dummy_client.Os.{Os}
use dummy_client.Wire.{
  read_some, write_some, receive_some, receive_loop, receive_data, receive_body, body_length,
  rewind, report_always, receive_header, receive_packet, report_flagged, select_header, call_select,
  wait_readable, select_read, receive_packet_select, send_some, send_loop, send_frame, send_packet,
  byte_at,
}

ruleset quiet_steps =
    (pure-Quiet, this-Quiet, set_this-Quiet, lift-Quiet, write_log-Quiet, bind-Quiet, if-Quiet)

module _ {N : Type 0} (os : Os N) where
  read_some-Quiet : (n : ℕ) → Quiet (read_some os n)
  unfolding read_some QuietRun
  read_some-Quiet n = record { quiet = λ s. none_more }

  write_some-Quiet : (bs : List ℕ) → Quiet (write_some os bs)
  unfolding write_some QuietRun
  write_some-Quiet bs = record { quiet = λ s. none_more }

  call_select-Quiet : (n : ℕ) → Quiet (call_select os n)
  unfolding call_select QuietRun
  call_select-Quiet n = record { quiet = λ s. none_more }

  wait_readable-Quiet : (n : ℕ) → Quiet (wait_readable os n)
  unfolding wait_readable
  wait_readable-Quiet n = search (quiet_steps, call_select-Quiet)

  advance-Quiet : (n : ℕ) → Quiet {N = N} (advance n)
  unfolding QuietRun
  advance-Quiet n = record { quiet = λ s. none_more }

  poke-Quiet : (bs : List ℕ) → Quiet {N = N} (poke bs)
  unfolding poke
  poke-Quiet bs = search (this-Quiet, set_this-Quiet, lift-Quiet, bind-Quiet)

  receive_some-Quiet : (name : String) → Quiet (receive_some os name)
  unfolding receive_some
  receive_some-Quiet name =
      search (quiet_steps, read_some-Quiet, poke-Quiet, advance-Quiet) depth 12

  receive_loop-Quiet : (name : String) (fuel : ℕ) → Quiet (receive_loop os name fuel)
  unfolding receive_loop
  receive_loop-Quiet name zero = lift-Quiet (fault out_of_fuel)
  receive_loop-Quiet name (suc fuel) = bind-Quiet this-Quiet (λ p.
      case-Quiet (ltb_ℤ (pos p.data_pointer) p.data_length)
        (bind-Quiet (receive_some-Quiet name)
          (λ more. case-Quiet more (receive_loop-Quiet name fuel) (pure-Quiet false)))
        (pure-Quiet true))

  receive_data-Quiet :
      (name : String) (report : M N Bool) → Quiet report → Quiet (receive_data os name report)
  unfolding receive_data
  receive_data-Quiet name report h = bind-Quiet this-Quiet (λ p.
      bind-Quiet
        (set_this-Quiet (record p {
          str_data = some (replicate (pos_part p.data_length) none);
          data_pointer = 0;
        }))
        (λ _.
          bind-Quiet (receive_loop-Quiet name (suc (pos_part p.data_length)))
            (λ whole. if-Quiet whole h (pure-Quiet false))))

  receive_body-Quiet :
      (name : String) (report : M N Bool) (header : List ℕ)
      → Quiet report
      → Quiet (receive_body os name report header)
  unfolding receive_body
  receive_body-Quiet name report header h = bind-Quiet this-Quiet (λ p.
      bind-Quiet
        (set_this-Quiet (record p {
          category = signed8 (byte_at 7 header);
          command = signed8 (byte_at 8 header);
          data_length = body_length header;
        }))
        (λ _.
          if-Quiet (ltb_ℤ (body_length header) (pos 0))
            (bind-Quiet (write_log-Quiet error name (text_param "length 체크 오류"))
              (λ _. pure-Quiet false))
            (receive_data-Quiet name report h)))

  rewind-Quiet : Quiet (rewind os)
  unfolding rewind
  rewind-Quiet = search quiet_steps depth 12

  report_always-Quiet : Quiet (report_always os)
  unfolding report_always
  report_always-Quiet = search (quiet_steps, rewind-Quiet) depth 12

  receive_header-Quiet : (header : List ℕ) → Quiet (receive_header os header)
  unfolding receive_header
  receive_header-Quiet header =
      search (quiet_steps, receive_body-Quiet, report_always-Quiet) depth 12

  pub receive_packet-Quiet : Quiet (receive_packet os)
  unfolding receive_packet
  receive_packet-Quiet = search (quiet_steps, read_some-Quiet, receive_header-Quiet) depth 12

  report_flagged-Quiet : Quiet (report_flagged os)
  unfolding report_flagged
  report_flagged-Quiet = search (quiet_steps, rewind-Quiet) depth 12

  select_header-Quiet : (header : List ℕ) → Quiet (select_header os header)
  unfolding select_header
  select_header-Quiet header =
      search (quiet_steps, receive_body-Quiet, report_flagged-Quiet) depth 12

  select_read-Quiet : Quiet (select_read os)
  unfolding select_read
  select_read-Quiet = search (quiet_steps, read_some-Quiet, select_header-Quiet) depth 12

  pub receive_packet_select-Quiet : Quiet (receive_packet_select os)
  unfolding receive_packet_select
  receive_packet_select-Quiet =
      search (quiet_steps, wait_readable-Quiet, select_read-Quiet) depth 12

  send_some-Quiet : (totalsend : ℕ) → Quiet (send_some os totalsend)
  unfolding send_some
  send_some-Quiet totalsend = search (quiet_steps, write_some-Quiet) depth 12

  send_loop-Quiet : (fuel totalsend : ℕ) → Quiet (send_loop os fuel totalsend)
  unfolding send_loop
  send_loop-Quiet zero totalsend = lift-Quiet (fault out_of_fuel)
  send_loop-Quiet (suc fuel) totalsend = bind-Quiet this-Quiet (λ p.
      case-Quiet (ltb totalsend p.data_pointer)
        (bind-Quiet (send_some-Quiet totalsend) (λ nsend.
          option-Quiet nsend (λ k. send_loop-Quiet fuel (totalsend + k)) (pure-Quiet false)))
        (pure-Quiet true))

  send_frame-Quiet : Quiet (send_frame os)
  unfolding send_frame
  send_frame-Quiet = search (quiet_steps, write_some-Quiet, send_loop-Quiet) depth 12

  pub send_packet-Quiet : Quiet (send_packet os)
  unfolding send_packet
  send_packet-Quiet = search (quiet_steps, send_frame-Quiet) depth 12
