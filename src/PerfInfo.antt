-- ===== src/PerfInfo.antt =====
-- CPerfInfo (PerfInfo.cpp): the performance report over a connection that is kept.
pub mod Refused
pub mod Report
pub mod Monitored
pub mod Kept
pub mod Locked
use dummy_client.Common.{
  ℕ, zero, suc, Option, none, some, List, [], ◌∷◌, Bool, true, false, if◌then◌else◌, not, length,
  ◌==◌,
}
use dummy_client.Common.Int.{ℤ, pos, negsuc, eqb_ℤ}
use dummy_client.Trace.{error, info, no_param, int_param, text_param}
use dummy_client.Outcome.{Outcome, ok, fault, fit}
use dummy_client.Packet.State.{M}
use dummy_client.Packet.Reads.{new_packet, init_socket_log, init_command_log, read_int}
use dummy_client.Packet.Writes.{write_int}
use dummy_client.Os.{Os}
use dummy_client.Mutex.{Mutex, unset, mutex_init, mutex_lock, mutex_unlock, mutex_destroy}
use dummy_client.Wire.{send_packet, receive_packet_select}
use dummy_client.Connect.{
  C, World, ◌>>=◌, ◌>>◌, pure, on, log_line, open_socket, close_to_server, connect_socket,
  set_options,
}
use dummy_client.Commands.{cat_request, write_fields}

-- The static fields: `Init` runs before the one thread that calls `SendToPerf` starts.
pub record PerfInfo : Type 0 where
  pub sock : ℤ
  pub connectioncnt : ℤ
  pub serveridx : ℤ
  pub localip : List ℕ
  pub monitor_ip : List ℕ
  pub monitor_port : ℤ
  pub connect_lock : Mutex
  pub perf_lock : Mutex

abbrev pub perf_start : PerfInfo
perf_start = record {
  sock = pos 0;
  connectioncnt = pos 0;
  serveridx = pos 0;
  localip = [];
  monitor_ip = [];
  monitor_port = pos 0;
  connect_lock = unset;
  perf_lock = unset;
}

abbrev pub req_perf_report : ℤ
req_perf_report = pos 0x32

abbrev pub req_server_restart : ℤ
req_server_restart = pos 0x33

abbrev pub err_none : ℤ
err_none = pos 0

-- The first word of a text, as `sscanf` reads it by `%s`.
unfoldable pub first_word : (ℕ → Bool) → List ℕ → List ℕ
first_word is_space [] = []
first_word is_space (b ∷ bs) = if is_space b then [] else b ∷ first_word is_space bs

unfoldable pub skip_space : (ℕ → Bool) → List ℕ → List ℕ
skip_space is_space [] = []
skip_space is_space (b ∷ bs) = if is_space b then skip_space is_space bs else b ∷ bs

-- `sscanf(text, "%s", old)` into 32 bytes: a text with no word leaves the old one.
unfoldable pub scan_word : (ℕ → Bool) → List ℕ → List ℕ → Outcome (List ℕ)
scan_word is_space text old =
    let word = first_word is_space (skip_space is_space text) in
    if length word == 0 then ok old else fit 32 word

-- The count is taken and set back to 0 under the lock.
unfoldable pub take_count : PerfInfo → Outcome (ℤ × PerfInfo)
take_count p = elim (mutex_lock p.perf_lock) [
  | fault e ↦ fault e
  | ok locked ↦ elim (mutex_unlock locked) [
    | fault e ↦ fault e
    | ok unlocked ↦ ok (p.connectioncnt, record p { connectioncnt = pos 0; perf_lock = unlocked })
  ]
]

-- `Destroy`, which nothing calls.
unfoldable pub destroy : PerfInfo → Outcome PerfInfo
destroy p = elim (mutex_destroy p.connect_lock) [
  | fault e ↦ fault e
  | ok connect_lock ↦ elim (mutex_destroy p.perf_lock) [
    | fault e ↦ fault e
    | ok perf_lock ↦ ok (record p { connect_lock = connect_lock; perf_lock = perf_lock })
  ]
]

module _ {N : Type 0} (os : Os N) where
  -- `ConnectToMonitor`: `m_hSock` keeps the descriptor in each case, a closed one or -1 too.
  unfoldable pub connect_to_monitor : PerfInfo → C N (Bool × PerfInfo)
  connect_to_monitor p = open_socket os >>= λ sock.
      if eqb_ℤ sock (negsuc 0)
      then pure (false, record p { sock = sock })
      else (connect_socket os sock p.monitor_ip p.monitor_port >>= λ done.
          if not done
          then (do
            log_line error "ConnectToMonitor() - NOT CONNECT" sock no_param
            close_to_server os sock
            pure (false, record p { sock = sock }))
          else (do
            set_options os sock
            log_line info "ConnectToMonitor() SUCCESS" sock no_param
            pure (true, record p { sock = sock })))

  -- Both reports write their fields, send the packet and read one number: `none` is an early
  -- return. Bytes behind the number are not looked for.
  unfoldable pub report : ℤ → ℤ → List (M N Bool) → C N (Option ℤ)
  report command sock fields =
      on (init_command_log cat_request command sock (pos 0) (new_packet (pos 0)))
        (write_fields fields)
      >>= λ written.
          if not written.0
          then pure none
          else (on written.1 (send_packet os) >>= λ sent.
              if not sent.0
              then pure none
              else (on (init_socket_log sock (pos 0) (new_packet (pos 0)))
                    (receive_packet_select os)
                  >>= λ got.
                      if not got.0
                      then pure none
                      else (on got.1 read_int >>= λ number. pure number.0)))

  unfoldable pub send_to_restart : PerfInfo → C N Bool
  send_to_restart p = report req_server_restart p.sock (write_int p.serveridx ∷ []) >>= λ r.
      elim r [
        | none ↦ pure false
        | some errorcode ↦
            if not (eqb_ℤ errorcode err_none)
            then (do
              log_line error "SERVER_RESTART REPORT ERRORCODE" p.sock (int_param errorcode)
              pure false)
            else (do
              log_line info "SERVER_RESTART REPORT SUCCESS" p.sock (int_param errorcode)
              pure true)
      ]

  -- `Init`, by the results of the two `pthread_mutex_init`, what `isspace` says, and the text that
  -- `getpeername` and `inet_ntop` give for a socket. `m_monitor_ip` has 32 bytes.
  module _ (is_space : ℕ → Bool) (peer : ℤ → N → List ℕ) where
    unfoldable pub greet : PerfInfo → C N (Bool × PerfInfo)
    greet p = connect_to_monitor p >>= λ c. if not c.0 then pure (true, c.1) else λ w.
        (let q : PerfInfo = record c.1 { localip = peer c.1.sock w.net } in
          (send_to_restart q >>= λ told.
          if told
          then pure (true, q)
          else (do log_line error "SERVER_RESTART REPORT FAILED" q.sock no_param; pure (true, q)))
            w)

    unfoldable pub init : ℤ → ℤ → ℤ → List ℕ → ℤ → PerfInfo → C N (Bool × PerfInfo)
    init connect_result perf_result serveridx monitor_ip monitor_port p w =
        elim (scan_word is_space monitor_ip p.monitor_ip) [
          | fault e ↦ fault e
          | ok ip ↦
              let q : PerfInfo = record p {
                connectioncnt = pos 0;
                serveridx = serveridx;
                monitor_ip = ip;
                monitor_port = monitor_port;
                connect_lock = mutex_init connect_result p.connect_lock;
              } in
              if not (eqb_ℤ connect_result (pos 0))
              then (log_line error "CPerfInfo::Init" (negsuc 0)
                      (text_param "Connect pthread_mutex_init")
                    >> pure (false, q))
                  w
              else if not (eqb_ℤ perf_result (pos 0))
              then (log_line error "CPerfInfo::Init" (negsuc 0)
                      (text_param "PerfLock pthread_mutex_init")
                    >> pure (false, q))
                  w
              else greet (record q { perf_lock = mutex_init perf_result p.perf_lock }) w
        ]

  -- The report over `m_hSock`; after an early return the connection is closed and forgotten.
  unfoldable pub send_perf_on : ℤ → PerfInfo → C N PerfInfo
  send_perf_on connection p =
      report req_perf_report p.sock (write_int p.serveridx ∷ write_int connection ∷ []) >>= λ r.
      elim r [
        | none ↦ close_to_server os p.sock >> pure (record p { sock = pos 0 })
        | some errorcode ↦
            (if not (eqb_ℤ errorcode err_none)
              then log_line error "Performance report Error" p.sock (int_param errorcode)
              else pure tt)
            >> (log_line info "Return REQ_PERF_REPORT" p.sock (int_param errorcode) >> pure p)
      ]

  -- `SendToPerf`, behind the lock.
  unfoldable pub perf_by_count : ℤ → PerfInfo → C N PerfInfo
  perf_by_count connection q =
      if eqb_ℤ q.sock (pos 0)
      then (connect_to_monitor q >>= λ c.
          if not c.0 then pure (record c.1 { sock = pos 0 }) else send_perf_on connection c.1)
      else send_perf_on connection q

  unfoldable pub send_to_perf : PerfInfo → C N PerfInfo
  send_to_perf p w = elim (take_count p) [
    | fault e ↦ fault e
    | ok (connection, q) ↦ perf_by_count connection q w
  ]

  -- `report_perf_thread` of main_report.cpp: the first `n` rounds, each behind a sleep.
  unfoldable pub report_perf_thread : ℕ → PerfInfo → C N PerfInfo
  report_perf_thread zero p = pure p
  report_perf_thread (suc n) p = send_to_perf p >>= report_perf_thread n
