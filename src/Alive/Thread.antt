-- ===== src/Alive/Thread.antt =====
-- The thread with its own reports: it never stops, and it leaks no descriptor.
use dummy_client.Common.{
  ℕ, zero, suc, ◌+◌, ◌%◌, ◌^◌, ◌≤◌, ◌≡◌, ap, sym, ◌∙◌, arith, Bool, true, Option, List, ◌∷◌, length,
  ltb,
}
use dummy_client.Common.Int.{ℤ, pos, negsuc, pos_part}
use dummy_client.Trace.{info, no_param, logged}
use dummy_client.Outcome.{Outcome, ok, fault}
use dummy_client.Os.{Os, ReadLaws, WriteLaws}
use dummy_client.RestClient.{Curl}
use dummy_client.Connect.{C, World}
use dummy_client.Connect.Balance.{opens, closes}
use mathlib.Core.Path.{subst}
use dummy_client.Connect.Even.{Even, Evens, pure-Evens, log_line-Evens, bind-Evens, if-Evens}
use dummy_client.Commands.{
  ConnInfo, Interface, gather, external_address, command_alive_report, command_heartbeat_report,
  command_metadata_report,
}
use dummy_client.Commands.Connected.{Reported}
use dummy_client.Commands.Reports.{alive_bytes, heartbeat_bytes, command_alive_report-Reported}
use dummy_client.Commands.Heartbeat.{command_heartbeat_report-Reported}
use dummy_client.Commands.Metadata.{
  metadata_bytes, address_answer, command_metadata_report-Reported,
}
use dummy_client.Alive.{
  AliveState, alive_start, refresh_interval, metadata_interval, heartbeat_step, refresh_step,
  metadata_step, alive_round, alive_rounds, alive_process_thread,
}
use dummy_client.Alive.Rounds.{Total, alive_rounds-counters}

module _ {N : Type 0} (fd : ℤ) (heartbeat alive metadata : C N Bool) (h : Evens fd heartbeat)
    (a : Evens fd alive) (d : Evens fd metadata) where
  heartbeat_step-Evens : (ret : Bool) → Evens fd (heartbeat_step heartbeat alive metadata ret)
  unfolding heartbeat_step
  heartbeat_step-Evens ret = if-Evens fd ret (pure-Evens fd true) h

  refresh_step-Evens : (s : AliveState) → Evens fd (refresh_step heartbeat alive metadata s)
  unfolding refresh_step
  refresh_step-Evens s = if-Evens fd (ltb s.refresh refresh_interval) (pure-Evens fd _) (
      bind-Evens fd h (λ ret.
        bind-Evens fd
          (log_line-Evens fd info "Refresh Client Informs packet send" (negsuc 0) no_param)
          (λ _. pure-Evens fd (record s { ret = ret; refresh = 0 }))))

  metadata_step-Evens : (s : AliveState) → Evens fd (metadata_step heartbeat alive metadata s)
  unfolding metadata_step
  metadata_step-Evens s = if-Evens fd (ltb s.metareport metadata_interval) (pure-Evens fd _) (
      bind-Evens fd d (λ ret.
        bind-Evens fd (log_line-Evens fd info "Metadata healthcheck report" (negsuc 0) no_param)
          (λ _. pure-Evens fd (record s { ret = ret; metareport = 0 }))))

  alive_round-Evens : (s : AliveState) → Evens fd (alive_round heartbeat alive metadata s)
  unfolding alive_round
  alive_round-Evens s = bind-Evens fd (heartbeat_step-Evens s.ret) (λ ret.
      bind-Evens fd a
        (λ _. bind-Evens fd (refresh_step-Evens (record s { ret = ret })) metadata_step-Evens))

  alive_rounds-Evens :
      (n : ℕ) (s : AliveState) → Evens fd (alive_rounds heartbeat alive metadata n s)
  unfolding alive_rounds
  alive_rounds-Evens zero s = pure-Evens fd s
  alive_rounds-Evens (suc n) s = bind-Evens fd (alive_round-Evens s) (alive_rounds-Evens n)

Reported-Evens :
    {N : Type 0} (fd : ℤ) {connecting : C N (Option ℤ)} {Good : ℤ → World N → N → Type 0}
    {m : C N Bool}
    → ((w : World N) → Reported fd connecting Good w (m w))
    → Evens fd m
Reported-Evens fd r = record {
  even = λ w. record {
    value = (r w).done;
    world = (r w).world;
    runs = (r w).runs;
    balance = (r w).balance;
  };
}

Evens-Total : {N : Type 0} (fd : ℤ) {m : C N Bool} → Evens fd m → Total m
Evens-Total fd h w = let x = h.even w in (x.value, x.world, x.runs)

world_of : {N A : Type 0} → World N → Outcome (A × World N) → World N
world_of w (ok (a, w')) = w'
world_of w (fault e) = w

-- The balance at the world in which a run is known to end.
Even-at :
    {N A : Type 0} (fd : ℤ) {w w' : World N} {r : Outcome (A × World N)} {a : A}
    → Even fd w r
    → r ≡ ok (a, w')
    → opens fd w'.trace + closes fd w.trace ≡ closes fd w'.trace + opens fd w.trace
unfolding world_of
Even-at fd {w = w} {w' = w'} x e =
    let same : x.world ≡ w' = ap (world_of w) (sym x.runs ∙ e) in
    subst (λ v. opens fd v.trace + closes fd w.trace ≡ closes fd v.trace + opens fd w.trace) same
      x.balance

module _ {N : Type 0} (os : Os N) (curl : Curl N) (incoming sent : ℤ → N → List ℕ)
    (reads : ReadLaws os incoming) (writes : WriteLaws os sent)
    (interfaces : N → Option (List Interface)) (indeterminate : ℤ) (conninfo : ConnInfo)
    (gathers : (n : N)
      → (ips : List ℕ) × (gather (interfaces n) ≡ ok ips)
        × (length (heartbeat_bytes conninfo ips) ≤ 2 ^ 30))
    (addresses : (n : N)
      → (ip : List ℕ) × (external_address (address_answer curl indeterminate indeterminate n).0
          ≡ ok ip)
        × (length (metadata_bytes conninfo ip true) ≤ 2 ^ 30))
    (alive_fits : length (alive_bytes conninfo) ≤ 2 ^ 30) where
  abbrev heartbeat_command : C N Bool
  heartbeat_command = command_heartbeat_report os interfaces conninfo

  abbrev alive_command : C N Bool
  alive_command = command_alive_report os conninfo

  abbrev metadata_command : C N Bool
  metadata_command = command_metadata_report os curl indeterminate indeterminate conninfo

  module _ (fd : ℤ) (h : ¬ (fd ≡ pos 0)) where
    heartbeat-Evens : Evens fd heartbeat_command
    heartbeat-Evens = Reported-Evens fd (λ w.
        command_heartbeat_report-Reported os incoming sent reads writes interfaces fd h conninfo w
          (λ sock start _. gathers start.net))

    alive-Evens : Evens fd alive_command
    alive-Evens = Reported-Evens fd (λ w.
        command_alive_report-Reported os incoming sent reads writes fd h conninfo w alive_fits)

    metadata-Evens : Evens fd metadata_command
    metadata-Evens = Reported-Evens fd (λ w.
        command_metadata_report-Reported os curl incoming sent reads writes indeterminate
          indeterminate conninfo fd h w (λ sock start _. addresses start.net))

    thread-Evens :
        (n : ℕ) → Evens fd (alive_process_thread os curl interfaces indeterminate conninfo n)
    unfolding alive_process_thread
    thread-Evens n = bind-Evens fd (log_line-Evens fd info "Start Alive" (negsuc 0) no_param) (λ _.
        alive_rounds-Evens fd heartbeat_command alive_command metadata_command heartbeat-Evens
          alive-Evens metadata-Evens n alive_start)

  one_not_zero : ¬ (pos 1 ≡ pos 0)
  one_not_zero e = absurd (omega (arith, ap pos_part e))

  -- The world behind the opening line.
  abbrev started : World N → World N
  started w = record w {
    trace =
        logged
          (record { level = info; message = "Start Alive"; sockfd = negsuc 0; param = no_param })
        ∷ w.trace;
  }

  -- Over stream sockets, where the name and the uuid fit a packet, and, in each network in which the
  -- thread may ask for them, the interfaces can be listed, each has an address, and their text and
  -- the answer of the second web server fit their arrays and with the other fields a packet: the
  -- first `n` rounds of `alive_process_thread` return, whatever the manager answers: its counters
  -- are then `n` modulo 3601 and 61, and every descriptor but 0 has been closed as often as opened.
  pub alive_process_thread-runs :
      (n : ℕ) (w : World N)
      → (s : AliveState) × (w' : World N) × (alive_process_thread os curl interfaces indeterminate
            conninfo n w
          ≡ ok (s, w'))
        × ((s.refresh ≡ n % 3601) × (s.metareport ≡ n % 61))
        × ((fd : ℤ)
            → ¬ (fd ≡ pos 0)
            → opens fd w'.trace + closes fd w.trace ≡ closes fd w'.trace + opens fd w.trace)
  unfolding alive_process_thread
  alive_process_thread-runs n w =
      let (s, w', e, counters) =
        alive_rounds-counters heartbeat_command alive_command metadata_command
          (Evens-Total (pos 1) (heartbeat-Evens (pos 1) one_not_zero))
          (Evens-Total (pos 1) (alive-Evens (pos 1) one_not_zero))
          (Evens-Total (pos 1) (metadata-Evens (pos 1) one_not_zero)) n (started w) in
      (s, w', e, counters, λ fd h. Even-at fd ((thread-Evens fd h n).even w) e)
