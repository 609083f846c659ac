-- ===== src/Commands/Heartbeat.antt =====
-- `command_heartbeat_report` as a whole.
use dummy_client.Common.{
  ℕ, ◌^◌, ◌≤◌, ◌≡◌, refl, ap, arith, Bool, true, false, ◌∷◌, Option, none, some, List, length,
}
use dummy_client.Common.Int.{ℤ, pos, pos_part}
use dummy_client.Outcome.{ok, fault}
use dummy_client.Trace.{logged, info, int_param}
use dummy_client.Trace.Logs.{none_more, one_more}
use dummy_client.Os.{Os, ReadLaws, WriteLaws}
use dummy_client.Wire.Frame.{frame}
use dummy_client.Connect.{C, World, ◌>>=◌, ◌>>◌, pure, log_line, connect_loop, connect_tries}
use dummy_client.Connect.Count.{ClosedOnce-Unclosed, OnlyLogs-Unclosed}
use dummy_client.Commands.{
  ConnInfo, Interface, cat_request, req_registry_heartbeat, exchange, exceed, gather,
  heartbeat_fields, command_heartbeat_report,
}
use dummy_client.Commands.Tries.{exceed-Closing}
use dummy_client.Commands.Fields.{AllWrite, nothing, also, write_string-Writes, write_int-Writes}
use dummy_client.Commands.Exchange.{Exchanged, exchange-Exchanged}
use dummy_client.Commands.Connected.{Done, Reported, connected-Reported}
use dummy_client.Commands.Reports.{Answered, Exchanged-Answered, heartbeat_bytes}

heartbeat_fields-AllWrite :
    {N : Type 0} (os : Os N) (conninfo : ConnInfo) (ips : List ℕ)
    → AllWrite (heartbeat_fields os conninfo ips) (heartbeat_bytes conninfo ips)
heartbeat_fields-AllWrite os conninfo ips = also (write_string-Writes conninfo.metaname) (
    also (write_string-Writes conninfo.host) (
      also (write_int-Writes conninfo.server_type) (
        also (write_string-Writes conninfo.uuid) (
          also (write_string-Writes ips) (
            also (write_string-Writes conninfo.availability_zone)
              (also (write_string-Writes conninfo.external_ip) nothing))))))

module _ {N : Type 0} (os : Os N) (incoming sent : ℤ → N → List ℕ) (reads : ReadLaws os incoming)
    (writes : WriteLaws os sent) (interfaces : N → Option (List Interface)) where
  -- What the command does on its socket.
  abbrev heartbeat_on : ConnInfo → ℤ → C N Bool
  heartbeat_on conninfo sock w = elim (gather (interfaces w.net)) [
    | fault e ↦ fault e
    | ok ips ↦
        (exchange os req_registry_heartbeat sock (heartbeat_fields os conninfo ips) >>= λ reply.
        elim reply [
          | none ↦ pure false
          | some errorcode ↦
              log_line info "CMD HEARTBEAT Response" sock (int_param errorcode) >> pure true
        ])
          w
  ]

  -- The interfaces behind the connection gave a text, and the frame with it was sent and answered.
  abbrev pub Heard : ConnInfo → ℤ → World N → N → Type 0
  Heard conninfo sock start final =
      (ips : List ℕ) × (gather (interfaces start.net) ≡ ok ips)
      × Answered os incoming sent reads writes req_registry_heartbeat (heartbeat_bytes conninfo ips)
          sock start final

  -- The tries of the heartbeat.
  abbrev pub heartbeat_tries : ConnInfo → C N (Option ℤ)
  heartbeat_tries conninfo =
      connect_loop os (exceed os "Connect try count exceed - command_heartbeat_report") conninfo.ip
        conninfo.port connect_tries (pos 0)

  module _ (conninfo : ConnInfo) (ips : List ℕ) (sock : ℤ) (w : World N)
      (gathered : gather (interfaces w.net) ≡ ok ips)
      (x : Exchanged os incoming sent reads writes req_registry_heartbeat sock
        (frame cat_request req_registry_heartbeat (heartbeat_bytes conninfo ips))
        w
        (exchange os req_registry_heartbeat sock (heartbeat_fields os conninfo ips) w)) where
    heartbeat_by :
        (value : Option ℤ)
        → x.value ≡ value
        → Done sock (Heard conninfo sock w) w (heartbeat_on conninfo sock w)
    heartbeat_by none e = record {
      done = false;
      world = x.world;
      runs = ground (arith, gathered, x.runs, e);
      once = x.once;
      means = λ p. cc;
    }
    heartbeat_by (some k) e = record {
      done = true;
      world = record x.world {
        trace =
            logged (record {
              level = info;
              message = "CMD HEARTBEAT Response";
              sockfd = sock;
              param = int_param k;
            })
            ∷ x.world.trace;
      };
      runs = ground (arith, gathered, x.runs, e);
      once = ClosedOnce-Unclosed x.once (OnlyLogs-Unclosed (one_more _ none_more));
      means = λ p. (ips, gathered, Exchanged-Answered os incoming sent reads writes x k e);
    }

  -- Over stream sockets, and for every descriptor but 0: where the interfaces that are found behind
  -- the connection can be listed, each has an address, and their text fits its arrays and with the
  -- other fields a packet, `command_heartbeat_report` returns and closes the descriptor as often as
  -- it opens it. If it returns TRUE, it sent the frame with the seven fields, this text among them, on
  -- the socket of its tries and then received a whole frame from it whose data is one number, which
  -- is not `ERR_FAILED`.
  pub command_heartbeat_report-Reported :
      (fd : ℤ)
      → ¬ (fd ≡ pos 0)
      → (conninfo : ConnInfo) (w : World N)
      → ((sock : ℤ) (start : World N)
          → heartbeat_tries conninfo w ≡ ok (some sock, start)
          → (ips : List ℕ) × (gather (interfaces start.net) ≡ ok ips)
            × (length (heartbeat_bytes conninfo ips) ≤ 2 ^ 30))
      → Reported fd
          (heartbeat_tries conninfo)
          (Heard conninfo)
          w
          (command_heartbeat_report os interfaces conninfo w)
  unfolding command_heartbeat_report
  command_heartbeat_report-Reported fd h conninfo w gathers =
      connected-Reported os fd h (exceed os "Connect try count exceed - command_heartbeat_report")
        (exceed-Closing os fd "Connect try count exceed - command_heartbeat_report") conninfo.ip
        conninfo.port (heartbeat_on conninfo) (Heard conninfo) w
        (λ sock w' connects.
          let (ips, gathered, small) = gathers sock w' connects in
          heartbeat_by conninfo ips sock w' gathered
            (exchange-Exchanged os incoming sent reads writes req_registry_heartbeat sock
              (heartbeat_fields os conninfo ips) (heartbeat_bytes conninfo ips) w'
              (λ e. absurd (omega (arith, ap pos_part e)))
              (heartbeat_fields-AllWrite os conninfo ips) small)
            _ refl)
