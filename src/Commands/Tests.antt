-- ===== src/Commands/Tests.antt =====
-- The theorems on the reports at concrete inputs.
use dummy_client.Common.{◌≡◌, refl, ap, arith, true, List, [], ◌∷◌, same_text}
use dummy_client.Common.Int.{pos, pos_part, signed32, bits32}
use dummy_client.Outcome.{ok, fit}
use dummy_client.Packet.Writes.{until_nul, strlen}
use dummy_client.RestClient.{Curl, get, transferred, write_all}
use dummy_client.Connect.{World, connect_loop, connect_tries}
use dummy_client.Common.{Option}
use dummy_client.Commands.{
  ConnInfo, Interface, interface_text, client_ips, external_address, exceed, command_alive_report,
  command_heartbeat_report, command_metadata_report, req_alive_status,
}
use dummy_client.Commands.Connected.{Reported}
use dummy_client.Commands.Reports.{
  Answered, alive_bytes, heartbeat_bytes, command_alive_report-Reported,
}
use dummy_client.Commands.Heartbeat.{heartbeat_tries, Heard, command_heartbeat_report-Reported}
use dummy_client.Commands.{gather, inet, other_family}
use dummy_client.Common.{ℕ, ◌^◌, ◌≤◌, some, length}
use dummy_client.Commands.Metadata.{
  metadata_bytes, address_answer, metadata_tries, Told, command_metadata_report-Reported,
}
use dummy_client.Wire.Tests.{Pipe, pipe_os, pipe_sent, pipe_incoming, pipe-ReadLaws, pipe-WriteLaws}

abbrev pub quiet : World Pipe
quiet = record { net = record { inbox = []; outbox = [] }; trace = [] }

abbrev pub conninfo : ConnInfo
conninfo = record {
  ip = b'i' ∷ [];
  port = pos 8000;
  server_type = pos 1;
  external_ip = b'e' ∷ [];
  availability_zone = b'z' ∷ [];
  host = b'h' ∷ [];
  metaname = b'm' ∷ [];
  uuid = b'u' ∷ b'u' ∷ [];
}

-- A web server that answers 200 with no body.
abbrev pub web : Curl Pipe
web = record {
  init = λ w. (true, w);
  perform = λ request url header w. (record { pieces = []; result = pos 0; status = pos 200 }, w);
  cleanup = λ w. w;
}

three_not_zero : ¬ (pos 3 ≡ pos 0)
three_not_zero e = absurd (omega (arith, ap pos_part e))

command_alive_report-Reported_example :
    Reported
      (pos 3)
      (connect_loop pipe_os
        (exceed pipe_os "Connect try count exceed")
        conninfo.ip
        conninfo.port
        connect_tries
        (pos 0))
      (Answered pipe_os pipe_incoming pipe_sent pipe-ReadLaws pipe-WriteLaws req_alive_status
        (alive_bytes conninfo))
      quiet
      (command_alive_report pipe_os conninfo quiet)
unfolding until_nul strlen
command_alive_report-Reported_example =
    command_alive_report-Reported pipe_os pipe_incoming pipe_sent pipe-ReadLaws pipe-WriteLaws
      (pos 3) three_not_zero conninfo quiet (omega arith)

-- The loopback interface, one with no address of the internet, and one other.
abbrev pub interfaces : Pipe → Option (List Interface)
interfaces n = some (
    record { name = b'l' ∷ b'o' ∷ []; address = inet (b'1' ∷ []) }
    ∷ record { name = b'p' ∷ []; address = other_family }
    ∷ record { name = b'e' ∷ []; address = inet (b'2' ∷ []) }
    ∷ [])

pub gathers :
    (n : Pipe)
    → (ips : List ℕ) × (gather (interfaces n) ≡ ok ips)
      × (length (heartbeat_bytes conninfo ips) ≤ 2 ^ 30)
unfolding gather client_ips same_text fit interface_text until_nul strlen
gathers n = (b'e' ∷ b':' ∷ b'2' ∷ b',' ∷ [], refl, omega arith)

pub addresses :
    (n : Pipe)
    → (ip : List ℕ) × (external_address (address_answer web (pos 0) (pos 0) n).0 ≡ ok ip)
      × (length (metadata_bytes conninfo ip true) ≤ 2 ^ 30)
unfolding external_address fit get transferred write_all until_nul strlen signed32 bits32
addresses n = ([], refl, omega arith)

command_heartbeat_report-Reported_example :
    Reported
      (pos 3)
      (heartbeat_tries pipe_os pipe_incoming pipe_sent pipe-ReadLaws pipe-WriteLaws interfaces
        conninfo)
      (Heard pipe_os pipe_incoming pipe_sent pipe-ReadLaws pipe-WriteLaws interfaces conninfo)
      quiet
      (command_heartbeat_report pipe_os interfaces conninfo quiet)
command_heartbeat_report-Reported_example =
    command_heartbeat_report-Reported pipe_os pipe_incoming pipe_sent pipe-ReadLaws pipe-WriteLaws
      interfaces (pos 3) three_not_zero conninfo quiet (λ sock start _. gathers start.net)

command_metadata_report-Reported_example :
    Reported
      (pos 3)
      (metadata_tries pipe_os web pipe_incoming pipe_sent pipe-ReadLaws pipe-WriteLaws
        (pos 0)
        (pos 0)
        conninfo)
      (Told pipe_os web pipe_incoming pipe_sent pipe-ReadLaws pipe-WriteLaws
        (pos 0)
        (pos 0)
        conninfo)
      quiet
      (command_metadata_report pipe_os web (pos 0) (pos 0) conninfo quiet)
command_metadata_report-Reported_example =
    command_metadata_report-Reported pipe_os web pipe_incoming pipe_sent pipe-ReadLaws
      pipe-WriteLaws (pos 0) (pos 0) conninfo (pos 3) three_not_zero quiet
      (λ sock start _. addresses start.net)
