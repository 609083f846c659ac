-- ===== src/Commands/Refresh.antt =====
-- The refresh (main_alive.cpp), which connects and sends nothing.
use dummy_client.Common.{ℕ, List}
use dummy_client.Outcome.{Outcome, ok}
use dummy_client.Common.{Bool, true, Option}
use dummy_client.Common.Int.{ℤ, pos}
use dummy_client.Trace.{info, int_param}
use dummy_client.Outcome.{ok}
use dummy_client.Os.{Os}
use dummy_client.Connect.{
  World, C, ◌>>◌, pure, close_to_server, log_line, connect_loop, connect_tries,
}
use dummy_client.Commands.{ConnInfo, refresh_exceed}

-- An operating system with the same `socket`, `connect`, `setsockopt` and `close`.
abbrev pub with_traffic :
    {N : Type 0}
    → Os N
    → (ℤ → ℕ → N → Option (List ℕ) × N)
    → (ℤ → List ℕ → N → ℤ × N)
    → (ℤ → ℕ → N → ℤ × N)
    → Os N
with_traffic os read write select = record os { read = read; write = write; select = select }

module _ {N : Type 0} (os : Os N) (read : ℤ → ℕ → N → Option (List ℕ) × N)
    (write : ℤ → List ℕ → N → ℤ × N) (select : ℤ → ℕ → N → ℤ × N) where
  abbrev os' : Os N
  os' = with_traffic os read write select

module _ {N : Type 0} (os : Os N) (fd : ℤ) where
  -- Behind the connection: the socket is closed, and nothing else is done with it.
  abbrev only_close : ℤ → C N Bool
  only_close sock =
      close_to_server os sock
      >> (log_line info "CMD REFRESH_INFO Response" sock (int_param (pos 0)) >> pure true)

  module _ (conninfo : ConnInfo) (w : World N) where
    abbrev connecting : C N (Option ℤ)
    connecting = connect_loop os (refresh_exceed os) conninfo.ip conninfo.port connect_tries (pos 0)
