-- ===== src/Commands/Tries.antt =====
-- The end of the hundred tries of `command_alive_report` and its kin.
use Prim.Native.String.{String}
use dummy_client.Common.{refl, arith}
use dummy_client.Common.Int.{ℤ}
use dummy_client.Os.{Os}
use dummy_client.Connect.{close_to_server}
use dummy_client.Connect.Balance.{Closing, opens, closes}
use dummy_client.Commands.{exceed}

-- `exceed` closes the socket that it is given.
pub exceed-Closing :
    {N : Type 0} (os : Os N) (fd : ℤ) (message : String) → Closing fd (exceed os message)
unfolding exceed close_to_server opens closes
exceed-Closing os fd message sock w = (_, refl, omega arith)
