-- ===== src/SimpleTcp/Standalone.antt =====
-- simpletcp/simpletcp-main.c: the program on a machine of its own. Its `createCallback` sleeps and
-- then calls at once, inside the handler that asked for it.
pub mod Turns
pub mod Rounds
pub mod Start
pub mod Main
mod Runs
use shadow_tor_eavesdropping.Base.{ℕ, ◌*◌, ◌^◌, ◌%◌, ◌/=◌, Bool, Option, List, Bytes}
use shadow_tor_eavesdropping.Sys.{M, Call, Timeval, epollall, ◌>>=◌, ◌>>◌, pure, get, perform}
use shadow_tor_eavesdropping.Glib.{HashTable}
use shadow_tor_eavesdropping.Resolve.{Strings}
use shadow_tor_eavesdropping.Host.Main.{main}
use shadow_tor_eavesdropping.SimpleTcp.State.{SimpleTcp}
use shadow_tor_eavesdropping.SimpleTcp.Arguments.{Numbers}
use shadow_tor_eavesdropping.SimpleTcp.Starting.{Later, wakeup_client}
use shadow_tor_eavesdropping.SimpleTcp.Loop.{simpletcp_is_done}
use shadow_tor_eavesdropping.SimpleTcp.New.{simpletcp_node}

-- `millisecondsDelay * 1000`, an `unsigned int`.
abbrev pub microseconds : ℕ → ℕ
microseconds milliseconds_delay = (milliseconds_delay * 1000) % 2 ^ 32

module _ (g : HashTable Timeval) where
  unfoldable pub main_create_callback : Later g
  main_create_callback milliseconds_delay = do
    perform (Call.usleep (microseconds milliseconds_delay))
    wakeup_client g

  -- `if(simpletcp_isDone(simpletcpState))`
  unfoldable pub simpletcp_check : M (SimpleTcp g) Bool
  simpletcp_check = do h ← get; pure (simpletcp_is_done h /= 0)

  unfoldable pub simpletcp_main : Strings → Numbers → ℕ → List Bytes → M (SimpleTcp g) (Option ℕ)
  simpletcp_main lib numbers =
      main (simpletcp_node g lib numbers main_create_callback) epollall simpletcp_check
