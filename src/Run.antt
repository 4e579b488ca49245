-- ===== src/Run.antt =====
-- src/lib.rs: whether the program runs as a server or as a client.
pub mod Choice
pub mod Loop
mod Tests
use rathole_ng.Prelude.{Bool, true, not, ◌&&◌, if◌then◌else◌}
use rathole_ng.Config.{Config}
use rathole_ng.Config.Validation.{is_set}

pub data RunMode : Type 0 where
  server client undetermine : RunMode

-- The two flags of the command line.
pub record Cli : Type 0 where
  pub server : Bool
  pub client : Bool

unfoldable pub determine_run_mode : Config → Cli → RunMode
determine_run_mode config args =
    if args.client && args.server
    then RunMode.undetermine
    else if args.client
    then RunMode.client
    else if args.server
    then RunMode.server
    else if is_set config.client && not (is_set config.server)
    then RunMode.client
    else if is_set config.server && not (is_set config.client)
    then RunMode.server
    else RunMode.undetermine
