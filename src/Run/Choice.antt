-- ===== src/Run/Choice.antt =====
-- The mode of a program that is started without flags.
use rathole_ng.Prelude.{◌≡◌, Bool, true, false, ◌&&◌, ◌||◌, Option, arith}
use rathole_ng.Config.{Text, Config, Result}
use rathole_ng.Config.Validation.{is_set, from_str}
use rathole_ng.Run.{RunMode, Cli, determine_run_mode}

abbrev pub no_flags : Cli
no_flags = record { server = false; client = false }

abbrev pub is_undetermined : RunMode → Bool
is_undetermined RunMode.undetermine = true
is_undetermined _ = false

has_part :
    (scheme : Text → Text) (parse : Text → Option Config) (s : Text) (config : Config)
    → from_str scheme parse s ≡ Result.ok config
    → (is_set config.server || is_set config.client) ≡ true
unfolding from_str
has_part scheme parse s config e = ground arith

-- Without flags, a configuration that was read from a file leaves the mode open exactly when it has
-- a server and a client.
pub determine_run_mode-from_str :
    (scheme : Text → Text) (parse : Text → Option Config) (s : Text) (config : Config)
    → from_str scheme parse s ≡ Result.ok config
    → is_undetermined (determine_run_mode config no_flags)
      ≡ (is_set config.server && is_set config.client)
unfolding determine_run_mode
determine_run_mode-from_str scheme parse s config e =
    ground (arith, has_part scheme parse s config e)
