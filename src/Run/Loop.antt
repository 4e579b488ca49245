-- ===== src/Run/Loop.antt =====
-- src/lib.rs: the loop of `run`, which owns the instance, and `run_instance`.
-- Whether an instance comes up with its configuration (its transport can be made, its address can be
-- bound) is an argument. A change that is sent to an instance is taken as handled at once. An
-- instance that has ended has no receiver of the shutdown left.
pub mod Following
pub mod Failing
mod Tests
use rathole_ng.Prelude.{ℕ, Bool, true, false, Option, none, some, List, [], ◌∷◌, if◌then◌else◌}
use rathole_ng.Config.{Text, ClientServiceConfig, Config}
use rathole_ng.Watcher.{ConfigChange, rescan}
use rathole_ng.Client.{Client, start, handle_hot_reload}
use rathole_ng.Protocol.{Digest}
use rathole_ng.Server.{Server, from_config}
use rathole_ng.Server
use rathole_ng.Run.{RunMode, Cli, determine_run_mode}

-- What the task of an instance is: a client or a server in its loop, or a task that has ended, by
-- an error or a panic.
pub data Instance (H G : Type 0) : Type 0 where
  client : Client H → Instance H G
  server : Server G → Instance H G
  ended : Instance H G

-- The loop with its `last_instance`, or a loop that an error has ended.
pub data Program (H G : Type 0) : Type 0 where
  looping : Option (Instance H G) → Program H G
  failed : Program H G

module _ {H G : Type 0} (handle_new : ClientServiceConfig → Text → ℕ → H) (digest : Text → Digest)
    (comes_up : Config → Bool) (args : Cli) where
  -- The match on the mode, with `run_client` and `run_server` up to their loops.
  unfoldable pub instance_of : RunMode → Config → Instance H G
  instance_of RunMode.undetermine config = Instance.ended
  instance_of RunMode.client config = elim config.client [
    | none ↦ Instance.ended
    | some c ↦ Instance.client (start handle_new c)
  ]
  instance_of RunMode.server config = elim config.server [
    | none ↦ Instance.ended
    | some c ↦ Instance.server (from_config digest c)
  ]

  unfoldable pub run_instance : Config → Instance H G
  unfolding instance_of
  run_instance config =
      if comes_up config
      then instance_of (determine_run_mode config args) config
      else Instance.ended

  -- A service change, as the instance handles it.
  unfoldable pub deliver : ConfigChange → Instance H G → Instance H G
  deliver ev (Instance.client c) = Instance.client (handle_hot_reload handle_new ev c)
  deliver ev (Instance.server s) = elim (Server.handle_hot_reload digest ev s) [
    | none ↦ Instance.ended
    | some s' ↦ Instance.server s'
  ]
  deliver ev Instance.ended = Instance.ended

  -- `shutdown_tx.send(true)?; i.await??` on the last instance, and a new one: the send fails without
  -- a receiver.
  unfoldable pub restart : Config → Option (Instance H G) → Program H G
  unfolding run_instance
  restart config (some Instance.ended) = Program.failed
  restart config (some (Instance.client _)) = Program.looping (some (run_instance config))
  restart config (some (Instance.server _)) = Program.looping (some (run_instance config))
  restart config none = Program.looping (some (run_instance config))

  abbrev pub deliver_last : ConfigChange → Option (Instance H G) → Option (Instance H G)
  deliver_last ev none = none
  deliver_last ev (some i) = some (deliver ev i)

  -- One round of the loop.
  unfoldable pub on_event : ConfigChange → Program H G → Program H G
  unfolding restart deliver
  on_event ev Program.failed = Program.failed
  on_event (ConfigChange.general config) (Program.looping last) = restart config last
  on_event (ConfigChange.server_change c) (Program.looping last) =
      Program.looping (deliver_last (ConfigChange.server_change c) last)
  on_event (ConfigChange.client_change c) (Program.looping last) =
      Program.looping (deliver_last (ConfigChange.client_change c) last)

  unfoldable pub on_events : List ConfigChange → Program H G → Program H G
  on_events [] p = p
  on_events (e ∷ es) p = on_events es (on_event e p)

  -- The watcher and the loop: what a read of the changed file gives, `none` where it is invalid, and
  -- the configuration that the watcher holds with the program.
  unfoldable pub follow : List (Option Config) → Config × Program H G → Config × Program H G
  follow [] s = s
  follow (file ∷ files) (old, p) =
      let (now, events) = rescan old file in follow files (now, on_events events p)

  -- `ConfigWatcherHandle::new` sends the first configuration.
  unfoldable pub launch : Config → Config × Program H G
  unfolding on_event
  launch config = (config, on_event (ConfigChange.general config) (Program.looping none))
