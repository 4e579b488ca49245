-- ===== src/Run/Loop/Failing.antt =====
-- An instance that did not come up.
use rathole_ng.Prelude.{ℕ, ◌≡◌, refl, Bool, false, Option, some, List, [], ◌∷◌}
use rathole_ng.Config.{Text, Config, ClientServiceConfig}
use rathole_ng.Protocol.{Digest}
use rathole_ng.Watcher.{ConfigChange, rescan}
use rathole_ng.Run.{Cli}
use rathole_ng.Run.Loop.{Program, run_instance, restart, on_event, on_events, follow, launch}

module _ {H G : Type 0} (handle_new : ClientServiceConfig → Text → ℕ → H) (digest : Text → Digest)
    (comes_up : Config → Bool) (args : Cli) where
  on_events_failed :
      (es : List ConfigChange)
      → on_events {H = H} {G = G} handle_new digest comes_up args es Program.failed ≡ Program.failed
  unfolding on_events on_event
  on_events_failed [] = refl
  on_events_failed (ConfigChange.general c ∷ es) = on_events_failed es
  on_events_failed (ConfigChange.server_change c ∷ es) = on_events_failed es
  on_events_failed (ConfigChange.client_change c ∷ es) = on_events_failed es

  follow_failed :
      (files : List (Option Config)) (old : Config)
      → (follow {H = H} {G = G} handle_new digest comes_up args files (old, Program.failed)).1
        ≡ Program.failed
  unfolding follow
  follow_failed [] old = refl
  follow_failed (file ∷ files) old =
      rw (follow, on_events_failed (rescan old file).1) (follow_failed files _)

  -- An instance that does not come up with its first file is not replaced by one for a later file
  -- that needs a restart, though it may come up with that: the whole program ends.
  pub follow_ends_program :
      (first new : Config) (files : List (Option Config))
      → comes_up first ≡ false
      → (rescan first (some new)).1 ≡ ConfigChange.general new ∷ []
      → (follow {H = H} {G = G} handle_new digest comes_up args
          (some new ∷ files)
          (launch handle_new digest comes_up args first)).1
        ≡ Program.failed
  unfolding follow launch on_event on_events run_instance restart
  follow_ends_program first new files down restarts =
      rw (follow, restarts, launch, on_event, restart, run_instance, down) (follow_failed files _)
