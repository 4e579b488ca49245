-- ===== src/Run/Loop/Following.antt =====
-- A client that follows its file.
use rathole_ng.Prelude.{
  ◌≡◌, refl, sym, subst, ap, ◌∙◌, true, Bool, Option, none, some, List, [], ◌∷◌, ◌++◌, map, ℕ,
  arith, inl, inr, Every,
}
use rathole_ng.Collections.HashMap
use rathole_ng.Config.{
  Text, text_discrete, Config, ClientConfig, ClientServiceConfig, ServerServiceConfig,
}
use rathole_ng.Watcher.{
  ServiceChange, ConfigChange, client_service_discrete, service_changes, same_client, same_config,
  client_instance, part_events, rescan,
}
use rathole_ng.Watcher.Replay.{AreNamed}
use rathole_ng.Watcher.Rounds.{rescan_cases, server_part_changes, client_part_changes}
use rathole_ng.Client.{Client, start, handle_hot_reload, run}
use rathole_ng.Client.Reload.{Tracks, start-Tracks, run-Tracks, same-Tracks, same_settings}
use rathole_ng.Protocol.{Digest}
use rathole_ng.Run.{RunMode, Cli, determine_run_mode}
use rathole_ng.Run.Loop.{
  Instance, Program, instance_of, run_instance, restart, deliver, on_event, on_events, follow,
  launch,
}

-- The last file that was valid.
unfoldable pub latest : Config → List (Option Config) → Config
latest old [] = old
latest old (none ∷ files) = latest old files
latest old (some new ∷ files) = latest new files

same_client_of_config :
    (old new : Config) (a b : ClientConfig)
    → old.client ≡ some a
    → new.client ≡ some b
    → same_config old new ≡ true
    → same_client a b ≡ true
unfolding same_config
same_client_of_config old new a b ea eb e = ground arith

module _ (comes_up : Config → Bool) (args : Cli) where
  -- A configuration with which the program is a client that comes up.
  pub record IsClientFile (file : Config) : Type 0 where
    pub client : ClientConfig
    pub has_client : file.client ≡ some client
    pub client_mode : determine_run_mode file args ≡ RunMode.client
    pub up : comes_up file ≡ true
    pub services_IsMap : HashMap.IsMap text_discrete client.services
    pub named : AreNamed client_service_discrete (λ s. s.name) client.services

  abbrev pub IsClientOrBad : Option Config → Type 0
  IsClientOrBad none = Unit
  IsClientOrBad (some file) = IsClientFile file

module _ {H G : Type 0} (handle_new : ClientServiceConfig → Text → ℕ → H) (digest : Text → Digest)
    (comes_up : Config → Bool) (args : Cli) where
  abbrev looping_client : Client H → Program H G
  looping_client c = Program.looping (some (Instance.client c))

  -- The program is a client that has the channels of the configuration.
  abbrev IsFollower : Config → Program H G → Type 0
  IsFollower now p =
      IsClientFile comes_up args now
      × ((b : ClientConfig) × (c : Client H) × (now.client ≡ some b)
          × (p ≡ looping_client c)
          × Tracks handle_new b c
          × HashMap.IsMap text_discrete b.services)

  run_instance_client :
      (file : Config) (h : IsClientFile comes_up args file)
      → run_instance {G = G} handle_new digest comes_up args file
        ≡ Instance.client (start handle_new h.client)
  unfolding run_instance instance_of
  run_instance_client file h =
      rw (run_instance, h.up, h.client_mode, instance_of, h.has_client) refl

  restarted :
      (file : Config) (h : IsClientFile comes_up args file)
      → IsFollower file (Program.looping (some (run_instance handle_new digest comes_up args file)))
  restarted file h = (
    h,
    (
      h.client,
      start handle_new h.client,
      h.has_client,
      ap (λ i. Program.looping (some i)) (run_instance_client file h),
      start-Tracks handle_new h.client h.services_IsMap,
      h.services_IsMap,
    ),
  )

  on_server_changes :
      (xs : List (ServiceChange ServerServiceConfig)) (cs : List ConfigChange) (c : Client H)
      → on_events handle_new digest comes_up args
          (map ConfigChange.server_change xs ++ cs)
          (looping_client c)
        ≡ on_events handle_new digest comes_up args cs (looping_client c)
  unfolding on_events on_event deliver handle_hot_reload
  on_server_changes [] cs c = refl
  on_server_changes (x ∷ xs) cs c = on_server_changes xs cs c

  on_client_changes :
      (xs : List (ServiceChange ClientServiceConfig)) (c : Client H)
      → on_events handle_new digest comes_up args
          (map ConfigChange.client_change xs)
          (looping_client c)
        ≡ looping_client (run handle_new (map ConfigChange.client_change xs) c)
  unfolding on_events on_event deliver run
  on_client_changes [] c = refl
  on_client_changes (x ∷ xs) c =
      on_client_changes xs (handle_hot_reload handle_new (ConfigChange.client_change x) c)

  follower :
      (new : Config) (c : Client H) (h : IsClientFile comes_up args new)
      → Tracks handle_new h.client c
      → IsFollower new (looping_client c)
  follower new c h t = (h, (h.client, c, h.has_client, refl, t, h.services_IsMap))

  -- The service changes of a client's part.
  client_part_follows :
      (a : ClientConfig) (new : Config) (cs : List ConfigChange) (c : Client H)
      (h : IsClientFile comes_up args new)
      → HashMap.IsMap text_discrete a.services
      → part_events client_instance same_client (some a) (some h.client) ≡ some cs
      → Tracks handle_new a c
      → IsFollower new (on_events handle_new digest comes_up args cs (looping_client c))
  unfolding on_events
  client_part_follows a new cs c h d e t = elim (client_part_changes a h.client cs e) [
    | inl (same, nil) ↦
        rw nil (follower new c h (same-Tracks handle_new a h.client c d h.services_IsMap same t))
    | inr changes ↦
        let form = (same_settings handle_new a h.client cs changes).2 in
        let ys = service_changes client_service_discrete a.services (h.client).services in
        let ran : on_events handle_new digest comes_up args cs (looping_client c)
            ≡ looping_client (run handle_new cs c) =
          rw form (on_client_changes ys c) in
        subst (IsFollower new) (sym ran) (
          follower new (run handle_new cs c) h
            (run-Tracks handle_new a h.client cs c h.services_IsMap h.named changes t))
  ]

  round_follows :
      (old new : Config) (p : Program H G)
      → IsClientFile comes_up args new
      → IsFollower old p
      → IsFollower new (on_events handle_new digest comes_up args (rescan old (some new)).1 p)
  unfolding on_events on_event restart
  round_follows old new p h (_, (a, c, ea, ep, t, da)) = elim (rescan_cases old new) [
    | inl (same, e) ↦
        let equal = same_client_of_config old new a h.client ea h.has_client same in
        rw (e, ep)
          (follower new c h (same-Tracks handle_new a h.client c da h.services_IsMap equal t))
    | inr (inl e) ↦ rw (e, ep) (restarted new h)
    | inr (inr (ss, cs, hs, hc, e)) ↦
        let (xs, es) = server_part_changes old.server new.server ss hs in
        let hc' : part_events client_instance same_client (some a) (some h.client) ≡ some cs =
          (rw (ea, h.has_client) refl) ∙ hc in
        let now : on_events handle_new digest comes_up args (rescan old (some new)).1 p
            ≡ on_events handle_new digest comes_up args cs (looping_client c) =
          rw (e, ep, es) (on_server_changes xs cs c) in
        subst (IsFollower new) (sym now) (client_part_follows a new cs c h da hc' t)
  ]

  follow_follows :
      (files : List (Option Config)) (old : Config) (p : Program H G)
      → Every (IsClientOrBad comes_up args) files
      → IsFollower old p
      → let (now, q) = follow handle_new digest comes_up args files (old, p) in
        (now ≡ latest old files) × IsFollower now q
  unfolding follow latest rescan on_events
  follow_follows [] old p hs h = (refl, h)
  follow_follows (none ∷ files) old p hs h = follow_follows files old p hs.1 h
  follow_follows (some new ∷ files) old p hs h =
      follow_follows files new _ hs.1 (round_follows old new p hs.0 h)

  -- A program that was launched as a client, whatever its file has been in the meantime, is a client
  -- that has for each name the channel that a client started with the last valid file has. Each
  -- valid file is one for a client that comes up: its services are a map, under their own names.
  pub follow_as_restart :
      (first : Config) (files : List (Option Config))
      → IsClientFile comes_up args first
      → Every (IsClientOrBad comes_up args) files
      → let (now, p) =
          follow {G = G} handle_new digest comes_up args files
            (launch handle_new digest comes_up args first) in
        (b : ClientConfig) × (c : Client H) × ((latest first files).client ≡ some b)
        × (now ≡ latest first files)
        × (p ≡ Program.looping (some (Instance.client c)))
        × ((k : Text)
            → HashMap.get text_discrete k c.service_handles
              ≡ HashMap.get text_discrete k (start handle_new b).service_handles)
  unfolding launch on_event restart
  follow_as_restart first files h hs =
      let (same, (_, (b, c, eb, ep, t, d))) = follow_follows files first _ hs (restarted first h) in
      let fresh = start-Tracks handle_new b d in
      (b, c, ap (λ f. f.client) (sym same) ∙ eb, same, ep, λ k. t.2 k ∙ sym (fresh.2 k))
