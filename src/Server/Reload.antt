-- ===== src/Server/Reload.antt =====
-- What a hot reload does to the services and to the channels.
use rathole_ng.Prelude.{◌≡◌, refl, Bool, true, false, none, some, List, [], ◌∷◌, ite}
use rathole_ng.Collections.HashMap
use rathole_ng.Config.{Text, text_discrete, ServerServiceConfig}
use rathole_ng.Protocol.{Digest}
use rathole_ng.MultiMap.{key1, get1}
use rathole_ng.MultiMap.Contents.{look-discard, IsValid}
use rathole_ng.MultiMap.Refinement.{get_refines, remove1_refines}
use rathole_ng.Watcher.{ServiceChange, ConfigChange}
use rathole_ng.Server.{Server, service_digest, drop_channel, handle_hot_reload}

-- Some service of the map has the name.
unfoldable pub has_service : Text → List (Digest × ServerServiceConfig) → Bool
has_service name [] = false
has_service name ((_, cfg) ∷ m) =
    let rest = has_service name m in ite (text_discrete cfg.name name) true rest

module _ {H : Type 0} where
  -- The channels are in order.
  abbrev pub IsServer : Server H → Type 0
  IsServer s = IsValid text_discrete text_discrete s.control_channels

  -- No channel of the service is left.
  abbrev pub IsGone : Digest → Server H → Type 0
  IsGone hash s = get1 text_discrete text_discrete hash s.control_channels ≡ some none

  drop_channel_lem :
      (hash : Digest) (services : List (Digest × ServerServiceConfig)) (s : Server H)
      → IsServer s
      → (s' : Server H) × (drop_channel hash services s ≡ some s')
        × (s'.services ≡ services)
        × IsServer s'
        × IsGone hash s'
  unfolding drop_channel
  drop_channel_lem hash services s v =
      let (w, e, valid, same) =
        remove1_refines text_discrete text_discrete s.control_channels hash v in
      (
        record s { services = services; control_channels = w },
        rw (drop_channel, e) refl,
        refl,
        valid,
        rw
            (
              (get_refines text_discrete text_discrete w hash hash valid).0,
              same,
              look-discard text_discrete key1 hash s.control_channels.heap v.distinct1,
            )
            refl,
      )

  -- Adding a service puts it under its digest and nothing else changes among the services; the
  -- channel that the service had is gone, and the channels stay in order.
  pub handle_hot_reload_add :
      (digest : Text → Digest) (cfg : ServerServiceConfig) (s : Server H) (k : Digest)
      → IsServer s
      → (s' : Server H) × (handle_hot_reload digest
            (ConfigChange.server_change (ServiceChange.add cfg))
            s
          ≡ some s')
        × (HashMap.get text_discrete k s'.services
            ≡ ite
                (text_discrete (service_digest digest cfg cfg.name) k)
                (some cfg)
                (HashMap.get text_discrete k s.services))
        × IsServer s'
        × IsGone (service_digest digest cfg cfg.name) s'
  unfolding handle_hot_reload
  handle_hot_reload_add digest cfg s k v =
      let hash = service_digest digest cfg cfg.name in
      let (s', e, same, valid, gone) =
        drop_channel_lem hash (HashMap.insert text_discrete hash cfg s.services) s v in
      (s', e, rw same (HashMap.get-insert text_discrete hash k cfg s.services), valid, gone)

  -- One service with the name, and nothing else, is gone from the second server, seen at the digest
  -- `k`, and its channel with it.
  abbrev pub IsWithout : Text → Digest → Server H → Server H → Type 0
  IsWithout name k s s' =
      (hash : Digest) × (cfg : ServerServiceConfig) × (HashMap.get text_discrete hash s.services
        ≡ some cfg)
      × (cfg.name ≡ name)
      × (HashMap.get text_discrete k s'.services
          ≡ ite (text_discrete hash k) none (HashMap.get text_discrete k s.services))
      × IsGone hash s'
