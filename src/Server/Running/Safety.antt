-- ===== src/Server/Running/Safety.antt =====
-- What a server that ran has in its map, and what its shutdown leaves.
use rathole_ng.Prelude.{
  ℕ, ◌≡◌, refl, sym, subst, ap, Option, some, List, [], ◌∷◌, inl, Every, Among, Every-Among,
}
use rathole_ng.Net.{SocketAddr}
use rathole_ng.Config.{Text, text_discrete, ServerServiceConfig, ServerConfig}
use rathole_ng.Protocol.{Digest}
use rathole_ng.MultiMap
use rathole_ng.MultiMap.Contents.{entries}
use rathole_ng.MultiMap.Refinement.{clear_frees}
use rathole_ng.Server.{service_digest, service_hashmap_from, generate_service_hashmap, from_config}
use rathole_ng.Server.Reload.{IsServer}
use rathole_ng.Server.Running.Kept.{Every-insert}
use rathole_ng.Server.Running.Earned.{IsOffered, IsEarned, IsGiven}
use rathole_ng.Server.Running.Serving.{Inv, AreOffered, serve-Serves}
use rathole_ng.Server.Running.{Running, ServerEvent, serve, started, shut_down, run_server_loop}

module _ {H : Type 0} (digest : Text → Digest) (handle_of : ServerServiceConfig → ℕ → H)
    (parse : Text → Option SocketAddr) (config : ServerConfig)
    (Happened : ServerEvent → Type 0) where
  -- The services that a server starts with.
  service_hashmap_from-AreOffered :
      (all : List (Text × ServerServiceConfig)) (m : List (Digest × ServerServiceConfig))
      → Every (λ x. Among x config.services) all
      → Every (λ x. (x.1).name ≡ x.0) all
      → AreOffered digest handle_of parse config Happened m
      → AreOffered digest handle_of parse config Happened (service_hashmap_from digest all m)
  unfolding service_hashmap_from
  service_hashmap_from-AreOffered [] m among named o = o
  service_hashmap_from-AreOffered ((name, s) ∷ all) m among named o =
      service_hashmap_from-AreOffered all _ among.1 named.1 (
        Every-insert text_discrete (λ x. IsOffered digest handle_of parse config Happened x.0 x.1)
          (service_digest digest s name) s m
          (
            ap (service_digest digest s) (sym named.0),
            inl (subst (λ k. Among (k, s) config.services) (sym named.0) among.0),
          )
          o)

  started-Inv :
      Every (λ x. (x.1).name ≡ x.0) config.services
      → Inv digest handle_of parse config Happened (started digest handle_of parse config)
  unfolding started from_config generate_service_hashmap MultiMap.new
  started-Inv named = record {
    valid = record {
      map1_full = refl;
      map2_full = refl;
      falling = tt;
      distinct1 = tt;
      distinct2 = tt;
    };
    same_config = refl;
    offered =
        service_hashmap_from-AreOffered config.services [] (Every-Among config.services) named tt;
    pending = tt;
    earned = tt;
    given = tt;
  }

-- The events of a run.
abbrev pub HappenedIn : List ServerEvent → ServerEvent → Type 0
HappenedIn events e = Among e events

-- Whatever connections, authentications, visitors, data channels and hot reloads come, in any order
-- and in the middle of each other's handshakes: the server runs with no fault of its map; each of
-- its channels was earned, by an authentication on the connection that got the nonce for a service
-- that the file had, or by a visitor with a user's token and a port that the user may use; each data
-- channel went to the handle of an earned channel whose key it brought; and the shutdown frees every
-- channel. The services of the configuration have the names that they stand under.
pub run_server_loop_safe :
    {H : Type 0} (digest : Text → Digest) (handle_of : ServerServiceConfig → ℕ → H)
    (parse : Text → Option SocketAddr) (config : ServerConfig) (events : List ServerEvent)
    → Every (λ x. (x.1).name ≡ x.0) config.services
    → ((r : Running H) × (serve digest handle_of parse events
            (started digest handle_of parse config)
          ≡ some r)
        × IsServer r.server
        × Every
            (IsEarned digest handle_of parse config (HappenedIn events))
            (entries r.server.control_channels)
        × Every (IsGiven digest handle_of parse config (HappenedIn events)) r.data_channels)
      × ((t : Running H) × (run_server_loop digest handle_of parse config events ≡ some t)
          × (t.server.control_channels.heap ≡ []))
unfolding run_server_loop shut_down
run_server_loop_safe digest handle_of parse config events named =
    let (r, e, h) =
      serve-Serves digest handle_of parse config (HappenedIn events) events
        (started digest handle_of parse config) (Every-Among events)
        (started-Inv digest handle_of parse config (HappenedIn events) named) in
    let (w, e2, _, gone) =
      clear_frees text_discrete text_discrete r.server.control_channels h.valid in
    (
      (r, e, h.valid, h.earned, h.given),
      (
        record r { server = (let s = r.server in record s { control_channels = w }) },
        rw (run_server_loop, e, shut_down, e2) refl,
        gone,
      ),
    )
