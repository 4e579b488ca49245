-- ===== src/Client/Stranding.antt =====
-- A visitor whose forwarder failed.
use rathole_ng.Prelude.{
  ℕ, ◌<◌, ◌≡◌, ◌≢◌, ◌⊎◌, refl, ◌∙◌, Bool, true, some, none, List, [], ◌∷◌, ite, if_neg, arith, inl,
  inr, Option-cases, Bool-cases, ℕ_discrete,
}
use rathole_ng.Collections.HashMap
use rathole_ng.Net.{SocketAddr}
use rathole_ng.Protocol.{UdpTraffic}
use rathole_ng.Client.Forwarder.{
  Forwarders, UdpStep, no_forwarders, set_up, hand_over, send_back, clean_up, udp_step, udp_steps,
}
use rathole_ng.Client.Isolation.{IsOwned, udp_steps-IsOwned, no_forwarders-IsOwned}

module _ (dec : Discrete SocketAddr) where
  -- The packets of a visitor that forwarders were given.
  unfoldable pub of_visitor : SocketAddr → List (ℕ × UdpTraffic) → List (ℕ × UdpTraffic)
  of_visitor a [] = []
  of_visitor a ((i, t) ∷ given) =
      ite (dec t.from a) ((i, t) ∷ of_visitor a given) (of_visitor a given)

  -- A packet is given to the forwarder of its source where that runs, and to a new one where there is
  -- none and a socket can be made.
  pub udp_step_delivers :
      (t : UdpTraffic) (f : Forwarders)
      → ((HashMap.get dec t.from f.port_map ≡ none)
          ⊎ ((i : ℕ) × (HashMap.get dec t.from f.port_map ≡ some i)
              × (HashMap.contains_key ℕ_discrete i f.tasks ≡ true)))
      → let g = udp_step dec (UdpStep.packet t true) f in
        (i : ℕ) × (HashMap.get dec t.from g.port_map ≡ some i) × (g.given ≡ (i, t) ∷ f.given)
  unfolding udp_step set_up hand_over HashMap.contains_key
  udp_step_delivers t f (inr (i, e, runs)) = (i, ground arith, ground arith)
  udp_step_delivers t f (inl e) = (
    f.made,
    ground (arith, HashMap.get-insert dec t.from t.from f.made f.port_map),
    ground (
      arith,
      HashMap.get-insert dec t.from t.from f.made f.port_map,
      HashMap.get-insert ℕ_discrete f.made f.made t.from f.tasks,
    ),
  )

  -- The map has a forwarder of the visitor that runs no more, and no other one runs for it.
  pub record IsStranded (a : SocketAddr) (i : ℕ) (f : Forwarders) : Type 0 where
    pub mapped : HashMap.get dec a f.port_map ≡ some i
    pub below : i < f.made
    pub gone : HashMap.get ℕ_discrete i f.tasks ≡ none
    pub alone : (j : ℕ) (b : SocketAddr) → HashMap.get ℕ_discrete j f.tasks ≡ some b → b ≢ a

  module _ (a : SocketAddr) (i : ℕ) where
    abbrev StaysStranded : Forwarders → Forwarders → Type 0
    StaysStranded f g = IsStranded a i g × (of_visitor a g.given ≡ of_visitor a f.given)

    set_up_strands :
        (from : SocketAddr) (connected : Bool) (f : Forwarders)
        → IsStranded a i f
        → StaysStranded f (set_up dec from connected f)
    unfolding set_up
    set_up_strands from connected f h = elim (Option-cases (HashMap.get dec from f.port_map)) [
      | inr (j, e) ↦ rw (set_up, e) (h, refl)
      | inl e ↦ elim (Bool-cases connected) [
        | inr e2 ↦ rw (set_up, e, e2) (h, refl)
        | inl e2 ↦
            let other : from ≢ a = λ same. ground (arith, h.mapped) in
            rw (set_up, e, e2)
              (
                record {
                  mapped =
                      ground (arith, h.mapped, HashMap.get-insert dec from a f.made f.port_map);
                  below = omega (arith, h.below);
                  gone =
                      ground (
                        arith,
                        h.gone,
                        h.below,
                        HashMap.get-insert ℕ_discrete f.made i from f.tasks,
                      );
                  alone = λ j b found same.
                      ground
                        (arith, h.alone j b, HashMap.get-insert ℕ_discrete f.made j from f.tasks);
                },
                refl,
              )
      ]
    ]

    hand_over_strands :
        (t : UdpTraffic) (f : Forwarders) → IsStranded a i f → StaysStranded f (hand_over dec t f)
    unfolding hand_over of_visitor HashMap.contains_key
    hand_over_strands t f h = elim (Option-cases (HashMap.get dec t.from f.port_map)) [
      | inl e ↦ rw (hand_over, e) (h, refl)
      | inr (j, e) ↦ elim (Bool-cases (HashMap.contains_key ℕ_discrete j f.tasks)) [
        | inr e2 ↦ rw (hand_over, e, e2) (h, refl)
        | inl e2 ↦
            let other : t.from ≢ a = λ same. ground (arith, h.mapped, h.gone) in
            rw (hand_over, e, e2)
              (
                record { mapped = h.mapped; below = h.below; gone = h.gone; alone = h.alone },
                if_neg (dec t.from a) other ((j, t) ∷ of_visitor a f.given) (of_visitor a f.given),
              )
      ]
    ]

    send_back_strands :
        (j : ℕ) (bytes : List ℕ) (f : Forwarders)
        → IsStranded a i f
        → StaysStranded f (send_back dec j bytes f)
    unfolding send_back
    send_back_strands j bytes f h = elim (Option-cases (HashMap.get ℕ_discrete j f.tasks)) [
      | inl e ↦ rw (send_back, e) (h, refl)
      | inr (b, e) ↦
          rw (send_back, e)
            (record { mapped = h.mapped; below = h.below; gone = h.gone; alone = h.alone }, refl)
    ]

    clean_up_strands :
        (j : ℕ) (f : Forwarders) → IsStranded a i f → StaysStranded f (clean_up dec j f)
    unfolding clean_up
    clean_up_strands j f h = elim (Option-cases (HashMap.get ℕ_discrete j f.tasks)) [
      | inl e ↦ rw (clean_up, e) (h, refl)
      | inr (b, e) ↦
          let other = h.alone j b e in
          rw (clean_up, e)
            (
              record {
                mapped = ground (arith, h.mapped, other, HashMap.get-remove dec b a f.port_map);
                below = h.below;
                gone = ground (arith, h.gone, HashMap.get-remove ℕ_discrete j i f.tasks);
                alone = λ k c found.
                    h.alone k c (ground (arith, HashMap.get-remove ℕ_discrete j k f.tasks));
              },
              refl,
            )
    ]

    udp_step_strands :
        (s : UdpStep) (f : Forwarders) → IsStranded a i f → StaysStranded f (udp_step dec s f)
    unfolding udp_step
    udp_step_strands (UdpStep.packet t connected) f h =
        let (h1, e1) = set_up_strands t.from connected f h in
        let (h2, e2) = hand_over_strands t (set_up dec t.from connected f) h1 in (h2, e2 ∙ e1)
    udp_step_strands (UdpStep.reply j bytes) f h = send_back_strands j bytes f h
    udp_step_strands (UdpStep.ended j) f h = clean_up_strands j f h
    udp_step_strands (UdpStep.failed j) f h = (
      record {
        mapped = h.mapped;
        below = h.below;
        gone = ground (arith, h.gone, HashMap.get-remove ℕ_discrete j i f.tasks);
        alone =
            λ k c found. h.alone k c (ground (arith, HashMap.get-remove ℕ_discrete j k f.tasks));
      },
      refl,
    )

    udp_steps_strand :
        (steps : List UdpStep) (f : Forwarders)
        → IsStranded a i f
        → StaysStranded f (udp_steps dec steps f)
    unfolding udp_steps
    udp_steps_strand [] f h = (h, refl)
    udp_steps_strand (s ∷ steps) f h =
        let (h1, e1) = udp_step_strands s f h in
        let (h2, e2) = udp_steps_strand steps (udp_step dec s f) h1 in (h2, e2 ∙ e1)

  failed-IsStranded :
      (owner : ℕ → SocketAddr) (i : ℕ) (from : SocketAddr) (f : Forwarders)
      → IsOwned dec owner f
      → HashMap.get ℕ_discrete i f.tasks ≡ some from
      → IsStranded from i (udp_step dec (UdpStep.failed i) f)
  unfolding udp_step
  failed-IsStranded owner i from f h e = record {
    mapped = h.running i from e;
    below = (h.mapped from i (h.running i from e)).1;
    gone = ground (arith, HashMap.get-remove ℕ_discrete i i f.tasks);
    alone = λ j b found same.
        ground (arith, HashMap.get-remove ℕ_discrete i j f.tasks, h.running i from, h.running j b);
  }

  -- Once a send of a visitor's forwarder has failed, then whatever comes: the map has this forwarder
  -- for the visitor, it does not run, no other one runs for the visitor, and no forwarder is given a
  -- packet of this visitor again.
  pub failed_forwarder_strands :
      (before after : List UdpStep) (i : ℕ) (from : SocketAddr)
      → let f = udp_steps dec before no_forwarders in
        HashMap.get ℕ_discrete i f.tasks ≡ some from
        → let g = udp_steps dec after (udp_step dec (UdpStep.failed i) f) in
          IsStranded from i g × (of_visitor from g.given ≡ of_visitor from f.given)
  unfolding udp_step
  failed_forwarder_strands before after i from e =
      let f = udp_steps dec before no_forwarders in
      let (owner, h) =
        udp_steps-IsOwned dec (λ _. SocketAddr.v4 [] 0) before no_forwarders
          (no_forwarders-IsOwned dec) in
      udp_steps_strand from i after (udp_step dec (UdpStep.failed i) f)
        (failed-IsStranded owner i from f h e)
