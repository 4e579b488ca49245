-- ===== src/Client/Isolation.antt =====
-- Each forwarder serves one visitor only.
use rathole_ng.Prelude.{
  ℕ, ◌+◌, ◌<◌, ◌≡◌, Bool, some, List, [], ◌∷◌, ite, arith, inl, inr, Option-cases, Bool-cases,
  ℕ_discrete,
}
use rathole_ng.Collections.HashMap
use rathole_ng.Net.{SocketAddr}
use rathole_ng.Protocol.{UdpTraffic}
use rathole_ng.Client.Forwarder.{
  Forwarders, UdpStep, no_forwarders, set_up, hand_over, send_back, clean_up, udp_step, udp_steps,
}

-- Each packet of a forwarder has the forwarder's visitor as its source.
abbrev pub AreOwned : (ℕ → SocketAddr) → ℕ → List (ℕ × UdpTraffic) → Type 0
AreOwned owner made [] = Unit
AreOwned owner made ((i, t) ∷ given) = (t.from ≡ owner i) × (i < made) × AreOwned owner made given

module _ (dec : Discrete SocketAddr) where
  -- The forwarder of an address was made for it, and one that runs is the one of its address.
  pub record IsOwned (owner : ℕ → SocketAddr) (f : Forwarders) : Type 0 where
    pub mapped :
        (a : SocketAddr) (i : ℕ)
        → HashMap.get dec a f.port_map ≡ some i
        → (a ≡ owner i) × (i < f.made)
    pub running :
        (i : ℕ) (a : SocketAddr)
        → HashMap.get ℕ_discrete i f.tasks ≡ some a
        → HashMap.get dec a f.port_map ≡ some i
    pub given : AreOwned owner f.made f.given
    pub outbound : AreOwned owner f.made f.outbound

  -- The owners when one more forwarder is made.
  abbrev one_more : (ℕ → SocketAddr) → ℕ → SocketAddr → ℕ → SocketAddr
  one_more owner made from i = ite (ℕ_discrete i made) from (owner i)

  AreOwned-one_more :
      (owner : ℕ → SocketAddr) (made : ℕ) (from : SocketAddr) (given : List (ℕ × UdpTraffic))
      → AreOwned owner made given
      → AreOwned (one_more owner made from) (made + 1) given
  AreOwned-one_more owner made from [] h = tt
  AreOwned-one_more owner made from ((i, t) ∷ given) h = elim (ℕ_discrete i made) [
    | yes e ↦ absurd (omega (arith, h.1))
    | no ne ↦ (ground (arith, h.0), omega (arith, h.1), AreOwned-one_more owner made from given h.2)
  ]

  set_up-IsOwned :
      (owner : ℕ → SocketAddr) (from : SocketAddr) (connected : Bool) (f : Forwarders)
      → IsOwned owner f
      → (owner' : ℕ → SocketAddr) × IsOwned owner' (set_up dec from connected f)
  unfolding set_up
  set_up-IsOwned owner from connected f h = elim (Option-cases (HashMap.get dec from f.port_map)) [
    | inr (i, e) ↦ (owner, rw (set_up, e) h)
    | inl e ↦ elim (Bool-cases connected) [
      | inr e2 ↦ (owner, rw (set_up, e, e2) h)
      | inl e2 ↦ (
        one_more owner f.made from,
        rw (set_up, e, e2)
            (record {
              mapped = λ a i found. elim (dec from a) [
                | yes same ↦
                    let here : i ≡ f.made =
                      ground (arith, HashMap.get-insert dec from a f.made f.port_map) in
                    (ground arith, omega arith)
                | no other ↦
                    let before : HashMap.get dec a f.port_map ≡ some i =
                      ground (arith, HashMap.get-insert dec from a f.made f.port_map) in
                    let old = h.mapped a i before in
                    elim (ℕ_discrete i f.made) [
                      | yes e3 ↦ absurd (omega (arith, old.1))
                      | no ne ↦ (ground (arith, old.0), omega (arith, old.1))
                    ]
              ];
              running = λ i a found. ground (
                arith,
                h.running i a,
                HashMap.get-insert ℕ_discrete f.made i from f.tasks,
                HashMap.get-insert dec from a f.made f.port_map,
              );
              given = AreOwned-one_more owner f.made from f.given h.given;
              outbound = AreOwned-one_more owner f.made from f.outbound h.outbound;
            }),
      )
    ]
  ]

  hand_over-IsOwned :
      (owner : ℕ → SocketAddr) (t : UdpTraffic) (f : Forwarders)
      → IsOwned owner f
      → IsOwned owner (hand_over dec t f)
  unfolding hand_over
  hand_over-IsOwned owner t f h = elim (Option-cases (HashMap.get dec t.from f.port_map)) [
    | inl e ↦ rw (hand_over, e) h
    | inr (i, e) ↦ elim (Bool-cases (HashMap.contains_key ℕ_discrete i f.tasks)) [
      | inr e2 ↦ rw (hand_over, e, e2) h
      | inl e2 ↦
          let (own, lt) = h.mapped t.from i e in
          rw (hand_over, e, e2)
            (record {
              mapped = h.mapped;
              running = h.running;
              given = (own, lt, h.given);
              outbound = h.outbound;
            })
    ]
  ]

  send_back-IsOwned :
      (owner : ℕ → SocketAddr) (i : ℕ) (bytes : List ℕ) (f : Forwarders)
      → IsOwned owner f
      → IsOwned owner (send_back dec i bytes f)
  unfolding send_back
  send_back-IsOwned owner i bytes f h = elim (Option-cases (HashMap.get ℕ_discrete i f.tasks)) [
    | inl e ↦ rw (send_back, e) h
    | inr (a, e) ↦
        let (own, lt) = h.mapped a i (h.running i a e) in
        rw (send_back, e)
          (record {
            mapped = h.mapped;
            running = h.running;
            given = h.given;
            outbound = (own, lt, h.outbound);
          })
  ]

  clean_up-IsOwned :
      (owner : ℕ → SocketAddr) (i : ℕ) (f : Forwarders)
      → IsOwned owner f
      → IsOwned owner (clean_up dec i f)
  unfolding clean_up
  clean_up-IsOwned owner i f h = elim (Option-cases (HashMap.get ℕ_discrete i f.tasks)) [
    | inl e ↦ rw (clean_up, e) h
    | inr (from, e) ↦
        rw (clean_up, e)
          (record {
            mapped = λ a j found.
                h.mapped a j (ground (arith, HashMap.get-remove dec from a f.port_map));
            running = λ j a found. ground (
              arith,
              h.running j a,
              h.running i from,
              HashMap.get-remove ℕ_discrete i j f.tasks,
              HashMap.get-remove dec from a f.port_map,
            );
            given = h.given;
            outbound = h.outbound;
          })
  ]

  udp_step-IsOwned :
      (owner : ℕ → SocketAddr) (s : UdpStep) (f : Forwarders)
      → IsOwned owner f
      → (owner' : ℕ → SocketAddr) × IsOwned owner' (udp_step dec s f)
  unfolding udp_step
  udp_step-IsOwned owner (UdpStep.packet t connected) f h =
      let (owner', h') = set_up-IsOwned owner t.from connected f h in
      (owner', hand_over-IsOwned owner' t (set_up dec t.from connected f) h')
  udp_step-IsOwned owner (UdpStep.reply i bytes) f h = (owner, send_back-IsOwned owner i bytes f h)
  udp_step-IsOwned owner (UdpStep.ended i) f h = (owner, clean_up-IsOwned owner i f h)
  udp_step-IsOwned owner (UdpStep.failed i) f h = (
    owner,
    record {
      mapped = h.mapped;
      running =
          λ j a found. h.running j a (ground (arith, HashMap.get-remove ℕ_discrete i j f.tasks));
      given = h.given;
      outbound = h.outbound;
    },
  )

  pub udp_steps-IsOwned :
      (owner : ℕ → SocketAddr) (steps : List UdpStep) (f : Forwarders)
      → IsOwned owner f
      → (owner' : ℕ → SocketAddr) × IsOwned owner' (udp_steps dec steps f)
  unfolding udp_steps
  udp_steps-IsOwned owner [] f h = (owner, h)
  udp_steps-IsOwned owner (s ∷ steps) f h =
      let (owner', h') = udp_step-IsOwned owner s f h in
      udp_steps-IsOwned owner' steps (udp_step dec s f) h'

  pub no_forwarders-IsOwned : IsOwned (λ _. SocketAddr.v4 [] 0) no_forwarders
  unfolding HashMap.get
  no_forwarders-IsOwned = record {
    mapped = λ a i e. absurd (ground arith);
    running = λ i a e. absurd (ground arith);
    given = tt;
    outbound = tt;
  }

  -- After any packets, replies, ends and failures of forwarders, in any order, each forwarder was
  -- given packets of one visitor only, and all that it sent towards the server names this visitor.
  pub udp_steps_isolate :
      (steps : List UdpStep)
      → let f = udp_steps dec steps no_forwarders in
        (owner : ℕ → SocketAddr) × AreOwned owner f.made f.given × AreOwned owner f.made f.outbound
  udp_steps_isolate steps =
      let (owner, h) =
        udp_steps-IsOwned (λ _. SocketAddr.v4 [] 0) steps no_forwarders no_forwarders-IsOwned in
      (owner, h.given, h.outbound)
