-- ===== src/Client/Runs.antt =====
-- What a run of a channel starts, and the channels of a valid configuration.
use rathole_ng.Prelude.{
  ℕ, ◌≡◌, refl, Bool, true, false, Option, none, some, List, arith, replicate, Every, inl, inr,
  Bool-cases, zero, suc,
}
use rathole_ng.Collections.HashMap
use rathole_ng.Config.{Text, ClientServiceConfig}
use rathole_ng.Protocol.{Digest, Hello, Auth, Ack, VisitorAck}
use rathole_ng.Client.Handshake.{
  Outcome, ClientShake, answer, nonce_of, on_ack, on_visitor_ack, control_handshake,
  visitor_handshake,
}
use rathole_ng.Client.Control.{LoopEvent, LoopEnd, control_loop}
use rathole_ng.Client.Channel.{
  Channel, RunInput, RunEnd, RunOutput, run_loop, after_connect, run_channel, end_of,
}

Every-replicate : {A : Type 0} (P : A → Type 0) (n : ℕ) (a : A) → P a → Every P (replicate n a)
Every-replicate P zero a h = tt
Every-replicate P (suc n) a h = (h, Every-replicate P n a h)

-- The server acknowledged the session of the key.
abbrev pub IsAcked : (Text → Digest) → Channel → RunInput → Digest → Type 0
IsAcked digest (Channel.control d s addr timeout) i key =
    (version : ℕ) × (nonce : Digest) × (i.hello ≡ some (Hello.control_channel_hello version nonce))
    × (i.ack ≡ some Ack.ok)
    × (key ≡ answer digest s nonce)
IsAcked digest (Channel.visitor s bind_addr addr timeout) i key =
    (i.visitor_ack ≡ some VisitorAck.ok) × (i.session ≡ some (record { digest = key }))

module _ (digest : Text → Digest) (pad : Digest) where
  control_handshake_established :
      (s : ClientServiceConfig) (greeted : Bool) (hello : Option Hello) (authed : Bool)
      (ack : Option Ack) (key : Digest)
      → (control_handshake digest s greeted hello authed ack).outcome ≡ Outcome.established key
      → (version : ℕ) × (nonce : Digest) × (hello
          ≡ some (Hello.control_channel_hello version nonce))
        × (ack ≡ some Ack.ok)
        × (key ≡ answer digest s nonce)
  unfolding control_handshake nonce_of on_ack
  control_handshake_established s false hello authed ack key e = absurd (ground arith)
  control_handshake_established s true none authed ack key e = absurd (ground arith)
  control_handshake_established s true (some (Hello.data_channel_hello v d)) authed ack key e =
      absurd (ground arith)
  control_handshake_established s true (some (Hello.visitor_hello v d)) authed ack key e =
      absurd (ground arith)
  control_handshake_established s true (some (Hello.control_channel_hello v d)) false ack key e =
      absurd (ground arith)
  control_handshake_established s true (some (Hello.control_channel_hello v d)) true none key e =
      absurd (ground arith)
  control_handshake_established s true (some (Hello.control_channel_hello v d)) true (some Ack.ok)
        key e =
      (v, d, refl, refl, ground arith)
  control_handshake_established s true (some (Hello.control_channel_hello v d)) true
        (some Ack.service_not_exist) key e =
      absurd (ground arith)
  control_handshake_established s true (some (Hello.control_channel_hello v d)) true
        (some Ack.auth_failed) key e =
      absurd (ground arith)

  visitor_handshake_established :
      (s : ClientServiceConfig) (bind_addr : Text) (greeted : Bool) (nonce : Option Digest)
      (authed : Bool) (ack : Option VisitorAck) (session : Option Auth) (key : Digest)
      → (visitor_handshake digest s bind_addr pad greeted nonce authed ack session).outcome
        ≡ Outcome.established key
      → (ack ≡ some VisitorAck.ok) × (session ≡ some (record { digest = key }))
  unfolding visitor_handshake on_visitor_ack
  visitor_handshake_established s b false n authed ack session key e = absurd (ground arith)
  visitor_handshake_established s b true none authed ack session key e = absurd (ground arith)
  visitor_handshake_established s b true (some n) false ack session key e = absurd (ground arith)
  visitor_handshake_established s b true (some n) true none session key e = absurd (ground arith)
  visitor_handshake_established s b true (some n) true (some VisitorAck.ok) none key e =
      absurd (ground arith)
  visitor_handshake_established s b true (some n) true (some VisitorAck.ok) (some k) key e =
      (refl, ground arith)
  visitor_handshake_established s b true (some n) true (some VisitorAck.auth_failed) k key e =
      absurd (ground arith)
  visitor_handshake_established s b true (some n) true (some VisitorAck.port_denied) k key e =
      absurd (ground arith)
  visitor_handshake_established s b true (some n) true (some VisitorAck.bind_error) k key e =
      absurd (ground arith)

  -- Data channels only with an acknowledged key, and `Ok` only for a shutdown after it.
  abbrev pub IsRun : (Digest → Type 0) → ℕ → List LoopEvent → RunOutput → Type 0
  IsRun P timeout events out =
      Every P out.data_channels
      × (out.end ≡ RunEnd.ok
          → ((key : Digest) × P key) × ((control_loop timeout events).1 ≡ LoopEnd.shut_down))

  run_loop_lem :
      (P : Digest → Type 0) (timeout : ℕ) (events : List LoopEvent) (shake : ClientShake)
      → ((key : Digest) → shake.outcome ≡ Outcome.established key → P key)
      → IsRun P timeout events (run_loop timeout events shake)
  unfolding run_loop
  run_loop_lem P timeout events shake h = go shake.outcome refl
    where
      shut : (l : LoopEnd) → end_of l ≡ RunEnd.ok → l ≡ LoopEnd.shut_down
      shut LoopEnd.shut_down k = refl
      shut LoopEnd.waits k = absurd (ground arith)
      shut LoopEnd.broken k = absurd (ground arith)
      shut LoopEnd.timed_out k = absurd (ground arith)

      go :
          (o : Outcome) → shake.outcome ≡ o → IsRun P timeout events (run_loop timeout events shake)
      go (Outcome.failed x) e = rw (run_loop, e) (tt, λ k. absurd (ground arith))
      go (Outcome.established key) e =
          rw (run_loop, e)
            (
              Every-replicate P (control_loop timeout events).0 key (h key e),
              λ k. ((key, h key e), shut (control_loop timeout events).1 k),
            )

  after_connect_lem :
      (P : Digest → Type 0) (timeout : ℕ) (i : RunInput) (rest : RunOutput)
      → IsRun P timeout i.events rest
      → IsRun P timeout i.events (after_connect i rest)
  unfolding after_connect
  after_connect_lem P timeout i rest h = elim (Bool-cases i.resolved) [
    | inr e ↦ rw (after_connect, e) (tt, λ k. absurd (ground arith))
    | inl e ↦ elim (Bool-cases i.connected) [
      | inr e2 ↦ rw (after_connect, e, e2) (tt, λ k. absurd (ground arith))
      | inl e2 ↦ rw (after_connect, e, e2) h
    ]
  ]

  abbrev pub timeout_of : Channel → ℕ
  timeout_of (Channel.control d s addr timeout) = timeout
  timeout_of (Channel.visitor s bind_addr addr timeout) = timeout

  -- A run, whatever it meets, starts data channels only with a key that the server acknowledged, and
  -- returns `Ok` only if the server acknowledged one and the loop then ended by the shutdown.
  pub run_channel-IsAcked :
      (ch : Channel) (i : RunInput)
      → IsRun (IsAcked digest ch i) (timeout_of ch) i.events (run_channel digest pad ch i)
  unfolding run_channel
  run_channel-IsAcked (Channel.control d s addr timeout) i = after_connect_lem _ timeout i _ (
      run_loop_lem _ timeout i.events _
        (control_handshake_established s i.greeted i.hello i.authed i.ack))
  run_channel-IsAcked (Channel.visitor s bind_addr addr timeout) i =
      after_connect_lem _ timeout i _ (
        run_loop_lem _ timeout i.events _ (
          visitor_handshake_established s bind_addr i.greeted i.challenge i.authed i.visitor_ack
            i.session))
