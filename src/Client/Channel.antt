-- ===== src/Client/Channel.antt =====
-- src/client.rs: `run` of a control channel and of a visitor's channel, and the choice between them
-- in `ControlChannelHandle::new`.
-- Whether the address is resolved and the connection made, what is read, and what the loop sees are
-- arguments.
use rathole_ng.Prelude.{
  ℕ, Bool, true, false, Option, none, some, List, [], if◌then◌else◌, replicate,
}
use rathole_ng.Config.{Text, ClientServiceConfig}
use rathole_ng.Protocol.{Digest, Hello, Auth, Ack, VisitorAck, PacketMessage}
use rathole_ng.Client.Handshake.{
  Outcome, ClientShake, identity, control_handshake, visitor_handshake,
}
use rathole_ng.Client.Control.{LoopEvent, LoopEnd, control_loop, Attempt}

-- `ControlChannel` and `VisitorControlChannel`, without the receiver of the shutdown. A visitor's
-- channel has the address that makes it one, as `remote_bind_addr.unwrap()` gives it.
pub data Channel : Type 0 where
  control : Digest → ClientServiceConfig → Text → ℕ → Channel
  visitor : ClientServiceConfig → Text → Text → ℕ → Channel

-- What one run meets: whether the address is resolved, the connection made, the hello and the
-- authentication sent; what the server sends; the events of the loop.
pub record RunInput : Type 0 where
  pub resolved : Bool
  pub connected : Bool
  pub greeted : Bool
  pub authed : Bool
  pub hello : Option Hello
  pub ack : Option Ack
  pub challenge : Option Digest
  pub visitor_ack : Option VisitorAck
  pub session : Option Auth
  pub events : List LoopEvent

-- A run goes on, or it returned `Ok` or an error.
pub data RunEnd : Type 0 where
  running ok err : RunEnd

-- What was sent, and the data channels that were started, each by the session key that it brings.
pub record RunOutput : Type 0 where
  pub sent : List PacketMessage
  pub data_channels : List Digest
  pub end : RunEnd

abbrev pub no_run : RunEnd → RunOutput
no_run end = record { sent = []; data_channels = []; end = end }

-- `run_result?`
abbrev pub end_of : LoopEnd → RunEnd
end_of LoopEnd.waits = RunEnd.running
end_of LoopEnd.shut_down = RunEnd.ok
end_of LoopEnd.broken = RunEnd.err
end_of LoopEnd.timed_out = RunEnd.err

-- From the session key on: the loop, whose data channels all get the key.
unfoldable pub run_loop : ℕ → List LoopEvent → ClientShake → RunOutput
run_loop timeout events shake = elim shake.outcome [
  | Outcome.failed _ ↦ record { sent = shake.sent; data_channels = []; end = RunEnd.err }
  | Outcome.established key ↦
      let done = control_loop timeout events in
      record { sent = shake.sent; data_channels = replicate done.0 key; end = end_of done.1 }
]

-- `remote_addr.resolve().await?` and `connect(..).await?`, before the rest.
unfoldable pub after_connect : RunInput → RunOutput → RunOutput
after_connect i rest =
    if i.resolved then (if i.connected then rest else no_run RunEnd.err) else no_run RunEnd.err

module _ (digest : Text → Digest) (pad : Digest) where
  -- `ControlChannelHandle::new`, up to the task: the longest time between two runs, and the channel;
  -- `none` for the panic of `retry_interval.unwrap()`.
  unfoldable pub new_channel : ClientServiceConfig → Text → ℕ → Option (ℕ × Channel)
  new_channel s remote_addr timeout = elim s.retry_interval [
    | none ↦ none
    | some interval ↦ some (
      interval,
      elim s.remote_bind_addr [
        | some bind_addr ↦ Channel.visitor s bind_addr remote_addr timeout
        | none ↦ Channel.control (identity digest s) s remote_addr timeout
      ],
    )
  ]

  -- `run`
  unfoldable pub run_channel : Channel → RunInput → RunOutput
  unfolding run_loop after_connect
  run_channel (Channel.control d s remote_addr timeout) i =
      after_connect i
        (run_loop timeout i.events (control_handshake digest s i.greeted i.hello i.authed i.ack))
  run_channel (Channel.visitor s bind_addr remote_addr timeout) i = after_connect i (
      run_loop timeout i.events (
        visitor_handshake digest s bind_addr pad i.greeted i.challenge i.authed i.visitor_ack
          i.session))

abbrev pub is_ok : RunEnd → Bool
is_ok RunEnd.ok = true
is_ok _ = false

-- A run, as the task sees it.
unfoldable pub attempt_of : RunOutput → Bool → ℕ → Attempt
attempt_of out signalled elapsed = record {
  succeeded = is_ok out.end;
  signalled = signalled;
  elapsed = elapsed;
}
