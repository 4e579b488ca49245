-- ===== src/Client/Control.antt =====
-- src/client.rs: the loop of a control channel, which that of a visitor's channel repeats, and the
-- task that runs the channel again.
use rathole_ng.Prelude.{ℕ, suc, Bool, Option, none, some, List, [], ◌∷◌, ltb, ◌==◌, if◌then◌else◌}
use rathole_ng.Transport.Reliability.{secs}
use rathole_ng.Protocol.{ControlChannelCmd}

-- What the loop sees: a command, `none` for an error; no command for the time of the heartbeat; the
-- shutdown.
pub data LoopEvent : Type 0 where
  received : Option ControlChannelCmd → LoopEvent
  silent shutdown : LoopEvent

-- How the loop stands after the events: it waits, or it has ended, in order or with an error.
pub data LoopEnd : Type 0 where
  waits shut_down broken timed_out : LoopEnd

abbrev pub one_more : ℕ × LoopEnd → ℕ × LoopEnd
one_more (n, end) = (suc n, end)

-- The number of data channels that the loop starts, and how it ends.
unfoldable pub control_loop : ℕ → List LoopEvent → ℕ × LoopEnd
control_loop timeout [] = (0, LoopEnd.waits)
control_loop timeout (LoopEvent.received none ∷ es) = (0, LoopEnd.broken)
control_loop timeout (LoopEvent.received (some ControlChannelCmd.create_data_channel) ∷ es) =
    one_more (control_loop timeout es)
control_loop timeout (LoopEvent.received (some ControlChannelCmd.heart_beat) ∷ es) =
    control_loop timeout es
control_loop timeout (LoopEvent.silent ∷ es) =
    let rest = control_loop timeout es in if timeout == 0 then rest else (0, LoopEnd.timed_out)
control_loop timeout (LoopEvent.shutdown ∷ es) = (0, LoopEnd.shut_down)

-- `trait Backoff`
pub record Backoff (B : Type 0) : Type 0 where
  pub next_backoff : B → Option ℕ × B
  pub reset : B → B

-- One call of `run` in the task: whether it returned `Ok`, whether `try_recv` then found the channel
-- other than empty, and the time since `start`.
pub record Attempt : Type 0 where
  pub succeeded : Bool
  pub signalled : Bool
  pub elapsed : ℕ

-- How the task stands after the attempts: it goes on, or it ended, or it panicked.
pub data RetryEnd : Type 0 where
  goes_on finished stopped panicked : RetryEnd

module _ {B : Type 0} (backoff : Backoff B) where
  -- `if start.elapsed() > Duration::from_secs(3) { retry_backoff.reset() }`
  abbrev pub refreshed : ℕ → B → B
  refreshed elapsed b = if ltb (secs 3) elapsed then backoff.reset b else b

  abbrev pub slept : ℕ → List ℕ × RetryEnd → List ℕ × RetryEnd
  slept d (ds, end) = (d ∷ ds, end)

  -- The `while let` loop of the task: the times that it sleeps, and how it stands.
  unfoldable pub retry : List Attempt → B → List ℕ × RetryEnd
  retry [] b = ([], RetryEnd.goes_on)
  retry (a ∷ attempts) b =
      let next = backoff.next_backoff (refreshed a.elapsed b) in
      let rest = retry attempts next.1 in
      if a.succeeded
      then ([], RetryEnd.finished)
      else if a.signalled
      then ([], RetryEnd.stopped)
      else elim next.0 [ none ↦ ([], RetryEnd.panicked) | some d ↦ slept d rest ]
