-- ===== src/Client/Retrying.antt =====
-- What the loop of a control channel starts.
use rathole_ng.Prelude.{
  ℕ, suc, ◌≡◌, refl, true, false, ◌||◌, none, some, List, [], ◌∷◌, arith, if◌then◌else◌, map, ◌==◌,
}
use rathole_ng.Protocol.{ControlChannelCmd}
use rathole_ng.Server.Channel.{ControlEvent, control_run}
use rathole_ng.Client.Control.{LoopEvent, LoopEnd, control_loop}

-- The requests that the server's loop answers, before the first event that ends it.
unfoldable pub requests_of : ℕ → List ControlEvent → ℕ
requests_of interval [] = 0
requests_of interval (ControlEvent.requested (some _) true ∷ es) = suc (requests_of interval es)
requests_of interval (ControlEvent.requested _ _ ∷ es) = 0
requests_of interval (ControlEvent.heart_beat_due written ∷ es) =
    let rest = requests_of interval es in if (interval == 0) || written then rest else 0
requests_of interval (ControlEvent.shutdown ∷ es) = 0

abbrev pub arrive : List ControlChannelCmd → List LoopEvent
arrive cmds = map (λ c. LoopEvent.received (some c)) cmds

-- The client starts one data channel for each request that the server's loop takes from its queue
-- before it ends, and none for a heartbeat, where the commands arrive; it then waits for more.
pub control_loop-control_run :
    (interval timeout : ℕ) (es : List ControlEvent)
    → control_loop timeout (arrive (control_run interval es))
      ≡ (requests_of interval es, LoopEnd.waits)
unfolding control_loop control_run requests_of
control_loop-control_run interval timeout [] = refl
control_loop-control_run interval timeout (ControlEvent.requested none written ∷ es) = refl
control_loop-control_run interval timeout (ControlEvent.requested (some _) true ∷ es) =
    rw (control_loop-control_run interval timeout es) refl
control_loop-control_run interval timeout (ControlEvent.requested (some _) false ∷ es) = refl
control_loop-control_run interval timeout (ControlEvent.heart_beat_due written ∷ es) =
    ground (arith, control_loop-control_run interval timeout es)
control_loop-control_run interval timeout (ControlEvent.shutdown ∷ es) = refl
