-- ===== src/Vz/Supervise.antt =====
-- internal/vz/vz_darwin.go: the loop that waits for the machine, and `shutdown`. The events that
-- the loops receive are their argument; no event left means that a loop still waits.
use dvm.Base.{Option, none, some, List, [], ◌∷◌}

pub data Event : Type 0 where
  state_stopped : Event
  state_error : Event
  state_other : Event
  interrupted : Event
  deadline : Event

pub data Ended : Type 0 where
  stopped : Ended
  error_state : Ended
  forced : Ended

-- `shutdown` after `RequestStop`: a change of state that is no stop is passed over.
unfoldable pub shutdown : List Event → Option Ended
shutdown [] = none
shutdown (state_stopped ∷ events) = some stopped
shutdown (deadline ∷ events) = some forced
shutdown (state_error ∷ events) = shutdown events
shutdown (state_other ∷ events) = shutdown events
shutdown (interrupted ∷ events) = shutdown events

-- The loop at the end of `Run`
unfoldable pub wait_for_end : List Event → Option Ended
wait_for_end [] = none
wait_for_end (state_stopped ∷ events) = some stopped
wait_for_end (state_error ∷ events) = some error_state
wait_for_end (interrupted ∷ events) = shutdown events
wait_for_end (state_other ∷ events) = wait_for_end events
wait_for_end (deadline ∷ events) = wait_for_end events
