-- ===== src/Vz/Ending.antt =====
-- The end of a machine on Apple's framework.
use dvm.Base.{All, Bool, true, false, some, List, [], ◌∷◌, ◌++◌}
use dvm.Base.{◌≡◌, ◌↔◌, ◌⊎◌, inl, inr, refl, sym, ap, ◌∙◌}
use mathlib.Core.Option.{some-injective}
use dvm.Vz.Supervise.{
  Event, state_stopped, state_error, state_other, interrupted, deadline, Ended, stopped,
  error_state, forced, shutdown, wait_for_end,
}

-- What the loop of `Run` passes over, and what that of `shutdown` does
abbrev pub is_awaited : Event → Bool
is_awaited state_other = true
is_awaited deadline = true
is_awaited x = false

abbrev pub is_ignored : Event → Bool
is_ignored state_stopped = false
is_ignored deadline = false
is_ignored x = true

-- The first stop or deadline ends the shutdown.
abbrev pub IsShut : List Event → Ended → Type 0
IsShut events e =
    (before : List Event) × (after : List Event) × All (λ x. is_ignored x ≡ true) before
    × ((events ≡ before ++ (state_stopped ∷ after)) × (e ≡ stopped)
        ⊎ (events ≡ before ++ (deadline ∷ after)) × (e ≡ forced))

-- The first stop, error or interrupt ends the loop, an interrupt with a shutdown behind it.
abbrev pub IsEnd : List Event → Ended → Type 0
IsEnd events e =
    (before : List Event) × (after : List Event) × All (λ x. is_awaited x ≡ true) before
    × ((events ≡ before ++ (state_stopped ∷ after)) × (e ≡ stopped)
        ⊎ (events ≡ before ++ (state_error ∷ after)) × (e ≡ error_state)
        ⊎ (events ≡ before ++ (interrupted ∷ after)) × IsShut after e)

shutdown_ignored :
    (before events : List Event)
    → All (λ x. is_ignored x ≡ true) before
    → shutdown (before ++ events) ≡ shutdown events
unfolding shutdown
shutdown_ignored [] events h = refl
shutdown_ignored (state_stopped ∷ before) events h = absurd (cc h.0)
shutdown_ignored (deadline ∷ before) events h = absurd (cc h.0)
shutdown_ignored (state_error ∷ before) events h = shutdown_ignored before events h.1
shutdown_ignored (state_other ∷ before) events h = shutdown_ignored before events h.1
shutdown_ignored (interrupted ∷ before) events h = shutdown_ignored before events h.1

wait_awaited :
    (before events : List Event)
    → All (λ x. is_awaited x ≡ true) before
    → wait_for_end (before ++ events) ≡ wait_for_end events
unfolding wait_for_end
wait_awaited [] events h = refl
wait_awaited (state_stopped ∷ before) events h = absurd (cc h.0)
wait_awaited (state_error ∷ before) events h = absurd (cc h.0)
wait_awaited (interrupted ∷ before) events h = absurd (cc h.0)
wait_awaited (state_other ∷ before) events h = wait_awaited before events h.1
wait_awaited (deadline ∷ before) events h = wait_awaited before events h.1

IsShut-shutdown : (events : List Event) (e : Ended) → IsShut events e → shutdown events ≡ some e
unfolding shutdown
IsShut-shutdown events e (before, after, h, inl (split, same)) =
    ap shutdown split ∙ shutdown_ignored before (state_stopped ∷ after) h ∙ ap some (sym same)
IsShut-shutdown events e (before, after, h, inr (split, same)) =
    ap shutdown split ∙ shutdown_ignored before (deadline ∷ after) h ∙ ap some (sym same)

IsEnd-wait_for_end :
    (events : List Event) (e : Ended) → IsEnd events e → wait_for_end events ≡ some e
unfolding wait_for_end
IsEnd-wait_for_end events e (before, after, h, inl (split, same)) =
    ap wait_for_end split ∙ wait_awaited before (state_stopped ∷ after) h ∙ ap some (sym same)
IsEnd-wait_for_end events e (before, after, h, inr (inl (split, same))) =
    ap wait_for_end split ∙ wait_awaited before (state_error ∷ after) h ∙ ap some (sym same)
IsEnd-wait_for_end events e (before, after, h, inr (inr (split, shut))) =
    ap wait_for_end split
    ∙ wait_awaited before (interrupted ∷ after) h
    ∙ IsShut-shutdown after e shut

IsShut-later :
    (x : Event) (events : List Event) (e : Ended)
    → is_ignored x ≡ true
    → IsShut events e
    → IsShut (x ∷ events) e
IsShut-later x events e i (before, after, h, inl (split, same)) =
    (x ∷ before, after, (i, h), inl (ap (λ l. x ∷ l) split, same))
IsShut-later x events e i (before, after, h, inr (split, same)) =
    (x ∷ before, after, (i, h), inr (ap (λ l. x ∷ l) split, same))

IsEnd-later :
    (x : Event) (events : List Event) (e : Ended)
    → is_awaited x ≡ true
    → IsEnd events e
    → IsEnd (x ∷ events) e
IsEnd-later x events e i (before, after, h, inl (split, same)) =
    (x ∷ before, after, (i, h), inl (ap (λ l. x ∷ l) split, same))
IsEnd-later x events e i (before, after, h, inr (inl (split, same))) =
    (x ∷ before, after, (i, h), inr (inl (ap (λ l. x ∷ l) split, same)))
IsEnd-later x events e i (before, after, h, inr (inr (split, shut))) =
    (x ∷ before, after, (i, h), inr (inr (ap (λ l. x ∷ l) split, shut)))

shutdown-IsShut : (events : List Event) (e : Ended) → shutdown events ≡ some e → IsShut events e
unfolding shutdown
shutdown-IsShut [] e h = absurd (cc h)
shutdown-IsShut (state_stopped ∷ events) e h =
    ([], events, tt, inl (refl, sym (some-injective _ _ h)))
shutdown-IsShut (deadline ∷ events) e h = ([], events, tt, inr (refl, sym (some-injective _ _ h)))
shutdown-IsShut (state_error ∷ events) e h =
    IsShut-later state_error events e refl (shutdown-IsShut events e h)
shutdown-IsShut (state_other ∷ events) e h =
    IsShut-later state_other events e refl (shutdown-IsShut events e h)
shutdown-IsShut (interrupted ∷ events) e h =
    IsShut-later interrupted events e refl (shutdown-IsShut events e h)

wait_for_end-IsEnd :
    (events : List Event) (e : Ended) → wait_for_end events ≡ some e → IsEnd events e
unfolding wait_for_end
wait_for_end-IsEnd [] e h = absurd (cc h)
wait_for_end-IsEnd (state_stopped ∷ events) e h =
    ([], events, tt, inl (refl, sym (some-injective _ _ h)))
wait_for_end-IsEnd (state_error ∷ events) e h =
    ([], events, tt, inr (inl (refl, sym (some-injective _ _ h))))
wait_for_end-IsEnd (interrupted ∷ events) e h =
    ([], events, tt, inr (inr (refl, shutdown-IsShut events e h)))
wait_for_end-IsEnd (state_other ∷ events) e h =
    IsEnd-later state_other events e refl (wait_for_end-IsEnd events e h)
wait_for_end-IsEnd (deadline ∷ events) e h =
    IsEnd-later deadline events e refl (wait_for_end-IsEnd events e h)

-- The wait for a machine ends with a result exactly if that is what the first decisive event says:
-- the machine stopped by itself, or got into an error, or there was an interrupt; then it ends with
-- the first stop of the machine behind the interrupt, or with the deadline of the shutdown if that
-- comes first, whatever other changes of state and interrupts come between.
pub wait_for_end_iff :
    (events : List Event) (e : Ended) → (wait_for_end events ≡ some e) ↔ IsEnd events e
wait_for_end_iff events e = (wait_for_end-IsEnd events e, IsEnd-wait_for_end events e)

shutdown-stops :
    (events : List Event) → (e : Ended) × (shutdown (events ++ (state_stopped ∷ [])) ≡ some e)
unfolding shutdown
shutdown-stops [] = (stopped, refl)
shutdown-stops (state_stopped ∷ events) = (stopped, refl)
shutdown-stops (deadline ∷ events) = (forced, refl)
shutdown-stops (state_error ∷ events) = shutdown-stops events
shutdown-stops (state_other ∷ events) = shutdown-stops events
shutdown-stops (interrupted ∷ events) = shutdown-stops events

-- Whatever the events are, a machine that stops behind them ends the wait.
pub wait_for_end-stops :
    (events : List Event) → (e : Ended) × (wait_for_end (events ++ (state_stopped ∷ [])) ≡ some e)
unfolding wait_for_end
wait_for_end-stops [] = (stopped, refl)
wait_for_end-stops (state_stopped ∷ events) = (stopped, refl)
wait_for_end-stops (state_error ∷ events) = (error_state, refl)
wait_for_end-stops (interrupted ∷ events) = shutdown-stops events
wait_for_end-stops (state_other ∷ events) = wait_for_end-stops events
wait_for_end-stops (deadline ∷ events) = wait_for_end-stops events
