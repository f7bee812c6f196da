-- ===== src/Worker/Liveness/Exit.antt =====
-- What the health check and the exit code tell after any sequence of events.
use data_assistant.Worker.Liveness.{
  reconnected, stop_requested, errored, closed, disconnected, reset_nats_liveness, started,
  set_nats_connected, Life, close_life, exit_code, Event, on_event, on_events, worker_is_healthy,
}
use data_assistant.Base.{
  ◌&&◌, sym, not, ap, arith, [], ◌∙◌, ◌||◌, ◌≡◌, true, ◌∷◌, false, List, Bool, if◌then◌else◌, refl,
}

-- The connection closes before a stop is asked for.
unfoldable pub closes_first : List Event → Bool
closes_first [] = false
closes_first (closed ∷ events) = true
closes_first (stop_requested ∷ events) = false
closes_first (_ ∷ events) = closes_first events

-- The connection is up, by the last event that tells.
unfoldable pub is_up : Bool → List Event → Bool
is_up up [] = up
is_up up (disconnected ∷ events) = is_up false events
is_up up (reconnected ∷ events) = is_up true events
is_up up (closed ∷ events) = is_up false events
is_up up (_ ∷ events) = is_up up events

closed-on_events :
    (events : List Event) (life : Life)
    → (on_events events life).nats_closed
      ≡ (life.nats_closed || (not life.shutdown && closes_first events))
unfolding on_events closes_first on_event close_life set_nats_connected
closed-on_events [] life = ground arith
closed-on_events (errored ∷ events) life = closed-on_events events life
closed-on_events (disconnected ∷ events) life = closed-on_events events _
closed-on_events (reconnected ∷ events) life = closed-on_events events _
closed-on_events (closed ∷ events) life =
    ground (arith, closed-on_events events (on_event closed life))
closed-on_events (stop_requested ∷ events) life =
    ground (arith, closed-on_events events (on_event stop_requested life))

required-on_event : (event : Event) (life : Life) → (on_event event life).required ≡ life.required
unfolding on_event close_life set_nats_connected
required-on_event event life = ground arith

required-on_events :
    (events : List Event) (life : Life) → (on_events events life).required ≡ life.required
unfolding on_events
required-on_events [] life = refl
required-on_events (event ∷ events) life =
    required-on_events events (on_event event life) ∙ required-on_event event life

connected-on_event :
    (event : Event) (life : Life)
    → (on_event event life).connected ≡ is_up life.connected (event ∷ [])
unfolding on_event close_life is_up set_nats_connected
connected-on_event event life = ground arith

is_up-cons :
    (up : Bool) (event : Event) (events : List Event)
    → is_up up (event ∷ events) ≡ is_up (is_up up (event ∷ [])) events
unfolding is_up
is_up-cons up errored events = refl
is_up-cons up disconnected events = refl
is_up-cons up reconnected events = refl
is_up-cons up closed events = refl
is_up-cons up stop_requested events = refl

connected-on_events :
    (events : List Event) (life : Life)
    → (on_events events life).connected ≡ is_up life.connected events
unfolding on_events is_up
connected-on_events [] life = refl
connected-on_events (event ∷ events) life =
    connected-on_events events (on_event event life)
    ∙ ap (λ b. is_up b events) (connected-on_event event life)
    ∙ sym (is_up-cons life.connected event events)

-- After the connection is made and any events, the worker is healthy exactly if its connection is
-- up. It exits with 1 exactly if the connection closed before a stop was asked for, and else with 0;
-- no stop was asked for and nothing closed before.
pub started-Exit :
    (life : Life) (events : List Event)
    → life.shutdown ≡ false
    → life.nats_closed ≡ false
    → (worker_is_healthy (on_events events (started life)) ≡ is_up true events)
      × (exit_code (on_events events (started life)) ≡ (if closes_first events then 1 else 0))
unfolding worker_is_healthy exit_code started reset_nats_liveness set_nats_connected
started-Exit life events running up = (
  rw (required-on_events events (started life)) (connected-on_events events (started life)),
  rw (closed-on_events events (started life), up, running) refl,
)
