-- ===== src/Store/Invariant/Events.antt =====
-- `insertEvent` gives an attempt's events the numbers 1, 2, ….
use agent_trail.Base.{
  ℕ, ◌+◌, String, ◌≡◌, Bool, List, [], ◌∷◌, ◌++◌, bit, arith, eq_iff, ap, ◌∙◌, refl,
}
use agent_trail.Task.{Event, Payload}
use agent_trail.Table.{count, greatest, count-append, count-one, greatest-append}
use agent_trail.Store.Statements.{event_of, new_event}
use agent_trail.Store.Invariant.Defs.{EventsOk, sequenced, in_range}

module _ (e : Event) (events : List Event) (ok : EventsOk events)
    (next : e.sequence_number
      ≡ greatest (event_of e.task_attempt_id) (λ e. e.sequence_number) events + 1) where
  with_new : (q : Event → Bool) → count q (events ++ e ∷ []) ≡ count q events + bit (q e)
  with_new q = count-append q events (e ∷ []) ∙ ap (λ n. count q events + n) (count-one q e)

  highest_new :
      (aid : String)
      → greatest (event_of aid) (λ e. e.sequence_number) (events ++ e ∷ [])
        ≡ count (event_of aid) (events ++ e ∷ [])
  unfolding greatest
  highest_new aid = ground (
    arith,
    greatest-append (event_of aid) (λ e. e.sequence_number) events (e ∷ []),
    with_new (event_of aid),
    ok.highest aid,
    eq_iff e.task_attempt_id aid,
  )

  dense_new :
      (aid : String) (n : ℕ)
      → count (sequenced aid n) (events ++ e ∷ [])
        ≡ bit (in_range n (count (event_of aid) (events ++ e ∷ [])))
  dense_new aid n = ground (
    arith,
    with_new (sequenced aid n),
    with_new (event_of aid),
    ok.dense aid n,
    ok.highest aid,
    eq_iff e.task_attempt_id aid,
  )

  EventsOk-append : EventsOk (events ++ e ∷ [])
  EventsOk-append = record { highest = highest_new; dense = dense_new }

pub EventsOk-new_event :
    (now : ℕ) (id aid event_type source : String) (payload : Payload) (key : String)
    (events : List Event)
    → EventsOk events
    → EventsOk (events ++ new_event now id aid event_type source payload key events ∷ [])
unfolding new_event
EventsOk-new_event now id aid event_type source payload key events ok =
    EventsOk-append (new_event now id aid event_type source payload key events) events ok refl
