-- ===== src/Store/Effect/Apply.antt =====
-- store.go: what a transition that succeeds has done to the tables.
use agent_trail.Base.{
  String, Bool, true, false, ◌≡◌, ◌∙◌, inl, inr, some, [], ◌∷◌, ◌++◌, arith, ◌&&◌, ◌||◌, not,
  int_eq, pos, Bool-cases, str_eq,
}
use agent_trail.Status.{can_transition}
use agent_trail.Task.{unknown_source, Task, Attempt, TransitionParams}
use agent_trail.Table.{find, update}
use agent_trail.Db.{Session, ok, on_ok, require-eq-ok, or_throw-eq-ok, query-eq-ok}
use agent_trail.Store.Effect.Statements.{
  Moves, move_attempt-eq-ok, update_task-eq-ok, insert_event-eq-ok,
}
use agent_trail.Store.Statements.{
  task_is, active_of, transition_event_type, new_event, seen_key, valid_source,
}
use agent_trail.Store.Apply.{
  moved, transition_payload, perform, replayed, source_of, apply_transition,
}

-- The change of the tables that a transition makes.
pub record Performed (cur : Task) (p : TransitionParams) (source : String) (s t : Session)
    (next : Task) : Type 0 where
  pub row : Attempt
  pub event_attempt : String
  pub event_id : String
  pub current :
      (int_eq p.expected_version (pos 0) || int_eq p.expected_version (pos cur.version)) ≡ true
  pub permitted : can_transition cur.status p.to ≡ true
  pub found : find (active_of cur.id) s.db.attempts ≡ some row
  pub attempts : Moves cur p row s.now s.db.attempts t.db.attempts event_attempt
  pub tasks : t.db.tasks ≡ update (task_is cur.id) (moved s.now p) s.db.tasks
  pub events :
      t.db.events
      ≡ s.db.events
        ++ new_event s.now event_id event_attempt
            (transition_event_type p.to)
            source
            (transition_payload cur.status p)
            p.idempotency_key
            s.db.events
          ∷ []
  pub returned : find (task_is cur.id) t.db.tasks ≡ some next
  pub clock : t.now ≡ s.now

pub perform-eq-ok :
    (cur : Task) (p : TransitionParams) (source : String) (s : Session) {next : Task} {t : Session}
    → perform cur p source s ≡ ok (next, t)
    → Performed cur p source s t next
unfolding perform
perform-eq-ok cur p source s {next} {t} h = on_ok _ _ h λ u1 s1 e1 h1. on_ok _ _ h1 λ u2 s2 e2 h2.
    on_ok _ _ h2 λ row s3 e3 h3. on_ok _ _ h3 λ a s4 e4 h4. on_ok _ _ h4 λ aid s5 e5 h5.
      on_ok _ _ h5 λ row' s6 e6 h6. on_ok _ _ h6 λ u7 s7 e7 h7.
        let q1 = require-eq-ok _ _ s e1 in
        let q2 = require-eq-ok _ _ s1 e2 in
        let q3 = query-eq-ok _ _ s2 e3 in
        let q4 = or_throw-eq-ok _ _ s3 e4 in
        let q5 = move_attempt-eq-ok cur p a s4 e5 in
        let q6 = update_task-eq-ok cur.id p s5 e6 in
        let (id, q7, c7) = insert_event-eq-ok _ _ _ _ _ s6 e7 in
        record {
          row = a;
          event_attempt = aid;
          event_id = id;
          current = q1.0;
          permitted = q2.0;
          found = ground arith;
          attempts = ground arith;
          tasks = ground arith;
          events = ground arith;
          returned = ground arith;
          clock = ground arith;
        }

-- What `applyTransition` does when it returns a task: nothing for a key that the task's events
-- hold already, and the change of the tables otherwise.
pub data Applied (cur : Task) (p : TransitionParams) (s t : Session) (next : Task) : Type 0 where
  repeated :
      str_eq p.idempotency_key "" ≡ false
      → seen_key cur.id p.idempotency_key s.db ≡ true
      → next ≡ cur
      → t.db ≡ s.db
      → t.now ≡ s.now
      → Applied cur p s t next
  performed :
      valid_source (source_of p) ≡ true
      → (str_eq p.idempotency_key "" || not (seen_key cur.id p.idempotency_key s.db)) ≡ true
      → Performed cur p (source_of p) s t next
      → Applied cur p s t next

replayed-eq-ok :
    (tid key : String) (s : Session) {seen : Bool} {t : Session}
    → replayed tid key s ≡ ok (seen, t)
    → (seen ≡ (not (str_eq key "") && seen_key tid key s.db)) × (t.db ≡ s.db) × (t.now ≡ s.now)
unfolding replayed
replayed-eq-ok tid key s h = elim (Bool-cases (str_eq key "")) [
  | inl blank ↦ let q = rw blank at h in ground arith
  | inr keyed ↦ let q = query-eq-ok _ _ s (rw keyed at h) in ground arith
]

-- A session with the same tables and clock serves as well.
Performed-Same :
    {cur next : Task} {p : TransitionParams} {source : String} {s s' t : Session}
    → s'.db ≡ s.db
    → s'.now ≡ s.now
    → Performed cur p source s' t next
    → Performed cur p source s t next
Performed-Same {cur} {next} {p} {source} {s} {s'} {t} e n did = record {
  row = did.row;
  event_attempt = did.event_attempt;
  event_id = did.event_id;
  current = did.current;
  permitted = did.permitted;
  found = ground (arith, did.found);
  attempts = rw (← e, ← n) did.attempts;
  tasks = rw (← e, ← n) did.tasks;
  events = rw (← e, ← n) did.events;
  returned = did.returned;
  clock = did.clock ∙ n;
}

pub apply_transition-eq-ok :
    (cur : Task) (p : TransitionParams) (s : Session) {next : Task} {t : Session}
    → apply_transition cur p s ≡ ok (next, t)
    → Applied cur p s t next
unfolding apply_transition
apply_transition-eq-ok cur p s {next} {t} h = on_ok _ _ h λ u s1 e1 h1.
    on_ok _ _ h1 λ seen s2 e2 h2.
      let (valid, same) =
        require-eq-ok (valid_source (source_of p)) (unknown_source (source_of p)) s e1 in
      let (here, db, now) = replayed-eq-ok cur.id p.idempotency_key s1 e2 in
      elim (Bool-cases seen) [
        | inl again ↦
            let q = rw again at h2 in
            repeated (ground arith) (ground arith) (ground arith) (ground arith) (ground arith)
        | inr first ↦ performed valid (ground arith) (
            Performed-Same (ground arith) (ground arith)
              (perform-eq-ok cur p (source_of p) s2 (rw first at h2)))
      ]
