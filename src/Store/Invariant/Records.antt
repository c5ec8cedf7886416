-- ===== src/Store/Invariant/Records.antt =====
-- The operations that append an event or fill in a column keep the tables well-formed.
use agent_trail.Base.{String, ◌≡◌, ◌∙◌, Bool, not, none, some, arith}
use agent_trail.Task.{Attempt, Payload}
use agent_trail.Text.{canonical, is_uuid}
use agent_trail.Table.{update}
use agent_trail.Db.{
  Db, Session, ok, on_ok, or_throw-eq-ok, query-eq-ok, commit-eq-ok, transaction_keeps,
}
use agent_trail.Store.Statements.{insert_event, valid_source}
use agent_trail.Store.Effect.Statements.{insert_event-eq-ok}
use agent_trail.Store.Records.{
  append_attempt_body, append_attempt_event, Marshalled, append_body, append_event,
}
use agent_trail.Store.Invariant.Defs.{Wf}
use agent_trail.Store.Invariant.Attempts.{KeepsKeys, AttemptsOk-update, of_task_kept}
use agent_trail.Store.Invariant.Events.{EventsOk-new_event}
use agent_trail.Store.Invariant.Operations.{lock_task-eq-ok, unless_keeps}

-- An UPDATE of task_attempts that keeps keys and statuses.
pub Wf-attempts :
    (f : Attempt → Attempt) (p : Attempt → Bool) {db : Db}
    → KeepsKeys f
    → ((a : Attempt) → (f a).status ≡ a.status)
    → Wf db
    → Wf (record db { attempts = update p f db.attempts })
Wf-attempts f p {db} keys same wf = record {
  tasks_ok = wf.tasks_ok;
  attempts_ok = AttemptsOk-update f p db.attempts keys same wf.attempts_ok;
  events_ok = wf.events_ok;
  owned = λ tid h. of_task_kept f keys p db.attempts tid ∙ wf.owned tid h;
}

pub Wf-insert_event :
    (aid event_type source : String) (payload : Payload) (key : String) (s : Session) {u : Unit {0}}
    {t : Session}
    → Wf s.db
    → insert_event aid event_type source payload key s ≡ ok (u, t)
    → Wf t.db
Wf-insert_event aid event_type source payload key s wf h =
    let (id, e, _) = insert_event-eq-ok aid event_type source payload key s h in
    rw e (record {
      tasks_ok = wf.tasks_ok;
      attempts_ok = wf.attempts_ok;
      events_ok = EventsOk-new_event _ _ _ _ _ _ _ s.db.events wf.events_ok;
      owned = wf.owned;
    })

append_attempt_body-Wf :
    (aid event_type source : String) (payload : Payload) (s : Session) {u : Unit {0}} {t : Session}
    → Wf s.db
    → append_attempt_body aid event_type source payload s ≡ ok (u, t)
    → Wf t.db
unfolding append_attempt_body
append_attempt_body-Wf aid event_type source payload s {u} {t} wf h = on_ok _ _ h λ row s1 e1 h1.
    on_ok _ _ h1 λ a s2 e2 h2. on_ok _ _ h2 λ owner s3 e3 h3. on_ok _ _ h3 λ v s4 e4 h4.
      let same1 = query-eq-ok _ _ s e1 in
      let same2 = or_throw-eq-ok row _ s1 e2 in
      let same3 = lock_task-eq-ok a.task_id s2 e3 in
      let back : s3.db ≡ s.db = ground arith in
      let last : t.db ≡ s4.db = (commit-eq-ok s4 h4).0 in
      rw last (Wf-insert_event _ _ _ _ _ s3 (rw back wf) e4)

pub append_attempt_event-Wf :
    (aid event_type source : String) (payload : Marshalled) (s : Session)
    → Wf s.db
    → Wf (append_attempt_event aid event_type source payload s).1
unfolding append_attempt_event
append_attempt_event-Wf aid event_type source none s wf =
    unless_keeps Wf (not (is_uuid aid)) _ _ s wf
      (unless_keeps Wf (not (valid_source source)) _ _ s wf wf)
append_attempt_event-Wf aid event_type source (some p) s wf =
    unless_keeps Wf (not (is_uuid aid)) _ _ s wf (
      unless_keeps Wf (not (valid_source source)) _ _ s wf (
        transaction_keeps Wf _ s wf (λ s' u t same h.
          append_attempt_body-Wf (canonical aid) event_type source _ s' (rw same wf) h)))

pub append_event-Wf :
    (tid event_type source : String) (payload : Payload) (s : Session)
    → Wf s.db
    → Wf (append_event tid event_type source payload s).1
unfolding append_event append_body
append_event-Wf tid event_type source payload s wf = unless_keeps Wf (not (is_uuid tid)) _ _ s wf (
    transaction_keeps Wf _ s wf λ s' u t same h. on_ok _ _ h λ cur s1 e1 h1.
      on_ok _ _ h1 λ row s2 e2 h2. on_ok _ _ h2 λ a s3 e3 h3. on_ok _ _ h3 λ v s4 e4 h4.
        let same1 = lock_task-eq-ok (canonical tid) s' e1 in
        let same2 = query-eq-ok _ _ s1 e2 in
        let same3 = or_throw-eq-ok row _ s2 e3 in
        let back : s3.db ≡ s.db = ground arith in
        let last : t.db ≡ s4.db = (commit-eq-ok s4 h4).0 in
        rw last (Wf-insert_event _ _ _ _ _ s3 (rw back wf) e4))
