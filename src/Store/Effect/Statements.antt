-- ===== src/Store/Effect/Statements.antt =====
-- store.go: what the statements of a transition have done when they succeed.
use agent_trail.Base.{
  ℕ, ◌+◌, String, true, false, ◌≡◌, inl, inr, some, List, [], ◌∷◌, ◌++◌, arith, ◌&&◌, Bool-cases,
}
use agent_trail.Status.{status_eq, terminal, revision_requested, queued, provisioning}
use agent_trail.Task.{Task, Attempt, Payload, TransitionParams}
use agent_trail.Table.{find, exists, update}
use agent_trail.Db.{
  Session, ok, exec, pure, ◌>>◌, on_ok, require-eq-ok, or_throw-eq-ok, query-eq-ok, exec-eq-ok,
  fresh_id-eq-ok,
}
use agent_trail.Store.Statements.{task_is, attempt_is, insert_event, new_event, revision_attempt}
use agent_trail.Store.Apply.{
  finish_attempt, supersede_attempt, start_attempt, update_attempt, move_attempt, moved,
  update_task, add_attempt, insert_revision_attempt,
}

-- The row that an INSERT into task_attempts added.
pub add_attempt-eq-ok :
    (row : ℕ → String → Attempt) (s : Session) {id : String} {t : Session}
    → add_attempt row s ≡ ok (id, t)
    → (exists (attempt_is id) s.db.attempts ≡ false)
      × (t.db ≡ record (s.db) { attempts = s.db.attempts ++ row s.now id ∷ [] })
      × (t.now ≡ s.now)
unfolding add_attempt
add_attempt-eq-ok row s h = on_ok _ _ h λ id s1 e1 h1. on_ok _ _ h1 λ taken s2 e2 h2.
    on_ok _ _ h2 λ u s3 e3 h3. on_ok _ _ h3 λ v s4 e4 h4. ground (
      arith,
      fresh_id-eq-ok _ s e1,
      query-eq-ok _ _ s1 e2,
      require-eq-ok _ _ s2 e3,
      exec-eq-ok _ _ s3 e4,
    )

-- What the `switch` does to the attempts of `before`, and the attempt `aid` that the event is
-- filed under.
pub data Moves (cur : Task) (p : TransitionParams) (a : Attempt) (now : ℕ)
    (before after : List Attempt) (aid : String) : Type 0 where
  finishes :
      terminal p.to ≡ true
      → after ≡ update (attempt_is a.id) (finish_attempt now p) before
      → aid ≡ a.id
      → Moves cur p a now before after aid
  supersedes :
      terminal p.to ≡ false
      → (status_eq cur.status revision_requested && status_eq p.to queued) ≡ true
      → exists (attempt_is aid) (update (attempt_is a.id) (supersede_attempt now) before) ≡ false
      → after
        ≡ update (attempt_is a.id) (supersede_attempt now) before
          ++ revision_attempt now aid cur.id (a.number + 1) p.revision ∷ []
      → Moves cur p a now before after aid
  starts :
      terminal p.to ≡ false
      → (status_eq cur.status revision_requested && status_eq p.to queued) ≡ false
      → after ≡ update (attempt_is a.id) (start_attempt now) before
      → aid ≡ a.id
      → Moves cur p a now before after aid
  stays :
      terminal p.to ≡ false
      → (status_eq cur.status revision_requested && status_eq p.to queued) ≡ false
      → after ≡ before
      → aid ≡ a.id
      → Moves cur p a now before after aid

update_then_stay :
    (what : String) (id : String) (set : ℕ → Attempt → Attempt) (s : Session) {aid : String}
    {t : Session}
    → (exec what (update_attempt id set) >> pure id) s ≡ ok (aid, t)
    → (aid ≡ id)
      × (t.db ≡ record (s.db) { attempts = update (attempt_is id) (set s.now) s.db.attempts })
      × (t.now ≡ s.now)
update_then_stay what id set s h = on_ok _ _ h λ u s1 e1 h1. ground (arith, exec-eq-ok _ _ s e1)

pub move_attempt-eq-ok :
    (cur : Task) (p : TransitionParams) (a : Attempt) (s : Session) {aid : String} {t : Session}
    → move_attempt cur p a s ≡ ok (aid, t)
    → Moves cur p a s.now s.db.attempts t.db.attempts aid
      × (t.db ≡ record (s.db) { attempts = t.db.attempts })
      × (t.now ≡ s.now)
unfolding move_attempt insert_revision_attempt
move_attempt-eq-ok cur p a s h = elim (Bool-cases (terminal p.to)) [
  | inl final ↦
      let q = update_then_stay _ _ _ s (rw final at h) in
      (finishes final (ground arith) (ground arith), ground arith, ground arith)
  | inr lasting ↦
      elim (Bool-cases (status_eq cur.status revision_requested && status_eq p.to queued)) [
        | inl requeue ↦ on_ok _ _ (rw (lasting, requeue) at h) λ u s1 e1 h1.
            let q = exec-eq-ok _ _ s e1 in
            let r = add_attempt-eq-ok _ s1 h1 in
            (supersedes lasting requeue (ground arith) (ground arith), ground arith, ground arith)
        | inr onward ↦ elim (Bool-cases (status_eq p.to provisioning)) [
          | inl start ↦
              let q = update_then_stay _ _ _ s (rw (lasting, onward, start) at h) in
              (starts lasting onward (ground arith) (ground arith), ground arith, ground arith)
          | inr other ↦
              let q = rw (lasting, onward, other) at h in
              (stays lasting onward (ground arith) (ground arith), ground arith, ground arith)
        ]
      ]
]

pub insert_event-eq-ok :
    (aid event_type source : String) (payload : Payload) (key : String) (s : Session) {u : Unit {0}}
    {t : Session}
    → insert_event aid event_type source payload key s ≡ ok (u, t)
    → (id : String) × (t.db ≡ record (s.db) {
      events = s.db.events ++ new_event s.now id aid event_type source payload key s.db.events ∷ [];
    })
      × (t.now ≡ s.now)
unfolding insert_event
insert_event-eq-ok aid event_type source payload key s h = on_ok _ _ h λ id s1 e1 h1.
    let q = fresh_id-eq-ok _ s e1 in
    let r = exec-eq-ok _ _ s1 h1 in (id, ground arith, ground arith)

pub update_task-eq-ok :
    (id : String) (p : TransitionParams) (s : Session) {next : Task} {t : Session}
    → update_task id p s ≡ ok (next, t)
    → (t.db ≡ record (s.db) { tasks = update (task_is id) (moved s.now p) s.db.tasks })
      × (t.now ≡ s.now)
      × (find (task_is id) t.db.tasks ≡ some next)
unfolding update_task
update_task-eq-ok id p s h = on_ok _ _ h λ u s1 e1 h1. on_ok _ _ h1 λ row s2 e2 h2.
    let q = exec-eq-ok _ _ s e1 in
    let r = query-eq-ok _ _ s1 e2 in
    let w = or_throw-eq-ok _ _ s2 h2 in (ground arith, ground arith, ground arith)
