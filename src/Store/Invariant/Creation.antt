-- ===== src/Store/Invariant/Creation.antt =====
-- `Create` keeps the tables well-formed.
use agent_trail.Base.{
  ℕ, String, ◌≡◌, refl, sym, ◌∙◌, true, false, some, [], ◌∷◌, ◌++◌, arith, eq_refl,
}
use mathlib.Core.Path.{subst, fun_ext}
use agent_trail.Status.{terminal, valid, phase}
use agent_trail.Task.{Task, CreateParams}
use agent_trail.Table.{find, exists, find-append_new}
use agent_trail.Db.{
  Db, Session, ok, on_ok, require-eq-ok, or_throw-eq-ok, query-eq-ok, exec-eq-ok, fresh_id-eq-ok,
  commit-eq-ok, transaction_keeps,
}
use agent_trail.Store.Statements.{
  task_is, attempt_is, same_issue, holds_issue, is_active, bare_attempt, new_event,
}
use agent_trail.Store.Effect.Statements.{add_attempt-eq-ok, insert_event-eq-ok}
use agent_trail.Store.Effect.Apply.{apply_transition-eq-ok}
use agent_trail.Store.Operations.{new_task, first_attempt, insert_task, create_body, create}
use agent_trail.Store.Invariant.Defs.{Wf, RowOk}
use agent_trail.Store.Invariant.Create.{Wf-new}
use agent_trail.Store.Invariant.Events.{EventsOk-new_event}
use agent_trail.Store.Invariant.Operations.{Applied-Wf}

-- A new row's constraints, and what the index test reads of it.
new_task_row :
    (now : ℕ) (id : String) (p : CreateParams)
    → RowOk (new_task now id p)
      × ((new_task now id p).id ≡ id)
      × (terminal (new_task now id p).status ≡ false)
unfolding new_task terminal valid phase
new_task_row now id p =
    (record { phased = refl; completes = refl; known = refl; versioned = omega arith }, refl, refl)

same_issue-new_task :
    (now : ℕ) (id : String) (p : CreateParams) (t : Task)
    → same_issue (new_task 0 id p) t ≡ same_issue (new_task now id p) t
unfolding same_issue new_task holds_issue
same_issue-new_task now id p t = refl

first_attempt_row :
    (t : Task) (p : CreateParams) (now : ℕ) (id : String)
    → ((first_attempt t p now id).id ≡ id)
      × ((first_attempt t p now id).task_id ≡ t.id)
      × ((first_attempt t p now id).number ≡ 1)
      × (is_active (first_attempt t p now id).status ≡ true)
unfolding first_attempt bare_attempt
first_attempt_row t p now id = (refl, refl, refl, refl)

-- What `insert_task` has done.
pub insert_task-eq-ok :
    (p : CreateParams) (s : Session) {n : Task} {t : Session}
    → insert_task p s ≡ ok (n, t)
    → (id : String) × (n ≡ new_task s.now id p)
      × (t.db ≡ record (s.db) { tasks = s.db.tasks ++ new_task s.now id p ∷ [] })
      × (t.now ≡ s.now)
      × (exists (task_is id) s.db.tasks ≡ false)
      × (exists (λ t. same_issue (new_task 0 id p) t) s.db.tasks ≡ false)
unfolding insert_task
insert_task-eq-ok p s {n} {t} h = on_ok _ _ h λ id s1 e1 h1. on_ok _ _ h1 λ busy s2 e2 h2.
    on_ok _ _ h2 λ u3 s3 e3 h3. on_ok _ _ h3 λ taken s4 e4 h4. on_ok _ _ h4 λ u5 s5 e5 h5.
      on_ok _ _ h5 λ u6 s6 e6 h6. on_ok _ _ h6 λ row s7 e7 h7.
        let same1 = fresh_id-eq-ok _ s e1 in
        let same2 = query-eq-ok _ _ s1 e2 in
        let same3 = require-eq-ok _ _ s2 e3 in
        let same4 = query-eq-ok _ _ s3 e4 in
        let same5 = require-eq-ok _ _ s4 e5 in
        let back : s5.db ≡ s.db = ground arith in
        let clock : s5.now ≡ s.now = ground arith in
        let wrote = exec-eq-ok _ _ s5 e6 in
        let wrote' : s6.db ≡ record (s.db) { tasks = s.db.tasks ++ new_task s.now id p ∷ [] } =
          wrote.0 ∙ (rw (back, clock)) in
        let free : exists (λ t. same_issue (new_task 0 id p) t) s.db.tasks ≡ false = ground arith in
        let unused : exists (task_is id) s.db.tasks ≡ false = ground arith in
        let there : find (task_is id) s6.db.tasks ≡ some (new_task s.now id p) = rw wrote' (
          find-append_new (task_is id) s.db.tasks (new_task s.now id p) unused
            (rw (new_task_row s.now id p).1 (eq_refl id))) in
        let same7 = query-eq-ok _ _ s6 e7 in
        let same8 = or_throw-eq-ok _ _ s7 h7 in
        (id, ground arith, ground arith, ground arith, unused, free)

-- The tables after the three INSERTs of `Create`.
inserted-Wf :
    (db : Db) (p : CreateParams) (now now' : ℕ) (id aid eid : String) (n : Task)
    → Wf db
    → n ≡ new_task now id p
    → exists (task_is id) db.tasks ≡ false
    → exists (λ t. same_issue (new_task 0 id p) t) db.tasks ≡ false
    → exists (attempt_is aid) db.attempts ≡ false
    → Wf (record {
      tasks = db.tasks ++ n ∷ [];
      attempts = db.attempts ++ first_attempt n p now' aid ∷ [];
      events =
          db.events
          ++ new_event now' eid aid "task.created" "api" (("title", n.title) ∷ []) "" db.events
            ∷ [];
    })
      × (find (task_is n.id) (db.tasks ++ n ∷ []) ≡ some n)
inserted-Wf db p now now' id aid eid n wf row unused free unused' =
    let (good, key, lasting) = new_task_row now id p in
    let (akey, own, first, live) = first_attempt_row n p now' aid in
    let key' : n.id ≡ id = rw row key in
    let unused_n : exists (task_is n.id) db.tasks ≡ false = rw key' unused in
    (
      Wf-new db wf n (first_attempt n p now' aid) _ unused_n
          (subst (λ x. exists (same_issue x) db.tasks ≡ false) (sym row)
            (rw (fun_ext (λ t. same_issue-new_task now id p t)) at free))
          (subst RowOk (sym row) good) (rw row lasting) (rw akey unused') live own first
          (EventsOk-new_event now' eid aid _ _ _ _ db.events wf.events_ok),
      find-append_new (task_is n.id) db.tasks n unused_n (eq_refl n.id),
    )

pub create_body-Wf :
    (p : CreateParams) (s : Session) {next : Task} {t : Session}
    → Wf s.db
    → create_body p s ≡ ok (next, t)
    → Wf t.db
unfolding create_body
create_body-Wf p s {next} {t} wf h = on_ok _ _ h λ n s1 e1 h1. on_ok _ _ h1 λ aid s2 e2 h2.
    on_ok _ _ h2 λ u3 s3 e3 h3. on_ok _ _ h3 λ queued s4 e4 h4. on_ok _ _ h4 λ u5 s5 e5 h5.
      let (id, row, db1, now1, unused, free) = insert_task-eq-ok p s e1 in
      let (unused', db2, now2) = add_attempt-eq-ok _ s1 e2 in
      let (eid, db3, now3) = insert_event-eq-ok _ _ _ _ _ s2 e3 in
      let unused_a : exists (attempt_is aid) s.db.attempts ≡ false = ground arith in
      let (wf3, there) = inserted-Wf s.db p s.now s.now id aid eid n wf row unused free unused_a in
      let built : s3.db ≡ record {
        tasks = s.db.tasks ++ n ∷ [];
        attempts = s.db.attempts ++ first_attempt n p s.now aid ∷ [];
        events =
            s.db.events
            ++ new_event s.now eid aid "task.created" "api" (("title", n.title) ∷ []) "" s.db.events
              ∷ [];
      } =
        ground arith in
      let done =
        Applied-Wf {s = s3} (rw built wf3) (rw built there) (apply_transition-eq-ok n _ s3 e4) in
      let same5 = commit-eq-ok s4 e5 in let last : t.db ≡ s4.db = ground arith in rw last done.0

pub create-Wf : (p : CreateParams) (s : Session) → Wf s.db → Wf (create p s).1
unfolding create
create-Wf p s wf =
    transaction_keeps Wf (create_body p) s wf (λ s' a t same h. create_body-Wf p s' (rw same wf) h)
