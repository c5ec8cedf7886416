-- ===== src/Store/Keeps.antt =====
-- store.go: a property that the single writes keep is kept by the operations.
use agent_trail.Base.{
  ℕ, String, ◌≡◌, not, none, some, List, [], ◌∷◌, ◌++◌, arith, false, eq_refl, sym, Bool-cases, inl,
  inr,
}
use mathlib.Core.Path.{subst}
use agent_trail.Status.{status_eq, cancelled}
use agent_trail.Task.{Task, Attempt, Event, Payload, CreateParams, RevisionParams, TransitionParams}
use agent_trail.Text.{canonical, is_uuid}
use agent_trail.Table.{find, exists, find-append_new}
use agent_trail.Db.{
  Db, Session, ok, on_ok, require-eq-ok, or_throw-eq-ok, query-eq-ok, commit-eq-ok,
  transaction_keeps,
}
use agent_trail.Store.Apply.{apply_transition}
use agent_trail.Store.Statements.{task_is, lock_task, insert_event, valid_source}
use agent_trail.Store.Effect.Statements.{add_attempt-eq-ok, insert_event-eq-ok}
use agent_trail.Store.Effect.Apply.{Applied, repeated, performed, apply_transition-eq-ok}
use agent_trail.Store.Operations.{
  new_task, first_attempt, create_body, create, transition_body, transition, revise_body,
  request_revision, complete_revision, cancel_body, cancel,
}
use agent_trail.Store.Records.{
  append_attempt_body, append_attempt_event, Marshalled, append_body, append_event,
}
use agent_trail.Store.Invariant.Operations.{found_self, lock_task-eq-ok, unless_keeps}
use agent_trail.Store.Invariant.Creation.{insert_task-eq-ok}

-- The task that a transition returns is the stored row.
Applied-stored :
    {cur next : Task} {p : TransitionParams} {s t : Session}
    → find (task_is cur.id) s.db.tasks ≡ some cur
    → Applied cur p s t next
    → find (task_is next.id) t.db.tasks ≡ some next
Applied-stored locked (repeated _ _ e db _) = rw (e, db) locked
Applied-stored {cur} {next} {t = t} locked (performed _ _ did) =
    (found_self cur.id t.db.tasks next did.returned).1

new_task-stored :
    (now : ℕ) (id : String) (p : CreateParams) (tasks : List Task)
    → exists (task_is id) tasks ≡ false
    → find (task_is (new_task now id p).id) (tasks ++ new_task now id p ∷ [])
      ≡ some (new_task now id p)
unfolding new_task
new_task-stored now id p tasks unused = find-append_new (task_is id) tasks _ unused (eq_refl id)

module _ (P : Db → Type 0)
    (applied : (cur next : Task) (p : TransitionParams) (s t : Session)
      → find (task_is cur.id) s.db.tasks ≡ some cur
      → Applied cur p s t next
      → P s.db
      → P t.db)
    (new_row : (db : Db) (t : Task) → P db → P (record db { tasks = db.tasks ++ t ∷ [] }))
    (new_event : (db : Db) (e : Event) → P db → P (record db { events = db.events ++ e ∷ [] }))
    (new_attempt : (db : Db) (a : Attempt)
      → P db
      → P (record db { attempts = db.attempts ++ a ∷ [] })) where
  event_keeps :
      (aid event_type source : String) (payload : Payload) (key : String) (s : Session)
      {u : Unit {0}} {t : Session}
      → P s.db
      → insert_event aid event_type source payload key s ≡ ok (u, t)
      → P t.db
  event_keeps aid event_type source payload key s h e =
      let (id, wrote, _) = insert_event-eq-ok aid event_type source payload key s e in
      rw wrote (new_event s.db _ h)

  pub create_keeps : (p : CreateParams) (s : Session) → P s.db → P (create p s).1
  unfolding create create_body
  create_keeps p s h0 = transaction_keeps P _ s h0 λ s' next t same h. on_ok _ _ h λ n s1 e1 h1.
      on_ok _ _ h1 λ aid s2 e2 h2. on_ok _ _ h2 λ u3 s3 e3 h3. on_ok _ _ h3 λ queued s4 e4 h4.
        on_ok _ _ h4 λ u5 s5 e5 h5.
          let (id, row, wrote1, _, unused, _) = insert_task-eq-ok p s' e1 in
          let wrote2 = add_attempt-eq-ok (first_attempt n p) s1 e2 in
          let p1 : P s1.db = rw wrote1 (new_row s'.db _ (rw same h0)) in
          let p2 : P s2.db = rw wrote2.1 (new_attempt s1.db _ p1) in
          let (_, wrote3, _) = insert_event-eq-ok _ _ _ _ _ s2 e3 in
          let tasks3 : s3.db.tasks ≡ s'.db.tasks ++ new_task s'.now id p ∷ [] = ground arith in
          let there : find (task_is n.id) s3.db.tasks ≡ some n =
            subst (λ m. find (task_is m.id) s3.db.tasks ≡ some m) (sym row)
              (rw tasks3 (new_task-stored s'.now id p s'.db.tasks unused)) in
          let p4 : P s4.db =
            applied n queued _ s3 s4 there (apply_transition-eq-ok n _ s3 e4)
              (event_keeps _ _ _ _ _ s2 p2 e3) in
          let same5 = commit-eq-ok s4 e5 in let last : t.db ≡ s4.db = ground arith in rw last p4

  locked_keeps :
      (id : String) (cur next : Task) (p : TransitionParams) (s s1 s2 : Session)
      → P s.db
      → lock_task id s ≡ ok (cur, s1)
      → apply_transition cur p s1 ≡ ok (next, s2)
      → P s2.db
  locked_keeps id cur next p s s1 s2 h e1 e2 =
      let (found, same1, _) = lock_task-eq-ok id s e1 in
      let p1 : P s1.db = rw same1 h in
      applied cur next p s1 s2 (rw same1 (found_self id s.db.tasks cur found).1)
        (apply_transition-eq-ok cur p s1 e2) p1

  pub transition_keeps :
      (id : String) (p : TransitionParams) (s : Session) → P s.db → P (transition id p s).1
  unfolding transition transition_body
  transition_keeps id p s h0 = unless_keeps P (not (is_uuid id)) _ _ s h0 (
      transaction_keeps P _ s h0 λ s' a t same h. on_ok _ _ h λ cur s1 e1 h1.
        on_ok _ _ h1 λ next s2 e2 h2. on_ok _ _ h2 λ u s3 e3 h3.
          let same3 = commit-eq-ok s2 e3 in
          let last : t.db ≡ s2.db = ground arith in
          rw last (locked_keeps (canonical id) cur next p s' s1 s2 (rw same h0) e1 e2))

  pub cancel_keeps : (id reason : String) (s : Session) → P s.db → P (cancel id reason s).1
  unfolding cancel cancel_body
  cancel_keeps id reason s h0 = unless_keeps P (not (is_uuid id)) _ _ s h0 (
      transaction_keeps P _ s h0 λ s' a t same h. on_ok _ _ h λ cur s1 e1 h1.
        elim (Bool-cases (status_eq cur.status cancelled)) [
          | inl done ↦
              let q = rw done at h1 in
              let same1 = lock_task-eq-ok (canonical id) s' e1 in
              let last : t.db ≡ s.db = ground arith in rw last h0
          | inr alive ↦ on_ok _ _ (rw alive at h1) λ next s2 e2 h2. on_ok _ _ h2 λ u s3 e3 h3.
              let same3 = commit-eq-ok s2 e3 in
              let last : t.db ≡ s2.db = ground arith in
              rw last (locked_keeps (canonical id) cur next _ s' s1 s2 (rw same h0) e1 e2)
        ])

  revise_keeps :
      (id : String) (p : RevisionParams) (r : Task × Attempt) (s t : Session)
      → P s.db
      → revise_body id p s ≡ ok (r, t)
      → P t.db
  unfolding revise_body
  revise_keeps id p r s t h0 h = on_ok _ _ h λ cur s1 e1 h1. on_ok _ _ h1 λ seen s2 e2 h2.
      on_ok _ _ h2 λ u3 s3 e3 h3. on_ok _ _ h3 λ attempts s4 e4 h4. on_ok _ _ h4 λ u5 s5 e5 h5.
        on_ok _ _ h5 λ requested s6 e6 h6. on_ok _ _ h6 λ u7 s7 e7 h7. on_ok _ _ h7 λ next s8 e8 h8.
          on_ok _ _ h8 λ row s9 e9 h9. on_ok _ _ h9 λ a s10 e10 h10.
            on_ok _ _ h10 λ u11 s11 e11 h11.
              let (found, same1, now1) = lock_task-eq-ok id s e1 in
              let same2 = query-eq-ok _ _ s1 e2 in
              let same3 = require-eq-ok _ _ s2 e3 in
              let same4 = query-eq-ok _ _ s3 e4 in
              let same5 = require-eq-ok _ _ s4 e5 in
              let back : s5.db ≡ s.db = ground arith in
              let p5 : P s5.db = rw back h0 in
              let there : find (task_is cur.id) s5.db.tasks ≡ some cur =
                rw back (found_self id s.db.tasks cur found).1 in
              let p6 : P s6.db =
                applied cur requested _ s5 s6 there (apply_transition-eq-ok cur _ s5 e6) p5 in
              let there6 = Applied-stored {s = s5} there (apply_transition-eq-ok cur _ s5 e6) in
              let same7 = require-eq-ok _ _ s6 e7 in
              let p7 : P s7.db = rw same7.1 p6 in
              let p8 : P s8.db =
                applied requested next _ s7 s8 (rw same7.1 there6)
                  (apply_transition-eq-ok requested _ s7 e8) p7 in
              let same9 = query-eq-ok _ _ s8 e9 in
              let same10 = or_throw-eq-ok _ _ s9 e10 in
              let same11 = commit-eq-ok s10 e11 in
              let last : t.db ≡ s8.db = ground arith in rw last p8

  pub request_revision_keeps :
      (id : String) (p : RevisionParams) (s : Session) → P s.db → P (request_revision id p s).1
  unfolding request_revision
  request_revision_keeps id p s h0 = unless_keeps P (not (is_uuid id)) _ _ s h0 (
      unless_keeps P (not (complete_revision p)) _ _ s h0 (
        transaction_keeps P (revise_body (canonical id) p) s h0
          (λ s' a t same h. revise_keeps (canonical id) p a s' t (rw same h0) h)))

  append_attempt_keeps :
      (aid event_type source : String) (payload : Payload) (u : Unit {0}) (s t : Session)
      → P s.db
      → append_attempt_body aid event_type source payload s ≡ ok (u, t)
      → P t.db
  unfolding append_attempt_body
  append_attempt_keeps aid event_type source payload u s t h0 h = on_ok _ _ h λ row s1 e1 h1.
      on_ok _ _ h1 λ a s2 e2 h2. on_ok _ _ h2 λ owner s3 e3 h3. on_ok _ _ h3 λ v s4 e4 h4.
        let same1 = query-eq-ok _ _ s e1 in
        let same2 = or_throw-eq-ok row _ s1 e2 in
        let same3 = lock_task-eq-ok a.task_id s2 e3 in
        let back : s3.db ≡ s.db = ground arith in
        let last : t.db ≡ s4.db = (commit-eq-ok s4 h4).0 in
        rw last (event_keeps _ _ _ _ _ s3 (rw back h0) e4)

  pub append_attempt_event_keeps :
      (aid event_type source : String) (payload : Marshalled) (s : Session)
      → P s.db
      → P (append_attempt_event aid event_type source payload s).1
  unfolding append_attempt_event
  append_attempt_event_keeps aid event_type source none s h0 =
      unless_keeps P (not (is_uuid aid)) _ _ s h0
        (unless_keeps P (not (valid_source source)) _ _ s h0 h0)
  append_attempt_event_keeps aid event_type source (some p) s h0 =
      unless_keeps P (not (is_uuid aid)) _ _ s h0 (
        unless_keeps P (not (valid_source source)) _ _ s h0 (
          transaction_keeps P _ s h0 (λ s' u t same h.
            append_attempt_keeps (canonical aid) event_type source _ u s' t (rw same h0) h)))

  pub append_event_keeps :
      (tid event_type source : String) (payload : Payload) (s : Session)
      → P s.db
      → P (append_event tid event_type source payload s).1
  unfolding append_event append_body
  append_event_keeps tid event_type source payload s h0 =
      unless_keeps P (not (is_uuid tid)) _ _ s h0 (
        transaction_keeps P _ s h0 λ s' u t same h. on_ok _ _ h λ cur s1 e1 h1.
          on_ok _ _ h1 λ row s2 e2 h2. on_ok _ _ h2 λ a s3 e3 h3. on_ok _ _ h3 λ v s4 e4 h4.
            let same1 = lock_task-eq-ok (canonical tid) s' e1 in
            let same2 = query-eq-ok _ _ s1 e2 in
            let same3 = or_throw-eq-ok row _ s2 e3 in
            let back : s3.db ≡ s.db = ground arith in
            let last : t.db ≡ s4.db = (commit-eq-ok s4 h4).0 in
            rw last (event_keeps _ _ _ _ _ s3 (rw back h0) e4))
