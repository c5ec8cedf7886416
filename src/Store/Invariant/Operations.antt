-- ===== src/Store/Invariant/Operations.antt =====
-- Every operation of store.go keeps the tables well-formed, whatever statement fails in it.
use agent_trail.Base.{
  String, ◌≡◌, sym, Bool, true, false, not, some, List, inl, inr, arith, eq_iff, Bool-cases,
}
use mathlib.Core.Path.{subst}
use agent_trail.Status.{status_eq, cancelled}
use agent_trail.Task.{Task, Attempt, RevisionParams, TransitionParams, Error}
use agent_trail.Text.{canonical, is_uuid}
use agent_trail.Table.{find, count-find}
use agent_trail.Db.{
  Db, Session, ok, on_ok, require-eq-ok, or_throw-eq-ok, query-eq-ok, commit-eq-ok,
  transaction_keeps,
}
use agent_trail.Store.Statements.{task_is, lock_task}
use agent_trail.Store.Apply.{apply_transition}
use agent_trail.Store.Effect.Apply.{Applied, repeated, performed, apply_transition-eq-ok}
use agent_trail.Store.Operations.{
  Operation, unless, transition_body, transition, revise_body, request_revision, complete_revision,
  cancel_body, cancel,
}
use agent_trail.Store.Invariant.Defs.{Wf}
use agent_trail.Store.Invariant.Apply.{Performed-Wf}

-- The row that an id finds is found by its own id.
pub found_self :
    (id : String) (tasks : List Task) (t : Task)
    → find (task_is id) tasks ≡ some t
    → (t.id ≡ id) × (find (task_is t.id) tasks ≡ some t)
found_self id tasks t e =
    let same : t.id ≡ id = (eq_iff t.id id).0 (count-find (task_is id) tasks t e).0 in
    (same, subst (λ k. find (task_is k) tasks ≡ some t) (sym same) e)

pub lock_task-eq-ok :
    (id : String) (s : Session) {cur : Task} {t : Session}
    → lock_task id s ≡ ok (cur, t)
    → (find (task_is id) s.db.tasks ≡ some cur) × (t.db ≡ s.db) × (t.now ≡ s.now)
unfolding lock_task
lock_task-eq-ok id s h = on_ok _ _ h λ row s1 e1 h1.
    let q = query-eq-ok _ _ s e1 in
    let r = or_throw-eq-ok _ _ s1 h1 in (ground arith, ground arith, ground arith)

-- A transition of a stored row keeps the tables, and returns the row that is stored then.
pub Applied-Wf :
    {cur next : Task} {p : TransitionParams} {s t : Session}
    → Wf s.db
    → find (task_is cur.id) s.db.tasks ≡ some cur
    → Applied cur p s t next
    → Wf t.db × (find (task_is cur.id) t.db.tasks ≡ some next)
Applied-Wf wf locked (repeated _ _ e db _) = (rw db wf, rw (e, db) locked)
Applied-Wf wf locked (performed _ _ did) = (Performed-Wf wf locked did, did.returned)

pub unless_keeps :
    {A : Type 0} (P : Db → Type 0) (b : Bool) (e : Error) (op : Operation A) (s : Session)
    → P s.db
    → P (op s).1
    → P (unless b e op s).1
unless_keeps P true e op s h k = h
unless_keeps P false e op s h k = k

-- A transition right after the row was locked.
pub locked-Wf :
    (id : String) {cur next : Task} (p : TransitionParams) (s : Session) {s1 s2 : Session}
    → Wf s.db
    → lock_task id s ≡ ok (cur, s1)
    → apply_transition cur p s1 ≡ ok (next, s2)
    → Wf s2.db × (find (task_is cur.id) s2.db.tasks ≡ some next)
locked-Wf id {cur} {next} p s {s1} wf e1 e2 =
    let (found, same1, now1) = lock_task-eq-ok id s e1 in
    let wf1 : Wf s1.db = rw same1 wf in
    Applied-Wf wf1 (rw same1 (found_self id s.db.tasks cur found).1)
      (apply_transition-eq-ok cur p s1 e2)

pub transition-Wf :
    (id : String) (p : TransitionParams) (s : Session) → Wf s.db → Wf (transition id p s).1
unfolding transition transition_body
transition-Wf id p s wf = unless_keeps Wf (not (is_uuid id)) _ _ s wf (
    transaction_keeps Wf _ s wf λ s' a t same h. on_ok _ _ h λ cur s1 e1 h1.
      on_ok _ _ h1 λ next s2 e2 h2. on_ok _ _ h2 λ u s3 e3 h3.
        let same3 = commit-eq-ok s2 e3 in
        let last : t.db ≡ s2.db = ground arith in
        rw last (locked-Wf (canonical id) _ s' (rw same wf) e1 e2).0)

pub cancel-Wf : (id reason : String) (s : Session) → Wf s.db → Wf (cancel id reason s).1
unfolding cancel cancel_body
cancel-Wf id reason s wf = unless_keeps Wf (not (is_uuid id)) _ _ s wf (
    transaction_keeps Wf _ s wf λ s' a t same h. on_ok _ _ h λ cur s1 e1 h1.
      elim (Bool-cases (status_eq cur.status cancelled)) [
        | inl done ↦
            let q = rw done at h1 in
            let same1 = lock_task-eq-ok (canonical id) s' e1 in
            let last : t.db ≡ s.db = ground arith in rw last wf
        | inr alive ↦ on_ok _ _ (rw alive at h1) λ next s2 e2 h2. on_ok _ _ h2 λ u s3 e3 h3.
            let same3 = commit-eq-ok s2 e3 in
            let last : t.db ≡ s2.db = ground arith in
            rw last (locked-Wf (canonical id) _ s' (rw same wf) e1 e2).0
      ])

-- The two transitions of a revision.
pub revise_body-Wf :
    (id : String) (p : RevisionParams) {r : Task × Attempt} (s t : Session)
    → Wf s.db
    → revise_body id p s ≡ ok (r, t)
    → Wf t.db
unfolding revise_body
revise_body-Wf id p s t wf h = on_ok _ _ h λ cur s1 e1 h1. on_ok _ _ h1 λ seen s2 e2 h2.
    on_ok _ _ h2 λ u3 s3 e3 h3. on_ok _ _ h3 λ attempts s4 e4 h4. on_ok _ _ h4 λ u5 s5 e5 h5.
      on_ok _ _ h5 λ requested s6 e6 h6. on_ok _ _ h6 λ u7 s7 e7 h7. on_ok _ _ h7 λ next s8 e8 h8.
        on_ok _ _ h8 λ row s9 e9 h9. on_ok _ _ h9 λ a s10 e10 h10. on_ok _ _ h10 λ u11 s11 e11 h11.
          let (found, same1, now1) = lock_task-eq-ok id s e1 in
          let same2 = query-eq-ok _ _ s1 e2 in
          let same3 = require-eq-ok _ _ s2 e3 in
          let same4 = query-eq-ok _ _ s3 e4 in
          let same5 = require-eq-ok _ _ s4 e5 in
          let back : s5.db ≡ s.db = ground arith in
          let (wf6, stored6) =
            Applied-Wf {s = s5} (rw back wf) (rw back (found_self id s.db.tasks cur found).1)
              (apply_transition-eq-ok cur _ s5 e6) in
          let same7 = require-eq-ok _ _ s6 e7 in
          let wf8 : Wf s8.db =
            (Applied-Wf {s = s7} (rw same7.1 wf6)
              (rw same7.1 (found_self cur.id s6.db.tasks requested stored6).1)
              (apply_transition-eq-ok requested _ s7 e8)).0 in
          let same9 = query-eq-ok _ _ s8 e9 in
          let same10 = or_throw-eq-ok _ _ s9 e10 in
          let same11 = commit-eq-ok s10 e11 in let last : t.db ≡ s8.db = ground arith in rw last wf8

pub request_revision-Wf :
    (id : String) (p : RevisionParams) (s : Session) → Wf s.db → Wf (request_revision id p s).1
unfolding request_revision
request_revision-Wf id p s wf = unless_keeps Wf (not (is_uuid id)) _ _ s wf (
    unless_keeps Wf (not (complete_revision p)) _ _ s wf (
      transaction_keeps Wf (revise_body (canonical id) p) s wf
        (λ s' a t same h. revise_body-Wf (canonical id) p s' t (rw same wf) h)))
