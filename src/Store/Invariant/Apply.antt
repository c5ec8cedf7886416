-- ===== src/Store/Invariant/Apply.antt =====
-- `applyTransition` keeps the tables well-formed.
use agent_trail.Base.{
  ◌≤◌, ℕ, ◌+◌, String, ◌≡◌, refl, ◌∙◌, false, ◌&&◌, none, some, List, inl, inr, bit, arith, str_eq,
  eq_iff, if◌then◌else◌, Option-cases,
}
use mathlib.Core.Path.{subst}
use agent_trail.Status.{terminal}
use agent_trail.Task.{Task, TransitionParams}
use agent_trail.Table.{find, update}
use agent_trail.Db.{Session}
use agent_trail.Store.Statements.{task_is, same_issue}
use agent_trail.Store.Apply.{moved}
use agent_trail.Store.Effect.Apply.{Performed}
use agent_trail.Store.Invariant.Defs.{Wf, open_count, RowOk}
use agent_trail.Store.Invariant.Moves.{Moves-AttemptsOk, Moves-owned}
use agent_trail.Store.Invariant.Events.{EventsOk-new_event}
use agent_trail.Store.Invariant.Tasks.{
  found_after, TasksOk-update, RowOk-moved, same_issue-moved, open_count-moved,
  can_transition-valid,
}

moved_id : (now : ℕ) (p : TransitionParams) (t : Task) → (moved now p t).id ≡ t.id
unfolding moved
moved_id now p t = refl

-- A task that is not final has one active attempt.
pub open_count-locked :
    (cur : Task) (tasks : List Task)
    → find (task_is cur.id) tasks ≡ some cur
    → terminal cur.status ≡ false
    → open_count cur.id tasks ≡ 1
unfolding open_count
open_count-locked cur tasks e h = ground arith

-- A task that is missing after the UPDATE was missing before, and is not the updated one.
still_missing :
    (now : ℕ) (p : TransitionParams) (cur : Task) (tasks : List Task) (tid : String)
    → find (task_is cur.id) tasks ≡ some cur
    → find (task_is tid) (update (task_is cur.id) (moved now p) tasks) ≡ none
    → (find (task_is tid) tasks ≡ none) × (str_eq cur.id tid ≡ false)
still_missing now p cur tasks tid locked gone = elim (Option-cases (find (task_is tid) tasks)) [
  | inl missing ↦ (missing, ground (arith, eq_iff cur.id tid))
  | inr (r, before) ↦
      let after : find (task_is tid) (update (task_is cur.id) (moved now p) tasks)
          ≡ some (if task_is cur.id r then moved now p r else r) =
        found_after cur.id (moved now p) (moved_id now p) tasks tid ∙ (rw before) in
      absurd cc
]

-- A transition of the task that the transaction has locked keeps all the tables well-formed.
pub Performed-Wf :
    {cur next : Task} {p : TransitionParams} {source : String} {s t : Session}
    → Wf s.db
    → find (task_is cur.id) s.db.tasks ≡ some cur
    → Performed cur p source s t next
    → Wf t.db
Performed-Wf {cur} {next} {p} {source} {s} {t} wf locked did =
    let change : (tid : String)
        → open_count tid t.db.tasks + bit (terminal p.to && str_eq cur.id tid)
          ≡ open_count tid s.db.tasks =
      λ tid. rw did.tasks (open_count-moved s.now p cur s.db.tasks did.permitted locked tid) in
    let busy : open_count cur.id s.db.tasks ≡ 1 =
      open_count-locked cur s.db.tasks locked
        (can_transition-valid cur.status p.to did.permitted).1 in
    record {
      tasks_ok = rw did.tasks (
          TasksOk-update cur.id (moved s.now p) (moved_id s.now p) s.db.tasks wf.tasks_ok
            (λ r e.
              let same : cur ≡ r = cc in
              subst (λ r. RowOk (moved s.now p r)) same
                (RowOk-moved s.now p cur did.permitted (wf.tasks_ok.rows cur.id cur locked)))
            (λ r e x.
              let same : cur ≡ r = cc in
              subst (λ r. bit (same_issue x (moved s.now p r)) ≤ bit (same_issue x r)) same
                (same_issue-moved s.now p cur x did.permitted
                  (wf.tasks_ok.rows cur.id cur locked))));
      attempts_ok =
          Moves-AttemptsOk cur p did.row s.now s.db.attempts t.db.attempts did.event_attempt
            (λ tid. open_count tid s.db.tasks) (λ tid. open_count tid t.db.tasks) wf.attempts_ok
            did.found change busy did.attempts;
      events_ok = rw did.events (EventsOk-new_event _ _ _ _ _ _ _ s.db.events wf.events_ok);
      owned = λ tid gone.
          let (missing, other) =
            still_missing s.now p cur s.db.tasks tid locked (rw did.tasks at gone) in
          Moves-owned cur p did.row s.now s.db.attempts t.db.attempts did.event_attempt
            (λ tid. open_count tid s.db.tasks) (λ tid. open_count tid t.db.tasks) wf.attempts_ok
            did.found change busy tid other did.attempts
          ∙ wf.owned tid missing;
    }
