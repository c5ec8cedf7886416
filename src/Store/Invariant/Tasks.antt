-- ===== src/Store/Invariant/Tasks.antt =====
-- The UPDATE of a task's row keeps the tasks well-formed.
use agent_trail.Base.{
  ◌≤◌, Bool, not, ℕ, ◌+◌, String, ◌≡◌, true, false, ◌&&◌, none, some, List, bit, arith, str_eq,
  eq_iff, if◌then◌else◌, refl, sym, ◌∙◌, Bool-cases, Option-cases, inl, inr,
}
use mathlib.Core.Path.{subst}
use agent_trail.Status.{phase, Status, valid, Status, valid, terminal, can_transition}
use agent_trail.Task.{Task, TransitionParams}
use agent_trail.Table.{
  find, update_none, find-count, count-update, update, count-update_same, find-update_same,
  count-find,
}
use agent_trail.Store.Statements.{
  task_is, same_issue, holds_issue, is_terminal_phase, same_text, same_number,
}
use agent_trail.Store.Apply.{moved}
use agent_trail.Store.Invariant.Defs.{RowOk, TasksOk, open_count}

-- The rows after an UPDATE of the row with the id `key`.
module _ (key : String) (f : Task → Task) (kept : (t : Task) → (f t).id ≡ t.id)
    (tasks : List Task) where
  pub found_after :
      (id : String)
      → find (task_is id) (update (task_is key) f tasks) ≡ elim (find (task_is id) tasks) [
        | none ↦ none
        | some r ↦ some (if task_is key r then f r else r)
      ]
  found_after id = find-update_same (task_is key) (task_is id) f tasks (λ r. rw (kept r))

  -- The one row that changes is the row with that id.
  changed_row :
      (good : (t : Task) → find (task_is key) tasks ≡ some t → RowOk (f t))
      → (id : String) (r : Task) → find (task_is id) tasks ≡ some r
      → RowOk r
      → RowOk (if task_is key r then f r else r)
  changed_row good id r e old = elim (Bool-cases (task_is key r)) [
    | inl here ↦
        let same : key ≡ id =
          sym ((eq_iff r.id key).0 here)
          ∙ (eq_iff r.id id).0 (count-find (task_is id) tasks r e).0 in
        rw here (good r (rw same e))
    | inr elsewhere ↦ rw elsewhere old
  ]

  pub TasksOk-update :
      TasksOk tasks
      → ((t : Task) → find (task_is key) tasks ≡ some t → RowOk (f t))
      → ((t : Task)
          → find (task_is key) tasks ≡ some t
          → (x : Task) → bit (same_issue x (f t)) ≤ bit (same_issue x t))
      → TasksOk (update (task_is key) f tasks)
  TasksOk-update ok good fewer = record {
    issues = λ x. elim (Option-cases (find (task_is key) tasks)) [
      | inl missing ↦
          rw (update_none (task_is key) f tasks (find-count (task_is key) tasks missing))
            (ok.issues x)
      | inr (r, e) ↦ omega (
        arith,
        count-update (task_is key) (same_issue x) f tasks r (ok.unique key) e,
        ok.issues x,
        fewer r e x,
      )
    ];
    unique = λ id.
        rw (count-update_same (task_is key) (task_is id) f tasks (λ r. rw (kept r))) (ok.unique id);
    rows = λ id t e. elim (Option-cases (find (task_is id) tasks)) [
      | inl missing ↦
          let after : find (task_is id) (update (task_is key) f tasks) ≡ none =
            found_after id ∙ (rw missing) in
          cc
      | inr (r, before) ↦
          let after : some (if task_is key r then f r else r) ≡ some t =
            sym (found_after id ∙ (rw before)) ∙ e in
          let same : (if task_is key r then f r else r) ≡ t = cc in
          subst RowOk same (changed_row good id r before (ok.rows id r before))
    ];
  }

pub can_transition-valid :
    (from to : Status) → can_transition from to ≡ true → (valid to ≡ true) × (terminal from ≡ false)
unfolding can_transition
can_transition-valid from to h = ground arith

-- The row that a permitted transition writes.
pub RowOk-moved :
    (now : ℕ) (p : TransitionParams) (cur : Task)
    → can_transition cur.status p.to ≡ true
    → RowOk cur
    → RowOk (moved now p cur)
unfolding moved
RowOk-moved now p cur h ok = record {
  phased = refl;
  completes = ground (arith, can_transition-valid cur.status p.to h, ok.completes);
  known = (can_transition-valid cur.status p.to h).0;
  versioned = omega arith;
}

-- How many attempts each task has to have active after the UPDATE.
pub open_count-moved :
    (now : ℕ) (p : TransitionParams) (cur : Task) (tasks : List Task)
    → can_transition cur.status p.to ≡ true
    → find (task_is cur.id) tasks ≡ some cur
    → (tid : String)
    → open_count tid (update (task_is cur.id) (moved now p) tasks)
        + bit (terminal p.to && str_eq cur.id tid)
      ≡ open_count tid tasks
unfolding open_count moved
open_count-moved now p cur tasks h e tid = elim (Option-cases (find (task_is tid) tasks)) [
  | inl missing ↦
      let after : find (task_is tid) (update (task_is cur.id) (moved now p) tasks) ≡ none =
        found_after cur.id (moved now p) (λ t. refl) tasks tid ∙ (rw missing) in
      ground (arith, eq_iff cur.id tid)
  | inr (r, before) ↦
      let after : find (task_is tid) (update (task_is cur.id) (moved now p) tasks)
          ≡ some (if task_is cur.id r then moved now p r else r) =
        found_after cur.id (moved now p) (λ t. refl) tasks tid ∙ (rw before) in
      ground (
        arith,
        eq_iff cur.id tid,
        eq_iff r.id cur.id,
        eq_iff r.id tid,
        count-find (task_is tid) tasks r before,
        can_transition-valid cur.status p.to h,
      )
]

open_phase :
    (s : Status) → valid s ≡ true → terminal s ≡ false → is_terminal_phase (phase s) ≡ false
unfolding valid terminal phase
open_phase s v h = ground arith

-- The test of the index, as it depends on the phases.
claims :
    (a b final before c d : Bool)
    → before ≡ false
    → bit (a && (b && not final) && c && d) ≤ bit (a && (b && not before) && c && d)
claims a b final before c d h = ground arith

-- A permitted transition claims no issue for a task that did not hold it.
pub same_issue-moved :
    (now : ℕ) (p : TransitionParams) (cur x : Task)
    → can_transition cur.status p.to ≡ true
    → RowOk cur
    → bit (same_issue x (moved now p cur)) ≤ bit (same_issue x cur)
unfolding moved same_issue holds_issue
same_issue-moved now p cur x h ok =
    let open_now : is_terminal_phase cur.phase ≡ false =
      rw ok.phased (open_phase cur.status ok.known (can_transition-valid cur.status p.to h).1) in
    claims (holds_issue x) (str_eq cur.source_type "github_issue") (is_terminal_phase (phase p.to))
      (is_terminal_phase cur.phase) (same_text x.repository_id cur.repository_id)
      (same_number x.source_issue_number cur.source_issue_number) open_now
