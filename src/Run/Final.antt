-- ===== src/Run/Final.antt =====
-- internal/task/store.go: a task that has ended stays as it ended.
use agent_trail.Base.{
  ℕ, String, ◌≡◌, refl, sym, ap, ◌∙◌, true, false, Option, some, List, [], ◌∷◌, ◌++◌, inl, inr,
  eq_iff, some_inj, str_eq, Bool-cases, if◌then◌else◌,
}
use mathlib.Core.Path.{subst}
use agent_trail.Status.{Status, terminal}
use agent_trail.Status.History.{terminal-can_transition}
use agent_trail.Task.{Task, TransitionParams}
use agent_trail.Table.{find, update, find-append, find-update_same, count-find}
use agent_trail.Db.{Db, Session}
use agent_trail.Store.Statements.{task_is}
use agent_trail.Store.Apply.{moved}
use agent_trail.Store.Effect.Apply.{Applied, repeated, performed}
use agent_trail.Store.Records.{with_git_context}
use agent_trail.Run.Defs.{Request, Setting, run}
use agent_trail.Run.Keeps.{run_keeps}

-- The task is stored with this status and this outcome.
pub record Outcome (id : String) (st : Status) (at : Option ℕ) (code reason : Option String)
    (db : Db) : Type 0 where
  pub row : Task
  pub found : find (task_is id) db.tasks ≡ some row
  pub status : row.status ≡ st
  pub completed_at : row.completed_at ≡ at
  pub failure_code : row.failure_code ≡ code
  pub status_reason : row.status_reason ≡ reason

-- A request that leaves the tasks alone leaves the outcome.
Outcome-tasks :
    {id : String} {st : Status} {at : Option ℕ} {code reason : Option String} {before after : Db}
    → after.tasks ≡ before.tasks
    → Outcome id st at code reason before
    → Outcome id st at code reason after
Outcome-tasks e h = record {
  row = h.row;
  found = rw e h.found;
  status = h.status;
  completed_at = h.completed_at;
  failure_code = h.failure_code;
  status_reason = h.status_reason;
}

git_context_kept :
    (now : ℕ) (base branch : String) (t : Task)
    → ((with_git_context now base branch t).id ≡ t.id)
      × ((with_git_context now base branch t).status ≡ t.status)
      × ((with_git_context now base branch t).completed_at ≡ t.completed_at)
      × ((with_git_context now base branch t).failure_code ≡ t.failure_code)
      × ((with_git_context now base branch t).status_reason ≡ t.status_reason)
unfolding with_git_context
git_context_kept now base branch t = (refl, refl, refl, refl, refl)

module _ (id : String) (st : Status) (at : Option ℕ) (code reason : Option String) where
  abbrev Ended : Db → Type 0
  Ended = Outcome id st at code reason

  -- The update of another row leaves the outcome.
  other_row :
      (now : ℕ) (other : String) (p : TransitionParams) (tasks : List Task) (row : Task)
      → find (task_is id) tasks ≡ some row
      → str_eq row.id other ≡ false
      → find (task_is id) (update (task_is other) (moved now p) tasks) ≡ some row
  unfolding moved
  other_row now other p tasks row found apart =
      find-update_same (task_is other) (task_is id) (moved now p) tasks (λ r. refl)
      ∙ (rw (found, apart) refl)

  Applied-Ended :
      terminal st ≡ true
      → (cur next : Task) (p : TransitionParams) (s t : Session)
      → find (task_is cur.id) s.db.tasks ≡ some cur
      → Applied cur p s t next
      → Ended s.db
      → Ended t.db
  Applied-Ended final cur next p s t stored (repeated _ _ _ same _) h = rw same h
  Applied-Ended final cur next p s t stored (performed _ _ did) h =
      elim (Bool-cases (str_eq h.row.id cur.id)) [
        | inl same ↦
            let here : h.row.id ≡ id =
              (eq_iff h.row.id id).0 (count-find (task_is id) s.db.tasks h.row h.found).0 in
            let both : id ≡ cur.id = sym here ∙ (eq_iff h.row.id cur.id).0 same in
            let row : h.row ≡ cur = some_inj (
              sym h.found
              ∙ subst (λ k. find (task_is k) s.db.tasks ≡ some cur) (sym both) stored) in
            let ended : cur.status ≡ st = ap (λ (x : Task). x.status) (sym row) ∙ h.status in
            let stuck = terminal-can_transition cur.status p.to (inl (rw ended final)) in
            absurd (let q = did.permitted in cc)
        | inr apart ↦ record {
          row = h.row;
          found = rw did.tasks (other_row s.now cur.id p s.db.tasks h.row h.found apart);
          status = h.status;
          completed_at = h.completed_at;
          failure_code = h.failure_code;
          status_reason = h.status_reason;
        }
      ]

  new_row-Ended : (db : Db) (t : Task) → Ended db → Ended (record db { tasks = db.tasks ++ t ∷ [] })
  new_row-Ended db t h = record {
    row = h.row;
    found = find-append (task_is id) db.tasks (t ∷ []) ∙ (rw h.found refl);
    status = h.status;
    completed_at = h.completed_at;
    failure_code = h.failure_code;
    status_reason = h.status_reason;
  }

  git_context-Ended :
      (now : ℕ) (other base branch : String) (db : Db)
      → Ended db
      → Ended
          (record db { tasks = update (task_is other) (with_git_context now base branch) db.tasks })
  git_context-Ended now other base branch db h =
      let after : find (task_is id)
            (update (task_is other) (with_git_context now base branch) db.tasks)
          ≡ some (if task_is other h.row then with_git_context now base branch h.row else h.row) =
        find-update_same (task_is other) (task_is id) (with_git_context now base branch) db.tasks
          (λ r. rw (git_context_kept now base branch r).0 refl)
        ∙ (rw h.found refl) in
      let kept = git_context_kept now base branch h.row in
      elim (Bool-cases (task_is other h.row)) [
        | inl hit ↦ record {
          row = with_git_context now base branch h.row;
          found = after ∙ (rw hit refl);
          status = kept.1 ∙ h.status;
          completed_at = kept.2 ∙ h.completed_at;
          failure_code = kept.3 ∙ h.failure_code;
          status_reason = kept.4 ∙ h.status_reason;
        }
        | inr miss ↦ record {
          row = h.row;
          found = after ∙ (rw miss refl);
          status = h.status;
          completed_at = h.completed_at;
          failure_code = h.failure_code;
          status_reason = h.status_reason;
        }
      ]

-- A task that is stored with a final status keeps its status, its completion time, its failure code
-- and its status reason, whatever requests are served.
pub final_for_good :
    (id : String) (st : Status) (at : Option ℕ) (code reason : Option String) (db : Db)
    → terminal st ≡ true
    → Outcome id st at code reason db
    → (rs : List (Request × Setting)) → Outcome id st at code reason (run db rs)
final_for_good id st at code reason db final h rs =
    run_keeps (Ended id st at code reason) (Applied-Ended id st at code reason final)
      (new_row-Ended id st at code reason) (λ db e k. Outcome-tasks refl k)
      (git_context-Ended id st at code reason) (λ db a k. Outcome-tasks refl k) db rs h
