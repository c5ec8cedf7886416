-- ===== src/Store/Invariant/Columns.antt =====
-- `EnsureGitContext` and the check-run columns keep the tables well-formed.
use agent_trail.Base.{
  ℕ, String, ◌≡◌, refl, not, none, some, arith, ℤ, Option-cases, inl, inr, if◌then◌else◌,
}
use agent_trail.Task.{Task, Attempt}
use agent_trail.Text.{canonical, is_uuid}
use agent_trail.Table.{find, update}
use agent_trail.Db.{
  Db, Session, on_ok, require-eq-ok, or_throw-eq-ok, query-eq-ok, exec-eq-ok, statement_keeps,
}
use agent_trail.Store.Statements.{task_is, same_issue, holds_issue}
use agent_trail.Store.Records.{
  with_git_context, ensure_git_context_body, ensure_git_context, with_check_run,
  with_check_run_done, record_trigger_body, record_trigger_check_run, mark_trigger_body,
  mark_trigger_check_run_completed,
}
use agent_trail.Store.Invariant.Defs.{Wf, RowOk, open_count}
use agent_trail.Store.Invariant.Attempts.{KeepsKeys, AttemptsOk-opens}
use agent_trail.Store.Invariant.Tasks.{found_after, TasksOk-update}
use agent_trail.Store.Invariant.Operations.{unless_keeps}
use agent_trail.Store.Invariant.Records.{Wf-attempts}

git_context_row :
    (now : ℕ) (base branch : String) (t : Task)
    → ((with_git_context now base branch t).id ≡ t.id)
      × ((with_git_context now base branch t).status ≡ t.status)
      × (RowOk t → RowOk (with_git_context now base branch t))
      × ((x : Task) → same_issue x (with_git_context now base branch t) ≡ same_issue x t)
unfolding with_git_context same_issue holds_issue
git_context_row now base branch t = (
  refl,
  refl,
  λ ok. record {
    phased = ok.phased;
    completes = ok.completes;
    known = ok.known;
    versioned = omega (arith, ok.versioned);
  },
  λ x. refl,
)

module _ (now : ℕ) (id base branch : String) (db : Db) (wf : Wf db) where
  changed :
      (tid : String)
      → find (task_is tid) (update (task_is id) (with_git_context now base branch) db.tasks)
        ≡ elim (find (task_is tid) db.tasks) [
          | none ↦ none
          | some r ↦ some (if task_is id r then with_git_context now base branch r else r)
        ]
  changed tid =
      found_after id (with_git_context now base branch) (λ t. (git_context_row now base branch t).0)
        db.tasks tid

  same_open :
      (tid : String)
      → open_count tid (update (task_is id) (with_git_context now base branch) db.tasks)
        ≡ open_count tid db.tasks
  unfolding open_count
  same_open tid = elim (Option-cases (find (task_is tid) db.tasks)) [
    | inl missing ↦ ground (arith, changed tid)
    | inr (r, e) ↦ ground (arith, changed tid, (git_context_row now base branch r).1)
  ]

  Wf-git_context :
      Wf (record db { tasks = update (task_is id) (with_git_context now base branch) db.tasks })
  Wf-git_context = record {
    tasks_ok =
        TasksOk-update id (with_git_context now base branch)
          (λ t. (git_context_row now base branch t).0) db.tasks wf.tasks_ok
          (λ t e. (git_context_row now base branch t).2 (wf.tasks_ok.rows id t e))
          (λ t e x. rw ((git_context_row now base branch t).3 x) (omega arith));
    attempts_ok = AttemptsOk-opens same_open wf.attempts_ok;
    events_ok = wf.events_ok;
    owned = λ tid gone. elim (Option-cases (find (task_is tid) db.tasks)) [
      | inl missing ↦ wf.owned tid missing
      | inr (r, e) ↦ absurd (ground (arith, changed tid))
    ];
  }

pub ensure_git_context-Wf :
    (id base branch : String) (s : Session) → Wf s.db → Wf (ensure_git_context id base branch s).1
unfolding ensure_git_context ensure_git_context_body
ensure_git_context-Wf id base branch s wf = unless_keeps Wf (not (is_uuid id)) _ _ s wf (
    statement_keeps Wf _ s wf λ r t h. on_ok _ _ h λ u s1 e1 h1. on_ok _ _ h1 λ row s2 e2 h2.
      on_ok _ _ h2 λ a s3 e3 h3.
        let wrote = exec-eq-ok _ _ s e1 in
        let same2 = query-eq-ok _ _ s1 e2 in
        let same3 = or_throw-eq-ok row _ s2 e3 in
        let last : t.db ≡ record (s.db) {
          tasks = update (task_is (canonical id)) (with_git_context s.now base branch) s.db.tasks;
        } =
          ground arith in
        rw last (Wf-git_context s.now (canonical id) base branch s.db wf))

check_run_keys : (run : ℤ) → KeepsKeys (with_check_run run)
unfolding with_check_run
check_run_keys run = record { id_kept = λ a. refl; task_kept = λ a. refl; number_kept = λ a. refl }

check_run_status : (run : ℤ) (a : Attempt) → (with_check_run run a).status ≡ a.status
unfolding with_check_run
check_run_status run a = refl

done_keys : (now : ℕ) → KeepsKeys (with_check_run_done now)
unfolding with_check_run_done
done_keys now = record { id_kept = λ a. refl; task_kept = λ a. refl; number_kept = λ a. refl }

done_status : (now : ℕ) (a : Attempt) → (with_check_run_done now a).status ≡ a.status
unfolding with_check_run_done
done_status now a = refl

pub record_trigger_check_run-Wf :
    (tid : String) (run : ℤ) (s : Session) → Wf s.db → Wf (record_trigger_check_run tid run s).1
unfolding record_trigger_check_run record_trigger_body
record_trigger_check_run-Wf tid run s wf = unless_keeps Wf (not (is_uuid tid)) _ _ s wf (
    statement_keeps Wf _ s wf λ r t h. on_ok _ _ h λ n s1 e1 h1. on_ok _ _ h1 λ u s2 e2 h2.
      let same1 = query-eq-ok _ _ s e1 in
      let wrote = exec-eq-ok _ _ s1 e2 in
      let same2 = require-eq-ok _ _ s2 h2 in
      let back : s1.db ≡ s.db = ground arith in
      let last : t.db ≡ s2.db = ground arith in
      rw (last, wrote.0)
        (Wf-attempts (with_check_run run) _ {db = s1.db} (check_run_keys run) (check_run_status run)
          (rw back wf)))

pub mark_trigger_check_run_completed-Wf :
    (aid : String) (s : Session) → Wf s.db → Wf (mark_trigger_check_run_completed aid s).1
unfolding mark_trigger_check_run_completed mark_trigger_body
mark_trigger_check_run_completed-Wf aid s wf = unless_keeps Wf (not (is_uuid aid)) _ _ s wf (
    statement_keeps Wf _ s wf λ r t h.
      let wrote = exec-eq-ok _ _ s h in
      rw wrote.0
        (Wf-attempts (with_check_run_done s.now) _ (done_keys s.now) (done_status s.now) wf))
