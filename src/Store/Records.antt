-- ===== src/Store/Records.antt =====
-- internal/task/store.go: the operations that append an event or fill in a column, and leave the
-- statuses alone.
use agent_trail.Base.{ℕ, ◌+◌, String, Bool, not, ◌&&◌, Option, none, some, [], ℤ, ◌==◌}
use agent_trail.Task.{
  Task, Attempt, Payload, not_found, attempt_not_found, unknown_source, failed_statement,
}
use agent_trail.Table.{find, count, update}
use agent_trail.Text.{is_uuid, canonical}
use agent_trail.Db.{
  err, Tx, query, exec, require, pure, or_throw, commit, transaction, statement, ◌>>=◌, ◌>>◌,
}
use agent_trail.Store.Statements.{
  valid_source, coalesce, task_is, attempt_is, active_of, is_some, lock_task, insert_event,
}
use agent_trail.Store.Operations.{Operation, unless}

-- What `json.Marshal(payload)` gives: nothing where it fails, and no object where it is `null`.
abbrev pub Marshalled : Type 0
Marshalled = Option (Option Payload)

abbrev or_empty : Option Payload → Payload
or_empty none = []
or_empty (some p) = p

unfoldable pub append_attempt_body : String → String → String → Payload → Tx (Unit {0})
append_attempt_body aid event_type source payload = do
  row ← query "load attempt" (λ db. find (attempt_is aid) db.attempts)
  a ← or_throw row attempt_not_found
  _ ← lock_task a.task_id
  insert_event aid event_type source payload ""
  commit

abbrev marshalled : {A : Type 0} → Marshalled → (Payload → Operation A) → Operation A
marshalled none op s = (err (failed_statement "marshal payload"), s.db)
marshalled (some p) op s = op (or_empty p) s

unfoldable pub append_attempt_event : String → String → String → Marshalled → Operation (Unit {0})
append_attempt_event aid event_type source payload = unless (not (is_uuid aid)) attempt_not_found (
    unless (not (valid_source source)) (unknown_source source) (
      marshalled payload
        (λ raw. transaction (append_attempt_body (canonical aid) event_type source raw))))

unfoldable pub append_body : String → String → String → Payload → Tx (Unit {0})
append_body tid event_type source payload = do
  _ ← lock_task tid
  row ← query "load active attempt" (λ db. find (active_of tid) db.attempts)
  a ← or_throw row (failed_statement "load active attempt")
  insert_event a.id event_type source payload ""
  commit

unfoldable pub append_event : String → String → String → Payload → Operation (Unit {0})
append_event tid event_type source payload =
    unless (not (is_uuid tid)) not_found
      (transaction (append_body (canonical tid) event_type source payload))

-- SET of `EnsureGitContext`
unfoldable pub with_git_context : ℕ → String → String → Task → Task
with_git_context now base branch t = record t {
  base_commit_sha = coalesce t.base_commit_sha (some base);
  working_branch = coalesce t.working_branch (some branch);
  version = t.version + 1;
  updated_at = now;
}

unfoldable pub ensure_git_context_body :
    String → String → String → Tx (Option String × Option String)
ensure_git_context_body id base branch = do
  exec "ensure git context" (λ now db. record db {
    tasks = update (task_is id) (with_git_context now base branch) db.tasks;
  })
  row ← query "ensure git context" (λ db. find (task_is id) db.tasks)
  t ← or_throw row not_found
  pure (t.base_commit_sha, t.working_branch)

unfoldable pub ensure_git_context :
    String → String → String → Operation (Option String × Option String)
ensure_git_context id base branch =
    unless (not (is_uuid id)) not_found
      (statement (ensure_git_context_body (canonical id) base branch))

-- SET of `RecordTriggerCheckRun` and of `MarkTriggerCheckRunCompleted`
unfoldable pub with_check_run : ℤ → Attempt → Attempt
with_check_run run a = record a {
  trigger_check_run_id = coalesce a.trigger_check_run_id (some run);
}

unfoldable pub with_check_run_done : ℕ → Attempt → Attempt
with_check_run_done now a = record a {
  trigger_check_run_completed_at = coalesce a.trigger_check_run_completed_at (some now);
}

abbrev has_check_run : String → Attempt → Bool
has_check_run aid a = attempt_is aid a && is_some a.trigger_check_run_id

unfoldable pub record_trigger_body : String → ℤ → Tx (Unit {0})
record_trigger_body tid run = do
  n ← query "record trigger check run" (λ db. count (active_of tid) db.attempts)
  exec "record trigger check run"
      (λ now db. record db { attempts = update (active_of tid) (with_check_run run) db.attempts })
  require (not (n == 0)) attempt_not_found

unfoldable pub record_trigger_check_run : String → ℤ → Operation (Unit {0})
record_trigger_check_run tid run =
    unless (not (is_uuid tid)) not_found (statement (record_trigger_body (canonical tid) run))

unfoldable pub mark_trigger_body : String → Tx (Unit {0})
mark_trigger_body aid = exec "mark trigger check run completed" (λ now db. record db {
  attempts = update (has_check_run aid) (with_check_run_done now) db.attempts;
})

unfoldable pub mark_trigger_check_run_completed : String → Operation (Unit {0})
mark_trigger_check_run_completed aid =
    unless (not (is_uuid aid)) attempt_not_found (statement (mark_trigger_body (canonical aid)))
