-- ===== src/Store/Operations.antt =====
-- internal/task/store.go: the operations that write, each one transaction.
use agent_trail.Base.{
  ℕ, String, Bool, true, false, not, ◌&&◌, none, some, [], ◌∷◌, ◌++◌, pos, int_leb, str_eq,
  if◌then◌else◌,
}
use agent_trail.Status.{Status, created, queued, revision_requested, cancelled, pending, status_eq}
use agent_trail.Task.{
  Task, Attempt, CreateParams, RevisionParams, TransitionParams, Error, not_found,
  active_task_exists, revision_replayed, revision_incomplete, revision_limit, failed_statement,
}
use agent_trail.Table.{find, exists, count}
use agent_trail.Text.{is_uuid, canonical, canonical_key, is_sha}
use agent_trail.Db.{
  Db, Session, Result, err, Tx, query, exec, fresh_id, require, pure, or_throw, commit, transaction,
  ◌>>=◌, ◌>>◌,
}
use agent_trail.Store.Statements.{
  same_issue, null_if_empty, task_is, active_of, of_task, seen_key, lock_task, insert_event,
  bare_attempt,
}
use agent_trail.Store.Apply.{apply_transition, add_attempt}

-- An operation's result, and the tables after it.
abbrev pub Operation : Type 0 → Type 0
Operation A = Session → Result A × Db

-- A check that returns before the database is reached.
abbrev pub unless : {A : Type 0} → Bool → Error → Operation A → Operation A
unless true e op s = (err e, s.db)
unless false e op s = op s

-- The fields that a `TransitionParams` literal leaves out are zero.
abbrev pub transition_to : Status → String → String → TransitionParams
transition_to to source reason = record {
  to = to;
  source = source;
  reason = reason;
  failure_code = "";
  failure_message = "";
  idempotency_key = "";
  expected_version = pos 0;
  revision = none;
}

abbrev or_default : String → String → String
or_default s d = if str_eq s "" then d else s

unfoldable pub new_task : ℕ → String → CreateParams → Task
new_task now id p = record {
  id = id;
  organization_id = canonical_key p.organization_id;
  repository_id = canonical_key p.repository_id;
  source_type = or_default p.source_type "api";
  source_issue_number = p.source_issue_number;
  source_comment_id = p.source_comment_id;
  title = p.title;
  instructions = p.instructions;
  status = created;
  phase = pending;
  priority = p.priority;
  base_branch = or_default p.base_branch "main";
  base_commit_sha = none;
  working_branch = none;
  agent_provider = none;
  agent_model = none;
  policy_id = none;
  requested_by_user_id = none;
  max_runtime_seconds = p.max_runtime_seconds;
  max_cost_usd = p.max_cost_usd;
  started_at = none;
  completed_at = none;
  cancel_requested_at = none;
  failure_code = none;
  failure_message = none;
  status_reason = none;
  created_at = now;
  updated_at = now;
  version = 1;
}

-- The INSERT into tasks, with the index violation that the code reports as ErrActiveTaskExists.
unfoldable pub insert_task : CreateParams → Tx Task
insert_task p = do
  id ← fresh_id "insert task"
  busy ← query "insert task" (λ db. exists (λ t. same_issue (new_task 0 id p) t) db.tasks)
  require (not busy) active_task_exists
  taken ← query "insert task" (λ db. exists (task_is id) db.tasks)
  require (not taken) (failed_statement "insert task")
  exec "insert task" (λ now db. record db { tasks = db.tasks ++ new_task now id p ∷ [] })
  row ← query "insert task" (λ db. find (task_is id) db.tasks)
  or_throw row (failed_statement "insert task")

unfoldable pub first_attempt : Task → CreateParams → ℕ → String → Attempt
first_attempt t p now id =
    let a = bare_attempt now id t.id 1 in
    record a {
      requested_by_login = null_if_empty p.requested_by_login;
      trigger_comment_id = p.source_comment_id;
    }

unfoldable pub create_body : CreateParams → Tx Task
create_body p = do
  t ← insert_task p
  aid ← add_attempt (first_attempt t p)
  insert_event aid "task.created" "api" (("title", t.title) ∷ []) ""
  next ← apply_transition t (transition_to queued "system" "")
  commit
  pure next

unfoldable pub create : CreateParams → Operation Task
create p = transaction (create_body p)

unfoldable pub transition_body : String → TransitionParams → Tx Task
transition_body id p = do cur ← lock_task id; next ← apply_transition cur p; commit; pure next

unfoldable pub transition : String → TransitionParams → Operation Task
transition id p =
    unless (not (is_uuid id)) not_found (transaction (transition_body (canonical id) p))

-- The checks of the parameters before the transaction.
unfoldable pub complete_revision : RevisionParams → Bool
complete_revision p =
    not (str_eq p.instructions "")
    && is_sha p.base_commit_sha
    && not (str_eq p.requested_by_login "")
    && int_leb (pos 1) p.trigger_comment_id
    && int_leb (pos 1) p.max_attempts
    && not (str_eq p.idempotency_key "")

unfoldable pub revise_body : String → RevisionParams → Tx (Task × Attempt)
revise_body id p = do
  cur ← lock_task id
  seen ← query "revision replay check" (seen_key id p.idempotency_key)
  require (not seen) revision_replayed
  attempts ← query "count attempts" (λ db. count (of_task id) db.attempts)
  require (not (int_leb p.max_attempts (pos attempts))) (revision_limit attempts p.max_attempts)
  requested ← apply_transition cur (
      let q = transition_to revision_requested "system" p.reason in
      record q { idempotency_key = p.idempotency_key })
  require (status_eq requested.status revision_requested) revision_replayed
  next ←
      apply_transition requested
        (let q = transition_to queued "system" p.reason in record q { revision = some p })
  row ← query "load revision attempt" (λ db. find (active_of id) db.attempts)
  a ← or_throw row (failed_statement "load revision attempt")
  commit
  pure (next, a)

unfoldable pub request_revision : String → RevisionParams → Operation (Task × Attempt)
request_revision id p = unless (not (is_uuid id)) not_found (
    unless (not (complete_revision p)) revision_incomplete
      (transaction (revise_body (canonical id) p)))

-- The early return of a cancelled task does not commit; it has written nothing.
unfoldable pub cancel_body : String → String → Tx Task
cancel_body id reason = do
  cur ← lock_task id
  if status_eq cur.status cancelled
      then pure cur
      else do next ← apply_transition cur (transition_to cancelled "api" reason); commit; pure next

unfoldable pub cancel : String → String → Operation Task
cancel id reason =
    unless (not (is_uuid id)) not_found (transaction (cancel_body (canonical id) reason))
