-- ===== src/Store/Apply.antt =====
-- internal/task/store.go: `applyTransition` and the insertion of attempts.
use agent_trail.Base.{
  ℕ, ◌+◌, String, Bool, false, not, ◌&&◌, ◌||◌, Option, some, [], ◌∷◌, ◌++◌, pos, int_eq, str_eq,
  if◌then◌else◌,
}
use agent_trail.Status.{
  Status, queued, provisioning, revision_requested, cancelled, status_eq, terminal, phase,
  can_transition,
}
use agent_trail.Task.{
  Task, Attempt, superseded, ended, Payload, RevisionParams, TransitionParams, invalid_transition,
  version_conflict, unknown_source, failed_statement,
}
use agent_trail.Table.{find, exists, update}
use agent_trail.Db.{Db, Tx, query, exec, fresh_id, require, pure, or_throw, ◌>>=◌, ◌>>◌}
use agent_trail.Store.Statements.{
  status_text, transition_event_type, valid_source, coalesce, null_if_empty, truncate_runes,
  max_status_reason_len, task_is, attempt_is, active_of, seen_key, insert_event, revision_attempt,
}

-- An INSERT into task_attempts, refused by the primary key where the id is taken.
unfoldable pub add_attempt : (ℕ → String → Attempt) → Tx String
add_attempt row = do
  id ← fresh_id "insert attempt"
  taken ← query "insert attempt" (λ db. exists (attempt_is id) db.attempts)
  require (not taken) (failed_statement "insert attempt")
  exec "insert attempt" (λ now db. record db { attempts = db.attempts ++ row now id ∷ [] })
  pure id

unfoldable pub insert_revision_attempt : String → ℕ → Option RevisionParams → Tx String
insert_revision_attempt tid number r = add_attempt (λ now id. revision_attempt now id tid number r)

-- SET of the three UPDATEs of task_attempts
unfoldable pub finish_attempt : ℕ → TransitionParams → Attempt → Attempt
finish_attempt now p a = record a {
  status = ended p.to;
  completed_at = some now;
  failure_code = null_if_empty p.failure_code;
  failure_message = null_if_empty p.failure_message;
}

unfoldable pub supersede_attempt : ℕ → Attempt → Attempt
supersede_attempt now a = record a { status = superseded; completed_at = some now }

unfoldable pub start_attempt : ℕ → Attempt → Attempt
start_attempt now a = record a { started_at = coalesce a.started_at (some now) }

abbrev pub update_attempt : String → (ℕ → Attempt → Attempt) → ℕ → Db → Db
update_attempt id set now db = record db { attempts = update (attempt_is id) (set now) db.attempts }

-- The `switch`: moves the active attempt, and gives the attempt that the event is filed under.
unfoldable pub move_attempt : Task → TransitionParams → Attempt → Tx String
move_attempt cur p a =
    if terminal p.to
    then (do exec "finish attempt" (update_attempt a.id (λ now. finish_attempt now p)); pure a.id)
    else if status_eq cur.status revision_requested && status_eq p.to queued
    then (do
      exec "supersede attempt" (update_attempt a.id supersede_attempt)
      insert_revision_attempt cur.id (a.number + 1) p.revision)
    else if status_eq p.to provisioning
    then (do exec "start attempt" (update_attempt a.id start_attempt); pure a.id)
    else pure a.id

-- SET of the UPDATE of tasks
unfoldable pub moved : ℕ → TransitionParams → Task → Task
moved now p t = record t {
  status = p.to;
  phase = phase p.to;
  version = t.version + 1;
  updated_at = now;
  started_at =
      if status_eq p.to provisioning then coalesce t.started_at (some now) else t.started_at;
  completed_at = if terminal p.to then some now else t.completed_at;
  cancel_requested_at =
      if status_eq p.to cancelled
      then coalesce t.cancel_requested_at (some now)
      else t.cancel_requested_at;
  failure_code = coalesce (null_if_empty p.failure_code) t.failure_code;
  failure_message = coalesce (null_if_empty p.failure_message) t.failure_message;
  status_reason = null_if_empty (truncate_runes p.reason max_status_reason_len);
}

unfoldable pub update_task : String → TransitionParams → Tx Task
update_task id p = do
  exec "update task" (λ now db. record db { tasks = update (task_is id) (moved now p) db.tasks })
  row ← query "update task" (λ db. find (task_is id) db.tasks)
  or_throw row (failed_statement "update task")

unfoldable pub transition_payload : Status → TransitionParams → Payload
transition_payload from p =
    ("from", status_text from)
    ∷ ("to", status_text p.to)
    ∷ (if str_eq p.reason "" then [] else ("reason", p.reason) ∷ [])

-- From the guards that follow the replay check to the end of `applyTransition`.
unfoldable pub perform : Task → TransitionParams → String → Tx Task
perform cur p source = do
  require (int_eq p.expected_version (pos 0) || int_eq p.expected_version (pos cur.version))
      (version_conflict p.expected_version cur.version)
  require (can_transition cur.status p.to) (invalid_transition cur.status p.to)
  row ← query "load active attempt" (λ db. find (active_of cur.id) db.attempts)
  a ← or_throw row (failed_statement "load active attempt")
  aid ← move_attempt cur p a
  next ← update_task cur.id p
  insert_event aid (transition_event_type p.to) source (transition_payload cur.status p)
      p.idempotency_key
  pure next

-- The replay check: a key that the task's events already hold.
unfoldable pub replayed : String → String → Tx Bool
replayed tid key =
    if str_eq key "" then pure false else query "idempotency check" (seen_key tid key)

unfoldable pub source_of : TransitionParams → String
source_of p = if str_eq p.source "" then "system" else p.source

unfoldable pub apply_transition : Task → TransitionParams → Tx Task
apply_transition cur p = do
  require (valid_source (source_of p)) (unknown_source (source_of p))
  seen ← replayed cur.id p.idempotency_key
  if seen then pure cur else perform cur p (source_of p)
