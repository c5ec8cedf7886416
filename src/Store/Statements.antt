-- ===== src/Store/Statements.antt =====
-- internal/task/store.go: the statements that the operations share, and the texts that they write.
use Prim.Native.String.{◌++◌ as concat}
use agent_trail.Base.{
  not, ℤ, int_eq, ℕ, zero, suc, ◌+◌, String, Bool, true, false, ◌&&◌, ◌||◌, Option, none, some,
  List, [], ◌∷◌, ◌++◌, str_eq, leb, if◌then◌else◌,
}
use agent_trail.Status.{
  Phase, terminal_phase, Status, created, queued, provisioning, planning, executing, validating,
  publishing, awaiting_review, revision_requested, completed, failed, cancelled, timed_out, unknown,
}
use agent_trail.Task.{
  Task, Attempt, active, superseded, ended, AttemptStatus, Event, Payload, RevisionParams,
  not_found,
}
use agent_trail.Table.{find, exists, greatest}
use agent_trail.Db.{Db, Tx, query, exec, fresh_id, or_throw, ◌>>=◌}

-- string(s)
unfoldable pub status_text : Status → String
status_text created = "created"
status_text queued = "queued"
status_text provisioning = "provisioning"
status_text planning = "planning"
status_text executing = "executing"
status_text validating = "validating"
status_text publishing = "publishing"
status_text awaiting_review = "awaiting_review"
status_text revision_requested = "revision_requested"
status_text completed = "completed"
status_text failed = "failed"
status_text cancelled = "cancelled"
status_text timed_out = "timed_out"
status_text (unknown s) = s

unfoldable pub transition_event_type : Status → String
unfolding status_text
transition_event_type s = concat "task." (status_text s)

unfoldable pub valid_source : String → Bool
valid_source s = str_eq s "api" || str_eq s "system" || str_eq s "runner" || str_eq s "agent"

abbrev pub is_some {ℓ} : {A : Type ℓ} → Option A → Bool
is_some none = false
is_some (some a) = true

-- COALESCE(a, b) and NULLIF(s, '')
abbrev pub coalesce {ℓ} : {A : Type ℓ} → Option A → Option A → Option A
coalesce none b = b
coalesce (some a) b = some a

abbrev pub null_if_empty : String → Option String
null_if_empty s = if str_eq s "" then none else some s

rune_count : String → ℕ
rune_count String.[] = 0
rune_count (String.◌∷◌ c s) = suc (rune_count s)

first_runes : ℕ → String → String
first_runes zero s = ""
first_runes (suc n) String.[] = ""
first_runes (suc n) (String.◌∷◌ c s) = String.◌∷◌ c (first_runes n s)

unfoldable pub truncate_runes : String → ℕ → String
unfolding rune_count first_runes
truncate_runes s n = if leb (rune_count s) n then s else first_runes n s

-- bound of tasks.status_reason
abbrev pub max_status_reason_len : ℕ
max_status_reason_len = 1000

-- The tests of the WHERE clauses, on uuids in the canonical text.
abbrev pub task_is : String → Task → Bool
task_is id t = str_eq t.id id

abbrev pub attempt_is : String → Attempt → Bool
attempt_is id a = str_eq a.id id

abbrev pub is_active : AttemptStatus → Bool
is_active active = true
is_active superseded = false
is_active (ended s) = false

abbrev pub of_task : String → Attempt → Bool
of_task tid a = str_eq a.task_id tid

abbrev pub active_of : String → Attempt → Bool
active_of tid a = of_task tid a && is_active a.status

abbrev pub event_of : String → Event → Bool
event_of aid e = str_eq e.task_attempt_id aid

abbrev pub key_is : String → Option String → Bool
key_is key none = false
key_is key (some k) = str_eq k key

abbrev pub is_terminal_phase : Phase → Bool
is_terminal_phase terminal_phase = true
is_terminal_phase _ = false

abbrev pub same_text : Option String → Option String → Bool
same_text (some a) (some b) = str_eq a b
same_text _ _ = false

abbrev pub same_number : Option ℤ → Option ℤ → Bool
same_number (some a) (some b) = int_eq a b
same_number _ _ = false

-- WHERE source_type = 'github_issue' AND phase <> 'terminal'
unfoldable pub holds_issue : Task → Bool
holds_issue t = str_eq t.source_type "github_issue" && not (is_terminal_phase t.phase)

-- Two rows that tasks_one_active_per_issue_idx keeps apart.
unfoldable pub same_issue : Task → Task → Bool
same_issue a b =
    holds_issue a
    && holds_issue b
    && same_text a.repository_id b.repository_id
    && same_number a.source_issue_number b.source_issue_number

-- EXISTS (… activity_events e JOIN task_attempts a …)
unfoldable pub seen_key : String → String → Db → Bool
seen_key tid key db =
    exists
      (λ e.
        key_is key e.idempotency_key
        && exists (λ a. attempt_is e.task_attempt_id a && of_task tid a) db.attempts)
      db.events

-- `lockTask`
unfoldable pub lock_task : String → Tx Task
lock_task id = do row ← query "lock task" (λ db. find (task_is id) db.tasks); or_throw row not_found

unfoldable pub new_event :
    ℕ → String → String → String → String → Payload → String → List Event → Event
new_event now id aid event_type source payload key events = record {
  id = id;
  task_attempt_id = aid;
  sequence_number = greatest (event_of aid) (λ e. e.sequence_number) events + 1;
  event_type = event_type;
  source = source;
  timestamp = now;
  payload = payload;
  redaction_status = "none";
  idempotency_key = null_if_empty key;
  created_at = now;
}

unfoldable pub insert_event : String → String → String → Payload → String → Tx (Unit {0})
insert_event aid event_type source payload key = do
  id ← fresh_id "insert event"
  exec "insert event" (λ now db. record db {
    events = db.events ++ new_event now id aid event_type source payload key db.events ∷ [];
  })

-- An attempt with the defaults of its columns.
unfoldable pub bare_attempt : ℕ → String → String → ℕ → Attempt
bare_attempt now id tid number = record {
  id = id;
  task_id = tid;
  number = number;
  status = active;
  base_commit_sha = none;
  final_commit_sha = none;
  pull_request_number = none;
  instructions = none;
  requested_by_login = none;
  trigger_comment_id = none;
  trigger_check_run_id = none;
  trigger_check_run_completed_at = none;
  feedback = [];
  failure_code = none;
  failure_message = none;
  started_at = none;
  completed_at = none;
  created_at = now;
  runner_id = none;
  lease_owner = none;
  lease_expires_at = none;
  heartbeat_at = none;
}

unfoldable pub revision_attempt : ℕ → String → String → ℕ → Option RevisionParams → Attempt
revision_attempt now id tid number none = bare_attempt now id tid number
revision_attempt now id tid number (some r) =
    let a = bare_attempt now id tid number in
    record a {
      instructions = some r.instructions;
      base_commit_sha = some r.base_commit_sha;
      requested_by_login = some r.requested_by_login;
      trigger_comment_id = some r.trigger_comment_id;
      feedback = r.feedback;
    }
