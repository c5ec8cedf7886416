-- ===== src/Task.antt =====
-- internal/task/task.go: the task, attempt and event records, the parameters of the store's
-- operations and their errors.
use agent_trail.Base.{ℕ, String, Option, List, ℤ}
use agent_trail.Status.{Status, Phase}

-- A row of `tasks`, and the `Task` that `scanTask` reads from it. Times are ticks of the
-- database's clock; `max_cost_usd` is NUMERIC(10, 2), counted in cents.
pub record Task : Type 0 where
  pub id : String
  pub organization_id : Option String
  pub repository_id : Option String
  pub source_type : String
  pub source_issue_number : Option ℤ
  pub source_comment_id : Option ℤ
  pub title : String
  pub instructions : String
  pub status : Status
  pub phase : Phase
  pub priority : ℤ
  pub base_branch : String
  pub base_commit_sha : Option String
  pub working_branch : Option String
  pub agent_provider : Option String
  pub agent_model : Option String
  pub policy_id : Option String
  pub requested_by_user_id : Option String
  pub max_runtime_seconds : Option ℤ
  pub max_cost_usd : Option ℕ
  pub started_at : Option ℕ
  pub completed_at : Option ℕ
  pub cancel_requested_at : Option ℕ
  pub failure_code : Option String
  pub failure_message : Option String
  pub status_reason : Option String
  pub created_at : ℕ
  pub updated_at : ℕ
  pub version : ℕ

pub data FeedbackKind : Type 0 where
  review review_comment comment revise_command : FeedbackKind

pub record FeedbackItem : Type 0 where
  pub kind : FeedbackKind
  pub author : String
  pub posted_at : ℕ
  pub location : String

-- `task_attempts.status`: 'active', 'superseded', or the text of a final task status.
pub data AttemptStatus : Type 0 where
  active superseded : AttemptStatus
  ended : Status → AttemptStatus

-- A row of `task_attempts`, with the lease columns that the runner store writes.
pub record Attempt : Type 0 where
  pub id : String
  pub task_id : String
  pub number : ℕ
  pub status : AttemptStatus
  pub base_commit_sha : Option String
  pub final_commit_sha : Option String
  pub pull_request_number : Option ℤ
  pub instructions : Option String
  pub requested_by_login : Option String
  pub trigger_comment_id : Option ℤ
  pub trigger_check_run_id : Option ℤ
  pub trigger_check_run_completed_at : Option ℕ
  pub feedback : List FeedbackItem
  pub failure_code : Option String
  pub failure_message : Option String
  pub started_at : Option ℕ
  pub completed_at : Option ℕ
  pub created_at : ℕ
  pub runner_id : Option String
  pub lease_owner : Option String
  pub lease_expires_at : Option ℕ
  pub heartbeat_at : Option ℕ

-- A JSON object of texts.
abbrev pub Payload : Type 0
Payload = List (String × String)

-- A row of `activity_events`.
pub record Event : Type 0 where
  pub id : String
  pub task_attempt_id : String
  pub sequence_number : ℕ
  pub event_type : String
  pub source : String
  pub timestamp : ℕ
  pub payload : Payload
  pub redaction_status : String
  pub idempotency_key : Option String
  pub created_at : ℕ

pub record CreateParams : Type 0 where
  pub title : String
  pub instructions : String
  pub priority : ℤ
  pub base_branch : String
  pub max_runtime_seconds : Option ℤ
  pub max_cost_usd : Option ℕ
  pub source_type : String
  pub source_issue_number : Option ℤ
  pub source_comment_id : Option ℤ
  pub organization_id : Option String
  pub repository_id : Option String
  pub requested_by_login : String

pub record RevisionParams : Type 0 where
  pub instructions : String
  pub base_commit_sha : String
  pub requested_by_login : String
  pub trigger_comment_id : ℤ
  pub feedback : List FeedbackItem
  pub max_attempts : ℤ
  pub idempotency_key : String
  pub reason : String

pub record TransitionParams : Type 0 where
  pub to : Status
  pub source : String
  pub reason : String
  pub failure_code : String
  pub failure_message : String
  pub idempotency_key : String
  pub expected_version : ℤ
  pub revision : Option RevisionParams

-- The store's error values. `failed_statement` is a database error under the prefix that the
-- code wraps it in.
pub data Error : Type 0 where
  not_found attempt_not_found active_task_exists revision_replayed revision_incomplete : Error
  lease_lost runner_not_found hostname_length : Error
  unknown_runner_type : String → Error
  revision_limit : ℕ → ℤ → Error
  invalid_transition : Status → Status → Error
  version_conflict : ℤ → ℕ → Error
  unknown_source : String → Error
  unknown_status : Status → Error
  failed_statement : String → Error
