-- ===== src/Runner/Defs.antt =====
-- internal/runner/executor.go and publish.go: what the executor asks of the stores, of GitHub, of the git
-- workspaces and of the agent, and the programs over these calls. An answer of what is outside of the
-- repository's code, or of a part that is not modelled, is free: a program says what follows for each answer.
use agent_trail.Base.{ℕ, String, Bool, true, false, Option, List, [], ◌∷◌, ℤ, if◌then◌else◌}
use agent_trail.Chars.Defs.{Chars}
use agent_trail.Task.{Task, Attempt, Payload, TransitionParams, Error, lease_lost}
use agent_trail.Db.{Result, ok, err}
use agent_trail.Store.Records.{Marshalled}
use agent_trail.Store.Reads.{Entry}
use agent_trail.GitHub.Defs.{Repository}
use agent_trail.Validation.Defs.{Check, File}
use agent_trail.Evidence.Defs.{CheckResult, Report}

-- Why something outside refuses: the errors that the executor tells apart, and every other by its text.
pub data Refusal : Type 0 where
  repository_not_found no_installation branch_not_found branch_tip_moved nothing_to_commit : Refusal
  session_cancelled : Refusal
  refusal : String → Refusal

-- The parts of an error that `errors.Is` finds; `errors.Join` puts the parts of both together.
pub data Cause : Type 0 where
  lost attempt_failed canceled deadline_exceeded stop_failed : Cause
  stored : Error → Cause
  external : Refusal → Cause

abbrev pub Fault : Type 0
Fault = List Cause

unfoldable pub is_lost : Fault → Bool
is_lost [] = false
is_lost (lost ∷ f) = true
is_lost (_ ∷ f) = is_lost f

unfoldable pub is_attempt_failed : Fault → Bool
is_attempt_failed [] = false
is_attempt_failed (attempt_failed ∷ f) = true
is_attempt_failed (_ ∷ f) = is_attempt_failed f

unfoldable pub is_deadline : Fault → Bool
is_deadline [] = false
is_deadline (deadline_exceeded ∷ f) = true
is_deadline (_ ∷ f) = is_deadline f

unfoldable pub is_tip_moved : Fault → Bool
is_tip_moved [] = false
is_tip_moved (external branch_tip_moved ∷ f) = true
is_tip_moved (_ ∷ f) = is_tip_moved f

abbrev pub is_lease_lost : Error → Bool
is_lease_lost lease_lost = true
is_lease_lost e = false

abbrev pub fault_of : Error → Fault
fault_of e = if is_lease_lost e then lost ∷ [] else stored e ∷ []

pub record RepoRef : Type 0 where
  pub id : String
  pub clone_url : String

-- `github.RepositoryContext`, as far as the executor reads it.
pub record RepositoryContext : Type 0 where
  pub stored : Repository
  pub owner : String
  pub name : String
  pub clone_url : String
  pub installation_id : ℤ

pub record Workspace : Type 0 where
  pub attempt_id : String
  pub repo : RepoRef
  pub path : String
  pub branch : String
  pub base_sha : String

pub record CreateParams : Type 0 where
  pub repo : RepoRef
  pub attempt_id : String
  pub base_sha : String
  pub branch_label : Chars
  pub require_branch_tip : Bool

pub record CommitParams : Type 0 where
  pub message : String
  pub task_id : String
  pub provider : String
  pub model : String
  pub requested_by : String

pub record PullRequest : Type 0 where
  pub number : ℤ
  pub html_url : String

pub record PullParams : Type 0 where
  pub title : String
  pub head : String
  pub base : String
  pub body : String

pub record CheckRunParams : Type 0 where
  pub name : String
  pub head_sha : String
  pub external_id : String
  pub status : String
  pub conclusion : String
  pub title : String
  pub summary : String

pub record CheckRun : Type 0 where
  pub id : ℤ
  pub external_id : String

pub data EventType : Type 0 where
  session_started assistant_message plan tool_requested tool_started tool_output : EventType
  tool_completed file_read file_written cost_update warning session_completed : EventType
  session_failed : EventType
  other_event : String → EventType

pub record AgentEvent : Type 0 where
  pub kind : EventType
  pub payload : Marshalled

-- How a check's process ends, and what `runCheck` measures of it.
pub data Exit : Type 0 where
  succeeded own_deadline not_run : Exit
  exited : ℤ → Exit

pub record Ran : Type 0 where
  pub exit : Exit
  pub duration_ms : ℤ
  pub summary : String

-- The calls of the stores whose tables are modelled, without the transitions and the lease extensions.
pub data Call : Type 0 where
  get attempt attempt_started_at mark_trigger_check_run_completed : String → Call
  events : String → ℤ → Call
  append_attempt_event : String → String → String → Marshalled → Call
  ensure_git_context : String → String → String → Call
  release_lease record_attempt_base record_final_commit : String → String → Call
  record_pull_request : String → ℤ → Call

abbrev pub Reply : Call → Type 0
Reply (get id) = Task
Reply (attempt id) = Attempt
Reply (attempt_started_at id) = Option ℕ
Reply (mark_trigger_check_run_completed id) = Unit {0}
Reply (events id limit) = List Entry
Reply (append_attempt_event aid event_type source payload) = Unit {0}
Reply (ensure_git_context id base branch) = Option String × Option String
Reply (release_lease aid runner) = Unit {0}
Reply (record_attempt_base aid sha) = Unit {0}
Reply (record_final_commit aid sha) = Unit {0}
Reply (record_pull_request aid n) = Unit {0}

-- The calls of everything else. GitHub's name the repository by its context.
pub data Ask : Type 0 where
  installation_token : ℤ → Ask
  branch_head_sha : RepositoryContext → String → Ask
  create_issue_comment : RepositoryContext → ℤ → String → Ask
  find_pull_request_by_head : RepositoryContext → String → Ask
  create_draft_pull_request : RepositoryContext → PullParams → Ask
  update_pull_request_body : RepositoryContext → ℤ → String → Ask
  create_check_run : RepositoryContext → CheckRunParams → Ask
  update_check_run : RepositoryContext → ℤ → CheckRunParams → Ask
  list_check_runs : RepositoryContext → String → String → Ask
  create_worktree : CreateParams → Ask
  cleanup_stale : RepoRef → String → String → Ask
  remove head push : Workspace → Ask
  commit : Workspace → CommitParams → Ask
  lookup : String → RepoRef → String → String → Ask
  ensure_mirror : RepoRef → Ask
  lease_over : ℕ → Ask
  workspace_exists : String → Ask
  make_temp_dir : Ask
  remove_all : String → Ask
  start_session : String → String → Ask
  wait_session stop_session : Ask
  load_file : String → Ask
  run_check : String → Check → Ask
  insert_result : String → CheckResult → Ask
  list_for_attempt : String → Ask
  insert_report : String → Report → String → Ask
  stored_report : String → Ask
  attempt_history : String → Ask
  detect_conflicts : RepoRef → Task → String → String → Ask
  seconds_since : ℕ → Ask

pub data Answer (A : Type 0) : Type 0 where
  given : A → Answer A
  refused : Refusal → Answer A

-- A session's events are those it sends before its channel is closed; a detection is
-- the payload of its event. `none` of `load_file` is a repository without the file.
abbrev pub Said : Ask → Type 0
Said (installation_token id) = Answer String
Said (branch_head_sha rc branch) = Answer String
Said (find_pull_request_by_head rc branch) = Answer (Option PullRequest)
Said (create_draft_pull_request rc p) = Answer PullRequest
Said (create_check_run rc p) = Answer ℤ
Said (list_check_runs rc sha name) = Answer (List CheckRun)
Said (create_worktree p) = Answer Workspace
Said (head ws) = Answer String
Said (commit ws p) = Answer String
Said (lookup aid repo branch base) = Option Workspace
Said (lease_over expires) = Bool
Said (workspace_exists aid) = Bool
Said make_temp_dir = Answer String
Said (start_session dir instructions) = Answer (List AgentEvent)
Said wait_session = Answer String
Said (load_file dir) = Answer (Option File)
Said (run_check dir c) = Ran
Said (list_for_attempt aid) = Answer (List CheckResult)
Said (stored_report aid) = Answer (Report × String)
Said (attempt_history tid) = Answer String
Said (detect_conflicts repo t base final) = Answer (List Payload)
Said (seconds_since at) = ℤ
Said _ = Answer (Unit {0})

-- The context of the execution and the state of its lease: `context.Cause`, `ctx.Err()`, `lost.Load()` and
-- `markLeaseLost`. Heartbeats, the cancellation watch and the deadline may change the first three at any time.
pub data Signal : Type 0 where
  cause ctx_err lease_flag mark_lease_lost : Signal

abbrev pub Seen : Signal → Type 0
Seen cause = Option Fault
Seen ctx_err = Option Fault
Seen lease_flag = Bool
Seen mark_lease_lost = Unit {0}

pub data Command : Type 0 where
  transition : String → TransitionParams → Command
  -- the attempt, the runner, the duration; the answer has the time it took, in nanoseconds
  extend_lease : String → String → ℕ → Command
  repository_context : String → Command
  store : Call → Command
  outside : Ask → Command
  context : Signal → Command

abbrev pub Response : Command → Type 0
Response (transition id p) = Result Task
Response (extend_lease aid runner d) = Result (Unit {0}) × ℕ
Response (repository_context id) = Answer RepositoryContext
Response (store c) = Result (Reply c)
Response (outside a) = Said a
Response (context s) = Seen s

-- A program ends with a value or an error, or calls and goes on with the answer.
pub data Prog (A : Type 0) : Type 0 where
  ret : A → Prog A
  fail : Fault → Prog A
  act : (c : Command) → (Response c → Prog A) → Prog A

pub data Outcome (A : Type 0) : Type 0 where
  returned : A → Outcome A
  failed : Fault → Outcome A

infixl 5 ◌>>=◌ ◌>>◌
unfoldable pub ◌>>=◌ : {A B : Type 0} → Prog A → (A → Prog B) → Prog B
ret a >>= f = f a
fail e >>= f = fail e
act c k >>= f = act c (λ r. k r >>= f)

abbrev pub ◌>>◌ : {A B : Type 0} → Prog A → Prog B → Prog B
m >> k = m >>= λ _. k

-- What follows a program, whichever way it ends.
unfoldable pub caught : {A B : Type 0} → Prog A → (Outcome A → Prog B) → Prog B
caught (ret a) f = f (returned a)
caught (fail e) f = f (failed e)
caught (act c k) f = act c (λ r. caught (k r) f)

abbrev pub call : (c : Command) → Prog (Response c)
call c = act c (λ r. ret r)

abbrev pub from_result : {A : Type 0} → Result A → Prog A
from_result (ok a) = ret a
from_result (err e) = fail (fault_of e)

abbrev pub from_answer : {A : Type 0} → Answer A → Prog A
from_answer (given a) = ret a
from_answer (refused r) = fail (external r ∷ [])

abbrev pub perform : (c : Call) → Prog (Reply c)
perform c = call (store c) >>= from_result

abbrev pub ask : (a : Ask) → Prog (Said a)
ask a = call (outside a)

abbrev pub signal : (s : Signal) → Prog (Seen s)
signal s = call (context s)
