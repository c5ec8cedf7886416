-- ===== src/Runner/Execute.antt =====
-- internal/runner/executor.go: `Execute`. The heartbeats, the cancellation watch and the deadline are what the
-- answers of `context` show of them.
use agent_trail.Base.{
  ◌+◌, ◌-◌, ◌*◌, String, Bool, true, false, not, ◌&&◌, ◌||◌, Option, none, some, [], ◌∷◌, ◌++◌, ℤ,
  pos, negsuc, wrap_int, ◌==◌, if◌then◌else◌,
}
use agent_trail.GitHub.Texts.{truncate_utf8}
use agent_trail.Status.{Status, failed, cancelled, timed_out, terminal, status_eq}
use agent_trail.Task.{Task, Attempt, TransitionParams}
use agent_trail.Db.{Result, ok, err}
use agent_trail.Store.Operations.{transition_to}
use agent_trail.Runner.Defs.{
  Fault, lost, attempt_failed, canceled, is_attempt_failed, is_deadline, is_lease_lost, fault_of,
  refused, RepositoryContext, get, attempt, attempt_started_at, release_lease, cleanup_stale,
  workspace_exists, lease_over, Answer, given, cause, lease_flag, transition, extend_lease,
  repository_context, store, Prog, ret, fail, Outcome, returned, failed, caught, call, ask,
  from_result, from_answer, perform, signal, ◌>>=◌, ◌>>◌,
}
use agent_trail.Runner.Fence.{Executor, Job, joined, second, key_of, fence_lease_ownership, append}
use agent_trail.Runner.Checks.{no_error}
use agent_trail.Runner.Provision.{with_fault, joined_fault, lost_in}
use agent_trail.Runner.Publish.{check_output_limit, completed_run, complete_trigger_check_run}
use agent_trail.Runner.Drive.{drive}

abbrev seconds : ℤ → ℤ
seconds (pos n) = wrap_int (pos (n * second))
seconds (negsuc n) = wrap_int (negsuc ((n + 1) * second - 1))

-- `taskRuntime`, in nanoseconds
unfoldable pub task_runtime : Executor → Task → ℤ
task_runtime x t = elim t.max_runtime_seconds [
  | some n ↦ seconds n
  | none ↦ pos (if x.default_runtime == 0 then 2700 * second else x.default_runtime)
]

-- `runtimeDeadline`: the runtime; the deadline itself shows in the answers of the context.
unfoldable pub runtime_deadline : Job → Prog ℤ
runtime_deadline j = do
  t ← perform (get j.claim.task_id)
  _ ← perform (attempt_started_at j.claim.attempt_id)
  ret (task_runtime j.executor t)

abbrev pub timeout_params : Job → ℤ → TransitionParams
timeout_params j runtime =
    let p = transition_to timed_out "runner" "" in
    record p {
      failure_code = "task_runtime_exceeded";
      failure_message =
          joined ("task exceeded runtime limit of " ∷ j.executor.duration_text runtime ∷ []);
      idempotency_key = key_of j ":timeout" "";
    }

-- Where the task was cancelled, where it is final, and else.
abbrev pub settle_timeout : Job → ℤ → Bool → Bool → Prog (Unit {0})
settle_timeout j runtime true final = fail (canceled ∷ [])
settle_timeout j runtime false true = fail (attempt_failed ∷ [])
settle_timeout j runtime false false = do
  r ← call (transition j.claim.task_id (timeout_params j runtime))
  _ ← from_result r
  fail (attempt_failed ∷ [])

-- `timeoutTask`: it always ends with an error.
unfoldable pub timeout_task : Job → ℤ → Prog (Unit {0})
timeout_task j runtime = do
  fence_lease_ownership j
  current ← perform (get j.claim.task_id)
  settle_timeout j runtime (status_eq current.status cancelled) (terminal current.status)

-- `terminalCheckConclusion`: the conclusion and the title.
unfoldable pub terminal_check_conclusion : Status → Option (String × String)
terminal_check_conclusion Status.failed = some ("failure", "Agent Trail task failed")
terminal_check_conclusion cancelled = some ("cancelled", "Agent Trail task cancelled")
terminal_check_conclusion timed_out = some ("timed_out", "Agent Trail task timed out")
terminal_check_conclusion _ = none

abbrev summary_of : String → Option String → String
summary_of title none = title
summary_of title (some message) = truncate_utf8 message check_output_limit

abbrev pub settle_on :
    Job → Attempt → Task → String × String → Answer RepositoryContext → Prog (Unit {0})
settle_on j a t verdict (refused r) = ret tt
settle_on j a t (conclusion, title) (given rc) = do
  fence_lease_ownership j
  complete_trigger_check_run j rc a
      (completed_run "" "" conclusion title (summary_of title t.failure_message))

abbrev pub settle_task :
    Job → Attempt → Task → Option (String × String) → Option String → Prog (Unit {0})
settle_task j a t (some verdict) (some repo) = do
  rc ← call (repository_context repo)
  settle_on j a t verdict rc
settle_task j a t verdict repo = ret tt

-- Whether the trigger check run is there and open.
abbrev is_run_open : Attempt → Bool
is_run_open a = elim a.trigger_check_run_id [
  | none ↦ false
  | some id ↦ elim a.trigger_check_run_completed_at [ none ↦ true | some at ↦ false ]
]

abbrev pub settle_body : Job → Prog (Unit {0})
settle_body j = do
  a ← perform (attempt j.claim.attempt_id)
  if is_run_open a
      then (do
        t ← perform (get j.claim.task_id)
        settle_task j a t (terminal_check_conclusion t.status) t.repository_id)
      else ret tt

-- `settleTriggerCheckRun`: from the error so far to the error after it.
unfoldable pub settle_trigger_check_run : Job → Option Fault → Prog (Option Fault)
settle_trigger_check_run j e = do
  gone ← signal lease_flag
  if not (j.executor.has_github && j.executor.has_repos) || lost_in e || gone
      then ret e
      else caught (settle_body j) (joined_fault e)

abbrev pub clear_workspace : Job → String → String → Bool → Prog (Unit {0})
clear_workspace j repo branch false = ret tt
clear_workspace j repo branch true = do
  a ← ask (cleanup_stale (record { id = repo; clone_url = "" }) j.claim.attempt_id branch)
  _ ← from_answer a
  append j "cleanup.completed" "runner" (some (("workspace", "removed") ∷ []))

abbrev pub clear_task : Job → Bool → Option String → Option String → Prog (Unit {0})
clear_task j true (some repo) (some branch) = do
  there ← ask (workspace_exists j.claim.attempt_id)
  clear_workspace j repo branch there
clear_task j final repo branch = ret tt

abbrev pub cleanup_body : Job → Prog (Unit {0})
cleanup_body j = do
  fence_lease_ownership j
  t ← perform (get j.claim.task_id)
  clear_task j (terminal t.status) t.repository_id t.working_branch

-- `cleanupTerminalRecovery`: from the error so far to the error after it.
unfoldable pub cleanup_terminal_recovery : Job → Option Fault → Prog (Option Fault)
cleanup_terminal_recovery j e = do
  gone ← signal lease_flag
  if not j.executor.has_workspaces || lost_in e || gone
      then ret e
      else caught (cleanup_body j) (joined_fault e)

abbrev pub after_release : Option Fault → Result (Unit {0}) → Prog (Option Fault)
after_release e (ok u) = ret e
after_release e (err x) = if is_lease_lost x then ret e else ret (with_fault e (fault_of x))

-- The end of `Execute`: a runner that has lost its lease does not release it.
unfoldable pub release : Job → Option Fault → Prog (Option Fault)
release j e =
    if lost_in e
    then ret e
    else (do r ← call (store (release_lease j.claim.attempt_id j.runner_id)); after_release e r)

abbrev pub fault_of_drive : Outcome (Unit {0}) → Prog (Option Fault)
fault_of_drive (returned u) = ret none
fault_of_drive (failed f) = ret (some f)

abbrev pub joined_lost : Bool → Option Fault → Option Fault
joined_lost false e = e
joined_lost true e = with_fault e (lost ∷ [])

abbrev pub joined_cause : Option Fault → Option Fault → Option Fault
joined_cause none e = e
joined_cause (some c) e = with_fault e c

abbrev deadline_in : Option Fault → Bool
deadline_in none = false
deadline_in (some c) = is_deadline c

abbrev attempt_failed_in : Option Fault → Bool
attempt_failed_in none = false
attempt_failed_in (some f) = is_attempt_failed f

abbrev is_fault : Option Fault → Bool
is_fault none = false
is_fault (some f) = true

-- `timedOut`
unfoldable pub has_timed_out : Bool → Option Fault → Option Fault → Bool
has_timed_out gone c e = is_fault e && not gone && deadline_in c && not (attempt_failed_in e)

abbrev pub timed : Job → ℤ → Bool → Option Fault → Prog (Option Fault)
timed j runtime false e = ret e
timed j runtime true e = caught (timeout_task j runtime) (joined_fault e)

-- From the return of `drive` to the end. A cause that the error holds already is put into it again.
unfoldable pub after_drive : Job → ℤ → Option Fault → Prog (Unit {0})
after_drive j runtime e = do
  c ← signal cause
  gone ← signal lease_flag
  let failure = joined_cause c (joined_lost gone e)
  after ← timed j runtime (has_timed_out gone c failure) failure
  settled ← settle_trigger_check_run j after
  cleaned ← cleanup_terminal_recovery j settled
  final ← release j cleaned
  no_error final

abbrev pub run_job : Job → ℤ → Prog (Unit {0})
run_job j runtime = do e ← caught (drive j) fault_of_drive; after_drive j runtime e

abbrev pub also : Fault → Outcome (Unit {0}) → Prog ℤ
also f (returned u) = fail f
also f (failed g) = fail (f ++ g)

abbrev pub or_released : Job → Outcome ℤ → Prog ℤ
or_released j (returned runtime) = ret runtime
or_released j (failed f) = caught (perform (release_lease j.claim.attempt_id j.runner_id)) (also f)

-- `Execute`
unfoldable pub execute : Job → Prog (Unit {0})
execute j = do
  over ← ask (lease_over j.claim.lease_expires_at)
  if over then fail (lost ∷ []) else (do
    (r, took) ← call (extend_lease j.claim.attempt_id j.runner_id j.executor.lease_duration)
    _ ← from_result r
    runtime ← caught (runtime_deadline j) (or_released j)
    run_job j runtime)
