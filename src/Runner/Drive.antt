-- ===== src/Runner/Drive.antt =====
-- internal/runner/executor.go: `runAgentStages` and `drive`.
use agent_trail.Base.{
  String, Bool, true, false, ◌&&◌, ◌||◌, Option, none, some, List, [], ◌∷◌, ◌++◌, if◌then◌else◌,
}
use Prim.Native.String.{◌++◌ as concat}
use agent_trail.Status.{
  Status, queued, provisioning, planning, executing, validating, publishing, awaiting_review,
  completed, status_eq,
}
use agent_trail.Task.{Task}
use agent_trail.Runner.Defs.{
  Fault, is_attempt_failed, stop_failed, external, refused, RepositoryContext, Workspace, EventType,
  session_started, assistant_message, plan, tool_requested, tool_started, tool_output,
  tool_completed, file_read, file_written, cost_update, warning, session_completed, session_failed,
  other_event, AgentEvent, get, append_attempt_event, make_temp_dir, remove_all, start_session,
  wait_session, stop_session, Answer, given, cause, ctx_err, Prog, ret, fail, Outcome, returned,
  failed, caught, ask, from_answer, perform, signal, ◌>>=◌, ◌>>◌,
}
use agent_trail.Runner.Fence.{Job, append, fail_task, move_to}
use agent_trail.Runner.Checks.{while_running, run_trusted_validation, generate_evidence}
use agent_trail.Runner.Provision.{publish_target, provision_workspace}
use agent_trail.Runner.Pulls.{cleaned_after, publish_and_clean, publish_recovered}

-- `agentEventTypes`, and the type of an event that it does not list.
unfoldable pub event_type : EventType → String
event_type session_started = "agent.started"
event_type assistant_message = "agent.message"
event_type plan = "plan.created"
event_type tool_requested = "command.requested"
event_type tool_started = "command.started"
event_type tool_output = "command.output"
event_type tool_completed = "command.completed"
event_type file_read = "file.read"
event_type file_written = "file.changed"
event_type cost_update = "agent.cost_update"
event_type warning = "agent.warning"
event_type session_completed = "agent.completed"
event_type session_failed = "agent.failed"
event_type (other_event s) = concat "agent." s

abbrev pub is_plan : EventType → Bool
is_plan plan = true
is_plan _ = false

-- What `stopSession` adds to an error.
abbrev pub stopped : {A : Type 0} → Fault → Answer (Unit {0}) → Prog A
stopped f (given u) = fail f
stopped f (refused r) = fail (f ++ stop_failed ∷ external r ∷ [])

abbrev pub stop_after : {A : Type 0} → Fault → Prog A
stop_after f = do a ← ask stop_session; stopped f a

abbrev pub or_abort : {A : Type 0} → Outcome A → Prog A
or_abort (returned a) = ret a
or_abort (failed f) = stop_after f

-- `select`: the context may end before the next event is taken.
abbrev pub next_event : {A : Type 0} → Prog A → Option Fault → Prog A
next_event m none = m
next_event m (some f) = stop_after f

-- The body of the loop: an event is appended, and the first plan ends the planning.
abbrev pub take_event : Job → AgentEvent → Status → Prog Status
take_event j ev status = do
  perform (append_attempt_event j.claim.attempt_id (event_type ev.kind) "agent" ev.payload)
  if is_plan ev.kind && status_eq status planning
      then move_to j executing "runner" ""
      else ret status

-- The loop over the events of a session.
unfoldable pub consume : Job → List AgentEvent → Status → Prog Status
consume j [] status = do c ← signal cause; next_event (ret status) c
consume j (ev ∷ rest) status = do
  c ← signal cause
  next_event (do next ← caught (take_event j ev status) or_abort; consume j rest next) c

abbrev pub agent_failed : {A : Type 0} → Job → Fault → Prog A
agent_failed j f = do
  e ← signal ctx_err
  while_running (fail_task j "agent_failed" (j.executor.error_text f)) e

abbrev pub or_agent_failed : Job → Answer String → Prog String
or_agent_failed j (given summary) = ret summary
or_agent_failed j (refused r) = agent_failed j (external r ∷ [])

abbrev pub started : Job → Answer (List AgentEvent) → Prog (List AgentEvent)
started j (given events) = ret events
started j (refused r) = fail_task j "agent_start_failed" (j.executor.error_text (external r ∷ []))

abbrev pub move_from : Job → Status → Status → Status → Prog Status
move_from j from to status = if status_eq status from then move_to j to "runner" "" else ret status

-- From the workspace that is ready to the transition to `publishing`: the agent's summary.
unfoldable pub agent_session : Job → String → Status → Prog String
agent_session j dir status = do
  append j "workspace.ready" "runner" none
  before ← move_from j provisioning planning status
  s ← ask (start_session dir j.claim.instructions)
  events ← started j s
  after ← consume j events before
  w ← ask wait_session
  summary ← or_agent_failed j w
  ready ← move_from j planning executing after
  _ ← move_from j executing validating ready
  note ← run_trusted_validation j dir
  generate_evidence j note
  _ ← move_to j publishing "runner" ""
  ret summary

abbrev pub on_provisioned : Job → Outcome Workspace → Prog Workspace
on_provisioned j (returned ws) = ret ws
on_provisioned j (failed f) = do
  e ← signal ctx_err
  while_running
      (if is_attempt_failed f
        then fail f
        else fail_task j "workspace_failed" (j.executor.error_text f))
      e

abbrev pub on_temp_dir : Job → Answer String → Prog String
on_temp_dir j (given dir) = ret dir
on_temp_dir j (refused r) = fail_task j "workspace_failed" (j.executor.error_text (external r ∷ []))

abbrev joined_to : Option Fault → Fault → Fault
joined_to none g = g
joined_to (some f) g = f ++ g

abbrev fault_in : {A : Type 0} → Outcome A → Option Fault
fault_in (returned a) = none
fault_in (failed f) = some f

abbrev pub again : {A : Type 0} → Outcome A → Prog A
again (returned a) = ret a
again (failed f) = fail f

abbrev pub after_removal : {A : Type 0} → Outcome A → Outcome (Unit {0}) → Prog A
after_removal o (returned u) = again o
after_removal o (failed g) = fail (joined_to (fault_in o) g)

-- The deferred removal of a temporary directory.
abbrev pub removed_after : {A : Type 0} → Job → String → Outcome A → Prog A
removed_after j dir o =
    caught
      (do
        r ← ask (remove_all dir)
        _ ← from_answer r
        append j "cleanup.completed" "runner" (some (("workspace", "removed") ∷ [])))
      (after_removal o)

abbrev pub in_temp_dir : Job → Status → Prog Status
in_temp_dir j status = do
  d ← ask make_temp_dir
  dir ← on_temp_dir j d
  caught (do _ ← agent_session j dir status; ret publishing) (removed_after j dir)

abbrev pub in_worktree : Job → Task → RepositoryContext → Status → Prog Status
in_worktree j t rc status = do
  ws ← caught (provision_workspace j t rc) (on_provisioned j)
  caught (do summary ← agent_session j ws.path status; publish_and_clean j t rc ws summary)
      (cleaned_after j ws)
  move_to j awaiting_review "runner" ""

abbrev pub staged : Job → Task → Option RepositoryContext → Status → Prog Status
staged j t none status = in_temp_dir j status
staged j t (some rc) status = in_worktree j t rc status

-- `runAgentStages`
unfoldable pub run_agent_stages : Job → Task → Option RepositoryContext → Status → Prog Status
run_agent_stages j t pub_target status = do
  append j "workspace.provisioning" "runner" none
  staged j t pub_target status

abbrev pub workspace_lost_note : String
workspace_lost_note = "the workspace was lost before trusted validation completed"

abbrev is_agent_stage : Status → Bool
is_agent_stage s = status_eq s provisioning || status_eq s planning || status_eq s executing

abbrev pub agent_part : Job → Task → Option RepositoryContext → Status → Prog Status
agent_part j t target s = if is_agent_stage s then run_agent_stages j t target s else ret s

-- A validation that a former owner did not finish is an error, never a pass.
abbrev pub validation_part : Job → Status → Prog Status
validation_part j s =
    if status_eq s validating
    then (do
      append j "validation.completed" "runner"
          (some (("status", "error") ∷ ("reason", workspace_lost_note) ∷ []))
      generate_evidence j workspace_lost_note
      move_to j publishing "runner" "")
    else ret s

abbrev pub publish_or_skip : Job → Task → Option RepositoryContext → Prog Status
publish_or_skip j t (some rc) = publish_recovered j t rc
publish_or_skip j t none = do
  append j "publishing.skipped" "runner"
      (some (("reason", "task has no repository or publishing is not configured") ∷ []))
  move_to j awaiting_review "runner" ""

abbrev pub publishing_part : Job → Task → Option RepositoryContext → Status → Prog Status
publishing_part j t target s = if status_eq s publishing then publish_or_skip j t target else ret s

abbrev pub completing : Job → Option RepositoryContext → Status → Prog (Unit {0})
completing j (some rc) s = ret tt
completing j none s =
    if status_eq s awaiting_review
    then (do
      _ ←
          move_to j completed "system"
            "fake attempt auto-completed; nothing was published to review"
      ret tt)
    else ret tt

-- `drive`
unfoldable pub drive : Job → Prog (Unit {0})
drive j = do
  first ← move_from j queued provisioning j.claim.task_status
  t ← perform (get j.claim.task_id)
  target ← publish_target j t
  second ← agent_part j t target first
  third ← validation_part j second
  fourth ← publishing_part j t target third
  completing j target fourth
