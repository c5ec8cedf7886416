-- ===== src/Runner/Publish.antt =====
-- internal/runner/publish.go: what is published of a commit.
use Prim.Native.String.{◌++◌ as concat}
use agent_trail.Base.{
  ℕ, String, Bool, false, ◌&&◌, ◌||◌, Option, none, some, List, [], ◌∷◌, ℤ, pos, str_eq,
  if◌then◌else◌,
}
use agent_trail.Task.{
  Task, Attempt, Payload, FeedbackKind, review, review_comment, comment, revise_command,
  FeedbackItem, Event,
}
use agent_trail.Store.Reads.{Entry}
use agent_trail.GitHub.Texts.{format_int}
use agent_trail.Evidence.Defs.{Report, validation_outcome, verdict_text, length, or_blank}
use agent_trail.Evidence.Claims.{field}
use agent_trail.Runner.Defs.{
  Fault, external, refused, RepositoryContext, CheckRunParams, CheckRun, events,
  mark_trigger_check_run_completed, create_issue_comment, create_check_run, update_check_run,
  list_check_runs, detect_conflicts, Answer, given, ctx_err, Prog, ret, fail, Outcome, returned,
  failed, caught, ask, from_answer, perform, signal, ◌>>=◌, ◌>>◌,
}
use agent_trail.Runner.Fence.{Job, joined, append, fail_task}
use agent_trail.Runner.Checks.{event_limit}
use agent_trail.Runner.Provision.{repo_ref}

abbrev pub check_output_limit : ℕ
check_output_limit = 60000

abbrev pub check_run_name : String
check_run_name = "Agent Trail Task"

-- `publishFailure`
abbrev pub failed_step : {A : Type 0} → Job → String → Fault → Option Fault → Prog A
failed_step j step f none =
    fail_task j "publish_failed" (joined (step ∷ ": " ∷ j.executor.error_text f ∷ []))
failed_step j step f (some e) = fail e

unfoldable pub publish_failure : {A : Type 0} → Job → String → Fault → Prog A
publish_failure j step f = do e ← signal ctx_err; failed_step j step f e

-- An answer without which publishing fails.
abbrev pub or_publish_failure : {A : Type 0} → Job → String → Answer A → Prog A
or_publish_failure j step (given a) = ret a
or_publish_failure j step (refused r) = publish_failure j step (external r ∷ [])

-- A failure that is only logged, while the context runs.
abbrev pub logged : {A : Type 0} → A → Option Fault → Prog A
logged a none = ret a
logged a (some e) = fail e

abbrev pub or_logged : {A B : Type 0} → B → (A → Prog B) → Outcome A → Prog B
or_logged b next (returned a) = next a
or_logged b next (failed f) = do e ← signal ctx_err; logged b e

unfoldable pub append_all : Job → String → List Payload → Prog (Unit {0})
append_all j event_type [] = ret tt
append_all j event_type (p ∷ rest) = do
  append j event_type "runner" (some p)
  append_all j event_type rest

abbrev pub detect_with : Job → Task → RepositoryContext → String → String → Prog (List Payload)
detect_with j t rc base final = do
  repo ← repo_ref j rc
  a ← ask (detect_conflicts repo t base final)
  from_answer a

abbrev pub detect_for :
    Job → Task → RepositoryContext → String → String → Option String → Prog (Unit {0})
detect_for j t rc base final none = ret tt
detect_for j t rc base final (some id) =
    caught (detect_with j t rc base final) (or_logged tt (append_all j "conflict.detected"))

-- `detectConflicts`
unfoldable pub detect : Job → Task → RepositoryContext → String → String → Prog (Unit {0})
detect j t rc base final =
    if j.executor.has_conflicts then detect_for j t rc base final t.repository_id else ret tt

abbrev run_with_id : String → List CheckRun → Option CheckRun
run_with_id id [] = none
run_with_id id (r ∷ rest) = if str_eq r.external_id id then some r else run_with_id id rest

abbrev pub upsert : Job → RepositoryContext → CheckRunParams → Option CheckRun → Prog (Unit {0})
upsert j rc p (some run) = do
  a ← ask (update_check_run rc run.id p)
  or_publish_failure j "update check run" a
  append j "github.check_run.updated" "runner"
      (some (("check_run_id", format_int run.id) ∷ ("conclusion", p.conclusion) ∷ []))
upsert j rc p none = do
  a ← ask (create_check_run rc p)
  id ← or_publish_failure j "create check run" a
  append j "github.check_run.created" "runner" (
      some (
        ("check_run_id", format_int id)
        ∷ ("head_sha", p.head_sha)
        ∷ ("conclusion", p.conclusion)
        ∷ []))

-- `upsertCheckRun`
unfoldable pub upsert_check_run : Job → RepositoryContext → CheckRunParams → Prog (Unit {0})
upsert_check_run j rc p = do
  a ← ask (list_check_runs rc p.head_sha p.name)
  runs ← or_publish_failure j "list check runs" a
  upsert j rc p (run_with_id p.external_id runs)

-- The parameters of a completed check run; what a `CheckRunParams` literal leaves out is empty.
abbrev pub completed_run : String → String → String → String → String → CheckRunParams
completed_run sha aid conclusion title summary = record {
  name = check_run_name;
  head_sha = sha;
  external_id = aid;
  status = "completed";
  conclusion = conclusion;
  title = title;
  summary = summary;
}

abbrev pub marked : Job → ℤ → CheckRunParams → Unit {0} → Prog (Unit {0})
marked j id p u = do
  perform (mark_trigger_check_run_completed j.claim.attempt_id)
  append j "github.check_run.updated" "runner" (
      some
        (("check_run_id", format_int id) ∷ ("conclusion", p.conclusion) ∷ ("kind", "trigger") ∷ []))

abbrev pub complete_run :
    Job → RepositoryContext → CheckRunParams → Option ℤ → Option ℕ → Prog (Unit {0})
complete_run j rc p none completed_at = ret tt
complete_run j rc p (some id) (some at) = ret tt
complete_run j rc p (some id) none = do
  a ← ask (update_check_run rc id p)
  caught (from_answer a) (or_logged tt (marked j id p))

-- `completeTriggerCheckRun`: `p` is a completed run under the check run's name.
unfoldable pub complete_trigger_check_run :
    Job → RepositoryContext → Attempt → CheckRunParams → Prog (Unit {0})
complete_trigger_check_run j rc a p =
    complete_run j rc p a.trigger_check_run_id a.trigger_check_run_completed_at

abbrev is_comment_of : String → String → Event → Bool
is_comment_of aid kind e =
    str_eq e.task_attempt_id aid
    && str_eq e.event_type "github.comment.posted"
    && str_eq (or_blank (field "kind" e.payload)) kind

unfoldable pub any_comment : String → String → List Entry → Bool
any_comment aid kind [] = false
any_comment aid kind ((n, e) ∷ rest) = is_comment_of aid kind e || any_comment aid kind rest

-- `commentPosted`
unfoldable pub comment_posted : Job → String → Prog Bool
comment_posted j kind = do
  l ← perform (events j.claim.task_id (pos event_limit))
  ret (any_comment j.claim.attempt_id kind l)

-- `Label`
abbrev kind_label : FeedbackKind → String
kind_label review = "review"
kind_label review_comment = "inline review comment"
kind_label revise_command = "revise command"
kind_label comment = "comment"

abbrev item_line : Job → FeedbackItem → String
item_line j i = joined (
    "  - "
    ∷ kind_label i.kind
    ∷ " by @"
    ∷ i.author
    ∷ " at "
    ∷ j.executor.time_text i.posted_at
    ∷ (if str_eq i.location "" then "" else concat " on " i.location)
    ∷ "\n"
    ∷ [])

unfoldable pub item_lines : Job → List FeedbackItem → List String
item_lines j [] = []
item_lines j (i ∷ rest) = item_line j i ∷ item_lines j rest

abbrev number : ℕ → String
number n = format_int (pos n)

-- `revisionSummary`
unfoldable pub revision_summary : Job → Attempt → String → Report → String
revision_summary j a final report = joined (
    "Agent Trail published revision attempt "
    ∷ number a.number
    ∷ ".\n\n- Final commit: `"
    ∷ final
    ∷ "`\n- Validation: "
    ∷ verdict_text (validation_outcome report)
    ∷ "\n- Review feedback given: "
    ∷ number (length a.feedback)
    ∷ " item(s)\n"
    ∷ joined (item_lines j a.feedback)
    ∷ "\nThe pull request body carries the updated evidence report and attempts history; the `"
    ∷ check_run_name
    ∷ "` check holds the verified results."
    ∷ [])

-- `postRevisionSummary`
unfoldable pub post_revision_summary :
    Job → RepositoryContext → Attempt → ℤ → String → Report → Prog (Unit {0})
post_revision_summary j rc a pull final report = do
  posted ← comment_posted j "revision_summary"
  if posted then ret tt else (do
    answer ← ask (create_issue_comment rc pull (revision_summary j a final report))
    or_publish_failure j "post revision summary" answer
    append j "github.comment.posted" "runner"
        (some (("kind", "revision_summary") ∷ ("pull_request", format_int pull) ∷ [])))
