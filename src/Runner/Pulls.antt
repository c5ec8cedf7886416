-- ===== src/Runner/Pulls.antt =====
-- internal/runner/publish.go: the commit of an attempt and its pull request.
use Prim.Native.String.{◌++◌ as concat}
use agent_trail.Base.{
  String, Bool, true, false, not, Option, none, some, [], ◌∷◌, ℤ, pos, ltb, str_eq, if◌then◌else◌,
}
use agent_trail.Status.{Status, awaiting_review}
use agent_trail.Task.{Task, Attempt, Payload}
use agent_trail.GitHub.Texts.{format_int, truncate_utf8}
use agent_trail.Evidence.Defs.{Report, check_conclusion, or_blank}
use agent_trail.Runner.Defs.{
  nothing_to_commit, branch_not_found, Fault, external, refused, RepoRef, RepositoryContext,
  Workspace, PullRequest, attempt, record_final_commit, record_pull_request, branch_head_sha,
  create_issue_comment, find_pull_request_by_head, create_draft_pull_request,
  update_pull_request_body, head, push, commit, lookup, ensure_mirror, stored_report,
  attempt_history, Answer, given, Prog, ret, fail, Outcome, returned, failed, caught, ask,
  from_answer, perform, ◌>>=◌, ◌>>◌,
}
use agent_trail.Runner.Fence.{Job, joined, append, fail_task, move_to}
use agent_trail.Runner.Checks.{provider_of, no_error}
use agent_trail.Runner.Provision.{repo_ref, cleanup_git_workspace}
use agent_trail.Runner.Publish.{
  check_output_limit, check_run_name, publish_failure, or_publish_failure, detect, upsert_check_run,
  completed_run, complete_trigger_check_run, post_revision_summary,
}

-- The pull request of the branch, found or created: whether it was created, and the pull request.
abbrev pub found_or_created :
    Job
    → Task
    → RepositoryContext
    → String
    → String
    → Option PullRequest
    → Prog (Bool × PullRequest)
found_or_created j t rc branch body none = do
  a ← ask (
      create_draft_pull_request rc
        (record { title = t.title; head = branch; base = t.base_branch; body = body }))
  pr ← or_publish_failure j "create pull request" a
  ret (true, pr)
found_or_created j t rc branch body (some pr) = do
  a ← ask (update_pull_request_body rc pr.number body)
  or_publish_failure j "update pull request" a
  ret (false, pr)

abbrev pub pull_event : Bool → PullRequest → String × Payload
pull_event true pr = (
  "pull_request.created",
  ("number", format_int pr.number) ∷ ("url", pr.html_url) ∷ ("draft", "true") ∷ [],
)
pull_event false pr =
    ("pull_request.updated", ("number", format_int pr.number) ∷ ("url", pr.html_url) ∷ [])

abbrev published_comment : PullRequest → String
published_comment pr = joined (
    "Agent Trail opened draft pull request #"
    ∷ format_int pr.number
    ∷ " for this issue. The PR body carries the evidence report; the `"
    ∷ check_run_name
    ∷ "` check holds the verified results."
    ∷ [])

-- A comment on the issue that the task comes from.
abbrev pub on_issue :
    Job → RepositoryContext → String → String → String → Option ℤ → Prog (Unit {0})
on_issue j rc step text kind none = ret tt
on_issue j rc step text kind (some issue) = do
  a ← ask (create_issue_comment rc issue text)
  or_publish_failure j step a
  append j "github.comment.posted" "runner" (some (("kind", kind) ∷ []))

abbrev pub announce :
    Job → Task → RepositoryContext → Attempt → PullRequest → String → Report → Prog (Unit {0})
announce j t rc a pr final report =
    if ltb 1 a.number
    then post_revision_summary j rc a pr.number final report
    else on_issue j rc "post issue comment" (published_comment pr) "published" t.source_issue_number

-- `publishToGitHub`
unfoldable pub publish_to_github :
    Job → Task → RepositoryContext → Attempt → String → String → String → Prog (Unit {0})
publish_to_github j t rc a branch base final = do
  detect j t rc base final
  stored ← ask (stored_report j.claim.attempt_id)
  (report, markdown) ← from_answer stored
  past ← ask (attempt_history j.claim.task_id)
  history ← from_answer past
  found ← ask (find_pull_request_by_head rc branch)
  pull ← or_publish_failure j "find pull request" found
  (was_created, pr) ← found_or_created j t rc branch (j.executor.pr_body report final history) pull
  append j (pull_event was_created pr).0 "runner" (some (pull_event was_created pr).1)
  perform (record_pull_request j.claim.attempt_id pr.number)
  let summary = truncate_utf8 markdown check_output_limit
  upsert_check_run j rc (
      completed_run final j.claim.attempt_id (check_conclusion report) "Agent Trail evidence"
        summary)
  complete_trigger_check_run j rc a
      (completed_run "" "" (check_conclusion report) "Agent Trail evidence" summary)
  announce j t rc a pr final report

abbrev explanation_of : String → String
explanation_of summary =
    concat "the agent session ended without modifying the workspace"
      (if str_eq summary "" then "" else concat "; agent summary: " summary)

abbrev no_change_comment : Attempt → String → String
no_change_comment a explanation = joined (
    "Agent Trail produced no changes for revision attempt "
    ∷ format_int (pos a.number)
    ∷ ", so the branch is unchanged: "
    ∷ explanation
    ∷ "."
    ∷ [])

abbrev no_change_on_issue : String → String
no_change_on_issue explanation = joined (
    "Agent Trail produced no changes for this issue, so no pull request was opened: " ∷ explanation
    ∷ "." ∷ [])

abbrev pub on_pull :
    Job → RepositoryContext → Attempt → String → Option PullRequest → Prog (Unit {0})
on_pull j rc a explanation none = ret tt
on_pull j rc a explanation (some pr) = do
  perform (record_pull_request j.claim.attempt_id pr.number)
  c ← ask (create_issue_comment rc pr.number (no_change_comment a explanation))
  or_publish_failure j "post no-change comment" c
  append j "github.comment.posted" "runner"
      (some (("kind", "no_change") ∷ ("pull_request", format_int pr.number) ∷ []))

-- A revision says on its pull request that nothing changed; a first attempt says so on its issue.
abbrev pub tell_no_change :
    Job → Task → RepositoryContext → Attempt → String → Option String → Prog (Unit {0})
tell_no_change j t rc a explanation (some branch) =
    if ltb 1 a.number
    then (do
      found ← ask (find_pull_request_by_head rc branch)
      pull ← or_publish_failure j "find pull request" found
      on_pull j rc a explanation pull)
    else on_issue j rc "post no-change comment" (no_change_on_issue explanation) "no_change"
        t.source_issue_number
tell_no_change j t rc a explanation none =
    on_issue j rc "post no-change comment" (no_change_on_issue explanation) "no_change"
      t.source_issue_number

-- `publishNoChange`: it always ends with an error.
unfoldable pub publish_no_change :
    Job → Task → RepositoryContext → Attempt → String → String → Prog (Unit {0})
publish_no_change j t rc a base summary = do
  let explanation = explanation_of summary
  append j "publishing.no_change" "runner" (some (("reason", explanation) ∷ []))
  upsert_check_run j rc
      (completed_run base j.claim.attempt_id "neutral" "No changes produced" explanation)
  complete_trigger_check_run j rc a
      (completed_run "" "" "neutral" "No changes produced" explanation)
  tell_no_change j t rc a explanation t.working_branch
  fail_task j "no_change" explanation

-- From the recorded final commit to the end of `publishFromWorkspace`.
abbrev pub publish_commit :
    Job → Task → RepositoryContext → Attempt → Workspace → String → Prog (Unit {0})
publish_commit j t rc a ws sha = do
  perform (record_final_commit j.claim.attempt_id sha)
  append j "commit.created" "runner" (some (("final_commit_sha", sha) ∷ []))
  pushed ← ask (push ws)
  or_publish_failure j "push" pushed
  append j "branch.pushed" "runner" (some (("branch", ws.branch) ∷ []))
  publish_to_github j t rc a ws.branch ws.base_sha sha

abbrev pub on_commit :
    Job → Task → RepositoryContext → Attempt → Workspace → String → Answer String → Prog (Unit {0})
on_commit j t rc a ws summary (given sha) = publish_commit j t rc a ws sha
on_commit j t rc a ws summary (refused nothing_to_commit) = do
  r ← ask (head ws)
  tip ← from_answer r
  if str_eq tip ws.base_sha
      then publish_no_change j t rc a ws.base_sha summary
      else publish_commit j t rc a ws tip
on_commit j t rc a ws summary (refused r) = publish_failure j "commit" (external r ∷ [])

-- Whether a base commit is recorded that is not the workspace's.
abbrev base_differs : Option String → Workspace → Bool
base_differs none ws = false
base_differs (some sha) ws = not (str_eq ws.base_sha sha)

-- `publishFromWorkspace`
unfoldable pub publish_from_workspace :
    Job → Task → RepositoryContext → Workspace → String → Prog (Unit {0})
publish_from_workspace j t rc ws summary = do
  a ← perform (attempt j.claim.attempt_id)
  if base_differs a.base_commit_sha ws
      then fail_task j "base_mismatch" (
          joined (
            "workspace base "
            ∷ ws.base_sha
            ∷ " does not match recorded base "
            ∷ or_blank a.base_commit_sha
            ∷ []))
      else (do
        r ← ask (
            commit ws (record {
              message =
                  if ltb 1 a.number
                  then joined (t.title ∷ " (attempt " ∷ format_int (pos a.number) ∷ ")" ∷ [])
                  else t.title;
              task_id = t.id;
              provider = provider_of j t;
              model = or_blank t.agent_model;
              requested_by = or_blank a.requested_by_login;
            }))
        on_commit j t rc a ws summary r)

abbrev pub or_fault : Fault → Option Fault → Fault
or_fault f none = f
or_fault f (some g) = g

-- The deferred cleanup, where the work on a workspace has failed.
abbrev pub cleaned_after : {A : Type 0} → Job → Workspace → Outcome A → Prog A
cleaned_after j ws (returned x) = ret x
cleaned_after j ws (failed f) = do e ← cleanup_git_workspace j ws (some f); fail (or_fault f e)

abbrev pub publish_and_clean : Job → Task → RepositoryContext → Workspace → String → Prog (Unit {0})
publish_and_clean j t rc ws summary = do
  publish_from_workspace j t rc ws summary
  e ← cleanup_git_workspace j ws none
  no_error e

abbrev pub lost_work : {A : Type 0} → Job → Prog A
lost_work j = fail_task j "workspace_lost" "the workspace was lost before its work was pushed"

abbrev pub on_head :
    Job → Task → RepositoryContext → Attempt → String → String → Answer String → Prog (Unit {0})
on_head j t rc a branch base (refused branch_not_found) = lost_work j
on_head j t rc a branch base (refused r) =
    publish_failure j "resolve pushed branch" (external r ∷ [])
on_head j t rc a branch base (given tip) = if str_eq tip base then lost_work j else (do
  perform (record_final_commit j.claim.attempt_id tip)
  publish_to_github j t rc a branch base tip)

abbrev pub on_lookup :
    Job
    → Task
    → RepositoryContext
    → RepoRef
    → Attempt
    → String
    → String
    → Option Workspace
    → Prog (Unit {0})
on_lookup j t rc repo a branch base (some ws) =
    caught (do m ← ask (ensure_mirror repo); _ ← from_answer m; publish_and_clean j t rc ws "")
      (cleaned_after j ws)
on_lookup j t rc repo a branch base none = do
  r ← ask (branch_head_sha rc branch)
  on_head j t rc a branch base r

abbrev pub first_of : Option String → Option String → Option String
first_of none s = s
first_of (some s) t = some s

abbrev pub recover :
    Job → Task → RepositoryContext → Attempt → Option String → Option String → Prog (Unit {0})
recover j t rc a (some branch) (some base) = do
  repo ← repo_ref j rc
  ws ← ask (lookup j.claim.attempt_id repo branch base)
  on_lookup j t rc repo a branch base ws
recover j t rc a branch base =
    fail_task j "publish_state_missing"
      "task reached publishing without a recorded branch and base commit"

-- `publishRecovered`
unfoldable pub publish_recovered : Job → Task → RepositoryContext → Prog Status
publish_recovered j t rc = do
  a ← perform (attempt j.claim.attempt_id)
  recover j t rc a t.working_branch (first_of a.base_commit_sha t.base_commit_sha)
  move_to j awaiting_review "runner" ""
