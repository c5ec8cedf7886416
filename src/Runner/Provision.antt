-- ===== src/Runner/Provision.antt =====
-- internal/runner/publish.go and executor.go: the workspace of an attempt and its removal.
use agent_trail.Base.{
  String, Bool, true, false, not, ◌&&◌, ◌||◌, Option, none, some, [], ◌∷◌, ◌++◌, ltb, str_eq, ◌==◌,
  if◌then◌else◌,
}
use agent_trail.Text.{codes}
use agent_trail.Chars.Defs.{Chars, trim_prefix, first_chars}
use agent_trail.Status.{terminal}
use agent_trail.Task.{Task, Attempt}
use agent_trail.Git.Branch.{sanitize_branch}
use agent_trail.GitHub.Texts.{format_int, truncate_utf8}
use agent_trail.Db.{Result, ok, err}
use agent_trail.Evidence.Defs.{or_blank}
use agent_trail.Runner.Defs.{
  Refusal, repository_not_found, no_installation, refusal, Fault, is_lost, is_attempt_failed,
  is_tip_moved, external, refused, RepoRef, RepositoryContext, Workspace, CreateParams, get,
  attempt, ensure_git_context, record_attempt_base, installation_token, branch_head_sha,
  create_worktree, cleanup_stale, remove, Answer, given, ctx_err, lease_flag, repository_context,
  store, Prog, ret, fail, Outcome, returned, failed, caught, call, ask, from_answer, perform,
  signal, ◌>>=◌, ◌>>◌,
}
use agent_trail.Runner.Fence.{Job, fence_lease_ownership, append, fail_task}
use agent_trail.Runner.Checks.{while_running}

-- `errors.Is` with ErrRepositoryNotFound or ErrNoInstallation
abbrev is_unavailable : Refusal → Bool
is_unavailable repository_not_found = true
is_unavailable no_installation = true
is_unavailable _ = false

abbrev pub on_context : Job → Answer RepositoryContext → Prog (Option RepositoryContext)
on_context j (given rc) = ret (some rc)
on_context j (refused r) =
    if is_unavailable r
    then fail_task j "publishing_unavailable" (j.executor.error_text (external r ∷ []))
    else fail (external r ∷ [])

abbrev pub target_of : Job → Option String → Prog (Option RepositoryContext)
target_of j none = ret none
target_of j (some id) =
    if not (j.executor.has_workspaces && j.executor.has_github && j.executor.has_repos)
    then ret none
    else (do rc ← call (repository_context id); on_context j rc)

-- `publishTarget`: nothing where the task has no repository or publishing is not configured.
unfoldable pub publish_target : Job → Task → Prog (Option RepositoryContext)
publish_target j t = target_of j t.repository_id

-- `repoRef`
unfoldable pub repo_ref : Job → RepositoryContext → Prog RepoRef
repo_ref j rc = do
  a ← ask (installation_token rc.installation_id)
  token ← from_answer a
  url ← from_answer (j.executor.credentialed_clone_url rc.clone_url token)
  ret (record { id = rc.stored.id; clone_url = url })

abbrev without_dashes : Chars → Chars
without_dashes [] = []
without_dashes (c ∷ s) = if c == b'-' then without_dashes s else c ∷ without_dashes s

abbrev dash : Chars
dash = codes "-"

-- `branchLabel`. A title that is cut inside of a character loses the rest of it, which is no part of a slug.
unfoldable pub branch_label : Task → Chars
branch_label t =
    let id = first_chars 8 (without_dashes (codes t.id)) in
    let title = codes (truncate_utf8 t.title 48) in
    elim t.source_issue_number [
      | some n ↦ codes "issue-" ++ (codes (format_int n) ++ (dash ++ (title ++ (dash ++ id))))
      | none ↦ codes "task-" ++ (title ++ (dash ++ id))
    ]

abbrev pub base_of : Job → Task → RepositoryContext → String → Prog String
base_of j t rc recorded =
    if str_eq recorded ""
    then (do a ← ask (branch_head_sha rc t.base_branch); from_answer a)
    else ret recorded

abbrev branch_prefix : Chars
branch_prefix = codes "agent-trail/"

abbrev label_of : String → Chars
label_of branch = trim_prefix branch_prefix (codes branch)

abbrev pub joined_with : Fault → Outcome (Unit {0}) → Prog (Unit {0})
joined_with f (returned u) = ret tt
joined_with f (failed g) = fail (f ++ g)

abbrev pub retry_worktree : Job → RepoRef → String → CreateParams → Fault → Prog Workspace
retry_worktree j repo branch p f = do
  caught (fence_lease_ownership j) (joined_with f)
  a ← ask (cleanup_stale repo j.claim.attempt_id branch)
  caught (from_answer a) (joined_with f)
  again ← ask (create_worktree p)
  from_answer again

abbrev pub on_worktree : Job → RepoRef → String → CreateParams → Answer Workspace → Prog Workspace
on_worktree j repo branch p (given ws) = ret ws
on_worktree j repo branch p (refused r) =
    if is_tip_moved (external r ∷ [])
    then fail (external r ∷ [])
    else retry_worktree j repo branch p (external r ∷ [])

-- `createWorktreeRetryingStale`
unfoldable pub create_worktree_retrying_stale :
    Job → RepoRef → String → CreateParams → Prog Workspace
create_worktree_retrying_stale j repo branch p = do
  a ← ask (create_worktree p)
  on_worktree j repo branch p a

abbrev pub on_revision : Job → Outcome Workspace → Prog Workspace
on_revision j (returned ws) = ret ws
on_revision j (failed f) =
    if is_tip_moved f
    then (do
      e ← signal ctx_err
      while_running (fail_task j "base_mismatch" (j.executor.error_text f)) e)
    else fail f

abbrev pub revise_from : Job → RepositoryContext → Option String → Option String → Prog Workspace
revise_from j rc none base =
    fail_task j "publish_state_missing"
      "revision attempt has no recorded working branch or base commit"
revise_from j rc (some branch) none =
    fail_task j "publish_state_missing"
      "revision attempt has no recorded working branch or base commit"
revise_from j rc (some branch) (some base) = do
  repo ← repo_ref j rc
  caught
      (create_worktree_retrying_stale j repo branch (record {
        repo = repo;
        attempt_id = j.claim.attempt_id;
        base_sha = base;
        branch_label = label_of branch;
        require_branch_tip = true;
      }))
      (on_revision j)

-- `provisionRevision`
unfoldable pub provision_revision : Job → Task → RepositoryContext → Attempt → Prog Workspace
provision_revision j t rc a = revise_from j rc t.working_branch a.base_commit_sha

abbrev pub branch_of : Job → Task → Prog String
branch_of j t = elim (sanitize_branch (branch_label t)) [
  | some b ↦ ret (j.executor.text_of b)
  | none ↦ fail (external (refusal "gitworkspace: branch name is empty after sanitization") ∷ [])
]

abbrev pub first_provision : Job → Task → RepositoryContext → Prog Workspace
first_provision j t rc = do
  resolved ← base_of j t rc (or_blank t.base_commit_sha)
  name ← branch_of j t
  (b, w) ← perform (ensure_git_context j.claim.task_id resolved name)
  let base = or_blank b
  let branch = or_blank w
  perform (record_attempt_base j.claim.attempt_id base)
  repo ← repo_ref j rc
  create_worktree_retrying_stale j repo branch (record {
    repo = repo;
    attempt_id = j.claim.attempt_id;
    base_sha = base;
    branch_label = label_of branch;
    require_branch_tip = false;
  })

-- `provisionWorkspace`
unfoldable pub provision_workspace : Job → Task → RepositoryContext → Prog Workspace
provision_workspace j t rc = do
  a ← perform (attempt j.claim.attempt_id)
  if ltb 1 a.number then provision_revision j t rc a else first_provision j t rc

abbrev pub with_fault : Option Fault → Fault → Option Fault
with_fault none g = some g
with_fault (some f) g = some (f ++ g)

abbrev pub joined_fault : Option Fault → Outcome (Unit {0}) → Prog (Option Fault)
joined_fault e (returned u) = ret e
joined_fault e (failed g) = ret (with_fault e g)

-- Whether an error leaves the workspace to a later owner: it is no failed attempt, and the task is not final.
abbrev keeps_workspace : Option Fault → Result Task → Bool
keeps_workspace e (ok t) = not (terminal t.status)
keeps_workspace e (err x) = true

abbrev pub remove_workspace : Job → Workspace → Option Fault → Prog (Option Fault)
remove_workspace j ws e =
    caught
      (do
        a ← ask (remove ws)
        _ ← from_answer a
        append j "cleanup.completed" "runner" (some (("workspace", "removed") ∷ [])))
      (joined_fault e)

abbrev recoverable : Option Fault → Bool
recoverable none = false
recoverable (some f) = not (is_attempt_failed f)

abbrev pub lost_in : Option Fault → Bool
lost_in none = false
lost_in (some f) = is_lost f

abbrev pub cleanup_fenced : Job → Workspace → Option Fault → Prog (Option Fault)
cleanup_fenced j ws e =
    if recoverable e
    then (do
      t ← call (store (get j.claim.task_id))
      if keeps_workspace e t then ret e else remove_workspace j ws e)
    else remove_workspace j ws e

abbrev pub after_cleanup_fence :
    Job → Workspace → Option Fault → Outcome (Unit {0}) → Prog (Option Fault)
after_cleanup_fence j ws e (returned u) = cleanup_fenced j ws e
after_cleanup_fence j ws e (failed g) = ret (with_fault e g)

-- `cleanupGitWorkspace`: from the error so far to the error after it.
unfoldable pub cleanup_git_workspace : Job → Workspace → Option Fault → Prog (Option Fault)
cleanup_git_workspace j ws e = do
  gone ← signal lease_flag
  if lost_in e || gone then ret e else caught (fence_lease_ownership j) (after_cleanup_fence j ws e)
