-- ===== src/Runner/Path/Provision.antt =====
-- internal/runner/publish.go and executor.go: a workspace is provided and removed without a transition, but for the
-- failure of the task.
use agent_trail.Base.{String, Option, some, none, [], ◌∷◌}
use agent_trail.Chars.Defs.{Chars}
use agent_trail.Git.Branch.{sanitize_branch}
use agent_trail.Runner.Checks.{while_running}
use agent_trail.Task.{Task, Attempt}
use agent_trail.Runner.Defs.{
  Fault, external, refusal, Answer, given, refused, Outcome, returned, failed, Prog, ret, RepoRef,
  RepositoryContext, Workspace, CreateParams,
}
use agent_trail.Runner.Fence.{Job}
use agent_trail.Runner.Provision.{
  repo_ref, joined_with, retry_worktree, on_worktree, create_worktree_retrying_stale, on_revision,
  revise_from, provision_revision, branch_label, branch_of, first_provision, provision_workspace,
  remove_workspace, joined_fault, cleanup_fenced, after_cleanup_fence, cleanup_git_workspace,
}
use agent_trail.Runner.Path.Rules.{
  Quiet, Calm, ret-Quiet, bind-Quiet, Quiet-Calm, bind-Calm, then-Calm, caught-Calm, if-Calm,
  store-Quiet, if-Quiet, signal-Quiet, perform-Quiet,
}
use agent_trail.Runner.Path.Fence.{append-Quiet, fence-Quiet, fail_task-Calm}
use agent_trail.Runner.Path.Checks.{quiet_rules, ended-Quiet}

pub ruleset calm_rules = (fail_task-Calm, then-Calm, if-Calm, Quiet-Calm, quiet_rules)

module _ (j : Job) where
  pub repo_ref-Quiet : (rc : RepositoryContext) → Quiet j (repo_ref j rc)
  unfolding repo_ref
  repo_ref-Quiet rc = search quiet_rules

  pub joined-Quiet : (e : Option Fault) (o : Outcome (Unit {0})) → Quiet j (joined_fault e o)
  joined-Quiet e (returned u) = search quiet_rules
  joined-Quiet e (failed g) = search quiet_rules

  remove-Quiet : (ws : Workspace) (e : Option Fault) → Quiet j (remove_workspace j ws e)
  remove-Quiet ws e = search (quiet_rules, joined-Quiet) depth 24

  fenced_cleanup-Quiet : (ws : Workspace) (e : Option Fault) → Quiet j (cleanup_fenced j ws e)
  fenced_cleanup-Quiet ws e = search (quiet_rules, remove-Quiet, store-Quiet) depth 24

  after_fence-Quiet :
      (ws : Workspace) (e : Option Fault) (o : Outcome (Unit {0}))
      → Quiet j (after_cleanup_fence j ws e o)
  after_fence-Quiet ws e (returned u) = fenced_cleanup-Quiet ws e
  after_fence-Quiet ws e (failed f) = search quiet_rules

  pub cleanup-Quiet : (ws : Workspace) (e : Option Fault) → Quiet j (cleanup_git_workspace j ws e)
  unfolding cleanup_git_workspace
  cleanup-Quiet ws e = search (quiet_rules, after_fence-Quiet) depth 24

  with-Quiet : (f : Fault) (o : Outcome (Unit {0})) → Quiet j (joined_with f o)
  with-Quiet f (returned u) = search quiet_rules
  with-Quiet f (failed h) = search quiet_rules

  retry-Quiet :
      (repo : RepoRef) (branch : String) (p : CreateParams) (f : Fault)
      → Quiet j (retry_worktree j repo branch p f)
  retry-Quiet repo branch p f = search (quiet_rules, with-Quiet) depth 24

  on_worktree-Quiet :
      (repo : RepoRef) (branch : String) (p : CreateParams) (a : Answer Workspace)
      → Quiet j (on_worktree j repo branch p a)
  on_worktree-Quiet repo branch p (given ws) = search quiet_rules
  on_worktree-Quiet repo branch p (refused r) = search (quiet_rules, retry-Quiet)

  create-Quiet :
      (repo : RepoRef) (branch : String) (p : CreateParams)
      → Quiet j (create_worktree_retrying_stale j repo branch p)
  unfolding create_worktree_retrying_stale
  create-Quiet repo branch p = search (quiet_rules, on_worktree-Quiet)

  pub while-Calm :
      {A : Type 0} (m : Prog A) (e : Option Fault) → Calm j m → Calm j (while_running m e)
  while-Calm m none p = p
  while-Calm {A} m (some f) p = search (Quiet-Calm, ended-Quiet)

  on_revision-Calm : (o : Outcome Workspace) → Calm j (on_revision j o)
  on_revision-Calm (returned ws) = search calm_rules
  on_revision-Calm (failed f) = search (calm_rules, while-Calm) depth 24

  revise_from-Calm : (rc : RepositoryContext) (b w : Option String) → Calm j (revise_from j rc b w)
  revise_from-Calm rc none w = search calm_rules
  revise_from-Calm rc (some b) none = search calm_rules
  revise_from-Calm rc (some b) (some w) =
      search (then-Calm, caught-Calm, repo_ref-Quiet, create-Quiet, on_revision-Calm) depth 24

  revision-Calm :
      (t : Task) (rc : RepositoryContext) (a : Attempt) → Calm j (provision_revision j t rc a)
  unfolding provision_revision
  revision-Calm t rc a = revise_from-Calm rc t.working_branch a.base_commit_sha

  branch-Quiet : (t : Task) → Quiet j (branch_of j t)
  branch-Quiet t = go (sanitize_branch (branch_label t))
    where
      go :
          (o : Option Chars)
          → Quiet j (elim o [
            | some b ↦ ret (j.executor.text_of b)
            | none ↦
                Prog.fail
                  (external (refusal "gitworkspace: branch name is empty after sanitization") ∷ [])
          ])
      go none = search quiet_rules
      go (some b) = search quiet_rules

  first-Quiet : (t : Task) (rc : RepositoryContext) → Quiet j (first_provision j t rc)
  first-Quiet t rc = search (quiet_rules, branch-Quiet, create-Quiet, repo_ref-Quiet) depth 30

  pub provision-Calm : (t : Task) (rc : RepositoryContext) → Calm j (provision_workspace j t rc)
  unfolding provision_workspace
  provision-Calm t rc =
      search (then-Calm, if-Calm, Quiet-Calm, perform-Quiet, revision-Calm, first-Quiet) depth 24
