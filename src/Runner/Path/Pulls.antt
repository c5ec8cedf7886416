-- ===== src/Runner/Path/Pulls.antt =====
-- internal/runner/publish.go: neither the commit, its pull request nor the recovery of published work makes a
-- transition, but for the failure of the task.
use agent_trail.Base.{◌≡◌, ◌∙◌, inr, ℤ, String, Bool, Option, some, none}
use agent_trail.Status.{publishing, awaiting_review}
use agent_trail.Task.{Task, Attempt}
use agent_trail.Evidence.Defs.{Report}
use agent_trail.Runner.Defs.{
  ask, ensure_mirror, lookup, attempt, perform, from_answer, caught, Answer, given, refused,
  repository_not_found, no_installation, branch_not_found, branch_tip_moved, nothing_to_commit,
  session_cancelled, refusal, Outcome, returned, failed, Prog, RepositoryContext, RepoRef,
  Workspace, PullRequest,
}
use agent_trail.Runner.Fence.{Job}
use agent_trail.Status.Graph.{IsWorking, in_publishing, submit, ⟶-can_transition}
use agent_trail.Runner.Provision.{repo_ref, cleanup_git_workspace}
use agent_trail.Runner.Path.Defs.{View, Follows}
use agent_trail.Runner.Pulls.{
  found_or_created, on_issue, announce, publish_to_github, on_pull, tell_no_change,
  publish_no_change, publish_commit, on_commit, publish_from_workspace, cleaned_after,
  publish_and_clean, lost_work, on_head, on_lookup, first_of, recover, publish_recovered,
}
use agent_trail.Runner.Path.Rules.{
  Quiet, Calm, bind-Calm, Quiet-Calm, ask-Quiet, answer-Quiet, perform-Quiet, Same-Ends, trans-Same,
  follows_go, Ends, Same, Calm-Ends, go-Quiet, caught_go,
}
use agent_trail.Runner.Path.Fence.{append-Quiet, fail_task-Calm, Tracked, move_to-Tracked}
use agent_trail.Runner.Path.Provision.{calm_rules, repo_ref-Quiet, cleanup-Quiet}
use agent_trail.Runner.Path.Publish.{
  publish_failure-Calm, or_failure-Calm, detect-Quiet, upsert_check_run-Calm, complete-Quiet,
  summary-Calm,
}
use agent_trail.Runner.Path.Checks.{quiet_rules, no_error-Quiet}

ruleset publish_rules = (calm_rules, bind-Calm, or_failure-Calm, publish_failure-Calm)

module _ (j : Job) where
  found-Calm :
      (t : Task) (rc : RepositoryContext) (branch body : String) (o : Option PullRequest)
      → Calm j (found_or_created j t rc branch body o)
  found-Calm t rc branch body none = search publish_rules depth 24
  found-Calm t rc branch body (some pr) = search publish_rules depth 24

  issue-Calm :
      (rc : RepositoryContext) (step text kind : String) (o : Option ℤ)
      → Calm j (on_issue j rc step text kind o)
  issue-Calm rc step text kind none = search publish_rules
  issue-Calm rc step text kind (some n) = search publish_rules depth 24

  announce-Calm :
      (t : Task) (rc : RepositoryContext) (a : Attempt) (pr : PullRequest) (final : String)
      (report : Report)
      → Calm j (announce j t rc a pr final report)
  announce-Calm t rc a pr final report = search (publish_rules, summary-Calm, issue-Calm)

  publish-Calm :
      (t : Task) (rc : RepositoryContext) (a : Attempt) (branch base final : String)
      → Calm j (publish_to_github j t rc a branch base final)
  unfolding publish_to_github
  publish-Calm t rc a branch base final =
      search
        (
          bind-Calm, Quiet-Calm, ask-Quiet, answer-Quiet, perform-Quiet, append-Quiet, detect-Quiet,
          or_failure-Calm, found-Calm, upsert_check_run-Calm, complete-Quiet, announce-Calm,
        )
        depth 48

  pull-Calm :
      (rc : RepositoryContext) (a : Attempt) (explanation : String) (o : Option PullRequest)
      → Calm j (on_pull j rc a explanation o)
  pull-Calm rc a explanation none = search publish_rules
  pull-Calm rc a explanation (some pr) = search publish_rules depth 24

  tell-Calm :
      (t : Task) (rc : RepositoryContext) (a : Attempt) (explanation : String) (o : Option String)
      → Calm j (tell_no_change j t rc a explanation o)
  tell-Calm t rc a explanation none = search (publish_rules, issue-Calm)
  tell-Calm t rc a explanation (some branch) =
      search (publish_rules, issue-Calm, pull-Calm) depth 24

  no_change-Calm :
      (t : Task) (rc : RepositoryContext) (a : Attempt) (base summary : String)
      → Calm j (publish_no_change j t rc a base summary)
  unfolding publish_no_change
  no_change-Calm t rc a base summary =
      search (publish_rules, upsert_check_run-Calm, complete-Quiet, tell-Calm) depth 36

  commit-Calm :
      (t : Task) (rc : RepositoryContext) (a : Attempt) (ws : Workspace) (sha : String)
      → Calm j (publish_commit j t rc a ws sha)
  commit-Calm t rc a ws sha = search (publish_rules, publish-Calm) depth 36

  on_commit-Calm :
      (t : Task) (rc : RepositoryContext) (a : Attempt) (ws : Workspace) (summary : String)
      (r : Answer String)
      → Calm j (on_commit j t rc a ws summary r)
  on_commit-Calm t rc a ws summary (given sha) = commit-Calm t rc a ws sha
  on_commit-Calm t rc a ws summary (refused nothing_to_commit) =
      search (publish_rules, no_change-Calm, commit-Calm) depth 24
  on_commit-Calm t rc a ws summary (refused repository_not_found) = search publish_rules
  on_commit-Calm t rc a ws summary (refused no_installation) = search publish_rules
  on_commit-Calm t rc a ws summary (refused branch_not_found) = search publish_rules
  on_commit-Calm t rc a ws summary (refused branch_tip_moved) = search publish_rules
  on_commit-Calm t rc a ws summary (refused session_cancelled) = search publish_rules
  on_commit-Calm t rc a ws summary (refused (refusal s)) = search publish_rules

  pub from_workspace-Calm :
      (t : Task) (rc : RepositoryContext) (ws : Workspace) (summary : String)
      → Calm j (publish_from_workspace j t rc ws summary)
  unfolding publish_from_workspace
  from_workspace-Calm t rc ws summary = search (publish_rules, on_commit-Calm) depth 24

  -- The deferred cleanup is quiet, but the failed work before it may have moved the task.
  cleaned-Quiet : (A : Type 0) (ws : Workspace) (o : Outcome A) → Quiet j (cleaned_after j ws o)
  cleaned-Quiet A ws (returned a) = search quiet_rules
  cleaned-Quiet A ws (failed f) = search (quiet_rules, cleanup-Quiet)

  pub and_clean-Calm :
      (t : Task) (rc : RepositoryContext) (ws : Workspace) (summary : String)
      → Calm j (publish_and_clean j t rc ws summary)
  and_clean-Calm t rc ws summary =
      search (bind-Calm, Quiet-Calm, from_workspace-Calm, cleanup-Quiet, no_error-Quiet) depth 24

  lost-Calm : (A : Type 0) → Calm j (lost_work {A = A} j)
  lost-Calm A = fail_task-Calm j A _ _

  head-Calm :
      (t : Task) (rc : RepositoryContext) (a : Attempt) (branch base : String) (r : Answer String)
      → Calm j (on_head j t rc a branch base r)
  head-Calm t rc a branch base (given tip) = search (publish_rules, publish-Calm) depth 24
  head-Calm t rc a branch base (refused branch_not_found) = search lost-Calm
  head-Calm t rc a branch base (refused nothing_to_commit) = search publish_rules
  head-Calm t rc a branch base (refused repository_not_found) = search publish_rules
  head-Calm t rc a branch base (refused no_installation) = search publish_rules
  head-Calm t rc a branch base (refused branch_tip_moved) = search publish_rules
  head-Calm t rc a branch base (refused session_cancelled) = search publish_rules
  head-Calm t rc a branch base (refused (refusal s)) = search publish_rules

  -- Work on a workspace that the deferred cleanup follows where it fails.
  pub cleaned_go :
      {A : Type 0} (g : View) (ws : Workspace) (m : Prog A) (R : View → A → Type 0)
      → Follows j g m (Ends R)
      → Follows j g (caught m (cleaned_after j ws)) (Ends R)
  cleaned_go {A} g ws m R p =
      caught_go j g m (cleaned_after j ws) R R p (λ h a r. r)
        (λ h f.
          go-Quiet j h (cleanup_git_workspace j ws (some f)) _ R (cleanup-Quiet j ws (some f))
            (λ k e s. tt))

  lookup-Ends :
      (g : View) (t : Task) (rc : RepositoryContext) (repo : RepoRef) (a : Attempt)
      (branch base : String) (ws : Option Workspace)
      → IsWorking g.status
      → Follows j g (on_lookup j t rc repo a branch base ws) (Ends (λ h u. Same g h))
  lookup-Ends g t rc repo a branch base (some ws) w =
      cleaned_go g ws _ (λ h u. Same g h)
        (Calm-Ends j g _ w (
          bind-Calm j (ask (ensure_mirror repo)) _ (search (Quiet-Calm, ask-Quiet)) (λ r.
            bind-Calm j (from_answer r) _ (search (Quiet-Calm, answer-Quiet))
              (λ u. and_clean-Calm t rc ws ""))))
  lookup-Ends g t rc repo a branch base none w =
      Calm-Ends j g _ w (search (bind-Calm, Quiet-Calm, ask-Quiet, head-Calm))

  recover-Ends :
      (g : View) (t : Task) (rc : RepositoryContext) (a : Attempt) (b w : Option String)
      → IsWorking g.status
      → Follows j g (recover j t rc a b w) (Ends (λ h u. Same g h))
  recover-Ends g t rc a none none p = Calm-Ends j g _ p (fail_task-Calm j _ _ _)
  recover-Ends g t rc a none (some w) p = Calm-Ends j g _ p (fail_task-Calm j _ _ _)
  recover-Ends g t rc a (some b) none p = Calm-Ends j g _ p (fail_task-Calm j _ _ _)
  recover-Ends g t rc a (some b) (some w) p =
      go-Quiet j g (repo_ref j rc) _ (λ h u. Same g h) (repo_ref-Quiet j rc)
        (λ h repo s.
          go-Quiet j h (ask (lookup j.claim.attempt_id repo b w)) _ (λ k u. Same g k)
            (ask-Quiet j (lookup j.claim.attempt_id repo b w))
            (λ k ws r.
              Same-Ends j g k _ (trans-Same j g h k s r)
                (lookup-Ends k t rc repo a b w ws (rw (r.0, s.0) p))))

  -- A recovered publication ends in review.
  pub recovered-Tracked :
      (g : View) (target : Bool) (t : Task) (rc : RepositoryContext)
      → g.status ≡ publishing
      → g.has_target ≡ target
      → Follows j g (publish_recovered j t rc) (Ends (Tracked target awaiting_review))
  unfolding publish_recovered
  recovered-Tracked g target t rc p same =
      go-Quiet j g (perform (attempt j.claim.attempt_id)) _ (Tracked target awaiting_review)
        (perform-Quiet j (attempt j.claim.attempt_id))
        (λ h a s.
          follows_go j h
            (recover j t rc a t.working_branch (first_of a.base_commit_sha t.base_commit_sha)) _
            (λ k u. Same h k) (Tracked target awaiting_review)
            (recover-Ends h t rc a t.working_branch (first_of a.base_commit_sha t.base_commit_sha)
              (rw (s.0, p) in_publishing))
            (λ k u r.
              move_to-Tracked j k target awaiting_review "runner" "" (r.1 ∙ s.1 ∙ same)
                (inr (rw (r.0, s.0, p) (⟶-can_transition submit), λ e. cc))))
