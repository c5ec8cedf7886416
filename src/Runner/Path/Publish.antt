-- ===== src/Runner/Path/Publish.antt =====
-- internal/runner/publish.go: publishing makes no transition, but for the failure of the task.
use agent_trail.Base.{ℤ, ℕ, String, Option, some, none, List, [], ◌∷◌}
use agent_trail.Task.{Task, Attempt, Payload}
use agent_trail.Evidence.Defs.{Report}
use agent_trail.Runner.Defs.{
  Fault, Answer, given, refused, Outcome, returned, failed, Prog, RepositoryContext, CheckRun,
  CheckRunParams,
}
use agent_trail.Runner.Fence.{Job}
use agent_trail.Runner.Publish.{
  failed_step, publish_failure, or_publish_failure, logged, or_logged, append_all, detect_for,
  detect, upsert, upsert_check_run, marked, complete_run, complete_trigger_check_run,
  comment_posted, post_revision_summary,
}
use agent_trail.Runner.Path.Rules.{
  Quiet, Calm, then-Calm, bind-Calm, ret-Quiet, if-Quiet, signal-Quiet, ask-Quiet,
}
use agent_trail.Runner.Path.Checks.{quiet_rules}
use agent_trail.Runner.Path.Provision.{calm_rules, repo_ref-Quiet}

module _ (j : Job) where
  failed_step-Calm :
      (A : Type 0) (step : String) (f : Fault) (e : Option Fault)
      → Calm j (failed_step {A = A} j step f e)
  failed_step-Calm A step f none = search calm_rules
  failed_step-Calm A step f (some e) = search calm_rules

  pub publish_failure-Calm :
      (A : Type 0) (step : String) (f : Fault) → Calm j (publish_failure {A = A} j step f)
  unfolding publish_failure
  publish_failure-Calm A step f = search (then-Calm, signal-Quiet, failed_step-Calm)

  pub or_failure-Calm :
      (A : Type 0) (step : String) (a : Answer A) → Calm j (or_publish_failure j step a)
  or_failure-Calm A step (given a) = search calm_rules
  or_failure-Calm A step (refused r) = search publish_failure-Calm

  logged-Quiet : (A : Type 0) (a : A) (e : Option Fault) → Quiet j (logged a e)
  logged-Quiet A a none = search quiet_rules
  logged-Quiet A a (some e) = search quiet_rules

  or_logged-Quiet :
      (A B : Type 0) (b : B) (next : A → Prog B) (o : Outcome A)
      → ((a : A) → Quiet j (next a))
      → Quiet j (or_logged b next o)
  or_logged-Quiet A B b next (returned a) p = p a
  or_logged-Quiet A B b next (failed f) p = search (quiet_rules, logged-Quiet)

  append_all-Quiet : (event_type : String) (l : List Payload) → Quiet j (append_all j event_type l)
  unfolding append_all
  append_all-Quiet event_type [] = search quiet_rules
  append_all-Quiet event_type (p ∷ rest) = search (quiet_rules, append_all-Quiet event_type rest)

  detect_for-Quiet :
      (t : Task) (rc : RepositoryContext) (base final : String) (o : Option String)
      → Quiet j (detect_for j t rc base final o)
  detect_for-Quiet t rc base final none = search quiet_rules
  detect_for-Quiet t rc base final (some id) =
      search (quiet_rules, repo_ref-Quiet, or_logged-Quiet, append_all-Quiet) depth 24

  pub detect-Quiet :
      (t : Task) (rc : RepositoryContext) (base final : String) → Quiet j (detect j t rc base final)
  unfolding detect
  detect-Quiet t rc base final = search (if-Quiet, ret-Quiet, detect_for-Quiet)

  upsert-Calm :
      (rc : RepositoryContext) (p : CheckRunParams) (o : Option CheckRun) → Calm j (upsert j rc p o)
  upsert-Calm rc p none = search (calm_rules, bind-Calm, or_failure-Calm) depth 24
  upsert-Calm rc p (some run) = search (calm_rules, bind-Calm, or_failure-Calm) depth 24

  pub upsert_check_run-Calm :
      (rc : RepositoryContext) (p : CheckRunParams) → Calm j (upsert_check_run j rc p)
  unfolding upsert_check_run
  upsert_check_run-Calm rc p =
      search (then-Calm, bind-Calm, ask-Quiet, or_failure-Calm, upsert-Calm) depth 24

  marked-Quiet : (id : ℤ) (p : CheckRunParams) (u : Unit {0}) → Quiet j (marked j id p u)
  marked-Quiet id p u = search quiet_rules

  complete_run-Quiet :
      (rc : RepositoryContext) (p : CheckRunParams) (id : Option ℤ) (at : Option ℕ)
      → Quiet j (complete_run j rc p id at)
  complete_run-Quiet rc p none at = search quiet_rules
  complete_run-Quiet rc p (some id) (some at) = search quiet_rules
  complete_run-Quiet rc p (some id) none =
      search (quiet_rules, or_logged-Quiet, marked-Quiet) depth 24

  pub complete-Quiet :
      (rc : RepositoryContext) (a : Attempt) (p : CheckRunParams)
      → Quiet j (complete_trigger_check_run j rc a p)
  unfolding complete_trigger_check_run
  complete-Quiet rc a p =
      complete_run-Quiet rc p a.trigger_check_run_id a.trigger_check_run_completed_at

  posted-Quiet : (kind : String) → Quiet j (comment_posted j kind)
  unfolding comment_posted
  posted-Quiet kind = search quiet_rules

  pub summary-Calm :
      (rc : RepositoryContext) (a : Attempt) (pull : ℤ) (final : String) (report : Report)
      → Calm j (post_revision_summary j rc a pull final report)
  unfolding post_revision_summary
  summary-Calm rc a pull final report =
      search (calm_rules, bind-Calm, posted-Quiet, or_failure-Calm) depth 24
