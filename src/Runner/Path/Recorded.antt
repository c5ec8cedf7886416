-- ===== src/Runner/Path/Recorded.antt =====
-- internal/runner/publish.go: publishing does not end well before the pull request is recorded.
use agent_trail.Base.{
  ◌≡◌, sym, ◌∙◌, String, Bool, true, false, true≢false, Option, some, none, str_eq, eq_refl, ℤ,
  if◌then◌else◌,
}
use agent_trail.Db.{ok, err}
use agent_trail.Task.{Task, Attempt}
use agent_trail.Runner.Defs.{
  Command, Response, store, record_pull_request, Prog, ret, fail, act, caught, Answer, given,
  refused, repository_not_found, no_installation, branch_not_found, branch_tip_moved,
  nothing_to_commit, session_cancelled, refusal, RepositoryContext, RepoRef, Workspace, perform,
  call, transition, signal, ctx_err, Fault, from_result, ◌>>=◌,
}
use agent_trail.Runner.Fence.{Job, fence_lease_ownership, fail_task, failure_params}
use agent_trail.Runner.Publish.{failed_step, publish_failure}
use agent_trail.Runner.Pulls.{
  publish_to_github, publish_no_change, publish_commit, on_commit, publish_from_workspace,
  cleaned_after, publish_and_clean, lost_work, on_head, on_lookup, recover, publish_recovered,
}

module _ (j : Job) where
  abbrev is_recorded : (c : Command) → Response c → Bool
  is_recorded (store (record_pull_request aid n)) (ok u) = str_eq aid j.claim.attempt_id
  is_recorded _ r = false

  -- Along every path of answers that ends without an error, the store has recorded a pull request of the job's attempt.
  abbrev pub Records : {A : Type 0} → Prog A → Type 0
  Records (ret a) = ⊥
  Records (fail f) = Unit {0}
  Records (act c k) = (r : Response c) → is_recorded c r ≡ false → Records (k r)

  then-Records :
      {A B : Type 0} (m : Prog A) (f : A → Prog B) → ((a : A) → Records (f a)) → Records (m >>= f)
  unfolding ◌>>=◌
  then-Records (ret a) f h = h a
  then-Records (fail e) f h = tt
  then-Records (act c k) f h = λ r n. then-Records (k r) f h

  first-Records : {A B : Type 0} (m : Prog A) (f : A → Prog B) → Records m → Records (m >>= f)
  unfolding ◌>>=◌
  first-Records (ret a) f h = absurd h
  first-Records (fail e) f h = tt
  first-Records (act c k) f h = λ r n. first-Records (k r) f (h r n)

  record-Records : (n : ℤ) → Records (perform (record_pull_request j.claim.attempt_id n))
  unfolding ◌>>=◌
  record-Records n (ok u) other = absurd (true≢false (sym (eq_refl j.claim.attempt_id) ∙ other))
  record-Records n (err e) other = tt

  caught-Records :
      {A : Type 0} (m : Prog A) (ws : Workspace)
      → Records m
      → Records (caught m (cleaned_after j ws))
  unfolding caught
  caught-Records (ret a) ws h = absurd h
  caught-Records (fail f) ws h = then-Records _ _ (λ e. tt)
  caught-Records (act c k) ws h = λ r n. caught-Records (k r) ws (h r n)

  if-Records :
      {A : Type 0} (b : Bool) (m n : Prog A) → Records m → Records n → Records (if b then m else n)
  if-Records true m n h k = h
  if-Records false m n h k = k

  fail_task-Records :
      (A : Type 0) (code message : String) → Records (fail_task {A = A} j code message)
  unfolding fail_task
  fail_task-Records A code message = then-Records (fence_lease_ownership j) _ (λ u.
      then-Records (call (transition j.claim.task_id (failure_params j code message))) _
        (λ r. then-Records (from_result r) _ (λ t. tt)))

  failed_step-Records :
      (A : Type 0) (step : String) (f : Fault) (o : Option Fault)
      → Records (failed_step {A = A} j step f o)
  failed_step-Records A step f none = fail_task-Records A _ _
  failed_step-Records A step f (some e) = tt

  publish_failure-Records :
      (A : Type 0) (step : String) (f : Fault) → Records (publish_failure {A = A} j step f)
  unfolding publish_failure
  publish_failure-Records A step f =
      then-Records (signal ctx_err) _ (λ o. failed_step-Records A step f o)

  publish-Records :
      (t : Task) (rc : RepositoryContext) (a : Attempt) (branch base final : String)
      → Records (publish_to_github j t rc a branch base final)
  unfolding publish_to_github
  publish-Records t rc a branch base final = then-Records _ _ λ u1. then-Records _ _ λ kept.
      then-Records _ _ λ (report, markdown). then-Records _ _ λ past. then-Records _ _ λ history.
        then-Records _ _ λ found. then-Records _ _ λ pull.
          then-Records _ _
            λ (was_created, pr). then-Records _ _ λ u2. first-Records _ _ (record-Records pr.number)

  no_change-Records :
      (t : Task) (rc : RepositoryContext) (a : Attempt) (base summary : String)
      → Records (publish_no_change j t rc a base summary)
  unfolding publish_no_change
  no_change-Records t rc a base summary = then-Records _ _ λ u1.
      then-Records _ _ λ u2.
        then-Records _ _ λ u3. then-Records _ _ λ u4. fail_task-Records (Unit {0}) "no_change" _

  commit-Records :
      (t : Task) (rc : RepositoryContext) (a : Attempt) (ws : Workspace) (sha : String)
      → Records (publish_commit j t rc a ws sha)
  commit-Records t rc a ws sha = then-Records _ _ λ u1. then-Records _ _ λ u2.
      then-Records _ _ λ pushed.
        then-Records _ _
          λ u3. then-Records _ _ λ u4. publish-Records t rc a ws.branch ws.base_sha sha

  on_commit-Records :
      (t : Task) (rc : RepositoryContext) (a : Attempt) (ws : Workspace) (summary : String)
      (r : Answer String)
      → Records (on_commit j t rc a ws summary r)
  on_commit-Records t rc a ws summary (given sha) = commit-Records t rc a ws sha
  on_commit-Records t rc a ws summary (refused nothing_to_commit) = then-Records _ _ λ r.
      then-Records _ _ λ tip.
        if-Records (str_eq tip ws.base_sha) _ _ (no_change-Records t rc a ws.base_sha summary)
          (commit-Records t rc a ws tip)
  on_commit-Records t rc a ws summary (refused repository_not_found) =
      publish_failure-Records (Unit {0}) _ _
  on_commit-Records t rc a ws summary (refused no_installation) =
      publish_failure-Records (Unit {0}) _ _
  on_commit-Records t rc a ws summary (refused branch_not_found) =
      publish_failure-Records (Unit {0}) _ _
  on_commit-Records t rc a ws summary (refused branch_tip_moved) =
      publish_failure-Records (Unit {0}) _ _
  on_commit-Records t rc a ws summary (refused session_cancelled) =
      publish_failure-Records (Unit {0}) _ _
  on_commit-Records t rc a ws summary (refused (refusal s)) = publish_failure-Records (Unit {0}) _ _

  from_workspace-Records :
      (t : Task) (rc : RepositoryContext) (ws : Workspace) (summary : String)
      → Records (publish_from_workspace j t rc ws summary)
  unfolding publish_from_workspace
  from_workspace-Records t rc ws summary = then-Records _ _ λ a.
      if-Records _ _ _ (fail_task-Records (Unit {0}) "base_mismatch" _)
        (then-Records _ _ λ r. on_commit-Records t rc a ws summary r)

  and_clean-Records :
      (t : Task) (rc : RepositoryContext) (ws : Workspace) (summary : String)
      → Records (publish_and_clean j t rc ws summary)
  and_clean-Records t rc ws summary = first-Records _ _ (from_workspace-Records t rc ws summary)

  lost-Records : Records (lost_work {A = Unit {0}} j)
  lost-Records = fail_task-Records (Unit {0}) _ _

  head-Records :
      (t : Task) (rc : RepositoryContext) (a : Attempt) (branch base : String) (r : Answer String)
      → Records (on_head j t rc a branch base r)
  head-Records t rc a branch base (given tip) =
      if-Records (str_eq tip base) _ _ lost-Records
        (then-Records _ _ λ u. publish-Records t rc a branch base tip)
  head-Records t rc a branch base (refused branch_not_found) = lost-Records
  head-Records t rc a branch base (refused nothing_to_commit) =
      publish_failure-Records (Unit {0}) _ _
  head-Records t rc a branch base (refused repository_not_found) =
      publish_failure-Records (Unit {0}) _ _
  head-Records t rc a branch base (refused no_installation) = publish_failure-Records (Unit {0}) _ _
  head-Records t rc a branch base (refused branch_tip_moved) =
      publish_failure-Records (Unit {0}) _ _
  head-Records t rc a branch base (refused session_cancelled) =
      publish_failure-Records (Unit {0}) _ _
  head-Records t rc a branch base (refused (refusal s)) = publish_failure-Records (Unit {0}) _ _

  lookup-Records :
      (t : Task) (rc : RepositoryContext) (repo : RepoRef) (a : Attempt) (branch base : String)
      (o : Option Workspace)
      → Records (on_lookup j t rc repo a branch base o)
  lookup-Records t rc repo a branch base (some ws) =
      caught-Records _ ws (then-Records _ _ λ m. then-Records _ _ λ u. and_clean-Records t rc ws "")
  lookup-Records t rc repo a branch base none =
      then-Records _ _ λ r. head-Records t rc a branch base r

  recover-Records :
      (t : Task) (rc : RepositoryContext) (a : Attempt) (branch base : Option String)
      → Records (recover j t rc a branch base)
  recover-Records t rc a (some branch) (some base) =
      then-Records _ _ λ repo. then-Records _ _ λ ws. lookup-Records t rc repo a branch base ws
  recover-Records t rc a none base = fail_task-Records (Unit {0}) _ _
  recover-Records t rc a (some branch) none = fail_task-Records (Unit {0}) _ _

  -- However they are answered, neither the publishing of a workspace nor the recovery of published work ends without an
  -- error before the store has recorded a pull request of the job's attempt.
  pub publish-Recorded :
      (t : Task) (rc : RepositoryContext) (ws : Workspace) (summary : String)
      → Records (publish_and_clean j t rc ws summary) × Records (publish_recovered j t rc)
  unfolding publish_recovered
  publish-Recorded t rc ws summary = (
    and_clean-Records t rc ws summary,
    then-Records _ _ λ a. first-Records _ _ (recover-Records t rc a t.working_branch _),
  )
