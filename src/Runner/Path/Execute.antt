-- ===== src/Runner/Path/Execute.antt =====
-- internal/runner/executor.go: what an execution may ask of the task store.
use agent_trail.Base.{
  ◌≡◌, refl, ◌∙◌, ℕ, ℤ, inl, String, Bool, true, false, ◌&&◌, Option, some, none, [], ◌∷◌,
  if◌then◌else◌,
}
use agent_trail.Status.{cancelled, terminal, status_eq}
use agent_trail.Task.{Task, Attempt}
use agent_trail.Db.{Result, ok, err}
use agent_trail.Runner.Defs.{
  Fault, lost, attempt_failed, Answer, given, refused, Outcome, returned, failed, Prog,
  RepositoryContext, get, repository_context, store, transition, extend_lease, lease_over, ask,
  call, caught, from_result, perform, ◌>>=◌,
}
use agent_trail.Runner.Fence.{Job}
use agent_trail.Runner.Execute.{
  runtime_deadline, timeout_task, timeout_params, settle_timeout, settle_on, settle_task,
  settle_trigger_check_run, clear_workspace, clear_task, cleanup_terminal_recovery, after_release,
  release, fault_of_drive, timed, also, or_released, after_drive, run_job, execute,
}
use agent_trail.Runner.Drive.{drive}
use agent_trail.Runner.Path.Defs.{View, seen, Follows}
use agent_trail.Runner.Path.Rules.{
  Same, Quiet, Ends, AfterBind, follows_weaken, follows_bind, follows_caught, bind-Quiet, ret-Quiet,
  store-Quiet, signal-Quiet, perform-Quiet, caught-Quiet,
}
use agent_trail.Runner.Path.Fence.{fence-Quiet, fence_then}
use agent_trail.Runner.Path.Checks.{quiet_rules, no_error-Quiet}
use agent_trail.Runner.Path.Provision.{joined-Quiet}
use agent_trail.Runner.Path.Publish.{complete-Quiet}
use agent_trail.Runner.Path.Stages.{IsStart, IsFinished, drive-Follows}

-- A program that makes only allowed calls, from wherever it begins.
abbrev pub Free : {A : Type 0} → Job → Prog A → Type 0
Free {A} j m = (g : View) → Follows j g m (λ (h : View) (o : Outcome A). Unit {0})

module _ (j : Job) where
  Quiet-Free : {A : Type 0} (m : Prog A) → Quiet j m → Free j m
  Quiet-Free m p g = follows_weaken j g m (λ h o. Same g h) (λ h o. Unit {0}) (p g) (λ h o s. tt)

  bind-Free :
      {A B : Type 0} (m : Prog A) (f : A → Prog B)
      → Free j m
      → ((a : A) → Free j (f a))
      → Free j (m >>= f)
  bind-Free {A} {B} m f p q g =
      follows_bind j g m f (λ h o. Unit {0})
        (follows_weaken j g m (λ h o. Unit {0}) (AfterBind j f (λ h o. Unit {0})) (p g) end)
    where
      end :
          (h : View) (o : Outcome A)
          → Unit {0}
          → AfterBind j f (λ (k : View) (x : Outcome B). Unit {0}) h o
      end h (returned a) u = q a h
      end h (failed e) u = tt

  caught-Free :
      {A B : Type 0} (m : Prog A) (f : Outcome A → Prog B)
      → Free j m
      → ((o : Outcome A) → Free j (f o))
      → Free j (caught m f)
  caught-Free m f p q g =
      follows_caught j g m f (λ h o. Unit {0})
        (follows_weaken j g m (λ h o. Unit {0}) (λ h o. Follows j h (f o) (λ k x. Unit {0})) (p g)
          (λ h o u. q o h))

  settling :
      (h : View) (runtime : ℤ) (b c : Bool)
      → h.is_fenced ≡ true
      → Follows j h (settle_timeout j runtime b c) (λ k o. Unit {0})
  settling h runtime true c e = tt
  settling h runtime false true e = tt
  settling h runtime false false e =
      follows_bind j h (call (transition j.claim.task_id (timeout_params j runtime))) _
        (λ k o. Unit {0})
        (
          (refl, e, inl refl),
          λ r. follows_bind j _ (from_result r) _ (λ k o. Unit {0}) (refused_or_settled h r),
        )
    where
      refused_or_settled :
          (h : View) (r : Result Task)
          → Follows j
              (seen h (transition j.claim.task_id (timeout_params j runtime)) r)
              (from_result r)
              (AfterBind j
                (λ t. Prog.fail (attempt_failed ∷ []))
                (λ (k : View) (o : Outcome (Unit {0})). Unit {0}))
      refused_or_settled h (ok t) = tt
      refused_or_settled h (err x) = tt

  go-Free :
      {A B : Type 0} (g : View) (m : Prog A) (f : A → Prog B)
      → Follows j g m (λ h o. Unit {0})
      → ((a : A) → Free j (f a))
      → Follows j g (m >>= f) (λ h o. Unit {0})
  go-Free {A} {B} g m f p q =
      follows_bind j g m f (λ h o. Unit {0})
        (follows_weaken j g m (λ h o. Unit {0}) (AfterBind j f (λ h o. Unit {0})) p end)
    where
      end :
          (h : View) (o : Outcome A)
          → Unit {0}
          → AfterBind j f (λ (k : View) (x : Outcome B). Unit {0}) h o
      end h (returned a) u = q a h
      end h (failed e) u = tt

  timeout-Free : (runtime : ℤ) → Free j (timeout_task j runtime)
  unfolding timeout_task
  timeout-Free runtime g =
      fence_then j g _ (λ h o. Unit {0})
        (λ h s e.
          follows_bind j h (perform (get j.claim.task_id)) _ (λ h o. Unit {0})
            (follows_bind j h (call (store (get j.claim.task_id))) from_result _
              (tt, λ r. read h e r)))
        (λ h e s. tt)
    where
      read :
          (h : View)
          → h.is_fenced ≡ true
          → (r : Result Task)
          → Follows j (seen h (store (get j.claim.task_id)) r) (from_result r) (
              AfterBind j
                (λ x. settle_timeout j runtime (status_eq x.status cancelled) (terminal x.status))
                (λ k o. Unit {0}))
      read h e (err x) = tt
      read h e (ok t) =
          settling (record h { is_fenced = h.is_fenced && true }) runtime
            (status_eq t.status cancelled) (terminal t.status) (rw e refl)

  context-Free :
      (a : Attempt) (t : Task) (v : String × String) (r : Answer RepositoryContext)
      → Free j (settle_on j a t v r)
  context-Free a t v (refused r) = search (Quiet-Free, ret-Quiet)
  context-Free a t v (given rc) = search (Quiet-Free, bind-Quiet, fence-Quiet, complete-Quiet)

  resolve-Free : (id : String) → Free j (call (repository_context id))
  resolve-Free id g = (tt, λ a. tt)

  settle-Free :
      (a : Attempt) (t : Task) (v : Option (String × String)) (repo : Option String)
      → Free j (settle_task j a t v repo)
  settle-Free a t none repo = search (Quiet-Free, ret-Quiet)
  settle-Free a t (some v) none = search (Quiet-Free, ret-Quiet)
  settle-Free a t (some v) (some repo) =
      bind-Free (call (repository_context repo)) _ (resolve-Free repo) (context-Free a t v)

  if-Free :
      {A : Type 0} (b : Bool) (m n : Prog A) → Free j m → Free j n → Free j (if b then m else n)
  if-Free true m n p q = p
  if-Free false m n p q = q

  check_run-Free : (e : Option Fault) → Free j (settle_trigger_check_run j e)
  unfolding settle_trigger_check_run
  check_run-Free e =
      search
        (
          bind-Free, caught-Free, if-Free, Quiet-Free, settle-Free, joined-Quiet, ret-Quiet,
          signal-Quiet, perform-Quiet,
        )
        depth 24

  clear_workspace-Quiet :
      (repo branch : String) (b : Bool) → Quiet j (clear_workspace j repo branch b)
  clear_workspace-Quiet repo branch true = search quiet_rules
  clear_workspace-Quiet repo branch false = search quiet_rules

  clear-Quiet :
      (final : Bool) (repo branch : Option String) → Quiet j (clear_task j final repo branch)
  clear-Quiet false repo branch = search quiet_rules
  clear-Quiet true none branch = search quiet_rules
  clear-Quiet true (some r) none = search quiet_rules
  clear-Quiet true (some r) (some b) = search (quiet_rules, clear_workspace-Quiet)

  recovery-Quiet : (e : Option Fault) → Quiet j (cleanup_terminal_recovery j e)
  unfolding cleanup_terminal_recovery
  recovery-Quiet e = search (quiet_rules, clear-Quiet, joined-Quiet) depth 24

  timed-Free : (runtime : ℤ) (b : Bool) (e : Option Fault) → Free j (timed j runtime b e)
  timed-Free runtime true e = search (caught-Free, timeout-Free, Quiet-Free, joined-Quiet)
  timed-Free runtime false e = search (Quiet-Free, ret-Quiet)

  released-Quiet : (e : Option Fault) (r : Result (Unit {0})) → Quiet j (after_release e r)
  released-Quiet e (ok u) = search quiet_rules
  released-Quiet e (err x) = search quiet_rules

  release-Quiet : (e : Option Fault) → Quiet j (release j e)
  unfolding release
  release-Quiet e = search (quiet_rules, store-Quiet, released-Quiet)

  driven-Quiet : (o : Outcome (Unit {0})) → Quiet j (fault_of_drive o)
  driven-Quiet (returned u) = search quiet_rules
  driven-Quiet (failed f) = search quiet_rules

  drive-Free :
      (g : View)
      → IsStart j.claim.task_status
      → g.status ≡ j.claim.task_status
      → g.has_target ≡ false
      → Follows j g (drive j) (λ h o. Unit {0})
  drive-Free g k e f =
      follows_weaken j g (drive j) (Ends (λ h u. IsFinished h)) (λ h o. Unit {0})
        (drive-Follows j g k e f) (λ h o s. tt)

  also-Quiet : (f : Fault) (o : Outcome (Unit {0})) → Quiet j (also f o)
  also-Quiet f (returned u) = search quiet_rules
  also-Quiet f (failed g) = search quiet_rules

  or_released-Quiet : (o : Outcome ℤ) → Quiet j (or_released j o)
  or_released-Quiet (returned n) = search quiet_rules
  or_released-Quiet (failed f) = search (quiet_rules, also-Quiet)

  deadline-Quiet : Quiet j (runtime_deadline j)
  unfolding runtime_deadline
  deadline-Quiet = search quiet_rules

  after-Free : (runtime : ℤ) (e : Option Fault) → Free j (after_drive j runtime e)
  unfolding after_drive
  after-Free runtime e =
      search
        (
          bind-Free, Quiet-Free, signal-Quiet, timed-Free, check_run-Free, recovery-Quiet,
          release-Quiet, no_error-Quiet,
        )
        depth 24

  run_job-Follows :
      (g : View) (runtime : ℤ)
      → IsStart j.claim.task_status
      → g.status ≡ j.claim.task_status
      → g.has_target ≡ false
      → Follows j g (run_job j runtime) (λ h o. Unit {0})
  run_job-Follows g runtime k e f =
      go-Free g (caught (drive j) fault_of_drive) (after_drive j runtime)
        (follows_caught j g (drive j) fault_of_drive (λ h o. Unit {0})
          (follows_weaken j g (drive j) (λ h o. Unit {0})
            (λ h o. Follows j h (fault_of_drive o) (λ k x. Unit {0})) (drive-Free g k e f)
            (λ h o u. Quiet-Free (fault_of_drive o) (driven-Quiet o) h)))
        (after-Free runtime)

  -- A quiet program, and then the rest of the execution.
  then-Quiet :
      {A : Type 0} (g : View) (m : Prog A) (f : A → Prog (Unit {0}))
      → Quiet j m
      → ((h : View) (a : A) → Same g h → Follows j h (f a) (λ k o. Unit {0}))
      → Follows j g (m >>= f) (λ k o. Unit {0})
  then-Quiet {A} g m f p q =
      follows_bind j g m f (λ k o. Unit {0})
        (follows_weaken j g m (λ h o. Same g h) (AfterBind j f (λ k o. Unit {0})) (p g) end)
    where
      end :
          (h : View) (o : Outcome A)
          → Same g h
          → AfterBind j f (λ (k : View) (x : Outcome (Unit {0})). Unit {0}) h o
      end h (returned a) s = q h a s
      end h (failed e) s = tt

  started-Follows :
      (g : View) (over : Bool)
      → IsStart j.claim.task_status
      → g.status ≡ j.claim.task_status
      → g.has_target ≡ false
      → Follows j g
          (if over
            then Prog.fail (lost ∷ [])
            else (call (extend_lease j.claim.attempt_id j.runner_id j.executor.lease_duration)
                >>= λ p. from_result p.0 >>= λ u.
                    caught (runtime_deadline j) (or_released j) >>= λ runtime. run_job j runtime))
          (λ h o. Unit {0})
  started-Follows g true k e f = tt
  started-Follows g false k e f =
      follows_bind j g
        (call (extend_lease j.claim.attempt_id j.runner_id j.executor.lease_duration)) _
        (λ h o. Unit {0}) ((refl, refl), λ (r, took). answer r took)
    where
      on_time :
          (h : View)
          → Same g h
          → Follows j h
              (caught (runtime_deadline j) (or_released j) >>= run_job j)
              (λ k o. Unit {0})
      on_time h s =
          then-Quiet h (caught (runtime_deadline j) (or_released j)) (run_job j)
            (caught-Quiet j (runtime_deadline j) (or_released j) deadline-Quiet or_released-Quiet)
            (λ l runtime r. run_job-Follows l runtime k (r.0 ∙ s.0 ∙ e) (r.1 ∙ s.1 ∙ f))

      answer :
          (r : Result (Unit {0})) (took : ℕ)
          → Follows j
              (seen g
                (extend_lease j.claim.attempt_id j.runner_id j.executor.lease_duration)
                (r, took))
              (from_result r >>= λ u. caught (runtime_deadline j) (or_released j) >>= run_job j)
              (λ k o. Unit {0})
      answer (ok u) took =
          then-Quiet (record g { is_fenced = true }) (from_result (ok u)) _ (λ h. (refl, refl))
            (λ h v s. on_time h s)
      answer (err x) took =
          then-Quiet (record g { is_fenced = false }) (from_result (err x)) _ (λ h. (refl, refl))
            (λ h v s. on_time h s)

-- What an execution has seen when it begins: the status that was claimed.
abbrev pub begun : Job → View
begun j = record { status = j.claim.task_status; has_target = false; is_fenced = false }

-- An execution of a claim whose task was queued or worked on, whatever the database, GitHub, git and the agent
-- answer and whenever the heartbeats, the cancellation watch and the deadline end its context: it asks only for
-- transitions of the claimed task, each behind an extension of the claimed attempt's lease that succeeded, with
-- nothing but a read of the task between them; each goes along an arrow of the status diagram from the status that
-- was claimed or last moved to, unless it settles the task as timed out; the task is asked to be completed only
-- where no repository to publish to was found; and no other lease is extended.
pub execute-Follows :
    (j : Job) → IsStart j.claim.task_status → Follows j (begun j) (execute j) (λ h o. Unit {0})
unfolding execute
execute-Follows j k =
    follows_bind j (begun j) (ask (lease_over j.claim.lease_expires_at)) _ (λ h o. Unit {0})
      (tt, λ over. started-Follows j (begun j) over k refl refl)
