-- ===== src/Runner/Path/Fence.antt =====
-- internal/runner/executor.go: the fence, and the transitions behind it.
use native.Mathlib.Decide.{dec_lt}
use agent_trail.Base.{
  arith, ◌*◌, ◌<◌, ◌≤◌, ℕ, zero, suc, ◌+◌, ◌≡◌, refl, ◌∙◌, String, Bool, true, false, [], ◌∷◌, ◌++◌,
  inr, Option, some, if◌then◌else◌,
}
use agent_trail.Status.{Status, failed}
use agent_trail.Status.Graph.{IsWorking, fail, ⟶-can_transition}
use agent_trail.Task.{Task, TransitionParams, Payload}
use agent_trail.Db.{Result, ok, err}
use agent_trail.Runner.Defs.{
  Fault, is_lease_lost, is_attempt_failed, lost, deadline_exceeded, fault_of, append_attempt_event,
  lease_flag, mark_lease_lost, transition, extend_lease, Prog, Outcome, returned, failed, call,
  from_result, signal, ◌>>=◌, ◌>>◌,
}
use agent_trail.Runner.Fence.{
  Job, after_fence, if_short, fence_rounds, delays_left, enough_delays, delay_positive,
  timeout_positive, fence_lease_ownership, lease_operation_timeout, retry_delay, move_to,
  transition_params, append, fail_task, failure_params,
}
use agent_trail.Runner.Path.Defs.{View, seen, Follows, MayMove}
use agent_trail.Runner.Path.Rules.{
  follows_weaken, AfterBind, follows_bind, Same, Quiet, Calm, CalmEnd, Ends, perform-Quiet,
}

abbrev pub FenceEnd : View → View → Outcome (Unit {0}) → Type 0
FenceEnd g h (returned u) = Same g h × (h.is_fenced ≡ true)
FenceEnd g h (failed f) = Same g h

module _ (j : Job) where
  ended_fence :
      (g h : View) (b : Bool) (f : Fault) (again : Prog (Unit {0}))
      → Same g h
      → Follows j h again (FenceEnd g)
      → Follows j h (if b then Prog.fail f else again) (FenceEnd g)
  ended_fence g h true f again s p = s
  ended_fence g h false f again s p = p

  short_fence :
      (g h : View) {at limit : ℕ} (d : Dec (at < limit)) (again : at < limit → Prog (Unit {0}))
      (f : Fault)
      → Same g h
      → ((short : at < limit) → Follows j h (again short) (FenceEnd g))
      → Follows j h (if_short d again (Prog.fail f)) (FenceEnd g)
  short_fence g h (yes short) again f s p = p short
  short_fence g h (no over) again f s p = s

  answered-FenceEnd :
      (g h : View) (r : Result (Unit {0})) (took at : ℕ)
      (again : at < lease_operation_timeout j.executor → Prog (Unit {0}))
      → Same g h
      → ((k : View) (short : at < lease_operation_timeout j.executor)
          → Same g k
          → Follows j k (again short) (FenceEnd g))
      → Follows j
          (seen h (extend_lease j.claim.attempt_id j.runner_id j.executor.lease_duration) (r, took))
          (after_fence j r at again)
          (FenceEnd g)
  answered-FenceEnd g h (ok u) took at again s p = (s, refl)
  answered-FenceEnd g h (err e) took at again s p = go (is_lease_lost e)
    where
      go :
          (b : Bool)
          → Follows j
              (record h { is_fenced = false })
              (if b
                then (do signal mark_lease_lost; Prog.fail (lost ∷ []))
                else if_short
                    (dec_lt at (lease_operation_timeout j.executor))
                    again
                    (Prog.fail (fault_of e ++ deadline_exceeded ∷ [])))
              (FenceEnd g)
      go true =
          follows_bind j (record h { is_fenced = false }) (signal mark_lease_lost) _ (FenceEnd g)
            (tt, λ r. s)
      go false =
          short_fence g (record h { is_fenced = false })
            (dec_lt at (lease_operation_timeout j.executor)) again
            (fault_of e ++ deadline_exceeded ∷ []) s
            (λ short. p (record h { is_fenced = false }) short s)

  rounds-FenceEnd :
      (n spent : ℕ) (p : spent < lease_operation_timeout j.executor)
      (q : lease_operation_timeout j.executor ≤ spent + n * retry_delay j.executor) (g h : View)
      → Same g h
      → Follows j h (fence_rounds j n spent p q) (FenceEnd g)
  unfolding fence_rounds
  rounds-FenceEnd zero spent p q g h s = absurd (omega (arith, p, q))
  rounds-FenceEnd (suc n) spent p q g h s =
      follows_bind j h
        (call (extend_lease j.claim.attempt_id j.runner_id j.executor.lease_duration)) _
        (FenceEnd g)
        (
          (refl, refl),
          λ (r, took).
              answered-FenceEnd g h r took (spent + took + retry_delay j.executor) _ s (λ k short t.
                rounds-FenceEnd n (spent + took + retry_delay j.executor) short
                  (delays_left n (lease_operation_timeout j.executor) spent took
                    (retry_delay j.executor) q)
                  g k t),
        )

  fence-FenceEnd : (g : View) → Follows j g (fence_lease_ownership j) (FenceEnd g)
  unfolding fence_lease_ownership
  fence-FenceEnd g = follows_bind j g (signal lease_flag) _ (FenceEnd g) (
    tt,
    λ gone.
        ended_fence g (record g { is_fenced = false }) gone (lost ∷ []) _ (refl, refl)
          (rounds-FenceEnd (lease_operation_timeout j.executor) 0 (timeout_positive j.executor)
            (enough_delays (lease_operation_timeout j.executor) (retry_delay j.executor)
              (delay_positive j.executor))
            g (record g { is_fenced = false }) (refl, refl)),
  )

  pub fence-Quiet : Quiet j (fence_lease_ownership j)
  fence-Quiet g =
      follows_weaken j g (fence_lease_ownership j) (FenceEnd g) (λ h o. Same g h) (fence-FenceEnd g)
        end
    where
      end : (h : View) (o : Outcome (Unit {0})) → FenceEnd g h o → Same g h
      end h (returned u) s = s.0
      end h (failed f) s = s

  -- What stands behind the fence meets an extended lease.
  pub fence_then :
      {A : Type 0} (g : View) (f : Unit {0} → Prog A) (Q : View → Outcome A → Type 0)
      → ((h : View) → Same g h → h.is_fenced ≡ true → Follows j h (f tt) Q)
      → ((h : View) (e : Fault) → Same g h → Q h (failed e))
      → Follows j g (fence_lease_ownership j >>= f) Q
  fence_then {A} g f Q p q = follows_bind j g (fence_lease_ownership j) f Q (
      follows_weaken j g (fence_lease_ownership j) (FenceEnd g) (AfterBind j f Q) (fence-FenceEnd g)
        end)
    where
      end : (h : View) (o : Outcome (Unit {0})) → FenceEnd g h o → AfterBind j f Q h o
      end h (returned u) s = p h s.0 s.1
      end h (failed e) s = q h e s

  -- A transition behind the fence: what follows when the store takes it, and when it does not.
  pub moved_then :
      {A : Type 0} (g : View) (p : TransitionParams) (f : Task → Prog A)
      (Q : View → Outcome A → Type 0)
      → ((h : View) → Same g h → MayMove h p.to)
      → ((h : View) (t : Task)
          → h.status ≡ p.to
          → h.has_target ≡ g.has_target
          → Follows j h (f t) Q)
      → ((h : View) (e : Fault) → Same g h → Q h (failed e))
      → Follows j g
          (fence_lease_ownership j >>= λ u.
            call (transition j.claim.task_id p) >>= λ r. from_result r >>= f)
          Q
  moved_then {A} g p f Q may done not_done =
      fence_then g _ Q
        (λ h s e.
          follows_bind j h (call (transition j.claim.task_id p)) _ Q
            ((refl, e, may h s), λ r. follows_bind j _ (from_result r) f Q (answer h s r)))
        not_done
    where
      answer :
          (h : View)
          → Same g h
          → (r : Result Task)
          → Follows j (seen h (transition j.claim.task_id p) r) (from_result r) (AfterBind j f Q)
      answer h s (ok t) = done (record h { status = p.to; is_fenced = false }) t refl s.1
      answer h s (err e) = not_done (record h { is_fenced = false }) (fault_of e) s

-- The status that is returned is the view's, and the target is as given.
abbrev pub Tracked : Bool → Status → View → Status → Type 0
Tracked target to h s = (s ≡ to) × (h.status ≡ to) × (h.has_target ≡ target)

module _ (j : Job) where
  pub move_to-Tracked :
      (g : View) (target : Bool) (to : Status) (source reason : String)
      → g.has_target ≡ target
      → MayMove g to
      → Follows j g (move_to j to source reason) (Ends (Tracked target to))
  unfolding move_to
  move_to-Tracked g target to source reason same may =
      moved_then j g (transition_params j to source reason) _ (Ends (Tracked target to))
        (λ h s. rw (s.0, s.1) may) (λ h t e f. (refl, e, f ∙ same)) (λ h e s. tt)

  pub append-Quiet :
      (event_type source : String) (payload : Option Payload)
      → Quiet j (append j event_type source payload)
  unfolding append
  append-Quiet event_type source payload =
      perform-Quiet j (append_attempt_event j.claim.attempt_id event_type source (some payload))

  pub fail_task-Calm :
      (A : Type 0) (code message : String) → Calm j (fail_task {A = A} j code message)
  unfolding fail_task is_attempt_failed
  fail_task-Calm A code message g w =
      moved_then j g (failure_params j code message) _ (CalmEnd g)
        (λ h s. inr (rw s.0 (⟶-can_transition (fail w)), λ e. cc)) (λ h t e f. λ c. cc)
        (λ h e s. λ c. s)

  -- It never ends with a value.
  pub fail_task-Ends :
      (A : Type 0) (g : View) (code message : String) (P : View → A → Type 0)
      → IsWorking g.status
      → Follows j g (fail_task j code message) (Ends P)
  unfolding fail_task
  fail_task-Ends A g code message P w =
      moved_then j g (failure_params j code message) _ (Ends P)
        (λ h s. inr (rw s.0 (⟶-can_transition (fail w)), λ e. cc)) (λ h t e f. tt) (λ h e s. tt)
