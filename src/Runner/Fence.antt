-- ===== src/Runner/Fence.antt =====
-- internal/runner/executor.go: the fence on the lease, and the calls that every stage makes: `transition`,
-- `append`, `failTask`.
use Prim.Native.Nat.{◌/◌}
use Prim.Native.String.{◌++◌ as concat}
use native.Mathlib.Decide.{dec_lt}
use agent_trail.Base.{
  ℕ, zero, suc, ◌+◌, ◌*◌, ◌<◌, ◌≤◌, arith, String, Bool, ◌||◌, Option, some, List, [], ◌∷◌, ◌++◌, ℤ,
  ltb, ◌==◌, if◌then◌else◌,
}
use agent_trail.Chars.Defs.{Chars}
use agent_trail.Status.{Status, failed}
use agent_trail.Task.{Payload, TransitionParams}
use agent_trail.Db.{Result, ok, err}
use agent_trail.Store.Statements.{status_text}
use agent_trail.Store.Operations.{transition_to}
use agent_trail.Lease.Defs.{Claim}
use agent_trail.Evidence.Defs.{Report}
use agent_trail.Runner.Defs.{
  Fault, lost, attempt_failed, deadline_exceeded, is_lease_lost, fault_of, append_attempt_event,
  Answer, lease_flag, mark_lease_lost, transition, extend_lease, Prog, ret, fail, call, from_result,
  perform, signal, ◌>>=◌, ◌>>◌,
}

-- `Executor`: its durations in nanoseconds, 0 where they are not positive; which of its parts are set; and the
-- texts that other packages make.
pub record Executor : Type 0 where
  pub lease_duration : ℕ
  pub default_runtime : ℕ
  pub has_workspaces : Bool
  pub has_github : Bool
  pub has_repos : Bool
  pub has_conflicts : Bool
  pub adapter_name : String
  pub error_text : Fault → String
  pub duration_text : ℤ → String
  pub time_text : ℕ → String
  pub text_of : Chars → String
  pub credentialed_clone_url : String → String → Answer String
  pub markdown : Report → String
  pub pr_body : Report → String → String → String

-- One call of `Execute`.
pub record Job : Type 0 where
  pub executor : Executor
  pub runner_id : String
  pub claim : Claim

abbrev pub joined : List String → String
joined [] = ""
joined (s ∷ l) = concat s (joined l)

abbrev pub second : ℕ
second = 1000000000

abbrev pub retry_limit : ℕ
retry_limit = 100000000

abbrev pub within : ℕ → ℕ → ℕ
within limit d = if d == 0 || ltb limit d then limit else d

-- `leaseOperationTimeout`
unfoldable pub lease_operation_timeout : Executor → ℕ
lease_operation_timeout x = within (5 * second) (x.lease_duration / 3)

unfoldable pub retry_delay : Executor → ℕ
retry_delay x = within retry_limit (x.lease_duration / 9)

pub timeout_positive : (x : Executor) → 0 < lease_operation_timeout x
unfolding lease_operation_timeout
timeout_positive x = ground arith

pub delay_positive : (x : Executor) → 0 < retry_delay x
unfolding retry_delay
delay_positive x = ground arith

-- One delay for each unit of the timeout spends it.
pub enough_delays : (t d : ℕ) → 0 < d → t ≤ 0 + t * d
enough_delays zero d p = omega arith
enough_delays (suc t) d p = omega (arith, enough_delays t d p)

pub delays_left : (n t spent took d : ℕ) → t ≤ spent + suc n * d → t ≤ spent + took + d + n * d
delays_left n t spent took d q = omega arith

abbrev pub if_short :
    {at limit : ℕ}
    → Dec (at < limit)
    → (at < limit → Prog (Unit {0}))
    → Prog (Unit {0})
    → Prog (Unit {0})
if_short (yes short) again over = again short
if_short (no not_short) again over = over

-- After a call of `fenceLease`; `at` is the time at which the retry would begin, and the deadline comes first where the
-- timeout is over by then.
abbrev pub after_fence :
    (j : Job)
    → Result (Unit {0})
    → (at : ℕ) → (at < lease_operation_timeout j.executor → Prog (Unit {0}))
    → Prog (Unit {0})
after_fence j (ok u) at again = ret tt
after_fence j (err e) at again =
    if is_lease_lost e
    then (do signal mark_lease_lost; fail (lost ∷ []))
    else if_short (dec_lt at (lease_operation_timeout j.executor)) again
        (fail (fault_of e ++ deadline_exceeded ∷ []))

-- The loop of `fenceLeaseOwnership`, with the time that is spent. A retry begins before the timeout is over, and
-- after one more delay, so that the delays that the first number counts spend the timeout.
unfoldable pub fence_rounds :
    (j : Job) (n spent : ℕ)
    → spent < lease_operation_timeout j.executor
    → lease_operation_timeout j.executor ≤ spent + n * retry_delay j.executor
    → Prog (Unit {0})
fence_rounds j zero spent p q = absurd (omega (arith, p, q))
fence_rounds j (suc n) spent p q = do
  (r, took) ← call (extend_lease j.claim.attempt_id j.runner_id j.executor.lease_duration)
  let at = spent + took + retry_delay j.executor
  after_fence j r at (λ short.
      fence_rounds j n at short
        (delays_left n (lease_operation_timeout j.executor) spent took (retry_delay j.executor) q))

-- `fenceLeaseOwnership`
unfoldable pub fence_lease_ownership : Job → Prog (Unit {0})
fence_lease_ownership j = do
  gone ← signal lease_flag
  if gone
      then fail (lost ∷ [])
      else fence_rounds j (lease_operation_timeout j.executor) 0 (timeout_positive j.executor) (
          enough_delays (lease_operation_timeout j.executor) (retry_delay j.executor)
            (delay_positive j.executor))

abbrev pub key_of : Job → String → String → String
key_of j what rest = joined ("attempt:" ∷ j.claim.attempt_id ∷ what ∷ rest ∷ [])

abbrev pub transition_params : Job → Status → String → String → TransitionParams
transition_params j to source reason =
    let p = transition_to to source reason in
    record p { idempotency_key = key_of j ":to:" (status_text to) }

-- `transition`
unfoldable pub move_to : Job → Status → String → String → Prog Status
move_to j to source reason = do
  fence_lease_ownership j
  r ← call (transition j.claim.task_id (transition_params j to source reason))
  _ ← from_result r
  ret to

-- `append`
unfoldable pub append : Job → String → String → Option Payload → Prog (Unit {0})
append j event_type source payload =
    perform (append_attempt_event j.claim.attempt_id event_type source (some payload))

abbrev pub failure_params : Job → String → String → TransitionParams
failure_params j code message =
    let p = transition_to failed "runner" "" in
    record p {
      failure_code = code;
      failure_message = message;
      idempotency_key = key_of j ":fail:" code;
    }

-- `failTask`: it always ends with an error.
unfoldable pub fail_task : {A : Type 0} → Job → String → String → Prog A
fail_task j code message = do
  fence_lease_ownership j
  r ← call (transition j.claim.task_id (failure_params j code message))
  _ ← from_result r
  fail (attempt_failed ∷ [])
