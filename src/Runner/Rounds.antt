-- ===== src/Runner/Rounds.antt =====
-- internal/runner/executor.go: how `fenceLeaseOwnership` ends.
use agent_trail.Base.{ℕ, ◌+◌, ◌<◌, ◌≤◌, ◌≡◌, Bool, true, false, List, [], ◌∷◌, ◌++◌}
use agent_trail.Task.{Error}
use agent_trail.Db.{Result, ok, err}
use agent_trail.Runner.Defs.{
  lost, deadline_exceeded, fault_of, is_lease_lost, Command, Response, context, lease_flag, Prog,
  ret, fail, act, Outcome, returned, failed, extend_lease, ◌>>◌,
}
use agent_trail.Runner.Fence.{Job, lease_operation_timeout, retry_delay}

-- What the fence hears: whether the lease is known to be lost, and the answer of an extension, with the time it took.
pub data Heard : Type 0 where
  flag : Bool → Heard
  extended : Result (Unit {0}) → ℕ → Heard

abbrev with_heard : (c : Command) → Response c → List Heard → List Heard
with_heard (extend_lease aid runner d) (r, took) l = extended r took ∷ l
with_heard (context lease_flag) gone l = flag gone ∷ l
with_heard _ r l = l

-- However a program is answered, what it has heard and how it ends are as the predicate says.
abbrev pub Always : {A : Type 0} → (List Heard → Outcome A → Type 0) → Prog A → Type 0
Always P (ret a) = P [] (returned a)
Always P (fail f) = P [] (failed f)
Always {A} P (act c k) = (r : Response c) → Always (λ l. P (with_heard c r l)) (k r)

-- The extensions, from the time that is spent on: the first success ends them, and the first answer that the lease is lost,
-- and any other error after which a retry would begin no earlier than the timeout; after
-- an error with a retry before the timeout the next extension follows.
pub data Tried (timeout delay : ℕ) : ℕ → List Heard → Outcome (Unit {0}) → Type 0 where
  succeeded :
      {spent took : ℕ} → Tried timeout delay spent (extended (ok tt) took ∷ []) (returned tt)
  refused :
      {spent took : ℕ} {e : Error}
      → is_lease_lost e ≡ true
      → Tried timeout delay spent (extended (err e) took ∷ []) (failed (lost ∷ []))
  too_late :
      {spent took : ℕ} {e : Error}
      → is_lease_lost e ≡ false
      → timeout ≤ spent + took + delay
      → Tried timeout delay spent
          (extended (err e) took ∷ [])
          (failed (fault_of e ++ deadline_exceeded ∷ []))
  retried :
      {spent took : ℕ} {e : Error} {l : List Heard} {o : Outcome (Unit {0})}
      → is_lease_lost e ≡ false
      → spent + took + delay < timeout
      → Tried timeout delay (spent + took + delay) l o
      → Tried timeout delay spent (extended (err e) took ∷ l) o

pub data Fenced (timeout delay : ℕ) : List Heard → Outcome (Unit {0}) → Type 0 where
  known : Fenced timeout delay (flag true ∷ []) (failed (lost ∷ []))
  tried :
      {l : List Heard} {o : Outcome (Unit {0})}
      → Tried timeout delay 0 l o
      → Fenced timeout delay (flag false ∷ l) o

module _ (j : Job) where
  abbrev limit : ℕ
  limit = lease_operation_timeout j.executor

  abbrev delay : ℕ
  delay = retry_delay j.executor
