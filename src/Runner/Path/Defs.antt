-- ===== src/Runner/Path/Defs.antt =====
-- internal/runner/executor.go: what the executor may ask of the task store, along every path of answers.
use agent_trail.Base.{◌≡◌, Bool, true, false, ◌&&◌, ◌⊎◌}
use agent_trail.Status.{Status, completed, timed_out, can_transition}
use agent_trail.Db.{ok, err}
use agent_trail.Runner.Defs.{
  Call, get, given, refused, Command, transition, extend_lease, repository_context, store, outside,
  context, Response, Prog, ret, fail, act, Outcome, returned, failed,
}
use agent_trail.Runner.Fence.{Job}

-- What a path has shown: the status that the executor has claimed or last moved the task to, whether it has found
-- a repository to publish to, and whether it has just extended its lease.
pub record View : Type 0 where
  pub status : Status
  pub has_target : Bool
  pub is_fenced : Bool

abbrev is_get : Call → Bool
is_get (get id) = true
is_get _ = false

abbrev unfenced : View → View
unfenced g = record g { is_fenced = false }

-- The view after a call and its answer. Reading a task is all that may stand between the extension of the
-- lease and what it covers.
abbrev pub seen : View → (c : Command) → Response c → View
seen g (transition id p) (ok t) = record g { status = p.to; is_fenced = false }
seen g (transition id p) (err e) = unfenced g
seen g (extend_lease aid runner d) (ok u, took) = record g { is_fenced = true }
seen g (extend_lease aid runner d) (err e, took) = unfenced g
seen g (repository_context id) (given rc) = record g { has_target = true; is_fenced = false }
seen g (repository_context id) (refused r) = unfenced g
seen g (store c) r = record g { is_fenced = g.is_fenced && is_get c }
seen g (outside a) r = unfenced g
seen g (context s) r = unfenced g

-- The task may be settled as timed out, or moved along an arrow of the diagram; it is completed only where there
-- is nothing to publish to.
abbrev pub MayMove : View → Status → Type 0
MayMove g to =
    (to ≡ timed_out)
    ⊎ ((can_transition g.status to ≡ true) × (to ≡ completed → g.has_target ≡ false))

abbrev pub Allowed : Job → View → Command → Type 0
Allowed j g (transition id p) = (id ≡ j.claim.task_id) × (g.is_fenced ≡ true) × MayMove g p.to
Allowed j g (extend_lease aid runner d) = (aid ≡ j.claim.attempt_id) × (runner ≡ j.runner_id)
Allowed j g _ = Unit {0}

-- Along every path of answers each call is allowed, and the end is as the last argument says.
abbrev pub Follows : {A : Type 0} → Job → View → Prog A → (View → Outcome A → Type 0) → Type 0
Follows j g (ret a) Q = Q g (returned a)
Follows j g (fail f) Q = Q g (failed f)
Follows j g (act c k) Q = Allowed j g c × ((r : Response c) → Follows j (seen g c r) (k r) Q)
