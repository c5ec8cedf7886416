-- ===== src/Status/Graph.antt =====
-- status.go: the transition test against a transition diagram, and what the diagram implies for
-- a whole history of statuses.
use agent_trail.Base.{◌≡◌, refl, true, ◌↔◌, arith}
use agent_trail.Status.{
  Status, created, queued, provisioning, planning, executing, validating, publishing,
  awaiting_review, revision_requested, completed, failed, cancelled, timed_out, can_transition,
}

-- The statuses in which a runner works on the task.
pub data IsWorking : Status → Type 0 where
  in_provisioning : IsWorking provisioning
  in_planning : IsWorking planning
  in_executing : IsWorking executing
  in_validating : IsWorking validating
  in_publishing : IsWorking publishing

-- The statuses that are not final.
pub data IsOpen : Status → Type 0 where
  at_created : IsOpen created
  at_queued : IsOpen queued
  at_working : {s : Status} → IsWorking s → IsOpen s
  at_review : IsOpen awaiting_review
  at_revision : IsOpen revision_requested

-- The arrows of the diagram.
infix 40 ◌⟶◌
pub data ◌⟶◌ : Status → Status → Type 0 where
  enqueue : created ⟶ queued
  provision : queued ⟶ provisioning
  plan : provisioning ⟶ planning
  execute : planning ⟶ executing
  validate : executing ⟶ validating
  publish : validating ⟶ publishing
  submit : publishing ⟶ awaiting_review
  accept : awaiting_review ⟶ completed
  revise : awaiting_review ⟶ revision_requested
  requeue : revision_requested ⟶ queued
  settle : revision_requested ⟶ completed
  cancel : {s : Status} → IsOpen s → s ⟶ cancelled
  fail : {s : Status} → IsWorking s → s ⟶ failed
  expire : {s : Status} → IsWorking s → s ⟶ timed_out
  lapse : awaiting_review ⟶ timed_out

ruleset working_rules = (in_provisioning, in_planning, in_executing, in_validating, in_publishing)

ruleset open_rules = (at_created, at_queued, at_working, at_review, at_revision)

ruleset arrow_rules = (
  enqueue, provision, plan, execute, validate, publish, submit, accept, revise, requeue, settle,
  cancel, fail, expire, lapse,
)

can_transition-⟶ : (s t : Status) → can_transition s t ≡ true → s ⟶ t
unfolding can_transition
can_transition-⟶ s t h = grind (arith, arrow_rules, working_rules, open_rules)

pub ⟶-can_transition : {s t : Status} → s ⟶ t → can_transition s t ≡ true
unfolding can_transition
⟶-can_transition enqueue = refl
⟶-can_transition provision = refl
⟶-can_transition plan = refl
⟶-can_transition execute = refl
⟶-can_transition validate = refl
⟶-can_transition publish = refl
⟶-can_transition submit = refl
⟶-can_transition accept = refl
⟶-can_transition revise = refl
⟶-can_transition requeue = refl
⟶-can_transition settle = refl
⟶-can_transition (cancel at_created) = refl
⟶-can_transition (cancel at_queued) = refl
⟶-can_transition (cancel (at_working in_provisioning)) = refl
⟶-can_transition (cancel (at_working in_planning)) = refl
⟶-can_transition (cancel (at_working in_executing)) = refl
⟶-can_transition (cancel (at_working in_validating)) = refl
⟶-can_transition (cancel (at_working in_publishing)) = refl
⟶-can_transition (cancel at_review) = refl
⟶-can_transition (cancel at_revision) = refl
⟶-can_transition (fail in_provisioning) = refl
⟶-can_transition (fail in_planning) = refl
⟶-can_transition (fail in_executing) = refl
⟶-can_transition (fail in_validating) = refl
⟶-can_transition (fail in_publishing) = refl
⟶-can_transition (expire in_provisioning) = refl
⟶-can_transition (expire in_planning) = refl
⟶-can_transition (expire in_executing) = refl
⟶-can_transition (expire in_validating) = refl
⟶-can_transition (expire in_publishing) = refl
⟶-can_transition lapse = refl

-- `CanTransition` accepts exactly the arrows of the diagram, for every two texts.
pub can_transition-iff-⟶ : (s t : Status) → (can_transition s t ≡ true) ↔ (s ⟶ t)
can_transition-iff-⟶ s t = (can_transition-⟶ s t, ⟶-can_transition)
