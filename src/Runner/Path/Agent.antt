-- ===== src/Runner/Path/Agent.antt =====
-- internal/runner/executor.go: the statuses through the agent's session and the stages around it.
use agent_trail.Base.{
  ◌≡◌, ◌∙◌, inr, Bool, true, false, ◌&&◌, Option, some, none, List, [], ◌∷◌, if◌then◌else◌,
}
use agent_trail.Status.{Status, provisioning, planning, executing, completed, status_eq}
use agent_trail.Status.Graph.{◌⟶◌, execute, ⟶-can_transition}
use agent_trail.Runner.Defs.{
  Fault, Answer, given, refused, Outcome, returned, failed, Prog, ret, AgentEvent,
  append_attempt_event, stop_session, cause, signal, ask, perform, caught, Call,
}
use agent_trail.Runner.Fence.{Job, move_to}
use agent_trail.Runner.Drive.{
  event_type, is_plan, stopped, stop_after, or_abort, next_event, take_event, consume,
}
use agent_trail.Runner.Path.Defs.{View, Follows}
use agent_trail.Runner.Path.Rules.{
  Ends, follows_go, go-Quiet, caught_go, ask-Quiet, signal-Quiet, perform-Quiet, follows_weaken,
}
use agent_trail.Runner.Path.Fence.{Tracked, move_to-Tracked}

-- The statuses that the agent's session begins in, and those in which its events are taken.
pub data IsAgentStage : Status → Type 0 where
  at_provisioning : IsAgentStage provisioning
  at_planning : IsAgentStage planning
  at_executing : IsAgentStage executing

pub data TakesEvents : Status → Type 0 where
  takes_planning : TakesEvents planning
  takes_executing : TakesEvents executing

-- The status that is returned is the view's, and one in which events are taken.
abbrev pub Taking : Bool → View → Status → Type 0
Taking target h s = (h.status ≡ s) × TakesEvents s × (h.has_target ≡ target)

module _ (j : Job) (target : Bool) where
  -- A move along an arrow that does not complete the task.
  pub arrow-Tracked :
      (g : View) (from to : Status)
      → g.status ≡ from
      → g.has_target ≡ target
      → from ⟶ to
      → ¬ (to ≡ completed)
      → Follows j g (move_to j to "runner" "") (Ends (Tracked target to))
  arrow-Tracked g from to e s a n =
      move_to-Tracked j g target to "runner" "" s
        (inr (rw e (⟶-can_transition a), λ c. absurd (n c)))

  stop-Ends :
      (A : Type 0) (g : View) (f : Fault) (P : View → A → Type 0)
      → Follows j g (stop_after f) (Ends P)
  stop-Ends A g f P =
      go-Quiet j g (ask stop_session) _ P (ask-Quiet j stop_session) (λ h a s. answer h a)
    where
      answer : (h : View) (a : Answer (Unit {0})) → Follows j h (stopped f a) (Ends P)
      answer h (given u) = tt
      answer h (refused r) = tt

  next-Ends :
      (A : Type 0) (g : View) (m : Prog A) (o : Option Fault) (P : View → A → Type 0)
      → Follows j g m (Ends P)
      → Follows j g (next_event m o) (Ends P)
  next-Ends A g m none P p = p
  next-Ends A g m (some f) P p = stop-Ends A g f P

  to_executing :
      (g : View)
      → g.status ≡ planning
      → g.has_target ≡ target
      → Follows j g (move_to j executing "runner" "") (Ends (Taking target))
  to_executing g e s =
      follows_weaken j g _ (Ends (Tracked target executing)) (Ends (Taking target))
        (arrow-Tracked g planning executing e s execute (λ c. cc)) end
    where
      end :
          (h : View) (o : Outcome Status)
          → Ends (Tracked target executing) h o
          → Ends (Taking target) h o
      end h (returned x) t = rw t.0 (t.1, takes_executing, t.2)
      end h (failed f) t = tt

  planned-Ends :
      (g : View) (b : Bool) (s : Status)
      → Taking target g s
      → Follows j g
          (if b && status_eq s planning then move_to j executing "runner" "" else ret s)
          (Ends (Taking target))
  planned-Ends g false s t = t
  planned-Ends g true s (e, takes_planning, f) = to_executing g e f
  planned-Ends g true s (e, takes_executing, f) = (e, takes_executing, f)

  take-Ends :
      (g : View) (ev : AgentEvent) (s : Status)
      → Taking target g s
      → Follows j g (take_event j ev s) (Ends (Taking target))
  take-Ends g ev s t =
      go-Quiet j g (perform (event_of ev)) _ (Taking target) (perform-Quiet j (event_of ev))
        (λ h u r. planned-Ends h (is_plan ev.kind) s (r.0 ∙ t.0, t.1, r.1 ∙ t.2))
    where
      event_of : AgentEvent → Call
      event_of ev = append_attempt_event j.claim.attempt_id (event_type ev.kind) "agent" ev.payload

  pub consume-Ends :
      (g : View) (l : List AgentEvent) (s : Status)
      → Taking target g s
      → Follows j g (consume j l s) (Ends (Taking target))
  unfolding consume
  consume-Ends g [] s t =
      go-Quiet j g (signal cause) _ (Taking target) (signal-Quiet j cause)
        (λ h c r. next-Ends Status h (ret s) c (Taking target) (r.0 ∙ t.0, t.1, r.1 ∙ t.2))
  consume-Ends g (ev ∷ rest) s t =
      go-Quiet j g (signal cause) _ (Taking target) (signal-Quiet j cause) (λ h c r.
        next-Ends Status h _ c (Taking target) (
          follows_go j h (caught (take_event j ev s) or_abort) _ (Taking target) (Taking target)
            (caught_go j h (take_event j ev s) or_abort (Taking target) (Taking target)
              (take-Ends h ev s (r.0 ∙ t.0, t.1, r.1 ∙ t.2)) (λ k a u. u)
              (λ k f. stop-Ends Status k f (Taking target)))
            (λ k next u. consume-Ends k rest next u)))
