-- ===== src/Runner/Path/Drive.antt =====
-- internal/runner/executor.go: what `drive` may ask of the task store.
use agent_trail.Base.{
  ◌≡◌, refl, ◌∙◌, inl, inr, Bool-cases, String, Bool, false, Option, some, none, if◌then◌else◌,
}
use agent_trail.Status.{Status, publishing, awaiting_review}
use agent_trail.Status.Graph.{
  IsWorking, in_provisioning, in_planning, in_executing, in_publishing, submit,
}
use agent_trail.Task.{Task}
use agent_trail.Runner.Defs.{
  Fault, is_attempt_failed, cause, ctx_err, signal, make_temp_dir, Answer, given, refused, Outcome,
  returned, failed, Prog, ask, caught, RepositoryContext, Workspace,
}
use agent_trail.Runner.Fence.{Job, fail_task}
use agent_trail.Runner.Checks.{ended_by, while_running}
use agent_trail.Runner.Provision.{provision_workspace}
use agent_trail.Runner.Pulls.{publish_and_clean}
use agent_trail.Runner.Drive.{
  agent_session, on_provisioned, on_temp_dir, after_removal, removed_after, in_temp_dir,
  in_worktree,
}
use agent_trail.Runner.Path.Defs.{View, Follows}
use agent_trail.Runner.Path.Rules.{
  Same, Quiet, Calm, CalmEnd, Ends, trans-Same, Same-Ends, follows_caught, follows_weaken,
  follows_go, go-Quiet, caught_go, Calm-Ends, Quiet-Ends, ask-Quiet, signal-Quiet,
}
use agent_trail.Runner.Path.Fence.{Tracked, fail_task-Calm}
use agent_trail.Runner.Path.Checks.{quiet_rules}
use agent_trail.Runner.Path.Provision.{calm_rules, provision-Calm}
use agent_trail.Runner.Path.Pulls.{and_clean-Calm, cleaned_go}
use agent_trail.Runner.Path.Agent.{
  IsAgentStage, at_provisioning, at_planning, at_executing, arrow-Tracked,
}
use agent_trail.Runner.Path.Session.{Ready, session-Ready}

module _ (j : Job) where
  temp-Calm : (a : Answer String) → Calm j (on_temp_dir j a)
  temp-Calm (given d) = search calm_rules
  temp-Calm (refused r) = search calm_rules

  again-Quiet : (A : Type 0) (o : Outcome A) (u : Outcome (Unit {0})) → Quiet j (after_removal o u)
  again-Quiet A (returned a) (returned u) = search quiet_rules
  again-Quiet A (failed f) (returned u) = search quiet_rules
  again-Quiet A o (failed f) = search quiet_rules

  removed-Quiet : (A : Type 0) (dir : String) (o : Outcome A) → Quiet j (removed_after j dir o)
  removed-Quiet A dir o = search (quiet_rules, again-Quiet)

  removed_failed :
      (A : Type 0) (h : View) (dir : String) (f : Fault) (P : View → A → Type 0)
      → Follows j h (removed_after j dir (failed f)) (Ends P)
  removed_failed A h dir f P =
      caught_go j h _ (after_removal (failed f)) (λ k u. Same h k) P
        (Quiet-Ends j h _ (search quiet_rules)) (λ k u s. tt) (λ k e. tt)

  ended_failed : (A : Type 0) (h : View) (P : View → A → Type 0) → Follows j h ended_by (Ends P)
  ended_failed A h P = go-Quiet j h (signal cause) _ P (signal-Quiet j cause) (λ k c s. tt)

  -- A workspace is provided, or the task is failed where it was not yet.
  provisioned-Ends :
      (g : View) (t : Task) (rc : RepositoryContext)
      → IsWorking g.status
      → Follows j g
          (caught (provision_workspace j t rc) (on_provisioned j))
          (Ends (λ h ws. Same g h))
  provisioned-Ends g t rc w =
      follows_caught j g (provision_workspace j t rc) (on_provisioned j) (Ends (λ h ws. Same g h)) (
        follows_weaken j g (provision_workspace j t rc) (CalmEnd g)
          (λ h o. Follows j h (on_provisioned j o) (Ends (λ h ws. Same g h)))
          (provision-Calm j t rc g w) end)
    where
      settled :
          (h k : View) (f : Fault) (e : Option Fault)
          → Same h k
          → (is_attempt_failed f ≡ false → Same g h)
          → Follows j k
              (while_running
                (if is_attempt_failed f
                  then Prog.fail f
                  else fail_task {A = Workspace} j "workspace_failed" (j.executor.error_text f))
                e)
              (Ends (λ l ws. Same g l))
      settled h k f (some x) r s = ended_failed Workspace k (λ l ws. Same g l)
      settled h k f none r s = elim (Bool-cases (is_attempt_failed f)) [
        | inl yes_failed ↦ rw yes_failed tt
        | inr not_failed ↦
            let same : Same g k = trans-Same j g h k (s not_failed) r in
            rw not_failed (
              Same-Ends j g k _ same (
                Calm-Ends j k _ (rw (same.0) w)
                  (fail_task-Calm j Workspace "workspace_failed" (j.executor.error_text f))))
      ]

      end :
          (h : View) (o : Outcome Workspace)
          → CalmEnd g h o
          → Follows j h (on_provisioned j o) (Ends (λ k ws. Same g k))
      end h (returned ws) s = s
      end h (failed f) s =
          go-Quiet j h (signal ctx_err) _ (λ k ws. Same g k) (signal-Quiet j ctx_err)
            (λ k e r. settled h k f e r s)

  in_stage : (s : Status) → IsAgentStage s → IsWorking s
  in_stage s at_provisioning = in_provisioning
  in_stage s at_planning = in_planning
  in_stage s at_executing = in_executing

module _ (j : Job) (target : Bool) where
  pub temp-Tracked :
      (g : View) (s : Status)
      → IsAgentStage s
      → g.status ≡ s
      → g.has_target ≡ target
      → Follows j g (in_temp_dir j s) (Ends (Tracked target publishing))
  temp-Tracked g s k e f =
      go-Quiet j g (ask make_temp_dir) _ (Tracked target publishing) (ask-Quiet j make_temp_dir)
        (λ h d r.
          follows_go j h (on_temp_dir j d) _ (λ l x. Same h l) (Tracked target publishing)
            (Calm-Ends j h _ (rw (r.0, e) (in_stage j s k)) (temp-Calm j d))
            (λ l dir q.
              caught_go j l _ (removed_after j dir) (Tracked target publishing)
                (Tracked target publishing)
                (follows_go j l (agent_session j dir s) _ (Ready target) (Tracked target publishing)
                  (session-Ready j target l dir s k (q.0 ∙ r.0 ∙ e) (q.1 ∙ r.1 ∙ f))
                  (λ m x p. (refl, p.0, p.1)))
                (λ m x p. kept m dir x p)
                (λ m x. removed_failed j Status m dir x (Tracked target publishing))))
    where
      kept :
          (m : View) (dir : String) (x : Status)
          → Tracked target publishing m x
          → Follows j m (removed_after j dir (returned x)) (Ends (Tracked target publishing))
      kept m dir x p =
          caught_go j m _ (after_removal (returned x)) (λ k u. Same m k) (Tracked target publishing)
            (Quiet-Ends j m _ (search quiet_rules)) (λ k u q. (p.0, q.0 ∙ p.1, q.1 ∙ p.2))
            (λ k e. tt)

  pub worktree-Tracked :
      (g : View) (t : Task) (rc : RepositoryContext) (s : Status)
      → IsAgentStage s
      → g.status ≡ s
      → g.has_target ≡ target
      → Follows j g (in_worktree j t rc s) (Ends (Tracked target awaiting_review))
  worktree-Tracked g t rc s k e f =
      follows_go j g (caught (provision_workspace j t rc) (on_provisioned j)) _ (λ h ws. Same g h)
        (Tracked target awaiting_review) (provisioned-Ends j g t rc (rw e (in_stage j s k)))
        (λ h ws r.
          follows_go j h _ _ (Ready target) (Tracked target awaiting_review)
            (cleaned_go j h ws _ (Ready target) (
              follows_go j h (agent_session j ws.path s) _ (Ready target) (Ready target)
                (session-Ready j target h ws.path s k (r.0 ∙ e) (r.1 ∙ f))
                (λ l summary p. published l ws summary p)))
            (λ l u p. arrow-Tracked j target l publishing awaiting_review p.0 p.1 submit (λ c. cc)))
    where
      published :
          (l : View) (ws : Workspace) (summary : String)
          → Ready target l summary
          → Follows j l (publish_and_clean j t rc ws summary) (Ends (Ready target))
      published l ws summary p =
          follows_weaken j l _ (Ends (λ m u. Same l m)) (Ends (Ready target))
            (Calm-Ends j l _ (rw p.0 in_publishing) (and_clean-Calm j t rc ws summary)) end
        where
          end :
              (m : View) (o : Outcome (Unit {0}))
              → Ends (λ (n : View) (u : Unit {0}). Same l n) m o
              → Ends (Ready target) m o
          end m (returned u) q = (q.0 ∙ p.0, q.1 ∙ p.1)
          end m (failed x) q = tt
