-- ===== src/Runner/Path/Session.antt =====
-- internal/runner/executor.go: an agent's session takes the task to `publishing`.
use agent_trail.Base.{◌≡◌, refl, ◌∙◌, String, Bool, none, List}
use agent_trail.Status.{Status, provisioning, planning, executing, validating, publishing}
use agent_trail.Status.Graph.{
  IsWorking, in_planning, in_executing, plan, execute, validate, publish,
}
use agent_trail.Runner.Defs.{
  Fault, Answer, given, refused, Outcome, returned, failed, Prog, AgentEvent, start_session,
  wait_session, ask, ◌>>=◌,
}
use agent_trail.Runner.Fence.{Job, append, move_to}
use agent_trail.Runner.Checks.{run_trusted_validation, generate_evidence}
use agent_trail.Runner.Drive.{
  consume, started, or_agent_failed, agent_failed, move_from, agent_session,
}
use agent_trail.Runner.Path.Defs.{View, Follows}
use agent_trail.Runner.Path.Rules.{
  Same, Calm, Ends, follows_weaken, follows_go, go-Quiet, Calm-Ends, then-Calm, ask-Quiet,
  signal-Quiet,
}
use agent_trail.Runner.Path.Fence.{Tracked, append-Quiet, fail_task-Calm}
use agent_trail.Runner.Path.Checks.{generate_evidence-Quiet, run_trusted_validation-Quiet}
use agent_trail.Runner.Path.Provision.{calm_rules, while-Calm}
use agent_trail.Runner.Path.Agent.{
  IsAgentStage, at_provisioning, at_planning, at_executing, TakesEvents, takes_planning,
  takes_executing, Taking, arrow-Tracked, consume-Ends,
}

-- The session is over and its work is ready to be published.
abbrev pub Ready : Bool → {A : Type 0} → View → A → Type 0
Ready target h a = (h.status ≡ publishing) × (h.has_target ≡ target)

module _ (j : Job) where
  started-Calm : (a : Answer (List AgentEvent)) → Calm j (started j a)
  started-Calm (given l) = search calm_rules
  started-Calm (refused r) = search calm_rules

  failed-Calm : (A : Type 0) (f : Fault) → Calm j (agent_failed {A = A} j f)
  failed-Calm A f = search (then-Calm, signal-Quiet, while-Calm, fail_task-Calm)

  summary-Calm : (a : Answer String) → Calm j (or_agent_failed j a)
  summary-Calm (given s) = search calm_rules
  summary-Calm (refused r) = search failed-Calm

module _ (j : Job) (target : Bool) where
  begin-Ends :
      (g : View) (s : Status)
      → IsAgentStage s
      → g.status ≡ s
      → g.has_target ≡ target
      → Follows j g (move_from j provisioning planning s) (Ends (Taking target))
  begin-Ends g s at_provisioning e f =
      follows_weaken j g _ (Ends (Tracked target planning)) (Ends (Taking target))
        (arrow-Tracked j target g provisioning planning e f plan (λ c. cc)) end
    where
      end :
          (h : View) (o : Outcome Status)
          → Ends (Tracked target planning) h o
          → Ends (Taking target) h o
      end h (returned x) t = rw t.0 (t.1, takes_planning, t.2)
      end h (failed f) t = tt
  begin-Ends g s at_planning e f = (e, takes_planning, f)
  begin-Ends g s at_executing e f = (e, takes_executing, f)

  working : (s : Status) → TakesEvents s → IsWorking s
  working s takes_planning = in_planning
  working s takes_executing = in_executing

  planned-Tracked :
      (g : View) (s : Status)
      → Taking target g s
      → Follows j g (move_from j planning executing s) (Ends (Tracked target executing))
  planned-Tracked g s (e, takes_planning, f) =
      arrow-Tracked j target g planning executing e f execute (λ c. cc)
  planned-Tracked g s (e, takes_executing, f) = (refl, e, f)

  executed-Tracked :
      (g : View) (s : Status)
      → Tracked target executing g s
      → Follows j g (move_from j executing validating s) (Ends (Tracked target validating))
  executed-Tracked g s (e, f, h) =
      rw e (arrow-Tracked j target g executing validating f h validate (λ c. cc))

  -- From the end of the session on.
  validated-Ready :
      (g : View) (dir summary : String)
      → g.status ≡ validating
      → g.has_target ≡ target
      → Follows j g
          (run_trusted_validation j dir >>= λ note. generate_evidence j note >>= λ u.
            move_to j publishing "runner" "" >>= λ s. Prog.ret summary)
          (Ends (Ready target))
  validated-Ready g dir summary e f =
      go-Quiet j g (run_trusted_validation j dir) _ (Ready target)
        (run_trusted_validation-Quiet j dir)
        (λ h note r.
          go-Quiet j h (generate_evidence j note) _ (Ready target) (generate_evidence-Quiet j note)
            (λ k u s.
              follows_go j k (move_to j publishing "runner" "") _ (Tracked target publishing)
                (Ready target)
                (arrow-Tracked j target k validating publishing (s.0 ∙ r.0 ∙ e) (s.1 ∙ r.1 ∙ f)
                  publish (λ c. cc))
                (λ l x t. (t.1, t.2))))

  taken-Ready :
      (g : View) (dir : String) (s : Status)
      → Taking target g s
      → Follows j g
          (ask wait_session >>= λ w. or_agent_failed j w >>= λ summary.
            move_from j planning executing s >>= λ ready.
            move_from j executing validating ready >>= λ x. run_trusted_validation j dir >>= λ note.
            generate_evidence j note >>= λ u.
            move_to j publishing "runner" "" >>= λ y. Prog.ret summary)
          (Ends (Ready target))
  taken-Ready g dir s t =
      go-Quiet j g (ask wait_session) _ (Ready target) (ask-Quiet j wait_session) (λ h w r.
        follows_go j h (or_agent_failed j w) _ (λ k a. Same h k) (Ready target)
          (Calm-Ends j h _ (rw (r.0, t.0) (working s t.1)) (summary-Calm j w))
          (λ k summary q.
            follows_go j k (move_from j planning executing s) _ (Tracked target executing)
              (Ready target) (planned-Tracked k s (q.0 ∙ r.0 ∙ t.0, t.1, q.1 ∙ r.1 ∙ t.2))
              (λ l ready p.
                follows_go j l (move_from j executing validating ready) _
                  (Tracked target validating) (Ready target) (executed-Tracked l ready p)
                  (λ m x v. validated-Ready m dir summary v.1 v.2))))

  pub session-Ready :
      (g : View) (dir : String) (s : Status)
      → IsAgentStage s
      → g.status ≡ s
      → g.has_target ≡ target
      → Follows j g (agent_session j dir s) (Ends (Ready target))
  unfolding agent_session
  session-Ready g dir s k e f =
      go-Quiet j g (append j "workspace.ready" "runner" none) _ (Ready target)
        (append-Quiet j "workspace.ready" "runner" none)
        (λ h u r.
          follows_go j h (move_from j provisioning planning s) _ (Taking target) (Ready target)
            (begin-Ends h s k (r.0 ∙ e) (r.1 ∙ f))
            (λ i before t.
              go-Quiet j i (ask (start_session dir j.claim.instructions)) _ (Ready target)
                (ask-Quiet j (start_session dir j.claim.instructions))
                (λ l a q.
                  follows_go j l (started j a) _ (λ m x. Same l m) (Ready target)
                    (Calm-Ends j l _ (rw (q.0, t.0) (working before t.1)) (started-Calm j a))
                    (λ m events p.
                      follows_go j m (consume j events before) _ (Taking target) (Ready target)
                        (consume-Ends j target m events before
                          (p.0 ∙ q.0 ∙ t.0, t.1, p.1 ∙ q.1 ∙ t.2))
                        (λ n after v. taken-Ready n dir after v)))))
