-- ===== src/Runner/Path/Stages.antt =====
-- internal/runner/executor.go: what `drive` may ask of the task store, from the claim to its end.
use agent_trail.Base.{
  ◌≡◌, refl, ◌∙◌, ◌⊎◌, inl, inr, String, Bool, true, false, Option, some, none, [], ◌∷◌,
  if◌then◌else◌,
}
use agent_trail.Status.{
  Status, queued, provisioning, planning, executing, validating, publishing, awaiting_review,
  completed,
}
use agent_trail.Status.Graph.{
  IsWorking, in_provisioning, in_planning, in_executing, in_validating, in_publishing, provision,
  publish, submit, accept, ⟶-can_transition,
}
use agent_trail.Task.{Task, Payload}
use agent_trail.Runner.Defs.{
  external, Prog, Outcome, returned, failed, Answer, given, refused, get, perform, call,
  repository_context, RepositoryContext, ◌>>=◌,
}
use agent_trail.Runner.Fence.{Job, append, move_to, fail_task}
use agent_trail.Runner.Checks.{generate_evidence}
use agent_trail.Runner.Provision.{on_context, target_of, publish_target}
use agent_trail.Runner.Drive.{
  move_from, run_agent_stages, agent_part, workspace_lost_note, validation_part, publishing_part,
  completing, drive,
}
use agent_trail.Runner.Path.Defs.{View, seen, Follows}
use agent_trail.Runner.Path.Rules.{
  Ends, follows_weaken, follows_bind, follows_go, go-Quiet, perform-Quiet,
}
use agent_trail.Runner.Path.Fence.{Tracked, append-Quiet, fail_task-Ends, move_to-Tracked}
use agent_trail.Runner.Path.Checks.{generate_evidence-Quiet}
use agent_trail.Runner.Path.Pulls.{recovered-Tracked}
use agent_trail.Runner.Path.Agent.{
  IsAgentStage, at_provisioning, at_planning, at_executing, arrow-Tracked,
}
use agent_trail.Runner.Path.Drive.{temp-Tracked, worktree-Tracked}

-- The statuses in which a claimed task is, but for one in review.
pub data IsStart : Status → Type 0 where
  start_queued : IsStart queued
  start_working : {s : Status} → IsWorking s → IsStart s

abbrev is_target : Option RepositoryContext → Bool
is_target none = false
is_target (some rc) = true

-- The statuses after the agent's stages, and after the validation.
data Late : Option RepositoryContext → Status → Type 0 where
  late_validating : {o : Option RepositoryContext} → Late o validating
  late_publishing : {o : Option RepositoryContext} → Late o publishing
  reviewed : {rc : RepositoryContext} → Late (some rc) awaiting_review

data Later : Option RepositoryContext → Status → Type 0 where
  later_publishing : {o : Option RepositoryContext} → Later o publishing
  later_reviewed : {rc : RepositoryContext} → Later (some rc) awaiting_review

-- A completed task has no repository to publish to; one that has is in review.
abbrev pub IsFinished : View → Type 0
IsFinished h =
    ((h.status ≡ completed) × (h.has_target ≡ false))
    ⊎ ((h.status ≡ awaiting_review) × (h.has_target ≡ true))

module _ (j : Job) where
  abbrev TargetEnd : Status → View → Option RepositoryContext → Type 0
  TargetEnd s h o = (h.status ≡ s) × (h.has_target ≡ is_target o)

  context-Ends :
      (g : View) (s : Status) (id : String) (a : Answer RepositoryContext)
      → IsWorking s
      → g.status ≡ s
      → g.has_target ≡ false
      → Follows j (seen g (repository_context id) a) (on_context j a) (Ends (TargetEnd s))
  context-Ends g s id (given rc) w e f = (e, refl)
  context-Ends g s id (refused r) w e f = unavailable _
    where
      unavailable :
          (b : Bool)
          → Follows j
              (record g { is_fenced = false })
              (if b
                then fail_task j "publishing_unavailable" (j.executor.error_text (external r ∷ []))
                else Prog.fail (external r ∷ []))
              (Ends (TargetEnd s))
      unavailable true =
          fail_task-Ends j (Option RepositoryContext) (record g { is_fenced = false })
            "publishing_unavailable" (j.executor.error_text (external r ∷ [])) (TargetEnd s)
            (rw e w)
      unavailable false = tt

  target-Ends :
      (g : View) (s : Status) (t : Task)
      → IsWorking s
      → g.status ≡ s
      → g.has_target ≡ false
      → Follows j g (publish_target j t) (Ends (TargetEnd s))
  unfolding publish_target
  target-Ends g s t w e f = go t.repository_id
    where
      configured :
          (id : String) (b : Bool)
          → Follows j g
              (if b
                then Prog.ret none
                else (call (repository_context id) >>= λ rc. on_context j rc))
              (Ends (TargetEnd s))
      configured id true = (e, f)
      configured id false =
          follows_bind j g (call (repository_context id)) _ (Ends (TargetEnd s))
            (tt, λ a. context-Ends g s id a w e f)

      go : (o : Option String) → Follows j g (target_of j o) (Ends (TargetEnd s))
      go none = (e, f)
      go (some id) = configured id _

  staged-Ends :
      (g : View) (t : Task) (o : Option RepositoryContext) (s : Status)
      → IsAgentStage s
      → TargetEnd s g o
      → Follows j g (run_agent_stages j t o s) (Ends (λ h x. Late o x × TargetEnd x h o))
  unfolding run_agent_stages
  staged-Ends g t none s k e =
      go-Quiet j g (append j "workspace.provisioning" "runner" none) _ _
        (append-Quiet j "workspace.provisioning" "runner" none)
        (λ h u r.
          follows_weaken j h _ (Ends (Tracked false publishing)) _
            (temp-Tracked j false h s k (r.0 ∙ e.0) (r.1 ∙ e.1)) end)
    where
      end :
          (h : View) (x : Outcome Status)
          → Ends (Tracked false publishing) h x
          → Ends (λ (h : View) (x : Status). Late none x × TargetEnd x h none) h x
      end h (returned x) p = rw p.0 (late_publishing, (p.1, p.2))
      end h (failed f) p = tt
  staged-Ends g t (some rc) s k e =
      go-Quiet j g (append j "workspace.provisioning" "runner" none) _ _
        (append-Quiet j "workspace.provisioning" "runner" none)
        (λ h u r.
          follows_weaken j h _ (Ends (Tracked true awaiting_review)) _
            (worktree-Tracked j true h t rc s k (r.0 ∙ e.0) (r.1 ∙ e.1)) end)
    where
      end :
          (h : View) (x : Outcome Status)
          → Ends (Tracked true awaiting_review) h x
          → Ends (λ (h : View) (x : Status). Late (some rc) x × TargetEnd x h (some rc)) h x
      end h (returned x) p = rw p.0 (reviewed, (p.1, p.2))
      end h (failed f) p = tt

  agent-Ends :
      (g : View) (t : Task) (o : Option RepositoryContext) (s : Status)
      → IsWorking s
      → TargetEnd s g o
      → Follows j g (agent_part j t o s) (Ends (λ h x. Late o x × TargetEnd x h o))
  agent-Ends g t o s in_provisioning e = staged-Ends g t o provisioning at_provisioning e
  agent-Ends g t o s in_planning e = staged-Ends g t o planning at_planning e
  agent-Ends g t o s in_executing e = staged-Ends g t o executing at_executing e
  agent-Ends g t o s in_validating e = (late_validating, e)
  agent-Ends g t o s in_publishing e = (late_publishing, e)

  validation-Ends :
      (g : View) (o : Option RepositoryContext) (s : Status)
      → Late o s
      → TargetEnd s g o
      → Follows j g (validation_part j s) (Ends (λ h x. Later o x × TargetEnd x h o))
  validation-Ends g o s late_publishing e = (later_publishing, e)
  validation-Ends g o s reviewed e = (later_reviewed, e)
  validation-Ends g o s late_validating e =
      go-Quiet j g (append j "validation.completed" "runner" (some note)) _ _
        (append-Quiet j "validation.completed" "runner" (some note))
        (λ h u r.
          go-Quiet j h (generate_evidence j workspace_lost_note) _ _
            (generate_evidence-Quiet j workspace_lost_note)
            (λ k v q.
              follows_weaken j k _ (Ends (Tracked (is_target o) publishing)) _
                (arrow-Tracked j (is_target o) k validating publishing (q.0 ∙ r.0 ∙ e.0)
                  (q.1 ∙ r.1 ∙ e.1) publish (λ c. cc))
                end))
    where
      note : Payload
      note = ("status", "error") ∷ ("reason", workspace_lost_note) ∷ []

      end :
          (h : View) (x : Outcome Status)
          → Ends (Tracked (is_target o) publishing) h x
          → Ends (λ (h : View) (x : Status). Later o x × TargetEnd x h o) h x
      end h (returned x) p = rw p.0 (later_publishing, (p.1, p.2))
      end h (failed f) p = tt

  published-Ends :
      (g : View) (t : Task) (o : Option RepositoryContext) (s : Status)
      → Later o s
      → TargetEnd s g o
      → Follows j g (publishing_part j t o s) (Ends (Tracked (is_target o) awaiting_review))
  published-Ends g t o s later_reviewed e = (refl, e.0, e.1)
  published-Ends g t (some rc) s later_publishing e = recovered-Tracked j g true t rc e.0 e.1
  published-Ends g t none s later_publishing e =
      go-Quiet j g (append j "publishing.skipped" "runner" (some reason)) _
        (Tracked false awaiting_review) (append-Quiet j "publishing.skipped" "runner" (some reason))
        (λ h u r.
          arrow-Tracked j false h publishing awaiting_review (r.0 ∙ e.0) (r.1 ∙ e.1) submit
            (λ c. cc))
    where
      reason : Payload
      reason = ("reason", "task has no repository or publishing is not configured") ∷ []

  completed-Ends :
      (g : View) (o : Option RepositoryContext) (s : Status)
      → Tracked (is_target o) awaiting_review g s
      → Follows j g (completing j o s) (Ends (λ h u. IsFinished h))
  completed-Ends g (some rc) s e = inr (e.1, e.2)
  completed-Ends g none s e = rw e.0 (
      follows_go j g (move_to j completed "system" _) _ (Tracked false completed)
        (λ h u. IsFinished h)
        (move_to-Tracked j g false completed "system" _ e.2
          (inr (rw e.1 (⟶-can_transition accept), λ c. e.2)))
        (λ h x p. inl (p.1, p.2)))

  move_from-Ends :
      (g : View) (s : Status)
      → IsWorking s
      → g.status ≡ s
      → g.has_target ≡ false
      → Follows j g
          (move_from j queued provisioning s)
          (Ends (λ h x. IsWorking x × (h.status ≡ x) × (h.has_target ≡ false)))
  move_from-Ends g s in_provisioning e f = (in_provisioning, e, f)
  move_from-Ends g s in_planning e f = (in_planning, e, f)
  move_from-Ends g s in_executing e f = (in_executing, e, f)
  move_from-Ends g s in_validating e f = (in_validating, e, f)
  move_from-Ends g s in_publishing e f = (in_publishing, e, f)

  start-Ends :
      (g : View) (s : Status)
      → IsStart s
      → g.status ≡ s
      → g.has_target ≡ false
      → Follows j g
          (move_from j queued provisioning s)
          (Ends (λ h x. IsWorking x × (h.status ≡ x) × (h.has_target ≡ false)))
  start-Ends g s start_queued e f =
      follows_weaken j g _ (Ends (Tracked false provisioning)) _
        (arrow-Tracked j false g queued provisioning e f provision (λ c. cc)) end
    where
      end :
          (h : View) (x : Outcome Status)
          → Ends (Tracked false provisioning) h x
          → Ends
              (λ (h : View) (x : Status). IsWorking x × (h.status ≡ x) × (h.has_target ≡ false))
              h
              x
      end h (returned x) p = rw p.0 (in_provisioning, p.1, p.2)
      end h (failed y) p = tt
  start-Ends g s (start_working w) e f = move_from-Ends g s w e f

  pub drive-Follows :
      (g : View)
      → IsStart j.claim.task_status
      → g.status ≡ j.claim.task_status
      → g.has_target ≡ false
      → Follows j g (drive j) (Ends (λ h u. IsFinished h))
  unfolding drive
  drive-Follows g k e f =
      follows_go j g (move_from j queued provisioning j.claim.task_status) _
        (λ h x. IsWorking x × (h.status ≡ x) × (h.has_target ≡ false)) _
        (start-Ends g j.claim.task_status k e f)
        (λ h first p.
          go-Quiet j h (perform (get j.claim.task_id)) _ _ (perform-Quiet j (get j.claim.task_id))
            (λ i t r.
              follows_go j i (publish_target j t) _ (TargetEnd first) _
                (target-Ends i first t p.0 (r.0 ∙ p.1) (r.1 ∙ p.2))
                (λ l o q.
                  follows_go j l (agent_part j t o first) _ (λ h x. Late o x × TargetEnd x h o) _
                    (agent-Ends l t o first p.0 q)
                    (λ m second u.
                      follows_go j m (validation_part j second) _
                        (λ h x. Later o x × TargetEnd x h o) _ (validation-Ends m o second u.0 u.1)
                        (λ n third v.
                          follows_go j n (publishing_part j t o third) _
                            (Tracked (is_target o) awaiting_review) _
                            (published-Ends n t o third v.0 v.1)
                            (λ z fourth w. completed-Ends z o fourth w))))))
