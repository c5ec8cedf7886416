-- ===== src/Runner/Path/Checks.antt =====
-- internal/runner/executor.go: the trusted checks and the report make no transitions.
use agent_trail.Base.{refl, ℕ, String, Option, some, none, List, [], ◌∷◌, ◌++◌}
use agent_trail.Validation.Defs.{Check, File}
use agent_trail.Evidence.Defs.{CheckResult}
use agent_trail.Runner.Defs.{
  Fault, Answer, given, refused, Outcome, returned, failed, Prog, ask, run_check, cause, ctx_err,
  signal,
}
use agent_trail.Runner.Fence.{Job}
use agent_trail.Runner.Checks.{
  kept_error, record_check, observe, Checked, unless_ended, check_result, run_checks, ended_by,
  while_running, on_file, run_trusted_validation, generate_evidence, since, no_error,
}
use agent_trail.Runner.Path.Rules.{
  Quiet, ret-Quiet, fail-Quiet, bind-Quiet, caught-Quiet, if-Quiet, perform-Quiet, ask-Quiet,
  signal-Quiet, answer-Quiet,
}
use agent_trail.Runner.Path.Fence.{append-Quiet, fence-Quiet}

pub ruleset quiet_rules = (
  ret-Quiet, fail-Quiet, bind-Quiet, caught-Quiet, if-Quiet, perform-Quiet, ask-Quiet, signal-Quiet,
  answer-Quiet, append-Quiet, fence-Quiet,
)

module _ (j : Job) where
  since-Quiet : (o : Option ℕ) → Quiet j (since o)
  since-Quiet none = search quiet_rules
  since-Quiet (some at) = search quiet_rules

  pub generate_evidence-Quiet : (note : String) → Quiet j (generate_evidence j note)
  unfolding generate_evidence
  generate_evidence-Quiet note = search (quiet_rules, since-Quiet) depth 24

  record_check-Quiet : (r : CheckResult) → Quiet j (record_check j r)
  unfolding record_check
  record_check-Quiet r = search quiet_rules

  kept-Quiet : {A : Type 0} (o : Outcome A) → Quiet j (kept_error o)
  kept-Quiet (returned a) = search quiet_rules
  kept-Quiet (failed f) = search quiet_rules

  observe-Quiet : (r : CheckResult) (p : Option Fault) → Quiet j (observe j r p)
  unfolding observe
  observe-Quiet r none = search (quiet_rules, record_check-Quiet, kept-Quiet)
  observe-Quiet r (some f) = search quiet_rules

  unless-Quiet :
      {A : Type 0} (a : A) (m : Prog A) (e : Option Fault)
      → Quiet j m
      → Quiet j (unless_ended a m e)
  unless-Quiet a m none p = p
  unless-Quiet a m (some f) p = search quiet_rules

  run_checks-Quiet : (dir : String) (l : List Check) (s : Checked) → Quiet j (run_checks j dir l s)
  unfolding run_checks
  run_checks-Quiet dir [] s = search quiet_rules
  run_checks-Quiet dir (c ∷ rest) s = bind-Quiet j (signal ctx_err) _ (signal-Quiet j ctx_err) (λ e.
      unless-Quiet s _ e (
        bind-Quiet j (ask (run_check dir c)) _ (ask-Quiet j (run_check dir c)) (λ ran.
          bind-Quiet j (observe j (check_result c ran) s.1) _
            (observe-Quiet (check_result c ran) s.1)
            (λ p. run_checks-Quiet dir rest (s.0 ++ check_result c ran ∷ [], p)))))

  pub no_error-Quiet : (e : Option Fault) → Quiet j (no_error e)
  no_error-Quiet none = search quiet_rules
  no_error-Quiet (some f) = search quiet_rules

  pub ended-Quiet : (A : Type 0) → Quiet j (ended_by {A = A})
  ended-Quiet A = bind-Quiet j (signal cause) _ (signal-Quiet j cause) (λ c g. (refl, refl))

  while-Quiet :
      {A : Type 0} (m : Prog A) (e : Option Fault) → Quiet j m → Quiet j (while_running m e)
  while-Quiet m none p = p
  while-Quiet {A} m (some f) p = ended-Quiet A

  on_file-Quiet : (dir : String) (a : Answer (Option File)) → Quiet j (on_file j dir a)
  on_file-Quiet dir (given none) = search quiet_rules
  on_file-Quiet dir (refused r) = search quiet_rules
  on_file-Quiet dir (given (some file)) =
      bind-Quiet j (run_checks j dir file.validation ([], none)) _
        (run_checks-Quiet dir file.validation ([], none))
        (λ s. bind-Quiet j (no_error s.1) _ (no_error-Quiet s.1) (λ u.
          bind-Quiet j (signal ctx_err) _ (signal-Quiet j ctx_err)
            (λ over. while-Quiet _ over (search quiet_rules))))

  pub run_trusted_validation-Quiet : (dir : String) → Quiet j (run_trusted_validation j dir)
  unfolding run_trusted_validation
  run_trusted_validation-Quiet dir = search (quiet_rules, on_file-Quiet)
