-- ===== src/Runner/Checks.antt =====
-- internal/runner/executor.go: the trusted checks and the evidence report.
use Prim.Native.String.{◌++◌ as concat}
use agent_trail.Base.{
  ℕ, suc, String, true, not, Option, none, some, List, [], ◌∷◌, ◌++◌, ℤ, pos, int_leb, leb, ◌==◌,
  str_eq, if◌then◌else◌,
}
use agent_trail.Task.{Task, Attempt, Payload}
use agent_trail.Store.Reads.{Entry}
use agent_trail.GitHub.Texts.{format_int}
use agent_trail.Validation.Defs.{Check, File}
use agent_trail.Evidence.Defs.{CheckResult, Params, generate, length, or_blank}
use agent_trail.Evidence.Claims.{gathered}
use agent_trail.Runner.Defs.{
  Fault, external, refused, Exit, succeeded, own_deadline, not_run, exited, Ran, get, attempt,
  attempt_started_at, events, seconds_since, insert_result, insert_report, list_for_attempt,
  load_file, run_check, Answer, given, cause, ctx_err, Prog, ret, fail, Outcome, returned, failed,
  caught, ask, from_answer, perform, signal, ◌>>=◌, ◌>>◌,
}
use agent_trail.Runner.Fence.{Job, append}

-- The status and the exit code that `runCheck` gives a check.
unfoldable pub exit_result : Exit → String × Option ℤ
exit_result succeeded = ("passed", some (pos 0))
exit_result own_deadline = ("timed_out", none)
exit_result not_run = ("error", none)
exit_result (exited n) = if int_leb (pos 0) n then ("failed", some n) else ("error", none)

-- `runCheck`
unfoldable pub check_result : Check → Ran → CheckResult
check_result c ran = record {
  name = c.name;
  category = c.category;
  status = (exit_result ran.exit).0;
  trusted_execution = true;
  exit_code = (exit_result ran.exit).1;
  duration_ms = ran.duration_ms;
  summary = ran.summary;
}

abbrev code_entry : Option ℤ → Payload
code_entry none = []
code_entry (some n) = ("exit_code", format_int n) ∷ []

abbrev check_payload : CheckResult → Payload
check_payload r =
    ("name", r.name)
    ∷ ("category", r.category)
    ∷ ("status", r.status)
    ∷ ("duration_ms", format_int r.duration_ms)
    ∷ ("trusted_execution", "true")
    ∷ ("summary", r.summary)
    ∷ code_entry r.exit_code

-- The callback: nothing more is written after the first error.
abbrev pub kept_error : {A : Type 0} → Outcome A → Prog (Option Fault)
kept_error (returned a) = ret none
kept_error (failed f) = ret (some f)

unfoldable pub record_check : Job → CheckResult → Prog (Unit {0})
record_check j r = do
  a ← ask (insert_result j.claim.attempt_id r)
  _ ← from_answer a
  append j "validation.check.completed" "runner" (some (check_payload r))

unfoldable pub observe : Job → CheckResult → Option Fault → Prog (Option Fault)
observe j r (some f) = ret (some f)
observe j r none = caught (record_check j r) kept_error

abbrev pub Checked : Type 0
Checked = List CheckResult × Option Fault

abbrev pub unless_ended : {A : Type 0} → A → Prog A → Option Fault → Prog A
unless_ended a m none = m
unless_ended a m (some f) = ret a

-- The loop of `Run`, with the first error of the callback.
unfoldable pub run_checks : Job → String → List Check → Checked → Prog Checked
run_checks j dir [] s = ret s
run_checks j dir (c ∷ rest) s = do
  e ← signal ctx_err
  unless_ended s
      (do
        ran ← ask (run_check dir c)
        p ← observe j (check_result c ran) s.1
        run_checks j dir rest (s.0 ++ check_result c ran ∷ [], p))
      e

unfoldable pub status_count : String → List CheckResult → ℕ
status_count s [] = 0
status_count s (r ∷ l) = let n = status_count s l in if str_eq r.status s then suc n else n

-- The `switch` over the counts.
unfoldable pub overall : List CheckResult → String
overall l =
    if not (leb (status_count "failed" l) 0)
    then "failed"
    else if not (length l == status_count "passed" l)
    then "error"
    else "passed"

abbrev count_entry : String → ℕ → String × String
count_entry key n = (key, format_int (pos n))

abbrev pub completed_payload : List CheckResult → Payload
completed_payload l =
    ("status", overall l)
    ∷ ("trusted_execution", "true")
    ∷ count_entry "checks" (length l)
    ∷ count_entry "passed" (status_count "passed" l)
    ∷ count_entry "failed" (status_count "failed" l)
    ∷ count_entry "timed_out" (status_count "timed_out" l)
    ∷ count_entry "errors" (status_count "error" l)
    ∷ []

abbrev pub no_error : Option Fault → Prog (Unit {0})
no_error none = ret tt
no_error (some f) = fail f

abbrev pub not_checked : Job → String → String → Prog String
not_checked j status note = do
  append j "validation.completed" "runner" (some (("status", status) ∷ ("reason", note) ∷ []))
  ret note

-- A context that has ended has a cause; without one the error is empty.
abbrev pub ended_by : {A : Type 0} → Prog A
ended_by = do c ← signal cause; fail (or_no_fault c)
  where
    or_no_fault : Option Fault → Fault
    or_no_fault none = []
    or_no_fault (some f) = f

-- `if ctx.Err() != nil { return …, context.Cause(ctx) }`
abbrev pub while_running : {A : Type 0} → Prog A → Option Fault → Prog A
while_running m none = m
while_running m (some f) = ended_by

abbrev pub run_file : Job → String → File → Prog String
run_file j dir file = do
  (results, e) ← run_checks j dir file.validation ([], none)
  no_error e
  over ← signal ctx_err
  while_running
      (do append j "validation.completed" "runner" (some (completed_payload results)); ret "") over

abbrev pub on_file : Job → String → Answer (Option File) → Prog String
on_file j dir (given none) =
    not_checked j "skipped" "no validation file at .agent-trail/validation.yaml"
on_file j dir (given (some file)) = run_file j dir file
on_file j dir (refused r) =
    not_checked j "error"
      (concat "invalid validation file: " (j.executor.error_text (external r ∷ [])))

-- `runTrustedValidation`
unfoldable pub run_trusted_validation : Job → String → Prog String
run_trusted_validation j dir = do
  append j "validation.started" "runner" (some (("trusted_execution", "true") ∷ []))
  file ← ask (load_file dir)
  on_file j dir file

abbrev pub event_limit : ℕ
event_limit = 1000

abbrev limit_note : List Entry → List String
limit_note l =
    if length l == event_limit
    then "event stream truncated at 1000 events; plan, file, and command claims may be incomplete"
      ∷ []
    else []

abbrev pub since : Option ℕ → Prog (Option ℤ)
since none = ret none
since (some at) = do d ← ask (seconds_since at); ret (some d)

abbrev pub provider_of : Job → Task → String
provider_of j t = elim t.agent_provider [ none ↦ j.executor.adapter_name | some p ↦ p ]

abbrev report_params :
    Job → String → Task → List CheckResult → List Entry → Option ℤ → Attempt → Params
report_params j note t trusted l duration a = record {
  task = t;
  base_commit = or_blank a.base_commit_sha;
  agent_provider = provider_of j t;
  duration_seconds = duration;
  plan = (gathered j.claim.attempt_id l).plan;
  files_changed = (gathered j.claim.attempt_id l).files;
  trusted = trusted;
  agent_reported = (gathered j.claim.attempt_id l).claimed;
  validation_note = note;
  unverified = limit_note l;
}

-- `generateEvidence`
unfoldable pub generate_evidence : Job → String → Prog (Unit {0})
generate_evidence j note = do
  t ← perform (get j.claim.task_id)
  results ← ask (list_for_attempt j.claim.attempt_id)
  trusted ← from_answer results
  l ← perform (events j.claim.task_id (pos event_limit))
  started ← perform (attempt_started_at j.claim.attempt_id)
  duration ← since started
  a ← perform (attempt j.claim.attempt_id)
  let report = generate (report_params j note t trusted l duration a)
  inserted ← ask (insert_report j.claim.attempt_id report (j.executor.markdown report))
  _ ← from_answer inserted
  append j "evidence.generated" "runner"
      (some (("schema_version", "1") ∷ count_entry "trusted_checks" (length trusted) ∷ []))
