-- ===== src/Evidence/Defs.antt =====
-- internal/evidence/report.go: the report and `Generate`; internal/runner/publish.go: `checkConclusion` and
-- `validationOutcome`; internal/runner/executor.go: what a report takes from the agent's events.
use Prim.Native.String.{◌++◌ as concat}
use agent_trail.Base.{
  ℕ, suc, ◌+◌, String, Bool, true, false, not, Option, none, some, List, [], ◌∷◌, ◌++◌, ℤ, pos,
  str_eq, leb, ◌==◌, if◌then◌else◌,
}
use agent_trail.Chars.Defs.{Chars}
use agent_trail.Task.{Task}
use agent_trail.GitHub.Texts.{format_int}

-- `CheckResult`: `trusted_execution` says that the platform ran the check itself.
pub record CheckResult : Type 0 where
  pub name : String
  pub category : String
  pub status : String
  pub trusted_execution : Bool
  pub exit_code : Option ℤ
  pub duration_ms : ℤ
  pub summary : String

pub record TaskInfo : Type 0 where
  pub id : String
  pub source_issue : Option ℤ
  pub title : String
  pub requested_by : String

pub record Execution : Type 0 where
  pub agent_provider : String
  pub agent_model : String
  pub base_commit : String
  pub final_commit : String
  pub duration_seconds : Option ℤ

pub record Changes : Type 0 where
  pub files_changed : ℕ
  pub files : List String

pub record Report : Type 0 where
  pub schema_version : ℕ
  pub task : TaskInfo
  pub execution : Execution
  pub plan : List Chars
  pub changes : Changes
  pub validation : List CheckResult
  pub risks : List String
  pub unverified : List String

pub record Params : Type 0 where
  pub task : Task
  pub base_commit : String
  pub agent_provider : String
  pub duration_seconds : Option ℤ
  pub plan : List Chars
  pub files_changed : List String
  pub trusted : List CheckResult
  pub agent_reported : List CheckResult
  pub validation_note : String
  pub unverified : List String

unfoldable pub length {ℓ} : {A : Type ℓ} → List A → ℕ
length [] = 0
length (x ∷ l) = suc (length l)

abbrev pub or_blank : Option String → String
or_blank none = ""
or_blank (some s) = s

-- The base commit of the parameters, else the task's.
abbrev base_of : Params → String
base_of p = if str_eq p.base_commit "" then or_blank p.task.base_commit_sha else p.base_commit

abbrev note_lines : String → List String
note_lines note = if str_eq note "" then [] else concat "trusted validation did not run: " note ∷ []

abbrev reported_lines : ℕ → List String
reported_lines n =
    if n == 0
    then []
    else concat (format_int (pos n)) " agent-reported check(s) were not independently executed" ∷ []

-- `Generate`
unfoldable pub generate : Params → Report
generate p = record {
  schema_version = 1;
  task = record {
    id = p.task.id;
    source_issue = p.task.source_issue_number;
    title = p.task.title;
    requested_by = or_blank p.task.requested_by_user_id;
  };
  execution = record {
    agent_provider = p.agent_provider;
    agent_model = or_blank p.task.agent_model;
    base_commit = base_of p;
    final_commit = "";
    duration_seconds = p.duration_seconds;
  };
  plan = p.plan;
  changes = record { files_changed = length p.files_changed; files = p.files_changed };
  validation = p.trusted ++ p.agent_reported;
  risks = [];
  unverified =
      note_lines p.validation_note ++ (reported_lines (length p.agent_reported) ++ p.unverified);
}

-- The loop of `checkConclusion`: whether a trusted check was seen, and the conclusion so far.
abbrev pub concluded : Bool → String → String
concluded saw conclusion = if not saw then "neutral" else conclusion

unfoldable pub conclude : List CheckResult → Bool → String → String
conclude [] saw conclusion = concluded saw conclusion
conclude (v ∷ l) saw conclusion =
    let skipped = conclude l saw conclusion in
    let same = conclude l true conclusion in
    let neutral = conclude l true "neutral" in
    if not v.trusted_execution
    then skipped
    else if str_eq v.status "failed"
    then "failure"
    else if str_eq v.status "passed"
    then same
    else neutral

-- `checkConclusion`
unfoldable pub check_conclusion : Report → String
check_conclusion r = conclude r.validation false "success"

pub record Counts : Type 0 where
  pub trusted : ℕ
  pub passed : ℕ
  pub failed : ℕ

-- The loop of `validationOutcome`.
abbrev pub counted : CheckResult → Counts → Counts
counted v n =
    if not v.trusted_execution
    then n
    else if str_eq v.status "passed"
    then record n { trusted = n.trusted + 1; passed = n.passed + 1 }
    else if str_eq v.status "failed"
    then record n { trusted = n.trusted + 1; failed = n.failed + 1 }
    else record n { trusted = n.trusted + 1 }

unfoldable pub tally : List CheckResult → Counts → Counts
tally [] n = n
tally (v ∷ l) n = tally l (counted v n)

abbrev pub no_counts : Counts
no_counts = record { trusted = 0; passed = 0; failed = 0 }

-- The cases of the outcome, each with the numbers in its text.
pub data Verdict : Type 0 where
  none_ran : Verdict
  some_failed : ℕ → ℕ → Verdict
  all_passed : ℕ → Verdict
  incomplete : ℕ → ℕ → Verdict

unfoldable pub verdict : Counts → Verdict
verdict n =
    if n.trusted == 0
    then none_ran
    else if not (leb n.failed 0)
    then some_failed n.failed n.trusted
    else if n.passed == n.trusted
    then all_passed n.trusted
    else incomplete n.passed n.trusted

abbrev number : ℕ → String
number n = format_int (pos n)

abbrev pub verdict_text : Verdict → String
verdict_text none_ran = "no trusted checks ran"
verdict_text (some_failed f n) =
    concat "failed ("
      (concat (number f) (concat " of " (concat (number n) " trusted checks failed)")))
verdict_text (all_passed n) = concat "passed (" (concat (number n) " trusted checks)")
verdict_text (incomplete p n) =
    concat "incomplete ("
      (concat (number p) (concat " of " (concat (number n) " trusted checks passed)")))

-- `validationOutcome`
unfoldable pub validation_outcome : Report → Verdict
validation_outcome r = verdict (tally r.validation no_counts)
