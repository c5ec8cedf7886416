-- ===== src/Tests/Runner.antt =====
-- internal/runner and internal/evidence: an execution of a task without a repository, and a report.
use agent_trail.Base.{◌≡◌, refl, pos, String, Bool, true, false, none, [], ◌∷◌}
use agent_trail.Status.{queued}
use agent_trail.Lease.Defs.{Claim}
use agent_trail.Evidence.Defs.{CheckResult, Report, conclude, check_conclusion, validation_outcome}
use agent_trail.Evidence.Conclusion.{
  trusted_only, expected_conclusion, check_conclusion-expected, conclusion_of,
  validation_outcome-check_conclusion,
}
use agent_trail.Runner.Defs.{given}
use agent_trail.Runner.Fence.{Executor, Job}
use agent_trail.Runner.Execute.{execute}
use agent_trail.Runner.Path.Recorded.{Records, publish-Recorded}
use agent_trail.Runner.Pulls.{publish_and_clean, publish_recovered}
use agent_trail.Runner.Defs.{RepositoryContext, Workspace}
use agent_trail.Task.{Task}
use agent_trail.Store.Operations.{new_task}
use agent_trail.Runner.Path.Defs.{Follows}
use agent_trail.Runner.Path.Stages.{start_queued}
use agent_trail.Runner.Path.Execute.{begun, execute-Follows}
use agent_trail.Tests.Data.{params, task_1, attempt_1}

abbrev executor : Executor
executor = record {
  lease_duration = 30000000000;
  default_runtime = 0;
  has_workspaces = false;
  has_github = false;
  has_repos = false;
  has_conflicts = false;
  adapter_name = "fake";
  error_text = λ f. "error";
  duration_text = λ d. "45m0s";
  time_text = λ t. "2026-01-01T00:00:00Z";
  text_of = λ s. "agent-trail/task";
  credentialed_clone_url = λ url token. given url;
  markdown = λ r. "# Evidence";
  pr_body = λ r sha history. "Evidence";
}

abbrev claim_1 : Claim
claim_1 = record {
  attempt_id = attempt_1;
  attempt_number = 1;
  task_id = task_1;
  task_status = queued;
  title = "first";
  instructions = "";
  task_created_at = 1;
  lease_expires_at = 33;
}

abbrev job : Job
job = record { executor = executor; runner_id = "runner-1"; claim = claim_1 }

execute-Follows_example : Follows job (begun job) (execute job) (λ h o. Unit {0})
execute-Follows_example = execute-Follows job start_queued

abbrev target : RepositoryContext
target = record {
  stored = record {
    id = "00000000-0000-4000-8000-00000000000b";
    organization_id = "00000000-0000-4000-8000-00000000000c";
    github_repository_id = pos 7;
    default_branch = "main";
    is_enabled = true;
    max_attempts = pos 5;
  };
  owner = "acme";
  name = "parser";
  clone_url = "https://github.com/acme/parser.git";
  installation_id = pos 1;
}

abbrev workspace : Workspace
workspace = record {
  attempt_id = attempt_1;
  repo = record { id = "7"; clone_url = "https://github.com/acme/parser.git" };
  path = "/var/lib/agent-trail/1";
  branch = "agent-trail/first";
  base_sha = "0f8fad5bd9cb469fa16570867728950e00000000";
}

abbrev task : Task
task = new_task 1 task_1 (params "first" 0)

publish-Recorded_example :
    Records job (publish_and_clean job task target workspace "")
    × Records job (publish_recovered job task target)
publish-Recorded_example = publish-Recorded job task target workspace ""

abbrev check : String → Bool → CheckResult
check status trusted = record {
  name = status;
  category = "custom";
  status = status;
  trusted_execution = trusted;
  exit_code = none;
  duration_ms = pos 0;
  summary = "";
}

abbrev report : Report
report = record {
  schema_version = 1;
  task = record { id = task_1; source_issue = none; title = "first"; requested_by = "" };
  execution = record {
    agent_provider = "fake";
    agent_model = "";
    base_commit = "";
    final_commit = "";
    duration_seconds = none;
  };
  plan = [];
  changes = record { files_changed = 0; files = [] };
  validation = check "passed" true ∷ check "failed" false ∷ [];
  risks = [];
  unverified = [];
}

check_conclusion-expected_example :
    check_conclusion report ≡ expected_conclusion (trusted_only report.validation)
check_conclusion-expected_example = check_conclusion-expected report

validation_outcome-check_conclusion_example :
    conclusion_of (validation_outcome report) ≡ check_conclusion report
validation_outcome-check_conclusion_example = validation_outcome-check_conclusion report

claims_ignored : check_conclusion report ≡ "success"
unfolding check_conclusion conclude
claims_ignored = refl
