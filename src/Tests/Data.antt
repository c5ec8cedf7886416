-- ===== src/Tests/Data.antt =====
-- internal/task/store.go and internal/runner/store.go: two tasks that are created and claimed.
use agent_trail.Base.{ℕ, String, none, List, [], ◌∷◌, pos}
use agent_trail.Task.{CreateParams}
use agent_trail.Db.{Db, Session}
use agent_trail.Run.Defs.{Request, Setting, run, empty}

abbrev pub task_1 : String
task_1 = "00000000-0000-4000-8000-000000000001"

abbrev pub attempt_1 : String
attempt_1 = "00000000-0000-4000-8000-0000000000a1"

abbrev pub task_2 : String
task_2 = "00000000-0000-4000-8000-000000000002"

abbrev pub attempt_2 : String
attempt_2 = "00000000-0000-4000-8000-0000000000a2"

abbrev pub params : String → ℕ → CreateParams
params title n = record {
  title = title;
  instructions = "";
  priority = pos n;
  base_branch = "";
  max_runtime_seconds = none;
  max_cost_usd = none;
  source_type = "";
  source_issue_number = none;
  source_comment_id = none;
  organization_id = none;
  repository_id = none;
  requested_by_login = "";
}

abbrev pub setting : ℕ → List String → Setting
setting now ids = record { now = now; ids = ids; healthy = 20 }

abbrev pub two_tasks : List (Request × Setting)
two_tasks =
    (Request.create (params "first" 0), setting 1 (task_1 ∷ attempt_1 ∷ "e1" ∷ "e2" ∷ []))
    ∷ (Request.create (params "second" 5), setting 2 (task_2 ∷ attempt_2 ∷ "e3" ∷ "e4" ∷ []))
    ∷ []

abbrev pub two : Db
two = run empty two_tasks

abbrev pub later : Db → ℕ → Session
later db now = record { db = db; now = now; ids = "f1" ∷ "f2" ∷ "f3" ∷ []; healthy = 20 }
