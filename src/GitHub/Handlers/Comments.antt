-- ===== src/GitHub/Handlers/Comments.antt =====
-- internal/github/process.go: `handleIssueComment`.
use Prim.Native.String.{◌++◌ as concat}
use agent_trail.Base.{
  ℕ, String, Bool, not, ◌||◌, Option, none, some, [], ◌∷◌, if◌then◌else◌, str_eq, pos,
}
use agent_trail.Text.{codes}
use agent_trail.Task.{Task, CreateParams, active_task_exists}
use agent_trail.Db.{Result, ok, err}
use agent_trail.Store.Operations.{create}
use agent_trail.Store.Reads.{active_task_for_issue}
use agent_trail.GitHub.Command.{
  Verb, run_task, revise, Command, nothing, unknown, known, parse_command,
}
use agent_trail.GitHub.Texts.{format_int, truncate_utf8}
use agent_trail.GitHub.Defs.{
  Repository, usage, run_on_pull_request, revise_on_issue, disabled, unauthorized, active_task,
  task_ack, ignored, failure, Handler, and_then, reply_processed, done,
}
use agent_trail.GitHub.Handlers.Revise.{
  CommentEvent, Api, with_check_run, acknowledged, handle_revise,
}

abbrev pub instruction_limit : ℕ
instruction_limit = 100000

-- `composeInstructions`
unfoldable pub compose_instructions : CommentEvent → String
compose_instructions ev =
    truncate_utf8
      (concat ev.issue_title (
        concat "\n\n" (
          concat ev.issue_body (
            concat "\n\n---\nTriggering comment by @"
              (concat ev.user_login (concat ":\n\n" ev.body))))))
      instruction_limit

abbrev pub create_params : CommentEvent → Repository → CreateParams
create_params ev repo = record {
  title = truncate_utf8 ev.issue_title 500;
  instructions = compose_instructions ev;
  priority = pos 0;
  base_branch = repo.default_branch;
  max_runtime_seconds = none;
  max_cost_usd = none;
  source_type = "github_issue";
  source_issue_number = some ev.issue_number;
  source_comment_id = some ev.comment_id;
  organization_id = some repo.organization_id;
  repository_id = some repo.id;
  requested_by_login = ev.user_login;
}

-- The lookup after a race that another command won.
unfoldable pub lost_race : Api → Result (Option Task) → Handler
lost_race api (ok (some t)) = reply_processed api.accepts (active_task t.id)
lost_race api (ok none) = done failure
lost_race api (err e) = done failure

abbrev pub started : Api → CommentEvent → Task → Handler
started api ev t =
    acknowledged api (task_ack t.id) t.id
      (("kind", "task_ack") ∷ ("issue", format_int ev.issue_number) ∷ [])

unfoldable pub after_create : Api → CommentEvent → Repository → Result Task → Handler
after_create api ev repo (err active_task_exists) =
    and_then (active_task_for_issue repo.id ev.issue_number) (lost_race api)
after_create api ev repo (err e) = done failure
after_create api ev repo (ok t) = elim api.branch_head [
  | none ↦ started api ev t
  | some head ↦ with_check_run api t.id head (started api ev t)
]

unfoldable pub after_lookup : Api → CommentEvent → Repository → Result (Option Task) → Handler
after_lookup api ev repo (err e) = done failure
after_lookup api ev repo (ok (some t)) = reply_processed api.accepts (active_task t.id)
after_lookup api ev repo (ok none) =
    and_then (create (create_params ev repo)) (after_create api ev repo)

abbrev pub may_write : String → Bool
may_write p = str_eq p "admin" || str_eq p "write"

abbrev pub authorized : Api → CommentEvent → Repository → Verb → Handler
authorized api ev repo revise = handle_revise api ev repo
authorized api ev repo run_task =
    and_then (active_task_for_issue repo.id ev.issue_number) (after_lookup api ev repo)

abbrev pub permitted : Api → CommentEvent → Repository → Verb → Option String → Handler
permitted api ev repo verb none = done failure
permitted api ev repo verb (some p) =
    if not (may_write p)
    then reply_processed api.accepts unauthorized
    else authorized api ev repo verb

-- A known command, where it stands in the right place.
abbrev pub placed : Api → CommentEvent → Repository → Verb → Handler
placed api ev repo verb =
    if not repo.is_enabled
    then reply_processed api.accepts disabled
    else permitted api ev repo verb api.permission

abbrev pub on_verb : Api → CommentEvent → Repository → Verb → Handler
on_verb api ev repo run_task =
    if ev.on_pull_request
    then reply_processed api.accepts run_on_pull_request
    else placed api ev repo run_task
on_verb api ev repo revise =
    if not ev.on_pull_request
    then reply_processed api.accepts revise_on_issue
    else placed api ev repo revise

-- `repository` is what `repositoryForCommand` gives.
abbrev pub on_command : Api → CommentEvent → Option Repository → Command → Handler
on_command api ev repository nothing = done ignored
on_command api ev none c = done failure
on_command api ev (some repo) unknown = reply_processed api.accepts usage
on_command api ev (some repo) (known verb) = on_verb api ev repo verb

-- `handleIssueComment`
unfoldable pub handle_comment : Api → Option Repository → CommentEvent → Handler
handle_comment api repository ev =
    if not (str_eq ev.action "created")
    then done ignored
    else if str_eq ev.user_type "Bot"
    then done ignored
    else on_command api ev repository (parse_command (codes ev.body))
