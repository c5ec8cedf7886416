-- ===== src/GitHub/Handlers/Revise.antt =====
-- internal/github/revise.go: `handleRevise`, and what the handlers share.
use Prim.Native.String.{◌++◌ as concat}
use agent_trail.Base.{
  ℕ, ltb, String, Bool, false, not, ◌||◌, Option, none, some, List, [], ◌∷◌, if◌then◌else◌, str_eq,
  ℤ, int_eq,
}
use agent_trail.Text.{is_sha}
use agent_trail.Status.{Phase, review, pending, running, terminal_phase}
use agent_trail.Task.{
  Task, Attempt, FeedbackItem, Payload, RevisionParams, revision_replayed, revision_limit,
  invalid_transition,
}
use agent_trail.Db.{Result, ok, err}
use agent_trail.Store.Operations.{request_revision}
use agent_trail.Store.Records.{append_event, record_trigger_check_run}
use agent_trail.Store.Reads.{task_for_branch, attempts}
use agent_trail.Git.Branch.{valid_branch}
use agent_trail.GitHub.Texts.{format_int}
use agent_trail.GitHub.Defs.{
  Repository, Reply, not_agent_trail, revision_limit_reached, final_task, running_task, task_moved,
  revision_ack, processed, ignored, failure, panicked, Handler, and_then, reply_processed, posting,
  done,
}

pub record CommentEvent : Type 0 where
  pub action : String
  pub comment_id : ℤ
  pub body : String
  pub user_login : String
  pub user_type : String
  pub issue_number : ℤ
  pub issue_title : String
  pub issue_body : String
  pub on_pull_request : Bool

pub record PullRequest : Type 0 where
  pub head_ref : String
  pub head_sha : String
  pub head_repository : ℤ

-- GitHub's answers; none is an error. `feedback` is what the comments and reviews of the pull request since a
-- time make: the items and the instructions of the revision.
pub record Api : Type 0 where
  pub accepts : Reply → Bool
  pub permission : Option String
  pub branch_head : Option String
  pub check_run : Option ℤ
  pub pull_request : Option PullRequest
  pub feedback : Option ℕ → Option (List FeedbackItem × String)

-- `appendTaskEvent`: its error is only logged.
abbrev pub with_event : String → String → Payload → Handler → Handler
with_event tid event_type payload next =
    and_then (append_event tid event_type "system" payload) (λ r. next)

-- `createTriggerCheckRun`, and what follows it
abbrev pub with_check_run : Api → String → String → Handler → Handler
with_check_run api tid head next = elim api.check_run [
  | none ↦ next
  | some id ↦ and_then (record_trigger_check_run tid id) (λ r.
      with_event tid "github.check_run.created"
        (("check_run_id", format_int id) ∷ ("head_sha", head) ∷ []) next)
]

-- The comment that acknowledges, and its event.
abbrev pub acknowledged : Api → Reply → String → Payload → Handler
acknowledged api c tid payload = posting api.accepts c (λ taken.
    if taken
    then with_event tid "github.comment.posted" payload (done processed)
    else done processed)

abbrev pub triggered_by : ℤ → Attempt → Bool
triggered_by id a = elim a.trigger_comment_id [ none ↦ false | some n ↦ int_eq n id ]

unfoldable pub any_triggered : ℤ → List Attempt → Bool
any_triggered id [] = false
any_triggered id (a ∷ l) = triggered_by id a || any_triggered id l

unfoldable pub last_attempt : List Attempt → Option Attempt
last_attempt [] = none
last_attempt (a ∷ []) = some a
last_attempt (a ∷ b ∷ l) = last_attempt (b ∷ l)

-- The first revision takes all feedback, a later one what came since the latest attempt.
abbrev pub cutoff : Attempt → Option ℕ
cutoff a = if ltb 1 a.number then some a.created_at else none

abbrev pub revision_params :
    CommentEvent → Repository → PullRequest → List FeedbackItem × String → RevisionParams
revision_params ev repo pr (items, instructions) = record {
  instructions = instructions;
  base_commit_sha = pr.head_sha;
  requested_by_login = ev.user_login;
  trigger_comment_id = ev.comment_id;
  feedback = items;
  max_attempts = repo.max_attempts;
  idempotency_key = concat "revise:" (format_int ev.comment_id);
  reason =
      concat "revision requested by @"
        (concat ev.user_login (concat " in pull request #" (format_int ev.issue_number)));
}

-- After the call of `RequestRevision`.
unfoldable pub after_revision :
    Api → CommentEvent → PullRequest → Task → Result (Task × Attempt) → Handler
after_revision api ev pr t (ok (revised, a)) = with_check_run api revised.id pr.head_sha (
    acknowledged api (revision_ack revised.id a.number) revised.id
      (("kind", "revision_ack") ∷ ("pull_request", format_int ev.issue_number) ∷ []))
after_revision api ev pr t (err revision_replayed) = done ignored
after_revision api ev pr t (err (revision_limit n m)) =
    reply_processed api.accepts revision_limit_reached
after_revision api ev pr t (err (invalid_transition from to)) =
    reply_processed api.accepts (task_moved t.id)
after_revision api ev pr t (err e) = done failure

abbrev pub revise_since : Api → CommentEvent → Repository → PullRequest → Task → Attempt → Handler
revise_since api ev repo pr t last = elim (api.feedback (cutoff last)) [
  | none ↦ done failure
  | some given ↦
      and_then (request_revision t.id (revision_params ev repo pr given))
        (after_revision api ev pr t)
]

-- A task whose latest attempt is asked for has one: the index of an empty list panics.
abbrev pub revise_reviewed :
    Api → CommentEvent → Repository → PullRequest → Task → List Attempt → Handler
revise_reviewed api ev repo pr t l =
    if not (is_sha pr.head_sha)
    then done failure
    else elim (last_attempt l) [ none ↦ done panicked | some a ↦ revise_since api ev repo pr t a ]

abbrev pub revise_phase :
    Api → CommentEvent → Repository → PullRequest → Task → List Attempt → Phase → Handler
revise_phase api ev repo pr t l terminal_phase = reply_processed api.accepts (final_task t.id)
revise_phase api ev repo pr t l pending = reply_processed api.accepts (running_task t.id)
revise_phase api ev repo pr t l running = reply_processed api.accepts (running_task t.id)
revise_phase api ev repo pr t l review = revise_reviewed api ev repo pr t l

-- The attempts of the task; the comment's own attempt makes it a redelivery.
unfoldable pub revise_attempts :
    Api → CommentEvent → Repository → PullRequest → Task → Result (List Attempt) → Handler
revise_attempts api ev repo pr t (err e) = done failure
revise_attempts api ev repo pr t (ok l) =
    if any_triggered ev.comment_id l then done ignored else revise_phase api ev repo pr t l t.phase

unfoldable pub revise_task :
    Api → CommentEvent → Repository → PullRequest → Result (Option Task) → Handler
revise_task api ev repo pr (err e) = done failure
revise_task api ev repo pr (ok none) = reply_processed api.accepts not_agent_trail
revise_task api ev repo pr (ok (some t)) =
    and_then (attempts t.id) (revise_attempts api ev repo pr t)

abbrev pub revise_pull : Api → CommentEvent → Repository → PullRequest → Handler
revise_pull api ev repo pr =
    if not (valid_branch pr.head_ref) || not (int_eq pr.head_repository repo.github_repository_id)
    then reply_processed api.accepts not_agent_trail
    else and_then (task_for_branch repo.id pr.head_ref) (revise_task api ev repo pr)

-- `handleRevise`
unfoldable pub handle_revise : Api → CommentEvent → Repository → Handler
handle_revise api ev repo =
    if str_eq ev.user_login ""
    then done failure
    else elim api.pull_request [ none ↦ done failure | some pr ↦ revise_pull api ev repo pr ]
