-- ===== src/GitHub/Handlers/Pulls.antt =====
-- internal/github/process.go: `handlePullRequest`.
use Prim.Native.String.{◌++◌ as concat}
use agent_trail.Base.{
  String, Bool, false, not, ◌||◌, Option, none, some, if◌then◌else◌, str_eq, ℤ, pos, int_eq,
  int_leb,
}
use agent_trail.Status.{completed, cancelled, Phase, terminal, review}
use agent_trail.Task.{Task, TransitionParams, invalid_transition}
use agent_trail.Db.{Result, ok, err}
use agent_trail.Store.Operations.{transition_to, transition}
use agent_trail.Store.Reads.{task_for_branch}
use agent_trail.Git.Branch.{valid_branch}
use agent_trail.GitHub.Texts.{format_int}
use agent_trail.GitHub.Defs.{Repository, processed, ignored, failure, Handler, and_then, done}

pub record PullEvent : Type 0 where
  pub action : String
  pub number : ℤ
  pub merged : Bool
  pub head_ref : String
  pub head_repository : Option ℤ
  pub repository : ℤ

-- `RepositoryByGitHubID`
pub data Lookup : Type 0 where
  found : Repository → Lookup
  missing : Lookup
  lookup_failed : Lookup

abbrev pub from_here : PullEvent → Bool
from_here ev = elim ev.head_repository [ none ↦ false | some id ↦ int_eq id ev.repository ]

abbrev pub final_params : PullEvent → TransitionParams
final_params ev =
    let pr = concat "pull request #" (format_int ev.number) in
    let p =
      transition_to (if ev.merged then completed else cancelled) "system"
        (if ev.merged then concat pr " merged" else concat pr " closed without merge") in
    record p { idempotency_key = concat "pull_request:" (concat (format_int ev.number) ":closed") }

unfoldable pub after_finalize : Result Task → Handler
after_finalize (ok t) = done processed
after_finalize (err (invalid_transition from to)) = done ignored
after_finalize (err e) = done failure

abbrev pub finalize : PullEvent → Task → Phase → Handler
finalize ev t review = and_then (transition t.id (final_params ev)) after_finalize
finalize ev t p = done ignored

unfoldable pub close_task : PullEvent → Result (Option Task) → Handler
close_task ev (err e) = done failure
close_task ev (ok none) = done ignored
close_task ev (ok (some t)) = if terminal t.status then done ignored else finalize ev t t.phase

abbrev pub close_in : PullEvent → Lookup → Handler
close_in ev missing = done ignored
close_in ev lookup_failed = done failure
close_in ev (found repo) = and_then (task_for_branch repo.id ev.head_ref) (close_task ev)

-- `handlePullRequest`
unfoldable pub handle_pull_request : Lookup → PullEvent → Handler
handle_pull_request repository ev =
    if not (str_eq ev.action "closed")
    then done ignored
    else if int_leb ev.number (pos 0) || int_eq ev.repository (pos 0)
    then done failure
    else if not (valid_branch ev.head_ref) || not (from_here ev)
    then done ignored
    else close_in ev repository
