-- ===== src/GitHub/Authority.antt =====
-- internal/github/process.go: who may run a command.
use agent_trail.Base.{
  String, Bool, true, false, not, Option, none, some, if◌then◌else◌, str_eq, ◌≡◌, refl,
}
use agent_trail.Text.{codes}
use agent_trail.GitHub.Command.{
  Verb, run_task, revise, Command, nothing, unknown, known, parse_command,
}
use agent_trail.GitHub.Defs.{
  Repository, Reply, World, Outcome, ignored, failure, Handler, reply_processed, post, after_reply,
  done,
}
use agent_trail.GitHub.Handlers.{
  CommentEvent, Api, may_write, permitted, placed, on_verb, on_command, handle_comment,
}

-- A handler that makes no call of the task store.
abbrev pub Untouched : World → World → Type 0
Untouched w w' = (w'.db ≡ w.db) × (w'.turns ≡ w.turns)

abbrev Idle : Handler → Type 0
Idle h = (w : World) → Untouched w (h w).1

reply-Idle : (accepts : Reply → Bool) (c : Reply) → Idle (reply_processed accepts c)
unfolding reply_processed
reply-Idle accepts c w = go (accepts c)
  where
    go : (b : Bool) → Untouched w (after_reply b (post c w)).1
    go true = (refl, refl)
    go false = (refl, refl)

done-Idle : (o : Outcome) → Idle (done o)
done-Idle o w = (refl, refl)

if-Idle : (b : Bool) (h k : Handler) → Idle h → Idle k → Idle (if b then h else k)
if-Idle true h k p q = p
if-Idle false h k p q = q

-- GitHub does not say that the commenter may write.
abbrev pub NoWriter : Option String → Type 0
NoWriter none = Unit
NoWriter (some p) = may_write p ≡ false

permitted-Idle :
    (api : Api) (ev : CommentEvent) (repo : Repository) (verb : Verb) (o : Option String)
    → NoWriter o
    → Idle (permitted api ev repo verb o)
permitted-Idle api ev repo verb none h w = done-Idle failure w
permitted-Idle api ev repo verb (some p) h w = rw h (reply-Idle api.accepts _ w)

placed-Idle :
    (api : Api) (ev : CommentEvent) (repo : Repository) (verb : Verb)
    → NoWriter api.permission
    → Idle (placed api ev repo verb)
placed-Idle api ev repo verb h =
    if-Idle (not repo.is_enabled) _ _ (reply-Idle api.accepts _)
      (permitted-Idle api ev repo verb api.permission h)

verb-Idle :
    (api : Api) (ev : CommentEvent) (repo : Repository) (verb : Verb)
    → NoWriter api.permission
    → Idle (on_verb api ev repo verb)
verb-Idle api ev repo run_task h =
    if-Idle ev.on_pull_request _ _ (reply-Idle api.accepts _) (placed-Idle api ev repo run_task h)
verb-Idle api ev repo revise h =
    if-Idle (not ev.on_pull_request) _ _ (reply-Idle api.accepts _)
      (placed-Idle api ev repo revise h)

command-Idle :
    (api : Api) (ev : CommentEvent) (repository : Option Repository) (c : Command)
    → NoWriter api.permission
    → Idle (on_command api ev repository c)
command-Idle api ev repository nothing h = done-Idle ignored
command-Idle api ev none unknown h = done-Idle failure
command-Idle api ev none (known verb) h = done-Idle failure
command-Idle api ev (some repo) unknown h = reply-Idle api.accepts _
command-Idle api ev (some repo) (known verb) h = verb-Idle api ev repo verb h

-- Where GitHub does not answer that the commenter has write or admin permission, a comment's delivery makes no
-- call of the task store at all, whatever the comment says and wherever it stands.
pub handle_comment-Untouched :
    (api : Api) (repository : Option Repository) (ev : CommentEvent) (w : World)
    → NoWriter api.permission
    → Untouched w (handle_comment api repository ev w).1
unfolding handle_comment
handle_comment-Untouched api repository ev w h =
    if-Idle (not (str_eq ev.action "created")) _ _ (done-Idle ignored)
      (if-Idle (str_eq ev.user_type "Bot") _ _ (done-Idle ignored)
        (command-Idle api ev repository (parse_command (codes ev.body)) h))
      w
