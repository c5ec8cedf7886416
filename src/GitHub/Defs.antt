-- ===== src/GitHub/Defs.antt =====
-- internal/github/process.go and revise.go: what a handler finds, and what it does to the outside. A handler
-- calls the task store; between its calls, other transactions run.
use agent_trail.Base.{ℕ, String, Bool, true, false, List, [], ◌∷◌, ◌++◌, ℤ}
use agent_trail.Task.{failed_statement}
use agent_trail.Db.{Db, Result, err}
use agent_trail.Store.Operations.{Operation}
use agent_trail.Run.Defs.{Request, Setting, session, run}

-- A row of `repositories`, as `StoredRepository`; the settings of it are the limit of attempts.
pub record Repository : Type 0 where
  pub id : String
  pub organization_id : String
  pub github_repository_id : ℤ
  pub default_branch : String
  pub is_enabled : Bool
  pub max_attempts : ℤ

-- The comments that the handlers post.
pub data Reply : Type 0 where
  usage run_on_pull_request revise_on_issue disabled unauthorized : Reply
  not_agent_trail revision_limit_reached : Reply
  active_task : String → Reply
  final_task : String → Reply
  running_task : String → Reply
  task_moved : String → Reply
  task_ack : String → Reply
  revision_ack : String → ℕ → Reply

-- What other transactions do before a call, and what the call then finds beside the tables.
pub record Turn : Type 0 where
  pub others : List (Request × Setting)
  pub setting : Setting

-- The tables, the turns to come, and the comments posted, in their order.
pub record World : Type 0 where
  pub db : Db
  pub turns : List Turn
  pub posted : List Reply

pub data Outcome : Type 0 where
  processed ignored failure panicked : Outcome

abbrev pub Handler : Type 0
Handler = World → Outcome × World

-- A call of the task store. Without a turn, the delivery's time is up and the call fails.
abbrev pub answered : {A : Type 0} → World → List Turn → Result A × Db → Result A × World
answered w turns (r, db) = (r, record w { db = db; turns = turns })

abbrev pub turn_of : {A : Type 0} → Operation A → World → List Turn → Result A × World
turn_of op w [] = (err (failed_statement "context deadline exceeded"), w)
turn_of op w (t ∷ turns) = answered w turns (op (session (run w.db t.others) t.setting))

unfoldable pub call : {A : Type 0} → Operation A → World → Result A × World
call op w = turn_of op w w.turns

abbrev pub and_then : {A : Type 0} → Operation A → (Result A → Handler) → Handler
and_then op next w = let (r, w') = call op w in next r w'

-- `reply`, and what follows when GitHub takes the comment; GitHub's answer is an argument.
abbrev pub post : Reply → World → World
post c w = record w { posted = w.posted ++ c ∷ [] }

abbrev pub after_reply : Bool → Handler
after_reply true w = (processed, w)
after_reply false w = (failure, w)

-- `replyProcessed`
unfoldable pub reply_processed : (Reply → Bool) → Reply → Handler
reply_processed accepts c w = after_reply (accepts c) (post c w)

abbrev pub posting : (Reply → Bool) → Reply → (Bool → Handler) → Handler
posting accepts c next w = next (accepts c) (post c w)

abbrev pub done : Outcome → Handler
done o w = (o, w)
