-- ===== src/Lease/Defs.antt =====
-- internal/runner/store.go: the lease operations on task_attempts.
use agent_trail.Base.{
  ℕ, ◌+◌, String, Bool, true, false, not, ◌&&◌, ◌||◌, Option, none, some, List, [], ◌∷◌, ℤ, str_eq,
  int_eq, int_leb, leb, ltb, ◌==◌, if◌then◌else◌,
}
use agent_trail.Status.{
  Status, queued, provisioning, planning, executing, validating, publishing, awaiting_review,
  status_eq,
}
use agent_trail.Task.{Task, Attempt, lease_lost}
use agent_trail.Table.{find, count, update}
use agent_trail.Text.{is_uuid, canonical}
use agent_trail.Db.{ok, Tx, query, exec, require, pure, commit, transaction, statement, ◌>>=◌, ◌>>◌}
use agent_trail.Store.Statements.{coalesce, is_some, task_is, attempt_is, is_active}
use agent_trail.Store.Operations.{Operation}

pub record Claim : Type 0 where
  pub attempt_id : String
  pub attempt_number : ℕ
  pub task_id : String
  pub task_status : Status
  pub title : String
  pub instructions : String
  pub task_created_at : ℕ
  pub lease_expires_at : ℕ

abbrev is_working : Status → Bool
is_working queued = true
is_working provisioning = true
is_working planning = true
is_working executing = true
is_working validating = true
is_working publishing = true
is_working _ = false

-- `claimableWhere`
unfoldable pub claimable_status : Task → Bool
claimable_status t =
    is_working t.status || (status_eq t.status awaiting_review && not (is_some t.repository_id))

-- lease_expires_at IS NULL OR lease_expires_at < now()
abbrev pub lapsed : ℕ → Option ℕ → Bool
lapsed now none = true
lapsed now (some at) = ltb at now

abbrev pub wanted : Option String → Attempt → Bool
wanted none a = true
wanted (some aid) a = attempt_is aid a

abbrev pub among : String → List String → Bool
among id [] = false
among id (x ∷ rest) = str_eq x id || among id rest

-- The WHERE of `claim`, with the rows that SKIP LOCKED passes over.
unfoldable pub claimable : ℕ → List String → Option String → Attempt → Task → Bool
unfolding claimable_status
claimable now locked aid a t =
    is_active a.status
    && lapsed now a.lease_expires_at
    && claimable_status t
    && wanted aid a
    && not (among a.id locked)

abbrev candidate :
    (Attempt → Task → Bool) → Attempt → Option Task → List (Attempt × Task) → List (Attempt × Task)
candidate p a none rest = rest
candidate p a (some t) rest = if p a t then (a, t) ∷ rest else rest

-- task_attempts a JOIN tasks t ON t.id = a.task_id WHERE …
unfoldable pub candidates :
    (Attempt → Task → Bool) → List Task → List Attempt → List (Attempt × Task)
candidates p tasks [] = []
candidates p tasks (a ∷ rest) =
    candidate p a (find (task_is a.task_id) tasks) (candidates p tasks rest)

-- ORDER BY t.priority DESC, t.created_at: whether the first row may stand before the second.
unfoldable pub precedes : Attempt × Task → Attempt × Task → Bool
precedes (_, t) (_, u) =
    if int_eq t.priority u.priority
    then leb t.created_at u.created_at
    else int_leb u.priority t.priority

unfoldable pub better : Attempt × Task → Option (Attempt × Task) → Attempt × Task
better x none = x
better x (some y) = if precedes x y then x else y

-- The first row in that order. Among rows that the order does not tell apart, the table's first.
unfoldable pub first_row : List (Attempt × Task) → Option (Attempt × Task)
unfolding better
first_row [] = none
first_row (x ∷ rest) = some (better x (first_row rest))

-- The clock of the statement.
unfoldable pub clock : Tx ℕ
clock s = ok (s.now, s)

-- SET of the UPDATE in `claim`
unfoldable pub leased : String → ℕ → ℕ → Attempt → Attempt
leased runner duration now a = record a {
  runner_id = some runner;
  lease_owner = some runner;
  lease_expires_at = some (now + duration);
  heartbeat_at = some now;
}

instructions_of : Attempt → Task → String
instructions_of a t = elim (a.instructions) [ none ↦ t.instructions | some s ↦ s ]

unfoldable pub claim_of : Attempt → Task → ℕ → Claim
unfolding instructions_of
claim_of a t expires = record {
  attempt_id = a.id;
  attempt_number = a.number;
  task_id = t.id;
  task_status = t.status;
  title = t.title;
  instructions = instructions_of a t;
  task_created_at = t.created_at;
  lease_expires_at = expires;
}

unfoldable pub claim_row : String → ℕ → Option (Attempt × Task) → Tx (Option Claim)
claim_row runner duration none = pure none
claim_row runner duration (some (a, t)) = do
  exec "write lease" (λ now db. record db {
    attempts = update (attempt_is a.id) (leased runner duration now) db.attempts;
  })
  now ← clock
  commit
  pure (some (claim_of a t (now + duration)))

unfoldable pub claim_body : List String → String → ℕ → Option String → Tx (Option Claim)
claim_body locked runner duration aid = do
  now ← clock
  row ←
      query "select claimable"
        (λ db. first_row (candidates (claimable now locked aid) db.tasks db.attempts))
  claim_row runner duration row

-- `Claim`: `locked` are the attempts that other transactions have locked.
unfoldable pub claim : List String → String → ℕ → Operation (Option Claim)
claim locked runner duration = transaction (claim_body locked (canonical runner) duration none)

unfoldable pub claim_attempt : List String → String → String → ℕ → Operation (Option Claim)
claim_attempt locked runner aid duration =
    if is_uuid aid
    then transaction (claim_body locked (canonical runner) duration (some (canonical aid)))
    else λ s. (ok none, s.db)

abbrev pub owned_by : String → Option String → Bool
owned_by runner none = false
owned_by runner (some owner) = str_eq owner runner

abbrev pub later_than : ℕ → Option ℕ → Bool
later_than now none = false
later_than now (some at) = ltb now at

-- WHERE id = $1 AND lease_owner = $2 AND lease_expires_at > now()
unfoldable pub holds : String → String → ℕ → Attempt → Bool
holds aid runner now a =
    attempt_is aid a && owned_by runner a.lease_owner && later_than now a.lease_expires_at

unfoldable pub extended : ℕ → ℕ → Attempt → Attempt
extended duration now a = record a {
  lease_expires_at = some (now + duration);
  heartbeat_at = some now;
}

unfoldable pub extend_body : String → String → ℕ → Tx (Unit {0})
extend_body aid runner duration = do
  now ← clock
  n ← query "extend lease" (λ db. count (holds aid runner now) db.attempts)
  exec "extend lease" (λ now db. record db {
    attempts = update (holds aid runner now) (extended duration now) db.attempts;
  })
  require (not (n == 0)) lease_lost

unfoldable pub extend_lease : String → String → ℕ → Operation (Unit {0})
extend_lease aid runner duration =
    statement (extend_body (canonical aid) (canonical runner) duration)

unfoldable pub owns : String → String → Attempt → Bool
owns aid runner a = attempt_is aid a && owned_by runner a.lease_owner

unfoldable pub released : Attempt → Attempt
released a = record a { lease_owner = none; lease_expires_at = none }

unfoldable pub release_body : String → String → Tx (Unit {0})
release_body aid runner = do
  n ← query "release lease" (λ db. count (owns aid runner) db.attempts)
  exec "release lease"
      (λ now db. record db { attempts = update (owns aid runner) released db.attempts })
  require (not (n == 0)) lease_lost

unfoldable pub release_lease : String → String → Operation (Unit {0})
release_lease aid runner = statement (release_body (canonical aid) (canonical runner))

-- `RecordAttemptBase`, `RecordFinalCommit` and `RecordPullRequest`: the first writer wins.
unfoldable pub with_base : String → Attempt → Attempt
with_base sha a = record a { base_commit_sha = coalesce a.base_commit_sha (some sha) }

unfoldable pub with_final : String → Attempt → Attempt
with_final sha a = record a { final_commit_sha = coalesce a.final_commit_sha (some sha) }

unfoldable pub with_pull_request : ℤ → Attempt → Attempt
with_pull_request n a = record a { pull_request_number = coalesce a.pull_request_number (some n) }

abbrev pub recorded : String → String → (Attempt → Attempt) → Tx (Unit {0})
recorded what aid f =
    exec what (λ now db. record db { attempts = update (attempt_is aid) f db.attempts })

unfoldable pub record_attempt_base : String → String → Operation (Unit {0})
record_attempt_base aid sha =
    statement (recorded "record attempt base" (canonical aid) (with_base sha))

unfoldable pub record_final_commit : String → String → Operation (Unit {0})
record_final_commit aid sha =
    statement (recorded "record final commit" (canonical aid) (with_final sha))

unfoldable pub record_pull_request : String → ℤ → Operation (Unit {0})
record_pull_request aid n =
    statement (recorded "record pull request" (canonical aid) (with_pull_request n))
