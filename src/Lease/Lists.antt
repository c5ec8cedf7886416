-- ===== src/Lease/Lists.antt =====
-- internal/runner/store.go: the lists of leased and of dispatchable attempts.
use agent_trail.Base.{
  ℕ, String, Bool, ◌&&◌, Option, none, some, List, map, ℤ, pos, negsuc, ◌==◌, if◌then◌else◌,
}
use agent_trail.Task.{Task, Attempt}
use agent_trail.Db.{Db, ok, query, statement, ◌>>=◌}
use agent_trail.Store.Statements.{is_active}
use agent_trail.Store.Operations.{Operation}
use agent_trail.Store.Reads.{select, order_by, limited}
use agent_trail.Lease.Defs.{clock, lapsed, claimable_status, candidates, precedes, owned_by}

unfoldable pub leased_attempt_ids : String → Operation (List String)
leased_attempt_ids runner = statement (
    query "leased attempts" (λ db.
      map (λ a. a.id)
        (select (λ a. owned_by runner a.lease_owner && is_active a.status) db.attempts)))

pub record DispatchAttempt : Type 0 where
  pub attempt_id : String
  pub task_id : String
  pub max_runtime_seconds : ℤ

abbrev runtime_or : ℤ → Option ℤ → ℤ
runtime_or default_runtime none = default_runtime
runtime_or default_runtime (some n) = n

unfoldable pub dispatch_of : ℤ → Attempt × Task → DispatchAttempt
dispatch_of default_runtime (a, t) = record {
  attempt_id = a.id;
  task_id = t.id;
  max_runtime_seconds = runtime_or default_runtime t.max_runtime_seconds;
}

abbrev pub positive_or : ℕ → ℤ → ℕ
positive_or usual (negsuc n) = usual
positive_or usual (pos n) = if n == 0 then usual else n

-- The WHERE of `DispatchableAttempts`.
unfoldable pub dispatchable : ℕ → Attempt → Task → Bool
dispatchable now a t = is_active a.status && lapsed now a.lease_expires_at && claimable_status t

-- The rows, before LIMIT.
unfoldable pub dispatchable_rows : ℕ → Db → List (Attempt × Task)
dispatchable_rows now db = order_by precedes (candidates (dispatchable now) db.tasks db.attempts)

-- `DispatchableAttempts`: the default runtime in seconds.
unfoldable pub dispatchable_attempts : ℤ → ℤ → Operation (List DispatchAttempt)
dispatchable_attempts default_runtime limit = statement (do
  now ← clock
  rows ← query "list dispatchable attempts" (dispatchable_rows now)
  λ s. ok (map (dispatch_of default_runtime) (limited (positive_or 100 limit) rows), s))
