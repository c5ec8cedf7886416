-- ===== src/Tests/Dispatch.antt =====
-- internal/runner/store.go: the two tasks are dispatchable.
use mathlib.Core.List.{Memᴰ}
use agent_trail.Text.{is_uuid, canonical}
use agent_trail.Base.{◌+◌, ◌≡◌, refl, some, [], ◌∷◌, pos}
use agent_trail.Status.{can_transition}
use agent_trail.Table.{find, exists, count, update, greatest}
use agent_trail.Db.{ok, query, exec, fresh_id, commit, transaction, statement, ◌>>=◌}
use agent_trail.Store.Statements.{
  status_text, transition_event_type, valid_source, truncate_runes, holds_issue, same_issue,
  seen_key, new_event, insert_event, bare_attempt,
}
use agent_trail.Store.Apply.{
  add_attempt, move_attempt, moved, update_task, transition_payload, perform, replayed, source_of,
  apply_transition,
}
use agent_trail.Store.Operations.{new_task, insert_task, first_attempt, create_body}
use agent_trail.Store.Operations as Operations
use agent_trail.Store.Reads.{order_by, limited}
use agent_trail.Lease.Defs.{Claim, claim_attempt, claimable_status, candidates, precedes, clock}
use agent_trail.Lease.Lists.{
  DispatchAttempt, dispatch_of, dispatchable, dispatchable_rows, dispatchable_attempts,
}
use agent_trail.Lease.Dispatch.{dispatchable-claim}
use agent_trail.Run.Defs.{serve, run}
use agent_trail.Tests.Data.{two, later, task_1, attempt_1, task_2, attempt_2}

abbrev job_1 : DispatchAttempt
job_1 = record { attempt_id = attempt_1; task_id = task_1; max_runtime_seconds = pos 600 }

abbrev job_2 : DispatchAttempt
job_2 = record { attempt_id = attempt_2; task_id = task_2; max_runtime_seconds = pos 600 }

both_listed : (dispatchable_attempts (pos 600) (pos 0) (later two 10)).0 ≡ ok (job_2 ∷ job_1 ∷ [])
unfolding serve run transaction exec query commit fresh_id ◌>>=◌ Operations.create create_body
    new_task insert_task first_attempt find exists count update greatest holds_issue same_issue
    bare_attempt add_attempt insert_event new_event apply_transition replayed perform source_of
    valid_source move_attempt update_task moved transition_payload can_transition truncate_runes
    transition_event_type status_text seen_key dispatchable_attempts dispatchable_rows dispatchable
    dispatch_of statement clock order_by limited candidates claimable_status precedes
both_listed = refl

-- The second of the listed attempts is claimed.
dispatchable-claim_example :
    (c : Claim) × ((claim_attempt [] "r1" attempt_1 60
        (record (later two 10) { healthy = 4 + 3 })).0
      ≡ ok (some c))
    × (c.attempt_id ≡ attempt_1)
unfolding is_uuid canonical
dispatchable-claim_example =
    dispatchable-claim (pos 600) (pos 0) (later two 10) (job_2 ∷ job_1 ∷ []) job_1 both_listed
      (Memᴰ.tail (Memᴰ.head refl)) refl refl "r1" 60 3
