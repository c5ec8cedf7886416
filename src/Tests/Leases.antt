-- ===== src/Tests/Leases.antt =====
-- internal/runner/store.go: two runners claim the two tasks.
use mathlib.Core.List.{Memᴰ}
use agent_trail.Text.{canonical, is_uuid}
use agent_trail.Base.{◌≡◌, ◌≢◌, refl, none, some, List, [], ◌∷◌, arith}
use agent_trail.Status.{queued, can_transition}
use agent_trail.Task.{Task, Attempt}
use agent_trail.Table.{find, exists, count, update, greatest}
use agent_trail.Db.{Db, ok, query, exec, fresh_id, commit, transaction, statement, ◌>>=◌}
use agent_trail.Store.Statements.{
  task_is, status_text, transition_event_type, valid_source, truncate_runes, holds_issue,
  same_issue, seen_key, new_event, insert_event, bare_attempt,
}
use agent_trail.Store.Apply.{
  add_attempt, move_attempt, moved, update_task, transition_payload, perform, replayed, source_of,
  apply_transition,
}
use agent_trail.Store.Operations.{new_task, insert_task, first_attempt, create_body}
use agent_trail.Store.Operations as Operations
use agent_trail.Lease.Defs.{
  Claim, claim, claim_attempt, claim_body, claim_row, claim_of, claimable, claimable_status,
  candidates, precedes, better, first_row, clock, leased, extend_lease, extend_body, extended,
  holds,
}
use agent_trail.Lease.Where.{IsFree, IsAhead}
use agent_trail.Run.Defs.{Request, Setting, serve, run}
use agent_trail.Run.Invariant.{run-Wf}
use agent_trail.Run.Exclusive.{lease_exclusive, claim-first}
use agent_trail.Tests.Data.{two_tasks, two, later, setting, task_1, task_2, attempt_1, attempt_2}

abbrev claim_2 : Claim
claim_2 = record {
  attempt_id = attempt_2;
  attempt_number = 1;
  task_id = task_2;
  task_status = queued;
  title = "second";
  instructions = "";
  task_created_at = 2;
  lease_expires_at = 70;
}

abbrev claim_1 : Claim
claim_1 = record {
  attempt_id = attempt_1;
  attempt_number = 1;
  task_id = task_1;
  task_status = queued;
  title = "first";
  instructions = "";
  task_created_at = 1;
  lease_expires_at = 120;
}

-- The task of the higher priority is claimed first.
second_is_first : (claim [] "r1" 60 (later two 10)).0 ≡ ok (some claim_2)
unfolding canonical claim claim_body claim_row claim_of claimable claimable_status candidates
    precedes better first_row clock leased serve run transaction exec query commit fresh_id ◌>>=◌
    Operations.create create_body new_task insert_task first_attempt find exists count update
    greatest holds_issue same_issue bare_attempt add_attempt insert_event new_event apply_transition
    replayed perform source_of valid_source move_attempt update_task moved transition_payload
    can_transition truncate_runes transition_event_type status_text seen_key
second_is_first = refl

-- In between, the second runner tries to take the lease over.
abbrev meanwhile : List (Request × Setting)
meanwhile = (Request.extend_lease attempt_2 "r2" 60, setting 30 []) ∷ []

abbrev after : Db
after = run (claim [] "r1" 60 (later two 10)).1 meanwhile

first_is_second : (claim_attempt [] "r2" attempt_1 60 (later after 60)).0 ≡ ok (some claim_1)
unfolding is_uuid claim_attempt canonical claim claim_body claim_row claim_of claimable
    claimable_status candidates precedes better first_row clock leased serve run transaction exec
    query commit fresh_id ◌>>=◌ Operations.create create_body new_task insert_task first_attempt
    find exists count update greatest holds_issue same_issue bare_attempt add_attempt insert_event
    new_event apply_transition replayed perform source_of valid_source move_attempt update_task
    moved transition_payload can_transition truncate_runes transition_event_type status_text
    seen_key extend_lease extend_body extended holds statement
first_is_second = refl

lease_exclusive_example : attempt_1 ≢ attempt_2
unfolding canonical
lease_exclusive_example =
    lease_exclusive none [] "r1" 60 (later two 10) claim_2 (run-Wf two_tasks) second_is_first
      meanwhile (omega arith, refl, tt) (some attempt_1) [] "r2" 60 (later after 60) claim_1 refl
      (omega arith) first_is_second

claim-first_example :
    (a : Attempt) × (t : Task) × (claim_2 ≡ claim_of a t 70)
    × Memᴰ a two.attempts
    × (find (task_is a.task_id) two.tasks ≡ some t)
    × IsFree 10 [] a t
    × ((b : Attempt) (u : Task)
        → Memᴰ b two.attempts
        → find (task_is b.task_id) two.tasks ≡ some u
        → IsFree 10 [] b u
        → IsAhead t u)
claim-first_example = claim-first [] "r1" 60 (later two 10) claim_2 second_is_first
