-- ===== src/Tests/Pages.antt =====
-- internal/task/store.go: the rest of a task's log after a cursor.
use agent_trail.Base.{◌≡◌, refl, List, pos}
use agent_trail.Status.{can_transition}
use agent_trail.Table.{find, exists, count, update, greatest}
use agent_trail.Text.{is_uuid, canonical}
use agent_trail.Db.{ok, query, exec, fresh_id, commit, transaction, statement, ◌>>=◌}
use agent_trail.Store.Statements.{
  status_text, transition_event_type, valid_source, truncate_runes, holds_issue, same_issue,
  seen_key, new_event, insert_event, bare_attempt,
}
use agent_trail.Store.Apply.{
  add_attempt, move_attempt, moved, update_task, transition_payload, perform, replayed, source_of,
  apply_transition,
}
use agent_trail.Store.Operations.{new_task, insert_task, first_attempt, create_body}
use agent_trail.Store.Operations as Operations
use agent_trail.Store.Reads.{
  Entry, after_cursor, page, events_after, clamp, entries, select, order_by, limited, rows_count,
}
use agent_trail.Store.Cursor.{PageOk, events_after-PageOk}
use agent_trail.Run.Defs.{serve, run}
use agent_trail.Tests.Data.{two, later, task_1}

abbrev rest : List Entry
rest = page (after_cursor (pos 1) (pos 1)) 500 task_1 two

-- The second event alone is left.
one_left : rows_count rest ≡ 1
unfolding serve run transaction exec query commit fresh_id ◌>>=◌ Operations.create create_body
    new_task insert_task first_attempt find exists count update greatest holds_issue same_issue
    bare_attempt add_attempt insert_event new_event apply_transition replayed perform source_of
    valid_source move_attempt update_task moved transition_payload can_transition truncate_runes
    transition_event_type status_text seen_key page after_cursor entries select order_by limited
    rows_count
one_left = refl

rest_is_read : (events_after task_1 (pos 1) (pos 1) (pos 0) (later two 10)).0 ≡ ok rest
unfolding serve run transaction exec query commit fresh_id ◌>>=◌ Operations.create create_body
    new_task insert_task first_attempt find exists count update greatest holds_issue same_issue
    bare_attempt add_attempt insert_event new_event apply_transition replayed perform source_of
    valid_source move_attempt update_task moved transition_payload can_transition truncate_runes
    transition_event_type status_text seen_key events_after statement clamp is_uuid canonical
rest_is_read = refl

events_after-PageOk_example : PageOk task_1 (later two 10).db (pos 1) (pos 1) (pos 0) rest
unfolding canonical
events_after-PageOk_example =
    events_after-PageOk task_1 (pos 1) (pos 1) (pos 0) (later two 10) rest rest_is_read
