-- ===== src/Tests/Witnesses.antt =====
-- The theorems on the task store and on the statuses, applied to concrete runs.
use mathlib.Core.List.{Memᴰ}
use agent_trail.Base.{◌≡◌, ◌↔◌, refl, true, false, none, some, List, [], ◌∷◌}
use agent_trail.Status.{
  Status, created, queued, provisioning, planning, executing, validating, publishing,
  awaiting_review, completed, cancelled, can_transition, terminal, valid,
}
use agent_trail.Text.{is_uuid, canonical}
use agent_trail.Status.Graph.{◌⟶◌, can_transition-iff-⟶}
use agent_trail.Status.History.{allowed, final, completed_was_reviewed, open_can_end}
use agent_trail.Task.{TransitionParams}
use agent_trail.Table.{find, exists, count, update, greatest}
use agent_trail.Db.{Db, query, exec, fresh_id, commit, transaction, ◌>>=◌}
use agent_trail.Store.Statements.{
  status_text, transition_event_type, valid_source, truncate_runes, holds_issue, same_issue,
  seen_key, lock_task, new_event, attempt_is, insert_event, bare_attempt,
}
use agent_trail.Store.Apply.{
  add_attempt, finish_attempt, move_attempt, moved, update_task, transition_payload, perform,
  replayed, source_of, apply_transition,
}
use agent_trail.Store.Operations.{
  new_task, insert_task, first_attempt, create_body, transition_to, transition, cancel_body,
}
use agent_trail.Store.Operations as Operations
use agent_trail.Store.Invariant.Defs.{Wf}
use agent_trail.Store.Total.Perform.{good}
use agent_trail.Store.Total.Answers.{transition_answer, transition-answers}
use agent_trail.Run.Defs.{Request, Setting, serve, run, empty}
use agent_trail.Run.Invariant.{run-Wf}
use agent_trail.Run.Final.{Outcome, final_for_good}
use agent_trail.Run.Log.{Extends, log_append_only}
use agent_trail.Tests.Data.{two_tasks, two, setting, task_1}

run-Wf_example : Wf (run empty two_tasks)
run-Wf_example = run-Wf two_tasks

abbrev provision : TransitionParams
provision = transition_to provisioning "runner" ""

-- The id of the next attempt is new.
unused : exists (attempt_is "f1") two.attempts ≡ false
unfolding serve run transaction exec query commit fresh_id ◌>>=◌ Operations.create create_body
    new_task insert_task first_attempt find exists count update greatest holds_issue same_issue
    bare_attempt add_attempt insert_event new_event apply_transition replayed perform source_of
    valid_source move_attempt update_task moved transition_payload can_transition truncate_runes
    transition_event_type status_text seen_key
unused = refl

transition-answers_example :
    (transition task_1 provision (good two 5 ("f1" ∷ "f2" ∷ []) 11)).0
    ≡ transition_answer task_1 provision 5 two
transition-answers_example =
    transition-answers task_1 provision two 5 0 "f1" "f2" [] (run-Wf two_tasks) unused

-- The first task is cancelled.
abbrev one_cancelled : Db
one_cancelled = run two ((Request.cancel task_1 "no longer needed", setting 9 ("f1" ∷ [])) ∷ [])

cancelled-Outcome : Outcome task_1 cancelled (some 9) none (some "no longer needed") one_cancelled
unfolding serve run transaction exec query commit fresh_id ◌>>=◌ Operations.create create_body
    new_task insert_task first_attempt find exists count update greatest holds_issue same_issue
    bare_attempt add_attempt insert_event new_event apply_transition replayed perform source_of
    valid_source move_attempt update_task moved transition_payload can_transition truncate_runes
    transition_event_type status_text seen_key Operations.cancel cancel_body lock_task
    finish_attempt is_uuid canonical
cancelled-Outcome = record {
  row = _;
  found = refl;
  status = refl;
  completed_at = refl;
  failure_code = refl;
  status_reason = refl;
}

cancelled_is_final : terminal cancelled ≡ true
unfolding terminal
cancelled_is_final = refl

executing_is_open : terminal executing ≡ false
unfolding terminal
executing_is_open = refl

executing_is_valid : valid executing ≡ true
unfolding valid
executing_is_valid = refl

abbrev retry : List (Request × Setting)
retry = (Request.transition task_1 provision, setting 20 ("f5" ∷ [])) ∷ []

final_for_good_example :
    Outcome task_1 cancelled (some 9) none (some "no longer needed") (run one_cancelled retry)
final_for_good_example =
    final_for_good task_1 cancelled (some 9) none (some "no longer needed") one_cancelled
      cancelled_is_final cancelled-Outcome retry

log_append_only_example : Extends two.events (run two retry)
log_append_only_example = log_append_only two retry

can_transition-iff-⟶_example : (can_transition queued provisioning ≡ true) ↔ (queued ⟶ provisioning)
can_transition-iff-⟶_example = can_transition-iff-⟶ queued provisioning

abbrev happy : List Status
happy =
    queued ∷ provisioning ∷ planning ∷ executing ∷ validating ∷ publishing ∷ awaiting_review
    ∷ completed ∷ []

happy-allowed : allowed created happy ≡ true
unfolding can_transition
happy-allowed = refl

completed_was_reviewed_example :
    Memᴰ executing happy
    × Memᴰ validating happy
    × Memᴰ publishing happy
    × Memᴰ awaiting_review happy
completed_was_reviewed_example = completed_was_reviewed happy happy-allowed refl

open_can_end_example :
    (can_transition executing cancelled ≡ true)
    × (rest : List Status) × (allowed executing rest ≡ true)
    × (final executing rest ≡ completed)
open_can_end_example = open_can_end executing executing_is_valid executing_is_open
