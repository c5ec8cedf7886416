-- ===== src/Run/Invariant.antt =====
-- The tables are well-formed after any sequence of requests.
use agent_trail.Base.{ℕ, ◌≡◌, refl, List, [], ◌∷◌, bit, arith}
use agent_trail.Table.{find, count, greatest}
use agent_trail.Db.{Db, Session}
use agent_trail.Store.Invariant.Defs.{Wf, open_count, in_range}
use agent_trail.Store.Invariant.Operations.{transition-Wf, cancel-Wf, request_revision-Wf}
use agent_trail.Store.Invariant.Creation.{create-Wf}
use agent_trail.Store.Invariant.Records.{append_attempt_event-Wf, append_event-Wf}
use agent_trail.Store.Invariant.Columns.{
  ensure_git_context-Wf, record_trigger_check_run-Wf, mark_trigger_check_run_completed-Wf,
}
use agent_trail.Lease.Defs.{
  record_attempt_base, record_final_commit, record_pull_request, with_base, with_final,
  with_pull_request,
}
use agent_trail.Lease.Invariant.{
  claim-Wf, claim_attempt-Wf, extend_lease-Wf, release_lease-Wf, recorded-Wf, with_base-Harmless,
  with_final-Harmless, with_pull_request-Harmless,
}
use agent_trail.Run.Defs.{
  Request, create, transition, request_revision, cancel, append_attempt_event, append_event,
  ensure_git_context, record_trigger_check_run, mark_trigger_check_run_completed, claim,
  claim_attempt, extend_lease, release_lease, serve, Setting, session, run, empty,
}

-- Every request, by whatever statement it fails, leaves well-formed tables.
pub serve-Wf : (r : Request) (s : Session) → Wf s.db → Wf (serve r s)
unfolding serve record_attempt_base record_final_commit record_pull_request
serve-Wf (create p) s wf = create-Wf p s wf
serve-Wf (transition id p) s wf = transition-Wf id p s wf
serve-Wf (request_revision id p) s wf = request_revision-Wf id p s wf
serve-Wf (cancel id reason) s wf = cancel-Wf id reason s wf
serve-Wf (append_attempt_event aid kind source p) s wf =
    append_attempt_event-Wf aid kind source p s wf
serve-Wf (append_event tid kind source p) s wf = append_event-Wf tid kind source p s wf
serve-Wf (ensure_git_context id base branch) s wf = ensure_git_context-Wf id base branch s wf
serve-Wf (record_trigger_check_run tid n) s wf = record_trigger_check_run-Wf tid n s wf
serve-Wf (mark_trigger_check_run_completed aid) s wf = mark_trigger_check_run_completed-Wf aid s wf
serve-Wf (claim locked runner d) s wf = claim-Wf locked runner d s wf
serve-Wf (claim_attempt locked runner aid d) s wf = claim_attempt-Wf locked runner aid d s wf
serve-Wf (extend_lease aid runner d) s wf = extend_lease-Wf aid runner d s wf
serve-Wf (release_lease aid runner) s wf = release_lease-Wf aid runner s wf
serve-Wf (Request.record_attempt_base aid sha) s wf =
    recorded-Wf _ _ (with_base sha) s (with_base-Harmless sha) wf
serve-Wf (Request.record_final_commit aid sha) s wf =
    recorded-Wf _ _ (with_final sha) s (with_final-Harmless sha) wf
serve-Wf (Request.record_pull_request aid n) s wf =
    recorded-Wf _ _ (with_pull_request n) s (with_pull_request-Harmless n) wf

pub run_from-Wf : (db : Db) (rs : List (Request × Setting)) → Wf db → Wf (run db rs)
unfolding run
run_from-Wf db [] wf = wf
run_from-Wf db ((r, e) ∷ rest) wf =
    run_from-Wf (serve r (session db e)) rest (serve-Wf r (session db e) wf)

nothing_in_range : (n : ℕ) → 0 ≡ bit (in_range n 0)
nothing_in_range n = ground arith

empty-Wf : Wf empty
unfolding find count greatest open_count
empty-Wf = record {
  tasks_ok = record { unique = λ id. omega arith; issues = λ x. omega arith; rows = λ id t e. cc };
  attempts_ok = record {
    unique = λ id. omega arith;
    active_count = λ tid. refl;
    numbers = λ tid n. nothing_in_range n;
    latest = λ tid. refl;
  };
  events_ok = record { highest = λ aid. refl; dense = λ aid n. nothing_in_range n };
  owned = λ tid h. refl;
}

-- Whatever requests are served, from empty tables on, at whatever times, with whatever failing statements, the
-- tables are well-formed: task ids and attempt ids are unique, each task's phase and completion time
-- follow from its status, a task that is not final has exactly one active attempt and a final one has
-- none, a task's attempts are numbered 1, 2, … with the active one last, an attempt's events are
-- numbered 1, 2, …, and at most one open task holds an issue.
pub run-Wf : (rs : List (Request × Setting)) → Wf (run empty rs)
run-Wf rs = run_from-Wf empty rs empty-Wf
