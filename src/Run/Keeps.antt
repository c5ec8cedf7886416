-- ===== src/Run/Keeps.antt =====
-- internal/task/store.go and internal/runner/store.go: what the writes keep, any sequence of
-- requests keeps.
use agent_trail.Base.{
  ℕ, String, ◌≡◌, not, Option, none, some, List, [], ◌∷◌, ◌++◌, arith, ℤ, inl, inr, Bool-cases,
}
use agent_trail.Task.{Task, Attempt, Event, TransitionParams}
use agent_trail.Text.{canonical, is_uuid}
use agent_trail.Table.{find, update}
use agent_trail.Db.{
  Db, Session, on_ok, query-eq-ok, exec-eq-ok, require-eq-ok, or_throw-eq-ok, transaction,
  transaction_keeps, statement_keeps, statement,
}
use agent_trail.Store.Statements.{task_is}
use agent_trail.Store.Effect.Apply.{Applied}
use agent_trail.Store.Invariant.Operations.{unless_keeps}
use agent_trail.Store.Keeps.{
  create_keeps, transition_keeps, cancel_keeps, request_revision_keeps, append_attempt_event_keeps,
  append_event_keeps,
}
use agent_trail.Store.Records.{
  ensure_git_context_body, record_trigger_body, mark_trigger_body, with_git_context,
}
use agent_trail.Store.Records as Records
use agent_trail.Lease.Defs.{claim_body, recorded}
use agent_trail.Lease.Defs as Lease
use agent_trail.Lease.Invariant.{claim_body-eq-ok, extend_body-eq-ok, release_body-eq-ok}
use agent_trail.Run.Defs.{
  Request, create, transition, request_revision, cancel, append_attempt_event, append_event,
  ensure_git_context, record_trigger_check_run, mark_trigger_check_run_completed, claim,
  claim_attempt, extend_lease, release_lease, record_attempt_base, record_final_commit,
  record_pull_request, serve, Setting, session, run,
}

module _ (P : Db → Type 0)
    (applied : (cur next : Task) (p : TransitionParams) (s t : Session)
      → find (task_is cur.id) s.db.tasks ≡ some cur
      → Applied cur p s t next
      → P s.db
      → P t.db)
    (new_row : (db : Db) (t : Task) → P db → P (record db { tasks = db.tasks ++ t ∷ [] }))
    (new_event : (db : Db) (e : Event) → P db → P (record db { events = db.events ++ e ∷ [] }))
    (git_context : (now : ℕ) (id base branch : String) (db : Db)
      → P db
      → P (record db { tasks = update (task_is id) (with_git_context now base branch) db.tasks }))
    (attempts_only : (db : Db) (attempts : List Attempt)
      → P db
      → P (record db { attempts = attempts })) where
  git_context_keeps :
      (id base branch : String) (s : Session)
      → P s.db
      → P (Records.ensure_git_context id base branch s).1
  unfolding Records.ensure_git_context ensure_git_context_body
  git_context_keeps id base branch s h = unless_keeps P (not (is_uuid id)) _ _ s h (
      statement_keeps P _ s h λ a t e. on_ok _ _ e λ u s1 e1 h1. on_ok _ _ h1 λ row s2 e2 h2.
        on_ok _ _ h2 λ v s3 e3 h3.
          let wrote = exec-eq-ok _ _ s e1 in
          let same2 = query-eq-ok _ _ s1 e2 in
          let same3 = or_throw-eq-ok _ _ s2 e3 in
          let last : t.db ≡ record (s.db) {
            tasks = update (task_is (canonical id)) (with_git_context s.now base branch) s.db.tasks;
          } =
            ground arith in
          rw last (git_context s.now (canonical id) base branch s.db h))

  check_run_keeps :
      (tid : String) (n : ℤ) (s : Session) → P s.db → P (Records.record_trigger_check_run tid n s).1
  unfolding Records.record_trigger_check_run record_trigger_body
  check_run_keeps tid n s h = unless_keeps P (not (is_uuid tid)) _ _ s h (
      statement_keeps P _ s h λ a t e. on_ok _ _ e λ hits s1 e1 h1. on_ok _ _ h1 λ u s2 e2 h2.
        let same1 = query-eq-ok _ _ s e1 in
        let wrote = exec-eq-ok _ _ s1 e2 in
        let same2 = require-eq-ok _ _ s2 h2 in
        let last : t.db ≡ s2.db = ground arith in
        rw (last, wrote.0, same1.1.0) (attempts_only s.db _ h))

  check_run_done_keeps :
      (aid : String) (s : Session) → P s.db → P (Records.mark_trigger_check_run_completed aid s).1
  unfolding Records.mark_trigger_check_run_completed mark_trigger_body
  check_run_done_keeps aid s h = unless_keeps P (not (is_uuid aid)) _ _ s h (
      statement_keeps P _ s h
        λ u t e. let wrote = exec-eq-ok _ _ s e in rw wrote.0 (attempts_only s.db _ h))

  claiming_keeps :
      (locked : List String) (runner : String) (d : ℕ) (wanted : Option String) (s : Session)
      → P s.db
      → P (transaction (claim_body locked runner d wanted) s).1
  claiming_keeps locked runner d wanted s h = transaction_keeps P _ s h λ s' r t same e.
      elim (claim_body-eq-ok locked runner d wanted s' e) [
        | inl (_, still) ↦ rw (still, same) h
        | inr (a, u, _, _, wrote) ↦ rw (wrote, same) (attempts_only s.db _ h)
      ]

  claim_attempt_keeps :
      (locked : List String) (runner aid : String) (d : ℕ) (s : Session)
      → P s.db
      → P (Lease.claim_attempt locked runner aid d s).1
  unfolding Lease.claim_attempt
  claim_attempt_keeps locked runner aid d s h = elim (Bool-cases (is_uuid aid)) [
    | inl good ↦ rw good (claiming_keeps locked (canonical runner) d (some (canonical aid)) s h)
    | inr bad ↦ rw bad h
  ]

  extend_keeps :
      (aid runner : String) (d : ℕ) (s : Session) → P s.db → P (Lease.extend_lease aid runner d s).1
  unfolding Lease.extend_lease
  extend_keeps aid runner d s h = statement_keeps P _ s h (λ u t e.
      let (wrote, _) = extend_body-eq-ok (canonical aid) (canonical runner) d s e in
      rw wrote (attempts_only s.db _ h))

  release_keeps :
      (aid runner : String) (s : Session) → P s.db → P (Lease.release_lease aid runner s).1
  unfolding Lease.release_lease
  release_keeps aid runner s h = statement_keeps P _ s h (λ u t e.
      let wrote = release_body-eq-ok (canonical aid) (canonical runner) s e in
      rw wrote (attempts_only s.db _ h))

  recorded_keeps :
      (what aid : String) (f : Attempt → Attempt) (s : Session)
      → P s.db
      → P (statement (recorded what aid f) s).1
  recorded_keeps what aid f s h =
      statement_keeps P _ s h
        (λ u t e. let wrote = exec-eq-ok _ _ s e in rw wrote.0 (attempts_only s.db _ h))

  pub serve_keeps : (r : Request) (s : Session) → P s.db → P (serve r s)
  unfolding serve Lease.claim Lease.record_attempt_base Lease.record_final_commit
      Lease.record_pull_request
  serve_keeps (create p) s h =
      create_keeps P applied new_row new_event (λ db a. attempts_only db _) p s h
  serve_keeps (transition id p) s h =
      transition_keeps P applied new_row new_event (λ db a. attempts_only db _) id p s h
  serve_keeps (request_revision id p) s h =
      request_revision_keeps P applied new_row new_event (λ db a. attempts_only db _) id p s h
  serve_keeps (cancel id reason) s h =
      cancel_keeps P applied new_row new_event (λ db a. attempts_only db _) id reason s h
  serve_keeps (append_attempt_event a kind source p) s h =
      append_attempt_event_keeps P applied new_row new_event (λ db x. attempts_only db _) a kind
        source p s h
  serve_keeps (append_event tid kind source p) s h =
      append_event_keeps P applied new_row new_event (λ db x. attempts_only db _) tid kind source p
        s h
  serve_keeps (ensure_git_context id base branch) s h = git_context_keeps id base branch s h
  serve_keeps (record_trigger_check_run tid n) s h = check_run_keeps tid n s h
  serve_keeps (mark_trigger_check_run_completed a) s h = check_run_done_keeps a s h
  serve_keeps (claim locked runner d) s h = claiming_keeps locked (canonical runner) d none s h
  serve_keeps (claim_attempt locked runner a d) s h = claim_attempt_keeps locked runner a d s h
  serve_keeps (extend_lease a runner d) s h = extend_keeps a runner d s h
  serve_keeps (release_lease a runner) s h = release_keeps a runner s h
  serve_keeps (record_attempt_base a sha) s h = recorded_keeps _ _ _ s h
  serve_keeps (record_final_commit a sha) s h = recorded_keeps _ _ _ s h
  serve_keeps (record_pull_request a n) s h = recorded_keeps _ _ _ s h

  pub run_keeps : (db : Db) (rs : List (Request × Setting)) → P db → P (run db rs)
  unfolding run
  run_keeps db [] h = h
  run_keeps db ((r, e) ∷ rest) h =
      run_keeps (serve r (session db e)) rest (serve_keeps r (session db e) h)
