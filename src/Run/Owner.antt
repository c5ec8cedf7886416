-- ===== src/Run/Owner.antt =====
-- internal/runner/store.go: one owner per attempt, across any sequence of requests.
use agent_trail.Base.{
  ℕ, ◌≤◌, String, ◌≡◌, false, not, Option, none, some, List, [], ◌∷◌, arith, inl, inr, ℤ,
  Bool-cases,
}
use agent_trail.Text.{canonical, is_uuid}
use agent_trail.Db.{
  Db, Session, on_ok, query-eq-ok, exec-eq-ok, require-eq-ok, or_throw-eq-ok, transaction_keeps_at,
  statement_keeps, transaction,
}
use agent_trail.Store.Keeps.{
  create_keeps, transition_keeps, cancel_keeps, request_revision_keeps, append_attempt_event_keeps,
  append_event_keeps,
}
use agent_trail.Store.Records.{
  ensure_git_context_body, record_trigger_body, mark_trigger_body, with_check_run,
  with_check_run_done,
}
use agent_trail.Store.Records as Records
use agent_trail.Store.Invariant.Defs.{Wf}
use agent_trail.Store.Invariant.Operations.{unless_keeps}
use agent_trail.Lease.Defs.{Claim, claim_body, with_base, with_final, with_pull_request}
use agent_trail.Lease.Defs as Lease
use agent_trail.Lease.Held.{Held-same, Held-append, Applied-Held}
use agent_trail.Run.Defs.{
  Request, create, transition, request_revision, cancel, append_attempt_event, append_event,
  ensure_git_context, record_trigger_check_run, mark_trigger_check_run_completed, claim,
  claim_attempt, extend_lease, release_lease, record_attempt_base, record_final_commit,
  record_pull_request, serve, Setting, session, run,
}
use agent_trail.Run.Invariant.{serve-Wf}
use agent_trail.Run.Leases.{
  own_lease, HeldIn, claim_body-Held, extend-Held, release-Held, recorded-Held, base-SameLease,
  final-SameLease, pull_request-SameLease, check_run-SameLease, done-SameLease,
}

module _ (aid runner : String) (until : ℕ) where
  git_context-Held :
      (id base branch : String) (s : Session)
      → HeldIn aid runner until s.db
      → HeldIn aid runner until (Records.ensure_git_context id base branch s).1
  unfolding Records.ensure_git_context ensure_git_context_body
  git_context-Held id base branch s h =
      unless_keeps (HeldIn aid runner until) (not (is_uuid id)) _ _ s h (
        statement_keeps (HeldIn aid runner until) _ s h λ a t e. on_ok _ _ e λ u s1 e1 h1.
          on_ok _ _ h1 λ row s2 e2 h2. on_ok _ _ h2 λ v s3 e3 h3.
            let wrote = exec-eq-ok _ _ s e1 in
            let same2 = query-eq-ok _ _ s1 e2 in
            let same3 = or_throw-eq-ok _ _ s2 e3 in
            let last : t.db.attempts ≡ s.db.attempts = ground arith in rw last h)

  check_run-Held :
      (tid : String) (n : ℤ) (s : Session)
      → HeldIn aid runner until s.db
      → HeldIn aid runner until (Records.record_trigger_check_run tid n s).1
  unfolding Records.record_trigger_check_run record_trigger_body
  check_run-Held tid n s h = unless_keeps (HeldIn aid runner until) (not (is_uuid tid)) _ _ s h (
      statement_keeps (HeldIn aid runner until) _ s h λ a t e. on_ok _ _ e λ hits s1 e1 h1.
        on_ok _ _ h1 λ u s2 e2 h2.
          let same1 = query-eq-ok _ _ s e1 in
          let wrote = exec-eq-ok _ _ s1 e2 in
          let same2 = require-eq-ok _ _ s2 h2 in
          let last : t.db ≡ s2.db = ground arith in
          rw (last, wrote.0, same1.1.0)
            (Held-same _ (with_check_run n) s.db.attempts (check_run-SameLease n) h))

  check_run_done-Held :
      (a : String) (s : Session)
      → HeldIn aid runner until s.db
      → HeldIn aid runner until (Records.mark_trigger_check_run_completed a s).1
  unfolding Records.mark_trigger_check_run_completed mark_trigger_body
  check_run_done-Held a s h = unless_keeps (HeldIn aid runner until) (not (is_uuid a)) _ _ s h (
      statement_keeps (HeldIn aid runner until) _ s h λ u t e.
        let wrote = exec-eq-ok _ _ s e in
        rw wrote.0 (Held-same _ (with_check_run_done s.now) s.db.attempts (done-SameLease s.now) h))

  claiming-Held :
      (locked : List String) (other : String) (d : ℕ) (wanted : Option String) (s : Session)
      → Wf s.db
      → s.now ≤ until
      → HeldIn aid runner until s.db
      → HeldIn aid runner until (transaction (claim_body locked other d wanted) s).1
  claiming-Held locked other d wanted s wf early h =
      transaction_keeps_at (HeldIn aid runner until) _ s h λ s' r t same e.
        claim_body-Held aid runner until locked other d wanted s' (rw same.0 wf) (rw same.1 early)
          (rw same.0 h) e

  claim_attempt-Held :
      (locked : List String) (other wanted : String) (d : ℕ) (s : Session)
      → Wf s.db
      → s.now ≤ until
      → HeldIn aid runner until s.db
      → HeldIn aid runner until (Lease.claim_attempt locked other wanted d s).1
  unfolding Lease.claim_attempt
  claim_attempt-Held locked other wanted d s wf early h = elim (Bool-cases (is_uuid wanted)) [
    | inl fine ↦
        rw fine (claiming-Held locked (canonical other) d (some (canonical wanted)) s wf early h)
    | inr bad ↦ rw bad h
  ]

  -- Before it expires, a lease withstands every request but its owner's own.
  pub serve-Held :
      (r : Request) (s : Session)
      → Wf s.db
      → s.now ≤ until
      → own_lease aid runner r ≡ false
      → HeldIn aid runner until s.db
      → HeldIn aid runner until (serve r s)
  unfolding serve Lease.claim Lease.record_attempt_base Lease.record_final_commit
      Lease.record_pull_request
  serve-Held (create p) s wf early foreign h =
      create_keeps (HeldIn aid runner until) (λ cur next q u v stored. Applied-Held) (λ db t k. k)
        (λ db e k. k) (λ db a. Held-append db.attempts _) p s h
  serve-Held (transition id p) s wf early foreign h =
      transition_keeps (HeldIn aid runner until) (λ cur next q u v stored. Applied-Held)
        (λ db t k. k) (λ db e k. k) (λ db a. Held-append db.attempts _) id p s h
  serve-Held (request_revision id p) s wf early foreign h =
      request_revision_keeps (HeldIn aid runner until) (λ cur next q u v stored. Applied-Held)
        (λ db t k. k) (λ db e k. k) (λ db a. Held-append db.attempts _) id p s h
  serve-Held (cancel id reason) s wf early foreign h =
      cancel_keeps (HeldIn aid runner until) (λ cur next q u v stored. Applied-Held) (λ db t k. k)
        (λ db e k. k) (λ db a. Held-append db.attempts _) id reason s h
  serve-Held (append_attempt_event a kind source p) s wf early foreign h =
      append_attempt_event_keeps (HeldIn aid runner until) (λ cur next q u v stored. Applied-Held)
        (λ db t k. k) (λ db e k. k) (λ db x. Held-append db.attempts _) a kind source p s h
  serve-Held (append_event tid kind source p) s wf early foreign h =
      append_event_keeps (HeldIn aid runner until) (λ cur next q u v stored. Applied-Held)
        (λ db t k. k) (λ db e k. k) (λ db x. Held-append db.attempts _) tid kind source p s h
  serve-Held (ensure_git_context id base branch) s wf early foreign h =
      git_context-Held id base branch s h
  serve-Held (record_trigger_check_run tid n) s wf early foreign h = check_run-Held tid n s h
  serve-Held (mark_trigger_check_run_completed a) s wf early foreign h = check_run_done-Held a s h
  serve-Held (claim locked other d) s wf early foreign h =
      claiming-Held locked (canonical other) d none s wf early h
  serve-Held (claim_attempt locked other a d) s wf early foreign h =
      claim_attempt-Held locked other a d s wf early h
  serve-Held (extend_lease a other d) s wf early foreign h =
      extend-Held aid runner until a other d s foreign h
  serve-Held (release_lease a other) s wf early foreign h =
      release-Held aid runner until a other s foreign h
  serve-Held (record_attempt_base a sha) s wf early foreign h =
      recorded-Held aid runner until _ _ _ s (base-SameLease sha) h
  serve-Held (record_final_commit a sha) s wf early foreign h =
      recorded-Held aid runner until _ _ _ s (final-SameLease sha) h
  serve-Held (record_pull_request a n) s wf early foreign h =
      recorded-Held aid runner until _ _ _ s (pull_request-SameLease n) h

  -- Every request comes no later than the time, and none is the runner's own change of its lease.
  abbrev pub Others : List (Request × Setting) → Type 0
  Others [] = Unit
  Others ((r, e) ∷ rest) = (e.now ≤ until) × (own_lease aid runner r ≡ false) × Others rest

  pub run-Held :
      (db : Db) (rs : List (Request × Setting))
      → Wf db
      → Others rs
      → HeldIn aid runner until db
      → HeldIn aid runner until (run db rs)
  unfolding run
  run-Held db [] wf others h = h
  run-Held db ((r, e) ∷ rest) wf (early, foreign, others) h =
      run-Held (serve r (session db e)) rest (serve-Wf r (session db e) wf) others
        (serve-Held r (session db e) wf early foreign h)
