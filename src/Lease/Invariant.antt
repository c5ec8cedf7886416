-- ===== src/Lease/Invariant.antt =====
-- internal/runner/store.go: the lease operations keep the tables well-formed.
use agent_trail.Base.{
  ◌+◌, ◌⊎◌, ◌<◌, Bool, ◌∙◌, ℕ, String, ◌≡◌, refl, Option, none, some, List, ℤ, arith, Bool-cases,
  inl, inr,
}
use agent_trail.Task.{Task, Attempt}
use agent_trail.Text.{canonical, is_uuid}
use agent_trail.Table.{update, count}
use agent_trail.Db.{
  Db, Session, ok, on_ok, require-eq-ok, query-eq-ok, exec-eq-ok, commit-eq-ok, transaction_keeps,
  statement_keeps, statement,
}
use agent_trail.Store.Statements.{attempt_is}
use agent_trail.Store.Invariant.Defs.{Wf}
use agent_trail.Store.Invariant.Attempts.{KeepsKeys}
use agent_trail.Store.Invariant.Records.{Wf-attempts}
use agent_trail.Lease.Defs.{
  Claim, clock, leased, claim_of, first_row, candidates, claimable, holds, owns, claim_row,
  claim_body, claim, claim_attempt, extended, extend_body, extend_lease, released, release_body,
  release_lease, with_base, with_final, with_pull_request, recorded,
}

-- The six changes of a row keep its keys and its status.
pub record Harmless (f : Attempt → Attempt) : Type 0 where
  pub keys : KeepsKeys f
  pub same : (a : Attempt) → (f a).status ≡ a.status

abbrev by_computing :
    {f : Attempt → Attempt}
    → ((a : Attempt) → (f a).id ≡ a.id)
    → ((a : Attempt) → (f a).task_id ≡ a.task_id)
    → ((a : Attempt) → (f a).number ≡ a.number)
    → ((a : Attempt) → (f a).status ≡ a.status)
    → Harmless f
by_computing i t n s = record {
  keys = record { id_kept = i; task_kept = t; number_kept = n };
  same = s;
}

leased-Harmless : (runner : String) (d now : ℕ) → Harmless (leased runner d now)
unfolding leased
leased-Harmless runner d now = by_computing (λ a. refl) (λ a. refl) (λ a. refl) (λ a. refl)

extended-Harmless : (d now : ℕ) → Harmless (extended d now)
unfolding extended
extended-Harmless d now = by_computing (λ a. refl) (λ a. refl) (λ a. refl) (λ a. refl)

released-Harmless : Harmless released
unfolding released
released-Harmless = by_computing (λ a. refl) (λ a. refl) (λ a. refl) (λ a. refl)

pub with_base-Harmless : (sha : String) → Harmless (with_base sha)
unfolding with_base
with_base-Harmless sha = by_computing (λ a. refl) (λ a. refl) (λ a. refl) (λ a. refl)

pub with_final-Harmless : (sha : String) → Harmless (with_final sha)
unfolding with_final
with_final-Harmless sha = by_computing (λ a. refl) (λ a. refl) (λ a. refl) (λ a. refl)

pub with_pull_request-Harmless : (n : ℤ) → Harmless (with_pull_request n)
unfolding with_pull_request
with_pull_request-Harmless n = by_computing (λ a. refl) (λ a. refl) (λ a. refl) (λ a. refl)

pub harmless_update :
    (f : Attempt → Attempt) (p : Attempt → Bool) {db : Db}
    → Harmless f
    → Wf db
    → Wf (record db { attempts = update p f db.attempts })
harmless_update f p h wf = Wf-attempts f p h.keys h.same wf

-- What a claim writes: nothing, or the lease of one attempt.
pub claim_row-eq-ok :
    (runner : String) (d : ℕ) (row : Option (Attempt × Task)) (s : Session) {r : Option Claim}
    {t : Session}
    → claim_row runner d row s ≡ ok (r, t)
    → ((row ≡ none) × (r ≡ none) × (t.db ≡ s.db))
      ⊎ ((a : Attempt) × (u : Task) × (row ≡ some (a, u))
          × (r ≡ some (claim_of a u (s.now + d)))
          × (t.db ≡ record (s.db) {
            attempts = update (attempt_is a.id) (leased runner d s.now) s.db.attempts;
          }))
unfolding claim_row clock
claim_row-eq-ok runner d none s h = inl (refl, ground arith, ground arith)
claim_row-eq-ok runner d (some (a, u)) s {r} {t} h = on_ok _ _ h λ v s1 e1 h1.
    on_ok _ _ h1 λ now s2 e2 h2. on_ok _ _ h2 λ w s3 e3 h3.
      let wrote = exec-eq-ok _ _ s e1 in
      let same3 = commit-eq-ok s2 e3 in inr (a, u, refl, ground arith, ground arith)

-- What `claim` has done when it returns.
pub claim_body-eq-ok :
    (locked : List String) (runner : String) (d : ℕ) (aid : Option String) (s : Session)
    {r : Option Claim} {t : Session}
    → claim_body locked runner d aid s ≡ ok (r, t)
    → ((r ≡ none) × (t.db ≡ s.db))
      ⊎ ((a : Attempt) × (u : Task) × (first_row
              (candidates (claimable s.now locked aid) s.db.tasks s.db.attempts)
            ≡ some (a, u))
          × (r ≡ some (claim_of a u (s.now + d)))
          × (t.db ≡ record (s.db) {
            attempts = update (attempt_is a.id) (leased runner d s.now) s.db.attempts;
          }))
unfolding claim_body clock
claim_body-eq-ok locked runner d aid s {r} {t} h = on_ok _ _ h λ now s1 e1 h1.
    on_ok _ _ h1 λ row s2 e2 h2.
      let start : (now ≡ s.now) × (s1 ≡ s) = (ground arith, ground arith) in
      let chosen = query-eq-ok _ _ s1 e2 in
      let back : s2.db ≡ s.db = ground arith in
      let time : s2.now ≡ s.now = ground arith in
      elim (claim_row-eq-ok runner d row s2 h2) [
        | inl (_, nothing, same) ↦ inl (nothing, same ∙ back)
        | inr (a, u, e, result, wrote) ↦
            inr (a, u, ground arith, rw (← time) result, rw (← time, ← back) wrote)
      ]

claim_body-Wf :
    (locked : List String) (runner : String) (d : ℕ) (aid : Option String) (s : Session)
    {r : Option Claim} {t : Session}
    → Wf s.db
    → claim_body locked runner d aid s ≡ ok (r, t)
    → Wf t.db
claim_body-Wf locked runner d aid s wf h = elim (claim_body-eq-ok locked runner d aid s h) [
  | inl (_, same) ↦ rw same wf
  | inr (a, u, _, _, wrote) ↦
      rw wrote (harmless_update (leased runner d s.now) _ (leased-Harmless runner d s.now) wf)
]

pub claim-Wf :
    (locked : List String) (runner : String) (d : ℕ) (s : Session)
    → Wf s.db
    → Wf (claim locked runner d s).1
unfolding claim
claim-Wf locked runner d s wf =
    transaction_keeps Wf _ s wf
      (λ s' r t same h. claim_body-Wf locked (canonical runner) d none s' (rw same wf) h)

pub claim_attempt-Wf :
    (locked : List String) (runner aid : String) (d : ℕ) (s : Session)
    → Wf s.db
    → Wf (claim_attempt locked runner aid d s).1
unfolding claim_attempt
claim_attempt-Wf locked runner aid d s wf = elim (Bool-cases (is_uuid aid)) [
  | inl good ↦ rw good (
      transaction_keeps Wf _ s wf (λ s' r t same h.
        claim_body-Wf locked (canonical runner) d (some (canonical aid)) s' (rw same wf) h))
  | inr bad ↦ rw bad wf
]

pub extend_body-eq-ok :
    (aid runner : String) (d : ℕ) (s : Session) {u : Unit {0}} {t : Session}
    → extend_body aid runner d s ≡ ok (u, t)
    → (t.db ≡ record (s.db) {
      attempts = update (holds aid runner s.now) (extended d s.now) s.db.attempts;
    })
      × (0 < count (holds aid runner s.now) s.db.attempts)
unfolding extend_body clock
extend_body-eq-ok aid runner d s {u} {t} h = on_ok _ _ h λ now s1 e1 h1. on_ok _ _ h1 λ n s2 e2 h2.
    on_ok _ _ h2 λ v s3 e3 h3.
      let start : (now ≡ s.now) × (s1 ≡ s) = (ground arith, ground arith) in
      let counted = query-eq-ok _ _ s1 e2 in
      let wrote = exec-eq-ok _ _ s2 e3 in
      let some_row = require-eq-ok _ _ s3 h3 in
      let back : s2.db ≡ s.db = ground arith in
      let time : s2.now ≡ s.now = ground arith in
      let last : t.db ≡ s3.db = ground arith in (last ∙ wrote.0 ∙ (rw (back, time)), ground arith)

pub extend_lease-Wf :
    (aid runner : String) (d : ℕ) (s : Session) → Wf s.db → Wf (extend_lease aid runner d s).1
unfolding extend_lease
extend_lease-Wf aid runner d s wf = statement_keeps Wf _ s wf (λ u t h.
    let (wrote, _) = extend_body-eq-ok (canonical aid) (canonical runner) d s h in
    rw wrote (harmless_update (extended d s.now) _ (extended-Harmless d s.now) wf))

pub release_body-eq-ok :
    (aid runner : String) (s : Session) {u : Unit {0}} {t : Session}
    → release_body aid runner s ≡ ok (u, t)
    → (t.db ≡ record (s.db) { attempts = update (owns aid runner) released s.db.attempts })
unfolding release_body
release_body-eq-ok aid runner s {u} {t} h = on_ok _ _ h λ n s1 e1 h1. on_ok _ _ h1 λ v s2 e2 h2.
    let counted = query-eq-ok _ _ s e1 in
    let wrote = exec-eq-ok _ _ s1 e2 in
    let some_row = require-eq-ok _ _ s2 h2 in
    let back : s1.db ≡ s.db = ground arith in
    let last : t.db ≡ s2.db = ground arith in last ∙ wrote.0 ∙ (rw back)

pub release_lease-Wf :
    (aid runner : String) (s : Session) → Wf s.db → Wf (release_lease aid runner s).1
unfolding release_lease
release_lease-Wf aid runner s wf = statement_keeps Wf _ s wf (λ u t h.
    let e = release_body-eq-ok (canonical aid) (canonical runner) s h in
    rw e (harmless_update released _ released-Harmless wf))

pub recorded-Wf :
    (what aid : String) (f : Attempt → Attempt) (s : Session)
    → Harmless f
    → Wf s.db
    → Wf (statement (recorded what aid f) s).1
recorded-Wf what aid f s harmless wf =
    statement_keeps Wf _ s wf
      (λ u t h. let e = exec-eq-ok _ _ s h in rw e.0 (harmless_update f _ harmless wf))
