-- ===== src/Run/Exclusive.antt =====
-- internal/runner/store.go: `Claim` and `ClaimAttempt`, what they give and what they exclude.
use mathlib.Core.List.{Memᴰ}
use agent_trail.Base.{
  ℕ, ◌+◌, ◌≤◌, String, ◌≡◌, ◌≢◌, refl, ◌∙◌, Bool-cases, none, some, List, Option, arith, inl, inr,
  some_inj, eq_refl,
}
use agent_trail.Text.{is_uuid, canonical}
use agent_trail.Task.{Task, Attempt}
use agent_trail.Table.{find, update, find-update_same, mem-find}
use agent_trail.Db.{Db, Session, ok, transaction, transaction-eq-ok}
use agent_trail.Store.Operations.{Operation}
use agent_trail.Store.Statements.{task_is, attempt_is}
use agent_trail.Store.Invariant.Defs.{Wf}
use agent_trail.Lease.Defs.{
  Claim, claim, claim_attempt, claim_body, claimable, candidates, first_row, claim_of, leased,
}
use agent_trail.Lease.Choice.{
  Every, Every-map, Joined, candidates_join, first_row-Every, first_row-precedes,
}
use agent_trail.Lease.Where.{
  IsFree, IsAhead, precedes-IsAhead, claimable-IsFree, IsFree-claimable, Every-candidate,
}
use agent_trail.Lease.Invariant.{claim_body-eq-ok, claim-Wf, claim_attempt-Wf}
use agent_trail.Lease.Held.{Holding, Held, claimed_row_differs}
use agent_trail.Run.Defs.{Request, Setting, run}
use agent_trail.Run.Invariant.{run_from-Wf}
use agent_trail.Run.Leases.{HeldIn}
use agent_trail.Run.Owner.{Others, run-Held}

-- `Claim`, or `ClaimAttempt` of the given attempt.
abbrev pub claim_by : Option String → List String → String → ℕ → Operation (Option Claim)
claim_by none locked runner d = claim locked runner d
claim_by (some aid) locked runner d = claim_attempt locked runner aid d

-- What a claim that gives one has found and written.
record Claimed (locked : List String) (runner : String) (d : ℕ) (wanted : Option String)
    (s : Session) (c : Claim) (after : Db) : Type 0 where
  attempt : Attempt
  task : Task
  chosen :
      first_row (candidates (claimable s.now locked wanted) s.db.tasks s.db.attempts)
      ≡ some (attempt, task)
  given : c ≡ claim_of attempt task (s.now + d)
  wrote : after ≡ record (s.db) {
    attempts = update (attempt_is attempt.id) (leased runner d s.now) s.db.attempts;
  }

claiming-Claimed :
    (locked : List String) (runner : String) (d : ℕ) (wanted : Option String) (s : Session)
    (c : Claim)
    → (transaction (claim_body locked runner d wanted) s).0 ≡ ok (some c)
    → Claimed locked runner d wanted s c (transaction (claim_body locked runner d wanted) s).1
claiming-Claimed locked runner d wanted s c h =
    transaction-eq-ok (claim_body locked runner d wanted) s h λ s' t same last e.
      elim (claim_body-eq-ok locked runner d wanted s' e) [
        | inl (nothing, _) ↦ absurd cc
        | inr (a, u, chosen, result, wrote) ↦ record {
          attempt = a;
          task = u;
          chosen = rw (← same.0, ← same.1) chosen;
          given = some_inj result ∙ (rw same.1);
          wrote = last ∙ wrote ∙ (rw (same.0, same.1));
        }
      ]

-- What it was, the claim has taken a row that the query allows.
claim_by-Claimed :
    (which : Option String) (locked : List String) (runner : String) (d : ℕ) (s : Session)
    (c : Claim)
    → (claim_by which locked runner d s).0 ≡ ok (some c)
    → (wanted : Option String) × Claimed locked
        (canonical runner)
        d
        wanted
        s
        c
        (claim_by which locked runner d s).1
unfolding claim claim_attempt
claim_by-Claimed none locked runner d s c h =
    (none, claiming-Claimed locked (canonical runner) d none s c h)
claim_by-Claimed (some aid) locked runner d s c h = elim (Bool-cases (is_uuid aid)) [
  | inl named ↦ (
    some (canonical aid),
    rw named
        (claiming-Claimed locked (canonical runner) d (some (canonical aid)) s c (rw named at h)),
  )
  | inr bad ↦ absurd (let q = rw bad at h in cc)
]

claim_by-Wf :
    (which : Option String) (locked : List String) (runner : String) (d : ℕ) (s : Session)
    → Wf s.db
    → Wf (claim_by which locked runner d s).1
claim_by-Wf none locked runner d s wf = claim-Wf locked runner d s wf
claim_by-Wf (some aid) locked runner d s wf = claim_attempt-Wf locked runner aid d s wf

leased-keeps_id :
    (runner : String) (d now : ℕ) (id : String) (a : Attempt)
    → attempt_is id (leased runner d now a) ≡ attempt_is id a
unfolding leased
leased-keeps_id runner d now id a = refl

leased-Holding :
    (runner : String) (d now : ℕ) (a : Attempt) → Holding runner (now + d) (leased runner d now a)
unfolding leased
leased-Holding runner d now a = record {
  expiry = now + d;
  owner = refl;
  expires = refl;
  lasts = omega arith;
}

claim_of-id : (a : Attempt) (t : Task) (expires : ℕ) → (claim_of a t expires).attempt_id ≡ a.id
unfolding claim_of
claim_of-id a t expires = refl

-- A claimed row is held by the claimer until the lease's end.
Claimed-Held :
    (locked : List String) (runner : String) (d : ℕ) (wanted : Option String) (s : Session)
    (c : Claim) (after : Db)
    → Wf s.db
    → Claimed locked runner d wanted s c after
    → Held c.attempt_id runner (s.now + d) after.attempts
Claimed-Held locked runner d wanted s c after wf did =
    let (_, _, member) =
      first_row-Every (Joined (claimable s.now locked wanted) s.db.tasks s.db.attempts) _
        (did.attempt, did.task)
        (candidates_join (claimable s.now locked wanted) s.db.tasks s.db.attempts) did.chosen in
    let there : find (attempt_is did.attempt.id) s.db.attempts ≡ some did.attempt =
      mem-find (attempt_is did.attempt.id) s.db.attempts did.attempt
        (wf.attempts_ok.unique did.attempt.id) member (eq_refl did.attempt.id) in
    let shifted =
      find-update_same (attempt_is did.attempt.id) (attempt_is did.attempt.id)
        (leased runner d s.now) s.db.attempts (leased-keeps_id runner d s.now did.attempt.id) in
    let after_it : find (attempt_is did.attempt.id) after.attempts
        ≡ some (leased runner d s.now did.attempt) =
      rw (did.wrote, shifted, there, eq_refl did.attempt.id) refl in
    record {
      row = leased runner d s.now did.attempt;
      found = rw (did.given, claim_of-id did.attempt did.task (s.now + d)) after_it;
      holding = leased-Holding runner d s.now did.attempt;
    }

-- After a claim on well-formed tables, by `Claim` or by `ClaimAttempt`: while its lease runs, and whatever requests are served
-- in between but for the claimer's own extension or release of it, no `Claim` and no `ClaimAttempt` by anyone gives the same attempt.
pub lease_exclusive :
    (which : Option String) (locked : List String) (runner : String) (d : ℕ) (s : Session)
    (c : Claim)
    → Wf s.db
    → (claim_by which locked runner d s).0 ≡ ok (some c)
    → (rs : List (Request × Setting)) → Others c.attempt_id (canonical runner) (s.now + d) rs
    → (which_later : Option String) (locked_later : List String) (other : String) (d_later : ℕ)
      (t : Session) (c_later : Claim)
    → t.db ≡ run (claim_by which locked runner d s).1 rs
    → t.now ≤ s.now + d
    → (claim_by which_later locked_later other d_later t).0 ≡ ok (some c_later)
    → c_later.attempt_id ≢ c.attempt_id
lease_exclusive which locked runner d s c wf first rs others which_later locked_later other d_later
      t c_later reached early second =
    let start : Wf (claim_by which locked runner d s).1 = claim_by-Wf which locked runner d s wf in
    let (wanted, taken) = claim_by-Claimed which locked runner d s c first in
    let held : HeldIn c.attempt_id (canonical runner) (s.now + d)
        (run (claim_by which locked runner d s).1 rs) =
      run-Held c.attempt_id (canonical runner) (s.now + d) (claim_by which locked runner d s).1 rs
        start others (Claimed-Held locked (canonical runner) d wanted s c _ wf taken) in
    let (wanted_later, did) =
      claim_by-Claimed which_later locked_later other d_later t c_later second in
    let distinct =
      claimed_row_differs {aid = c.attempt_id} {runner = canonical runner} {until = s.now + d} t.now
        locked_later wanted_later t.db did.attempt did.task (rw reached (run_from-Wf _ rs start))
        early (rw reached held) did.chosen in
    rw (did.given, claim_of-id did.attempt did.task (t.now + d_later)) distinct

-- `Claim` gives an attempt that is stored and free: it is active, its lease has run out, no other transaction has locked it,
-- and there is work on its task. Every other stored attempt that is free stands behind it: its task has
-- a lower priority, or the same priority and is not older.
pub claim-first :
    (locked : List String) (runner : String) (d : ℕ) (s : Session) (c : Claim)
    → (claim locked runner d s).0 ≡ ok (some c)
    → (a : Attempt) × (t : Task) × (c ≡ claim_of a t (s.now + d))
      × Memᴰ a s.db.attempts
      × (find (task_is a.task_id) s.db.tasks ≡ some t)
      × IsFree s.now locked a t
      × ((b : Attempt) (u : Task)
          → Memᴰ b s.db.attempts
          → find (task_is b.task_id) s.db.tasks ≡ some u
          → IsFree s.now locked b u
          → IsAhead t u)
unfolding claim
claim-first locked runner d s c h =
    let did = claiming-Claimed locked (canonical runner) d none s c h in
    let p = claimable s.now locked none in
    let (fits, found, member) =
      first_row-Every (Joined p s.db.tasks s.db.attempts) _ (did.attempt, did.task)
        (candidates_join p s.db.tasks s.db.attempts) did.chosen in
    let ahead : Every (λ row. IsAhead did.task row.1) (candidates p s.db.tasks s.db.attempts) =
      Every-map (candidates p s.db.tasks s.db.attempts)
        (λ row k. precedes-IsAhead did.attempt row.0 did.task row.1 k)
        (first_row-precedes _ (did.attempt, did.task) did.chosen) in
    (
      did.attempt,
      did.task,
      did.given,
      member,
      found,
      claimable-IsFree s.now locked none did.attempt did.task fits,
      λ b u m e free.
          Every-candidate (λ row. IsAhead did.task row.1) p s.db.tasks s.db.attempts b u m e
            (IsFree-claimable s.now locked b u free) ahead,
    )
