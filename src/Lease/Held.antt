-- ===== src/Lease/Held.antt =====
-- internal/runner/store.go: an unexpired lease stays with its owner while others work on the tables.
use agent_trail.Base.{
  ℕ, ◌≤◌, String, ◌≡◌, ◌≢◌, refl, sym, ap, ◌∙◌, Bool, true, Option, some, List, ◌++◌, arith, eq_iff,
  some_inj, Bool-cases, inl, inr, if◌then◌else◌,
}
use agent_trail.Task.{Task, Attempt, TransitionParams}
use agent_trail.Table.{find, update, find-update_same, find-append, mem-find}
use agent_trail.Db.{Db, Session}
use agent_trail.Store.Statements.{attempt_is}
use agent_trail.Store.Apply.{finish_attempt, supersede_attempt, start_attempt}
use agent_trail.Store.Effect.Statements.{Moves, finishes, supersedes, starts, stays}
use agent_trail.Store.Effect.Apply.{Applied, repeated, performed}
use agent_trail.Store.Invariant.Defs.{Wf}
use agent_trail.Lease.Defs.{claimable, lapsed, candidates, first_row}
use agent_trail.Lease.Choice.{Joined, candidates_join, first_row-Every}

-- The row is leased to the runner, until the given time at least.
pub record Holding (runner : String) (until : ℕ) (a : Attempt) : Type 0 where
  pub expiry : ℕ
  pub owner : a.lease_owner ≡ some runner
  pub expires : a.lease_expires_at ≡ some expiry
  pub lasts : until ≤ expiry

-- The attempt's row is leased to the runner, until the given time at least.
pub record Held (aid runner : String) (until : ℕ) (attempts : List Attempt) : Type 0 where
  pub row : Attempt
  pub found : find (attempt_is aid) attempts ≡ some row
  pub holding : Holding runner until row

-- Two rows with the same lease columns.
pub record SameLease (f : Attempt → Attempt) : Type 0 where
  pub id_same : (a : Attempt) → (f a).id ≡ a.id
  pub owner_same : (a : Attempt) → (f a).lease_owner ≡ a.lease_owner
  pub expires_same : (a : Attempt) → (f a).lease_expires_at ≡ a.lease_expires_at

module _ {aid runner : String} {until : ℕ} where
  pub Held-update :
      (p : Attempt → Bool) (f : Attempt → Attempt) (attempts : List Attempt)
      → ((a : Attempt) → (f a).id ≡ a.id)
      → ((a : Attempt)
          → find (attempt_is aid) attempts ≡ some a
          → Holding runner until a
          → p a ≡ true
          → Holding runner until (f a))
      → Held aid runner until attempts
      → Held aid runner until (update p f attempts)
  Held-update p f attempts kept step h =
      let after : find (attempt_is aid) (update p f attempts)
          ≡ some (if p h.row then f h.row else h.row) =
        find-update_same p (attempt_is aid) f attempts (λ r. rw (kept r)) ∙ (rw h.found) in
      elim (Bool-cases (p h.row)) [
        | inl hit ↦ record {
          row = f h.row;
          found = after ∙ (rw hit);
          holding = step h.row h.found h.holding hit;
        }
        | inr miss ↦ record { row = h.row; found = after ∙ (rw miss); holding = h.holding }
      ]

  pub Held-same :
      (p : Attempt → Bool) (f : Attempt → Attempt) (attempts : List Attempt)
      → SameLease f
      → Held aid runner until attempts
      → Held aid runner until (update p f attempts)
  Held-same p f attempts same = Held-update p f attempts same.id_same (λ a found h hit. record {
    expiry = h.expiry;
    owner = same.owner_same a ∙ h.owner;
    expires = same.expires_same a ∙ h.expires;
    lasts = h.lasts;
  })

  pub Held-append : (a b : List Attempt) → Held aid runner until a → Held aid runner until (a ++ b)
  Held-append a b h = record {
    row = h.row;
    found = find-append (attempt_is aid) a b ∙ (rw h.found);
    holding = h.holding;
  }

finish-SameLease : (now : ℕ) (p : TransitionParams) → SameLease (finish_attempt now p)
unfolding finish_attempt
finish-SameLease now p = record {
  id_same = λ a. refl;
  owner_same = λ a. refl;
  expires_same = λ a. refl;
}

supersede-SameLease : (now : ℕ) → SameLease (supersede_attempt now)
unfolding supersede_attempt
supersede-SameLease now = record {
  id_same = λ a. refl;
  owner_same = λ a. refl;
  expires_same = λ a. refl;
}

start-SameLease : (now : ℕ) → SameLease (start_attempt now)
unfolding start_attempt
start-SameLease now = record {
  id_same = λ a. refl;
  owner_same = λ a. refl;
  expires_same = λ a. refl;
}

module _ {aid runner : String} {until : ℕ} where
  Moves-Held :
      {cur : Task} {p : TransitionParams} {a : Attempt} {now : ℕ} {before after : List Attempt}
      {eid : String}
      → Moves cur p a now before after eid
      → Held aid runner until before
      → Held aid runner until after
  Moves-Held {p = p} {a = a} {now = now} {before = before} (finishes _ e _) h =
      rw e (Held-same _ (finish_attempt now p) before (finish-SameLease now p) h)
  Moves-Held {p = p} {a = a} {now = now} {before = before} (supersedes _ _ _ e) h =
      rw e
        (Held-append _ _ (Held-same _ (supersede_attempt now) before (supersede-SameLease now) h))
  Moves-Held {p = p} {a = a} {now = now} {before = before} (starts _ _ e _) h =
      rw e (Held-same _ (start_attempt now) before (start-SameLease now) h)
  Moves-Held (stays _ _ e _) h = rw e h

  -- No transition of a task touches a lease.
  pub Applied-Held :
      {cur next : Task} {p : TransitionParams} {s t : Session}
      → Applied cur p s t next
      → Held aid runner until s.db.attempts
      → Held aid runner until t.db.attempts
  Applied-Held (repeated _ _ _ same _) h = rw same h
  Applied-Held (performed _ _ did) h = Moves-Held did.attempts h

  -- A claim never chooses a row that is held.
  pub claimed_row_differs :
      (now : ℕ) (locked : List String) (wanted : Option String) (db : Db) (a : Attempt) (t : Task)
      → Wf db
      → now ≤ until
      → Held aid runner until db.attempts
      → first_row (candidates (claimable now locked wanted) db.tasks db.attempts) ≡ some (a, t)
      → a.id ≢ aid
  unfolding claimable
  claimed_row_differs now locked wanted db a t wf early h chosen same =
      let (fits, _, member) =
        first_row-Every (Joined (claimable now locked wanted) db.tasks db.attempts) _ (a, t)
          (candidates_join (claimable now locked wanted) db.tasks db.attempts) chosen in
      let it : find (attempt_is aid) db.attempts ≡ some a =
        mem-find (attempt_is aid) db.attempts a (wf.attempts_ok.unique aid) member
          ((eq_iff a.id aid).1 same) in
      let row : a ≡ h.row = some_inj (sym it ∙ h.found) in
      let free : lapsed now a.lease_expires_at ≡ true = ground arith in
      let expires : a.lease_expires_at ≡ some h.holding.expiry =
        ap (λ (x : Attempt). x.lease_expires_at) row ∙ h.holding.expires in
      absurd (ground (arith, h.holding.lasts))
