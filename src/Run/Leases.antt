-- ===== src/Run/Leases.antt =====
-- internal/runner/store.go: one owner per attempt, across any sequence of requests.
use agent_trail.Base.{
  ℕ, ◌≤◌, String, ◌≡◌, refl, sym, ◌∙◌, Bool, true, false, ◌&&◌, Option, some, List, arith, str_eq,
  eq_iff, ℤ, inl, inr,
}
use agent_trail.Base.{true≢false}
use agent_trail.Task.{Attempt}
use agent_trail.Table.{find, count-find}
use agent_trail.Text.{canonical}
use agent_trail.Db.{Db, Session, ok, exec-eq-ok, statement_keeps, statement}
use agent_trail.Store.Statements.{attempt_is}
use agent_trail.Store.Records.{with_check_run, with_check_run_done}
use agent_trail.Store.Invariant.Defs.{Wf}
use agent_trail.Lease.Defs.{
  Claim, claim_body, leased, extended, released, holds, owns, owned_by, later_than, with_base,
  with_final, with_pull_request, recorded, claimable, candidates, first_row, claim_of,
}
use agent_trail.Lease.Defs as Lease
use agent_trail.Lease.Invariant.{claim_body-eq-ok, extend_body-eq-ok, release_body-eq-ok}
use agent_trail.Lease.Held.{Holding, Held, SameLease, Held-update, Held-same, claimed_row_differs}
use agent_trail.Run.Defs.{Request, extend_lease, release_lease, run}

-- The request is the runner's own change of its lease of the attempt.
abbrev pub own_lease : String → String → Request → Bool
own_lease aid runner (extend_lease a r d) = str_eq (canonical a) aid && str_eq (canonical r) runner
own_lease aid runner (release_lease a r) = str_eq (canonical a) aid && str_eq (canonical r) runner
own_lease aid runner _ = false

leased_id : (other : String) (d now : ℕ) (a : Attempt) → (leased other d now a).id ≡ a.id
unfolding leased
leased_id other d now a = refl

extended_id : (d now : ℕ) (a : Attempt) → (extended d now a).id ≡ a.id
unfolding extended
extended_id d now a = refl

released_id : (a : Attempt) → (released a).id ≡ a.id
unfolding released
released_id a = refl

pub base-SameLease : (sha : String) → SameLease (with_base sha)
unfolding with_base
base-SameLease sha = record {
  id_same = λ a. refl;
  owner_same = λ a. refl;
  expires_same = λ a. refl;
}

pub final-SameLease : (sha : String) → SameLease (with_final sha)
unfolding with_final
final-SameLease sha = record {
  id_same = λ a. refl;
  owner_same = λ a. refl;
  expires_same = λ a. refl;
}

pub pull_request-SameLease : (n : ℤ) → SameLease (with_pull_request n)
unfolding with_pull_request
pull_request-SameLease n = record {
  id_same = λ a. refl;
  owner_same = λ a. refl;
  expires_same = λ a. refl;
}

pub check_run-SameLease : (run : ℤ) → SameLease (with_check_run run)
unfolding with_check_run
check_run-SameLease run = record {
  id_same = λ a. refl;
  owner_same = λ a. refl;
  expires_same = λ a. refl;
}

pub done-SameLease : (now : ℕ) → SameLease (with_check_run_done now)
unfolding with_check_run_done
done-SameLease now = record {
  id_same = λ a. refl;
  owner_same = λ a. refl;
  expires_same = λ a. refl;
}

module _ (aid runner : String) (until : ℕ) where
  abbrev pub HeldIn : Db → Type 0
  HeldIn db = Held aid runner until db.attempts

  pub claim_body-Held :
      (locked : List String) (other : String) (d : ℕ) (wanted : Option String) (s : Session)
      {r : Option Claim} {t : Session}
      → Wf s.db
      → s.now ≤ until
      → HeldIn s.db
      → claim_body locked other d wanted s ≡ ok (r, t)
      → HeldIn t.db
  claim_body-Held locked other d wanted s wf early h e =
      elim (claim_body-eq-ok locked other d wanted s e) [
        | inl (_, same) ↦ rw same h
        | inr (a, u, chosen, _, wrote) ↦ rw wrote (
            Held-update (attempt_is a.id) (leased other d s.now) s.db.attempts
              (leased_id other d s.now)
              (λ row found _ hit. absurd (
                claimed_row_differs s.now locked wanted s.db a u wf early h chosen (
                  sym ((eq_iff row.id a.id).0 hit)
                  ∙ (eq_iff row.id aid).0 (count-find (attempt_is aid) s.db.attempts row found).0)))
              h)
      ]

  -- A row that another runner may extend or release is not the held one.
  not_theirs :
      (a : String) (other : String) (row : Attempt)
      → (str_eq a aid && str_eq other runner) ≡ false
      → Holding runner until row
      → row.id ≡ aid
      → owns a other row ≡ false
  unfolding owns
  not_theirs a other row foreign h same =
      ground
        (arith, h.owner, eq_iff row.id a, eq_iff a aid, eq_iff runner other, eq_iff other runner)

  holds-owns :
      (a other : String) (now : ℕ) (row : Attempt)
      → holds a other now row ≡ true
      → owns a other row ≡ true
  unfolding holds owns
  holds-owns a other now row h = ground arith

  row_id :
      (attempts : List Attempt) (row : Attempt)
      → find (attempt_is aid) attempts ≡ some row
      → row.id ≡ aid
  row_id attempts row found =
      (eq_iff row.id aid).0 (count-find (attempt_is aid) attempts row found).0

  pub extend-Held :
      (a other : String) (d : ℕ) (s : Session)
      → (str_eq (canonical a) aid && str_eq (canonical other) runner) ≡ false
      → HeldIn s.db
      → HeldIn (Lease.extend_lease a other d s).1
  unfolding Lease.extend_lease
  extend-Held a other d s foreign h = statement_keeps HeldIn _ s h λ u t e.
      let (wrote, _) = extend_body-eq-ok (canonical a) (canonical other) d s e in
      rw wrote (
        Held-update _ (extended d s.now) s.db.attempts (extended_id d s.now)
          (λ row found holding hit. absurd (
            true≢false (
              sym (holds-owns (canonical a) (canonical other) s.now row hit)
              ∙ not_theirs (canonical a) (canonical other) row foreign holding
                  (row_id s.db.attempts row found))))
          h)

  pub release-Held :
      (a other : String) (s : Session)
      → (str_eq (canonical a) aid && str_eq (canonical other) runner) ≡ false
      → HeldIn s.db
      → HeldIn (Lease.release_lease a other s).1
  unfolding Lease.release_lease
  release-Held a other s foreign h = statement_keeps HeldIn _ s h λ u t e.
      let wrote = release_body-eq-ok (canonical a) (canonical other) s e in
      rw wrote (
        Held-update _ released s.db.attempts released_id
          (λ row found holding hit. absurd (
            true≢false (
              sym hit
              ∙ not_theirs (canonical a) (canonical other) row foreign holding
                  (row_id s.db.attempts row found))))
          h)

  pub recorded-Held :
      (what a : String) (f : Attempt → Attempt) (s : Session)
      → SameLease f
      → HeldIn s.db
      → HeldIn (statement (recorded what a f) s).1
  recorded-Held what a f s same h =
      statement_keeps HeldIn _ s h
        (λ u t e. let wrote = exec-eq-ok _ _ s e in rw wrote.0 (Held-same _ f s.db.attempts same h))
