-- ===== src/Lease/Dispatch.antt =====
-- internal/runner/store.go: `DispatchableAttempts` against `ClaimAttempt`.
use mathlib.Core.List.{Memᴰ}
use mathlib.Core.Path.{subst}
use agent_trail.Base.{
  ℕ, suc, ◌+◌, String, ◌≡◌, refl, sym, ap, true, false, some, List, [], ◌∷◌, map, ℤ, arith,
  Option-cases, inl, inr, eq_iff, true≢false,
}
use agent_trail.Text.{is_uuid, canonical}
use agent_trail.Task.{Task, Attempt}
use agent_trail.Db.{Session, ok, query, exec, commit, transaction, on_ok, query-eq-ok, ◌>>=◌}
use agent_trail.Store.Pages.{statement-eq-ok, order_by-Every, limited-Every}
use agent_trail.Store.Reads.{order_by, limited}
use agent_trail.Lease.Defs.{
  Claim, claim_attempt, claim_body, claim_row, claim_of, clock, claimable, candidates, first_row,
  precedes,
}
use agent_trail.Lease.Choice.{
  Every, Every-map, Joined, candidates_join, first_row-some, first_row-Every,
}
use agent_trail.Lease.Where.{Every-candidate}
use agent_trail.Lease.Lists.{
  DispatchAttempt, dispatch_of, positive_or, dispatchable, dispatchable_rows, dispatchable_attempts,
}

-- What is listed is listed of a row that the query allows.
Listed : ℤ → Session → DispatchAttempt → Type 0
Listed default_runtime s d =
    (row : Attempt × Task) × (d ≡ dispatch_of default_runtime row)
    × Joined (dispatchable s.now) s.db.tasks s.db.attempts row

map-Every :
    (P : DispatchAttempt → Type 0) (f : Attempt × Task → DispatchAttempt)
    (l : List (Attempt × Task))
    → Every (λ row. P (f row)) l
    → Every P (map f l)
map-Every P f [] h = tt
map-Every P f (x ∷ l) h = (h.0, map-Every P f l h.1)

Every-mem :
    (P : DispatchAttempt → Type 0) (l : List DispatchAttempt) (d : DispatchAttempt)
    → Memᴰ d l
    → Every P l
    → P d
Every-mem P [] d m h = elim m [ ]
Every-mem P (x ∷ l) d (Memᴰ.head same) h = rw same h.0
Every-mem P (x ∷ l) d (Memᴰ.tail m) h = Every-mem P l d m h.1

allowed-Listed :
    (default_runtime : ℤ) (s : Session)
    → Every
        (λ row. Listed default_runtime s (dispatch_of default_runtime row))
        (candidates (dispatchable s.now) s.db.tasks s.db.attempts)
unfolding Listed
allowed-Listed default_runtime s =
    Every-map _ (λ row k. (row, refl, k))
      (candidates_join (dispatchable s.now) s.db.tasks s.db.attempts)

rows-Listed :
    (default_runtime limit : ℤ) (s : Session) (listed : List DispatchAttempt)
    → (dispatchable_attempts default_runtime limit s).0 ≡ ok listed
    → Every (Listed default_runtime s) listed
unfolding dispatchable_attempts dispatchable_rows Listed clock
rows-Listed default_runtime limit s listed h =
    let (t, e) = statement-eq-ok _ s h in
    on_ok _ _ e λ now s1 e1 h1. on_ok _ _ h1 λ rows s2 e2 h2.
      let start : (now ≡ s.now) × (s1 ≡ s) = (ground arith, ground arith) in
      let selected = query-eq-ok _ _ s1 e2 in
      let got : order_by precedes (candidates (dispatchable s.now) s.db.tasks s.db.attempts)
          ≡ rows =
        ground arith in
      let last : map (dispatch_of default_runtime) (limited (positive_or 100 limit) rows) ≡ listed =
        ground arith in
      let every : Every (λ row. Listed default_runtime s (dispatch_of default_runtime row)) rows =
        subst (Every (λ row. Listed default_runtime s (dispatch_of default_runtime row))) got
          (order_by-Every precedes _ _ (allowed-Listed default_runtime s)) in
      subst (Every (Listed default_runtime s)) last (
        map-Every _ (dispatch_of default_runtime) _
          (limited-Every _ (positive_or 100 limit) rows every))

-- An attempt that the query lists may be claimed by its id.
listed-claimable :
    (now : ℕ) (id : String) (a : Attempt) (t : Task)
    → a.id ≡ id
    → dispatchable now a t ≡ true
    → claimable now [] (some id) a t ≡ true
unfolding dispatchable claimable
listed-claimable now id a t same h = let it = (eq_iff a.id id).1 same in ground arith

claimable-id :
    (now : ℕ) (id : String) (a : Attempt) (t : Task)
    → claimable now [] (some id) a t ≡ true
    → a.id ≡ id
unfolding claimable
claimable-id now id a t h = (eq_iff a.id id).0 (ground arith)

allowed : Session → String → List (Attempt × Task)
allowed s id = candidates (claimable s.now [] (some id)) s.db.tasks s.db.attempts

chosen-claim :
    (runner id : String) (duration h : ℕ) (s : Session) (a : Attempt) (t : Task)
    → is_uuid id ≡ true
    → canonical id ≡ id
    → first_row (allowed s id) ≡ some (a, t)
    → (claim_attempt [] runner id duration (record s { healthy = suc (suc (suc (suc h))) })).0
      ≡ ok (some (claim_of a t (s.now + duration)))
unfolding claim_attempt claim_body claim_row clock transaction query exec commit allowed ◌>>=◌
chosen-claim runner id duration h s a t named plain first = rw (named, plain, first) refl

-- `ClaimAttempt` gives every attempt that `DispatchableAttempts` lists to any runner that asks at that time, when the attempt's id
-- is a uuid as the database writes it, no row is locked and four statements succeed.
pub dispatchable-claim :
    (default_runtime limit : ℤ) (s : Session) (listed : List DispatchAttempt) (d : DispatchAttempt)
    → (dispatchable_attempts default_runtime limit s).0 ≡ ok listed
    → Memᴰ d listed
    → is_uuid d.attempt_id ≡ true
    → canonical d.attempt_id ≡ d.attempt_id
    → (runner : String) (duration h : ℕ)
    → (c : Claim) × ((claim_attempt [] runner d.attempt_id duration
          (record s { healthy = 4 + h })).0
        ≡ ok (some c))
      × (c.attempt_id ≡ d.attempt_id)
unfolding Listed dispatch_of allowed claim_of
dispatchable-claim default_runtime limit s listed d answered member named plain runner duration h =
    let ((a, t), same, (fits, found, stored)) =
      Every-mem (Listed default_runtime s) listed d member
        (rows-Listed default_runtime limit s listed answered) in
    let own : a.id ≡ d.attempt_id = sym (ap (λ (x : DispatchAttempt). x.attempt_id) same) in
    let four : 4 + h ≡ suc (suc (suc (suc h))) = omega arith in
    elim (Option-cases (first_row (allowed s d.attempt_id))) [
      | inl nothing ↦ absurd (
          let none_left : Every (λ row. true ≡ false) (allowed s d.attempt_id) =
            rw (first_row-some (allowed s d.attempt_id) nothing) tt in
          true≢false (
            Every-candidate (λ row. true ≡ false) (claimable s.now [] (some d.attempt_id))
              s.db.tasks s.db.attempts a t stored found
              (listed-claimable s.now d.attempt_id a t own fits) none_left))
      | inr ((b, u), first) ↦
          let (taken, _, _) =
            first_row-Every
              (Joined (claimable s.now [] (some d.attempt_id)) s.db.tasks s.db.attempts)
              (allowed s d.attempt_id) (b, u)
              (candidates_join (claimable s.now [] (some d.attempt_id)) s.db.tasks s.db.attempts)
              first in
          (
            claim_of b u (s.now + duration),
            rw four (chosen-claim runner d.attempt_id duration h s b u named plain first),
            claimable-id s.now d.attempt_id b u taken,
          )
    ]
