-- ===== src/Lease/Where.antt =====
-- internal/runner/store.go: the rows that `claim` may take, and their order, said without the query.
use mathlib.Core.List.{Memᴰ}
use agent_trail.Base.{
  ℕ, ◌≤◌, ◌<◌, String, ◌⊎◌, ◌≡◌, refl, ap, Bool, true, false, Option, none, some, List, [], ◌∷◌, ℤ,
  pos, negsuc, int_leb, int_eq, inl, inr, arith, Bool-cases, Option-cases,
}
use agent_trail.Status.{
  Status, created, queued, provisioning, planning, executing, validating, publishing,
  awaiting_review, revision_requested, completed, failed, cancelled, timed_out, unknown,
}
use agent_trail.Status.Graph.{
  IsWorking, in_provisioning, in_planning, in_executing, in_validating, in_publishing,
}
use agent_trail.Task.{Task, Attempt, active, superseded, ended, AttemptStatus}
use agent_trail.Table.{find}
use agent_trail.Store.Statements.{task_is, is_active}
use agent_trail.Lease.Defs.{claimable_status, claimable, lapsed, among, candidates, precedes}
use agent_trail.Lease.Choice.{Every}

-- Work is to be done on the task: it is queued, a runner is at it, or it awaits a review without a repository.
abbrev pub HasWork : Task → Type 0
HasWork t =
    (t.status ≡ queued)
    ⊎ IsWorking t.status
    ⊎ ((t.status ≡ awaiting_review) × (t.repository_id ≡ none))

-- The attempt is active, its lease has run out, no other transaction has locked it, and there is work on its task.
pub record IsFree (now : ℕ) (locked : List String) (a : Attempt) (t : Task) : Type 0 where
  pub is_active : a.status ≡ active
  pub has_lapsed : (at : ℕ) → a.lease_expires_at ≡ some at → at < now
  pub has_work : HasWork t
  pub is_unlocked : among a.id locked ≡ false

-- The first task has the higher priority, or the same and is not the younger one.
abbrev pub IsAhead : Task → Task → Type 0
IsAhead t u =
    (int_leb t.priority u.priority ≡ false)
    ⊎ ((t.priority ≡ u.priority) × (t.created_at ≤ u.created_at))

pub int_eq-eq : (a b : ℤ) → int_eq a b ≡ true → a ≡ b
int_eq-eq (pos m) (pos n) h = ap pos (ground arith)
int_eq-eq (pos m) (negsuc n) h = absurd cc
int_eq-eq (negsuc m) (pos n) h = absurd cc
int_eq-eq (negsuc m) (negsuc n) h = ap negsuc (ground arith)

int_less : (a b : ℤ) → int_eq a b ≡ false → int_leb b a ≡ true → int_leb a b ≡ false
int_less a b h k = ground arith

pub precedes-IsAhead : (a b : Attempt) (t u : Task) → precedes (a, t) (b, u) ≡ true → IsAhead t u
unfolding precedes
precedes-IsAhead a b t u h = elim (Bool-cases (int_eq t.priority u.priority)) [
  | inl same ↦ let q = rw same at h in inr (int_eq-eq t.priority u.priority same, ground arith)
  | inr other ↦ let q = rw other at h in inl (int_less t.priority u.priority other q)
]

working_claimable : (t : Task) (s : Status) → IsWorking s → t.status ≡ s → claimable_status t ≡ true
unfolding claimable_status
working_claimable t _ in_provisioning e = rw e refl
working_claimable t _ in_planning e = rw e refl
working_claimable t _ in_executing e = rw e refl
working_claimable t _ in_validating e = rw e refl
working_claimable t _ in_publishing e = rw e refl

HasWork-claimable : (t : Task) → HasWork t → claimable_status t ≡ true
unfolding claimable_status
HasWork-claimable t (inl e) = rw e refl
HasWork-claimable t (inr (inl w)) = working_claimable t t.status w refl
HasWork-claimable t (inr (inr (e, f))) = rw (e, f) refl

claimable-HasWork :
    (t : Task) (s : Status) (r : Option String)
    → t.status ≡ s
    → t.repository_id ≡ r
    → claimable_status t ≡ true
    → HasWork t
unfolding claimable_status
claimable-HasWork t queued r e f h = inl e
claimable-HasWork t provisioning r e f h = inr (inl (rw e in_provisioning))
claimable-HasWork t planning r e f h = inr (inl (rw e in_planning))
claimable-HasWork t executing r e f h = inr (inl (rw e in_executing))
claimable-HasWork t validating r e f h = inr (inl (rw e in_validating))
claimable-HasWork t publishing r e f h = inr (inl (rw e in_publishing))
claimable-HasWork t awaiting_review none e f h = inr (inr (e, f))
claimable-HasWork t awaiting_review (some x) e f h = absurd (let q = rw (e, f) at h in cc)
claimable-HasWork t created r e f h = absurd (let q = rw e at h in cc)
claimable-HasWork t revision_requested r e f h = absurd (let q = rw e at h in cc)
claimable-HasWork t completed r e f h = absurd (let q = rw e at h in cc)
claimable-HasWork t failed r e f h = absurd (let q = rw e at h in cc)
claimable-HasWork t cancelled r e f h = absurd (let q = rw e at h in cc)
claimable-HasWork t timed_out r e f h = absurd (let q = rw e at h in cc)
claimable-HasWork t (unknown x) r e f h = absurd (let q = rw e at h in cc)

active-status : (s : AttemptStatus) → is_active s ≡ true → s ≡ active
active-status active h = refl
active-status superseded h = absurd cc
active-status (ended x) h = absurd cc

lapsed-before : (now : ℕ) (o : Option ℕ) (at : ℕ) → lapsed now o ≡ true → o ≡ some at → at < now
lapsed-before now none at h e = absurd cc
lapsed-before now (some x) at h e = ground arith

before-lapsed : (now : ℕ) (o : Option ℕ) → ((at : ℕ) → o ≡ some at → at < now) → lapsed now o ≡ true
before-lapsed now none h = refl
before-lapsed now (some x) h = let early = h x refl in ground arith

pub claimable-IsFree :
    (now : ℕ) (locked : List String) (wanted : Option String) (a : Attempt) (t : Task)
    → claimable now locked wanted a t ≡ true
    → IsFree now locked a t
unfolding claimable
claimable-IsFree now locked wanted a t h = record {
  is_active = active-status a.status (ground arith);
  has_lapsed = λ at e. lapsed-before now a.lease_expires_at at (ground arith) e;
  has_work = claimable-HasWork t t.status t.repository_id refl refl (ground arith);
  is_unlocked = ground arith;
}

pub IsFree-claimable :
    (now : ℕ) (locked : List String) (a : Attempt) (t : Task)
    → IsFree now locked a t
    → claimable now locked none a t ≡ true
unfolding claimable
IsFree-claimable now locked a t free =
    let live : is_active a.status ≡ true = rw free.is_active refl in
    let over = before-lapsed now a.lease_expires_at free.has_lapsed in
    let work = HasWork-claimable t free.has_work in rw (live, over, work, free.is_unlocked) refl

-- What holds of all candidates holds of every attempt with a task that passes the test.
pub Every-candidate :
    (P : Attempt × Task → Type 0) (p : Attempt → Task → Bool) (tasks : List Task)
    (attempts : List Attempt) (a : Attempt) (t : Task)
    → Memᴰ a attempts
    → find (task_is a.task_id) tasks ≡ some t
    → p a t ≡ true
    → Every P (candidates p tasks attempts)
    → P (a, t)
unfolding candidates
Every-candidate P p tasks [] a t m found fits all = elim m [ ]
Every-candidate P p tasks (x ∷ attempts) a t (Memᴰ.head same) found fits all =
    let here : Every P (candidates p tasks (a ∷ attempts)) = rw same all in
    (rw (found, fits) at here).0
Every-candidate P p tasks (x ∷ attempts) a t (Memᴰ.tail m) found fits all =
    Every-candidate P p tasks attempts a t m found fits
      (elim (Option-cases (find (task_is x.task_id) tasks)) [
        | inl missing ↦ rw missing at all
        | inr (u, there) ↦ elim (Bool-cases (p x u)) [
          | inl fit ↦ (rw (there, fit) at all).1
          | inr unfit ↦ rw (there, unfit) at all
        ]
      ])
