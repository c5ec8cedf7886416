-- ===== src/Store/Invariant/Attempts.antt =====
-- The three changes of the attempts keep them numbered, with one active at the end.
use agent_trail.Base.{
  ℕ, ◌+◌, ◌≤◌, String, ◌≡◌, sym, Bool, true, false, some, List, bit, arith, str_eq, eq_iff, eq_refl,
  ◌∙◌,
}
use agent_trail.Task.{Attempt}
use agent_trail.Table.{
  find, count, update, count-update, count-update_same, count-update_le, count_of_found,
  unique_find, count-find,
}
use agent_trail.Store.Statements.{attempt_is, active_of, of_task, is_active}
use agent_trail.Store.Invariant.Defs.{AttemptsOk, numbered, stale}

-- A change of a row that keeps its key, its task and its number.
pub record KeepsKeys (f : Attempt → Attempt) : Type 0 where
  pub id_kept : (a : Attempt) → (f a).id ≡ a.id
  pub task_kept : (a : Attempt) → (f a).task_id ≡ a.task_id
  pub number_kept : (a : Attempt) → (f a).number ≡ a.number

module _ (f : Attempt → Attempt) (keys : KeepsKeys f) (p : Attempt → Bool)
    (attempts : List Attempt) where
  unique_kept :
      (id : String) → count (attempt_is id) (update p f attempts) ≡ count (attempt_is id) attempts
  unique_kept id = count-update_same p _ f attempts (λ r. rw (keys.id_kept r))

  pub of_task_kept :
      (tid : String) → count (of_task tid) (update p f attempts) ≡ count (of_task tid) attempts
  of_task_kept tid = count-update_same p _ f attempts (λ r. rw (keys.task_kept r))

  numbers_kept :
      (tid : String) (n : ℕ)
      → count (numbered tid n) (update p f attempts) ≡ count (numbered tid n) attempts
  numbers_kept tid n =
      count-update_same p _ f attempts (λ r. rw (keys.task_kept r, keys.number_kept r))

  -- An attempt that stops being active, or stays as it is, is not made stale.
  module _ (lowers : (a : Attempt) → bit (is_active (f a).status) ≤ bit (is_active a.status)) where
    stale_kept :
        (tid : String) (k : ℕ)
        → count (stale tid k) (update p f attempts) ≤ count (stale tid k) attempts
    stale_kept tid k =
        count-update_le p _ f attempts
          (λ r. rw (keys.task_kept r, keys.number_kept r) (ground (arith, lowers r)))

    -- The other parts of the invariant, whatever is active afterwards.
    pub lowered :
        {opens opens' : String → ℕ}
        → AttemptsOk opens attempts
        → ((tid : String) → count (active_of tid) (update p f attempts) ≡ opens' tid)
        → AttemptsOk opens' (update p f attempts)
    lowered ok act = record {
      unique = λ id. rw (unique_kept id) (ok.unique id);
      active_count = act;
      numbers = λ tid n. rw (numbers_kept tid n, of_task_kept tid) (ok.numbers tid n);
      latest = λ tid.
          rw (of_task_kept tid)
            (omega (arith, stale_kept tid (count (of_task tid) attempts), ok.latest tid));
    }

-- A change that keeps the status too keeps the invariant.
pub AttemptsOk-update :
    (f : Attempt → Attempt) (p : Attempt → Bool) (attempts : List Attempt) {opens : String → ℕ}
    → KeepsKeys f
    → ((a : Attempt) → (f a).status ≡ a.status)
    → AttemptsOk opens attempts
    → AttemptsOk opens (update p f attempts)
AttemptsOk-update f p attempts keys same ok =
    lowered f keys p attempts (λ a. rw (same a) (omega arith)) ok
      (λ tid.
        count-update_same p (active_of tid) f attempts (λ r. rw (keys.task_kept r, same r))
        ∙ ok.active_count tid)

pub AttemptsOk-opens :
    {opens opens' : String → ℕ} {attempts : List Attempt}
    → ((s : String) → opens' s ≡ opens s)
    → AttemptsOk opens attempts
    → AttemptsOk opens' attempts
AttemptsOk-opens h ok = record {
  unique = ok.unique;
  active_count = λ s. ok.active_count s ∙ sym (h s);
  numbers = ok.numbers;
  latest = ok.latest;
}

module _ (f : Attempt → Attempt) (keys : KeepsKeys f)
    (ends : (a : Attempt) → is_active (f a).status ≡ false) (attempts : List Attempt)
    {opens : String → ℕ} (ok : AttemptsOk opens attempts) (tid : String) (a : Attempt)
    (found : find (active_of tid) attempts ≡ some a) where
  -- The row that the task's active attempt is updated by.
  pub found_by_id : find (attempt_is a.id) attempts ≡ some a
  found_by_id =
      unique_find (attempt_is a.id) (active_of tid) attempts a (ok.unique a.id) found (eq_refl a.id)

  pub its_task : (active_of tid a) ≡ true
  its_task = (count-find (active_of tid) attempts a found).0

  pub active_after :
      (s : String)
      → count (active_of s) (update (attempt_is a.id) f attempts) + bit (str_eq tid s) ≡ opens s
  active_after s = ground (
    arith,
    count-update (attempt_is a.id) (active_of s) f attempts a (ok.unique a.id) found_by_id,
    ok.active_count s,
    ends a,
    its_task,
    eq_iff a.task_id tid,
    eq_iff a.task_id s,
    eq_iff tid s,
  )

  -- Ending the task's active attempt leaves none active.
  pub AttemptsOk-end :
      {opens' : String → ℕ}
      → ((s : String) → opens' s + bit (str_eq tid s) ≡ opens s)
      → AttemptsOk opens' (update (attempt_is a.id) f attempts)
  AttemptsOk-end h =
      lowered f keys (attempt_is a.id) attempts (λ r. ground (arith, ends r)) ok
        (λ s. omega (arith, active_after s, h s))

  pub its_number : a.number ≡ count (of_task tid) attempts
  its_number = ground (
    arith,
    ok.latest tid,
    its_task,
    count_of_found (stale tid (count (of_task tid) attempts)) (active_of tid) attempts a found,
  )
