-- ===== src/Store/Invariant/Insert.antt =====
-- A new attempt with the next number keeps the invariant of the attempts.
use agent_trail.Base.{
  ℕ, ◌+◌, ◌≤◌, String, ◌≡◌, Bool, true, false, List, [], ◌∷◌, ◌++◌, bit, arith, str_eq, eq_iff,
  Bool-cases, inl, inr, sym, ap, ◌∙◌,
}
use agent_trail.Task.{Attempt}
use agent_trail.Table.{exists, count, count_le, exists-count, count-append, count-one}
use agent_trail.Store.Statements.{attempt_is, active_of, of_task, is_active}
use agent_trail.Store.Invariant.Defs.{AttemptsOk, numbered, in_range, stale}

module _ (a : Attempt) (attempts : List Attempt) {opens : String → ℕ}
    (ok : AttemptsOk opens attempts) (unused : exists (attempt_is a.id) attempts ≡ false)
    (live : is_active a.status ≡ true) (next : a.number ≡ count (of_task a.task_id) attempts + 1)
    (idle : opens a.task_id ≡ 0) where
  with_new : (q : Attempt → Bool) → count q (attempts ++ a ∷ []) ≡ count q attempts + bit (q a)
  with_new q = count-append q attempts (a ∷ []) ∙ ap (λ n. count q attempts + n) (count-one q a)

  unique_new : (id : String) → count (attempt_is id) (attempts ++ a ∷ []) ≤ 1
  unique_new id = ground (
    arith,
    with_new (attempt_is id),
    ok.unique id,
    exists-count (attempt_is a.id) attempts unused,
    eq_iff a.id id,
  )

  active_new :
      (s : String) → count (active_of s) (attempts ++ a ∷ []) ≡ opens s + bit (str_eq a.task_id s)
  active_new s = ground (arith, with_new (active_of s), ok.active_count s)

  numbers_new :
      (s : String) (n : ℕ)
      → count (numbered s n) (attempts ++ a ∷ [])
        ≡ bit (in_range n (count (of_task s) (attempts ++ a ∷ [])))
  numbers_new s n =
      ground
        (arith, with_new (numbered s n), with_new (of_task s), ok.numbers s n, eq_iff a.task_id s)

  -- No attempt of the task is active before, so none is stale.
  latest_new :
      (s : String)
      → count (stale s (count (of_task s) (attempts ++ a ∷ []))) (attempts ++ a ∷ []) ≡ 0
  latest_new s = elim (Bool-cases (str_eq a.task_id s)) [
    | inl same ↦ ground (
      arith,
      with_new (of_task s),
      with_new (stale s (count (of_task s) (attempts ++ a ∷ []))),
      count_le (active_of s) (stale s (count (of_task s) (attempts ++ a ∷ []))) attempts
          (λ r. ground arith),
      ok.active_count s,
      eq_iff a.task_id s,
    )
    | inr other ↦ ground (
      arith,
      with_new (of_task s),
      with_new (stale s (count (of_task s) (attempts ++ a ∷ []))),
      ok.latest s,
    )
  ]

  pub AttemptsOk-append :
      {opens' : String → ℕ}
      → ((s : String) → opens' s ≡ opens s + bit (str_eq a.task_id s))
      → AttemptsOk opens' (attempts ++ a ∷ [])
  AttemptsOk-append h = record {
    unique = unique_new;
    active_count = λ s. active_new s ∙ sym (h s);
    numbers = numbers_new;
    latest = latest_new;
  }
