-- ===== src/Store/Invariant/Moves.antt =====
-- The `switch` of `applyTransition` keeps the attempts well-formed.
use agent_trail.Base.{
  ℕ, ◌+◌, ◌-◌, String, ◌≡◌, refl, sym, ◌∙◌, true, false, ◌&&◌, Option, none, some, List, [], ◌∷◌,
  ◌++◌, bit, arith, str_eq, eq_iff, eq_refl,
}
use agent_trail.Status.{terminal}
use agent_trail.Task.{Task, Attempt, TransitionParams, RevisionParams}
use agent_trail.Table.{find, exists, count, update, count-append, count-one}
use agent_trail.Store.Statements.{
  attempt_is, active_of, of_task, is_active, revision_attempt, bare_attempt,
}
use agent_trail.Store.Apply.{finish_attempt, supersede_attempt, start_attempt}
use agent_trail.Store.Effect.Statements.{Moves, finishes, supersedes, starts, stays}
use agent_trail.Store.Invariant.Defs.{AttemptsOk}
use agent_trail.Store.Invariant.Attempts.{
  KeepsKeys, AttemptsOk-update, AttemptsOk-end, its_number, of_task_kept, AttemptsOk-opens,
}
use agent_trail.Store.Invariant.Insert.{AttemptsOk-append}

finish-KeepsKeys : (now : ℕ) (p : TransitionParams) → KeepsKeys (finish_attempt now p)
unfolding finish_attempt
finish-KeepsKeys now p = record {
  id_kept = λ a. refl;
  task_kept = λ a. refl;
  number_kept = λ a. refl;
}

supersede-KeepsKeys : (now : ℕ) → KeepsKeys (supersede_attempt now)
unfolding supersede_attempt
supersede-KeepsKeys now = record {
  id_kept = λ a. refl;
  task_kept = λ a. refl;
  number_kept = λ a. refl;
}

start-KeepsKeys : (now : ℕ) → KeepsKeys (start_attempt now)
unfolding start_attempt
start-KeepsKeys now = record { id_kept = λ a. refl; task_kept = λ a. refl; number_kept = λ a. refl }

finish_ends :
    (now : ℕ) (p : TransitionParams) (a : Attempt)
    → is_active (finish_attempt now p a).status ≡ false
unfolding finish_attempt
finish_ends now p a = refl

supersede_ends : (now : ℕ) (a : Attempt) → is_active (supersede_attempt now a).status ≡ false
unfolding supersede_attempt
supersede_ends now a = refl

start_status : (now : ℕ) (a : Attempt) → (start_attempt now a).status ≡ a.status
unfolding start_attempt
start_status now a = refl

-- A new row of task_attempts belongs to its task and is active.
revision_attempt_keys :
    (now : ℕ) (id tid : String) (n : ℕ) (r : Option RevisionParams)
    → ((revision_attempt now id tid n r).id ≡ id)
      × ((revision_attempt now id tid n r).task_id ≡ tid)
      × ((revision_attempt now id tid n r).number ≡ n)
      × (is_active (revision_attempt now id tid n r).status ≡ true)
unfolding revision_attempt bare_attempt
revision_attempt_keys now id tid n none = (refl, refl, refl, refl)
revision_attempt_keys now id tid n (some r) = (refl, refl, refl, refl)

module _ (cur : Task) (p : TransitionParams) (a : Attempt) (now : ℕ) (before after : List Attempt)
    (aid : String) (opens opens' : String → ℕ) (ok : AttemptsOk opens before)
    (found : find (active_of cur.id) before ≡ some a)
    (change : (s : String) → opens' s + bit (terminal p.to && str_eq cur.id s) ≡ opens s)
    (busy : opens cur.id ≡ 1) where
  -- The revision's attempt takes the number after the superseded one.
  next_number :
      count (of_task cur.id) (update (attempt_is a.id) (supersede_attempt now) before) + 1
      ≡ a.number + 1
  next_number = omega (
    arith,
    of_task_kept (supersede_attempt now) (supersede-KeepsKeys now) (attempt_is a.id) before cur.id,
    its_number (supersede_attempt now) (supersede-KeepsKeys now) (supersede_ends now) before ok
        cur.id a found,
  )

  superseded-AttemptsOk :
      terminal p.to ≡ false
      → exists (attempt_is aid) (update (attempt_is a.id) (supersede_attempt now) before) ≡ false
      → AttemptsOk opens' (
          update (attempt_is a.id) (supersede_attempt now) before
          ++ revision_attempt now aid cur.id (a.number + 1) p.revision ∷ [])
  superseded-AttemptsOk lasting unused =
      let (kid, ktask, knumber, klive) =
        revision_attempt_keys now aid cur.id (a.number + 1) p.revision in
      let idle : AttemptsOk (λ s. opens s - bit (str_eq cur.id s))
          (update (attempt_is a.id) (supersede_attempt now) before) =
        AttemptsOk-end (supersede_attempt now) (supersede-KeepsKeys now) (supersede_ends now) before
          ok cur.id a found (λ s. ground (arith, eq_iff cur.id s, busy)) in
      AttemptsOk-append (revision_attempt now aid cur.id (a.number + 1) p.revision)
        (update (attempt_is a.id) (supersede_attempt now) before) idle (rw kid unused) klive
        (rw ktask (knumber ∙ sym next_number)) (rw (ktask, eq_refl cur.id, busy))
        (λ s. rw ktask (ground (arith, change s, eq_iff cur.id s, busy)))

  pub Moves-AttemptsOk : Moves cur p a now before after aid → AttemptsOk opens' after
  Moves-AttemptsOk (finishes final e _) = rw e (
      AttemptsOk-end (finish_attempt now p) (finish-KeepsKeys now p) (finish_ends now p) before ok
        cur.id a found (λ s. ground (arith, change s)))
  Moves-AttemptsOk (supersedes lasting requeue unused e) =
      rw e (superseded-AttemptsOk lasting unused)
  Moves-AttemptsOk (starts lasting onward e _) = rw e (
      AttemptsOk-update (start_attempt now) (attempt_is a.id) before (start-KeepsKeys now)
        (start_status now) (AttemptsOk-opens (λ s. ground (arith, change s)) ok))
  Moves-AttemptsOk (stays lasting onward e _) =
      rw e (AttemptsOk-opens (λ s. ground (arith, change s)) ok)

  -- No other task gains an attempt.
  pub Moves-owned :
      (tid : String)
      → str_eq cur.id tid ≡ false
      → Moves cur p a now before after aid
      → count (of_task tid) after ≡ count (of_task tid) before
  Moves-owned tid other (finishes final e _) =
      rw e
        (of_task_kept (finish_attempt now p) (finish-KeepsKeys now p) (attempt_is a.id) before tid)
  Moves-owned tid other (supersedes lasting requeue unused e) =
      let (kid, ktask, knumber, klive) =
        revision_attempt_keys now aid cur.id (a.number + 1) p.revision in
      rw e (
        ground (
          arith,
          ktask,
          other,
          count-append (of_task tid) (update (attempt_is a.id) (supersede_attempt now) before)
              (revision_attempt now aid cur.id (a.number + 1) p.revision ∷ []),
          count-one (of_task tid) (revision_attempt now aid cur.id (a.number + 1) p.revision),
          of_task_kept (supersede_attempt now) (supersede-KeepsKeys now) (attempt_is a.id) before
              tid,
        ))
  Moves-owned tid other (starts lasting onward e _) =
      rw e (of_task_kept (start_attempt now) (start-KeepsKeys now) (attempt_is a.id) before tid)
  Moves-owned tid other (stays lasting onward e _) = rw e
