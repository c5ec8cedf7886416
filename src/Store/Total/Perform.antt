-- ===== src/Store/Total/Perform.antt =====
-- internal/task/store.go: `applyTransition` past the replay check, when no statement fails.
use agent_trail.Base.{
  ℕ, suc, ◌+◌, String, ◌≡◌, refl, sym, ◌∙◌, true, false, not, ◌&&◌, ◌||◌, some, List, [], ◌∷◌, ◌++◌,
  arith, str_eq, inl, inr, int_eq, pos, Bool-cases, Option-cases, if◌then◌else◌,
}
use mathlib.Core.Path.{subst}
use agent_trail.Status.{
  Status, terminal, can_transition, status_eq, revision_requested, queued, provisioning,
}
use agent_trail.Status.History.{terminal-can_transition}
use agent_trail.Task.{
  Task, Attempt, TransitionParams, unknown_source, version_conflict, invalid_transition,
}
use agent_trail.Table.{
  find, exists, count, update, update-find, find-count, count-exists, exists-count,
  count-update_same,
}
use agent_trail.Db.{Db, Session, Result, ok, err, query, exec, fresh_id, then_ok, ◌>>=◌}
use agent_trail.Store.Statements.{
  task_is, attempt_is, active_of, seen_key, valid_source, insert_event, revision_attempt, new_event,
  transition_event_type,
}
use agent_trail.Store.Apply.{
  moved, perform, replayed, source_of, move_attempt, update_task, add_attempt,
  insert_revision_attempt, transition_payload, supersede_attempt, finish_attempt, start_attempt,
}
use agent_trail.Store.Invariant.Defs.{Wf, open_count}

-- What `applyTransition` answers for a stored task: first past the replay check, then in all.
abbrev pub permit : TransitionParams → ℕ → Task → Result Task
permit p now cur =
    if not (int_eq p.expected_version (pos 0) || int_eq p.expected_version (pos cur.version))
    then err (version_conflict p.expected_version cur.version)
    else if not (can_transition cur.status p.to)
    then err (invalid_transition cur.status p.to)
    else ok (moved now p cur)

abbrev pub decide : TransitionParams → ℕ → Db → Task → Result Task
decide p now db cur =
    if not (valid_source (source_of p))
    then err (unknown_source (source_of p))
    else if not (str_eq p.idempotency_key "") && seen_key cur.id p.idempotency_key db
    then ok cur
    else permit p now cur

-- A session in which the next `h` statements succeed.
abbrev pub good : Db → ℕ → List String → ℕ → Session
good db now ids h = record { db = db; now = now; ids = ids; healthy = h }

moved-id :
    (now : ℕ) (p : TransitionParams) (id : String) (r : Task)
    → task_is id (moved now p r) ≡ task_is id r
unfolding moved
moved-id now p id r = refl

update-good :
    (p : TransitionParams) (cur : Task) (db : Db) (now h : ℕ) (ids : List String)
    → find (task_is cur.id) db.tasks ≡ some cur
    → update_task cur.id p (good db now ids (suc (suc h)))
      ≡ ok (
        moved now p cur,
        good (record db { tasks = update (task_is cur.id) (moved now p) db.tasks }) now ids h,
      )
unfolding update_task query exec ◌>>=◌
update-good p cur db now h ids found =
    let e = update-find (task_is cur.id) (moved now p) db.tasks (moved-id now p cur.id) in
    rw (e, found) refl

-- The `switch` succeeds, with at most three statements and one id, and leaves the tasks alone.
move-good :
    (cur : Task) (p : TransitionParams) (a : Attempt) (db : Db) (now h : ℕ) (x y : String)
    (rest : List String)
    → exists (attempt_is x) (update (attempt_is a.id) (supersede_attempt now) db.attempts) ≡ false
    → (aid : String) × (attempts : List Attempt) × (k : ℕ) × (z : String) × (more : List String)
      × (move_attempt cur p a
            (good db now (x ∷ y ∷ rest) (suc (suc (suc (suc (suc (suc (suc h))))))))
          ≡ ok (
            aid,
            good (record db { attempts = attempts }) now (z ∷ more) (suc (suc (suc (suc k)))),
          ))
unfolding move_attempt query exec fresh_id ◌>>=◌ insert_revision_attempt add_attempt
move-good cur p a db now h x y rest fresh = elim (Bool-cases (terminal p.to)) [
  | inl final ↦ (
    a.id,
    update (attempt_is a.id) (finish_attempt now p) db.attempts,
    suc (suc h),
    x,
    y ∷ rest,
    rw final refl,
  )
  | inr lasting ↦
      elim (Bool-cases (status_eq cur.status revision_requested && status_eq p.to queued)) [
        | inl requeue ↦ (
          x,
          update (attempt_is a.id) (supersede_attempt now) db.attempts
              ++ revision_attempt now x cur.id (a.number + 1) p.revision ∷ [],
          h,
          y,
          rest,
          rw (lasting, requeue, fresh) refl,
        )
        | inr onward ↦ elim (Bool-cases (status_eq p.to provisioning)) [
          | inl start ↦ (
            a.id,
            update (attempt_is a.id) (start_attempt now) db.attempts,
            suc (suc h),
            x,
            y ∷ rest,
            rw (lasting, onward, start) refl,
          )
          | inr other ↦
              (a.id, db.attempts, suc (suc (suc h)), x, y ∷ rest, rw (lasting, onward, other) refl)
        ]
      ]
]

-- The end of `applyTransition`.
perform-good :
    (cur : Task) (p : TransitionParams) (source : String) (a : Attempt) (db : Db) (now h : ℕ)
    (x y : String) (rest : List String)
    → exists (attempt_is x) (update (attempt_is a.id) (supersede_attempt now) db.attempts) ≡ false
    → find (task_is cur.id) db.tasks ≡ some cur
    → find (active_of cur.id) db.attempts ≡ some a
    → (int_eq p.expected_version (pos 0) || int_eq p.expected_version (pos cur.version)) ≡ true
    → can_transition cur.status p.to ≡ true
    → (db' : Db) × (more : List String) × (k : ℕ) × (perform cur p source
          (good db now (x ∷ y ∷ rest) (suc (suc (suc (suc (suc (suc (suc (suc h)))))))))
        ≡ ok (moved now p cur, good db' now more (suc k)))
unfolding perform query exec fresh_id insert_event ◌>>=◌
perform-good cur p source a db now h x y rest fresh found current fits can =
    let (aid, attempts, k, z, more, e) = move-good cur p a db now h x y rest fresh in
    let e2 =
      update-good p cur (record db { attempts = attempts }) now (suc (suc k)) (z ∷ more) found in
    let kind = transition_event_type p.to in
    let tasks = update (task_is cur.id) (moved now p) db.tasks in
    let event =
      new_event now z aid kind source (transition_payload cur.status p) p.idempotency_key
        db.events in
    (
      record { tasks = tasks; attempts = attempts; events = db.events ++ event ∷ [] },
      more,
      k,
      rw (fits, can, current)
          (then_ok (move_attempt cur p a) _ e ∙ then_ok (update_task cur.id p) _ e2),
    )

-- A stored task that is not final has an active attempt.
active-some :
    (db : Db) (cur : Task)
    → Wf db
    → find (task_is cur.id) db.tasks ≡ some cur
    → terminal cur.status ≡ false
    → (a : Attempt) × (find (active_of cur.id) db.attempts ≡ some a)
unfolding open_count
active-some db cur wf found alive = elim (Option-cases (find (active_of cur.id) db.attempts)) [
  | inl missing ↦
      let none_there = find-count (active_of cur.id) db.attempts missing in
      let one : count (active_of cur.id) db.attempts ≡ 1 =
        ground (arith, wf.attempts_ok.active_count cur.id) in
      absurd (omega arith)
  | inr (a, e) ↦ (a, e)
]

can-alive : (s t : Status) → can_transition s t ≡ true → terminal s ≡ false
can-alive s t h = elim (Bool-cases (terminal s)) [
  | inl final ↦ absurd (let q = terminal-can_transition s t (inl final) in cc)
  | inr alive ↦ alive
]

abbrev pub eight_more : ℕ → ℕ
eight_more h = suc (suc (suc (suc (suc (suc (suc (suc h)))))))

pub replay-good :
    (tid key : String) (db : Db) (now h : ℕ) (ids : List String)
    → (k : ℕ) × (replayed tid key (good db now ids (suc (eight_more h)))
        ≡ ok (not (str_eq key "") && seen_key tid key db, good db now ids (eight_more k)))
unfolding replayed query
replay-good tid key db now h ids = elim (Bool-cases (str_eq key "")) [
  | inl blank ↦ (suc h, rw blank refl)
  | inr keyed ↦ (h, rw keyed refl)
]

-- A body ends in the answer, and a statement more may follow where that is no error.
abbrev pub Answers : {A : Type 0} → ℕ → Result (A × Session) → Result A → Type 0
Answers now r (err e) = r ≡ err e
Answers now r (ok a) =
    (db : Db) × (ids : List String) × (k : ℕ) × (r ≡ ok (a, good db now ids (suc k)))

fresh-after :
    (x id : String) (now : ℕ) (attempts : List Attempt)
    → exists (attempt_is x) attempts ≡ false
    → exists (attempt_is x) (update (attempt_is id) (supersede_attempt now) attempts) ≡ false
unfolding supersede_attempt
fresh-after x id now attempts fresh = count-exists _ _ (
    count-update_same (attempt_is id) (attempt_is x) (supersede_attempt now) attempts (λ r. refl)
    ∙ exists-count (attempt_is x) attempts fresh)

module _ (cur : Task) (p : TransitionParams) (db : Db) (now h : ℕ) (x y : String)
    (rest : List String) (wf : Wf db) (found : find (task_is cur.id) db.tasks ≡ some cur)
    (fresh : exists (attempt_is x) db.attempts ≡ false) where
  pub perform-Answers :
      Answers now
        (perform cur p (source_of p) (good db now (x ∷ y ∷ rest) (eight_more h)))
        (permit p now cur)
  unfolding perform ◌>>=◌
  perform-Answers =
      elim (Bool-cases
        (int_eq p.expected_version (pos 0) || int_eq p.expected_version (pos cur.version))) [
          | inr behind ↦ rw behind refl
          | inl fits ↦ elim (Bool-cases (can_transition cur.status p.to)) [
            | inr cannot ↦ rw (fits, cannot) refl
            | inl can ↦
                let (a, current) = active-some db cur wf found (can-alive cur.status p.to can) in
                let yes : permit p now cur ≡ ok (moved now p cur) = rw (fits, can) refl in
                subst
                  (Answers now
                    (perform cur p (source_of p) (good db now (x ∷ y ∷ rest) (eight_more h))))
                  (sym yes)
                  (perform-good cur p (source_of p) a db now h x y rest
                    (fresh-after x a.id now db.attempts fresh) found current fits can)
          ]
        ]
