-- ===== src/Store/Total/Answers.antt =====
-- internal/task/store.go: `Transition` as a decision table, when no statement fails.
use agent_trail.Base.{
  Option, ℕ, suc, ◌+◌, String, ◌≡◌, refl, sym, ap, ◌∙◌, Bool, true, false, not, ◌&&◌, none, some,
  List, ◌∷◌, arith, str_eq, inl, inr, Bool-cases, Option-cases, if◌then◌else◌,
}
use mathlib.Core.Path.{subst}
use agent_trail.Task.{Task, TransitionParams, not_found, unknown_source}
use agent_trail.Text.{canonical, is_uuid}
use agent_trail.Table.{find, exists}
use agent_trail.Db.{
  Db, Session, Result, ok, err, Tx, query, exec, require, commit, transaction, then_ok, then_err,
  Result-cases, pure, ◌>>=◌, ◌>>◌,
}
use agent_trail.Store.Statements.{task_is, attempt_is, seen_key, valid_source, lock_task}
use agent_trail.Store.Apply.{apply_transition, perform, replayed, source_of}
use agent_trail.Store.Operations.{transition_body, transition}
use agent_trail.Store.Invariant.Operations.{found_self}
use agent_trail.Store.Invariant.Defs.{Wf}
use agent_trail.Store.Total.Perform.{
  good, eight_more, permit, decide, Answers, perform-Answers, replay-good,
}

Answers-eq :
    {A : Type 0} (now : ℕ) {r d : Result (A × Session)} (d' : Result A) {e : Result A}
    → r ≡ d
    → e ≡ d'
    → Answers now d d'
    → Answers now r e
Answers-eq now {r} {d} d' {e} same same' a =
    subst (λ v. Answers now r v) (sym same') (subst (λ w. Answers now w d') (sym same) a)

refused :
    (cur : Task) (p : TransitionParams) (s : Session)
    → valid_source (source_of p) ≡ false
    → apply_transition cur p s ≡ err (unknown_source (source_of p))
unfolding apply_transition ◌>>=◌
refused cur p s bad = rw bad refl

-- Past the check of the source and the replay check.
admitted :
    (cur : Task) (p : TransitionParams) (seen : Bool) (s s' : Session)
    → valid_source (source_of p) ≡ true
    → replayed cur.id p.idempotency_key s ≡ ok (seen, s')
    → apply_transition cur p s ≡ (if seen then ok (cur, s') else perform cur p (source_of p) s')
unfolding apply_transition
admitted cur p true s s' from replay =
    then_ok (require (valid_source (source_of p)) (unknown_source (source_of p))) _ {s = s}
      (rw from refl)
    ∙ then_ok (replayed cur.id p.idempotency_key) _ replay
admitted cur p false s s' from replay =
    then_ok (require (valid_source (source_of p)) (unknown_source (source_of p))) _ {s = s}
      (rw from refl)
    ∙ then_ok (replayed cur.id p.idempotency_key) _ replay

apply-Answers :
    (cur : Task) (p : TransitionParams) (db : Db) (now h : ℕ) (x y : String) (rest : List String)
    → Wf db
    → find (task_is cur.id) db.tasks ≡ some cur
    → exists (attempt_is x) db.attempts ≡ false
    → Answers now
        (apply_transition cur p (good db now (x ∷ y ∷ rest) (suc (eight_more h))))
        (decide p now db cur)
apply-Answers cur p db now h x y rest wf found fresh =
    let s = good db now (x ∷ y ∷ rest) (suc (eight_more h)) in
    elim (Bool-cases (valid_source (source_of p))) [
      | inr bad ↦
          Answers-eq now (err (unknown_source (source_of p))) (refused cur p s bad) (rw bad refl)
            refl
      | inl from ↦
          let (k, replay) = replay-good cur.id p.idempotency_key db now h (x ∷ y ∷ rest) in
          let s' = good db now (x ∷ y ∷ rest) (eight_more k) in
          elim (Bool-cases
            (not (str_eq p.idempotency_key "") && seen_key cur.id p.idempotency_key db)) [
              | inl seen ↦
                  Answers-eq now (ok cur) (admitted cur p true s s' from (rw seen at replay))
                    (rw (from, seen) refl)
                    (db, x ∷ y ∷ rest, suc (suc (suc (suc (suc (suc (suc k)))))), refl)
              | inr first ↦
                  Answers-eq now (permit p now cur)
                    (admitted cur p false s s' from (rw first at replay)) (rw (from, first) refl)
                    (perform-Answers cur p db now k x y rest wf found fresh)
            ]
    ]

abbrev answer : {A : Type 0} → Result (A × Session) → Result A
answer (ok (a, s)) = ok a
answer (err e) = err e

-- What the task that the id is found for has `Transition` answer.
abbrev found_answer : TransitionParams → ℕ → Db → Option Task → Result Task
found_answer p now db none = err not_found
found_answer p now db (some cur) = decide p now db cur

-- What `Transition` answers.
abbrev pub transition_answer : String → TransitionParams → ℕ → Db → Result Task
transition_answer id p now db =
    if is_uuid id
    then found_answer p now db (find (task_is (canonical id)) db.tasks)
    else err not_found

-- A body whose last statement is the commit.
committed :
    (m : Tx Task) (db : Db) (now h : ℕ) (ids : List String) (d : Result Task)
    → Answers now (m (good db now ids h)) d
    → answer ((m >>= λ next. commit >> pure next) (good db now ids h)) ≡ d
unfolding ◌>>=◌ commit exec
committed m db now h ids (ok a) (db', more, k, e) = ap answer (then_ok m _ e)
committed m db now h ids (err x) e = ap answer (then_err m _ e)

transaction-answer :
    {A : Type 0} (body : Tx A) (db : Db) (now h : ℕ) (ids : List String)
    → (transaction body (good db now ids (suc h))).0 ≡ answer (body (good db now ids h))
unfolding transaction exec ◌>>=◌
transaction-answer body db now h ids = elim (Result-cases (body (good db now ids h))) [
  | inl (a, t, e) ↦ rw e refl
  | inr (x, e) ↦ rw e refl
]

locked-step :
    (id : String) (cur : Task) (db : Db) (now h : ℕ) (ids : List String)
    → find (task_is id) db.tasks ≡ some cur
    → lock_task id (good db now ids (suc h)) ≡ ok (cur, good db now ids h)
unfolding lock_task query ◌>>=◌
locked-step id cur db now h ids found = rw found refl

locked-missing :
    (id : String) (db : Db) (now h : ℕ) (ids : List String)
    → find (task_is id) db.tasks ≡ none
    → lock_task id (good db now ids (suc h)) ≡ err not_found
unfolding lock_task query ◌>>=◌
locked-missing id db now h ids found = rw found refl

stored_answer :
    (id : String) (p : TransitionParams) (db : Db) (now h : ℕ) (x y : String) (rest : List String)
    → Wf db
    → exists (attempt_is x) db.attempts ≡ false
    → answer (transition_body id p (good db now (x ∷ y ∷ rest) (suc (suc (eight_more h)))))
      ≡ found_answer p now db (find (task_is id) db.tasks)
unfolding transition_body
stored_answer id p db now h x y rest wf fresh = elim (Option-cases (find (task_is id) db.tasks)) [
  | inl missing ↦
      ap answer (then_err (lock_task id) _ (locked-missing id db now _ (x ∷ y ∷ rest) missing))
      ∙ (rw missing refl)
  | inr (cur, found) ↦
      ap answer (then_ok (lock_task id) _ (locked-step id cur db now _ (x ∷ y ∷ rest) found))
      ∙ committed (apply_transition cur p) db now _ (x ∷ y ∷ rest) (decide p now db cur)
          (apply-Answers cur p db now h x y rest wf (found_self id db.tasks cur found).1 fresh)
      ∙ (rw found refl)
]

-- On well-formed tables, with eleven statements that succeed and two ids at hand, the first of which is
-- no attempt's, `Transition` answers
-- as the decision table says: an id that is no UUID or no task's is not found; then an unknown source is
-- refused; then a key that the task's events hold gives the task as it is; then a version that is
-- expected and is not the task's is a conflict; then an arrow that is missing is refused; and in every
-- other case the task is moved.
pub transition-answers :
    (id : String) (p : TransitionParams) (db : Db) (now h : ℕ) (x y : String) (rest : List String)
    → Wf db
    → exists (attempt_is x) db.attempts ≡ false
    → (transition id p (good db now (x ∷ y ∷ rest) (11 + h))).0 ≡ transition_answer id p now db
unfolding transition
transition-answers id p db now h x y rest wf fresh = elim (Bool-cases (is_uuid id)) [
  | inr bad ↦ rw bad refl
  | inl named ↦
      let eleven : 11 + h ≡ suc (suc (suc (eight_more h))) = omega arith in
      (rw (named, eleven) refl)
      ∙ transaction-answer (transition_body (canonical id) p) db now (suc (suc (eight_more h)))
          (x ∷ y ∷ rest)
      ∙ stored_answer (canonical id) p db now h x y rest wf fresh
      ∙ (rw named refl)
]
