-- ===== src/Store/Invariant/Create.antt =====
-- A new task with its first attempt and its first event keeps the tables well-formed.
use agent_trail.Base.{
  ◌+◌, ◌≤◌, String, ◌≡◌, ap, ◌∙◌, Bool, true, false, ◌&&◌, Option, none, some, List, [], ◌∷◌, ◌++◌,
  inl, inr, bit, arith, str_eq, eq_iff, ℤ, int_eq, Option-cases, Bool-cases,
}
use mathlib.Core.Path.{subst}
use agent_trail.Status.{terminal}
use agent_trail.Task.{Task, Attempt, Event}
use agent_trail.Table.{
  find, exists, count, count_le, find-append, count-append, count-one, exists-count, count-find,
}
use agent_trail.Store.Statements.{
  task_is, attempt_is, of_task, is_active, same_issue, holds_issue, same_text, same_number,
}
use agent_trail.Db.{Db}
use agent_trail.Store.Invariant.Defs.{Wf, TasksOk, EventsOk, RowOk, open_count}
use agent_trail.Store.Invariant.Insert.{AttemptsOk-append}

int_eq-eq : (a b : ℤ) → int_eq a b ≡ true → a ≡ b
int_eq-eq a b h = ground arith

text_join : (x n r : Option String) → same_text x n ≡ true → same_text x r ≡ same_text n r
text_join (some x) (some n) r h = rw ((eq_iff x n).0 h)
text_join none n r h = cc
text_join (some x) none r h = cc

number_join : (x n r : Option ℤ) → same_number x n ≡ true → same_number x r ≡ same_number n r
number_join (some x) (some n) r h = rw (int_eq-eq x n h)
number_join none n r h = cc
number_join (some x) none r h = cc

joined :
    (x n r t t' t'' k k' k'' : Bool)
    → (x && n && t && k) ≡ true
    → (t ≡ true → t' ≡ t'')
    → (k ≡ true → k' ≡ k'')
    → bit (x && r && t' && k') ≤ bit (n && r && t'' && k'')
joined x n r t t' t'' k k' k'' h f g = ground arith

-- Rows that hold the same issue as a third one hold the same issue.
same_issue_join :
    (x n r : Task) → same_issue x n ≡ true → bit (same_issue x r) ≤ bit (same_issue n r)
unfolding same_issue
same_issue_join x n r h =
    joined (holds_issue x) (holds_issue n) (holds_issue r) _ _ _ _ _ _ h
      (text_join x.repository_id n.repository_id r.repository_id)
      (number_join x.source_issue_number n.source_issue_number r.source_issue_number)

module _ (n : Task) (tasks : List Task) (ok : TasksOk tasks)
    (unused : exists (task_is n.id) tasks ≡ false) where
  with_new : (q : Task → Bool) → count q (tasks ++ n ∷ []) ≡ count q tasks + bit (q n)
  with_new q = count-append q tasks (n ∷ []) ∙ ap (λ k. count q tasks + k) (count-one q n)

  row_new :
      RowOk n → (id : String) (t : Task) → find (task_is id) (tasks ++ n ∷ []) ≡ some t → RowOk t
  unfolding find
  row_new good id t e = elim (Option-cases (find (task_is id) tasks)) [
    | inl missing ↦
        let here : n ≡ t = ground (arith, find-append (task_is id) tasks (n ∷ [])) in
        subst RowOk here good
    | inr (r, old) ↦
        let here : r ≡ t = ground (arith, find-append (task_is id) tasks (n ∷ [])) in
        subst RowOk here (ok.rows id r old)
  ]

  pub TasksOk-append : exists (same_issue n) tasks ≡ false → RowOk n → TasksOk (tasks ++ n ∷ [])
  TasksOk-append free good = record {
    unique = λ id. ground (
      arith,
      with_new (task_is id),
      ok.unique id,
      exists-count (task_is n.id) tasks unused,
      eq_iff n.id id,
    );
    issues = λ x. elim (Bool-cases (same_issue x n)) [
      | inl same ↦ ground (
        arith,
        with_new (same_issue x),
        exists-count (same_issue n) tasks free,
        count_le (same_issue n) (same_issue x) tasks (λ r. same_issue_join x n r same),
      )
      | inr other ↦ ground (arith, with_new (same_issue x), ok.issues x)
    ];
    rows = row_new good;
  }

-- The tables with a new task, its first attempt and its first event.
module _ (db : Db) (wf : Wf db) (n : Task) (a : Attempt) (events : List Event)
    (unused : exists (task_is n.id) db.tasks ≡ false)
    (free : exists (same_issue n) db.tasks ≡ false) (good : RowOk n)
    (lasting : terminal n.status ≡ false) (unused' : exists (attempt_is a.id) db.attempts ≡ false)
    (live : is_active a.status ≡ true) (own : a.task_id ≡ n.id) (first : a.number ≡ 1) where
  missing : find (task_is n.id) db.tasks ≡ none
  missing = elim (Option-cases (find (task_is n.id) db.tasks)) [
    | inl e ↦ e
    | inr (r, e) ↦ absurd (
        ground (
          arith,
          exists-count (task_is n.id) db.tasks unused,
          count-find (task_is n.id) db.tasks r e,
        ))
  ]

  open_count-append :
      (s : String)
      → open_count s (db.tasks ++ n ∷ []) ≡ open_count s db.tasks + bit (str_eq a.task_id s)
  unfolding open_count find
  open_count-append s =
      ground
        (arith, find-append (task_is s) db.tasks (n ∷ []), eq_iff n.id s, missing, own, lasting)

  no_attempts :
      (s : String)
      → find (task_is s) (db.tasks ++ n ∷ []) ≡ none
      → count (of_task s) (db.attempts ++ a ∷ []) ≡ 0
  unfolding find
  no_attempts s e = ground (
    arith,
    find-append (task_is s) db.tasks (n ∷ []),
    wf.owned s,
    own,
    count-append (of_task s) db.attempts (a ∷ []),
    count-one (of_task s) a,
  )

  pub Wf-new :
      EventsOk events
      → Wf
          (record { tasks = db.tasks ++ n ∷ []; attempts = db.attempts ++ a ∷ []; events = events })
  unfolding open_count
  Wf-new events_ok = record {
    tasks_ok = TasksOk-append n db.tasks wf.tasks_ok unused free good;
    attempts_ok =
        AttemptsOk-append a db.attempts wf.attempts_ok unused' live
          (ground (arith, wf.owned n.id missing)) (ground (arith, missing, own)) open_count-append;
    events_ok = events_ok;
    owned = no_attempts;
  }
