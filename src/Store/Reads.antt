-- ===== src/Store/Reads.antt =====
-- internal/task/store.go: the operations that only read. Tasks are never deleted, so that the check
-- of a task's existence and the query after it agree on it.
use Prim.Native.String.{compare}
use Prim.Native.Nat.{Ordering}
use agent_trail.Base.{
  ℕ, zero, suc, String, Bool, true, false, not, ◌&&◌, ◌||◌, Option, none, some, List, [], ◌∷◌, ℤ,
  pos, negsuc, str_eq, int_eq, int_leb, ltb, leb, ◌==◌, if◌then◌else◌,
}
use agent_trail.Status.{Status, unknown, status_eq, valid}
use agent_trail.Task.{Task, Attempt, Event, not_found, attempt_not_found, unknown_status}
use agent_trail.Table.{find, exists}
use agent_trail.Text.{is_uuid, canonical}
use agent_trail.Db.{Db, ok, Tx, query, require, pure, or_throw, statement, ◌>>=◌, ◌>>◌}
use agent_trail.Store.Statements.{
  task_is, attempt_is, of_task, holds_issue, is_terminal_phase, key_is, same_number,
}
use agent_trail.Store.Operations.{Operation, unless}

module _ {ℓ} {R : Type ℓ} where
  -- WHERE
  unfoldable pub select : (R → Bool) → List R → List R
  select p [] = []
  select p (r ∷ rows) = let rest = select p rows in if p r then r ∷ rest else rest

  unfoldable pub insert_by : (R → R → Bool) → R → List R → List R
  insert_by before r [] = r ∷ []
  insert_by before r (x ∷ rows) =
      let rest = insert_by before r rows in if before r x then r ∷ x ∷ rows else x ∷ rest

  -- ORDER BY, for a test of whether the first row may stand before the second.
  unfoldable pub order_by : (R → R → Bool) → List R → List R
  unfolding insert_by
  order_by before [] = []
  order_by before (r ∷ rows) = insert_by before r (order_by before rows)

  -- LIMIT
  unfoldable pub limited : ℕ → List R → List R
  limited n [] = []
  limited zero (r ∷ rows) = []
  limited (suc n) (r ∷ rows) = r ∷ limited n rows

  unfoldable pub rows_count : List R → ℕ
  rows_count [] = 0
  rows_count (r ∷ rows) = suc (rows_count rows)

-- A limit that is not positive is the default, and one above the greatest is the greatest.
unfoldable pub clamp : ℕ → ℕ → ℤ → ℕ
clamp usual greatest_limit (negsuc n) = usual
clamp usual greatest_limit (pos n) =
    if n == 0 then usual else if ltb greatest_limit n then greatest_limit else n

abbrev at_most : String → String → Bool
at_most a b = elim (compare a b) [ Ordering.gt ↦ false | _ ↦ true ]

-- ORDER BY created_at DESC, id DESC
unfoldable pub newer : Task → Task → Bool
newer t u =
    if t.created_at == u.created_at then at_most u.id t.id else ltb u.created_at t.created_at

unfoldable pub get : String → Operation Task
get id = unless (not (is_uuid id)) not_found (
    statement (do
      row ← query "get task" (λ db. find (task_is (canonical id)) db.tasks)
      or_throw row not_found))

abbrev no_status : Status → Bool
no_status s = status_eq s (unknown "")

-- `list`: the status "" stands for all.
unfoldable pub list : Status → ℤ → Operation (List Task)
list s limit = unless (not (no_status s) && not (valid s)) (unknown_status s) (
    statement (
      query "list tasks" (λ db.
        limited (clamp 50 200 limit)
          (order_by newer (select (λ t. no_status s || status_eq t.status s) db.tasks)))))

-- A row of activity_events e JOIN task_attempts a: the event and its attempt's number.
abbrev pub Entry : Type 0
Entry = ℕ × Event

abbrev entry : String → Event → Option Attempt → List Entry → List Entry
entry tid e none rest = rest
entry tid e (some a) rest = if of_task tid a then (a.number, e) ∷ rest else rest

-- … WHERE a.task_id = $1
unfoldable pub entries : String → List Attempt → List Event → List Entry
entries tid attempts [] = []
entries tid attempts (e ∷ events) =
    entry tid e (find (attempt_is e.task_attempt_id) attempts) (entries tid attempts events)

-- (a.attempt_number, e.sequence_number) > ($2, $3)
unfoldable pub after_cursor : ℤ → ℤ → Entry → Bool
after_cursor attempt sequence (number, e) =
    if int_eq (pos number) attempt
    then not (int_leb (pos e.sequence_number) sequence)
    else not (int_leb (pos number) attempt)

-- ORDER BY a.attempt_number, e.sequence_number
unfoldable pub earlier : Entry → Entry → Bool
earlier (m, d) (n, e) = if m == n then leb d.sequence_number e.sequence_number else ltb m n

unfoldable pub page : (Entry → Bool) → ℕ → String → Db → List Entry
page p limit id db = limited limit (order_by earlier (select p (entries id db.attempts db.events)))

unfoldable pub events : String → ℤ → Operation (List Entry)
events id limit = unless (not (is_uuid id)) not_found (
    statement (do
      known ← query "check task" (λ db. exists (task_is (canonical id)) db.tasks)
      require known not_found
      query "list events" (page (λ e. true) (clamp 500 1000 limit) (canonical id))))

unfoldable pub events_after : String → ℤ → ℤ → ℤ → Operation (List Entry)
events_after id attempt sequence limit = unless (not (is_uuid id)) not_found (
    statement (do
      known ← query "check task" (λ db. exists (task_is (canonical id)) db.tasks)
      require known not_found
      query "list events after cursor"
          (page (after_cursor attempt sequence) (clamp 500 1000 limit) (canonical id))))

unfoldable pub active_task_for_issue : String → ℤ → Operation (Option Task)
active_task_for_issue repository issue s =
    if is_uuid repository
    then statement
        (query "active task for issue" (λ db.
          find
            (λ t.
              key_is (canonical repository) t.repository_id
              && same_number t.source_issue_number (some issue)
              && holds_issue t)
            db.tasks))
        s
    else (ok none, s.db)

-- ORDER BY phase = 'terminal', created_at DESC, id DESC
unfoldable pub livelier : Task → Task → Bool
livelier t u =
    if is_terminal_phase t.phase
    then is_terminal_phase u.phase && newer t u
    else is_terminal_phase u.phase || newer t u

abbrev first : List Task → Option Task
first [] = none
first (t ∷ rest) = some t

unfoldable pub task_for_branch : String → String → Operation (Option Task)
task_for_branch repository branch s =
    if not (is_uuid repository) || str_eq branch ""
    then (ok none, s.db)
    else statement
        (query "task for branch" (λ db. first (
          order_by livelier (
            select
              (λ t. key_is (canonical repository) t.repository_id && key_is branch t.working_branch)
              db.tasks))))
        s

unfoldable pub attempt : String → Operation Attempt
attempt id = unless (not (is_uuid id)) attempt_not_found (
    statement (do
      row ← query "get attempt" (λ db. find (attempt_is (canonical id)) db.attempts)
      or_throw row attempt_not_found))

abbrev lower_number : Attempt → Attempt → Bool
lower_number a b = leb a.number b.number

-- A task without attempts is told from one that is missing.
unfoldable pub known_attempts : String → List Attempt → Tx (List Attempt)
known_attempts tid (a ∷ rest) = pure (a ∷ rest)
known_attempts tid [] = do
  known ← query "check task" (λ db. exists (task_is tid) db.tasks)
  require known not_found
  pure []

unfoldable pub attempts : String → Operation (List Attempt)
attempts tid = unless (not (is_uuid tid)) not_found (
    statement (do
      rows ←
          query "list attempts"
            (λ db. order_by lower_number (select (of_task (canonical tid)) db.attempts))
      known_attempts (canonical tid) rows))
