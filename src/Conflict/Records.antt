-- ===== src/Conflict/Records.antt =====
-- internal/conflict/store.go: the stored pairs of tasks, and `Reconcile`. The table's CHECK constraints are
-- those of migrations 00006 and 00008.
use agent_trail.Base.{
  ℕ, zero, suc, String, Bool, true, false, not, ◌&&◌, ◌||◌, Option, none, some, List, [], ◌∷◌,
  if◌then◌else◌, str_eq,
}
use agent_trail.Chars.Defs.{Chars}
use agent_trail.Chars.Order.{text_leb}
use agent_trail.Git.Commit.{on_some}
use agent_trail.Conflict.Defs.{Kind, any}
use agent_trail.Conflict.Detector.{Detection, no_kinds, no_evidence, known_severity}
use agent_trail.Conflict.Semantic.{is_semantic}

pub record Row : Type 0 where
  pub id : String
  pub repository_id : String
  pub task_a_id : String
  pub task_b_id : String
  pub kinds : List Kind
  pub files : List Chars
  pub semantic_severity : Option String
  pub semantic_explanation : Option String
  pub semantic_evidence : List String
  pub detected_at : ℕ
  pub updated_at : ℕ

-- The table in a transaction, and how many statements go well before one is refused for a cause that the code
-- does not tell apart.
pub record Table : Type 0 where
  pub rows : List Row
  pub healthy : ℕ

-- What the transaction meets: its clock, the ids that `gen_random_uuid()` gives to the pair with a task, and
-- the tasks of a repository.
pub record Context : Type 0 where
  pub now : ℕ
  pub new_id : String → String
  pub in_repository : String → String → Bool

abbrev pub least : String → String → String
least a b = if text_leb a b then a else b

abbrev pub greatest : String → String → String
greatest a b = if text_leb a b then b else a

-- task_a_id = $1 AND task_b_id = $2
abbrev pub is_pair : String → String → Row → Bool
is_pair a b r = str_eq r.task_a_id a && str_eq r.task_b_id b

abbrev pub involves : String → Row → Bool
involves t r = str_eq r.task_a_id t || str_eq r.task_b_id t

abbrev pub is_given : Option String → Bool
is_given none = false
is_given (some s) = true

abbrev pub severity_allowed : Option String → Bool
severity_allowed none = true
severity_allowed (some s) = known_severity s

abbrev pub same_bool : Bool → Bool → Bool
same_bool true b = b
same_bool false b = not b

-- The CHECK constraints: a kind, a known severity, `task_conflicts_semantic_fields_check` and
-- `task_conflicts_pair_ordered`.
unfoldable pub row_allowed : Row → Bool
row_allowed r =
    not (no_kinds r.kinds)
    && severity_allowed r.semantic_severity
    && same_bool (any is_semantic r.kinds) (
        is_given r.semantic_severity
        && is_given r.semantic_explanation
        && not (no_evidence r.semantic_evidence))
    && not (text_leb r.task_b_id r.task_a_id)

-- A map from the other task's id to its detection: a later one replaces an earlier one.
unfoldable pub put : Detection → List Detection → List Detection
put d [] = d ∷ []
put d (e ∷ m) =
    let rest = put d m in if str_eq d.other_task_id e.other_task_id then d ∷ m else e ∷ rest

unfoldable pub desired_of : List Detection → List Detection → List Detection
desired_of m [] = m
desired_of m (d ∷ l) = desired_of (put d m) l

unfoldable pub is_desired : String → List Detection → Bool
is_desired other [] = false
is_desired other (d ∷ m) = str_eq other d.other_task_id || is_desired other m

unfoldable pub insert_detection : Detection → List Detection → List Detection
insert_detection d [] = d ∷ []
insert_detection d (e ∷ m) =
    let rest = insert_detection d m in
    if text_leb d.other_task_id e.other_task_id then d ∷ e ∷ m else e ∷ rest

-- The map's entries in the order of their keys.
unfoldable pub by_id : List Detection → List Detection
by_id [] = []
by_id (d ∷ m) = insert_detection d (by_id m)

-- The SELECT: the other tasks of the pairs of t.
unfoldable pub existing_others : String → List Row → List String
existing_others t [] = []
existing_others t (r ∷ rows) =
    let rest = existing_others t rows in
    if involves t r
    then (if str_eq r.task_a_id t then r.task_b_id else r.task_a_id) ∷ rest
    else rest

unfoldable pub delete_pair : String → String → List Row → List Row
delete_pair a b [] = []
delete_pair a b (r ∷ rows) =
    let rest = delete_pair a b rows in if is_pair a b r then rest else r ∷ rest

-- severity and explanation are NULL for an empty severity.
abbrev pub severity_of : Detection → Option String
severity_of d = if str_eq d.semantic_severity "" then none else some d.semantic_severity

abbrev pub explanation_of : Detection → Option String
explanation_of d = if str_eq d.semantic_severity "" then none else some d.semantic_explanation

abbrev pub updated_row : ℕ → Detection → Row → Row
updated_row now d r = record r {
  kinds = d.kinds;
  files = d.files;
  semantic_severity = severity_of d;
  semantic_explanation = explanation_of d;
  semantic_evidence = d.semantic_evidence;
  updated_at = now;
}

abbrev pub new_row : Context → String → String → Detection → Row
new_row c repo t d = record {
  id = c.new_id d.other_task_id;
  repository_id = repo;
  task_a_id = least t d.other_task_id;
  task_b_id = greatest t d.other_task_id;
  kinds = d.kinds;
  files = d.files;
  semantic_severity = severity_of d;
  semantic_explanation = explanation_of d;
  semantic_evidence = d.semantic_evidence;
  detected_at = c.now;
  updated_at = c.now;
}

abbrev pub onto : Row → Option (List Row) → Option (List Row)
onto r none = none
onto r (some rows) = some (r ∷ rows)

-- INSERT … ON CONFLICT ON CONSTRAINT task_conflicts_pair_key DO UPDATE; a row that a constraint refuses is an
-- error.
unfoldable pub upsert : Context → String → String → Detection → List Row → Option (List Row)
upsert c repo t d [] =
    let r = new_row c repo t d in
    if row_allowed r && c.in_repository repo t && c.in_repository repo d.other_task_id
    then some (r ∷ [])
    else none
upsert c repo t d (r ∷ rows) =
    let rest = upsert c repo t d rows in
    if is_pair (least t d.other_task_id) (greatest t d.other_task_id) r
    then (if row_allowed (updated_row c.now d r) then some (updated_row c.now d r ∷ rows) else none)
    else onto r rest

-- One statement.
abbrev pub counted : ℕ → Option (List Row) → Option Table
counted healthy none = none
counted healthy (some rows) = some (record { rows = rows; healthy = healthy })

abbrev pub exec : (List Row → Option (List Row)) → Table → Option Table
exec f s = elim s.healthy [ zero ↦ none | suc n ↦ counted n (f s.rows) ]

abbrev pub unchanged : List Row → Option (List Row)
unchanged rows = some rows

-- The loop that deletes the stale pairs.
unfoldable pub delete_stale : String → List Detection → List String → Table → Option Table
delete_stale t m [] s = some s
delete_stale t m (other ∷ others) s = elim (is_desired other m) [
  | true ↦ delete_stale t m others s
  | false ↦
      on_some (exec (λ rows. some (delete_pair (least t other) (greatest t other) rows)) s)
        (delete_stale t m others)
]

-- The loop that writes the pairs.
unfoldable pub upsert_all : Context → String → String → List Detection → Table → Option Table
upsert_all c repo t [] s = some s
upsert_all c repo t (d ∷ m) s = on_some (exec (upsert c repo t d) s) (upsert_all c repo t m)

abbrev pub without_kinds : Detection → Bool
without_kinds d = no_kinds d.kinds

-- `Reconcile`: none is an error, which rolls the transaction back.
unfoldable pub reconcile : Context → String → String → List Detection → Table → Option Table
reconcile c repo t detections s =
    if any without_kinds detections
    then none
    else let m = desired_of [] detections in
      on_some (exec unchanged s) (λ begun. on_some (exec unchanged begun) (λ read.
        on_some (delete_stale t m (existing_others t read.rows) read)
          (λ cleaned. on_some (upsert_all c repo t (by_id m) cleaned) (exec unchanged))))
