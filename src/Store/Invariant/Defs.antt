-- ===== src/Store/Invariant/Defs.antt =====
-- The well-formedness of the tables.
use agent_trail.Base.{ℕ, ◌≤◌, String, ◌≡◌, Bool, true, not, ◌&&◌, none, some, List, leb, ◌==◌, bit}
use agent_trail.Status.{terminal, valid, phase}
use agent_trail.Task.{Task, Attempt, Event}
use agent_trail.Table.{find, count, greatest}
use agent_trail.Db.{Db}
use agent_trail.Store.Statements.{
  is_some, task_is, attempt_is, active_of, of_task, event_of, same_issue,
}

-- A task's phase and completion time follow from its status.
pub record RowOk (t : Task) : Type 0 where
  pub phased : t.phase ≡ phase t.status
  pub completes : is_some t.completed_at ≡ terminal t.status
  pub known : valid t.status ≡ true
  pub versioned : 1 ≤ t.version

pub record TasksOk (tasks : List Task) : Type 0 where
  pub unique : (id : String) → count (task_is id) tasks ≤ 1
  -- tasks_one_active_per_issue_idx
  pub issues : (x : Task) → count (same_issue x) tasks ≤ 1
  pub rows : (id : String) (t : Task) → find (task_is id) tasks ≡ some t → RowOk t

-- How many active attempts a task has to have: one until it is final.
unfoldable pub open_count : String → List Task → ℕ
open_count tid tasks = elim (find (task_is tid) tasks) [
  | none ↦ 0
  | some t ↦ bit (not (terminal t.status))
]

abbrev pub numbered : String → ℕ → Attempt → Bool
numbered tid n a = of_task tid a && a.number == n

abbrev pub in_range : ℕ → ℕ → Bool
in_range n k = leb 1 n && leb n k

-- An active attempt of the task that does not have the number k.
abbrev pub stale : String → ℕ → Attempt → Bool
stale tid k a = active_of tid a && not (a.number == k)

-- The attempts of a task are numbered 1, 2, …; `open` gives how many of them are active, and
-- that is the last one.
pub record AttemptsOk (open_of : String → ℕ) (attempts : List Attempt) : Type 0 where
  pub unique : (id : String) → count (attempt_is id) attempts ≤ 1
  pub active_count : (tid : String) → count (active_of tid) attempts ≡ open_of tid
  pub numbers :
      (tid : String) (n : ℕ)
      → count (numbered tid n) attempts ≡ bit (in_range n (count (of_task tid) attempts))
  pub latest : (tid : String) → count (stale tid (count (of_task tid) attempts)) attempts ≡ 0

abbrev pub sequenced : String → ℕ → Event → Bool
sequenced aid n e = event_of aid e && e.sequence_number == n

-- The events of an attempt are numbered 1, 2, ….
pub record EventsOk (events : List Event) : Type 0 where
  pub highest :
      (aid : String)
      → greatest (event_of aid) (λ e. e.sequence_number) events ≡ count (event_of aid) events
  pub dense :
      (aid : String) (n : ℕ)
      → count (sequenced aid n) events ≡ bit (in_range n (count (event_of aid) events))

pub record Wf (db : Db) : Type 0 where
  pub tasks_ok : TasksOk db.tasks
  pub attempts_ok : AttemptsOk (λ tid. open_count tid db.tasks) db.attempts
  pub events_ok : EventsOk db.events
  -- no attempt without its task
  pub owned :
      (tid : String) → find (task_is tid) db.tasks ≡ none → count (of_task tid) db.attempts ≡ 0
