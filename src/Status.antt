-- ===== src/Status.antt =====
-- internal/task/status.go: the statuses of a task, their phases and the transitions.
pub mod Graph
pub mod History
use agent_trail.Base.{
  ℕ, Bool, true, false, not, ◌||◌, List, [], ◌∷◌, String, ◌==◌, str_eq, if◌then◌else◌,
}

-- `type Status string`. A text that names none of the constants is `unknown`.
pub data Status : Type 0 where
  created queued provisioning planning executing validating publishing : Status
  awaiting_review revision_requested completed failed cancelled timed_out : Status
  unknown : String → Status

pub data Phase : Type 0 where
  pending running review terminal_phase : Phase

abbrev rank : Status → ℕ
rank created = 0
rank queued = 1
rank provisioning = 2
rank planning = 3
rank executing = 4
rank validating = 5
rank publishing = 6
rank awaiting_review = 7
rank revision_requested = 8
rank completed = 9
rank failed = 10
rank cancelled = 11
rank timed_out = 12
rank (unknown s) = 13

-- Equality of two statuses, as Go compares them.
abbrev pub status_eq : Status → Status → Bool
status_eq (unknown s) (unknown t) = str_eq s t
status_eq a b = rank a == rank b

unfoldable pub valid : Status → Bool
valid (unknown s) = false
valid _ = true

unfoldable pub terminal : Status → Bool
terminal completed = true
terminal failed = true
terminal cancelled = true
terminal timed_out = true
terminal _ = false

unfoldable pub phase : Status → Phase
phase created = pending
phase queued = pending
phase provisioning = running
phase planning = running
phase executing = running
phase validating = running
phase publishing = running
phase awaiting_review = review
phase revision_requested = review
phase _ = terminal_phase

-- `from.Phase() == PhaseRunning`
abbrev is_running : Phase → Bool
is_running running = true
is_running _ = false

happy_path : Status → List Status
happy_path created = queued ∷ []
happy_path queued = provisioning ∷ []
happy_path provisioning = planning ∷ []
happy_path planning = executing ∷ []
happy_path executing = validating ∷ []
happy_path validating = publishing ∷ []
happy_path publishing = awaiting_review ∷ []
happy_path awaiting_review = completed ∷ revision_requested ∷ []
happy_path revision_requested = queued ∷ completed ∷ []
happy_path _ = []

-- The loop over `happyPath[from]`.
contains : List Status → Status → Bool
contains [] to = false
contains (next ∷ rest) to = status_eq next to || contains rest to

unfoldable pub can_transition : Status → Status → Bool
unfolding valid terminal phase happy_path contains
can_transition from to =
    if not (valid from) || not (valid to) || terminal from
    then false
    else if status_eq to cancelled
    then true
    else if status_eq to failed
    then is_running (phase from)
    else if status_eq to timed_out
    then is_running (phase from) || status_eq from awaiting_review
    else contains (happy_path from) to
