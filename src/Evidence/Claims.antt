-- ===== src/Evidence/Claims.antt =====
-- internal/runner/executor.go: what `generateEvidence` reads in the events of an attempt.
use agent_trail.Base.{
  ℕ, ◌≡◌, refl, String, Bool, true, false, not, ◌||◌, Option, none, some, List, [], ◌∷◌, ◌++◌, ℤ,
  pos, str_eq, int_eq, ◌==◌, if◌then◌else◌,
}
use agent_trail.Text.{codes}
use agent_trail.Chars.Defs.{
  Chars, split, trim, trim_left, trim_right, is_space, is_decimal, blank, atoi,
}
use agent_trail.Task.{Payload, Event}
use agent_trail.Store.Reads.{Entry}
use agent_trail.Evidence.Defs.{CheckResult}

-- The last value of a key in a JSON object.
unfoldable pub field : String → Payload → Option String
field k [] = none
field k ((x, v) ∷ rest) = elim (field k rest) [
  | some w ↦ some w
  | none ↦ if str_eq x k then some v else none
]

-- `\s` of a regular expression
is_blank : ℕ → Bool
is_blank c = c == 32 || c == 9 || c == 10 || c == 12 || c == 13

abbrev after_mark : Chars → Chars → Chars
after_mark line [] = line
after_mark line (c ∷ rest) = if c == b'.' || c == b')' then trim_left is_blank rest else line

after_digits : Chars → Bool → Chars → Chars
after_digits line seen [] = line
after_digits line seen (c ∷ rest) =
    let further = after_digits line true rest in
    if is_decimal c then further else if seen then after_mark line (c ∷ rest) else line

-- planStepRe.ReplaceAllString(line, ""): `^\s*\d+[.)]\s*`
unfoldable pub without_number : Chars → Chars
unfolding is_blank after_digits
without_number line = after_digits line false (trim_left is_blank line)

unfoldable pub steps_of : List Chars → List Chars
steps_of [] = []
steps_of (line ∷ rest) =
    let step = trim is_space (without_number line) in
    let steps = steps_of rest in if blank step then steps else step ∷ steps

-- `planSteps`
unfoldable pub plan_steps : Chars → List Chars
plan_steps text = steps_of (split b'\n' text)

-- What the loop over the events has gathered.
pub record Gathered : Type 0 where
  pub plan : List Chars
  pub files : List String
  pub claimed : List CheckResult

abbrev among : String → List String → Bool
among x [] = false
among x (y ∷ l) = str_eq x y || among x l

abbrev with_plan : Option String → Gathered → Gathered
with_plan none g = g
with_plan (some p) g = if str_eq p "" then g else record g { plan = plan_steps (codes p) }

abbrev with_file : Option String → Gathered → Gathered
with_file none g = g
with_file (some p) g =
    if str_eq p "" || among p g.files then g else record g { files = g.files ++ p ∷ [] }

-- A claimed exit code; an object whose exit code is no integer is not read at all.
pub data Code : Type 0 where
  absent malformed : Code
  given : ℤ → Code

abbrev code_number : Option ℤ → Code
code_number none = malformed
code_number (some n) = given n

abbrev code_of : Option String → Code
code_of none = absent
code_of (some s) = code_number (atoi (codes s))

-- No exit code is no verdict.
unfoldable pub claim_status : Option ℤ → String
claim_status none = "unknown"
claim_status (some n) = if int_eq n (pos 0) then "passed" else "failed"

abbrev claim_of : String → Option ℤ → CheckResult
claim_of command code = record {
  name = command;
  category = "custom";
  status = claim_status code;
  trusted_execution = false;
  exit_code = code;
  duration_ms = pos 0;
  summary = "";
}

abbrev claimed_command : String → Code → Gathered → Gathered
claimed_command command malformed g = g
claimed_command command absent g =
    if str_eq command "" then g else record g { claimed = g.claimed ++ claim_of command none ∷ [] }
claimed_command command (given n) g =
    if str_eq command ""
    then g
    else record g { claimed = g.claimed ++ claim_of command (some n) ∷ [] }

abbrev with_command : Option String → Code → Gathered → Gathered
with_command none code g = g
with_command (some command) code g = claimed_command command code g

-- The body of the loop.
unfoldable pub gather : String → Gathered → Event → Gathered
gather aid g e =
    if not (str_eq e.task_attempt_id aid) || not (str_eq e.source "agent")
    then g
    else if str_eq e.event_type "plan.created"
    then with_plan (field "plan" e.payload) g
    else if str_eq e.event_type "file.changed"
    then with_file (field "path" e.payload) g
    else if str_eq e.event_type "command.completed"
    then with_command (field "command" e.payload) (code_of (field "exit_code" e.payload)) g
    else g

unfoldable pub gather_from : String → Gathered → List Entry → Gathered
gather_from aid g [] = g
gather_from aid g ((n, e) ∷ rest) = gather_from aid (gather aid g e) rest

abbrev pub gathered : String → List Entry → Gathered
gathered aid = gather_from aid (record { plan = []; files = []; claimed = [] })

two_steps :
    plan_steps (codes "1. read\n  2) write \n\nrest")
    ≡ codes "read" ∷ codes "write" ∷ codes "rest" ∷ []
unfolding plan_steps steps_of without_number after_digits is_blank split trim trim_left trim_right
    is_space
two_steps = refl
