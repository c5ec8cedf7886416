-- ===== src/GitHub/Command.antt =====
-- internal/github/command.go: the commands of a comment.
use agent_trail.Base.{Bool, List, [], ◌∷◌, if◌then◌else◌, ◌≡◌, refl}
use agent_trail.Text.{codes}
use agent_trail.Chars.Defs.{Chars, same_chars, split, fields, is_space}
use agent_trail.Git.Commit.{newline}

pub data Verb : Type 0 where
  run_task : Verb
  revise : Verb

-- `Known` is that there is a verb.
pub data Command : Type 0 where
  -- not addressed
  nothing : Command
  -- addressed, but unknown
  unknown : Command
  known : Verb → Command

abbrev pub verb_of : List Chars → Command
verb_of (w ∷ []) =
    if same_chars w (codes "run")
    then known run_task
    else if same_chars w (codes "revise")
    then known revise
    else unknown
verb_of _ = unknown

abbrev pub is_address : Chars → Bool
is_address w = same_chars w (codes "/agent-trail")

abbrev pub line_command : List Chars → Command → Command
line_command [] rest = rest
line_command (w ∷ ws) rest = if is_address w then verb_of ws else rest

-- The loop over the lines. The newline that `strings.Lines` keeps is a space to `strings.Fields`.
unfoldable pub first_command : List Chars → Command
first_command [] = nothing
first_command (line ∷ lines) = line_command (fields line) (first_command lines)

unfoldable pub parse_command : Chars → Command
parse_command body = first_command (split newline body)

command_run :
    parse_command (codes "please\n /agent-trail  revise \n/agent-trail stop") ≡ known revise
unfolding parse_command first_command split fields is_space same_chars
command_run = refl
