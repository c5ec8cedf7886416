-- ===== src/Git/Commit.antt =====
-- internal/gitworkspace/commit.go: the trailers of a commit message, and the counts of `git diff --numstat`.
use agent_trail.Base.{
  ℕ, ◌+◌, ◌≡◌, refl, Bool, true, false, ◌&&◌, ◌||◌, Option, none, some, List, [], ◌∷◌, ◌++◌, ◌==◌,
  if◌then◌else◌, ℤ, pos, wrap_int, ◌+ℤ◌,
}
use agent_trail.Text.{codes}
use agent_trail.Chars.Defs.{
  Chars, split, cut, trim_right, blank, same_chars, atoi, parse_nat, digits, decimal, is_space,
}

pub record CommitParams : Type 0 where
  pub message : Chars
  pub task_id : Chars
  pub provider : Chars
  pub model : Chars
  pub requested_by : Chars

abbrev pub newline : ℕ
newline = 10

abbrev pub is_newline : ℕ → Bool
is_newline c = c == newline

-- strings.ContainsAny(s, "\r\n")
abbrev pub breaks : Chars → Bool
breaks [] = false
breaks (c ∷ s) = c == 13 || c == newline || breaks s

pub data TrailerError : Type 0 where
  newline_in : Chars → TrailerError
  no_trailer : TrailerError

pub data Trailers : Type 0 where
  written : Chars → Trailers
  refused : TrailerError → Trailers

abbrev pub trailer_line : Chars → Chars → Chars
trailer_line key val = key ++ b':' ∷ b' ' ∷ val

-- A line in front of what the rest of the fields writes.
abbrev pub put_line : Chars → Trailers → Trailers
put_line line (written s) = written (line ++ newline ∷ s)
put_line line (refused e) = refused e

abbrev pub nothing_in : Chars → Bool
nothing_in [] = true
nothing_in (c ∷ s) = false

-- The loop over the fields.
unfoldable pub write_fields : List (Chars × Chars) → Trailers
write_fields [] = written []
write_fields ((key, val) ∷ fields) =
    let rest = write_fields fields in
    if nothing_in val
    then rest
    else if breaks val
    then refused (newline_in key)
    else put_line (trailer_line key val) rest

abbrev pub trailer_fields : CommitParams → List (Chars × Chars)
trailer_fields p =
    (codes "Agent-Trail-Task-ID", p.task_id)
    ∷ (codes "Agent-Trail-Agent-Provider", p.provider)
    ∷ (codes "Agent-Trail-Agent-Model", p.model)
    ∷ (codes "Agent-Trail-Requested-By", p.requested_by)
    ∷ []

abbrev pub finish_trailers : Trailers → Trailers
finish_trailers (refused e) = refused e
finish_trailers (written []) = refused no_trailer
finish_trailers (written (c ∷ s)) = written (trim_right is_newline (c ∷ s))

unfoldable pub build_trailers : CommitParams → Trailers
build_trailers p = finish_trailers (write_fields (trailer_fields p))

pub record Stats : Type 0 where
  pub files_changed : ℕ
  pub insertions : ℤ
  pub deletions : ℤ

abbrev pub second_field : Chars × Option Chars → Option (Chars × Chars × Chars)
second_field (a, none) = none
second_field (a, some s) = third_field a (cut 9 s)
  where
    third_field : Chars → Chars × Option Chars → Option (Chars × Chars × Chars)
    third_field a (b, none) = none
    third_field a (b, some c) = some (a, b, c)

-- strings.SplitN(line, "\t", 3), where it gives three fields
unfoldable pub numstat_fields : Chars → Option (Chars × Chars × Chars)
numstat_fields line = second_field (cut 9 line)

abbrev pub only_dash : Chars → Bool
only_dash s = same_chars s (b'-' ∷ [])

abbrev pub add_counts : Stats → Option ℤ → Option ℤ → Option Stats
add_counts s (some add) (some del) = some (record {
  files_changed = s.files_changed + 1;
  insertions = wrap_int (s.insertions +ℤ add);
  deletions = wrap_int (s.deletions +ℤ del);
})
add_counts s _ _ = none

abbrev pub count_line : Stats → Option (Chars × Chars × Chars) → Option Stats
count_line s none = none
count_line s (some (a, b, path)) =
    if only_dash a && only_dash b
    then some (record s { files_changed = s.files_changed + 1 })
    else add_counts s (atoi a) (atoi b)

abbrev pub on_some {ℓ κ} : {A : Type ℓ} {B : Type κ} → Option A → (A → Option B) → Option B
on_some none f = none
on_some (some a) f = f a

unfoldable pub read_lines : List Chars → Stats → Option Stats
read_lines [] s = some s
read_lines (line ∷ lines) s =
    if blank line
    then read_lines lines s
    else on_some (count_line s (numstat_fields line)) (read_lines lines)

abbrev pub no_stats : Stats
no_stats = record { files_changed = 0; insertions = pos 0; deletions = pos 0 }

unfoldable pub parse_numstat : Chars → Option Stats
parse_numstat out = read_lines (split newline out) no_stats

-- A binary file has no counts.
numstat_run :
    parse_numstat (codes "3\t1\tmain.go\n-\t-\tlogo.png\n")
    ≡ some (record { files_changed = 2; insertions = pos 3; deletions = pos 1 })
unfolding parse_numstat read_lines split numstat_fields cut atoi parse_nat digits decimal same_chars
    wrap_int ◌+ℤ◌ is_space
numstat_run = refl
