-- ===== src/Git/Hunks.antt =====
-- internal/gitworkspace/conflictops.go: the line ranges of `git diff --unified=0`, and the paths of
-- `git merge-tree`.
use agent_trail.Base.{
  ℕ, ◌+◌, ◌-◌, ◌≡◌, refl, Bool, true, false, not, ◌&&◌, ◌||◌, Option, none, some, List, [], ◌∷◌,
  ◌++◌, ◌==◌, if◌then◌else◌, ℤ, pos, wrap_int,
}
use agent_trail.Text.{codes}
use agent_trail.Chars.Defs.{
  Chars, split, after_prefix, trim_prefix, same_chars, is_decimal, parse_nat, digits, decimal,
}
use agent_trail.Git.Commit.{newline, on_some, nothing_in}

pub record LineRange : Type 0 where
  pub start : ℤ
  pub end : ℤ

-- A map from paths to ranges, in the order of the first ranges.
abbrev pub HunkMap : Type 0
HunkMap = List (Chars × List LineRange)

unfoldable pub add_range : Chars → LineRange → HunkMap → HunkMap
add_range path r [] = (path, r ∷ []) ∷ []
add_range path r ((p, rs) ∷ m) =
    let rest = add_range path r m in
    if same_chars p path then (p, rs ++ r ∷ []) ∷ m else (p, rs) ∷ rest

unfoldable pub ranges_of : Chars → HunkMap → List LineRange
ranges_of path [] = []
ranges_of path ((p, rs) ∷ m) = if same_chars p path then rs else ranges_of path m

pub record ParseState : Type 0 where
  pub old_path : Chars
  pub current : Chars
  pub hunks : HunkMap

-- \d*, and the text after it
unfoldable pub leading_digits : Chars → Chars × Chars
leading_digits [] = ([], [])
leading_digits (c ∷ s) =
    let (ds, rest) = leading_digits s in if is_decimal c then (c ∷ ds, rest) else ([], c ∷ s)

abbrev pub plus_follows : Chars → Bool
plus_follows s = elim (after_prefix (codes " +") s) [ none ↦ false | some t ↦ true ]

abbrev pub count_part : Chars → Chars × Chars → Option (Chars × Chars)
count_part start (ds, s) = if not (nothing_in ds) && plus_follows s then some (start, ds) else none

-- (?:,(\d+))? \+ — the count is the empty text where it is left out.
abbrev pub after_start : Chars × Chars → Option (Chars × Chars)
after_start (start, []) = none
after_start (start, c ∷ s) =
    if nothing_in start
    then none
    else if c == b','
    then count_part start (leading_digits s)
    else if plus_follows (c ∷ s)
    then some (start, [])
    else none

-- `hunkHeaderRe`: the digits of the start and of the count
unfoldable pub hunk_header : Chars → Option (Chars × Chars)
hunk_header line = on_some (after_prefix (codes "@@ -") line) (λ s. after_start (leading_digits s))

abbrev pub range_at : ℕ → ℕ → LineRange
range_at start count =
    if count == 0
    then record { start = pos start; end = pos start }
    else record { start = pos start; end = wrap_int (pos (start + count - 1)) }

abbrev pub count_of : Chars → Option ℕ
count_of [] = some 1
count_of (c ∷ s) = parse_nat (c ∷ s)

unfoldable pub hunk_range : Chars → Option LineRange
hunk_range line = on_some (hunk_header line) (λ (start, count).
    on_some (parse_nat start) (λ n. on_some (count_of count) (λ k. some (range_at n k))))

abbrev pub dev_null : Chars
dev_null = codes "/dev/null"

abbrev pub add_hunk : ParseState → Chars → Option ParseState
add_hunk st line =
    if nothing_in st.current || same_chars st.current dev_null
    then none
    else on_some (hunk_range line)
        (λ r. some (record st { hunks = add_range st.current r st.hunks }))

abbrev pub hunk_line : ParseState → Chars → Option Chars → Option ParseState
hunk_line st line none = some st
hunk_line st line (some _) = add_hunk st line

abbrev pub new_line : ParseState → Chars → Option Chars → Option ParseState
new_line st line none = hunk_line st line (after_prefix (codes "@@ ") line)
new_line st line (some s) =
    let path = trim_prefix (codes "b/") s in
    some (record st { current = if same_chars path dev_null then st.old_path else path })

abbrev pub old_line : ParseState → Chars → Option Chars → Option ParseState
old_line st line none = new_line st line (after_prefix (codes "+++ ") line)
old_line st line (some s) = some (record st { old_path = trim_prefix (codes "a/") s; current = [] })

-- The `switch` on one line.
unfoldable pub read_line : ParseState → Chars → Option ParseState
read_line st line = old_line st line (after_prefix (codes "--- ") line)

unfoldable pub read_diff : ParseState → List Chars → Option ParseState
read_diff st [] = some st
read_diff st (line ∷ lines) = on_some (read_line st line) (λ next. read_diff next lines)

abbrev pub start_state : ParseState
start_state = record { old_path = []; current = []; hunks = [] }

abbrev pub hunks_of : Option ParseState → Option HunkMap
hunks_of none = none
hunks_of (some st) = some st.hunks

-- `none` is an error.
unfoldable pub parse_hunks : Chars → Option HunkMap
parse_hunks out = hunks_of (read_diff start_state (split newline out))

abbrev drop_empty : List Chars → List Chars
drop_empty [] = []
drop_empty ([] ∷ lines) = drop_empty lines
drop_empty ((c ∷ s) ∷ lines) = (c ∷ s) ∷ drop_empty lines

abbrev after_first : List Chars → List Chars
after_first [] = []
after_first (line ∷ lines) = lines

-- `MergeTree` on what git printed and its exit code: whether the merge is clean, and the conflicted paths.
unfoldable pub merge_tree_result : Chars → ℕ → Bool × List Chars
merge_tree_result out code =
    if code == 0 then (true, []) else (false, drop_empty (after_first (split newline out)))

hunks_run :
    parse_hunks (
      codes
        "diff --git a/f b/f\n--- a/f\n+++ b/f\n@@ -3,2 +3 @@ func\n-x\n-y\n+z\n@@ -9,0 +9 @@\n+w")
    ≡ some (
        (
          codes "f",
          record { start = pos 3; end = pos 4 } ∷ record { start = pos 9; end = pos 9 } ∷ [],
        )
        ∷ [])
unfolding parse_hunks read_diff read_line split hunk_range hunk_header leading_digits after_prefix
    add_range same_chars parse_nat digits decimal wrap_int
hunks_run = refl
