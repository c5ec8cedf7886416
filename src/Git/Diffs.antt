-- ===== src/Git/Diffs.antt =====
-- The diffs that git prints with `--unified=0`, as lines, and the ranges of their hunks: what
-- internal/gitworkspace/conflictops.go reads.
use agent_trail.Base.{
  ℕ, ◌≡◌, Bool, true, not, ◌&&◌, leb, ◌==◌, false, none, some, List, [], ◌∷◌, ◌++◌, map,
  if◌then◌else◌,
}
use agent_trail.Text.{codes}
use agent_trail.Chars.Defs.{Chars, after_prefix, same_chars, parse_nat}
use agent_trail.Lease.Choice.{Every}
use agent_trail.Git.Commit.{nothing_in}
use agent_trail.Git.Hunks.{LineRange, range_at, count_of, dev_null}

-- A line of a hunk, without its sign; and what git prints after a last line that has no newline.
pub data BodyLine : Type 0 where
  removed : Chars → BodyLine
  added : Chars → BodyLine
  no_newline : BodyLine

abbrev pub body_text : BodyLine → Chars
body_text (removed s) = b'-' ∷ s
body_text (added s) = b'+' ∷ s
body_text no_newline = codes "\\ No newline at end of file"

pub record Hunk : Type 0 where
  -- the digits of the start and of the count in the old file, and the numbers they stand for
  pub start_text : Chars
  pub count_text : Chars
  pub old_start : ℕ
  pub old_count : ℕ
  -- what follows " +"
  pub tail : Chars
  pub body : List BodyLine

abbrev pub count_suffix : Chars → Chars
count_suffix [] = []
count_suffix (c ∷ s) = b',' ∷ c ∷ s

abbrev pub header_text : Hunk → Chars
header_text h =
    codes "@@ -" ++ (h.start_text ++ (count_suffix h.count_text ++ (codes " +" ++ h.tail)))

pub data Change : Type 0 where
  edited : Chars → Chars → Change
  created : Chars → Change
  deleted : Chars → Change

pub record FileDiff : Type 0 where
  pub preamble : List Chars
  pub change : Change
  pub hunks : List Hunk

-- The path that a change counts for: the new one, and the old one of a file that is gone.
abbrev pub path_of : Change → Chars
path_of (edited old path) = path
path_of (created path) = path
path_of (deleted path) = path

-- A name that git prints as it is: of visible ASCII characters, none a quote or a backslash. After a name with a space it prints
-- a TAB, and any other name it quotes.
abbrev pub plain_name : Chars → Bool
plain_name [] = true
plain_name (c ∷ s) =
    let rest = plain_name s in leb 33 c && leb c 126 && not (c == 34) && not (c == 92) && rest

abbrev pub plain_names : Change → Bool
plain_names (edited old path) = plain_name old && plain_name path
plain_names (created path) = plain_name path
plain_names (deleted path) = plain_name path

-- The lines with a change's names, where these are plain.
abbrev pub name_lines : Change → List Chars
name_lines (edited old path) = (codes "--- a/" ++ old) ∷ (codes "+++ b/" ++ path) ∷ []
name_lines (created path) = codes "--- /dev/null" ∷ (codes "+++ b/" ++ path) ∷ []
name_lines (deleted path) = (codes "--- a/" ++ path) ∷ codes "+++ /dev/null" ∷ []

abbrev pub hunk_lines : List Hunk → List Chars
hunk_lines [] = []
hunk_lines (h ∷ hs) = header_text h ∷ (map body_text h.body ++ hunk_lines hs)

abbrev pub diff_lines : List FileDiff → List Chars
diff_lines [] = []
diff_lines (f ∷ fs) = f.preamble ++ (name_lines f.change ++ (hunk_lines f.hunks ++ diff_lines fs))

-- A line that `parseHunks` passes over.
pub record IsIgnored (line : Chars) : Type 0 where
  pub no_old : after_prefix (codes "--- ") line ≡ none
  pub no_new : after_prefix (codes "+++ ") line ≡ none
  pub no_hunk : after_prefix (codes "@@ ") line ≡ none

-- A removed line must not begin with "-- ", nor an added one with "++ ".
abbrev pub Plain : BodyLine → Type 0
Plain (removed s) = after_prefix (codes "-- ") s ≡ none
Plain (added s) = after_prefix (codes "++ ") s ≡ none
Plain no_newline = Unit {0}

pub record IsHunk (h : Hunk) : Type 0 where
  pub start_reads : parse_nat h.start_text ≡ some h.old_start
  pub count_reads : count_of h.count_text ≡ some h.old_count
  pub body_plain : Every Plain h.body

pub record IsFileDiff (f : FileDiff) : Type 0 where
  pub ignored : Every IsIgnored f.preamble
  pub names_plain : plain_names f.change ≡ true
  pub has_path : nothing_in (path_of f.change) ≡ false
  pub real_path : same_chars (path_of f.change) dev_null ≡ false
  pub hunks_fine : Every IsHunk f.hunks

-- The old file's range of a hunk.
abbrev pub range_of : Hunk → LineRange
range_of h = range_at h.old_start h.old_count

abbrev pub ranges_at : Chars → List FileDiff → List LineRange
ranges_at path [] = []
ranges_at path (f ∷ fs) =
    if same_chars (path_of f.change) path
    then map range_of f.hunks ++ ranges_at path fs
    else ranges_at path fs
