-- ===== src/Git/DiffRanges.antt =====
-- internal/gitworkspace/conflictops.go: the ranges that a diff's hunks give, and a diff that is not read.
use agent_trail.Base.{
  ◌≡◌, refl, sym, ap, ◌∙◌, Bool, true, false, Option, none, some, List, [], ◌∷◌, ◌++◌, map,
  if◌then◌else◌, Bool-cases, inl, inr,
}
use mathlib.Core.List.{append_assoc, append-nil}
use agent_trail.Chars.Same.{same_comm, same_trans}
use agent_trail.Text.{codes}
use agent_trail.Chars.Defs.{Chars, split, after_prefix, same_chars}
use agent_trail.Lease.Choice.{Every}
use agent_trail.Git.Commit.{newline, on_some}
use agent_trail.Git.Hunks.{
  LineRange, HunkMap, add_range, ranges_of, ParseState, read_line, read_diff, start_state, hunks_of,
  parse_hunks,
}
use agent_trail.Git.Diffs.{
  Change, edited, created, deleted, FileDiff, path_of, name_lines, hunk_lines, diff_lines,
  IsFileDiff, range_of, ranges_at,
}
use agent_trail.Git.DiffLines.{read-preamble, at_path, read-names, add_all, with_ranges, read-hunks}

-- The ranges of the files, added in their order.
abbrev ranges_in : List FileDiff → HunkMap → HunkMap
ranges_in [] m = m
ranges_in (f ∷ fs) m = ranges_in fs (add_all (path_of f.change) (map range_of f.hunks) m)

at_path-current : (st : ParseState) (c : Change) → (at_path st c).current ≡ path_of c
unfolding at_path
at_path-current st (edited old path) = refl
at_path-current st (created path) = refl
at_path-current st (deleted path) = refl

at_path-hunks : (st : ParseState) (c : Change) → (at_path st c).hunks ≡ st.hunks
unfolding at_path
at_path-hunks st (edited old path) = refl
at_path-hunks st (created path) = refl
at_path-hunks st (deleted path) = refl

-- The state after a file's lines.
file_state : ParseState → FileDiff → ParseState
file_state st f = with_ranges (at_path st f.change) (map range_of f.hunks)

file_state-hunks :
    (st : ParseState) (f : FileDiff)
    → (file_state st f).hunks ≡ add_all (path_of f.change) (map range_of f.hunks) st.hunks
unfolding file_state
file_state-hunks st f = rw (at_path-current st f.change, at_path-hunks st f.change) refl

read-file :
    (st : ParseState) (f : FileDiff) (rest : List Chars)
    → IsFileDiff f
    → read_diff st (f.preamble ++ (name_lines f.change ++ (hunk_lines f.hunks ++ rest)))
      ≡ read_diff (file_state st f) rest
unfolding file_state
read-file st f rest k =
    read-preamble st f.preamble (name_lines f.change ++ (hunk_lines f.hunks ++ rest)) k.ignored
    ∙ read-names st f.change (hunk_lines f.hunks ++ rest) k.real_path
    ∙ read-hunks (at_path st f.change) f.hunks rest k.hunks_fine
        (rw (at_path-current st f.change) k.has_path) (rw (at_path-current st f.change) k.real_path)

read-files :
    (st : ParseState) (fs : List FileDiff)
    → Every IsFileDiff fs
    → hunks_of (read_diff st (diff_lines fs)) ≡ some (ranges_in fs st.hunks)
unfolding read_diff
read-files st [] k = refl
read-files st (f ∷ fs) k =
    ap hunks_of (read-file st f (diff_lines fs) k.0)
    ∙ read-files (file_state st f) fs k.1
    ∙ ap (λ m. some (ranges_in fs m)) (file_state-hunks st f)

-- What one more range changes for a path.
abbrev with_one : Bool → List LineRange → LineRange → List LineRange
with_one true rs r = rs ++ r ∷ []
with_one false rs r = rs

ranges-add :
    (path q : Chars) (r : LineRange) (m : HunkMap)
    → ranges_of q (add_range path r m) ≡ with_one (same_chars path q) (ranges_of q m) r
unfolding ranges_of add_range
ranges-add path q r [] = elim (Bool-cases (same_chars path q)) [
  | inl h ↦ rw h refl
  | inr h ↦ rw h refl
]
ranges-add path q r ((p, rs) ∷ m) = elim (Bool-cases (same_chars p path)) [
  | inl h ↦
      let same = same_trans p path q h in
      elim (Bool-cases (same_chars path q)) [
        | inl k ↦ rw (h, same, k) refl
        | inr k ↦ rw (h, same, k) refl
      ]
  | inr h ↦ elim (Bool-cases (same_chars p q)) [
    | inl k ↦ rw (h, k, other p path q h k) refl
    | inr k ↦ rw (h, k) (ranges-add path q r m)
  ]
]
  where
    other :
        (p path q : Chars)
        → same_chars p path ≡ false
        → same_chars p q ≡ true
        → same_chars path q ≡ false
    other p path q h k = same_comm path q ∙ sym (same_trans p q path k) ∙ h

ranges-all :
    (path q : Chars) (rs : List LineRange) (m : HunkMap)
    → ranges_of q (add_all path rs m)
      ≡ (if same_chars path q then ranges_of q m ++ rs else ranges_of q m)
ranges-all path q [] m = elim (Bool-cases (same_chars path q)) [
  | inl h ↦ rw (h, append-nil (ranges_of q m)) refl
  | inr h ↦ rw h refl
]
ranges-all path q (r ∷ rs) m = elim (Bool-cases (same_chars path q)) [
  | inl h ↦
      ranges-all path q rs (add_range path r m)
      ∙ (rw (ranges-add path q r m, h, append_assoc (ranges_of q m) (r ∷ []) rs) refl)
  | inr h ↦ ranges-all path q rs (add_range path r m) ∙ (rw (ranges-add path q r m, h) refl)
]

ranges-files :
    (q : Chars) (fs : List FileDiff) (m : HunkMap)
    → ranges_of q (ranges_in fs m) ≡ ranges_of q m ++ ranges_at q fs
ranges-files q [] m = sym (append-nil (ranges_of q m))
ranges-files q (f ∷ fs) m =
    let path = path_of f.change in
    let rs = map range_of f.hunks in
    elim (Bool-cases (same_chars path q)) [
      | inl h ↦
          ranges-files q fs (add_all path rs m)
          ∙ (rw (ranges-all path q rs m, h, append_assoc (ranges_of q m) rs (ranges_at q fs)) refl)
      | inr h ↦ ranges-files q fs (add_all path rs m) ∙ (rw (ranges-all path q rs m, h) refl)
    ]

read-cons :
    (st : ParseState) (l : Chars) (ls : List Chars)
    → read_diff st (l ∷ ls) ≡ on_some (read_line st l) (λ after. read_diff after ls)
unfolding read_diff
read-cons st l ls = refl

always-none :
    (r : Option ParseState) (f : ParseState → Option ParseState)
    → ((st : ParseState) → f st ≡ none)
    → on_some r f ≡ none
always-none none f h = refl
always-none (some st) f h = h st

read-dashes :
    (st : ParseState) (text header : Chars) (rest : List Chars)
    → read_diff st ((codes "--- " ++ text) ∷ (codes "@@ " ++ header) ∷ rest) ≡ none
unfolding read_diff read_line after_prefix
read-dashes st text header rest = refl

-- Where the lines of git's output are those of a diff (each file's lines that carry no hunk, its names,
-- which are of visible ASCII characters without a quote or a backslash, then its hunks, no removed line beginning with "-- " and no added one with "++ "), `parseHunks` succeeds, and the
-- ranges that it has for a path are those of the path's hunks in the old file, all of them and in their order.
pub parse_hunks-diff :
    (out : Chars) (fs : List FileDiff)
    → split newline out ≡ diff_lines fs
    → Every IsFileDiff fs
    → (m : HunkMap) × (parse_hunks out ≡ some m)
      × ((path : Chars) → ranges_of path m ≡ ranges_at path fs)
unfolding parse_hunks ranges_of
parse_hunks-diff out fs e k = (
  ranges_in fs [],
  ap (λ ls. hunks_of (read_diff start_state ls)) e ∙ read-files start_state fs k,
  λ path. ranges-files path fs [],
)

-- A removed line that begins with "-- ", printed with its sign as "--- …", is read as the name of a file: the
-- header of a hunk right after it, as `git diff --unified=0` prints the next hunk of that file, makes
-- `parseHunks` fail, whatever lines came before and come after.
pub parse_hunks-dashes :
    (out text header : Chars) (before after : List Chars)
    → split newline out ≡ before ++ (codes "--- " ++ text) ∷ (codes "@@ " ++ header) ∷ after
    → parse_hunks out ≡ none
unfolding parse_hunks
parse_hunks-dashes out text header before after e =
    ap (λ ls. hunks_of (read_diff start_state ls)) e ∙ ap hunks_of (fails start_state before)
  where
    fails :
        (st : ParseState) (ls : List Chars)
        → read_diff st (ls ++ (codes "--- " ++ text) ∷ (codes "@@ " ++ header) ∷ after) ≡ none
    fails st [] = read-dashes st text header after
    fails st (l ∷ ls) =
        let rest = ls ++ (codes "--- " ++ text) ∷ (codes "@@ " ++ header) ∷ after in
        read-cons st l rest
        ∙ always-none (read_line st l) (λ mid. read_diff mid rest) (λ mid. fails mid ls)
