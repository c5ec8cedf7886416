-- ===== src/Tests/Git.antt =====
-- internal/gitworkspace: a branch label, a commit's trailers and two diffs.
use agent_trail.Base.{◌≡◌, refl, true, some, none, List, [], ◌∷◌, ◌++◌}
use agent_trail.Text.{codes}
use agent_trail.Chars.Defs.{
  Chars, split, trim_right, after_prefix, same_chars, trim, trim_left, char_count, parse_nat,
  digits, decimal,
}
use agent_trail.Lease.Choice.{Every}
use agent_trail.Git.Branch.{sanitize_branch, valid_branch_chars, slug_of, dashed, lowered, to_lower}
use agent_trail.Git.Slugs.{sanitize_branch-valid}
use agent_trail.Git.Commit.{CommitParams, newline, trailer_fields, write_fields, build_trailers}
use agent_trail.Git.Messages.{lines_of, build_trailers-lines}
use agent_trail.Git.Hunks.{HunkMap, ranges_of, parse_hunks}
use agent_trail.Git.Diffs.{
  removed, added, no_newline, Hunk, edited, FileDiff, IsFileDiff, ranges_at,
}
use agent_trail.Git.DiffRanges.{parse_hunks-diff, parse_hunks-dashes}

abbrev params : CommitParams
params = record {
  message = codes "Fix the parser";
  task_id = codes "42";
  provider = codes "claude";
  model = [];
  requested_by = codes "ada";
}

abbrev trailer_text : Chars
trailer_text =
    codes "Agent-Trail-Task-ID: 42"
    ++ newline ∷ codes "Agent-Trail-Agent-Provider: claude"
    ++ newline ∷ codes "Agent-Trail-Requested-By: ada"

sanitize_branch-valid_example : valid_branch_chars (codes "agent-trail/fix-the-bug-12") ≡ true
unfolding sanitize_branch slug_of trim trim_left trim_right dashed lowered to_lower char_count
sanitize_branch-valid_example =
    sanitize_branch-valid (codes "Fix: the BUG (#12)!") (codes "agent-trail/fix-the-bug-12") refl

build_trailers-lines_example : split newline trailer_text ≡ lines_of (trailer_fields params)
unfolding build_trailers write_fields trim_right
build_trailers-lines_example = build_trailers-lines params trailer_text refl

abbrev change_text : Chars
change_text =
    codes
      "diff --git a/f b/f\n--- a/f\n+++ b/f\n@@ -3,2 +3 @@\n-x\n-y\n+z\n@@ -9 +8,0 @@\n-w\n\\ No newline at end of file"

abbrev first_hunk : Hunk
first_hunk = record {
  start_text = codes "3";
  count_text = codes "2";
  old_start = 3;
  old_count = 2;
  tail = codes "3 @@";
  body = removed (codes "x") ∷ removed (codes "y") ∷ added (codes "z") ∷ [];
}

abbrev second_hunk : Hunk
second_hunk = record {
  start_text = codes "9";
  count_text = [];
  old_start = 9;
  old_count = 1;
  tail = codes "8,0 @@";
  body = removed (codes "w") ∷ no_newline ∷ [];
}

abbrev change_diff : List FileDiff
change_diff =
    record {
      preamble = codes "diff --git a/f b/f" ∷ [];
      change = edited (codes "f") (codes "f");
      hunks = first_hunk ∷ second_hunk ∷ [];
    }
    ∷ []

change_diff-IsFileDiff : Every IsFileDiff change_diff
unfolding after_prefix same_chars parse_nat digits decimal
change_diff-IsFileDiff = (
  record {
    ignored = (record { no_old = refl; no_new = refl; no_hunk = refl }, tt);
    names_plain = refl;
    has_path = refl;
    real_path = refl;
    hunks_fine = (
      record { start_reads = refl; count_reads = refl; body_plain = (refl, (refl, (refl, tt))) },
      (record { start_reads = refl; count_reads = refl; body_plain = (refl, (tt, tt)) }, tt),
    );
  },
  tt,
)

parse_hunks-diff_example :
    (m : HunkMap) × (parse_hunks change_text ≡ some m)
    × ((path : Chars) → ranges_of path m ≡ ranges_at path change_diff)
unfolding split
parse_hunks-diff_example = parse_hunks-diff change_text change_diff refl change_diff-IsFileDiff

-- The second hunk removes the line `w`; the first one removed the line `-- x`.
abbrev comment_text : Chars
comment_text = codes "--- a/f.sql\n+++ b/f.sql\n@@ -3 +2,0 @@\n--- x\n@@ -9 +8,0 @@\n-w"

parse_hunks-dashes_example : parse_hunks comment_text ≡ none
unfolding split
parse_hunks-dashes_example =
    parse_hunks-dashes comment_text (codes "x") (codes "-9 +8,0 @@")
      (codes "--- a/f.sql" ∷ codes "+++ b/f.sql" ∷ codes "@@ -3 +2,0 @@" ∷ []) (codes "-w" ∷ [])
      refl
