-- ===== src/Tests/Conflict.antt =====
-- internal/conflict: two changes, an assessor, and the pairs that are stored.
use agent_trail.Base.{
  String, ◌≡◌, refl, true, false, ◌&&◌, ◌||◌, some, none, List, [], ◌∷◌, ◌++◌, pos,
}
use agent_trail.Text.{codes}
use agent_trail.Chars.Defs.{Chars}
use agent_trail.Conflict.Paths.{has}
use agent_trail.Conflict.Defs.{
  Kind, file_overlap, adjacent_lines, migration, dependency, ChangeSet, any, is_migration,
  is_manifest, kind_if, close, overlap,
}
use agent_trail.Conflict.Overlap.{overlap_comm}
use agent_trail.Conflict.Kinds.{migrates, shares, overlap-finds}
use agent_trail.Conflict.Detector.{Sibling, Detection, GitOps, Assessor, Subject, compare_all}
use agent_trail.Conflict.Semantic.{plain_result, compare_all-plain}
use agent_trail.Conflict.Records.{
  Row, Table, Context, row_allowed, put, desired_of, is_desired, insert_detection, by_id,
  existing_others, delete_pair, upsert, delete_stale, upsert_all, reconcile,
}
use agent_trail.Conflict.Desired.{has_pair, others}
use agent_trail.Conflict.Reconcile.{reconcile-exact}
use agent_trail.Conflict.Refusal.{unstorable, reconcile-refused}

abbrev mine : ChangeSet
mine = record {
  files = codes "go.mod" ∷ codes "db/migrations/7.sql" ∷ [];
  hunks = λ f. record { start = pos 3; end = pos 4 } ∷ [];
}

abbrev theirs : ChangeSet
theirs = record {
  files = codes "api/migrations/8.sql" ∷ codes "go.mod" ∷ [];
  hunks = λ f. record { start = pos 7; end = pos 9 } ∷ [];
}

overlap_comm_example : overlap mine theirs ≡ overlap theirs mine
overlap_comm_example = overlap_comm mine theirs

overlap-finds_example :
    ((overlap mine theirs).0
      ≡ kind_if (shares (λ f. true) mine theirs) file_overlap
        ++ (kind_if (shares (close mine theirs) mine theirs) adjacent_lines
            ++ (kind_if (migrates mine && migrates theirs) migration
                ++ kind_if (shares is_manifest mine theirs) dependency)))
    × ((f : Chars)
        → has f (overlap mine theirs).1 ≡ (
            has f mine.files && has f theirs.files
            || migrates mine
              && migrates theirs
              && is_migration f
              && (has f mine.files || has f theirs.files)))
overlap-finds_example = overlap-finds mine theirs

abbrev git : GitOps
git = record {
  ensure_mirror = some tt;
  has_commit = λ sha. some true;
  changed_files = λ base final. some (codes "go.mod" ∷ []);
  diff_hunks = λ base final. some (λ f. []);
  diff = λ base final. some (codes "-a");
  merge_tree = λ a b. some (false, codes "go.mod" ∷ []);
}

abbrev says_high : Assessor
says_high r = some (record {
  conflicts = true;
  severity = "high";
  explanation = "both change a";
  evidence = "a" ∷ [];
})

abbrev subject : Subject
subject = record { task_id = "t1"; title = "one"; base_sha = "b1"; final_sha = "f1" }

abbrev siblings : List Sibling
siblings = record { task_id = "t2"; title = "two"; base_sha = "b2"; final_sha = "f2" } ∷ []

compare_all-plain_example :
    plain_result (compare_all git (some says_high) subject siblings)
    ≡ compare_all git none subject siblings
compare_all-plain_example = compare_all-plain git (some says_high) subject siblings

abbrev detection : String → List Kind → String → List String → Detection
detection other kinds severity evidence = record {
  other_task_id = other;
  other_task_title = "";
  kinds = kinds;
  files = [];
  semantic_severity = severity;
  semantic_explanation = "";
  semantic_evidence = evidence;
}

abbrev context : Context
context = record { now = 9; new_id = λ other. other; in_repository = λ repo t. true }

abbrev stored : String → String → Row
stored a b = record {
  id = "old";
  repository_id = "r";
  task_a_id = a;
  task_b_id = b;
  kinds = file_overlap ∷ [];
  files = [];
  semantic_severity = none;
  semantic_explanation = none;
  semantic_evidence = [];
  detected_at = 1;
  updated_at = 1;
}

-- A pair that is found again, one that is stale and one of other tasks.
abbrev before : Table
before = record { rows = stored "t1" "t2" ∷ stored "t0" "t1" ∷ stored "t4" "t5" ∷ []; healthy = 20 }

abbrev detections : List Detection
detections = detection "t2" (dependency ∷ []) "" [] ∷ detection "t3" (file_overlap ∷ []) "" [] ∷ []

abbrev after : Table
after = record {
  rows =
      (let old = stored "t1" "t2" in record old { kinds = dependency ∷ []; updated_at = 9 })
      ∷ stored "t4" "t5"
      ∷ (let new = stored "t1" "t3" in record new { id = "t3"; detected_at = 9; updated_at = 9 })
      ∷ [];
  healthy = 14;
}

reconcile-exact_example :
    ((o : String) → has_pair "t1" o after.rows ≡ is_desired o detections)
    × (others "t1" after.rows ≡ others "t1" before.rows)
unfolding reconcile any desired_of put by_id insert_detection existing_others delete_stale
    is_desired delete_pair upsert_all upsert row_allowed
reconcile-exact_example = reconcile-exact context "r" "t1" detections before after refl

abbrev no_conflict : Detection
no_conflict = detection "t3" (file_overlap ∷ []) "low" ("both edit the same file" ∷ [])

reconcile-refused_example :
    reconcile context "r" "t1" (detection "t2" (dependency ∷ []) "" [] ∷ no_conflict ∷ []) before
    ≡ none
unfolding unstorable any
reconcile-refused_example =
    reconcile-refused context "r" "t1" (detection "t2" (dependency ∷ []) "" [] ∷ []) no_conflict
      before refl
