-- ===== src/Conflict/Detector.antt =====
-- internal/conflict/conflict.go, semantic.go and detector.go: how a task is compared with the active tasks of
-- its repository.
use agent_trail.Base.{
  String, Bool, true, false, not, ◌&&◌, ◌||◌, Option, none, some, List, [], ◌∷◌, ◌++◌,
  if◌then◌else◌, str_eq,
}
use agent_trail.Chars.Defs.{Chars}
use agent_trail.Git.Hunks.{LineRange}
use agent_trail.Git.Commit.{on_some}
use agent_trail.Conflict.Paths.{sort, add_keys}
use agent_trail.Conflict.Defs.{Kind, merge_conflict, semantic, ChangeSet, overlap}

pub record Sibling : Type 0 where
  pub task_id : String
  pub title : String
  pub base_sha : String
  pub final_sha : String

pub record SemanticVerdict : Type 0 where
  pub conflicts : Bool
  pub severity : String
  pub explanation : String
  pub evidence : List String

pub record SemanticRequest : Type 0 where
  pub task_id : String
  pub task_title : String
  pub task_diff : Chars
  pub other_task_id : String
  pub other_task_title : String
  pub other_task_diff : Chars

pub record Detection : Type 0 where
  pub other_task_id : String
  pub other_task_title : String
  pub kinds : List Kind
  pub files : List Chars
  pub semantic_severity : String
  pub semantic_explanation : String
  pub semantic_evidence : List String

-- `GitOps` on one repository; none is an error.
pub record GitOps : Type 0 where
  pub ensure_mirror : Option (Unit {0})
  pub has_commit : String → Option Bool
  pub changed_files : String → String → Option (List Chars)
  pub diff_hunks : String → String → Option (Chars → List LineRange)
  pub diff : String → String → Option Chars
  pub merge_tree : String → String → Option (Bool × List Chars)

-- `SemanticAssessor`; none is an error.
abbrev pub Assessor : Type 0
Assessor = SemanticRequest → Option SemanticVerdict

-- The task that is compared, with its commits.
pub record Subject : Type 0 where
  pub task_id : String
  pub title : String
  pub base_sha : String
  pub final_sha : String

abbrev pub known_severity : String → Bool
known_severity s = str_eq s "low" || str_eq s "medium" || str_eq s "high"

abbrev pub no_evidence : List String → Bool
no_evidence [] = true
no_evidence (e ∷ l) = false

-- `validateVerdict`: whether the error is nil.
unfoldable pub valid_verdict : SemanticVerdict → Bool
valid_verdict v =
    not v.conflicts
    || (known_severity v.severity && not (str_eq v.explanation "") && not (no_evidence v.evidence))

unfoldable pub commits_present : GitOps → List String → Option Bool
commits_present g [] = some true
commits_present g (sha ∷ shas) = elim (g.has_commit sha) [
  | none ↦ none
  | some b ↦ elim b [ false ↦ some false | true ↦ commits_present g shas ]
]

unfoldable pub change_set : GitOps → String → String → Option ChangeSet
change_set g base final = on_some (g.changed_files base final) (λ files.
    on_some (g.diff_hunks base final) (λ hunks. some (record { files = files; hunks = hunks })))

unfoldable pub merge_sorted : List Chars → List Chars → List Chars
merge_sorted a b = sort (add_keys (add_keys [] a) b)

abbrev pub no_verdict : SemanticVerdict
no_verdict = record { conflicts = false; severity = ""; explanation = ""; evidence = [] }

abbrev or_no_verdict : Option SemanticVerdict → SemanticVerdict
or_no_verdict none = no_verdict
or_no_verdict (some v) = if valid_verdict v then v else no_verdict

abbrev request : Subject → Chars → Sibling → Chars → SemanticRequest
request t self_diff sib other_diff = record {
  task_id = t.task_id;
  task_title = t.title;
  task_diff = self_diff;
  other_task_id = sib.task_id;
  other_task_title = sib.title;
  other_task_diff = other_diff;
}

-- The verdict on a sibling: a zero value where there is no assessor, no diff, or an error.
unfoldable pub assess : GitOps → Option Assessor → Subject → Chars → Sibling → SemanticVerdict
assess g none t self_diff sib = no_verdict
assess g (some ask) t [] sib = no_verdict
assess g (some ask) t (c ∷ self_diff) sib = or_no_verdict (
    on_some (g.diff sib.base_sha sib.final_sha)
      (λ other. ask (request t (c ∷ self_diff) sib other)))

abbrev pub no_kinds : List Kind → Bool
no_kinds [] = true
no_kinds (k ∷ l) = false

-- The detection of a sibling, where there is a kind.
abbrev pub judged : Sibling → List Kind → List Chars → SemanticVerdict → List Detection
judged sib kinds files v =
    let all = if v.conflicts then kinds ++ semantic ∷ [] else kinds in
    if no_kinds all
    then []
    else record {
      other_task_id = sib.task_id;
      other_task_title = sib.title;
      kinds = all;
      files = files;
      semantic_severity = v.severity;
      semantic_explanation = v.explanation;
      semantic_evidence = v.evidence;
    }
      ∷ []

-- What a merge that is not clean adds.
abbrev pub with_merge : Bool × List Chars → List Kind × List Chars → List Kind × List Chars
with_merge (clean, conflicted) (kinds, files) =
    if clean then (kinds, files) else (kinds ++ merge_conflict ∷ [], merge_sorted files conflicted)

abbrev pub compared :
    GitOps → Option Assessor → Subject → ChangeSet → Chars → Sibling → Option (List Detection)
compared g sem t self self_diff sib = on_some (change_set g sib.base_sha sib.final_sha) (λ other.
    on_some (g.merge_tree t.final_sha sib.final_sha) (λ merge.
      let (kinds, files) = with_merge merge (overlap self other) in
      some (judged sib kinds files (assess g sem t self_diff sib))))

-- The body of the loop; a sibling whose commits are missing is skipped.
unfoldable pub detect_one :
    GitOps → Option Assessor → Subject → ChangeSet → Chars → Sibling → Option (List Detection)
detect_one g sem t self self_diff sib =
    on_some (commits_present g (sib.base_sha ∷ sib.final_sha ∷ []))
      (λ present. if present then compared g sem t self self_diff sib else some [])

-- The detections, with or without an error.
pub data Detected : Type 0 where
  detected : List Detection → Detected
  failed : List Detection → Detected

abbrev pub in_front : List Detection → Detected → Detected
in_front l (detected m) = detected (l ++ m)
in_front l (failed m) = failed (l ++ m)

-- The loop over the siblings, which an error ends.
unfoldable pub detect_all :
    GitOps → Option Assessor → Subject → ChangeSet → Chars → List Sibling → Detected
detect_all g sem t self self_diff [] = detected []
detect_all g sem t self self_diff (sib ∷ sibs) = elim (detect_one g sem t self self_diff sib) [
  | none ↦ failed []
  | some l ↦ in_front l (detect_all g sem t self self_diff sibs)
]

abbrev or_no_diff : Option Chars → Chars
or_no_diff none = []
or_no_diff (some d) = d

-- The task's own diff, which only an assessor needs.
abbrev pub self_diff_of : GitOps → Option Assessor → Subject → Chars
self_diff_of g none t = []
self_diff_of g (some ask) t = or_no_diff (g.diff t.base_sha t.final_sha)

-- Between the siblings and `Reconcile`.
unfoldable pub compare_all : GitOps → Option Assessor → Subject → List Sibling → Detected
compare_all g sem t siblings =
    elim (on_some g.ensure_mirror (λ u. change_set g t.base_sha t.final_sha)) [
      | none ↦ failed []
      | some self ↦ detect_all g sem t self (self_diff_of g sem t) siblings
    ]

abbrev reconciled {ℓ} : {D : Type ℓ} → D → List Detection → Option D → Detected × D
reconciled db l none = (failed [], db)
reconciled db l (some db') = (detected l, db')

abbrev recorded {ℓ} : {D : Type ℓ} → (List Detection → D → Option D) → D → Detected → Detected × D
recorded reconcile db (failed l) = (failed l, db)
recorded reconcile db (detected l) = reconciled db l (reconcile l db)

-- `Detect`: `siblings` is what `ActiveSiblings` gives, `reconcile` what `Reconcile` does to the database.
unfoldable pub detect {ℓ} :
    {D : Type ℓ}
    → GitOps
    → Option Assessor
    → (List Detection → D → Option D)
    → Subject
    → Option (List Sibling)
    → D
    → Detected × D
detect g sem reconcile t none db = (failed [], db)
detect g sem reconcile t (some []) db = (detected [], db)
detect g sem reconcile t (some (sib ∷ sibs)) db =
    recorded reconcile db (compare_all g sem t (sib ∷ sibs))
