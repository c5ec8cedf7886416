-- ===== src/Conflict/Semantic.antt =====
-- internal/conflict/detector.go: what the semantic assessor can change.
use agent_trail.Base.{
  Bool, true, false, not, Option, none, some, List, [], ◌∷◌, ◌++◌, if◌then◌else◌, ◌≡◌, refl, sym,
  ap, ◌∙◌, Bool-cases, inl, inr,
}
use mathlib.Core.List.{append-nil, append_assoc}
use agent_trail.Chars.Defs.{Chars}
use agent_trail.Git.Commit.{on_some}
use agent_trail.Conflict.Defs.{
  Kind, file_overlap, adjacent_lines, merge_conflict, migration, dependency, semantic, ChangeSet,
  intersect, any, is_manifest, no_paths, kind_if, close, both_migrate, overlap,
}
use agent_trail.Conflict.Overlap.{overlap-kinds, kinds_of}
use agent_trail.Conflict.Detector.{
  Sibling, SemanticVerdict, Detection, GitOps, Assessor, Subject, no_verdict, assess, no_kinds,
  judged, with_merge, change_set, compared, commits_present, detect_one, Detected, detected, failed,
  in_front, detect_all, self_diff_of, compare_all,
}

abbrev pub is_semantic : Kind → Bool
is_semantic semantic = true
is_semantic k = false

abbrev pub plain_kinds : List Kind → List Kind
plain_kinds [] = []
plain_kinds (k ∷ l) = if is_semantic k then plain_kinds l else k ∷ plain_kinds l

abbrev plain_one : Detection → List Detection
plain_one d =
    if no_kinds (plain_kinds d.kinds)
    then []
    else record d {
      kinds = plain_kinds d.kinds;
      semantic_severity = "";
      semantic_explanation = "";
      semantic_evidence = [];
    }
      ∷ []

-- The detections without the assessor's part: those that have only its kind are left out.
abbrev pub plain : List Detection → List Detection
plain [] = []
plain (d ∷ l) = plain_one d ++ plain l

abbrev pub plain_result : Detected → Detected
plain_result (detected l) = detected (plain l)
plain_result (failed l) = failed (plain l)

plain-append : (l m : List Kind) → plain_kinds (l ++ m) ≡ plain_kinds l ++ plain_kinds m
plain-append [] m = refl
plain-append (k ∷ l) m = elim (Bool-cases (is_semantic k)) [
  | inl e ↦ rw e (plain-append l m)
  | inr e ↦ rw (e, plain-append l m) refl
]

plain-if : (b : Bool) (k : Kind) → is_semantic k ≡ false → plain_kinds (kind_if b k) ≡ kind_if b k
plain-if true k e = rw e refl
plain-if false k e = refl

plain-kinds_of :
    (shared : List Chars) (near_lines both : Bool)
    → plain_kinds (kinds_of shared near_lines both) ≡ kinds_of shared near_lines both
unfolding kinds_of
plain-kinds_of shared near_lines both =
    four (not (no_paths shared)) near_lines both (any is_manifest shared)
  where
    four :
        (a b c d : Bool)
        → plain_kinds (
            kind_if a file_overlap
            ++ (kind_if b adjacent_lines ++ (kind_if c migration ++ kind_if d dependency)))
          ≡ kind_if a file_overlap
            ++ (kind_if b adjacent_lines ++ (kind_if c migration ++ kind_if d dependency))
    four a b c d =
        (rw
          (
            plain-append (kind_if a file_overlap)
                (kind_if b adjacent_lines ++ (kind_if c migration ++ kind_if d dependency)),
            plain-append (kind_if b adjacent_lines) (kind_if c migration ++ kind_if d dependency),
            plain-append (kind_if c migration) (kind_if d dependency),
            plain-if a file_overlap refl,
            plain-if b adjacent_lines refl,
            plain-if c migration refl,
            plain-if d dependency refl,
          )
          refl)

plain-overlap : (a b : ChangeSet) → plain_kinds (overlap a b).0 ≡ (overlap a b).0
plain-overlap a b = ap plain_kinds (overlap-kinds a b) ∙ parts ∙ sym (overlap-kinds a b)
  where
    parts :
        plain_kinds (
          kinds_of
            (intersect a.files b.files)
            (any (close a b) (intersect a.files b.files))
            (both_migrate a b))
        ≡ kinds_of
            (intersect a.files b.files)
            (any (close a b) (intersect a.files b.files))
            (both_migrate a b)
    parts =
        plain-kinds_of (intersect a.files b.files) (any (close a b) (intersect a.files b.files))
          (both_migrate a b)

plain-merge :
    (m : Bool × List Chars) (o : List Kind × List Chars)
    → plain_kinds o.0 ≡ o.0
    → plain_kinds (with_merge m o).0 ≡ (with_merge m o).0
plain-merge (true, c) (kinds, files) e = e
plain-merge (false, c) (kinds, files) e = plain-append kinds (merge_conflict ∷ []) ∙ (rw e refl)

plain-judged :
    (sib : Sibling) (kinds : List Kind) (files : List Chars) (v : SemanticVerdict)
    → plain_kinds kinds ≡ kinds
    → plain (judged sib kinds files v) ≡ judged sib kinds files no_verdict
plain-judged sib [] files v e = elim (Bool-cases v.conflicts) [
  | inl c ↦ rw c refl
  | inr c ↦ rw c refl
]
plain-judged sib (k ∷ l) files v e = elim (Bool-cases v.conflicts) [
  | inl c ↦ rw (c, plain-append (k ∷ l) (semantic ∷ []), e, append-nil l) refl
  | inr c ↦ rw (c, e) refl
]

abbrev map_some {ℓ κ} : {A : Type ℓ} {B : Type κ} → (A → B) → Option A → Option B
map_some f none = none
map_some f (some a) = some (f a)

on_some-map :
    {A B : Type 0} (f : A → Option B) (g : A → Option B) (h : B → B) (o : Option A)
    → ((a : A) → map_some h (f a) ≡ g a)
    → map_some h (on_some o f) ≡ on_some o g
on_some-map f g h none e = refl
on_some-map f g h (some a) e = e a

plain-one :
    (g : GitOps) (sem : Option Assessor) (t : Subject) (self : ChangeSet) (d e : Chars)
    (sib : Sibling)
    → map_some plain (detect_one g sem t self d sib) ≡ detect_one g none t self e sib
unfolding detect_one assess
plain-one g sem t self d e sib =
    on_some-map _ _ plain (commits_present g (sib.base_sha ∷ sib.final_sha ∷ []))
      (λ present. whole present)
  where
    last :
        (other : ChangeSet) (m : Bool × List Chars)
        → map_some plain (
            some (
              judged sib
                (with_merge m (overlap self other)).0
                (with_merge m (overlap self other)).1
                (assess g sem t d sib)))
          ≡ some (
              judged sib
                (with_merge m (overlap self other)).0
                (with_merge m (overlap self other)).1
                no_verdict)
    last other m = ap some (
        plain-judged sib (with_merge m (overlap self other)).0 (with_merge m (overlap self other)).1
          (assess g sem t d sib) (plain-merge m (overlap self other) (plain-overlap self other)))

    whole :
        (present : Bool)
        → map_some plain (if present then compared g sem t self d sib else some [])
          ≡ (if present then compared g none t self e sib else some [])
    whole true = on_some-map _ _ plain (change_set g sib.base_sha sib.final_sha) (λ other.
        on_some-map _ _ plain (g.merge_tree t.final_sha sib.final_sha) (λ m. last other m))
    whole false = refl

plain-onto : (l m : List Detection) → plain (l ++ m) ≡ plain l ++ plain m
plain-onto [] m = refl
plain-onto (d ∷ l) m =
    (rw (plain-onto l m) refl) ∙ sym (append_assoc (plain_one d) (plain l) (plain m))

plain-front :
    (l : List Detection) (r : Detected)
    → plain_result (in_front l r) ≡ in_front (plain l) (plain_result r)
plain-front l (detected m) = ap detected (plain-onto l m)
plain-front l (failed m) = ap failed (plain-onto l m)

-- What the loop makes of a sibling's detections.
abbrev after_one : Option (List Detection) → Detected → Detected
after_one none r = failed []
after_one (some l) r = in_front l r

plain-after :
    (o p : Option (List Detection)) (r q : Detected)
    → map_some plain o ≡ p
    → plain_result r ≡ q
    → plain_result (after_one o r) ≡ after_one p q
plain-after none p r q h k = ap (λ x. after_one x q) h
plain-after (some l) p r q h k =
    plain-front l r ∙ ap (in_front (plain l)) k ∙ ap (λ x. after_one x q) h

all-after :
    (g : GitOps) (sem : Option Assessor) (t : Subject) (self : ChangeSet) (d : Chars)
    (sib : Sibling) (sibs : List Sibling)
    → detect_all g sem t self d (sib ∷ sibs)
      ≡ after_one (detect_one g sem t self d sib) (detect_all g sem t self d sibs)
unfolding detect_all
all-after g sem t self d sib sibs =
    go (detect_one g sem t self d sib) (detect_all g sem t self d sibs)
  where
    go :
        (o : Option (List Detection)) (r : Detected)
        → (elim o [ none ↦ failed [] | some l ↦ in_front l r ]) ≡ after_one o r
    go none r = refl
    go (some l) r = refl

plain-all :
    (g : GitOps) (sem : Option Assessor) (t : Subject) (self : ChangeSet) (d e : Chars)
    (sibs : List Sibling)
    → plain_result (detect_all g sem t self d sibs) ≡ detect_all g none t self e sibs
unfolding detect_all
plain-all g sem t self d e [] = refl
plain-all g sem t self d e (sib ∷ sibs) =
    ap plain_result (all-after g sem t self d sib sibs)
    ∙ plain-after (detect_one g sem t self d sib) (detect_one g none t self e sib)
        (detect_all g sem t self d sibs) (detect_all g none t self e sibs)
        (plain-one g sem t self d e sib) (plain-all g sem t self d e sibs)
    ∙ sym (all-after g none t self e sib sibs)

-- Whatever the semantic assessor answers, and also where it or its diffs fail, it only adds to what is found:
-- without its kind, its severity, explanation and evidence, and without the detections of its kind alone, the
-- comparison gives the detections, and the error, of a detector that has no assessor.
pub compare_all-plain :
    (g : GitOps) (sem : Option Assessor) (t : Subject) (sibs : List Sibling)
    → plain_result (compare_all g sem t sibs) ≡ compare_all g none t sibs
unfolding compare_all
compare_all-plain g sem t sibs =
    go (on_some g.ensure_mirror (λ u. change_set g t.base_sha t.final_sha))
  where
    go :
        (o : Option ChangeSet)
        → plain_result (elim o [
          | none ↦ failed []
          | some self ↦ detect_all g sem t self (self_diff_of g sem t) sibs
        ])
          ≡ (elim o [
            | none ↦ failed []
            | some self ↦ detect_all g none t self (self_diff_of g none t) sibs
          ])
    go none = refl
    go (some self) = plain-all g sem t self (self_diff_of g sem t) [] sibs
