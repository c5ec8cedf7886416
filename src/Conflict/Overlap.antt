-- ===== src/Conflict/Overlap.antt =====
-- internal/conflict/detect.go: what `Overlap` finds, whichever change comes first.
use agent_trail.Base.{
  Bool, true, false, not, ◌&&◌, ◌||◌, List, [], ◌∷◌, ◌++◌, ◌≡◌, refl, sym, ap, ◌∙◌, arith,
  Bool-cases, inl, inr,
}
use agent_trail.Chars.Defs.{Chars}
use agent_trail.Git.Hunks.{LineRange}
use agent_trail.Conflict.Paths.{sort, has, add_keys}
use agent_trail.Conflict.Defs.{
  Kind, file_overlap, adjacent_lines, migration, dependency, ChangeSet, shared_from, intersect, any,
  near, ranges_adjacent, is_migration, migration_paths, is_manifest, filtered, no_paths, kind_if,
  close, both_migrate, migrations_of, overlap,
}
use agent_trail.Conflict.Sets.{
  has-sort, has-append, has-add_keys, has-shared, has-filtered, migrations-filtered, DistinctKeys,
  add_keys-Distinct, shared-Distinct,
}
use agent_trail.Conflict.Sorting.{sort-same}

and_comm : (a b : Bool) → (a && b) ≡ (b && a)
and_comm a b = ground arith

pub has-intersect : (x : Chars) (a b : List Chars) → has x (intersect a b) ≡ (has x a && has x b)
unfolding intersect has
has-intersect x a b =
    let keys = has-add_keys x [] a in
    has-sort x (shared_from (add_keys [] a) b) ∙ has-shared x (add_keys [] a) b ∙ (rw keys refl)

intersect_comm : (a b : List Chars) → intersect a b ≡ intersect b a
unfolding intersect
intersect_comm a b =
    sort-same (shared_from (add_keys [] a) b) (shared_from (add_keys [] b) a)
      (shared-Distinct (add_keys [] a) b) (shared-Distinct (add_keys [] b) a)
      (λ x.
        sym (has-sort x (shared_from (add_keys [] a) b))
        ∙ has-intersect x a b
        ∙ and_comm (has x a) (has x b)
        ∙ sym (has-intersect x b a)
        ∙ has-sort x (shared_from (add_keys [] b) a))

pub bool-ext : (a b : Bool) → (a ≡ true → b ≡ true) → (b ≡ true → a ≡ true) → a ≡ b
bool-ext true b h k = sym (h refl)
bool-ext false true h k = k refl
bool-ext false false h k = refl

any-found {ℓ} : {A : Type ℓ} (p : A → Bool) (l : List A) → any p l ≡ true → (x : A) × (p x ≡ true)
unfolding any
any-found p [] h = absurd cc
any-found p (x ∷ l) h = elim (Bool-cases (p x)) [
  | inl e ↦ (x, e)
  | inr e ↦ any-found p l (rw e at h)
]

any-ext {ℓ} : {A : Type ℓ} (p q : A → Bool) (l : List A) → ((x : A) → p x ≡ q x) → any p l ≡ any q l
unfolding any
any-ext p q [] h = refl
any-ext p q (x ∷ l) h = rw (h x, any-ext p q l h) refl

any-or {ℓ} :
    {A : Type ℓ} (p q : A → Bool) (l : List A) → any (λ x. p x || q x) l ≡ (any p l || any q l)
unfolding any
any-or p q [] = refl
any-or p q (x ∷ l) = let rest = any-or p q l in ground arith

any-none {ℓ} : {A : Type ℓ} (l : List A) → any (λ x. false) l ≡ false
unfolding any
any-none [] = refl
any-none (x ∷ l) = any-none l

-- Two ranges in either order.
ranges_adjacent_comm : (a b : List LineRange) → ranges_adjacent a b ≡ ranges_adjacent b a
unfolding ranges_adjacent any
ranges_adjacent_comm [] b = sym (any-none b)
ranges_adjacent_comm (r ∷ a) b =
    (rw (any-ext (near r) (λ s. near s r) b (λ s. near_comm r s), ranges_adjacent_comm a b) refl)
    ∙ sym (any-or (λ s. near s r) (λ s. any (near s) a) b)
  where
    near_comm : (r s : LineRange) → near r s ≡ near s r
    near_comm r s = ground arith

-- What the set of marked paths holds.
abbrev pub marked : ChangeSet → ChangeSet → List Chars → List Chars
marked a b shared =
    add_keys
      (add_keys (add_keys (add_keys [] shared) (filtered (close a b) shared)) (migrations_of a b))
      (filtered is_manifest shared)

pub has-marked :
    (x : Chars) (a b : ChangeSet) (shared : List Chars)
    → has x (marked a b shared) ≡ (has x shared || has x (migrations_of a b))
unfolding has
has-marked x a b shared =
    let one = has-add_keys x [] shared in
    let two = has-add_keys x (add_keys [] shared) (filtered (close a b) shared) in
    let three =
      has-add_keys x (add_keys (add_keys [] shared) (filtered (close a b) shared))
        (migrations_of a b) in
    let close_ones = has-filtered (close a b) x shared in
    let manifests = has-filtered is_manifest x shared in
    has-add_keys x
      (add_keys (add_keys (add_keys [] shared) (filtered (close a b) shared)) (migrations_of a b))
      (filtered is_manifest shared)
    ∙ (rw (three, two, one, close_ones, manifests)
        (absorb (has x shared) (close a b x) (has x (migrations_of a b)) (is_manifest x)))
  where
    absorb : (s c m d : Bool) → ((s || c && s) || m || d && s) ≡ (s || m)
    absorb s c m d = ground arith

pub has-migrations :
    (x : Chars) (a b : ChangeSet)
    → has x (migrations_of a b)
      ≡ (both_migrate a b && (is_migration x && (has x a.files || has x b.files)))
unfolding has
has-migrations x a b = elim (Bool-cases (both_migrate a b)) [
  | inl both ↦ rw both (
      has-append x (migration_paths a.files) (migration_paths b.files)
      ∙ (rw
          (
            migrations-filtered a.files,
            migrations-filtered b.files,
            has-filtered is_migration x a.files,
            has-filtered is_migration x b.files,
          )
          (share (is_migration x) (has x a.files) (has x b.files))))
  | inr apart ↦ rw apart refl
]
  where
    share : (m a b : Bool) → (m && a || m && b) ≡ (m && (a || b))
    share m a b = ground arith

marked-Distinct : (a b : ChangeSet) (shared : List Chars) → DistinctKeys (marked a b shared)
marked-Distinct a b shared = add_keys-Distinct _ (filtered is_manifest shared) (
    add_keys-Distinct _ (migrations_of a b)
      (add_keys-Distinct _ (filtered (close a b) shared) (add_keys-Distinct [] shared tt)))

both_migrate_comm : (a b : ChangeSet) → both_migrate a b ≡ both_migrate b a
both_migrate_comm a b =
    and_comm (not (no_paths (migration_paths a.files))) (not (no_paths (migration_paths b.files)))

unfoldable pub kinds_of : List Chars → Bool → Bool → List Kind
kinds_of shared near_lines both =
    kind_if (not (no_paths shared)) file_overlap
    ++ (kind_if near_lines adjacent_lines
        ++ (kind_if both migration ++ kind_if (any is_manifest shared) dependency))

pub overlap-kinds :
    (a b : ChangeSet)
    → (overlap a b).0
      ≡ kinds_of
          (intersect a.files b.files)
          (any (close a b) (intersect a.files b.files))
          (both_migrate a b)
unfolding overlap kinds_of
overlap-kinds a b = refl

pub overlap-files :
    (a b : ChangeSet) → (overlap a b).1 ≡ sort (marked a b (intersect a.files b.files))
unfolding overlap
overlap-files a b = refl

kinds_comm : (a b : ChangeSet) → (overlap a b).0 ≡ (overlap b a).0
kinds_comm a b =
    overlap-kinds a b
    ∙ (rw
        (
          intersect_comm a.files b.files,
          any-ext (close a b) (close b a) (intersect b.files a.files)
              (λ f. ranges_adjacent_comm (a.hunks f) (b.hunks f)),
          both_migrate_comm a b,
        )
        refl)
    ∙ sym (overlap-kinds b a)

migrations_comm :
    (x : Chars) (a b : ChangeSet) → has x (migrations_of a b) ≡ has x (migrations_of b a)
migrations_comm x a b =
    has-migrations x a b
    ∙ (rw (both_migrate_comm a b) (
        ap (λ q. both_migrate b a && (is_migration x && q))
          (or_comm (has x a.files) (has x b.files))))
    ∙ sym (has-migrations x b a)
  where
    or_comm : (p q : Bool) → (p || q) ≡ (q || p)
    or_comm p q = ground arith

files_comm : (a b : ChangeSet) → (overlap a b).1 ≡ (overlap b a).1
files_comm a b =
    let ab = intersect a.files b.files in
    let ba = intersect b.files a.files in
    overlap-files a b
    ∙ sort-same (marked a b ab) (marked b a ba) (marked-Distinct a b ab) (marked-Distinct b a ba)
        (λ x.
          has-marked x a b ab
          ∙ (rw (intersect_comm a.files b.files, migrations_comm x a b) refl)
          ∙ sym (has-marked x b a ba))
    ∙ sym (overlap-files b a)

-- `Overlap` does not depend on which change comes first: it finds the same kinds, in the same order, and the
-- same list of files.
pub overlap_comm : (a b : ChangeSet) → overlap a b ≡ overlap b a
overlap_comm a b = pair (overlap a b) (overlap b a) (kinds_comm a b) (files_comm a b)
  where
    pair : (p q : List Kind × List Chars) → p.0 ≡ q.0 → p.1 ≡ q.1 → p ≡ q
    pair p q h k = ap (λ r. (r, p.1)) h ∙ ap (λ r. (q.0, r)) k
