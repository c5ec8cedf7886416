-- ===== src/Conflict/Defs.antt =====
-- internal/conflict/conflict.go and detect.go: the kinds of conflict and the overlap of two changes.
use agent_trail.Base.{
  Bool, true, false, not, ◌&&◌, ◌||◌, List, [], ◌∷◌, ◌++◌, if◌then◌else◌, ℤ, pos, int_leb, ◌+ℤ◌,
  wrap_int, ◌≡◌, refl, map,
}
use agent_trail.Text.{codes}
use agent_trail.Chars.Defs.{Chars, same_chars, split, after_prefix, has_prefix, trim_right}
use agent_trail.Git.Hunks.{LineRange}
use agent_trail.Conflict.Paths.{
  slash, reversed, path_dir, path_base, sort, has, add_keys, drop_key, insert_sorted, chars_leb,
  clean, cut_last, resolve, join,
}

pub data Kind : Type 0 where
  file_overlap : Kind
  adjacent_lines : Kind
  merge_conflict : Kind
  migration : Kind
  dependency : Kind
  semantic : Kind

abbrev pub adjacency_window : ℤ
adjacency_window = pos 3

abbrev pub dependency_manifests : List Chars
dependency_manifests = map codes (
    "go.mod" ∷ "go.sum" ∷ "package.json" ∷ "package-lock.json" ∷ "npm-shrinkwrap.json"
    ∷ "pnpm-lock.yaml" ∷ "yarn.lock" ∷ "bun.lock" ∷ "bun.lockb" ∷ "requirements.txt" ∷ "Pipfile"
    ∷ "Pipfile.lock" ∷ "pyproject.toml" ∷ "poetry.lock" ∷ "uv.lock" ∷ "Cargo.toml" ∷ "Cargo.lock"
    ∷ "Gemfile" ∷ "Gemfile.lock" ∷ "composer.json" ∷ "composer.lock" ∷ "pom.xml" ∷ "build.gradle"
    ∷ "build.gradle.kts" ∷ "settings.gradle" ∷ "settings.gradle.kts" ∷ "gradle.lockfile"
    ∷ "packages.lock.json" ∷ "Directory.Packages.props" ∷ "Package.swift" ∷ "Package.resolved"
    ∷ "mix.exs" ∷ "mix.lock" ∷ "pubspec.yaml" ∷ "pubspec.lock" ∷ [])

-- A missing key of `Hunks` gives no range.
pub record ChangeSet : Type 0 where
  pub files : List Chars
  pub hunks : Chars → List LineRange

-- The loop of `intersect` over b, with `inA`.
unfoldable pub shared_from : List Chars → List Chars → List Chars
shared_from in_a [] = []
shared_from in_a (f ∷ b) = elim (has f in_a) [
  | true ↦ f ∷ shared_from (drop_key f in_a) b
  | false ↦ shared_from in_a b
]

unfoldable pub intersect : List Chars → List Chars → List Chars
intersect a b = sort (shared_from (add_keys [] a) b)

unfoldable pub any {ℓ} : {A : Type ℓ} → (A → Bool) → List A → Bool
any p [] = false
any p (x ∷ l) = p x || any p l

-- `int` sums, with their overflow
abbrev pub near : LineRange → LineRange → Bool
near r s =
    int_leb r.start (wrap_int (s.end +ℤ adjacency_window))
    && int_leb s.start (wrap_int (r.end +ℤ adjacency_window))

unfoldable pub ranges_adjacent : List LineRange → List LineRange → Bool
ranges_adjacent a b = any (λ r. any (λ s. near r s) b) a

unfoldable pub is_migration : Chars → Bool
is_migration f =
    has_prefix (codes "lqs.") (reversed [] f) && has (codes "migrations") (split slash (path_dir f))

unfoldable pub migration_paths : List Chars → List Chars
migration_paths [] = []
migration_paths (f ∷ files) =
    let rest = migration_paths files in if is_migration f then f ∷ rest else rest

abbrev pub is_manifest : Chars → Bool
is_manifest f = has (path_base f) dependency_manifests

unfoldable pub filtered {ℓ} : {A : Type ℓ} → (A → Bool) → List A → List A
filtered p [] = []
filtered p (x ∷ l) = let rest = filtered p l in if p x then x ∷ rest else rest

abbrev pub no_paths : List Chars → Bool
no_paths [] = true
no_paths (f ∷ l) = false

abbrev pub kind_if : Bool → Kind → List Kind
kind_if b k = if b then k ∷ [] else []

abbrev pub close : ChangeSet → ChangeSet → Chars → Bool
close a b f = ranges_adjacent (a.hunks f) (b.hunks f)

-- Whether both changes have migrations, and those of both.
abbrev pub both_migrate : ChangeSet → ChangeSet → Bool
both_migrate a b =
    not (no_paths (migration_paths a.files)) && not (no_paths (migration_paths b.files))

abbrev pub migrations_of : ChangeSet → ChangeSet → List Chars
migrations_of a b =
    if both_migrate a b then migration_paths a.files ++ migration_paths b.files else []

-- `Overlap`: the kinds, and the files that are marked for each of them in turn.
unfoldable pub overlap : ChangeSet → ChangeSet → List Kind × List Chars
overlap a b =
    let shared = intersect a.files b.files in
    let kinds =
      kind_if (not (no_paths shared)) file_overlap
      ++ (kind_if (any (close a b) shared) adjacent_lines
          ++ (kind_if (both_migrate a b) migration
              ++ kind_if (any is_manifest shared) dependency)) in
    let marked =
      add_keys
        (add_keys (add_keys (add_keys [] shared) (filtered (close a b) shared)) (migrations_of a b))
        (filtered is_manifest shared) in
    (kinds, sort marked)

overlap_run :
    overlap
      (record { files = codes "go.mod" ∷ codes "a/migrations/1.sql" ∷ []; hunks = λ f. [] })
      (record { files = codes "b/migrations/2.sql" ∷ codes "go.mod" ∷ []; hunks = λ f. [] })
    ≡ (
      file_overlap ∷ migration ∷ dependency ∷ [],
      codes "a/migrations/1.sql" ∷ codes "b/migrations/2.sql" ∷ codes "go.mod" ∷ [],
    )
unfolding overlap intersect shared_from any ranges_adjacent migration_paths is_migration filtered
    after_prefix split same_chars sort insert_sorted chars_leb has add_keys drop_key path_dir
    path_base clean cut_last resolve reversed join trim_right
overlap_run = refl
