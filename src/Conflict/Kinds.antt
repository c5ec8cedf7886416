-- ===== src/Conflict/Kinds.antt =====
-- internal/conflict/detect.go: which kinds `Overlap` finds, and for which files.
use agent_trail.Base.{
  Bool, true, not, ◌&&◌, ◌||◌, List, [], ◌∷◌, ◌++◌, ◌≡◌, refl, sym, ap, ◌∙◌, arith, Bool-cases, inl,
  inr,
}
use agent_trail.Chars.Defs.{Chars, same_chars}
use agent_trail.Chars.Same.{same_refl, same-eq}
use agent_trail.Conflict.Paths.{has}
use agent_trail.Conflict.Defs.{
  file_overlap, adjacent_lines, migration, dependency, ChangeSet, intersect, any, is_migration,
  is_manifest, filtered, no_paths, kind_if, close, both_migrate, overlap,
}
use agent_trail.Conflict.Sets.{has-sort, migrations-filtered}
use agent_trail.Conflict.Overlap.{
  has-intersect, bool-ext, has-marked, has-migrations, overlap-files, overlap-kinds, kinds_of,
  marked,
}

any-has :
    (p : Chars → Bool) (l : List Chars)
    → any p l ≡ true
    → (x : Chars) × (has x l ≡ true) × (p x ≡ true)
unfolding any has
any-has p [] h = absurd cc
any-has p (x ∷ l) h = elim (Bool-cases (p x)) [
  | inl e ↦ (x, (let same = same_refl x in ground arith), e)
  | inr e ↦ let (y, here, holds) = any-has p l (rw e at h) in (y, (ground arith), holds)
]

has-any :
    (p : Chars → Bool) (x : Chars) (l : List Chars) → has x l ≡ true → p x ≡ true → any p l ≡ true
unfolding any has
has-any p x [] h k = absurd cc
has-any p x (y ∷ l) h k = elim (Bool-cases (same_chars y x)) [
  | inl e ↦ let same = ap p (same-eq y x e) in ground arith
  | inr e ↦ let rest = has-any p x l (rw e at h) k in ground arith
]

any-intersect :
    (p : Chars → Bool) (a b : List Chars) → any p (intersect a b) ≡ any (λ f. has f b && p f) a
any-intersect p a b =
    bool-ext (any p (intersect a b)) (any (λ f. has f b && p f) a)
      (λ h.
        let (x, here, holds) = any-has p (intersect a b) h in
        let both = sym (has-intersect x a b) ∙ here in
        has-any (λ f. has f b && p f) x a (ground arith) (ground arith))
      (λ h.
        let (x, here, holds) = any-has (λ f. has f b && p f) a h in
        let both = has-intersect x a b in has-any p x (intersect a b) (ground arith) (ground arith))

some-any : (l : List Chars) → not (no_paths l) ≡ any (λ f. true) l
unfolding any
some-any [] = refl
some-any (f ∷ l) = refl

some-filtered : (p : Chars → Bool) (l : List Chars) → not (no_paths (filtered p l)) ≡ any p l
unfolding any filtered
some-filtered p [] = refl
some-filtered p (f ∷ l) = elim (Bool-cases (p f)) [
  | inl e ↦ rw e refl
  | inr e ↦ rw e (some-filtered p l)
]

-- Whether each change has a migration, and whether some path of the first is one of the second that satisfies p.
abbrev pub migrates : ChangeSet → Bool
migrates a = any is_migration a.files

abbrev pub shares : (Chars → Bool) → ChangeSet → ChangeSet → Bool
shares p a b = any (λ f. has f b.files && p f) a.files

both-migrates : (a b : ChangeSet) → both_migrate a b ≡ (migrates a && migrates b)
both-migrates a b =
    rw
      (
        migrations-filtered a.files,
        migrations-filtered b.files,
        some-filtered is_migration a.files,
        some-filtered is_migration b.files,
      )
      refl

kinds-found :
    (a b : ChangeSet)
    → (overlap a b).0
      ≡ kind_if (shares (λ f. true) a b) file_overlap
        ++ (kind_if (shares (close a b) a b) adjacent_lines
            ++ (kind_if (migrates a && migrates b) migration
                ++ kind_if (shares is_manifest a b) dependency))
unfolding kinds_of
kinds-found a b =
    overlap-kinds a b
    ∙ (rw
        (
          some-any (intersect a.files b.files),
          any-intersect (λ f. true) a.files b.files,
          any-intersect (close a b) a.files b.files,
          any-intersect is_manifest a.files b.files,
          both-migrates a b,
        )
        refl)

regroup : (s m i e : Bool) → (s || m && (i && e)) ≡ (s || m && i && e)
regroup s m i e = ground arith

files-found :
    (a b : ChangeSet) (f : Chars)
    → has f (overlap a b).1 ≡ (
        has f a.files && has f b.files
        || migrates a && migrates b && is_migration f && (has f a.files || has f b.files))
files-found a b f =
    ap (has f) (overlap-files a b)
    ∙ has-sort f (marked a b (intersect a.files b.files))
    ∙ has-marked f a b (intersect a.files b.files)
    ∙ (rw (has-intersect f a.files b.files, has-migrations f a b, both-migrates a b)
        (regroup (has f a.files && has f b.files) (migrates a && migrates b) (is_migration f)
          (has f a.files || has f b.files)))

-- The kinds are, in this order: a file overlap where some path is in both changes; adjacent lines where ranges
-- of such a path are at most 3 lines apart; a migration where each change has a migration; a dependency where
-- a path in both is a manifest. The files are those in both changes and, where each change has a migration,
-- the migrations of either.
pub overlap-finds :
    (a b : ChangeSet)
    → ((overlap a b).0
        ≡ kind_if (shares (λ f. true) a b) file_overlap
          ++ (kind_if (shares (close a b) a b) adjacent_lines
              ++ (kind_if (migrates a && migrates b) migration
                  ++ kind_if (shares is_manifest a b) dependency)))
      × ((f : Chars)
          → has f (overlap a b).1 ≡ (
              has f a.files && has f b.files
              || migrates a && migrates b && is_migration f && (has f a.files || has f b.files)))
overlap-finds a b = (kinds-found a b, files-found a b)
