-- ===== src/Conflict/Sets.antt =====
-- internal/conflict/detect.go: the paths that the sets hold.
use agent_trail.Base.{
  Bool, true, false, not, ◌&&◌, ◌||◌, List, [], ◌∷◌, ◌++◌, ◌≡◌, refl, sym, ap, ◌∙◌, arith,
  Bool-cases, inl, inr,
}
use mathlib.Core.Path.{subst}
use agent_trail.Lease.Choice.{Every}
use agent_trail.Chars.Defs.{Chars, same_chars}
use agent_trail.Chars.Same.{same_refl, same-eq, same_comm, same_trans}
use agent_trail.Conflict.Paths.{insert_sorted, sort, has, add_key, add_keys, drop_key}
use agent_trail.Conflict.Defs.{shared_from, is_migration, migration_paths, filtered}

pub has-same : (x y : Chars) (l : List Chars) → same_chars x y ≡ true → has x l ≡ has y l
has-same x y l h = ap (λ s. has s l) (same-eq x y h)

pub has-Every : (P : Chars → Type 0) (x : Chars) (l : List Chars) → Every P l → has x l ≡ true → P x
unfolding has
has-Every P x [] k h = absurd cc
has-Every P x (y ∷ l) k h = elim (Bool-cases (same_chars y x)) [
  | inl e ↦ subst P (same-eq y x e) k.0
  | inr e ↦ has-Every P x l k.1 (rw e at h)
]

pub has-insert :
    (x y : Chars) (l : List Chars) → has x (insert_sorted y l) ≡ (same_chars y x || has x l)
unfolding has insert_sorted
has-insert x y [] = refl
has-insert x y (z ∷ l) = let rest = has-insert x y l in ground arith

pub has-sort : (x : Chars) (l : List Chars) → has x (sort l) ≡ has x l
unfolding has sort
has-sort x [] = refl
has-sort x (y ∷ l) = has-insert x y (sort l) ∙ (rw (has-sort x l) refl)

pub has-append : (x : Chars) (l m : List Chars) → has x (l ++ m) ≡ (has x l || has x m)
unfolding has
has-append x [] m = refl
has-append x (y ∷ l) m = let rest = has-append x l m in ground arith

has-add : (x y : Chars) (m : List Chars) → has x (add_key m y) ≡ (has x m || same_chars y x)
unfolding has
has-add x y m = elim (Bool-cases (has y m)) [
  | inl here ↦ elim (Bool-cases (same_chars y x)) [
    | inl e ↦ let same = has-same y x m e in ground arith
    | inr e ↦ ground arith
  ]
  | inr new ↦ ground arith
]

pub has-add_keys : (x : Chars) (m l : List Chars) → has x (add_keys m l) ≡ (has x m || has x l)
unfolding has add_keys
has-add_keys x m [] = ground arith
has-add_keys x m (y ∷ l) =
    let rest = has-add_keys x (add_key m y) l in
    let here = has-add x y m in rest ∙ (rw here (or_assoc (has x m) (same_chars y x) (has x l)))
  where
    or_assoc : (a b c : Bool) → (a || b || c) ≡ (a || (b || c))
    or_assoc true b c = refl
    or_assoc false b c = refl

has-drop : (x f : Chars) (m : List Chars) → has x (drop_key f m) ≡ (not (same_chars f x) && has x m)
unfolding has drop_key
has-drop x f [] = ground arith
has-drop x f (y ∷ m) =
    let rest = has-drop x f m in
    elim (Bool-cases (same_chars y f)) [
      | inl e ↦ let same = same_trans y f x e in ground arith
      | inr e ↦ elim (Bool-cases (same_chars y x)) [
        | inl k ↦ let same = same_trans y x f k in let flip = same_comm x f in ground arith
        | inr k ↦ ground arith
      ]
    ]

shared-taken :
    (f : Chars) (a b : List Chars)
    → has f a ≡ true
    → shared_from a (f ∷ b) ≡ f ∷ shared_from (drop_key f a) b
unfolding shared_from
shared-taken f a b h = rw (h, shared_from) refl

shared-skipped :
    (f : Chars) (a b : List Chars) → has f a ≡ false → shared_from a (f ∷ b) ≡ shared_from a b
unfolding shared_from
shared-skipped f a b h = rw (h, shared_from) refl

pub has-shared : (x : Chars) (a b : List Chars) → has x (shared_from a b) ≡ (has x a && has x b)
unfolding has shared_from
has-shared x a [] = ground arith
has-shared x a (f ∷ b) = elim (Bool-cases (has f a)) [
  | inl here ↦ ap (has x) (shared-taken f a b here) ∙ taken here (has-shared x (drop_key f a) b)
  | inr gone ↦ ap (has x) (shared-skipped f a b gone) ∙ left_out gone (has-shared x a b)
]
  where
    taken :
        has f a ≡ true
        → has x (shared_from (drop_key f a) b) ≡ (has x (drop_key f a) && has x b)
        → (same_chars f x || has x (shared_from (drop_key f a) b))
          ≡ (has x a && (same_chars f x || has x b))
    taken here rest = elim (Bool-cases (same_chars f x)) [
      | inl e ↦ let same = has-same f x a e in ground arith
      | inr e ↦ let less = has-drop x f a in ground arith
    ]

    left_out :
        has f a ≡ false
        → has x (shared_from a b) ≡ (has x a && has x b)
        → has x (shared_from a b) ≡ (has x a && (same_chars f x || has x b))
    left_out gone rest = elim (Bool-cases (same_chars f x)) [
      | inl e ↦ let same = has-same f x a e in ground arith
      | inr e ↦ ground arith
    ]

pub has-filtered :
    (p : Chars → Bool) (x : Chars) (l : List Chars) → has x (filtered p l) ≡ (p x && has x l)
unfolding has filtered
has-filtered p x [] = ground arith
has-filtered p x (y ∷ l) =
    let rest = has-filtered p x l in
    elim (Bool-cases (same_chars y x)) [
      | inl e ↦ let same = ap p (same-eq y x e) in ground arith
      | inr e ↦ ground arith
    ]

pub migrations-filtered : (l : List Chars) → migration_paths l ≡ filtered is_migration l
unfolding migration_paths filtered
migrations-filtered [] = refl
migrations-filtered (f ∷ l) = rw (migrations-filtered l) refl

-- No key twice.
abbrev pub DistinctKeys : List Chars → Type 0
DistinctKeys [] = Unit
DistinctKeys (x ∷ l) = (has x l ≡ false) × DistinctKeys l

pub add_keys-Distinct : (m l : List Chars) → DistinctKeys m → DistinctKeys (add_keys m l)
unfolding add_keys
add_keys-Distinct m [] k = k
add_keys-Distinct m (y ∷ l) k = elim (Bool-cases (has y m)) [
  | inl here ↦ rw here (add_keys-Distinct m l k)
  | inr new ↦ rw new (add_keys-Distinct (y ∷ m) l (new, k))
]

pub shared-Distinct : (a b : List Chars) → DistinctKeys (shared_from a b)
unfolding shared_from
shared-Distinct a [] = tt
shared-Distinct a (f ∷ b) = elim (Bool-cases (has f a)) [
  | inl here ↦
      subst DistinctKeys (sym (shared-taken f a b here)) (once, shared-Distinct (drop_key f a) b)
  | inr gone ↦ subst DistinctKeys (sym (shared-skipped f a b gone)) (shared-Distinct a b)
]
  where
    once : has f (shared_from (drop_key f a) b) ≡ false
    once =
        let whole = has-shared f (drop_key f a) b in
        let less = has-drop f f a in let same = same_refl f in ground arith
