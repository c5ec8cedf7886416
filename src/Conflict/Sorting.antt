-- ===== src/Conflict/Sorting.antt =====
-- internal/conflict/detect.go: sets that hold the same paths are sorted into the same list.
use agent_trail.Base.{
  true, false, List, [], ◌∷◌, ◌≡◌, refl, sym, ap, ◌∙◌, arith, Bool-cases, inl, inr,
}
use mathlib.Core.Path.{subst}
use agent_trail.Lease.Choice.{Every, Every-map}
use agent_trail.Chars.Defs.{Chars, same_chars}
use agent_trail.Chars.Same.{same_refl, same-eq, same_comm, same_trans}
use agent_trail.Conflict.Paths.{chars_leb, insert_sorted, sort, has}
use agent_trail.Conflict.Sets.{has-Every, has-same, has-sort, DistinctKeys}

leb-total : (s t : Chars) → chars_leb s t ≡ false → chars_leb t s ≡ true
unfolding chars_leb
leb-total [] t h = absurd cc
leb-total (c ∷ s) [] h = refl
leb-total (c ∷ s) (d ∷ t) h = ground (arith, leb-total s t)

leb_trans : (s t u : Chars) → chars_leb s t ≡ true → chars_leb t u ≡ true → chars_leb s u ≡ true
unfolding chars_leb
leb_trans [] t u h k = refl
leb_trans (c ∷ s) [] u h k = absurd cc
leb_trans (c ∷ s) (d ∷ t) [] h k = absurd cc
leb_trans (c ∷ s) (d ∷ t) (e ∷ u) h k = ground (arith, leb_trans s t u)

leb-antisym : (s t : Chars) → chars_leb s t ≡ true → chars_leb t s ≡ true → same_chars s t ≡ true
unfolding chars_leb same_chars
leb-antisym [] [] h k = refl
leb-antisym [] (d ∷ t) h k = absurd cc
leb-antisym (c ∷ s) [] h k = absurd cc
leb-antisym (c ∷ s) (d ∷ t) h k = ground (arith, leb-antisym s t)

-- Each path is in front of those after it, and differs from them.
abbrev pub Before : Chars → Chars → Type 0
Before x y = (chars_leb x y ≡ true) × (same_chars x y ≡ false)

abbrev pub Ascending : List Chars → Type 0
Ascending [] = Unit
Ascending (x ∷ l) = Every (Before x) l × Ascending l

insert-Every :
    (P : Chars → Type 0) (x : Chars) (l : List Chars)
    → P x
    → Every P l
    → Every P (insert_sorted x l)
unfolding insert_sorted
insert-Every P x [] p k = (p, tt)
insert-Every P x (y ∷ l) p k = elim (Bool-cases (chars_leb x y)) [
  | inl first ↦ rw first (p, k)
  | inr later ↦ rw later (k.0, insert-Every P x l p k.1)
]

leb-Before : (x y z : Chars) → chars_leb x y ≡ true → Before y z → same_chars x z ≡ false
leb-Before x y z h b = elim (Bool-cases (same_chars x z)) [
  | inl e ↦
      let back = subst (λ s. chars_leb s y ≡ true) (same-eq x z e) h in
      absurd (let q = leb-antisym y z b.0 back in let r = b.1 in cc)
  | inr e ↦ e
]

insert-Ascending :
    (x : Chars) (l : List Chars) → has x l ≡ false → Ascending l → Ascending (insert_sorted x l)
unfolding has insert_sorted
insert-Ascending x [] h k = (tt, tt)
insert-Ascending x (y ∷ l) h k = elim (Bool-cases (chars_leb x y)) [
  | inl first ↦ rw first (
    (
      (first, flip x y (ground arith)),
      Every-map l (λ z b. (leb_trans x y z first b.0, leb-Before x y z first b)) k.0,
    ),
    k,
  )
  | inr later ↦ rw later (
    insert-Every (Before y) x l (leb-total x y later, ground arith) k.0,
    insert-Ascending x l (ground arith) k.1,
  )
]
  where
    flip : (s t : Chars) → same_chars t s ≡ false → same_chars s t ≡ false
    flip s t h = same_comm s t ∙ h

pub sort-Ascending : (l : List Chars) → DistinctKeys l → Ascending (sort l)
unfolding sort
sort-Ascending [] k = tt
sort-Ascending (x ∷ l) k = insert-Ascending x (sort l) (has-sort x l ∙ k.0) (sort-Ascending l k.1)

-- What is in front of a list is not in it.
front_absent : (x : Chars) (l : List Chars) → Every (Before x) l → has x l ≡ false
unfolding has
front_absent x [] k = refl
front_absent x (y ∷ l) k =
    let rest = front_absent x l k.1 in let here = same_comm x y in let apart = k.0.1 in ground arith

-- The first elements of two lists with the same elements are the same.
first-same :
    (x y : Chars) (l m : List Chars)
    → Ascending (x ∷ l)
    → Ascending (y ∷ m)
    → has x (y ∷ m) ≡ true
    → has y (x ∷ l) ≡ true
    → same_chars x y ≡ true
unfolding has
first-same x y l m k j h g = elim (Bool-cases (same_chars y x)) [
  | inl e ↦ same_comm x y ∙ e
  | inr e ↦
      let below = (has-Every (Before y) x m j.0 (rw e at h)).0 in
      let above = (has-Every (Before x) y l k.0 (rw (same_comm x y ∙ e) at g)).0 in
      leb-antisym x y above below
]

pub Ascending-unique :
    (l m : List Chars) → Ascending l → Ascending m → ((x : Chars) → has x l ≡ has x m) → l ≡ m
unfolding has
Ascending-unique [] [] k j h = refl
Ascending-unique [] (y ∷ m) k j h = absurd (let q = h y in let r = same_refl y in ground arith)
Ascending-unique (x ∷ l) [] k j h = absurd (let q = h x in let r = same_refl x in ground arith)
Ascending-unique (x ∷ l) (y ∷ m) k j h =
    let r = same_refl x in
    let s = same_refl y in
    let hx = h x in
    let hy = h y in
    let same = first-same x y l m k j (ground arith) (ground arith) in
    let one = same-eq x y same in
    (rw one refl) ∙ ap (λ t. y ∷ t) (Ascending-unique l m k.1 j.1 (λ z. tails z same))
  where
    tails : (z : Chars) → same_chars x y ≡ true → has z l ≡ has z m
    tails z same = elim (Bool-cases (same_chars x z)) [
      | inl e ↦
          has-same z x l (same_comm z x ∙ e)
          ∙ front_absent x l k.0
          ∙ sym (
              has-same z y m (same_comm z y ∙ (sym (same_trans x y z same) ∙ e))
              ∙ front_absent y m j.0)
      | inr e ↦ let hz = h z in let yz = sym (same_trans x y z same) ∙ e in ground arith
    ]

-- Two sets with the same paths are sorted alike.
pub sort-same :
    (l m : List Chars)
    → DistinctKeys l
    → DistinctKeys m
    → ((x : Chars) → has x l ≡ has x m)
    → sort l ≡ sort m
sort-same l m k j h =
    Ascending-unique (sort l) (sort m) (sort-Ascending l k) (sort-Ascending m j)
      (λ x. has-sort x l ∙ h x ∙ sym (has-sort x m))
