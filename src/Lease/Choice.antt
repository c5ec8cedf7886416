-- ===== src/Lease/Choice.antt =====
-- internal/runner/store.go: which row `claim` chooses.
use mathlib.Core.List.{Memᴰ}
use mathlib.Core.Path.{subst}
use agent_trail.Base.{
  ◌⊎◌, some_inj, ◌≡◌, refl, sym, ◌∙◌, Bool, true, false, Option, none, some, List, [], ◌∷◌, ℤ,
  int_leb, inl, inr, arith, Bool-cases, Option-cases,
}
use agent_trail.Task.{Task, Attempt}
use agent_trail.Table.{find}
use agent_trail.Store.Statements.{task_is}
use agent_trail.Lease.Defs.{candidates, precedes, better, first_row}

abbrev pub Every {ℓ κ} : {A : Type ℓ} → (A → Type κ) → List A → Type κ
Every P [] = Unit
Every P (x ∷ xs) = P x × Every P xs

pub Every-map {ℓ κ} :
    {A : Type ℓ} {P Q : A → Type κ} (l : List A) → ((x : A) → P x → Q x) → Every P l → Every Q l
Every-map [] f h = tt
Every-map (x ∷ l) f h = (f x h.0, Every-map l f h.1)

-- What a row of the join satisfies.
abbrev pub Joined : (Attempt → Task → Bool) → List Task → List Attempt → Attempt × Task → Type 0
Joined p tasks attempts r =
    (p r.0 r.1 ≡ true) × (find (task_is r.0.task_id) tasks ≡ some r.1) × Memᴰ r.0 attempts

pub candidates_join :
    (p : Attempt → Task → Bool) (tasks : List Task) (attempts : List Attempt)
    → Every (Joined p tasks attempts) (candidates p tasks attempts)
unfolding candidates
candidates_join p tasks [] = tt
candidates_join p tasks (a ∷ attempts) =
    let rest : Every (Joined p tasks (a ∷ attempts)) (candidates p tasks attempts) =
      Every-map (candidates p tasks attempts) (λ r h. (h.0, h.1, Memᴰ.tail h.2))
        (candidates_join p tasks attempts) in
    elim (Option-cases (find (task_is a.task_id) tasks)) [
      | inl missing ↦ rw missing rest
      | inr (t, found) ↦ elim (Bool-cases (p a t)) [
        | inl fits ↦ rw (found, fits) ((fits, found, Memᴰ.head refl), rest)
        | inr not_fit ↦ rw (found, not_fit) rest
      ]
    ]

-- The better of two rows is one of them.
better-cases :
    (x : Attempt × Task) (o : Option (Attempt × Task))
    → ((better x o ≡ x) × ((y : Attempt × Task) → o ≡ some y → precedes x y ≡ true))
      ⊎ ((y : Attempt × Task) × (o ≡ some y) × (better x o ≡ y) × (precedes x y ≡ false))
unfolding better
better-cases x none = inl (refl, λ y e. cc)
better-cases x (some y) = elim (Bool-cases (precedes x y)) [
  | inl first ↦ inl (rw first, λ z e. subst (λ z. precedes x z ≡ true) (some_inj e) first)
  | inr second ↦ inr (y, refl, rw second, second)
]

pub first_row-Every {κ} :
    (P : Attempt × Task → Type κ) (l : List (Attempt × Task)) (x : Attempt × Task)
    → Every P l
    → first_row l ≡ some x
    → P x
unfolding first_row
first_row-Every P [] x h e = absurd cc
first_row-Every P (y ∷ l) x h e = elim (better-cases y (first_row l)) [
  | inl (own, _) ↦ subst P (sym own ∙ some_inj e) h.0
  | inr (z, rest, theirs, _) ↦ subst P (sym theirs ∙ some_inj e) (first_row-Every P l z h.1 rest)
]

int_total : (a b : ℤ) → int_leb a b ≡ false → int_leb b a ≡ true
int_total a b h = ground arith

precedes_total : (x y : Attempt × Task) → precedes x y ≡ false → precedes y x ≡ true
unfolding precedes
precedes_total (a, t) (b, u) h = ground arith

precedes_trans :
    (x y z : Attempt × Task) → precedes x y ≡ true → precedes y z ≡ true → precedes x z ≡ true
unfolding precedes
precedes_trans (a, t) (b, u) (c, v) h k = ground arith

precedes_refl : (x : Attempt × Task) → precedes x x ≡ true
precedes_refl x = elim (Bool-cases (precedes x x)) [ inl e ↦ e | inr e ↦ precedes_total x x e ]

pub first_row-some : (l : List (Attempt × Task)) → first_row l ≡ none → l ≡ []
unfolding first_row
first_row-some [] e = refl
first_row-some (x ∷ l) e = absurd cc

-- The chosen row stands before every other in the order of the query.
pub first_row-precedes :
    (l : List (Attempt × Task)) (x : Attempt × Task)
    → first_row l ≡ some x
    → Every (λ y. precedes x y ≡ true) l
unfolding first_row
first_row-precedes [] x e = tt
first_row-precedes (y ∷ l) x e = elim (better-cases y (first_row l)) [
  | inl (own, ahead) ↦
      subst (λ x. Every (λ z. precedes x z ≡ true) (y ∷ l)) (sym own ∙ some_inj e)
        (
          precedes_refl y,
          elim (Option-cases (first_row l)) [
            | inl empty ↦ subst (Every (λ z. precedes y z ≡ true)) (sym (first_row-some l empty)) tt
            | inr (w, best) ↦
                Every-map l (λ z h. precedes_trans y w z (ahead w best) h)
                  (first_row-precedes l w best)
          ],
        )
  | inr (w, best, theirs, behind) ↦
      subst (λ x. Every (λ z. precedes x z ≡ true) (y ∷ l)) (sym theirs ∙ some_inj e)
        (precedes_total y w behind, first_row-precedes l w best)
]
