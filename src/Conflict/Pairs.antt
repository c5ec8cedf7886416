-- ===== src/Conflict/Pairs.antt =====
-- internal/conflict/store.go: the statements of `Reconcile` and the pairs that they leave.
use agent_trail.Base.{
  String, Bool, true, false, not, ◌&&◌, ◌||◌, some, List, [], ◌∷◌, str_eq, eq_iff, eq_refl, ◌≡◌,
  refl, sym, ap, ◌∙◌, arith, Bool-cases, Option-cases, inl, inr,
}
use mathlib.Core.Path.{subst}
use agent_trail.Chars.Order.{text_leb, text_total}
use agent_trail.Conflict.Defs.{any, filtered}
use agent_trail.Conflict.Detector.{Detection}
use agent_trail.Conflict.Records.{
  Row, Context, least, greatest, is_pair, involves, row_allowed, delete_pair, updated_row, new_row,
  upsert,
}

pub eq-left : (a b x : String) → str_eq a b ≡ true → str_eq a x ≡ str_eq b x
eq-left a b x h = ap (λ s. str_eq s x) ((eq_iff a b).0 h)

pub eq_comm : (a b : String) → str_eq a b ≡ str_eq b a
eq_comm a b = elim (Bool-cases (str_eq a b)) [
  | inl e ↦ e ∙ sym (subst (λ s. str_eq s a ≡ true) ((eq_iff a b).0 e) (eq_refl a))
  | inr e ↦ elim (Bool-cases (str_eq b a)) [
    | inl k ↦ absurd (let q = subst (λ s. str_eq s b ≡ true) ((eq_iff b a).0 k) (eq_refl b) in cc)
    | inr k ↦ e ∙ sym k
  ]
]

text_refl : (a : String) → text_leb a a ≡ true
text_refl a = elim (Bool-cases (text_leb a a)) [ inl e ↦ e | inr e ↦ text_total a a e ]

-- The pairs of t are told apart by the other task.
pub pair-same :
    (t o p : String)
    → (str_eq (least t o) (least t p) && str_eq (greatest t o) (greatest t p)) ≡ str_eq o p
pair-same t o p = elim (Bool-cases (text_leb t o)) [
  | inl lo ↦ elim (Bool-cases (text_leb t p)) [
    | inl lp ↦ rw (lo, lp, eq_refl t) refl
    | inr lp ↦ rw (lo, lp) (crossed o p lo lp)
  ]
  | inr lo ↦ elim (Bool-cases (text_leb t p)) [
    | inl lp ↦ rw (lo, lp) (crossed_back o p lo lp)
    | inr lp ↦ rw (lo, lp, eq_refl t) (and_true (str_eq o p))
  ]
]
  where
    and_true : (b : Bool) → (b && true) ≡ b
    and_true b = ground arith

    apart : (x y : String) → text_leb t x ≡ true → text_leb t y ≡ false → str_eq x y ≡ false
    apart x y lx ly = elim (Bool-cases (str_eq x y)) [
      | inl e ↦ absurd (let q = subst (λ s. text_leb t s ≡ true) ((eq_iff x y).0 e) lx in cc)
      | inr e ↦ e
    ]

    crossed :
        (o p : String)
        → text_leb t o ≡ true
        → text_leb t p ≡ false
        → (str_eq t p && str_eq o t) ≡ str_eq o p
    crossed o p lo lp = rw (apart t p (text_refl t) lp, apart o p lo lp) refl

    crossed_back :
        (o p : String)
        → text_leb t o ≡ false
        → text_leb t p ≡ true
        → (str_eq o t && str_eq t p) ≡ str_eq o p
    crossed_back o p lo lp =
        rw (eq_comm o t, apart t o (text_refl t) lo, eq_comm o p, apart p o lp lo) refl

pub pair-involves :
    (t o : String) (r : Row) → is_pair (least t o) (greatest t o) r ≡ true → involves t r ≡ true
pair-involves t o r h = elim (Bool-cases (text_leb t o)) [
  | inl lo ↦ let k = rw lo at h in ground arith
  | inr lo ↦ let k = rw lo at h in ground arith
]

pub any-delete :
    (a b x y : String) (rows : List Row)
    → any (is_pair x y) (delete_pair a b rows)
      ≡ (any (is_pair x y) rows && not (str_eq a x && str_eq b y))
unfolding any delete_pair
any-delete a b x y [] = refl
any-delete a b x y (r ∷ rows) =
    let rest = any-delete a b x y rows in
    elim (Bool-cases (is_pair a b r)) [
      | inl e ↦
          let ha = eq-left r.task_a_id a x (ground arith) in
          let hb = eq-left r.task_b_id b y (ground arith) in ground arith
      | inr e ↦ elim (Bool-cases (is_pair x y r)) [
        | inl k ↦
            let ha = eq-left r.task_a_id x a (ground arith) in
            let hb = eq-left r.task_b_id y b (ground arith) in
            let fa = eq_comm x a in let fb = eq_comm y b in ground arith
        | inr k ↦ ground arith
      ]
    ]

pub any-upsert :
    (c : Context) (repo t : String) (d : Detection) (x y : String) (rows after : List Row)
    → upsert c repo t d rows ≡ some after
    → any (is_pair x y) after ≡ (
        any (is_pair x y) rows
        || (str_eq (least t d.other_task_id) x && str_eq (greatest t d.other_task_id) y))
unfolding any upsert
any-upsert c repo t d x y [] after e =
    elim (Bool-cases (
      row_allowed (new_row c repo t d)
      && c.in_repository repo t
      && c.in_repository repo d.other_task_id)) [
        | inl fine ↦
            let same : new_row c repo t d ∷ [] ≡ after = let q = rw fine at e in cc in
            ap (any (is_pair x y)) (sym same) ∙ or_false (is_pair x y (new_row c repo t d))
        | inr bad ↦ absurd (let q = rw bad at e in cc)
      ]
  where
    or_false : (b : Bool) → (b || false) ≡ b
    or_false b = ground arith
any-upsert c repo t d x y (r ∷ rows) after e =
    elim (Bool-cases (is_pair (least t d.other_task_id) (greatest t d.other_task_id) r)) [
      | inl here ↦ elim (Bool-cases (row_allowed (updated_row c.now d r))) [
        | inl fine ↦
            let same : updated_row c.now d r ∷ rows ≡ after = let q = rw (here, fine) at e in cc in
            let ha = eq-left r.task_a_id (least t d.other_task_id) x (ground arith) in
            let hb = eq-left r.task_b_id (greatest t d.other_task_id) y (ground arith) in
            ap (any (is_pair x y)) (sym same)
            ∙ (rw (ha, hb)
                (absorb
                  (str_eq (least t d.other_task_id) x && str_eq (greatest t d.other_task_id) y)
                  (any (is_pair x y) rows)))
        | inr bad ↦ absurd (let q = rw (here, bad) at e in cc)
      ]
      | inr other ↦ elim (Option-cases (upsert c repo t d rows)) [
        | inl bad ↦ absurd (let q = rw (other, bad) at e in cc)
        | inr (l, good) ↦
            let same : r ∷ l ≡ after = let q = rw (other, good) at e in cc in
            let rest = any-upsert c repo t d x y rows l good in
            ap (any (is_pair x y)) (sym same)
            ∙ (rw rest (
                or_assoc (is_pair x y r) (any (is_pair x y) rows)
                  (str_eq (least t d.other_task_id) x && str_eq (greatest t d.other_task_id) y)))
      ]
    ]
  where
    absorb : (p q : Bool) → (p || q) ≡ (p || q || p)
    absorb p q = ground arith

    or_assoc : (p q r : Bool) → (p || (q || r)) ≡ (p || q || r)
    or_assoc p q r = ground arith

-- The rows without t stay.
pub kept-delete :
    (t o : String) (rows : List Row)
    → filtered (λ r. not (involves t r)) (delete_pair (least t o) (greatest t o) rows)
      ≡ filtered (λ r. not (involves t r)) rows
unfolding filtered delete_pair
kept-delete t o [] = refl
kept-delete t o (r ∷ rows) = elim (Bool-cases (is_pair (least t o) (greatest t o) r)) [
  | inl e ↦ rw (e, pair-involves t o r e) (kept-delete t o rows)
  | inr e ↦ rw (e, kept-delete t o rows) refl
]

pub new-involves :
    (c : Context) (repo t : String) (d : Detection) → involves t (new_row c repo t d) ≡ true
new-involves c repo t d =
    pair-involves t d.other_task_id (new_row c repo t d)
      (rw (eq_refl (least t d.other_task_id), eq_refl (greatest t d.other_task_id)) refl)

pub kept-upsert :
    (c : Context) (repo t : String) (d : Detection) (rows after : List Row)
    → upsert c repo t d rows ≡ some after
    → filtered (λ r. not (involves t r)) after ≡ filtered (λ r. not (involves t r)) rows
unfolding filtered upsert
kept-upsert c repo t d [] after e =
    elim (Bool-cases (
      row_allowed (new_row c repo t d)
      && c.in_repository repo t
      && c.in_repository repo d.other_task_id)) [
        | inl fine ↦
            let same : new_row c repo t d ∷ [] ≡ after = let q = rw fine at e in cc in
            ap (filtered (λ r. not (involves t r))) (sym same) ∙ (rw (new-involves c repo t d) refl)
        | inr bad ↦ absurd (let q = rw bad at e in cc)
      ]
kept-upsert c repo t d (r ∷ rows) after e =
    elim (Bool-cases (is_pair (least t d.other_task_id) (greatest t d.other_task_id) r)) [
      | inl here ↦ elim (Bool-cases (row_allowed (updated_row c.now d r))) [
        | inl fine ↦
            let same : updated_row c.now d r ∷ rows ≡ after = let q = rw (here, fine) at e in cc in
            ap (filtered (λ r. not (involves t r))) (sym same)
            ∙ (rw (pair-involves t d.other_task_id r here) refl)
        | inr bad ↦ absurd (let q = rw (here, bad) at e in cc)
      ]
      | inr other ↦ elim (Option-cases (upsert c repo t d rows)) [
        | inl bad ↦ absurd (let q = rw (other, bad) at e in cc)
        | inr (l, good) ↦
            let same : r ∷ l ≡ after = let q = rw (other, good) at e in cc in
            ap (filtered (λ r. not (involves t r))) (sym same)
            ∙ (rw (kept-upsert c repo t d rows l good) refl)
      ]
    ]
