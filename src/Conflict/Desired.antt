-- ===== src/Conflict/Desired.antt =====
-- internal/conflict/store.go: the pairs that are wanted, those that are stored, and one statement.
use agent_trail.Base.{
  ℕ, zero, suc, String, Bool, true, false, not, ◌||◌, Option, none, some, List, [], ◌∷◌,
  if◌then◌else◌, str_eq, eq_iff, ◌≡◌, refl, sym, ap, ◌∙◌, arith, Bool-cases, inl, inr,
}
use agent_trail.Chars.Order.{text_leb}
use agent_trail.Conflict.Defs.{any, filtered}
use agent_trail.Conflict.Detector.{Detection}
use agent_trail.Conflict.Records.{
  Row, Table, least, greatest, is_pair, involves, existing_others, put, desired_of, is_desired,
  insert_detection, by_id, counted, exec,
}
use agent_trail.Conflict.Pairs.{eq-left, eq_comm, pair-involves}

-- Whether the pair of t and another task is stored, and the rows that t has no part in.
abbrev pub has_pair : String → String → List Row → Bool
has_pair t o rows = any (is_pair (least t o) (greatest t o)) rows

abbrev pub others : String → List Row → List Row
others t rows = filtered (λ r. not (involves t r)) rows

pub desired-put :
    (o : String) (d : Detection) (m : List Detection)
    → is_desired o (put d m) ≡ (is_desired o m || str_eq o d.other_task_id)
unfolding is_desired put
desired-put o d [] = ground arith
desired-put o d (e ∷ m) =
    let rest = desired-put o d m in
    elim (Bool-cases (str_eq d.other_task_id e.other_task_id)) [
      | inl same ↦
          let one = ap (str_eq o) ((eq_iff d.other_task_id e.other_task_id).0 same) in ground arith
      | inr apart ↦ ground arith
    ]

pub desired-all :
    (o : String) (m l : List Detection)
    → is_desired o (desired_of m l) ≡ (is_desired o m || is_desired o l)
unfolding is_desired desired_of
desired-all o m [] = ground arith
desired-all o m (d ∷ l) =
    let rest = desired-all o (put d m) l in let here = desired-put o d m in ground arith

pub desired-insert :
    (o : String) (d : Detection) (m : List Detection)
    → is_desired o (insert_detection d m) ≡ (str_eq o d.other_task_id || is_desired o m)
unfolding is_desired insert_detection
desired-insert o d [] = refl
desired-insert o d (e ∷ m) = let rest = desired-insert o d m in ground arith

pub desired-by_id : (o : String) (m : List Detection) → is_desired o (by_id m) ≡ is_desired o m
unfolding is_desired by_id
desired-by_id o [] = refl
desired-by_id o (d ∷ m) = desired-insert o d (by_id m) ∙ (rw (desired-by_id o m) refl)

-- Whether an id is in a list.
unfoldable pub listed : String → List String → Bool
listed o [] = false
listed o (p ∷ l) = str_eq p o || listed o l

-- The other task of a stored pair.
other-of :
    (t o : String) (r : Row)
    → is_pair (least t o) (greatest t o) r ≡ true
    → str_eq (if str_eq r.task_a_id t then r.task_b_id else r.task_a_id) o ≡ true
other-of t o r e = elim (Bool-cases (text_leb t o)) [
  | inl lo ↦ let k = rw lo at e in ground arith
  | inr lo ↦
      let k = rw lo at e in
      elim (Bool-cases (str_eq r.task_a_id t)) [
        | inl a ↦
            let same = eq-left r.task_a_id o t (ground arith) in
            let flip = eq_comm o t in
            let last = eq-left r.task_b_id t o (ground arith) in rw a (ground arith)
        | inr a ↦ rw a (ground arith)
      ]
]

pub listed-existing :
    (t o : String) (rows : List Row)
    → has_pair t o rows ≡ true
    → listed o (existing_others t rows) ≡ true
unfolding any listed existing_others
listed-existing t o [] h = absurd cc
listed-existing t o (r ∷ rows) h = elim (Bool-cases (is_pair (least t o) (greatest t o) r)) [
  | inl e ↦ rw (pair-involves t o r e, other-of t o r e) refl
  | inr e ↦
      let rest = listed-existing t o rows (rw e at h) in
      elim (Bool-cases (involves t r)) [
        | inl i ↦
            rw (i, rest)
              (or_true (str_eq (if str_eq r.task_a_id t then r.task_b_id else r.task_a_id) o))
        | inr i ↦ rw i rest
      ]
]
  where
    or_true : (b : Bool) → (b || true) ≡ true
    or_true b = ground arith

-- A statement that succeeds.
pub exec-some :
    (f : List Row → Option (List Row)) (s s' : Table)
    → exec f s ≡ some s'
    → (rows : List Row) × (f s.rows ≡ some rows) × (s'.rows ≡ rows)
exec-some f s s' e = go s.healthy e
  where
    counted-some :
        (n : ℕ) (o : Option (List Row))
        → counted n o ≡ some s'
        → (rows : List Row) × (o ≡ some rows) × (s'.rows ≡ rows)
    counted-some n none e = absurd cc
    counted-some n (some rows) e = (rows, refl, ap (λ u. u.rows) (sym (some-inj e)))
      where
        some-inj : {x y : Table} → some x ≡ some y → x ≡ y
        some-inj h = cc

    go :
        (h : ℕ)
        → (elim h [ zero ↦ none | suc n ↦ counted n (f s.rows) ]) ≡ some s'
        → (rows : List Row) × (f s.rows ≡ some rows) × (s'.rows ≡ rows)
    go zero e = absurd cc
    go (suc n) e = counted-some n (f s.rows) e
