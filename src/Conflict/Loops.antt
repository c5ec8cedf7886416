-- ===== src/Conflict/Loops.antt =====
-- internal/conflict/store.go: the two loops of `Reconcile`.
use agent_trail.Base.{
  String, Bool, true, false, not, ◌&&◌, ◌||◌, some, List, [], ◌∷◌, str_eq, eq_iff, ◌≡◌, refl, sym,
  ap, ◌∙◌, arith, Bool-cases, Option-cases, inl, inr,
}
use agent_trail.Git.Commit.{on_some}
use agent_trail.Conflict.Detector.{Detection}
use agent_trail.Conflict.Records.{
  Table, Context, least, greatest, delete_pair, upsert, is_desired, exec, delete_stale, upsert_all,
}
use agent_trail.Conflict.Pairs.{
  eq_comm, pair-same, any-delete, any-upsert, kept-delete, kept-upsert,
}
use agent_trail.Conflict.Desired.{has_pair, others, listed, exec-some}

stale-skipped :
    (t p : String) (m : List Detection) (l : List String) (s : Table)
    → is_desired p m ≡ true
    → delete_stale t m (p ∷ l) s ≡ delete_stale t m l s
unfolding delete_stale
stale-skipped t p m l s h = rw (h, delete_stale) refl

stale-deleted :
    (t p : String) (m : List Detection) (l : List String) (s : Table)
    → is_desired p m ≡ false
    → delete_stale t m (p ∷ l) s
      ≡ on_some
          (exec (λ rows. some (delete_pair (least t p) (greatest t p) rows)) s)
          (delete_stale t m l)
unfolding delete_stale
stale-deleted t p m l s h = rw (h, delete_stale) refl

desired-same :
    (p o : String) (m : List Detection) → str_eq p o ≡ true → is_desired p m ≡ is_desired o m
desired-same p o m h = ap (λ q. is_desired q m) ((eq_iff p o).0 h)

abbrev pub Left : (t o : String) (s s' : Table) → Bool → Type 0
Left t o s s' b = (has_pair t o s'.rows ≡ b) × (others t s'.rows ≡ others t s.rows)

deleted-one :
    (t o p : String) (s s' : Table)
    → exec (λ rows. some (delete_pair (least t p) (greatest t p) rows)) s ≡ some s'
    → Left t o s s' (has_pair t o s.rows && not (str_eq p o))
deleted-one t o p s s' e =
    let (rows, ran, are) =
      exec-some (λ rows. some (delete_pair (least t p) (greatest t p) rows)) s s' e in
    let same : delete_pair (least t p) (greatest t p) s.rows ≡ s'.rows =
      (let q : delete_pair (least t p) (greatest t p) s.rows ≡ rows = cc in q ∙ sym are) in
    (
      ap (has_pair t o) (sym same)
          ∙ any-delete (least t p) (greatest t p) (least t o) (greatest t o) s.rows
          ∙ (rw (pair-same t p o) refl),
      ap (others t) (sym same) ∙ kept-delete t p s.rows,
    )

pub deleted-pairs :
    (t : String) (m : List Detection) (l : List String) (s s' : Table) (o : String)
    → delete_stale t m l s ≡ some s'
    → Left t o s s' (has_pair t o s.rows && not (listed o l && not (is_desired o m)))
unfolding delete_stale listed
deleted-pairs t m [] s s' o e =
    let same : s ≡ s' = cc in
    (
      ap (λ u. has_pair t o u.rows) (sym same) ∙ and_true (has_pair t o s.rows),
      ap (λ u. others t u.rows) (sym same),
    )
  where
    and_true : (b : Bool) → b ≡ (b && true)
    and_true b = ground arith
deleted-pairs t m (p ∷ l) s s' o e = elim (Bool-cases (is_desired p m)) [
  | inl wanted ↦
      let (pairs, kept) = deleted-pairs t m l s s' o (sym (stale-skipped t p m l s wanted) ∙ e) in
      let same = desired-same p o m in (pairs ∙ ground arith, kept)
  | inr stale ↦
      elim (Option-cases (exec (λ rows. some (delete_pair (least t p) (greatest t p) rows)) s)) [
        | inl lost ↦ absurd (let q = rw lost at (sym (stale-deleted t p m l s stale) ∙ e) in cc)
        | inr (s1, ran) ↦
            let (pairs, kept) =
              deleted-pairs t m l s1 s' o (rw ran at (sym (stale-deleted t p m l s stale) ∙ e)) in
            let (one, kept_one) = deleted-one t o p s s1 ran in
            let same = desired-same p o m in (pairs ∙ ground arith, kept ∙ kept_one)
      ]
]

written-one :
    (c : Context) (repo t o : String) (d : Detection) (s s' : Table)
    → exec (upsert c repo t d) s ≡ some s'
    → Left t o s s' (has_pair t o s.rows || str_eq o d.other_task_id)
written-one c repo t o d s s' e =
    let (rows, ran, are) = exec-some (upsert c repo t d) s s' e in
    (
      ap (has_pair t o) are
          ∙ any-upsert c repo t d (least t o) (greatest t o) s.rows rows ran
          ∙ (rw (pair-same t d.other_task_id o, eq_comm o d.other_task_id) refl),
      ap (others t) are ∙ kept-upsert c repo t d s.rows rows ran,
    )

pub written-pairs :
    (c : Context) (repo t : String) (m : List Detection) (s s' : Table) (o : String)
    → upsert_all c repo t m s ≡ some s'
    → Left t o s s' (has_pair t o s.rows || is_desired o m)
unfolding upsert_all is_desired
written-pairs c repo t [] s s' o e =
    let same : s ≡ s' = cc in
    (
      ap (λ u. has_pair t o u.rows) (sym same) ∙ or_false (has_pair t o s.rows),
      ap (λ u. others t u.rows) (sym same),
    )
  where
    or_false : (b : Bool) → b ≡ (b || false)
    or_false b = ground arith
written-pairs c repo t (d ∷ m) s s' o e = elim (Option-cases (exec (upsert c repo t d) s)) [
  | inl lost ↦ absurd (let q = rw lost at e in cc)
  | inr (s1, ran) ↦
      let (pairs, kept) = written-pairs c repo t m s1 s' o (rw ran at e) in
      let (one, kept_one) = written-one c repo t o d s s1 ran in
      (pairs ∙ ground arith, kept ∙ kept_one)
]
