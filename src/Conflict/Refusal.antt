-- ===== src/Conflict/Refusal.antt =====
-- internal/conflict/store.go and migration 00008: a verdict of no conflict that `Reconcile` cannot store.
use agent_trail.Base.{
  ℕ, zero, suc, String, Bool, true, false, not, ◌&&◌, ◌||◌, Option, none, some, List, [], ◌∷◌, ◌++◌,
  str_eq, ◌≡◌, refl, ap, ◌∙◌, arith, Bool-cases, inl, inr,
}
use agent_trail.Git.Commit.{on_some}
use agent_trail.Conflict.Defs.{any}
use agent_trail.Conflict.Detector.{Detection, no_evidence, known_severity}
use agent_trail.Conflict.Semantic.{is_semantic}
use agent_trail.Conflict.Records.{
  Row, Table, Context, least, greatest, is_pair, row_allowed, updated_row, new_row, upsert, put,
  desired_of, insert_detection, by_id, counted, exec, unchanged, existing_others, delete_stale,
  upsert_all, without_kinds, reconcile,
}

-- A detection without the semantic kind that has a severity, and also evidence or an unknown severity: the
-- detector makes one where the verdict is that nothing conflicts, and another kind is found.
unfoldable pub unstorable : Detection → Bool
unstorable d =
    not (any is_semantic d.kinds)
    && not (str_eq d.semantic_severity "")
    && (not (no_evidence d.semantic_evidence) || not (known_severity d.semantic_severity))

new-refused :
    (c : Context) (repo t : String) (d : Detection)
    → unstorable d ≡ true
    → row_allowed (new_row c repo t d) ≡ false
unfolding row_allowed unstorable
new-refused c repo t d h =
    let named : str_eq d.semantic_severity "" ≡ false = ground arith in rw named (ground arith)

updated-refused :
    (now : ℕ) (d : Detection) (r : Row)
    → unstorable d ≡ true
    → row_allowed (updated_row now d r) ≡ false
unfolding row_allowed unstorable
updated-refused now d r h =
    let named : str_eq d.semantic_severity "" ≡ false = ground arith in rw named (ground arith)

upsert-refused :
    (c : Context) (repo t : String) (d : Detection) (rows : List Row)
    → unstorable d ≡ true
    → upsert c repo t d rows ≡ none
unfolding upsert
upsert-refused c repo t d [] h = rw (new-refused c repo t d h) refl
upsert-refused c repo t d (r ∷ rows) h =
    elim (Bool-cases (is_pair (least t d.other_task_id) (greatest t d.other_task_id) r)) [
      | inl e ↦ rw (e, updated-refused c.now d r h) refl
      | inr e ↦ rw (e, upsert-refused c repo t d rows h) refl
    ]

exec-refused : (f : List Row → Option (List Row)) (s : Table) → f s.rows ≡ none → exec f s ≡ none
exec-refused f s h = go s.healthy
  where
    go : (n : ℕ) → (elim n [ zero ↦ none | suc k ↦ counted k (f s.rows) ]) ≡ none
    go zero = refl
    go (suc k) = rw h refl

on-none :
    (o : Option Table) (f : Table → Option Table) → ((s : Table) → f s ≡ none) → on_some o f ≡ none
on-none none f h = refl
on-none (some s) f h = h s

writes-refused :
    (c : Context) (repo t : String) (m : List Detection) (s : Table)
    → any unstorable m ≡ true
    → upsert_all c repo t m s ≡ none
unfolding upsert_all any
writes-refused c repo t [] s h = absurd cc
writes-refused c repo t (d ∷ m) s h = elim (Bool-cases (unstorable d)) [
  | inl bad ↦ rw (exec-refused (upsert c repo t d) s (upsert-refused c repo t d s.rows bad)) refl
  | inr fine ↦
      on-none (exec (upsert c repo t d) s) (upsert_all c repo t m)
        (λ s'. writes-refused c repo t m s' (rw fine at h))
]

any-insert :
    (p : Detection → Bool) (d : Detection) (m : List Detection)
    → any p (insert_detection d m) ≡ (p d || any p m)
unfolding any insert_detection
any-insert p d [] = refl
any-insert p d (e ∷ m) = let rest = any-insert p d m in ground arith

any-by_id : (p : Detection → Bool) (m : List Detection) → any p (by_id m) ≡ any p m
unfolding any by_id
any-by_id p [] = refl
any-by_id p (d ∷ m) = any-insert p d (by_id m) ∙ (rw (any-by_id p m) refl)

any-put :
    (p : Detection → Bool) (d : Detection) (m : List Detection)
    → p d ≡ true
    → any p (put d m) ≡ true
unfolding any put
any-put p d [] h = ground arith
any-put p d (e ∷ m) h = let rest = any-put p d m h in ground arith

-- The last detection stays in the map.
last-desired :
    (p : Detection → Bool) (m l : List Detection) (d : Detection)
    → p d ≡ true
    → any p (desired_of m (l ++ d ∷ [])) ≡ true
unfolding desired_of
last-desired p m [] d h = any-put p d m h
last-desired p m (e ∷ l) d h = last-desired p (put e m) l d h

-- `Reconcile` fails, whatever is stored and whatever else was detected, where the last detection is not of the
-- semantic kind but carries a verdict's severity, with evidence or with a severity other than low, medium and
-- high: the table's constraints refuse the row, and the warnings of all the siblings are lost.
pub reconcile-refused :
    (c : Context) (repo t : String) (l : List Detection) (d : Detection) (s : Table)
    → unstorable d ≡ true
    → reconcile c repo t (l ++ d ∷ []) s ≡ none
unfolding reconcile
reconcile-refused c repo t l d s h = elim (Bool-cases (any without_kinds (l ++ d ∷ []))) [
  | inl empty ↦ rw empty refl
  | inr full ↦
      let m = desired_of [] (l ++ d ∷ []) in
      rw full (
        on-none (exec unchanged s) _ (λ begun. on-none (exec unchanged begun) _ (λ read.
          on-none (delete_stale t m (existing_others t read.rows) read) _ (λ cleaned.
            ap (λ o. on_some o (exec unchanged))
              (writes-refused c repo t (by_id m) cleaned
                (any-by_id unstorable m ∙ last-desired unstorable [] l d h))))))
]
