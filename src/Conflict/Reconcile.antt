-- ===== src/Conflict/Reconcile.antt =====
-- internal/conflict/store.go: the pairs that `Reconcile` leaves.
use agent_trail.Base.{
  String, Bool, true, false, not, ◌&&◌, ◌||◌, Option, none, some, List, [], ◌≡◌, refl, sym, ap, ◌∙◌,
  arith, Bool-cases, inl, inr,
}
use agent_trail.Git.Commit.{on_some}
use agent_trail.Conflict.Defs.{any}
use agent_trail.Conflict.Detector.{Detection}
use agent_trail.Conflict.Records.{
  Row, Table, Context, existing_others, desired_of, is_desired, by_id, exec, unchanged,
  delete_stale, upsert_all, without_kinds, reconcile,
}
use agent_trail.Conflict.Desired.{
  has_pair, others, desired-all, desired-by_id, listed, listed-existing, exec-some,
}
use agent_trail.Conflict.Loops.{deleted-pairs, written-pairs}

read-only : (s s' : Table) → exec unchanged s ≡ some s' → s'.rows ≡ s.rows
read-only s s' e = let (rows, ran, are) = exec-some unchanged s s' e in are ∙ some-row (sym ran)
  where
    some-row : {x y : List Row} → some x ≡ some y → x ≡ y
    some-row h = cc

-- A transaction step that succeeds.
on_some-inv :
    (o : Option Table) (f : Table → Option Table) (s' : Table)
    → on_some o f ≡ some s'
    → (s : Table) × (o ≡ some s) × (f s ≡ some s')
on_some-inv none f s' e = absurd cc
on_some-inv (some s) f s' e = (s, refl, e)

-- Where `Reconcile` returns no error, the pairs of the task that are stored afterwards are exactly those of the
-- detections: a pair that was not detected again is gone, each detected one is there; and the rows of other
-- tasks are as they were.
pub reconcile-exact :
    (c : Context) (repo t : String) (detections : List Detection) (s s' : Table)
    → reconcile c repo t detections s ≡ some s'
    → ((o : String) → has_pair t o s'.rows ≡ is_desired o detections)
      × (others t s'.rows ≡ others t s.rows)
unfolding reconcile is_desired
reconcile-exact c repo t detections s s' e = elim (Bool-cases (any without_kinds detections)) [
  | inl bad ↦ absurd (let q = rw bad at e in cc)
  | inr fine ↦
      let m = desired_of [] detections in
      let (begun, ran1, e1) = on_some-inv (exec unchanged s) _ s' (rw fine at e) in
      let (read, ran2, e2) = on_some-inv (exec unchanged begun) _ s' e1 in
      let (cleaned, ran3, e3) =
        on_some-inv (delete_stale t m (existing_others t read.rows) read) _ s' e2 in
      let (written, ran4, e4) = on_some-inv (upsert_all c repo t (by_id m) cleaned) _ s' e3 in
      let start = read-only begun read ran2 ∙ read-only s begun ran1 in
      let finish = read-only written s' e4 in
      (
        λ o.
            let gone = (deleted-pairs t m (existing_others t read.rows) read cleaned o ran3).0 in
            let here = (written-pairs c repo t (by_id m) cleaned written o ran4).0 in
            let wanted = desired-by_id o m in
            let given = desired-all o [] detections in
            let old = listed-existing t o read.rows in
            ap (has_pair t o) finish
            ∙ here
            ∙ stored-wanted (has_pair t o read.rows) (listed o (existing_others t read.rows))
                (is_desired o m) (has_pair t o cleaned.rows) (is_desired o (by_id m)) old gone
                wanted
            ∙ given,
        ap (others t) finish
            ∙ (written-pairs c repo t (by_id m) cleaned written t ran4).1
            ∙ (deleted-pairs t m (existing_others t read.rows) read cleaned t ran3).1
            ∙ ap (others t) start,
      )
]
  where
    stored-wanted :
        (h l d cleaned w : Bool)
        → (h ≡ true → l ≡ true)
        → cleaned ≡ (h && not (l && not d))
        → w ≡ d
        → (cleaned || w) ≡ d
    stored-wanted true l d cleaned w old gone wanted = let q = old refl in ground arith
    stored-wanted false l d cleaned w old gone wanted = ground arith
