-- ===== src/Store/Pages.antt =====
-- internal/task/store.go: what a page of the activity log holds.
use agent_trail.Base.{
  ℕ, zero, suc, ◌≤◌, String, ◌≡◌, Bool, true, false, List, [], ◌∷◌, ℤ, pos, arith, Bool-cases, inl,
  inr,
}
use agent_trail.Db.{Db, Session, ok, statement, Result-cases, Tx}
use agent_trail.Store.Reads.{
  select, insert_by, order_by, limited, rows_count, clamp, Entry, entries, earlier, page,
}
use agent_trail.Lease.Choice.{Every, Every-map}

module _ {ℓ} {R : Type ℓ} (before : R → R → Bool) where
  -- Each row may stand before all that follow it.
  abbrev pub Sorted : List R → Type 0
  Sorted [] = Unit
  Sorted (r ∷ rows) = Every (λ x. before r x ≡ true) rows × Sorted rows

  insert_by-Every {κ} :
      (P : R → Type κ) (r : R) (rows : List R)
      → P r
      → Every P rows
      → Every P (insert_by before r rows)
  unfolding insert_by
  insert_by-Every P r [] h t = (h, tt)
  insert_by-Every P r (x ∷ rows) h t = elim (Bool-cases (before r x)) [
    | inl goes ↦ rw goes (h, t)
    | inr stays ↦ rw stays (t.0, insert_by-Every P r rows h t.1)
  ]

  pub order_by-Every {κ} :
      (P : R → Type κ) (rows : List R) → Every P rows → Every P (order_by before rows)
  unfolding order_by
  order_by-Every P [] h = tt
  order_by-Every P (r ∷ rows) h =
      insert_by-Every P r (order_by before rows) h.0 (order_by-Every P rows h.1)

  module _ (total : (a b : R) → before a b ≡ false → before b a ≡ true)
      (trans : (a b c : R) → before a b ≡ true → before b c ≡ true → before a c ≡ true) where
    insert_by-Sorted : (r : R) (rows : List R) → Sorted rows → Sorted (insert_by before r rows)
    unfolding insert_by
    insert_by-Sorted r [] h = (tt, tt)
    insert_by-Sorted r (x ∷ rows) h = elim (Bool-cases (before r x)) [
      | inl goes ↦ rw goes ((goes, Every-map rows (λ y k. trans r x y goes k) h.0), h)
      | inr stays ↦ rw stays (
        insert_by-Every (λ y. before x y ≡ true) r rows (total r x stays) h.0,
        insert_by-Sorted r rows h.1,
      )
    ]

    pub order_by-Sorted : (rows : List R) → Sorted (order_by before rows)
    unfolding order_by
    order_by-Sorted [] = tt
    order_by-Sorted (r ∷ rows) = insert_by-Sorted r (order_by before rows) (order_by-Sorted rows)

module _ {ℓ} {R : Type ℓ} where
  pub limited-Every {κ} :
      (P : R → Type κ) (n : ℕ) (rows : List R) → Every P rows → Every P (limited n rows)
  unfolding limited
  limited-Every P n [] h = tt
  limited-Every P zero (r ∷ rows) h = tt
  limited-Every P (suc n) (r ∷ rows) h = (h.0, limited-Every P n rows h.1)

  pub limited-Sorted :
      (before : R → R → Bool) (n : ℕ) (rows : List R)
      → Sorted before rows
      → Sorted before (limited n rows)
  unfolding limited
  limited-Sorted before n [] h = tt
  limited-Sorted before zero (r ∷ rows) h = tt
  limited-Sorted before (suc n) (r ∷ rows) h =
      (limited-Every _ n rows h.0, limited-Sorted before n rows h.1)

  pub rows_count-limited : (n : ℕ) (rows : List R) → rows_count (limited n rows) ≤ n
  unfolding limited rows_count
  rows_count-limited n [] = omega arith
  rows_count-limited zero (r ∷ rows) = omega arith
  rows_count-limited (suc n) (r ∷ rows) = omega (arith, rows_count-limited n rows)

  pub select-Every : (p : R → Bool) (rows : List R) → Every (λ r. p r ≡ true) (select p rows)
  unfolding select
  select-Every p [] = tt
  select-Every p (r ∷ rows) = elim (Bool-cases (p r)) [
    | inl goes ↦ rw goes (goes, select-Every p rows)
    | inr stays ↦ rw stays (select-Every p rows)
  ]

pub earlier_total : (a b : Entry) → earlier a b ≡ false → earlier b a ≡ true
unfolding earlier
earlier_total (m, d) (n, e) h = ground arith

pub earlier_trans : (a b c : Entry) → earlier a b ≡ true → earlier b c ≡ true → earlier a c ≡ true
unfolding earlier
earlier_trans (k, c) (m, d) (n, e) h l = ground arith

pub clamp_le : (usual most : ℕ) (limit : ℤ) → usual ≤ most → clamp usual most limit ≤ most
unfolding clamp
clamp_le usual most (pos n) h = ground arith
clamp_le usual most (ℤ.negsuc n) h = ground arith

pub page-Every :
    (p : Entry → Bool) (limit : ℕ) (id : String) (db : Db)
    → Every (λ e. p e ≡ true) (page p limit id db)
unfolding page
page-Every p limit id db =
    limited-Every _ limit _
      (order_by-Every earlier _ _ (select-Every p (entries id db.attempts db.events)))

pub page-Sorted :
    (p : Entry → Bool) (limit : ℕ) (id : String) (db : Db) → Sorted earlier (page p limit id db)
unfolding page
page-Sorted p limit id db = limited-Sorted earlier limit _ (
    order_by-Sorted earlier earlier_total earlier_trans
      (select p (entries id db.attempts db.events)))

pub page_le :
    (p : Entry → Bool) (limit : ℕ) (id : String) (db : Db) → rows_count (page p limit id db) ≤ limit
unfolding page
page_le p limit id db = rows_count-limited limit _

pub statement-eq-ok :
    {A : Type 0} (body : Tx A) (s : Session) {a : A}
    → (statement body s).0 ≡ ok a
    → (t : Session) × (body s ≡ ok (a, t))
unfolding statement
statement-eq-ok body s h = elim (Result-cases (body s)) [
  | inl (b, t, e) ↦ let q = rw e at h in (t, ground arith)
  | inr (x, e) ↦ absurd (let q = rw e at h in cc)
]
