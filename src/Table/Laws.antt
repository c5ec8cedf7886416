-- ===== src/Table/Laws.antt =====
-- How the statements on a table bear on one another.
use mathlib.Core.List.{Memᴰ}
use agent_trail.Base.{
  ℕ, ◌+◌, ◌≤◌, ◌<◌, ◌≡◌, refl, Bool, true, ◌||◌, none, some, List, [], ◌∷◌, ◌++◌, inl, inr, max,
  bit, false, arith, Bool-cases, if◌then◌else◌,
}
use agent_trail.Table.Defs.{find, exists, count, update, greatest}

module _ {ℓ} {R : Type ℓ} where
  pub count-append : (p : R → Bool) (a b : List R) → count p (a ++ b) ≡ count p a + count p b
  unfolding count
  count-append p [] b = omega arith
  count-append p (r ∷ a) b = omega (arith, count-append p a b)

  pub exists-append : (p : R → Bool) (a b : List R) → exists p (a ++ b) ≡ (exists p a || exists p b)
  unfolding exists
  exists-append p [] b = refl
  exists-append p (r ∷ a) b = ground (arith, exists-append p a b)

  pub greatest-append :
      (p : R → Bool) (n : R → ℕ) (a b : List R)
      → greatest p n (a ++ b) ≡ max (greatest p n a) (greatest p n b)
  unfolding greatest
  greatest-append p n [] b = omega arith
  greatest-append p n (r ∷ a) b = omega (arith, greatest-append p n a b)

  -- A row is found exactly if one is counted.
  pub find-count : (p : R → Bool) (rows : List R) → find p rows ≡ none → count p rows ≡ 0
  unfolding find count
  find-count p [] h = refl
  find-count p (r ∷ rows) h = ground (arith, find-count p rows)

  pub count-find :
      (p : R → Bool) (rows : List R) (r : R)
      → find p rows ≡ some r
      → (p r ≡ true) × (0 < count p rows)
  unfolding find count
  count-find p [] r h = cc
  count-find p (x ∷ rows) r h = ground (arith, count-find p rows r)

  -- A row that passes two tests counts for the one it is found by.
  pub update_none :
      (p : R → Bool) (f : R → R) (rows : List R) → count p rows ≡ 0 → update p f rows ≡ rows
  unfolding count update
  update_none p f [] h = refl
  update_none p f (r ∷ rows) h = ground (arith, update_none p f rows)

  -- An UPDATE by a unique key changes the counts by the one row that it changes.
  pub count-update :
      (p q : R → Bool) (f : R → R) (rows : List R) (r : R)
      → count p rows ≤ 1
      → find p rows ≡ some r
      → count q (update p f rows) + bit (q r) ≡ count q rows + bit (q (f r))
  unfolding count update find
  count-update p q f [] r u h = cc
  count-update p q f (x ∷ rows) r u h = elim (Bool-cases (p x)) [
    | inl here ↦ ground (arith, update_none p f rows)
    | inr later ↦ ground (arith, count-update p q f rows r)
  ]

  -- A row found by one test counts for every test that it passes.
  pub count_of_found :
      (p q : R → Bool) (rows : List R) (r : R)
      → find q rows ≡ some r
      → p r ≡ true
      → 0 < count p rows
  unfolding count find
  count_of_found p q [] r h e = cc
  count_of_found p q (x ∷ rows) r h e = ground (arith, count_of_found p q rows r)

  -- An UPDATE that keeps the test's value keeps the counts.
  pub count-update_same :
      (p q : R → Bool) (f : R → R) (rows : List R)
      → ((r : R) → q (f r) ≡ q r)
      → count q (update p f rows) ≡ count q rows
  unfolding count update
  count-update_same p q f [] h = refl
  count-update_same p q f (x ∷ rows) h = ground (arith, h x, count-update_same p q f rows h)

  pub find-update_same :
      (p q : R → Bool) (f : R → R) (rows : List R)
      → ((r : R) → q (f r) ≡ q r)
      → find q (update p f rows)
        ≡ elim (find q rows) [ none ↦ none | some r ↦ some (if p r then f r else r) ]
  unfolding find update
  find-update_same p q f [] h = refl
  find-update_same p q f (x ∷ rows) h = ground (arith, h x, find-update_same p q f rows h)

  pub unique_find :
      (p q : R → Bool) (rows : List R) (r : R)
      → count p rows ≤ 1
      → find q rows ≡ some r
      → p r ≡ true
      → find p rows ≡ some r
  unfolding count find
  unique_find p q [] r u h e = cc
  unique_find p q (x ∷ rows) r u h e = ground (
    arith,
    unique_find p q rows r,
    count-find q rows r,
    find-count p rows,
    count_of_found p q rows r,
  )

  pub count-update_le :
      (p q : R → Bool) (f : R → R) (rows : List R)
      → ((r : R) → bit (q (f r)) ≤ bit (q r))
      → count q (update p f rows) ≤ count q rows
  unfolding count update
  count-update_le p q f [] h = omega arith
  count-update_le p q f (x ∷ rows) h = ground (arith, h x, count-update_le p q f rows h)

  pub count_le :
      (p q : R → Bool) (rows : List R)
      → ((r : R) → bit (q r) ≤ bit (p r))
      → count q rows ≤ count p rows
  unfolding count
  count_le p q [] h = omega arith
  count_le p q (x ∷ rows) h = omega (arith, h x, count_le p q rows h)

  pub exists-count : (p : R → Bool) (rows : List R) → exists p rows ≡ false → count p rows ≡ 0
  unfolding exists count
  exists-count p [] h = refl
  exists-count p (x ∷ rows) h = ground (arith, exists-count p rows)

  pub count-exists : (p : R → Bool) (rows : List R) → count p rows ≡ 0 → exists p rows ≡ false
  unfolding exists count
  count-exists p [] h = refl
  count-exists p (x ∷ rows) h = ground (arith, count-exists p rows)

  pub count-one : (p : R → Bool) (r : R) → count p (r ∷ []) ≡ bit (p r)
  unfolding count
  count-one p r = omega arith

  pub find-append :
      (p : R → Bool) (a b : List R)
      → find p (a ++ b) ≡ elim (find p a) [ none ↦ find p b | some r ↦ some r ]
  unfolding find
  find-append p [] b = refl
  find-append p (r ∷ a) b = ground (arith, find-append p a b)

  pub find-append_new :
      (p : R → Bool) (rows : List R) (r : R)
      → exists p rows ≡ false
      → p r ≡ true
      → find p (rows ++ r ∷ []) ≡ some r
  unfolding find exists
  find-append_new p [] r h e = ground arith
  find-append_new p (x ∷ rows) r h e = ground (arith, find-append_new p rows r)

  count_of_member :
      (p : R → Bool) (rows : List R) (r : R) → Memᴰ r rows → p r ≡ true → 0 < count p rows
  unfolding count
  count_of_member p [] r m h = elim m [ ]
  count_of_member p (x ∷ rows) r (Memᴰ.head e) h = ground arith
  count_of_member p (x ∷ rows) r (Memᴰ.tail m) h = ground (arith, count_of_member p rows r m h)

  -- A row of the table is the one found by its unique key.
  pub mem-find :
      (p : R → Bool) (rows : List R) (r : R)
      → count p rows ≤ 1
      → Memᴰ r rows
      → p r ≡ true
      → find p rows ≡ some r
  unfolding count find
  mem-find p [] r u m h = elim m [ ]
  mem-find p (x ∷ rows) r u (Memᴰ.head e) h = ground arith
  mem-find p (x ∷ rows) r u (Memᴰ.tail m) h =
      ground (arith, mem-find p rows r (omega arith) m h, count_of_member p rows r m h)

  pub update-find :
      (p : R → Bool) (f : R → R) (rows : List R)
      → ((r : R) → p (f r) ≡ p r)
      → find p (update p f rows) ≡ elim (find p rows) [ none ↦ none | some r ↦ some (f r) ]
  unfolding find update
  update-find p f [] h = refl
  update-find p f (x ∷ rows) h = ground (arith, h x, update-find p f rows h)
