-- ===== src/Table/Defs.antt =====
-- The statements on a table.
use agent_trail.Base.{
  ℕ, ◌+◌, Bool, false, ◌||◌, Option, none, some, List, [], ◌∷◌, max, bit, if◌then◌else◌,
}

module _ {ℓ} {R : Type ℓ} where
  -- The first row that passes the test.
  unfoldable pub find : (R → Bool) → List R → Option R
  find p [] = none
  find p (r ∷ rows) = if p r then some r else find p rows

  unfoldable pub exists : (R → Bool) → List R → Bool
  exists p [] = false
  exists p (r ∷ rows) = p r || exists p rows

  unfoldable pub count : (R → Bool) → List R → ℕ
  count p [] = 0
  count p (r ∷ rows) = bit (p r) + count p rows

  unfoldable pub update : (R → Bool) → (R → R) → List R → List R
  update p f [] = []
  update p f (r ∷ rows) = (if p r then f r else r) ∷ update p f rows

  -- COALESCE(MAX(n), 0) over the rows that pass the test.
  unfoldable pub greatest : (R → Bool) → (R → ℕ) → List R → ℕ
  greatest p n [] = 0
  greatest p n (r ∷ rows) = max (if p r then n r else 0) (greatest p n rows)
