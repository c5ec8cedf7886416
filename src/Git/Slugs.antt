-- ===== src/Git/Slugs.antt =====
-- internal/gitworkspace/branch.go: what `SanitizeBranch` makes.
use agent_trail.Base.{
  ℕ, ◌≤◌, ◌≡◌, refl, Bool, true, false, some, [], ◌∷◌, ◌++◌, arith, ltb, Bool-cases, inl, inr,
  some_inj,
}
use mathlib.Core.Path.{subst}
use agent_trail.Chars.Defs.{
  Chars, keep, trim, trim_left, trim_right, after_prefix, char_count, first_chars,
}
use agent_trail.Lease.Choice.{Every}
use agent_trail.Git.Branch.{
  is_slug, is_dash, is_branch_char, dashed, lowered, max_slug, branch_prefix, branch_of, slug_of,
  sanitize_branch, all_of, slug_fits, fits_after, valid_branch_chars,
}

abbrev Slug : Chars → Type 0
Slug s = Every (λ c. is_branch_char c ≡ true) s

dashed-Slug : (inside : Bool) (s : Chars) → Slug (dashed inside s)
unfolding dashed
dashed-Slug inside [] = tt
dashed-Slug inside (c ∷ s) = elim (Bool-cases (is_slug c)) [
  | inl keeps ↦ rw keeps (rw keeps refl, dashed-Slug false s)
  | inr other ↦ elim (Bool-cases inside) [
    | inl within ↦ rw (other, within) (dashed-Slug true s)
    | inr starts ↦ rw (other, starts) (refl, dashed-Slug true s)
  ]
]

trim_left-Slug : (p : ℕ → Bool) (s : Chars) → Slug s → Slug (trim_left p s)
unfolding trim_left
trim_left-Slug p [] h = tt
trim_left-Slug p (c ∷ s) h = elim (Bool-cases (p c)) [
  | inl goes ↦ rw goes (trim_left-Slug p s h.1)
  | inr stays ↦ rw stays h
]

-- What is trimmed on the right is a prefix of what was there.
data Prefix : Chars → Chars → Type 0 where
  nothing : {s : Chars} → Prefix [] s
  next : {c : ℕ} {s t : Chars} → Prefix s t → Prefix (c ∷ s) (c ∷ t)

keep-Prefix : (p : ℕ → Bool) (c : ℕ) (r s : Chars) → Prefix r s → Prefix (keep p c r) (c ∷ s)
keep-Prefix p c [] s h = elim (Bool-cases (p c)) [
  | inl goes ↦ rw goes nothing
  | inr stays ↦ rw stays (next nothing)
]
keep-Prefix p c (d ∷ r) s h = next h

trim_right-Prefix : (p : ℕ → Bool) (s : Chars) → Prefix (trim_right p s) s
unfolding trim_right
trim_right-Prefix p [] = nothing
trim_right-Prefix p (c ∷ s) = keep-Prefix p c (trim_right p s) s (trim_right-Prefix p s)

first_chars-Prefix : (n : ℕ) (s : Chars) → Prefix (first_chars n s) s
unfolding first_chars
first_chars-Prefix n [] = nothing
first_chars-Prefix ℕ.zero (c ∷ s) = nothing
first_chars-Prefix (ℕ.suc n) (c ∷ s) = next (first_chars-Prefix n s)

Prefix-Slug : {s t : Chars} → Prefix s t → Slug t → Slug s
Prefix-Slug nothing h = tt
Prefix-Slug (next p) h = (h.0, Prefix-Slug p h.1)

Prefix-count : {s t : Chars} → Prefix s t → char_count s ≤ char_count t
unfolding char_count
Prefix-count nothing = omega arith
Prefix-count (next p) = omega (arith, Prefix-count p)

first_chars-count : (n : ℕ) (s : Chars) → char_count (first_chars n s) ≤ n
unfolding first_chars char_count
first_chars-count n [] = omega arith
first_chars-count ℕ.zero (c ∷ s) = omega arith
first_chars-count (ℕ.suc n) (c ∷ s) = omega (arith, first_chars-count n s)

trim_left-count : (p : ℕ → Bool) (s : Chars) → char_count (trim_left p s) ≤ char_count s
unfolding trim_left char_count
trim_left-count p [] = omega arith
trim_left-count p (c ∷ s) = elim (Bool-cases (p c)) [
  | inl goes ↦ rw goes (omega (arith, trim_left-count p s))
  | inr stays ↦ rw stays (omega arith)
]

trim_left-head : (p : ℕ → Bool) (c : ℕ) (t s : Chars) → trim_left p s ≡ c ∷ t → p c ≡ false
unfolding trim_left
trim_left-head p c t [] h = cc
trim_left-head p c t (d ∷ s) h = elim (Bool-cases (p d)) [
  | inl goes ↦ trim_left-head p c t s (rw goes at h)
  | inr stays ↦ let same = rw stays at h in ground arith
]

Prefix-head : (c : ℕ) (s t : Chars) → Prefix (c ∷ s) t → (u : Chars) × (t ≡ c ∷ u)
Prefix-head c s [] h = elim h [ ]
Prefix-head c s (d ∷ u) (next p) = (u, refl)

trim-Slug : (s : Chars) → Slug s → Slug (trim is_dash s)
unfolding trim
trim-Slug s h =
    Prefix-Slug (trim_right-Prefix is_dash (trim_left is_dash s)) (trim_left-Slug is_dash s h)

trim-count : (s : Chars) → char_count (trim is_dash s) ≤ char_count s
unfolding trim
trim-count s = omega (
  arith,
  Prefix-count (trim_right-Prefix is_dash (trim_left is_dash s)),
  trim_left-count is_dash s,
)

trim-head : (c : ℕ) (t s : Chars) → trim is_dash s ≡ c ∷ t → is_dash c ≡ false
unfolding trim
trim-head c t s h =
    let shape : Prefix (c ∷ t) (trim_left is_dash s) =
      subst (λ u. Prefix u (trim_left is_dash s)) h
        (trim_right-Prefix is_dash (trim_left is_dash s)) in
    let (u, e) = Prefix-head c t (trim_left is_dash s) shape in trim_left-head is_dash c u s e

-- A text that may stand behind the prefix.
record IsSlug (s : Chars) : Type 0 where
  chars : Slug s
  bounded : char_count s ≤ 100
  head : (c : ℕ) (t : Chars) → s ≡ c ∷ t → is_dash c ≡ false

trimmed-IsSlug : (s : Chars) → Slug s → char_count (trim is_dash s) ≤ 100 → IsSlug (trim is_dash s)
trimmed-IsSlug s h n = record { chars = trim-Slug s h; bounded = n; head = λ c t. trim-head c t s }

slug_of-IsSlug : (raw : Chars) → IsSlug (slug_of raw)
unfolding slug_of
slug_of-IsSlug raw =
    let all = dashed-Slug false (lowered raw) in
    let slug = trim is_dash (dashed false (lowered raw)) in
    elim (Bool-cases (ltb max_slug (char_count slug))) [
      | inl long ↦ rw long (
          trimmed-IsSlug (first_chars max_slug slug)
            (Prefix-Slug (first_chars-Prefix max_slug slug)
              (trim-Slug (dashed false (lowered raw)) all))
            (omega
              (arith, trim-count (first_chars max_slug slug), first_chars-count max_slug slug)))
      | inr short ↦ rw short (trimmed-IsSlug (dashed false (lowered raw)) all (ground arith))
    ]

Slug-all_of : (s : Chars) → Slug s → all_of is_branch_char s ≡ true
Slug-all_of [] h = refl
Slug-all_of (c ∷ s) h = rw (h.0, Slug-all_of s h.1) refl

after_own_prefix : (p s : Chars) → after_prefix p (p ++ s) ≡ some s
unfolding after_prefix
after_own_prefix [] s = refl
after_own_prefix (c ∷ p) s = ground (arith, after_own_prefix p s)

IsSlug-fits : (c : ℕ) (t : Chars) → IsSlug (c ∷ t) → slug_fits (c ∷ t) ≡ true
unfolding char_count
IsSlug-fits c t h = ground (arith, h.chars.0, h.head c t refl, h.bounded, Slug-all_of t h.chars.1)

named-valid : (s b : Chars) → IsSlug s → branch_of s ≡ some b → valid_branch_chars b ≡ true
unfolding valid_branch_chars
named-valid [] b h e = absurd cc
named-valid (c ∷ t) b h e =
    subst (λ b. fits_after (after_prefix branch_prefix b) ≡ true) (some_inj e)
      (rw (after_own_prefix branch_prefix (c ∷ t)) (IsSlug-fits c t h))

-- Every branch name that `SanitizeBranch` makes, from any text at all, passes the pattern of `ValidBranch`.
pub sanitize_branch-valid :
    (raw b : Chars) → sanitize_branch raw ≡ some b → valid_branch_chars b ≡ true
unfolding sanitize_branch
sanitize_branch-valid raw b e = named-valid (slug_of raw) b (slug_of-IsSlug raw) e
