-- ===== src/Validation/Checks.antt =====
-- internal/validation/file.go: the loop over a file's checks.
use agent_trail.Base.{
  ℕ, zero, suc, ◌+◌, ◌*◌, ◌≤◌, ◌<◌, String, true, false, ◌&&◌, none, List, [], ◌∷◌, ltb,
  if◌then◌else◌, eq_iff, ℤ, pos, negsuc, int_leb, int_eq, wrap_int, ◌+ℤ◌, ◌≡◌, ◌≢◌, ◌↔◌, refl, sym,
  ap, ◌∙◌, arith, Option-cases, inl, inr,
}
use agent_trail.Lease.Choice.{Every, Every-map}
use agent_trail.Validation.Defs.{
  max_checks, max_command_args, max_timeout_seconds, max_total_timeout_seconds,
  default_timeout_seconds, categories, is_member, is_check_name, Check, effective_timeout, File,
  list_length, no_command, check_one, summed, check_all,
}

-- The seconds that a check may take.
abbrev pub seconds : ℤ → ℕ
seconds (pos zero) = default_timeout_seconds
seconds (pos (suc n)) = suc n
seconds (negsuc n) = 0

abbrev pub total_seconds : List Check → ℕ
total_seconds [] = 0
total_seconds (c ∷ cs) = seconds c.timeout_seconds + total_seconds cs

-- A timeout that is given, or 0 for the default.
abbrev pub TimeoutFits : ℤ → Type 0
TimeoutFits (pos n) = n ≤ max_timeout_seconds
TimeoutFits (negsuc n) = ⊥

pub record IsCheck (c : Check) : Type 0 where
  pub name_fits : is_check_name c.name ≡ true
  pub category_known : is_member c.category categories ≡ true
  pub has_command : no_command c.command ≡ false
  pub few_args : list_length c.command ≤ max_command_args
  pub timeout_fits : TimeoutFits c.timeout_seconds

abbrev pub DistinctNames : List Check → Type 0
DistinctNames [] = Unit
DistinctNames (c ∷ cs) = Every (λ d. c.name ≢ d.name) cs × DistinctNames cs

pub record Accepted (f : File) : Type 0 where
  pub version_one : f.version ≡ pos 1
  pub some_check : 1 ≤ list_length f.validation
  pub few_checks : list_length f.validation ≤ max_checks
  pub checks_fine : Every IsCheck f.validation
  pub names_differ : DistinctNames f.validation
  pub in_budget : total_seconds f.validation ≤ max_total_timeout_seconds

-- No name is one seen before.
abbrev pub Fresh : List String → List Check → Type 0
Fresh seen [] = Unit
Fresh seen (c ∷ cs) = (is_member c.name seen ≡ false) × Fresh (c.name ∷ seen) cs

timeout-test :
    (t : ℤ) → (int_leb (pos 0) t && int_leb t (pos max_timeout_seconds)) ≡ true ↔ TimeoutFits t
timeout-test (pos n) = (λ h. ground arith, λ h. ground arith)
timeout-test (negsuc n) = (λ h. absurd cc, λ h. absurd h)

check_one-none :
    (i : ℕ) (seen : List String) (c : Check)
    → check_one i seen c ≡ none ↔ ((is_member c.name seen ≡ false) × IsCheck c)
unfolding check_one
check_one-none i seen c = (
  λ h. (
    ground arith,
    record {
      name_fits = ground arith;
      category_known = ground arith;
      has_command = ground arith;
      few_args = ground arith;
      timeout_fits = (timeout-test c.timeout_seconds).0 (ground arith);
    },
  ),
  λ h.
      let fits = (timeout-test c.timeout_seconds).1 h.1.timeout_fits in
      let few : ltb max_command_args (list_length c.command) ≡ false =
        let q = h.1.few_args in ground arith in
      rw (h.1.name_fits, h.0, h.1.category_known, h.1.has_command, few, fits) refl,
)

effective-seconds :
    (c : Check)
    → TimeoutFits c.timeout_seconds
    → effective_timeout c ≡ pos (seconds c.timeout_seconds)
unfolding effective_timeout
effective-seconds c h = go c.timeout_seconds h
  where
    go :
        (t : ℤ)
        → TimeoutFits t
        → (if int_eq t (pos 0) then pos default_timeout_seconds else t) ≡ pos (seconds t)
    go (pos zero) h = refl
    go (pos (suc n)) h = ground arith
    go (negsuc n) h = absurd h

seconds-few : (t : ℤ) → TimeoutFits t → seconds t ≤ max_timeout_seconds
seconds-few (pos zero) h = omega arith
seconds-few (pos (suc n)) h = h
seconds-few (negsuc n) h = absurd h

wrap-small : (n : ℕ) → n < 9223372036854775808 → wrap_int (pos n) ≡ pos n
unfolding wrap_int
wrap-small n h = ground arith

pos-plus : (a b : ℕ) → pos a +ℤ pos b ≡ pos (a + b)
unfolding ◌+ℤ◌
pos-plus a b = ground arith

-- The sum's next value, which does not overflow.
add-seconds :
    (t : ℕ) (c : Check)
    → TimeoutFits c.timeout_seconds
    → t + seconds c.timeout_seconds < 9223372036854775808
    → wrap_int (pos t +ℤ effective_timeout c) ≡ pos (t + seconds c.timeout_seconds)
add-seconds t c h k =
    (rw (effective-seconds c h, pos-plus t (seconds c.timeout_seconds)) refl)
    ∙ wrap-small (t + seconds c.timeout_seconds) k

unfoldable pub Room : ℕ → List Check → Type 0
Room t cs = t + max_timeout_seconds * list_length cs < 9223372036854775808

Room-step :
    (t : ℕ) (c : Check) (cs : List Check)
    → TimeoutFits c.timeout_seconds
    → Room t (c ∷ cs)
    → Room (t + seconds c.timeout_seconds) cs
      × (t + seconds c.timeout_seconds < 9223372036854775808)
unfolding Room list_length
Room-step t c cs h k = let few = seconds-few c.timeout_seconds h in (omega arith, omega arith)

-- What the loop makes of a check that passes its guards.
check_all-step :
    (i t : ℕ) (seen : List String) (c : Check) (cs : List Check)
    → (is_member c.name seen ≡ false) × IsCheck c
    → t + seconds c.timeout_seconds < 9223372036854775808
    → check_all i seen (pos t) (c ∷ cs)
      ≡ check_all (i + 1) (c.name ∷ seen) (pos (t + seconds c.timeout_seconds)) cs
unfolding check_all
check_all-step i t seen c cs h k =
    rw ((check_one-none i seen c).1 h, add-seconds t c h.1.timeout_fits k) refl

check_all-guards :
    (i : ℕ) (seen : List String) (t r : ℤ) (c : Check) (cs : List Check)
    → check_all i seen t (c ∷ cs) ≡ summed r
    → (is_member c.name seen ≡ false) × IsCheck c
unfolding check_all
check_all-guards i seen t r c cs e = elim (Option-cases (check_one i seen c)) [
  | inl fine ↦ (check_one-none i seen c).0 fine
  | inr (x, bad) ↦ absurd (let q = rw bad at e in cc)
]

pub check_all-sums :
    (i t : ℕ) (seen : List String) (cs : List Check)
    → Room t cs
    → Every IsCheck cs
    → Fresh seen cs
    → check_all i seen (pos t) cs ≡ summed (pos (t + total_seconds cs))
unfolding check_all
check_all-sums i t seen [] room k f = rw (plus_zero t) refl
  where
    plus_zero : (t : ℕ) → t + 0 ≡ t
    plus_zero t = omega arith
check_all-sums i t seen (c ∷ cs) room k f =
    let (more, small) = Room-step t c cs k.0.timeout_fits room in
    check_all-step i t seen c cs (f.0, k.0) small
    ∙ check_all-sums (i + 1) (t + seconds c.timeout_seconds) (c.name ∷ seen) cs more k.1 f.1
    ∙ ap (λ n. summed (pos n)) (add_assoc t (seconds c.timeout_seconds) (total_seconds cs))
  where
    add_assoc : (a b c : ℕ) → a + b + c ≡ a + (b + c)
    add_assoc a b c = omega arith

pub check_all-inv :
    (i t : ℕ) (seen : List String) (cs : List Check) (r : ℤ)
    → Room t cs
    → check_all i seen (pos t) cs ≡ summed r
    → Every IsCheck cs × Fresh seen cs
check_all-inv i t seen [] r room e = (tt, tt)
check_all-inv i t seen (c ∷ cs) r room e =
    let here = check_all-guards i seen (pos t) r c cs e in
    let (more, small) = Room-step t c cs here.1.timeout_fits room in
    let (k, f) =
      check_all-inv (i + 1) (t + seconds c.timeout_seconds) (c.name ∷ seen) cs r more
        (sym (check_all-step i t seen c cs here small) ∙ e) in
    ((here.1, k), (here.0, f))

-- The names, apart from each other and from those seen.
member-differs :
    (x : String) (seen : List String) → is_member x seen ≡ false ↔ Every (λ y. x ≢ y) seen
unfolding is_member
member-differs x [] = (λ h. tt, λ h. refl)
member-differs x (y ∷ l) =
    let (to, from) = member-differs x l in
    (
      λ h. ((λ e. let q = (eq_iff x y).1 e in ground arith), to (ground arith)),
      λ h. let rest = from h.1 in ground (arith, eq_iff x y, h.0),
    )

unfoldable pub Apart : List String → List Check → Type 0
Apart seen cs = Every (λ c. Every (λ y. c.name ≢ y) seen) cs

pub Fresh-Apart :
    (seen : List String) (cs : List Check) → Fresh seen cs → DistinctNames cs × Apart seen cs
unfolding Apart
Fresh-Apart seen [] f = (tt, tt)
Fresh-Apart seen (c ∷ cs) f =
    let (names, apart) = Fresh-Apart (c.name ∷ seen) cs f.1 in
    (
      (Every-map cs (λ d h e. h.0 (sym e)) apart, names),
      ((member-differs c.name seen).0 f.0, Every-map cs (λ d h. h.1) apart),
    )

pub Apart-Fresh :
    (seen : List String) (cs : List Check) → DistinctNames cs → Apart seen cs → Fresh seen cs
unfolding Apart
Apart-Fresh seen [] names apart = tt
Apart-Fresh seen (c ∷ cs) names apart = (
  (member-differs c.name seen).1 apart.0,
  Apart-Fresh (c.name ∷ seen) cs names.1 (both cs names.0 apart.1),
)
  where
    both :
        (cs : List Check)
        → Every (λ d. c.name ≢ d.name) cs
        → Apart seen cs
        → Apart (c.name ∷ seen) cs
    both [] h k = tt
    both (d ∷ cs) h k = (((λ e. h.0 (sym e)), k.0), both cs h.1 k.1)
