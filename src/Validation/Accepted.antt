-- ===== src/Validation/Accepted.antt =====
-- internal/validation/file.go: the files that are accepted.
use agent_trail.Base.{
  ℕ, ◌+◌, ◌≤◌, true, false, none, List, [], ◌∷◌, leb, ltb, ◌==◌, ℤ, pos, negsuc, int_leb, int_eq,
  ◌≡◌, ◌↔◌, refl, sym, ◌∙◌, arith,
}
use agent_trail.Validation.Defs.{
  max_checks, max_total_timeout_seconds, Check, File, list_length, Loop, summed, failed, check_all,
  budget, validate,
}
use agent_trail.Validation.Checks.{
  total_seconds, Accepted, Room, Apart, Fresh-Apart, Apart-Fresh, check_all-sums, check_all-inv,
}

nothing_seen : (cs : List Check) → Apart [] cs
unfolding Apart
nothing_seen [] = tt
nothing_seen (c ∷ cs) = (tt, nothing_seen cs)

Room-few : (cs : List Check) → list_length cs ≤ max_checks → Room 0 cs
unfolding Room
Room-few cs h = omega arith

version-one : (v : ℤ) → int_eq v (pos 1) ≡ true → v ≡ pos 1
version-one (pos n) h = ground arith
version-one (negsuc n) h = absurd cc

-- The guards in front of the loop.
validate-guards :
    (f : File)
    → validate f ≡ none
    → (f.version ≡ pos 1)
      × (1 ≤ list_length f.validation)
      × (list_length f.validation ≤ max_checks)
      × (budget (check_all 0 [] (pos 0) f.validation) ≡ none)
unfolding validate
validate-guards f e =
    (version-one f.version (ground arith), ground arith, ground arith, ground arith)

budget-none :
    (l : Loop)
    → budget l ≡ none
    → (r : ℤ) × (l ≡ summed r) × (int_leb r (pos max_total_timeout_seconds) ≡ true)
budget-none (summed r) h = (r, refl, ground arith)
budget-none (failed e) h = absurd cc

Accepted-is : (f : File) → validate f ≡ none → Accepted f
Accepted-is f e =
    let (one, full, few, rest) = validate-guards f e in
    let (r, run, fits) = budget-none (check_all 0 [] (pos 0) f.validation) rest in
    let room = Room-few f.validation few in
    let (k, fresh) = check_all-inv 0 0 [] f.validation r room run in
    let same = sym (check_all-sums 0 0 [] f.validation room k fresh) ∙ run in
    record {
      version_one = one;
      some_check = full;
      few_checks = few;
      checks_fine = k;
      names_differ = (Fresh-Apart [] f.validation fresh).0;
      in_budget = within (total_seconds f.validation) r same fits;
    }
  where
    within :
        (n : ℕ) (r : ℤ)
        → summed (pos (0 + n)) ≡ summed r
        → int_leb r (pos max_total_timeout_seconds) ≡ true
        → n ≤ max_total_timeout_seconds
    within n (pos m) e h = let same : 0 + n ≡ m = cc in ground arith
    within n (negsuc m) e h = absurd (let q : pos (0 + n) ≡ negsuc m = cc in cc)

validate-Accepted : (f : File) → Accepted f → validate f ≡ none
unfolding validate
validate-Accepted f h =
    let run =
      check_all-sums 0 0 [] f.validation (Room-few f.validation h.few_checks) h.checks_fine
        (Apart-Fresh [] f.validation h.names_differ (nothing_seen f.validation)) in
    let one : (list_length f.validation == 0) ≡ false = let q = h.some_check in ground arith in
    let few : ltb max_checks (list_length f.validation) ≡ false =
      let q = h.few_checks in ground arith in
    let fits : leb (0 + total_seconds f.validation) max_total_timeout_seconds ≡ true =
      let q = h.in_budget in ground arith in
    rw (h.version_one, one, few, run, fits) refl

-- `validate` accepts a file exactly when it is as the format asks: version 1, between 1 and 20 checks with
-- different names, each with a name of the pattern, a known category, a command of 1 to 64 arguments whose
-- first is not empty and a timeout from 0 to 1800 seconds, and no more than 3600 seconds in all, where 0
-- stands for 300; the sum does not overflow on the way.
pub validate-iff-Accepted : (f : File) → validate f ≡ none ↔ Accepted f
validate-iff-Accepted f = (Accepted-is f, validate-Accepted f)
