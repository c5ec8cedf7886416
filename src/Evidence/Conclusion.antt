-- ===== src/Evidence/Conclusion.antt =====
-- internal/runner/publish.go: what a report concludes, against what its trusted checks say.
use agent_trail.Base.{
  arith, ◌+◌, ◌≤◌, ◌≡◌, refl, String, Bool, true, false, not, ◌&&◌, List, [], ◌∷◌, str_eq, leb,
  ◌==◌, if◌then◌else◌, Bool-cases, inl, inr,
}
use agent_trail.Base.{eq_iff}
use agent_trail.Evidence.Defs.{
  CheckResult, Report, concluded, conclude, check_conclusion, Counts, tally, no_counts, Verdict,
  none_ran, some_failed, all_passed, incomplete, verdict, validation_outcome,
}

-- The checks that the platform ran itself.
unfoldable pub trusted_only : List CheckResult → List CheckResult
trusted_only [] = []
trusted_only (v ∷ l) = let rest = trusted_only l in if v.trusted_execution then v ∷ rest else rest

unfoldable pub any_with : String → List CheckResult → Bool
any_with s [] = false
any_with s (v ∷ l) = let rest = any_with s l in if str_eq v.status s then true else rest

unfoldable pub all_with : String → List CheckResult → Bool
all_with s [] = true
all_with s (v ∷ l) = str_eq v.status s && all_with s l

abbrev is_empty : List CheckResult → Bool
is_empty [] = true
is_empty (v ∷ l) = false

-- What the trusted checks conclude: a failure where one failed, a success where there are some and all passed.
unfoldable pub expected_conclusion : List CheckResult → String
expected_conclusion l =
    if any_with "failed" l
    then "failure"
    else if is_empty l
    then "neutral"
    else if all_with "passed" l
    then "success"
    else "neutral"

-- The loop, for checks that the platform ran.
abbrev continued : Bool → String → List CheckResult → String
continued saw conclusion l =
    if any_with "failed" l
    then "failure"
    else if all_with "passed" l
    then (if is_empty l then concluded saw conclusion else conclusion)
    else "neutral"

passed_not_failed : (s : String) → str_eq s "passed" ≡ true → str_eq s "failed" ≡ false
passed_not_failed s e = let same : s ≡ "passed" = (eq_iff s "passed").0 e in rw same refl

conclude-continued :
    (l : List CheckResult) (saw : Bool) (conclusion : String)
    → conclude l saw conclusion ≡ continued saw conclusion (trusted_only l)
unfolding conclude trusted_only any_with all_with
conclude-continued [] saw conclusion = refl
conclude-continued (v ∷ l) saw conclusion = elim (Bool-cases v.trusted_execution) [
  | inr untrusted ↦ rw untrusted (conclude-continued l saw conclusion)
  | inl trusted ↦ elim (Bool-cases (str_eq v.status "failed")) [
    | inl fails ↦ rw (trusted, fails) refl
    | inr other ↦ elim (Bool-cases (str_eq v.status "passed")) [
      | inl passes ↦
          rw (trusted, other, passes) (ground (arith, conclude-continued l true conclusion))
      | inr neither ↦
          rw (trusted, other, neither) (ground (arith, conclude-continued l true "neutral"))
    ]
  ]
]

-- The conclusion of the check run that the executor publishes is the one of the checks that the platform ran
-- itself: what the agent claims has no part in it. It is a failure where one of them failed, a success where there
-- are some and all passed, and neutral else.
pub check_conclusion-expected :
    (r : Report) → check_conclusion r ≡ expected_conclusion (trusted_only r.validation)
unfolding check_conclusion expected_conclusion any_with all_with
check_conclusion-expected r =
    rw (conclude-continued r.validation false "success") (go (trusted_only r.validation))
  where
    go : (l : List CheckResult) → continued false "success" l ≡ expected_conclusion l
    go [] = refl
    go (v ∷ l) = refl

-- The verdict of the revision's comment, as the conclusion of the check run.
abbrev pub conclusion_of : Verdict → String
conclusion_of none_ran = "neutral"
conclusion_of (some_failed f n) = "failure"
conclusion_of (all_passed n) = "success"
conclusion_of (incomplete p n) = "neutral"

abbrev on_counts : Counts → List CheckResult → String
on_counts n l =
    if not (leb n.failed 0)
    then "failure"
    else if any_with "failed" l
    then "failure"
    else if n.trusted == 0 && is_empty l
    then "neutral"
    else if n.passed == n.trusted && all_with "passed" l
    then "success"
    else "neutral"

tally-on_counts :
    (l : List CheckResult) (n : Counts)
    → n.passed + n.failed ≤ n.trusted
    → conclusion_of (verdict (tally l n)) ≡ on_counts n (trusted_only l)
unfolding tally verdict trusted_only any_with all_with
tally-on_counts [] n h = ground arith
tally-on_counts (v ∷ l) n h = elim (Bool-cases v.trusted_execution) [
  | inr untrusted ↦ rw untrusted (tally-on_counts l n h)
  | inl trusted ↦ elim (Bool-cases (str_eq v.status "passed")) [
    | inl passes ↦
        let fails : str_eq v.status "failed" ≡ false = passed_not_failed v.status passes in
        rw (trusted, passes, fails)
          (ground (
            arith,
            tally-on_counts l (record n { trusted = n.trusted + 1; passed = n.passed + 1 }),
          ))
    | inr other ↦ elim (Bool-cases (str_eq v.status "failed")) [
      | inl fails ↦
          rw (trusted, other, fails)
            (ground (
              arith,
              tally-on_counts l (record n { trusted = n.trusted + 1; failed = n.failed + 1 }),
            ))
      | inr neither ↦
          rw (trusted, other, neither)
            (ground (arith, tally-on_counts l (record n { trusted = n.trusted + 1 })))
    ]
  ]
]

-- The revision's comment on the pull request and the check run agree: the verdict that the comment states has the
-- conclusion of the check run.
pub validation_outcome-check_conclusion :
    (r : Report) → conclusion_of (validation_outcome r) ≡ check_conclusion r
unfolding validation_outcome expected_conclusion any_with all_with
validation_outcome-check_conclusion r =
    rw (check_conclusion-expected r, tally-on_counts r.validation no_counts (omega arith))
      (go (trusted_only r.validation))
  where
    go : (l : List CheckResult) → on_counts no_counts l ≡ expected_conclusion l
    go [] = refl
    go (v ∷ l) = refl
