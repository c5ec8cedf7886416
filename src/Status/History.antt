-- ===== src/Status/History.antt =====
-- status.go: what the transition test implies for a whole history of statuses.
use mathlib.Core.List.{Memᴰ}
use agent_trail.Base.{
  ℕ, ◌≤◌, ◌<◌, ◌≡◌, sym, Bool, true, false, ◌&&◌, ◌⊎◌, inl, inr, List, [], ◌∷◌, arith, leb,
  Bool-cases,
}
use agent_trail.Status.{
  Status, created, queued, provisioning, planning, executing, validating, publishing,
  awaiting_review, revision_requested, completed, failed, cancelled, timed_out, unknown, rank,
  valid, terminal, can_transition,
}

-- Each status of the list may follow the one before it.
abbrev pub allowed : Status → List Status → Bool
allowed s [] = true
allowed s (t ∷ rest) = can_transition s t && allowed t rest

abbrev pub final : Status → List Status → Status
final s [] = s
final s (t ∷ rest) = final t rest

-- How far a status is on the way to `completed`.
abbrev progress : Status → ℕ
progress failed = 0
progress cancelled = 0
progress timed_out = 0
progress (unknown s) = 0
progress s = rank s

-- A step cannot jump over a status of the way.
step_lands :
    (s t g : Status)
    → progress g ≤ 7
    → can_transition s t ≡ true
    → progress s < progress g
    → progress g ≤ progress t
    → t ≡ g
unfolding can_transition
step_lands s t g k h below above = ground arith

visits :
    (s g : Status) (rest : List Status)
    → progress g ≤ 7
    → allowed s rest ≡ true
    → progress s < progress g
    → progress g ≤ progress (final s rest)
    → Memᴰ g rest
visits s g [] k h below above = absurd (omega arith)
visits s g (t ∷ rest) k h below above = elim (Bool-cases (leb (progress g) (progress t))) [
  | inl reached ↦ Memᴰ.head (sym (step_lands s t g k (ground arith) below (ground arith)))
  | inr short ↦ Memᴰ.tail (visits t g rest k (ground arith) (ground arith) above)
]

-- A history of allowed steps from `created` to `completed` passes through `executing`, `validating`,
-- `publishing` and `awaiting_review`.
pub completed_was_reviewed :
    (rest : List Status)
    → allowed created rest ≡ true
    → final created rest ≡ completed
    → Memᴰ executing rest × Memᴰ validating rest × Memᴰ publishing rest × Memᴰ awaiting_review rest
completed_was_reviewed rest h e =
    let via : (g : Status) → 0 < progress g → progress g ≤ 7 → Memᴰ g rest =
      λ g above k. visits created g rest k h above (rw e (omega arith)) in
    (
      via executing (omega arith) (omega arith),
      via validating (omega arith) (omega arith),
      via publishing (omega arith) (omega arith),
      via awaiting_review (omega arith) (omega arith),
    )

-- A final status admits no step, and no step leaves the thirteen known statuses.
pub terminal-can_transition :
    (s t : Status)
    → ((terminal s ≡ true) ⊎ (valid s ≡ false) ⊎ (valid t ≡ false))
    → can_transition s t ≡ false
unfolding can_transition
terminal-can_transition s t h = ground arith

-- The way to `completed`.
route : Status → List Status
route created =
    queued ∷ provisioning ∷ planning ∷ executing ∷ validating ∷ publishing ∷ awaiting_review
    ∷ completed ∷ []
route queued =
    provisioning ∷ planning ∷ executing ∷ validating ∷ publishing ∷ awaiting_review ∷ completed ∷ []
route provisioning =
    planning ∷ executing ∷ validating ∷ publishing ∷ awaiting_review ∷ completed ∷ []
route planning = executing ∷ validating ∷ publishing ∷ awaiting_review ∷ completed ∷ []
route executing = validating ∷ publishing ∷ awaiting_review ∷ completed ∷ []
route validating = publishing ∷ awaiting_review ∷ completed ∷ []
route publishing = awaiting_review ∷ completed ∷ []
route awaiting_review = completed ∷ []
route revision_requested = completed ∷ []
route _ = []

-- From a valid status that is not final, `CanTransition` allows the step to `cancelled`, and some
-- history of allowed steps ends in `completed`.
pub open_can_end :
    (s : Status)
    → valid s ≡ true
    → terminal s ≡ false
    → (can_transition s cancelled ≡ true)
      × (rest : List Status) × (allowed s rest ≡ true)
      × (final s rest ≡ completed)
unfolding can_transition route
open_can_end s v t = (ground arith, route s, ground arith, ground arith)
