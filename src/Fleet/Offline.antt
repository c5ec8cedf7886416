-- ===== src/Fleet/Offline.antt =====
-- internal/runner/store.go: a runner that has been marked offline.
use agent_trail.Base.{
  ℕ, String, ◌≡◌, refl, ◌∙◌, Bool, true, false, not, some, List, [], ◌∷◌, ◌++◌, Bool-cases, inl,
  inr, if◌then◌else◌, arith, sym, true≢false,
}
use agent_trail.Table.{find, update, find-append, find-update_same}
use agent_trail.Db.{Result}
use agent_trail.Task.{Error, unknown_runner_type, hostname_length}
use agent_trail.Fleet.Defs.{
  FleetOperation, unless_fleet, insert_runner, known_type, host_fits, Runner, offline,
  RegisterParams, Moment, runner_is, register, new_runner, heartbeat, beats, beaten, mark_offline,
  retired, mark_lost, silent, missed,
}

pub data FleetRequest : Type 0 where
  register_as : RegisterParams → FleetRequest
  beat : String → FleetRequest
  retire : String → FleetRequest
  sweep : ℕ → FleetRequest

unfoldable pub serve_fleet : FleetRequest → Moment → List Runner → List Runner
serve_fleet (register_as p) m runners = (register p m runners).1
serve_fleet (beat id) m runners = (heartbeat id m runners).1
serve_fleet (retire id) m runners = (mark_offline id m runners).1
serve_fleet (sweep threshold) m runners = (mark_lost threshold m runners).1

unfoldable pub run_fleet : List Runner → List (FleetRequest × Moment) → List Runner
run_fleet runners [] = runners
run_fleet runners ((q, m) ∷ rest) = run_fleet (serve_fleet q m runners) rest

pub record IsOffline (id : String) (runners : List Runner) : Type 0 where
  pub row : Runner
  pub found : find (runner_is id) runners ≡ some row
  pub status : row.status ≡ offline

update-IsOffline :
    (id : String) (p : Runner → Bool) (f : Runner → Runner) (runners : List Runner)
    → ((r : Runner) → (f r).id ≡ r.id)
    → ((r : Runner) → r.status ≡ offline → p r ≡ true → (f r).status ≡ offline)
    → IsOffline id runners
    → IsOffline id (update p f runners)
update-IsOffline id p f runners kept stays h =
    let after : find (runner_is id) (update p f runners)
        ≡ some (if p h.row then f h.row else h.row) =
      find-update_same p (runner_is id) f runners (λ r. rw (kept r) refl) ∙ (rw h.found refl) in
    elim (Bool-cases (p h.row)) [
      | inl hit ↦ record {
        row = f h.row;
        found = after ∙ (rw hit refl);
        status = stays h.row h.status hit;
      }
      | inr miss ↦ record { row = h.row; found = after ∙ (rw miss refl); status = h.status }
    ]

append-IsOffline :
    (id : String) (runners more : List Runner)
    → IsOffline id runners
    → IsOffline id (runners ++ more)
append-IsOffline id runners more h = record {
  row = h.row;
  found = find-append (runner_is id) runners more ∙ (rw h.found refl);
  status = h.status;
}

either :
    {A : Type 0} (P : List Runner → Type 0) (b : Bool) (x y : Result A × List Runner)
    → P x.1
    → P y.1
    → P (if b then x else y).1
either P true x y h k = h
either P false x y h k = k

unless_fleet_keeps :
    {A : Type 0} (P : List Runner → Type 0) (b : Bool) (e : Error) (op : FleetOperation A)
    (m : Moment) (runners : List Runner)
    → P runners
    → P (op m runners).1
    → P (unless_fleet b e op m runners).1
unless_fleet_keeps P true e op m runners h k = h
unless_fleet_keeps P false e op m runners h k = k

insert_runner-IsOffline :
    (id : String) (p : RegisterParams) (m : Moment) (runners : List Runner)
    → IsOffline id runners
    → IsOffline id (insert_runner p m runners).1
unfolding insert_runner
insert_runner-IsOffline id p m runners h =
    either {A = Runner} (IsOffline id) m.refused _ _ h
      (append-IsOffline id runners (new_runner m p ∷ []) h)

register-IsOffline :
    (id : String) (p : RegisterParams) (m : Moment) (runners : List Runner)
    → IsOffline id runners
    → IsOffline id (register p m runners).1
unfolding register
register-IsOffline id p m runners h =
    unless_fleet_keeps (IsOffline id) (not (known_type p.runner_type))
      (unknown_runner_type p.runner_type) _ m runners h
      (unless_fleet_keeps (IsOffline id) (not (host_fits p.hostname_or_pod)) hostname_length
        (insert_runner p) m runners h (insert_runner-IsOffline id p m runners h))

-- A beat does not reach an offline runner, and a sweep does not either.
beats-offline : (other : String) (r : Runner) → r.status ≡ offline → beats other r ≡ false
unfolding beats
beats-offline other r off = ground arith

silent-offline :
    (threshold now : ℕ) (r : Runner) → r.status ≡ offline → silent threshold now r ≡ false
unfolding silent
silent-offline threshold now r off = ground arith

beaten-id : (now : ℕ) (r : Runner) → (beaten now r).id ≡ r.id
unfolding beaten
beaten-id now r = refl

missed-id : (now : ℕ) (r : Runner) → (missed now r).id ≡ r.id
unfolding missed
missed-id now r = refl

retired-IsOffline :
    (id : String) (p : Runner → Bool) (now : ℕ) (runners : List Runner)
    → IsOffline id runners
    → IsOffline id (update p (retired now) runners)
unfolding retired
retired-IsOffline id p now runners =
    update-IsOffline id p (retired now) runners (λ r. refl) (λ r off hit. refl)

serve_fleet-IsOffline :
    (id : String) (q : FleetRequest) (m : Moment) (runners : List Runner)
    → IsOffline id runners
    → IsOffline id (serve_fleet q m runners)
unfolding serve_fleet heartbeat mark_offline mark_lost
serve_fleet-IsOffline id (register_as p) m runners h = register-IsOffline id p m runners h
serve_fleet-IsOffline id (beat other) m runners h =
    either {A = Unit {0}} (IsOffline id) m.refused _ _ h (
      update-IsOffline id (beats other) (beaten m.now) runners (beaten-id m.now)
        (λ r off hit. absurd (true≢false (sym hit ∙ beats-offline other r off))) h)
serve_fleet-IsOffline id (retire other) m runners h =
    either {A = Unit {0}} (IsOffline id) m.refused _ _ h
      (retired-IsOffline id (runner_is other) m.now runners h)
serve_fleet-IsOffline id (sweep threshold) m runners h =
    either {A = List Runner} (IsOffline id) m.refused _ _ h (
      update-IsOffline id (silent threshold m.now) (missed m.now) runners (missed-id m.now)
        (λ r off hit. absurd (true≢false (sym hit ∙ silent-offline threshold m.now r off))) h)

-- A runner that is offline stays offline, whatever registrations, heartbeats, retirements and sweeps
-- for lost runners follow: neither a late heartbeat nor a sweep brings it back.
pub run_fleet-IsOffline :
    (id : String) (runners : List Runner)
    → IsOffline id runners
    → (rs : List (FleetRequest × Moment)) → IsOffline id (run_fleet runners rs)
unfolding run_fleet
run_fleet-IsOffline id runners h [] = h
run_fleet-IsOffline id runners h ((q, m) ∷ rest) =
    run_fleet-IsOffline id (serve_fleet q m runners) (serve_fleet-IsOffline id q m runners h) rest
