-- ===== src/Tests/Fleet.antt =====
-- internal/runner/store.go: a runner registers, is marked offline and beats once more.
use agent_trail.Base.{ℕ, String, refl, false, List, [], ◌∷◌, pos}
use agent_trail.Table.{find, count, update}
use agent_trail.Fleet.Defs.{
  Runner, RegisterParams, Moment, register, insert_runner, known_type, host_fits, new_runner,
  mark_offline, retired,
}
use agent_trail.Fleet.Offline.{FleetRequest, serve_fleet, run_fleet, IsOffline, run_fleet-IsOffline}

abbrev moment : ℕ → String → Moment
moment now id = record { now = now; id = id; refused = false }

abbrev process : RegisterParams
process = record {
  runner_type = "process";
  hostname_or_pod = "host-1";
  capacity = pos 2;
  labels = [];
}

abbrev retired_fleet : List Runner
retired_fleet = run_fleet [] (
    (FleetRequest.register_as process, moment 1 "r1")
    ∷ (FleetRequest.retire "r1", moment 5 "")
    ∷ [])

retired_fleet-IsOffline : IsOffline "r1" retired_fleet
unfolding run_fleet serve_fleet register insert_runner known_type host_fits new_runner mark_offline
    retired find count update
retired_fleet-IsOffline = record { row = _; found = refl; status = refl }

abbrev late_beat : List (FleetRequest × Moment)
late_beat = (FleetRequest.beat "r1", moment 9 "") ∷ []

run_fleet-IsOffline_example : IsOffline "r1" (run_fleet retired_fleet late_beat)
run_fleet-IsOffline_example =
    run_fleet-IsOffline "r1" retired_fleet retired_fleet-IsOffline late_beat
