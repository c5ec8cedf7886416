-- ===== src/Fleet/Defs.antt =====
-- internal/runner/store.go: Register, Heartbeat, MarkOffline and MarkLost. Each is one statement on
-- the table `runners`, which no other operation reads.
use agent_trail.Base.{
  ℕ, ◌+◌, String, Bool, true, false, not, ◌&&◌, ◌||◌, List, [], ◌∷◌, ◌++◌, ℤ, pos, int_leb, str_eq,
  ltb, ◌==◌, if◌then◌else◌,
}
use agent_trail.Task.{
  Payload, Error, runner_not_found, hostname_length, unknown_runner_type, failed_statement,
}
use agent_trail.Text.{codes}
use agent_trail.Table.{count, update}
use agent_trail.Db.{Result, ok, err}
use agent_trail.Store.Reads.{select}

pub data RunnerStatus : Type 0 where
  online offline lost : RunnerStatus

pub record Runner : Type 0 where
  pub id : String
  pub runner_type : String
  pub hostname_or_pod : String
  pub status : RunnerStatus
  pub capacity : ℤ
  pub labels : Payload
  pub last_heartbeat_at : ℕ
  pub created_at : ℕ
  pub updated_at : ℕ

pub record RegisterParams : Type 0 where
  pub runner_type : String
  pub hostname_or_pod : String
  pub capacity : ℤ
  pub labels : Payload

-- What a statement finds: its clock, the value of gen_random_uuid(), and whether it is refused.
pub record Moment : Type 0 where
  pub now : ℕ
  pub id : String
  pub refused : Bool

abbrev pub FleetOperation : Type 0 → Type 0
FleetOperation A = Moment → List Runner → Result A × List Runner

abbrev bytes_of : ℕ → ℕ
bytes_of c = if ltb c 128 then 1 else if ltb c 2048 then 2 else if ltb c 65536 then 3 else 4

-- len(s): the bytes of the text in UTF-8.
byte_count : List ℕ → ℕ
byte_count [] = 0
byte_count (c ∷ cs) = bytes_of c + byte_count cs

abbrev pub runner_is : String → Runner → Bool
runner_is id r = str_eq r.id id

unfoldable pub known_type : String → Bool
known_type s = str_eq s "process" || str_eq s "docker" || str_eq s "kubernetes"

unfoldable pub new_runner : Moment → RegisterParams → Runner
new_runner m p = record {
  id = m.id;
  runner_type = p.runner_type;
  hostname_or_pod = p.hostname_or_pod;
  status = online;
  capacity = if int_leb p.capacity (pos 0) then pos 1 else p.capacity;
  labels = p.labels;
  last_heartbeat_at = m.now;
  created_at = m.now;
  updated_at = m.now;
}

-- 1 to 255 bytes
unfoldable pub host_fits : String → Bool
unfolding byte_count
host_fits s = not (str_eq s "") && not (ltb 255 (byte_count (codes s)))

abbrev pub unless_fleet : {A : Type 0} → Bool → Error → FleetOperation A → FleetOperation A
unless_fleet true e op m runners = (err e, runners)
unless_fleet false e op m runners = op m runners

unfoldable pub insert_runner : RegisterParams → FleetOperation Runner
insert_runner p m runners =
    if m.refused
    then (err (failed_statement "register runner"), runners)
    else (ok (new_runner m p), runners ++ new_runner m p ∷ [])

unfoldable pub register : RegisterParams → FleetOperation Runner
register p =
    unless_fleet (not (known_type p.runner_type)) (unknown_runner_type p.runner_type)
      (unless_fleet (not (host_fits p.hostname_or_pod)) hostname_length (insert_runner p))

abbrev is_offline : RunnerStatus → Bool
is_offline offline = true
is_offline _ = false

abbrev is_online : RunnerStatus → Bool
is_online online = true
is_online _ = false

-- WHERE id = $1 AND status <> 'offline'
unfoldable pub beats : String → Runner → Bool
beats id r = runner_is id r && not (is_offline r.status)

unfoldable pub beaten : ℕ → Runner → Runner
beaten now r = record r { last_heartbeat_at = now; status = online; updated_at = now }

-- An UPDATE that has to find a row.
abbrev update_one : String → (Runner → Bool) → (ℕ → Runner → Runner) → FleetOperation (Unit {0})
update_one what p f m runners =
    if m.refused
    then (err (failed_statement what), runners)
    else (if count p runners == 0 then err runner_not_found else ok tt, update p (f m.now) runners)

unfoldable pub heartbeat : String → FleetOperation (Unit {0})
heartbeat id = update_one "heartbeat" (beats id) beaten

unfoldable pub retired : ℕ → Runner → Runner
retired now r = record r { status = offline; updated_at = now }

unfoldable pub mark_offline : String → FleetOperation (Unit {0})
mark_offline id = update_one "mark offline" (runner_is id) retired

-- WHERE status = 'online' AND last_heartbeat_at < now() - threshold
unfoldable pub silent : ℕ → ℕ → Runner → Bool
silent threshold now r = is_online r.status && ltb (r.last_heartbeat_at + threshold) now

unfoldable pub missed : ℕ → Runner → Runner
missed now r = record r { status = lost; updated_at = now }

abbrev updated_rows : (Runner → Bool) → (Runner → Runner) → List Runner → List Runner
updated_rows p f runners = update (λ r. true) f (select p runners)

unfoldable pub mark_lost : ℕ → FleetOperation (List Runner)
mark_lost threshold m runners =
    if m.refused then (err (failed_statement "mark lost"), runners) else (
      ok (updated_rows (silent threshold m.now) (missed m.now) runners),
      update (silent threshold m.now) (missed m.now) runners,
    )
