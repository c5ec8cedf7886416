-- ===== src/Run/Defs.antt =====
-- internal/task/store.go and internal/runner/store.go: the operations that write, as requests. The
-- row locks make their transactions serial.
use agent_trail.Base.{ℕ, String, List, [], ◌∷◌, ℤ}
use agent_trail.Task.{Payload, CreateParams, RevisionParams, TransitionParams}
use agent_trail.Db.{Db, Session}
use agent_trail.Store.Operations
use agent_trail.Store.Records
use agent_trail.Store.Records.{Marshalled}
use agent_trail.Lease.Defs as Lease

pub data Request : Type 0 where
  create : CreateParams → Request
  transition : String → TransitionParams → Request
  request_revision : String → RevisionParams → Request
  cancel : String → String → Request
  append_attempt_event : String → String → String → Marshalled → Request
  append_event : String → String → String → Payload → Request
  ensure_git_context : String → String → String → Request
  record_trigger_check_run : String → ℤ → Request
  mark_trigger_check_run_completed : String → Request
  -- the attempts that other transactions hold locked, the runner, the duration
  claim : List String → String → ℕ → Request
  claim_attempt : List String → String → String → ℕ → Request
  extend_lease : String → String → ℕ → Request
  release_lease : String → String → Request
  record_attempt_base : String → String → Request
  record_final_commit : String → String → Request
  record_pull_request : String → ℤ → Request

-- The tables after a request.
unfoldable pub serve : Request → Session → Db
serve (create p) s = (Operations.create p s).1
serve (transition id p) s = (Operations.transition id p s).1
serve (request_revision id p) s = (Operations.request_revision id p s).1
serve (cancel id reason) s = (Operations.cancel id reason s).1
serve (append_attempt_event aid kind source p) s =
    (Records.append_attempt_event aid kind source p s).1
serve (append_event tid kind source p) s = (Records.append_event tid kind source p s).1
serve (ensure_git_context id base branch) s = (Records.ensure_git_context id base branch s).1
serve (record_trigger_check_run tid run) s = (Records.record_trigger_check_run tid run s).1
serve (mark_trigger_check_run_completed aid) s = (Records.mark_trigger_check_run_completed aid s).1
serve (claim locked runner d) s = (Lease.claim locked runner d s).1
serve (claim_attempt locked runner aid d) s = (Lease.claim_attempt locked runner aid d s).1
serve (extend_lease aid runner d) s = (Lease.extend_lease aid runner d s).1
serve (release_lease aid runner) s = (Lease.release_lease aid runner s).1
serve (record_attempt_base aid sha) s = (Lease.record_attempt_base aid sha s).1
serve (record_final_commit aid sha) s = (Lease.record_final_commit aid sha s).1
serve (record_pull_request aid n) s = (Lease.record_pull_request aid n s).1

-- What a request finds beside the tables.
pub record Setting : Type 0 where
  pub now : ℕ
  pub ids : List String
  pub healthy : ℕ

abbrev pub session : Db → Setting → Session
session db e = record { db = db; now = e.now; ids = e.ids; healthy = e.healthy }

unfoldable pub run : Db → List (Request × Setting) → Db
run db [] = db
run db ((r, e) ∷ rest) = run (serve r (session db e)) rest

abbrev pub empty : Db
empty = record { tasks = []; attempts = []; events = [] }
