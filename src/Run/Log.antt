-- ===== src/Run/Log.antt =====
-- internal/task/store.go: the activity log.
use mathlib.Core.List.{append-nil, append_assoc}
use agent_trail.Base.{◌≡◌, refl, ◌∙◌, List, [], ◌∷◌, ◌++◌, sym}
use agent_trail.Task.{Task, Event, TransitionParams}
use agent_trail.Db.{Db, Session}
use agent_trail.Store.Effect.Apply.{Applied, repeated, performed}
use agent_trail.Run.Defs.{Request, Setting, run}
use agent_trail.Run.Keeps.{run_keeps}

-- The events are those of the list, and more after them.
pub record Extends (before : List Event) (db : Db) : Type 0 where
  pub added : List Event
  pub all : db.events ≡ before ++ added

Extends-more :
    {before : List Event} {db after : Db} (e : Event)
    → after.events ≡ db.events ++ e ∷ []
    → Extends before db
    → Extends before after
Extends-more {before = before} e wrote h = record {
  added = h.added ++ e ∷ [];
  all = wrote ∙ (rw (h.all, append_assoc before h.added (e ∷ [])) refl);
}

Extends-same :
    {before : List Event} {db after : Db}
    → after.events ≡ db.events
    → Extends before db
    → Extends before after
Extends-same same h = record { added = h.added; all = same ∙ h.all }

Applied-Extends :
    (before : List Event) {cur next : Task} {p : TransitionParams} {s t : Session}
    → Applied cur p s t next
    → Extends before s.db
    → Extends before t.db
Applied-Extends before (repeated _ _ _ same _) h = rw same h
Applied-Extends before (performed _ _ did) h = Extends-more _ did.events h

-- Whatever requests are served, no event that is stored is changed, removed or moved: the log only
-- grows at its end.
pub log_append_only : (db : Db) (rs : List (Request × Setting)) → Extends db.events (run db rs)
log_append_only db rs =
    run_keeps (Extends db.events) (λ cur next p s t stored. Applied-Extends db.events)
      (λ d t. Extends-same refl) (λ d e. Extends-more e refl)
      (λ now id base branch d. Extends-same refl) (λ d a. Extends-same refl) db rs
      (record { added = []; all = sym (append-nil db.events) })
