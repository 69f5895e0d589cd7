-- ===== src/Interrupt/Submission.antt =====
-- internal/application/command/submit_tool_outputs.go, `Handle`.
use duragraph.Base.{ℕ, Option, none, some, List, [], ◌∷◌, String, if◌then◌else◌}
use duragraph.Base.Value.{GoMap}
use duragraph.Base.Errors.{DomainError, Result, ok, err, invalid_state}
use duragraph.Run
use duragraph.Run.{Outcome}
use duragraph.Run.Statuses.{requires_action, same_status, to_string}
use duragraph.Persistence
use duragraph.Persistence.{Db, Failure, find_by_id}
use duragraph.Interrupt.{Interrupt, Store, resolve, update, find_unresolved_by_run_id}

pub record World : Type 0 where
  pub db : Db
  pub interrupts : Store

-- What a handler answers; a method call on a nil pointer panics.
pub data Answer : Type 0 where
  done : Answer
  refused : DomainError → Answer
  not_stored : Failure → Answer
  panicked : Answer

abbrev pub stored : World → Db × Run.Run × Option Failure → World × Answer
stored w (db, r, none) = (record w { db = db }, done)
stored w (db, r, some e) = (record w { db = db }, not_stored e)

-- `runRepo.Update`
abbrev pub store_run : (ℕ → String) → String → Run.Run → World → World × Answer
store_run uuid sid r w = stored w (Persistence.update uuid sid r w.db)

abbrev pub resumed : (ℕ → String) → String → Outcome → World → World × Answer
resumed uuid sid (r, some e) w = (w, refused e)
resumed uuid sid (r, none) w = store_run uuid sid r w

-- From the resolution of the interrupt `id` on.
abbrev pub submit_resolved :
    (ℕ → String)
    → String
    → ℕ
    → List GoMap
    → Run.Run
    → String
    → Interrupt × Option DomainError
    → World
    → World × Answer
submit_resolved uuid sid now outputs r id (i, some e) w = (w, refused e)
submit_resolved uuid sid now outputs r id (i, none) w =
    resumed uuid sid (Run.resume now id outputs r) (record w { interrupts = update i w.interrupts })

abbrev pub submit_first :
    (ℕ → String)
    → String
    → ℕ
    → List GoMap
    → Run.Run
    → List (Option Interrupt)
    → World
    → World × Answer
submit_first uuid sid now outputs r [] w =
    (w, refused (invalid_state "no_interrupts" "submit_tool_outputs"))
submit_first uuid sid now outputs r (none ∷ is) w = (w, panicked)
submit_first uuid sid now outputs r (some i ∷ is) w =
    submit_resolved uuid sid now outputs r i.id (resolve now outputs i) w

abbrev pub submit_loaded :
    (ℕ → String)
    → String
    → ℕ
    → (ℕ → String)
    → String
    → List GoMap
    → Result Run.Run
    → World
    → World × Answer
submit_loaded uuid sid now fresh run outputs (err e) w = (w, refused e)
submit_loaded uuid sid now fresh run outputs (ok r) w =
    if same_status r.status requires_action
    then submit_first uuid sid now outputs r (find_unresolved_by_run_id now fresh run w.interrupts)
        w
    else (w, refused (invalid_state (to_string r.status) "submit_tool_outputs"))

unfoldable pub submit_tool_outputs :
    (ℕ → String) → String → ℕ → (ℕ → String) → String → List GoMap → World → World × Answer
submit_tool_outputs uuid sid now fresh run outputs w =
    submit_loaded uuid sid now fresh run outputs (find_by_id run w.db) w
