-- ===== src/Service/Reports.antt =====
-- What `UpdateRunStatus` does to the run and to its task.
use duragraph.Base.{ℕ, ◌≡◌, refl, ap, String, arith, Option, none, some}
use duragraph.Base.Value.{GoMap}
use duragraph.Base.Errors.{DomainError}
use duragraph.Run.{Run, complete, fail}
use duragraph.Run.Load.{RunData, reconstruct_from_data}
use duragraph.Persistence.Loaded.{stored_db, IsStored, find_by_id-IsStored, update_loaded}
use duragraph.Task
use duragraph.Task.{find_by_run_id}
use duragraph.Service.{
  World, ServiceError, stored, store, on_task, report_of, accepted, apply_report, update_run_status,
}

-- A run that was loaded, and changed by one method, is stored.
pub store_changed :
    (uuid : ℕ → String) (sid : String) (r : Run) (id : String) (d : RunData) (w : World)
    → IsStored id d w.db
    → r.id ≡ id
    → r.version ≡ d.version
    → store uuid sid r w ≡ (record w { db = stored_db uuid sid r d w.db }, none)
store_changed uuid sid r id d w h i v =
    ap (stored w) (update_loaded uuid sid r id d w.db h.found i v)

pub failed_run :
    (now : ℕ) (message : String) (r : Run)
    → ((fail now message r).0.id ≡ r.id) × ((fail now message r).0.version ≡ r.version)
unfolding fail
failed_run now message r = (ground arith, ground arith)

pub accepted-none :
    (o : Run × Option DomainError) (w : World) (k : Run → World × Option ServiceError)
    → o.1 ≡ none
    → accepted o w k ≡ k o.0
accepted-none (r, none) w k e = refl
accepted-none (r, some x) w k e = cc

pub report_loaded :
    (uuid : ℕ → String) (sid : String) (now : ℕ) (id status : String) (out : GoMap)
    (message : String) (d : RunData) (w : World)
    → IsStored id d w.db
    → update_run_status uuid sid now id status out message w
      ≡ apply_report uuid sid now id (report_of status) out message (reconstruct_from_data d) w
unfolding update_run_status
report_loaded uuid sid now id status out message d w h =
    rw (update_run_status, find_by_id-IsStored id d w.db h) refl

abbrev pub complete_newest : ℕ → String → World → World
complete_newest now id w = record w {
  tasks = on_task (λ i t. (Task.complete now i t).0) (find_by_run_id id w.tasks) w.tasks;
}

abbrev pub fail_newest : ℕ → String → String → World → World
fail_newest now id message w = record w {
  tasks = on_task (λ i t. (Task.fail now i message t).0) (find_by_run_id id w.tasks) w.tasks;
}
