-- ===== src/Service.antt =====
-- internal/application/service/worker_service.go: what the service of the workers does to the task
-- assignments and the runs. The messages to NATS, whose results are not read, are left out.
pub mod Retrying
pub mod Sweep
pub mod Closing
pub mod Reports
pub mod Failures
pub mod Late
pub mod Multitask
pub mod Dispatch
pub mod Execute
mod Tests
use duragraph.Base.{
  ℕ, zero, suc, Bool, true, false, ◌||◌, Option, none, some, List, [], ◌∷◌, String, if◌then◌else◌,
}
use duragraph.Base.Text.{◌=ₛ◌}
use duragraph.Base.Value.{GoMap}
use duragraph.Base.Errors.{DomainError, Result, ok, err}
use duragraph.Run.{Run, Outcome, start, complete, fail, cancel, require_action}
use duragraph.Persistence.{Db, Failure, find_by_id, update}
use duragraph.Task
use duragraph.Task.{TaskStatus, failed, Table, find_by_run_id, find_expired_leases, retry_or_fail}

-- The table of tasks, and the database of runs.
pub record World : Type 0 where
  pub tasks : Table
  pub db : Db

-- What `UpdateRunStatus` returns: the run is not found, the aggregate refuses, or the row.
pub data ServiceError : Type 0 where
  not_loaded : DomainError → ServiceError
  refused : DomainError → ServiceError
  not_stored : Failure → ServiceError

abbrev pub stored : World → Db × Run × Option Failure → World × Option ServiceError
stored w (db, r, none) = (record w { db = db }, none)
stored w (db, r, some e) = (record w { db = db }, some (not_stored e))

-- `runRepo.Update` as the last step.
abbrev pub store : (ℕ → String) → String → Run → World → World × Option ServiceError
store uuid sid r w = stored w (update uuid sid r w.db)

-- The task that is completed or failed with the run: the newest one, if there is one.
abbrev pub on_task : (ℕ → Table → Table) → Result Task.Task → Table → Table
on_task f (err e) table = table
on_task f (ok t) table = f t.id table

-- What a worker reports.
pub data Report : Type 0 where
  started succeeded errored interrupted cancelled unknown : Report

unfoldable pub report_of : String → Report
report_of s =
    if s =ₛ "in_progress" || s =ₛ "running"
    then started
    else if s =ₛ "success" || s =ₛ "completed"
    then succeeded
    else if s =ₛ "error" || s =ₛ "failed"
    then errored
    else if s =ₛ "interrupted" || s =ₛ "requires_action"
    then interrupted
    else if s =ₛ "cancelled"
    then cancelled
    else unknown

-- A refusal that is returned, before anything is stored.
abbrev pub accepted :
    Outcome → World → (Run → World × Option ServiceError) → World × Option ServiceError
accepted (r, none) w k = k r
accepted (r, some e) w k = (w, some (refused e))

-- `UpdateRunStatus`.
unfoldable pub apply_report :
    (ℕ → String)
    → String
    → ℕ
    → String
    → Report
    → GoMap
    → String
    → Run
    → World
    → World × Option ServiceError
apply_report uuid sid now id started out message r w = store uuid sid (start now r).0 w
apply_report uuid sid now id succeeded out message r w = accepted (complete now out r) w (λ r'.
    store uuid sid r' (record w {
      tasks = on_task (λ i t. (Task.complete now i t).0) (find_by_run_id id w.tasks) w.tasks;
    }))
apply_report uuid sid now id errored out message r w =
    store uuid sid (fail now message r).0 (record w {
      tasks = on_task (λ i t. (Task.fail now i message t).0) (find_by_run_id id w.tasks) w.tasks;
    })
apply_report uuid sid now id interrupted out message r w =
    accepted (require_action now "" "worker interrupt" [] r) w (λ r'. store uuid sid r' w)
apply_report uuid sid now id cancelled out message r w =
    accepted (cancel now "cancelled by worker" r) w (λ r'. store uuid sid r' w)
apply_report uuid sid now id unknown out message r w = store uuid sid r w

-- `UpdateRunStatus` as one step: no other client writes the row between the load and the update. What
-- follows the load is `apply_report`, with the copy that was loaded.
unfoldable pub update_run_status :
    (ℕ → String)
    → String
    → ℕ
    → String
    → String
    → GoMap
    → String
    → World
    → World × Option ServiceError
update_run_status uuid sid now id status out message w = elim (find_by_id id w.db) [
  | err e ↦ (w, some (not_loaded e))
  | ok r ↦ apply_report uuid sid now id (report_of status) out message r w
]

-- `PollTasks`; the lease is two minutes.
unfoldable pub poll_tasks : ℕ → String → List String → ℕ → List ℕ → World → World × List Task.Task
poll_tasks now worker graphs max_tasks locked w =
    let (tasks, ts) = Task.claim now worker graphs 120 max_tasks locked w.tasks in
    (record w { tasks = tasks }, ts)

-- The run of a task that failed for good. What `Fail` and `Update` answer is not read.
unfoldable pub fail_run : (ℕ → String) → String → ℕ → String → World → World
fail_run uuid sid now id w = elim (find_by_id id w.db) [
  | err e ↦ w
  | ok r ↦ (store uuid sid (fail now "worker lease expired after max retries" r).0 w).0
]

unfoldable pub is_failed : Task.Task → Bool
is_failed t = elim t.status [ failed ↦ true | _ ↦ false ]

unfoldable pub settle : (ℕ → String) → String → ℕ → String → Result Task.Task → World → World
settle uuid sid now id (err e) w = w
settle uuid sid now id (ok t) w = if is_failed t then fail_run uuid sid now id w else w

-- One round of the loop of `MonitorExpiredLeases`.
unfoldable pub expire : (ℕ → String) → String → ℕ → Task.Task → World → World
expire uuid sid now t w =
    let (tasks, e) = retry_or_fail now t.id w.tasks in
    elim e [
      | some _ ↦ record w { tasks = tasks }
      | none ↦
          settle uuid sid now t.run_id (find_by_run_id t.run_id tasks) (record w { tasks = tasks })
    ]

-- `uuid i` and `sid i` are the new ids of the i-th round.
unfoldable pub expire_all : (ℕ → ℕ → String) → (ℕ → String) → ℕ → ℕ → List Task.Task → World → World
expire_all uuid sid now i [] w = w
expire_all uuid sid now i (t ∷ ts) w =
    expire_all uuid sid now (suc i) ts (expire (uuid i) (sid i) now t w)

unfoldable pub monitor_expired_leases : (ℕ → ℕ → String) → (ℕ → String) → ℕ → World → World
monitor_expired_leases uuid sid now w =
    expire_all uuid sid now 0 (find_expired_leases now w.tasks.rows) w
