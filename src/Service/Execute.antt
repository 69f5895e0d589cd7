-- ===== src/Service/Execute.antt =====
-- internal/application/service/run_service.go: `ExecuteRun` and `ResumeRun`. The messages of the
-- task queue, whose results are not read, are left out.
mod Tests
pub mod Steps
pub mod Local
pub mod Endings
pub mod Settles
pub mod Stranded
pub mod Panics
pub mod Resume
pub mod Resumed
pub mod HandsOver
use duragraph.Base.{ℕ, Bool, true, false, Option, none, some, List, [], ◌∷◌, String, if◌then◌else◌}
use duragraph.Base.Text.{◌=ₛ◌}
use duragraph.Base.Value.{Value, text, Obj, GoMap}
use duragraph.Base.Errors.{DomainError, Result, ok, err, invalid_input, invalid_state}
use duragraph.Execution.{get}
use duragraph.Execution.Compare.{as_true}
use duragraph.Execution.Executors
use duragraph.Execution.Executors.{done, fails, out_of_fuel}
use duragraph.Engine.Execute
use duragraph.Engine.Execute.{Env}
use duragraph.Interrupt
use duragraph.Interrupt.{Store, Interrupt, tool_call}
use duragraph.Persistence
use duragraph.Persistence.{Db, Failure, find_by_id}
use duragraph.Run
use duragraph.Run.{Run, start, fail, complete, require_action, assign_to_worker}
use duragraph.Run.Statuses.{requires_action, same_status, to_string}
use duragraph.Service
use duragraph.Service.Dispatch.{Assistant, Lookups, dispatch_run}
use duragraph.Task.{Table}
use duragraph.Workflow.{Graph}

pub record World : Type 0 where
  pub tasks : Table
  pub db : Db
  pub interrupts : Store

-- What the services are built with. `workers` is whether there is a worker service; `uuid i` and
-- `sid i` are the new ids of the i-th update of the run, `interrupt` is the id of a new interrupt;
-- `describe` is the text of an error and `render` that of a value.
pub record Services : Type 0 where
  pub workers : Bool
  pub lookups : Lookups
  pub env : Env
  pub depth : ℕ
  pub uuid : ℕ → ℕ → String
  pub sid : ℕ → String
  pub interrupt : String
  pub describe : Executors.Failure → String
  pub render : Value → String

-- What `ExecuteRun` returns: nil, a domain error, the error of an update, the key of an interrupt
-- that is taken, or the engine's error; or it panics. The last is no result of the code.
pub data Answer : Type 0 where
  finished : Answer
  refused : DomainError → Answer
  not_stored : Failure → Answer
  duplicate_interrupt : Answer
  not_executed : Executors.Failure → Answer
  panicked : Answer
  no_fuel : Answer

abbrev pub stored : World → Db × Run × Option Failure → World × Answer
stored w (db, r, none) = (record w { db = db }, finished)
stored w (db, r, some e) = (record w { db = db }, not_stored e)

-- The last update of the run.
abbrev pub store : Services → ℕ → Run → World → World × Answer
store s i r w = stored w (Persistence.update (s.uuid i) (s.sid i) r w.db)

-- An aggregate's method whose refusal is returned.
abbrev pub accepted : Run.Outcome → World → (Run → World × Answer) → World × Answer
accepted (r, none) w k = k r
accepted (r, some e) w k = (w, refused e)

-- `Fail` and `Update` whose results are not read, and the error that is returned.
abbrev pub fail_run : Services → ℕ → String → Answer → Run → World → World × Answer
fail_run s now message answer r w = ((store s 1 (fail now message r).0 w).0, answer)

abbrev pub saved_interrupt : World → Store × Bool → (World → World × Answer) → World × Answer
saved_interrupt w (is, true) k = k (record w { interrupts = is })
saved_interrupt w (is, false) k = (w, duplicate_interrupt)

abbrev pub interrupt_with : Services → ℕ → String → Result Interrupt → Run → World → World × Answer
interrupt_with s now reason (err e) r w = (w, refused e)
interrupt_with s now reason (ok i) r w =
    saved_interrupt w (Interrupt.save i w.interrupts)
      (λ w'. accepted (require_action now i.id reason [] r) w' (λ r'. store s 1 r' w'))

-- `nodeID := output["node_id"].(string)` panics on any other value.
abbrev pub interrupt_at : Services → ℕ → String → Value → Obj → Run → World → World × Answer
interrupt_at s now id (text node) out r w =
    interrupt_with s now (s.render (get out "reason"))
      (Interrupt.new_interrupt now s.interrupt id node tool_call (some out) []) r w
interrupt_at s now id _ out r w = (w, panicked)

-- What is done with the engine's result.
abbrev pub settle : Services → ℕ → String → Executors.Outcome Obj → Run → World → World × Answer
settle s now id (fails x) r w = fail_run s now (s.describe x) (not_executed x) r w
settle s now id out_of_fuel r w = (w, no_fuel)
settle s now id (done out) r w =
    if as_true (get out "requires_action")
    then interrupt_at s now id (get out "node_id") out r w
    else accepted (complete now (some out) r) w (λ r'. store s 1 r' w)

abbrev pub obj_of : GoMap → Obj
obj_of none = []
obj_of (some m) = m

-- The first graph of the assistant.
abbrev pub run_graphs : Services → ℕ → String → Result (List Graph) → Run → World → World × Answer
run_graphs s now id (err e) r w = (w, refused e)
run_graphs s now id (ok []) r w =
    fail_run s now "no graph defined for assistant"
      (refused (invalid_input "graph" "no graph defined for assistant")) r w
run_graphs s now id (ok (g ∷ gs)) r w =
    settle s now id (Execute.execute s.depth s.env id g (obj_of r.input)) r w

abbrev pub run_assistant : Services → ℕ → String → Result Assistant → Run → World → World × Answer
run_assistant s now id (err e) r w = (w, refused e)
run_assistant s now id (ok a) r w = run_graphs s now id (s.lookups.graphs a.id) r w

-- From the first update on, with the run as the update leaves it in memory.
abbrev pub run_started : Services → ℕ → String → World → Db × Run × Option Failure → World × Answer
run_started s now id w (db, r, some e) = (record w { db = db }, not_stored e)
run_started s now id w (db, r, none) =
    run_assistant s now id (s.lookups.assistant r.assistant_id) r (record w { db = db })

unfoldable pub execute_local : Services → ℕ → String → Run → World → World × Answer
execute_local s now id r w =
    accepted (start now r) w
      (λ r'. run_started s now id w (Persistence.update (s.uuid 0) (s.sid 0) r' w.db))

-- The run is started for the worker; the lease is two minutes.
abbrev pub hand_over : Services → ℕ → String → Run → World → World × Answer
hand_over s now worker r w =
    accepted (start now r) w (λ r'. store s 0 (assign_to_worker now worker 120 r') w)

abbrev pub dispatched : Services → ℕ → String → Run → World → Table × Result String → World × Answer
dispatched s now id r w (tasks, ok worker) =
    let w' = record w { tasks = tasks } in
    if worker =ₛ "" then execute_local s now id r w' else hand_over s now worker r w'
dispatched s now id r w (tasks, err e) = execute_local s now id r (record w { tasks = tasks })

abbrev pub service_world : World → Service.World
service_world w = record { tasks = w.tasks; db = w.db }

abbrev pub execute_loaded : Services → ℕ → String → Result Run → World → World × Answer
execute_loaded s now id (err e) w = (w, refused e)
execute_loaded s now id (ok r) w =
    if s.workers
    then dispatched s now id r w (dispatch_run now s.lookups id (service_world w))
    else execute_local s now id r w

unfoldable pub execute_run : Services → ℕ → String → World → World × Answer
unfolding find_by_id execute_local
execute_run s now id w = execute_loaded s now id (find_by_id id w.db) w

abbrev pub resume_loaded : Services → ℕ → String → Result Run → World → World × Answer
resume_loaded s now id (err e) w = (w, refused e)
resume_loaded s now id (ok r) w =
    if same_status r.status requires_action
    then execute_run s now id w
    else (w, refused (invalid_state (to_string r.status) "resume"))

unfoldable pub resume_run : Services → ℕ → String → World → World × Answer
unfolding find_by_id
resume_run s now id w = resume_loaded s now id (find_by_id id w.db) w
