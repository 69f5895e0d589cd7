-- ===== src/Service/Dispatch.antt =====
-- internal/application/service/worker_service.go, `DispatchRun`. The other stores are read only, and
-- are lookups; the result of the message to NATS is not read.
use duragraph.Base.{ℕ, Option, none, some, List, String, if◌then◌else◌}
use duragraph.Base.Text.{◌=ₛ◌}
use duragraph.Base.Value.{GoMap}
use duragraph.Base.Errors.{Result, ok, err}
use duragraph.Execution.Compare.{as_string}
use duragraph.Execution.Executors.{get_config}
use duragraph.Run.{Run}
use duragraph.Persistence.{find_by_id}
use duragraph.Task
use duragraph.Task.{Table, create}
use duragraph.Workflow.{Graph}
use duragraph.Service.{World}

-- The fields of an assistant that are read.
pub record Assistant : Type 0 where
  pub id : String
  pub graph_id : String
  pub metadata : GoMap

-- `assistantRepo.FindByID`, `graphRepo.FindByAssistantID`, and the id of the worker that
-- `workerRepo.FindForGraph` finds.
pub record Lookups : Type 0 where
  pub assistant : String → Result Assistant
  pub graphs : String → Result (List Graph)
  pub worker : String → Result (Option String)

abbrev pub or_else : String → String → String
or_else s t = if s =ₛ "" then t else s

unfoldable pub graph_id_of : Assistant → String
unfolding get_config
graph_id_of a = or_else a.graph_id (or_else (as_string (get_config a.metadata "graph_id")) a.id)

-- The task that is created.
abbrev pub task_of : Run → String → String → Task.Task
task_of r id graph = record {
  id = 0;
  run_id = id;
  worker_id = "";
  status = Task.pending;
  graph_id = graph;
  thread_id = r.thread_id;
  assistant_id = r.assistant_id;
  input = r.input;
  config = r.config;
  created_at = 0;
  claimed_at = none;
  completed_at = none;
  lease_expires_at = none;
  retry_count = 0;
  max_retries = 3;
  error_message = "";
}

abbrev pub dispatch_found :
    ℕ → Run → String → String → Result (Option String) → Table → Table × Result String
dispatch_found now r id graph (err e) tasks = (tasks, err e)
dispatch_found now r id graph (ok none) tasks = (tasks, ok "")
dispatch_found now r id graph (ok (some worker)) tasks =
    ((create now (task_of r id graph) tasks).0, ok worker)

abbrev pub dispatch_loaded :
    ℕ → Lookups → Run → String → Result Assistant → Table → Table × Result String
dispatch_loaded now s r id (err e) tasks = (tasks, err e)
dispatch_loaded now s r id (ok a) tasks =
    dispatch_found now r id (graph_id_of a) (s.worker (graph_id_of a)) tasks

-- The answer is the id of the worker, or the empty text.
unfoldable pub dispatch_run : ℕ → Lookups → String → World → Table × Result String
unfolding create graph_id_of
dispatch_run now s id w = elim (find_by_id id w.db) [
  | err e ↦ (w.tasks, err e)
  | ok r ↦ dispatch_loaded now s r id (s.assistant r.assistant_id) w.tasks
]
