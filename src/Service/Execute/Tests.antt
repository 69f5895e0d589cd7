-- ===== src/Service/Execute/Tests.antt =====
-- A run of an assistant with a graph of a start node and an end node.
use duragraph.Base.{
  ℕ, ◌≡◌, ◌≢◌, refl, sym, Bool, true, false, none, some, List, [], ◌∷◌, ◌++◌, String,
}
use mathlib.Core.List.{Memᴰ}
use duragraph.Base.Dict.{lookup}
use duragraph.Base.Value.{bool, text, Obj, GoMap}
use duragraph.Base.Errors.{DomainError, Result, ok, err, invalid_state, not_found}
use duragraph.Engine.Depth.{NestedBelow}
use duragraph.Engine.Execute
use duragraph.Engine.Execute.{Env}
use duragraph.Execution.Executors.{done}
use duragraph.Workflow.{Graph}
use duragraph.Workflow.Nodes.{Node, start, end, subgraph}
use duragraph.Run.Load.{RunData}
use duragraph.Run.Load.{reconstruct_from_data, status_of_data}
use duragraph.Run.Events.{started}
use duragraph.Run.Statuses.{in_progress, can_transition_to, to_string}
use mathlib.Core.Path.{subst}
use duragraph.Execution.{get}
use duragraph.Execution.Compare.{as_true}
use duragraph.Persistence.{logged_events}
use duragraph.Persistence.Loaded.{IsStored}
use duragraph.Interrupt
use duragraph.Interrupt.{Row, has_row, unresolved_rows}
use duragraph.Interrupt.Submission
use duragraph.Interrupt.Submission.{submit_tool_outputs}
use duragraph.Task
use duragraph.Service.Dispatch.{Assistant, graph_id_of}
use duragraph.Service.Execute.{
  World, Services, finished, refused, panicked, execute_run, resume_run,
}
use duragraph.Service.Execute.Local.{WorksAlone}
use duragraph.Service.Execute.Endings.{NamesNode, last_status, last_event, last_answer}
use duragraph.Service.Execute.Settles.{execute_run_settles}
use duragraph.Service.Execute.Stranded.{unreadable_graph_strands, refused_start_orphans_task}
use duragraph.Service.Execute.Panics.{unnamed_action_panics}
use duragraph.Service.Execute.HandsOver.{run_handed_over}
use duragraph.Service.Execute.Resumed.{submitted_run_not_executed}

abbrev graph : Graph
graph = record {
  id = "g";
  assistant_id = "assistant";
  name = "";
  version = "";
  description = "";
  nodes =
      record { id = "s"; type = start; config = none; position = none }
      ∷ record { id = "e"; type = end; config = none; position = none }
      ∷ [];
  edges = record { id = "s-e"; source = "s"; target = "e"; condition = none } ∷ [];
  config = none;
  created_at = 0;
  updated_at = 0;
  events = [];
}

abbrev env : Env
env = record { graph_repo = none; now = 0; fresh_id = ""; ctx = λ i. false }

abbrev run_row : String → GoMap → RunData
run_row status input = record {
  id = "r1";
  thread_id = "thread";
  assistant_id = "assistant";
  status = status;
  input = input;
  output = none;
  config = some [];
  error_message = "";
  metadata = some [];
  multitask_strategy = "reject";
  created_at = 1;
  started_at = none;
  completed_at = none;
  updated_at = 2;
  worker_id = "";
  retry_count = 0;
  lease_expires_at = none;
  last_heartbeat_at = none;
  version = 2;
  lease_epoch = 0;
}

abbrev world : String → GoMap → World
world status input = record {
  tasks = record { rows = []; next_id = 1 };
  db = record { runs = ("r1", run_row status input) ∷ []; streams = []; events = []; outbox = [] };
  interrupts = record { rows = []; log = [] };
}

abbrev assistant : Assistant
assistant = record { id = "assistant"; graph_id = "g"; metadata = none }

abbrev no_graph : DomainError
no_graph = not_found "graph" "assistant"

-- Services with or without workers, and with the graphs that are found.
abbrev services : Bool → Result (List Graph) → Services
services workers graphs = record {
  workers = workers;
  lookups = record {
    assistant = λ i. ok assistant;
    graphs = λ i. graphs;
    worker = λ i. ok (some "w1");
  };
  env = env;
  depth = 1;
  uuid = λ i j. "e";
  sid = λ i. "s";
  interrupt = "i1";
  describe = λ x. "error";
  render = λ v. "";
}

abbrev here : Services
here = services false (ok (graph ∷ []))

abbrev with_workers : Services
with_workers = services true (ok (graph ∷ []))

stored_row :
    (status : String) (input : GoMap) → IsStored "r1" (run_row status input) (world status input).db
unfolding lookup
stored_row status input = record { found = refl; named = refl; positive = λ e. cc }

startable :
    (input : GoMap)
    → can_transition_to (reconstruct_from_data (run_row "queued" input)).status in_progress ≡ true
unfolding can_transition_to reconstruct_from_data status_of_data
startable input = refl

not_startable :
    can_transition_to (reconstruct_from_data (run_row "cancelled" none)).status in_progress ≡ false
unfolding can_transition_to reconstruct_from_data status_of_data
not_startable = refl

alone : (graphs : Result (List Graph)) (w : World) → WorksAlone (services false graphs) 10 "r1" w
alone graphs w e = cc

no_subgraph : (n : Node) → Memᴰ n graph.nodes → n.type ≢ subgraph
no_subgraph n (Memᴰ.head p) t = cc
no_subgraph n (Memᴰ.tail (Memᴰ.head p)) t = cc
no_subgraph n (Memᴰ.tail (Memᴰ.tail m)) t = elim m [ ]

nested : NestedBelow 1 env graph
nested n sub m t e = no_subgraph n m t

free : has_row "i1" [] ≡ false
unfolding has_row
free = refl

ran : Execute.execute 1 env "r1" graph [] ≡ done []
unfolding Execute.execute
ran = refl

names : NamesNode (Execute.execute 1 env "r1" graph [])
unfolding get lookup
names = subst NamesNode (sym ran) (λ e. cc)

execute_run_settles_example :
    let o = Execute.execute 1 env "r1" graph [] in
    let (w', answer) = execute_run here 10 "r1" (world "queued" none) in
    (answer ≡ last_answer o)
    × ((d' : RunData) × (lookup "r1" w'.db.runs ≡ some d')
        × (d'.status ≡ to_string (last_status o)))
    × (logged_events "r1" w'.db.events
        ≡ logged_events "r1" [] ++ started "r1" 10 ∷ last_event here 10 "r1" o ∷ [])
execute_run_settles_example =
    execute_run_settles here 10 "r1" (run_row "queued" none) assistant graph []
      (world "queued" none) (stored_row "queued" none) (startable none)
      (alone (ok (graph ∷ [])) (world "queued" none)) refl refl nested refl free names

unreadable_graph_strands_example :
    let (w', answer) = execute_run (services false (err no_graph)) 10 "r1" (world "queued" none) in
    (answer ≡ refused no_graph)
    × ((d' : RunData) × (lookup "r1" w'.db.runs ≡ some d') × (d'.status ≡ to_string in_progress))
    × (logged_events "r1" w'.db.events ≡ logged_events "r1" [] ++ started "r1" 10 ∷ [])
unreadable_graph_strands_example =
    unreadable_graph_strands (services false (err no_graph)) 10 "r1" (run_row "queued" none)
      (world "queued" none) no_graph (stored_row "queued" none) (startable none)
      (alone (err no_graph) (world "queued" none)) refl

refused_start_orphans_task_example :
    let (w', answer) = execute_run with_workers 10 "r1" (world "cancelled" none) in
    (answer
      ≡ refused (
          invalid_state
            (to_string (reconstruct_from_data (run_row "cancelled" none)).status)
            "start"))
    × (w'.db ≡ (world "cancelled" none).db)
    × ((t : Task.Task) × (w'.tasks.rows ≡ [] ++ t ∷ [])
        × (t.status ≡ Task.pending)
        × (t.run_id ≡ "r1")
        × (t.graph_id ≡ graph_id_of assistant))
refused_start_orphans_task_example =
    refused_start_orphans_task with_workers 10 "r1" "w1" (run_row "cancelled" none) assistant
      (world "cancelled" none) (stored_row "cancelled" none) not_startable refl refl refl

run_handed_over_example :
    let (w', answer) = execute_run with_workers 10 "r1" (world "queued" none) in
    (answer ≡ finished)
    × ((d' : RunData) × (lookup "r1" w'.db.runs ≡ some d')
        × (d'.status ≡ to_string in_progress)
        × (d'.worker_id ≡ "w1"))
    × (logged_events "r1" w'.db.events ≡ logged_events "r1" [] ++ started "r1" 10 ∷ [])
    × ((t : Task.Task) × (w'.tasks.rows ≡ [] ++ t ∷ [])
        × (t.status ≡ Task.pending)
        × (t.run_id ≡ "r1")
        × (t.graph_id ≡ graph_id_of assistant)
        × (t.input ≡ none)
        × (t.max_retries ≡ 3))
run_handed_over_example =
    run_handed_over with_workers 10 "r1" "w1" (run_row "queued" none) assistant
      (world "queued" none) (stored_row "queued" none) (startable none) refl refl refl refl

-- The input of a request that asks for an action.
abbrev asking : Obj
asking = ("requires_action", bool true) ∷ []

asking_ran : Execute.execute 1 env "r1" graph asking ≡ done asking
unfolding Execute.execute
asking_ran = refl

asks : as_true (get asking "requires_action") ≡ true
unfolding get lookup
asks = refl

unnamed : (node : String) → get asking "node_id" ≢ text node
unfolding get lookup
unnamed node e = cc

unnamed_action_panics_example :
    let (w', answer) = execute_run here 10 "r1" (world "queued" (some asking)) in
    (answer ≡ panicked)
    × ((d' : RunData) × (lookup "r1" w'.db.runs ≡ some d') × (d'.status ≡ to_string in_progress))
    × (logged_events "r1" w'.db.events ≡ logged_events "r1" [] ++ started "r1" 10 ∷ [])
unnamed_action_panics_example =
    unnamed_action_panics here 10 "r1" (run_row "queued" (some asking)) assistant graph [] asking
      (world "queued" (some asking)) (stored_row "queued" (some asking)) (startable (some asking))
      (alone (ok (graph ∷ [])) (world "queued" (some asking))) refl refl asking_ran asks unnamed

abbrev ids_of : ℕ → String
ids_of i = "fresh"

abbrev row : Row
row = record {
  id = "i1";
  run_id = "r1";
  node_id = "tool";
  reason = "tool_call";
  state = some [];
  tool_calls = [];
  resolved = false;
  resolved_at = none;
  created_at = 3;
}

abbrev waiting : World
waiting = record (world "requires_action" none) {
  interrupts = record { rows = row ∷ []; log = [] };
}

one_row : unresolved_rows "r1" (row ∷ []) ≡ row ∷ []
unfolding unresolved_rows Interrupt.insert_oldest
one_row = refl

other_row : has_row "fresh" (row ∷ []) ≡ false
unfolding has_row
other_row = refl

submitted_run_not_executed_example :
    let (v, a) =
      submit_tool_outputs ids_of "s" 10 ids_of "r1" []
        (record { db = waiting.db; interrupts = waiting.interrupts }) in
    let w' : World = record waiting { db = v.db; interrupts = v.interrupts } in
    (a ≡ Submission.done)
    × (resume_run here 11 "r1" w' ≡ (w', refused (invalid_state "in_progress" "resume")))
submitted_run_not_executed_example =
    submitted_run_not_executed here 11 ids_of "s" 10 ids_of "r1" [] (run_row "requires_action" none)
      row [] waiting (stored_row "requires_action" none) refl one_row refl refl other_row
