-- ===== src/Engine/Execute.antt =====
-- internal/infrastructure/graph/engine.go, `Execute`, `createSubgraphCallback` and
-- `buildGraphFromInline`. A subgraph is executed by a nested `execute`, so this function is on
-- fuel for the nesting depth; the loop of each level is on fuel of its own.
use duragraph.Base.{
  ℕ, zero, suc, Bool, true, false, ◌||◌, Option, none, some, List, [], ◌∷◌, String, if◌then◌else◌,
}
use duragraph.Base.Text.{◌=ₛ◌}
use duragraph.Base.Value.{Value, text, array, object, Items, nil, cons, Obj, GoMap}
use duragraph.Base.Errors.{Result, ok, err, invalid_input, not_found}
use duragraph.Workflow.{Graph, new_graph}
use duragraph.Workflow.Nodes.{Node, Edge, of_string}
use duragraph.Execution.{ExecutionState, new_execution_state, get, update_all}
use duragraph.Execution.Compare.{as_string, as_map, to_obj}
use duragraph.Execution.Executors.{Outcome, done, fails, out_of_fuel, domain, SubgraphCallback}
use duragraph.Engine.{ExecutionPlan, build_execution_plan}
use duragraph.Engine.Machine.{
  Setting, Machine, Round, next, finish, break, no_fuel, extract_string_list, rounds, enough,
}

-- The graph repository, nil or a lookup by id; the clock and the UUID of an inline graph; and the
-- context of each round.
pub record Env : Type 0 where
  pub graph_repo : Option (String → Option Graph)
  pub now : ℕ
  pub fresh_id : String
  pub ctx : ℕ → Bool

abbrev is_messages : String → Bool
is_messages s = s =ₛ "messages" || s =ₛ "messages-tuple"

unfoldable pub any_messages : Items → Bool
any_messages nil = false
any_messages (cons (text s) xs) = is_messages s || any_messages xs
any_messages (cons _ xs) = any_messages xs

-- Whether `stream_mode` asks for the streaming callback.
unfoldable pub wants_messages : Value → Bool
unfolding any_messages
wants_messages (text s) = is_messages s
wants_messages (array xs) = any_messages xs
wants_messages _ = false

unfoldable pub initial_state : String → Obj → ExecutionState
unfolding new_execution_state update_all wants_messages get
initial_state run input =
    let streams = wants_messages (get input "stream_mode") in
    let s = update_all input (new_execution_state run) in
    record s { subgraph_exec = true; stream_enabled = streams; message_chunk = streams }

-- `getString`
unfoldable pub get_string : Obj → String → String
unfolding get
get_string m k = as_string (get m k)

unfoldable pub inline_node : Obj → Node
unfolding get_string of_string get
inline_node m = record {
  id = get_string m "id";
  type = of_string (get_string m "type");
  config = as_map (get m "config");
  position = none;
}

unfoldable pub inline_edge : Obj → Edge
unfolding get_string get
inline_edge m = record {
  id = get_string m "id";
  source = get_string m "source";
  target = get_string m "target";
  condition = as_map (get m "condition");
}

-- The items that are maps, each read by `f`.
unfoldable pub read_items {ℓ} : {A : Type ℓ} → (Obj → A) → Items → List A
read_items f nil = []
read_items f (cons (object fs) xs) = f (to_obj fs) ∷ read_items f xs
read_items f (cons _ xs) = read_items f xs

abbrev as_items : Value → Items
as_items (array xs) = xs
as_items _ = nil

abbrev or_inline : String → String
or_inline s = if s =ₛ "" then "inline-subgraph" else s

unfoldable pub build_graph_from_inline : Env → Obj → Result Graph
unfolding get get_string read_items inline_node inline_edge
build_graph_from_inline env m =
    new_graph env.now env.fresh_id "inline" (or_inline (get_string m "name"))
      (get_string m "version") (get_string m "description")
      (read_items inline_node (as_items (get m "nodes")))
      (read_items inline_edge (as_items (get m "edges"))) none

unfoldable pub find_graph : Env → String → Outcome Graph
find_graph env id = elim env.graph_repo [
  | none ↦
      fails
        (domain (invalid_input "subgraph" "graph repository not configured for subgraph execution"))
  | some find ↦ elim (find id) [ none ↦ fails (domain (not_found "graph" id)) | some g ↦ done g ]
]

abbrev pub of_result {ℓ} : {A : Type ℓ} → Result A → Outcome A
of_result (ok a) = done a
of_result (err x) = fails (domain x)

unfoldable pub find_subgraph : Env → String → GoMap → Outcome Graph
unfolding find_graph build_graph_from_inline
find_subgraph env id inline =
    if id =ₛ ""
    then elim inline [
      | none ↦
          fails (domain (invalid_input "subgraph" "either graph_id or inline graph is required"))
      | some m ↦ of_result (build_graph_from_inline env m)
    ]
    else find_graph env id

abbrev pub run_sub : (Graph → Obj → Outcome Obj) → Outcome Graph → Obj → Outcome Obj
run_sub exec (done g) input = exec g input
run_sub exec (fails x) input = fails x
run_sub exec out_of_fuel input = out_of_fuel

unfoldable pub subgraph_callback : Env → (Graph → Obj → Outcome Obj) → SubgraphCallback
unfolding find_subgraph
subgraph_callback env exec id inline input = run_sub exec (find_subgraph env id inline) input

abbrev pub outcome_of : Round → Outcome Obj
outcome_of (next m) = out_of_fuel
outcome_of (finish r out m) = done out
outcome_of (break x) = fails x
outcome_of no_fuel = out_of_fuel

abbrev pub setting_of : ExecutionPlan → SubgraphCallback → ExecutionState → Setting
setting_of plan callback s = record {
  plan = plan;
  callback = callback;
  interrupt_before = extract_string_list s.global_state "interrupt_before";
  interrupt_after = extract_string_list s.global_state "interrupt_after";
}

abbrev pub initial_machine : ExecutionPlan → ExecutionState → Machine
initial_machine plan s = record { queue = plan.start_nodes; visited = []; state = s }

-- `executePlan`
unfoldable pub execute_plan : (ℕ → Bool) → ExecutionPlan → SubgraphCallback → ExecutionState → Round
unfolding rounds enough extract_string_list
execute_plan ctx plan callback s =
    rounds (setting_of plan callback s) ctx (enough plan) (initial_machine plan s)

unfoldable pub run_graph : Env → SubgraphCallback → String → Graph → Obj → Outcome Obj
unfolding build_execution_plan execute_plan initial_state
run_graph env callback run g input = elim (build_execution_plan g.nodes g.edges) [
  | err x ↦ fails (domain x)
  | ok plan ↦ outcome_of (execute_plan env.ctx plan callback (initial_state run input))
]

-- `Execute`, on fuel for the nesting.
unfoldable pub execute : ℕ → Env → String → Graph → Obj → Outcome Obj
unfolding run_graph subgraph_callback
execute zero env run g input = out_of_fuel
execute (suc d) env run g input =
    run_graph env (subgraph_callback env (execute d env run)) run g input
