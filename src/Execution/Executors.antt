-- ===== src/Execution/Executors.antt =====
-- internal/domain/execution/node.go: what a node of each type does.
use duragraph.Base.{
  ℕ, Bool, true, false, ◌&&◌, Option, none, some, List, [], ◌∷◌, String, if◌then◌else◌, leb,
}
use duragraph.Base.Text.{◌=ₛ◌}
use duragraph.Base.Dict.{lookup, insert, insert_all}
use duragraph.Base.Value.{Value, null, bool, text, Obj, GoMap}
use duragraph.Base.Errors.{DomainError}
use duragraph.Workflow.Nodes.{NodeType, start, llm, tool, condition, end, subgraph, human, other}
use duragraph.Execution.{ExecutionState, get}
use duragraph.Execution.Compare.{as_string, as_map, as_strings, as_true}

-- `SubgraphDepthError`, `SubgraphConfigError`, a domain error, the context's error, and the panic
-- of comparing two maps or slices.
pub data Failure : Type 0 where
  domain : DomainError → Failure
  depth_exceeded : ℕ → ℕ → Failure
  config_error : String → Failure
  context_done : Failure
  panic : Failure

-- `out_of_fuel` is no result of the code: the model has run out of its bound.
pub data Outcome {ℓ} (A : Type ℓ) : Type ℓ where
  done : A → Outcome A
  fails : Failure → Outcome A
  out_of_fuel : Outcome A

infixl 5 ◌>>=◌
abbrev pub ◌>>=◌ {ℓ κ} : {A : Type ℓ} {B : Type κ} → Outcome A → (A → Outcome B) → Outcome B
done a >>= f = f a
fails x >>= f = fails x
out_of_fuel >>= f = out_of_fuel

-- The graph's id, the inline graph, and the input.
abbrev pub SubgraphCallback : Type 0
SubgraphCallback = String → GoMap → Obj → Outcome Obj

abbrev pub max_subgraph_depth : ℕ
max_subgraph_depth = 10

-- A read of a map that may be nil.
unfoldable pub get_config : GoMap → String → Value
unfolding get
get_config none k = null
get_config (some m) k = get m k

-- `for _, key := range keys { if v, ok := m[key]; ok { out[key] = v } }`
unfoldable pub select : List String → Obj → Obj → Obj
unfolding lookup insert
select [] m out = out
select (k ∷ ks) m out = select ks m (elim (lookup k m) [ none ↦ out | some v ↦ insert k v out ])

-- The keys that are named, or all of them if none is.
unfoldable pub select_or_all : List String → Obj → Obj
unfolding select insert_all
select_or_all [] m = insert_all m []
select_or_all (k ∷ ks) m = select (k ∷ ks) m []

-- What follows the call of the subgraph: an interrupt is passed up whole.
unfoldable pub subgraph_output : GoMap → Obj → Obj
unfolding get_config get select_or_all
subgraph_output config out =
    if as_true (get out "requires_action")
    then out
    else select_or_all (as_strings (get_config config "outputs")) out

abbrev pub is_none {ℓ} : {A : Type ℓ} → Option A → Bool
is_none none = true
is_none (some _) = false

unfoldable pub execute_subgraph : SubgraphCallback → GoMap → ExecutionState → Outcome Obj
unfolding subgraph_output get_config select_or_all
execute_subgraph callback config s =
    let graph_id = as_string (get_config config "graph_id") in
    let inline_graph = as_map (get_config config "graph") in
    let input = select_or_all (as_strings (get_config config "inputs")) s.global_state in
    if leb max_subgraph_depth s.subgraph_depth
    then fails (depth_exceeded s.subgraph_depth max_subgraph_depth)
    else if s.subgraph_exec
    then (if graph_id =ₛ "" && is_none inline_graph
        then fails (config_error "subgraph node requires 'graph_id' or 'graph' in config")
        else callback graph_id inline_graph input >>= λ out. done (subgraph_output config out))
    else fails (config_error "subgraph execution not configured")

-- `GetExecutorForNodeType(nodeType).Execute(...)`. An unknown type is run as a start node.
unfoldable pub execute_node_type :
    SubgraphCallback → NodeType → GoMap → ExecutionState → Outcome Obj
unfolding execute_subgraph insert_all get_config
execute_node_type callback start config s = done (insert_all s.global_state [])
execute_node_type callback end config s = done (insert_all s.global_state [])
execute_node_type callback llm config s =
    done (("response", text "LLM response placeholder") ∷ ("model", get_config config "model") ∷ [])
execute_node_type callback tool config s =
    done (("result", text "Tool execution placeholder") ∷ ("tool", get_config config "tool") ∷ [])
execute_node_type callback condition config s = done (("condition_result", bool true) ∷ [])
execute_node_type callback human config s =
    done (("requires_human", bool true) ∷ ("reason", get_config config "reason") ∷ [])
execute_node_type callback subgraph config s = execute_subgraph callback config s
execute_node_type callback (other t) config s = done (insert_all s.global_state [])
