-- ===== src/Engine.antt =====
-- internal/infrastructure/graph/engine.go: the execution plan and the choice of the next nodes.
pub mod Machine
pub mod Execute
pub mod Invariants
pub mod Dependencies
pub mod Order
pub mod Spare
pub mod Termination
pub mod Depth
pub mod Nesting
mod Tests
use duragraph.Base.{
  ℕ, suc, ◌+◌, Bool, true, false, not, ◌&&◌, ◌||◌, Option, none, some, List, [], ◌∷◌, ◌++◌, String,
  if◌then◌else◌, ◌==◌,
}
use duragraph.Base.Text.{◌=ₛ◌, contains, concat}
use duragraph.Base.Dict.{Dict, lookup, insert}
use duragraph.Base.Value.{Value, null, Obj, GoMap}
use duragraph.Base.Errors.{DomainError, Result, ok, err, invalid_input}
use duragraph.Workflow.Nodes.{Node, Edge, other, is_start, is_condition}
use duragraph.Execution.{ExecutionState, get, get_global_state, is_node_completed}
use duragraph.Execution.Compare.{iface_eq}

-- `Graph`, which the plan holds too, is read for its nodes only.
pub record ExecutionPlan : Type 0 where
  pub nodes : List Node
  pub adj_list : Dict (List String)
  pub in_degree : Dict ℕ
  pub node_map : Dict Node
  pub start_nodes : List String
  pub edge_map : Dict Edge

-- A missing key reads as the nil slice, and as 0.
abbrev pub targets_of : Option (List String) → List String
targets_of none = []
targets_of (some ts) = ts

abbrev pub count_of : Option ℕ → ℕ
count_of none = 0
count_of (some n) = n

-- The first loop of `buildExecutionPlan`, map by map.
unfoldable pub add_nodes : List Node → Dict (List String) → Dict (List String)
unfolding insert
add_nodes [] adj = adj
add_nodes (n ∷ ns) adj = add_nodes ns (insert n.id [] adj)

unfoldable pub zero_degrees : List Node → Dict ℕ → Dict ℕ
unfolding insert
zero_degrees [] d = d
zero_degrees (n ∷ ns) d = zero_degrees ns (insert n.id 0 d)

unfoldable pub map_nodes : List Node → Dict Node → Dict Node
unfolding insert
map_nodes [] m = m
map_nodes (n ∷ ns) m = map_nodes ns (insert n.id n m)

-- The second loop.
unfoldable pub add_edges : List Edge → Dict (List String) → Dict (List String)
unfolding insert lookup
add_edges [] adj = adj
add_edges (e ∷ es) adj =
    add_edges es (insert e.source (targets_of (lookup e.source adj) ++ e.target ∷ []) adj)

unfoldable pub count_edges : List Edge → Dict ℕ → Dict ℕ
unfolding insert lookup
count_edges [] d = d
count_edges (e ∷ es) d = count_edges es (insert e.target (count_of (lookup e.target d) + 1) d)

unfoldable pub build_adj_list : List Node → List Edge → Dict (List String)
unfolding add_nodes add_edges
build_adj_list ns es = add_edges es (add_nodes ns [])

unfoldable pub find_start_nodes : Dict ℕ → List Node → List String
unfolding lookup is_start
find_start_nodes d [] = []
find_start_nodes d (n ∷ ns) =
    let rest = find_start_nodes d ns in
    if is_start n.type || count_of (lookup n.id d) == 0 then n.id ∷ rest else rest

abbrev pub edge_key : String → String → String
edge_key source target = concat (concat source ":") target

unfoldable pub build_edge_map : List Edge → Dict Edge → Dict Edge
unfolding insert
build_edge_map [] m = m
build_edge_map (e ∷ es) m = build_edge_map es (insert (edge_key e.source e.target) e m)

-- The cycle test is left out: its answer is not used.
unfoldable pub build_execution_plan : List Node → List Edge → Result ExecutionPlan
unfolding build_adj_list count_edges zero_degrees map_nodes find_start_nodes build_edge_map
build_execution_plan ns es =
    let degrees = count_edges es (zero_degrees ns []) in
    let starts = find_start_nodes degrees ns in
    let plan : ExecutionPlan = record {
      nodes = ns;
      adj_list = build_adj_list ns es;
      in_degree = degrees;
      node_map = map_nodes ns [];
      start_nodes = starts;
      edge_map = build_edge_map es [];
    } in
    elim starts [ [] ↦ err (invalid_input "graph" "no start node found") | _ ∷ _ ↦ ok plan ]

-- `plan.NodeMap[id]`, with the zero node for a missing key.
abbrev pub zero_node : Node
zero_node = record { id = ""; type = other ""; config = none; position = none }

unfoldable pub node_at : ExecutionPlan → String → Node
unfolding lookup
node_at plan id = elim (lookup id plan.node_map) [ none ↦ zero_node | some n ↦ n ]

-- For every entry that has the node among its targets, the source is completed.
unfoldable pub are_dependencies_satisfied : String → Dict (List String) → List String → Bool
unfolding contains
are_dependencies_satisfied id [] completed = true
are_dependencies_satisfied id ((source, targets) ∷ adj) completed =
    (not (contains targets id) || contains completed source)
    && are_dependencies_satisfied id adj completed

-- `ok && actualValue == expectedValue`, and then the global state; `none` is a panic.
abbrev else_global : Option Bool → Option Bool → Option Bool
else_global (some false) global = global
else_global found global = found

abbrev if_true : Option Bool → Option Bool → Option Bool
if_true (some true) rest = rest
if_true b rest = b

unfoldable pub evaluate_condition : Obj → Obj → ExecutionState → Option Bool
unfolding lookup get_global_state iface_eq
evaluate_condition [] output s = some true
evaluate_condition ((k, expected) ∷ cond) output s =
    let here =
      else_global (elim (lookup k output) [ none ↦ some false | some v ↦ iface_eq v expected ])
        (iface_eq (get_global_state k s) expected) in
    let rest = evaluate_condition cond output s in if_true here rest

-- `edge.Condition != nil && len(edge.Condition) > 0`, and then the evaluation.
unfoldable pub is_taken : Option Edge → Obj → ExecutionState → Option Bool
unfolding evaluate_condition
is_taken none output s = some true
is_taken (some e) output s = elim e.condition [
  | none ↦ some true
  | some m ↦ evaluate_condition m output s
]

abbrev pub keep : String → Option Bool → Option (List String) → Option (List String)
keep t none rest = none
keep t (some false) rest = rest
keep t (some true) none = none
keep t (some true) (some ts) = some (t ∷ ts)

-- The loop of `getNextNodes`; `none` is a panic.
unfoldable pub next_of :
    ExecutionPlan → String → Obj → ExecutionState → List String → Option (List String)
unfolding lookup is_taken
next_of plan id output s [] = some []
next_of plan id output s (t ∷ ts) =
    keep t (is_taken (lookup (edge_key id t) plan.edge_map) output s) (next_of plan id output s ts)

unfoldable pub get_next_nodes : ExecutionPlan → String → Obj → ExecutionState → Option (List String)
unfolding lookup next_of
get_next_nodes plan id output s = next_of plan id output s (targets_of (lookup id plan.adj_list))
