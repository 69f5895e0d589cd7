-- ===== src/Engine/Tests.antt =====
-- A graph with a cycle, and the engine on it.
use duragraph.Base.{ℕ, ◌≡◌, ◌≢◌, refl, ap, Bool, true, false, none, some, List, [], ◌∷◌, String}
use mathlib.Core.List.{Memᴰ}
use mathlib.Core.Path.{subst}
use duragraph.Base.Errors.{Result, ok, err}
use duragraph.Base.Value.{text}
use duragraph.Workflow.{Graph}
use duragraph.Workflow.Nodes.{Node, Edge, start, llm, end, subgraph}
use duragraph.Execution.{ExecutionState, new_execution_state, is_node_completed}
use duragraph.Execution.Executors.{
  SubgraphCallback, Outcome, done, fails, depth_exceeded, get_config, out_of_fuel,
}
use duragraph.Engine.{
  ExecutionPlan, build_execution_plan, build_adj_list, are_dependencies_satisfied,
}
use duragraph.Engine.Execute.{Env, find_subgraph, find_graph, execute_plan, execute}
use duragraph.Engine.Invariants.{Returns}
use duragraph.Engine.Order.{Ordered, execute_plan-Ordered, Chain, execute_plan_cycle}
use duragraph.Engine.Termination.{IsEnded, execute_plan-IsEnded}
use duragraph.Engine.Nesting.{execute_depth_unbounded}
use duragraph.Engine.Depth.{NestedBelow, plan-NodesReturn, execute_returns}

abbrev loop_nodes : List Node
loop_nodes =
    record { id = "s"; type = start; config = none; position = none }
    ∷ record { id = "a"; type = llm; config = none; position = none }
    ∷ record { id = "b"; type = llm; config = none; position = none }
    ∷ record { id = "e"; type = end; config = none; position = none }
    ∷ []

abbrev edge : String → String → Edge
edge a b = record { id = ""; source = a; target = b; condition = none }

abbrev loop_edges : List Edge
loop_edges = edge "s" "a" ∷ edge "a" "b" ∷ edge "b" "a" ∷ edge "s" "e" ∷ []

abbrev empty_plan : ExecutionPlan
empty_plan = record {
  nodes = [];
  adj_list = [];
  in_degree = [];
  node_map = [];
  start_nodes = [];
  edge_map = [];
}

abbrev the_plan : Result ExecutionPlan → ExecutionPlan
the_plan (ok p) = p
the_plan (err _) = empty_plan

abbrev loop_plan : ExecutionPlan
loop_plan = the_plan (build_execution_plan loop_nodes loop_edges)

loop_plan_ok : build_execution_plan loop_nodes loop_edges ≡ ok loop_plan
unfolding build_execution_plan
loop_plan_ok = refl

abbrev no_subgraphs : SubgraphCallback
no_subgraphs id inline input = done []

abbrev fresh_state : ExecutionState
fresh_state = new_execution_state "r1"

abbrev never : ℕ → Bool
never n = false

fresh_completed : fresh_state.completed_nodes ≡ []
unfolding new_execution_state
fresh_completed = refl

-- A graph that is executed to its end.
abbrev line_nodes : List Node
line_nodes =
    record { id = "s"; type = start; config = none; position = none }
    ∷ record { id = "a"; type = llm; config = none; position = none }
    ∷ record { id = "e"; type = end; config = none; position = none }
    ∷ []

abbrev line_edges : List Edge
line_edges = edge "s" "a" ∷ edge "a" "e" ∷ []

abbrev line_plan : ExecutionPlan
line_plan = the_plan (build_execution_plan line_nodes line_edges)

line_plan_ok : build_execution_plan line_nodes line_edges ≡ ok line_plan
unfolding build_execution_plan
line_plan_ok = refl

execute_plan-Ordered_example :
    Returns
      (λ m. Ordered line_edges m.state.completed_nodes)
      (execute_plan never line_plan no_subgraphs fresh_state)
execute_plan-Ordered_example =
    execute_plan-Ordered never line_nodes line_edges no_subgraphs fresh_state line_plan_ok
      fresh_completed

loop-Chain : Chain loop_edges "a" "a"
loop-Chain =
    Chain.more (edge "b" "a") (Chain.one (edge "a" "b") (Memᴰ.tail (Memᴰ.head refl)) refl refl)
      (Memᴰ.tail (Memᴰ.tail (Memᴰ.head refl))) refl refl

execute_plan_cycle_example :
    Returns
      (λ m. is_node_completed "a" m.state ≡ false)
      (execute_plan never loop_plan no_subgraphs fresh_state)
execute_plan_cycle_example =
    execute_plan_cycle never loop_nodes loop_edges no_subgraphs fresh_state loop_plan_ok
      fresh_completed loop-Chain

execute_plan-IsEnded_example : IsEnded (execute_plan never loop_plan no_subgraphs fresh_state)
execute_plan-IsEnded_example = execute_plan-IsEnded never loop_plan no_subgraphs fresh_state (
    plan-NodesReturn loop_nodes loop_edges no_subgraphs fresh_state loop_plan_ok
      (λ n m t x. λ h. cc))

loop_satisfied :
    are_dependencies_satisfied "a" (build_adj_list loop_nodes loop_edges) ("b" ∷ "s" ∷ []) ≡ true
unfolding are_dependencies_satisfied build_adj_list
loop_satisfied = refl

-- A repository with one graph, whose only subgraph node executes that graph without it.
abbrev leaf_graph : Graph
leaf_graph = record {
  id = "leaf";
  assistant_id = "assistant";
  name = "leaf";
  version = "1.0.0";
  description = "";
  nodes = loop_nodes;
  edges = loop_edges;
  config = none;
  created_at = 0;
  updated_at = 0;
  events = [];
}

abbrev env : Env
env = record { graph_repo = some (λ id. some leaf_graph); now = 0; fresh_id = "x"; ctx = never }

abbrev outer_graph : Graph
outer_graph = record leaf_graph {
  nodes =
      record {
        id = "s";
        type = subgraph;
        config = some (("graph_id", text "leaf") ∷ []);
        position = none;
      }
      ∷ [];
  edges = [];
}

execute_depth_unbounded_example : execute 12 env "r1" outer_graph [] ≢ fails (depth_exceeded 10 10)
execute_depth_unbounded_example = execute_depth_unbounded 12 env "r1" outer_graph [] 10 10

no_subgraph_in_loop : (n : Node) → Memᴰ n loop_nodes → n.type ≢ subgraph
no_subgraph_in_loop n (Memᴰ.head p) t = cc
no_subgraph_in_loop n (Memᴰ.tail (Memᴰ.head p)) t = cc
no_subgraph_in_loop n (Memᴰ.tail (Memᴰ.tail (Memᴰ.head p))) t = cc
no_subgraph_in_loop n (Memᴰ.tail (Memᴰ.tail (Memᴰ.tail (Memᴰ.head p)))) t = cc
no_subgraph_in_loop n (Memᴰ.tail (Memᴰ.tail (Memᴰ.tail (Memᴰ.tail m)))) t = elim m [ ]

leaf_NestedBelow : NestedBelow 1 env leaf_graph
leaf_NestedBelow n sub m t e = no_subgraph_in_loop n m t

abbrev the_sub : Outcome Graph → Graph
the_sub (done g) = g
the_sub _ = leaf_graph

outer_NestedBelow : NestedBelow 2 env outer_graph
unfolding find_subgraph find_graph get_config
outer_NestedBelow n sub (Memᴰ.head p) t e =
    let e' : done leaf_graph ≡ done sub = rw p at e in
    subst (NestedBelow 1 env) (ap the_sub e') leaf_NestedBelow
outer_NestedBelow n sub (Memᴰ.tail m) t e = elim m [ ]

execute_returns_example : execute 2 env "r1" outer_graph [] ≢ out_of_fuel
execute_returns_example = execute_returns 2 env "r1" outer_graph [] outer_NestedBelow
