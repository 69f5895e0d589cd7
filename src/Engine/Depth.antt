-- ===== src/Engine/Depth.antt =====
-- How deep the subgraphs of a graph are nested (internal/infrastructure/graph/engine.go, `Execute`).
use duragraph.Base.{
  ℕ, zero, suc, Option, none, some, List, [], ◌∷◌, String, ◌≡◌, ◌≢◌, refl, sym, arith, Bool-cases,
  ◌⊎◌, inl, inr,
}
use mathlib.Core.List.{Memᴰ}
use duragraph.Base.Text.{◌=ₛ◌}
use duragraph.Base.Dict.{Dict, lookup, insert, lookup-insert}
use duragraph.Base.Value.{Obj, GoMap}
use duragraph.Base.Errors.{Result, ok, err}
use duragraph.Workflow.{Graph}
use duragraph.Workflow.Nodes.{Node, Edge, NodeType, subgraph}
use duragraph.Execution.{ExecutionState}
use duragraph.Execution.Compare.{as_string, as_map, as_strings}
use duragraph.Execution.Executors.{
  get_config, select_or_all, subgraph_output, Outcome, done, fails, domain, out_of_fuel,
  SubgraphCallback, execute_subgraph, execute_node_type, ◌>>=◌,
}
use duragraph.Engine.{ExecutionPlan, zero_node, node_at, map_nodes, build_execution_plan}
use duragraph.Engine.Machine.{Round, next, finish, break, no_fuel}
use duragraph.Engine.Execute.{
  Env, find_subgraph, subgraph_callback, find_graph, run_sub, execute_plan, run_graph, execute,
  initial_state, setting_of, outcome_of,
}
use duragraph.Engine.Termination.{NodesReturn, IsEnded, execute_plan-IsEnded}

-- The graph that a node with this configuration executes, if there is one.
abbrev pub subgraph_of : Env → GoMap → Outcome Graph
subgraph_of env config =
    find_subgraph env (as_string (get_config config "graph_id"))
      (as_map (get_config config "graph"))

-- The subgraphs of the graph are nested fewer than `d` levels deep.
abbrev pub NestedBelow : ℕ → Env → Graph → Type 0
NestedBelow zero env g = ⊥
NestedBelow (suc d) env g =
    (n : Node) (sub : Graph)
    → Memᴰ n g.nodes
    → n.type ≡ subgraph
    → subgraph_of env n.config ≡ done sub
    → NestedBelow d env sub

bind_done_returns :
    {A B : Type 0} (o : Outcome A) (f : A → B)
    → o ≢ out_of_fuel
    → (o >>= λ a. done (f a)) ≢ out_of_fuel
bind_done_returns (done a) f h e = cc
bind_done_returns (fails x) f h e = cc
bind_done_returns out_of_fuel f h e = h refl

subgraph_returns :
    (callback : SubgraphCallback) (config : GoMap) (s : ExecutionState)
    → ((input : Obj)
        → callback
            (as_string (get_config config "graph_id"))
            (as_map (get_config config "graph"))
            input
          ≢ out_of_fuel)
    → execute_subgraph callback config s ≢ out_of_fuel
unfolding execute_subgraph
subgraph_returns callback config s h =
    let input = select_or_all (as_strings (get_config config "inputs")) s.global_state in
    ground (
      arith,
      bind_done_returns
          (callback (as_string (get_config config "graph_id")) (as_map (get_config config "graph"))
            input)
          (subgraph_output config) (h input),
    )

type_returns :
    (callback : SubgraphCallback) (type : NodeType) (config : GoMap) (s : ExecutionState)
    → (type ≡ subgraph
        → (input : Obj)
        → callback
            (as_string (get_config config "graph_id"))
            (as_map (get_config config "graph"))
            input
          ≢ out_of_fuel)
    → execute_node_type callback type config s ≢ out_of_fuel
unfolding execute_node_type
type_returns callback subgraph config s h e = subgraph_returns callback config s (h refl) e
type_returns callback _ config s h e = cc

-- A node that the plan finds is a node of the graph.
lookup-map_nodes :
    (ns : List Node) (m : Dict Node) (id : String) {n : Node}
    → lookup id (map_nodes ns m) ≡ some n
    → Memᴰ n ns ⊎ (lookup id m ≡ some n)
unfolding map_nodes
lookup-map_nodes [] m id h = inr h
lookup-map_nodes (x ∷ ns) m id {n} h = elim (lookup-map_nodes ns (insert x.id x m) id h) [
  | inl k ↦ inl (Memᴰ.tail k)
  | inr k ↦ elim (Bool-cases (x.id =ₛ id)) [
    | inl e ↦ inl (Memᴰ.head (ground (arith, lookup-insert x.id id x m)))
    | inr e ↦ inr (ground (arith, lookup-insert x.id id x m))
  ]
]

map_of_plan :
    (ns : List Node) (es : List Edge) {plan : ExecutionPlan}
    → build_execution_plan ns es ≡ ok plan
    → plan.node_map ≡ map_nodes ns []
unfolding build_execution_plan
map_of_plan ns es h = ground arith

-- What the callback has to do for the subgraph nodes of a list.
abbrev CallsReturn : SubgraphCallback → List Node → Type 0
CallsReturn callback ns =
    (n : Node)
    → Memᴰ n ns
    → n.type ≡ subgraph
    → (input : Obj)
    → callback (as_string (get_config n.config "graph_id")) (as_map (get_config n.config "graph"))
        input
      ≢ out_of_fuel

pub plan-NodesReturn :
    (ns : List Node) (es : List Edge) {plan : ExecutionPlan} (callback : SubgraphCallback)
    (s : ExecutionState)
    → build_execution_plan ns es ≡ ok plan
    → CallsReturn callback ns
    → NodesReturn (setting_of plan callback s)
unfolding node_at
plan-NodesReturn ns es {plan} callback s built calls id t = found (lookup id plan.node_map) refl
  where
    found :
        (o : Option Node)
        → lookup id plan.node_map ≡ o
        → let node : Node = elim o [ none ↦ zero_node | some n ↦ n ] in
          execute_node_type callback node.type node.config t ≢ out_of_fuel
    found none e = type_returns callback zero_node.type zero_node.config t (λ x. cc)
    found (some n) e =
        elim (lookup-map_nodes ns [] id {n = n} (rw (sym (map_of_plan ns es built)) e)) [
          | inl m ↦ type_returns callback n.type n.config t (calls n m)
          | inr k ↦ cc
        ]

find_subgraph_returns :
    (env : Env) (id : String) (inline : GoMap) → find_subgraph env id inline ≢ out_of_fuel
unfolding find_subgraph find_graph
find_subgraph_returns env id inline = ground arith

run_sub_returns :
    (exec : Graph → Obj → Outcome Obj) (o : Outcome Graph) (input : Obj)
    → o ≢ out_of_fuel
    → ((g : Graph) → o ≡ done g → exec g input ≢ out_of_fuel)
    → run_sub exec o input ≢ out_of_fuel
run_sub_returns exec (done g) input h k e = k g refl e
run_sub_returns exec (fails x) input h k e = cc
run_sub_returns exec out_of_fuel input h k e = h refl

outcome_returns : (r : Round) → IsEnded r → outcome_of r ≢ out_of_fuel
outcome_returns (next m) h e = h
outcome_returns (finish r out m) h e = cc
outcome_returns (break x) h e = cc
outcome_returns no_fuel h e = h

run_graph_returns :
    (env : Env) (callback : SubgraphCallback) (run : String) (g : Graph) (input : Obj)
    → CallsReturn callback g.nodes
    → run_graph env callback run g input ≢ out_of_fuel
unfolding run_graph
run_graph_returns env callback run g input calls = built (build_execution_plan g.nodes g.edges) refl
  where
    built :
        (b : Result ExecutionPlan)
        → build_execution_plan g.nodes g.edges ≡ b
        → elim b [
          | err x ↦ fails (domain x)
          | ok plan ↦ outcome_of (execute_plan env.ctx plan callback (initial_state run input))
        ]
          ≢ out_of_fuel
    built (err x) e = λ h. cc
    built (ok plan) e =
        let s = initial_state run input in
        outcome_returns (execute_plan env.ctx plan callback s) (
          execute_plan-IsEnded env.ctx plan callback s
            (plan-NodesReturn g.nodes g.edges callback s e calls))

-- `Execute` returns, with an output or an error, for every graph whose subgraphs are nested fewer
-- than `d` levels deep, on fuel `d`.
pub execute_returns :
    (d : ℕ) (env : Env) (run : String) (g : Graph) (input : Obj)
    → NestedBelow d env g
    → execute d env run g input ≢ out_of_fuel
unfolding execute subgraph_callback
execute_returns zero env run g input h = absurd h
execute_returns (suc d) env run g input h =
    run_graph_returns env (subgraph_callback env (execute d env run)) run g input (λ n m t x.
      run_sub_returns (execute d env run) (subgraph_of env n.config) x
        (find_subgraph_returns env (as_string (get_config n.config "graph_id"))
          (as_map (get_config n.config "graph")))
        (λ sub e. execute_returns d env run sub x (h n sub m t e)))
