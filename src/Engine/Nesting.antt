-- ===== src/Engine/Nesting.antt =====
-- Subgraphs inside subgraphs: the bound `maxSubgraphDepth` of internal/domain/execution/node.go.
use duragraph.Base.{
  ℕ, zero, suc, Bool, true, false, Option, none, some, String, ◌≡◌, ◌≢◌, refl, arith, Bool-cases,
  inl, inr, ◌&&◌,
}
use duragraph.Base.Text.{◌=ₛ◌}
use duragraph.Base.Value.{Obj, GoMap}
use duragraph.Base.Errors.{invalid_input, not_found, Result, ok, err}
use duragraph.Workflow.{Graph}
use duragraph.Workflow.Nodes.{NodeType, subgraph}
use duragraph.Execution.{ExecutionState, new_execution_state, mark_node_completed, update_all}
use duragraph.Execution.Compare.{as_string, as_map, as_strings}
use duragraph.Execution.Executors.{
  get_config, select_or_all, subgraph_output, is_none, ◌>>=◌, Failure, domain, depth_exceeded,
  Outcome, done, fails, out_of_fuel, SubgraphCallback, execute_subgraph, execute_node_type,
}
use duragraph.Engine.{ExecutionPlan, build_execution_plan}
use duragraph.Engine.Machine.{Round, next, finish, break, no_fuel, max_iterations_error, enough}
use duragraph.Engine.Execute.{
  of_result, Env, initial_state, find_graph, find_subgraph, build_graph_from_inline,
  subgraph_callback, setting_of, initial_machine, execute_plan, run_graph, run_sub, outcome_of,
  execute,
}
use duragraph.Engine.Invariants.{Holds, rounds-Kept}

abbrev is_depth_failure : Failure → Bool
is_depth_failure (depth_exceeded a b) = true
is_depth_failure _ = false

abbrev NotDepth : Failure → Type 0
NotDepth x = is_depth_failure x ≡ false

-- Every failure of an outcome is another one.
abbrev Unbounded : {A : Type 0} → Outcome A → Type 0
Unbounded (done out) = Unit
Unbounded (fails x) = NotDepth x
Unbounded out_of_fuel = Unit

Unbounded-fails : (o : Outcome Obj) (x : Failure) → Unbounded o → o ≡ fails x → NotDepth x
Unbounded-fails (done out) x h e = cc
Unbounded-fails (fails y) x h e = ground arith
Unbounded-fails out_of_fuel x h e = cc

abbrev SafeCallback : SubgraphCallback → Type 0
SafeCallback callback =
    (id : String) (inline : GoMap) (input : Obj) → Unbounded (callback id inline input)

bind_NotDepth :
    {A B : Type 0} (o : Outcome A) (f : A → B) → Unbounded o → Unbounded (o >>= λ a. done (f a))
bind_NotDepth (done a) f h = tt
bind_NotDepth (fails x) f h = h
bind_NotDepth out_of_fuel f h = tt

subgraph_NotDepth :
    (callback : SubgraphCallback) (config : GoMap) (s : ExecutionState)
    → SafeCallback callback
    → s.subgraph_depth ≡ 0
    → Unbounded (execute_subgraph callback config s)
unfolding execute_subgraph
subgraph_NotDepth callback config s safe flat =
    let id = as_string (get_config config "graph_id") in
    let inline = as_map (get_config config "graph") in
    let input = select_or_all (as_strings (get_config config "inputs")) s.global_state in
    let call =
      bind_NotDepth (callback id inline input) (subgraph_output config) (safe id inline input) in
    rw flat (elim (Bool-cases s.subgraph_exec) [
      | inr e ↦ rw e refl
      | inl e ↦ rw e (elim (Bool-cases (id =ₛ "" && is_none inline)) [
        | inl e' ↦ rw e' refl
        | inr e' ↦ rw e' call
      ])
    ])

node_type_NotDepth :
    (callback : SubgraphCallback)
    → SafeCallback callback
    → (type : NodeType) (config : GoMap) (s : ExecutionState) → s.subgraph_depth ≡ 0
    → Unbounded (execute_node_type callback type config s)
unfolding execute_node_type
node_type_NotDepth callback safe subgraph config s flat =
    subgraph_NotDepth callback config s safe flat
node_type_NotDepth callback safe _ config s flat = tt

round_NotDepth :
    (r : Round) → Holds (λ m. m.state.subgraph_depth ≡ 0) NotDepth r → Unbounded (outcome_of r)
round_NotDepth (next m) h = tt
round_NotDepth (finish r out m) h = tt
round_NotDepth (break x) h = h
round_NotDepth no_fuel h = tt

plan_NotDepth :
    (ctx : ℕ → Bool) (plan : ExecutionPlan) (callback : SubgraphCallback) (s : ExecutionState)
    → SafeCallback callback
    → s.subgraph_depth ≡ 0
    → Unbounded (outcome_of (execute_plan ctx plan callback s))
unfolding execute_plan update_all mark_node_completed max_iterations_error
plan_NotDepth ctx plan callback s safe flat = round_NotDepth _ (
    rounds-Kept (λ t. t.subgraph_depth ≡ 0) NotDepth (setting_of plan callback s) (λ out t h. h)
      (λ id out t h ready. h) (record { cancelled = refl; panicked = refl; repeated = λ id. refl })
      (λ type config t x h e.
        Unbounded-fails (execute_node_type callback type config t) x
          (node_type_NotDepth callback safe type config t h) e)
      ctx (enough plan) (initial_machine plan s) flat)

run_graph_NotDepth :
    (env : Env) (callback : SubgraphCallback) (run : String) (g : Graph) (input : Obj)
    → SafeCallback callback
    → Unbounded (run_graph env callback run g input)
unfolding run_graph initial_state new_execution_state
run_graph_NotDepth env callback run g input safe = go (build_execution_plan g.nodes g.edges)
  where
    go :
        (p : Result ExecutionPlan)
        → Unbounded (elim p [
          | err x ↦ fails (domain x)
          | ok plan ↦ outcome_of (execute_plan env.ctx plan callback (initial_state run input))
        ])
    go (err x) = refl
    go (ok plan) = plan_NotDepth env.ctx plan callback (initial_state run input) safe refl

graph_NotDepth : (env : Env) (id : String) → Unbounded (find_graph env id)
unfolding find_graph
graph_NotDepth env id = go env.graph_repo
  where
    found :
        (o : Option Graph)
        → Unbounded (elim o [ none ↦ fails (domain (not_found "graph" id)) | some g ↦ done g ])
    found none = refl
    found (some g) = tt

    go :
        (r : Option (String → Option Graph))
        → Unbounded (elim r [
          | none ↦ fails (
              domain
                (invalid_input "subgraph" "graph repository not configured for subgraph execution"))
          | some find ↦ elim (find id) [
            | none ↦ fails (domain (not_found "graph" id))
            | some g ↦ done g
          ]
        ])
    go none = refl
    go (some find) = found (find id)

result_NotDepth : {A : Type 0} (r : Result A) → Unbounded (of_result r)
result_NotDepth (ok a) = tt
result_NotDepth (err x) = refl

subgraph_found_NotDepth :
    (env : Env) (id : String) (inline : GoMap) → Unbounded (find_subgraph env id inline)
unfolding find_subgraph
subgraph_found_NotDepth env id none = elim (Bool-cases (id =ₛ "")) [
  | inl e ↦ rw e refl
  | inr e ↦ rw e (graph_NotDepth env id)
]
subgraph_found_NotDepth env id (some m) = elim (Bool-cases (id =ₛ "")) [
  | inl e ↦ rw e (result_NotDepth (build_graph_from_inline env m))
  | inr e ↦ rw e (graph_NotDepth env id)
]

run_sub_NotDepth :
    (exec : Graph → Obj → Outcome Obj) (o : Outcome Graph) (input : Obj)
    → ((g : Graph) (i : Obj) → Unbounded (exec g i))
    → Unbounded o
    → Unbounded (run_sub exec o input)
run_sub_NotDepth exec (done g) input safe h = safe g input
run_sub_NotDepth exec (fails x) input safe h = h
run_sub_NotDepth exec out_of_fuel input safe h = tt

execute_NotDepth :
    (d : ℕ) (env : Env) (run : String) (g : Graph) (input : Obj)
    → Unbounded (execute d env run g input)
unfolding execute subgraph_callback
execute_NotDepth zero env run g input = tt
execute_NotDepth (suc d) env run g input =
    run_graph_NotDepth env (subgraph_callback env (execute d env run)) run g input (λ id inline i.
      run_sub_NotDepth (execute d env run) (find_subgraph env id inline) i
        (execute_NotDepth d env run) (subgraph_found_NotDepth env id inline))

-- However deep subgraphs are nested, `Execute` never reports that the depth is exceeded.
pub execute_depth_unbounded :
    (d : ℕ) (env : Env) (run : String) (g : Graph) (input : Obj) (a b : ℕ)
    → execute d env run g input ≢ fails (depth_exceeded a b)
execute_depth_unbounded d env run g input a b e = cc (
    Unbounded-fails (execute d env run g input) (depth_exceeded a b)
      (execute_NotDepth d env run g input) e)
