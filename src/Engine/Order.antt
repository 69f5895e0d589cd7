-- ===== src/Engine/Order.antt =====
-- The order in which `executePlan` completes nodes.
use duragraph.Base.{
  ℕ, Bool, true, false, List, [], ◌∷◌, String, ◌≡◌, refl, arith, Bool-cases, inl, inr,
}
use mathlib.Core.List.{Memᴰ}
use duragraph.Base.Text.{◌=ₛ◌, =ₛ_iff, contains}
use duragraph.Base.Value.{Obj}
use duragraph.Base.Errors.{ok}
use duragraph.Workflow.Nodes.{Node, Edge}
use duragraph.Execution.{
  ExecutionState, add_key, is_node_completed, mark_node_completed, update_all,
}
use duragraph.Execution.Executors.{SubgraphCallback}
use duragraph.Engine.{ExecutionPlan, build_adj_list, build_execution_plan}
use duragraph.Engine.Machine.{Setting, enough}
use duragraph.Engine.Execute.{execute_plan, setting_of, initial_machine}
use duragraph.Engine.Invariants.{Returns, Returns-map, IsReady, rounds-Kept}
use duragraph.Engine.Dependencies.{SourcesIn, satisfied-SourcesIn}

-- In a list of completed nodes, the last one first, which lists a node once, the sources of all
-- edges into a node come before it.
abbrev pub Ordered : List Edge → List String → Type 0
Ordered es [] = Unit
Ordered es (x ∷ xs) = (contains xs x ≡ false) × SourcesIn xs x es × Ordered es xs

add_key-Ordered :
    (es : List Edge) (id : String) (cs : List String)
    → Ordered es cs
    → SourcesIn cs id es
    → Ordered es (add_key id cs)
unfolding add_key
add_key-Ordered es id cs h s = elim (Bool-cases (contains cs id)) [
  | inl e ↦ rw e h
  | inr e ↦ rw e (e, s, h)
]

abbrev State-Ordered : List Edge → ExecutionState → Type 0
State-Ordered es s = Ordered es s.completed_nodes

adj_of_plan :
    (ns : List Node) (es : List Edge) {plan : ExecutionPlan}
    → build_execution_plan ns es ≡ ok plan
    → plan.adj_list ≡ build_adj_list ns es
unfolding build_execution_plan
adj_of_plan ns es h = ground arith

mark-Ordered :
    (ns : List Node) (es : List Edge) (c : Setting)
    → c.plan.adj_list ≡ build_adj_list ns es
    → (id : String) (out : Obj) (s : ExecutionState) → State-Ordered es s
    → IsReady c id s
    → State-Ordered es (mark_node_completed id out s)
unfolding mark_node_completed
mark-Ordered ns es c a id out s h ready =
    add_key-Ordered es id s.completed_nodes h
      (satisfied-SourcesIn ns es id s.completed_nodes (rw a at ready))

-- Where `executePlan` returns an output, the completed nodes stand in the state in the order in which
-- each was completed first, and every one stands after the sources of all edges into it. So no
-- node is completed before all nodes with an edge into it have been.
pub execute_plan-Ordered :
    (ctx : ℕ → Bool) (ns : List Node) (es : List Edge) {plan : ExecutionPlan}
    (callback : SubgraphCallback) (s : ExecutionState)
    → build_execution_plan ns es ≡ ok plan
    → s.completed_nodes ≡ []
    → Returns (λ m. Ordered es m.state.completed_nodes) (execute_plan ctx plan callback s)
unfolding execute_plan update_all
execute_plan-Ordered ctx ns es {plan} callback s built fresh =
    rounds-Kept (State-Ordered es) (λ x. Unit) (setting_of plan callback s) (λ out t h. h)
      (mark-Ordered ns es (setting_of plan callback s) (adj_of_plan ns es built))
      (record { cancelled = tt; panicked = tt; repeated = λ id. tt }) (λ type config t x h e. tt)
      ctx (enough plan) (initial_machine plan s) (rw fresh tt)

-- A chain of edges, of at least one.
pub data Chain (es : List Edge) : String → String → Type 0 where
  one : {a b : String} (e : Edge) → Memᴰ e es → e.source ≡ a → e.target ≡ b → Chain es a b
  more :
      {a b c : String} (e : Edge)
      → Chain es a b
      → Memᴰ e es
      → e.source ≡ b
      → e.target ≡ c
      → Chain es a c

SourcesIn-mem :
    (es : List Edge) (id : String) (cs : List String) {e : Edge}
    → SourcesIn cs id es
    → Memᴰ e es
    → e.target ≡ id
    → contains cs e.source ≡ true
SourcesIn-mem [] id cs h m t = elim m [ ]
SourcesIn-mem (x ∷ es) id cs h (Memᴰ.head p) t = ground (arith, h.0)
SourcesIn-mem (x ∷ es) id cs h (Memᴰ.tail m) t = SourcesIn-mem es id cs h.1 m t

-- If `a` comes before `b` wherever `b` heads a list, it does so wherever `b` stands.
Ordered-suffix :
    (es : List Edge) (a b : String)
    → ((xs : List String) → Ordered es (b ∷ xs) → contains xs a ≡ true)
    → (xs : List String) → Ordered es xs
    → contains xs b ≡ true
    → contains xs a ≡ true
unfolding contains
Ordered-suffix es a b before [] o m = cc
Ordered-suffix es a b before (x ∷ xs) o m = elim (Bool-cases (x =ₛ b)) [
  | inl e ↦
      let same : x ≡ b = (=ₛ_iff x b).0 e in
      let earlier : contains xs a ≡ true = before xs (rw (← same) o) in ground arith
  | inr e ↦ let earlier = Ordered-suffix es a b before xs o.2 (ground arith) in ground arith
]

-- The start of a chain comes before its end.
Chain-before :
    {es : List Edge} {a b : String}
    → Chain es a b
    → (xs : List String) → Ordered es (b ∷ xs)
    → contains xs a ≡ true
Chain-before {es} (one {a} {b} e m p q) xs o = rw p at (SourcesIn-mem es b xs o.1 m q)
Chain-before {es} (more {a} {b} {c} e ch m p q) xs o =
    Ordered-suffix es a b (Chain-before ch) xs o.2 (rw p at (SourcesIn-mem es c xs o.1 m q))

cycle-not-completed :
    (es : List Edge) (a : String)
    → Chain es a a
    → (cs : List String) → Ordered es cs
    → contains cs a ≡ false
unfolding contains
cycle-not-completed es a ch [] o = refl
cycle-not-completed es a ch (x ∷ xs) o = elim (Bool-cases (x =ₛ a)) [
  | inl e ↦
      let same : x ≡ a = (=ₛ_iff x a).0 e in
      let twice : contains xs a ≡ true = Chain-before ch xs (rw (← same) o) in
      let once : contains xs a ≡ false = rw (← same) o.0 in ground arith
  | inr e ↦ let rest = cycle-not-completed es a ch xs o.2 in ground arith
]

cycle_state :
    (es : List Edge) (a : String)
    → Chain es a a
    → (s : ExecutionState) → Ordered es s.completed_nodes
    → is_node_completed a s ≡ false
unfolding is_node_completed
cycle_state es a ch s o = cycle-not-completed es a ch s.completed_nodes o

-- A node on a cycle of edges is never completed: not in any state with which `executePlan` returns
-- an output.
pub execute_plan_cycle :
    (ctx : ℕ → Bool) (ns : List Node) (es : List Edge) {plan : ExecutionPlan}
    (callback : SubgraphCallback) (s : ExecutionState) {a : String}
    → build_execution_plan ns es ≡ ok plan
    → s.completed_nodes ≡ []
    → Chain es a a
    → Returns (λ m. is_node_completed a m.state ≡ false) (execute_plan ctx plan callback s)
execute_plan_cycle ctx ns es {plan} callback s {a} built fresh ch =
    Returns-map (λ m. Ordered es m.state.completed_nodes) (λ m. is_node_completed a m.state ≡ false)
      (λ m o. cycle_state es a ch m.state o) (execute_plan ctx plan callback s)
      (execute_plan-Ordered ctx ns es callback s built fresh)
