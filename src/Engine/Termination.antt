-- ===== src/Engine/Termination.antt =====
-- How long the loop of `executePlan` runs (internal/infrastructure/graph/engine.go).
use duragraph.Base.{
  ℕ, zero, suc, ◌+◌, ◌<◌, Bool, true, false, not, ◌&&◌, Option, none, some, List, [], ◌∷◌, ◌++◌,
  String, ◌≡◌, ◌≢◌, refl, arith, All-append, Bool-cases, inl, inr, ltb,
}
use duragraph.Base.Text.{=ₛ_refl, contains}
use duragraph.Base.Dict.{lookup, insert}
use duragraph.Base.Value.{Obj}
use duragraph.Workflow.Nodes.{Node, is_condition, is_end}
use duragraph.Execution.{ExecutionState, is_node_completed, mark_node_completed, update_all, get}
use duragraph.Execution.Compare.{as_true}
use duragraph.Execution.Executors.{
  Outcome, done, fails, out_of_fuel, SubgraphCallback, execute_node_type,
}
use duragraph.Engine.{
  ExecutionPlan, targets_of, count_of, node_at, are_dependencies_satisfied, get_next_nodes,
}
use duragraph.Engine.Machine.{
  Setting, Machine, Round, next, finish, break, no_fuel, max_iterations, enqueue, after_completion,
  after_execution, execute_node, visit, visits, dequeue, pop, iterate, rounds, all_completed,
  queueable, all_targets, enough,
}
use duragraph.Engine.Execute.{execute_plan, setting_of, initial_machine}
use duragraph.Engine.Dependencies.{contains-append}
use duragraph.Engine.Spare.{
  spare, spare-insert_lt, spare-nil, Within, all_targets-lookup, next_of-Within,
}

-- A round that goes on satisfies `P`, and no fuel is asked for.
abbrev Live : (Machine → Type 0) → Round → Type 0
Live P (next m) = P m
Live P (finish r out m) = Unit
Live P (break x) = Unit
Live P no_fuel = ⊥

-- Every node of the plan returns: a subgraph that it executes does not run out of fuel.
abbrev pub NodesReturn : Setting → Type 0
NodesReturn c =
    (id : String) (s : ExecutionState)
    → let node = node_at c.plan id in
      execute_node_type c.callback node.type node.config s ≢ out_of_fuel

module _ (c : Setting) (us : List String) (covers : Within us (all_targets c.plan.adj_list))
    (returns : NodesReturn c) (k : ℕ) where
  abbrev Good : Machine → Type 0
  Good m = Within us m.queue × (spare us m.visited < k)

  enqueue-Good :
      (ids : Option (List String)) (m : Machine)
      → ((is : List String) → ids ≡ some is → Within us is)
      → Good m
      → Live Good (enqueue ids m)
  unfolding enqueue
  enqueue-Good none m w h = tt
  enqueue-Good (some ids) m w h =
      (All-append (λ id. contains us id ≡ true) m.queue ids h.0 (w ids refl), h.1)

  after_completion-Good :
      (id : String) (node : Node) (out : Obj) (m : Machine)
      → Good m
      → Live Good (after_completion c id node out m)
  unfolding after_completion get_next_nodes
  after_completion-Good id node out m h = elim (Bool-cases (contains c.interrupt_after id)) [
    | inl e ↦ rw e tt
    | inr e ↦ rw e (elim (Bool-cases (is_end node.type && all_completed c.plan.nodes m.state)) [
      | inl e' ↦ rw e' tt
      | inr e' ↦ rw e' (
          enqueue-Good (get_next_nodes c.plan id out m.state) m
            (λ is p.
              next_of-Within c.plan id out m.state us (targets_of (lookup id c.plan.adj_list)) p
                (all_targets-lookup c.plan.adj_list id us covers))
            h)
    ])
  ]

  after_execution-Good :
      (id : String) (node : Node) (out : Obj) (m : Machine)
      → Good m
      → Live Good (after_execution c id node out m)
  unfolding after_execution
  after_execution-Good id node out m h = elim (Bool-cases (as_true (get out "requires_human"))) [
    | inl e ↦ rw e tt
    | inr e ↦ rw e (
        after_completion-Good id node out (record m { state = mark_node_completed id out m.state })
          h)
  ]

  execute_node-Good :
      (id : String) (m : Machine) → Good m → Live Good (execute_node c id (node_at c.plan id) m)
  unfolding execute_node
  execute_node-Good id m h =
      let node = node_at c.plan id in
      go (execute_node_type c.callback node.type node.config m.state) (returns id m.state)
    where
      go :
          (o : Outcome Obj)
          → o ≢ out_of_fuel
          → Live Good (elim o [
            | done out ↦
                after_execution c id
                  (node_at c.plan id)
                  out
                  (record m { state = update_all out m.state })
            | fails x ↦ break x
            | out_of_fuel ↦ no_fuel
          ])
      go (done out) r =
          after_execution-Good id (node_at c.plan id) out
            (record m { state = update_all out m.state }) h
      go (fails x) r = tt
      go out_of_fuel r = r refl

  visit-Good :
      (id : String) (m : Machine) → contains us id ≡ true → Good m → Live Good (visit c id m)
  unfolding visit
  visit-Good id m known h =
      elim (Bool-cases
        (is_node_completed id m.state && not (is_condition (node_at c.plan id).type))) [
          | inl e ↦ rw e h
          | inr e ↦
              rw e
                (elim (Bool-cases
                  (are_dependencies_satisfied id c.plan.adj_list m.state.completed_nodes)) [
                    | inr e' ↦ rw e' (
                      All-append (λ x. contains us x ≡ true) m.queue (id ∷ []) h.0 (known, tt),
                      h.1,
                    )
                    | inl ready ↦
                        rw ready
                          (elim (Bool-cases (
                            contains c.interrupt_before id && not (is_node_completed id m.state))) [
                              | inl e'' ↦ rw e'' tt
                              | inr e'' ↦ rw e'' (execute_node-Good id m h)
                            ])
                  ])
        ]

-- Each round that goes on leaves fewer rounds to spare.
iterate-Good :
    (c : Setting) (us : List String)
    → Within us (all_targets c.plan.adj_list)
    → NodesReturn c
    → (b : Bool) (m : Machine) → Within us m.queue
    → Live (λ m'. Within us m'.queue × (spare us m'.visited < spare us m.visited)) (iterate c b m)
unfolding iterate pop dequeue visits
iterate-Good c us covers returns true m w = tt
iterate-Good c us covers returns false m w = from_queue m.queue w
  where
    from_queue :
        (q : List String)
        → Within us q
        → Live (λ m'. Within us m'.queue × (spare us m'.visited < spare us m.visited)) (pop c q m)
    from_queue [] w = tt
    from_queue (id ∷ rest) w =
        let n = count_of (lookup id m.visited) in
        elim (Bool-cases (ltb max_iterations (n + 1))) [
          | inl e ↦ rw e tt
          | inr e ↦ rw e (
              visit-Good c us covers returns (spare us m.visited) id
                (record m { queue = rest; visited = insert id (n + 1) m.visited }) w.0
                (w.1, spare-insert_lt us id m.visited w.0 (ground arith)))
        ]

abbrev pub IsEnded : Round → Type 0
IsEnded (next m) = ⊥
IsEnded (finish r out m) = Unit
IsEnded (break x) = Unit
IsEnded no_fuel = ⊥

rounds-IsEnded :
    (c : Setting) (ctx : ℕ → Bool) (us : List String)
    → Within us (all_targets c.plan.adj_list)
    → NodesReturn c
    → (f : ℕ) (m : Machine) → Within us m.queue
    → spare us m.visited < f
    → IsEnded (rounds c ctx f m)
unfolding rounds
rounds-IsEnded c ctx us covers returns zero m w h = absurd (omega arith)
rounds-IsEnded c ctx us covers returns (suc f) m w h =
    go (iterate c (ctx f) m) (iterate-Good c us covers returns (ctx f) m w)
      (rounds-IsEnded c ctx us covers returns f)
  where
    go :
        (r : Round)
        → Live (λ m'. Within us m'.queue × (spare us m'.visited < spare us m.visited)) r
        → ((m : Machine) → Within us m.queue → spare us m.visited < f → IsEnded (rounds c ctx f m))
        → IsEnded (elim r [
          | next m' ↦ rounds c ctx f m'
          | finish r out m' ↦ finish r out m'
          | break x ↦ break x
          | no_fuel ↦ no_fuel
        ])
    go (next m') l ih = ih m' l.0 (omega arith)
    go (finish r out m') l ih = tt
    go (break x) l ih = tt
    go no_fuel l ih = l

Within-append_left : (us vs q : List String) → Within us q → Within (us ++ vs) q
Within-append_left us vs [] h = tt
Within-append_left us vs (x ∷ q) h =
    (rw contains-append (ground arith), Within-append_left us vs q h.1)

Within-append_right : (us vs q : List String) → Within vs q → Within (us ++ vs) q
Within-append_right us vs [] h = tt
Within-append_right us vs (x ∷ q) h =
    (rw contains-append (ground arith), Within-append_right us vs q h.1)

Within-cons : (u : String) (us q : List String) → Within us q → Within (u ∷ us) q
Within-cons u us q h = Within-append_right (u ∷ []) us q h

Within-self : (us : List String) → Within us us
unfolding contains
Within-self [] = tt
Within-self (u ∷ us) = (rw (=ₛ_refl u) refl, Within-cons u us us (Within-self us))

-- Whatever the graph, the input and the context, the loop of `executePlan` ends, with an output
-- or an error, in at most 100 rounds for each start node and each edge, and one: if no subgraph
-- that a node executes runs out of fuel, then neither does the loop.
pub execute_plan-IsEnded :
    (ctx : ℕ → Bool) (plan : ExecutionPlan) (callback : SubgraphCallback) (s : ExecutionState)
    → NodesReturn (setting_of plan callback s)
    → IsEnded (execute_plan ctx plan callback s)
unfolding execute_plan enough queueable
execute_plan-IsEnded ctx plan callback s returns =
    let us = plan.start_nodes ++ all_targets plan.adj_list in
    rounds-IsEnded (setting_of plan callback s) ctx us
      (Within-append_right plan.start_nodes (all_targets plan.adj_list) (all_targets plan.adj_list)
        (Within-self (all_targets plan.adj_list)))
      returns (enough plan) (initial_machine plan s)
      (Within-append_left plan.start_nodes (all_targets plan.adj_list) plan.start_nodes
        (Within-self plan.start_nodes))
      (omega (arith, spare-nil us))
