-- ===== src/Engine/Invariants.antt =====
-- Rules for invariants of the loop of `executePlan`.
use duragraph.Base.{
  ltb, ◌+◌, ℕ, zero, suc, Bool, true, false, not, ◌&&◌, Option, none, some, List, [], ◌∷◌, String,
  ◌≡◌, refl, Bool-cases, inl, inr,
}
use duragraph.Base.Text.{contains}
use duragraph.Base.Value.{Obj, GoMap}
use duragraph.Base.Dict.{insert}
use duragraph.Workflow.Nodes.{NodeType, Node, is_condition, is_end}
use duragraph.Execution.{ExecutionState, get, is_node_completed, mark_node_completed, update_all}
use duragraph.Execution.Compare.{as_true}
use duragraph.Execution.Executors.{
  Failure, context_done, panic, Outcome, done, fails, out_of_fuel, execute_node_type,
}
use duragraph.Engine.{are_dependencies_satisfied, get_next_nodes, node_at}
use duragraph.Engine.Machine.{
  max_iterations_error, Setting, Machine, Round, next, finish, break, no_fuel, enqueue,
  after_completion, after_execution, execute_node, visit, dequeue, pop, iterate, rounds,
  all_completed, max_iterations, visits,
}

-- The machine of a round, if it has one, satisfies `P`, and its failure, if it is one, `Q`.
abbrev pub Holds : (Machine → Type 0) → (Failure → Type 0) → Round → Type 0
Holds P Q (next m) = P m
Holds P Q (finish r out m) = P m
Holds P Q (break x) = Q x
Holds P Q no_fuel = Unit

-- The same of the machine alone.
abbrev pub Returns : (Machine → Type 0) → Round → Type 0
Returns P = Holds P (λ x. Unit)

pub Returns-map :
    (P Q : Machine → Type 0) → ((m : Machine) → P m → Q m) → (r : Round) → Returns P r → Returns Q r
Returns-map P Q f (next m) h = f m h
Returns-map P Q f (finish r out m) h = f m h
Returns-map P Q f (break x) h = tt
Returns-map P Q f no_fuel h = tt

rounds_inv :
    (P : Machine → Type 0) (Q : Failure → Type 0) (c : Setting) (ctx : ℕ → Bool)
    → ((b : Bool) (m : Machine) → P m → Holds P Q (iterate c b m))
    → (f : ℕ) (m : Machine) → P m
    → Holds P Q (rounds c ctx f m)
unfolding rounds
rounds_inv P Q c ctx keep zero m h = tt
rounds_inv P Q c ctx keep (suc f) m h =
    go (iterate c (ctx f) m) (keep (ctx f) m h) (rounds_inv P Q c ctx keep f)
  where
    go :
        (r : Round)
        → Holds P Q r
        → ((m : Machine) → P m → Holds P Q (rounds c ctx f m))
        → Holds P Q (elim r [
          | next m' ↦ rounds c ctx f m'
          | finish r out m' ↦ finish r out m'
          | break x ↦ break x
          | no_fuel ↦ no_fuel
        ])
    go (next m') p ih = ih m' p
    go (finish r out m') p ih = p
    go (break x) p ih = p
    go no_fuel p ih = tt

-- A node whose dependencies are completed.
abbrev pub IsReady : Setting → String → ExecutionState → Type 0
IsReady c id s = are_dependencies_satisfied id c.plan.adj_list s.completed_nodes ≡ true

-- The failures that the loop itself makes.
pub record LoopFailures (Q : Failure → Type 0) : Type 0 where
  pub cancelled : Q context_done
  pub panicked : Q panic
  pub repeated : (id : String) → Q (max_iterations_error id)

-- A property `P` of the execution state that is kept by a write to the global state, and by
-- completing a node whose dependencies are satisfied, is kept by every round; and if the failures
-- of the loop, and those of a node executed in such a state, satisfy `Q`, each failure does.
module _ (P : ExecutionState → Type 0) (Q : Failure → Type 0) (c : Setting)
    (write : (out : Obj) (s : ExecutionState) → P s → P (update_all out s))
    (mark : (id : String) (out : Obj) (s : ExecutionState)
      → P s
      → IsReady c id s
      → P (mark_node_completed id out s))
    (loop : LoopFailures Q)
    (node_fails : (type : NodeType) (config : GoMap) (s : ExecutionState) (x : Failure)
      → P s
      → execute_node_type c.callback type config s ≡ fails x
      → Q x) where
  abbrev Kept : Machine → Type 0
  Kept m = P m.state

  enqueue-Kept : (ids : Option (List String)) (m : Machine) → Kept m → Holds Kept Q (enqueue ids m)
  unfolding enqueue
  enqueue-Kept none m h = loop.panicked
  enqueue-Kept (some ids) m h = h

  after_completion-Kept :
      (id : String) (node : Node) (out : Obj) (m : Machine)
      → Kept m
      → Holds Kept Q (after_completion c id node out m)
  unfolding after_completion
  after_completion-Kept id node out m h = elim (Bool-cases (contains c.interrupt_after id)) [
    | inl e ↦ rw e h
    | inr e ↦ rw e (elim (Bool-cases (is_end node.type && all_completed c.plan.nodes m.state)) [
      | inl e' ↦ rw e' h
      | inr e' ↦ rw e' (enqueue-Kept (get_next_nodes c.plan id out m.state) m h)
    ])
  ]

  after_execution-Kept :
      (id : String) (node : Node) (out : Obj) (m : Machine)
      → Kept m
      → IsReady c id m.state
      → Holds Kept Q (after_execution c id node out m)
  unfolding after_execution
  after_execution-Kept id node out m h ready =
      elim (Bool-cases (as_true (get out "requires_human"))) [
        | inl e ↦ rw e h
        | inr e ↦ rw e (
            after_completion-Kept id node out
              (record m { state = mark_node_completed id out m.state })
              (mark id out m.state h ready))
      ]

  execute_node-Kept :
      (id : String) (node : Node) (m : Machine)
      → Kept m
      → IsReady c id m.state
      → Holds Kept Q (execute_node c id node m)
  unfolding execute_node update_all
  execute_node-Kept id node m h ready =
      go (execute_node_type c.callback node.type node.config m.state) refl
    where
      go :
          (o : Outcome Obj)
          → execute_node_type c.callback node.type node.config m.state ≡ o
          → Holds Kept Q (elim o [
            | done out ↦ after_execution c id node out (record m { state = update_all out m.state })
            | fails x ↦ break x
            | out_of_fuel ↦ no_fuel
          ])
      go (done out) e =
          after_execution-Kept id node out (record m { state = update_all out m.state })
            (write out m.state h) ready
      go (fails x) e = node_fails node.type node.config m.state x h e
      go out_of_fuel e = tt

  visit-Kept : (id : String) (m : Machine) → Kept m → Holds Kept Q (visit c id m)
  unfolding visit
  visit-Kept id m h =
      elim (Bool-cases
        (is_node_completed id m.state && not (is_condition (node_at c.plan id).type))) [
          | inl e ↦ rw e h
          | inr e ↦
              rw e
                (elim (Bool-cases
                  (are_dependencies_satisfied id c.plan.adj_list m.state.completed_nodes)) [
                    | inr e' ↦ rw e' h
                    | inl ready ↦
                        rw ready
                          (elim (Bool-cases (
                            contains c.interrupt_before id && not (is_node_completed id m.state))) [
                              | inl e'' ↦ rw e'' h
                              | inr e'' ↦
                                  rw e'' (execute_node-Kept id (node_at c.plan id) m h ready)
                            ])
                  ])
        ]

  iterate-Kept : (b : Bool) (m : Machine) → Kept m → Holds Kept Q (iterate c b m)
  unfolding iterate pop dequeue
  iterate-Kept true m h = loop.cancelled
  iterate-Kept false m h = from_queue m.queue
    where
      from_queue : (q : List String) → Holds Kept Q (pop c q m)
      from_queue [] = h
      from_queue (id ∷ rest) = elim (Bool-cases (ltb max_iterations (visits id m + 1))) [
        | inl e ↦ rw e (loop.repeated id)
        | inr e ↦ rw e (
            visit-Kept id
              (record m { queue = rest; visited = insert id (visits id m + 1) m.visited }) h)
      ]

  -- So the state in which the loop ends has it, if the first state has.
  pub rounds-Kept :
      (ctx : ℕ → Bool) (f : ℕ) (m : Machine) → P m.state → Holds Kept Q (rounds c ctx f m)
  rounds-Kept ctx f m h = rounds_inv Kept Q c ctx iterate-Kept f m h
