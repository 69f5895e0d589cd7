-- ===== src/Engine/Machine.antt =====
-- internal/infrastructure/graph/engine.go, `executePlan` and `executeNode`: one round of the loop
-- is `iterate`, on the queue, the visit counts and the execution state.
use duragraph.Base.{
  ℕ, zero, suc, ◌+◌, ◌*◌, Bool, true, false, not, ◌&&◌, ◌||◌, Option, none, some, List, [], ◌∷◌,
  ◌++◌, String, if◌then◌else◌, ltb, length,
}
use duragraph.Base.Text.{contains, concat}
use duragraph.Base.Dict.{Dict, lookup, insert, insert_all}
use duragraph.Base.Value.{bool, text, texts, object, Obj}
use duragraph.Base.Errors.{err_max_iterations, new_domain_error}
use duragraph.Workflow.Nodes.{Node, is_condition, is_end}
use duragraph.Execution.{ExecutionState, get, is_node_completed, mark_node_completed, update_all}
use duragraph.Execution.Compare.{as_true, as_strings, of_obj}
use duragraph.Execution.Executors.{
  Failure, domain, context_done, panic, done, fails, out_of_fuel, SubgraphCallback,
  execute_node_type,
}
use duragraph.Engine.{ExecutionPlan, count_of, node_at, are_dependencies_satisfied, get_next_nodes}

abbrev pub max_iterations : ℕ
max_iterations = 100

-- What `executePlan` is called with.
pub record Setting : Type 0 where
  pub plan : ExecutionPlan
  pub callback : SubgraphCallback
  pub interrupt_before : List String
  pub interrupt_after : List String

pub record Machine : Type 0 where
  pub queue : List String
  pub visited : Dict ℕ
  pub state : ExecutionState

-- Why a round ends the loop with an output.
pub data Reason : Type 0 where
  exhausted reached_end human_needed stopped_before stopped_after : Reason

pub data Round : Type 0 where
  next : Machine → Round
  finish : Reason → Obj → Machine → Round
  break : Failure → Round
  no_fuel : Round

-- `containsString(interruptBefore, id)` over `[]string` or the strings of a `[]interface{}`.
unfoldable pub extract_string_list : Obj → String → List String
unfolding get
extract_string_list m k = elim (get m k) [ texts ts ↦ ts | v ↦ as_strings v ]

unfoldable pub all_completed : List Node → ExecutionState → Bool
unfolding is_end is_node_completed
all_completed [] s = true
all_completed (n ∷ ns) s = (is_end n.type || is_node_completed n.id s) && all_completed ns s

unfoldable pub interrupt_output : String → String → String → Obj
interrupt_output id kind reason =
    ("requires_action", bool true)
    ∷ ("node_id", text id)
    ∷ ("reason", text reason)
    ∷ ("interrupt_type", text kind)
    ∷ []

-- The nodes that follow are put at the end of the queue.
unfoldable pub enqueue : Option (List String) → Machine → Round
enqueue none m = break panic
enqueue (some ids) m = next (record m { queue = m.queue ++ ids })

-- What follows `MarkNodeCompleted`.
unfoldable pub after_completion : Setting → String → Node → Obj → Machine → Round
unfolding all_completed enqueue get_next_nodes interrupt_output contains is_end
after_completion c id node out m =
    if contains c.interrupt_after id
    then finish stopped_after
        (interrupt_output id "after" (concat "interrupt_after: " id)
          ++ ("output", object (of_obj out)) ∷ [])
        m
    else if is_end node.type && all_completed c.plan.nodes m.state
    then finish reached_end out m
    else enqueue (get_next_nodes c.plan id out m.state) m

-- What follows `executeNode`.
unfoldable pub after_execution : Setting → String → Node → Obj → Machine → Round
unfolding after_completion mark_node_completed get
after_execution c id node out m =
    let marked = record m { state = mark_node_completed id out m.state } in
    if as_true (get out "requires_human")
    then finish human_needed
        (("requires_action", bool true) ∷ ("node_id", text id) ∷ ("reason", get out "reason") ∷ [])
        m
    else after_completion c id node out marked

-- `executeNode`: the output goes into the global state.
unfoldable pub execute_node : Setting → String → Node → Machine → Round
unfolding execute_node_type after_execution update_all
execute_node c id node m = elim (execute_node_type c.callback node.type node.config m.state) [
  | done out ↦ after_execution c id node out (record m { state = update_all out m.state })
  | fails x ↦ break x
  | out_of_fuel ↦ no_fuel
]

-- A node that the visit count lets through. `m` has it taken off the queue, and counted.
unfoldable pub visit : Setting → String → Machine → Round
unfolding node_at is_node_completed is_condition are_dependencies_satisfied execute_node
    interrupt_output contains
visit c id m =
    let node = node_at c.plan id in
    if is_node_completed id m.state && not (is_condition node.type)
    then next m
    else if not (are_dependencies_satisfied id c.plan.adj_list m.state.completed_nodes)
    then next (record m { queue = m.queue ++ id ∷ [] })
    else if contains c.interrupt_before id && not (is_node_completed id m.state)
    then finish stopped_before (interrupt_output id "before" (concat "interrupt_before: " id)) m
    else execute_node c id node m

unfoldable pub visits : String → Machine → ℕ
unfolding lookup
visits id m = count_of (lookup id m.visited)

unfoldable pub max_iterations_error : String → Failure
max_iterations_error id = domain (
    new_domain_error "MAX_ITERATIONS" (concat "max iterations exceeded for node " id)
      (some err_max_iterations))

unfoldable pub dequeue : Setting → String → List String → Machine → Round
unfolding visits visit insert max_iterations_error
dequeue c id rest m =
    let n = visits id m + 1 in
    let counted = record m { queue = rest; visited = insert id n m.visited } in
    if ltb max_iterations n then break (max_iterations_error id) else visit c id counted

-- With the queue empty the output is a copy of the global state.
unfoldable pub pop : Setting → List String → Machine → Round
unfolding dequeue insert_all
pop c [] m = finish exhausted (insert_all m.state.global_state []) m
pop c (id ∷ rest) m = dequeue c id rest m

-- One round; the Boolean is whether the context is done.
unfoldable pub iterate : Setting → Bool → Machine → Round
unfolding pop
iterate c true m = break context_done
iterate c false m = pop c m.queue m

-- The loop on fuel. `ctx` tells at which round, by the fuel left, the context is done.
unfoldable pub rounds : Setting → (ℕ → Bool) → ℕ → Machine → Round
unfolding iterate
rounds c ctx zero m = no_fuel
rounds c ctx (suc f) m = elim (iterate c (ctx f) m) [
  | next m' ↦ rounds c ctx f m'
  | finish r out m' ↦ finish r out m'
  | break x ↦ break x
  | no_fuel ↦ no_fuel
]

-- Every id that can come into the queue: the start nodes and the targets of edges.
unfoldable pub all_targets : Dict (List String) → List String
all_targets [] = []
all_targets ((s, ts) ∷ adj) = ts ++ all_targets adj

unfoldable pub queueable : ExecutionPlan → List String
unfolding all_targets
queueable plan = plan.start_nodes ++ all_targets plan.adj_list

-- Enough for the loop to end by itself: each id is taken off the queue at most 101 times.
unfoldable pub enough : ExecutionPlan → ℕ
unfolding queueable
enough plan = max_iterations * length (queueable plan) + 1
