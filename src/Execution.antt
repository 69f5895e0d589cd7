-- ===== src/Execution.antt =====
-- internal/domain/execution/state.go: the state of a graph execution. `CompletedNodes`, a map to
-- `true`, is its list of keys, the last one first. The two callbacks are not data: whether they
-- are set is, and the subgraph callback itself is an argument of the executors.
pub mod Compare
pub mod Executors
pub mod Clones
use duragraph.Base.{
  ℕ, suc, ◌+◌, Bool, true, false, Option, none, some, List, [], ◌∷◌, ◌++◌, String, if◌then◌else◌,
}
use duragraph.Base.Text.{◌=ₛ◌, contains}
use duragraph.Base.Dict.{Dict, lookup, insert, insert_all}
use duragraph.Base.Value.{Value, null, Obj}

pub record ExecutionState : Type 0 where
  pub run_id : String
  pub current_nodes : List String
  pub completed_nodes : List String
  pub node_outputs : Dict Obj
  pub global_state : Obj
  pub iteration : ℕ
  pub stream_enabled : Bool
  pub message_chunk : Bool
  pub subgraph_exec : Bool
  pub parent_run_id : String
  pub subgraph_depth : ℕ

unfoldable pub new_execution_state : String → ExecutionState
new_execution_state id = record {
  run_id = id;
  current_nodes = [];
  completed_nodes = [];
  node_outputs = [];
  global_state = [];
  iteration = 0;
  stream_enabled = false;
  message_chunk = false;
  subgraph_exec = false;
  parent_run_id = "";
  subgraph_depth = 0;
}

unfoldable pub is_node_completed : String → ExecutionState → Bool
unfolding contains
is_node_completed id s = contains s.completed_nodes id

-- The first occurrence is removed.
unfoldable pub remove_first : String → List String → List String
remove_first id [] = []
remove_first id (x ∷ xs) = if x =ₛ id then xs else x ∷ remove_first id xs

-- `m[id] = true` on the key list.
unfoldable pub add_key : String → List String → List String
unfolding contains
add_key id keys = if contains keys id then keys else id ∷ keys

unfoldable pub mark_node_started : String → ExecutionState → ExecutionState
mark_node_started id s = record s { current_nodes = s.current_nodes ++ id ∷ [] }

unfoldable pub mark_node_completed : String → Obj → ExecutionState → ExecutionState
unfolding add_key remove_first insert
mark_node_completed id out s = record s {
  completed_nodes = add_key id s.completed_nodes;
  node_outputs = insert id out s.node_outputs;
  current_nodes = remove_first id s.current_nodes;
}

-- A read of a missing key gives nil.
unfoldable pub get : Obj → String → Value
unfolding lookup
get m k = elim (lookup k m) [ none ↦ null | some v ↦ v ]

unfoldable pub get_global_state : String → ExecutionState → Value
unfolding get
get_global_state k s = get s.global_state k

unfoldable pub update_global_state : String → Value → ExecutionState → ExecutionState
unfolding insert
update_global_state k v s = record s { global_state = insert k v s.global_state }

-- `for k, v := range m { state.UpdateGlobalState(k, v) }`
unfoldable pub update_all : Obj → ExecutionState → ExecutionState
unfolding insert_all
update_all m s = record s { global_state = insert_all m s.global_state }
