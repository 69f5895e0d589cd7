-- ===== src/Execution/Clones.antt =====
-- internal/domain/execution/state.go, `Clone` and `CloneForSubgraph`.
use duragraph.Base.{◌+◌, List, [], ◌∷◌, String}
use duragraph.Base.Dict.{insert_all}
use duragraph.Execution.{ExecutionState}
use duragraph.Execution.Executors.{select_or_all}

-- `make([]string, len(s.CurrentNodes))`
abbrev blanks : List String → List String
blanks [] = []
blanks (x ∷ xs) = "" ∷ blanks xs

unfoldable pub clone : ExecutionState → ExecutionState
unfolding insert_all
clone s = record {
  run_id = s.run_id;
  current_nodes = blanks s.current_nodes;
  completed_nodes = [];
  node_outputs = [];
  global_state = insert_all s.global_state [];
  iteration = 0;
  stream_enabled = s.stream_enabled;
  message_chunk = s.message_chunk;
  subgraph_exec = s.subgraph_exec;
  parent_run_id = s.run_id;
  subgraph_depth = s.subgraph_depth + 1;
}

unfoldable pub clone_for_subgraph : List String → ExecutionState → ExecutionState
unfolding select_or_all
clone_for_subgraph keys s = record {
  run_id = s.run_id;
  current_nodes = [];
  completed_nodes = [];
  node_outputs = [];
  global_state = select_or_all keys s.global_state;
  iteration = 0;
  stream_enabled = s.stream_enabled;
  message_chunk = s.message_chunk;
  subgraph_exec = s.subgraph_exec;
  parent_run_id = s.run_id;
  subgraph_depth = s.subgraph_depth + 1;
}
