-- ===== src/Workflow/Tests.antt =====
-- A small graph, and the graph aggregate on it.
use duragraph.Base.{◌≡◌, ◌≢◌, ◌↔◌, refl, none, some, List, [], ◌∷◌}
use duragraph.Base.Errors.{Result, ok, err}
use duragraph.Workflow.{Graph, validate_graph, new_graph}
use duragraph.Workflow.Nodes.{Node, Edge, start, llm, end}
use duragraph.Workflow.Validation.{IsWellFormed, validate_graph_iff}
use duragraph.Workflow.Update.{
  IsValidGraph, update, validate_update, new_graph-IsValidGraph, update-IsValidGraph,
}

abbrev small_nodes : List Node
small_nodes =
    record { id = "s"; type = start; config = none; position = none }
    ∷ record { id = "a"; type = llm; config = none; position = none }
    ∷ record { id = "e"; type = end; config = none; position = none }
    ∷ []

abbrev small_edges : List Edge
small_edges =
    record { id = "1"; source = "s"; target = "a"; condition = none }
    ∷ record { id = "2"; source = "a"; target = "e"; condition = none }
    ∷ []

abbrev empty_graph : Graph
empty_graph = record {
  id = "";
  assistant_id = "";
  name = "";
  version = "";
  description = "";
  nodes = [];
  edges = [];
  config = none;
  created_at = 0;
  updated_at = 0;
  events = [];
}

abbrev the_graph : Result Graph → Graph
the_graph (ok g) = g
the_graph (err _) = empty_graph

abbrev small : Graph
small = the_graph (new_graph 1 "g1" "assistant" "small" "" "" small_nodes small_edges none)

small_ok : new_graph 1 "g1" "assistant" "small" "" "" small_nodes small_edges none ≡ ok small
unfolding new_graph validate_graph
small_ok = refl

validate_graph_iff_example :
    (validate_graph small_nodes small_edges ≡ none) ↔ IsWellFormed small_nodes small_edges
validate_graph_iff_example = validate_graph_iff small_nodes small_edges

-- The new graph has an edge to a node that is missing.
update-IsValidGraph_example :
    let (g', e) = update 2 none none (some []) (some small_edges) none small in
    IsValidGraph g' × (e ≡ validate_update (some []) (some small_edges)) × (e ≢ none → g' ≡ small)
update-IsValidGraph_example =
    update-IsValidGraph 2 none none (some ([], small_edges)) none small (
      new_graph-IsValidGraph 1 "g1" "assistant" "small" "" "" small_nodes small_edges none small_ok)
