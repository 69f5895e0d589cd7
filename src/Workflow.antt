-- ===== src/Workflow.antt =====
-- internal/domain/workflow/graph.go: the graph aggregate and `validateGraph`.
pub mod Nodes
pub mod Validation
pub mod Update
mod Tests
use duragraph.Base.{
  ℕ, Bool, true, false, ◌||◌, Option, none, some, List, [], ◌∷◌, ◌++◌, String, if◌then◌else◌, arith,
  ◌≡◌,
}
use duragraph.Base.Text.{◌=ₛ◌, contains, concat}
use duragraph.Base.Value.{GoMap, or_empty}
use duragraph.Base.Errors.{DomainError, Result, ok, err, invalid_input}
use Nodes.{Node, Edge, is_start, is_end}

-- An event of a graph, with the fields of `GraphDefined` and of `GraphUpdated`.
pub data Event : Type 0 where
  defined : String → String → String → String → String → List Node → List Edge → GoMap → ℕ → Event
  updated :
      String
      → Option String
      → Option String
      → Option (List Node)
      → Option (List Edge)
      → GoMap
      → ℕ
      → Event

pub record Graph : Type 0 where
  pub id : String
  pub assistant_id : String
  pub name : String
  pub version : String
  pub description : String
  pub nodes : List Node
  pub edges : List Edge
  pub config : GoMap
  pub created_at : ℕ
  pub updated_at : ℕ
  pub events : List Event

-- The first loop of `validateGraph`, over `nodeMap` (its keys, the last one first), `hasStart`
-- and `hasEnd`.
unfoldable pub validate_nodes :
    List Node → List String → Bool → Bool → Result (List String × Bool × Bool)
unfolding contains is_start is_end
validate_nodes [] seen s e = ok (seen, s, e)
validate_nodes (n ∷ ns) seen s e =
    let rest = validate_nodes ns (n.id ∷ seen) (s || is_start n.type) (e || is_end n.type) in
    if n.id =ₛ ""
    then err (invalid_input "node.id" "node ID is required")
    else if contains seen n.id
    then err (invalid_input "node.id" (concat "duplicate node ID: " n.id))
    else rest

-- The second loop.
unfoldable pub validate_edges : List String → List Edge → Option DomainError
unfolding contains
validate_edges seen [] = none
validate_edges seen (e ∷ es) =
    let rest = validate_edges seen es in
    if e.source =ₛ "" || e.target =ₛ ""
    then some (invalid_input "edge" "edge source and target are required")
    else if contains seen e.source
    then (if contains seen e.target
        then rest
        else some (invalid_input "edge.target" (concat "target node not found: " e.target)))
    else some (invalid_input "edge.source" (concat "source node not found: " e.source))

-- What follows the first loop.
unfoldable pub validate_rest : Result (List String × Bool × Bool) → List Edge → Option DomainError
unfolding validate_edges
validate_rest (err x) es = some x
validate_rest (ok (seen, s, e)) es =
    if s
    then (if e
        then validate_edges seen es
        else some (invalid_input "nodes" "graph must have at least one end node"))
    else some (invalid_input "nodes" "graph must have at least one start node")

unfoldable pub validate_graph : List Node → List Edge → Option DomainError
unfolding validate_nodes validate_rest
validate_graph [] es = some (invalid_input "nodes" "at least one node is required")
validate_graph (n ∷ ns) es = validate_rest (validate_nodes (n ∷ ns) [] false false) es

unfoldable pub record_event : Graph → Event → Graph
record_event g e = record g { events = g.events ++ e ∷ [] }

-- `id` is the new UUID.
unfoldable pub new_graph :
    ℕ → String → String → String → String → String → List Node → List Edge → GoMap → Result Graph
unfolding or_empty record_event
new_graph now id assistant name version description nodes edges config =
    let version' = if version =ₛ "" then "1.0.0" else version in
    let config' = or_empty config in
    let g : Graph = record {
      id = id;
      assistant_id = assistant;
      name = name;
      version = version';
      description = description;
      nodes = nodes;
      edges = edges;
      config = config';
      created_at = now;
      updated_at = now;
      events = [];
    } in
    let made =
      record_event g (defined id assistant name version' description nodes edges config' now) in
    if assistant =ₛ ""
    then err (invalid_input "assistant_id" "assistant_id is required")
    else if name =ₛ ""
    then err (invalid_input "name" "name is required")
    else elim (validate_graph nodes edges) [ some x ↦ err x | none ↦ ok made ]
