-- ===== src/Workflow/Update.antt =====
-- internal/domain/workflow/graph.go, `Graph.Update`. A nil slice or pointer is `none`.
use duragraph.Base.{
  ℕ, ◌≡◌, refl, ◌≢◌, Option-cases, inl, inr, ◌↔◌, Option, none, some, List, String, arith,
  if◌then◌else◌,
}
use duragraph.Base.Text.{◌=ₛ◌}
use duragraph.Base.Value.{GoMap}
use duragraph.Base.Errors.{DomainError, ok}
use duragraph.Workflow.{Graph, updated, validate_graph, new_graph, record_event}
use duragraph.Workflow.Nodes.{Node, Edge}
use duragraph.Workflow.Validation.{IsWellFormed, validate_graph_iff}

-- `if nodes != nil && edges != nil { validateGraph(nodes, edges) }`
unfoldable pub validate_update : Option (List Node) → Option (List Edge) → Option DomainError
validate_update (some ns) (some es) = validate_graph ns es
validate_update _ _ = none

abbrev given {ℓ} : {A : Type ℓ} → A → Option A → A
given old none = old
given old (some new) = new

-- `name != nil && *name != ""`
unfoldable pub given_name : Option String → Option String
given_name none = none
given_name (some s) = if s =ₛ "" then none else some s

unfoldable pub update :
    ℕ
    → Option String
    → Option String
    → Option (List Node)
    → Option (List Edge)
    → GoMap
    → Graph
    → Graph × Option DomainError
unfolding validate_update given_name record_event
update now name description nodes edges config g =
    let g' = record g {
      name = given g.name (given_name name);
      description = given g.description description;
      nodes = given g.nodes nodes;
      edges = given g.edges edges;
      config = elim config [ none ↦ g.config | some m ↦ some m ];
      updated_at = now;
    } in
    let done =
      record_event g' (updated g.id (given_name name) description nodes edges config now) in
    elim (validate_update nodes edges) [ some x ↦ (g, some x) | none ↦ (done, none) ]

-- The nodes and edges of the graph are well formed.
abbrev pub IsValidGraph : Graph → Type 0
IsValidGraph g = IsWellFormed g.nodes g.edges

-- `NewGraph` makes well-formed graphs only.
pub new_graph-IsValidGraph :
    (now : ℕ) (id assistant name version description : String) (ns : List Node) (es : List Edge)
    (config : GoMap) {g : Graph}
    → new_graph now id assistant name version description ns es config ≡ ok g
    → IsValidGraph g
unfolding new_graph
new_graph-IsValidGraph now id assistant name version description ns es config {g} h =
    let made : (g.nodes ≡ ns) × (g.edges ≡ es) × (validate_graph ns es ≡ none) = ground arith in
    rw (made.0, made.1) ((validate_graph_iff ns es).0 made.2)

-- The slices of an update that gives both, or neither.
abbrev pub nodes_of : Option (List Node × List Edge) → Option (List Node)
nodes_of none = none
nodes_of (some (ns, es)) = some ns

abbrev pub edges_of : Option (List Node × List Edge) → Option (List Edge)
edges_of none = none
edges_of (some (ns, es)) = some es

-- An update of both the nodes and the edges, or of neither, keeps a graph well formed; it is
-- accepted unless the given graph fails the validation, and then the graph is unchanged.
pub update-IsValidGraph :
    (now : ℕ) (name description : Option String) (gs : Option (List Node × List Edge))
    (config : GoMap) (g : Graph)
    → IsValidGraph g
    → let (g', e) = update now name description (nodes_of gs) (edges_of gs) config g in
      IsValidGraph g' × (e ≡ validate_update (nodes_of gs) (edges_of gs)) × (e ≢ none → g' ≡ g)
unfolding update
update-IsValidGraph now name description none config g h = (h, refl, λ n. absurd (n refl))
update-IsValidGraph now name description (some (ns, es)) config g h =
    elim (Option-cases (validate_graph ns es)) [
      | inl good ↦ rw (good, update) ((validate_graph_iff ns es).0 good, refl, λ n. absurd (n refl))
      | inr (x, bad) ↦ rw (bad, update) (h, refl, λ _. refl)
    ]

-- An update of the nodes alone is accepted whatever they are, and leaves the graph well formed
-- exactly if the new nodes with the old edges pass the validation that was skipped.
pub update_nodes_unchecked :
    (now : ℕ) (name description : Option String) (ns : List Node) (config : GoMap) (g : Graph)
    → let (g', e) = update now name description (some ns) none config g in
      (e ≡ none)
      × (g'.nodes ≡ ns)
      × (g'.edges ≡ g.edges)
      × (IsValidGraph g' ↔ (validate_graph ns g.edges ≡ none))
unfolding update
update_nodes_unchecked now name description ns config g =
    (refl, refl, refl, ((validate_graph_iff ns g.edges).1, (validate_graph_iff ns g.edges).0))
