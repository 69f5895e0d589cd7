-- ===== src/Engine/Dependencies.antt =====
-- What `areDependenciesSatisfied` says of the edges of the graph, through the adjacency lists that
-- `buildExecutionPlan` makes.
use duragraph.Base.{true, ◌||◌, List, [], ◌∷◌, ◌++◌, String, ◌≡◌, refl, arith, All}
use duragraph.Base.Text.{=ₛ_iff, =ₛ_refl, contains}
use duragraph.Base.Dict.{Dict, lookup, insert, lookup-insert}
use duragraph.Workflow.Nodes.{Node, Edge}
use duragraph.Engine.{targets_of, add_nodes, add_edges, build_adj_list, are_dependencies_satisfied}

pub contains-append :
    (xs ys : List String) (s : String) → contains (xs ++ ys) s ≡ (contains xs s || contains ys s)
unfolding contains
contains-append [] ys s = refl
contains-append (x ∷ xs) ys s = ground (arith, contains-append xs ys s)

abbrev Adj : Type 0
Adj = Dict (List String)

-- The adjacency lists have an edge from `s` to `t`.
abbrev Leads : Adj → String → String → Type 0
Leads adj s t = contains (targets_of (lookup s adj)) t ≡ true

abbrev with_edge : Edge → Adj → Adj
with_edge e adj = insert e.source (targets_of (lookup e.source adj) ++ e.target ∷ []) adj

with_edge_keeps :
    (e : Edge) (adj : Adj) (s t : String) → Leads adj s t → Leads (with_edge e adj) s t
unfolding contains
with_edge_keeps e adj s t h = ground (
  arith,
  =ₛ_iff e.source s,
  lookup-insert e.source s (targets_of (lookup e.source adj) ++ e.target ∷ []) adj,
  contains-append (targets_of (lookup e.source adj)) (e.target ∷ []) t,
)

with_edge-Leads : (e : Edge) (adj : Adj) → Leads (with_edge e adj) e.source e.target
unfolding contains
with_edge-Leads e adj = ground (
  arith,
  =ₛ_refl e.source,
  =ₛ_refl e.target,
  lookup-insert e.source e.source (targets_of (lookup e.source adj) ++ e.target ∷ []) adj,
  contains-append (targets_of (lookup e.source adj)) (e.target ∷ []) e.target,
)

add_edges_keeps :
    (es : List Edge) (adj : Adj) (s t : String) → Leads adj s t → Leads (add_edges es adj) s t
unfolding add_edges
add_edges_keeps [] adj s t h = h
add_edges_keeps (e ∷ es) adj s t h =
    add_edges_keeps es (with_edge e adj) s t (with_edge_keeps e adj s t h)

add_edges-Leads :
    (es : List Edge) (adj : Adj) → All (λ e. Leads (add_edges es adj) e.source e.target) es
unfolding add_edges
add_edges-Leads [] adj = tt
add_edges-Leads (e ∷ es) adj = (
  add_edges_keeps es (with_edge e adj) e.source e.target (with_edge-Leads e adj),
  add_edges-Leads es (with_edge e adj),
)

contains-nil : (s : String) → ¬ (contains [] s ≡ true)
unfolding contains
contains-nil s h = cc

satisfied_source :
    (id s : String) (adj : Adj) (cs : List String)
    → are_dependencies_satisfied id adj cs ≡ true
    → Leads adj s id
    → contains cs s ≡ true
unfolding are_dependencies_satisfied lookup
satisfied_source id s [] cs h l = absurd (contains-nil id l)
satisfied_source id s ((j, ts) ∷ adj) cs h l =
    ground (arith, =ₛ_iff j s, satisfied_source id s adj cs)

-- The sources of the edges into `id` are all among `cs`.
abbrev pub SourcesIn : List String → String → List Edge → Type 0
SourcesIn cs id es = All (λ e. e.target ≡ id → contains cs e.source ≡ true) es

sources_of :
    (adj : Adj) (id : String) (cs : List String) (es : List Edge)
    → All (λ e. Leads adj e.source e.target) es
    → are_dependencies_satisfied id adj cs ≡ true
    → SourcesIn cs id es
sources_of adj id cs [] l h = tt
sources_of adj id cs (e ∷ es) l h =
    (λ p. satisfied_source id e.source adj cs h (rw p at l.0), sources_of adj id cs es l.1 h)

-- A node whose dependencies are satisfied in the lists of the plan has the sources of all edges
-- into it completed.
pub satisfied-SourcesIn :
    (ns : List Node) (es : List Edge) (id : String) (cs : List String)
    → are_dependencies_satisfied id (build_adj_list ns es) cs ≡ true
    → SourcesIn cs id es
unfolding build_adj_list
satisfied-SourcesIn ns es id cs h =
    sources_of (add_edges es (add_nodes ns [])) id cs es (add_edges-Leads es (add_nodes ns [])) h
