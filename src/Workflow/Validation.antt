-- ===== src/Workflow/Validation.antt =====
-- `validateGraph` of internal/domain/workflow/graph.go, against well-formedness.
use duragraph.Base.{
  ◌≡◌, refl, ◌≢◌, ◌↔◌, Bool, true, false, ◌||◌, none, List, [], ◌∷◌, String, arith, All,
}
use duragraph.Base.Text.{◌=ₛ◌, =ₛ_iff, contains}
use duragraph.Base.Errors.{Result, ok, err}
use duragraph.Workflow.{validate_nodes, validate_edges, validate_rest, validate_graph}
use duragraph.Workflow.Nodes.{Node, Edge, is_start, is_end}

-- A node of the list has this id; one is a start node; one is an end node.
abbrev pub named : String → List Node → Bool
named s [] = false
named s (n ∷ ns) = n.id =ₛ s || named s ns

abbrev pub has_start : List Node → Bool
has_start [] = false
has_start (n ∷ ns) = is_start n.type || has_start ns

abbrev pub has_end : List Node → Bool
has_end [] = false
has_end (n ∷ ns) = is_end n.type || has_end ns

abbrev pub Distinct : List Node → Type 0
Distinct [] = Unit
Distinct (n ∷ ns) = (named n.id ns ≡ false) × Distinct ns

pub record IsWellFormed (ns : List Node) (es : List Edge) : Type 0 where
  pub named_all : All (λ n. n.id ≢ "") ns
  pub distinct : Distinct ns
  pub starts : has_start ns ≡ true
  pub ends : has_end ns ≡ true
  pub joined : All (λ e. (named e.source ns ≡ true) × (named e.target ns ≡ true)) es

abbrev Unseen : List String → List Node → Type 0
Unseen seen ns = All (λ n. contains seen n.id ≡ false) ns

Unseen-cons :
    (s : String) (seen : List String) (ns : List Node)
    → Unseen seen ns
    → named s ns ≡ false
    → Unseen (s ∷ seen) ns
unfolding contains
Unseen-cons s seen [] h k = tt
Unseen-cons s seen (n ∷ ns) h k =
    (ground (arith, =ₛ_iff s n.id, =ₛ_iff n.id s), Unseen-cons s seen ns h.1 (ground arith))

Unseen-uncons :
    (s : String) (seen : List String) (ns : List Node)
    → Unseen (s ∷ seen) ns
    → Unseen seen ns × (named s ns ≡ false)
unfolding contains
Unseen-uncons s seen [] h = (tt, refl)
Unseen-uncons s seen (n ∷ ns) h =
    let (rest, new) = Unseen-uncons s seen ns h.1 in
    ((ground arith, rest), ground (arith, =ₛ_iff s n.id, =ₛ_iff n.id s))

-- What the first loop returns where it accepts.
abbrev scanned : List Node → List String → List String
scanned [] seen = seen
scanned (n ∷ ns) seen = scanned ns (n.id ∷ seen)

validate_nodes_complete :
    (ns : List Node) (seen : List String) (s e : Bool)
    → All (λ n. n.id ≢ "") ns
    → Unseen seen ns
    → Distinct ns
    → validate_nodes ns seen s e ≡ ok (scanned ns seen, s || has_start ns, e || has_end ns)
unfolding validate_nodes
validate_nodes_complete [] seen s e full new distinct = ground arith
validate_nodes_complete (n ∷ ns) seen s e full new distinct = ground (
  arith,
  =ₛ_iff n.id "",
  validate_nodes_complete ns (n.id ∷ seen) (s || is_start n.type) (e || is_end n.type) full.1
      (Unseen-cons n.id seen ns new.1 distinct.0) distinct.1,
)

validate_nodes_sound :
    (ns : List Node) (seen : List String) (s e : Bool) {r : List String × Bool × Bool}
    → validate_nodes ns seen s e ≡ ok r
    → All (λ n. n.id ≢ "") ns × Unseen seen ns × Distinct ns
unfolding validate_nodes
validate_nodes_sound [] seen s e h = (tt, tt, tt)
validate_nodes_sound (n ∷ ns) seen s e {r} h =
    let guards : (n.id ≢ "") × (contains seen n.id ≡ false) = ground (arith, =ₛ_iff n.id "") in
    let rest =
      validate_nodes_sound ns (n.id ∷ seen) (s || is_start n.type) (e || is_end n.type) {r = r}
        (ground arith) in
    let (new, fresh) = Unseen-uncons n.id seen ns rest.1 in
    ((guards.0, rest.0), (guards.1, new), (fresh, rest.2))

-- The key set that the second loop reads holds the ids of the nodes.
contains-scanned :
    (s : String) (ns : List Node) (seen : List String)
    → contains (scanned ns seen) s ≡ (named s ns || contains seen s)
unfolding contains
contains-scanned s [] seen = refl
contains-scanned s (n ∷ ns) seen = ground (arith, contains-scanned s ns (n.id ∷ seen))

named-ne-empty :
    (s : String) (ns : List Node) → All (λ n. n.id ≢ "") ns → named s ns ≡ true → s ≢ ""
named-ne-empty s [] full h = cc
named-ne-empty s (n ∷ ns) full h = ground (arith, =ₛ_iff n.id s, named-ne-empty s ns full.1)

abbrev Joined : List Node → List Edge → Type 0
Joined ns es = All (λ e. (named e.source ns ≡ true) × (named e.target ns ≡ true)) es

validate_edges_complete :
    (ns : List Node) (es : List Edge)
    → All (λ n. n.id ≢ "") ns
    → Joined ns es
    → validate_edges (scanned ns []) es ≡ none
unfolding validate_edges contains
validate_edges_complete ns [] full h = refl
validate_edges_complete ns (e ∷ es) full h = ground (
  arith,
  =ₛ_iff e.source "",
  =ₛ_iff e.target "",
  named-ne-empty e.source ns full,
  named-ne-empty e.target ns full,
  contains-scanned e.source ns [],
  contains-scanned e.target ns [],
  validate_edges_complete ns es full h.1,
)

validate_edges_sound :
    (ns : List Node) (es : List Edge) → validate_edges (scanned ns []) es ≡ none → Joined ns es
unfolding validate_edges contains
validate_edges_sound ns [] h = tt
validate_edges_sound ns (e ∷ es) h = ground (
  arith,
  contains-scanned e.source ns [],
  contains-scanned e.target ns [],
  validate_edges_sound ns es,
)

validate_rest_ok :
    (r : Result (List String × Bool × Bool)) (es : List Edge)
    → validate_rest r es ≡ none
    → (seen : List String) × (r ≡ ok (seen, true, true)) × (validate_edges seen es ≡ none)
unfolding validate_rest
validate_rest_ok (err x) es h = cc
validate_rest_ok (ok (seen, true, true)) es h = (seen, refl, h)
validate_rest_ok (ok (seen, true, false)) es h = cc
validate_rest_ok (ok (seen, false, e)) es h = cc

nodes_sound :
    (n : Node) (ns : List Node) (es : List Edge) {seen : List String}
    → validate_nodes (n ∷ ns) [] false false ≡ ok (seen, true, true)
    → validate_edges seen es ≡ none
    → IsWellFormed (n ∷ ns) es
nodes_sound n ns es {seen} h k =
    let nodes = n ∷ ns in
    let (full, new, distinct) = validate_nodes_sound nodes [] false false h in
    let found = validate_nodes_complete nodes [] false false full new distinct in
    let seen_eq : seen ≡ scanned nodes [] = cc in
    record {
      named_all = full;
      distinct = distinct;
      starts = cc;
      ends = cc;
      joined = validate_edges_sound nodes es (rw seen_eq at k);
    }

validate_graph_sound :
    (ns : List Node) (es : List Edge) → validate_graph ns es ≡ none → IsWellFormed ns es
unfolding validate_graph
validate_graph_sound [] es h = cc
validate_graph_sound (n ∷ ns) es h =
    let (seen, found, joined) = validate_rest_ok (validate_nodes (n ∷ ns) [] false false) es h in
    nodes_sound n ns es found joined

Unseen-nil : (ns : List Node) → Unseen [] ns
unfolding contains
Unseen-nil [] = tt
Unseen-nil (n ∷ ns) = (refl, Unseen-nil ns)

validate_graph_complete :
    (ns : List Node) (es : List Edge) → IsWellFormed ns es → validate_graph ns es ≡ none
unfolding validate_graph validate_rest
validate_graph_complete [] es h = cc (h.starts)
validate_graph_complete (n ∷ ns) es h =
    let nodes = n ∷ ns in
    let found =
      validate_nodes_complete nodes [] false false h.named_all (Unseen-nil nodes) h.distinct in
    rw (found, h.starts, h.ends) (validate_edges_complete nodes es h.named_all h.joined)

-- `validateGraph` accepts a graph exactly if every node has an id, no two nodes share one, there
-- is a start node and an end node, and both ends of every edge are ids of nodes.
pub validate_graph_iff :
    (ns : List Node) (es : List Edge) → (validate_graph ns es ≡ none) ↔ IsWellFormed ns es
validate_graph_iff ns es = (validate_graph_sound ns es, validate_graph_complete ns es)
