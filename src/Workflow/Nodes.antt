-- ===== src/Workflow/Nodes.antt =====
-- internal/domain/workflow/graph.go: nodes and edges. The Go node type is a string: the seven
-- constants are constructors, and `other` is any other text.
use duragraph.Base.{ℕ, Bool, true, false, Option, String, if◌then◌else◌}
use duragraph.Base.Text.{◌=ₛ◌}
use duragraph.Base.Dict.{Dict}
use duragraph.Base.Value.{GoMap}

pub data NodeType : Type 0 where
  start llm tool condition end subgraph human : NodeType
  other : String → NodeType

-- The conversion `NodeType(s)`.
unfoldable pub of_string : String → NodeType
of_string s =
    if s =ₛ "start"
    then start
    else if s =ₛ "llm"
    then llm
    else if s =ₛ "tool"
    then tool
    else if s =ₛ "condition"
    then condition
    else if s =ₛ "end"
    then end
    else if s =ₛ "subgraph"
    then subgraph
    else if s =ₛ "human"
    then human
    else other s

-- `Position` is the map of coordinates that the editor stores.
pub record Node : Type 0 where
  pub id : String
  pub type : NodeType
  pub config : GoMap
  pub position : Option (Dict ℕ)

pub record Edge : Type 0 where
  pub id : String
  pub source : String
  pub target : String
  pub condition : GoMap

unfoldable pub is_start : NodeType → Bool
is_start start = true
is_start _ = false

unfoldable pub is_end : NodeType → Bool
is_end end = true
is_end _ = false

unfoldable pub is_condition : NodeType → Bool
is_condition condition = true
is_condition _ = false
