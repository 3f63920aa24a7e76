-- ===== src/Causal/Graph.antt =====
-- `_GraphBuilder` of src/kdiag/causal.py.
pub mod WellFormed
use k8s_check.Prelude.{
  ℕ, ◌+◌, ◌≡◌, refl, String, Bool, true, false, ◌&&◌, ◌||◌, not, Option, none, some, List, [], ◌∷◌,
  ◌++◌, map, ◌==◌, string_eq, pair_eq, contains, ltb, leb, if◌then◌else◌, length, str_leb, str_ltb,
  sort_by, truthy, or_text,
}
use k8s_check.Dict.{Dict, lookup, insert, has_key, keys, values}

abbrev pub max_graph_nodes : ℕ
max_graph_nodes = 5000

abbrev pub max_graph_edges : ℕ
max_graph_edges = 10000

abbrev pub Attributes : Type 0
Attributes = Dict String String

pub record Node : Type 0 where
  pub id : String
  pub kind : String
  pub label : String
  pub attributes : Attributes

pub record Edge : Type 0 where
  pub source : String
  pub target : String
  pub relation : String
  pub attributes : Attributes

-- The key of an edge: its source, target and relation.
abbrev pub EdgeKey : Type 0
EdgeKey = String × (String × String)

pub record Graph : Type 0 where
  pub nodes : Dict String Node
  pub edges : Dict EdgeKey Edge
  pub truncated : Bool

abbrev pub empty : Graph
empty = record { nodes = []; edges = []; truncated = false }

-- `{key: item for key, item in attributes.items() if item is not None}`
unfoldable pub present : Dict String (Option String) → Attributes
present [] = []
present ((k, none) ∷ d) = present d
present ((k, some v) ∷ d) = (k, v) ∷ present d

-- `node`: the identifier if the node is there, and nothing if there is no room for it.
unfoldable pub add_node :
    Option String → String → String → Dict String (Option String) → Graph → Option String × Graph
unfolding present
add_node none kind label attributes g = (none, g)
add_node (some id) kind label attributes g =
    if id == ""
    then (none, g)
    else if has_key id g.nodes
    then (some id, g)
    else if leb max_graph_nodes (length g.nodes)
    then (none, record g { truncated = true })
    else (
      some id,
      record g {
        nodes =
            insert id
              (record { id = id; kind = kind; label = label; attributes = present attributes })
              g.nodes;
      },
    )

-- `edge`, on identifiers that are not `None`
add_edge_between : String → String → String → Dict String (Option String) → Graph → Graph
unfolding present
add_edge_between source target relation attributes g =
    if source == "" || (target == "" || source == target)
    then g
    else if not (has_key source g.nodes) || not (has_key target g.nodes)
    then g
    else if has_key (source, (target, relation)) g.edges
    then g
    else if leb max_graph_edges (length g.edges)
    then record g { truncated = true }
    else record g {
      edges =
          insert (source, (target, relation))
            (record {
              source = source;
              target = target;
              relation = relation;
              attributes = present attributes;
            })
            g.edges;
    }

unfoldable pub add_edge :
    Option String → Option String → String → Dict String (Option String) → Graph → Graph
unfolding add_edge_between
add_edge none target relation attributes g = g
add_edge (some source) none relation attributes g = g
add_edge (some source) (some target) relation attributes g =
    add_edge_between source target relation attributes g

pub record Document : Type 0 where
  pub nodes : List Node
  pub edges : List Edge
  pub truncated : Bool

abbrev node_leb : Node → Node → Bool
node_leb a b = str_leb a.id b.id

abbrev edge_leb : Edge → Edge → Bool
edge_leb a b =
    str_ltb a.source b.source
    || (a.source == b.source
        && (str_ltb a.target b.target || (a.target == b.target && str_leb a.relation b.relation)))

-- `document`
unfoldable pub document : Graph → Document
document g = record {
  nodes = sort_by node_leb (values g.nodes);
  edges = sort_by edge_leb (values g.edges);
  truncated = g.truncated;
}
