-- ===== src/Causal/Topology/Objects.antt =====
-- The objects that `_add_kubernetes_topology` of src/kdiag/causal.py reads, and the state of its loops.
use k8s_check.Prelude.{
  String, ◌<>◌, Option, none, some, List, [], ◌∷◌, ◌++◌, ◌==◌, string_eq, pair_eq, option_eq,
  contains, if◌then◌else◌, truthy, or_text, get_or,
}
use k8s_check.Dict.{Dict, lookup, insert}
use k8s_check.Causal.Graph.{Graph, add_node, add_edge}

pub record Metadata : Type 0 where
  pub name : Option String
  pub namespace : Option String

pub record Owner : Type 0 where
  pub kind : Option String
  pub name : Option String

pub record Workload : Type 0 where
  pub metadata : Metadata
  pub kind : Option String
  pub owners : List Owner

pub record Pod : Type 0 where
  pub metadata : Metadata
  pub node_name : Option String
  pub owners : List Owner
  pub claims : List String

pub record Endpoint : Type 0 where
  pub kind : Option String
  pub name : Option String
  pub namespace : Option String

pub record EndpointSlice : Type 0 where
  pub metadata : Metadata
  pub endpoints : List Endpoint
  pub service_name : Option String

pub record Claim : Type 0 where
  pub metadata : Metadata
  pub volume_name : Option String

pub record Volume : Type 0 where
  pub metadata : Metadata
  pub driver : Option String

pub record Attachment : Type 0 where
  pub metadata : Metadata
  pub volume_name : Option String
  pub node_name : Option String

-- The items of the sources, as `_items` gives them: an absent source has none.
pub record Cluster : Type 0 where
  pub nodes : List Metadata
  pub workloads : List Workload
  pub pods : List Pod
  pub services : List Metadata
  pub endpoint_slices : List EndpointSlice
  pub pvc : List Claim
  pub pv : List Volume
  pub volume_attachments : List Attachment

-- An identifier that `graph.node` returned. It is `none` where the graph had no room.
abbrev pub NodeId : Type 0
NodeId = Option String

-- The graph and the dictionaries that the loops fill.
pub record State : Type 0 where
  pub graph : Graph
  pub object_targets : Dict String (List NodeId)
  pub workloads : Dict (String × String) NodeId
  pub workload_owner_links : List (NodeId × (String × String))
  pub pods : Dict String NodeId
  pub pod_claims : List (NodeId × String)
  pub services : Dict String NodeId
  pub pvc_to_pv : Dict String String
  pub pv_nodes : Dict String NodeId

abbrev named : Option String → String → Option String
named namespace name =
    if truthy namespace then some (get_or namespace "" <> ("/" <> name)) else some name

-- `_object_name`
unfoldable pub object_name : Metadata → Option String
object_name m = if truthy m.name then named m.namespace (get_or m.name "") else none

-- `metadata.get("namespace") or "default"`
abbrev pub namespace_of : Metadata → String
namespace_of m = or_text m.namespace "default"

-- `"{0}/{1}".format(namespace, name)`
abbrev pub slash : String → String → String
slash namespace name = namespace <> ("/" <> name)

-- `graph.node` on the state.
unfoldable pub place :
    String → String → String → Dict String (Option String) → State → NodeId × State
place id kind label attributes s =
    let r = add_node (some id) kind label attributes s.graph in (r.0, record s { graph = r.1 })

-- `graph.edge` on the state.
unfoldable pub link : NodeId → NodeId → String → State → State
link source target relation s = record s { graph = add_edge source target relation [] s.graph }

-- `found or graph.node(...)`, where `found` was looked up in a dictionary.
unfoldable pub place_missing :
    Option NodeId → String → String → String → Dict String (Option String) → State → NodeId × State
unfolding place
place_missing found id kind label attributes s =
    let known = get_or found none in
    if truthy known then (known, s) else place id kind label attributes s

abbrev add_id : List NodeId → NodeId → List NodeId
add_id ids id = if contains ids id then ids else ids ++ id ∷ []

-- `object_targets.setdefault(name, set()).add(id)`
unfoldable pub target : String → NodeId → State → State
target name id s = record s {
  object_targets =
      insert name (add_id (get_or (lookup name s.object_targets) []) id) s.object_targets;
}

-- `workloads[key] = id`, with the links to the owners.
unfoldable pub note_workload :
    String × String → NodeId → List (NodeId × (String × String)) → State → State
note_workload key id links s = record s {
  workloads = insert key id s.workloads;
  workload_owner_links = s.workload_owner_links ++ links;
}

unfoldable pub note_pod : String → NodeId → State → State
note_pod name id s = record s { pods = insert name id s.pods }

unfoldable pub note_claim : NodeId → String → State → State
note_claim pod_id claim s = record s { pod_claims = s.pod_claims ++ (pod_id, claim) ∷ [] }

unfoldable pub note_service : String → NodeId → State → State
note_service name id s = record s { services = insert name id s.services }

unfoldable pub note_binding : String → String → State → State
note_binding claim volume s = record s { pvc_to_pv = insert claim volume s.pvc_to_pv }

unfoldable pub note_volume : String → NodeId → State → State
note_volume name id s = record s { pv_nodes = insert name id s.pv_nodes }

-- A loop over items.
unfoldable pub each {ℓ} : {A : Type ℓ} → (A → State → State) → List A → State → State
each f [] s = s
each f (a ∷ items) s = each f items (f a s)

-- A step for an item that has a name; one without is skipped.
abbrev pub if_named : Option String → (String → State → State) → State → State
if_named none f s = s
if_named (some name) f s = f name s

-- `if value:`, followed by what the code does with the value.
unfoldable pub if_given : Option String → (String → State → State) → State → State
if_given none f s = s
if_given (some v) f s = let t = f v s in if v == "" then s else t
