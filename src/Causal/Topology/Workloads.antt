-- ===== src/Causal/Topology/Workloads.antt =====
-- Nodes, workloads, pods, services and endpoint slices in `_add_kubernetes_topology` of src/kdiag/causal.py.
use k8s_check.Prelude.{
  String, ◌<>◌, ◌&&◌, ◌||◌, not, some, List, [], ◌∷◌, ◌==◌, string_eq, pair_eq, if◌then◌else◌,
  truthy, or_text, get_or,
}
use k8s_check.Dict.{lookup}
use k8s_check.Causal.Topology.Objects.{
  note_workload, note_pod, note_claim, note_service, Metadata, Owner, Workload, Pod, Endpoint,
  EndpointSlice, Cluster, NodeId, State, object_name, namespace_of, slash, place, link,
  place_missing, target, each, if_named, if_given,
}

-- The node is a target only if the graph had room for it.
abbrev pub add_node_item : Metadata → State → State
add_node_item m s =
    if_named (object_name m)
      (λ name s.
        let r = place ("node:" <> name) "node" name [] s in
        let t = target name r.0 r.1 in if truthy r.0 then t else r.1)
      s

abbrev workload_id : String → String → String
workload_id kind name = "workload:" <> (kind <> (":" <> name))

abbrev owner_links : NodeId → String → List Owner → List (NodeId × (String × String))
owner_links id namespace [] = []
owner_links id namespace (o ∷ os) =
    let rest = owner_links id namespace os in
    if truthy o.kind && truthy o.name
    then (id, (get_or o.kind "", slash namespace (get_or o.name ""))) ∷ rest
    else rest

abbrev pub add_service : Metadata → State → State
add_service m s =
    if_named (object_name m)
      (λ name s.
        let r = place ("service:" <> name) "service" name [] s in
        target name r.0 (note_service name r.0 r.1))
      s

module _ (lower : String → String) where
  abbrev pub add_workload : Workload → State → State
  add_workload w s =
      if_named (object_name w.metadata)
        (λ name s.
          let kind = or_text w.kind "Workload" in
          let r =
            place (workload_id kind name) "workload" (kind <> (" " <> name))
              (("resource_kind", some kind) ∷ []) s in
          target name r.0 (
            note_workload (lower kind, name) r.0
              (owner_links r.0 (namespace_of w.metadata) w.owners) r.1))
        s

  -- The node of an owner: that of the workload, or a new one.
  abbrev pub owner_node : String → String → State → NodeId × State
  owner_node kind name s =
      place_missing (lookup (lower kind, name) s.workloads) (workload_id kind name) "workload"
        (kind <> (" " <> name)) (("resource_kind", some kind) ∷ []) s

  abbrev pub add_owner_link : NodeId × (String × String) → State → State
  add_owner_link (child, (kind, name)) s =
      let r = owner_node kind name s in link child r.0 "member_of" (target name r.0 r.1)

  abbrev pub add_pod_owner : NodeId → String → Owner → State → State
  add_pod_owner pod_id namespace o s =
      if_given o.name
        (λ owner s.
          let r = owner_node (or_text o.kind "Workload") (slash namespace owner) s in
          link pod_id r.0 "member_of" (target (slash namespace owner) r.0 r.1))
        s

  abbrev pub add_host : NodeId → String → State → State
  add_host pod_id node_name s =
      let r = place ("node:" <> node_name) "node" node_name [] s in
      link r.0 pod_id "hosts" (target node_name r.0 r.1)

  abbrev pub add_pod_claim : NodeId → String → String → State → State
  add_pod_claim pod_id namespace claim s = note_claim pod_id (slash namespace claim) s

  abbrev pub add_pod : Pod → State → State
  add_pod p s =
      if_named (object_name p.metadata)
        (λ name s.
          let namespace = namespace_of p.metadata in
          let r = place ("pod:" <> name) "pod" name (("namespace", some namespace) ∷ []) s in
          let placed = target name r.0 (note_pod name r.0 r.1) in
          let hosted = if_given p.node_name (add_host r.0) placed in
          let owned = each (add_pod_owner r.0 namespace) p.owners hosted in
          each (add_pod_claim r.0 namespace) p.claims owned)
        s

  abbrev pub add_endpoint : NodeId → String → Endpoint → State → State
  add_endpoint slice_id namespace e s =
      let pod_name = slash (or_text e.namespace namespace) (get_or e.name "") in
      let r = place_missing (lookup pod_name s.pods) ("pod:" <> pod_name) "pod" pod_name [] s in
      let linked = link r.0 slice_id "backend_of" (target pod_name r.0 r.1) in
      if not (lower (or_text e.kind "") == "pod") || not (truthy e.name) then s else linked

  abbrev pub add_served : NodeId → String → String → State → State
  add_served slice_id namespace service s =
      let name = slash namespace service in
      let r = place_missing (lookup name s.services) ("service:" <> name) "service" name [] s in
      link slice_id r.0 "serves" (target name r.0 r.1)

  abbrev pub add_endpoint_slice : EndpointSlice → State → State
  add_endpoint_slice e s =
      if_named (object_name e.metadata)
        (λ name s.
          let namespace = namespace_of e.metadata in
          let r = place ("endpoint_slice:" <> name) "endpoint_slice" name [] s in
          let backed = each (add_endpoint r.0 namespace) e.endpoints (target name r.0 r.1) in
          if_given e.service_name (add_served r.0 namespace) backed)
        s

  -- The loops up to that over the endpoint slices.
  unfoldable pub add_workload_objects : Cluster → State → State
  add_workload_objects c s =
      let nodes = each add_node_item c.nodes s in
      let workloads = each add_workload c.workloads nodes in
      let owned = each add_owner_link workloads.workload_owner_links workloads in
      let pods = each add_pod c.pods owned in
      let services = each add_service c.services pods in
      each add_endpoint_slice c.endpoint_slices services
