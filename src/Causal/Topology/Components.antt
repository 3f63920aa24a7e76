-- ===== src/Causal/Topology/Components.antt =====
-- The components of the cluster in `_add_kubernetes_topology` of src/kdiag/causal.py, and the whole function.
use k8s_check.Prelude.{
  String, ◌<>◌, ◌||◌, not, some, List, [], ◌∷◌, ◌==◌, string_eq, if◌then◌else◌, has_substring,
}
use k8s_check.Dict.{Dict, insert}
use k8s_check.Causal.Graph.{Graph, Node}
use k8s_check.Causal.Topology.Objects.{Cluster, NodeId, State, place, link, each}
use k8s_check.Causal.Topology.Workloads.{add_workload_objects}
use k8s_check.Causal.Topology.Storage.{add_storage_objects}

-- `component_ids`
pub record Components : Type 0 where
  pub etcd : NodeId
  pub kube_apiserver : NodeId
  pub container_runtime : NodeId
  pub cilium : NodeId
  pub dns : NodeId

abbrev component : String → String → State → NodeId × State
component name label s = place ("component:" <> name) "component" label [] s

unfoldable pub add_components : State → Components × State
add_components s =
    let etcd = component "etcd" "etcd" s in
    let api = component "kube-apiserver" "kube-apiserver" etcd.1 in
    let runtime = component "container-runtime" "container runtime" api.1 in
    let cilium = component "cilium" "Cilium/CNI" runtime.1 in
    let dns = component "dns" "cluster DNS" cilium.1 in
    (
      record {
        etcd = etcd.0;
        kube_apiserver = api.0;
        container_runtime = runtime.0;
        cilium = cilium.0;
        dns = dns.0;
      },
      link etcd.0 api.0 "serves" dns.1,
    )

-- The edges from the components to a node of kind "node".
abbrev pub link_node : Components → String × Node → State → State
link_node c (id, node) s =
    let linked = link c.cilium (some id) "provides_network_to" (
      link c.container_runtime (some id) "provides_runtime_to"
        (link c.kube_apiserver (some id) "controls" s)) in
    if not (node.kind == "node") then s else linked

abbrev pub link_dns : Components → String × NodeId → State → State
link_dns c (name, service) s =
    let linked = link c.dns service "provides_dns_as" s in
    if has_substring name "kube-dns" || has_substring name "coredns" then linked else s

-- `object_targets["@component:..."] = {node_id}`
abbrev pub component_targets : Components → Dict String (List NodeId) → Dict String (List NodeId)
component_targets c d = insert "@component:dns" (c.dns ∷ []) (
    insert "@component:cilium" (c.cilium ∷ []) (
      insert "@component:container_runtime" (c.container_runtime ∷ []) (
        insert "@component:kube_apiserver" (c.kube_apiserver ∷ [])
          (insert "@component:etcd" (c.etcd ∷ []) d))))

abbrev pub initial : Graph → State
initial g = record {
  graph = g;
  object_targets = [];
  workloads = [];
  workload_owner_links = [];
  pods = [];
  pod_claims = [];
  services = [];
  pvc_to_pv = [];
  pv_nodes = [];
}

-- The graph after the call, with `object_targets`. The first argument stands for `str.lower`.
unfoldable pub add_kubernetes_topology : (String → String) → Graph → Cluster → State
unfolding add_workload_objects add_storage_objects
add_kubernetes_topology lower g cluster =
    let stored = add_storage_objects cluster (add_workload_objects lower cluster (initial g)) in
    let placed = add_components stored in
    let controlled = each (link_node placed.0) placed.1.graph.nodes placed.1 in
    let served = each (link_dns placed.0) controlled.services controlled in
    record served { object_targets = component_targets placed.0 served.object_targets }
