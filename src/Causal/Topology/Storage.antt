-- ===== src/Causal/Topology/Storage.antt =====
-- Claims, volumes and attachments in `_add_kubernetes_topology` of src/kdiag/causal.py.
use k8s_check.Prelude.{String, ◌<>◌, [], string_eq}
use k8s_check.Dict.{lookup}
use k8s_check.Causal.Topology.Objects.{
  note_binding, note_volume, Claim, Volume, Attachment, Cluster, NodeId, State, object_name, place,
  link, place_missing, target, each, if_named, if_given,
}

abbrev pub claim_node : String → State → NodeId × State
claim_node name s = place ("pvc:" <> name) "pvc" name [] s

abbrev pub add_claim : Claim → State → State
add_claim c s =
    if_named (object_name c.metadata)
      (λ name s.
        let r = claim_node name s in
        if_given c.volume_name (note_binding name) (target name r.0 r.1))
      s

abbrev pub add_used_claim : NodeId × String → State → State
add_used_claim (pod_id, name) s =
    let r = claim_node name s in link r.0 pod_id "used_by" (target name r.0 r.1)

abbrev pub add_provisioner : NodeId → String → State → State
add_provisioner pv_id driver s =
    let r = place ("csi:" <> driver) "csi_driver" driver [] s in
    link r.0 pv_id "provisions" (target driver r.0 r.1)

abbrev pub add_volume : Volume → State → State
add_volume v s =
    if_named (object_name v.metadata)
      (λ name s.
        let r = place ("pv:" <> name) "pv" name [] s in
        let placed = target name r.0 (note_volume name r.0 r.1) in
        if_given v.driver (add_provisioner r.0) placed)
      s

-- The node of a volume: the one that was placed, or a new one.
abbrev pub volume_node : String → State → NodeId × State
volume_node name s = place_missing (lookup name s.pv_nodes) ("pv:" <> name) "pv" name [] s

abbrev pub add_binding : String × String → State → State
add_binding (claim, volume) s =
    let v = volume_node volume s in let c = claim_node claim v.1 in link v.0 c.0 "binds" c.1

abbrev pub add_attached_volume : NodeId → String → State → State
add_attached_volume id volume s = let r = volume_node volume s in link r.0 id "attaches_as" r.1

abbrev pub add_attached_node : NodeId → String → State → State
add_attached_node id node_name s =
    let r = place ("node:" <> node_name) "node" node_name [] s in
    link id r.0 "attaches_to" (target node_name r.0 r.1)

abbrev pub add_attachment : Attachment → State → State
add_attachment a s =
    if_named (object_name a.metadata)
      (λ name s.
        let r = place ("volume_attachment:" <> name) "volume_attachment" name [] s in
        let attached = if_given a.volume_name (add_attached_volume r.0) (target name r.0 r.1) in
        if_given a.node_name (add_attached_node r.0) attached)
      s

-- The loops from that over the claims on.
unfoldable pub add_storage_objects : Cluster → State → State
add_storage_objects c s =
    let claims = each add_claim c.pvc s in
    let used = each add_used_claim claims.pod_claims claims in
    let volumes = each add_volume c.pv used in
    let bound = each add_binding volumes.pvc_to_pv volumes in
    each add_attachment c.volume_attachments bound
