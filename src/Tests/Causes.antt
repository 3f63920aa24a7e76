-- ===== src/Tests/Causes.antt =====
-- Tests of the model of src/kdiag/causal.py.
use k8s_check.Prelude.{
  true, ℕ, ◌≡◌, ◌↔◌, refl, String, false, Option, none, some, List, [], ◌∷◌, ◌==◌, string_eq,
  pair_eq, is_some, length, any, or_text, if◌then◌else◌, All,
}
use k8s_check.Causal.Finding.{
  Finding, Collection, finding_activity_status, is_current_evidence, safe_time,
}
use k8s_check.Causal.Finding.Lifecycle.{IsOver, resolved_iff}
use k8s_check.Causal.Effects.{Targets, effects_of}
use k8s_check.Causal.Effects.Explained.{IsExplained, effects_of-IsExplained}
use k8s_check.Causal.Reach.{Adjacency, reachable}
use k8s_check.Causal.Reach.Search.{Near, reachable_ends, reachable_sound}
use k8s_check.Dict.{has_key}
use k8s_check.Causal.Topology.Objects.{
  Metadata, Cluster, object_name, each, if_given, link, place, target, place_missing, note_workload,
  note_pod, note_service,
}
use k8s_check.Causal.Topology.Components.{add_components, add_kubernetes_topology}
use k8s_check.Causal.Graph.{add_node, add_edge, empty}
use k8s_check.Causal.Graph.WellFormed.{IsWellFormed, Build, start, node, edge, Build-IsWellFormed}
use k8s_check.Causal.Rank.{rank_hypotheses}
use k8s_check.Causal.Rank.Order.{Falls, RankedFrom, IsSound, rank_hypotheses-Falls}

abbrev finding : String → String → String → Finding
finding id rule role = record {
  id = some id;
  rule_id = some rule;
  severity = some "critical";
  title = none;
  affected = "n1" ∷ [];
  evidence = "node-n1.json.gz#logs" ∷ [];
  counter_evidence = [];
  missing_checks = "a" ∷ [];
  started_at = some "10";
  ended_at = some "20";
  causal_confidence = some "high";
  evaluation_status = none;
  finding_status = some "active";
  finding_role = some role;
}

abbrev collection : Collection
collection = record {
  ended_at = some "2000";
  purpose = some "check";
  incident_start = none;
  incident_end = none;
}

abbrev parse : String → Option ℕ
parse s = if s == "20" then some 20 else some 2000

resolved_iff_example :
    (finding_activity_status parse (finding "F" "etcd.slow" "possible_cause") collection
      ≡ "resolved")
    ↔ ((any is_current_evidence ("node-n1.json.gz#logs" ∷ []) ≡ false)
        × IsOver
            (or_text (some "check") "check" == "incident")
            (safe_time parse (some "20"))
            (safe_time parse none)
            (safe_time parse (some "2000")))
resolved_iff_example = resolved_iff parse (finding "F" "etcd.slow" "possible_cause") collection

old_finding :
    finding_activity_status parse (finding "F" "etcd.slow" "possible_cause") collection ≡ "resolved"
unfolding finding_activity_status
old_finding = refl

abbrev built : Build (
    add_edge
      (some "a")
      (some "b")
      "hosts"
      []
      (add_node (some "b") "pod" "B" [] (add_node (some "a") "node" "A" [] empty).1).1)
built =
    edge (some "a") (some "b") "hosts" []
      (node (some "b") "pod" "B" [] (node (some "a") "node" "A" [] start))

Build-IsWellFormed_example : IsWellFormed (
    add_edge
      (some "a")
      (some "b")
      "hosts"
      []
      (add_node (some "b") "pod" "B" [] (add_node (some "a") "node" "A" [] empty).1).1)
Build-IsWellFormed_example = Build-IsWellFormed built

abbrev findings : List Finding
findings =
    finding "F1" "etcd.slow" "configuration_risk"
    ∷ finding "F2" "kubernetes.pod_pending" "consequence"
    ∷ finding "F3" "runtime.down" "possible_cause"
    ∷ []

rank_hypotheses-Falls_example :
    Falls 100 (rank_hypotheses findings [])
    × RankedFrom 1 (rank_hypotheses findings [])
    × All IsSound (rank_hypotheses findings [])
    × (length (rank_hypotheses findings []) ≡ 2)
rank_hypotheses-Falls_example = rank_hypotheses-Falls findings []

abbrev meta : String → Metadata
meta name = record { name = some name; namespace = some "kube-system" }

-- A node, a pod on it that a daemon set owns, and the service of the cluster DNS.
abbrev cluster : Cluster
cluster = record {
  nodes = record { name = some "n1"; namespace = none } ∷ [];
  workloads = record { metadata = meta "coredns"; kind = some "DaemonSet"; owners = [] } ∷ [];
  pods =
      record {
        metadata = meta "coredns-1";
        node_name = some "n1";
        owners = record { kind = some "DaemonSet"; name = some "coredns" } ∷ [];
        claims = [];
      }
      ∷ [];
  services = meta "kube-dns" ∷ [];
  endpoint_slices = [];
  pvc = [];
  pv = [];
  volume_attachments = [];
}

abbrev as_is : String → String
as_is s = s

pod_hosted :
    has_key
      ("node:n1", ("pod:kube-system/coredns-1", "hosts"))
      (add_kubernetes_topology as_is empty cluster).graph.edges
    ≡ true
unfolding add_kubernetes_topology object_name each if_given link place target place_missing
    note_workload note_pod note_service add_components add_node add_edge
pod_hosted = refl

-- Two nodes in a cycle, and a third behind them.
abbrev cycle : Adjacency
cycle = ("a", "b" ∷ []) ∷ ("b", "a" ∷ "c" ∷ []) ∷ []

found_from_a : reachable cycle ("a" ∷ []) 6 ≡ some ("a" ∷ "b" ∷ "c" ∷ [])
unfolding reachable
found_from_a = refl

reachable_ends_example : is_some (reachable cycle ("a" ∷ []) 6) ≡ true
reachable_ends_example = reachable_ends cycle ("a" ∷ []) 6

reachable_sound_example : Near cycle ("a" ∷ []) 6 "c"
reachable_sound_example =
    reachable_sound cycle ("a" ∷ []) 6 ("a" ∷ "b" ∷ "c" ∷ []) "c" found_from_a refl

abbrev no_time : String → Option ℕ
no_time s = none

-- The components of the cluster, and an edge from etcd to the target of a pending pod.
abbrev component_nodes : Targets
component_nodes =
    ("@component:etcd", some "a" ∷ []) ∷ ("kube-system/dns", some "c" ∷ none ∷ []) ∷ []

abbrev pending : Finding
pending = record (finding "F2" "kubernetes.pod_pending" "consequence") {
  affected = "kube-system/dns" ∷ [];
}

effects_of-IsExplained_example :
    All
      (IsExplained no_time component_nodes cycle (finding "F1" "etcd.slow" "configuration_risk"))
      (effects_of no_time component_nodes cycle
        (finding "F1" "etcd.slow" "configuration_risk")
        (pending ∷ []))
effects_of-IsExplained_example =
    effects_of-IsExplained no_time component_nodes cycle
      (finding "F1" "etcd.slow" "configuration_risk") (pending ∷ [])

pending_explained :
    length (
      effects_of no_time component_nodes cycle
        (finding "F1" "etcd.slow" "configuration_risk")
        (pending ∷ []))
    ≡ 1
unfolding effects_of
pending_explained = refl

-- Two findings about objects for which a full graph had no node.
abbrev full_targets : Targets
full_targets = ("n1", none ∷ []) ∷ ("kube-system/dns", none ∷ []) ∷ []

shared_none :
    length (
      effects_of no_time full_targets []
        (finding "F1" "node.swap_active" "configuration_risk")
        (pending ∷ []))
    ≡ 1
unfolding effects_of
shared_none = refl
