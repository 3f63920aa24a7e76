-- ===== src/Report/Requirements.antt =====
-- `RULE_COVERAGE_REQUIREMENTS` of src/kdiag/report.py: the sources that each rule needs.
use k8s_check.Prelude.{String, List, [], ◌∷◌, ◌++◌, string_eq, starts_with, filter, get_or}
use k8s_check.Dict.{Dict, lookup, insert}

-- `_register_rule_requirements`
unfoldable pub register_rule_requirements :
    List String → List String → Dict String (List String) → Dict String (List String)
register_rule_requirements requirements [] table = table
register_rule_requirements requirements (rule_id ∷ rule_ids) table =
    register_rule_requirements requirements rule_ids (insert rule_id requirements table)

unfoldable pub register_all :
    List (List String × List String) → Dict String (List String) → Dict String (List String)
unfolding register_rule_requirements
register_all [] table = table
register_all ((requirements, rule_ids) ∷ calls) table =
    register_all calls (register_rule_requirements requirements rule_ids table)

-- The rules of a catalogue that begin with a prefix.
abbrev rules_with : String → List String → List String
rules_with prefix rules = filter (λ rule. starts_with rule prefix) rules

-- The calls of the module that name their rules, in order.
unfoldable pub registrations : List (List String × List String)
registrations =
    (
      "node" ∷ [],
      "certificate.expiring" ∷ "certificate.kubelet_rotation_broken" ∷ "cgroup.controllers_missing"
          ∷ "dns.nameserver_limit_exceeded" ∷ "inventory.mixed_kernel" ∷ "node.kubelet_inactive"
          ∷ "node.low_root_disk" ∷ "node.runtime_inactive" ∷ "node.swap_active"
          ∷ "time.not_synchronized" ∷ [],
    )
    ∷ ("node" ∷ "node/command/df_inodes" ∷ [], "node.low_inodes" ∷ [])
    ∷ ("node" ∷ "node/command/df_blocks" ∷ [], "node.low_runtime_disk" ∷ [])
    ∷ (
      "node" ∷ "node/command/runtime_crictl_info" ∷ [],
      "cgroup.driver_mismatch" ∷ "runtime.cri_network_not_ready" ∷ "runtime.cri_not_ready" ∷ [],
    )
    ∷ (
      "node" ∷ "node/command/journal_kernel_current" ∷ [],
      "node.conntrack_full" ∷ "node.filesystem_error" ∷ "node.filesystem_warning"
          ∷ "node.hardware_error" ∷ "node.io_error" ∷ "node.kernel_oops" ∷ "node.task_hung"
          ∷ "node.unregister_netdevice" ∷ [],
    )
    ∷ (
      "node" ∷ "node/command/journal_kernel_current" ∷ "node/pod_logs" ∷ "kubernetes/pods"
          ∷ "kubernetes/logs" ∷ [],
      "node.oom_detected" ∷ [],
    )
    ∷ (
      "node" ∷ "node/command/installed_packages" ∷ "node/command/journal_services_current" ∷ [],
      "security_agent.cgroup_denial" ∷ [],
    )
    ∷ ("node" ∷ "node/command/journal_kernel_current" ∷ [], "security_agent.ptrace_alert" ∷ [])
    ∷ ("node" ∷ "node/command/journal_services_current" ∷ [], "cgroup.service_failure" ∷ [])
    ∷ ("node" ∷ "kubernetes/nodes" ∷ [], "inventory.node_set_mismatch" ∷ [])
    ∷ ("kubernetes/pods" ∷ [], "inventory.mixed_apiserver_versions" ∷ [])
    ∷ ("kubernetes/nodes" ∷ "kubernetes/pods" ∷ [], "inventory.unsupported_version_skew" ∷ [])
    ∷ (
      "kubernetes/nodes" ∷ [],
      "kubernetes.network_unavailable" ∷ "kubernetes.node_not_ready" ∷ "kubernetes.node_pressure"
          ∷ [],
    )
    ∷ (
      "kubernetes/pods" ∷ [],
      "kubernetes.container_exit_nonzero" ∷ "kubernetes.init_container_failed"
          ∷ "kubernetes.pod_evicted" ∷ "kubernetes.pod_oom_killed" ∷ "kubernetes.pod_restart_storm"
          ∷ "kubernetes.pod_waiting" ∷ [],
    )
    ∷ (
      "kubernetes/pods" ∷ "kubernetes/events" ∷ [],
      "kubernetes.image_pull_failure" ∷ "kubernetes.pod_crash_loop" ∷ [],
    )
    ∷ (
      "kubernetes/events" ∷ [],
      "kubernetes.failed_scheduling" ∷ "storage.volume_operation_failure" ∷ [],
    )
    ∷ ("kubernetes/events" ∷ "kubernetes/logs" ∷ [], "kubernetes.probe_failures" ∷ [])
    ∷ (
      "kubernetes/workloads" ∷ [],
      "kubernetes.daemonset_misscheduled" ∷ "kubernetes.deployment_rollout_failed"
          ∷ "kubernetes.job_failed" ∷ "kubernetes.statefulset_rollout_stalled"
          ∷ "kubernetes.workload_degraded" ∷ [],
    )
    ∷ (
      "kubernetes/services" ∷ "kubernetes/endpoint_slices" ∷ [],
      "kubernetes.service_no_endpoints" ∷ "kubernetes.service_no_ready_endpoints"
          ∷ "kubernetes.service_port_unresolved" ∷ [],
    )
    ∷ (
      "kubernetes/services" ∷ "kubernetes/endpoint_slices" ∷ "kubernetes/pods" ∷ [],
      "dns.kube_dns_unavailable" ∷ [],
    )
    ∷ ("node" ∷ "kubernetes/services" ∷ [], "dns.cluster_dns_mismatch" ∷ [])
    ∷ ("kubernetes/coredns_config" ∷ [], "dns.coredns_config_empty" ∷ [])
    ∷ ("kubernetes/logs" ∷ [], "dns.coredns_errors" ∷ [])
    ∷ ("kubernetes/pdb" ∷ [], "pdb.disruption_blocked" ∷ "pdb.insufficient_healthy" ∷ [])
    ∷ ("kubernetes/api_readyz" ∷ [], "controlplane.api_readyz_failed" ∷ [])
    ∷ (
      "node" ∷ "node/command/journal_services_current" ∷ "node/pod_logs" ∷ "kubernetes/logs" ∷ [],
      "controlplane.authentication_config_read_error" ∷ [],
    )
    ∷ ("kubernetes/api_services" ∷ [], "controlplane.apiservice_unavailable" ∷ [])
    ∷ ("kubernetes/nodes" ∷ "kubernetes/leases" ∷ [], "controlplane.node_lease_stale" ∷ [])
    ∷ ("kubernetes/pods" ∷ [], "controlplane.static_pod_unhealthy" ∷ [])
    ∷ ("kubernetes/pvc" ∷ [], "storage.pvc_pending" ∷ [])
    ∷ ("kubernetes/pv" ∷ [], "storage.pv_failed" ∷ [])
    ∷ ("kubernetes/pvc" ∷ "kubernetes/storage_classes" ∷ [], "storage.storage_class_missing" ∷ [])
    ∷ ("kubernetes/volume_attachments" ∷ [], "storage.volume_attachment_failed" ∷ [])
    ∷ (
      "kubernetes/pv" ∷ "kubernetes/csi_drivers" ∷ "kubernetes/csi_nodes" ∷ [],
      "storage.csi_driver_registration_gap" ∷ [],
    )
    ∷ ("kubernetes/cilium_endpoints" ∷ [], "cilium.endpoint_unhealthy" ∷ [])
    ∷ ("kubernetes/cilium_nodes" ∷ [], "cilium.node_ipam_error" ∷ [])
    ∷ (
      "kubernetes/cilium_network_policies" ∷ "kubernetes/cilium_clusterwide_network_policies" ∷ [],
      "cilium.policy_import_failed" ∷ [],
    )
    ∷ (
      "kubernetes/cilium_config" ∷ "kubernetes/pods" ∷ [],
      "cilium.kube_proxy_replacement_disabled" ∷ [],
    )
    ∷ ("node" ∷ "kubernetes/services" ∷ [], "cilium.service_frontend_missing" ∷ [])
    ∷ (
      "node" ∷ "node/pod_logs" ∷ "kubernetes/pods" ∷ "kubernetes/logs" ∷ [],
      "cilium.unhealthy" ∷ [],
    )
    ∷ ("node" ∷ "kubernetes/pods" ∷ [], "network.ipv6_disabled" ∷ [])
    ∷ (
      "node" ∷ "node/command/journal_services_current" ∷ "node/pod_logs" ∷ "kubernetes/events"
          ∷ "kubernetes/logs" ∷ [],
      "network.cni_unavailable" ∷ [],
    )
    ∷ (
      "node" ∷ "node/command/journal_services_current" ∷ "kubernetes/nodes" ∷ [],
      "correlation.node_runtime_failure" ∷ [],
    )
    ∷ (
      "node" ∷ "node/command/journal_services_current" ∷ "node/pod_logs" ∷ "kubernetes/nodes"
          ∷ "kubernetes/events" ∷ "kubernetes/logs" ∷ [],
      "correlation.node_cni_failure" ∷ [],
    )
    ∷ (
      "node" ∷ "node/command/journal_kernel_current" ∷ "node/pod_logs" ∷ "kubernetes/nodes"
          ∷ "kubernetes/pods" ∷ "kubernetes/logs" ∷ [],
      "correlation.memory_oom_failure" ∷ [],
    )
    ∷ (
      "node" ∷ "node/command/journal_services_current" ∷ "kubernetes/events" ∷ "kubernetes/logs"
          ∷ [],
      "correlation.certificate_api_failure" ∷ [],
    )
    ∷ (
      "node" ∷ "node/command/journal_kernel_current" ∷ "kubernetes/events" ∷ "kubernetes/logs" ∷ [],
      "correlation.conntrack_network_failure" ∷ [],
    )
    ∷ ("kubernetes/events" ∷ "kubernetes/logs" ∷ [], "correlation.probe_network_failure" ∷ [])
    ∷ (
      "node" ∷ "node/command/journal_kernel_current" ∷ "node/pod_logs" ∷ "kubernetes/nodes"
          ∷ "kubernetes/events" ∷ "kubernetes/logs" ∷ [],
      "correlation.storage_failure" ∷ [],
    )
    ∷ []

-- The table for the rules of a catalogue.
unfoldable pub rule_coverage_requirements : List String → Dict String (List String)
unfolding register_all registrations
rule_coverage_requirements rules =
    register_all
      (registrations
        ++ ("node" ∷ [], rules_with "etcd." rules)
          ∷ ("prometheus" ∷ [], rules_with "prometheus." rules)
          ∷ [])
      []

-- `RULE_COVERAGE_REQUIREMENTS.get(rule_id, ())`
unfoldable pub requirements_of : Dict String (List String) → String → List String
requirements_of table rule_id = get_or (lookup rule_id table) []
