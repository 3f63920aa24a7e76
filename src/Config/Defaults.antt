-- ===== src/Config/Defaults.antt =====
-- `DEFAULT_CONFIG` of src/kdiag/config.py.
use k8s_check.Prelude.{true, some}
use k8s_check.Json.{null, bool, pos, str, arr, nil, cons, end, field}
use k8s_check.Config.Validate.{Config}

abbrev pub default_config : Config
default_config = record {
  schema_version = some (pos 1);
  analysis =
      field "purpose" (str "check") (field "incident_start" null (field "incident_end" null end));
  collection = field "since_hours" (pos 24) (
      field "parallelism" (pos 2) (
        field "command_timeout_seconds" (pos 30) (
          field "max_command_bytes" (pos 1048576) (
            field "max_node_bundle_bytes" (pos 33554432) (
              field "central_reserve_bytes" (pos 1073741824) (
                field "pod_log_tail_bytes" (pos 65536) (
                  field "pod_log_total_bytes" (pos 8388608) (
                    field "pod_log_max_files" (pos 200) (
                      field "collect_etcd" (bool true)
                        (field "collect_cgroup" (bool true) end))))))))));
  ssh = field "connect_timeout_seconds" (pos 10) (
      field "remote_python" (str "/usr/bin/python3.8")
        (field "user" null (field "port" (pos 22) end)));
  kubernetes = field "enabled" (bool true) (
      field "kubeconfig" null (
        field "context" null (
          field "command_timeout_seconds" (pos 30) (
            field "max_wire_bytes" (pos 67108864) (
              field "max_bundle_bytes" (pos 134217728) (
                field "system_namespaces"
                  (arr (
                    cons (str "d8-cni-cilium")
                      (cons (str "d8-kube-dns") (cons (str "kube-system") nil))))
                  (field "application_namespaces" (arr nil) (
                    field "collect_system_logs" (bool true) (
                      field "log_tail_lines" (pos 200) (
                        field "max_log_pods" (pos 100)
                          (field "max_log_bytes" (pos 33554432) end)))))))))));
  prometheus = field "url" null (
      field "username" null (
        field "password" null
          (field "timeout_seconds" (pos 3) (field "max_response_bytes" (pos 1048576) end))));
}
