-- ===== src/Normalize/Classify.antt =====
-- The category tables of src/kdiag/normalize.py and src/kdiag/npd_rules.py, `classify_message` and
-- `_severity`. A pattern is named by its category: the search itself is `re`'s.
pub mod Guards
use k8s_check.Prelude.{
  String, Bool, true, false, ◌&&◌, ◌||◌, not, Option, none, some, List, [], ◌∷◌, ◌++◌, ◌==◌,
  string_eq, option_eq, contains, ltb, if◌then◌else◌, filter, any, nub, sort_by, str_leb,
  has_substring, is_none, get_or, truthy, or_text,
}
use k8s_check.Dict.{Dict, lookup}
use k8s_check.Normalize.Event.{Severity, info, warning, critical, order}

-- The names of `CATEGORY_PATTERNS`, in order.
abbrev pub category_names : List String
category_names =
    "cgroup_access_denied" ∷ "oom_kill" ∷ "conntrack_full" ∷ "disk_full" ∷ "read_only_fs"
    ∷ "cni_unavailable" ∷ "runtime_unavailable" ∷ "api_unreachable" ∷ "address_family" ∷ "no_route"
    ∷ "connection_refused" ∷ "dns_error" ∷ "timeout" ∷ "certificate_error" ∷ "clock_error"
    ∷ "probe_failure" ∷ "image_pull" ∷ "failed_scheduling" ∷ "crash_loop" ∷ "pod_sandbox_failure"
    ∷ "volume_error" ∷ "dns_servfail" ∷ "dns_forward_loop" ∷ "dns_upstream_failure"
    ∷ "selinux_denial" ∷ "authentication_config_read_error" ∷ "ptrace_security_alert" ∷ []

-- The names of `NPD_CATEGORY_PATTERNS`, which `NPD_CATEGORIES` collects.
abbrev pub npd_category_names : List String
npd_category_names =
    "npd_task_hung" ∷ "npd_unregister_netdevice" ∷ "npd_kernel_oops" ∷ "npd_ext4_error"
    ∷ "npd_ext4_warning" ∷ "npd_io_error" ∷ "npd_xfs_shutdown" ∷ "npd_memory_read_error"
    ∷ "npd_hardware_corrected" ∷ "npd_hardware_recoverable" ∷ "npd_hardware_fatal" ∷ []

abbrev pub reason_categories : Dict String (List String)
reason_categories =
    ("unhealthy", "probe_failure" ∷ [])
    ∷ ("failedscheduling", "failed_scheduling" ∷ [])
    ∷ ("failed", [])
    ∷ ("failedcreatepodsandbox", "pod_sandbox_failure" ∷ "cni_unavailable" ∷ [])
    ∷ ("networknotready", "cni_unavailable" ∷ [])
    ∷ ("failedpull", "image_pull" ∷ [])
    ∷ ("errimagepull", "image_pull" ∷ [])
    ∷ ("imagepullbackoff", "image_pull" ∷ [])
    ∷ ("failedmount", "volume_error" ∷ [])
    ∷ ("failedattachvolume", "volume_error" ∷ [])
    ∷ ("evicted", "eviction" ∷ [])
    ∷ ("oomkilled", "oom_kill" ∷ [])
    ∷ ("crashloopbackoff", "crash_loop" ∷ [])
    ∷ ("createcontainerconfigerror", "container_config_error" ∷ [])
    ∷ ("runcontainererror", "container_start_error" ∷ [])
    ∷ ("containercannotrun", "container_start_error" ∷ [])
    ∷ []

abbrev pub category_severity : Dict String Severity
category_severity =
    ("node_not_ready", critical)
    ∷ ("kubelet_inactive", critical)
    ∷ ("runtime_unavailable", critical)
    ∷ ("cni_unavailable", critical)
    ∷ ("cgroup_access_denied", critical)
    ∷ ("oom_kill", critical)
    ∷ ("disk_pressure", critical)
    ∷ ("memory_pressure", critical)
    ∷ ("pid_pressure", critical)
    ∷ ("network_unavailable", critical)
    ∷ ("certificate_error", critical)
    ∷ ("conntrack_full", critical)
    ∷ ("read_only_fs", critical)
    ∷ ("disk_full", critical)
    ∷ ("crash_loop", warning)
    ∷ ("image_pull", warning)
    ∷ ("failed_scheduling", warning)
    ∷ ("probe_failure", warning)
    ∷ ("pod_not_ready", warning)
    ∷ ("pod_pending", warning)
    ∷ ("pod_failed", warning)
    ∷ ("pod_unknown", warning)
    ∷ ("eviction", warning)
    ∷ ("volume_error", warning)
    ∷ ("container_config_error", warning)
    ∷ ("container_start_error", warning)
    ∷ ("dns_servfail", warning)
    ∷ ("dns_forward_loop", critical)
    ∷ ("dns_upstream_failure", warning)
    ∷ ("npd_task_hung", critical)
    ∷ ("npd_unregister_netdevice", warning)
    ∷ ("npd_kernel_oops", critical)
    ∷ ("npd_ext4_error", critical)
    ∷ ("npd_ext4_warning", warning)
    ∷ ("npd_io_error", critical)
    ∷ ("npd_xfs_shutdown", critical)
    ∷ ("npd_memory_read_error", warning)
    ∷ ("npd_hardware_corrected", warning)
    ∷ ("npd_hardware_recoverable", critical)
    ∷ ("npd_hardware_fatal", critical)
    ∷ ("authentication_config_read_error", warning)
    ∷ ("ptrace_security_alert", warning)
    ∷ []

abbrev pub node_context_categories : List String
node_context_categories =
    "cgroup_access_denied" ∷ "conntrack_full" ∷ "runtime_unavailable" ∷ "api_unreachable"
    ∷ npd_category_names

abbrev pub dns_error_categories : List String
dns_error_categories = "dns_servfail" ∷ "dns_forward_loop" ∷ "dns_upstream_failure" ∷ []

-- `categories.difference_update(removed)`
abbrev pub without : List String → List String → List String
without removed cats = filter (λ c. not (contains removed c)) cats

-- A guard that drops categories unless the context allows them.
unfoldable pub unless : Bool → List String → List String → List String
unless allowed removed cats = if allowed then cats else without removed cats

-- A denied cgroup access is no sign of a read-only backing file system.
unfoldable pub exclude_read_only : List String → List String
exclude_read_only cats =
    if contains cats "cgroup_access_denied" then without ("read_only_fs" ∷ []) cats else cats

abbrev in_names : List String → Option String → Bool
in_names names source = contains names (or_text source "")

-- `search name message` is `pattern.search(message)` for the pattern of that name, `lower` is `str.lower`, and
-- `dns_component` is the search of `DNS_COMPONENT_RE`.
module _ (search : String → String → Bool) (lower : String → String)
    (dns_component : String → Bool) where
  -- `node_context`
  unfoldable pub node_context : Option String → Bool
  node_context source =
      is_none source || in_names ("journal" ∷ "systemd_state" ∷ "kubernetes_condition" ∷ []) source

  -- `kernel_context`
  unfoldable pub kernel_context : Option String → Option String → Bool
  kernel_context source component =
      let name = or_text component "" in
      is_none source
      || (or_text source "" == "journal"
          && (has_substring (lower name) "kernel"
              || contains ("journal_kernel_current" ∷ "journal_kernel_previous" ∷ []) name))

  -- `cni_context`
  unfoldable pub cni_context : Option String → Option String → Bool
  unfolding node_context
  cni_context source component =
      node_context source
      || in_names ("kubernetes_event" ∷ "kubernetes_container_state" ∷ []) source
      || has_substring (lower (or_text component "")) "cilium"

  -- The categories of the reason, of the general patterns and, in kernel context, of the NPD patterns.
  unfoldable pub matched_categories :
      String → Option String → Option String → Option String → List String
  unfolding kernel_context
  matched_categories message reason source component =
      get_or (lookup (lower (or_text reason "")) reason_categories) []
      ++ (filter (λ name. search name message) category_names
          ++ (if kernel_context source component
              then filter (λ name. search name message) npd_category_names
              else []))

  -- The guards, in the order of the source.
  unfoldable pub context_filtered : List String → Option String → Option String → List String
  unfolding kernel_context cni_context node_context
  context_filtered cats source component =
      let kernel = kernel_context source component in
      let c1 = unless (node_context source) node_context_categories cats in
      let c2 = unless kernel npd_category_names c1 in
      let c3 = unless (cni_context source component) ("cni_unavailable" ∷ []) c2 in
      let c4 =
        unless (is_none source || dns_component (or_text component "")) dns_error_categories c3 in
      let c5 =
        unless (is_none source || has_substring (lower (or_text component "")) "apiserver")
          ("authentication_config_read_error" ∷ []) c4 in
      let c6 = unless kernel ("ptrace_security_alert" ∷ []) c5 in exclude_read_only c6

  unfoldable pub classify_message :
      String → Option String → Option String → Option String → List String
  unfolding matched_categories context_filtered unless exclude_read_only
  classify_message message reason source component =
      sort_by str_leb (
        nub
          (context_filtered (matched_categories message reason source component) source component))

-- `CATEGORY_SEVERITY.get(category, default)`
unfoldable pub candidate : Severity → String → Severity
candidate default c = get_or (lookup c category_severity) default

-- The loop of `_severity`, whose `result` starts at the default.
severity_loop : Severity → Severity → List String → Severity
severity_loop default result [] = result
severity_loop default result (c ∷ cs) =
    let next = candidate default c in
    severity_loop default (if ltb (order result) (order next) then next else result) cs

unfoldable pub severity : List String → Severity → Severity
unfolding severity_loop candidate
severity cats default = severity_loop default default cats
