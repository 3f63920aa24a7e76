-- ===== src/Causal/Finding.antt =====
-- Findings, their causal role and their lifecycle state (src/kdiag/causal.py).
pub mod Lifecycle
use k8s_check.Prelude.{
  ℕ, ◌+◌, ◌*◌, ◌≡◌, refl, String, Bool, true, false, ◌&&◌, ◌||◌, not, Option, none, some, List, [],
  ◌∷◌, map, ◌==◌, string_eq, contains, ltb, leb, any, if◌then◌else◌, starts_with, has_substring,
  truthy, or_else, or_text,
}

-- The fields of a finding that the causal analysis reads and writes.
pub record Finding : Type 0 where
  pub id : Option String
  pub rule_id : Option String
  pub severity : Option String
  pub title : Option String
  pub affected : List String
  pub evidence : List String
  pub counter_evidence : List String
  pub missing_checks : List String
  pub started_at : Option String
  pub ended_at : Option String
  pub causal_confidence : Option String
  pub evaluation_status : Option String
  pub finding_status : Option String
  pub finding_role : Option String

-- The parts of `collection` that are read: its end and its options.
pub record Collection : Type 0 where
  pub ended_at : Option String
  pub purpose : Option String
  pub incident_start : Option String
  pub incident_end : Option String

abbrev pub recent_event_minutes : ℕ
recent_event_minutes = 15

abbrev pub consequence_rule_prefixes : List String
consequence_rule_prefixes =
    "kubernetes.pod_" ∷ "kubernetes.workload_" ∷ "kubernetes.service_" ∷ "kubernetes.probe_" ∷ []

abbrev pub consequence_rules : List String
consequence_rules =
    "kubernetes.container_exit_nonzero" ∷ "kubernetes.init_container_failed"
    ∷ "kubernetes.job_failed" ∷ "kubernetes.failed_scheduling" ∷ "kubernetes.daemonset_misscheduled"
    ∷ "kubernetes.deployment_rollout_failed" ∷ "kubernetes.statefulset_rollout_stalled"
    ∷ "controlplane.apiservice_unavailable" ∷ []

abbrev pub configuration_risk_prefixes : List String
configuration_risk_prefixes = "inventory." ∷ "certificate." ∷ "collector." ∷ []

abbrev pub configuration_risk_rules : List String
configuration_risk_rules =
    "cgroup.controllers_missing" ∷ "cgroup.driver_mismatch"
    ∷ "cilium.kube_proxy_replacement_disabled" ∷ "dns.coredns_config_empty"
    ∷ "network.ipv6_disabled" ∷ "node.low_inodes" ∷ "node.low_root_disk" ∷ "node.low_runtime_disk"
    ∷ "node.swap_active" ∷ "pdb.disruption_blocked" ∷ "pdb.insufficient_healthy"
    ∷ "storage.storage_class_missing" ∷ "time.not_synchronized" ∷ []

-- `_finding_role`
unfoldable pub finding_role : String → String
finding_role rule_id =
    if contains consequence_rules rule_id || any (starts_with rule_id) consequence_rule_prefixes
    then "consequence"
    else if contains configuration_risk_rules rule_id
        || any (starts_with rule_id) configuration_risk_prefixes
    then "configuration_risk"
    else "possible_cause"

-- `_is_current_evidence`
unfoldable pub is_current_evidence : String → Bool
is_current_evidence text =
    if any (has_substring text)
      (":line-" ∷ "#events" ∷ "#logs" ∷ "#sources.events" ∷ "#sources.logs" ∷ "/logs/" ∷ [])
    then false
    else if any (has_substring text) ("journal_" ∷ "pod_logs" ∷ "normalized-events" ∷ [])
    then false
    else any (has_substring text) (
        "#facts." ∷ "#commands." ∷ "#sources." ∷ "collection.json#" ∷ "prometheus.json.gz#sources."
        ∷ "kubernetes.json.gz#sources." ∷ [])

abbrev pub earlier : Option ℕ → Option ℕ → Bool
earlier (some a) (some b) = ltb a b
earlier _ _ = false

-- `ended <= collected - timedelta(minutes=RECENT_EVENT_MINUTES)`
abbrev pub long_before : Option ℕ → Option ℕ → Bool
long_before (some ended) (some collected) = leb (ended + recent_event_minutes * 60) collected
long_before _ _ = false

-- The returns of `_finding_activity_status`, on its tests and times.
unfoldable pub activity : Bool → Bool → Option ℕ → Option ℕ → Option ℕ → Option ℕ → String
activity current incident ended start end collected =
    if current
    then "active"
    else if incident
    then (if earlier ended start
        then "resolved"
        else if earlier end ended
        then "unknown"
        else "unknown")
    else if long_before ended collected
    then "resolved"
    else "unknown"

-- The module parses times by `parse_utc_timestamp`; here that is a parameter, in seconds, with `none` for
-- the texts that it refuses by a `ValueError`.
module _ (parse_utc_timestamp : String → Option ℕ) where
  -- `_safe_time`
  unfoldable pub safe_time : Option String → Option ℕ
  safe_time none = none
  safe_time (some value) = if value == "" then none else parse_utc_timestamp value

  -- `_finding_activity_status`
  unfoldable pub finding_activity_status : Finding → Collection → String
  unfolding safe_time is_current_evidence activity
  finding_activity_status finding collection =
      activity (any is_current_evidence finding.evidence)
        (or_text collection.purpose "check" == "incident") (safe_time finding.ended_at)
        (safe_time collection.incident_start) (safe_time collection.incident_end)
        (safe_time collection.ended_at)

  -- One round of `annotate_findings`.
  unfoldable pub annotate : Collection → Finding → Finding
  unfolding finding_activity_status finding_role
  annotate collection source = record source {
    evaluation_status =
        some (or_text (or_else source.evaluation_status source.finding_status) "matched");
    finding_status = some (finding_activity_status source collection);
    finding_role = some (finding_role (or_text source.rule_id ""));
  }

  unfoldable pub annotate_findings : List Finding → Collection → List Finding
  unfolding annotate
  annotate_findings findings collection = map (annotate collection) findings
