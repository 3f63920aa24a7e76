-- ===== src/Tests/Reports.antt =====
-- Runs of the ledger of src/kdiag/report.py.
use k8s_check.Prelude.{
  String, true, false, ◌≡◌, refl, none, some, List, [], ◌∷◌, map, All, str_leb, sort_by, string_eq,
  filter, is_empty,
}
use k8s_check.Dict.{Dict, keys}
use k8s_check.Report.Catalog.{rule_catalog}
use k8s_check.Report.Coverage.{CoverageItem, plain_item}
use k8s_check.Report.Requirements.{
  rule_coverage_requirements, requirements_of, register_all, register_rule_requirements,
  registrations,
}
use k8s_check.Report.Ledger.{
  is_match, requirement_gaps, all_gaps, LedgerOptions, RuleStatus, matched, unknown, not_matched,
  not_applicable, evaluate_rule, ledger_entries, rule_ledger,
}
use k8s_check.Report.Evidence.{
  catalogue_rules, catalogue_table, IsSupported, rule_ledger-IsSupported,
}
use k8s_check.Report.Sound.{IsMatchedIff, rule_ledger-IsMatchedIff}

abbrev standard : LedgerOptions
standard = record { collect_cgroup = true; collect_etcd = false }

abbrev partly : List CoverageItem
partly =
    plain_item "node/a" (some "collected") none true
    ∷ plain_item "node/b" (some "failed") none true
    ∷ plain_item "kubernetes" (some "collected") none true
    ∷ plain_item "kubernetes/pods" (some "collected") none true
    ∷ []

abbrev some_rules : List String
some_rules =
    "kubernetes.pod_waiting" ∷ "node.swap_active" ∷ "etcd.database_near_quota"
    ∷ "kubernetes.pod_evicted" ∷ []

abbrev table : Dict String (List String)
table = rule_coverage_requirements (keys rule_catalog)

ledger_run :
    map {B = String × RuleStatus × List String}
      (λ e. (e.rule_id, e.status, e.missing_evidence))
      (rule_ledger table standard (some "kubernetes.pod_evicted" ∷ []) partly some_rules)
    ≡ ("etcd.database_near_quota", not_applicable, [])
      ∷ ("kubernetes.pod_evicted", matched, [])
      ∷ ("kubernetes.pod_waiting", not_matched, [])
      ∷ ("node.swap_active", unknown, "node/b:failed" ∷ [])
      ∷ []
unfolding rule_ledger ledger_entries evaluate_rule all_gaps requirement_gaps is_match
    requirements_of rule_coverage_requirements register_all register_rule_requirements registrations
    rule_catalog sort_by
ledger_run = refl

-- The rules of the catalogue that need no source are those about the collector.
catalogue_covered :
    filter (λ rule. is_empty (requirements_of table rule)) (keys rule_catalog)
    ≡ "collector.node_gap" ∷ "collector.evidence_gap" ∷ "collector.normalization_truncated"
      ∷ "collector.boot_changed" ∷ "collector.etcd_evidence_gap" ∷ []
unfolding requirements_of rule_coverage_requirements register_all register_rule_requirements
    registrations rule_catalog
catalogue_covered = refl

rule_ledger-IsSupported_example :
    All (IsSupported standard (some "kubernetes.pod_evicted" ∷ []) partly) (
      rule_ledger catalogue_table standard
        (some "kubernetes.pod_evicted" ∷ [])
        partly
        catalogue_rules)
rule_ledger-IsSupported_example =
    rule_ledger-IsSupported standard (some "kubernetes.pod_evicted" ∷ []) partly

rule_ledger-IsMatchedIff_example :
    (map
        (λ e. e.rule_id)
        (rule_ledger table standard (some "kubernetes.pod_evicted" ∷ []) partly some_rules)
      ≡ sort_by str_leb some_rules)
    × All
        (IsMatchedIff table standard (some "kubernetes.pod_evicted" ∷ []) partly)
        (rule_ledger table standard (some "kubernetes.pod_evicted" ∷ []) partly some_rules)
rule_ledger-IsMatchedIff_example =
    rule_ledger-IsMatchedIff table standard (some "kubernetes.pod_evicted" ∷ []) partly some_rules
