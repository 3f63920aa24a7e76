-- ===== src/Tests/Baselines.antt =====
-- Tests of the model of src/kdiag/baseline.py.
use k8s_check.Prelude.{
  ==_iff, Option, contains, all, not, ◌<>◌, ◌≡◌, refl, ◌↔◌, String, true, false, none, some, List,
  [], ◌∷◌, ◌==◌, string_eq, length, All, any, is_empty, ok, is_ok, sort_by, and_then, refuse,
}
use k8s_check.Baseline.Approve.{
  Approval, validate_profile, create_candidate, required_gaps, Platform, Document,
  approve_candidate, approved, verify_approved_baseline,
}
use k8s_check.Baseline.Compare.Complete.{same_entry, is_about, changes_between_complete}
use k8s_check.Dict.{lookup}
use k8s_check.Json.{Value, str, obj, field, end, py_eq, has, get}
use k8s_check.Baseline.Profile.{Item, Source, Quality, Profile}
use k8s_check.Baseline.Stable.{
  Text, is_volatile, insert_field, is_stable, stable_value, stable_value-is_stable,
}
use k8s_check.Baseline.Findings.{Coverage, ReportFinding, aggregate_findings, material_gaps}
use k8s_check.Baseline.Gaps.{material_gaps_complete}
use k8s_check.Baseline.Paths.{changed_paths}
use k8s_check.Baseline.Paths.Empty.{changed_paths_empty}
use k8s_check.Baseline.Compare.{changes_between, items_of}
use k8s_check.Baseline.Compare.Founded.{IsFounded, changes_between-IsFounded}
use k8s_check.Baseline.Compare.Summary.{
  total_of, any_unverifiable, compare_profiles, compare_profiles-status,
}
use k8s_check.Baseline.Approve.Check.{
  verify-approve, verify-approve_override, verify_approved_baseline-tampered,
}

abbrev spec : String → Value
spec version = obj (field "name" (str "n1") (field "version" (str version) end))

paths_of_spec : changed_paths (spec "1") (spec "2") "" ≡ "version" ∷ []
unfolding changed_paths py_eq sort_by has get
paths_of_spec = refl

changed_paths_empty_example :
    is_empty (changed_paths (spec "1") (spec "2") "") ≡ py_eq (spec "1") (spec "2")
changed_paths_empty_example = changed_paths_empty (spec "1") (spec "2") ""

abbrev node_item : String → String → Item
node_item name version = record {
  key = "node:" <> name;
  kind = "node";
  name = name;
  sha256 = version;
  value = spec version;
}

abbrev source : List Item → Source
source objects = record { status = some "collected"; required = true; objects = objects }

abbrev clean : Quality
clean = record { active_critical_findings = []; material_gaps = [] }

abbrev before : Profile
before = record {
  sources =
      ("kubernetes/nodes", source (node_item "n1" "1" ∷ node_item "n2" "1" ∷ []))
      ∷ ("kubernetes/pods", source [])
      ∷ [];
  quality = clean;
}

abbrev after : Profile
after = record {
  sources = ("kubernetes/nodes", source (node_item "n1" "2" ∷ [])) ∷ [];
  quality = clean;
}

changes_between-IsFounded_example : All (IsFounded before after) (changes_between before after)
changes_between-IsFounded_example = changes_between-IsFounded before after

differs :
    same_entry
      (lookup "node:n2" (items_of (lookup "kubernetes/nodes" before.sources)))
      (lookup "node:n2" (items_of (lookup "kubernetes/nodes" after.sources)))
    ≡ false
unfolding items_of
differs = refl

changes_between_complete_example :
    any (is_about "kubernetes/nodes" "node:n2") (changes_between before after) ≡ true
changes_between_complete_example =
    changes_between_complete before after "kubernetes/nodes" "node:n2" refl refl differs

three_changes : length (changes_between before after) ≡ 3
unfolding changes_between sort_by items_of
three_changes = refl

abbrev platform : Platform
platform = record {
  value_hash = λ v. "2";
  profile_hash = λ q. "p";
  document_hash = λ d. "d";
  is_sha256 = λ s. not (s == "");
  strip = λ s. s;
}

abbrev candidate : Profile → Document
candidate profile = record {
  schema_version = 1;
  kind = "kdiag_baseline_candidate";
  name = some "stable";
  source_collection_id = none;
  hash_algorithm = some "sha256";
  profile_sha256 = some "p";
  document_sha256 = none;
  profile = profile;
  approval = none;
}

compare_profiles-status_example :
    (total_of (compare_profiles (candidate before) after (some "c1") "now").summary
      ≡ length (compare_profiles (candidate before) after (some "c1") "now").changes)
    × (((compare_profiles (candidate before) after (some "c1") "now").status ≡ "no_changes")
        ↔ ((compare_profiles (candidate before) after (some "c1") "now").changes ≡ []))
    × (((compare_profiles (candidate before) after (some "c1") "now").status ≡ "incomplete") ↔ (
        any_unverifiable (compare_profiles (candidate before) after (some "c1") "now").changes
        ≡ true))
compare_profiles-status_example = compare_profiles-status (candidate before) after (some "c1") "now"

abbrev gap : Profile
gap = record {
  sources =
      ("kubernetes/pods", record { status = some "failed"; required = true; objects = [] }) ∷ [];
  quality = record { active_critical_findings = []; material_gaps = "kubernetes/pods:failed" ∷ [] };
}

approval_of_gap :
    approve_candidate platform (candidate gap) "ann" "t" true
    ≡ ok (approved platform (candidate gap) "ann" "t" true)
unfolding approve_candidate and_then refuse sort_by
approval_of_gap = refl

verify-approve_example :
    verify_approved_baseline platform true (approved platform (candidate gap) "ann" "t" true)
    ≡ ok (approved platform (candidate gap) "ann" "t" true)
verify-approve_example =
    verify-approve platform (candidate gap) (approved platform (candidate gap) "ann" "t" true) "ann"
      "t" true (λ e. refl) refl refl approval_of_gap

-- A hash that tells by whom a document was approved.
abbrev author_of : Option Approval → String
author_of none = "nobody"
author_of (some a) = a.approved_by

abbrev signing : Platform
signing = record platform { document_hash = λ d. author_of d.approval }

abbrev signed : Document
signed = approved signing (candidate gap) "ann" "t" true

signed_run : verify_approved_baseline signing true signed ≡ ok signed
unfolding verify_approved_baseline approved and_then refuse sort_by
signed_run = refl

-- The baseline with another name in the approval and the old hash.
abbrev forged : Document
forged = record (approved signing (candidate gap) "bob" "t" true) {
  document_sha256 = signed.document_sha256;
}

false-differs : false ≡ true → ⊥
false-differs h = cc

names_differ : ¬ (◌≡◌ {A = String} "bob" "ann")
names_differ h = false-differs ((==_iff "bob" "ann").1 h)

verify_approved_baseline-tampered_example :
    is_ok (verify_approved_baseline signing true forged) ≡ false
unfolding approved
verify_approved_baseline-tampered_example =
    verify_approved_baseline-tampered signing true true signed signed forged signed_run refl
      names_differ

approval_of_clean :
    approve_candidate platform (candidate after) "ann" "t" true
    ≡ ok (approved platform (candidate after) "ann" "t" true)
unfolding approve_candidate and_then refuse sort_by
approval_of_clean = refl

verify-approve_override_example :
    is_ok
      (verify_approved_baseline platform true (approved platform (candidate after) "ann" "t" true))
    ≡ false
verify-approve_override_example =
    verify-approve_override platform (candidate after)
      (approved platform (candidate after) "ann" "t" true) "ann" "t" true refl approval_of_clean

abbrev text : Text
text = record { lower = λ s. s; clean = λ s. s }

abbrev pod_value : Value
pod_value = obj (
    field "uid" (str "u1")
      (field "spec" (obj (field "podip" (str "ip") (field "app" (str "dns") end))) end))

stable_pod :
    stable_value text pod_value ≡ obj (field "spec" (obj (field "app" (str "dns") end)) end)
unfolding stable_value is_volatile insert_field
stable_pod = refl

stable_value-is_stable_example : is_stable text (stable_value text pod_value) ≡ true
stable_value-is_stable_example = stable_value-is_stable text pod_value

abbrev coverage : List Coverage
coverage = record { source = some "prometheus"; status = some "failed"; required = true } ∷ []

material_gaps_complete_example :
    all (contains (material_gaps coverage gap.sources)) (required_gaps gap.sources) ≡ true
material_gaps_complete_example = material_gaps_complete coverage gap.sources

two_gaps : material_gaps coverage gap.sources ≡ "kubernetes/pods:failed" ∷ "prometheus:failed" ∷ []
unfolding material_gaps sort_by
two_gaps = refl

-- Two findings of one rule are one object, with the greater severity.
abbrev report_finding : String → String → ReportFinding
report_finding status level = record {
  finding_status = some status;
  rule_id = some "dns.servfail";
  severity = some level;
  finding_role = none;
}

aggregated :
    aggregate_findings (
      report_finding "active" "warning"
      ∷ report_finding "resolved" "info"
      ∷ report_finding "active" "critical"
      ∷ [])
    ≡ record { rule_id = "dns.servfail"; severity = "critical"; roles = []; occurrences = 2 } ∷ []
unfolding aggregate_findings sort_by
aggregated = refl

valid_gap : validate_profile platform gap ≡ ok gap
unfolding validate_profile and_then refuse sort_by
valid_gap = refl

created_gap : create_candidate platform gap "stable" none ≡ ok (candidate gap)
unfolding create_candidate refuse
created_gap = refl
