-- ===== src/Report/Ledger.antt =====
-- `_requirement_gaps` and `_rule_ledger` of src/kdiag/report.py: what is missing for a rule, and what the report says
-- of a rule that did not fire.
use k8s_check.Prelude.{
  ◌+◌, ℕ, String, ◌<>◌, Bool, true, false, ◌&&◌, ◌||◌, not, Option, none, some, List, [], ◌∷◌, ◌++◌,
  ◌==◌, string_eq, nat_eq, option_eq, if◌then◌else◌, contains, filter, any, is_empty, take, length,
  nub, starts_with, ends_with, has_substring, codes, or_text, str_leb, sort_by,
}
use Prim.Native.Char.{code}
use k8s_check.Dict.{Dict}
use k8s_check.Report.Coverage.{CoverageItem}
use k8s_check.Report.Requirements.{requirements_of}

-- The number of slashes, `source.count("/")`.
abbrev slashes : List ℕ → ℕ
slashes [] = 0
slashes (c ∷ cs) = (if c == 47 then 1 else 0) + slashes cs

-- `text.rsplit("/", 1)[-1]`
abbrev last_part : String → String
last_part String.[] = String.[]
last_part (String.◌∷◌ c s) =
    let rest = last_part s in
    if has_substring s "/" then rest else if code c == 47 then s else String.◌∷◌ c s

-- Whether an item of the coverage belongs to a requirement.
unfoldable pub is_match : String → CoverageItem → Bool
is_match requirement item =
    if requirement == "node"
    then starts_with item.source "node/" && slashes (codes item.source) == 1
    else if requirement == "node/pod_logs"
    then starts_with item.source "node/" && ends_with item.source "/pod_logs"
    else if starts_with requirement "node/command/"
    then starts_with item.source "node/"
      && ends_with item.source ("/command/" <> last_part requirement)
    else item.source == requirement

abbrev pub is_collected : CoverageItem → Bool
is_collected item = item.status == some "collected"

-- `"{source}:{status}"` for the items that were not collected.
abbrev pub failed_gaps : List CoverageItem → List String
failed_gaps [] = []
failed_gaps (item ∷ items) =
    let rest = failed_gaps items in
    if is_collected item
    then rest
    else (item.source <> (":" <> or_text item.status "missing")) ∷ rest

-- `next((item.get("status") for item in coverage if item.get("source") == source), None)`
abbrev pub status_at : String → List CoverageItem → Option String
status_at source [] = none
status_at source (item ∷ items) =
    if item.source == source then item.status else status_at source items

-- The status of the Kubernetes snapshot, if it explains why none of its sources is there.
abbrev unusable_parent : Option String → Bool
unusable_parent none = false
unusable_parent (some s) = not (s == "collected") && not (s == "partial")

abbrev pub absent_gap : List CoverageItem → String → String
absent_gap coverage requirement =
    if starts_with requirement "kubernetes/" && unusable_parent (status_at "kubernetes" coverage)
    then "kubernetes:" <> or_text (status_at "kubernetes" coverage) ""
    else requirement <> ":missing"

unfoldable pub requirement_gaps : List CoverageItem → String → List String
unfolding is_match
requirement_gaps coverage requirement =
    let found = filter (is_match requirement) coverage in
    if is_empty found then absent_gap coverage requirement ∷ [] else failed_gaps found

unfoldable pub all_gaps : List CoverageItem → List String → List String
unfolding requirement_gaps
all_gaps coverage [] = []
all_gaps coverage (r ∷ requirements) = requirement_gaps coverage r ++ all_gaps coverage requirements

-- "matched", "unknown", "not_matched" and "not_applicable".
pub data RuleStatus : Type 0 where
  matched unknown not_matched not_applicable : RuleStatus

-- The options with their defaults: cgroups are collected, etcd is not.
pub record LedgerOptions : Type 0 where
  pub collect_cgroup : Bool
  pub collect_etcd : Bool

abbrev pub judged : List String → RuleStatus × List String
judged missing = (if is_empty missing then not_matched else unknown, missing)

abbrev pub is_cgroup_rule : String → Bool
is_cgroup_rule rule_id = starts_with rule_id "cgroup." || rule_id == "security_agent.cgroup_denial"

abbrev pub is_unused : Option String → Bool
is_unused none = true
is_unused (some s) = s == "not_configured" || s == "disabled"

-- The status of one rule, with what is missing for it.
unfoldable pub evaluate_rule :
    Dict String (List String)
    → LedgerOptions
    → List (Option String)
    → List CoverageItem
    → String
    → RuleStatus × List String
unfolding all_gaps requirements_of
evaluate_rule table options found coverage rule_id =
    let requirements = requirements_of table rule_id in
    if contains found (some rule_id)
    then (matched, [])
    else if is_cgroup_rule rule_id
    then (if not options.collect_cgroup
        then (not_applicable, [])
        else judged (all_gaps coverage requirements))
    else if starts_with rule_id "etcd." && not options.collect_etcd
    then (not_applicable, [])
    else if starts_with rule_id "prometheus."
    then (if is_unused (status_at "prometheus" coverage)
        then (not_applicable, [])
        else judged (requirement_gaps coverage "prometheus"))
    else if starts_with rule_id "collector."
    then (not_matched, [])
    else if status_at "kubernetes" coverage == some "disabled"
        && any (λ r. starts_with r "kubernetes/") requirements
    then (not_applicable, [])
    else judged (sort_by str_leb (nub (all_gaps coverage requirements)))

pub record LedgerEntry : Type 0 where
  pub rule_id : String
  pub status : RuleStatus
  pub missing_evidence : List String
  pub missing_evidence_total : ℕ

abbrev ledger_entry : String → RuleStatus × List String → LedgerEntry
ledger_entry rule_id (status, missing) = record {
  rule_id = rule_id;
  status = status;
  missing_evidence = take 50 missing;
  missing_evidence_total = length missing;
}

-- The loop over the sorted rules of the catalogue.
unfoldable pub ledger_entries :
    Dict String (List String)
    → LedgerOptions
    → List (Option String)
    → List CoverageItem
    → List String
    → List LedgerEntry
unfolding evaluate_rule
ledger_entries table options found coverage [] = []
ledger_entries table options found coverage (rule ∷ rules) =
    ledger_entry rule (evaluate_rule table options found coverage rule)
    ∷ ledger_entries table options found coverage rules

-- The arguments are the table of requirements, the options, the rules of the findings, the coverage and the rules of
-- the catalogue.
unfoldable pub rule_ledger :
    Dict String (List String)
    → LedgerOptions
    → List (Option String)
    → List CoverageItem
    → List String
    → List LedgerEntry
unfolding ledger_entries
rule_ledger table options found coverage rules =
    ledger_entries table options found coverage (sort_by str_leb rules)
