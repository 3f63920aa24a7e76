-- ===== src/Baseline/Findings.antt =====
-- `_aggregate_findings` and `_material_gaps` of src/kdiag/baseline.py: the active findings of a report as objects of a
-- profile, and the gaps of its sources.
use k8s_check.Prelude.{
  ℕ, ◌+◌, String, ◌<>◌, Bool, ◌&&◌, ◌||◌, not, Option, some, List, [], ◌∷◌, ◌++◌, ◌==◌, string_eq,
  option_eq, contains, nub, ltb, if◌then◌else◌, truthy, get_or, or_text, str_leb, sort_by,
}
use k8s_check.Dict.{Dict, lookup, insert}
use k8s_check.Baseline.Profile.{Source}

-- The fields of a finding of the report that the profile reads.
pub record ReportFinding : Type 0 where
  pub finding_status : Option String
  pub rule_id : Option String
  pub severity : Option String
  pub finding_role : Option String

pub record Group : Type 0 where
  pub count : ℕ
  pub severities : List String
  pub roles : List String

-- The value of the object for a rule.
pub record Aggregate : Type 0 where
  pub rule_id : String
  pub severity : String
  pub roles : List String
  pub occurrences : ℕ

-- `SEVERITY_ORDER.get(value, -1)`, one higher.
abbrev severity_order : String → ℕ
severity_order s =
    if s == "info" then 1 else if s == "warning" then 2 else if s == "critical" then 3 else 0

-- `max(severities, key=...)`: the first of the greatest.
abbrev greatest_from : String → List String → String
greatest_from best [] = best
greatest_from best (s ∷ ss) =
    greatest_from (if ltb (severity_order best) (severity_order s) then s else best) ss

abbrev greatest : List String → String
greatest [] = "info"
greatest (s ∷ ss) = greatest_from s ss

abbrev add_text : List String → String → List String
add_text xs x = if contains xs x then xs else xs ++ x ∷ []

abbrev add_finding : ReportFinding → Group → Group
add_finding f g = record {
  count = g.count + 1;
  severities = add_text g.severities (or_text f.severity "info");
  roles = if truthy f.finding_role then add_text g.roles (get_or f.finding_role "") else g.roles;
}

abbrev no_findings : Group
no_findings = record { count = 0; severities = []; roles = [] }

unfoldable pub group_findings : List ReportFinding → Dict String Group → Dict String Group
group_findings [] grouped = grouped
group_findings (f ∷ findings) grouped =
    let rule = get_or f.rule_id "" in
    let added = insert rule (add_finding f (get_or (lookup rule grouped) no_findings)) grouped in
    group_findings findings
      (if not (f.finding_status == some "active") || not (truthy f.rule_id) then grouped else added)

abbrev rule_leb : String × Group → String × Group → Bool
rule_leb a b = str_leb a.0 b.0

abbrev to_aggregates : Dict String Group → List Aggregate
to_aggregates [] = []
to_aggregates ((rule, g) ∷ grouped) =
    record {
      rule_id = rule;
      severity = greatest g.severities;
      roles = sort_by str_leb g.roles;
      occurrences = g.count;
    }
    ∷ to_aggregates grouped

unfoldable pub aggregate_findings : List ReportFinding → List Aggregate
unfolding group_findings sort_by
aggregate_findings findings = to_aggregates (sort_by rule_leb (group_findings findings []))

-- An item of the report's coverage.
pub record Coverage : Type 0 where
  pub source : Option String
  pub status : Option String
  pub required : Bool

unfoldable pub coverage_gaps : List Coverage → List String
coverage_gaps [] = []
coverage_gaps (c ∷ cs) =
    let rest = coverage_gaps cs in
    if c.required && not (c.status == some "collected")
    then (or_text c.source "unknown" <> (":" <> or_text c.status "missing")) ∷ rest
    else rest

unfoldable pub source_gaps : Dict String Source → List String
source_gaps [] = []
source_gaps ((id, s) ∷ sources) =
    let rest = source_gaps sources in
    if s.required && not (s.status == some "collected")
    then (id <> (":" <> or_text s.status "missing")) ∷ rest
    else rest

-- `_material_gaps`
unfoldable pub material_gaps : List Coverage → Dict String Source → List String
unfolding coverage_gaps source_gaps
material_gaps coverage sources =
    sort_by str_leb (nub (coverage_gaps coverage ++ source_gaps sources))
