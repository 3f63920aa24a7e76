-- ===== src/Report/Evidence.antt =====
-- What the ledger of src/kdiag/report.py says of the rules of the catalogue without a match, with the table of what a
-- rule needs.
use k8s_check.Prelude.{
  starts_with, String, Bool, true, false, ◌||◌, not, ◌≡◌, refl, sym, ◌⊎◌, inl, inr, Option, List,
  [], ◌∷◌, string_eq, nat_eq, option_eq, map, all, is_empty, str_leb, All-sort_by, All, arith,
  Bool-cases,
}
use mathlib.Core.Path.{subst}
use k8s_check.Dict.{Dict, keys}
use k8s_check.Report.Catalog.{rule_catalog}
use k8s_check.Report.Coverage.{CoverageItem}
use k8s_check.Report.Requirements.{
  requirements_of, rule_coverage_requirements, register_all, register_rule_requirements,
  registrations,
}
use k8s_check.Report.Met.{IsMet}
use k8s_check.Report.Sound.{Founded, IsFounded, ledger_IsFounded, ledger_rules}
use k8s_check.Report.Ledger.{not_matched, LedgerOptions, LedgerEntry, rule_ledger}

-- `RULE_CATALOG.keys()` and `RULE_COVERAGE_REQUIREMENTS`.
abbrev pub catalogue_rules : List String
catalogue_rules = keys rule_catalog

abbrev pub catalogue_table : Dict String (List String)
catalogue_table = rule_coverage_requirements catalogue_rules

abbrev has_needs : String → Bool
has_needs rule =
    starts_with rule "collector." || not (is_empty (requirements_of catalogue_table rule))

-- The table lists something for each rule of the catalogue that is not about the collector.
all_have_needs : all has_needs catalogue_rules ≡ true
unfolding requirements_of rule_coverage_requirements register_all register_rule_requirements
    registrations rule_catalog
all_have_needs = refl

all-All : (p : String → Bool) (xs : List String) → all p xs ≡ true → All (λ x. p x ≡ true) xs
all-All p [] h = tt
all-All p (x ∷ xs) h = (ground (arith, h), all-All p xs (ground (arith, h)))

module _ (options : LedgerOptions) (found : List (Option String))
    (coverage : List CoverageItem) where
  -- The evidence for a rule that did not match.
  abbrev pub HasEvidence : String → Type 0
  HasEvidence rule =
      (starts_with rule "collector." ≡ true)
      ⊎ (((is_empty (requirements_of catalogue_table rule) ≡ false)
            × All (IsMet coverage) (requirements_of catalogue_table rule))
          ⊎ ((starts_with rule "prometheus." ≡ true) × IsMet coverage "prometheus"))

  abbrev pub IsSupported : LedgerEntry → Type 0
  IsSupported e = ¬ (e.status ≡ not_matched) ⊎ HasEvidence e.rule_id

  Founded-HasEvidence :
      (rule : String)
      → has_needs rule ≡ true
      → Founded catalogue_table options found coverage rule
      → HasEvidence rule
  Founded-HasEvidence rule needs (inl collector) = inl collector
  Founded-HasEvidence rule needs (inr (inr prometheus)) = inr (inr prometheus)
  Founded-HasEvidence rule needs (inr (inl met)) =
      elim (Bool-cases (starts_with rule "collector.")) [
        | inl collector ↦ inl collector
        | inr other ↦ inr (inl (ground (arith, needs, other), met))
      ]

  entries-IsSupported :
      (entries : List LedgerEntry)
      → All (λ rule. has_needs rule ≡ true) (map (λ e. e.rule_id) entries)
      → All (IsFounded catalogue_table options found coverage) entries
      → All IsSupported entries
  entries-IsSupported [] needs founded = tt
  entries-IsSupported (e ∷ entries) (n, needs) (f, founded) = (
    elim f [ inl other ↦ inl other | inr why ↦ inr (Founded-HasEvidence e.rule_id n why) ],
    entries-IsSupported entries needs founded,
  )

  -- A rule of the catalogue of which the ledger says that it did not match is about the collector, or the table lists
  -- at least one source for it and each that it lists has an item in the coverage, all of whose items were collected,
  -- or it is about Prometheus and this holds for the source "prometheus".
  pub rule_ledger-IsSupported :
      All IsSupported (rule_ledger catalogue_table options found coverage catalogue_rules)
  rule_ledger-IsSupported =
      let entries = rule_ledger catalogue_table options found coverage catalogue_rules in
      entries-IsSupported entries
        (subst (All (λ rule. has_needs rule ≡ true))
          (sym (ledger_rules catalogue_table options found coverage catalogue_rules))
          (All-sort_by str_leb (λ rule. has_needs rule ≡ true) catalogue_rules
            (all-All has_needs catalogue_rules all_have_needs)))
        (ledger_IsFounded catalogue_table options found coverage catalogue_rules)
