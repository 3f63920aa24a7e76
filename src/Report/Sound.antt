-- ===== src/Report/Sound.antt =====
-- What the ledger of src/kdiag/report.py says of a rule is founded in the coverage.
use k8s_check.Prelude.{
  String, true, false, ◌&&◌, not, ◌≡◌, refl, ap, ◌⊎◌, inl, inr, ◌↔◌, Option, some, List, [], ◌∷◌,
  map, arith, ◌==◌, string_eq, option_eq, if-elim, contains, nub, str_leb, sort_by, starts_with,
  All, Bool-cases, any,
}
use k8s_check.Dict.{Dict}
use k8s_check.Report.Coverage.{CoverageItem}
use k8s_check.Report.Requirements.{requirements_of}
use k8s_check.Report.Met.{
  IsMet, requirement_gaps-IsMet, unknown-differs, all_gaps-IsMet, sorted_set_empty, matched-differs,
  not_applicable-differs, not_applicable-unmatched, not_matched-differs, judged_empty,
  judged_unmatched,
}
use k8s_check.Report.Ledger.{
  requirement_gaps, all_gaps, RuleStatus, matched, unknown, not_matched, not_applicable,
  LedgerOptions, is_cgroup_rule, is_unused, status_at, evaluate_rule, LedgerEntry, ledger_entries,
  rule_ledger,
}

module _ (table : Dict String (List String)) (options : LedgerOptions)
    (found : List (Option String)) (coverage : List CoverageItem) where
  -- Why the ledger says that a rule did not match: it is about the collector itself, or what it needs was collected.
  abbrev pub Founded : String → Type 0
  Founded rule =
      (starts_with rule "collector." ≡ true)
      ⊎ (All (IsMet coverage) (requirements_of table rule)
          ⊎ ((starts_with rule "prometheus." ≡ true) × IsMet coverage "prometheus"))

  abbrev Result : Type 0
  Result = RuleStatus × List String

  record IsSound (rule : String) (r : Result) : Type 0 where
    supports : r.0 ≡ not_matched → Founded rule

  record IsUnmatched (r : Result) : Type 0 where
    differs : r.0 ≡ matched → ⊥

  not_applicable-IsSound : (rule : String) → IsSound rule (not_applicable, [])
  not_applicable-IsSound rule = record { supports = λ h. absurd (not_applicable-differs h) }

  evaluate_rule-IsSound :
      (rule : String) → IsSound rule (evaluate_rule table options found coverage rule)
  unfolding evaluate_rule
  evaluate_rule-IsSound rule =
      let reqs = requirements_of table rule in
      let unused = not_applicable-IsSound rule in
      if-elim (IsSound rule) (contains found (some rule))
        (λ _. record { supports = λ h. absurd (matched-differs h) })
        (λ _.
          if-elim (IsSound rule) (is_cgroup_rule rule)
            (λ _.
              if-elim (IsSound rule) (not options.collect_cgroup) (λ _. unused)
                (λ _. record {
                  supports = λ h. inr (
                      inl (all_gaps-IsMet coverage reqs (judged_empty (all_gaps coverage reqs) h)));
                }))
            (λ _.
              if-elim (IsSound rule) (starts_with rule "etcd." && not options.collect_etcd)
                (λ _. unused)
                (λ _.
                  if-elim (IsSound rule) (starts_with rule "prometheus.")
                    (λ prometheus.
                      if-elim (IsSound rule) (is_unused (status_at "prometheus" coverage))
                        (λ _. unused)
                        (λ _. record {
                          supports = λ h. inr (
                              inr (
                                prometheus,
                                requirement_gaps-IsMet coverage "prometheus"
                                    (judged_empty (requirement_gaps coverage "prometheus") h),
                              ));
                        }))
                    (λ _.
                      if-elim (IsSound rule) (starts_with rule "collector.")
                        (λ collector. record { supports = λ h. inl collector })
                        (λ _.
                          if-elim (IsSound rule)
                            (status_at "kubernetes" coverage == some "disabled"
                              && any (λ r. starts_with r "kubernetes/") reqs)
                            (λ _. unused)
                            (λ _. record {
                              supports = λ h. inr (
                                  inl (
                                    all_gaps-IsMet coverage reqs (
                                      sorted_set_empty (all_gaps coverage reqs) (
                                        judged_empty
                                          (sort_by str_leb (nub (all_gaps coverage reqs))) h))));
                            }))))))

  evaluate_rule-IsUnmatched :
      (rule : String)
      → contains found (some rule) ≡ false
      → IsUnmatched (evaluate_rule table options found coverage rule)
  unfolding evaluate_rule
  evaluate_rule-IsUnmatched rule absent =
      let reqs = requirements_of table rule in
      let unused : IsUnmatched (not_applicable, []) = record {
        differs = not_applicable-unmatched;
      } in
      if-elim IsUnmatched (contains found (some rule))
        (λ present. absurd (ground (arith, present, absent)))
        (λ _.
          if-elim IsUnmatched (is_cgroup_rule rule)
            (λ _.
              if-elim IsUnmatched (not options.collect_cgroup) (λ _. unused)
                (λ _. record { differs = judged_unmatched (all_gaps coverage reqs) }))
            (λ _.
              if-elim IsUnmatched (starts_with rule "etcd." && not options.collect_etcd)
                (λ _. unused)
                (λ _.
                  if-elim IsUnmatched (starts_with rule "prometheus.")
                    (λ prometheus.
                      if-elim IsUnmatched (is_unused (status_at "prometheus" coverage))
                        (λ _. unused)
                        (λ _. record {
                          differs = judged_unmatched (requirement_gaps coverage "prometheus");
                        }))
                    (λ _.
                      if-elim IsUnmatched (starts_with rule "collector.")
                        (λ collector. record { differs = not_matched-differs })
                        (λ _.
                          if-elim IsUnmatched
                            (status_at "kubernetes" coverage == some "disabled"
                              && any (λ r. starts_with r "kubernetes/") reqs)
                            (λ _. unused)
                            (λ _. record {
                              differs =
                                  judged_unmatched (sort_by str_leb (nub (all_gaps coverage reqs)));
                            }))))))

  evaluate_rule-found :
      (rule : String)
      → contains found (some rule) ≡ true
      → (evaluate_rule table options found coverage rule).0 ≡ matched
  unfolding evaluate_rule
  evaluate_rule-found rule present =
      if-elim (λ (r : Result). r.0 ≡ matched) (contains found (some rule)) (λ _. refl)
        (λ absent. cc)

  abbrev pub IsMatchedIff : LedgerEntry → Type 0
  IsMatchedIff e = (e.status ≡ matched) ↔ (contains found (some e.rule_id) ≡ true)

  abbrev pub IsFounded : LedgerEntry → Type 0
  IsFounded e = ¬ (e.status ≡ not_matched) ⊎ Founded e.rule_id

  IsSound-cases :
      (rule : String) (r : Result) → IsSound rule r → (¬ (r.0 ≡ not_matched)) ⊎ Founded rule
  IsSound-cases rule (not_matched, missing) sound = inr (sound.supports refl)
  IsSound-cases rule (matched, missing) sound = inl matched-differs
  IsSound-cases rule (unknown, missing) sound = inl unknown-differs
  IsSound-cases rule (not_applicable, missing) sound = inl not_applicable-differs

  entries-IsFounded :
      (rules : List String) → All IsFounded (ledger_entries table options found coverage rules)
  unfolding ledger_entries
  entries-IsFounded [] = tt
  entries-IsFounded (rule ∷ rules) = (
    IsSound-cases rule (evaluate_rule table options found coverage rule)
        (evaluate_rule-IsSound rule),
    entries-IsFounded rules,
  )

  entries-IsMatchedIff :
      (rules : List String) → All IsMatchedIff (ledger_entries table options found coverage rules)
  unfolding ledger_entries
  entries-IsMatchedIff [] = tt
  entries-IsMatchedIff (rule ∷ rules) = (
    elim (Bool-cases (contains found (some rule))) [
      | inl present ↦ (λ _. present, λ _. evaluate_rule-found rule present)
      | inr absent ↦ (λ h. absurd ((evaluate_rule-IsUnmatched rule absent).differs h), λ h. cc)
    ],
    entries-IsMatchedIff rules,
  )

  entries-rules :
      (rules : List String)
      → map (λ e. e.rule_id) (ledger_entries table options found coverage rules) ≡ rules
  unfolding ledger_entries
  entries-rules [] = refl
  entries-rules (rule ∷ rules) = ap (λ rest. rule ∷ rest) (entries-rules rules)

  pub ledger_IsFounded :
      (rules : List String) → All IsFounded (rule_ledger table options found coverage rules)
  unfolding rule_ledger
  ledger_IsFounded rules = entries-IsFounded (sort_by str_leb rules)

  pub ledger_rules :
      (rules : List String)
      → map (λ e. e.rule_id) (rule_ledger table options found coverage rules)
        ≡ sort_by str_leb rules
  unfolding rule_ledger
  ledger_rules rules = entries-rules (sort_by str_leb rules)

  -- The ledger has one entry for each rule of the catalogue, in order, and an entry is matched exactly if some finding
  -- names its rule.
  pub rule_ledger-IsMatchedIff :
      (rules : List String)
      → (map (λ e. e.rule_id) (rule_ledger table options found coverage rules)
          ≡ sort_by str_leb rules)
        × All IsMatchedIff (rule_ledger table options found coverage rules)
  unfolding rule_ledger
  rule_ledger-IsMatchedIff rules =
      (entries-rules (sort_by str_leb rules), entries-IsMatchedIff (sort_by str_leb rules))
