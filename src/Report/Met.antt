-- ===== src/Report/Met.antt =====
-- When the sources that a rule of src/kdiag/report.py needs were collected.
use k8s_check.Prelude.{
  String, true, false, ◌&&◌, ◌≡◌, refl, ◌∙◌, sym, List, [], ◌∷◌, ◌++◌, arith, ==_iff, string_eq,
  option_eq, contains, contains-nub, contains-sort_by, filter, all, is_empty, nub, str_leb, sort_by,
  All,
}
use k8s_check.Report.Coverage.{CoverageItem}
use k8s_check.Report.Ledger.{
  is_match, is_collected, failed_gaps, requirement_gaps, all_gaps, matched, unknown, not_matched,
  not_applicable, judged,
}

-- A requirement is met: some item of the coverage belongs to it, and each that does was collected.
abbrev pub IsMet : List CoverageItem → String → Type 0
IsMet coverage requirement =
    (is_empty (filter (is_match requirement) coverage) ≡ false)
    × (all is_collected (filter (is_match requirement) coverage) ≡ true)

failed_gaps_empty :
    (items : List CoverageItem) → is_empty (failed_gaps items) ≡ all is_collected items
failed_gaps_empty [] = refl
failed_gaps_empty (item ∷ items) = ground (arith, failed_gaps_empty items)

pub requirement_gaps-IsMet :
    (coverage : List CoverageItem) (r : String)
    → is_empty (requirement_gaps coverage r) ≡ true
    → IsMet coverage r
unfolding requirement_gaps
requirement_gaps-IsMet coverage r h =
    ground (arith, h, failed_gaps_empty (filter (is_match r) coverage))

is_empty-append : (xs ys : List String) → is_empty (xs ++ ys) ≡ (is_empty xs && is_empty ys)
is_empty-append [] ys = refl
is_empty-append (x ∷ xs) ys = refl

pub all_gaps-IsMet :
    (coverage : List CoverageItem) (rs : List String)
    → is_empty (all_gaps coverage rs) ≡ true
    → All (IsMet coverage) rs
unfolding all_gaps
all_gaps-IsMet coverage [] h = tt
all_gaps-IsMet coverage (r ∷ rs) h =
    let e = is_empty-append (requirement_gaps coverage r) (all_gaps coverage rs) in
    (
      requirement_gaps-IsMet coverage r (ground (arith, h, e)),
      all_gaps-IsMet coverage rs (ground (arith, h, e)),
    )

empty_iff : (xs : List String) → ((a : String) → contains xs a ≡ false) → is_empty xs ≡ true
empty_iff [] h = refl
empty_iff (x ∷ xs) h = absurd (ground (arith, h x, (==_iff x x).1 refl))

none-contained : (xs : List String) (a : String) → is_empty xs ≡ true → contains xs a ≡ false
none-contained [] a h = refl
none-contained (x ∷ xs) a h = cc

-- A sorted set is empty only if the list is.
pub sorted_set_empty :
    (xs : List String) → is_empty (sort_by str_leb (nub xs)) ≡ true → is_empty xs ≡ true
sorted_set_empty xs h = empty_iff xs (λ a.
    sym (contains-sort_by str_leb (nub xs) a ∙ contains-nub xs a)
    ∙ none-contained (sort_by str_leb (nub xs)) a h)

pub matched-differs : matched ≡ not_matched → ⊥
matched-differs h = cc

pub unknown-differs : unknown ≡ not_matched → ⊥
unknown-differs h = cc

pub not_applicable-differs : not_applicable ≡ not_matched → ⊥
not_applicable-differs h = cc

pub not_applicable-unmatched : not_applicable ≡ matched → ⊥
not_applicable-unmatched h = cc

pub not_matched-differs : not_matched ≡ matched → ⊥
not_matched-differs h = cc

pub judged_empty :
    (missing : List String) → (judged missing).0 ≡ not_matched → is_empty missing ≡ true
judged_empty [] h = refl
judged_empty (x ∷ xs) h = cc

pub judged_unmatched : (missing : List String) → (judged missing).0 ≡ matched → ⊥
judged_unmatched [] h = cc
judged_unmatched (x ∷ xs) h = cc
