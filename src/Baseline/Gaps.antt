-- ===== src/Baseline/Gaps.antt =====
-- The gaps that `build_profile` of src/kdiag/baseline.py records against those that `_validate_profile` asks for.
use k8s_check.Prelude.{
  String, true, ◌≡◌, refl, List, [], ◌∷◌, ◌++◌, arith, ==_iff, string_eq, all, contains,
  contains-append, contains-nub, contains-sort_by, nub, str_leb,
}
use k8s_check.Dict.{Dict}
use k8s_check.Baseline.Profile.{Source}
use k8s_check.Baseline.Approve.{required_gaps}
use k8s_check.Baseline.Findings.{Coverage, coverage_gaps, source_gaps, material_gaps}

source_gaps-required_gaps :
    (sources : Dict String Source) → source_gaps sources ≡ required_gaps sources
unfolding source_gaps required_gaps
source_gaps-required_gaps [] = refl
source_gaps-required_gaps ((id, s) ∷ sources) = rw (source_gaps-required_gaps sources) refl

all-contains :
    (xs zs : List String)
    → ((a : String) → contains xs a ≡ true → contains zs a ≡ true)
    → all (contains zs) xs ≡ true
all-contains [] zs h = refl
all-contains (x ∷ xs) zs h = ground (
  arith,
  h x (ground (arith, (==_iff x x).1 refl)),
  all-contains xs zs (λ a m. h a (ground (arith, m))),
)

-- The gaps that are recorded for a new profile include every gap of a required source, so that they pass the check of
-- the gaps when the profile is validated.
pub material_gaps_complete :
    (coverage : List Coverage) (sources : Dict String Source)
    → all (contains (material_gaps coverage sources)) (required_gaps sources) ≡ true
unfolding material_gaps
material_gaps_complete coverage sources = all-contains (required_gaps sources) _ (λ a m.
    rw
      (
        contains-sort_by str_leb (nub (coverage_gaps coverage ++ source_gaps sources)) a,
        contains-nub (coverage_gaps coverage ++ source_gaps sources) a,
        contains-append (coverage_gaps coverage) (source_gaps sources) a,
        source_gaps-required_gaps sources,
        m,
      )
      (ground arith))
