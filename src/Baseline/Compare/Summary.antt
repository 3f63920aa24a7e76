-- ===== src/Baseline/Compare/Summary.antt =====
-- The status and the counts that `compare_profiles` of src/kdiag/baseline.py derives from the changes.
use k8s_check.Prelude.{
  none, ℕ, ◌+◌, ◌≡◌, refl, ◌↔◌, String, Bool, true, false, ◌&&◌, ◌||◌, not, Option, some, List, [],
  ◌∷◌, arith, ◌==◌, if◌then◌else◌, string_eq, nat_eq, eq_iff, length, is_empty, nub, str_leb,
  sort_by,
}
use k8s_check.Baseline.Profile.{Profile}
use k8s_check.Baseline.Approve.{Approval, Document, overridden, reasons_of}
use k8s_check.Baseline.Compare.{
  Category, new_problem, removed, added, changed, resolved, unverifiable, Change, changes_between,
}

-- `counts`, with one number for each category.
pub record Counts : Type 0 where
  pub new_problem : ℕ
  pub removed : ℕ
  pub added : ℕ
  pub changed : ℕ
  pub resolved : ℕ
  pub unverifiable : ℕ

abbrev pub no_counts : Counts
no_counts = record {
  new_problem = 0;
  removed = 0;
  added = 0;
  changed = 0;
  resolved = 0;
  unverifiable = 0;
}

-- `counts[change["category"]] += 1`
abbrev pub count_category : Category → Counts → Counts
count_category new_problem c = record c { new_problem = c.new_problem + 1 }
count_category removed c = record c { removed = c.removed + 1 }
count_category added c = record c { added = c.added + 1 }
count_category changed c = record c { changed = c.changed + 1 }
count_category resolved c = record c { resolved = c.resolved + 1 }
count_category unverifiable c = record c { unverifiable = c.unverifiable + 1 }

unfoldable pub count_changes : List Change → Counts → Counts
count_changes [] counts = counts
count_changes (c ∷ cs) counts = count_changes cs (count_category c.category counts)

abbrev status_name : Bool → Bool → String
status_name none_missing no_change =
    if not none_missing
    then "incomplete"
    else if not no_change
    then "changes_detected"
    else "no_changes"

abbrev pub comparison_status : Counts → List Change → String
comparison_status counts changes = status_name (counts.unverifiable == 0) (is_empty changes)

abbrev cons_missing : Category → Option String → List String → List String
cons_missing unverifiable (some s) rest = s ∷ rest
cons_missing category missing rest = rest

-- The sources of the unverifiable changes.
unfoldable pub missing_of : List Change → List String
missing_of [] = []
missing_of (c ∷ cs) = cons_missing c.category c.missing_source (missing_of cs)

-- What a comparison tells of its baseline.
pub record Origin : Type 0 where
  pub name : Option String
  pub source_collection_id : Option String
  pub approved_by : Option String
  pub approved_at : Option String
  pub unsafe_override : Bool
  pub override_reasons : List String
  pub profile_sha256 : Option String
  pub document_sha256 : Option String

abbrev approver_of : Option Approval → Option String
approver_of none = none
approver_of (some a) = some a.approved_by

abbrev approval_time_of : Option Approval → Option String
approval_time_of none = none
approval_time_of (some a) = some a.approved_at

abbrev pub origin_of : Document → Origin
origin_of d = record {
  name = d.name;
  source_collection_id = d.source_collection_id;
  approved_by = approver_of d.approval;
  approved_at = approval_time_of d.approval;
  unsafe_override = overridden d.approval;
  override_reasons = reasons_of d.approval;
  profile_sha256 = d.profile_sha256;
  document_sha256 = d.document_sha256;
}

pub record Comparison : Type 0 where
  pub schema_version : ℕ
  pub kind : String
  pub generated_at : String
  pub baseline : Origin
  pub collection_id : Option String
  pub status : String
  pub summary : Counts
  pub missing_sources : List String
  pub changes : List Change

-- The last argument is the value of `utc_now()`.
unfoldable pub compare_profiles : Document → Profile → Option String → String → Comparison
unfolding count_changes missing_of
compare_profiles baseline current collection_id now =
    let changes = changes_between baseline.profile current in
    let counts = count_changes changes no_counts in
    record {
      schema_version = 1;
      kind = "kdiag_baseline_comparison";
      generated_at = now;
      baseline = origin_of baseline;
      collection_id = collection_id;
      status = comparison_status counts changes;
      summary = counts;
      missing_sources = sort_by str_leb (nub (missing_of changes));
      changes = changes;
    }

abbrev pub total_of : Counts → ℕ
total_of c = c.new_problem + c.removed + c.added + c.changed + c.resolved + c.unverifiable

abbrev is_unverifiable : Category → Bool
is_unverifiable unverifiable = true
is_unverifiable category = false

-- Whether one of the changes says that a source could not be compared.
abbrev pub any_unverifiable : List Change → Bool
any_unverifiable [] = false
any_unverifiable (c ∷ cs) = is_unverifiable c.category || any_unverifiable cs

count_category-total :
    (category : Category) (counts : Counts)
    → total_of (count_category category counts) ≡ total_of counts + 1
count_category-total new_problem counts = omega arith
count_category-total removed counts = omega arith
count_category-total added counts = omega arith
count_category-total changed counts = omega arith
count_category-total resolved counts = omega arith
count_category-total unverifiable counts = omega arith

count_changes-total :
    (cs : List Change) (counts : Counts)
    → total_of (count_changes cs counts) ≡ total_of counts + length cs
unfolding count_changes
count_changes-total [] counts = omega arith
count_changes-total (c ∷ cs) counts = omega (
  arith,
  count_changes-total cs (count_category c.category counts),
  count_category-total c.category counts,
)

count_category-unverifiable :
    (category : Category) (counts : Counts)
    → (((count_category category counts).unverifiable == 0)
        ≡ (not (is_unverifiable category) && (counts.unverifiable == 0)))
count_category-unverifiable new_problem counts = refl
count_category-unverifiable removed counts = refl
count_category-unverifiable added counts = refl
count_category-unverifiable changed counts = refl
count_category-unverifiable resolved counts = refl
count_category-unverifiable unverifiable counts = ground arith

count_changes-unverifiable :
    (cs : List Change) (counts : Counts)
    → ((count_changes cs counts).unverifiable == 0)
      ≡ (not (any_unverifiable cs) && (counts.unverifiable == 0))
unfolding count_changes
count_changes-unverifiable [] counts = refl
count_changes-unverifiable (c ∷ cs) counts = ground (
  arith,
  count_changes-unverifiable cs (count_category c.category counts),
  count_category-unverifiable c.category counts,
)

status_cases :
    (u e : Bool)
    → ((status_name u e ≡ "no_changes") ↔ ((u && e) ≡ true))
      × ((status_name u e ≡ "incomplete") ↔ (u ≡ false))
status_cases true true = ground (arith, eq_iff "no_changes" "incomplete")
status_cases true false =
    ground (arith, eq_iff "changes_detected" "incomplete", eq_iff "changes_detected" "no_changes")
status_cases false e = ground (arith, eq_iff "incomplete" "no_changes")

empty_iff :
    (cs : List Change) (u : Bool)
    → u ≡ (not (any_unverifiable cs) && true)
    → ((u && is_empty cs) ≡ true) ↔ (cs ≡ [])
empty_iff [] u h = ground (arith, h)
empty_iff (c ∷ cs) u h = (λ e. absurd (ground (arith, e)), λ e. cc)

module _ (baseline : Document) (current : Profile) (collection_id : Option String)
    (now : String) where
  -- The counts of a comparison add up to the number of its changes, and its status is that there are no changes
  -- exactly if the list is empty, and that the comparison is incomplete exactly if some change is unverifiable.
  pub compare_profiles-status :
      (total_of (compare_profiles baseline current collection_id now).summary
        ≡ length (compare_profiles baseline current collection_id now).changes)
      × (((compare_profiles baseline current collection_id now).status ≡ "no_changes")
          ↔ ((compare_profiles baseline current collection_id now).changes ≡ []))
      × (((compare_profiles baseline current collection_id now).status ≡ "incomplete")
          ↔ (any_unverifiable (compare_profiles baseline current collection_id now).changes ≡ true))
  unfolding compare_profiles
  compare_profiles-status =
      let cs = changes_between baseline.profile current in
      let u = (count_changes cs no_counts).unverifiable == 0 in
      let e = is_empty cs in
      let h = count_changes-unverifiable cs no_counts in
      (
        omega (arith, count_changes-total (changes_between baseline.profile current) no_counts),
        ground (arith, status_cases u e, empty_iff cs u h),
        ground (arith, status_cases u e, h),
      )
