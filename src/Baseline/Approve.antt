-- ===== src/Baseline/Approve.antt =====
-- The approval of a baseline in src/kdiag/baseline.py: the checks of a profile and of a candidate, the approval
-- itself, and the checks of an approved baseline before a comparison. Documents that lack a field or have one of
-- another JSON type are outside the model, apart from the optional fields.
pub mod Check
use k8s_check.Prelude.{
  ℕ, String, ◌<>◌, Bool, true, false, ◌&&◌, ◌||◌, not, Option, none, some, List, [], ◌∷◌, ◌++◌,
  if◌then◌else◌, ◌==◌, string_eq, option_eq, list_eq, nat_eq, or_text, all, any, length, ltb,
  contains, is_empty, codes, join, str_leb, sort_by, Result, error, ok, and_then, refuse, is_some,
  truthy,
}
use k8s_check.Dict.{Dict}
use k8s_check.Json.{Value, null, bool, pos, negsuc, str, arr, obj, get, at_value, py_eq}
use k8s_check.Baseline.Profile.{Item, Source, Quality, Profile}

pub record Approval : Type 0 where
  pub approved_by : String
  pub approved_at : String
  pub unsafe_override : Bool
  pub override_reasons : List String

-- A candidate or an approved baseline.
pub record Document : Type 0 where
  pub schema_version : ℕ
  pub kind : String
  pub name : Option String
  pub source_collection_id : Option String
  pub hash_algorithm : Option String
  pub profile_sha256 : Option String
  pub document_sha256 : Option String
  pub profile : Profile
  pub approval : Option Approval

-- SHA-256 of the canonical JSON of a value, a profile and a document, the test `SHA256_RE.fullmatch`, and `str.strip`.
pub record Platform : Type 0 where
  pub value_hash : Value → String
  pub profile_hash : Profile → String
  pub document_hash : Document → String
  pub is_sha256 : String → Bool
  pub strip : String → String

-- `item.get("value", {}).get("severity") == "critical"`. What is no object has no `get`.
abbrev pub severity_is_critical : Value → Result Bool
severity_is_critical (obj fs) = ok (at_value (λ v. py_eq v (str "critical")) (get "severity" fs))
severity_is_critical v = error "AttributeError"

abbrev pub critical_name : Item → Result (List String)
critical_name item =
    if item.kind == "finding"
    then and_then (severity_is_critical item.value) (λ c. ok (if c then item.name ∷ [] else []))
    else ok []

unfoldable pub required_gaps : Dict String Source → List String
required_gaps [] = []
required_gaps ((source_id, source) ∷ sources) =
    let rest = required_gaps sources in
    if source.required && not (source.status == some "collected")
    then (source_id <> (":" <> or_text source.status "missing")) ∷ rest
    else rest

abbrev pub printable : String → Bool
printable author =
    not (author == "")
    && not (ltb 256 (length (codes author)))
    && not (any (λ c. ltb c 32) (codes author))

abbrev pub approval_reasons : Quality → List String
approval_reasons q =
    (if is_empty q.active_critical_findings
      then []
      else ("active critical findings: " <> join ", " q.active_critical_findings) ∷ [])
    ++ (if is_empty q.material_gaps
        then []
        else ("material collection gaps: " <> join ", " q.material_gaps) ∷ [])

abbrev pub has_blockers : Profile → Bool
has_blockers profile =
    not (is_empty profile.quality.active_critical_findings)
    || not (is_empty profile.quality.material_gaps)

abbrev pub missing_approval : Option Approval → Bool
missing_approval none = true
missing_approval (some a) = a.approved_by == "" || a.approved_at == ""

abbrev pub overridden : Option Approval → Bool
overridden none = false
overridden (some a) = a.unsafe_override

abbrev pub reasons_of : Option Approval → List String
reasons_of none = []
reasons_of (some a) = a.override_reasons

abbrev pub no_reasons : Option Approval → Bool
no_reasons none = true
no_reasons (some a) = is_empty a.override_reasons

module _ (p : Platform) where
  abbrev pub bad_digest : Option String → Bool
  bad_digest none = true
  bad_digest (some digest) = not (p.is_sha256 digest)

  -- The checks of the objects of one source, and the names of its critical findings.
  unfoldable pub validate_objects : String → List String → List Item → Result (List String)
  validate_objects source_id seen [] = ok []
  validate_objects source_id seen (item ∷ items) =
      let rest = validate_objects source_id (item.key ∷ seen) items in
      refuse (item.key == "" || contains seen item.key)
        ("invalid or duplicate baseline object key in " <> source_id)
        (refuse (not (p.is_sha256 item.sha256) || not (item.sha256 == p.value_hash item.value))
          ("baseline object SHA-256 mismatch: " <> item.key)
          (and_then (critical_name item) (λ names. and_then rest (λ more. ok (names ++ more)))))

  unfoldable pub validate_sources : Dict String Source → Result (List String)
  unfolding validate_objects
  validate_sources [] = ok []
  validate_sources ((source_id, source) ∷ sources) =
      and_then (validate_objects source_id [] source.objects)
        (λ names. and_then (validate_sources sources) (λ more. ok (names ++ more)))

  unfoldable pub validate_profile : Profile → Result Profile
  unfolding validate_sources required_gaps
  validate_profile profile = and_then (validate_sources profile.sources) (λ critical.
      refuse
        (not (sort_by str_leb profile.quality.active_critical_findings == sort_by str_leb critical))
        "baseline profile critical-finding summary mismatch"
        (refuse (not (all (contains profile.quality.material_gaps) (required_gaps profile.sources)))
          "baseline profile material-gap summary mismatch" (ok profile)))

  unfoldable pub validate_candidate : Document → Result Document
  unfolding validate_profile
  validate_candidate d =
      refuse (not (d.schema_version == 1) || not (d.kind == "kdiag_baseline_candidate"))
        "document is not a supported baseline candidate"
        (refuse (not (d.hash_algorithm == some "sha256") || bad_digest d.profile_sha256)
          "candidate has invalid profile SHA-256"
          (refuse (not (some (p.profile_hash d.profile) == d.profile_sha256))
            "candidate profile SHA-256 mismatch"
            (and_then (validate_profile d.profile) (λ _. ok d))))

  -- `_document_sha256`: the hash of the document without its own hash.
  unfoldable pub document_sha : Document → String
  document_sha d = p.document_hash (record d { document_sha256 = none })

  unfoldable pub approved : Document → String → String → Bool → Document
  unfolding document_sha join
  approved candidate author now override_unsafe =
      let unsigned = record candidate {
        kind = "kdiag_approved_baseline";
        approval = some (record {
          approved_by = author;
          approved_at = now;
          unsafe_override = override_unsafe;
          override_reasons =
              if override_unsafe then approval_reasons candidate.profile.quality else [];
        });
      } in
      record unsigned { document_sha256 = some (document_sha unsigned) }

  -- The candidate for the profile that `build_profile` gives, the name and the identifier of the collection.
  unfoldable pub create_candidate : Profile → String → Option String → Result Document
  create_candidate profile name collection_id =
      let baseline_name = p.strip name in
      refuse (not (printable baseline_name))
        "baseline name must be a non-empty printable string up to 256 characters"
        (ok (record {
          schema_version = 1;
          kind = "kdiag_baseline_candidate";
          name = some baseline_name;
          source_collection_id = collection_id;
          hash_algorithm = some "sha256";
          profile_sha256 = some (p.profile_hash profile);
          document_sha256 = none;
          profile = profile;
          approval = none;
        }))

  -- The candidate is the document that was read, and `now` the value of `utc_now()`.
  unfoldable pub approve_candidate : Document → String → String → Bool → Result Document
  unfolding validate_candidate approved join
  approve_candidate candidate approved_by now override_unsafe =
      let author = p.strip approved_by in
      refuse (not (printable author))
        "approved-by must be a non-empty printable string up to 256 characters"
        (and_then (validate_candidate candidate) (λ checked.
          refuse (not (is_empty (approval_reasons checked.profile.quality)) && not override_unsafe)
            ("baseline approval is blocked; use --override-unsafe explicitly: "
              <> join "; " (approval_reasons checked.profile.quality))
            (ok (approved checked author now override_unsafe))))

  -- The first argument tells whether the file is byte for byte the canonical text of the document.
  unfoldable pub verify_approved_baseline : Bool → Document → Result Document
  unfolding validate_profile document_sha
  verify_approved_baseline canonical d =
      refuse (not canonical) "approved baseline file is not in its canonical hashed representation"
        (refuse (not (d.schema_version == 1) || not (d.kind == "kdiag_approved_baseline"))
          "comparison requires an approved baseline"
          (refuse (not (d.hash_algorithm == some "sha256"))
            "approved baseline uses an unsupported hash algorithm"
            (refuse (bad_digest d.profile_sha256) "approved baseline has invalid profile SHA-256" (
              refuse (bad_digest d.document_sha256) "approved baseline has invalid document SHA-256"
                (refuse (not (some (p.profile_hash d.profile) == d.profile_sha256))
                  "approved baseline profile SHA-256 mismatch"
                  (and_then (validate_profile d.profile) (λ _.
                    refuse (not (some (document_sha d) == d.document_sha256))
                      "approved baseline document SHA-256 mismatch"
                      (refuse (missing_approval d.approval)
                        "approved baseline is missing approval metadata"
                        (refuse (has_blockers d.profile && not (overridden d.approval))
                          "approved baseline contains blockers without an unsafe override"
                          (refuse (overridden d.approval && no_reasons d.approval)
                            "approved baseline unsafe override has no recorded reasons"
                            (ok d)))))))))))
