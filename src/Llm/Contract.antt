-- ===== src/Llm/Contract.antt =====
-- `_validate_response_document` of src/kdiag/llm_export.py accepts exactly the answers that meet the contract.
use k8s_check.Prelude.{
  ℕ, ◌+◌, String, ◌<>◌, Bool, true, false, ◌&&◌, not, ◌≡◌, refl, ◌∙◌, sym, ◌↔◌, Option, none, some,
  List, [], ◌∷◌, ◌++◌, arith, if◌then◌else◌, all, filter, contains, string_eq, is_empty, length,
  length-sort_by, nub, str_leb, sort_by,
}
use k8s_check.Json.{
  Value, null, bool, pos, negsuc, str, arr, obj, Fields, Items, nil, cons, get, has,
}
use k8s_check.Llm.Response.{
  validated, response_fields, claim_fields, missing_fields, is_text, are_texts, text_of, texts_of,
  is_text_list, listed_ids, claim_errors, claim_ids, claims_errors, claims_ids, errors_of, ids_of,
  unknown_ids, status_of_errors, document_errors, validate_response_document, claim_prefix,
  list_errors,
}

-- The contract, without its messages: a value is a known reference, a list of them, a claim, the claims, an answer.
abbrev is_known : List String → Value → Bool
is_known known (str s) = contains known s
is_known known v = false

abbrev all_known : List String → Items → Bool
all_known known nil = true
all_known known (cons v items) = is_known known v && all_known known items

abbrev known_list : List String → Option Value → Bool
known_list known none = true
known_list known (some (arr items)) = all_known known items
known_list known (some v) = false

abbrev has_fields : List String → Fields → Bool
has_fields keys fs = all (λ key. has key fs) keys

abbrev claim_meets : List String → Value → Bool
claim_meets known (obj fs) =
    has_fields claim_fields fs
    && (known_list known (get "supporting_evidence_ids" fs)
        && known_list known (get "contradicting_evidence_ids" fs))
claim_meets known v = false

abbrev claims_meet : List String → Items → Bool
claims_meet known nil = true
claims_meet known (cons claim claims) = claim_meets known claim && claims_meet known claims

abbrev list_meets : List String → Option Value → Bool
list_meets known (some (arr claims)) = claims_meet known claims
list_meets known v = false

abbrev pub meets_contract : Value → List String → Bool → Bool
meets_contract (obj fs) known mutating =
    has_fields response_fields fs && (list_meets known (get "claims" fs) && not mutating)
meets_contract v known mutating = false

is_empty-append : (xs ys : List String) → is_empty (xs ++ ys) ≡ (is_empty xs && is_empty ys)
is_empty-append [] ys = refl
is_empty-append (x ∷ xs) ys = refl

all-append : (p : String → Bool) (xs ys : List String) → all p (xs ++ ys) ≡ (all p xs && all p ys)
all-append p [] ys = refl
all-append p (x ∷ xs) ys = ground (arith, all-append p xs ys)

missing_fields_empty :
    (prefix : String) (keys : List String) (fs : Fields)
    → is_empty (missing_fields prefix keys fs) ≡ has_fields keys fs
unfolding missing_fields
missing_fields_empty prefix [] fs = refl
missing_fields_empty prefix (key ∷ keys) fs = ground (arith, missing_fields_empty prefix keys fs)

is_known-text :
    (known : List String) (v : Value)
    → (is_text v && all (contains known) (text_of v)) ≡ is_known known v
is_known-text known (str s) = ground arith
is_known-text known null = refl
is_known-text known (bool _) = refl
is_known-text known (pos _) = refl
is_known-text known (negsuc _) = refl
is_known-text known (arr _) = refl
is_known-text known (obj _) = refl

all_known-texts :
    (known : List String) (items : Items)
    → (are_texts items && all (contains known) (texts_of items)) ≡ all_known known items
unfolding are_texts texts_of
all_known-texts known nil = refl
all_known-texts known (cons v items) = ground (
  arith,
  is_known-text known v,
  all_known-texts known items,
  all-append (contains known) (text_of v) (texts_of items),
)

known_list-texts :
    (known : List String) (v : Option Value)
    → (is_text_list v && all (contains known) (listed_ids v)) ≡ known_list known v
known_list-texts known none = refl
known_list-texts known (some (arr items)) = ground (arith, all_known-texts known items)
known_list-texts known (some (str _)) = refl
known_list-texts known (some null) = refl
known_list-texts known (some (bool _)) = refl
known_list-texts known (some (pos _)) = refl
known_list-texts known (some (negsuc _)) = refl
known_list-texts known (some (obj _)) = refl

list_errors_empty :
    (index : ℕ) (key : String) (fs : Fields)
    → is_empty (list_errors index key fs) ≡ is_text_list (get key fs)
list_errors_empty index key fs = ground arith

claim_meets-errors :
    (known : List String) (index : ℕ) (claim : Value)
    → (is_empty (claim_errors index claim) && all (contains known) (claim_ids claim))
      ≡ claim_meets known claim
unfolding claim_errors claim_ids
claim_meets-errors known index (obj fs) =
    let p = missing_fields_empty (claim_prefix index <> " missing field: ") claim_fields fs in
    let supporting = get "supporting_evidence_ids" fs in
    let contradicting = get "contradicting_evidence_ids" fs in
    ground (
      arith,
      p,
      is_empty-append (missing_fields (claim_prefix index <> " missing field: ") claim_fields fs) (
          list_errors index "supporting_evidence_ids" fs
          ++ list_errors index "contradicting_evidence_ids" fs),
      is_empty-append (list_errors index "supporting_evidence_ids" fs)
          (list_errors index "contradicting_evidence_ids" fs),
      list_errors_empty index "supporting_evidence_ids" fs,
      list_errors_empty index "contradicting_evidence_ids" fs,
      all-append (contains known) (listed_ids supporting) (listed_ids contradicting),
      known_list-texts known supporting,
      known_list-texts known contradicting,
    )
claim_meets-errors known index null = refl
claim_meets-errors known index (bool _) = refl
claim_meets-errors known index (pos _) = refl
claim_meets-errors known index (negsuc _) = refl
claim_meets-errors known index (str _) = refl
claim_meets-errors known index (arr _) = refl

claims_meet-errors :
    (known : List String) (index : ℕ) (claims : Items)
    → (is_empty (claims_errors index claims) && all (contains known) (claims_ids claims))
      ≡ claims_meet known claims
unfolding claims_errors claims_ids
claims_meet-errors known index nil = refl
claims_meet-errors known index (cons claim claims) = ground (
  arith,
  is_empty-append (claim_errors index claim) (claims_errors (index + 1) claims),
  all-append (contains known) (claim_ids claim) (claims_ids claims),
  claim_meets-errors known index claim,
  claims_meet-errors known (index + 1) claims,
)

list_meets-errors :
    (known : List String) (v : Option Value)
    → (is_empty (errors_of v) && all (contains known) (ids_of v)) ≡ list_meets known v
list_meets-errors known (some (arr claims)) = claims_meet-errors known 1 claims
list_meets-errors known none = refl
list_meets-errors known (some null) = refl
list_meets-errors known (some (bool _)) = refl
list_meets-errors known (some (pos _)) = refl
list_meets-errors known (some (negsuc _)) = refl
list_meets-errors known (some (str _)) = refl
list_meets-errors known (some (obj _)) = refl

is_empty-length : (xs ys : List String) → length xs ≡ length ys → is_empty xs ≡ is_empty ys
is_empty-length [] [] h = refl
is_empty-length [] (y ∷ ys) h = absurd (omega (arith, h))
is_empty-length (x ∷ xs) [] h = absurd (omega (arith, h))
is_empty-length (x ∷ xs) (y ∷ ys) h = refl

is_empty-nub : (xs : List String) → is_empty (nub xs) ≡ is_empty xs
is_empty-nub [] = refl
is_empty-nub (x ∷ []) = refl
is_empty-nub (x ∷ y ∷ xs) = ground (arith, is_empty-nub (y ∷ xs))

is_empty-filter :
    (known xs : List String)
    → is_empty (filter (λ id. not (contains known id)) xs) ≡ all (contains known) xs
is_empty-filter known [] = refl
is_empty-filter known (x ∷ xs) = ground (arith, is_empty-filter known xs)

unknown_ids_empty :
    (known ids : List String) → is_empty (unknown_ids known ids) ≡ all (contains known) ids
unfolding unknown_ids
unknown_ids_empty known ids =
    let unknown = filter (λ id. not (contains known id)) ids in
    is_empty-length (sort_by str_leb (nub unknown)) (nub unknown)
      (length-sort_by str_leb (nub unknown))
    ∙ is_empty-nub unknown
    ∙ is_empty-filter known ids

regroup : (a b c d : Bool) → (a && (b && (c && not d))) ≡ (a && ((b && c) && not d))
regroup a b c d = ground arith

joined_empty :
    (missing claims unknown : List String) (mutating : Bool)
    → is_empty (
        (missing ++ claims)
        ++ ((if mutating then "response contains a mutating command" ∷ [] else [])
            ++ (if is_empty unknown then [] else "response references unknown evidence IDs" ∷ [])))
      ≡ (is_empty missing && (is_empty claims && (is_empty unknown && not mutating)))
joined_empty (m ∷ missing) claims unknown mutating = refl
joined_empty [] (c ∷ claims) unknown mutating = refl
joined_empty [] [] unknown true = ground arith
joined_empty [] [] [] false = refl
joined_empty [] [] (u ∷ unknown) false = refl

document_errors_empty :
    (fs : Fields) (known : List String) (mutating : Bool)
    → is_empty (document_errors fs known mutating) ≡ meets_contract (obj fs) known mutating
unfolding document_errors
document_errors_empty fs known mutating =
    joined_empty (missing_fields "missing field: " response_fields fs) (errors_of (get "claims" fs))
      (unknown_ids known (ids_of (get "claims" fs))) mutating
    ∙ rw
        (
          missing_fields_empty "missing field: " response_fields fs,
          unknown_ids_empty known (ids_of (get "claims" fs)),
          sym (list_meets-errors known (get "claims" fs)),
        )
        (regroup (has_fields response_fields fs) (is_empty (errors_of (get "claims" fs)))
          (all (contains known) (ids_of (get "claims" fs))) mutating)

status-empty :
    (errors : List String) → (status_of_errors errors ≡ validated) ↔ (is_empty errors ≡ true)
status-empty [] = (λ _. refl, λ _. refl)
status-empty (e ∷ errors) = (λ h. cc, λ h. cc)

-- An answer is validated exactly if it meets the contract: it is an object with the six fields, its claims are a list of
-- objects with the four fields, the evidence that they refer to is listed as texts and is known, and the text has no
-- mutating command.
pub validate_response_document_iff :
    (document : Value) (known : List String) (mutating : Bool)
    → ((validate_response_document document known mutating).status ≡ validated)
      ↔ (meets_contract document known mutating ≡ true)
unfolding validate_response_document
validate_response_document_iff (obj fs) known mutating =
    let e = document_errors_empty fs known mutating in
    let s = status-empty (document_errors fs known mutating) in
    (λ h. sym e ∙ s.0 h, λ h. s.1 (e ∙ h))
validate_response_document_iff null known mutating = (λ h. cc, λ h. cc)
validate_response_document_iff (bool _) known mutating = (λ h. cc, λ h. cc)
validate_response_document_iff (pos _) known mutating = (λ h. cc, λ h. cc)
validate_response_document_iff (negsuc _) known mutating = (λ h. cc, λ h. cc)
validate_response_document_iff (str _) known mutating = (λ h. cc, λ h. cc)
validate_response_document_iff (arr _) known mutating = (λ h. cc, λ h. cc)
