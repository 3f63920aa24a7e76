-- ===== src/Llm/Response.antt =====
-- `_validate_response_document` of src/kdiag/llm_export.py: the checks of an answer. The regular expression for mutating
-- commands is a parameter.
use k8s_check.Prelude.{
  ℕ, ◌+◌, String, ◌<>◌, Bool, true, false, ◌&&◌, not, Option, none, some, List, [], ◌∷◌, ◌++◌,
  if◌then◌else◌, filter, contains, string_eq, is_empty, nub, str_leb, str_of_nat, sort_by,
}
use k8s_check.Json.{Value, str, arr, obj, Fields, Items, nil, cons, get, has}

-- "validated" and "rejected". The initial "needs_manual_review" is always replaced.
pub data ResponseStatus : Type 0 where
  validated rejected : ResponseStatus

pub record Validation : Type 0 where
  pub status : ResponseStatus
  pub contract_errors : List String
  pub unknown_evidence_ids : List String
  pub mutating_commands_detected : Bool

abbrev pub response_fields : List String
response_fields =
    "claims" ∷ "missing_check_ids" ∷ "alternatives" ∷ "operator_questions" ∷ "version_scope"
    ∷ "abstain_reason" ∷ []

abbrev pub claim_fields : List String
claim_fields =
    "text" ∷ "supporting_evidence_ids" ∷ "contradicting_evidence_ids" ∷ "confidence_label" ∷ []

unfoldable pub missing_fields : String → List String → Fields → List String
missing_fields prefix [] fs = []
missing_fields prefix (key ∷ keys) fs =
    let rest = missing_fields prefix keys fs in if has key fs then rest else (prefix <> key) ∷ rest

abbrev pub is_text : Value → Bool
is_text (str s) = true
is_text v = false

unfoldable pub are_texts : Items → Bool
are_texts nil = true
are_texts (cons v items) = is_text v && are_texts items

abbrev pub text_of : Value → List String
text_of (str s) = s ∷ []
text_of v = []

unfoldable pub texts_of : Items → List String
texts_of nil = []
texts_of (cons v items) = text_of v ++ texts_of items

-- A value that is missing counts as an empty list.
abbrev pub is_text_list : Option Value → Bool
is_text_list none = true
is_text_list (some (arr items)) = are_texts items
is_text_list (some v) = false

-- `referenced.update(values)`, for a list of texts.
abbrev pub listed_ids : Option Value → List String
listed_ids (some (arr items)) = if are_texts items then texts_of items else []
listed_ids v = []

abbrev pub claim_prefix : ℕ → String
claim_prefix index = "claim " <> str_of_nat index

abbrev pub list_errors : ℕ → String → Fields → List String
list_errors index key fs =
    if is_text_list (get key fs)
    then []
    else (claim_prefix index <> (" field " <> (key <> " must be a string list"))) ∷ []

unfoldable pub claim_errors : ℕ → Value → List String
unfolding missing_fields str_of_nat are_texts
claim_errors index (obj fs) =
    missing_fields (claim_prefix index <> " missing field: ") claim_fields fs
    ++ (list_errors index "supporting_evidence_ids" fs
        ++ list_errors index "contradicting_evidence_ids" fs)
claim_errors index v = (claim_prefix index <> " must be an object") ∷ []

unfoldable pub claim_ids : Value → List String
unfolding texts_of are_texts
claim_ids (obj fs) =
    listed_ids (get "supporting_evidence_ids" fs)
    ++ listed_ids (get "contradicting_evidence_ids" fs)
claim_ids v = []

unfoldable pub claims_errors : ℕ → Items → List String
unfolding claim_errors
claims_errors index nil = []
claims_errors index (cons claim claims) =
    claim_errors index claim ++ claims_errors (index + 1) claims

unfoldable pub claims_ids : Items → List String
unfolding claim_ids
claims_ids nil = []
claims_ids (cons claim claims) = claim_ids claim ++ claims_ids claims

abbrev pub errors_of : Option Value → List String
errors_of (some (arr claims)) = claims_errors 1 claims
errors_of v = "claims must be a list" ∷ []

abbrev pub ids_of : Option Value → List String
ids_of (some (arr claims)) = claims_ids claims
ids_of v = []

-- `sorted(referenced - known_evidence)`
unfoldable pub unknown_ids : List String → List String → List String
unfolding sort_by
unknown_ids known referenced =
    sort_by str_leb (nub (filter (λ id. not (contains known id)) referenced))

abbrev pub status_of_errors : List String → ResponseStatus
status_of_errors errors = if is_empty errors then validated else rejected

-- The errors of an object, in the order in which they are found.
unfoldable pub document_errors : Fields → List String → Bool → List String
unfolding missing_fields claims_errors claims_ids unknown_ids
document_errors fs known mutating =
    (missing_fields "missing field: " response_fields fs ++ errors_of (get "claims" fs))
    ++ ((if mutating then "response contains a mutating command" ∷ [] else [])
        ++ (if is_empty (unknown_ids known (ids_of (get "claims" fs)))
            then []
            else "response references unknown evidence IDs" ∷ []))

-- The document, the known evidence, and whether the text has a mutating command.
unfoldable pub validate_response_document : Value → List String → Bool → Validation
unfolding document_errors
validate_response_document (obj fs) known mutating =
    let errors = document_errors fs known mutating in
    record {
      status = status_of_errors errors;
      contract_errors = errors;
      unknown_evidence_ids = unknown_ids known (ids_of (get "claims" fs));
      mutating_commands_detected = mutating;
    }
validate_response_document v known mutating = record {
  status = rejected;
  contract_errors = "response root is not a JSON object" ∷ [];
  unknown_evidence_ids = [];
  mutating_commands_detected = false;
}
