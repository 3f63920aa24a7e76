-- ===== src/Tests/Exports.antt =====
-- Runs of the trimming of src/kdiag/llm_export.py.
use k8s_check.Prelude.{
  ◌⊎◌, ◌*◌, ℕ, ◌+◌, ◌≤◌, String, true, false, ◌≡◌, refl, Option, none, some, [], ◌∷◌, arith, length,
  contains, string_eq, Result, ok, refuse, is_ok, ok_value, ◌↔◌, sort_by,
}
use k8s_check.Json.{Value, str, end, arr, obj, field, nil, cons, get, has}
use k8s_check.Llm.Trim.{
  removable, Lists, Removed, Package, at_key, trim_package, attach_truncation, trim_keys, trim_loop,
  pop_item, is_too_large,
}
use k8s_check.Llm.Response.{
  validated, missing_fields, are_texts, texts_of, claim_errors, claim_ids, claims_errors,
  claims_ids, unknown_ids, document_errors, validate_response_document,
}
use k8s_check.Llm.Contract.{meets_contract, validate_response_document_iff}
use k8s_check.Llm.Fits.{Keeps}
use k8s_check.Llm.Bounded.{trim_package-IsBounded, trim_package-succeeds}

-- Ten thousand bytes, five thousand for each event, and twelve for the metadata.
abbrev metadata_size : Option (ℕ × Removed) → ℕ
metadata_size none = 0
metadata_size (some m) = 12

abbrev item_size : Package → ℕ
item_size p = 10000 + (length (p.lists "events") * 5000 + metadata_size p.truncation)

abbrev two_events : Lists
two_events = at_key "events" (str "first" ∷ str "second" ∷ []) (λ _. [])

abbrev trimmed_events : Result Package
trimmed_events = trim_package item_size 16384 end two_events

abbrev untrimmed : Package
untrimmed = record { essential = end; lists = two_events; truncation = none }

-- One event of two is left, and one is counted as removed.
one_event_left : (ok_value untrimmed trimmed_events).lists "events" ≡ str "first" ∷ []
unfolding trim_package attach_truncation trim_keys trim_loop pop_item is_too_large refuse
one_event_left = refl

trimmed : trimmed_events ≡ ok (ok_value untrimmed trimmed_events)
unfolding trim_package attach_truncation trim_keys trim_loop pop_item is_too_large refuse
trimmed = refl

trim_package-IsBounded_example :
    let p = ok_value untrimmed trimmed_events in
    (item_size p ≤ 16384)
    × (p.essential ≡ end)
    × (removed : Removed) × (p.truncation ≡ some (16384, removed))
    × ((k : String) → (contains removable k ≡ true) ⊎ (p.lists k ≡ two_events k))
    × ((k : String) → Keeps (two_events k) (p.lists k) (removed k))
trim_package-IsBounded_example =
    trim_package-IsBounded item_size 16384 end two_events (ok_value untrimmed trimmed_events)
      trimmed

trim_package-succeeds_example : is_ok (trim_package item_size 16384 end two_events) ≡ true
trim_package-succeeds_example =
    trim_package-succeeds item_size 16384 end two_events (omega arith) (omega arith) (omega arith)
      (omega arith)

abbrev claim : String → Value
claim id = obj (
    field "text" (str "t") (
      field "supporting_evidence_ids" (arr (cons (str id) nil))
        (field "contradicting_evidence_ids" (arr nil) (field "confidence_label" (str "low") end))))

abbrev answer : String → Value
answer id = obj (
    field "claims" (arr (cons (claim id) nil)) (
      field "missing_check_ids" (arr nil) (
        field "alternatives" (arr nil) (
          field "operator_questions" (arr nil)
            (field "version_scope" (str "") (field "abstain_reason" (str "") end))))))

-- An answer is rejected if it refers to unknown evidence.
unknown_reference :
    (validate_response_document (answer "E2") ("E1" ∷ []) false).contract_errors
    ≡ "response references unknown evidence IDs" ∷ []
unfolding validate_response_document document_errors missing_fields claims_errors claim_errors
    are_texts texts_of claims_ids claim_ids unknown_ids get has sort_by
unknown_reference = refl

validate_response_document_iff_example :
    ((validate_response_document (answer "E1") ("E1" ∷ []) false).status ≡ validated)
    ↔ (meets_contract (answer "E1") ("E1" ∷ []) false ≡ true)
validate_response_document_iff_example =
    validate_response_document_iff (answer "E1") ("E1" ∷ []) false
