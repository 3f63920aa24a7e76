-- ===== src/Baseline/Paths.antt =====
-- `_changed_paths` of src/kdiag/baseline.py: the paths at which two JSON values differ. The entries for the keys
-- are computed along the fields and then put in the order of the sorted keys.
pub mod Empty
use k8s_check.Prelude.{
  String, ◌<>◌, Bool, true, false, not, Option, none, some, List, [], ◌∷◌, ◌++◌, if◌then◌else◌,
  ◌==◌, string_eq, str_leb, sort_by,
}
use k8s_check.Json.{
  Value, null, bool, pos, negsuc, str, arr, obj, Items, nil, cons, Fields, end, field, get, has,
  py_eq,
}

-- `"{0}.{1}".format(prefix, key) if prefix else str(key)`
abbrev pub child_path : String → String → String
child_path prefix key = if prefix == "" then key else prefix <> ("." <> key)

-- The paths of the differences under one key.
abbrev pub Entry : Type 0
Entry = String × List String

abbrev pub key_leb : Entry → Entry → Bool
key_leb a b = str_leb a.0 b.0

abbrev pub concat_paths : List Entry → List String
concat_paths [] = []
concat_paths ((_, paths) ∷ entries) = paths ++ concat_paths entries

-- The keys that only the second object has.
abbrev pub only_after : String → Fields → Fields → List Entry
only_after prefix fs end = []
only_after prefix fs (field k v gs) =
    let rest = only_after prefix fs gs in
    if has k fs then rest else (k, child_path prefix k ∷ []) ∷ rest

-- `[prefix or "value"]` for values that differ.
abbrev pub leaf_paths : String → Bool → List String
leaf_paths prefix true = []
leaf_paths prefix false = (if prefix == "" then "value" else prefix) ∷ []

abbrev pub at_key : (Value → List String) → String → Option Value → List String
at_key paths child none = child ∷ []
at_key paths child (some w) = paths w

unfoldable mutual
  pub changed_paths : Value → Value → String → List String
  changed_paths (obj fs) (obj gs) prefix =
      concat_paths (sort_by key_leb (field_paths fs gs prefix ++ only_after prefix fs gs))
  changed_paths before after prefix = leaf_paths prefix (py_eq before after)

  -- The keys that the first object has.
  pub field_paths : Fields → Fields → String → List Entry
  field_paths end gs prefix = []
  field_paths (field k v fs) gs prefix =
      (k, at_key (λ w. changed_paths v w (child_path prefix k)) (child_path prefix k) (get k gs))
      ∷ field_paths fs gs prefix
