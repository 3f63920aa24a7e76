-- ===== src/Baseline/Paths/Empty.antt =====
-- `_changed_paths` of src/kdiag/baseline.py against Python's equality.
use k8s_check.Prelude.{
  String, Bool, true, false, ◌&&◌, ◌≡◌, refl, ◌∙◌, Option, none, some, List, [], ◌∷◌, ◌++◌, arith,
  string_eq, sort_by, insert_by, is_empty, all,
}
use k8s_check.Json.{
  Value, null, bool, pos, negsuc, str, arr, obj, Fields, end, field, get, sub_keys, at_value, py_eq,
  fields_eq,
}
use k8s_check.Baseline.Paths.{
  Entry, child_path, key_leb, concat_paths, only_after, leaf_paths, at_key, changed_paths,
  field_paths,
}

module _ {ℓ} {A : Type ℓ} (p : A → Bool) where
  all-append : (xs ys : List A) → all p (xs ++ ys) ≡ (all p xs && all p ys)
  all-append [] ys = refl
  all-append (x ∷ xs) ys = ground (arith, all-append xs ys)

  all-insert_by :
      (le : A → A → Bool) (x : A) (ys : List A) → all p (insert_by le x ys) ≡ (p x && all p ys)
  unfolding insert_by
  all-insert_by le x [] = refl
  all-insert_by le x (y ∷ ys) = ground (arith, all-insert_by le x ys)

  all-sort_by : (le : A → A → Bool) (xs : List A) → all p (sort_by le xs) ≡ all p xs
  unfolding sort_by
  all-sort_by le [] = refl
  all-sort_by le (x ∷ xs) = ground (arith, all-insert_by le x (sort_by le xs), all-sort_by le xs)

abbrev no_paths : Entry → Bool
no_paths e = is_empty e.1

is_empty-append : (xs ys : List String) → is_empty (xs ++ ys) ≡ (is_empty xs && is_empty ys)
is_empty-append [] ys = refl
is_empty-append (x ∷ xs) ys = refl

is_empty-concat_paths : (es : List Entry) → is_empty (concat_paths es) ≡ all no_paths es
is_empty-concat_paths [] = refl
is_empty-concat_paths ((k, ps) ∷ es) =
    ground (arith, is_empty-append ps (concat_paths es), is_empty-concat_paths es)

is_empty-leaf_paths : (prefix : String) (same : Bool) → is_empty (leaf_paths prefix same) ≡ same
is_empty-leaf_paths prefix true = refl
is_empty-leaf_paths prefix false = refl

all-only_after :
    (prefix : String) (fs gs : Fields) → all no_paths (only_after prefix fs gs) ≡ sub_keys gs fs
unfolding sub_keys
all-only_after prefix fs end = refl
all-only_after prefix fs (field k v gs) = ground (arith, all-only_after prefix fs gs)

is_empty-at_key :
    (paths : Value → List String) (same : Value → Bool) (child : String) (o : Option Value)
    → ((w : Value) → is_empty (paths w) ≡ same w)
    → is_empty (at_key paths child o) ≡ at_value same o
is_empty-at_key paths same child none h = refl
is_empty-at_key paths same child (some w) h = h w

mutual
  unfolding changed_paths py_eq

  is_empty-changed_paths :
      (before after : Value) (prefix : String)
      → is_empty (changed_paths before after prefix) ≡ py_eq before after
  is_empty-changed_paths (obj fs) (obj gs) prefix =
      let entries = field_paths fs gs prefix ++ only_after prefix fs gs in
      is_empty-concat_paths (sort_by key_leb entries)
      ∙ all-sort_by no_paths key_leb entries
      ∙ all-append no_paths (field_paths fs gs prefix) (only_after prefix fs gs)
      ∙ (λ i. all-field_paths fs gs prefix i && all-only_after prefix fs gs i)
  is_empty-changed_paths null after prefix = is_empty-leaf_paths prefix _
  is_empty-changed_paths (bool b) after prefix = is_empty-leaf_paths prefix _
  is_empty-changed_paths (pos n) after prefix = is_empty-leaf_paths prefix _
  is_empty-changed_paths (negsuc n) after prefix = is_empty-leaf_paths prefix _
  is_empty-changed_paths (str s) after prefix = is_empty-leaf_paths prefix _
  is_empty-changed_paths (arr xs) after prefix = is_empty-leaf_paths prefix _
  is_empty-changed_paths (obj fs) null prefix = refl
  is_empty-changed_paths (obj fs) (bool b) prefix = refl
  is_empty-changed_paths (obj fs) (pos n) prefix = refl
  is_empty-changed_paths (obj fs) (negsuc n) prefix = refl
  is_empty-changed_paths (obj fs) (str s) prefix = refl
  is_empty-changed_paths (obj fs) (arr xs) prefix = refl

  all-field_paths :
      (fs gs : Fields) (prefix : String) → all no_paths (field_paths fs gs prefix) ≡ fields_eq fs gs
  all-field_paths end gs prefix = refl
  all-field_paths (field k v fs) gs prefix = ground (
    arith,
    all-field_paths fs gs prefix,
    is_empty-at_key (λ w. changed_paths v w (child_path prefix k)) (py_eq v) (child_path prefix k)
        (get k gs) (λ w. is_empty-changed_paths v w (child_path prefix k)),
  )

-- No path is reported as changed exactly if the two values are equal.
pub changed_paths_empty :
    (before after : Value) (prefix : String)
    → is_empty (changed_paths before after prefix) ≡ py_eq before after
changed_paths_empty before after prefix = is_empty-changed_paths before after prefix
