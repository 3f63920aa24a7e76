-- ===== src/Baseline/Stable.antt =====
-- `_stable_value` of src/kdiag/baseline.py: a JSON value without the keys that change by themselves, with its keys in
-- order and its addresses masked.
use k8s_check.Prelude.{
  String, Bool, true, ◌&&◌, not, ◌≡◌, refl, List, [], ◌∷◌, arith, if◌then◌else◌, if-elim, string_eq,
  contains, str_leb,
}
use k8s_check.Json.{
  Value, null, bool, pos, negsuc, str, arr, obj, Items, nil, cons, Fields, end, field,
}

-- `VOLATILE_KEYS`
abbrev pub volatile_keys : List String
volatile_keys =
    "uid" ∷ "resourceversion" ∷ "creationtimestamp" ∷ "deletiontimestamp"
    ∷ "deletiongraceperiodseconds" ∷ "generation" ∷ "observedgeneration" ∷ "renewtime"
    ∷ "acquiretime" ∷ "eventtime" ∷ "firsttimestamp" ∷ "lasttimestamp" ∷ "lasttransitiontime"
    ∷ "startedat" ∷ "finishedat" ∷ "starttime" ∷ "collected_at" ∷ "started_at" ∷ "ended_at" ∷ "pid"
    ∷ "mainpid" ∷ "podip" ∷ "podips" ∷ "hostip" ∷ "hostips" ∷ "clusterip" ∷ "clusterips"
    ∷ "addresses" ∷ "podcidr" ∷ "podcidrs" ∷ "containerid" ∷ "imageid" ∷ "renewTime" ∷ []

-- `str.lower`, and the substitutions of `_clean_text`.
pub record Text : Type 0 where
  pub lower : String → String
  pub clean : String → String

unfoldable pub is_volatile : Text → String → Bool
is_volatile t key = contains volatile_keys (t.lower key)

-- A field at its place in the order of the keys.
unfoldable pub insert_field : String → Value → Fields → Fields
insert_field k v end = field k v end
insert_field k v (field j w fs) =
    let rest = insert_field k v fs in
    if str_leb k j then field k v (field j w fs) else field j w rest

unfoldable mutual
  pub stable_value : Text → Value → Value
  stable_value t null = null
  stable_value t (bool b) = bool b
  stable_value t (pos n) = pos n
  stable_value t (negsuc n) = negsuc n
  stable_value t (str s) = str (t.clean s)
  stable_value t (arr xs) = arr (stable_items t xs)
  stable_value t (obj fs) = obj (stable_fields t fs)

  pub stable_items : Text → Items → Items
  stable_items t nil = nil
  stable_items t (cons x xs) = cons (stable_value t x) (stable_items t xs)

  pub stable_fields : Text → Fields → Fields
  stable_fields t end = end
  stable_fields t (field k v fs) =
      let rest = stable_fields t fs in
      let kept = insert_field k (stable_value t v) rest in if is_volatile t k then rest else kept

-- Whether no key in the value, at any depth, is volatile.
unfoldable mutual
  pub is_stable : Text → Value → Bool
  is_stable t (arr xs) = are_stable t xs
  is_stable t (obj fs) = has_stable_keys t fs
  is_stable t _ = true

  pub are_stable : Text → Items → Bool
  are_stable t nil = true
  are_stable t (cons x xs) = is_stable t x && are_stable t xs

  pub has_stable_keys : Text → Fields → Bool
  has_stable_keys t end = true
  has_stable_keys t (field k v fs) =
      not (is_volatile t k) && (is_stable t v && has_stable_keys t fs)

exchange : (a b c d e : Bool) → (a && (b && (c && (d && e)))) ≡ (c && (d && (a && (b && e))))
exchange a b c d e = ground arith

insert_field-has_stable_keys :
    (t : Text) (k : String) (v : Value) (fs : Fields)
    → has_stable_keys t (insert_field k v fs)
      ≡ (not (is_volatile t k) && (is_stable t v && has_stable_keys t fs))
unfolding insert_field has_stable_keys
insert_field-has_stable_keys t k v end = refl
insert_field-has_stable_keys t k v (field j w fs) =
    if-elim
      (λ (gs : Fields).
        has_stable_keys t gs
        ≡ (not (is_volatile t k) && (is_stable t v && has_stable_keys t (field j w fs))))
      (str_leb k j) (λ _. refl)
      (λ _. rw (insert_field-has_stable_keys t k v fs) (
        exchange (not (is_volatile t j)) (is_stable t w) (not (is_volatile t k)) (is_stable t v)
          (has_stable_keys t fs)))

mutual
  unfolding stable_value is_stable

  value-is_stable : (t : Text) (v : Value) → is_stable t (stable_value t v) ≡ true
  value-is_stable t null = refl
  value-is_stable t (bool b) = refl
  value-is_stable t (pos n) = refl
  value-is_stable t (negsuc n) = refl
  value-is_stable t (str s) = refl
  value-is_stable t (arr xs) = items-are_stable t xs
  value-is_stable t (obj fs) = fields-are_stable t fs

  items-are_stable : (t : Text) (xs : Items) → are_stable t (stable_items t xs) ≡ true
  items-are_stable t nil = refl
  items-are_stable t (cons x xs) = ground (arith, value-is_stable t x, items-are_stable t xs)

  fields-are_stable : (t : Text) (fs : Fields) → has_stable_keys t (stable_fields t fs) ≡ true
  fields-are_stable t end = refl
  fields-are_stable t (field k v fs) = ground (
    arith,
    value-is_stable t v,
    fields-are_stable t fs,
    insert_field-has_stable_keys t k (stable_value t v) (stable_fields t fs),
  )

-- What `_stable_value` keeps of a value has no volatile key at any depth.
pub stable_value-is_stable : (t : Text) (v : Value) → is_stable t (stable_value t v) ≡ true
stable_value-is_stable t v = value-is_stable t v
