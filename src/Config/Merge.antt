-- ===== src/Config/Merge.antt =====
-- `_merge_known` of src/kdiag/config.py.
use k8s_check.Prelude.{
  String, ◌<>◌, Bool, true, false, Option, none, some, ◌==◌, string_eq, if◌then◌else◌, Result,
  error, ok, and_then,
}
use k8s_check.Json.{Value, obj, Fields, end, field, get}

-- `target[key] = value` for a key that is there.
unfoldable pub put : String → Value → Fields → Fields
put k v end = end
put k v (field j w fs) = let rest = put k v fs in if k == j then field j v fs else field j w rest

-- `"{0}.{1}".format(path, key) if path else key`
abbrev pub key_path : String → String → String
key_path path key = if path == "" then key else path <> ("." <> key)

abbrev pub is_obj : Value → Bool
is_obj (obj fs) = true
is_obj v = false

-- What becomes of the value under a key of the target.
abbrev pub merge_at : (Value → Result Value) → String → Option Value → Result Value
merge_at merge path none = error ("unknown configuration key: " <> path)
merge_at merge path (some old) = merge old

unfoldable mutual
  -- The first argument is the value of the override.
  pub merge_value : Value → Value → String → Result Value
  merge_value (obj os) (obj ts) path = and_then (merge_known os ts path) (λ merged. ok (obj merged))
  merge_value value old path =
      if is_obj old then error ("configuration section must be an object: " <> path) else ok value

  pub merge_known : Fields → Fields → String → Result Fields
  merge_known end target path = ok target
  merge_known (field k v override) target path =
      and_then
        (merge_at (λ old. merge_value v old (key_path path k)) (key_path path k) (get k target))
        (λ merged. merge_known override (put k merged target) path)
