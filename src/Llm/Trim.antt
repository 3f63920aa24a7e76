-- ===== src/Llm/Trim.antt =====
-- `_trim_package` of src/kdiag/llm_export.py: items are taken from the ends of the removable lists until the package
-- fits.
use k8s_check.Prelude.{
  ℕ, zero, suc, ◌+◌, String, Bool, true, false, ◌&&◌, ◌||◌, not, Option, none, some, List, [], ◌∷◌,
  ◌==◌, string_eq, ltb, if◌then◌else◌, is_empty, length, drop_last, Result, ok, refuse,
}
use k8s_check.Json.{Value, Fields}

abbrev pub max_package_bytes : ℕ
max_package_bytes = 1048576

abbrev pub removable : List String
removable =
    "unknown_fingerprints" ∷ "events" ∷ "correlations" ∷ "evidence_fragments" ∷ "metric_signals"
    ∷ "ranked_hypotheses" ∷ []

-- The lists of a package and the numbers of removed items, by key.
abbrev pub Lists : Type 0
Lists = String → List Value

abbrev pub Removed : Type 0
Removed = String → ℕ

-- A package: what is never removed, the lists, and the metadata of the truncation once they are attached.
pub record Package : Type 0 where
  pub essential : Fields
  pub lists : Lists
  pub truncation : Option (ℕ × Removed)

-- The package while it is trimmed. The metadata are the same object as the counts, so that they change with them.
pub record State : Type 0 where
  pub essential : Fields
  pub lists : Lists
  pub trimmed : Removed
  pub attached : Bool

abbrev pub at_key {ℓ} : {A : Type ℓ} → String → A → (String → A) → String → A
at_key key a f k = if k == key then a else f k

-- `package[key].pop()` and `trimmed[key] += 1`
unfoldable pub pop_item : String → State → State
pop_item key s = record s {
  lists = at_key key (drop_last (s.lists key)) s.lists;
  trimmed = at_key key (s.trimmed key + 1) s.trimmed;
}

-- The size is the length of `_incident_bytes`, the JSON text of a package in UTF-8.
module _ (size : Package → ℕ) (max_bytes : ℕ) where
  abbrev pub package_of : State → Package
  package_of s = record {
    essential = s.essential;
    lists = s.lists;
    truncation = if s.attached then some (max_bytes, s.trimmed) else none;
  }

  unfoldable pub is_too_large : State → Bool
  is_too_large s = ltb max_bytes (size (package_of s))

  -- The loop for one key. Its length is enough fuel, since each round takes an item.
  unfoldable pub trim_loop : ℕ → String → State → State
  unfolding is_too_large pop_item
  trim_loop zero key s = s
  trim_loop (suc fuel) key s =
      let rest = trim_loop fuel key (pop_item key s) in
      if is_too_large s && not (is_empty (s.lists key)) then rest else s

  unfoldable pub trim_keys : List String → State → State
  unfolding trim_loop
  trim_keys [] s = s
  trim_keys (key ∷ keys) s = trim_keys keys (trim_loop (length (s.lists key)) key s)

  -- The second part of the function: the metadata are attached and the loops are repeated.
  unfoldable pub attach_truncation : State → Result Package
  unfolding trim_keys refuse
  attach_truncation s =
      let t = trim_keys removable (record s { attached = true }) in
      refuse (is_too_large t)
        "essential LLM package and truncation metadata exceed max_package_bytes" (ok (package_of t))

  unfoldable pub trim_package : Fields → Lists → Result Package
  unfolding trim_keys attach_truncation
  trim_package essential lists =
      let s =
        trim_keys removable
          (record { essential = essential; lists = lists; trimmed = λ _. 0; attached = false }) in
      refuse (ltb max_bytes 16384 || ltb max_package_bytes max_bytes)
        "max_package_bytes must be between 16384 and 1048576"
        (refuse (is_too_large s) "essential LLM package exceeds max_package_bytes"
          (attach_truncation s))
