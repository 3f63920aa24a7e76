-- ===== src/Bundle/Verify.antt =====
-- `verify_manifest` and `_member_path` of src/kdiag/bundle.py. A path that is resolved stays in the directory, since a
-- name has no separator and a symbolic link is refused before.
use k8s_check.Prelude.{
  ◌+◌, ℕ, String, ◌<>◌, Bool, ◌&&◌, ◌||◌, not, Option, none, some, List, [], ◌∷◌, ◌==◌, string_eq,
  nat_eq, ltb, map, filter, contains, is_empty, join, str_leb, sort_by, Result, error, ok, and_then,
  refuse,
}
use k8s_check.Dict.{lookup}
use k8s_check.Json.{Value, pos, str, arr, obj, Fields, Items, nil, cons, get, at_value, py_eq}
use k8s_check.Bundle.Files.{
  Entry, symlink, regular, Directory, is_member_name, is_sha256, File, data_files,
}

abbrev pub max_manifest_bytes : ℕ
max_manifest_bytes = 10485760

abbrev pub item_count : Items → ℕ
item_count nil = 0
item_count (cons _ items) = item_count items + 1

abbrev pub member_fields : Value → Result Fields
member_fields (obj fs) = ok fs
member_fields v = error "invalid manifest member"

abbrev pub member_name : Option Value → Result String
member_name (some (str relative)) = ok relative
member_name v = error "invalid manifest member path"

abbrev pub expected_size : String → Option Value → Result ℕ
expected_size relative (some (pos n)) = ok n
expected_size relative v = error ("invalid size for manifest member: " <> relative)

abbrev pub expected_digest : String → Option Value → Result String
expected_digest relative (some (str digest)) =
    refuse (not (is_sha256 digest)) ("invalid SHA-256 for manifest member: " <> relative)
      (ok digest)
expected_digest relative v = error ("invalid SHA-256 for manifest member: " <> relative)

-- The content of a member that is a file of its own.
abbrev pub member_content : {C : Type 0} → String → Option (Entry C) → Result C
member_content relative (some (regular content)) = ok content
member_content relative (some symlink) =
    error ("manifest member must not be a symlink: " <> relative)
member_content relative v = error ("manifest member is missing: " <> relative)

-- `_member_path`, and the test that the path is a file.
unfoldable pub member_file : {C : Type 0} → Directory C → String → Result C
member_file dir relative = refuse (not (is_member_name relative)) "invalid manifest member path" (
    refuse (relative == "." || relative == "..") "manifest member must be a top-level file"
      (member_content relative (lookup relative dir)))

abbrev pub unexpected_files : {C : Type 0} → List String → List (File C) → List String
unexpected_files seen files = filter (λ name. not (contains seen name)) (map (λ file. file.0) files)

unfoldable pub check_unexpected : {C : Type 0} → Directory C → List String → ℕ → Result ℕ
unfolding data_files
check_unexpected dir seen count = and_then (data_files dir) (λ files.
    refuse (not (is_empty (unexpected_files seen files)))
      ("files are absent from manifest: "
        <> join ", " (sort_by str_leb (unexpected_files seen files)))
      (ok count))

abbrev pub is_supported : Fields → Bool
is_supported fs =
    at_value (λ v. py_eq v (pos 1)) (get "schema_version" fs)
    && at_value (λ v. py_eq v (str "sha256")) (get "hash_algorithm" fs)

module _ {C : Type 0} (sha : C → String) (size : C → ℕ) where
  -- The checks of one member, after those of its name.
  unfoldable pub check_member : Directory C → String → Fields → Result String
  unfolding member_file
  check_member dir relative fs = and_then (expected_size relative (get "size" fs)) (λ bytes.
      and_then (expected_digest relative (get "sha256" fs)) (λ digest.
        and_then (member_file dir relative) (λ content.
          refuse (not (size content == bytes)) ("size mismatch for manifest member: " <> relative) (
            refuse (not (sha content == digest))
              ("SHA-256 mismatch for manifest member: " <> relative) (ok relative)))))

  -- The body of the loop over the members, which gives the name of one.
  unfoldable pub verify_member : Directory C → List String → Value → Result String
  unfolding check_member
  verify_member dir seen m = and_then (member_fields m) (λ fs.
      and_then (member_name (get "path" fs)) (λ relative.
        refuse (contains seen relative) ("duplicate manifest member: " <> relative)
          (check_member dir relative fs)))

  -- The names that were seen at the end.
  unfoldable pub verify_members : Directory C → List String → Items → Result (List String)
  unfolding verify_member
  verify_members dir seen nil = ok seen
  verify_members dir seen (cons m ms) =
      and_then (verify_member dir seen m) (λ relative. verify_members dir (relative ∷ seen) ms)

  unfoldable pub verify_items : Directory C → Option Value → Result ℕ
  unfolding verify_members check_unexpected
  verify_items dir (some (arr items)) =
      and_then (verify_members dir [] items) (λ seen. check_unexpected dir seen (item_count items))
  verify_items dir v = error "invalid manifest members"

  -- The checks of the document, which is missing if the text is no JSON.
  unfoldable pub verify_document : Directory C → Option Value → Result ℕ
  unfolding verify_items
  verify_document dir (some (obj fs)) =
      refuse (not (is_supported fs)) "unsupported manifest format"
        (verify_items dir (get "members" fs))
  verify_document dir (some v) = error "manifest root must be an object"
  verify_document dir none = error "manifest is no JSON document"

  abbrev pub verify_entry : (C → Option Value) → Directory C → Option (Entry C) → Result ℕ
  verify_entry parse dir (some (regular content)) =
      refuse (ltb max_manifest_bytes (size content)) "manifest.json exceeds size limit"
        (verify_document dir (parse content))
  verify_entry parse dir v = error "manifest.json is missing or is not a regular file"

  -- `parse` is `json.load`. The result is the number of members.
  unfoldable pub verify_manifest : (C → Option Value) → Directory C → Result ℕ
  unfolding verify_document
  verify_manifest parse dir = verify_entry parse dir (lookup "manifest.json" dir)
