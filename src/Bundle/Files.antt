-- ===== src/Bundle/Files.antt =====
-- The files of a collection and `build_manifest` of src/kdiag/bundle.py. The content of a file is abstract. The
-- messages leave out the name of a file that `repr` prints.
use k8s_check.Prelude.{
  ℕ, String, ◌<>◌, Bool, ◌&&◌, ◌||◌, not, List, [], ◌∷◌, ◌==◌, string_eq, nat_eq, leb,
  if◌then◌else◌, all, is_empty, codes, length, str_leb, sort_by, Result, error, ok, and_then,
  refuse,
}
use k8s_check.Dict.{Dict, insert}
use k8s_check.Json.{
  Value, null, bool, pos, negsuc, str, arr, obj, Fields, end, field, Items, nil, cons,
}

-- What a name of the directory stands for.
pub data Entry (C : Type 0) : Type 0 where
  symlink : Entry C
  regular : C → Entry C
  other : Entry C

abbrev pub Directory : Type 0 → Type 0
Directory C = Dict String (Entry C)

-- `[A-Za-z0-9_.:-]`
abbrev pub is_member_char : ℕ → Bool
is_member_char c =
    (leb 65 c && leb c 90)
    || ((leb 97 c && leb c 122) || ((leb 48 c && leb c 58) || (c == 95 || (c == 46 || c == 45))))

-- `MEMBER_RE.fullmatch`
unfoldable pub is_member_name : String → Bool
is_member_name name = not (is_empty (codes name)) && all is_member_char (codes name)

-- `[0-9a-f]`
abbrev pub is_hex_char : ℕ → Bool
is_hex_char c = (leb 48 c && leb c 57) || (leb 97 c && leb c 102)

-- `SHA256_RE.fullmatch`
unfoldable pub is_sha256 : String → Bool
is_sha256 digest = length (codes digest) == 64 && all is_hex_char (codes digest)

abbrev pub File : Type 0 → Type 0
File C = String × C

abbrev pub name_leb : {C : Type 0} → String × Entry C → String × Entry C → Bool
name_leb a b = str_leb a.0 b.0

-- The body of the loop of `_data_files`, before the rest of the files.
unfoldable pub data_file :
    {C : Type 0} → String → Entry C → Result (List (File C)) → Result (List (File C))
data_file name symlink rest = error ("collection contains a symlink: " <> name)
data_file name other rest = error ("collection contains a non-file member: " <> name)
data_file name (regular content) rest =
    refuse (not (is_member_name name)) "collection contains an unsafe file name"
      (and_then rest (λ files. ok ((name, content) ∷ files)))

unfoldable pub data_files_loop : {C : Type 0} → Directory C → Result (List (File C))
unfolding data_file
data_files_loop [] = ok []
data_files_loop ((name, entry) ∷ entries) =
    let rest = data_files_loop entries in
    if name == "manifest.json" then rest else data_file name entry rest

unfoldable pub data_files : {C : Type 0} → Directory C → Result (List (File C))
unfolding data_files_loop
data_files dir = data_files_loop (sort_by name_leb dir)

-- `sort_keys=True` of `atomic_write_json` in util.py: the fields of every object in the order of their keys.
unfoldable pub add_sorted : String → Value → Fields → Fields
add_sorted k v end = field k v end
add_sorted k v (field j w fields) =
    let rest = add_sorted k v fields in
    if str_leb k j then field k v (field j w fields) else field j w rest

unfoldable mutual
  pub sort_keys : Value → Value
  sort_keys (arr items) = arr (sort_items items)
  sort_keys (obj fields) = obj (sort_fields fields)
  sort_keys null = null
  sort_keys (bool b) = bool b
  sort_keys (pos n) = pos n
  sort_keys (negsuc n) = negsuc n
  sort_keys (str s) = str s

  pub sort_fields : Fields → Fields
  sort_fields end = end
  sort_fields (field k v fields) = add_sorted k (sort_keys v) (sort_fields fields)

  pub sort_items : Items → Items
  sort_items nil = nil
  sort_items (cons v items) = cons (sort_keys v) (sort_items items)

-- The digest and the size of a file, `sha256_file`.
module _ {C : Type 0} (sha : C → String) (size : C → ℕ) where
  unfoldable pub member : File C → Value
  member (name, content) = obj (
      field "path" (str name)
        (field "size" (pos (size content)) (field "sha256" (str (sha content)) end)))

  unfoldable pub members : List (File C) → Items
  unfolding member
  members [] = nil
  members (file ∷ files) = cons (member file) (members files)

  -- The manifest with the time of the clock.
  unfoldable pub manifest : String → List (File C) → Value
  unfolding members
  manifest now files = obj (
      field "schema_version" (pos 1) (
        field "created_at" (str now)
          (field "hash_algorithm" (str "sha256") (field "members" (arr (members files)) end))))

  unfoldable pub build_manifest : String → Directory C → Result Value
  unfolding data_files manifest
  build_manifest now dir = and_then (data_files dir) (λ files. ok (manifest now files))

  -- The directory after `write_manifest`. `atomic_write_json` sorts the keys of the manifest, and its text, which
  -- `render` gives for a value in the order of its fields, replaces what was there under the name.
  unfoldable pub write_manifest : (Value → C) → String → Directory C → Result (Directory C)
  unfolding build_manifest sort_keys add_sorted
  write_manifest render now dir =
      and_then (build_manifest now dir)
        (λ m. ok (insert "manifest.json" (regular (render (sort_keys m))) dir))
