-- ===== src/Bundle/RoundTrip.antt =====
-- `write_manifest` of src/kdiag/bundle.py, followed by `verify_manifest`.
use k8s_check.Prelude.{
  ℕ, ◌≤◌, String, true, false, not, ◌≡◌, refl, ◌∙◌, sym, inl, Option, some, List, [], ◌∷◌, ◌==◌,
  string_eq, nat_eq, option_eq, ltb, contains, is_empty, length, sort_by, sort_by-All, All-sort_by,
  All, arith, ok, ok-injective, and_then-ok, and_then-pass, refuse-pass,
}
use mathlib.Core.Path.{subst}
use k8s_check.Dict.{lookup, insert, has_key, NodupKeys, lookup-insert}
use k8s_check.Json.{Value, get, py_eq}
use k8s_check.Bundle.Files.{
  regular, Directory, is_sha256, File, data_files_loop, data_files, name_leb, members, manifest,
  build_manifest, write_manifest, sort_keys, sort_fields, sort_items, add_sorted,
}
use k8s_check.Bundle.Verify.{
  verify_members, unexpected_files, check_unexpected, verify_items, verify_document,
  verify_manifest, max_manifest_bytes,
}
use k8s_check.Bundle.Intact.{Accepted, data_files_loop-Accepted}
use k8s_check.Bundle.Listing.{
  file_names, has_key-sort_by, sort_by-NodupKeys, Found, all-Found, data_files_loop-total,
}
use k8s_check.Bundle.Written.{
  none_unexpected, data_files_loop-Present, all-Pending, All-insert, verify_members-Present,
  item_count-members,
}

module _ {C : Type 0} (sha : C → String) (size : C → ℕ) where
  abbrev manifest_written : C → Directory C → Directory C
  manifest_written content dir = insert "manifest.json" (regular content) dir

  check_unexpected-written :
      (dir : Directory C) (content : C) (files : List (File C)) (names : List String)
      → data_files dir ≡ ok files
      → ((a : String) → contains (file_names files) a ≡ true → contains names a ≡ true)
      → (n : ℕ) → check_unexpected (manifest_written content dir) names n ≡ ok n
  unfolding check_unexpected data_files
  check_unexpected-written dir content files names h known n =
      let accepted =
        sort_by-All name_leb (Accepted files) dir
          (data_files_loop-Accepted (sort_by name_leb dir) files h) in
      let after =
        All-insert (Accepted files) "manifest.json" (regular content) dir (λ f. inl refl)
          accepted in
      let (listed, is, among) =
        data_files_loop-total files (sort_by name_leb (manifest_written content dir))
          (All-sort_by name_leb (Accepted files) (manifest_written content dir) after) in
      and_then-pass (data_files_loop (sort_by name_leb (manifest_written content dir))) _ listed
        (ok n) is
        (refuse-pass (not (is_empty (unexpected_files names listed))) _ (ok n) (ok n)
          (ground (
            arith,
            none_unexpected names (file_names listed) (all_known (file_names listed) among),
          ))
          refl)
    where
      all_known :
          (xs : List String)
          → All (λ name. contains (file_names files) name ≡ true) xs
          → All (λ name. contains names name ≡ true) xs
      all_known [] all' = tt
      all_known (x ∷ xs) (a, as') = (known x a, all_known xs as')

  build_manifest-files :
      (now : String) (dir : Directory C) (v : Value)
      → build_manifest sha size now dir ≡ ok v
      → (files : List (File C)) × (data_files dir ≡ ok files) × (manifest sha size now files ≡ v)
  unfolding build_manifest
  build_manifest-files now dir v built =
      let (files, listed, h) =
        and_then-ok (data_files dir) (λ files. ok (manifest sha size now files)) v built in
      (files, listed, ok-injective (manifest sha size now files) v h)

  verify-written :
      (parse : C → Option Value) (now : String) (dir : Directory C) (files : List (File C))
      (content : C)
      → data_files dir ≡ ok files
      → NodupKeys dir
      → has_key "." dir ≡ false
      → has_key ".." dir ≡ false
      → ((content : C) → is_sha256 (sha content) ≡ true)
      → parse content ≡ some (sort_keys (manifest sha size now files))
      → size content ≤ max_manifest_bytes
      → verify_manifest sha size parse (manifest_written content dir) ≡ ok (length files)
  unfolding verify_manifest verify_document verify_items manifest sort_keys sort_fields sort_items
      add_sorted get py_eq data_files
  verify-written parse now dir files content listed u dot dots hex read small =
      let dir' = manifest_written content dir in
      let there : lookup "manifest.json" dir' ≡ some (regular content) =
        lookup-insert "manifest.json" "manifest.json" (regular content) dir in
      let same : (name : String)
          → (name == "manifest.json") ≡ false
          → lookup name dir' ≡ lookup name dir =
        λ name differs.
          ground (arith, lookup-insert name "manifest.json" (regular content) dir, differs) in
      let found = All-sort_by name_leb (Found dir) dir (all-Found dir u) in
      let present =
        data_files_loop-Present dir' (sort_by name_leb dir) [] files listed
          (sort_by-NodupKeys dir u)
          (all-Pending dir dir' (sort_by name_leb dir) same (has_key-sort_by "." dir ∙ dot)
            (has_key-sort_by ".." dir ∙ dots) found) in
      let (names, seen, known) = verify_members-Present sha size hex dir' files [] present in
      rw (there, read)
        (refuse-pass (ltb max_manifest_bytes (size content)) "manifest.json exceeds size limit" _ _
          (ground (arith, small))
          (refuse-pass _ "unsupported manifest format" _ _ refl (
            and_then-pass (verify_members sha size dir' [] (sort_items (members sha size files))) _
              names _ seen
              (rw (item_count-members sha size files)
                (check_unexpected-written dir content files names listed known (length files))))))

  -- A directory in which a manifest was written passes the verification, and the result is the number of its files. The
  -- names of a directory are distinct and none is "." or "..", a digest is 64 hexadecimal digits, the text of the
  -- manifest with sorted keys is read back as this value, and it is not larger than 10 MiB.
  pub verify-write_manifest :
      (parse : C → Option Value) (render : Value → C) (now : String) (dir written : Directory C)
      → write_manifest sha size render now dir ≡ ok written
      → NodupKeys dir
      → has_key "." dir ≡ false
      → has_key ".." dir ≡ false
      → ((content : C) → is_sha256 (sha content) ≡ true)
      → ((v : Value)
          → build_manifest sha size now dir ≡ ok v
          → parse (render (sort_keys v)) ≡ some (sort_keys v))
      → ((v : Value)
          → build_manifest sha size now dir ≡ ok v
          → size (render (sort_keys v)) ≤ max_manifest_bytes)
      → (files : List (File C)) × (data_files dir ≡ ok files)
        × (verify_manifest sha size parse written ≡ ok (length files))
  unfolding write_manifest
  verify-write_manifest parse render now dir written h u dot dots hex read small =
      let (v, built, h1) =
        and_then-ok (build_manifest sha size now dir)
          (λ m. ok (manifest_written (render (sort_keys m)) dir)) written h in
      let (files, listed, h2) = build_manifest-files now dir v built in
      let same : manifest_written (render (sort_keys v)) dir ≡ written =
        ok-injective (manifest_written (render (sort_keys v)) dir) written h1 in
      (
        files,
        listed,
        rw (sym same, sym h2)
            (verify-written parse now dir files (render (sort_keys (manifest sha size now files)))
              listed u dot dots hex
              (subst (λ m. parse (render (sort_keys m)) ≡ some (sort_keys m)) (sym h2)
                (read v built))
              (subst (λ m. size (render (sort_keys m)) ≤ max_manifest_bytes) (sym h2)
                (small v built))),
      )
