-- ===== src/Bundle/Integrity.antt =====
-- `verify_manifest` of src/kdiag/bundle.py accepts only a directory with the files that its manifest states.
use k8s_check.Prelude.{
  ℕ, String, ◌<>◌, true, false, not, ◌≡◌, refl, ◌∙◌, sym, inl, inr, Option, none, some, List, [],
  ◌==◌, ==_iff, string_eq, nat_eq, option_eq, ltb, map, is_empty, join, str_leb, sort_by, arith,
  Bool-cases, Option-cases, Result, ok, ok-injective, and_then-ok, refuse, refuse-ok,
}
use k8s_check.Dict.{lookup}
use k8s_check.Json.{Value, null, bool, pos, negsuc, str, arr, obj, Fields, Items, get}
use k8s_check.Bundle.Files.{
  Entry, symlink, regular, other, Directory, is_member_name, File, data_files,
}
use k8s_check.Bundle.Verify.{
  verify_members, check_unexpected, unexpected_files, verify_items, verify_document, verify_entry,
  verify_manifest, item_count, is_supported, max_manifest_bytes,
}
use k8s_check.Bundle.Intact.{Lists, data_files-Accepted}
use k8s_check.Bundle.Guarantee.{filter_empty, verify_members-Lists, verify_members-IsFile}

module _ {C : Type 0} (sha : C → String) (size : C → ℕ) (parse : C → Option Value) where
  -- The directory has a manifest, and these are its members.
  pub record HasManifest (dir : Directory C) (items : Items) : Type 0 where
    pub content : C
    pub fields : Fields
    pub is_there : lookup "manifest.json" dir ≡ some (regular content)
    pub is_read : parse content ≡ some (obj fields)
    pub has_members : get "members" fields ≡ some (arr items)

  record Accepts (dir : Directory C) (v : Option Value) (n : ℕ) : Type 0 where
    items : Items
    seen : List String
    is_members : v ≡ some (arr items)
    is_count : item_count items ≡ n
    are_seen : verify_members sha size dir [] items ≡ ok seen
    none_left : check_unexpected dir seen (item_count items) ≡ ok n

  check_unexpected-count :
      (dir : Directory C) (seen : List String) (count n : ℕ)
      → check_unexpected dir seen count ≡ ok n
      → (count ≡ n)
        × (files : List (File C)) × (data_files dir ≡ ok files)
        × (is_empty (unexpected_files seen files) ≡ true)
  unfolding check_unexpected
  check_unexpected-count dir seen count n h =
      let rest : List (File C) → Result ℕ = λ files.
        refuse (not (is_empty (unexpected_files seen files)))
          ("files are absent from manifest: "
            <> join ", " (sort_by str_leb (unexpected_files seen files)))
          (ok count) in
      let (files, listed, h1) = and_then-ok (data_files dir) rest n h in
      let r =
        refuse-ok (not (is_empty (unexpected_files seen files)))
          ("files are absent from manifest: "
            <> join ", " (sort_by str_leb (unexpected_files seen files)))
          (ok count) n h1 in
      (ok-injective count n r.1, files, listed, ground (arith, r.0))

  verify_items-Accepts :
      (dir : Directory C) (v : Option Value) (n : ℕ)
      → verify_items sha size dir v ≡ ok n
      → Accepts dir v n
  unfolding verify_items
  verify_items-Accepts dir (some (arr items)) n h =
      let (seen, seen_ok, h1) =
        and_then-ok (verify_members sha size dir [] items)
          (λ seen. check_unexpected dir seen (item_count items)) n h in
      record {
        items = items;
        seen = seen;
        is_members = refl;
        is_count = (check_unexpected-count dir seen (item_count items) n h1).0;
        are_seen = seen_ok;
        none_left = h1;
      }
  verify_items-Accepts dir none n h = cc
  verify_items-Accepts dir (some null) n h = cc
  verify_items-Accepts dir (some (bool _)) n h = cc
  verify_items-Accepts dir (some (pos _)) n h = cc
  verify_items-Accepts dir (some (negsuc _)) n h = cc
  verify_items-Accepts dir (some (str _)) n h = cc
  verify_items-Accepts dir (some (obj _)) n h = cc

  verify_document-ok :
      (dir : Directory C) (v : Option Value) (n : ℕ)
      → verify_document sha size dir v ≡ ok n
      → (fs : Fields) × (v ≡ some (obj fs)) × Accepts dir (get "members" fs) n
  unfolding verify_document
  verify_document-ok dir (some (obj fs)) n h =
      let r =
        refuse-ok (not (is_supported fs)) "unsupported manifest format"
          (verify_items sha size dir (get "members" fs)) n h in
      (fs, refl, verify_items-Accepts dir (get "members" fs) n r.1)
  verify_document-ok dir none n h = cc
  verify_document-ok dir (some null) n h = cc
  verify_document-ok dir (some (bool _)) n h = cc
  verify_document-ok dir (some (pos _)) n h = cc
  verify_document-ok dir (some (negsuc _)) n h = cc
  verify_document-ok dir (some (str _)) n h = cc
  verify_document-ok dir (some (arr _)) n h = cc

  verify_entry-ok :
      (dir : Directory C) (e : Option (Entry C)) (n : ℕ)
      → verify_entry sha size parse dir e ≡ ok n
      → (content : C) × (fs : Fields) × (e ≡ some (regular content))
        × (parse content ≡ some (obj fs))
        × Accepts dir (get "members" fs) n
  verify_entry-ok dir (some (regular content)) n h =
      let r =
        refuse-ok (ltb max_manifest_bytes (size content)) "manifest.json exceeds size limit"
          (verify_document sha size dir (parse content)) n h in
      let (fs, is, accepts) = verify_document-ok dir (parse content) n r.1 in
      (content, fs, refl, is, accepts)
  verify_entry-ok dir none n h = cc
  verify_entry-ok dir (some symlink) n h = cc
  verify_entry-ok dir (some other) n h = cc

  verify_manifest-Accepts :
      (dir : Directory C) (n : ℕ)
      → verify_manifest sha size parse dir ≡ ok n
      → (items : Items) × (seen : List String) × HasManifest dir items
        × (item_count items ≡ n)
        × (verify_members sha size dir [] items ≡ ok seen)
        × (check_unexpected dir seen (item_count items) ≡ ok n)
  unfolding verify_manifest
  verify_manifest-Accepts dir n h =
      let (content, fs, is, read, a) = verify_entry-ok dir (lookup "manifest.json" dir) n h in
      (
        a.items,
        a.seen,
        record {
          content = content;
          fields = fs;
          is_there = is;
          is_read = read;
          has_members = a.is_members;
        },
        a.is_count,
        a.are_seen,
        a.none_left,
      )

  -- If the verification of a directory succeeds, then every entry but the manifest is a regular file with a safe name,
  -- a member of the manifest states its size and its digest, and the result is the number of the members.
  pub verify_manifest-IsListed :
      (dir : Directory C) (n : ℕ) (name : String) (e : Entry C)
      → verify_manifest sha size parse dir ≡ ok n
      → lookup name dir ≡ some e
      → (name == "manifest.json") ≡ false
      → (items : Items) × (content : C) × HasManifest dir items
        × (item_count items ≡ n)
        × (e ≡ regular content)
        × (is_member_name name ≡ true)
        × Lists items name (size content) (sha content)
  verify_manifest-IsListed dir n name e h found differs =
      let (items, seen, manifest, count, members, left) = verify_manifest-Accepts dir n h in
      let (count2, files, listed, empty) =
        check_unexpected-count dir seen (item_count items) n left in
      elim (data_files-Accepted dir files name e listed found) [
        | inl same ↦ absurd (ground (arith, same, differs))
        | inr (content, is, valid, among) ↦
            elim (verify_members-Lists sha size dir items [] seen members name
              (filter_empty seen (map (λ file. file.0) files) empty name among)) [
                | inl nowhere ↦ cc
                | inr (bytes, digest, stated, (c, there, bytes_are, digest_is)) ↦
                    let same : c ≡ content = cc in
                    (
                      items,
                      content,
                      manifest,
                      count,
                      is,
                      valid,
                      rw (sym same, bytes_are, digest_is) stated,
                    )
              ]
      ]

  HasManifest-unique :
      (dir dir' : Directory C) (items items' : Items)
      → lookup "manifest.json" dir ≡ lookup "manifest.json" dir'
      → HasManifest dir items
      → HasManifest dir' items'
      → items ≡ items'
  HasManifest-unique dir dir' items items' same m m' = cc

  transfers :
      (dir dir' : Directory C) (n n' : ℕ)
      → verify_manifest sha size parse dir ≡ ok n
      → verify_manifest sha size parse dir' ≡ ok n'
      → lookup "manifest.json" dir ≡ lookup "manifest.json" dir'
      → ((a b : C) → sha a ≡ sha b → a ≡ b)
      → (name : String) (e : Entry C) → (name == "manifest.json") ≡ false
      → lookup name dir ≡ some e
      → lookup name dir' ≡ some e
  transfers dir dir' n n' h h' same injective name e differs found =
      let (items, content, manifest, _, is, _, stated) =
        verify_manifest-IsListed dir n name e h found differs in
      let (items', seen', manifest', _, members', _) = verify_manifest-Accepts dir' n' h' in
      let equal : items ≡ items' =
        HasManifest-unique dir dir' items items' same manifest manifest' in
      let (content', there, _, digest) =
        verify_members-IsFile sha size dir' items' [] seen' members' name (size content)
          (sha content) (rw (sym equal) stated) in
      let file : content' ≡ content = injective content' content digest in cc

  -- If two directories with the same manifest file both pass the verification, and no two contents have the same
  -- digest, then every name stands for the same in both: no file was changed, added, removed or replaced by a link.
  pub verify_manifest-determines :
      (dir dir' : Directory C) (n n' : ℕ)
      → verify_manifest sha size parse dir ≡ ok n
      → verify_manifest sha size parse dir' ≡ ok n'
      → lookup "manifest.json" dir ≡ lookup "manifest.json" dir'
      → ((a b : C) → sha a ≡ sha b → a ≡ b)
      → (name : String) → lookup name dir ≡ lookup name dir'
  verify_manifest-determines dir dir' n n' h h' same injective name =
      elim (Bool-cases (name == "manifest.json")) [
        | inl manifest ↦ rw ((==_iff name "manifest.json").0 manifest) same
        | inr differs ↦ elim (Option-cases (lookup name dir)) [
          | inr (e, found) ↦
              found ∙ sym (transfers dir dir' n n' h h' same injective name e differs found)
          | inl absent ↦ elim (Option-cases (lookup name dir')) [
            | inl absent' ↦ absent ∙ sym absent'
            | inr (e, found) ↦
                transfers dir' dir n' n h' h (sym same) injective name e differs found ∙ sym found
          ]
        ]
      ]
