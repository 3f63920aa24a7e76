-- ===== src/Bundle/Listing.antt =====
-- The listing of the data files of src/kdiag/bundle.py: each file once, and also after the manifest was written.
use k8s_check.Prelude.{
  insert_by, String, true, false, ◌||◌, not, ◌≡◌, refl, ◌∙◌, inl, inr, some, List, [], ◌∷◌, ◌==◌,
  ==_iff, string_eq, nat_eq, option_eq, map, all, contains, sort_by, All, arith, Bool-cases, ok,
  and_then-pass, refuse-pass,
}
use k8s_check.Dict.{lookup, has_key, NodupKeys}
use k8s_check.Bundle.Files.{
  Entry, Directory, is_member_name, File, data_file, data_files_loop, name_leb,
}
use k8s_check.Bundle.Intact.{Accepted}

abbrev pub file_names : {C : Type 0} → List (File C) → List String
file_names files = map (λ file. file.0) files

module _ {C : Type 0} where
  has_key-insert_by :
      (k : String) (x : String × Entry C) (dir : Directory C)
      → has_key k (insert_by name_leb x dir) ≡ (k == x.0 || has_key k dir)
  unfolding insert_by
  has_key-insert_by k x [] = refl
  has_key-insert_by k x (y ∷ dir) = ground (arith, has_key-insert_by k x dir)

  pub has_key-sort_by :
      (k : String) (dir : Directory C) → has_key k (sort_by name_leb dir) ≡ has_key k dir
  unfolding sort_by
  has_key-sort_by k [] = refl
  has_key-sort_by k (x ∷ dir) =
      ground (arith, has_key-insert_by k x (sort_by name_leb dir), has_key-sort_by k dir)

  insert_by-NodupKeys :
      (x : String × Entry C) (dir : Directory C)
      → has_key x.0 dir ≡ false
      → NodupKeys dir
      → NodupKeys (insert_by name_leb x dir)
  unfolding insert_by
  insert_by-NodupKeys x [] fresh u = (refl, tt)
  insert_by-NodupKeys x (y ∷ dir) fresh (f, u) = ground (
    arith,
    fresh,
    f,
    u,
    insert_by-NodupKeys x dir (ground (arith, fresh)) u,
    has_key-insert_by y.0 x dir,
    ==_iff x.0 y.0,
    ==_iff y.0 x.0,
  )

  pub sort_by-NodupKeys : (dir : Directory C) → NodupKeys dir → NodupKeys (sort_by name_leb dir)
  unfolding sort_by
  sort_by-NodupKeys [] u = tt
  sort_by-NodupKeys (x ∷ dir) (fresh, u) =
      insert_by-NodupKeys x (sort_by name_leb dir) (has_key-sort_by x.0 dir ∙ fresh)
        (sort_by-NodupKeys dir u)

  -- Every entry is found under its name.
  abbrev pub Found : Directory C → String × Entry C → Type 0
  Found dir (name, e) = lookup name dir ≡ some e

  Found-cons :
      (x : String × Entry C) (dir entries : Directory C)
      → has_key x.0 entries ≡ false
      → All (Found dir) entries
      → All (Found (x ∷ dir)) entries
  Found-cons x dir [] fresh all = tt
  Found-cons x dir ((name, e) ∷ entries) fresh (a, as') = (
    ground (arith, fresh, a, ==_iff name x.0, ==_iff x.0 name),
    Found-cons x dir entries (ground (arith, fresh)) as',
  )

  pub all-Found : (dir : Directory C) → NodupKeys dir → All (Found dir) dir
  all-Found [] u = tt
  all-Found ((name, e) ∷ dir) (fresh, u) = (
    ground (arith, (==_iff name name).1 refl),
    Found-cons (name, e) dir dir fresh (all-Found dir u),
  )

  -- The listing succeeds if every entry is accepted, and lists accepted names only.
  pub data_files_loop-total :
      (files : List (File C)) (entries : Directory C)
      → All (Accepted files) entries
      → (listed : List (File C)) × (data_files_loop entries ≡ ok listed)
        × All (λ name. contains (file_names files) name ≡ true) (file_names listed)
  unfolding data_files_loop data_file
  data_files_loop-total files [] all = ([], refl, tt)
  data_files_loop-total files ((name, e) ∷ entries) (a, as') =
      let (listed, is, among) = data_files_loop-total files entries as' in
      elim a [
        | inl manifest ↦ (listed, rw manifest is, among)
        | inr (content, is_file, valid, known) ↦ elim (Bool-cases (name == "manifest.json")) [
          | inl manifest ↦ (listed, rw manifest is, among)
          | inr differs ↦ (
            (name, content) ∷ listed,
            rw (differs, is_file)
                (refuse-pass (not (is_member_name name)) "collection contains an unsafe file name" _
                  _ (ground (arith, valid))
                  (and_then-pass (data_files_loop entries) (λ fs. ok ((name, content) ∷ fs)) listed
                    _ is refl)),
            (known, among),
          )
        ]
      ]
