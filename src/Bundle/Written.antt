-- ===== src/Bundle/Written.antt =====
-- A manifest that src/kdiag/bundle.py writes passes its verification.
use k8s_check.Prelude.{
  ℕ, String, Bool, true, false, ◌||◌, not, ◌≡◌, refl, ◌∙◌, ◌⊎◌, inl, inr, some, List, [], ◌∷◌, ◌==◌,
  ==_iff, string_eq, nat_eq, option_eq, filter, all, contains, is_empty, length, All, arith,
  Bool-cases, ok, ok-injective, and_then, and_then-pass, refuse,
}
use mathlib.Core.Path.{subst}
use k8s_check.Dict.{lookup, insert, has_key, NodupKeys}
use k8s_check.Json.{get}
use k8s_check.Bundle.Files.{
  Entry, regular, Directory, is_member_name, is_sha256, File, data_file, data_files_loop, member,
  members, manifest, sort_keys, sort_items, add_sorted,
}
use k8s_check.Bundle.Verify.{member_file, check_member, verify_member, verify_members, item_count}
use k8s_check.Bundle.Intact.{data_file-ok}
use k8s_check.Bundle.Listing.{file_names, Found}

abbrev pub is_dots : String → Bool
is_dots name = name == "." || name == ".."

pub none_unexpected :
    (seen names : List String)
    → All (λ name. contains seen name ≡ true) names
    → is_empty (filter (λ name. not (contains seen name)) names) ≡ true
none_unexpected seen [] all = refl
none_unexpected seen (n ∷ names) (a, as') = rw a (none_unexpected seen names as')

module _ {C : Type 0} where
  -- Files that are in the directory, each for the first time.
  abbrev pub Present : Directory C → List String → List (File C) → Type 0
  Present dir seen [] = Unit
  Present dir seen ((name, content) ∷ files) =
      (contains seen name ≡ false)
      × (lookup name dir ≡ some (regular content))
      × (is_member_name name ≡ true)
      × (is_dots name ≡ false)
      × Present dir (name ∷ seen) files

  -- An entry that is still to be listed.
  abbrev Pending : Directory C → List String → String × Entry C → Type 0
  Pending dir seen (name, e) =
      ((name == "manifest.json") ≡ true)
      ⊎ ((contains seen name ≡ false) × (lookup name dir ≡ some e) × (is_dots name ≡ false))

  Pending-cons :
      (dir : Directory C) (seen : List String) (name : String) (entries : Directory C)
      → has_key name entries ≡ false
      → All (Pending dir seen) entries
      → All (Pending dir (name ∷ seen)) entries
  Pending-cons dir seen name [] fresh all = tt
  Pending-cons dir seen name ((j, e) ∷ entries) fresh (a, as') = (
    elim a [
      | inl same ↦ inl same
      | inr (new, found, dots) ↦
          inr (ground (arith, new, fresh, ==_iff name j, ==_iff j name), found, dots)
    ],
    Pending-cons dir seen name entries (ground (arith, fresh)) as',
  )

  pub data_files_loop-Present :
      (dir entries : Directory C) (seen : List String) (files : List (File C))
      → data_files_loop entries ≡ ok files
      → NodupKeys entries
      → All (Pending dir seen) entries
      → Present dir seen files
  unfolding data_files_loop
  data_files_loop-Present dir [] seen files h u all =
      subst (Present dir seen) (ok-injective [] files h) tt
  data_files_loop-Present dir ((name, e) ∷ entries) seen files h (fresh, u) (a, as') =
      elim (Bool-cases (name == "manifest.json")) [
        | inl same ↦ data_files_loop-Present dir entries seen files (rw same at h) u as'
        | inr differs ↦
            let h1 : data_file name e (data_files_loop entries) ≡ ok files = rw differs at h in
            let (content, others, is, valid, rest, equal) =
              data_file-ok name e (data_files_loop entries) files h1 in
            elim a [
              | inl same ↦ absurd (ground (arith, same, differs))
              | inr (new, found, dots) ↦ subst (Present dir seen) equal (
                new,
                rw is at found,
                valid,
                dots,
                data_files_loop-Present dir entries (name ∷ seen) others rest u
                    (Pending-cons dir seen name entries fresh as'),
              )
            ]
      ]

  pub all-Pending :
      (dir dir' entries : Directory C)
      → ((name : String) → (name == "manifest.json") ≡ false → lookup name dir' ≡ lookup name dir)
      → has_key "." entries ≡ false
      → has_key ".." entries ≡ false
      → All (Found dir) entries
      → All (Pending dir' []) entries
  all-Pending dir dir' [] same dot dots all = tt
  all-Pending dir dir' ((name, e) ∷ entries) same dot dots (found, all) = (
    elim (Bool-cases (name == "manifest.json")) [
      | inl manifest ↦ inl manifest
      | inr differs ↦ inr (
        refl,
        same name differs ∙ found,
        ground (
          arith,
          dot,
          dots,
          ==_iff name ".",
          ==_iff name "..",
          ==_iff "." name,
          ==_iff ".." name,
        ),
      )
    ],
    all-Pending dir dir' entries same (ground (arith, dot)) (ground (arith, dots)) all,
  )

  pub All-insert :
      (P : String × Entry C → Type 0) (k : String) (e : Entry C) (dir : Directory C)
      → ((f : Entry C) → P (k, f))
      → All P dir
      → All P (insert k e dir)
  All-insert P k e [] p all = (p e, tt)
  All-insert P k e ((j, f) ∷ dir) p (a, as') = elim (Bool-cases (k == j)) [
    | inl same ↦ rw same (subst (λ i. P (i, e)) ((==_iff k j).0 same) (p e), as')
    | inr differs ↦ rw differs (a, All-insert P k e dir p as')
  ]

module _ {C : Type 0} (sha : C → String) (size : C → ℕ) where
  verify_member-passes :
      (dir : Directory C) (seen : List String) (name : String) (content : C)
      → is_sha256 (sha content) ≡ true
      → contains seen name ≡ false
      → lookup name dir ≡ some (regular content)
      → is_member_name name ≡ true
      → is_dots name ≡ false
      → verify_member sha size dir seen (sort_keys (member sha size (name, content))) ≡ ok name
  unfolding verify_member check_member member_file member sort_keys add_sorted get refuse and_then
  verify_member-passes dir seen name content hex new found valid dots =
      rw
        (
          new,
          hex,
          valid,
          dots,
          found,
          (==_iff (size content) (size content)).1 refl,
          (==_iff (sha content) (sha content)).1 refl,
        )
        refl

  -- All members of a written manifest pass, and all their names are seen.
  pub verify_members-Present :
      ((content : C) → is_sha256 (sha content) ≡ true)
      → (dir : Directory C) (files : List (File C)) (seen : List String) → Present dir seen files
      → (names : List String) × (verify_members sha size dir seen
            (sort_items (members sha size files))
          ≡ ok names)
        × ((a : String)
            → (contains seen a || contains (file_names files) a) ≡ true
            → contains names a ≡ true)
  unfolding verify_members members sort_items
  verify_members-Present hex dir [] seen p = (seen, refl, λ a h. ground (arith, h))
  verify_members-Present hex dir ((name, content) ∷ files) seen (new, found, valid, dots, p) =
      let (names, is, known) = verify_members-Present hex dir files (name ∷ seen) p in
      (
        names,
        and_then-pass
            (verify_member sha size dir seen (sort_keys (member sha size (name, content))))
            (λ relative.
              verify_members sha size dir (relative ∷ seen) (sort_items (members sha size files)))
            name (ok names)
            (verify_member-passes dir seen name content (hex content) new found valid dots) is,
        λ a h. known a (ground (arith, h)),
      )

  pub item_count-members :
      (files : List (File C)) → item_count (sort_items (members sha size files)) ≡ length files
  unfolding members sort_items
  item_count-members [] = refl
  item_count-members (file ∷ files) = omega (arith, item_count-members files)
