-- ===== src/Bundle/Intact.antt =====
-- What `verify_manifest` of src/kdiag/bundle.py guarantees: the files are those of the manifest.
use k8s_check.Prelude.{
  ℕ, String, ◌<>◌, true, ◌||◌, not, ◌≡◌, refl, sym, ap, ◌⊎◌, inl, inr, Option, none, some, List, [],
  ◌∷◌, ◌==◌, ==_iff, string_eq, nat_eq, map, contains, sort_by, sort_by-All, All, get_or, arith,
  Bool-cases, Result, ok, ok-injective, and_then, and_then-ok, refuse, refuse-ok,
}
use mathlib.Core.Path.{subst}
use k8s_check.Dict.{lookup}
use k8s_check.Json.{Value, null, bool, pos, negsuc, str, arr, obj, Fields, Items, nil, cons, get}
use k8s_check.Bundle.Files.{
  Entry, symlink, regular, other, Directory, is_member_name, is_sha256, File, data_file,
  data_files_loop, data_files, name_leb,
}
use k8s_check.Bundle.Verify.{
  member_fields, member_name, expected_size, expected_digest, member_content, member_file,
}

-- A member states a name, a size and a digest.
abbrev pub States : Value → String → ℕ → String → Type 0
States m name bytes digest =
    (fs : Fields) × (m ≡ obj fs)
    × (get "path" fs ≡ some (str name))
    × (get "size" fs ≡ some (pos bytes))
    × (get "sha256" fs ≡ some (str digest))

-- A list of members states them.
abbrev pub Lists : Items → String → ℕ → String → Type 0
Lists nil name bytes digest = ⊥
Lists (cons m ms) name bytes digest = States m name bytes digest ⊎ Lists ms name bytes digest

pub member_fields-ok : (m : Value) (fs : Fields) → member_fields m ≡ ok fs → m ≡ obj fs
member_fields-ok (obj gs) fs h = ap obj (ok-injective gs fs h)
member_fields-ok null fs h = cc
member_fields-ok (bool _) fs h = cc
member_fields-ok (pos _) fs h = cc
member_fields-ok (negsuc _) fs h = cc
member_fields-ok (str _) fs h = cc
member_fields-ok (arr _) fs h = cc

pub member_name-ok :
    (v : Option Value) (name : String) → member_name v ≡ ok name → v ≡ some (str name)
member_name-ok (some (str s)) name h = ap (λ t. some (str t)) (ok-injective s name h)
member_name-ok none name h = cc
member_name-ok (some null) name h = cc
member_name-ok (some (bool _)) name h = cc
member_name-ok (some (pos _)) name h = cc
member_name-ok (some (negsuc _)) name h = cc
member_name-ok (some (arr _)) name h = cc
member_name-ok (some (obj _)) name h = cc

pub expected_size-ok :
    (name : String) (v : Option Value) (n : ℕ) → expected_size name v ≡ ok n → v ≡ some (pos n)
expected_size-ok name (some (pos m)) n h = ap (λ t. some (pos t)) (ok-injective m n h)
expected_size-ok name none n h = cc
expected_size-ok name (some null) n h = cc
expected_size-ok name (some (bool _)) n h = cc
expected_size-ok name (some (str _)) n h = cc
expected_size-ok name (some (negsuc _)) n h = cc
expected_size-ok name (some (arr _)) n h = cc
expected_size-ok name (some (obj _)) n h = cc

pub expected_digest-ok :
    (name : String) (v : Option Value) (d : String)
    → expected_digest name v ≡ ok d
    → v ≡ some (str d)
expected_digest-ok name (some (str s)) d h =
    ap (λ t. some (str t))
      (ok-injective s d
        (refuse-ok (not (is_sha256 s)) ("invalid SHA-256 for manifest member: " <> name) (ok s) d
          h).1)
expected_digest-ok name none d h = cc
expected_digest-ok name (some null) d h = cc
expected_digest-ok name (some (bool _)) d h = cc
expected_digest-ok name (some (pos _)) d h = cc
expected_digest-ok name (some (negsuc _)) d h = cc
expected_digest-ok name (some (arr _)) d h = cc
expected_digest-ok name (some (obj _)) d h = cc

module _ {C : Type 0} where
  pub member_content-ok :
      (name : String) (e : Option (Entry C)) (content : C)
      → member_content name e ≡ ok content
      → e ≡ some (regular content)
  member_content-ok name (some (regular c)) content h =
      ap (λ t. some (regular t)) (ok-injective c content h)
  member_content-ok name (some symlink) content h = cc
  member_content-ok name (some other) content h = cc
  member_content-ok name none content h = cc

  pub member_file-ok :
      (dir : Directory C) (name : String) (content : C)
      → member_file dir name ≡ ok content
      → lookup name dir ≡ some (regular content)
  unfolding member_file
  member_file-ok dir name content h =
      let rest =
        refuse (name == "." || name == "..") "manifest member must be a top-level file"
          (member_content name (lookup name dir)) in
      let r = refuse-ok (not (is_member_name name)) "invalid manifest member path" rest content h in
      let r1 =
        refuse-ok (name == "." || name == "..") "manifest member must be a top-level file"
          (member_content name (lookup name dir)) content r.1 in
      member_content-ok name (lookup name dir) content r1.1

  -- An entry that the listing of the data files accepts: it is the manifest or a file among them.
  abbrev pub Accepted : List (File C) → String × Entry C → Type 0
  Accepted files (name, e) =
      ((name == "manifest.json") ≡ true)
      ⊎ ((content : C) × (e ≡ regular content)
          × (is_member_name name ≡ true)
          × (contains (map (λ file. file.0) files) name ≡ true))

  Accepted-cons :
      (file : File C) (files : List (File C)) (entries : Directory C)
      → All (Accepted files) entries
      → All (Accepted (file ∷ files)) entries
  Accepted-cons file files [] _ = tt
  Accepted-cons file files ((name, e) ∷ entries) (a, as') = (
    elim a [
      | inl same ↦ inl same
      | inr (content, is, valid, among) ↦ inr (content, is, valid, ground (arith, among))
    ],
    Accepted-cons file files entries as',
  )

  pub data_file-ok :
      (name : String) (e : Entry C) (rest : Result (List (File C))) (files : List (File C))
      → data_file name e rest ≡ ok files
      → (content : C) × (others : List (File C)) × (e ≡ regular content)
        × (is_member_name name ≡ true)
        × (rest ≡ ok others)
        × ((name, content) ∷ others ≡ files)
  unfolding data_file
  data_file-ok name symlink rest files h = cc
  data_file-ok name other rest files h = cc
  data_file-ok name (regular content) rest files h =
      let r =
        refuse-ok (not (is_member_name name)) "collection contains an unsafe file name"
          (and_then rest (λ fs. ok ((name, content) ∷ fs))) files h in
      let r1 = and_then-ok rest (λ fs. ok ((name, content) ∷ fs)) files r.1 in
      (
        content,
        r1.0,
        refl,
        ground (arith, r.0),
        r1.1,
        ok-injective ((name, content) ∷ r1.0) files r1.2,
      )

  pub data_files_loop-Accepted :
      (entries : Directory C) (files : List (File C))
      → data_files_loop entries ≡ ok files
      → All (Accepted files) entries
  unfolding data_files_loop
  data_files_loop-Accepted [] files h = tt
  data_files_loop-Accepted ((name, e) ∷ entries) files h =
      elim (Bool-cases (name == "manifest.json")) [
        | inl same ↦ (inl same, data_files_loop-Accepted entries files (rw same at h))
        | inr other_name ↦
            let h1 : data_file name e (data_files_loop entries) ≡ ok files = rw other_name at h in
            let (content, others, is, valid, rest, all) =
              data_file-ok name e (data_files_loop entries) files h1 in
            let here : Accepted ((name, content) ∷ others) (name, e) =
              inr (content, is, valid, ground (arith, (==_iff name name).1 refl)) in
            subst (λ fs. All (Accepted fs) ((name, e) ∷ entries)) all
              (
                here,
                Accepted-cons (name, content) others entries
                    (data_files_loop-Accepted entries others rest),
              )
      ]

  lookup-All :
      (P : String × Entry C → Type 0) (dir : Directory C) (name : String) (e : Entry C)
      → All P dir
      → lookup name dir ≡ some e
      → P (name, e)
  lookup-All P [] name e all h = cc
  lookup-All P ((j, f) ∷ dir) name e (p, all) h = elim (Bool-cases (name == j)) [
    | inl same ↦
        let found : some f ≡ some e = rw same at h in
        let is : f ≡ e = ap (λ o. get_or o f) found in rw ((==_iff name j).0 same, sym is) p
    | inr differs ↦ lookup-All P dir name e all (rw differs at h)
  ]

  pub data_files-Accepted :
      (dir : Directory C) (files : List (File C)) (name : String) (e : Entry C)
      → data_files dir ≡ ok files
      → lookup name dir ≡ some e
      → Accepted files (name, e)
  unfolding data_files
  data_files-Accepted dir files name e h found =
      lookup-All (Accepted files) dir name e
        (sort_by-All name_leb (Accepted files) dir
          (data_files_loop-Accepted (sort_by name_leb dir) files h))
        found
