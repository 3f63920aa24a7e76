-- ===== src/Bundle/Guarantee.antt =====
-- What a directory is like that passes `verify_manifest` of src/kdiag/bundle.py.
use k8s_check.Prelude.{
  ℕ, String, ◌<>◌, true, not, ◌≡◌, sym, ◌⊎◌, inl, inr, some, List, [], ◌∷◌, ◌==◌, ==_iff, string_eq,
  nat_eq, option_eq, filter, contains, is_empty, arith, Bool-cases, Result, ok, ok-injective,
  and_then, and_then-ok, refuse, refuse-ok,
}
use k8s_check.Json.{str, Value, obj, Fields, Items, nil, cons, get}
use k8s_check.Bundle.Files.{regular, Directory}
use mathlib.Core.Path.{subst}
use k8s_check.Dict.{lookup}
use k8s_check.Bundle.Verify.{
  member_fields, member_name, expected_size, expected_digest, member_file, check_member,
  verify_member, verify_members,
}
use k8s_check.Bundle.Intact.{
  States, Lists, member_fields-ok, member_name-ok, expected_size-ok, expected_digest-ok,
  member_file-ok,
}

pub filter_empty :
    (seen names : List String)
    → is_empty (filter (λ n. not (contains seen n)) names) ≡ true
    → (name : String) → contains names name ≡ true
    → contains seen name ≡ true
filter_empty seen [] h name among = cc
filter_empty seen (n ∷ names) h name among = elim (Bool-cases (contains seen n)) [
  | inl known ↦ elim (Bool-cases (name == n)) [
    | inl same ↦ rw ((==_iff name n).0 same) known
    | inr differs ↦ filter_empty seen names (rw known at h) name (ground (arith, among, differs))
  ]
  | inr unknown ↦ absurd (ground (arith, h, unknown))
]

module _ {C : Type 0} (sha : C → String) (size : C → ℕ) where
  -- A name stands for a file with a size and a digest.
  abbrev pub IsFile : Directory C → String → ℕ → String → Type 0
  IsFile dir name bytes digest =
      (content : C) × (lookup name dir ≡ some (regular content))
      × (size content ≡ bytes)
      × (sha content ≡ digest)

  -- A member that is checked states a name and a file.
  record Checked (dir : Directory C) (m : Value) (name : String) : Type 0 where
    bytes : ℕ
    digest : String
    states : States m name bytes digest
    is_file : IsFile dir name bytes digest

  check_member-ok :
      (dir : Directory C) (m : Value) (name : String) (fs : Fields) (r : String)
      → m ≡ obj fs
      → get "path" fs ≡ some (str name)
      → check_member sha size dir name fs ≡ ok r
      → Checked dir m r
  unfolding check_member
  check_member-ok dir m name fs r is path h =
      let rest2 : ℕ → String → C → Result String = λ bytes digest content.
        refuse (not (sha content == digest)) ("SHA-256 mismatch for manifest member: " <> name)
          (ok name) in
      let rest1 : ℕ → String → C → Result String = λ bytes digest content.
        refuse (not (size content == bytes)) ("size mismatch for manifest member: " <> name)
          (rest2 bytes digest content) in
      let (bytes, size_ok, h1) =
        and_then-ok (expected_size name (get "size" fs))
          (λ b.
            and_then (expected_digest name (get "sha256" fs))
              (λ d. and_then (member_file dir name) (rest1 b d)))
          r h in
      let (digest, digest_ok, h2) =
        and_then-ok (expected_digest name (get "sha256" fs))
          (λ d. and_then (member_file dir name) (rest1 bytes d)) r h1 in
      let (content, content_ok, h3) =
        and_then-ok (member_file dir name) (rest1 bytes digest) r h2 in
      let s =
        refuse-ok (not (size content == bytes)) ("size mismatch for manifest member: " <> name)
          (rest2 bytes digest content) r h3 in
      let t =
        refuse-ok (not (sha content == digest)) ("SHA-256 mismatch for manifest member: " <> name)
          (ok name) r s.1 in
      let same : name ≡ r = ok-injective name r t.1 in
      subst (Checked dir m) same (record {
        bytes = bytes;
        digest = digest;
        states = (
          fs,
          is,
          path,
          expected_size-ok name (get "size" fs) bytes size_ok,
          expected_digest-ok name (get "sha256" fs) digest digest_ok,
        );
        is_file = (
          content,
          member_file-ok dir name content content_ok,
          ground (arith, s.0),
          (==_iff (sha content) digest).0 (ground (arith, t.0)),
        );
      })

  verify_member-ok :
      (dir : Directory C) (seen : List String) (m : Value) (name : String)
      → verify_member sha size dir seen m ≡ ok name
      → Checked dir m name
  unfolding verify_member
  verify_member-ok dir seen m name h =
      let (fs, fields, h1) =
        and_then-ok (member_fields m)
          (λ fs. and_then (member_name (get "path" fs)) (λ relative.
            refuse (contains seen relative) ("duplicate manifest member: " <> relative)
              (check_member sha size dir relative fs)))
          name h in
      let (relative, path, h2) =
        and_then-ok (member_name (get "path" fs))
          (λ relative.
            refuse (contains seen relative) ("duplicate manifest member: " <> relative)
              (check_member sha size dir relative fs))
          name h1 in
      let r =
        refuse-ok (contains seen relative) ("duplicate manifest member: " <> relative)
          (check_member sha size dir relative fs) name h2 in
      check_member-ok dir m relative fs name (member_fields-ok m fs fields)
        (member_name-ok (get "path" fs) relative path) r.1

  -- The names that were seen are old ones or members with their files.
  pub verify_members-Lists :
      (dir : Directory C) (items : Items) (seen names : List String)
      → verify_members sha size dir seen items ≡ ok names
      → (name : String) → contains names name ≡ true
      → (contains seen name ≡ true)
        ⊎ ((bytes : ℕ) × (digest : String) × Lists items name bytes digest
            × IsFile dir name bytes digest)
  unfolding verify_members
  verify_members-Lists dir nil seen names h name among = inl (rw (ok-injective seen names h) among)
  verify_members-Lists dir (cons m ms) seen names h name among =
      let (relative, first, h1) =
        and_then-ok (verify_member sha size dir seen m)
          (λ r. verify_members sha size dir (r ∷ seen) ms) names h in
      let c = verify_member-ok dir seen m relative first in
      elim (verify_members-Lists dir ms (relative ∷ seen) names h1 name among) [
        | inr (bytes, digest, listed, is_file) ↦ inr (bytes, digest, inr listed, is_file)
        | inl before ↦ elim (Bool-cases (name == relative)) [
          | inl same ↦
              let e : name ≡ relative = (==_iff name relative).0 same in
              inr (c.bytes, c.digest, inl (rw e c.states), rw e c.is_file)
          | inr differs ↦ inl (ground (arith, before, differs))
        ]
      ]

  States-unique :
      (m : Value) (j name : String) (bytes b : ℕ) (digest d : String)
      → States m j b d
      → States m name bytes digest
      → (j ≡ name) × (b ≡ bytes) × (d ≡ digest)
  States-unique m j name bytes b digest d (fs, is, path, size_is, sha_is)
        (gs, is', path', size_is', sha_is') =
      (cc, cc, cc)

  -- Every stated member is a file.
  pub verify_members-IsFile :
      (dir : Directory C) (items : Items) (seen names : List String)
      → verify_members sha size dir seen items ≡ ok names
      → (name : String) (bytes : ℕ) (digest : String) → Lists items name bytes digest
      → IsFile dir name bytes digest
  unfolding verify_members
  verify_members-IsFile dir nil seen names h name bytes digest listed = absurd listed
  verify_members-IsFile dir (cons m ms) seen names h name bytes digest listed =
      let (relative, first, h1) =
        and_then-ok (verify_member sha size dir seen m)
          (λ r. verify_members sha size dir (r ∷ seen) ms) names h in
      let c = verify_member-ok dir seen m relative first in
      elim listed [
        | inl here ↦
            let (n, b, d) =
              States-unique m relative name bytes c.bytes digest c.digest c.states here in
            rw (sym n, sym b, sym d) c.is_file
        | inr there ↦
            verify_members-IsFile dir ms (relative ∷ seen) names h1 name bytes digest there
      ]
