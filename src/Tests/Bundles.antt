-- ===== src/Tests/Bundles.antt =====
-- Runs of the manifest of src/kdiag/bundle.py.
use k8s_check.Prelude.{
  ap, ◌∙◌, ◌==◌, sym, if◌then◌else◌, ℕ, String, true, ◌≡◌, refl, Option, none, some, List, [], ◌∷◌,
  string_eq, nat_eq, option_eq, length, join, sort_by, arith, error, ok, and_then, refuse,
}
use k8s_check.Dict.{lookup, insert}
use k8s_check.Json.{Value, Items, get, py_eq}
use k8s_check.Bundle.Files.{
  regular, Directory, is_member_name, is_sha256, File, data_file, data_files_loop, data_files,
  member, members, manifest, sort_keys, add_sorted, build_manifest, write_manifest,
}
use k8s_check.Bundle.Verify.{
  member_file, check_member, verify_member, verify_members, check_unexpected, verify_items,
  verify_document, verify_manifest, item_count,
}
use k8s_check.Bundle.Intact.{Lists}
use k8s_check.Bundle.Integrity.{HasManifest, verify_manifest-IsListed, verify_manifest-determines}
use k8s_check.Bundle.RoundTrip.{verify-write_manifest}

-- The contents of a small collection.
data Content : Type 0 where
  note : Content
  other_note : Content
  document : Value → Content

abbrev hash : Content → String
hash note = "a000000000000000000000000000000000000000000000000000000000000000"
hash other_note = "b000000000000000000000000000000000000000000000000000000000000000"
hash (document v) = "c000000000000000000000000000000000000000000000000000000000000000"

abbrev bytes_of : Content → ℕ
bytes_of note = 4
bytes_of other_note = 4
bytes_of (document v) = 100

abbrev read_document : Content → Option Value
read_document (document v) = some v
read_document c = none

abbrev one_note : Directory Content
one_note = ("note.json", regular note) ∷ []

abbrev note_manifest : Value
note_manifest = manifest hash bytes_of "now" (("note.json", note) ∷ [])

abbrev noted : Directory Content
noted =
    ("note.json", regular note)
    ∷ ("manifest.json", regular (document (sort_keys note_manifest)))
    ∷ []

written_run : write_manifest hash bytes_of document "now" one_note ≡ ok noted
unfolding write_manifest build_manifest data_files data_files_loop data_file is_member_name sort_by
    and_then refuse
written_run = refl

-- A note with the same size and another digest is found.
changed_run :
    verify_manifest hash bytes_of read_document (insert "note.json" (regular other_note) noted)
    ≡ error "SHA-256 mismatch for manifest member: note.json"
unfolding verify_manifest sort_keys add_sorted verify_document verify_items verify_members
    verify_member check_member member_file manifest members member is_member_name is_sha256 and_then
    refuse get py_eq
changed_run = refl

-- So is a file that the manifest does not state.
added_run :
    verify_manifest hash bytes_of read_document (insert "extra.json" (regular note) noted)
    ≡ error "files are absent from manifest: extra.json"
unfolding verify_manifest sort_keys add_sorted verify_document verify_items verify_members
    verify_member check_member check_unexpected data_files data_files_loop data_file member_file
    manifest members member is_member_name is_sha256 and_then refuse get py_eq sort_by join
added_run = refl

noted_run : verify_manifest hash bytes_of read_document noted ≡ ok 1
unfolding verify_manifest sort_keys add_sorted verify_document verify_items verify_members
    verify_member check_member check_unexpected data_files data_files_loop data_file member_file
    manifest members member is_member_name is_sha256 and_then refuse get py_eq sort_by
noted_run = refl

hash_digits : (content : Content) → is_sha256 (hash content) ≡ true
unfolding is_sha256
hash_digits note = refl
hash_digits other_note = refl
hash_digits (document v) = refl

verify-write_manifest_example :
    (files : List (File Content)) × (data_files one_note ≡ ok files)
    × (verify_manifest hash bytes_of read_document noted ≡ ok (length files))
verify-write_manifest_example =
    verify-write_manifest hash bytes_of read_document document "now" one_note noted written_run
      (refl, tt) refl refl hash_digits (λ v h. refl) (λ v h. omega arith)

verify_manifest-IsListed_example :
    (items : Items) × (content : Content) × HasManifest hash bytes_of read_document noted items
    × (item_count items ≡ 1)
    × (regular note ≡ regular content)
    × (is_member_name "note.json" ≡ true)
    × Lists items "note.json" (bytes_of content) (hash content)
verify_manifest-IsListed_example =
    verify_manifest-IsListed hash bytes_of read_document noted 1 "note.json" (regular note)
      noted_run refl refl

-- The contents without other documents than the manifest, so that no two have one digest.
data Sample : Type 0 where
  first second index : Sample

abbrev sample_content : Sample → Content
sample_content first = note
sample_content second = other_note
sample_content index = document (sort_keys note_manifest)

abbrev sample_hash : Sample → String
sample_hash s = hash (sample_content s)

abbrev sample_size : Sample → ℕ
sample_size s = bytes_of (sample_content s)

abbrev read_sample : Sample → Option Value
read_sample s = read_document (sample_content s)

abbrev sample_of : String → Sample
sample_of digest =
    if digest == hash note then first else if digest == hash other_note then second else index

sample_of-sample_hash : (a : Sample) → sample_of (sample_hash a) ≡ a
sample_of-sample_hash first = refl
sample_of-sample_hash second = refl
sample_of-sample_hash index = refl

sample_hash_injective : (a b : Sample) → sample_hash a ≡ sample_hash b → a ≡ b
sample_hash_injective a b h =
    sym (sample_of-sample_hash a) ∙ ap sample_of h ∙ sample_of-sample_hash b

abbrev sample : Directory Sample
sample = ("note.json", regular first) ∷ ("manifest.json", regular index) ∷ []

abbrev sample_again : Directory Sample
sample_again = ("manifest.json", regular index) ∷ ("note.json", regular first) ∷ []

sample_run :
    (verify_manifest sample_hash sample_size read_sample sample ≡ ok 1)
    × (verify_manifest sample_hash sample_size read_sample sample_again ≡ ok 1)
unfolding verify_manifest sort_keys add_sorted verify_document verify_items verify_members
    verify_member check_member check_unexpected data_files data_files_loop data_file member_file
    manifest members member is_member_name is_sha256 and_then refuse get py_eq sort_by
sample_run = (refl, refl)

verify_manifest-determines_example : lookup "note.json" sample ≡ lookup "note.json" sample_again
verify_manifest-determines_example =
    verify_manifest-determines sample_hash sample_size read_sample sample sample_again 1 1
      sample_run.0 sample_run.1 refl sample_hash_injective "note.json"
