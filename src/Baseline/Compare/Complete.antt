-- ===== src/Baseline/Compare/Complete.antt =====
-- `compare_profiles` of src/kdiag/baseline.py reports every difference between two collected sources, and none
-- between a profile and itself.
use k8s_check.Prelude.{
  eq_iff, String, Bool, true, false, ◌&&◌, ◌||◌, not, ◌≡◌, refl, inl, inr, sym, Option, none, some,
  List, [], ◌∷◌, ◌++◌, arith, ◌==◌, ==_iff, string_eq, option_eq, contains, contains-append,
  contains-nub, contains-sort_by, any, any-append, if-elim, Bool-cases, nub, str_leb,
}
use k8s_check.Dict.{
  Dict, keys, lookup, has_key, insert, lookup-insert, lookup-none_iff, contains-keys,
}
use k8s_check.Baseline.Profile.{Item, Source, Profile}
use k8s_check.Baseline.Compare.{
  Change, status_of, required_of, items_of, items_by_key, compare_items, compare_keys,
  compare_source, compare_sources, all_keys, changes_between,
}

-- A source that a profile needs has been collected.
abbrev is_settled : Source → Bool
is_settled s = (status_of (some s) == "collected") || not s.required

abbrev pub AllSettled : Dict String Source → Type 0
AllSettled [] = Unit
AllSettled ((_, s) ∷ d) = (is_settled s ≡ true) × AllSettled d

items-same : (source : String) (item : Option Item) → compare_items source item item ≡ []
unfolding compare_items
items-same source none = refl
items-same source (some i) = ground (arith, ==_iff i.sha256 i.sha256)

keys-same :
    (source : String) (d : Dict String Item) (ks : List String) → compare_keys source d d ks ≡ []
unfolding compare_keys
keys-same source d [] = refl
keys-same source d (k ∷ ks) = rw (items-same source (lookup k d), keys-same source d ks) refl

source-same :
    (source : String) (s : Option Source)
    → ((status_of s == "collected") || not (required_of s)) ≡ true
    → compare_source source s s ≡ []
unfolding compare_source
source-same source s h =
    ground
      (arith, h, keys-same source (items_of s) (all_keys (keys (items_of s)) (keys (items_of s))))

settled-lookup :
    (d : Dict String Source) (k : String)
    → AllSettled d
    → ((status_of (lookup k d) == "collected") || not (required_of (lookup k d))) ≡ true
settled-lookup [] k _ = refl
settled-lookup ((j, s) ∷ d) k (h, rest) =
    if-elim (λ o. ((status_of o == "collected") || not (required_of o)) ≡ true) (k == j) (λ _. h)
      (λ _. settled-lookup d k rest)

sources-same :
    (d : Dict String Source) (ks : List String) → AllSettled d → compare_sources d d ks ≡ []
unfolding compare_sources
sources-same d [] h = refl
sources-same d (k ∷ ks) h =
    rw (source-same k (lookup k d) (settled-lookup d k h), sources-same d ks h) refl

-- A profile whose sources are all collected or optional has no changes against itself.
changes_between_same :
    (profile : Profile) → AllSettled profile.sources → changes_between profile profile ≡ []
unfolding changes_between
changes_between_same profile h = sources-same profile.sources _ h

-- Whether a change is about the object with the key in the source.
abbrev pub is_about : String → String → Change → Bool
is_about source key c = (c.source == source) && (c.object_key == some key)

abbrev Keyed : Dict String Item → Type 0
Keyed d = (k : String) (i : Item) → lookup k d ≡ some i → i.key ≡ k

insert-Keyed : (d : Dict String Item) (item : Item) → Keyed d → Keyed (insert item.key item d)
insert-Keyed d item h k i found =
    ground (arith, found, lookup-insert k item.key item d, ==_iff k item.key, h k i)

items_by_key-Keyed :
    (items : List Item) (d : Dict String Item) → Keyed d → Keyed (items_by_key items d)
unfolding items_by_key
items_by_key-Keyed [] d h = h
items_by_key-Keyed (item ∷ items) d h =
    items_by_key-Keyed items (insert item.key item d) (insert-Keyed d item h)

items_of-Keyed : (s : Option Source) → Keyed (items_of s)
unfolding items_of
items_of-Keyed none = λ k i h. cc
items_of-Keyed (some s) = items_by_key-Keyed s.objects [] (λ k i h. cc)

-- Whether two entries for a key are the same: both are missing, or both are there with the same hash.
abbrev pub same_entry : Option Item → Option Item → Bool
same_entry none none = true
same_entry (some b) (some a) = b.sha256 == a.sha256
same_entry _ _ = false

items-reported :
    (source key : String) (before after : Option Item)
    → ((i : Item) → before ≡ some i → i.key ≡ key)
    → ((i : Item) → after ≡ some i → i.key ≡ key)
    → same_entry before after ≡ false
    → any (is_about source key) (compare_items source before after) ≡ true
unfolding compare_items
items-reported source key none none b a h = cc
items-reported source key none (some i) b a h =
    ground (arith, ==_iff source source, ==_iff i.key key, a i refl)
items-reported source key (some i) none b a h =
    ground (arith, ==_iff source source, ==_iff i.key key, b i refl)
items-reported source key (some i) (some j) b a h =
    ground (arith, h, ==_iff source source, ==_iff j.key key, a j refl)

keys-reported :
    (source key : String) (before after : Dict String Item) (ks : List String)
    → any (is_about source key) (compare_items source (lookup key before) (lookup key after)) ≡ true
    → contains ks key ≡ true
    → any (is_about source key) (compare_keys source before after ks) ≡ true
unfolding compare_keys
keys-reported source key before after [] r h = cc
keys-reported source key before after (k ∷ ks) r h = rw any-append (elim (Bool-cases (key == k)) [
  | inl same ↦ rw (sym ((==_iff key k).0 same), r) refl
  | inr other ↦
      ground (arith, keys-reported source key before after ks r (ground (arith, h, other)))
])

contains-all_keys :
    {V : Type 0} (key : String) (b a : Dict String V)
    → (has_key key b || has_key key a) ≡ true
    → contains (all_keys (keys b) (keys a)) key ≡ true
unfolding all_keys
contains-all_keys key b a h =
    rw
      (
        contains-sort_by str_leb (nub (keys b ++ keys a)) key,
        contains-nub (keys b ++ keys a) key,
        contains-append (keys b) (keys a) key,
        contains-keys key b,
        contains-keys key a,
      )
      h

entry-has_key :
    (key : String) (b a : Dict String Item)
    → same_entry (lookup key b) (lookup key a) ≡ false
    → (has_key key b || has_key key a) ≡ true
entry-has_key key b a h = elim (Bool-cases (has_key key b || has_key key a)) [
  | inl x ↦ x
  | inr x ↦
      let l =
        rw
          (
            (lookup-none_iff key b).1 (ground (arith, x)),
            (lookup-none_iff key a).1 (ground (arith, x)),
          )
          at h in
      ground (arith, l)
]

source-reported :
    (source key : String) (b a : Option Source)
    → status_of b ≡ "collected"
    → status_of a ≡ "collected"
    → same_entry (lookup key (items_of b)) (lookup key (items_of a)) ≡ false
    → any (is_about source key) (compare_source source b a) ≡ true
unfolding compare_source
source-reported source key b a hb ha differ =
    rw (hb, ha)
      (keys-reported source key (items_of b) (items_of a) _
        (items-reported source key _ _ (items_of-Keyed b key) (items_of-Keyed a key) differ)
        (contains-all_keys key (items_of b) (items_of a)
          (entry-has_key key (items_of b) (items_of a) differ)))

collected-has_key :
    (source : String) (b a : Dict String Source)
    → status_of (lookup source b) ≡ "collected"
    → (has_key source b || has_key source a) ≡ true
collected-has_key source b a h = elim (Bool-cases (has_key source b)) [
  | inl x ↦ ground (arith, x)
  | inr x ↦
      let e : "missing" ≡ "collected" = rw ((lookup-none_iff source b).1 x) at h in
      absurd (ground (arith, e, eq_iff "missing" "collected"))
]

sources-reported :
    (source key : String) (b a : Dict String Source) (ks : List String)
    → any (is_about source key) (compare_source source (lookup source b) (lookup source a)) ≡ true
    → contains ks source ≡ true
    → any (is_about source key) (compare_sources b a ks) ≡ true
unfolding compare_sources
sources-reported source key b a [] r h = cc
sources-reported source key b a (k ∷ ks) r h = rw any-append (elim (Bool-cases (source == k)) [
  | inl same ↦ rw (sym ((==_iff source k).0 same), r) refl
  | inr other ↦ ground (arith, sources-reported source key b a ks r (ground (arith, h, other)))
])

-- If both profiles have collected a source and their entries for a key of it are not the same, that is one is missing
-- or the hashes differ, then some reported change is about this object.
pub changes_between_complete :
    (baseline current : Profile) (source key : String)
    → status_of (lookup source baseline.sources) ≡ "collected"
    → status_of (lookup source current.sources) ≡ "collected"
    → same_entry
        (lookup key (items_of (lookup source baseline.sources)))
        (lookup key (items_of (lookup source current.sources)))
      ≡ false
    → any (is_about source key) (changes_between baseline current) ≡ true
unfolding changes_between
changes_between_complete baseline current source key b a differ =
    sources-reported source key baseline.sources current.sources _
      (source-reported source key _ _ b a differ)
      (contains-all_keys source baseline.sources current.sources
        (collected-has_key source baseline.sources current.sources b))
