-- ===== src/Baseline/Compare/Founded.antt =====
-- Every change that `compare_profiles` of src/kdiag/baseline.py reports is founded in the two profiles.
use k8s_check.Prelude.{
  eq_iff, String, true, false, ◌&&◌, ◌||◌, not, ◌≡◌, refl, ◌⊎◌, inl, inr, Option, none, some, List,
  [], ◌∷◌, arith, ◌==◌, string_eq, All, All-append, if-elim, Bool-cases,
}
use k8s_check.Baseline.Compare.{
  required_of, Category, new_problem, removed, added, changed, resolved, unverifiable, Change,
  appeared, disappeared, status_of, items_of, compare_items, compare_keys, compare_source,
  compare_sources, all_keys, unverifiable_change, changes_between,
}
use k8s_check.Dict.{Dict, keys, lookup}
use k8s_check.Baseline.Profile.{Item, Profile}

-- What a category says of the items that the two profiles have under a key.
abbrev pub IsFoundedIn : Category → Option Item → Option Item → Type 0
IsFoundedIn new_problem before after =
    (before ≡ none) × ((a : Item) × (after ≡ some a) × ((a.kind == "finding") ≡ true))
IsFoundedIn added before after =
    (before ≡ none) × ((a : Item) × (after ≡ some a) × ((a.kind == "finding") ≡ false))
IsFoundedIn resolved before after =
    (after ≡ none) × ((b : Item) × (before ≡ some b) × ((b.kind == "finding") ≡ true))
IsFoundedIn removed before after =
    (after ≡ none) × ((b : Item) × (before ≡ some b) × ((b.kind == "finding") ≡ false))
IsFoundedIn changed before after =
    (b : Item) × (a : Item) × (before ≡ some b)
    × (after ≡ some a)
    × ((b.sha256 == a.sha256) ≡ false)
IsFoundedIn unverifiable before after = ⊥

abbrev Founded : String → Dict String Item → Dict String Item → Change → Type 0
Founded source before after c =
    (c.source ≡ source) × ((k : String) × IsFoundedIn c.category (lookup k before) (lookup k after))

appeared-IsFoundedIn : (a : Item) → IsFoundedIn (appeared a) none (some a)
appeared-IsFoundedIn a =
    if-elim (λ c. IsFoundedIn c none (some a)) (a.kind == "finding") (λ h. (refl, (a, refl, h)))
      (λ h. (refl, (a, refl, h)))

disappeared-IsFoundedIn : (b : Item) → IsFoundedIn (disappeared b) (some b) none
disappeared-IsFoundedIn b =
    if-elim (λ c. IsFoundedIn c (some b) none) (b.kind == "finding") (λ h. (refl, (b, refl, h)))
      (λ h. (refl, (b, refl, h)))

items-Founded :
    (source : String) (before after : Option Item)
    → All
        (λ c. (c.source ≡ source) × IsFoundedIn c.category before after)
        (compare_items source before after)
unfolding compare_items
items-Founded source none none = tt
items-Founded source none (some a) = ((refl, appeared-IsFoundedIn a), tt)
items-Founded source (some b) none = ((refl, disappeared-IsFoundedIn b), tt)
items-Founded source (some b) (some a) = elim (Bool-cases (b.sha256 == a.sha256)) [
  | inl same ↦ rw same tt
  | inr differs ↦ rw differs ((refl, (b, a, refl, refl, differs)), tt)
]

at-Founded :
    (source : String) (before after : Dict String Item) (k : String) (cs : List Change)
    → All (λ c. (c.source ≡ source) × IsFoundedIn c.category (lookup k before) (lookup k after)) cs
    → All (Founded source before after) cs
at-Founded source before after k [] _ = tt
at-Founded source before after k (c ∷ cs) ((s, f), rest) =
    ((s, (k, f)), at-Founded source before after k cs rest)

keys-Founded :
    (source : String) (before after : Dict String Item) (ks : List String)
    → All (Founded source before after) (compare_keys source before after ks)
unfolding compare_keys
keys-Founded source before after [] = tt
keys-Founded source before after (k ∷ ks) =
    All-append (Founded source before after) _ _
      (at-Founded source before after k _ (items-Founded source (lookup k before) (lookup k after)))
      (keys-Founded source before after ks)

-- A change that is called unverifiable belongs to a source that one of the profiles has not collected. Any other
-- change belongs to a source that both have collected, and is what its category says for the items of some key.
abbrev pub IsFounded : Profile → Profile → Change → Type 0
IsFounded baseline current c =
    ((c.category ≡ unverifiable)
      × (((status_of (lookup c.source baseline.sources) == "collected")
            && (status_of (lookup c.source current.sources) == "collected"))
          ≡ false))
    ⊎ ((status_of (lookup c.source baseline.sources) ≡ "collected")
        × (status_of (lookup c.source current.sources) ≡ "collected")
        × ((k : String) × IsFoundedIn c.category
              (lookup k (items_of (lookup c.source baseline.sources)))
              (lookup k (items_of (lookup c.source current.sources)))))

source-IsFounded :
    (baseline current : Profile) (source : String) (cs : List Change)
    → status_of (lookup source baseline.sources) ≡ "collected"
    → status_of (lookup source current.sources) ≡ "collected"
    → All
        (Founded source
          (items_of (lookup source baseline.sources))
          (items_of (lookup source current.sources)))
        cs
    → All (IsFounded baseline current) cs
source-IsFounded baseline current source [] b a _ = tt
source-IsFounded baseline current source (c ∷ cs) b a ((s, (k, f)), rest) =
    (rw s (inr (b, a, (k, f))), source-IsFounded baseline current source cs b a rest)

both :
    (s t : String)
    → (not (s == "collected") || not (t == "collected")) ≡ false
    → (s ≡ "collected") × (t ≡ "collected")
both s t h = (ground (arith, h, eq_iff s "collected"), ground (arith, h, eq_iff t "collected"))

compare_source-IsFounded :
    (baseline current : Profile) (source : String)
    → All
        (IsFounded baseline current)
        (compare_source source (lookup source baseline.sources) (lookup source current.sources))
unfolding compare_source
compare_source-IsFounded baseline current source =
    if-elim (All (IsFounded baseline current))
      (not (status_of (lookup source baseline.sources) == "collected")
        || not (status_of (lookup source current.sources) == "collected"))
      (λ h.
        if-elim (All (IsFounded baseline current))
          (not (status_of (lookup source baseline.sources) == "collected")
            && not (status_of (lookup source current.sources) == "collected")
            && not (required_of (lookup source baseline.sources))
            && not (required_of (lookup source current.sources)))
          (λ _. tt) (λ _. unfold unverifiable_change in (inl (refl, ground (arith, h)), tt)))
      (λ h.
        source-IsFounded baseline current source _
          (both (status_of (lookup source baseline.sources))
            (status_of (lookup source current.sources)) h).0
          (both (status_of (lookup source baseline.sources))
            (status_of (lookup source current.sources)) h).1
          (keys-Founded source (items_of (lookup source baseline.sources))
            (items_of (lookup source current.sources))
            (all_keys (keys (items_of (lookup source baseline.sources)))
              (keys (items_of (lookup source current.sources))))))

sources-IsFounded :
    (baseline current : Profile) (ks : List String)
    → All (IsFounded baseline current) (compare_sources baseline.sources current.sources ks)
unfolding compare_sources
sources-IsFounded baseline current [] = tt
sources-IsFounded baseline current (k ∷ ks) =
    All-append (IsFounded baseline current) _ _ (compare_source-IsFounded baseline current k)
      (sources-IsFounded baseline current ks)

-- Every change that a comparison reports is founded: an object is called added, removed, changed, a new problem or
-- resolved only if both profiles have collected its source and their items under some key are as the category
-- says. A source that was not collected gives no change but the unverifiable one.
pub changes_between-IsFounded :
    (baseline current : Profile)
    → All (IsFounded baseline current) (changes_between baseline current)
unfolding changes_between
changes_between-IsFounded baseline current = sources-IsFounded baseline current _
