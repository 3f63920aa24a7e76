-- ===== src/Dict.antt =====
-- Python's `dict` in insertion order, as an association list with one entry for each key.
pub mod Where
use k8s_check.Prelude.{
  suc, ◌≡◌, refl, ◌↔◌, Bool, true, false, ◌||◌, Option, none, some, List, [], ◌∷◌, arith, Eq, ◌==◌,
  ==_iff, contains, if◌then◌else◌, length,
}

abbrev pub Dict {ℓ κ} : Type ℓ → Type κ → Type (ℓ ⊔ κ)
Dict K V = List (K × V)

module _ {ℓ κ} {K : Type ℓ} {V : Type κ} where
  abbrev pub keys : Dict K V → List K
  keys [] = []
  keys ((k, _) ∷ d) = k ∷ keys d

  abbrev pub values : Dict K V → List V
  values [] = []
  values ((_, v) ∷ d) = v ∷ values d

module _ {ℓ κ} {K : Type ℓ} {V : Type κ} ⦃e : Eq K⦄ where
  -- `d.get(k)`
  abbrev pub lookup : K → Dict K V → Option V
  lookup k [] = none
  lookup k ((j, v) ∷ d) = if k == j then some v else lookup k d

  -- `k in d`
  abbrev pub has_key : K → Dict K V → Bool
  has_key k [] = false
  has_key k ((j, v) ∷ d) = k == j || has_key k d

  -- `d[k] = v`: an old key keeps its place, a new one comes last.
  abbrev pub insert : K → V → Dict K V → Dict K V
  insert k v [] = (k, v) ∷ []
  insert k v ((j, w) ∷ d) = let rest = insert k v d in if k == j then (j, v) ∷ d else (j, w) ∷ rest

  -- `del d[k]`
  abbrev pub erase : K → Dict K V → Dict K V
  erase k [] = []
  erase k ((j, w) ∷ d) = let rest = erase k d in if k == j then d else (j, w) ∷ rest

  abbrev pub NodupKeys : Dict K V → Type κ
  NodupKeys [] = Unit
  NodupKeys ((k, _) ∷ d) = (has_key k d ≡ false) × NodupKeys d

  pub lookup-insert :
      (j k : K) (v : V) (d : Dict K V)
      → lookup j (insert k v d) ≡ (if j == k then some v else lookup j d)
  lookup-insert j k v [] = refl
  lookup-insert j k v ((i, w) ∷ d) =
      ground (arith, lookup-insert j k v d, ==_iff j k, ==_iff k i, ==_iff j i)

  pub has_key-insert :
      (j k : K) (v : V) (d : Dict K V) → has_key j (insert k v d) ≡ (j == k || has_key j d)
  has_key-insert j k v [] = refl
  has_key-insert j k v ((i, w) ∷ d) =
      ground (arith, has_key-insert j k v d, ==_iff j k, ==_iff k i, ==_iff j i)

  pub has_key-erase : (j k : K) (d : Dict K V) → has_key j d ≡ false → has_key j (erase k d) ≡ false
  has_key-erase j k [] h = refl
  has_key-erase j k ((i, w) ∷ d) h = ground (arith, has_key-erase j k d)

  pub insert-NodupKeys : (k : K) (v : V) (d : Dict K V) → NodupKeys d → NodupKeys (insert k v d)
  insert-NodupKeys k v [] u = (refl, tt)
  insert-NodupKeys k v ((i, w) ∷ d) (fresh, u) =
      ground (arith, insert-NodupKeys k v d u, has_key-insert i k v d, ==_iff k i, ==_iff i k)

  pub erase-NodupKeys : (k : K) (d : Dict K V) → NodupKeys d → NodupKeys (erase k d)
  erase-NodupKeys k [] u = tt
  erase-NodupKeys k ((i, w) ∷ d) (fresh, u) =
      ground (arith, erase-NodupKeys k d u, has_key-erase i k d)

  pub lookup-none_iff : (k : K) (d : Dict K V) → (lookup k d ≡ none) ↔ (has_key k d ≡ false)
  lookup-none_iff k [] = (λ _. refl, λ _. refl)
  lookup-none_iff k ((i, w) ∷ d) = ground (arith, lookup-none_iff k d)

  pub lookup-erase :
      (j k : K) (d : Dict K V)
      → NodupKeys d
      → lookup j (erase k d) ≡ (if j == k then none else lookup j d)
  lookup-erase j k [] u = ground arith
  lookup-erase j k ((i, w) ∷ d) (fresh, u) =
      ground (arith, lookup-erase j k d u, lookup-none_iff j d, ==_iff j k, ==_iff k i, ==_iff j i)

  pub length-insert_new :
      (k : K) (v : V) (d : Dict K V) → has_key k d ≡ false → length (insert k v d) ≡ suc (length d)
  length-insert_new k v [] h = refl
  length-insert_new k v ((i, w) ∷ d) h = ground (arith, length-insert_new k v d)

  pub length-insert_old :
      (k : K) (v : V) (d : Dict K V) → has_key k d ≡ true → length (insert k v d) ≡ length d
  length-insert_old k v [] h = cc
  length-insert_old k v ((i, w) ∷ d) h = ground (arith, length-insert_old k v d)

  pub length-erase :
      (k : K) (d : Dict K V) → has_key k d ≡ true → suc (length (erase k d)) ≡ length d
  length-erase k [] h = cc
  length-erase k ((i, w) ∷ d) h = ground (arith, length-erase k d)

  pub contains-keys : (k : K) (d : Dict K V) → contains (keys d) k ≡ has_key k d
  contains-keys k [] = refl
  contains-keys k ((i, w) ∷ d) = ground (arith, contains-keys k d)

  pub has_key-erase_self : (k : K) (d : Dict K V) → NodupKeys d → has_key k (erase k d) ≡ false
  has_key-erase_self k [] u = refl
  has_key-erase_self k ((i, w) ∷ d) (fresh, u) =
      ground (arith, has_key-erase_self k d u, ==_iff k i)
