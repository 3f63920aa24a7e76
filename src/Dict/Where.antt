-- ===== src/Dict/Where.antt =====
-- The keys of a dict whose values pass a test.
use k8s_check.Prelude.{
  ◌≡◌, refl, Bool, true, false, Option, none, some, List, [], ◌∷◌, arith, Eq, ==_iff, contains,
  if◌then◌else◌,
}
use k8s_check.Dict.{Dict, lookup, NodupKeys, lookup-none_iff}

abbrev pub passes {κ} : {V : Type κ} → (V → Bool) → Option V → Bool
passes p none = false
passes p (some v) = p v

module _ {ℓ κ} {K : Type ℓ} {V : Type κ} where
  abbrev pub keys_where : (V → Bool) → Dict K V → List K
  keys_where p [] = []
  keys_where p ((k, v) ∷ d) = let rest = keys_where p d in if p v then k ∷ rest else rest

module _ {ℓ} {K : Type ℓ} ⦃e : Eq K⦄ where
  abbrev pub Distinct : List K → Type 0
  Distinct [] = Unit
  Distinct (k ∷ ks) = (contains ks k ≡ false) × Distinct ks

  -- A list without repetition that contains only one key is that key.
  pub only_one :
      (ks : List K) (k : K)
      → Distinct ks
      → contains ks k ≡ true
      → ((j : K) → contains ks j ≡ true → j ≡ k)
      → ks ≡ k ∷ []
  only_one [] k u h all = cc
  only_one (i ∷ []) k u h all = rw (all i (ground (arith, (==_iff i i).1 refl))) refl
  only_one (i ∷ j ∷ ks) k (fresh, u) h all = absurd (
      ground (
        arith,
        fresh,
        all i (ground (arith, (==_iff i i).1 refl)),
        all j (ground (arith, (==_iff j j).1 refl)),
        ==_iff i j,
        ==_iff j i,
      ))

module _ {ℓ κ} {K : Type ℓ} {V : Type κ} ⦃e : Eq K⦄ where
  pub contains-keys_where :
      (p : V → Bool) (k : K) (d : Dict K V)
      → NodupKeys d
      → contains (keys_where p d) k ≡ passes p (lookup k d)
  contains-keys_where p k [] u = refl
  contains-keys_where p k ((i, v) ∷ d) (fresh, u) =
      ground (arith, contains-keys_where p k d u, lookup-none_iff k d, fresh, ==_iff k i)

  pub keys_where-Distinct : (p : V → Bool) (d : Dict K V) → NodupKeys d → Distinct (keys_where p d)
  keys_where-Distinct p [] u = tt
  keys_where-Distinct p ((i, v) ∷ d) (fresh, u) =
      ground
        (arith, keys_where-Distinct p d u, contains-keys_where p i d u, lookup-none_iff i d, fresh)
