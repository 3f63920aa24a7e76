-- ===== src/Prelude/Sorting.antt =====
-- Python's `sorted`, as a stable insertion sort by a Boolean order.
use Prim.Native.Nat.{suc}
use mathlib.Core.Path.{◌≡◌, refl, ◌∙◌, ap}
use mathlib.Core.Bool.{Bool, ◌||◌}
use mathlib.Core.Logic.{inl, inr}
use mathlib.Core.List.{List, [], ◌∷◌}
use native.Mathlib.Omega.{arith}
use k8s_check.Prelude.Tests.{if◌then◌else◌, Bool-cases}
use k8s_check.Prelude.Equality.{Eq, ◌==◌, contains}
use k8s_check.Prelude.Lists.{length, All}

module _ {ℓ} {A : Type ℓ} (le : A → A → Bool) where
  unfoldable pub insert_by : A → List A → List A
  insert_by x [] = x ∷ []
  insert_by x (y ∷ ys) = let rest = insert_by x ys in if le x y then x ∷ y ∷ ys else y ∷ rest

  unfoldable pub sort_by : List A → List A
  unfolding insert_by
  sort_by [] = []
  sort_by (x ∷ xs) = insert_by x (sort_by xs)

  pub length-insert_by : (x : A) (ys : List A) → length (insert_by x ys) ≡ suc (length ys)
  unfolding insert_by
  length-insert_by x [] = refl
  length-insert_by x (y ∷ ys) = ground (arith, length-insert_by x ys)

  pub length-sort_by : (xs : List A) → length (sort_by xs) ≡ length xs
  unfolding sort_by
  length-sort_by [] = refl
  length-sort_by (x ∷ xs) = length-insert_by x (sort_by xs) ∙ ap suc (length-sort_by xs)

  pub contains-insert_by :
      ⦃e : Eq A⦄ (x : A) (ys : List A) (a : A)
      → contains (insert_by x ys) a ≡ (a == x || contains ys a)
  unfolding insert_by
  contains-insert_by x [] a = refl
  contains-insert_by x (y ∷ ys) a = ground (arith, contains-insert_by x ys a)

  pub contains-sort_by : ⦃e : Eq A⦄ (xs : List A) (a : A) → contains (sort_by xs) a ≡ contains xs a
  unfolding sort_by
  contains-sort_by [] a = refl
  contains-sort_by (x ∷ xs) a =
      ground (arith, contains-insert_by x (sort_by xs) a, contains-sort_by xs a)

  pub All-insert_by {κ} :
      (P : A → Type κ) (x : A) (ys : List A) → P x → All P ys → All P (insert_by x ys)
  unfolding insert_by
  All-insert_by P x [] p ps = (p, tt)
  All-insert_by P x (y ∷ ys) p (q, qs) = elim (Bool-cases (le x y)) [
    | inl yes' ↦ rw yes' (p, (q, qs))
    | inr no' ↦ rw no' (q, All-insert_by P x ys p qs)
  ]

  pub All-sort_by {κ} : (P : A → Type κ) (xs : List A) → All P xs → All P (sort_by xs)
  unfolding sort_by
  All-sort_by P [] _ = tt
  All-sort_by P (x ∷ xs) (p, ps) = All-insert_by P x (sort_by xs) p (All-sort_by P xs ps)

  pub insert_by-All {κ} :
      (P : A → Type κ) (x : A) (ys : List A) → All P (insert_by x ys) → P x × All P ys
  unfolding insert_by
  insert_by-All P x [] (p, _) = (p, tt)
  insert_by-All P x (y ∷ ys) ps = elim (Bool-cases (le x y)) [
    | inl yes' ↦ let all : All P (x ∷ y ∷ ys) = rw yes' at ps in (all.0, all.1)
    | inr no' ↦
        let all : All P (y ∷ insert_by x ys) = rw no' at ps in
        let r = insert_by-All P x ys all.1 in (r.0, (all.0, r.1))
  ]

  pub sort_by-All {κ} : (P : A → Type κ) (xs : List A) → All P (sort_by xs) → All P xs
  unfolding sort_by
  sort_by-All P [] _ = tt
  sort_by-All P (x ∷ xs) ps =
      let r = insert_by-All P x (sort_by xs) ps in (r.0, sort_by-All P xs r.1)
