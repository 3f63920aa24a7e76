-- ===== src/Prelude/Outcome.antt =====
-- A value, or the message of the exception that the code raises.
use mathlib.Core.Path.{◌≡◌, refl, ap, ◌∙◌}
use mathlib.Core.Logic.{◌⊎◌, inl, inr}
use mathlib.Core.Bool.{Bool, true, false}
use Prim.Native.String.{String}

pub data Result {ℓ} (A : Type ℓ) : Type ℓ where
  error : String → Result A
  ok : A → Result A

module _ {ℓ} {A : Type ℓ} where
  unfoldable pub and_then {κ} : {B : Type κ} → Result A → (A → Result B) → Result B
  and_then (error m) f = error m
  and_then (ok a) f = f a

  abbrev pub is_ok : Result A → Bool
  is_ok (error m) = false
  is_ok (ok a) = true

  -- `if condition: raise ValueError(message)`, followed by the rest.
  unfoldable pub refuse : Bool → String → Result A → Result A
  refuse true m r = error m
  refuse false m r = r

  abbrev pub ok_value : A → Result A → A
  ok_value a (error m) = a
  ok_value a (ok b) = b

  pub ok-injective : (a b : A) → ok a ≡ ok b → a ≡ b
  ok-injective a b h = ap (ok_value a) h

  pub refuse-ok :
      (b : Bool) (m : String) (r : Result A) (a : A)
      → refuse b m r ≡ ok a
      → (b ≡ false) × (r ≡ ok a)
  unfolding refuse
  refuse-ok true m r a h = cc
  refuse-ok false m r a h = (refl, h)

  pub refuse-pass : (b : Bool) (m : String) (r s : Result A) → b ≡ false → r ≡ s → refuse b m r ≡ s
  unfolding refuse
  refuse-pass true m r s h e = cc
  refuse-pass false m r s h e = e

  pub Result-cases : (r : Result A) → ((m : String) × (r ≡ error m)) ⊎ ((a : A) × (r ≡ ok a))
  Result-cases (error m) = inl (m, refl)
  Result-cases (ok a) = inr (a, refl)

  pub and_then-ok {κ} :
      {B : Type κ} (r : Result A) (f : A → Result B) (b : B)
      → and_then r f ≡ ok b
      → (a : A) × (r ≡ ok a) × (f a ≡ ok b)
  unfolding and_then
  and_then-ok (error m) f b h = cc
  and_then-ok (ok a) f b h = (a, refl, h)

  pub and_then-pass {κ} :
      {B : Type κ} (r : Result A) (f : A → Result B) (a : A) (s : Result B)
      → r ≡ ok a
      → f a ≡ s
      → and_then r f ≡ s
  unfolding and_then
  and_then-pass (error m) f a s h e = cc
  and_then-pass (ok b) f a s h e = ap f (ok-injective b a h) ∙ e

  -- A refusal that is made.
  pub refuse-fails :
      (b : Bool) (m : String) (r : Result A) → b ≡ true → is_ok (refuse b m r) ≡ false
  unfolding refuse
  refuse-fails true m r h = refl
  refuse-fails false m r h = cc

  pub refuse-stays :
      (b : Bool) (m : String) (r : Result A) → is_ok r ≡ false → is_ok (refuse b m r) ≡ false
  unfolding refuse
  refuse-stays true m r h = refl
  refuse-stays false m r h = h

pub and_then-stays {ℓ κ} :
    {A : Type ℓ} {B : Type κ} (r : Result A) (f : A → Result B)
    → ((a : A) → is_ok (f a) ≡ false)
    → is_ok (and_then r f) ≡ false
unfolding and_then
and_then-stays (error m) f h = refl
and_then-stays (ok a) f h = h a
