-- ===== src/Llm/Fits.antt =====
-- `_trim_package` of src/kdiag/llm_export.py keeps to the limit, and succeeds whenever it can.
use k8s_check.Prelude.{
  ℕ, zero, suc, ◌+◌, ◌≤◌, ◌≡◌, refl, ◌∙◌, sym, ap, ◌⊎◌, inl, inr, String, true, false, ◌&&◌, not,
  List, [], ◌∷◌, ◌++◌, arith, ◌==◌, ==_iff, string_eq, if-elim, is_empty, length, length-drop_last,
  drop_last, contains, Bool-cases,
}
use k8s_check.Json.{Value}
use k8s_check.Llm.Trim.{Lists, Package, State, pop_item, is_too_large, trim_loop, trim_keys}

no_length : (xs : List Value) → length xs ≤ 0 → is_empty xs ≡ true
no_length [] h = refl
no_length (x ∷ xs) h = absurd (omega (arith, h))

-- What was taken from the end of a list: with it, the list is the original one, and its length is the number of the
-- removed items.
abbrev pub Keeps : List Value → List Value → ℕ → Type 0
Keeps original kept removed =
    (rest : List Value) × (kept ++ rest ≡ original) × (length rest ≡ removed)

append_assoc : (xs ys zs : List Value) → (xs ++ ys) ++ zs ≡ xs ++ (ys ++ zs)
append_assoc [] ys zs = refl
append_assoc (x ∷ xs) ys zs = ap (λ r. x ∷ r) (append_assoc xs ys zs)

append-drop_last :
    (xs : List Value) → is_empty xs ≡ false → (last : Value) × (drop_last xs ++ last ∷ [] ≡ xs)
append-drop_last [] h = cc
append-drop_last (x ∷ []) h = (x, refl)
append-drop_last (x ∷ y ∷ ys) h =
    let r = append-drop_last (y ∷ ys) refl in (r.0, ap (λ r. x ∷ r) r.1)

Keeps-pop :
    (original kept : List Value) (removed : ℕ)
    → is_empty kept ≡ false
    → Keeps original kept removed
    → Keeps original (drop_last kept) (removed + 1)
Keeps-pop original kept removed h (rest, e, n) =
    let l = append-drop_last kept h in
    (
      l.0 ∷ rest,
      sym (append_assoc (drop_last kept) (l.0 ∷ []) rest) ∙ ap (λ r. r ++ rest) l.1 ∙ e,
      omega (arith, n),
    )

abbrev pub AllKept : Lists → State → Type 0
AllKept original s = (k : String) → Keeps (original k) (s.lists k) (s.trimmed k)

pop_item-AllKept :
    (original : Lists) (key : String) (s : State)
    → is_empty (s.lists key) ≡ false
    → AllKept original s
    → AllKept original (pop_item key s)
unfolding pop_item
pop_item-AllKept original key s h all k = elim (Bool-cases (k == key)) [
  | inl same ↦
      rw (same, (==_iff k key).0 same)
        (Keeps-pop (original key) (s.lists key) (s.trimmed key) h (all key))
  | inr other ↦ rw other (all k)
]

module _ (size : Package → ℕ) (max_bytes : ℕ) where
  trim_loop-AllKept :
      (original : Lists) (fuel : ℕ) (key : String) (s : State)
      → AllKept original s
      → AllKept original (trim_loop size max_bytes fuel key s)
  unfolding trim_loop
  trim_loop-AllKept original zero key s all = all
  trim_loop-AllKept original (suc fuel) key s all =
      if-elim (AllKept original) (is_too_large size max_bytes s && not (is_empty (s.lists key)))
        (λ h.
          trim_loop-AllKept original fuel key (pop_item key s)
            (pop_item-AllKept original key s (ground (arith, h)) all))
        (λ _. all)

  pub trim_keys-AllKept :
      (original : Lists) (keys : List String) (s : State)
      → AllKept original s
      → AllKept original (trim_keys size max_bytes keys s)
  unfolding trim_keys
  trim_keys-AllKept original [] s all = all
  trim_keys-AllKept original (key ∷ keys) s all =
      trim_keys-AllKept original keys _
        (trim_loop-AllKept original (length (s.lists key)) key s all)

  abbrev pub Fits : State → Type 0
  Fits s = is_too_large size max_bytes s ≡ false

  trim_loop-frame :
      (fuel : ℕ) (key k : String) (s : State)
      → (k == key) ≡ false
      → (trim_loop size max_bytes fuel key s).lists k ≡ s.lists k
  unfolding trim_loop
  trim_loop-frame zero key k s h = refl
  trim_loop-frame (suc fuel) key k s h =
      if-elim (λ (t : State). t.lists k ≡ s.lists k)
        (is_too_large size max_bytes s && not (is_empty (s.lists key)))
        (λ _. trim_loop-frame fuel key k (pop_item key s) h ∙ unfold pop_item in (rw h refl))
        (λ _. refl)

  trim_loop-empty :
      (fuel : ℕ) (key k : String) (s : State)
      → is_empty (s.lists k) ≡ true
      → is_empty ((trim_loop size max_bytes fuel key s).lists k) ≡ true
  unfolding trim_loop
  trim_loop-empty zero key k s h = h
  trim_loop-empty (suc fuel) key k s h =
      if-elim (λ (t : State). is_empty (t.lists k) ≡ true)
        (is_too_large size max_bytes s && not (is_empty (s.lists key)))
        (λ more. trim_loop-empty fuel key k (pop_item key s) (
          unfold pop_item in
          (elim (Bool-cases (k == key)) [
            | inl same ↦
                let e : is_empty (s.lists key) ≡ true = rw ((==_iff k key).0 same) at h in
                absurd (ground (arith, more, e))
            | inr other ↦ rw other h
          ])))
        (λ _. h)

  -- The loop for a key ends with a package that fits, or with an empty list.
  trim_loop-ends :
      (fuel : ℕ) (key : String) (s : State)
      → length (s.lists key) ≤ fuel
      → Fits (trim_loop size max_bytes fuel key s)
        ⊎ (is_empty ((trim_loop size max_bytes fuel key s).lists key) ≡ true)
  unfolding trim_loop
  trim_loop-ends zero key s h = inr (no_length (s.lists key) h)
  trim_loop-ends (suc fuel) key s h =
      if-elim (λ (t : State). Fits t ⊎ (is_empty (t.lists key) ≡ true))
        (is_too_large size max_bytes s && not (is_empty (s.lists key)))
        (λ more. trim_loop-ends fuel key (pop_item key s) (
          unfold pop_item in
          (rw ((==_iff key key).1 refl) (omega (arith, h, length-drop_last (s.lists key))))))
        (λ done. elim (Bool-cases (is_too_large size max_bytes s)) [
          | inl large ↦ inr (ground (arith, done, large))
          | inr fits ↦ inl fits
        ])

  trim_loop-Fits :
      (fuel : ℕ) (key : String) (s : State) → Fits s → trim_loop size max_bytes fuel key s ≡ s
  unfolding trim_loop
  trim_loop-Fits zero key s h = refl
  trim_loop-Fits (suc fuel) key s h = rw h refl

  trim_keys-Fits : (keys : List String) (s : State) → Fits s → trim_keys size max_bytes keys s ≡ s
  unfolding trim_keys
  trim_keys-Fits [] s h = refl
  trim_keys-Fits (key ∷ keys) s h =
      rw (trim_loop-Fits (length (s.lists key)) key s h) (trim_keys-Fits keys s h)

  trim_keys-empty :
      (keys : List String) (k : String) (s : State)
      → is_empty (s.lists k) ≡ true
      → is_empty ((trim_keys size max_bytes keys s).lists k) ≡ true
  unfolding trim_keys
  trim_keys-empty [] k s h = h
  trim_keys-empty (key ∷ keys) k s h =
      trim_keys-empty keys k _ (trim_loop-empty (length (s.lists key)) key k s h)

  pub trim_keys-frame :
      (keys : List String) (k : String) (s : State)
      → contains keys k ≡ false
      → (trim_keys size max_bytes keys s).lists k ≡ s.lists k
  unfolding trim_keys
  trim_keys-frame [] k s h = refl
  trim_keys-frame (key ∷ keys) k s h =
      trim_keys-frame keys k _ (ground (arith, h))
      ∙ trim_loop-frame (length (s.lists key)) key k s (ground (arith, h))

  -- The loops for all keys end with a package that fits, or with empty lists.
  pub trim_keys-ends :
      (keys : List String) (s : State)
      → Fits (trim_keys size max_bytes keys s)
        ⊎ ((k : String)
            → contains keys k ≡ true
            → is_empty ((trim_keys size max_bytes keys s).lists k) ≡ true)
  unfolding trim_keys
  trim_keys-ends [] s = inr (λ k h. cc)
  trim_keys-ends (key ∷ keys) s =
      let t : State = trim_loop size max_bytes (length (s.lists key)) key s in
      elim (trim_loop-ends (length (s.lists key)) key s (omega arith)) [
        | inl fits ↦ inl (rw (trim_keys-Fits keys t fits) fits)
        | inr empty ↦ elim (trim_keys-ends keys t) [
          | inl fits ↦ inl fits
          | inr all ↦ inr (λ k h. elim (Bool-cases (k == key)) [
            | inl same ↦ trim_keys-empty keys k t (rw ((==_iff k key).0 same) empty)
            | inr other ↦ all k (ground (arith, h, other))
          ])
        ]
      ]
