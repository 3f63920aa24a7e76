-- ===== src/Llm/Bounded.antt =====
-- `_trim_package` of src/kdiag/llm_export.py: the package it returns, and when it returns one.
use k8s_check.Prelude.{
  ◌⊎◌, false, length-append, is_empty, arith, true, ◌+◌, [], ◌≡◌, length, contains, String, List,
  Option, if◌then◌else◌, ℕ, zero, suc, ◌≤◌, refl, ◌∙◌, sym, ap, inl, inr, ◌&&◌, ◌||◌, not, none,
  some, ◌∷◌, ◌++◌, string_eq, ltb, if-elim, Bool-cases, ok, refuse, refuse-ok, refuse-pass,
  ok-injective, is_ok,
}
use k8s_check.Json.{Value, Fields}
use k8s_check.Llm.Trim.{
  max_package_bytes, removable, Lists, Removed, Package, State, package_of, is_too_large, pop_item,
  trim_loop, trim_keys, attach_truncation, trim_package,
}
use k8s_check.Llm.Fits.{Keeps, AllKept, Fits, trim_keys-AllKept, trim_keys-frame, trim_keys-ends}

-- The package with empty removable lists.
abbrev pub emptied : Lists → Lists
emptied lists k = if contains removable k then [] else lists k

abbrev pub all_removed : Lists → Removed
all_removed lists k = if contains removable k then length (lists k) else 0

abbrev pub smallest : Fields → Lists → Option (ℕ × Removed) → Package
smallest essential lists truncation = record {
  essential = essential;
  lists = emptied lists;
  truncation = truncation;
}

append-empty : (xs : List Value) → xs ++ [] ≡ xs
append-empty [] = refl
append-empty (x ∷ xs) = ap (λ r. x ∷ r) (append-empty xs)

Keeps-length :
    (original kept : List Value) (removed : ℕ)
    → Keeps original kept removed
    → length kept + removed ≡ length original
Keeps-length original kept removed (rest, e, n) =
    omega (arith, length-append kept rest, ap length e, n)

module _ (size : Package → ℕ) (max_bytes : ℕ) where
  trim_loop-essential :
      (fuel : ℕ) (key : String) (s : State)
      → ((trim_loop size max_bytes fuel key s).essential ≡ s.essential)
        × ((trim_loop size max_bytes fuel key s).attached ≡ s.attached)
  unfolding trim_loop
  trim_loop-essential zero key s = (refl, refl)
  trim_loop-essential (suc fuel) key s =
      if-elim (λ (t : State). (t.essential ≡ s.essential) × (t.attached ≡ s.attached))
        (is_too_large size max_bytes s && not (is_empty (s.lists key)))
        (λ _. unfold pop_item in trim_loop-essential fuel key (pop_item key s)) (λ _. (refl, refl))

  trim_keys-essential :
      (keys : List String) (s : State)
      → ((trim_keys size max_bytes keys s).essential ≡ s.essential)
        × ((trim_keys size max_bytes keys s).attached ≡ s.attached)
  unfolding trim_keys
  trim_keys-essential [] s = (refl, refl)
  trim_keys-essential (key ∷ keys) s =
      let l = trim_loop-essential (length (s.lists key)) key s in
      let r = trim_keys-essential keys (trim_loop size max_bytes (length (s.lists key)) key s) in
      (r.0 ∙ l.0, r.1 ∙ l.1)

  -- Once every removable list is empty, the package is the smallest one.
  exhausted :
      (original : Lists) (t : State)
      → AllKept original t
      → ((k : String) → contains removable k ≡ true → is_empty (t.lists k) ≡ true)
      → ((k : String) → contains removable k ≡ false → t.lists k ≡ original k)
      → (t.lists ≡ emptied original) × (t.trimmed ≡ all_removed original)
  exhausted original t all empty same = (λ i k. lists_at k i, λ i k. trimmed_at k i)
    where
      empty_list : (xs : List Value) → is_empty xs ≡ true → xs ≡ []
      empty_list [] h = refl
      empty_list (x ∷ xs) h = cc

      lists_at : (k : String) → t.lists k ≡ emptied original k
      lists_at k = elim (Bool-cases (contains removable k)) [
        | inl h ↦ rw h (empty_list (t.lists k) (empty k h))
        | inr h ↦ rw h (same k h)
      ]

      trimmed_at : (k : String) → t.trimmed k ≡ all_removed original k
      trimmed_at k = elim (Bool-cases (contains removable k)) [
        | inl h ↦ rw h (
            omega (
              arith,
              Keeps-length (original k) (t.lists k) (t.trimmed k) (all k),
              ap length (empty_list (t.lists k) (empty k h)),
            ))
        | inr h ↦ rw h (
            omega (
              arith,
              Keeps-length (original k) (t.lists k) (t.trimmed k) (all k),
              ap length (same k h),
            ))
      ]

  unfoldable pub start : Fields → Lists → State
  start essential lists = record {
    essential = essential;
    lists = lists;
    trimmed = λ _. 0;
    attached = false;
  }

  start-AllKept : (essential : Fields) (lists : Lists) → AllKept lists (start essential lists)
  unfolding start
  start-AllKept essential lists k = ([], append-empty (lists k), refl)

  -- What the loops reach from a state whose lists are kept.
  trim_keys-Reaches :
      (original : Lists) (s : State)
      → AllKept original s
      → ((k : String) → contains removable k ≡ false → s.lists k ≡ original k)
      → size (
          smallest s.essential original
            (if s.attached then some (max_bytes, all_removed original) else none))
        ≤ max_bytes
      → Fits size max_bytes (trim_keys size max_bytes removable s)
  unfolding is_too_large
  trim_keys-Reaches original s all same small =
      let t : State = trim_keys size max_bytes removable s in
      elim (trim_keys-ends size max_bytes removable s) [
        | inl fits ↦ fits
        | inr empty ↦
            let e =
              exhausted original t (trim_keys-AllKept size max_bytes original removable s all) empty
                (λ k h. trim_keys-frame size max_bytes removable k s h ∙ same k h) in
            let f = trim_keys-essential removable s in
            rw (f.0, f.1, e.0, e.1) (ground (arith, small))
      ]

  trim_package-passes :
      (essential : Fields) (lists : Lists) (p : Package)
      → trim_package size max_bytes essential lists ≡ ok p
      → let s = trim_keys size max_bytes removable (start essential lists) in
        let t = trim_keys size max_bytes removable (record s { attached = true }) in
        Fits size max_bytes t × (package_of size max_bytes t ≡ p)
  unfolding trim_package attach_truncation start
  trim_package-passes essential lists p h =
      let s : State = trim_keys size max_bytes removable (start essential lists) in
      let t : State = trim_keys size max_bytes removable (record s { attached = true }) in
      let r =
        refuse-ok (ltb max_bytes 16384 || ltb max_package_bytes max_bytes)
          "max_package_bytes must be between 16384 and 1048576"
          (refuse (is_too_large size max_bytes s) "essential LLM package exceeds max_package_bytes"
            (attach_truncation size max_bytes s))
          p h in
      let r1 =
        refuse-ok (is_too_large size max_bytes s) "essential LLM package exceeds max_package_bytes"
          (attach_truncation size max_bytes s) p r.1 in
      let r2 =
        refuse-ok (is_too_large size max_bytes t)
          "essential LLM package and truncation metadata exceed max_package_bytes"
          (ok (package_of size max_bytes t)) p r1.1 in
      (r2.0, ok-injective (package_of size max_bytes t) p r2.1)

  -- A package that `_trim_package` returns is not larger than the limit, keeps the essential part and the lists of
  -- other keys, and states for every key how many items were removed from the end of its list.
  pub trim_package-IsBounded :
      (essential : Fields) (lists : Lists) (p : Package)
      → trim_package size max_bytes essential lists ≡ ok p
      → (size p ≤ max_bytes)
        × (p.essential ≡ essential)
        × (removed : Removed) × (p.truncation ≡ some (max_bytes, removed))
        × ((k : String) → (contains removable k ≡ true) ⊎ (p.lists k ≡ lists k))
        × ((k : String) → Keeps (lists k) (p.lists k) (removed k))
  unfolding trim_package attach_truncation is_too_large start
  trim_package-IsBounded essential lists p h =
      let s : State = trim_keys size max_bytes removable (start essential lists) in
      let a : State = record s { attached = true } in
      let t : State = trim_keys size max_bytes removable a in
      let r = trim_package-passes essential lists p h in
      let e : package_of size max_bytes t ≡ p = r.1 in
      let f0 = trim_keys-essential removable (start essential lists) in
      let f1 = trim_keys-essential removable a in
      let all = trim_keys-AllKept size max_bytes lists removable a (
        trim_keys-AllKept size max_bytes lists removable (start essential lists)
          (start-AllKept essential lists)) in
      rw (sym e) (
        ground (arith, r.0),
        f1.0 ∙ f0.0,
        t.trimmed,
        rw f1.1 refl,
        λ k. elim (Bool-cases (contains removable k)) [
          | inl among ↦ inl among
          | inr out ↦ inr (
              trim_keys-frame size max_bytes removable k a out
              ∙ trim_keys-frame size max_bytes removable k (start essential lists) out)
        ],
        all,
      )

  -- With a limit in the accepted range, `_trim_package` returns a package whenever the one with empty removable lists
  -- is within the limit, both without the metadata of the truncation and with those that count every item.
  pub trim_package-succeeds :
      (essential : Fields) (lists : Lists)
      → 16384 ≤ max_bytes
      → max_bytes ≤ max_package_bytes
      → size (smallest essential lists none) ≤ max_bytes
      → size (smallest essential lists (some (max_bytes, all_removed lists))) ≤ max_bytes
      → is_ok (trim_package size max_bytes essential lists) ≡ true
  unfolding trim_package attach_truncation start
  trim_package-succeeds essential lists low high small large =
      let b : State = start essential lists in
      let s : State = trim_keys size max_bytes removable b in
      let a : State = record s { attached = true } in
      let f = trim_keys-essential removable b in
      let same : (k : String) → contains removable k ≡ false → s.lists k ≡ lists k =
        λ k out. trim_keys-frame size max_bytes removable k b out in
      let kept =
        trim_keys-AllKept size max_bytes lists removable b (start-AllKept essential lists) in
      let fits = trim_keys-Reaches lists b (start-AllKept essential lists) (λ k out. refl) small in
      let fits2 = trim_keys-Reaches lists a kept same (rw f.0 large) in
      ap is_ok (
        refuse-pass _ _ _ _ (ground (arith, low, high))
          (refuse-pass _ _ _ _ fits (refuse-pass _ _ _ _ fits2 refl)))
