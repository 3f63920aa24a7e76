-- ===== src/Normalize/Classify/Guards.antt =====
-- What the context guards of `classify_message` and the loop of `_severity` guarantee.
use k8s_check.Prelude.{
  ◌≤◌, ◌≡◌, refl, ◌⊎◌, inl, inr, ◌∙◌, String, Bool, true, false, ◌&&◌, ◌||◌, not, Option, List, [],
  ◌∷◌, arith, string_eq, contains, ltb, str_leb, All, if◌then◌else◌, Bool-cases, contains-filter,
  contains-nub, contains-sort_by,
}
use k8s_check.Normalize.Event.{Severity, order}
use k8s_check.Normalize.Classify.{
  without, exclude_read_only, unless, npd_category_names, kernel_context, context_filtered,
  matched_categories, classify_message, severity_loop, severity, candidate,
}

contains-unless :
    (allowed : Bool) (removed cats : List String) (c : String)
    → contains (unless allowed removed cats) c
      ≡ ((allowed || not (contains removed c)) && contains cats c)
unfolding unless
contains-unless true removed cats c = refl
contains-unless false removed cats c = contains-filter (λ c. not (contains removed c)) cats c

-- A guard adds nothing, and passes a category that it removes only where the context allows it.
unless-sub :
    (allowed : Bool) (removed cats : List String) (c : String)
    → contains (unless allowed removed cats) c ≡ true
    → contains cats c ≡ true
unless-sub allowed removed cats c h = ground (arith, contains-unless allowed removed cats c)

unless_allowed :
    (allowed : Bool) (removed cats : List String) (c : String)
    → contains removed c ≡ true
    → contains (unless allowed removed cats) c ≡ true
    → allowed ≡ true
unless_allowed allowed removed cats c r h = ground (arith, contains-unless allowed removed cats c)

contains-without :
    (removed cats : List String) (c : String)
    → contains (without removed cats) c ≡ (not (contains removed c) && contains cats c)
contains-without removed cats c = contains-filter (λ c. not (contains removed c)) cats c

exclude_read_only-sub :
    (cats : List String) (c : String)
    → contains (exclude_read_only cats) c ≡ true
    → contains cats c ≡ true
unfolding exclude_read_only
exclude_read_only-sub cats c h = ground (arith, contains-without ("read_only_fs" ∷ []) cats c)

exclude_read_only_lem :
    (cats : List String)
    → contains (exclude_read_only cats) "cgroup_access_denied" ≡ true
    → contains (exclude_read_only cats) "read_only_fs" ≡ false
unfolding exclude_read_only
exclude_read_only_lem cats h = ground (
  arith,
  contains-without ("read_only_fs" ∷ []) cats "read_only_fs",
  contains-without ("read_only_fs" ∷ []) cats "cgroup_access_denied",
)

module _ (search : String → String → Bool) (lower : String → String)
    (dns_component : String → Bool) where
  contains-classify_message :
      (message : String) (reason source component : Option String) (c : String)
      → contains (classify_message search lower dns_component message reason source component) c
        ≡ contains
            (context_filtered search lower dns_component
              (matched_categories search lower dns_component message reason source component)
              source
              component)
            c
  unfolding classify_message
  contains-classify_message message reason source component c =
      contains-sort_by str_leb _ c ∙ contains-nub _ c

  context_filtered-cgroup :
      (cats : List String) (source component : Option String)
      → contains
          (context_filtered search lower dns_component cats source component)
          "cgroup_access_denied"
        ≡ true
      → contains (context_filtered search lower dns_component cats source component) "read_only_fs"
        ≡ false
  unfolding context_filtered
  context_filtered-cgroup cats source component h = exclude_read_only_lem _ h

  context_filtered-npd :
      (cats : List String) (source component : Option String) (c : String)
      → contains npd_category_names c ≡ true
      → contains (context_filtered search lower dns_component cats source component) c ≡ true
      → kernel_context search lower dns_component source component ≡ true
  unfolding context_filtered
  context_filtered-npd cats source component c npd h = unless_allowed _ npd_category_names _ c npd (
      unless-sub _ _ _ c (
        unless-sub _ _ _ c (unless-sub _ _ _ c (unless-sub _ _ _ c (exclude_read_only-sub _ c h)))))

  -- A message that is filed as a denied cgroup access is never filed as a read-only file system too.
  classify_message_cgroup :
      (message : String) (reason source component : Option String)
      → contains
          (classify_message search lower dns_component message reason source component)
          "cgroup_access_denied"
        ≡ true
      → contains
          (classify_message search lower dns_component message reason source component)
          "read_only_fs"
        ≡ false
  classify_message_cgroup message reason source component h =
      rw contains-classify_message
        (context_filtered-cgroup _ source component (rw contains-classify_message at h))

  -- A category of the node problem detector is reported only in kernel context.
  classify_message_npd :
      (message : String) (reason source component : Option String) (c : String)
      → contains npd_category_names c ≡ true
      → contains (classify_message search lower dns_component message reason source component) c
        ≡ true
      → kernel_context search lower dns_component source component ≡ true
  classify_message_npd message reason source component c npd h =
      context_filtered-npd _ source component c npd (rw contains-classify_message at h)

loop-le :
    (default result : Severity) (cats : List String) (r : Severity)
    → r ≡ severity_loop default result cats
    → (order result ≤ order r) × All (λ c. order (candidate default c) ≤ order r) cats
unfolding severity_loop
loop-le default result [] r e = (rw e (omega arith), tt)
loop-le default result (c ∷ cs) r e =
    let next = candidate default c in
    let ih = loop-le default (if ltb (order result) (order next) then next else result) cs r e in
    (ground (arith, ih.0), (ground (arith, ih.0), ih.1))

-- The severities that `_severity` can return: the first value, and that of each category.
abbrev pub Reported : Severity → Severity → List String → Severity → Type 0
Reported default first [] r = r ≡ first
Reported default first (c ∷ cs) r = (r ≡ candidate default c) ⊎ Reported default first cs r

Reported-mono :
    (default result : Severity) (c : String) (cats : List String) (r : Severity)
    → Reported default (candidate default c) cats r
    → (r ≡ candidate default c) ⊎ Reported default result cats r
Reported-mono default result c [] r h = inl h
Reported-mono default result c (d ∷ cats) r (inl e) = inr (inl e)
Reported-mono default result c (d ∷ cats) r (inr h) =
    elim (Reported-mono default result c cats r h) [ inl e ↦ inl e | inr k ↦ inr (inr k) ]

loop-Reported :
    (default result : Severity) (cats : List String)
    → Reported default result cats (severity_loop default result cats)
unfolding severity_loop
loop-Reported default result [] = refl
loop-Reported default result (c ∷ cs) =
    elim (Bool-cases (ltb (order result) (order (candidate default c)))) [
      | inl up ↦
          rw up
            (Reported-mono default result c cs _ (loop-Reported default (candidate default c) cs))
      | inr stay ↦ rw stay (inr (loop-Reported default result cs))
    ]

-- The severity of an event is at least the default and that of each of its categories, and it is
-- the default or that of one of its categories.
severity_greatest :
    (cats : List String) (default : Severity)
    → (order default ≤ order (severity cats default))
      × All (λ c. order (candidate default c) ≤ order (severity cats default)) cats
      × Reported default default cats (severity cats default)
unfolding severity
severity_greatest cats default =
    let le = loop-le default default cats (severity_loop default default cats) refl in
    (le.0, le.1, loop-Reported default default cats)
