-- ===== src/Normalize/Correlate/Window.antt =====
-- The sliding window of `correlate_events` in src/kdiag/normalize.py.
use k8s_check.Prelude.{
  length-sort_by, sort_by, length-append, ℕ, ◌+◌, ◌≤◌, ◌≡◌, refl, inl, inr, String, Bool, true,
  ◌&&◌, List, [], ◌∷◌, ◌++◌, arith, string_eq, contains, any, all, length, ltb, if◌then◌else◌, All,
  if-elim, Bool-cases,
}
use k8s_check.Normalize.Correlate.{
  Timed, Counter, no_count, is_relevant, count_event, uncount_event, shrink, covers, matches,
  relevant_of, Spec, scope_matches, timed_leb,
}

-- The number of the events that have a relevant category.
number_with : List String → String → List Timed → ℕ
number_with relevant category [] = 0
number_with relevant category (e ∷ es) =
    (if is_relevant relevant e category then 1 else 0) + number_with relevant category es

abbrev Counts : List String → List Timed → Counter → Type 0
Counts relevant es counts = (category : String) → counts category ≡ number_with relevant category es

number_with-append :
    (relevant : List String) (category : String) (es : List Timed) (e : Timed)
    → number_with relevant category (es ++ e ∷ [])
      ≡ number_with relevant category es + (if is_relevant relevant e category then 1 else 0)
unfolding number_with
number_with-append relevant category [] e = omega arith
number_with-append relevant category (x ∷ es) e =
    ground (arith, number_with-append relevant category es e)

count_event-Counts :
    (relevant : List String) (es : List Timed) (e : Timed) (counts : Counter)
    → Counts relevant es counts
    → Counts relevant (es ++ e ∷ []) (count_event relevant e counts)
unfolding count_event
count_event-Counts relevant es e counts h category =
    ground (arith, h category, number_with-append relevant category es e)

uncount_event-Counts :
    (relevant : List String) (es : List Timed) (e : Timed) (counts : Counter)
    → Counts relevant (e ∷ es) counts
    → Counts relevant es (uncount_event relevant e counts)
unfolding uncount_event number_with
uncount_event-Counts relevant es e counts h category = ground (arith, h category)

-- The first event of a window is no older than the window before the time.
abbrev pub Spans : ℕ → ℕ → List Timed → Type 0
Spans window now [] = Unit
Spans window now (e ∷ es) = now ≤ e.0 + window

shrink-Counts :
    (window : ℕ) (relevant : List String) (now : ℕ) (es : List Timed) (counts : Counter)
    → Counts relevant es counts
    → Counts relevant
        (shrink window relevant now es counts).0
        (shrink window relevant now es counts).1
      × Spans window now (shrink window relevant now es counts).0
unfolding shrink
shrink-Counts window relevant now [] counts h = (h, tt)
shrink-Counts window relevant now (e ∷ es) counts h =
    if-elim (λ (s : List Timed × Counter). Counts relevant s.0 s.1 × Spans window now s.0)
      (ltb (e.0 + window) now)
      (λ _.
        shrink-Counts window relevant now es (uncount_event relevant e counts)
          (uncount_event-Counts relevant es e counts h))
      (λ new. (h, ground (arith, new)))

-- Some event has one of the categories.
abbrev pub has_category : List Timed → List String → Bool
has_category es group = any (λ category. any (λ e. contains e.1.categories category) es) group

number_with-positive :
    (relevant : List String) (category : String) (es : List Timed)
    → ltb 0 (number_with relevant category es) ≡ true
    → any (λ e. contains e.1.categories category) es ≡ true
unfolding number_with
number_with-positive relevant category [] h = ground (arith, h)
number_with-positive relevant category (e ∷ es) h =
    elim (Bool-cases (contains e.1.categories category)) [
      | inl has ↦ ground (arith, has)
      | inr hasnt ↦
          ground
            (arith, hasnt, number_with-positive relevant category es (ground (arith, h, hasnt)))
    ]

group-has_category :
    (relevant : List String) (es : List Timed) (counts : Counter) (group : List String)
    → Counts relevant es counts
    → any (λ category. ltb 0 (counts category)) group ≡ true
    → has_category es group ≡ true
group-has_category relevant es counts [] h c = c
group-has_category relevant es counts (category ∷ group) h c =
    elim (Bool-cases (ltb 0 (counts category))) [
      | inl some' ↦
          ground (arith, number_with-positive relevant category es (rw (h category) at some'))
      | inr none' ↦
          ground (arith, group-has_category relevant es counts group h (ground (arith, c, none')))
    ]

covers-has_category :
    (relevant : List String) (es : List Timed) (counts : Counter) (groups : List (List String))
    → Counts relevant es counts
    → covers counts groups ≡ true
    → all (has_category es) groups ≡ true
covers-has_category relevant es counts [] h c = refl
covers-has_category relevant es counts (group ∷ groups) h c = ground (
  arith,
  group-has_category relevant es counts group h (ground (arith, c)),
  covers-has_category relevant es counts groups h (ground (arith, c)),
)

-- The time of the last event, or the default.
abbrev pub last_time : ℕ → List Timed → ℕ
last_time now [] = now
last_time now (e ∷ es) = last_time e.0 es

last_time-append : (now : ℕ) (es : List Timed) (e : Timed) → last_time now (es ++ e ∷ []) ≡ e.0
last_time-append now [] e = refl
last_time-append now (x ∷ es) e = last_time-append x.0 es e

last_time-tail :
    (now first : ℕ) (es : List Timed) → last_time first es ≡ now → last_time now es ≡ now
last_time-tail now first [] h = refl
last_time-tail now first (e ∷ es) h = h

last_time-shrink :
    (window : ℕ) (relevant : List String) (now : ℕ) (es : List Timed) (counts : Counter)
    → last_time now es ≡ now
    → last_time now (shrink window relevant now es counts).0 ≡ now
unfolding shrink
last_time-shrink window relevant now [] counts h = refl
last_time-shrink window relevant now (e ∷ es) counts h =
    if-elim (λ (s : List Timed × Counter). last_time now s.0 ≡ now) (ltb (e.0 + window) now)
      (λ _.
        last_time-shrink window relevant now es (uncount_event relevant e counts)
          (last_time-tail now e.0 es h))
      (λ _. h)

none-Counts : (relevant : List String) → Counts relevant [] no_count
unfolding number_with
none-Counts relevant category = refl

-- A match has two events or more, for each group of the specification an event with one of its categories, and its
-- first event is no older than the window before its last.
pub record IsMatch (window : ℕ) (groups : List (List String)) (found : List Timed) : Type 0 where
  two : 2 ≤ length found
  covered : all (has_category found) groups ≡ true
  spans : Spans window (last_time 0 found) found

found-IsMatch :
    (window : ℕ) (relevant : List String) (groups : List (List String)) (now : ℕ)
    (found : List Timed) (counts : Counter)
    → Counts relevant found counts
    → Spans window now found
    → last_time now found ≡ now
    → (ltb 1 (length found) && covers counts groups) ≡ true
    → IsMatch window groups found
found-IsMatch window relevant groups now [] counts c s l h = absurd (ground (arith, h))
found-IsMatch window relevant groups now (e ∷ es) counts c s l h = record {
  two = ground (arith, h);
  covered = covers-has_category relevant (e ∷ es) counts groups c (ground (arith, h));
  spans = omega (arith, s, l);
}

matches-IsMatch :
    (window : ℕ) (relevant : List String) (groups : List (List String)) (current : List Timed)
    (counts : Counter) (candidates : List Timed)
    → Counts relevant current counts
    → All (IsMatch window groups) (matches window relevant groups current counts candidates)
unfolding matches
matches-IsMatch window relevant groups current counts [] c = tt
matches-IsMatch window relevant groups current counts (e ∷ candidates) c =
    let s = shrink window relevant e.0 (current ++ e ∷ []) (count_event relevant e counts) in
    let k =
      shrink-Counts window relevant e.0 (current ++ e ∷ []) (count_event relevant e counts)
        (count_event-Counts relevant current e counts c) in
    if-elim (All (IsMatch window groups)) (ltb 1 (length s.0) && covers s.1 groups)
      (λ h. (
        found-IsMatch window relevant groups e.0 s.0 s.1 k.0 k.1
            (last_time-shrink window relevant e.0 (current ++ e ∷ [])
              (count_event relevant e counts) (last_time-append e.0 current e))
            h,
        matches-IsMatch window relevant groups [] no_count candidates (none-Counts relevant),
      ))
      (λ _. matches-IsMatch window relevant groups s.0 s.1 candidates k.0)

-- The number of the events in all matches.
abbrev pub total_length : List (List Timed) → ℕ
total_length [] = 0
total_length (m ∷ ms) = length m + total_length ms

length-shrink :
    (window : ℕ) (relevant : List String) (now : ℕ) (es : List Timed) (counts : Counter)
    → length (shrink window relevant now es counts).0 ≤ length es
unfolding shrink
length-shrink window relevant now [] counts = omega arith
length-shrink window relevant now (e ∷ es) counts =
    if-elim (λ (s : List Timed × Counter). length s.0 ≤ length (e ∷ es)) (ltb (e.0 + window) now)
      (λ _. omega (arith, length-shrink window relevant now es (uncount_event relevant e counts)))
      (λ _. omega arith)

matches-total_length :
    (window : ℕ) (relevant : List String) (groups : List (List String)) (current : List Timed)
    (counts : Counter) (candidates : List Timed)
    → total_length (matches window relevant groups current counts candidates)
      ≤ length current + length candidates
unfolding matches
matches-total_length window relevant groups current counts [] = omega arith
matches-total_length window relevant groups current counts (e ∷ candidates) =
    let s = shrink window relevant e.0 (current ++ e ∷ []) (count_event relevant e counts) in
    let n = length-shrink window relevant e.0 (current ++ e ∷ []) (count_event relevant e counts) in
    let l = length-append current (e ∷ []) in
    if-elim (λ (ms : List (List Timed)). total_length ms ≤ length current + length (e ∷ candidates))
      (ltb 1 (length s.0) && covers s.1 groups)
      (λ _. omega (arith, n, l, matches-total_length window relevant groups [] no_count candidates))
      (λ _. omega (arith, n, l, matches-total_length window relevant groups s.0 s.1 candidates))

-- The matches among the events of a scope are sound: each has two events or more, an event for each group of the
-- specification, and spans no more than the window. Together they have no more events than there are.
pub scope_matches-IsMatch :
    (spec : Spec) (window : ℕ) (events : List Timed)
    → All (IsMatch window spec.1) (scope_matches spec window events)
      × (total_length (scope_matches spec window events) ≤ length events)
unfolding scope_matches
scope_matches-IsMatch spec window events =
    let sorted = sort_by timed_leb events in
    (
      matches-IsMatch window (relevant_of spec.1) spec.1 [] no_count sorted
          (none-Counts (relevant_of spec.1)),
      omega (
        arith,
        matches-total_length window (relevant_of spec.1) spec.1 [] no_count sorted,
        length-sort_by timed_leb events,
      ),
    )
