-- ===== src/Kubernetes/Within.antt =====
-- The bounds of queries in src/kdiag/kubernetes.py.
use k8s_check.Prelude.{
  Option-cases, ℕ, suc, ◌+◌, ◌≤◌, Bool, true, false, ◌||◌, ◌≡◌, refl, ◌∙◌, sym, ap, ◌⊎◌, inl, inr,
  Option, List, [], ◌∷◌, string_eq, nat_eq, option_eq, ltb, leb, map, any, length, arith,
  Bool-cases, ok, ok-injective, refuse-ok, take, length-take, take_all,
}
use Prim.Native.Nat.{◌-◌, ◌*◌, ◌%◌, ◌<◌}
use k8s_check.Kubernetes.Range.{
  range_step, prometheus_range_step, max_series, max_samples, Series, project_samples,
  project_series, is_shortened, project_all, count_samples, project_range,
}

range_step_bounds :
    (d : ℕ)
    → (range_step d % 30 ≡ 0)
      × (30 ≤ range_step d)
      × (d ≤ range_step d * 600000000)
      × ((range_step d ≡ 30) ⊎ ((range_step d - 30) * 600000000 < d))
unfolding range_step
range_step_bounds d = (omega arith, omega arith, omega arith, least d)
  where
    least : (d : ℕ) → (range_step d ≡ 30) ⊎ ((range_step d - 30) * 600000000 < d)
    least d = elim (Bool-cases (leb d 18000000000)) [
      | inl short ↦ let h : d ≤ 18000000000 = ground (arith, short) in inl (omega (arith, h))
      | inr long ↦ let h : 18000000001 ≤ d = ground (arith, long) in inr (omega (arith, h))
    ]

-- The step of a query is the least multiple of 30 seconds that is positive and leaves at most 600 steps in the range.
pub range_step-IsLeast :
    (start stop step : ℕ)
    → prometheus_range_step start stop ≡ ok step
    → (step % 30 ≡ 0)
      × (30 ≤ step)
      × (stop - start ≤ step * 600000000)
      × ((step ≡ 30) ⊎ ((step - 30) * 600000000 < stop - start))
unfolding prometheus_range_step
range_step-IsLeast start stop step h =
    let r =
      refuse-ok (leb stop start) "Prometheus range start must be earlier than end"
        (ok (range_step (stop - start))) step h in
    rw (sym (ok-injective (range_step (stop - start)) step r.1)) (range_step_bounds (stop - start))

-- The samples of an answer.
abbrev pub raw_samples : {L S : Type 0} → List (Series L S) → ℕ
raw_samples [] = 0
raw_samples (item ∷ items) = length item.values + raw_samples items

neither : (a b : Bool) → (a || b) ≡ false → (a ≡ false) × (b ≡ false)
neither a b h = (ground (arith, h), ground (arith, h))

not_above : (n k : ℕ) → ltb n k ≡ false → k ≤ n
not_above n k h = ground (arith, h)

module _ {L L' S S' : Type 0} (project_metric : L → L') (project_sample : S → Option S') where
  length-project_samples :
      (samples : List S)
      → length (project_samples project_metric project_sample samples) ≤ length samples
  unfolding project_samples
  length-project_samples [] = omega arith
  length-project_samples (s ∷ samples) = elim (Option-cases (project_sample s)) [
    | inl none' ↦ rw none' (omega (arith, length-project_samples samples))
    | inr (v, some') ↦ rw some' (omega (arith, length-project_samples samples))
  ]

  length-project_all :
      (items : List (Series L S))
      → length (project_all project_metric project_sample items) ≡ length items
  unfolding project_all
  length-project_all [] = refl
  length-project_all (item ∷ items) = ap suc (length-project_all items)

  project_series-length :
      (item : Series L S)
      → (length (project_series project_metric project_sample item).values ≤ max_samples)
        × (length (project_series project_metric project_sample item).values ≤ length item.values)
  project_series-length item =
      let p = length-project_samples (take max_samples item.values) in
      let q = length-take max_samples item.values in (omega (arith, p, q), omega (arith, p, q))

  count_bound :
      (items : List (Series L S))
      → count_samples project_metric project_sample
          (project_all project_metric project_sample items)
        ≤ length items * 1000
  unfolding count_samples project_all
  count_bound [] = omega arith
  count_bound (item ∷ items) = omega (arith, (project_series-length item).0, count_bound items)

  count_whole :
      (items : List (Series L S))
      → any (is_shortened project_metric project_sample) items ≡ false
      → count_samples project_metric project_sample
          (project_all project_metric project_sample items)
        ≡ raw_samples items
  unfolding count_samples project_all
  count_whole [] h = refl
  count_whole (item ∷ items) h =
      let p : length item.values
          ≤ length (project_series project_metric project_sample item).values =
        ground (arith, h) in
      omega (arith, p, (project_series-length item).1, count_whole items (ground (arith, h)))

  metrics_kept :
      (items : List (Series L S))
      → map (λ item. item.metric) (project_all project_metric project_sample items)
        ≡ map (λ item. project_metric item.metric) items
  unfolding project_all
  metrics_kept [] = refl
  metrics_kept (item ∷ items) = ap (λ r. project_metric item.metric ∷ r) (metrics_kept items)

  -- The result of a query has at most 200 series and 200000 samples, and if it is not called truncated, then it has every
  -- series of the answer, in order, and as many samples as they have.
  pub project_range_whole :
      (result : List (Series L S))
      → let data' = project_range project_metric project_sample result in
        (length data'.series ≤ 200)
        × (data'.sample_count ≤ 200000)
        × ((data'.truncated ≡ true)
            ⊎ ((map (λ item. item.metric) data'.series
                  ≡ map (λ item. project_metric item.metric) result)
                × (data'.sample_count ≡ raw_samples result)))
  unfolding project_range
  project_range_whole result =
      let some_series = take max_series result in
      let n = length-take max_series result in
      (
        omega (arith, length-project_all some_series, n),
        omega (arith, count_bound some_series, n),
        elim (Bool-cases (
            ltb max_series (length result)
            || any (is_shortened project_metric project_sample) some_series)) [
              | inl truncated ↦ inl truncated
              | inr whole ↦
                  let parts =
                    neither (ltb max_series (length result))
                      (any (is_shortened project_metric project_sample) some_series) whole in
                  let few : length result ≤ max_series =
                    not_above max_series (length result) parts.0 in
                  let every : some_series ≡ result = take_all max_series result few in
                  inr (
                    metrics_kept some_series ∙ ap (map (λ item. project_metric item.metric)) every,
                    count_whole some_series parts.1 ∙ ap raw_samples every,
                  )
            ],
      )
