-- ===== src/Kubernetes/Range.antt =====
-- `_prometheus_range_step` and `_project_prometheus_range` of src/kdiag/kubernetes.py: the step of a query, and its
-- result within the limits of series and samples. The projection of a sample and of the labels are parameters; a sample
-- is missing if it is no pair or has no time. The checks that the answer is a successful one with a list of series come
-- before and are not modelled.
use k8s_check.Prelude.{
  ℕ, ◌+◌, ◌-◌, ◌*◌, ◌/◌, max, Bool, ◌||◌, List, [], ◌∷◌, ltb, leb, Result, ok, refuse, any, length,
  take, Option, none, some,
}

-- The least number of parts of size `d` that `n` needs, `math.ceil(n / d)`.
abbrev pub ceil_div : ℕ → ℕ → ℕ
ceil_div n d = (n + (d - 1)) / d

-- The step in seconds, for a positive duration in microseconds.
unfoldable pub range_step : ℕ → ℕ
range_step duration = let raw = max 30 (ceil_div duration 600000000) in ceil_div raw 30 * 30

-- The start and the end are times in microseconds.
unfoldable pub prometheus_range_step : ℕ → ℕ → Result ℕ
unfolding range_step
prometheus_range_step start stop =
    refuse (leb stop start) "Prometheus range start must be earlier than end"
      (ok (range_step (stop - start)))

abbrev pub max_series : ℕ
max_series = 200

abbrev pub max_samples : ℕ
max_samples = 1000

pub record Series (L S : Type 0) : Type 0 where
  pub metric : L
  pub values : List S

pub record RangeData (L S : Type 0) : Type 0 where
  pub series : List (Series L S)
  pub sample_count : ℕ
  pub truncated : Bool

module _ {L L' S S' : Type 0} (project_metric : L → L') (project_sample : S → Option S') where
  abbrev add_sample : Option S' → List S' → List S'
  add_sample none samples = samples
  add_sample (some s) samples = s ∷ samples

  unfoldable pub project_samples : List S → List S'
  project_samples [] = []
  project_samples (s ∷ samples) = add_sample (project_sample s) (project_samples samples)

  abbrev pub project_series : Series L S → Series L' S'
  project_series item = record {
    metric = project_metric item.metric;
    values = project_samples (take max_samples item.values);
  }

  -- Whether samples of a series were left out.
  abbrev pub is_shortened : Series L S → Bool
  is_shortened item = ltb (length (project_series item).values) (length item.values)

  -- The loop over the series.
  unfoldable pub project_all : List (Series L S) → List (Series L' S')
  unfolding project_samples
  project_all [] = []
  project_all (item ∷ items) = project_series item ∷ project_all items

  unfoldable pub count_samples : List (Series L' S') → ℕ
  count_samples [] = 0
  count_samples (item ∷ items) = length item.values + count_samples items

  unfoldable pub project_range : List (Series L S) → RangeData L' S'
  unfolding project_all count_samples
  project_range result =
      let projected = project_all (take max_series result) in
      record {
        series = projected;
        sample_count = count_samples projected;
        truncated = ltb max_series (length result) || any is_shortened (take max_series result);
      }
