-- ===== src/Normalize/Append.antt =====
-- `_append` of src/kdiag/normalize.py: the filters that an event passes, the fingerprint table and
-- the bounded list of normalized events, with the statistics that are kept of them.
pub mod Account
pub mod Occurrences
use k8s_check.Prelude.{
  ℕ, zero, suc, ◌+◌, max, String, Bool, true, false, ◌&&◌, ◌||◌, not, Option, none, some, List, [],
  ◌∷◌, ◌++◌, ◌==◌, string_eq, pair_eq, contains, ltb, leb, if◌then◌else◌, is_some, is_empty, any,
  get_or, or_text, length,
}
use k8s_check.Dict.{Dict, lookup, insert}
use k8s_check.Normalize.Event.{Event, Patterns}
use k8s_check.Normalize.Classify.{dns_error_categories}
use k8s_check.Normalize.Fingerprint.{
  Table, Counted, weight, max_unknown_fingerprints, count_fingerprint,
}

abbrev pub max_normalization_candidates : ℕ
max_normalization_candidates = 200000

-- A `Counter`.
abbrev pub Counter : Type 0
Counter = Dict String ℕ

-- `counter[key] += n`
unfoldable pub add_count : String → ℕ → Counter → Counter
add_count key n counter = insert key (get_or (lookup key counter) 0 + n) counter

-- The statistics that `_append` and the later stages keep.
pub record Stats : Type 0 where
  pub input_records : ℕ
  pub categorized_records : ℕ
  pub uncategorized_records : ℕ
  pub dropped_records : ℕ
  pub unknown_fingerprint_replacements : ℕ
  pub cgroup_events_suppressed : ℕ
  pub dns_smoke_events_suppressed : ℕ
  pub candidate_limit_drops : ℕ
  pub output_limit_drops : ℕ
  pub deduplicated_records : ℕ
  pub incident_window_filtered_records : ℕ
  pub source_records : Counter
  pub category_records : Counter
  pub dropped_by_source : Counter
  pub truncated : Bool
  pub incident_start_epoch : Option ℕ
  pub incident_end_epoch : Option ℕ

pub record State : Type 0 where
  pub events : List Event
  pub unknown : Table
  pub stats : Stats

abbrev below : ℕ → Option ℕ → Bool
below epoch none = false
below epoch (some start) = ltb epoch start

abbrev above : ℕ → Option ℕ → Bool
above epoch none = false
above epoch (some end) = ltb end epoch

abbrev epoch_outside : Option ℕ → Stats → Bool
epoch_outside none stats = false
epoch_outside (some epoch) stats =
    below epoch stats.incident_start_epoch || above epoch stats.incident_end_epoch

-- The test of the incident window.
unfoldable pub outside_window : Event → Stats → Bool
outside_window event stats =
    not event.timestamp_inferred && epoch_outside event.timestamp_epoch stats

-- The test for the DNS queries of the smoke test.
unfoldable pub is_dns_smoke : Patterns → Event → Bool
is_dns_smoke p event =
    any (contains dns_error_categories) event.categories
    && (p.dns_component (or_text event.component "") && p.dns_smoke_query event.message_excerpt)

-- The two lines at the head of `_append`.
unfoldable pub count_input : Event → Stats → Stats
unfolding add_count
count_input event stats = record stats {
  input_records = stats.input_records + 1;
  source_records = add_count event.source 1 stats.source_records;
}

drop_outside : Event → Stats → Stats
unfolding add_count
drop_outside event stats = record stats {
  incident_window_filtered_records = stats.incident_window_filtered_records + weight event;
  dropped_by_source = add_count event.source 1 stats.dropped_by_source;
}

drop_smoke : Event → Stats → Stats
drop_smoke event stats = record stats {
  dns_smoke_events_suppressed = stats.dns_smoke_events_suppressed + weight event;
}

add_categories : List String → Counter → Counter
unfolding add_count
add_categories [] counter = counter
add_categories (c ∷ cs) counter = add_categories cs (add_count c 1 counter)

-- The event counts in the table of fingerprints.
track : Patterns → Event → State → State
track p event s =
    let counted =
      count_fingerprint p max_unknown_fingerprints event s.unknown
        s.stats.unknown_fingerprint_replacements in
    record s {
      unknown = counted.table;
      stats = record s.stats { unknown_fingerprint_replacements = counted.replacements };
    }

-- A categorized event is kept while there is room.
keep_event : Event → State → State
unfolding add_categories
keep_event event s =
    let stats = record s.stats {
      categorized_records = s.stats.categorized_records + 1;
      category_records = add_categories event.categories s.stats.category_records;
    } in
    if leb max_normalization_candidates (length s.events)
    then record s {
      stats = record stats {
        truncated = true;
        dropped_records = stats.dropped_records + 1;
        candidate_limit_drops = stats.candidate_limit_drops + 1;
        dropped_by_source = add_count event.source 1 stats.dropped_by_source;
      };
    }
    else record s { events = s.events ++ event ∷ []; stats = stats }

note_uncategorized : State → State
note_uncategorized s = record s {
  stats = record s.stats { uncategorized_records = s.stats.uncategorized_records + 1 };
}

-- What follows the two filters. An uncategorized message that has an insight was counted already.
accept : Patterns → Event → State → State
unfolding keep_event note_uncategorized track
accept p event s =
    let hit = p.insight event.component event.message_excerpt in
    let tracked = if hit then track p event s else s in
    if is_empty event.categories
    then (if hit then note_uncategorized tracked else track p event (note_uncategorized tracked))
    else keep_event event tracked

unfoldable pub append : Patterns → Event → State → State
unfolding count_input outside_window is_dns_smoke drop_outside drop_smoke accept
append p event s =
    let stats = count_input event s.stats in
    if outside_window event stats
    then record s { stats = drop_outside event stats }
    else if is_dns_smoke p event
    then record s { stats = drop_smoke event stats }
    else accept p event (record s { stats = stats })

-- A call of `_append`, with the table of the run or, for the states of services, nodes and pods, with a new table `{}`
-- that is dropped.
pub data Call : Type 0 where
  shared : Event → Call
  apart : Event → Call

unfoldable pub append_call : Patterns → Call → State → State
unfolding append
append_call p (shared event) s = append p event s
append_call p (apart event) s = record (append p event (record s { unknown = [] })) {
  unknown = s.unknown;
}

-- The collectors of the module append their events one after the other.
unfoldable pub append_all : Patterns → List Call → State → State
append_all p [] s = s
append_all p (call ∷ calls) s = append_all p calls (append_call p call s)

-- The statistics that `normalize_evidence` starts from.
abbrev pub initial : Option ℕ → Option ℕ → State
initial start end = record {
  events = [];
  unknown = [];
  stats = record {
    input_records = 0;
    categorized_records = 0;
    uncategorized_records = 0;
    dropped_records = 0;
    unknown_fingerprint_replacements = 0;
    cgroup_events_suppressed = 0;
    dns_smoke_events_suppressed = 0;
    candidate_limit_drops = 0;
    output_limit_drops = 0;
    deduplicated_records = 0;
    incident_window_filtered_records = 0;
    source_records = [];
    category_records = [];
    dropped_by_source = [];
    truncated = false;
    incident_start_epoch = start;
    incident_end_epoch = end;
  };
}
