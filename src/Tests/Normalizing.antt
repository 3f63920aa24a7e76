-- ===== src/Tests/Normalizing.antt =====
-- Tests of the model of src/kdiag/normalize.py.
use k8s_check.Prelude.{
  min, All, ℕ, ◌+◌, ◌≤◌, ◌<◌, ◌≡◌, ◌≢◌, refl, String, Bool, true, false, ◌||◌, none, some, List, [],
  ◌∷◌, arith, ◌==◌, string_eq, pair_eq, contains, length, sort_by,
}
use k8s_check.Dict.{lookup}
use k8s_check.Normalize.Event.{Event, Patterns, info, critical}
use k8s_check.Normalize.Classify.{classify_message, severity}
use k8s_check.Normalize.Fingerprint.{
  Entry, Key, occurrence_range, count_is_exact, count_fingerprint, new_unknown_entry,
  update_unknown_context,
}
use k8s_check.Normalize.Fingerprint.Context.{IsBounded}
use k8s_check.Normalize.Append.{Call, shared, apart, append, append_call, append_all, initial}
use k8s_check.Normalize.Append.Account.{IsAccounted, append_all-IsAccounted}
use k8s_check.Normalize.Append.Occurrences.{
  occurrences, occurrence_range_sound, count_is_exact_sound, frequent_retained,
}
use k8s_check.Normalize.Correlate.{Timed, Spec, scope_matches}
use k8s_check.Normalize.Correlate.Window.{IsMatch, total_length, scope_matches-IsMatch}
use k8s_check.Normalize.Limit.{fair_limit_events}
use k8s_check.Normalize.Limit.Fair.{length-fair_limit_events}
use k8s_check.Normalize.Deduplicate.{deduplicate_events}
use k8s_check.Normalize.Deduplicate.Conserve.{total, deduplicate_conserves}

abbrev finds : String → String → Bool
finds name message = name == message || name == "read_only_fs"

abbrev same : String → String
same s = s

abbrev never : String → Bool
never s = false

cgroup_message :
    classify_message finds same never "cgroup_access_denied" none none none
    ≡ "cgroup_access_denied" ∷ []
unfolding classify_message sort_by
cgroup_message = refl

cgroup_contained :
    contains
      (classify_message finds same never "cgroup_access_denied" none none none)
      "cgroup_access_denied"
    ≡ true
unfolding classify_message sort_by
cgroup_contained = refl

npd_contained :
    contains
      (classify_message finds same never "npd_io_error" none
        (some "journal")
        (some "journal_kernel_current"))
      "npd_io_error"
    ≡ true
unfolding classify_message sort_by
npd_contained = refl

severity_of_oom : severity ("crash_loop" ∷ "oom_kill" ∷ "timeout" ∷ []) info ≡ critical
unfolding severity
severity_of_oom = refl

abbrev plain : Patterns
plain = record {
  insight = λ c m. false;
  dns_component = never;
  dns_smoke_query = never;
  template = same;
  pod_reference = λ m. none;
  epoch = λ t. none;
}

abbrev event : String → String → ℕ → List String → Event
event id fingerprint n categories = record {
  event_id = id;
  timestamp = some "t";
  timestamp_epoch = some 5;
  timestamp_inferred = false;
  first_timestamp = none;
  last_timestamp = none;
  occurrence_count = n;
  source = "journal";
  node = some "n1";
  namespace = none;
  pod = none;
  container = none;
  component = some "kubelet";
  reason = none;
  severity = "info";
  categories = categories;
  message_excerpt = "text";
  fingerprint = fingerprint;
  evidence = id;
  duplicate_evidence = [];
}

abbrev four_events : List Event
four_events =
    event "e1" "f1" 3 []
    ∷ event "e2" "f2" 1 []
    ∷ event "e3" "f1" 4 []
    ∷ event "e4" "f3" 2 ("oom_kill" ∷ [])
    ∷ []

-- The event of a pod's state is counted apart from the table.
abbrev inputs : List Call
inputs =
    shared (event "e1" "f1" 3 [])
    ∷ shared (event "e2" "f2" 1 [])
    ∷ apart (event "e5" "f1" 9 [])
    ∷ shared (event "e3" "f1" 4 [])
    ∷ shared (event "e4" "f3" 2 ("oom_kill" ∷ []))
    ∷ []

abbrev key1 : Key
key1 = ("kubelet", "f1")

occurrences_f1 : occurrences plain none none key1 inputs ≡ 7
unfolding occurrences
occurrences_f1 = refl

entry1 : Entry
unfolding update_unknown_context
entry1 =
    update_unknown_context plain
      (record (new_unknown_entry plain key1 (event "e1" "f1" 3 []) 3 0) { count = 7 })
      (event "e3" "f1" 4 [])

found1 : lookup key1 (append_all plain inputs (initial none none)).unknown ≡ some entry1
unfolding append_all append_call append count_fingerprint entry1 new_unknown_entry
found1 = refl

occurrence_range_sound_example :
    ((occurrence_range entry1).minimum ≤ occurrences plain none none key1 inputs)
    × (occurrences plain none none key1 inputs ≤ (occurrence_range entry1).maximum)
    × (length (append_all plain inputs (initial none none)).unknown ≤ 100)
occurrence_range_sound_example = occurrence_range_sound plain none none inputs key1 entry1 found1

exact1 : count_is_exact entry1 ≡ true
unfolding count_is_exact entry1 new_unknown_entry
exact1 = refl

count_is_exact_sound_example : entry1.count ≡ occurrences plain none none key1 inputs
count_is_exact_sound_example = count_is_exact_sound plain none none inputs key1 entry1 found1 exact1

entry2 : Entry
unfolding new_unknown_entry
entry2 = new_unknown_entry plain ("kubelet", "f2") (event "e2" "f2" 1 []) 1 0

found2 :
    lookup ("kubelet", "f2") (append_all plain inputs (initial none none)).unknown ≡ some entry2
unfolding append_all append_call append count_fingerprint entry2
found2 = refl

more : entry2.count < occurrences plain none none key1 inputs
unfolding entry2 occurrences
more = omega arith

frequent_retained_example : lookup key1 (append_all plain inputs (initial none none)).unknown ≢ none
frequent_retained_example =
    frequent_retained plain none none inputs key1 ("kubelet", "f2") entry2 found2 more

append_all-IsAccounted_example : IsAccounted (append_all plain inputs (initial none none))
append_all-IsAccounted_example = append_all-IsAccounted plain inputs none none

abbrev twins : List Event
twins = event "e1" "f1" 3 [] ∷ event "e2" "f2" 1 [] ∷ event "e3" "f1" 4 [] ∷ []

deduplicate_conserves_example :
    (total (deduplicate_events twins (initial none none).stats).0 ≡ total twins)
    × (length (deduplicate_events twins (initial none none).stats).0
          + (deduplicate_events twins (initial none none).stats).1.deduplicated_records
        ≡ 3)
deduplicate_conserves_example = deduplicate_conserves twins (initial none none).stats

merged : length (deduplicate_events twins (initial none none).stats).0 ≡ 2
unfolding deduplicate_events
merged = refl

-- An entry whose lists of names are full.
abbrev full_entry : Entry
full_entry = record {
  component = "kubelet";
  fingerprint = "f1";
  template = "text";
  count = 3;
  estimate_error = 0;
  first_seen = none;
  last_seen = none;
  inferred_time_samples = 0;
  scope_truncated = false;
  nodes = "a" ∷ "b" ∷ [];
  first_seen_epoch = none;
  last_seen_epoch = none;
  pods = [];
  sources = [];
  examples = [];
}

full_entry-IsBounded : IsBounded full_entry
full_entry-IsBounded = record {
  nodes = omega arith;
  pods = omega arith;
  sources = omega arith;
  examples = omega arith;
}

abbrev timed : String → ℕ → List String → Timed
timed id time categories = (time, event id id 1 categories)

-- An old sign of memory pressure leaves the window, a second one is followed by a kill.
abbrev pressures : List Timed
pressures =
    timed "e3" 1000 ("oom_kill" ∷ [])
    ∷ timed "e1" 10 ("memory_pressure" ∷ [])
    ∷ timed "e2" 990 ("memory_pressure" ∷ [])
    ∷ []

abbrev oom_spec : Spec
oom_spec = ("memory_oom_failure", ("memory_pressure" ∷ []) ∷ ("oom_kill" ∷ []) ∷ [])

scope_matches-IsMatch_example :
    All (IsMatch 900 oom_spec.1) (scope_matches oom_spec 900 pressures)
    × (total_length (scope_matches oom_spec 900 pressures) ≤ 3)
scope_matches-IsMatch_example = scope_matches-IsMatch oom_spec 900 pressures

one_match :
    scope_matches oom_spec 900 pressures
    ≡ (timed "e2" 990 ("memory_pressure" ∷ []) ∷ timed "e3" 1000 ("oom_kill" ∷ []) ∷ []) ∷ []
unfolding scope_matches sort_by
one_match = refl

length-fair_limit_events_example :
    length (fair_limit_events four_events 2 (initial none none).stats).0 ≡ min 2 4
length-fair_limit_events_example = length-fair_limit_events four_events 2 (initial none none).stats
