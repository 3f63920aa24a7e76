-- ===== src/Normalize/Fingerprint.antt =====
-- The fingerprint table of src/kdiag/normalize.py: one entry for each message template of a component, with
-- its context and its estimated count, and at most `MAX_UNKNOWN_FINGERPRINTS` of them.
pub mod Context
pub mod Bracket
use k8s_check.Prelude.{
  ℕ, zero, suc, ◌+◌, ◌-◌, ◌≤◌, max, ◌≡◌, refl, String, ◌<>◌, Bool, true, false, ◌&&◌, ◌||◌, not,
  Option, none, some, List, [], ◌∷◌, ◌++◌, arith, ◌==◌, string_eq, pair_eq, contains, ltb, leb, eqb,
  if◌then◌else◌, is_some, is_none, truthy, or_else, or_text, length, str_leb, str_ltb, sort_by,
}
use k8s_check.Dict.{Dict, lookup, insert, erase}
use k8s_check.Normalize.Event.{Event, Patterns}

abbrev pub max_unknown_fingerprints : ℕ
max_unknown_fingerprints = 100

pub record Example : Type 0 where
  pub timestamp : Option String
  pub timestamp_inferred : Bool
  pub node : Option String
  pub namespace : Option String
  pub pod : Option String
  pub source : String
  pub evidence : String
  pub message : String

-- An entry as `_new_unknown_entry` builds it. The sets are lists without repetitions.
pub record Entry : Type 0 where
  pub component : String
  pub fingerprint : String
  pub template : String
  pub count : ℕ
  pub estimate_error : ℕ
  pub first_seen : Option String
  pub last_seen : Option String
  pub inferred_time_samples : ℕ
  pub scope_truncated : Bool
  pub examples : List Example
  pub first_seen_epoch : Option ℕ
  pub last_seen_epoch : Option ℕ
  pub nodes : List String
  pub pods : List String
  pub sources : List String

abbrev pub Key : Type 0
Key = String × String

abbrev pub Table : Type 0
Table = Dict Key Entry

-- `_bounded_add`: the set, and whether the value was refused for lack of room.
unfoldable pub bounded_add : List String → Option String → ℕ → List String × Bool
bounded_add values none limit = (values, false)
bounded_add values (some v) limit =
    if contains values v
    then (values, false)
    else if leb limit (length values)
    then (values, true)
    else (values ++ v ∷ [], false)

abbrev is_before : ℕ → Option ℕ → Bool
is_before new none = true
is_before new (some old) = ltb new old

abbrev is_after : ℕ → Option ℕ → Bool
is_after new none = true
is_after new (some old) = ltb old new

update_first : Option ℕ → Option String → Entry → Entry
update_first none timestamp entry = entry
update_first (some epoch) timestamp entry =
    if is_before epoch entry.first_seen_epoch
    then record entry { first_seen_epoch = some epoch; first_seen = timestamp }
    else entry

update_last : Option ℕ → Option String → Entry → Entry
update_last none timestamp entry = entry
update_last (some epoch) timestamp entry =
    if is_after epoch entry.last_seen_epoch
    then record entry { last_seen_epoch = some epoch; last_seen = timestamp }
    else entry

abbrev pub example_of : Event → Example
example_of event = record {
  timestamp = event.timestamp;
  timestamp_inferred = event.timestamp_inferred;
  node = event.node;
  namespace = event.namespace;
  pod = event.pod;
  source = event.source;
  evidence = event.evidence;
  message = event.message_excerpt;
}

module _ (p : Patterns) where
  update_times : Entry → Event → Entry
  unfolding update_first update_last
  update_times entry event =
      let first = or_else event.first_timestamp event.timestamp in
      let last = or_else event.last_timestamp event.timestamp in
      let first_epoch = p.epoch first in
      let last_epoch = p.epoch last in
      if not event.timestamp_inferred && (is_some first_epoch || is_some last_epoch)
      then update_last last_epoch last (update_first first_epoch first entry)
      else if truthy event.timestamp
      then record entry { inferred_time_samples = entry.inferred_time_samples + 1 }
      else entry

  -- The pod that an event names, or that its message refers to.
  event_pod : Event → Option String
  event_pod event =
      if truthy event.pod
      then some (or_text event.namespace "unknown" <> ("/" <> or_text event.pod ""))
      else p.pod_reference event.message_excerpt

  update_scope : Entry → Event → Entry
  unfolding bounded_add event_pod
  update_scope entry event =
      let nodes = bounded_add entry.nodes event.node 20 in
      let pods = bounded_add entry.pods (event_pod event) 50 in
      let sources = bounded_add entry.sources (some event.source) 20 in
      record entry {
        nodes = nodes.0;
        pods = pods.0;
        sources = sources.0;
        scope_truncated = pods.1 || (nodes.1 || entry.scope_truncated);
      }

  update_examples : Entry → Event → Entry
  update_examples entry event =
      if not (event.evidence == "") && ltb (length entry.examples) 3
      then record entry { examples = entry.examples ++ example_of event ∷ [] }
      else entry

  -- `_update_unknown_context`
  unfoldable pub update_unknown_context : Entry → Event → Entry
  unfolding update_times update_scope update_examples
  update_unknown_context entry event =
      update_examples (update_scope (update_times entry event) event) event

  -- `_new_unknown_entry`
  unfoldable pub new_unknown_entry : Key → Event → ℕ → ℕ → Entry
  unfolding update_unknown_context
  new_unknown_entry (component, fingerprint) event count estimate_error =
      update_unknown_context
        (record {
          component = component;
          fingerprint = fingerprint;
          template = p.template event.message_excerpt;
          count = count;
          estimate_error = estimate_error;
          first_seen = none;
          last_seen = none;
          inferred_time_samples = 0;
          scope_truncated = false;
          examples = [];
          first_seen_epoch = none;
          last_seen_epoch = none;
          nodes = [];
          pods = [];
          sources = [];
        })
        event

-- `weight`
abbrev pub weight : Event → ℕ
weight event = max 1 event.occurrence_count

-- `(event.get("component") or event["source"], event["fingerprint"])`
abbrev pub key_of : Event → Key
key_of event = (or_text event.component event.source, event.fingerprint)

-- The order of `min(unknown.items(), key=lambda item: (item[1]["count"], item[0]))`.
unfoldable pub precedes : Key × Entry → Key × Entry → Bool
precedes ((c, f), e) ((c', f'), e') =
    ltb e.count e'.count || (eqb e.count e'.count && (str_ltb c c' || (c == c' && str_ltb f f')))

unfoldable pub victim : Key × Entry → Table → Key × Entry
victim best [] = best
victim best (x ∷ table) = victim (if precedes x best then x else best) table

-- The table and the number of replacements.
pub record Counted : Type 0 where
  pub table : Table
  pub replacements : ℕ

-- The table is full: the victim makes room, and its count is the new entry's error.
unfoldable pub replace : Patterns → Event → Table → ℕ → Counted
unfolding victim precedes
replace p event [] n = record { table = []; replacements = n }
replace p event (x ∷ table) n =
    let (k, v) = victim x table in
    record {
      table =
          insert (key_of event)
            (new_unknown_entry p (key_of event) event (v.count + weight event) v.count)
            (erase k (x ∷ table));
      replacements = n + 1;
    }

-- The block of `_append` that counts a message in the table.
unfoldable pub count_fingerprint : Patterns → ℕ → Event → Table → ℕ → Counted
unfolding replace
count_fingerprint p cap event table n = elim (lookup (key_of event) table) [
  | some entry ↦ record {
    table =
        insert (key_of event)
          (update_unknown_context p (record entry { count = entry.count + weight event }) event)
          table;
    replacements = n;
  }
  | none ↦ if leb cap (length table) then replace p event table n else record {
    table = insert (key_of event) (new_unknown_entry p (key_of event) event (weight event) 0) table;
    replacements = n;
  }
]

-- `occurrence_range` of `_finalize_fingerprint`
pub record Range : Type 0 where
  pub minimum : ℕ
  pub maximum : ℕ

unfoldable pub occurrence_range : Entry → Range
occurrence_range entry = record {
  minimum = entry.count - entry.estimate_error;
  maximum = entry.count;
}

-- `count_is_exact`
unfoldable pub count_is_exact : Entry → Bool
unfolding occurrence_range
count_is_exact entry = eqb (occurrence_range entry).minimum (occurrence_range entry).maximum
