-- ===== src/Normalize/Deduplicate.antt =====
-- `_deduplicate_events` of src/kdiag/normalize.py.
pub mod Conserve
use k8s_check.Prelude.{
  ℕ, suc, ◌+◌, String, Bool, true, false, ◌&&◌, not, Option, none, some, List, [], ◌∷◌, ◌++◌, ◌==◌,
  string_eq, option_eq, list_eq, pair_eq, contains, if◌then◌else◌,
}
use k8s_check.Dict.{Dict, lookup, insert, values}
use k8s_check.Normalize.Event.{Event}
use k8s_check.Normalize.Append.{Stats, add_count}

-- The tuple of fields that makes two events duplicates.
abbrev pub EventKey : Type 0
EventKey =
    String
    × (Option String
        × (Option String
            × (Option String × (Option String × (Option String × (List String × String))))))

abbrev pub event_key : Event → EventKey
event_key e = (
  e.source,
  (e.node, (e.namespace, (e.pod, (e.container, (e.timestamp, (e.categories, e.fingerprint)))))),
)

-- The first of the duplicates takes the occurrences and the evidence of another one.
unfoldable pub absorb : Event → Event → Event
absorb existing event = record existing {
  occurrence_count = existing.occurrence_count + event.occurrence_count;
  duplicate_evidence =
      if not (event.evidence == existing.evidence)
        && not (contains existing.duplicate_evidence event.evidence)
      then existing.duplicate_evidence ++ event.evidence ∷ []
      else existing.duplicate_evidence;
}

note_duplicate : Event → Stats → Stats
unfolding add_count
note_duplicate event stats = record stats {
  deduplicated_records = stats.deduplicated_records + 1;
  dropped_by_source = add_count event.source 1 stats.dropped_by_source;
}

-- One round of the loop, and the loop.
deduplicate_one : Event → Dict EventKey Event × Stats → Dict EventKey Event × Stats
unfolding absorb note_duplicate
deduplicate_one event (seen, stats) = elim (lookup (event_key event) seen) [
  | none ↦ (insert (event_key event) event seen, stats)
  | some existing ↦
      (insert (event_key event) (absorb existing event) seen, note_duplicate event stats)
]

deduplicate_loop : List Event → Dict EventKey Event × Stats → Dict EventKey Event × Stats
unfolding deduplicate_one
deduplicate_loop [] s = s
deduplicate_loop (event ∷ events) s = deduplicate_loop events (deduplicate_one event s)

unfoldable pub deduplicate_events : List Event → Stats → List Event × Stats
unfolding deduplicate_loop
deduplicate_events events stats =
    let result = deduplicate_loop events ([], stats) in (values result.0, result.1)
