-- ===== src/Normalize/Deduplicate/Conserve.antt =====
-- Deduplication loses no occurrence and counts each event that it merges.
use k8s_check.Prelude.{
  ℕ, suc, ◌+◌, ◌≡◌, ap, refl, inl, inr, true, Option, none, some, List, [], ◌∷◌, arith, ◌==◌,
  string_eq, option_eq, list_eq, pair_eq, length, Bool-cases, Option-cases,
}
use k8s_check.Dict.{
  Dict, lookup, insert, values, has_key, lookup-none_iff, length-insert_new, length-insert_old,
}
use k8s_check.Normalize.Event.{Event}
use k8s_check.Normalize.Append.{Stats}
use k8s_check.Normalize.Deduplicate.{
  EventKey, event_key, absorb, deduplicate_one, deduplicate_loop, deduplicate_events,
}

-- All occurrences of a list of events.
unfoldable pub total : List Event → ℕ
total [] = 0
total (e ∷ es) = e.occurrence_count + total es

abbrev Seen : Type 0
Seen = Dict EventKey Event

old_count : Option Event → ℕ
old_count none = 0
old_count (some e) = e.occurrence_count

total-insert :
    (k : EventKey) (e : Event) (d : Seen)
    → total (values (insert k e d)) + old_count (lookup k d) ≡ total (values d) + e.occurrence_count
unfolding total old_count
total-insert k e [] = omega arith
total-insert k e ((j, f) ∷ d) = elim (Bool-cases (k == j)) [
  | inl same ↦ rw (same, insert, lookup) (omega arith)
  | inr other ↦ rw (other, insert, lookup) (omega (arith, total-insert k e d))
]

length-values : (d : Seen) → length (values d) ≡ length d
length-values [] = refl
length-values ((j, f) ∷ d) = ap suc (length-values d)

-- The occurrences and the events, kept and merged, of a state of the loop.
record Balance (occurrences events : ℕ) (s : Seen × Stats) : Type 0 where
  total_kept : total (values s.0) ≡ occurrences
  all_counted : length s.0 + s.1.deduplicated_records ≡ events

has_key_of_lookup : (k : EventKey) (d : Seen) {e : Event} → lookup k d ≡ some e → has_key k d ≡ true
has_key_of_lookup k d h = elim (Bool-cases (has_key k d)) [
  | inl found ↦ found
  | inr lost ↦ absurd (cc (h, (lookup-none_iff k d).1 lost))
]

one-Balance :
    (m n : ℕ) (event : Event) (d : Seen) (stats : Stats)
    → Balance m n (d, stats)
    → Balance (m + event.occurrence_count) (n + 1) (deduplicate_one event (d, stats))
unfolding deduplicate_one old_count
one-Balance m n event d stats b = elim (Option-cases (lookup (event_key event) d)) [
  | inl fresh ↦
      rw (fresh, deduplicate_one)
        (record {
          total_kept = new_total fresh;
          all_counted = omega (
            arith,
            length-insert_new (event_key event) event d
                ((lookup-none_iff (event_key event) d).0 fresh),
            b.all_counted,
          );
        })
  | inr (old, found) ↦
      rw (found, deduplicate_one)
        (record {
          total_kept = old_total old found;
          all_counted = omega (
            arith,
            length-insert_old (event_key event) (absorb old event) d
                (has_key_of_lookup (event_key event) d found),
            b.all_counted,
          );
        })
]
  where
    new_total :
        lookup (event_key event) d ≡ none
        → total (values (insert (event_key event) event d)) ≡ m + event.occurrence_count
    new_total fresh =
        omega (arith, ap old_count fresh, total-insert (event_key event) event d, b.total_kept)

    old_total :
        (old : Event)
        → lookup (event_key event) d ≡ some old
        → total (values (insert (event_key event) (absorb old event) d))
          ≡ m + event.occurrence_count
    old_total old found = omega (
      arith,
      ap old_count found,
      total-insert (event_key event) (absorb old event) d,
      b.total_kept,
    )

loop-Balance :
    (m n : ℕ) (events : List Event) (s : Seen × Stats)
    → Balance m n s
    → Balance (m + total events) (n + length events) (deduplicate_loop events s)
unfolding deduplicate_loop total
loop-Balance m n [] s b = record {
  total_kept = omega (arith, b.total_kept);
  all_counted = omega (arith, b.all_counted);
}
loop-Balance m n (event ∷ events) (d, stats) b =
    let r =
      loop-Balance (m + event.occurrence_count) (n + 1) events (deduplicate_one event (d, stats))
        (one-Balance m n event d stats b) in
    record { total_kept = omega (arith, r.total_kept); all_counted = omega (arith, r.all_counted) }

-- The occurrences of all events are conserved, and the events that are left together with those counted as
-- merged are all the events.
pub deduplicate_conserves :
    (events : List Event) (stats : Stats)
    → (total (deduplicate_events events stats).0 ≡ total events)
      × (length (deduplicate_events events stats).0
            + (deduplicate_events events stats).1.deduplicated_records
          ≡ length events + stats.deduplicated_records)
unfolding deduplicate_events total
deduplicate_conserves events stats =
    let b =
      loop-Balance 0 stats.deduplicated_records events ([], stats)
        (record { total_kept = refl; all_counted = omega arith }) in
    (
      omega (arith, b.total_kept),
      omega (arith, b.all_counted, length-values (deduplicate_loop events ([], stats)).0),
    )
