-- ===== src/Normalize/Append/Occurrences.antt =====
-- The reported range of a fingerprint against the number of its occurrences in the input.
use k8s_check.Prelude.{
  ℕ, ◌+◌, ◌≤◌, ◌<◌, ◌≡◌, refl, inl, inr, ◌≢◌, Bool, true, false, ◌&&◌, ◌||◌, not, Option, none,
  some, List, [], ◌∷◌, arith, ◌==◌, string_eq, pair_eq, if◌then◌else◌, length, Bool-cases, is_empty,
}
use k8s_check.Dict.{lookup}
use k8s_check.Normalize.Event.{Event, Patterns}
use k8s_check.Normalize.Fingerprint.{Key, Entry, key_of, weight, occurrence_range, count_is_exact}
use k8s_check.Normalize.Fingerprint.Bracket.{IsBracket, bump, count_fingerprint-IsBracket}
use k8s_check.Normalize.Append.{
  State, Stats, append, append_all, append_call, Call, shared, apart, accept, track, keep_event,
  note_uncategorized, count_input, drop_outside, drop_smoke, initial, outside_window, is_dns_smoke,
}

module _ (p : Patterns) (start end : Option ℕ) where
  -- The events that the table is meant to count: inside the window, no smoke test, and with an insight or no category.
  unfoldable pub is_counted : Event → Bool
  unfolding outside_window is_dns_smoke
  is_counted event =
      not (outside_window event (initial start end).stats)
      && (not (is_dns_smoke p event)
          && (p.insight event.component event.message_excerpt || is_empty event.categories))

  -- The occurrences of a key among the events that are appended with the shared table.
  unfoldable pub occurrences : Key → List Call → ℕ
  unfolding is_counted
  occurrences k [] = 0
  occurrences k (apart event ∷ calls) = occurrences k calls
  occurrences k (shared event ∷ calls) =
      let rest = occurrences k calls in
      if is_counted event && k == key_of event then weight event + rest else rest

  step : Event → (Key → ℕ) → Key → ℕ
  step event seen = if is_counted event then bump (key_of event) (weight event) seen else seen

  tally : List Call → (Key → ℕ) → Key → ℕ
  unfolding step
  tally [] seen = seen
  tally (apart event ∷ calls) seen = tally calls seen
  tally (shared event ∷ calls) seen = tally calls (step event seen)

  tally_lem :
      (calls : List Call) (seen : Key → ℕ) (k : Key)
      → tally calls seen k ≡ seen k + occurrences k calls
  unfolding tally occurrences
  tally_lem [] seen k = omega arith
  tally_lem (apart event ∷ calls) seen k = tally_lem calls seen k
  tally_lem (shared event ∷ calls) seen k = elim (Bool-cases (is_counted event)) [
    | inl yes' ↦
        rw (yes', tally)
          (ground (arith, yes', tally_lem calls (bump (key_of event) (weight event) seen) k))
    | inr no' ↦ rw (no', tally) (ground (arith, no', tally_lem calls seen k))
  ]

  -- A state of the run whose table brackets the numbers of occurrences so far.
  record IsTracked (seen : Key → ℕ) (s : State) : Type 0 where
    start_epoch : s.stats.incident_start_epoch ≡ start
    end_epoch : s.stats.incident_end_epoch ≡ end
    table : IsBracket 100 seen s.unknown

  outside_window-eq :
      (event : Event) (stats : Stats)
      → stats.incident_start_epoch ≡ start
      → stats.incident_end_epoch ≡ end
      → outside_window event stats ≡ outside_window event (initial start end).stats
  unfolding outside_window
  outside_window-eq event stats h k = ground (arith, h, k)

  module _ (event : Event) (seen : Key → ℕ) where
    track-IsTracked :
        (s : State)
        → IsTracked seen s
        → IsTracked (bump (key_of event) (weight event) seen) (track p event s)
    unfolding track
    track-IsTracked s t = record {
      start_epoch = t.start_epoch;
      end_epoch = t.end_epoch;
      table = count_fingerprint-IsBracket p 100 event seen s.unknown _ (omega arith) t.table;
    }

    unknown-keep_event : (s : State) → (keep_event event s).unknown ≡ s.unknown
    unfolding keep_event
    unknown-keep_event s = ground arith

    keep_event-IsTracked :
        (seen : Key → ℕ) (s : State) → IsTracked seen s → IsTracked seen (keep_event event s)
    unfolding keep_event
    keep_event-IsTracked seen s t = record {
      start_epoch = ground (arith, t.start_epoch);
      end_epoch = ground (arith, t.end_epoch);
      table = rw unknown-keep_event t.table;
    }

    note-IsTracked :
        (seen : Key → ℕ) (s : State) → IsTracked seen s → IsTracked seen (note_uncategorized s)
    unfolding note_uncategorized
    note-IsTracked seen s t = record {
      start_epoch = t.start_epoch;
      end_epoch = t.end_epoch;
      table = t.table;
    }

    -- The four ways of `accept`.
    accept-cases :
        (hit empty : Bool) (s : State)
        → IsTracked seen s
        → let tracked = if hit then track p event s else s in
          IsTracked (if hit || empty then bump (key_of event) (weight event) seen else seen) (
            if empty
            then (if hit
                then note_uncategorized tracked
                else track p event (note_uncategorized tracked))
            else keep_event event tracked)
    accept-cases true true s t = note-IsTracked _ _ (track-IsTracked s t)
    accept-cases true false s t = keep_event-IsTracked _ _ (track-IsTracked s t)
    accept-cases false true s t = track-IsTracked _ (note-IsTracked _ s t)
    accept-cases false false s t = keep_event-IsTracked _ s t

    accept-IsTracked :
        (s : State)
        → IsTracked seen s
        → IsTracked
            (if p.insight event.component event.message_excerpt || is_empty event.categories
              then bump (key_of event) (weight event) seen
              else seen)
            (accept p event s)
    unfolding accept
    accept-IsTracked s t =
        accept-cases (p.insight event.component event.message_excerpt) (is_empty event.categories) s
          t

    append-cases :
        (outside smoke : Bool) (s : State)
        → IsTracked seen s
        → let stats = count_input event s.stats in
          IsTracked
            (if not outside
                && (not smoke
                    && (p.insight event.component event.message_excerpt
                        || is_empty event.categories))
              then bump (key_of event) (weight event) seen
              else seen)
            (if outside
              then record s { stats = drop_outside event stats }
              else if smoke
              then record s { stats = drop_smoke event stats }
              else accept p event (record s { stats = stats }))
    unfolding count_input drop_outside drop_smoke
    append-cases true smoke s t = record {
      start_epoch = t.start_epoch;
      end_epoch = t.end_epoch;
      table = t.table;
    }
    append-cases false true s t = record {
      start_epoch = t.start_epoch;
      end_epoch = t.end_epoch;
      table = t.table;
    }
    append-cases false false s t =
        accept-IsTracked _
          (record { start_epoch = t.start_epoch; end_epoch = t.end_epoch; table = t.table })

    append-IsTracked :
        (s : State) → IsTracked seen s → IsTracked (step event seen) (append p event s)
    unfolding append step is_counted count_input
    append-IsTracked s t =
        rw (← outside_window-eq event (count_input event s.stats) t.start_epoch t.end_epoch) (
          append-cases (outside_window event (count_input event s.stats)) (is_dns_smoke p event) s
            t)

  empty-IsBracket : IsBracket 100 (λ _. 0) []
  empty-IsBracket = record {
    nodup = tt;
    tracked = λ k e h. cc;
    untracked = λ k j e h g. cc;
    room = λ h k g. refl;
    size = omega arith;
  }

  apart-IsTracked :
      (event : Event) (seen : Key → ℕ) (s : State)
      → IsTracked seen s
      → IsTracked seen (append_call p (apart event) s)
  unfolding append_call
  apart-IsTracked event seen s t =
      let own =
        append-IsTracked event (λ _. 0) (record s { unknown = [] })
          (record {
            start_epoch = t.start_epoch;
            end_epoch = t.end_epoch;
            table = empty-IsBracket;
          }) in
      record { start_epoch = own.start_epoch; end_epoch = own.end_epoch; table = t.table }

  run-IsTracked :
      (calls : List Call) (seen : Key → ℕ) (s : State)
      → IsTracked seen s
      → IsTracked (tally calls seen) (append_all p calls s)
  unfolding tally append_all append_call
  run-IsTracked [] seen s t = t
  run-IsTracked (apart event ∷ calls) seen s t =
      run-IsTracked calls seen (append_call p (apart event) s) (apart-IsTracked event seen s t)
  run-IsTracked (shared event ∷ calls) seen s t =
      run-IsTracked calls (step event seen) (append p event s) (append-IsTracked event seen s t)

  initial-IsTracked : IsTracked (λ _. 0) (initial start end)
  initial-IsTracked = record { start_epoch = refl; end_epoch = refl; table = empty-IsBracket }

  -- After any calls, the table holds at most 100 fingerprints, and the range that is reported for each of them
  -- contains the number of its occurrences among the events that the table is meant to count, of those that are
  -- appended with the shared table.
  pub occurrence_range_sound :
      (calls : List Call) (k : Key) (entry : Entry)
      → lookup k (append_all p calls (initial start end)).unknown ≡ some entry
      → ((occurrence_range entry).minimum ≤ occurrences k calls)
        × (occurrences k calls ≤ (occurrence_range entry).maximum)
        × (length (append_all p calls (initial start end)).unknown ≤ 100)
  unfolding occurrence_range
  occurrence_range_sound calls k entry found =
      let t = (run-IsTracked calls (λ _. 0) (initial start end) initial-IsTracked).table in
      let c = t.tracked k entry found in
      let n = tally_lem calls (λ _. 0) k in (omega (arith, c.1, n), omega (arith, c.0, n), t.size)

  -- A count that is reported as exact is the number of occurrences.
  pub count_is_exact_sound :
      (calls : List Call) (k : Key) (entry : Entry)
      → lookup k (append_all p calls (initial start end)).unknown ≡ some entry
      → count_is_exact entry ≡ true
      → entry.count ≡ occurrences k calls
  unfolding count_is_exact occurrence_range
  count_is_exact_sound calls k entry found exact =
      let r = occurrence_range_sound calls k entry found in ground (arith, r.0, r.1)

  -- A key that occurs more often than the count of some fingerprint in the table is in the table itself.
  pub frequent_retained :
      (calls : List Call) (k j : Key) (entry : Entry)
      → lookup j (append_all p calls (initial start end)).unknown ≡ some entry
      → entry.count < occurrences k calls
      → lookup k (append_all p calls (initial start end)).unknown ≢ none
  frequent_retained calls k j entry found more lost =
      let t = (run-IsTracked calls (λ _. 0) (initial start end) initial-IsTracked).table in
      absurd (omega (arith, more, t.untracked k j entry lost found, tally_lem calls (λ _. 0) k))
