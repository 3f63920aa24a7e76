-- ===== src/Normalize/Append/Account.antt =====
-- The accounts that `_append` keeps.
use k8s_check.Normalize.Append.{
  Table, State, append, append_all, append_call, Call, shared, apart, accept, track, keep_event,
  note_uncategorized, count_input, initial, max_normalization_candidates, outside_window,
  is_dns_smoke,
}
use k8s_check.Prelude.{
  ℕ, ◌+◌, ◌≤◌, ◌<◌, ◌≡◌, refl, ◌↔◌, true, Option, List, [], ◌∷◌, arith, string_eq, pair_eq,
  if◌then◌else◌, length, length-append, if-elim, is_empty,
}
use k8s_check.Normalize.Event.{Event, Patterns}

-- Every categorized event was kept or was dropped for lack of room, which the flag then tells.
pub record IsAccounted (s : State) : Type 0 where
  pub kept : s.stats.categorized_records ≡ length s.events + s.stats.candidate_limit_drops
  pub size : length s.events ≤ max_normalization_candidates
  pub flag : (s.stats.truncated ≡ true) ↔ (0 < s.stats.candidate_limit_drops)
  pub drops : s.stats.dropped_records ≡ s.stats.candidate_limit_drops
  pub records : s.stats.categorized_records + s.stats.uncategorized_records ≤ s.stats.input_records

module _ (p : Patterns) (event : Event) where
  keep_event-IsAccounted :
      (s : State)
      → IsAccounted s
      → s.stats.categorized_records + s.stats.uncategorized_records < s.stats.input_records
      → IsAccounted (keep_event event s)
  unfolding keep_event
  keep_event-IsAccounted s a h = record {
    kept = ground (arith, length-append s.events (event ∷ []));
    size = ground (arith, length-append s.events (event ∷ []));
    flag = ground arith;
    drops = ground arith;
    records = ground arith;
  }

  track-IsAccounted : (s : State) → IsAccounted s → IsAccounted (track p event s)
  unfolding track
  track-IsAccounted s a = record {
    kept = a.kept;
    size = a.size;
    flag = a.flag;
    drops = a.drops;
    records = a.records;
  }

  note_uncategorized-IsAccounted :
      (s : State)
      → IsAccounted s
      → s.stats.categorized_records + s.stats.uncategorized_records < s.stats.input_records
      → IsAccounted (note_uncategorized s)
  unfolding note_uncategorized
  note_uncategorized-IsAccounted s a h = record {
    kept = a.kept;
    size = a.size;
    flag = a.flag;
    drops = a.drops;
    records = omega arith;
  }

  -- One record more was counted than was accounted for.
  record HasRoom (s : State) : Type 0 where
    accounted : IsAccounted s
    less : s.stats.categorized_records + s.stats.uncategorized_records < s.stats.input_records

  track-HasRoom : (s : State) → HasRoom s → HasRoom (track p event s)
  unfolding track
  track-HasRoom s r = record { accounted = track-IsAccounted s r.accounted; less = r.less }

  accept-IsAccounted : (s : State) → HasRoom s → IsAccounted (accept p event s)
  unfolding accept
  accept-IsAccounted s r =
      let t : HasRoom
          (if p.insight event.component event.message_excerpt then track p event s else s) =
        if-elim HasRoom (p.insight event.component event.message_excerpt) (λ _. track-HasRoom s r)
          (λ _. r) in
      if-elim IsAccounted (is_empty event.categories)
        (λ _.
          if-elim IsAccounted (p.insight event.component event.message_excerpt)
            (λ _. note_uncategorized-IsAccounted _ t.accounted t.less)
            (λ _. track-IsAccounted _ (note_uncategorized-IsAccounted _ t.accounted t.less)))
        (λ _. keep_event-IsAccounted _ t.accounted t.less)

  append-IsAccounted : (s : State) → IsAccounted s → IsAccounted (append p event s)
  unfolding append
  append-IsAccounted s a =
      let counted : IsAccounted (record s { stats = count_input event s.stats }) = record {
        kept = a.kept;
        size = a.size;
        flag = a.flag;
        drops = a.drops;
        records = omega arith;
      } in
      if-elim IsAccounted (outside_window event (count_input event s.stats))
        (λ _. record {
          kept = a.kept;
          size = a.size;
          flag = a.flag;
          drops = a.drops;
          records = omega arith;
        })
        (λ _.
          if-elim IsAccounted (is_dns_smoke p event)
            (λ _. record {
              kept = a.kept;
              size = a.size;
              flag = a.flag;
              drops = a.drops;
              records = omega arith;
            })
            (λ _. accept-IsAccounted _ (record { accounted = counted; less = omega arith })))

module _ (p : Patterns) where
  with_table :
      (s : State) (table : Table) → IsAccounted s → IsAccounted (record s { unknown = table })
  with_table s table a = record {
    kept = a.kept;
    size = a.size;
    flag = a.flag;
    drops = a.drops;
    records = a.records;
  }

  append_call-IsAccounted :
      (call : Call) (s : State) → IsAccounted s → IsAccounted (append_call p call s)
  unfolding append_call
  append_call-IsAccounted (shared event) s a = append-IsAccounted p event s a
  append_call-IsAccounted (apart event) s a =
      with_table (append p event (record s { unknown = [] })) s.unknown
        (append-IsAccounted p event (record s { unknown = [] }) (with_table s [] a))

  run-IsAccounted :
      (calls : List Call) (s : State) → IsAccounted s → IsAccounted (append_all p calls s)
  unfolding append_all
  run-IsAccounted [] s a = a
  run-IsAccounted (call ∷ calls) s a =
      run-IsAccounted calls (append_call p call s) (append_call-IsAccounted call s a)

  -- After any calls, each categorized record was kept or was dropped for lack of room, the kept events stay
  -- within the limit, and the flag tells whether any was dropped.
  pub append_all-IsAccounted :
      (calls : List Call) (start end : Option ℕ)
      → IsAccounted (append_all p calls (initial start end))
  append_all-IsAccounted calls start end = run-IsAccounted calls (initial start end) (record {
    kept = refl;
    size = omega arith;
    flag = ground arith;
    drops = refl;
    records = omega arith;
  })
