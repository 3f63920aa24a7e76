-- ===== src/Normalize/Fingerprint/Context.antt =====
-- What `_update_unknown_context` leaves alone, and the bounds of the context that it collects.
use k8s_check.Normalize.Fingerprint.{
  example_of, Entry, Key, bounded_add, event_pod, update_times, update_scope, update_examples,
  update_unknown_context, new_unknown_entry,
}
use k8s_check.Prelude.{
  ℕ, ◌≤◌, ◌≡◌, ◌∙◌, String, false, Option, none, some, List, [], ◌∷◌, arith, length, length-append,
}
use k8s_check.Normalize.Event.{Event, Patterns}

-- The fields that the context does not touch.
pub record SameCount (a b : Entry) : Type 0 where
  pub count : a.count ≡ b.count
  pub estimate_error : a.estimate_error ≡ b.estimate_error

module _ (p : Patterns) where
  update_times-SameCount :
      (entry : Entry) (event : Event) → SameCount (update_times p entry event) entry
  unfolding update_times
  update_times-SameCount entry event = record {
    count = ground arith;
    estimate_error = ground arith;
  }

  update_examples-SameCount :
      (entry : Entry) (event : Event) → SameCount (update_examples p entry event) entry
  unfolding update_examples
  update_examples-SameCount entry event = record {
    count = ground arith;
    estimate_error = ground arith;
  }

  pub update_unknown_context-SameCount :
      (entry : Entry) (event : Event) → SameCount (update_unknown_context p entry event) entry
  unfolding update_unknown_context
  update_unknown_context-SameCount entry event =
      let t = update_times-SameCount entry event in
      let x = update_examples-SameCount (update_scope p (update_times p entry event) event) event in
      record { count = x.count ∙ t.count; estimate_error = x.estimate_error ∙ t.estimate_error }

  pub count-new_unknown_entry :
      (k : Key) (event : Event) (n m : ℕ)
      → ((new_unknown_entry p k event n m).count ≡ n)
        × ((new_unknown_entry p k event n m).estimate_error ≡ m)
  unfolding new_unknown_entry
  count-new_unknown_entry k event n m =
      let s =
        update_unknown_context-SameCount
          (record {
            component = k.0;
            fingerprint = k.1;
            template = p.template event.message_excerpt;
            count = n;
            estimate_error = m;
            first_seen = none;
            last_seen = none;
            inferred_time_samples = 0;
            scope_truncated = false;
            examples = [];
            first_seen_epoch = none;
            last_seen_epoch = none;
            nodes = [];
            pods = [];
            sources = [];
          })
          event in
      (s.count, s.estimate_error)

length-bounded_add :
    (values : List String) (value : Option String) (limit : ℕ)
    → length values ≤ limit
    → length (bounded_add values value limit).0 ≤ limit
unfolding bounded_add
length-bounded_add values none limit h = h
length-bounded_add values (some v) limit h = ground (arith, length-append values (v ∷ []))

-- The bounds of an entry's context: 20 nodes, 50 pods, 20 sources and 3 examples.
pub record IsBounded (e : Entry) : Type 0 where
  pub nodes : length e.nodes ≤ 20
  pub pods : length e.pods ≤ 50
  pub sources : length e.sources ≤ 20
  pub examples : length e.examples ≤ 3

module _ (p : Patterns) where
  update_times-IsBounded :
      (entry : Entry) (event : Event) → IsBounded entry → IsBounded (update_times p entry event)
  unfolding update_times
  update_times-IsBounded entry event b = record {
    nodes = ground (arith, b.nodes);
    pods = ground (arith, b.pods);
    sources = ground (arith, b.sources);
    examples = ground (arith, b.examples);
  }

  update_scope-IsBounded :
      (entry : Entry) (event : Event) → IsBounded entry → IsBounded (update_scope p entry event)
  unfolding update_scope
  update_scope-IsBounded entry event b = record {
    nodes = length-bounded_add entry.nodes event.node 20 b.nodes;
    pods = length-bounded_add entry.pods (event_pod p event) 50 b.pods;
    sources = length-bounded_add entry.sources (some event.source) 20 b.sources;
    examples = b.examples;
  }

  update_examples-IsBounded :
      (entry : Entry) (event : Event) → IsBounded entry → IsBounded (update_examples p entry event)
  unfolding update_examples
  update_examples-IsBounded entry event b = record {
    nodes = ground (arith, b.nodes);
    pods = ground (arith, b.pods);
    sources = ground (arith, b.sources);
    examples = ground (arith, b.examples, length-append entry.examples (example_of event ∷ []));
  }

  -- Whatever events are counted, the context of an entry keeps to its bounds.
  update_unknown_context-IsBounded :
      (entry : Entry) (event : Event)
      → IsBounded entry
      → IsBounded (update_unknown_context p entry event)
  unfolding update_unknown_context
  update_unknown_context-IsBounded entry event b =
      update_examples-IsBounded _ event
        (update_scope-IsBounded _ event (update_times-IsBounded entry event b))
