-- ===== src/Normalize/Limit.antt =====
-- `_fair_limit_events` of src/kdiag/normalize.py: at most the limit of events, taken in turn from buckets of events
-- with the same source, scope and categories.
pub mod Fair
use k8s_check.Prelude.{
  ℕ, zero, suc, ◌+◌, String, ◌<>◌, Bool, true, false, ◌&&◌, ◌||◌, not, Option, none, some, List, [],
  ◌∷◌, ◌++◌, map, ◌==◌, string_eq, list_eq, pair_eq, contains, leb, if◌then◌else◌, length, truthy,
  get_or, str_leb, str_ltb, sort_by,
}
use k8s_check.Dict.{Dict}
use k8s_check.Normalize.Event.{Event}
use k8s_check.Normalize.Append.{Stats, add_count}

-- The source, the scope and the categories.
abbrev pub Bucket : Type 0
Bucket = String × (String × List String)

-- `_event_bucket`
unfoldable pub event_bucket : Event → Bucket
event_bucket event = (
  event.source,
  (
    (if truthy event.namespace && truthy event.pod
        then "pod:" <> (get_or event.namespace "" <> ("/" <> get_or event.pod ""))
        else if truthy event.node
        then "node:" <> get_or event.node ""
        else "cluster"),
    event.categories,
  ),
)

abbrev texts_leb : List String → List String → Bool
texts_leb [] ys = true
texts_leb (x ∷ xs) [] = false
texts_leb (x ∷ xs) (y ∷ ys) = str_ltb x y || (x == y && texts_leb xs ys)

abbrev bucket_leb : Bucket → Bucket → Bool
bucket_leb (a, (b, c)) (a', (b', c')) =
    str_ltb a a' || (a == a' && (str_ltb b b' || (b == b' && texts_leb c c')))

-- A bucket with its first event and those behind it.
abbrev pub Queue : Type 0
Queue = List (Bucket × (Event × List Event))

-- `buckets.setdefault(_event_bucket(event), deque()).append(event)`
unfoldable pub add_to_bucket : Event → Queue → Queue
add_to_bucket event [] = (event_bucket event, (event, [])) ∷ []
add_to_bucket event ((k, (first, rest)) ∷ queue) =
    let others = add_to_bucket event queue in
    if event_bucket event == k
    then (k, (first, rest ++ event ∷ [])) ∷ queue
    else (k, (first, rest)) ∷ others

unfoldable pub fill_buckets : List Event → Queue → Queue
unfolding add_to_bucket
fill_buckets [] queue = queue
fill_buckets (event ∷ events) queue = fill_buckets events (add_to_bucket event queue)

abbrev again : Bucket → List Event → Queue
again k [] = []
again k (event ∷ rest) = (k, (event, rest)) ∷ []

-- The loop over `active`, for the number of events that are still to be retained. A bucket goes to the end of the
-- queue after its turn, if it has events left.
unfoldable pub take_in_turn : ℕ → Queue → List Event
take_in_turn zero active = []
take_in_turn (suc n) [] = []
take_in_turn (suc n) ((k, (event, rest)) ∷ active) = event ∷ take_in_turn n (active ++ again k rest)

abbrev queue_leb : Bucket × (Event × List Event) → Bucket × (Event × List Event) → Bool
queue_leb a b = bucket_leb a.0 b.0

unfoldable pub retained_events : List Event → ℕ → List Event
unfolding fill_buckets take_in_turn event_bucket
retained_events events limit = take_in_turn limit (sort_by queue_leb (fill_buckets events []))

-- The numbers for the events that are dropped.
unfoldable pub count_dropped : List String → List Event → Stats → Stats
count_dropped ids [] stats = stats
count_dropped ids (event ∷ events) stats =
    let counted = record stats {
      dropped_records = stats.dropped_records + 1;
      output_limit_drops = stats.output_limit_drops + 1;
      dropped_by_source = add_count event.source 1 stats.dropped_by_source;
    } in
    count_dropped ids events (if contains ids event.event_id then stats else counted)

unfoldable pub fair_limit_events : List Event → ℕ → Stats → List Event × Stats
unfolding retained_events count_dropped
fair_limit_events events limit stats =
    let retained = retained_events events limit in
    let counted = count_dropped (map (λ event. event.event_id) retained) events stats in
    if leb (length events) limit
    then (events, stats)
    else (retained, record counted { truncated = true })
