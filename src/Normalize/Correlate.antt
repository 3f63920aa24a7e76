-- ===== src/Normalize/Correlate.antt =====
-- `correlate_events` of src/kdiag/normalize.py: events of one scope that belong together because each group of
-- categories occurs within a time window.
pub mod Window
use k8s_check.Prelude.{
  ℕ, suc, ◌+◌, ◌-◌, String, ◌<>◌, Bool, true, false, ◌&&◌, ◌||◌, not, Option, none, some, List, [],
  ◌∷◌, ◌++◌, map, ◌==◌, string_eq, nat_eq, contains, nub, filter, any, all, length, take, drop_last,
  is_empty, ltb, leb, if◌then◌else◌, truthy, get_or, or_text, str_leb, str_ltb, sort_by, join,
  str_of_nat,
}
use k8s_check.Dict.{Dict, lookup, insert, values}
use k8s_check.Normalize.Event.{Event}

-- An event with the number of its `timestamp_epoch`.
abbrev pub Timed : Type 0
Timed = ℕ × Event

-- The identifier of a correlation and its groups of categories.
abbrev pub Spec : Type 0
Spec = String × List (List String)

-- `_correlation_scope`
unfoldable pub correlation_scope : Event → String → Option String
correlation_scope event correlation_id =
    if correlation_id == "probe_network_failure"
    then (if truthy event.namespace && truthy event.pod
        then some ("pod:" <> (get_or event.namespace "" <> ("/" <> get_or event.pod "")))
        else none)
    else if truthy event.node
    then some ("node:" <> get_or event.node "")
    else none

-- `Counter`: a number for each category, 0 where none was counted.
abbrev pub Counter : Type 0
Counter = String → ℕ

abbrev pub no_count : Counter
no_count category = 0

-- `set(categories) & relevant_categories` has the category.
abbrev pub is_relevant : List String → Timed → String → Bool
is_relevant relevant e category = contains e.1.categories category && contains relevant category

-- `category_counts.update(...)` and `category_counts.subtract(...)`
unfoldable pub count_event : List String → Timed → Counter → Counter
count_event relevant e counts =
    λ category. if is_relevant relevant e category then counts category + 1 else counts category

unfoldable pub uncount_event : List String → Timed → Counter → Counter
uncount_event relevant e counts =
    λ category. if is_relevant relevant e category then counts category - 1 else counts category

-- The inner loop: events too old for the window leave it. The list is `candidates[left:right + 1]`.
unfoldable pub shrink : ℕ → List String → ℕ → List Timed → Counter → List Timed × Counter
unfolding uncount_event
shrink window relevant now [] counts = ([], counts)
shrink window relevant now (e ∷ es) counts =
    let rest = shrink window relevant now es (uncount_event relevant e counts) in
    if ltb (e.0 + window) now then rest else (e ∷ es, counts)

-- `all(any(category_counts[category] > 0 for category in group) for group in groups)`
abbrev pub covers : Counter → List (List String) → Bool
covers counts groups = all (any (λ category. ltb 0 (counts category))) groups

-- The loops over `start` and `right`: the matches among the candidates that are left, from a window and its counts. A
-- match empties the window, since the next one starts behind it.
unfoldable pub matches :
    ℕ → List String → List (List String) → List Timed → Counter → List Timed → List (List Timed)
unfolding count_event shrink
matches window relevant groups current counts [] = []
matches window relevant groups current counts (e ∷ candidates) =
    let s = shrink window relevant e.0 (current ++ e ∷ []) (count_event relevant e counts) in
    let restarted = matches window relevant groups [] no_count candidates in
    let continued = matches window relevant groups s.0 s.1 candidates in
    if ltb 1 (length s.0) && covers s.1 groups then s.0 ∷ restarted else continued

pub record Episode : Type 0 where
  pub correlation_id : String
  pub episode_id : String
  pub scope : String
  pub window_seconds : ℕ
  pub started_at : Option String
  pub ended_at : Option String
  pub duration_seconds : ℕ
  pub categories : List String
  pub sources : List String
  pub event_ids : List String
  pub evidence : List String

abbrev pub timed_leb : Timed → Timed → Bool
timed_leb a b = ltb a.0 b.0 || (a.0 == b.0 && str_leb a.1.event_id b.1.event_id)

-- The events of the match that have a category of the group, for each group in turn.
abbrev select_groups : List (List String) → List Timed → List Timed
select_groups [] found = []
select_groups (group ∷ groups) found =
    filter (λ e. any (contains group) e.1.categories) found ++ select_groups groups found

-- `{event["event_id"]: event for event in selected}`
abbrev by_id : List Timed → Dict String Timed → Dict String Timed
by_id [] d = d
by_id (e ∷ es) d = by_id es (insert e.1.event_id e d)

abbrev last_of : Timed → List Timed → Timed
last_of e [] = e
last_of e (x ∷ xs) = last_of x xs

abbrev sorted_set : List String → List String
sorted_set xs = sort_by str_leb (nub xs)

abbrev all_categories : List Timed → List String
all_categories [] = []
all_categories (e ∷ es) = e.1.categories ++ all_categories es

-- `str` of a time and SHA-256 in hexadecimal digits.
pub record Naming : Type 0 where
  pub time_text : ℕ → String
  pub digest : String → String

abbrev episode_from : Naming → String → String → ℕ → List Timed → Option Episode
episode_from n correlation_id scope window [] = none
episode_from n correlation_id scope window (first ∷ rest) =
    let ordered = first ∷ rest in
    let last = last_of first rest in
    some (record {
      correlation_id = correlation_id;
      episode_id =
          n.digest
            (join "|" (correlation_id ∷ scope ∷ n.time_text first.0 ∷ n.time_text last.0 ∷ []));
      scope = scope;
      window_seconds = window;
      started_at = first.1.timestamp;
      ended_at = last.1.timestamp;
      duration_seconds = last.0 - first.0;
      categories = sorted_set (all_categories ordered);
      sources = sorted_set (map (λ e. e.1.source) ordered);
      event_ids = map (λ e. e.1.event_id) ordered;
      evidence = sorted_set (map (λ e. e.1.evidence) ordered);
    })

-- `_episode`
unfoldable pub episode :
    Naming → String → String → List Timed → List (List String) → ℕ → Option Episode
unfolding join
episode n correlation_id scope found groups window =
    let unique = values (by_id (select_groups groups found) []) in
    let result = episode_from n correlation_id scope window (take 20 (sort_by timed_leb unique)) in
    if ltb (length unique) 2 then none else result

-- The categories of all groups, `relevant_categories`.
abbrev pub relevant_of : List (List String) → List String
relevant_of [] = []
relevant_of (group ∷ groups) = group ++ relevant_of groups

-- The time of an event that can be correlated: a known one that was not inferred.
abbrev precise_time : Event → Option ℕ
precise_time event = if event.timestamp_inferred then none else event.timestamp_epoch

abbrev add_to_scope :
    Option String → Option ℕ → Event → Dict String (List Timed) → Dict String (List Timed)
add_to_scope none time event scopes = scopes
add_to_scope (some scope) none event scopes = scopes
add_to_scope (some scope) (some time) event scopes =
    insert scope (get_or (lookup scope scopes) [] ++ (time, event) ∷ []) scopes

-- `scopes`: the events of each scope, for one specification.
unfoldable pub group_scopes :
    Spec → List Event → Dict String (List Timed) → Dict String (List Timed)
unfolding correlation_scope
group_scopes spec [] scopes = scopes
group_scopes spec (event ∷ events) scopes =
    let added = add_to_scope (correlation_scope event spec.0) (precise_time event) event scopes in
    let kept = if any (contains (relevant_of spec.1)) event.categories then added else scopes in
    group_scopes spec events kept

abbrev add_episode : Option Episode → List Episode → List Episode
add_episode none rest = rest
add_episode (some e) rest = e ∷ rest

unfoldable pub episodes_of : Naming → Spec → String → ℕ → List (List Timed) → List Episode
unfolding episode
episodes_of n spec scope window [] = []
episodes_of n spec scope window (found ∷ rest) =
    add_episode (episode n spec.0 scope found spec.1 window) (episodes_of n spec scope window rest)

-- The matches among the events of one scope.
unfoldable pub scope_matches : Spec → ℕ → List Timed → List (List Timed)
unfolding matches
scope_matches spec window events =
    matches window (relevant_of spec.1) spec.1 [] no_count (sort_by timed_leb events)

abbrev scope_leb : String × List Timed → String × List Timed → Bool
scope_leb a b = str_leb a.0 b.0

unfoldable pub correlate_scopes : Naming → Spec → ℕ → Dict String (List Timed) → List Episode
unfolding episodes_of scope_matches
correlate_scopes n spec window [] = []
correlate_scopes n spec window ((scope, events) ∷ scopes) =
    episodes_of n spec scope window (scope_matches spec window events)
    ++ correlate_scopes n spec window scopes

unfoldable pub correlate_specs : Naming → List Spec → ℕ → List Event → List Episode
unfolding correlate_scopes group_scopes
correlate_specs n [] window events = []
correlate_specs n (spec ∷ specs) window events =
    correlate_scopes n spec window (sort_by scope_leb (group_scopes spec events []))
    ++ correlate_specs n specs window events

abbrev episode_leb : Episode → Episode → Bool
episode_leb a b =
    str_ltb (or_text a.started_at "") (or_text b.started_at "")
    || (or_text a.started_at "" == or_text b.started_at ""
        && (str_ltb a.correlation_id b.correlation_id
            || (a.correlation_id == b.correlation_id && str_leb a.scope b.scope)))

-- `correlate_events` for a table of specifications. The window has the unit of `timestamp_epoch`.
unfoldable pub correlate_events : Naming → List Spec → ℕ → List Event → List Episode
unfolding correlate_specs
correlate_events n specs window events = sort_by episode_leb (correlate_specs n specs window events)

-- `CORRELATION_SPECS`
abbrev pub correlation_specs : List Spec
correlation_specs =
    (
      "node_runtime_failure",
      ("node_not_ready" ∷ []) ∷ ("kubelet_inactive" ∷ "runtime_unavailable" ∷ []) ∷ [],
    )
    ∷ (
      "node_cni_failure",
      ("node_not_ready" ∷ "pod_sandbox_failure" ∷ [])
          ∷ ("cni_unavailable" ∷ "network_unavailable" ∷ [])
          ∷ [],
    )
    ∷ (
      "probe_network_failure",
      ("probe_failure" ∷ [])
          ∷ ("address_family" ∷ "no_route" ∷ "connection_refused" ∷ "dns_error" ∷ "timeout" ∷ [])
          ∷ [],
    )
    ∷ ("memory_oom_failure", ("memory_pressure" ∷ []) ∷ ("oom_kill" ∷ []) ∷ [])
    ∷ ("storage_failure", ("disk_pressure" ∷ []) ∷ ("disk_full" ∷ "read_only_fs" ∷ []) ∷ [])
    ∷ (
      "cgroup_service_failure",
      ("cgroup_access_denied" ∷ []) ∷ ("kubelet_inactive" ∷ "runtime_unavailable" ∷ []) ∷ [],
    )
    ∷ (
      "certificate_api_failure",
      ("certificate_error" ∷ []) ∷ ("api_unreachable" ∷ "clock_error" ∷ []) ∷ [],
    )
    ∷ (
      "conntrack_network_failure",
      ("conntrack_full" ∷ [])
          ∷ ("no_route" ∷ "connection_refused" ∷ "timeout" ∷ "probe_failure" ∷ [])
          ∷ [],
    )
    ∷ []
