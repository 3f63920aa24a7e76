-- ===== src/Causal/Reach.antt =====
-- `_reachable` of src/kdiag/causal.py: the breadth-first search along the causal edges. The queue has at most one
-- entry for each start and each target, so that their number is enough fuel.
pub mod Search
use k8s_check.Prelude.{
  ℕ, zero, suc, ◌+◌, String, Bool, true, false, Option, none, some, List, [], ◌∷◌, ◌++◌, ◌==◌,
  string_eq, contains, leb, if◌then◌else◌, length, get_or,
}
use k8s_check.Dict.{Dict, lookup}

abbrev pub Adjacency : Type 0
Adjacency = Dict String (List String)

abbrev pub Queue : Type 0
Queue = List (String × ℕ)

-- The loop over the targets of a node: the set `found`, and the entries to append to the queue.
unfoldable pub visit : List String → ℕ → List String → List String × Queue
visit [] depth found = (found, [])
visit (target ∷ targets) depth found =
    let seen = visit targets depth found in
    let r = visit targets depth (found ++ target ∷ []) in
    if contains found target then seen else (r.0, (target, depth) ∷ r.1)

-- The loop along the queue. It gives `none` when the fuel runs out.
unfoldable pub search_from : ℕ → Adjacency → ℕ → List String → Queue → Option (List String)
unfolding visit
search_from fuel adjacency maximum_depth found [] = some found
search_from zero adjacency maximum_depth found (entry ∷ queue) = none
search_from (suc fuel) adjacency maximum_depth found ((current, depth) ∷ queue) =
    let skipped = search_from fuel adjacency maximum_depth found queue in
    let v = visit (get_or (lookup current adjacency) []) (depth + 1) found in
    let visited = search_from fuel adjacency maximum_depth v.0 (queue ++ v.1) in
    if leb maximum_depth depth then skipped else visited

-- All targets of all nodes.
unfoldable pub all_targets : Adjacency → List String
all_targets [] = []
all_targets ((_, targets) ∷ adjacency) = targets ++ all_targets adjacency

abbrev pub start_queue : List String → Queue
start_queue [] = []
start_queue (s ∷ starts) = (s, 0) ∷ start_queue starts

-- `starts` is a set, that is a list without repetitions.
unfoldable pub reachable : Adjacency → List String → ℕ → Option (List String)
unfolding search_from all_targets
reachable adjacency starts maximum_depth =
    search_from (length starts + length (all_targets adjacency)) adjacency maximum_depth starts
      (start_queue starts)
