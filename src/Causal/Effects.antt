-- ===== src/Causal/Effects.antt =====
-- The search of `build_causal_analysis` in src/kdiag/causal.py for the consequences that a cause may explain: the
-- targets of a finding, the causal adjacency, and the test of the times. Findings have different identifiers, so that
-- what the code looks up by them belongs to the finding itself. No finding has both `None` and a node among its
-- targets: the code sorts the targets before the search, and would raise there.
pub mod Explained
use k8s_check.Prelude.{
  ℕ, ◌+◌, String, ◌<>◌, Bool, true, false, ◌&&◌, ◌||◌, not, Option, none, some, List, [], ◌∷◌, ◌++◌,
  ◌==◌, string_eq, option_eq, contains, nub, any, is_empty, is_some, leb, ltb, if◌then◌else◌,
  truthy, get_or, or_text, map, starts_with,
}
use Prim.Native.String.{len, slice, find}
use k8s_check.Dict.{Dict, lookup, insert}
use k8s_check.Causal.Finding.{Finding, safe_time}
use k8s_check.Causal.Graph.{Edge}
use k8s_check.Causal.Reach.{Adjacency, reachable}
use k8s_check.Causal.Rank.{Downstream}

-- The identifiers of the nodes that stand for a name. `None` is among them if the graph was full and gave no node.
abbrev pub Targets : Type 0
Targets = Dict String (List (Option String))

-- `text.split("/", 1)[1]`, where the text has a "/".
abbrev after_slash : String → String
after_slash text = slice text (find text "/" + 1) (len text)

-- `object_targets.get(text)` and, for a text with a namespace, that of the part behind it.
abbrev text_targets : Targets → String → List (Option String)
text_targets targets text =
    get_or (lookup text targets) []
    ++ (if ltb (find text "/") (len text)
        then get_or (lookup (after_slash text) targets) []
        else [])

abbrev affected_targets : Targets → List String → List (Option String)
affected_targets targets [] = []
affected_targets targets (text ∷ affected) =
    text_targets targets text ++ affected_targets targets affected

abbrev pub component_prefixes : Dict String String
component_prefixes =
    ("etcd.", "etcd")
    ∷ ("controlplane.", "kube_apiserver")
    ∷ ("runtime.", "container_runtime")
    ∷ ("cilium.", "cilium")
    ∷ ("network.cni_", "cilium")
    ∷ ("dns.", "dns")
    ∷ []

abbrev component_key : String → Dict String String → Option String
component_key rule_id [] = none
component_key rule_id ((prefix, key) ∷ prefixes) =
    let rest = component_key rule_id prefixes in
    if starts_with rule_id prefix then some key else rest

abbrev component_targets : Targets → Option String → List (Option String)
component_targets targets none = []
component_targets targets (some key) = get_or (lookup ("@component:" <> key) targets) []

-- `_finding_targets`
unfoldable pub finding_targets : Targets → Finding → List (Option String)
finding_targets targets f =
    let found = nub (affected_targets targets f.affected) in
    if is_empty found
    then component_targets targets (component_key (or_text f.rule_id "") component_prefixes)
    else found

-- `topology_adjacency`: the edges that are no indications.
unfoldable pub topology_adjacency : List Edge → Adjacency → Adjacency
topology_adjacency [] adjacency = adjacency
topology_adjacency (e ∷ edges) adjacency =
    let known = get_or (lookup e.source adjacency) [] in
    let added =
      insert e.source (if contains known e.target then known else known ++ e.target ∷ [])
        adjacency in
    topology_adjacency edges (if e.relation == "indicates" then adjacency else added)

-- The nodes among some targets.
abbrev pub node_targets : List (Option String) → List String
node_targets [] = []
node_targets (none ∷ targets) = node_targets targets
node_targets (some target ∷ targets) = target ∷ node_targets targets

-- `reachable`, for a cause with these targets: the search from its nodes and, if it is among them, `None`, which no
-- edge joins to a node.
unfoldable pub reached_from : Adjacency → List (Option String) → List (Option String)
unfolding reachable
reached_from adjacency targets =
    let found = map some (get_or (reachable adjacency (node_targets targets) 6) []) in
    if contains targets none then none ∷ found else found

abbrev pub causal_time_tolerance : ℕ
causal_time_tolerance = 900

abbrev compatible : Option ℕ → Option ℕ → Bool
compatible (some start) (some end) = leb start (end + causal_time_tolerance)
compatible _ _ = true

module _ (parse_utc_timestamp : String → Option ℕ) where
  -- `_temporally_compatible`, with times in seconds.
  unfoldable pub temporally_compatible : Finding → Finding → Bool
  unfolding safe_time
  temporally_compatible cause consequence =
      compatible (safe_time parse_utc_timestamp cause.started_at)
        (safe_time parse_utc_timestamp consequence.ended_at)

  -- The condition of the inner loop, for the nodes that were found from the cause.
  unfoldable pub explains : Targets → List (Option String) → Finding → Finding → Bool
  unfolding finding_targets temporally_compatible
  explains targets reached cause consequence =
      any (contains reached) (finding_targets targets consequence)
      && temporally_compatible cause consequence

  -- The consequences that a cause may explain. The search from its targets always ends.
  unfoldable pub effects_of : Targets → Adjacency → Finding → List Finding → List Finding
  unfolding reached_from explains
  effects_of targets adjacency cause [] = []
  effects_of targets adjacency cause (f ∷ findings) =
      let rest = effects_of targets adjacency cause findings in
      let reached = reached_from adjacency (finding_targets targets cause) in
      if f.finding_role == some "consequence" && explains targets reached cause f
      then f ∷ rest
      else rest

  -- A finding that is taken as a cause.
  abbrev pub is_cause : Finding → Bool
  is_cause f =
      not (f.finding_role == some "consequence")
      && not (starts_with (or_text f.rule_id "") "collector.")
