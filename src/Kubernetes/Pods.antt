-- ===== src/Kubernetes/Pods.antt =====
-- The pods whose logs src/kdiag/kubernetes.py reads: their order, `_pod_log_priority`, and their containers.
use k8s_check.Prelude.{
  ℕ, String, Bool, true, false, ◌&&◌, ◌||◌, not, Option, none, some, List, [], ◌∷◌, ◌++◌, ◌==◌,
  string_eq, nat_eq, option_eq, bool_eq, ltb, if◌then◌else◌, map, any, contains, or_text, get_or,
  join, has_substring, str_leb,
}
use k8s_check.Dict.{Dict, lookup, insert}

-- A status of a container. `waiting` tells whether its state has a non-empty value of this name.
pub record ContainerStatus : Type 0 where
  pub name : Option String
  pub ready : Option Bool
  pub waiting : Bool
  pub restart_count : Option ℕ

pub record Pod : Type 0 where
  pub namespace : Option String
  pub name : Option String
  pub label_values : List String
  pub phase : Option String
  pub container_statuses : List ContainerStatus
  pub init_container_statuses : List ContainerStatus
  pub containers : List (Option String)
  pub init_containers : List (Option String)

abbrev system_components : List (String × ℕ)
system_components =
    ("kube-apiserver", 0)
    ∷ ("etcd", 0)
    ∷ ("kube-controller-manager", 1)
    ∷ ("kube-scheduler", 1)
    ∷ ("coredns", 2)
    ∷ ("kube-dns", 2)
    ∷ ("cilium", 3)
    ∷ ("csi", 3)
    ∷ []

-- The priority of the first component that is a part of the text.
abbrev system_priority : String → List (String × ℕ) → ℕ
system_priority component_text [] = 4
system_priority component_text ((component, priority) ∷ components) =
    if has_substring component_text component
    then priority
    else system_priority component_text components

abbrev is_restarted : Option ℕ → Bool
is_restarted count = ltb 0 (get_or count 0)

abbrev status_unhealthy : ContainerStatus → Bool
status_unhealthy s = s.ready == some false || (s.waiting || is_restarted s.restart_count)

abbrev pod_unhealthy : Pod → Bool
pod_unhealthy pod =
    not (pod.phase == some "Running" || pod.phase == some "Succeeded")
    || any status_unhealthy (pod.init_container_statuses ++ pod.container_statuses)

abbrev pub Priority : Type 0
Priority = ℕ × ℕ × String × String

unfoldable pub pod_log_priority : (String → String) → Pod → Priority
unfolding join
pod_log_priority lower pod =
    let component_text = join " " (map lower (pod.label_values ++ or_text pod.name "" ∷ [])) in
    (
      if pod_unhealthy pod then 0 else 1,
      system_priority component_text system_components,
      or_text pod.namespace "",
      or_text pod.name "",
    )

-- `<=` of tuples.
abbrev pub priority_leb : Priority → Priority → Bool
priority_leb (a, b, c, d) (a', b', c', d') =
    ltb a a'
    || (a == a' && (ltb b b' || (b == b' && (not (str_leb c' c) || (c == c' && str_leb d d')))))

-- `{item.get("name"): item for item in statuses}`
unfoldable pub statuses_by_name :
    List ContainerStatus
    → Dict (Option String) ContainerStatus
    → Dict (Option String) ContainerStatus
statuses_by_name [] table = table
statuses_by_name (s ∷ statuses) table = statuses_by_name statuses (insert s.name s table)

-- A container with the number of its restarts, and whether it is an init container.
pub record Target : Type 0 where
  pub container : Option String
  pub restarted : Bool
  pub init_container : Bool

abbrev restarted_in : Option ContainerStatus → Bool
restarted_in none = false
restarted_in (some s) = is_restarted s.restart_count

unfoldable pub targets_of :
    Bool → Dict (Option String) ContainerStatus → List (Option String) → List Target
targets_of init statuses [] = []
targets_of init statuses (c ∷ cs) =
    record { container = c; restarted = restarted_in (lookup c statuses); init_container = init }
    ∷ targets_of init statuses cs

unfoldable pub pod_targets : Pod → List Target
unfolding statuses_by_name targets_of
pod_targets pod =
    targets_of false (statuses_by_name pod.container_statuses []) pod.containers
    ++ targets_of true (statuses_by_name pod.init_container_statuses []) pod.init_containers

abbrev pub in_namespaces : List String → Pod → Bool
in_namespaces namespaces pod = elim pod.namespace [ none ↦ false | some n ↦ contains namespaces n ]
