-- ===== src/Kubernetes/Logs.antt =====
-- `_collect_logs` and `_pod_log_priority` of src/kdiag/kubernetes.py. A command is run by a parameter, which takes the
-- arguments and the greatest number of bytes of its output; so are the decoding of bytes and `str.lower`.
use k8s_check.Prelude.{
  ℕ, ◌+◌, ◌-◌, min, String, ◌<>◌, Bool, true, false, ◌&&◌, ◌||◌, not, Option, none, some, List, [],
  ◌∷◌, ◌++◌, string_eq, nat_eq, option_eq, bool_eq, ltb, leb, if◌then◌else◌, filter, any, length,
  take, truthy, or_text, str_of_nat, sort_by,
}
use Prim.Native.String.{slice}
use k8s_check.Runner.{ReturnCode, is_exit_zero, has_code}
use k8s_check.Kubernetes.Pods.{
  Pod, pod_log_priority, priority_leb, Target, pod_targets, in_namespaces,
}

pub record Output : Type 0 where
  pub returncode : ReturnCode
  pub stdout : List ℕ
  pub stderr : List ℕ
  pub truncated : Bool

-- What an entry of the result is about.
pub record LogKey : Type 0 where
  pub namespace : String
  pub pod : String
  pub container : String
  pub init_container : Bool
  pub previous : Bool

pub record LogEntry : Type 0 where
  pub key : LogKey
  pub is_collected : Bool
  pub truncated : Bool
  pub text : String
  pub error : Option String

-- "truncated", "partial", "collected" and "source_unavailable".
pub data LogStatus : Type 0 where
  log_truncated log_partial log_collected source_unavailable : LogStatus

pub record Logs : Type 0 where
  pub status : LogStatus
  pub entries : List LogEntry
  pub bytes : ℕ
  pub selected_pods : ℕ

-- The local variables of the loops.
pub record Reading : Type 0 where
  pub entries : List LogEntry
  pub consumed : ℕ
  pub limited : Bool

abbrev max_log_read : ℕ
max_log_read = 524288

-- `self._base()`
abbrev pub base_arguments : Option String → Option String → List String
base_arguments kubeconfig context =
    "kubectl"
    ∷ ((if truthy kubeconfig then "--kubeconfig" ∷ or_text kubeconfig "" ∷ [] else [])
        ++ (if truthy context then "--context" ∷ or_text context "" ∷ [] else []))

abbrev pub stop : Reading → Reading
stop s = record s { limited = true }

abbrev pub key_of : Pod → Target → LogKey
key_of pod target = record {
  namespace = or_text pod.namespace "";
  pod = or_text pod.name "";
  container = or_text target.container "";
  init_container = target.init_container;
  previous = false;
}

module _ (run : List String → ℕ → Output) (decode : List ℕ → String) (lower : String → String)
    (base : List String) (tail_lines : ℕ) (since_time : Option String) (max_total_bytes : ℕ) where
  unfoldable pub log_arguments : LogKey → List String
  unfolding str_of_nat
  log_arguments k =
      base
      ++ ("logs"
          ∷ "--namespace"
          ∷ k.namespace
          ∷ k.pod
          ∷ "--container"
          ∷ k.container
          ∷ "--tail"
          ∷ str_of_nat tail_lines
          ∷ "--timestamps=true"
          ∷ [])
      ++ (if truthy since_time then ("--since-time=" <> or_text since_time "") ∷ [] else [])
      ++ (if k.previous then "--previous" ∷ [] else [])

  abbrev pub entry_of : LogKey → Output → LogEntry
  entry_of k result = record {
    key = k;
    is_collected = is_exit_zero result.returncode && not result.truncated;
    truncated = result.truncated;
    text = decode result.stdout;
    error = if has_code result.returncode then some (slice (decode result.stderr) 0 2000) else none;
  }

  -- The call of `run_process` and the new entry.
  unfoldable pub read_log : LogKey → Reading → Reading
  unfolding log_arguments
  read_log k s =
      let result = run (log_arguments k) (min (max_total_bytes - s.consumed) max_log_read) in
      record s {
        entries = s.entries ++ entry_of k result ∷ [];
        consumed = s.consumed + length result.stdout;
      }

  -- The part of the innermost loop for the log of the previous container.
  unfoldable pub read_previous : LogKey → Bool → Reading → Reading
  unfolding read_log
  read_previous k restarted s =
      if not restarted
      then s
      else if leb max_total_bytes s.consumed
      then stop s
      else read_log (record k { previous = true }) s

  -- The innermost loop, for the current and the previous log.
  unfoldable pub read_container : LogKey → Bool → Reading → Reading
  unfolding read_previous
  read_container k restarted s =
      if leb max_total_bytes s.consumed then stop s else read_previous k restarted (read_log k s)

  unfoldable pub read_containers : Pod → List Target → Reading → Reading
  unfolding read_container
  read_containers pod [] s = s
  read_containers pod (t ∷ targets) s =
      let rest = read_containers pod targets (read_container (key_of pod t) t.restarted s) in
      if not (truthy pod.namespace)
        || (not (truthy pod.name) || (not (truthy t.container) || leb max_total_bytes s.consumed))
      then stop s
      else rest

  unfoldable pub read_pods : List Pod → Reading → Reading
  unfolding read_containers pod_targets
  read_pods [] s = s
  read_pods (pod ∷ pods) s = read_pods pods (read_containers pod (pod_targets pod) s)

  abbrev log_leb : Pod → Pod → Bool
  log_leb a b = priority_leb (pod_log_priority lower a) (pod_log_priority lower b)

  unfoldable pub selected : List String → List Pod → List Pod
  unfolding sort_by pod_log_priority
  selected namespaces pods = sort_by log_leb (filter (in_namespaces namespaces) pods)

  abbrev pub log_status : Reading → LogStatus
  log_status s =
      if s.limited || leb max_total_bytes s.consumed
      then log_truncated
      else if any (λ e. not e.is_collected) s.entries
      then log_partial
      else log_collected

  unfoldable pub collect_pods : List String → ℕ → List Pod → Logs
  unfolding read_pods selected
  collect_pods namespaces max_pods pods =
      let chosen = selected namespaces pods in
      let s =
        read_pods (take max_pods chosen)
          (record { entries = []; consumed = 0; limited = ltb max_pods (length chosen) }) in
      record {
        status = log_status s;
        entries = s.entries;
        bytes = s.consumed;
        selected_pods = length chosen;
      }

  -- `pods` is missing if the source of the pods was not collected.
  unfoldable pub collect_logs : List String → ℕ → Option (List Pod) → Logs
  unfolding collect_pods
  collect_logs namespaces max_pods none = record {
    status = source_unavailable;
    entries = [];
    bytes = 0;
    selected_pods = 0;
  }
  collect_logs namespaces max_pods (some pods) = collect_pods namespaces max_pods pods
