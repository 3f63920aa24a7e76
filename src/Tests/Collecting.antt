-- ===== src/Tests/Collecting.antt =====
-- Runs of the reading of logs in src/kdiag/kubernetes.py.
use k8s_check.Prelude.{
  Option, ℕ, ◌≤◌, String, Bool, true, false, ◌||◌, ◌≡◌, refl, none, some, List, [], ◌∷◌, string_eq,
  nat_eq, option_eq, ltb, length, join, sort_by, All, arith, take, length-take, str_of_nat, ◌⊎◌,
  map, ◌==◌, if◌then◌else◌, ok, refuse, contains,
}
use k8s_check.Kubernetes.Sources.{
  Source, command_status, json_source, first_loop, first_json_source, snapshot_status,
  partial_snapshot,
}
use k8s_check.Kubernetes.Range.{range_step, prometheus_range_step, Series, project_range}
use k8s_check.Kubernetes.Within.{raw_samples, range_step-IsLeast, project_range_whole}
use Prim.Native.Nat.{◌-◌, ◌*◌, ◌%◌, ◌<◌}
use k8s_check.Runner.{
  ProcessResult, exited, Stream, standard_output, standard_error, read_chunk, read_events,
  read_output,
}
use k8s_check.Runner.Streams.{all_stdout, all_stderr, read_output_kept}
use k8s_check.Kubernetes.Pods.{
  ContainerStatus, Pod, pod_targets, targets_of, statuses_by_name, pod_log_priority,
}
use k8s_check.Kubernetes.Logs.{
  Output, LogKey, log_truncated, log_collected, Logs, base_arguments, log_arguments, read_log,
  read_previous, read_container, read_containers, read_pods, selected, collect_pods, collect_logs,
}
use k8s_check.Kubernetes.Complete.{
  read_keys, all_keys, collect_logs-IsBounded, collect_logs_complete,
}

abbrev ten_bytes : List ℕ
ten_bytes = 48 ∷ 49 ∷ 50 ∷ 51 ∷ 52 ∷ 53 ∷ 54 ∷ 55 ∷ 56 ∷ 57 ∷ []

-- A command that writes ten bytes, as many of them as are allowed.
abbrev logger : List String → ℕ → Output
logger argv limit = record {
  returncode = exited 0;
  stdout = take limit ten_bytes;
  stderr = [];
  truncated = ltb limit 10;
}

logger_within : (argv : List String) (limit : ℕ) → length (logger argv limit).stdout ≤ limit
logger_within argv limit = omega (arith, length-take limit ten_bytes)

abbrev quiet : List ℕ → String
quiet bytes = ""

abbrev same_text : String → String
same_text s = s

abbrev arguments : List String
arguments = base_arguments none (some "test")

abbrev status_of : String → ℕ → ContainerStatus
status_of name restarts = record {
  name = some name;
  ready = some true;
  waiting = false;
  restart_count = some restarts;
}

abbrev restarted_pod : Pod
restarted_pod = record {
  namespace = some "kube-system";
  name = some "dns";
  label_values = [];
  phase = some "Running";
  container_statuses = status_of "main" 1 ∷ [];
  init_container_statuses = [];
  containers = some "main" ∷ [];
  init_containers = [];
}

abbrev key : Bool → LogKey
key previous = record {
  namespace = "kube-system";
  pod = "dns";
  container = "main";
  init_container = false;
  previous = previous;
}

abbrev logs_within : ℕ → Logs
logs_within limit =
    collect_logs logger quiet same_text arguments 100 none limit ("kube-system" ∷ []) 5
      (some (restarted_pod ∷ []))

both_read :
    ((logs_within 100).status ≡ log_collected)
    × (read_keys (logs_within 100).entries ≡ key false ∷ key true ∷ [])
    × ((logs_within 100).bytes ≡ 20)
unfolding collect_logs collect_pods read_pods read_containers read_container read_previous read_log
    log_arguments pod_targets targets_of statuses_by_name selected pod_log_priority sort_by
    str_of_nat join
both_read = (refl, refl, refl)

-- With fifteen bytes the second log is cut off.
one_cut : ((logs_within 15).status ≡ log_truncated) × ((logs_within 15).bytes ≡ 15)
unfolding collect_logs collect_pods read_pods read_containers read_container read_previous read_log
    log_arguments pod_targets targets_of statuses_by_name selected pod_log_priority sort_by
    str_of_nat join
one_cut = (refl, refl)

collect_logs-IsBounded_example : (logs_within 15).bytes ≤ 15
collect_logs-IsBounded_example =
    collect_logs-IsBounded logger quiet same_text arguments 100 none 15 logger_within
      ("kube-system" ∷ []) 5 (some (restarted_pod ∷ []))

collect_logs_complete_example :
    (read_keys (logs_within 100).entries
      ≡ all_keys (
          selected logger quiet same_text arguments 100 none 100
            ("kube-system" ∷ [])
            (restarted_pod ∷ [])))
    × All (λ e. e.is_collected ≡ true) (logs_within 100).entries
collect_logs_complete_example =
    collect_logs_complete logger quiet same_text arguments 100 none 100 ("kube-system" ∷ []) 5
      (restarted_pod ∷ []) both_read.0

-- Two pieces of the output with a piece of the error stream between them.
abbrev pieces : List (Stream × List ℕ)
pieces =
    (standard_output, 1 ∷ 2 ∷ []) ∷ (standard_error, 7 ∷ []) ∷ (standard_output, 3 ∷ 4 ∷ []) ∷ []

pieces_run :
    read_output 3 5 pieces ≡ record { stdout = 1 ∷ 2 ∷ 3 ∷ []; stderr = 7 ∷ []; truncated = true }
unfolding read_output read_events read_chunk
pieces_run = refl

read_output_kept_example :
    ((read_output 3 5 pieces).stdout ≡ take 3 (all_stdout pieces))
    × ((read_output 3 5 pieces).stderr ≡ take 5 (all_stderr pieces))
    × ((read_output 3 5 pieces).truncated
        ≡ (ltb 3 (length (all_stdout pieces)) || ltb 5 (length (all_stderr pieces))))
read_output_kept_example = read_output_kept 3 5 pieces

-- A range of ten hours.
ten_hours : prometheus_range_step 0 36000000000 ≡ ok 60
unfolding prometheus_range_step range_step refuse
ten_hours = refl

abbrev one_minute : ℕ
one_minute = 60

range_step-IsLeast_example :
    (one_minute % 30 ≡ 0)
    × (30 ≤ one_minute)
    × (36000000000 - 0 ≤ one_minute * 600000000)
    × ((one_minute ≡ 30) ⊎ ((one_minute - 30) * 600000000 < 36000000000 - 0))
range_step-IsLeast_example = range_step-IsLeast 0 36000000000 one_minute ten_hours

abbrev parsed : ℕ → Option ℕ
parsed n = if n == 0 then none else some n

abbrev two_series : List (Series String ℕ)
two_series =
    record { metric = "a"; values = 1 ∷ 2 ∷ [] } ∷ record { metric = "b"; values = 3 ∷ [] } ∷ []

project_range_whole_example :
    let data' = project_range same_text parsed two_series in
    (length data'.series ≤ 200)
    × (data'.sample_count ≤ 200000)
    × ((data'.truncated ≡ true)
        ⊎ ((map (λ item. item.metric) data'.series ≡ map (λ item. same_text item.metric) two_series)
            × (data'.sample_count ≡ raw_samples two_series)))
project_range_whole_example = project_range_whole same_text parsed two_series

-- A cluster without the first configuration map.
abbrev second_only : List String → ℕ → ProcessResult
second_only argv limit = record {
  returncode = if contains argv "second" then exited 0 else exited 1;
  stdout = 1 ∷ [];
  stderr = [];
  timed_out = false;
  truncated = false;
  error = none;
}

abbrev found_source : Source ℕ
found_source =
    first_json_source second_only quiet arguments 100 (λ bytes. ok (length bytes)) "config"
      (("a", "first") ∷ ("b", "second") ∷ ("c", "third") ∷ []) (λ n. ok n) false

second_found :
    (found_source.discovered_at ≡ some "b/second")
    × (length found_source.attempts ≡ 2)
    × (snapshot_status ((found_source.status, true) ∷ []) true false ≡ partial_snapshot)
unfolding first_json_source first_loop json_source command_status snapshot_status
second_found = (refl, refl, refl)
