-- ===== src/Kubernetes/Complete.antt =====
-- `_collect_logs` of src/kdiag/kubernetes.py keeps to the number of bytes, and calls the logs collected only if they all
-- were.
use k8s_check.Prelude.{
  take_all, ℕ, ◌≤◌, String, Bool, true, false, ◌||◌, not, ◌≡◌, refl, ◌∙◌, sym, ap, ◌⊎◌, inl, inr,
  Option, none, some, List, [], ◌∷◌, ◌++◌, string_eq, nat_eq, option_eq, ltb, leb, if◌then◌else◌,
  if-elim, map, any, length, All, arith, Bool-cases, truthy, take,
}
use Prim.Native.Nat.{◌-◌, min}
use k8s_check.Kubernetes.Pods.{Pod, Target, pod_targets}
use k8s_check.Kubernetes.Logs.{
  Output, LogKey, LogEntry, log_truncated, log_partial, log_collected, Reading, entry_of, stop,
  key_of, log_arguments, read_log, read_previous, read_container, read_containers, read_pods,
  selected, log_status, collect_pods, collect_logs,
}

-- The logs that a container has.
abbrev pub container_keys : LogKey → Bool → List LogKey
container_keys k restarted = k ∷ (if restarted then record k { previous = true } ∷ [] else [])

abbrev pub targets_keys : Pod → List Target → List LogKey
targets_keys pod [] = []
targets_keys pod (t ∷ targets) =
    container_keys (key_of pod t) t.restarted ++ targets_keys pod targets

-- The logs of all containers of some pods.
abbrev pub all_keys : List Pod → List LogKey
all_keys [] = []
all_keys (pod ∷ pods) = targets_keys pod (pod_targets pod) ++ all_keys pods

abbrev pub read_keys : List LogEntry → List LogKey
read_keys entries = map (λ e. e.key) entries

append_assoc : (xs ys zs : List LogKey) → (xs ++ ys) ++ zs ≡ xs ++ (ys ++ zs)
append_assoc [] ys zs = refl
append_assoc (x ∷ xs) ys zs = ap (λ r. x ∷ r) (append_assoc xs ys zs)

append_empty : (xs : List LogKey) → xs ++ [] ≡ xs
append_empty [] = refl
append_empty (x ∷ xs) = ap (λ r. x ∷ r) (append_empty xs)

read_keys-append : (xs ys : List LogEntry) → read_keys (xs ++ ys) ≡ read_keys xs ++ read_keys ys
read_keys-append [] ys = refl
read_keys-append (x ∷ xs) ys = ap (λ r. x.key ∷ r) (read_keys-append xs ys)

true-differs : true ≡ false → ⊥
true-differs h = cc

truncated-differs : log_truncated ≡ log_collected → ⊥
truncated-differs h = cc

partial-differs : log_partial ≡ log_collected → ⊥
partial-differs h = cc

none_failed :
    (entries : List LogEntry)
    → any (λ e. not e.is_collected) entries ≡ false
    → All (λ e. e.is_collected ≡ true) entries
none_failed [] h = tt
none_failed (e ∷ entries) h = (ground (arith, h), none_failed entries (ground (arith, h)))

module _ (run : List String → ℕ → Output) (decode : List ℕ → String) (lower : String → String)
    (base : List String) (tail_lines : ℕ) (since_time : Option String) (max_total_bytes : ℕ) where
  -- What a part of the loops does: it keeps to the number of bytes, if a command does, and to the mark of a limit, and
  -- without this mark it reads these logs.
  record Reads (s : Reading) (ks : List LogKey) (t : Reading) : Type 0 where
    bounded :
        ((argv : List String) (limit : ℕ) → length (run argv limit).stdout ≤ limit)
        → s.consumed ≤ max_total_bytes
        → t.consumed ≤ max_total_bytes
    marked : s.limited ≡ true → t.limited ≡ true
    complete : (t.limited ≡ true) ⊎ (read_keys t.entries ≡ read_keys s.entries ++ ks)

  Reads-nothing : (s : Reading) → Reads s [] s
  Reads-nothing s = record {
    bounded = λ within h. h;
    marked = λ h. h;
    complete = inr (sym (append_empty (read_keys s.entries)));
  }

  Reads-stop : (s : Reading) (ks : List LogKey) → Reads s ks (stop s)
  Reads-stop s ks = record { bounded = λ within h. h; marked = λ h. refl; complete = inl refl }

  Reads-then :
      (s t u : Reading) (ks ls : List LogKey) → Reads s ks t → Reads t ls u → Reads s (ks ++ ls) u
  Reads-then s t u ks ls p q = record {
    bounded = λ within h. q.bounded within (p.bounded within h);
    marked = λ h. q.marked (p.marked h);
    complete = elim q.complete [
      | inl limit ↦ inl limit
      | inr rest ↦ elim p.complete [
        | inl limit ↦ inl (q.marked limit)
        | inr first ↦
            inr (rest ∙ ap (λ r. r ++ ls) first ∙ append_assoc (read_keys s.entries) ks ls)
      ]
    ];
  }

  read_log-Reads :
      (k : LogKey) (s : Reading)
      → Reads s (k ∷ []) (read_log run decode lower base tail_lines since_time max_total_bytes k s)
  unfolding read_log
  read_log-Reads k s =
      let limit = min (max_total_bytes - s.consumed) 524288 in
      let argv = log_arguments run decode lower base tail_lines since_time max_total_bytes k in
      record {
        bounded = λ within h. omega (arith, h, within argv limit);
        marked = λ h. h;
        complete = inr (
            read_keys-append s.entries (
              entry_of run decode lower base tail_lines since_time max_total_bytes k
                (run argv limit)
              ∷ []));
      }

  read_previous-Reads :
      (k : LogKey) (restarted : Bool) (s : Reading)
      → Reads s
          (if restarted then record k { previous = true } ∷ [] else [])
          (read_previous run decode lower base tail_lines since_time max_total_bytes k restarted s)
  unfolding read_previous
  read_previous-Reads k false s = Reads-nothing s
  read_previous-Reads k true s =
      let again : LogKey = record k { previous = true } in
      if-elim (Reads s (again ∷ [])) (leb max_total_bytes s.consumed)
        (λ _. Reads-stop s (again ∷ [])) (λ _. read_log-Reads again s)

  read_container-Reads :
      (k : LogKey) (restarted : Bool) (s : Reading)
      → Reads s
          (container_keys k restarted)
          (read_container run decode lower base tail_lines since_time max_total_bytes k restarted s)
  unfolding read_container
  read_container-Reads k restarted s =
      if-elim (Reads s (container_keys k restarted)) (leb max_total_bytes s.consumed)
        (λ _. Reads-stop s (container_keys k restarted))
        (λ _.
          let t = read_log run decode lower base tail_lines since_time max_total_bytes k s in
          Reads-then s t _ (k ∷ []) (if restarted then record k { previous = true } ∷ [] else [])
            (read_log-Reads k s) (read_previous-Reads k restarted t))

  read_containers-Reads :
      (pod : Pod) (targets : List Target) (s : Reading)
      → Reads s (targets_keys pod targets) (
          read_containers run decode lower base tail_lines since_time max_total_bytes pod targets s)
  unfolding read_containers
  read_containers-Reads pod [] s = Reads-nothing s
  read_containers-Reads pod (t ∷ targets) s =
      if-elim (Reads s (targets_keys pod (t ∷ targets)))
        (not (truthy pod.namespace)
          || (not (truthy pod.name)
              || (not (truthy t.container) || leb max_total_bytes s.consumed)))
        (λ _. Reads-stop s (targets_keys pod (t ∷ targets)))
        (λ _.
          let u =
            read_container run decode lower base tail_lines since_time max_total_bytes
              (key_of pod t) t.restarted s in
          Reads-then s u _ (container_keys (key_of pod t) t.restarted) (targets_keys pod targets)
            (read_container-Reads (key_of pod t) t.restarted s)
            (read_containers-Reads pod targets u))

  read_pods-Reads :
      (pods : List Pod) (s : Reading)
      → Reads s
          (all_keys pods)
          (read_pods run decode lower base tail_lines since_time max_total_bytes pods s)
  unfolding read_pods
  read_pods-Reads [] s = Reads-nothing s
  read_pods-Reads (pod ∷ pods) s =
      let t =
        read_containers run decode lower base tail_lines since_time max_total_bytes pod
          (pod_targets pod) s in
      Reads-then s t _ (targets_keys pod (pod_targets pod)) (all_keys pods)
        (read_containers-Reads pod (pod_targets pod) s) (read_pods-Reads pods t)

  log_status-collected :
      (s : Reading)
      → log_status run decode lower base tail_lines since_time max_total_bytes s ≡ log_collected
      → (s.limited ≡ false) × (any (λ e. not e.is_collected) s.entries ≡ false)
  log_status-collected s h = elim (Bool-cases (s.limited || leb max_total_bytes s.consumed)) [
    | inl limit ↦ absurd (truncated-differs (rw limit at h))
    | inr unlimited ↦ elim (Bool-cases (any (λ e. not e.is_collected) s.entries)) [
      | inl failed ↦ absurd (partial-differs (rw (unlimited, failed) at h))
      | inr good ↦ (ground (arith, unlimited), good)
    ]
  ]

  -- Whatever the commands write, the bytes of the logs that were read are not more than the limit, if a command writes
  -- no more than it is allowed to.
  pub collect_logs-IsBounded :
      ((argv : List String) (limit : ℕ) → length (run argv limit).stdout ≤ limit)
      → (namespaces : List String) (max_pods : ℕ) (pods : Option (List Pod))
      → (collect_logs run decode lower base tail_lines since_time max_total_bytes namespaces
          max_pods pods).bytes
        ≤ max_total_bytes
  unfolding collect_logs collect_pods
  collect_logs-IsBounded within namespaces max_pods none = omega arith
  collect_logs-IsBounded within namespaces max_pods (some pods) =
      let chosen =
        selected run decode lower base tail_lines since_time max_total_bytes namespaces pods in
      let start : Reading = record {
        entries = [];
        consumed = 0;
        limited = ltb max_pods (length chosen);
      } in
      (read_pods-Reads (take max_pods chosen) start).bounded within (omega arith)

  -- If the logs are called collected, then every log was read of every container of the pods in the namespaces, that of
  -- a previous container only if it was restarted, each without failure or truncation, and nothing else was read.
  pub collect_logs_complete :
      (namespaces : List String) (max_pods : ℕ) (pods : List Pod)
      → (collect_logs run decode lower base tail_lines since_time max_total_bytes namespaces
          max_pods
          (some pods)).status
        ≡ log_collected
      → let logs =
          collect_logs run decode lower base tail_lines since_time max_total_bytes namespaces
            max_pods
            (some pods) in
        (read_keys logs.entries
          ≡ all_keys (
              selected run decode lower base tail_lines since_time max_total_bytes namespaces pods))
        × All (λ e. e.is_collected ≡ true) logs.entries
  unfolding collect_logs collect_pods
  collect_logs_complete namespaces max_pods pods h =
      let chosen =
        selected run decode lower base tail_lines since_time max_total_bytes namespaces pods in
      let start : Reading = record {
        entries = [];
        consumed = 0;
        limited = ltb max_pods (length chosen);
      } in
      let done =
        read_pods run decode lower base tail_lines since_time max_total_bytes (take max_pods chosen)
          start in
      let reads = read_pods-Reads (take max_pods chosen) start in
      let (unlimited, good) = log_status-collected done h in
      let few : ltb max_pods (length chosen) ≡ false =
        elim (Bool-cases (ltb max_pods (length chosen))) [
          | inl many ↦ absurd (true-differs (sym (reads.marked many) ∙ unlimited))
          | inr few ↦ few
        ] in
      (
        elim reads.complete [
          | inl limit ↦ absurd (true-differs (sym limit ∙ unlimited))
          | inr all_read ↦ all_read ∙ ap all_keys (take_all max_pods chosen (ground (arith, few)))
        ],
        none_failed done.entries good,
      )
