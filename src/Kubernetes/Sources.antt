-- ===== src/Kubernetes/Sources.antt =====
-- The sources of src/kdiag/kubernetes.py: `_json_source`, `_text_source`, `_first_json_source` and `snapshot_status`. The
-- run of a command, the decoding of its output, the parser of JSON and the projections are parameters.
use k8s_check.Prelude.{
  ℕ, String, ◌<>◌, Bool, true, false, ◌&&◌, ◌||◌, not, Option, none, some, List, [], ◌∷◌, ◌++◌,
  ◌==◌, string_eq, if◌then◌else◌, all, any, is_empty, filter, map, truthy, min, Result, error, ok,
}
use Prim.Native.String.{slice}
use k8s_check.Runner.{ProcessResult, is_exit_zero, is_unavailable}

-- "collected", "failed", "timeout", "truncated", "unsupported" and "malformed".
pub data SourceStatus : Type 0 where
  collected failed timeout truncated unsupported malformed : SourceStatus

abbrev pub is_collected_source : SourceStatus → Bool
is_collected_source collected = true
is_collected_source s = false

pub record Attempt : Type 0 where
  pub namespace : String
  pub name : String
  pub status : SourceStatus
  pub error : Option String

-- A source, with its data once they were read. The numbers of the command are left out.
pub record Source (D : Type 0) : Type 0 where
  pub id : String
  pub status : SourceStatus
  pub truncated : Bool
  pub timed_out : Bool
  pub error : Option String
  pub required : Bool
  pub content : Option D
  pub discovered_at : Option String
  pub attempts : List Attempt

abbrev is_success : ProcessResult → Bool
is_success r = is_exit_zero r.returncode && (not r.truncated && not r.timed_out)

-- The status of a command, before its output is read.
unfoldable pub command_status : ProcessResult → SourceStatus
command_status r =
    if is_success r
    then collected
    else if r.timed_out
    then timeout
    else if r.truncated
    then truncated
    else if is_unavailable r.returncode
    then unsupported
    else failed

abbrev some_text : String → Option String
some_text s = if s == "" then none else some s

abbrev configmap_arguments : String → String → List String
configmap_arguments namespace name =
    "get" ∷ "configmap" ∷ name ∷ "--namespace" ∷ namespace ∷ "-o" ∷ "json" ∷ []

module _ (run : List String → ℕ → ProcessResult) (decode : List ℕ → String) (base : List String)
    (max_wire_bytes : ℕ) where
  -- `result.error or result.stderr.decode(...)[:4096] or None`
  abbrev error_text : ProcessResult → Option String
  error_text r = if truthy r.error then r.error else some_text (slice (decode r.stderr) 0 4096)

  module _ {J D : Type 0} (parse : List ℕ → Result J) where
    abbrev source_of :
        String → Bool → ProcessResult → SourceStatus → Option String → Option D → Source D
    source_of id required r status message content = record {
      id = id;
      status = status;
      truncated = r.truncated;
      timed_out = r.timed_out;
      error = message;
      required = required;
      content = content;
      discovered_at = none;
      attempts = [];
    }

    abbrev projected_source : String → Bool → ProcessResult → Result D → Source D
    projected_source id required r (ok d) =
        source_of id required r collected (error_text r) (some d)
    projected_source id required r (error m) = source_of id required r malformed (some m) none

    abbrev read_payload : (J → Result D) → Result J → Result D
    read_payload projector (ok j) = projector j
    read_payload projector (error m) = error m

    unfoldable pub json_source : String → List String → (J → Result D) → Bool → Source D
    unfolding command_status
    json_source id arguments projector required =
        let r = run (base ++ arguments) max_wire_bytes in
        if is_success r
        then projected_source id required r (read_payload projector (parse r.stdout))
        else source_of id required r (command_status r) (error_text r) none

    unfoldable pub text_source : String → List String → (String → D) → Bool → Source D
    unfolding command_status
    text_source id arguments projector required =
        let r = run (base ++ arguments) (min max_wire_bytes 1048576) in
        source_of id required r (command_status r) (error_text r)
          (some (projector (decode r.stdout <> ("\n" <> decode r.stderr))))

    abbrev attempt_of : String → String → Source D → Attempt
    attempt_of namespace name s = record {
      namespace = namespace;
      name = name;
      status = s.status;
      error = s.error;
    }

    abbrev unsupported_source : String → Bool → Source D
    unsupported_source id required = record {
      id = id;
      status = unsupported;
      truncated = false;
      timed_out = false;
      error = none;
      required = required;
      content = none;
      discovered_at = none;
      attempts = [];
    }

    abbrev last_or : Source D → Option (Source D) → Source D
    last_or s none = s
    last_or s (some t) = t

    -- The loop over the candidates, with the attempts so far and the last source.
    unfoldable pub first_loop :
        String
        → (J → Result D)
        → Bool
        → List (String × String)
        → List Attempt
        → Option (Source D)
        → Source D
    unfolding json_source
    first_loop id projector required [] attempts last =
        record (last_or (unsupported_source id required) last) { attempts = attempts }
    first_loop id projector required ((namespace, name) ∷ candidates) attempts last =
        let s = json_source id (configmap_arguments namespace name) projector required in
        let all_attempts = attempts ++ attempt_of namespace name s ∷ [] in
        let rest = first_loop id projector required candidates all_attempts (some s) in
        if is_collected_source s.status
        then record s { discovered_at = some (namespace <> ("/" <> name)); attempts = all_attempts }
        else rest

    unfoldable pub first_json_source :
        String → List (String × String) → (J → Result D) → Bool → Source D
    unfolding first_loop
    first_json_source id candidates projector required =
        first_loop id projector required candidates [] none

-- "collected", "partial" and "unreachable".
pub data SnapshotStatus : Type 0 where
  complete_snapshot partial_snapshot unreachable : SnapshotStatus

-- The statuses of the sources with their marks, whether logs are required and whether they were collected.
unfoldable pub snapshot_status : List (SourceStatus × Bool) → Bool → Bool → SnapshotStatus
snapshot_status sources logs_required logs_collected =
    let statuses = map (λ s. s.0) (filter (λ s. s.1) sources) in
    if (not (is_empty statuses) && all is_collected_source statuses)
      && (not logs_required || logs_collected)
    then complete_snapshot
    else if any is_collected_source statuses
    then partial_snapshot
    else unreachable
