-- ===== src/Report/Coverage.antt =====
-- `_coverage` of src/kdiag/report.py: one item for each source of a collection.
use k8s_check.Prelude.{
  ◌+◌, ℕ, String, ◌<>◌, Bool, true, false, not, Option, none, some, List, [], ◌∷◌, ◌++◌, ◌==◌,
  string_eq, option_eq, if◌then◌else◌, contains, or_else, or_text, get_or, length, str_leb,
  str_of_nat, sort_by,
}
use k8s_check.Dict.{Dict, lookup}

pub record CoverageItem : Type 0 where
  pub source : String
  pub status : Option String
  pub error : Option String
  pub required : Bool
  pub bytes : Option ℕ
  pub entry_count : Option ℕ

pub record NodeItem : Type 0 where
  pub host : String
  pub status : Option String
  pub error : Option String
  pub cleanup_error : Option String

-- A command of a node's snapshot. The last field is the number of bytes of its output in UTF-8.
pub record Command : Type 0 where
  pub id : Option String
  pub status : Option String
  pub error : Option String
  pub truncated : Bool
  pub stdout_bytes : ℕ

pub record LogEntry : Type 0 where
  pub status : Option String
  pub error : Option String
  pub truncated : Bool

pub record Logs : Type 0 where
  pub status : Option String
  pub error : Option String
  pub entries : List LogEntry

pub record Snapshot : Type 0 where
  pub commands : List Command
  pub pod_logs : Logs

-- A source of the Kubernetes or the Prometheus snapshot. `required` is `none` where the key is missing.
pub record SourceItem : Type 0 where
  pub status : Option String
  pub error : Option String
  pub required : Option Bool

pub record Section : Type 0 where
  pub status : Option String
  pub error : Option String

pub record Collection : Type 0 where
  pub nodes : List NodeItem
  pub kubernetes : Section
  pub prometheus : Section

abbrev pub plain_item : String → Option String → Option String → Bool → CoverageItem
plain_item source status error required = record {
  source = source;
  status = status;
  error = error;
  required = required;
  bytes = none;
  entry_count = none;
}

-- `"truncated" if item.get("truncated") else item.get("status") or "unknown"`
abbrev pub read_status : Bool → Option String → String
read_status truncated status = if truncated then "truncated" else or_text status "unknown"

abbrev pub required_commands : List String
required_commands = "journal_services_current" ∷ "journal_kernel_current" ∷ []

abbrev is_required_command : Option String → Bool
is_required_command none = false
is_required_command (some id) = contains required_commands id

unfoldable pub command_item : String → Command → CoverageItem
command_item host c =
    record (plain_item ("node/" <> (host <> ("/command/" <> or_text c.id "unknown")))
      (some (read_status c.truncated c.status)) c.error (is_required_command c.id)) {
        bytes = some c.stdout_bytes;
      }

unfoldable pub command_items : String → List Command → List CoverageItem
unfolding command_item
command_items host [] = []
command_items host (c ∷ commands) = command_item host c ∷ command_items host commands

-- The items of a node that has a snapshot.
unfoldable pub snapshot_items : String → Option Snapshot → List CoverageItem
unfolding command_items
snapshot_items host none = []
snapshot_items host (some s) =
    command_items host s.commands
    ++ record (plain_item ("node/" <> (host <> "/pod_logs"))
        (some (or_text s.pod_logs.status "missing")) s.pod_logs.error true) {
          entry_count = some (length s.pod_logs.entries);
        }
      ∷ []

unfoldable pub node_items : List NodeItem → Dict String Snapshot → List CoverageItem
unfolding snapshot_items
node_items [] snapshots = []
node_items (n ∷ nodes) snapshots =
    plain_item ("node/" <> n.host) n.status (or_else n.error n.cleanup_error) true
    ∷ (snapshot_items n.host (lookup n.host snapshots) ++ node_items nodes snapshots)

abbrev source_leb : String × SourceItem → String × SourceItem → Bool
source_leb a b = str_leb a.0 b.0

-- The items of sorted sources, with the prefix of their names and the default of `required`.
unfoldable pub source_items : String → Bool → Dict String SourceItem → List CoverageItem
source_items prefix default [] = []
source_items prefix default ((id, s) ∷ sources) =
    plain_item (prefix <> id) s.status s.error (get_or s.required default)
    ∷ source_items prefix default sources

unfoldable pub entry_items : ℕ → List LogEntry → List CoverageItem
unfolding str_of_nat
entry_items index [] = []
entry_items index (e ∷ entries) =
    plain_item ("kubernetes/logs/" <> str_of_nat index) (some (read_status e.truncated e.status))
      e.error true
    ∷ entry_items (index + 1) entries

-- The items of the Kubernetes logs, which may be missing.
unfoldable pub log_items : Option Logs → List CoverageItem
unfolding entry_items
log_items none = []
log_items (some logs) =
    record (plain_item "kubernetes/logs" logs.status logs.error true) {
      entry_count = some (length logs.entries);
    }
    ∷ entry_items 0 logs.entries

abbrev kubernetes_item : Section → CoverageItem
kubernetes_item s = plain_item "kubernetes" s.status s.error (not (s.status == some "disabled"))

-- The arguments are the collection, the snapshots of nodes, the sources and the logs of Kubernetes, and the sources of
-- Prometheus.
unfoldable pub coverage_of :
    Collection
    → Dict String Snapshot
    → Dict String SourceItem
    → Option Logs
    → Dict String SourceItem
    → List CoverageItem
unfolding node_items source_items log_items sort_by
coverage_of c snapshots kubernetes logs prometheus =
    node_items c.nodes snapshots
    ++ (kubernetes_item c.kubernetes
        ∷ source_items "kubernetes/" true (sort_by source_leb kubernetes))
    ++ log_items logs
    ++ plain_item "prometheus" c.prometheus.status c.prometheus.error false
      ∷ source_items "prometheus/" false (sort_by source_leb prometheus)
