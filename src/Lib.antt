-- ===== src/Lib.antt =====
-- Verification of kdiag (src/kdiag), a collector and deterministic analyser of Kubernetes diagnostics.
--
-- The program collects snapshots of nodes and of the Kubernetes API, normalizes their logs and events, applies
-- rules that give findings, orders the findings by cause, and compares the state with an approved baseline.
-- The modules follow these parts:
--
-- * Prelude, Dict and Json are shared. Prelude has the Boolean tests, Python's equality as the class Eq, lists,
--   stable sorting, text and the result of code that may raise. Dict is a Python dict in insertion order, and
--   Json the values that the JSON parser gives, without floating-point numbers.
-- * Normalize models src/kdiag/normalize.py. Event is the normalized event; Classify the functions
--   classify_message and _severity; Fingerprint the table of message templates that _append keeps, with at
--   most MAX_UNKNOWN_FINGERPRINTS entries; Append the acceptance of one event and of a sequence of them,
--   with the shared table or, for the states of services, nodes and pods, with a new one;
--   Deduplicate the removal of repeated events; Correlate the function correlate_events, with its
--   sliding window; Limit the function _fair_limit_events.
-- * Causal models src/kdiag/causal.py. Finding is the annotation of findings; Graph the class _GraphBuilder;
--   Topology the function _add_kubernetes_topology, as one step for each item of a source; Reach the search
--   _reachable; Effects the consequences that a cause may explain; Rank the ranking of hypotheses.
-- * Baseline models src/kdiag/baseline.py. Profile has the documents; Stable the function _stable_value; Findings
--   the functions _aggregate_findings and _material_gaps; Compare the function compare_profiles and
--   Paths its list of changed fields; Approve the checks of profiles and candidates, the approval, and
--   verify_approved_baseline.
-- * Config models src/kdiag/config.py and src/kdiag/analysis.py. Analysis is the window of an incident, in
--   microseconds, with Again for a window that is resolved twice; Defaults the
--   default configuration; Merge the function _merge_known; Validate the function validate_config.
-- * Report models src/kdiag/report.py and src/kdiag/rule_catalog.py. Catalog is the catalogue of rules; Coverage the
--   function _coverage; Requirements the table RULE_COVERAGE_REQUIREMENTS; Ledger the function _rule_ledger, which
--   says of each rule whether it matched, and Evidence joins it with the catalogue and the table.
-- * Llm models src/kdiag/llm_export.py. Trim is the function _trim_package, where the size
--   of a package is a parameter; Response the function _validate_response_document.
-- * Bundle models src/kdiag/bundle.py. Files is the directory, build_manifest and write_manifest, with
--   the order of the keys of atomic_write_json (src/kdiag/util.py); Verify the function verify_manifest.
-- * Identity models src/kdiag/node_identity.py, the matching of hosts and nodes.
-- * Runner models the reading of streams in src/kdiag/runner.py. Kubernetes models, of src/kdiag/kubernetes.py, the
--   function _collect_logs (Pods, Logs), which takes the run of a command as a parameter, _json_source, _text_source,
--   _first_json_source and snapshot_status (Sources), _prometheus_range_step and _project_prometheus_range (Range).
-- * Tests runs the definitions on concrete inputs.
--
-- State is passed explicitly: an operation takes the old state and returns the new one. Loops are structural
-- recursion along the list they read; the loop of _reachable along its queue takes fuel, the
-- number of its starts and of all targets, with a proof that it is enough, and the one of _trim_package the length
-- of its list, which is enough since each round takes an item. A
-- record holds an object whose keys are fixed, an Option a key that may be missing or None. A raised
-- ValueError is the case error of Result, with its message; a part of it that repr prints is left out.
--
-- Parameters stand for what is not under src/: regular expressions, the parsing of times, SHA-256 and the
-- canonical JSON text, the contents of files, the output of commands, str.strip and str.lower. Times are natural
-- numbers. Reading and writing of files,
-- processes, SSH, HTTP and the printing of Markdown are not modelled.
pub mod Prelude
pub mod Dict
pub mod Json
pub mod Baseline
pub mod Llm
pub mod Bundle
pub mod Identity
pub mod Runner
pub mod Kubernetes
pub mod Normalize
pub mod Report
pub mod Causal
pub mod Config
mod Tests
