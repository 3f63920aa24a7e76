-- ===== src/Normalize/Event.antt =====
-- The normalized event of src/kdiag/normalize.py, its severity, and the searches by regular
-- expressions and timestamps that the module delegates to `re` and `datetime`.
use k8s_check.Prelude.{ℕ, String, Bool, Option, List, string_eq}

-- An event as `_event` builds it. Epochs are microseconds.
pub record Event : Type 0 where
  pub event_id : String
  pub timestamp : Option String
  pub timestamp_epoch : Option ℕ
  pub timestamp_inferred : Bool
  pub first_timestamp : Option String
  pub last_timestamp : Option String
  pub occurrence_count : ℕ
  pub source : String
  pub node : Option String
  pub namespace : Option String
  pub pod : Option String
  pub container : Option String
  pub component : Option String
  pub reason : Option String
  pub severity : String
  pub categories : List String
  pub message_excerpt : String
  pub fingerprint : String
  pub evidence : String
  pub duplicate_evidence : List String

-- What the module asks of `re` and `datetime`: the searches of its compiled patterns, the masking
-- substitutions of `_template`, and the parsing of `_epoch`.
pub record Patterns : Type 0 where
  pub insight : Option String → String → Bool
  pub dns_component : String → Bool
  pub dns_smoke_query : String → Bool
  pub template : String → String
  pub pod_reference : String → Option String
  pub epoch : Option String → Option ℕ

-- `CATEGORY_SEVERITY` and the `order` of `_severity`: "info" 0, "warning" 1, "critical" 2.
pub data Severity : Type 0 where
  info warning critical : Severity

abbrev pub order : Severity → ℕ
order info = 0
order warning = 1
order critical = 2
