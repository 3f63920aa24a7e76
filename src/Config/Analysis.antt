-- ===== src/Config/Analysis.antt =====
-- `resolve_analysis_window` of src/kdiag/analysis.py. Times are microseconds.
pub mod Resolved
pub mod Again
use k8s_check.Prelude.{
  ap, ℕ, ◌+◌, ◌-◌, ◌*◌, ◌/◌, ◌≤◌, ◌<◌, ◌≡◌, sym, ◌⊎◌, inl, inr, String, false, ◌&&◌, ◌||◌, not,
  Option, none, some, ◌==◌, string_eq, ltb, leb, if◌then◌else◌, truthy, get_or, arith, Result,
  error, ok, and_then, refuse, refuse-ok, and_then-ok, ok-injective, Bool-cases, eq_iff,
}

-- 30 days.
abbrev pub max_incident_seconds : ℕ
max_incident_seconds = 2592000

abbrev pub second : ℕ
second = 1000000

-- `parse_utc_timestamp` over `datetime`, which gives microseconds since an early epoch, before which no duration
-- reaches, the text of a whole second, and the groups of `DURATION_RE`: the number and the unit.
pub record Clock : Type 0 where
  pub parse : String → Result ℕ
  pub format : ℕ → String
  pub duration : String → Option (ℕ × String)

pub record Window : Type 0 where
  pub purpose : String
  pub incident_start : Option String
  pub incident_end : Option String

-- `format_utc_timestamp`, which drops the microseconds.
abbrev pub format_utc_timestamp : Clock → ℕ → String
format_utc_timestamp c time = c.format (time / second)

-- `{"m": 60, "h": 3600, "d": 86400}`
abbrev multiplier : String → ℕ
multiplier unit = if unit == "m" then 60 else if unit == "h" then 3600 else 86400

abbrev duration_seconds : Option (ℕ × String) → Result ℕ
duration_seconds none = error "incident-since must use <n>m, <n>h or <n>d"
duration_seconds (some (amount, unit)) =
    refuse (ltb max_incident_seconds (amount * multiplier unit))
      "incident window must not exceed 30 days" (ok (amount * multiplier unit))

-- `parse_incident_duration`
abbrev pub parse_incident_duration : Clock → String → Result ℕ
parse_incident_duration c value = duration_seconds (c.duration value)

-- The start and the end of the incident.
unfoldable pub incident_bounds :
    Clock → Option String → Option String → Option String → ℕ → Result (ℕ × ℕ)
incident_bounds c since start end current =
    if truthy since
    then and_then (parse_incident_duration c (get_or since ""))
        (λ seconds. ok (current - seconds * second, current))
    else if truthy start
    then and_then (c.parse (get_or start "")) (λ from.
      and_then (if truthy end then c.parse (get_or end "") else ok current) (λ to. ok (from, to)))
    else error "purpose=incident requires an explicit incident window"

abbrev pub incident_window : Clock → ℕ → ℕ → Window
incident_window c from to = record {
  purpose = "incident";
  incident_start = some (format_utc_timestamp c from);
  incident_end = some (format_utc_timestamp c to);
}

unfoldable pub checked_window : Clock → ℕ × ℕ → Result Window
checked_window c (from, to) =
    refuse (leb to from) "incident-start must be earlier than incident-end" (
      refuse (ltb (max_incident_seconds * second) (to - from))
        "incident window must not exceed 30 days" (ok (incident_window c from to)))

abbrev pub check_window : Window
check_window = record { purpose = "check"; incident_start = none; incident_end = none }

-- The argument `now` is the text of the current time.
unfoldable pub resolve_analysis_window :
    Clock → String → Option String → Option String → Option String → String → Result Window
unfolding incident_bounds checked_window
resolve_analysis_window c purpose since start end now =
    refuse (not (purpose == "check" || purpose == "incident"))
      "analysis purpose must be check or incident"
      (if purpose == "check"
        then refuse (truthy since || (truthy start || truthy end))
            "incident window is only valid with purpose=incident" (ok check_window)
        else refuse (truthy since && truthy start)
            "incident-since and incident-start are mutually exclusive"
            (refuse (truthy since && truthy end)
              "incident-end cannot be combined with incident-since"
              (and_then (c.parse now) (λ current.
                and_then (incident_bounds c since start end current) (checked_window c)))))
