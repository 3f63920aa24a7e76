-- ===== src/Causal/Finding/Lifecycle.antt =====
-- The lifecycle states of `annotate_findings`.
use k8s_check.Causal.Finding.{
  activity, Finding, Collection, safe_time, is_current_evidence, finding_activity_status,
}
use k8s_check.Prelude.{
  ℕ, ◌+◌, ◌≤◌, ◌<◌, ◌≡◌, ◌↔◌, ◌≢◌, String, Bool, true, false, Option, none, some, arith, ◌==◌,
  string_eq, eq_iff, any, or_text,
}

active_ne_resolved : ◌≢◌ {A = String} "active" "resolved"
active_ne_resolved = ground (arith, eq_iff "active" "resolved")

unknown_ne_resolved : ◌≢◌ {A = String} "unknown" "resolved"
unknown_ne_resolved = ground (arith, eq_iff "unknown" "resolved")

-- What makes a finding resolved: its end lies before the incident, or well before the end of the collection.
abbrev pub IsOver : Bool → Option ℕ → Option ℕ → Option ℕ → Type 0
IsOver true (some ended) (some start) collected = ended < start
IsOver false (some ended) start (some collected) = ended + 900 ≤ collected
IsOver _ _ _ _ = ⊥

activity_resolved_iff :
    (current incident : Bool) (ended start end collected : Option ℕ)
    → (activity current incident ended start end collected ≡ "resolved")
      ↔ ((current ≡ false) × IsOver incident ended start collected)
unfolding activity
activity_resolved_iff true incident ended start end collected =
    (λ h. absurd (active_ne_resolved h), λ h. absurd (cc (h.0)))
activity_resolved_iff false true none start end collected = ground (arith, unknown_ne_resolved)
activity_resolved_iff false true (some e) none end collected = ground (arith, unknown_ne_resolved)
activity_resolved_iff false true (some e) (some s) end collected =
    ground (arith, unknown_ne_resolved)
activity_resolved_iff false false none start end collected = ground (arith, unknown_ne_resolved)
activity_resolved_iff false false (some e) start end none = ground (arith, unknown_ne_resolved)
activity_resolved_iff false false (some e) start end (some c) = ground (arith, unknown_ne_resolved)

module _ (parse : String → Option ℕ) (finding : Finding) (collection : Collection) where
  -- A finding is resolved exactly when no evidence of it describes the current state and it is over: in an
  -- incident its end lies before the incident's start, otherwise at least fifteen minutes before the end
  -- of the collection, all these times being known.
  pub resolved_iff : (finding_activity_status parse finding collection ≡ "resolved") ↔ (
      (any is_current_evidence finding.evidence ≡ false)
      × IsOver
          (or_text collection.purpose "check" == "incident")
          (safe_time parse finding.ended_at)
          (safe_time parse collection.incident_start)
          (safe_time parse collection.ended_at))
  unfolding finding_activity_status
  resolved_iff = activity_resolved_iff _ _ _ _ _ _
