-- ===== src/Config/Analysis/Resolved.antt =====
-- When `resolve_analysis_window` of src/kdiag/analysis.py gives a window, and which.
use k8s_check.Prelude.{
  ℕ, ◌+◌, ◌-◌, ◌*◌, ◌≤◌, ◌<◌, ◌≡◌, sym, ◌⊎◌, inl, inr, String, false, ◌&&◌, Option, ◌==◌, string_eq,
  if◌then◌else◌, truthy, get_or, true, refl, ◌∙◌, refuse-pass, and_then-pass, ap, ◌↔◌, arith,
  Result, error, ok, and_then, refuse, refuse-ok, and_then-ok, ok-injective, Bool-cases, eq_iff,
}
use k8s_check.Config.Analysis.{
  max_incident_seconds, second, Clock, Window, parse_incident_duration, incident_bounds,
  incident_window, checked_window, check_window, resolve_analysis_window,
}

error-differs : (m : String) (bounds : ℕ × ℕ) → error m ≡ ok bounds → ⊥
error-differs m bounds h = cc

module _ (c : Clock) (since start end : Option String) where
  -- The bounds that the arguments ask for: a duration before the current time, or a start and an end, which is the
  -- current time if it is not given.
  abbrev pub IsBounds : ℕ → ℕ → ℕ → Type 0
  IsBounds current from to =
      ((truthy since ≡ true)
        × (truthy start ≡ false)
        × (truthy end ≡ false)
        × (to ≡ current)
        × ((seconds : ℕ) × (parse_incident_duration c (get_or since "") ≡ ok seconds)
            × (from ≡ current - seconds * second)))
      ⊎ ((truthy since ≡ false)
          × (truthy start ≡ true)
          × (c.parse (get_or start "") ≡ ok from)
          × (((truthy end ≡ true) × (c.parse (get_or end "") ≡ ok to))
              ⊎ ((truthy end ≡ false) × (to ≡ current))))

  -- The window of an incident: the first bound is before the second, by at most 30 days, to the microsecond, and the
  -- texts of the bounds give the seconds in which they lie.
  abbrev pub IsIncident : String → Window → Type 0
  IsIncident now w =
      (current : ℕ) × (from : ℕ) × (to : ℕ) × (c.parse now ≡ ok current)
      × IsBounds current from to
      × (from < to)
      × (to ≤ from + max_incident_seconds * second)
      × (w ≡ incident_window c from to)

  abbrev pub IsResolved : String → String → Window → Type 0
  IsResolved purpose now w =
      ((purpose ≡ "check")
        × (truthy since ≡ false)
        × (truthy start ≡ false)
        × (truthy end ≡ false)
        × (w ≡ check_window))
      ⊎ ((purpose ≡ "incident") × IsIncident now w)

  end_of : ℕ → Result ℕ
  end_of current = if truthy end then c.parse (get_or end "") else ok current

  incident_bounds-IsBounds :
      (current from to : ℕ)
      → (truthy since && truthy start) ≡ false
      → (truthy since && truthy end) ≡ false
      → incident_bounds c since start end current ≡ ok (from, to)
      → IsBounds current from to
  unfolding incident_bounds
  incident_bounds-IsBounds current from to apart alone h = elim (Bool-cases (truthy since)) [
    | inl given ↦
        let (seconds, is, e) = and_then-ok _ _ (from, to) (rw given at h) in
        let both = ok-injective (current - seconds * second, current) (from, to) e in
        inl (
          given,
          ground (arith, given, apart),
          ground (arith, given, alone),
          sym (ap (λ b. b.1) both),
          (seconds, is, sym (ap (λ b. b.0) both)),
        )
    | inr not_given ↦ elim (Bool-cases (truthy start)) [
      | inl started ↦
          let (first, is, e) = and_then-ok _ _ (from, to) (rw (not_given, started) at h) in
          let (last, is', e') = and_then-ok _ _ (from, to) e in
          let both = ok-injective (first, last) (from, to) e' in
          inr (
            not_given,
            started,
            is ∙ ap ok (ap (λ b. b.0) both),
            elim (Bool-cases (truthy end)) [
              | inl ended ↦ inl (ended, (rw ended at is') ∙ ap ok (ap (λ b. b.1) both))
              | inr unended ↦ inr (
                unended,
                sym (ap (λ b. b.1) both) ∙ sym (ok-injective current last (rw unended at is')),
              )
            ],
          )
      | inr nothing ↦ absurd (error-differs _ _ (rw (not_given, nothing) at h))
    ]
  ]

  -- The bounds that are asked for are those that the code takes.
  IsBounds-incident_bounds :
      (current from to : ℕ)
      → IsBounds current from to
      → incident_bounds c since start end current ≡ ok (from, to)
  unfolding incident_bounds and_then
  IsBounds-incident_bounds current from to (inl (given, a, b, t, (seconds, is, f))) =
      rw (given, t, f)
        (and_then-pass (parse_incident_duration c (get_or since "")) _ seconds _ is refl)
  IsBounds-incident_bounds current from to (inr (not_given, started, is, inl (ended, is'))) =
      rw (not_given, started, ended)
        (and_then-pass (c.parse (get_or start "")) _ from _ is
          (and_then-pass (c.parse (get_or end "")) _ to _ is' refl))
  IsBounds-incident_bounds current from to (inr (not_given, started, is, inr (unended, t))) =
      rw (not_given, started, unended, t)
        (and_then-pass (c.parse (get_or start "")) _ from _ is refl)

  -- At most one of the duration and the two bounds is there.
  IsBounds-apart :
      (current from to : ℕ)
      → IsBounds current from to
      → ((truthy since && truthy start) ≡ false) × ((truthy since && truthy end) ≡ false)
  IsBounds-apart current from to (inl (given, a, b, _, _)) = (ground (arith, a), ground (arith, b))
  IsBounds-apart current from to (inr (not_given, _, _, _)) =
      (ground (arith, not_given), ground (arith, not_given))

  resolved-IsIncident :
      (now : String) (w : Window)
      → refuse
          (truthy since && truthy start)
          "incident-since and incident-start are mutually exclusive"
          (refuse
            (truthy since && truthy end)
            "incident-end cannot be combined with incident-since"
            (and_then
              (c.parse now)
              (λ current. and_then (incident_bounds c since start end current) (checked_window c))))
        ≡ ok w
      → IsIncident now w
  unfolding checked_window
  resolved-IsIncident now w h =
      let r1 = refuse-ok _ _ _ w h in
      let r2 = refuse-ok _ _ _ w r1.1 in
      let (current, is, h3) = and_then-ok _ _ w r2.1 in
      let ((from, to), bounds, h4) = and_then-ok _ _ w h3 in
      let r5 = refuse-ok _ _ _ w h4 in
      let r6 = refuse-ok _ _ _ w r5.1 in
      (
        current,
        from,
        to,
        is,
        incident_bounds-IsBounds current from to r1.0 r2.0 bounds,
        ground (arith, r5.0),
        ground (arith, r5.0, r6.0),
        sym (ok-injective _ w r6.1),
      )

  incident_resolved :
      (now : String) (w : Window)
      → IsIncident now w
      → refuse
          (truthy since && truthy start)
          "incident-since and incident-start are mutually exclusive"
          (refuse
            (truthy since && truthy end)
            "incident-end cannot be combined with incident-since"
            (and_then
              (c.parse now)
              (λ current. and_then (incident_bounds c since start end current) (checked_window c))))
        ≡ ok w
  unfolding checked_window
  incident_resolved now w (current, from, to, is, bounds, before, near, e) =
      let (apart, alone) = IsBounds-apart current from to bounds in
      refuse-pass _ _ _ _ apart (
        refuse-pass _ _ _ _ alone (
          and_then-pass (c.parse now) _ current _ is (
            and_then-pass (incident_bounds c since start end current) (checked_window c) (from, to)
              _ (IsBounds-incident_bounds current from to bounds)
              (refuse-pass _ _ _ _ (ground (arith, before))
                (refuse-pass _ _ _ _ (ground (arith, before, near)) (ap ok (sym e)))))))

  -- A window is resolved exactly if it is that of a check, for which no bound was given, or that of an incident, with a
  -- duration before the current time or with a start and an end, the current time without one. The first bound
  -- is then before the second, by at most 30 days, to the microsecond, and the window has the texts of the seconds in
  -- which they lie.
  pub resolve_analysis_window_iff :
      (purpose now : String) (w : Window)
      → (resolve_analysis_window c purpose since start end now ≡ ok w) ↔ IsResolved purpose now w
  unfolding resolve_analysis_window
  resolve_analysis_window_iff purpose now w = (
    λ h.
        let r0 = refuse-ok _ _ _ w h in
        elim (Bool-cases (purpose == "check")) [
          | inl check ↦
              let r1 = refuse-ok _ _ _ w (rw check at r0.1) in
              inl (
                ground (arith, check, eq_iff purpose "check"),
                ground (arith, r1.0),
                ground (arith, r1.0),
                ground (arith, r1.0),
                sym (ok-injective _ w r1.1),
              )
          | inr incident ↦ inr (
            ground (arith, r0.0, incident, eq_iff purpose "incident"),
            resolved-IsIncident now w (rw incident at r0.1),
          )
        ],
    λ r. elim r [
      | inl (check, a, b, d, e) ↦
          rw (check, a, b, d, e) (refuse-pass _ _ _ _ refl (refuse-pass _ _ _ _ refl refl))
      | inr (incident, i) ↦ rw incident (refuse-pass _ _ _ _ refl (incident_resolved now w i))
    ],
  )
