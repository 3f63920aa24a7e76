-- ===== src/Config/Analysis/Again.antt =====
-- A window that `resolve_analysis_window` of src/kdiag/analysis.py gave, resolved again, as `validate_config` of
-- src/kdiag/config.py does with the window that the command line set.
use k8s_check.Prelude.{
  ℕ, ◌+◌, ◌*◌, ◌/◌, ◌≤◌, ◌<◌, ◌≡◌, sym, inl, inr, String, false, Option, none, some, ◌==◌,
  string_eq, true, refl, ==_iff, ◌∙◌, ap, ◌↔◌, arith, ok, ok-injective,
}
use mathlib.Core.Path.{subst}
use k8s_check.Config.Analysis.{
  max_incident_seconds, second, Clock, Window, incident_window, resolve_analysis_window,
}
use k8s_check.Config.Analysis.Resolved.{resolve_analysis_window_iff}

whole_seconds : (n : ℕ) → (n * second) / second ≡ n
whole_seconds n = omega arith

seconds_differ :
    (from to : ℕ) → from < to → ¬ (from / second ≡ to / second) → from / second < to / second
seconds_differ from to h differs = omega (arith, h, differs)

seconds_within :
    (from to : ℕ)
    → to ≤ from + max_incident_seconds * second
    → (to / second) * second ≤ (from / second) * second + max_incident_seconds * second
seconds_within from to h = omega (arith, h)

same_seconds : (a b : ℕ) → a * second ≡ b * second → a ≡ b
same_seconds a b h = omega (arith, h)

some-equal : (a b : String) → some a ≡ some b → a ≡ b
some-equal a b h = cc

false-differs : false ≡ true → ⊥
false-differs h = cc

purposes-differ : ◌≡◌ {A = String} "incident" "check" → ⊥
purposes-differ h = false-differs ((==_iff "incident" "check").1 h)

module _ (c : Clock) (read : (n : ℕ) → c.parse (c.format n) ≡ ok (n * second))
    (printed : (n : ℕ) → (c.format n == "") ≡ false) where
  -- The window with the texts of these seconds.
  abbrev window_of : ℕ → ℕ → Window
  window_of a b = record {
    purpose = "incident";
    incident_start = some (c.format a);
    incident_end = some (c.format b);
  }

  incident_window_whole : (a b : ℕ) → incident_window c (a * second) (b * second) ≡ window_of a b
  incident_window_whole a b =
      ap (λ x. window_of x ((b * second) / second)) (whole_seconds a)
      ∙ ap (λ y. window_of a y) (whole_seconds b)

  resolved_again :
      (now : String) (current from to : ℕ)
      → c.parse now ≡ ok current
      → from < to
      → to ≤ from + max_incident_seconds * second
      → ¬ (from / second ≡ to / second)
      → resolve_analysis_window c "incident" none
          (some (c.format (from / second)))
          (some (c.format (to / second)))
          now
        ≡ ok (incident_window c from to)
  resolved_again now current from to is before near differs =
      let a = from / second in
      let b = to / second in
      (resolve_analysis_window_iff c none (some (c.format a)) (some (c.format b)) "incident" now
          (incident_window c from to)).1
        (inr (
          refl,
          (
            current,
            a * second,
            b * second,
            is,
            inr (refl, ground (arith, printed a), read a, inl (ground (arith, printed b), read b)),
            omega (arith, seconds_differ from to before differs),
            seconds_within from to near,
            sym (incident_window_whole a b),
          ),
        ))

  not_resolved_again :
      (now : String) (w : Window) (from to : ℕ)
      → resolve_analysis_window c "incident" none
          (some (c.format (from / second)))
          (some (c.format (to / second)))
          now
        ≡ ok w
      → c.format (from / second) ≡ c.format (to / second)
      → ⊥
  not_resolved_again now w from to h equal =
      let a = from / second in
      let b = to / second in
      elim ((resolve_analysis_window_iff c none (some (c.format a)) (some (c.format b)) "incident"
          now w).0
        h) [
          | inl (purpose, _, _, _, _) ↦ absurd (purposes-differ purpose)
          | inr (_, (current, first, last, _, bounds, before, _, _)) ↦ elim bounds [
            | inl (given, _, _, _, _) ↦ absurd (false-differs given)
            | inr (_, _, is, rest) ↦ elim rest [
              | inl (_, is') ↦ absurd (
                  ground (arith, before, ok-injective first last (sym is ∙ ap c.parse equal ∙ is')))
              | inr (unended, _) ↦ absurd (ground (arith, unended, printed b))
            ]
          ]
        ]

  -- The window of an incident that was resolved is left as it is when it is resolved again at a time that can be read,
  -- exactly if the texts of its bounds differ: a window within one second is refused. The text of a second is not
  -- empty and is read back as this second.
  pub resolve_analysis_window-again :
      (since start end : Option String) (now later : String) (current : ℕ) (w : Window)
      → resolve_analysis_window c "incident" since start end now ≡ ok w
      → c.parse later ≡ ok current
      → (resolve_analysis_window c "incident" none w.incident_start w.incident_end later ≡ ok w)
        ↔ ¬ (w.incident_start ≡ w.incident_end)
  resolve_analysis_window-again since start end now later current w h is =
      elim ((resolve_analysis_window_iff c since start end "incident" now w).0 h) [
        | inl (purpose, _, _, _, _) ↦ absurd (purposes-differ purpose)
        | inr (_, (before_now, from, to, _, _, before, near, e)) ↦
            subst
              (λ (v : Window).
                (resolve_analysis_window c "incident" none v.incident_start v.incident_end later
                  ≡ ok v)
                ↔ ¬ (v.incident_start ≡ v.incident_end))
              (sym e)
              (
                λ again equal.
                    not_resolved_again later (incident_window c from to) from to again
                      (some-equal _ _ equal),
                λ differs.
                    resolved_again later current from to is before near
                      (λ equal. differs (ap (λ n. some (c.format n)) equal)),
              )
      ]
