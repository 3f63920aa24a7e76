-- ===== src/Causal/Effects/Explained.antt =====
-- What a cause explains in `build_causal_analysis` of src/kdiag/causal.py.
use k8s_check.Prelude.{
  ℕ, String, true, ◌&&◌, ◌≡◌, refl, ◌⊎◌, false, none, map, inl, inr, Option, some, List, [], ◌∷◌,
  arith, ◌==◌, ==_iff, string_eq, option_eq, contains, any, All, if-elim, Bool-cases, Option-cases,
  get_or,
}
use k8s_check.Causal.Finding.{Finding}
use k8s_check.Causal.Reach.{Adjacency, reachable}
use k8s_check.Causal.Reach.Search.{Near, reachable_sound}
use k8s_check.Causal.Effects.{
  Targets, finding_targets, node_targets, reached_from, temporally_compatible, explains, effects_of,
}

contains-some : (xs : List String) (x : String) → contains (map some xs) (some x) ≡ contains xs x
contains-some [] x = refl
contains-some (y ∷ ys) x = ground (arith, contains-some ys x)

contains-none : (xs : List String) → contains (map some xs) none ≡ false
contains-none [] = refl
contains-none (y ∷ ys) = ground (arith, contains-none ys)

module _ (parse : String → Option ℕ) (targets : Targets) (adjacency : Adjacency)
    (cause : Finding) where
  -- A consequence whose times fit the cause, and one of whose targets is at most six edges away from a target of it, or
  -- both of which had a target that the full graph gave no node.
  pub record IsExplained (f : Finding) : Type 0 where
    role : f.finding_role ≡ some "consequence"
    times : temporally_compatible parse cause f ≡ true
    near :
        ((x : String) × (contains (finding_targets targets f) (some x) ≡ true)
          × Near adjacency (node_targets (finding_targets targets cause)) 6 x)
        ⊎ ((contains (finding_targets targets f) none ≡ true)
            × (contains (finding_targets targets cause) none ≡ true))

  any-found :
      (reached xs : List (Option String))
      → any (contains reached) xs ≡ true
      → (x : Option String) × (contains xs x ≡ true) × (contains reached x ≡ true)
  any-found reached [] h = cc
  any-found reached (x ∷ xs) h = elim (Bool-cases (contains reached x)) [
    | inl here ↦ (x, ground (arith, (==_iff x x).1 refl), here)
    | inr later ↦
        let r = any-found reached xs (ground (arith, h, later)) in (r.0, ground (arith, r.1), r.2)
  ]

  reachable-Near :
      (x : String)
      → contains
          (get_or (reachable adjacency (node_targets (finding_targets targets cause)) 6) [])
          x
        ≡ true
      → Near adjacency (node_targets (finding_targets targets cause)) 6 x
  reachable-Near x h =
      elim (Option-cases (reachable adjacency (node_targets (finding_targets targets cause)) 6)) [
        | inl stuck ↦ absurd (ground (arith, (rw stuck at h)))
        | inr (result, found) ↦
            reachable_sound adjacency (node_targets (finding_targets targets cause)) 6 result x
              found (rw found at h)
      ]

  reached_from-some :
      (x : String)
      → contains (reached_from adjacency (finding_targets targets cause)) (some x) ≡ true
      → Near adjacency (node_targets (finding_targets targets cause)) 6 x
  unfolding reached_from
  reached_from-some x h =
      let found =
        get_or (reachable adjacency (node_targets (finding_targets targets cause)) 6) [] in
      reachable-Near x (elim (Bool-cases (contains (finding_targets targets cause) none)) [
        | inl _ ↦ ground (arith, h, contains-some found x)
        | inr _ ↦ ground (arith, h, contains-some found x)
      ])

  reached_from-none :
      contains (reached_from adjacency (finding_targets targets cause)) none ≡ true
      → contains (finding_targets targets cause) none ≡ true
  unfolding reached_from
  reached_from-none h =
      let found =
        get_or (reachable adjacency (node_targets (finding_targets targets cause)) 6) [] in
      elim (Bool-cases (contains (finding_targets targets cause) none)) [
        | inl there ↦ there
        | inr absent ↦ absurd (ground (arith, (rw absent at h), contains-none found))
      ]

  link_of :
      (f : Finding) (x : Option String)
      → contains (finding_targets targets f) x ≡ true
      → contains (reached_from adjacency (finding_targets targets cause)) x ≡ true
      → ((y : String) × (contains (finding_targets targets f) (some y) ≡ true)
          × Near adjacency (node_targets (finding_targets targets cause)) 6 y)
        ⊎ ((contains (finding_targets targets f) none ≡ true)
            × (contains (finding_targets targets cause) none ≡ true))
  link_of f none here there = inr (here, reached_from-none there)
  link_of f (some x) here there = inl (x, here, reached_from-some x there)

  explained :
      (f : Finding)
      → (f.finding_role == some "consequence"
          && explains parse targets
              (reached_from adjacency (finding_targets targets cause))
              cause
              f)
        ≡ true
      → IsExplained f
  unfolding explains
  explained f h =
      let r =
        any-found (reached_from adjacency (finding_targets targets cause))
          (finding_targets targets f) (ground (arith, h)) in
      record {
        role = (==_iff f.finding_role (some "consequence")).0 (ground (arith, h));
        times = ground (arith, h);
        near = link_of f r.0 r.1 r.2;
      }

  -- Every finding that a cause may explain is a consequence, its times fit those of the cause, and one of its targets
  -- is at most six edges away from a target of the cause along some walk, or the full graph gave no node for a target
  -- of each of the two.
  pub effects_of-IsExplained :
      (findings : List Finding)
      → All IsExplained (effects_of parse targets adjacency cause findings)
  unfolding effects_of
  effects_of-IsExplained [] = tt
  effects_of-IsExplained (f ∷ findings) =
      if-elim (All IsExplained)
        (f.finding_role == some "consequence"
          && explains parse targets (reached_from adjacency (finding_targets targets cause)) cause
              f)
        (λ h. (explained f h, effects_of-IsExplained findings))
        (λ _. effects_of-IsExplained findings)
