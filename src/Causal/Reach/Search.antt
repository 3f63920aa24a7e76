-- ===== src/Causal/Reach/Search.antt =====
-- The search `_reachable` of src/kdiag/causal.py ends, and finds only what can be reached.
use k8s_check.Prelude.{
  ℕ, zero, suc, ◌+◌, ◌≤◌, ◌≡◌, refl, sym, ap, inl, inr, String, true, false, Option, some, List, [],
  ◌∷◌, ◌++◌, arith, ◌==◌, ==_iff, string_eq, contains, contains-append, leb, if◌then◌else◌, length,
  length-append, All, All-append, if-elim, Bool-cases, get_or, is_some,
}
use k8s_check.Dict.{lookup}
use k8s_check.Causal.Reach.{
  Adjacency, Queue, visit, search_from, all_targets, start_queue, reachable,
}

-- The number of the elements of a list that have not been found.
unseen : List String → List String → ℕ
unseen [] found = 0
unseen (t ∷ ts) found = (if contains found t then 0 else 1) + unseen ts found

unseen-grows : (us found : List String) (t : String) → unseen us (found ++ t ∷ []) ≤ unseen us found
unfolding unseen
unseen-grows [] found t = omega arith
unseen-grows (u ∷ us) found t =
    ground (arith, unseen-grows us found t, contains-append found (t ∷ []) u)

-- A new element of the list that is found is no longer unseen.
unseen-found :
    (us found : List String) (t : String)
    → contains us t ≡ true
    → contains found t ≡ false
    → unseen us (found ++ t ∷ []) + 1 ≤ unseen us found
unfolding unseen
unseen-found [] found t h new = cc
unseen-found (u ∷ us) found t h new = elim (Bool-cases (t == u)) [
  | inl same ↦ ground (
    arith,
    unseen-grows us found t,
    contains-append found (t ∷ []) u,
    (==_iff t u).0 same,
    (==_iff u t).1,
    new,
  )
  | inr other ↦ ground (
    arith,
    unseen-found us found t (ground (arith, h, other)) new,
    contains-append found (t ∷ []) u,
  )
]

unseen-length : (us found : List String) → unseen us found ≤ length us
unfolding unseen
unseen-length [] found = omega arith
unseen-length (u ∷ us) found = ground (arith, unseen-length us found)

-- The queue grows by no more than what was unseen before.
visit-unseen :
    (us targets : List String) (depth : ℕ) (found : List String)
    → All (λ t. contains us t ≡ true) targets
    → length (visit targets depth found).1 + unseen us (visit targets depth found).0
      ≤ unseen us found
unfolding visit
visit-unseen us [] depth found h = omega arith
visit-unseen us (t ∷ ts) depth found (m, h) = elim (Bool-cases (contains found t)) [
  | inl old ↦ rw old (visit-unseen us ts depth found h)
  | inr new ↦
      rw new
        (omega (arith, visit-unseen us ts depth (found ++ t ∷ []) h, unseen-found us found t m new))
]

-- Every element of the second list is one of the first.
abbrev Within : List String → List String → Type 0
Within us ts = All (λ t. contains us t ≡ true) ts

Within-left : (us vs ts : List String) → Within us ts → Within (us ++ vs) ts
Within-left us vs [] h = tt
Within-left us vs (t ∷ ts) (m, h) =
    (ground (arith, contains-append us vs t, m), Within-left us vs ts h)

Within-right : (us vs ts : List String) → Within vs ts → Within (us ++ vs) ts
Within-right us vs [] h = tt
Within-right us vs (t ∷ ts) (m, h) =
    (ground (arith, contains-append us vs t, m), Within-right us vs ts h)

Within-cons : (u : String) (us ts : List String) → Within us ts → Within (u ∷ us) ts
Within-cons u us [] h = tt
Within-cons u us (t ∷ ts) (m, h) = (ground (arith, m), Within-cons u us ts h)

Within-self : (ts : List String) → Within ts ts
Within-self [] = tt
Within-self (t ∷ ts) = (ground (arith, (==_iff t t).1 refl), Within-cons t ts ts (Within-self ts))

targets-Within :
    (adjacency : Adjacency) (k : String)
    → Within (all_targets adjacency) (get_or (lookup k adjacency) [])
unfolding all_targets
targets-Within [] k = tt
targets-Within ((j, ts) ∷ adjacency) k =
    if-elim (λ (o : Option (List String)). Within (ts ++ all_targets adjacency) (get_or o []))
      (k == j) (λ _. Within-left ts (all_targets adjacency) ts (Within-self ts))
      (λ _. Within-right ts (all_targets adjacency) _ (targets-Within adjacency k))

-- Fuel for the queue and for what is unseen is enough.
search_from-ends :
    (fuel : ℕ) (adjacency : Adjacency) (maximum_depth : ℕ) (found : List String) (queue : Queue)
    → length queue + unseen (all_targets adjacency) found ≤ fuel
    → is_some (search_from fuel adjacency maximum_depth found queue) ≡ true
unfolding search_from
search_from-ends fuel adjacency maximum_depth found [] h = refl
search_from-ends zero adjacency maximum_depth found (e ∷ queue) h = absurd (omega (arith, h))
search_from-ends (suc fuel) adjacency maximum_depth found ((current, depth) ∷ queue) h =
    let v = visit (get_or (lookup current adjacency) []) (depth + 1) found in
    let n =
      visit-unseen (all_targets adjacency) (get_or (lookup current adjacency) []) (depth + 1) found
        (targets-Within adjacency current) in
    if-elim (λ (o : Option (List String)). is_some o ≡ true) (leb maximum_depth depth)
      (λ _. search_from-ends fuel adjacency maximum_depth found queue (omega (arith, h)))
      (λ _.
        search_from-ends fuel adjacency maximum_depth v.0 (queue ++ v.1)
          (omega (arith, h, n, length-append queue v.1)))

length-start_queue : (starts : List String) → length (start_queue starts) ≡ length starts
length-start_queue [] = refl
length-start_queue (s ∷ starts) = ground (arith, length-start_queue starts)

-- The search ends with a set, for every graph, also with cycles.
pub reachable_ends :
    (adjacency : Adjacency) (starts : List String) (maximum_depth : ℕ)
    → is_some (reachable adjacency starts maximum_depth) ≡ true
unfolding reachable
reachable_ends adjacency starts maximum_depth =
    search_from-ends _ adjacency maximum_depth starts (start_queue starts)
      (omega (arith, length-start_queue starts, unseen-length (all_targets adjacency) starts))

-- A node that is that number of edges away from a start, along some walk.
pub data IsReached (adjacency : Adjacency) (starts : List String) : ℕ → String → Type 0 where
  begin : (s : String) → contains starts s ≡ true → IsReached adjacency starts 0 s
  step :
      (n : ℕ) (s t : String)
      → IsReached adjacency starts n s
      → contains (get_or (lookup s adjacency) []) t ≡ true
      → IsReached adjacency starts (n + 1) t

some-injective : (a b : List String) → some a ≡ some b → a ≡ b
some-injective a b h = ap (λ o. get_or o a) h

module _ (adjacency : Adjacency) (starts : List String) (maximum_depth : ℕ) where
  abbrev pub Near : String → Type 0
  Near x = (n : ℕ) × (n ≤ maximum_depth) × IsReached adjacency starts n x

  abbrev AllNear : List String → Type 0
  AllNear found = (x : String) → contains found x ≡ true → Near x

  abbrev QueueNear : Queue → Type 0
  QueueNear queue = All (λ e. (e.1 ≤ maximum_depth) × IsReached adjacency starts e.1 e.0) queue

  visit-Near :
      (current : String) (depth : ℕ) (targets found : List String)
      → Within (get_or (lookup current adjacency) []) targets
      → depth + 1 ≤ maximum_depth
      → IsReached adjacency starts depth current
      → AllNear found
      → AllNear (visit targets (depth + 1) found).0 × QueueNear (visit targets (depth + 1) found).1
  unfolding visit
  visit-Near current depth [] found w b r near = (near, tt)
  visit-Near current depth (t ∷ ts) found (m, w) b r near = elim (Bool-cases (contains found t)) [
    | inl old ↦ rw old (visit-Near current depth ts found w b r near)
    | inr new ↦
        let s = step depth current t r m in
        let more : AllNear (found ++ t ∷ []) = λ x h. elim (Bool-cases (x == t)) [
          | inl same ↦ rw ((==_iff x t).0 same) (depth + 1, b, s)
          | inr other ↦ near x (ground (arith, h, other, contains-append found (t ∷ []) x))
        ] in
        let v = visit-Near current depth ts (found ++ t ∷ []) w b r more in
        rw new (v.0, ((b, s), v.1))
  ]

  search_from-Near :
      (fuel : ℕ) (found : List String) (queue : Queue) (result : List String)
      → AllNear found
      → QueueNear queue
      → search_from fuel adjacency maximum_depth found queue ≡ some result
      → AllNear result
  unfolding search_from
  search_from-Near fuel found [] result near q h = rw (sym (some-injective found result h)) near
  search_from-Near zero found (e ∷ queue) result near q h = cc
  search_from-Near (suc fuel) found ((current, depth) ∷ queue) result near ((b, r), q) h =
      let targets = get_or (lookup current adjacency) [] in
      let v = visit targets (depth + 1) found in
      elim (Bool-cases (leb maximum_depth depth)) [
        | inl deep ↦ search_from-Near fuel found queue result near q (rw deep at h)
        | inr shallow ↦
            let n =
              visit-Near current depth targets found (Within-self targets) (ground (arith, shallow))
                r near in
            search_from-Near fuel v.0 (queue ++ v.1) result n.0
              (All-append (λ e. (e.1 ≤ maximum_depth) × IsReached adjacency starts e.1 e.0) queue
                v.1 q n.1)
              (rw shallow at h)
      ]

  start_queue-Near : (ss : List String) → Within starts ss → QueueNear (start_queue ss)
  start_queue-Near [] w = tt
  start_queue-Near (s ∷ ss) (m, w) = ((omega arith, begin s m), start_queue-Near ss w)

  -- Every node that the search finds is at most the maximum depth away from a start along some walk.
  pub reachable_sound :
      (result : List String) (x : String)
      → reachable adjacency starts maximum_depth ≡ some result
      → contains result x ≡ true
      → Near x
  unfolding reachable
  reachable_sound result x h found =
      search_from-Near _ starts (start_queue starts) result (λ s m. (0, omega arith, begin s m))
        (start_queue-Near starts (Within-self starts)) h x found
