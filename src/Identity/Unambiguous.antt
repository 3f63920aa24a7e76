-- ===== src/Identity/Unambiguous.antt =====
-- `match_node_identities` of src/kdiag/node_identity.py matches exactly the hosts and nodes that belong to each other
-- without doubt.
use k8s_check.Prelude.{
  ℕ, suc, ◌≤◌, String, true, false, ◌≡◌, refl, ◌∙◌, sym, ap, ◌⊎◌, inl, inr, none, some, List, [],
  ◌∷◌, ◌==◌, ==_iff, string_eq, nat_eq, option_eq, leb, contains, get_or, arith, Bool-cases,
  Option-cases,
}
use k8s_check.Dict.{Dict, lookup, has_key, NodupKeys, lookup-none_iff}
use k8s_check.Dict.Where.{passes, Distinct, only_one, contains-keys_where, keys_where-Distinct}
use k8s_check.Identity.{Names, score, best_score, names_with, candidates, the_only}

-- A node is the best one for a host: it has a score, and every other node has a lower one.
abbrev pub IsBest : Dict String Names → Names → String → Type 0
IsBest nodes host name =
    (node : Names) × (lookup name nodes ≡ some node)
    × (1 ≤ score host node)
    × ((other_name : String) (other : Names)
        → lookup other_name nodes ≡ some other
        → (other_name == name) ≡ false
        → suc (score host other) ≤ score host node)

the_only-single : (names : List String) (n : String) → the_only names ≡ some n → names ≡ n ∷ []
the_only-single [] n h = cc
the_only-single (m ∷ []) n h = cc
the_only-single (m ∷ k ∷ ms) n h = cc

best_score-bound :
    (host : Names) (nodes : Dict String Names) (m : String) (node : Names)
    → lookup m nodes ≡ some node
    → score host node ≤ best_score host nodes
unfolding best_score
best_score-bound host [] m node h = cc
best_score-bound host ((name, other) ∷ nodes) m node h = elim (Bool-cases (m == name)) [
  | inl same ↦
      let found : some other ≡ some node = rw same at h in
      let is : other ≡ node = ap (λ o. get_or o other) found in rw (sym is) (omega arith)
  | inr differs ↦ omega (arith, best_score-bound host nodes m node (rw differs at h))
]

lookup_fresh :
    (name : String) (nodes : Dict String Names) (node : Names)
    → has_key name nodes ≡ false
    → lookup name nodes ≡ some node
    → ⊥
lookup_fresh name nodes node fresh found =
    let nothing : lookup name nodes ≡ none = (lookup-none_iff name nodes).1 fresh in
    let clash : some node ≡ none = sym found ∙ nothing in cc

best_score-attained :
    (host : Names) (nodes : Dict String Names)
    → NodupKeys nodes
    → (best_score host nodes ≡ 0)
      ⊎ ((name : String) × (node : Names) × (lookup name nodes ≡ some node)
          × (score host node ≡ best_score host nodes))
unfolding best_score
best_score-attained host [] u = inl refl
best_score-attained host ((name, node) ∷ nodes) (fresh, u) =
    elim (Bool-cases (leb (best_score host nodes) (score host node))) [
      | inl best ↦ inr (name, node, ground (arith, (==_iff name name).1 refl), ground (arith, best))
      | inr worse ↦ elim (best_score-attained host nodes u) [
        | inl none' ↦ absurd (ground (arith, worse, none'))
        | inr (m, other, found, is) ↦ inr (
          m,
          other,
          elim (Bool-cases (m == name)) [
            | inl same ↦
                absurd
                  (lookup_fresh name nodes other fresh (rw (sym ((==_iff m name).0 same)) found))
            | inr differs ↦ rw differs found
          ],
          ground (arith, worse, is),
        )
      ]
    ]

contains-names_with :
    (best : ℕ) (host : Names) (nodes : Dict String Names) (m : String) (node : Names)
    → NodupKeys nodes
    → lookup m nodes ≡ some node
    → contains (names_with best host nodes) m ≡ (score host node == best)
unfolding names_with
contains-names_with best host nodes m node u found =
    contains-keys_where (λ other. score host other == best) m nodes u
    ∙ ap (passes (λ other. score host other == best)) found

names_with-lookup :
    (best : ℕ) (host : Names) (nodes : Dict String Names) (m : String)
    → NodupKeys nodes
    → contains (names_with best host nodes) m ≡ true
    → (node : Names) × (lookup m nodes ≡ some node) × (score host node ≡ best)
unfolding names_with
names_with-lookup best host nodes m u h =
    let p = sym (contains-keys_where (λ other. score host other == best) m nodes u) ∙ h in
    elim (Option-cases (lookup m nodes)) [
      | inl absent ↦ let q : false ≡ true = rw absent at p in cc
      | inr (node, found) ↦ (node, found, (==_iff (score host node) best).0 (rw found at p))
    ]

names_with-Distinct :
    (best : ℕ) (host : Names) (nodes : Dict String Names)
    → NodupKeys nodes
    → Distinct (names_with best host nodes)
unfolding names_with
names_with-Distinct best host nodes u =
    keys_where-Distinct (λ other. score host other == best) nodes u

-- The only candidate of a host is its best node.
pub only-IsBest :
    (nodes : Dict String Names) (host : Names) (name : String)
    → NodupKeys nodes
    → the_only (candidates host nodes) ≡ some name
    → IsBest nodes host name
unfolding candidates
only-IsBest nodes host name u h = elim (Bool-cases (best_score host nodes == 0)) [
  | inl zero' ↦ let q : none ≡ some name = rw zero' at h in cc
  | inr positive ↦
      let best = best_score host nodes in
      let single : names_with best host nodes ≡ name ∷ [] =
        the_only-single (names_with best host nodes) name (rw positive at h) in
      let (node, found, is) =
        names_with-lookup best host nodes name u
          (ap (λ ns. contains ns name) single ∙ ground (arith, (==_iff name name).1 refl)) in
      (
        node,
        found,
        ground (arith, is, positive),
        λ m other there differs.
            let c =
              sym (contains-names_with best host nodes m other u there)
              ∙ ap (λ ns. contains ns m) single in
            ground (arith, is, c, differs, best_score-bound host nodes m other there),
      )
]

pub IsBest-only :
    (nodes : Dict String Names) (host : Names) (name : String)
    → NodupKeys nodes
    → IsBest nodes host name
    → the_only (candidates host nodes) ≡ some name
unfolding candidates
IsBest-only nodes host name u (node, found, positive, above) =
    let best = best_score host nodes in
    let bound : score host node ≤ best = best_score-bound host nodes name node found in
    let is_best : score host node ≡ best = elim (best_score-attained host nodes u) [
      | inl zero' ↦ omega (arith, zero', bound, positive)
      | inr (m, other, there, is) ↦ elim (Bool-cases (m == name)) [
        | inl same ↦
            let there' : lookup name nodes ≡ some other = rw ((==_iff m name).0 same) at there in
            let equal : other ≡ node = ap (λ o. get_or o other) (sym there' ∙ found) in
            rw equal at is
        | inr differs ↦ omega (arith, is, bound, above m other there differs)
      ]
    ] in
    let single : names_with best host nodes ≡ name ∷ [] =
      only_one (names_with best host nodes) name (names_with-Distinct best host nodes u)
        (contains-names_with best host nodes name node u found
          ∙ (==_iff (score host node) best).1 is_best)
        (λ m among. elim (Bool-cases (m == name)) [
          | inl same ↦ (==_iff m name).0 same
          | inr differs ↦
              let (other, there, is) = names_with-lookup best host nodes m u among in
              absurd (omega (arith, is, is_best, above m other there differs))
        ]) in
    let positive' : (best == 0) ≡ false = ground (arith, is_best, positive) in
    rw (positive', single) refl
