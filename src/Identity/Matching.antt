-- ===== src/Identity/Matching.antt =====
-- The matches of src/kdiag/node_identity.py are exactly the pairs without doubt.
use k8s_check.Prelude.{
  String, true, false, ◌≡◌, refl, ◌∙◌, sym, ap, inl, inr, ◌↔◌, Option, none, some, List, [], ◌∷◌,
  ◌==◌, ==_iff, string_eq, nat_eq, option_eq, if-elim, contains, length, get_or, arith, Bool-cases,
  Option-cases,
}
use k8s_check.Dict.{Dict, lookup, has_key, NodupKeys, lookup-none_iff, insert-NodupKeys}
use k8s_check.Dict.Where.{passes, Distinct, only_one, contains-keys_where, keys_where-Distinct}
use k8s_check.Identity.{
  Names, Host, NodeMetadata, candidates, the_only, claimants, matched_name, add_match, match_loop,
  match_names, inventory_names, kubernetes_names, match_node_identities, add_named,
}
use k8s_check.Identity.Unambiguous.{IsBest, only-IsBest, IsBest-only}

-- A host and a node belong to each other without doubt: the node is the best one for the host, and for no other host.
abbrev pub IsMatch : Dict String Names → Dict String Names → String → String → Type 0
IsMatch nodes hosts alias name =
    (host : Names) × (lookup alias hosts ≡ some host)
    × IsBest nodes host name
    × ((other : String) (other_host : Names)
        → lookup other hosts ≡ some other_host
        → IsBest nodes other_host name
        → other ≡ alias)

contains-claimants :
    (nodes hosts : Dict String Names) (name alias : String) (host : Names)
    → NodupKeys hosts
    → lookup alias hosts ≡ some host
    → the_only (candidates host nodes) ≡ some name
    → contains (claimants name nodes hosts) alias ≡ true
unfolding claimants
contains-claimants nodes hosts name alias host u found only =
    contains-keys_where (λ h. the_only (candidates h nodes) == some name) alias hosts u
    ∙ ap (passes (λ h. the_only (candidates h nodes) == some name)) found
    ∙ (==_iff (the_only (candidates host nodes)) (some name)).1 only

claimants-lookup :
    (nodes hosts : Dict String Names) (name alias : String)
    → NodupKeys hosts
    → contains (claimants name nodes hosts) alias ≡ true
    → (host : Names) × (lookup alias hosts ≡ some host)
      × (the_only (candidates host nodes) ≡ some name)
unfolding claimants
claimants-lookup nodes hosts name alias u h =
    let p =
      sym (contains-keys_where (λ x. the_only (candidates x nodes) == some name) alias hosts u)
      ∙ h in
    elim (Option-cases (lookup alias hosts)) [
      | inl absent ↦ let q : false ≡ true = rw absent at p in cc
      | inr (host, found) ↦
          (host, found, (==_iff (the_only (candidates host nodes)) (some name)).0 (rw found at p))
    ]

one_claimant :
    (xs : List String) (a b : String)
    → length xs ≡ 1
    → contains xs a ≡ true
    → contains xs b ≡ true
    → a ≡ b
one_claimant [] a b h ha hb = cc
one_claimant (x ∷ []) a b h ha hb =
    (==_iff a x).0 (ground (arith, ha)) ∙ sym ((==_iff b x).0 (ground (arith, hb)))
one_claimant (x ∷ y ∷ xs) a b h ha hb = absurd (omega (arith, h))

abbrev matched_host : Dict String Names → Dict String Names → Option Names → Option String
matched_host nodes hosts none = none
matched_host nodes hosts (some host) = matched_name nodes hosts (the_only (candidates host nodes))

lookup-first :
    (alias j : String) (host : Names) (rest : Dict String Names)
    → (alias == j) ≡ true
    → lookup alias ((j, host) ∷ rest) ≡ some host
lookup-first alias j host rest same = rw same refl

lookup-rest :
    (alias j : String) (host : Names) (rest : Dict String Names)
    → (alias == j) ≡ false
    → lookup alias ((j, host) ∷ rest) ≡ lookup alias rest
lookup-rest alias j host rest differs = rw differs refl

lookup-add_match_other :
    (alias j : String) (o : Option String) (others : Dict String String)
    → (alias == j) ≡ false
    → lookup alias (add_match j o others) ≡ lookup alias others
lookup-add_match_other alias j none others differs = refl
lookup-add_match_other alias j (some name) others differs = rw differs refl

lookup-add_match_same :
    (alias j : String) (o : Option String) (others : Dict String String)
    → (alias == j) ≡ true
    → lookup alias others ≡ none
    → lookup alias (add_match j o others) ≡ o
lookup-add_match_same alias j none others same nothing = nothing
lookup-add_match_same alias j (some name) others same nothing = rw same refl

lookup-match_loop :
    (nodes hosts rest : Dict String Names) (alias : String)
    → NodupKeys rest
    → lookup alias (match_loop nodes hosts rest) ≡ matched_host nodes hosts (lookup alias rest)
unfolding match_loop
lookup-match_loop nodes hosts [] alias u = refl
lookup-match_loop nodes hosts ((j, host) ∷ rest) alias (fresh, u) =
    let m = matched_name nodes hosts (the_only (candidates host nodes)) in
    let others = match_loop nodes hosts rest in
    elim (Bool-cases (alias == j)) [
      | inl same ↦
          let nothing : lookup alias rest ≡ none =
            rw ((==_iff alias j).0 same) ((lookup-none_iff j rest).1 fresh) in
          let none_left : lookup alias others ≡ none =
            lookup-match_loop nodes hosts rest alias u ∙ ap (matched_host nodes hosts) nothing in
          lookup-add_match_same alias j m others same none_left
          ∙ sym (ap (matched_host nodes hosts) (lookup-first alias j host rest same))
      | inr differs ↦
          lookup-add_match_other alias j m others differs
          ∙ lookup-match_loop nodes hosts rest alias u
          ∙ sym (ap (matched_host nodes hosts) (lookup-rest alias j host rest differs))
    ]

matched_name-some :
    (nodes hosts : Dict String Names) (o : Option String) (name : String)
    → matched_name nodes hosts o ≡ some name
    → (o ≡ some name) × (length (claimants name nodes hosts) ≡ 1)
matched_name-some nodes hosts none name h = cc
matched_name-some nodes hosts (some m) name h =
    elim (Bool-cases (length (claimants m nodes hosts) == 1)) [
      | inl one ↦
          let p : some m ≡ some name = rw one at h in
          let e : m ≡ name = ap (λ o. get_or o m) p in
          (p, rw (sym e) ((==_iff (length (claimants m nodes hosts)) 1).0 one))
      | inr many ↦ let p : none ≡ some name = rw many at h in cc
    ]

claimants-Distinct :
    (nodes hosts : Dict String Names) (name : String)
    → NodupKeys hosts
    → Distinct (claimants name nodes hosts)
unfolding claimants
claimants-Distinct nodes hosts name v =
    keys_where-Distinct (λ h. the_only (candidates h nodes) == some name) hosts v

single_match :
    (nodes hosts : Dict String Names) (name alias : String)
    → claimants name nodes hosts ≡ alias ∷ []
    → matched_name nodes hosts (some name) ≡ some name
single_match nodes hosts name alias single = rw single refl

match_names_iff :
    (nodes hosts : Dict String Names) (alias name : String)
    → NodupKeys nodes
    → NodupKeys hosts
    → (lookup alias (match_names nodes hosts) ≡ some name) ↔ IsMatch nodes hosts alias name
unfolding match_names
match_names_iff nodes hosts alias name u v = (
  λ h.
      let p : matched_host nodes hosts (lookup alias hosts) ≡ some name =
        sym (lookup-match_loop nodes hosts hosts alias v) ∙ h in
      elim (Option-cases (lookup alias hosts)) [
        | inl absent ↦ let q : none ≡ some name = rw absent at p in cc
        | inr (host, found) ↦
            let (only, one) =
              matched_name-some nodes hosts (the_only (candidates host nodes)) name
                (rw found at p) in
            (
              host,
              found,
              only-IsBest nodes host name u only,
              λ other other_host there best.
                  one_claimant (claimants name nodes hosts) other alias one
                    (contains-claimants nodes hosts name other other_host v there
                      (IsBest-only nodes other_host name u best))
                    (contains-claimants nodes hosts name alias host v found only),
            )
      ],
  λ m.
      let (host, found, best, alone) = m in
      let only = IsBest-only nodes host name u best in
      let single : claimants name nodes hosts ≡ alias ∷ [] =
        only_one (claimants name nodes hosts) alias (claimants-Distinct nodes hosts name v)
          (contains-claimants nodes hosts name alias host v found only)
          (λ other among.
            let (other_host, there, is) = claimants-lookup nodes hosts name other v among in
            alone other other_host there (only-IsBest nodes other_host name u is)) in
      lookup-match_loop nodes hosts hosts alias v
      ∙ ap (matched_host nodes hosts) found
      ∙ ap (matched_name nodes hosts) only
      ∙ single_match nodes hosts name alias single,
)

module _ (strip lower : String → String) where
  has_key-inventory_names :
      (alias : String) (hosts : Dict String Host)
      → has_key alias (inventory_names strip lower hosts) ≡ has_key alias hosts
  unfolding inventory_names
  has_key-inventory_names alias [] = refl
  has_key-inventory_names alias ((j, host) ∷ hosts) =
      ground (arith, has_key-inventory_names alias hosts)

  inventory_names-NodupKeys :
      (hosts : Dict String Host) → NodupKeys hosts → NodupKeys (inventory_names strip lower hosts)
  unfolding inventory_names
  inventory_names-NodupKeys [] u = tt
  inventory_names-NodupKeys ((j, host) ∷ hosts) (fresh, u) =
      (has_key-inventory_names j hosts ∙ fresh, inventory_names-NodupKeys hosts u)

  add_named-NodupKeys :
      (name : Option String) (node : NodeMetadata) (table : Dict String Names)
      → NodupKeys table
      → NodupKeys (add_named strip lower name node table)
  add_named-NodupKeys none node table u = u
  add_named-NodupKeys (some name) node table u =
      if-elim NodupKeys (name == "") (λ _. u) (λ _. insert-NodupKeys name _ table u)

  kubernetes_names-NodupKeys :
      (nodes : List NodeMetadata) (table : Dict String Names)
      → NodupKeys table
      → NodupKeys (kubernetes_names strip lower nodes table)
  unfolding kubernetes_names
  kubernetes_names-NodupKeys [] table u = u
  kubernetes_names-NodupKeys (node ∷ nodes) table u =
      kubernetes_names-NodupKeys nodes (add_named strip lower node.name node table)
        (add_named-NodupKeys node.name node table u)

  -- A host is matched with a node exactly if they belong to each other without doubt: the node has a name in common with
  -- the host, every other node has a lower score for the host, and the node is not the best one of another host in this
  -- way. The keys of the snapshots are distinct.
  pub match_node_identities_iff :
      (hosts : Dict String Host) (nodes : List NodeMetadata) (alias name : String)
      → NodupKeys hosts
      → (lookup alias (match_node_identities strip lower hosts nodes) ≡ some name)
        ↔ IsMatch
            (kubernetes_names strip lower nodes [])
            (inventory_names strip lower hosts)
            alias
            name
  unfolding match_node_identities
  match_node_identities_iff hosts nodes alias name u =
      match_names_iff (kubernetes_names strip lower nodes []) (inventory_names strip lower hosts)
        alias name (kubernetes_names-NodupKeys nodes [] tt) (inventory_names-NodupKeys hosts u)
