-- ===== src/Tests/Identities.antt =====
-- Runs of the matching of src/kdiag/node_identity.py.
use k8s_check.Prelude.{
  String, ◌≡◌, refl, ◌↔◌, none, some, List, [], ◌∷◌, string_eq, nat_eq, option_eq,
}
use k8s_check.Dict.{Dict, lookup}
use k8s_check.Identity.{
  Host, NodeMetadata, score, best_score, names_with, candidates, claimants, match_loop, match_names,
  inventory_names, kubernetes_names, match_node_identities,
}
use k8s_check.Identity.Matching.{IsMatch, match_node_identities_iff}

abbrev no_names : Host
no_names = record { hostname = none; fqdn = none }

-- Two hosts with the short name of one node, and a host with the full name of another.
abbrev hosts : Dict String Host
hosts =
    ("a.first", no_names)
    ∷ ("a.second", no_names)
    ∷ ("b", record { hostname = some "b.local."; fqdn = none })
    ∷ []

abbrev named : String → NodeMetadata
named name = record { name = some name; hostname_label = none }

abbrev nodes : List NodeMetadata
nodes = named "a.third" ∷ named "b.local" ∷ named "b.other" ∷ []

abbrev same_text : String → String
same_text s = s

-- The first two are ambiguous, and a full name goes before a short one.
matched_run : match_node_identities same_text same_text hosts nodes ≡ ("b", "b.local") ∷ []
unfolding match_node_identities match_names match_loop claimants candidates names_with best_score
    score inventory_names kubernetes_names
matched_run = refl

match_node_identities_iff_example :
    (lookup "b" (match_node_identities same_text same_text hosts nodes) ≡ some "b.local")
    ↔ IsMatch
        (kubernetes_names same_text same_text nodes [])
        (inventory_names same_text same_text hosts)
        "b"
        "b.local"
match_node_identities_iff_example =
    match_node_identities_iff same_text same_text hosts nodes "b" "b.local"
      (refl, (refl, (refl, tt)))
