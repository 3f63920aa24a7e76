-- ===== src/Identity.antt =====
-- src/kdiag/node_identity.py: the names of hosts in the inventory and those of the nodes of Kubernetes. A set of names
-- is a list of them. `strip` and `lower` are those of `str`.
pub mod Unambiguous
pub mod Matching
use k8s_check.Prelude.{
  ℕ, String, Bool, true, false, ◌&&◌, ◌||◌, not, Option, none, some, List, [], ◌∷◌, ◌==◌, string_eq,
  nat_eq, option_eq, if◌then◌else◌, any, contains, is_empty, truthy, or_text, length, max,
}
use Prim.Native.Char.{Char, code}
use k8s_check.Dict.{Dict, insert}
use k8s_check.Dict.Where.{keys_where}

-- `text.rstrip(".")`
abbrev strip_dots : String → String
strip_dots String.[] = String.[]
strip_dots (String.◌∷◌ c s) =
    let rest = strip_dots s in if code c == 46 && rest == "" then "" else String.◌∷◌ c rest

-- `value.split(".", 1)[0]`
abbrev first_label : String → String
first_label String.[] = String.[]
first_label (String.◌∷◌ c s) =
    let rest = first_label s in if code c == 46 then String.[] else String.◌∷◌ c rest

-- `_short_names`
abbrev short_names : List String → List String
short_names [] = []
short_names (name ∷ names) = first_label name ∷ short_names names

-- `metadata` of a node: its name and the label of its host name.
pub record NodeMetadata : Type 0 where
  pub name : Option String
  pub hostname_label : Option String

-- `host` of a snapshot.
pub record Host : Type 0 where
  pub hostname : Option String
  pub fqdn : Option String

-- The full and the short names of a host or of a node.
pub record Names : Type 0 where
  pub full : List String
  pub short : List String

abbrev intersects : List String → List String → Bool
intersects xs ys = any (contains ys) xs

-- The score of a node for a host, 0 without a name in common.
unfoldable pub score : Names → Names → ℕ
score host node =
    if intersects host.full node.full then 2 else if intersects host.short node.short then 1 else 0

-- `max(score for score, _name in scored)`
unfoldable pub best_score : Names → Dict String Names → ℕ
unfolding score
best_score host [] = 0
best_score host ((name, node) ∷ nodes) = max (score host node) (best_score host nodes)

unfoldable pub names_with : ℕ → Names → Dict String Names → List String
unfolding score
names_with best host nodes = keys_where (λ node. score host node == best) nodes

-- `candidates.get(alias)`: no node, if none has a score.
unfoldable pub candidates : Names → Dict String Names → List String
unfolding best_score names_with
candidates host nodes =
    let best = best_score host nodes in if best == 0 then [] else names_with best host nodes

-- `next(iter(names))` of a set with one element.
abbrev pub the_only : List String → Option String
the_only (name ∷ []) = some name
the_only _ = none

-- `reverse.get(name)`: the hosts for which the node is the only candidate.
unfoldable pub claimants : String → Dict String Names → Dict String Names → List String
unfolding candidates
claimants name nodes hosts =
    keys_where (λ host. the_only (candidates host nodes) == some name) hosts

abbrev pub matched_name : Dict String Names → Dict String Names → Option String → Option String
matched_name nodes hosts none = none
matched_name nodes hosts (some name) =
    if length (claimants name nodes hosts) == 1 then some name else none

abbrev pub add_match : String → Option String → Dict String String → Dict String String
add_match alias none others = others
add_match alias (some name) others = (alias, name) ∷ others

-- The comprehension at the end, for the hosts that are left.
unfoldable pub match_loop :
    Dict String Names → Dict String Names → Dict String Names → Dict String String
unfolding claimants
match_loop nodes hosts [] = []
match_loop nodes hosts ((alias, host) ∷ rest) =
    let others = match_loop nodes hosts rest in
    add_match alias (matched_name nodes hosts (the_only (candidates host nodes))) others

unfoldable pub match_names : Dict String Names → Dict String Names → Dict String String
unfolding match_loop
match_names nodes hosts = match_loop nodes hosts hosts

module _ (strip lower : String → String) where
  abbrev normalized : Option String → String
  normalized value = lower (strip_dots (strip (or_text value "")))

  -- `_normalized_names`
  abbrev normalized_names : List (Option String) → List String
  normalized_names [] = []
  normalized_names (value ∷ values) =
      let rest = normalized_names values in
      if normalized value == "" then rest else normalized value ∷ rest

  abbrev names_of : List (Option String) → Names
  names_of values =
      let full = normalized_names values in record { full = full; short = short_names full }

  unfoldable pub inventory_names : Dict String Host → Dict String Names
  inventory_names [] = []
  inventory_names ((alias, host) ∷ hosts) =
      (alias, names_of (some alias ∷ host.hostname ∷ host.fqdn ∷ [])) ∷ inventory_names hosts

  abbrev add_named : Option String → NodeMetadata → Dict String Names → Dict String Names
  add_named none node table = table
  add_named (some name) node table =
      if name == ""
      then table
      else insert name (names_of (some name ∷ node.hostname_label ∷ [])) table

  unfoldable pub kubernetes_names : List NodeMetadata → Dict String Names → Dict String Names
  kubernetes_names [] table = table
  kubernetes_names (node ∷ nodes) table = kubernetes_names nodes (add_named node.name node table)

  -- The hosts of the snapshots and the metadata of the nodes.
  unfoldable pub match_node_identities : Dict String Host → List NodeMetadata → Dict String String
  unfolding inventory_names kubernetes_names match_names
  match_node_identities hosts nodes =
      match_names (kubernetes_names nodes []) (inventory_names hosts)
