-- ===== src/Config/Validate.antt =====
-- `validate_config` of src/kdiag/config.py, on a configuration that was merged from the defaults. A key that the code
-- reads with brackets and that is missing is an error, as every value of another type.
use k8s_check.Prelude.{
  ℕ, zero, nat_eq, bool_eq, String, ◌<>◌, Bool, true, false, ◌&&◌, ◌||◌, not, Option, none, some,
  List, [], ◌∷◌, ◌==◌, string_eq, ltb, if◌then◌else◌, any, has_substring, codes, length, nub,
  sort_by, str_leb, Result, error, ok, and_then, refuse,
}
use k8s_check.Json.{
  Value, null, bool, pos, str, arr, obj, Items, nil, cons, Fields, end, get, at_value, py_eq,
}
use k8s_check.Config.Analysis.{Clock, Window, resolve_analysis_window}
use k8s_check.Config.Merge.{put}

-- The version, `none` without one, and the sections of a configuration.
pub record Config : Type 0 where
  pub schema_version : Option Value
  pub analysis : Fields
  pub collection : Fields
  pub ssh : Fields
  pub kubernetes : Fields
  pub prometheus : Fields

-- `REMOTE_PATH_RE.fullmatch`, the test for ".." among `Path(...).parts`, `require_k8s_name`, and the time.
pub record Platform : Type 0 where
  pub clock : Clock
  pub now : String
  pub remote_path : String → Bool
  pub climbs : String → Bool
  pub k8s_name : Value → Result String

abbrev above : Option ℕ → ℕ → Bool
above none n = false
above (some maximum) n = ltb maximum n

-- `_positive_int` with the minimum 1: whether the value is refused.
abbrev pub bad_int : Option ℕ → Option Value → Bool
bad_int maximum (some (pos n)) = ltb n 1 || above maximum n
bad_int maximum v = true

abbrev pub is_bool : Option Value → Bool
is_bool (some (bool b)) = true
is_bool v = false

-- A value that is `None` or a string.
abbrev pub is_text_or_null : Option Value → Bool
is_text_or_null (some null) = true
is_text_or_null (some (str s)) = true
is_text_or_null v = false

-- `_positive_int` for each of the keys, before the rest.
unfoldable pub positive_ints {ℓ} :
    {A : Type ℓ} → String → List String → Option ℕ → Fields → Result A → Result A
positive_ints section [] maximum fields rest = rest
positive_ints section (k ∷ ks) maximum fields rest =
    refuse (bad_int maximum (get k fields)) ("invalid " <> (section <> ("." <> k)))
      (positive_ints section ks maximum fields rest)

abbrev pub collection_ints : List String
collection_ints =
    "since_hours" ∷ "parallelism" ∷ "command_timeout_seconds" ∷ "max_command_bytes"
    ∷ "max_node_bundle_bytes" ∷ "central_reserve_bytes" ∷ "pod_log_tail_bytes"
    ∷ "pod_log_total_bytes" ∷ "pod_log_max_files" ∷ []

abbrev pub kubernetes_ints : List String
kubernetes_ints =
    "command_timeout_seconds" ∷ "max_wire_bytes" ∷ "max_bundle_bytes" ∷ "log_tail_lines"
    ∷ "max_log_pods" ∷ "max_log_bytes" ∷ []

abbrev pub prometheus_ints : List String
prometheus_ints = "timeout_seconds" ∷ "max_response_bytes" ∷ []

-- A bound of the window. What is false in Python counts as absent, and any other value but a string is refused.
abbrev text_of : Option Value → Result (Option String)
text_of none = ok none
text_of (some null) = ok none
text_of (some (bool false)) = ok none
text_of (some (pos zero)) = ok none
text_of (some (arr nil)) = ok none
text_of (some (obj end)) = ok none
text_of (some (str s)) = ok (some s)
text_of v = error "timestamp must be an ISO-8601 UTC timestamp"

abbrev purpose_of : Option Value → String
purpose_of (some (str s)) = s
purpose_of v = ""

abbrev value_of : Option String → Value
value_of none = null
value_of (some s) = str s

-- `analysis.update(resolved_analysis)`
abbrev pub update_analysis : Window → Fields → Fields
update_analysis w fields =
    put "incident_end" (value_of w.incident_end)
      (put "incident_start" (value_of w.incident_start) (put "purpose" (str w.purpose) fields))

unfoldable pub resolved_analysis : Platform → Fields → Result Fields
resolved_analysis p analysis = and_then (text_of (get "incident_start" analysis)) (λ from.
    and_then (text_of (get "incident_end" analysis)) (λ to.
      and_then
        (resolve_analysis_window p.clock (purpose_of (get "purpose" analysis)) none from to p.now)
        (λ w. ok (update_analysis w analysis))))

abbrev bad_remote_python : Platform → Option Value → Bool
bad_remote_python p (some (str path)) = not (p.remote_path path) || p.climbs path
bad_remote_python p v = true

unfoldable pub namespace_list : Platform → Items → Result (List String)
namespace_list p nil = ok []
namespace_list p (cons v items) =
    and_then (p.k8s_name v) (λ name. and_then (namespace_list p items) (λ rest. ok (name ∷ rest)))

abbrev to_items : List String → Items
to_items [] = nil
to_items (s ∷ ss) = cons (str s) (to_items ss)

abbrev namespaces_at : Platform → String → Option Value → Fields → Result Fields
namespaces_at p key (some (arr items)) fields =
    and_then (namespace_list p items)
      (λ names. ok (put key (arr (to_items (sort_by str_leb (nub names)))) fields))
namespaces_at p key v fields = error ("kubernetes." <> (key <> " must be an array"))

-- `sorted(set(require_k8s_name(item) for item in values))` under a key.
unfoldable pub sorted_namespaces : Platform → String → Fields → Result Fields
unfolding namespace_list sort_by
sorted_namespaces p key fields = namespaces_at p key (get key fields) fields

abbrev pub is_missing : Option Value → Bool
is_missing none = true
is_missing (some null) = true
is_missing v = false

abbrev bad_username : Option Value → Bool
bad_username (some (str s)) = s == "" || ltb 1024 (length (codes s))
bad_username v = true

abbrev unsafe_username : Option Value → Bool
unsafe_username (some (str s)) = has_substring s ":" || any (λ c. ltb c 32 || c == 127) (codes s)
unsafe_username v = true

abbrev bad_password : Option Value → Bool
bad_password (some (str s)) = ltb 16384 (length (codes s))
bad_password v = true

abbrev unsafe_password : Option Value → Bool
unsafe_password (some (str s)) = any (λ c. ltb c 32 && not (c == 9)) (codes s)
unsafe_password v = true

-- `not prometheus.get("url")`, where the value is a string or `None`.
abbrev pub no_url : Option Value → Bool
no_url (some (str s)) = s == ""
no_url v = true

-- The checks of the credentials.
unfoldable pub check_credentials : Fields → Result Fields
check_credentials prometheus =
    let username = get "username" prometheus in
    let password = get "password" prometheus in
    refuse (not (is_missing username == is_missing password))
      "prometheus.username and prometheus.password must be specified together"
      (if is_missing username
        then ok prometheus
        else refuse (bad_username username)
            "prometheus.username must be a non-empty string up to 1024 characters"
            (refuse (unsafe_username username)
              "prometheus.username contains characters unsafe for HTTP Basic authentication"
              (refuse (bad_password password)
                "prometheus.password must be a string up to 16384 characters"
                (refuse (unsafe_password password) "prometheus.password contains control characters"
                  (refuse (no_url (get "url" prometheus))
                    "prometheus.url is required when credentials are configured"
                    (ok prometheus))))))

unfoldable pub validate_config : Platform → Config → Result Config
unfolding positive_ints resolved_analysis sorted_namespaces check_credentials py_eq
validate_config p c =
    refuse (not (at_value (λ v. py_eq v (pos 1)) c.schema_version)) "unsupported schema_version" (
      refuse (not (is_bool (get "enabled" c.kubernetes))) "kubernetes.enabled must be boolean" (
        refuse (not (is_bool (get "collect_system_logs" c.kubernetes)))
          "kubernetes.collect_system_logs must be boolean"
          (refuse (not (is_bool (get "collect_etcd" c.collection)))
            "collection.collect_etcd must be boolean"
            (refuse (not (is_bool (get "collect_cgroup" c.collection)))
              "collection.collect_cgroup must be boolean"
              (and_then (resolved_analysis p c.analysis) (λ analysis.
                positive_ints "collection" collection_ints none c.collection (
                  positive_ints "ssh" ("connect_timeout_seconds" ∷ []) none c.ssh (
                    positive_ints "ssh" ("port" ∷ []) (some 65535) c.ssh (
                      refuse (bad_remote_python p (get "remote_python" c.ssh))
                        "ssh.remote_python must be a safe absolute path"
                        (positive_ints "kubernetes" kubernetes_ints none c.kubernetes (
                          and_then (sorted_namespaces p "system_namespaces" c.kubernetes) (λ system.
                            and_then (sorted_namespaces p "application_namespaces" system)
                              (λ kubernetes.
                                refuse (not (is_text_or_null (get "user" c.ssh)))
                                  "ssh.user must be a string or null"
                                  (positive_ints "prometheus" prometheus_ints none c.prometheus (
                                    refuse (not (is_text_or_null (get "url" c.prometheus)))
                                      "prometheus.url must be a string or null"
                                      (and_then (check_credentials c.prometheus) (λ prometheus.
                                        ok (record c {
                                          analysis = analysis;
                                          kubernetes = kubernetes;
                                        }))))))))))))))))))
