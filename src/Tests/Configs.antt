-- ===== src/Tests/Configs.antt =====
-- Tests of the model of src/kdiag/config.py and src/kdiag/analysis.py.
use k8s_check.Config.Validate.{
  prometheus_ints, kubernetes_ints, collection_ints, Config, Platform, validate_config,
}
use k8s_check.Prelude.{
  if◌then◌else◌, ◌≡◌, refl, String, true, false, none, some, List, [], ◌∷◌, ◌==◌, string_eq, Result,
  error, ok, and_then, refuse, sort_by, Bool-cases, inl, inr, ==_iff, ℕ, zero, suc, ◌+◌, ◌-◌, ◌*◌,
  ◌↔◌, nat_eq, Option, ap, arith,
}
use k8s_check.Json.{Value, null, bool, pos, str, arr, obj, nil, cons, Fields, end, field, get}
use Prim.Native.Char.{code}
use k8s_check.Config.Analysis.{Clock, Window, second, resolve_analysis_window}
use k8s_check.Config.Analysis.Resolved.{IsResolved, resolve_analysis_window_iff}
use k8s_check.Config.Analysis.Again.{resolve_analysis_window-again}
use k8s_check.Config.Merge.{merge_known, put}
use k8s_check.Config.Known.{SameShape, merge_known_shape}
use k8s_check.Config.Defaults.{default_config}

-- A clock whose texts have the digit of a second from 1 to 3, and may go on with a fraction.
abbrev clock : Clock
clock = record {
  parse = λ s.
      if s == "1"
      then ok 1000000
      else if s == "1.5"
      then ok 1500000
      else if s == "1.9"
      then ok 1900000
      else if s == "2"
      then ok 2000000
      else ok 3000000;
  format = λ n. if n == 1 then "1" else if n == 2 then "2" else "3";
  duration = λ s. none;
}

abbrev incident : Window
incident = record { purpose = "incident"; incident_start = some "1"; incident_end = some "2" }

resolved_incident :
    resolve_analysis_window clock "incident" none (some "1.5") (some "2") "now" ≡ ok incident
unfolding resolve_analysis_window and_then refuse
resolved_incident = refl

resolve_analysis_window_iff_example :
    (resolve_analysis_window clock "incident" none (some "1.5") (some "2") "now" ≡ ok incident)
    ↔ IsResolved clock none (some "1.5") (some "2") "incident" "now" incident
resolve_analysis_window_iff_example =
    resolve_analysis_window_iff clock none (some "1.5") (some "2") "incident" "now" incident

-- A clock whose texts have a stroke for the epoch and for each second, and a point for half a second.
abbrev strokes : ℕ → String
strokes zero = "i"
strokes (suc n) = String.◌∷◌ "i" (strokes n)

abbrev tally : String → ℕ
tally String.[] = 0
tally (String.◌∷◌ c s) = (if code c == 46 then 500000 else second) + tally s

abbrev stroke_clock : Clock
stroke_clock = record { parse = λ s. ok (tally s - second); format = strokes; duration = λ s. none }

tally-strokes : (n : ℕ) → tally (strokes n) ≡ n * second + second
tally-strokes zero = refl
tally-strokes (suc n) = omega (arith, tally-strokes n)

strokes_read : (n : ℕ) → stroke_clock.parse (stroke_clock.format n) ≡ ok (n * second)
strokes_read n = ap ok (omega (arith, tally-strokes n))

strokes_printed : (n : ℕ) → (stroke_clock.format n == "") ≡ false
strokes_printed n = elim (Bool-cases (strokes n == "")) [
  | inl empty ↦ absurd (omega (arith, tally-strokes n, ap tally ((==_iff (strokes n) "").0 empty)))
  | inr printed ↦ printed
]

abbrev stroke_window : Window
stroke_window = record {
  purpose = "incident";
  incident_start = some "ii";
  incident_end = some "iii";
}

stroke_run :
    resolve_analysis_window stroke_clock "incident" none (some "ii.") (some "iii") "iiii"
    ≡ ok stroke_window
unfolding resolve_analysis_window and_then refuse
stroke_run = refl

resolve_analysis_window-again_example :
    (resolve_analysis_window stroke_clock "incident" none (some "ii") (some "iii") "iiiii"
      ≡ ok stroke_window)
    ↔ ¬ (◌≡◌ {A = Option String} (some "ii") (some "iii"))
resolve_analysis_window-again_example =
    resolve_analysis_window-again stroke_clock strokes_read strokes_printed none (some "ii.")
      (some "iii") "iiii" "iiiii" 4000000 stroke_window stroke_run refl

-- A window within one second is resolved, but is refused when it is resolved again.
within_second :
    (resolve_analysis_window clock "incident" none (some "1.5") (some "1.9") "now"
      ≡ ok (record incident { incident_end = some "1" }))
    × (resolve_analysis_window clock "incident" none (some "1") (some "1") "now"
        ≡ error "incident-start must be earlier than incident-end")
unfolding resolve_analysis_window and_then refuse
within_second = (refl, refl)

abbrev ssh : Fields
ssh = field "connect_timeout_seconds" (pos 10) (
    field "remote_python" (str "/usr/bin/python3.8")
      (field "user" null (field "port" (pos 22) end)))

abbrev defaults : Fields
defaults = field "schema_version" (pos 1) (field "ssh" (obj ssh) end)

abbrev override : Fields
override = field "ssh" (obj (field "port" (pos 2222) end)) end

abbrev merged : Fields
merged = put "ssh" (obj (put "port" (pos 2222) ssh)) defaults

merged-override : merge_known override defaults "" ≡ ok merged
unfolding merge_known and_then get put
merged-override = refl

merge_known_shape_example : SameShape merged defaults
merge_known_shape_example = merge_known_shape override defaults merged merged-override

abbrev ints : List String → Fields → Fields
ints [] fields = fields
ints (k ∷ ks) fields = field k (pos 5) (ints ks fields)

abbrev config : Config
config = record {
  schema_version = some (pos 1);
  analysis =
      field "purpose" (str "check") (field "incident_start" null (field "incident_end" null end));
  collection =
      ints collection_ints
        (field "collect_etcd" (bool true) (field "collect_cgroup" (bool true) end));
  ssh = ssh;
  kubernetes = ints kubernetes_ints (
      field "enabled" (bool true) (
        field "collect_system_logs" (bool true) (
          field "system_namespaces" (arr (cons (str "kube-system") nil))
            (field "application_namespaces" (arr nil) end))));
  prometheus =
      ints prometheus_ints (field "url" null (field "username" null (field "password" null end)));
}

abbrev name_of : Value → Result String
name_of (str s) = ok s
name_of v = error "invalid name"

abbrev platform : Platform
platform = record {
  clock = clock;
  now = "now";
  remote_path = λ s. true;
  climbs = λ s. false;
  k8s_name = name_of;
}

valid : validate_config platform config ≡ ok config
unfolding validate_config resolve_analysis_window and_then refuse sort_by get put
valid = refl

-- In Python `true` is the number 1.
true_valid :
    validate_config platform (record config { schema_version = some (bool true) })
    ≡ ok (record config { schema_version = some (bool true) })
unfolding validate_config resolve_analysis_window and_then refuse sort_by get put
true_valid = refl

-- The default configuration passes its own checks.
defaults_valid : validate_config platform default_config ≡ ok default_config
unfolding validate_config resolve_analysis_window and_then refuse sort_by get put
defaults_valid = refl
