-- ===== src/Baseline/Compare.antt =====
-- `compare_profiles` of src/kdiag/baseline.py: the changes between the profile of an approved baseline and that
-- of a new collection.
pub mod Founded
pub mod Complete
pub mod Summary
use k8s_check.Prelude.{
  ℕ, suc, ◌+◌, String, Bool, true, false, ◌&&◌, ◌||◌, not, Option, none, some, List, [], ◌∷◌, ◌++◌,
  if◌then◌else◌, ◌==◌, string_eq, or_text, take, contains, nub, is_empty, str_leb, sort_by,
}
use k8s_check.Dict.{Dict, keys, lookup, insert}
use k8s_check.Baseline.Profile.{Item, Source, Profile}
use k8s_check.Baseline.Paths.{changed_paths}

pub data Category : Type 0 where
  new_problem : Category
  removed : Category
  added : Category
  changed : Category
  resolved : Category
  unverifiable : Category

-- `CATEGORY_LABELS`
abbrev pub category_label : Category → String
category_label new_problem = "новая проблема"
category_label removed = "объект исчез"
category_label added = "объект добавлен"
category_label changed = "конфигурация изменилась"
category_label resolved = "проблема устранена"
category_label unverifiable = "не удалось проверить"

-- `CATEGORY_ACTIONS`
abbrev pub category_action : Category → String
category_action new_problem =
    "Открыть текущий report.json, проверить evidence правила и устранить причину."
category_action removed =
    "Проверить, было ли удаление запланировано; при необходимости восстановить объект."
category_action added = "Подтвердить, что объект добавлен в рамках согласованного изменения."
category_action changed =
    "Сопоставить изменённые поля с журналом изменений и подтвердить новую конфигурацию."
category_action resolved =
    "Подтвердить устойчивое устранение проблемы и отсутствие пробелов исходных данных."
category_action unverifiable =
    "Повторить сбор с доступным указанным источником; отсутствие данных не считать удалением."

-- The last three fields are the ones that `_change` takes as further arguments.
pub record Change : Type 0 where
  pub category : Category
  pub source : String
  pub object_kind : Option String
  pub object_key : Option String
  pub object_name : Option String
  pub before_sha256 : Option String
  pub after_sha256 : Option String
  pub meaning_ru : String
  pub recommended_action_ru : String
  pub statuses : Option (String × String)
  pub missing_source : Option String
  pub changed_fields : Option (List String)

abbrev option_map : (Item → String) → Option Item → Option String
option_map f none = none
option_map f (some a) = some (f a)

-- `item or after or before or {}`
abbrev first_of : Option Item → Option Item → Option Item
first_of none after = after
first_of (some item) after = some item

abbrev pub change : Category → String → Option Item → Option Item → Option Item → Change
change category source_id item before after =
    let selected = first_of (first_of item after) before in
    record {
      category = category;
      source = source_id;
      object_kind = option_map (λ i. i.kind) selected;
      object_key = option_map (λ i. i.key) selected;
      object_name = option_map (λ i. i.name) selected;
      before_sha256 = option_map (λ i. i.sha256) before;
      after_sha256 = option_map (λ i. i.sha256) after;
      meaning_ru = category_label category;
      recommended_action_ru = category_action category;
      statuses = none;
      missing_source = none;
      changed_fields = none;
    }

-- `(source or {}).get("status") or "missing"`
abbrev pub status_of : Option Source → String
status_of none = "missing"
status_of (some s) = or_text s.status "missing"

abbrev pub required_of : Option Source → Bool
required_of none = false
required_of (some s) = s.required

-- `{item["key"]: item for item in objects}`
unfoldable pub items_by_key : List Item → Dict String Item → Dict String Item
items_by_key [] d = d
items_by_key (item ∷ items) d = items_by_key items (insert item.key item d)

unfoldable pub items_of : Option Source → Dict String Item
unfolding items_by_key
items_of none = []
items_of (some s) = items_by_key s.objects []

abbrev pub appeared : Item → Category
appeared after = if after.kind == "finding" then new_problem else added

abbrev pub disappeared : Item → Category
disappeared before = if before.kind == "finding" then resolved else removed

-- The changes of one key. A key comes from one of the two dictionaries, so that one item is there.
unfoldable pub compare_items : String → Option Item → Option Item → List Change
unfolding changed_paths
compare_items source_id none none = []
compare_items source_id none (some after) =
    change (appeared after) source_id (some after) none (some after) ∷ []
compare_items source_id (some before) none =
    change (disappeared before) source_id (some before) (some before) none ∷ []
compare_items source_id (some before) (some after) =
    if not (before.sha256 == after.sha256)
    then record (change changed source_id (some after) (some before) (some after)) {
      changed_fields = some (take 100 (changed_paths before.value after.value ""));
    }
      ∷ []
    else []

unfoldable pub compare_keys :
    String → Dict String Item → Dict String Item → List String → List Change
unfolding compare_items
compare_keys source_id before after [] = []
compare_keys source_id before after (k ∷ ks) =
    compare_items source_id (lookup k before) (lookup k after)
    ++ compare_keys source_id before after ks

-- `sorted(set(before) | set(after))`
unfoldable pub all_keys : List String → List String → List String
all_keys before after = sort_by str_leb (nub (before ++ after))

unfoldable pub unverifiable_change : String → String → String → Change
unverifiable_change source_id before_status after_status =
    record (change unverifiable source_id none none none) {
      statuses = some (before_status, after_status);
      missing_source = some source_id;
    }

unfoldable pub compare_source : String → Option Source → Option Source → List Change
unfolding compare_keys all_keys unverifiable_change
compare_source source_id before after =
    let before_status = status_of before in
    let after_status = status_of after in
    let verified =
      compare_keys source_id (items_of before) (items_of after)
        (all_keys (keys (items_of before)) (keys (items_of after))) in
    if not (before_status == "collected") || not (after_status == "collected")
    then (if not (before_status == "collected")
          && not (after_status == "collected")
          && not (required_of before)
          && not (required_of after)
        then []
        else unverifiable_change source_id before_status after_status ∷ [])
    else verified

unfoldable pub compare_sources : Dict String Source → Dict String Source → List String → List Change
unfolding compare_source
compare_sources before after [] = []
compare_sources before after (k ∷ ks) =
    compare_source k (lookup k before) (lookup k after) ++ compare_sources before after ks

unfoldable pub changes_between : Profile → Profile → List Change
unfolding compare_sources all_keys
changes_between baseline current =
    compare_sources baseline.sources current.sources
      (all_keys (keys baseline.sources) (keys current.sources))
