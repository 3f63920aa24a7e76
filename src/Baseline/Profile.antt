-- ===== src/Baseline/Profile.antt =====
-- The profile documents of src/kdiag/baseline.py.
use k8s_check.Prelude.{String, Bool, Option, List}
use k8s_check.Dict.{Dict}
use k8s_check.Json.{Value}

-- An object as `_profile_object` builds it.
pub record Item : Type 0 where
  pub key : String
  pub kind : String
  pub name : String
  pub sha256 : String
  pub value : Value

-- A source as `_source` builds it. The status is `none` where the document has none.
pub record Source : Type 0 where
  pub status : Option String
  pub required : Bool
  pub objects : List Item

pub record Quality : Type 0 where
  pub active_critical_findings : List String
  pub material_gaps : List String

pub record Profile : Type 0 where
  pub sources : Dict String Source
  pub quality : Quality
