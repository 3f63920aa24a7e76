-- ===== src/Config/Known.antt =====
-- `_merge_known` of src/kdiag/config.py keeps the shape of the defaults.
use k8s_check.Prelude.{
  ◌<>◌, arith, String, false, Option, none, some, ◌≡◌, refl, sym, ap, inl, inr, ◌==◌, string_eq,
  if◌then◌else◌, Bool-cases, Result, error, ok, and_then-ok, ok-injective, Option-cases,
}
use k8s_check.Json.{Value, null, bool, pos, negsuc, str, arr, obj, Fields, end, field, get}
use k8s_check.Config.Merge.{is_obj, put, merge_value, merge_known, key_path}

-- The first fields have the keys of the second in the same order, and where the second has an object, the first
-- has one of the same shape.
mutual
  pub data SameShape : Fields → Fields → Type 0 where
    no_fields : SameShape end end
    both :
        (k : String) {v w : Value} {fs gs : Fields}
        → SameKind v w
        → SameShape fs gs
        → SameShape (field k v fs) (field k w gs)

  pub data SameKind : Value → Value → Type 0 where
    section : {fs gs : Fields} → SameShape fs gs → SameKind (obj fs) (obj gs)
    plain : (v w : Value) → is_obj w ≡ false → SameKind v w

mutual
  shape_refl : (fs : Fields) → SameShape fs fs
  shape_refl end = no_fields
  shape_refl (field k v fs) = both k (kind_refl v) (shape_refl fs)

  kind_refl : (v : Value) → SameKind v v
  kind_refl (obj fs) = section (shape_refl fs)
  kind_refl null = plain null null refl
  kind_refl (bool b) = plain (bool b) (bool b) refl
  kind_refl (pos n) = plain (pos n) (pos n) refl
  kind_refl (negsuc n) = plain (negsuc n) (negsuc n) refl
  kind_refl (str s) = plain (str s) (str s) refl
  kind_refl (arr xs) = plain (arr xs) (arr xs) refl

mutual
  shape_trans : {fs gs hs : Fields} → SameShape fs gs → SameShape gs hs → SameShape fs hs
  shape_trans no_fields no_fields = no_fields
  shape_trans (both k s t) (both _ s' t') = both k (kind_trans s s') (shape_trans t t')

  kind_trans : {u v w : Value} → SameKind u v → SameKind v w → SameKind u w
  kind_trans {u} s (plain _ w h) = plain u w h
  kind_trans (section s) (section t) = section (shape_trans s t)
  kind_trans (plain _ _ h) (section t) = absurd (ground (arith, h))

option_value : Value → Option Value → Value
option_value v none = v
option_value v (some w) = w

some-injective : (v w : Value) → some v ≡ some w → v ≡ w
unfolding option_value
some-injective v w h = ap (option_value v) h

put-SameShape :
    (k : String) (v old : Value) (fs : Fields)
    → get k fs ≡ some old
    → SameKind v old
    → SameShape (put k v fs) fs
unfolding put get
put-SameShape k v old end h s = cc
put-SameShape k v old (field j w fs) h s = elim (Bool-cases (k == j)) [
  | inl same ↦ rw same (both j (rw (some-injective w old (rw same at h)) s) (shape_refl fs))
  | inr other ↦ rw other (both j (kind_refl w) (put-SameShape k v old fs (rw other at h) s))
]

not-ok : {A : Type 0} {m : String} {a : A} → ◌≡◌ {A = Result A} (error m) (ok a) → ⊥
not-ok h = cc

plain-SameKind :
    (v old : Value) (path : String) (r : Value)
    → (if is_obj old then error ("configuration section must be an object: " <> path) else ok v)
      ≡ ok r
    → SameKind r old
plain-SameKind v old path r h = elim (Bool-cases (is_obj old)) [
  | inl section' ↦ absurd (not-ok (rw section' at h))
  | inr free ↦ plain r old free
]

mutual
  unfolding merge_value merge_known

  merge_value-SameKind :
      (v old : Value) (path : String) (r : Value) → merge_value v old path ≡ ok r → SameKind r old
  merge_value-SameKind (obj os) (obj ts) path r h =
      let m = and_then-ok _ _ r h in
      rw (sym (ok-injective _ r m.2)) (section (merge_known-SameShape os ts path m.0 m.1))
  merge_value-SameKind null old path r h = plain-SameKind null old path r h
  merge_value-SameKind (bool b) old path r h = plain-SameKind (bool b) old path r h
  merge_value-SameKind (pos n) old path r h = plain-SameKind (pos n) old path r h
  merge_value-SameKind (negsuc n) old path r h = plain-SameKind (negsuc n) old path r h
  merge_value-SameKind (str s) old path r h = plain-SameKind (str s) old path r h
  merge_value-SameKind (arr xs) old path r h = plain-SameKind (arr xs) old path r h
  merge_value-SameKind (obj os) null path r h = plain-SameKind (obj os) null path r h
  merge_value-SameKind (obj os) (bool b) path r h = plain-SameKind (obj os) (bool b) path r h
  merge_value-SameKind (obj os) (pos n) path r h = plain-SameKind (obj os) (pos n) path r h
  merge_value-SameKind (obj os) (negsuc n) path r h = plain-SameKind (obj os) (negsuc n) path r h
  merge_value-SameKind (obj os) (str s) path r h = plain-SameKind (obj os) (str s) path r h
  merge_value-SameKind (obj os) (arr xs) path r h = plain-SameKind (obj os) (arr xs) path r h

  merge_known-SameShape :
      (os ts : Fields) (path : String) (r : Fields) → merge_known os ts path ≡ ok r → SameShape r ts
  merge_known-SameShape end ts path r h = rw (sym (ok-injective _ r h)) (shape_refl ts)
  merge_known-SameShape (field k v os) ts path r h = elim (Option-cases (get k ts)) [
    | inl missing ↦ let m = and_then-ok _ _ r (rw missing at h) in absurd (not-ok m.1)
    | inr (old, there) ↦
        let m = and_then-ok _ _ r (rw there at h) in
        shape_trans (merge_known-SameShape os (put k m.0 ts) path r m.2)
          (put-SameShape k m.0 old ts there (merge_value-SameKind v old (key_path path k) m.0 m.1))
  ]

-- A configuration that is merged from defaults and a document has exactly the keys of the defaults, in every section
-- too, and its sections are still sections.
pub merge_known_shape :
    (override defaults merged : Fields)
    → merge_known override defaults "" ≡ ok merged
    → SameShape merged defaults
merge_known_shape override defaults merged h = merge_known-SameShape override defaults "" merged h
