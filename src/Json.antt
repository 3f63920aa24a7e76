-- ===== src/Json.antt =====
-- The values that `json` reads, with Python's truth test and equality. Floating-point numbers are left out.
use k8s_check.Prelude.{
  ℕ, String, Bool, true, false, ◌&&◌, ◌||◌, Option, none, some, List, [], ◌∷◌, ◌==◌, string_eq,
  nat_eq, bool_eq, if◌then◌else◌, eqb,
}

-- `negsuc n` is -(n + 1).
mutual
  pub data Value : Type 0 where
    null : Value
    bool : Bool → Value
    pos : ℕ → Value
    negsuc : ℕ → Value
    str : String → Value
    arr : Items → Value
    obj : Fields → Value

  pub data Fields : Type 0 where
    end : Fields
    field : String → Value → Fields → Fields

  pub data Items : Type 0 where
    nil : Items
    cons : Value → Items → Items

-- `value.get(key)` on the fields of an object, and its keys.
unfoldable pub get : String → Fields → Option Value
get k end = none
get k (field j v fs) = if k == j then some v else get k fs

unfoldable pub has : String → Fields → Bool
has k end = false
has k (field j v fs) = k == j || has k fs

unfoldable pub field_names : Fields → List String
field_names end = []
field_names (field j v fs) = j ∷ field_names fs

-- Every key of the first is a key of the second.
unfoldable pub sub_keys : Fields → Fields → Bool
sub_keys end gs = true
sub_keys (field k v fs) gs = has k gs && sub_keys fs gs

-- `True == 1` and `False == 0` in Python.
abbrev bool_is : Bool → ℕ → Bool
bool_is b n = if b then eqb n 1 else eqb n 0

-- A test of the value under a key, false without one.
abbrev pub at_value : (Value → Bool) → Option Value → Bool
at_value p none = false
at_value p (some w) = p w

-- `a == b`. Two objects are equal if they have the same keys with equal values, in any order.
unfoldable mutual
  pub py_eq : Value → Value → Bool
  py_eq null null = true
  py_eq (bool a) (bool b) = a == b
  py_eq (bool a) (pos n) = bool_is a n
  py_eq (pos n) (bool a) = bool_is a n
  py_eq (pos n) (pos m) = eqb n m
  py_eq (negsuc n) (negsuc m) = eqb n m
  py_eq (str s) (str t) = s == t
  py_eq (arr xs) (arr ys) = items_eq xs ys
  py_eq (obj fs) (obj gs) = fields_eq fs gs && sub_keys gs fs
  py_eq _ _ = false

  pub items_eq : Items → Items → Bool
  items_eq nil nil = true
  items_eq (cons x xs) (cons y ys) = py_eq x y && items_eq xs ys
  items_eq _ _ = false

  -- Every field of the first has an equal one in the second.
  pub fields_eq : Fields → Fields → Bool
  fields_eq end gs = true
  fields_eq (field k v fs) gs = at_value (py_eq v) (get k gs) && fields_eq fs gs
