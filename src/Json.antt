-- ===== src/Json.antt =====
-- The values of a stored policy spec, as Python holds them after `json.loads`, with the
-- comparisons of Python that the merge strategies call: `==`, `<`, `hash`.
-- Fractional numbers are not modelled: every number that a strategy compares is an `int` or a
-- `bool`. A `dict` is kept in the order of its keys, which neither `==` nor the sorted dump sees.
use tak_mdm.Base.{String, Bool, true, false, Option, none, some, List, [], ◌∷◌, if◌then◌else◌, any}
use tak_mdm.Base.Int.{ℤ, pos, ltb_ℤ, ℤ_discrete}
use tak_mdm.Base.Text.{text_eq, text_lt, String_discrete}
use mathlib.Core.Bool.{decide}
pub mod Equality

mutual
  pub data Value : Type 0 where
    null : Value
    bool : Bool → Value
    num : ℤ → Value
    str : String → Value
    arr : Items → Value
    obj : Fields → Value

  -- The entries in the order of their keys, each key once.
  pub data Fields : Type 0 where
    end : Fields
    field : String → Value → Fields → Fields

  pub data Items : Type 0 where
    nil : Items
    cons : Value → Items → Items

pub Value-discrete : Discrete Value
Value-discrete = hlevel (ℤ_discrete, String_discrete)

abbrev pub list_of : Items → List Value
list_of nil = []
list_of (cons v vs) = v ∷ list_of vs

abbrev pub items_of : List Value → Items
items_of [] = nil
items_of (v ∷ vs) = cons v (items_of vs)

-- `d.get(k)`, which tells a missing key from an explicit `None`
abbrev pub lookup_field : String → Fields → Option Value
lookup_field k end = none
lookup_field k (field j v fs) = if text_eq j k then some v else lookup_field k fs

-- `True == 1` and `False == 0`: a flag is the number that it is compared and hashed as.
unfoldable mutual
  pub plain : Value → Value
  plain null = null
  plain (bool true) = num (pos 1)
  plain (bool false) = num (pos 0)
  plain (num n) = num n
  plain (str s) = str s
  plain (arr vs) = arr (plain_items vs)
  plain (obj fs) = obj (plain_fields fs)

  pub plain_items : Items → Items
  plain_items nil = nil
  plain_items (cons v vs) = cons (plain v) (plain_items vs)

  pub plain_fields : Fields → Fields
  plain_fields end = end
  plain_fields (field k v fs) = field k (plain v) (plain_fields fs)

-- `a == b`
unfoldable pub py_eq : Value → Value → Bool
unfolding plain Value-discrete
py_eq a b = decide (Value-discrete (plain a) (plain b))

-- `a < b` where no flag is left; `none` is a `TypeError`.
unfoldable mutual
  pub plain_lt : Value → Value → Option Bool
  plain_lt (num a) (num b) = some (ltb_ℤ a b)
  plain_lt (str s) (str t) = some (text_lt s t)
  plain_lt (arr vs) (arr ws) = plain_lt_items vs ws
  plain_lt _ _ = none

  -- lists are ordered at the first place where they differ
  pub plain_lt_items : Items → Items → Option Bool
  plain_lt_items nil nil = some false
  plain_lt_items nil (cons w ws) = some true
  plain_lt_items (cons v vs) nil = some false
  plain_lt_items (cons v vs) (cons w ws) =
      let rest = plain_lt_items vs ws in let here = plain_lt v w in if py_eq v w then rest else here

-- `a < b`
unfoldable pub py_lt : Value → Value → Option Bool
unfolding plain plain_lt
py_lt a b = plain_lt (plain a) (plain b)

-- `isinstance(v, Hashable)`
unfoldable pub is_hashable : Value → Bool
is_hashable (arr vs) = false
is_hashable (obj fs) = false
is_hashable _ = true

-- `v in s`
unfoldable pub member : Value → List Value → Bool
unfolding py_eq
member v = any (py_eq v)
