-- ===== src/Audit/Diff.antt =====
-- app/services/audit_diff.py: what the audit log says of a changed spec. `Printing` holds what the code
-- calls: the search of a name for `_SECRETISH`, and `str` of a number.
use Prim.Native.String.{◌++◌ as glue}
use tak_mdm.Base.{
  ℕ, ◌-◌, String, Bool, true, false, Option, none, some, List, [], ◌∷◌, ◌++◌, take, length,
  if◌then◌else◌, ltb,
}
use tak_mdm.Base.Int.{ℤ}
use tak_mdm.Base.Text.{join_with, sorted_set}
use tak_mdm.Json.{Value, Fields, null, bool, num, str, arr, obj, end, field, lookup_field, py_eq}

pub record Printing : Type 0 where
  pub secretish : String → Bool
  pub print : ℤ → String
  pub print_count : ℕ → String

abbrev pub keys_of : Fields → List String
keys_of end = []
keys_of (field k v fs) = k ∷ keys_of fs

-- `before is None`
unfoldable pub is_null : Value → Bool
is_null null = true
is_null _ = false

-- `before == after` of two lookups, where `_MISSING` equals itself only
unfoldable pub unchanged : Option Value → Option Value → Bool
unfolding py_eq
unchanged none none = true
unchanged none (some w) = false
unchanged (some v) none = false
unchanged (some v) (some w) = py_eq v w

-- the text of `_arrow`, from the value shown after, whether `before` is `None`, and the value shown before
unfoldable pub arrow_text : Option String → Bool → Option String → String
arrow_text none before_is_none shown_before = ""
arrow_text (some a) true shown_before = glue ": " a
arrow_text (some a) false none = ""
arrow_text (some a) false (some b) = glue ": " (glue b (glue " → " a))

module _ (lib : Printing) where
  -- `_shown`
  unfoldable pub shown : String → Value → Option String
  shown name null = none
  shown name (bool b) = some (if b then "on" else "off")
  shown name (num n) = if lib.secretish name then none else some (lib.print n)
  shown name (str s) = none
  shown name (arr vs) = none
  shown name (obj fs) = none

  -- `_arrow`
  unfoldable pub arrow : String → Value → Value → String
  unfolding shown is_null arrow_text
  arrow name before after = arrow_text (shown name after) (is_null before) (shown name before)

  -- one round of the loop of `field_changes`
  unfoldable pub phrase : String → Option Value → Option Value → List String
  unfolding arrow
  phrase name none none = []
  phrase name none (some after) = glue name (glue " set" (arrow name null after)) ∷ []
  phrase name (some before) none = glue name " cleared" ∷ []
  phrase name (some before) (some after) =
      glue name (glue " changed" (arrow name before after)) ∷ []

  unfoldable pub phrases : List String → Fields → Fields → List String
  unfolding phrase unchanged
  phrases [] old new = []
  phrases (name ∷ names) old new =
      let before = lookup_field name old in
      let after = lookup_field name new in
      (if unchanged before after then [] else phrase name before after) ++ phrases names old new

  unfoldable pub field_changes : Fields → Fields → List String
  unfolding phrases keys_of
  field_changes old new = phrases (sorted_set (keys_of old ++ keys_of new)) old new

  -- the line of `summarize` for these phrases
  unfoldable pub summary_line : ℕ → List String → String
  summary_line limit [] = "no setting changed"
  summary_line limit (p ∷ ps) = glue (join_with "; " (take limit (p ∷ ps))) (
      if ltb limit (length (p ∷ ps))
      then glue "; and " (glue (lib.print_count (length (p ∷ ps) - limit)) " more")
      else "")

  unfoldable pub summarize : ℕ → Fields → Fields → String
  unfolding field_changes summary_line
  summarize limit old new = summary_line limit (field_changes old new)
