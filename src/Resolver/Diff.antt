-- ===== src/Resolver/Diff.antt =====
-- `diff_values` of app/policies/resolver.py: what changes between two resolved policies.
pub mod Changes
use tak_mdm.Base.{
  String, Bool, true, false, Option, none, some, List, [], ◌∷◌, ◌++◌, any, if◌then◌else◌,
}
use tak_mdm.Base.Assoc.{get, keys}
use tak_mdm.Base.Text.{text_eq}
use tak_mdm.Json.{Value, null, py_eq}
use tak_mdm.Resolver.Resolve.{sort_texts}

abbrev pub FieldValues : Type 0
FieldValues = List (String × Value)

abbrev pub PolicyValues : Type 0
PolicyValues = List (String × FieldValues)

pub data ChangeKind : Type 0 where
  added : ChangeKind
  removed : ChangeKind
  changed : ChangeKind

pub record FieldChange : Type 0 where
  pub policy_type : String
  pub field_name : String
  pub change : ChangeKind
  pub before : Value
  pub after : Value

-- the elements of a set, each once
unfoldable pub text_set : List String → List String
text_set [] = []
text_set (k ∷ ks) = let rest = text_set ks in if any (λ j. text_eq j k) rest then rest else k ∷ rest

-- `sorted(set(before) | set(after))`
unfoldable pub all_keys : {V : Type 0} → List (String × V) → List (String × V) → List String
unfolding text_set sort_texts
all_keys before after = sort_texts (text_set (keys before ++ keys after))

-- `before.get(policy_type, {})`
unfoldable pub fields_of : String → PolicyValues → FieldValues
fields_of policy_type values = elim (get policy_type values) [ none ↦ [] | some fields ↦ fields ]

-- the body of the inner loop; `none` stands for `_ABSENT`, which equals itself and no value
unfoldable pub field_change : String → String → Option Value → Option Value → Option FieldChange
unfolding py_eq
field_change policy_type field_name none none = none
field_change policy_type field_name none (some new) = some (record {
  policy_type = policy_type;
  field_name = field_name;
  change = added;
  before = null;
  after = new;
})
field_change policy_type field_name (some old) none = some (record {
  policy_type = policy_type;
  field_name = field_name;
  change = removed;
  before = old;
  after = null;
})
field_change policy_type field_name (some old) (some new) =
    if py_eq old new
    then none
    else some (record {
      policy_type = policy_type;
      field_name = field_name;
      change = changed;
      before = old;
      after = new;
    })

unfoldable pub field_changes : String → FieldValues → FieldValues → List String → List FieldChange
unfolding field_change
field_changes policy_type old_fields new_fields [] = []
field_changes policy_type old_fields new_fields (f ∷ fs) =
    let rest = field_changes policy_type old_fields new_fields fs in
    elim (field_change policy_type f (get f old_fields) (get f new_fields)) [
      | none ↦ rest
      | some c ↦ c ∷ rest
    ]

unfoldable pub type_changes : PolicyValues → PolicyValues → List String → List FieldChange
unfolding field_changes fields_of all_keys
type_changes before after [] = []
type_changes before after (t ∷ ts) =
    field_changes t (fields_of t before) (fields_of t after)
      (all_keys (fields_of t before) (fields_of t after))
    ++ type_changes before after ts

unfoldable pub diff_values : PolicyValues → PolicyValues → List FieldChange
unfolding type_changes all_keys
diff_values before after = type_changes before after (all_keys before after)
