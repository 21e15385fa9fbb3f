-- ===== src/Tests/Comparing.antt =====
-- The theorem on `diff_values` of app/policies/resolver.py, at two concrete policies.
use tak_mdm.Base.{true, false, [], ◌∷◌}
use tak_mdm.Json.{bool}
use tak_mdm.Resolver.Diff.{PolicyValues, FieldChange, ChangeKind}

abbrev camera_on : PolicyValues
camera_on = ("restrictions", ("camera", bool true) ∷ []) ∷ []

abbrev camera_off : PolicyValues
camera_off = ("restrictions", ("camera", bool false) ∷ []) ∷ []

abbrev switched_off : FieldChange
switched_off = record {
  policy_type = "restrictions";
  field_name = "camera";
  change = ChangeKind.changed;
  before = bool true;
  after = bool false;
}
