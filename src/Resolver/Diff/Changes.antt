-- ===== src/Resolver/Diff/Changes.antt =====
-- Which changes `diff_values` of app/policies/resolver.py lists.
use tak_mdm.Base.{String, Option}
use tak_mdm.Base.Assoc.{get}
use tak_mdm.Json.{Value}
use tak_mdm.Resolver.Diff.{PolicyValues, fields_of}

-- The value of a field.
abbrev pub value_at : PolicyValues → String → String → Option Value
value_at values t f = get f (fields_of t values)
