-- ===== src/Resolver/Resolve.antt =====
-- `resolve` of app/policies/resolver.py, and the `get` of the registry in app/policies/registry.py
-- that it calls. `dumps` stands for `json.dumps`, as in the union of lists.
use tak_mdm.Base.{String, none, some, List, [], ◌∷◌, ◌++◌, map, if◌then◌else◌}
use tak_mdm.Base.Assoc.{get, keys}
use tak_mdm.Base.Text.{text_eq, text_lt}
use tak_mdm.Json.{Value}
use tak_mdm.Merge.{Merge, MergeOutcome, Result, ok, err, unknown_policy_type, ◌>>=◌}
use tak_mdm.Merge.Apply.{apply_strategy}
use tak_mdm.Resolver.{
  AssignmentInput, Conflict, EffectivePolicy, order_assignments, collect, record_conflict,
  source_ref,
}

abbrev pub MergeRules : Type 0
MergeRules = List (String × Merge)

-- The registered types with the merge rules of their definitions.
abbrev pub Registry : Type 0
Registry = List (String × MergeRules)

-- `reg.get(name)`, of which only `.merge_rules` is read
unfoldable pub registry_get : String → Registry → Result MergeRules
registry_get name reg = elim (get name reg) [
  | none ↦ err unknown_policy_type
  | some rules ↦ ok rules
]

abbrev pub Groups : Type 0
Groups = List (String × List AssignmentInput)

-- `by_type.setdefault(a.policy.policy_type, []).append(a)`
unfoldable pub add_to_group : AssignmentInput → Groups → Groups
add_to_group a [] = (a.policy.policy_type, a ∷ []) ∷ []
add_to_group a ((t, l) ∷ g) =
    if text_eq t a.policy.policy_type then (t, l ++ a ∷ []) ∷ g else (t, l) ∷ add_to_group a g

unfoldable pub group_by_type : List AssignmentInput → Groups → Groups
unfolding add_to_group
group_by_type [] g = g
group_by_type (a ∷ l) g = group_by_type l (add_to_group a g)

-- `sorted` on texts
unfoldable pub place_text : String → List String → List String
unfolding text_lt
place_text k [] = k ∷ []
place_text k (j ∷ l) = if text_lt j k then j ∷ place_text k l else k ∷ j ∷ l

unfoldable pub sort_texts : List String → List String
unfolding place_text
sort_texts [] = []
sort_texts (k ∷ l) = place_text k (sort_texts l)

-- What the inner loop gathers for one type: values and provenance come from the outcomes.
pub record TypeResult : Type 0 where
  pub values : List (String × Value)
  pub provenance : List (String × MergeOutcome)
  pub conflicts : List Conflict

abbrev pub no_fields : TypeResult
no_fields = record { values = []; provenance = []; conflicts = [] }

unfoldable pub add_field : String → String → MergeOutcome → TypeResult → TypeResult
unfolding record_conflict
add_field policy_type field_name outcome r = record {
  values = (field_name, outcome.value) ∷ r.values;
  provenance = (field_name, outcome) ∷ r.provenance;
  conflicts =
      if outcome.conflict
      then record_conflict policy_type field_name outcome ∷ r.conflicts
      else r.conflicts;
}

-- What the outer loop gathers.
pub record Totals : Type 0 where
  pub values : List (String × List (String × Value))
  pub provenance : List (String × List (String × MergeOutcome))
  pub conflicts : List Conflict

abbrev pub no_types : Totals
no_types = record { values = []; provenance = []; conflicts = [] }

-- `if type_values:` keeps a type without any field out of the maps.
unfoldable pub add_type : String → TypeResult → Totals → Totals
add_type policy_type r rest = record {
  values = elim r.values [ [] ↦ rest.values | v ∷ vs ↦ (policy_type, v ∷ vs) ∷ rest.values ];
  provenance = elim r.values [
    | [] ↦ rest.provenance
    | v ∷ vs ↦ (policy_type, r.provenance) ∷ rest.provenance
  ];
  conflicts = r.conflicts ++ rest.conflicts;
}

abbrev pub group_of : String → Groups → List AssignmentInput
group_of policy_type g = elim (get policy_type g) [ none ↦ [] | some l ↦ l ]

module _ (dumps : Value → String) where
  -- the inner loop, over the merge rules
  unfoldable pub resolve_fields : String → List AssignmentInput → MergeRules → Result TypeResult
  unfolding collect apply_strategy add_field
  resolve_fields policy_type l [] = ok no_fields
  resolve_fields policy_type l ((field_name, rule) ∷ rules) = elim (collect l field_name) [
    | [] ↦ resolve_fields policy_type l rules
    | c ∷ cs ↦ do
      outcome ← apply_strategy dumps (c ∷ cs) rule
      rest ← resolve_fields policy_type l rules
      ok (add_field policy_type field_name outcome rest)
  ]

  -- the outer loop, over the types
  unfoldable pub resolve_types : Registry → Groups → List String → Result Totals
  unfolding registry_get resolve_fields add_type
  resolve_types reg g [] = ok no_types
  resolve_types reg g (policy_type ∷ types) = do
    rules ← registry_get policy_type reg
    r ← resolve_fields policy_type (group_of policy_type g) rules
    rest ← resolve_types reg g types
    ok (add_type policy_type r rest)

  unfoldable pub resolve : Registry → String → List AssignmentInput → Result EffectivePolicy
  unfolding order_assignments group_by_type sort_texts resolve_types source_ref
  resolve reg device_id assignments =
      let ordered = order_assignments assignments in
      let by_type = group_by_type ordered [] in
      do
        totals ← resolve_types reg by_type (sort_texts (keys by_type))
        ok (record {
          device_id = device_id;
          values = totals.values;
          provenance = totals.provenance;
          conflicts = totals.conflicts;
          considered = map source_ref ordered;
        })
