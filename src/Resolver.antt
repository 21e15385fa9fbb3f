-- ===== src/Resolver.antt =====
-- app/policies/resolver.py: assignments, their order of precedence, and the resolved policy.
-- `resolve` stands in the child `Resolve`, `diff_values` in `Diff`.
pub mod Order
pub mod Resolve
pub mod Sorted
pub mod Explain
pub mod Explained
pub mod Returns
pub mod Diff
use tak_mdm.Base.{
  ℕ, String, Bool, true, false, Option, none, some, List, [], ◌∷◌, if◌then◌else◌, ltb, ◌==◌,
}
use tak_mdm.Base.Int.{ℤ, ltb_ℤ, eqb_ℤ}
use tak_mdm.Base.Text.{text_eq, text_lt}
use tak_mdm.Json.{Value, Fields, null, lookup_field}
use tak_mdm.Merge.{SourceRef, Contribution, MergeOutcome, MergeStrategy}

pub record PolicySnapshot : Type 0 where
  pub policy_id : String
  pub policy_name : String
  pub policy_type : String
  pub version : ℕ
  pub spec : Fields

pub record AssignmentInput : Type 0 where
  pub assignment_id : String
  pub scope : String
  pub rank : ℤ
  pub policy : PolicySnapshot

unfoldable pub source_ref : AssignmentInput → SourceRef
source_ref a = record {
  assignment_id = a.assignment_id;
  policy_id = a.policy.policy_id;
  policy_name = a.policy.policy_name;
  policy_version = a.policy.version;
  scope = a.scope;
  rank = a.rank;
}

-- `_SCOPE_SPECIFICITY.get(scope, 0)`
unfoldable pub specificity : String → ℕ
specificity scope = if text_eq scope "device" then 2 else if text_eq scope "group" then 1 else 0

-- the order of the keys `(-rank, -specificity, assignment_id)`
unfoldable pub precedes : AssignmentInput → AssignmentInput → Bool
unfolding specificity text_lt
precedes a b =
    if eqb_ℤ a.rank b.rank
    then if specificity a.scope == specificity b.scope
      then text_lt a.assignment_id b.assignment_id
      else ltb (specificity b.scope) (specificity a.scope)
    else ltb_ℤ b.rank a.rank

-- `sorted` is stable: an item goes behind those that precede it, and before its equals, which
-- came later.
unfoldable pub place : AssignmentInput → List AssignmentInput → List AssignmentInput
unfolding precedes
place a [] = a ∷ []
place a (b ∷ l) = if precedes b a then b ∷ place a l else a ∷ b ∷ l

unfoldable pub order_assignments : List AssignmentInput → List AssignmentInput
unfolding place
order_assignments [] = []
order_assignments (a ∷ l) = place a (order_assignments l)

-- `_collect`: a missing key and an explicit `None` contribute nothing.
unfoldable pub collect : List AssignmentInput → String → List Contribution
unfolding source_ref
collect [] field_name = []
collect (a ∷ l) field_name =
    let rest = collect l field_name in
    elim (lookup_field field_name a.policy.spec) [
      | none ↦ rest
      | some null ↦ rest
      | some value ↦ record { value = value; source = source_ref a } ∷ rest
    ]

pub record Conflict : Type 0 where
  pub policy_type : String
  pub field_name : String
  pub strategy : MergeStrategy
  pub winning_value : Value
  pub winning_source : Option SourceRef
  pub discarded : List (Value × SourceRef)

-- `_record_conflict`
unfoldable pub record_conflict : String → String → MergeOutcome → Conflict
record_conflict policy_type field_name outcome = record {
  policy_type = policy_type;
  field_name = field_name;
  strategy = outcome.strategy;
  winning_value = outcome.value;
  winning_source = outcome.winner;
  discarded = outcome.overridden;
}

pub record EffectivePolicy : Type 0 where
  pub device_id : String
  pub values : List (String × List (String × Value))
  pub provenance : List (String × List (String × MergeOutcome))
  pub conflicts : List Conflict
  pub considered : List SourceRef
