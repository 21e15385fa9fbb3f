-- ===== src/Tests/Resolving.antt =====
-- The theorems on app/policies/resolver.py, at concrete assignments.
use mathlib.Core.List.{Permᴰ}
use tak_mdm.Base.{
  List, String, Bool, true, false, ◌≡◌, ◌≢◌, subst, Bool-cases, refl, none, [], ◌∷◌, inl, inr, sym,
  ap, ◌∙◌,
}
use tak_mdm.Base.Int.{pos}
use tak_mdm.Base.Text.{text_eq, text_eq_iff}
use tak_mdm.Json.{Value, bool, end, field}
use tak_mdm.Merge.Flags.{flags_outcome, merge_most_restrictive, is_bool}
use tak_mdm.Merge.{Merge, MergeStrategy, MergeOutcome, ok}
use tak_mdm.Merge.Apply.{apply_strategy, strategy_function}
use tak_mdm.Resolver.{
  PolicySnapshot, AssignmentInput, EffectivePolicy, order_assignments, source_ref, collect,
}
use tak_mdm.Resolver.Order.{UniqueIds}
use tak_mdm.Resolver.Explain.{explain, value_of, of_type}
use tak_mdm.Resolver.Explained.{expected, option_map, resolve-explain, resolve-perm}
use tak_mdm.Resolver.Returns.{CanMerge, CanResolve, resolve-returns}
use tak_mdm.Resolver.Resolve.{
  Registry, resolve, resolve_fields, resolve_types, registry_get, group_by_type, sort_texts,
  add_field, add_type,
}

abbrev dumps : Value → String
dumps v = ""

abbrev camera : String → Bool → PolicySnapshot
camera name allowed = record {
  policy_id = name;
  policy_name = name;
  policy_type = "restrictions";
  version = 1;
  spec = field "camera" (bool allowed) end;
}

abbrev fleet : AssignmentInput
fleet = record { assignment_id = "a"; scope = "group"; rank = pos 10; policy = camera "fleet" true }

abbrev tablet : AssignmentInput
tablet = record {
  assignment_id = "b";
  scope = "device";
  rank = pos 10;
  policy = camera "tablet" false;
}

abbrev camera_rule : Merge
camera_rule = record {
  strategy = MergeStrategy.most_restrictive;
  key = none;
  note = none;
  identity = none;
}

abbrev registry : Registry
registry = ("restrictions", ("camera", camera_rule) ∷ []) ∷ []

abbrev id_of : AssignmentInput → String
id_of a = a.assignment_id

ids_apart : fleet.assignment_id ≡ tablet.assignment_id → ⊥
ids_apart h = no_truth ((text_eq_iff "a" "b").1 h)
  where
    no_truth : false ≡ true → ⊥
    no_truth h = cc

two_ids : UniqueIds (fleet ∷ tablet ∷ [])
two_ids a b (inl p) (inl q) e = p ∙ sym q
two_ids a b (inl p) (inr (inl q)) e = absurd (ids_apart (sym (ap id_of p) ∙ e ∙ ap id_of q))
two_ids a b (inr (inl p)) (inl q) e = absurd (ids_apart (sym (ap id_of q) ∙ sym e ∙ ap id_of p))
two_ids a b (inr (inl p)) (inr (inl q)) e = p ∙ sym q
two_ids a b (inl p) (inr (inr j)) e = absurd j
two_ids a b (inr (inl p)) (inr (inr j)) e = absurd j
two_ids a b (inr (inr i)) _ e = absurd i

swapped : Permᴰ (fleet ∷ tablet ∷ []) (tablet ∷ fleet ∷ [])
swapped = Permᴰ.swap refl refl

resolve-perm_example :
    resolve dumps registry "device" (fleet ∷ tablet ∷ [])
    ≡ resolve dumps registry "device" (tablet ∷ fleet ∷ [])
resolve-perm_example =
    resolve-perm dumps registry "device" (fleet ∷ tablet ∷ []) (tablet ∷ fleet ∷ []) two_ids swapped

abbrev camera_outcome : MergeOutcome
camera_outcome =
    flags_outcome (record { value = bool false; source = source_ref tablet })
      (record { value = bool true; source = source_ref fleet } ∷ [])

abbrev resolved : EffectivePolicy
resolved = record {
  device_id = "device";
  values = ("restrictions", ("camera", camera_outcome.value) ∷ []) ∷ [];
  provenance = ("restrictions", ("camera", camera_outcome) ∷ []) ∷ [];
  conflicts = [];
  considered = source_ref tablet ∷ source_ref fleet ∷ [];
}

resolve-explain_example :
    (explain resolved "restrictions" "camera"
      ≡ expected dumps registry
          (of_type "restrictions" (order_assignments (fleet ∷ tablet ∷ [])))
          "restrictions"
          "camera")
    × (value_of resolved "restrictions" "camera"
        ≡ option_map (λ o. o.value) (explain resolved "restrictions" "camera"))
unfolding resolve resolve_types resolve_fields registry_get order_assignments group_by_type
    sort_texts add_type add_field collect apply_strategy strategy_function merge_most_restrictive
    is_bool flags_outcome
resolve-explain_example =
    resolve-explain dumps registry "device" (fleet ∷ tablet ∷ []) resolved refl "restrictions"
      "camera"

abbrev ordered : List AssignmentInput
ordered = tablet ∷ fleet ∷ []

camera_merges : CanMerge dumps ordered "camera" camera_rule
unfolding collect apply_strategy strategy_function merge_most_restrictive is_bool flags_outcome
camera_merges c cs h =
    subst (λ k. (o : MergeOutcome) × (apply_strategy dumps k camera_rule ≡ ok o)) h
      (camera_outcome, refl)

restrictions_resolve : CanResolve dumps registry "restrictions" ordered
restrictions_resolve = (
  ("camera", camera_rule) ∷ [],
  refl,
  λ f rule i. elim i [
    | inl p ↦ subst (λ x. CanMerge dumps ordered x.0 x.1) (sym p) camera_merges
    | inr j ↦ absurd j
  ],
)

others_unset : (t : String) → text_eq t "restrictions" ≡ false → of_type t ordered ≡ []
others_unset t h = rw h refl

fleet_resolves :
    (t : String) → of_type t ordered ≢ [] → CanResolve dumps registry t (of_type t ordered)
fleet_resolves t n = elim (Bool-cases (text_eq t "restrictions")) [
  | inl e ↦
      subst (λ s. CanResolve dumps registry s (of_type s ordered))
        (sym ((text_eq_iff t "restrictions").0 e)) restrictions_resolve
  | inr e ↦ absurd (n (others_unset t e))
]

resolve-returns_example :
    (e : EffectivePolicy) × (resolve dumps registry "device" (fleet ∷ tablet ∷ []) ≡ ok e)
    × (e.device_id ≡ "device")
unfolding order_assignments
resolve-returns_example =
    resolve-returns dumps registry "device" (fleet ∷ tablet ∷ []) fleet_resolves
