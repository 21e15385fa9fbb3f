-- ===== src/Resolver/Returns.antt =====
-- When `resolve` of app/policies/resolver.py returns a policy and raises nothing.
use tak_mdm.Base.{
  append-ne-nil, String, true, ◌≡◌, ◌≢◌, refl, sym, ap, ◌∙◌, subst, some, List, [], ◌∷◌, map, any,
  In, inl, inr, Bool-cases,
}
use tak_mdm.Base.Assoc.{get, keys}
use tak_mdm.Base.Membership.{any_of_In}
use tak_mdm.Base.Text.{text_eq, text_eq_refl}
use tak_mdm.Json.{Value}
use tak_mdm.Merge.{Merge, Contribution, MergeOutcome, ok, ◌>>=◌}
use tak_mdm.Merge.Apply.{apply_strategy}
use tak_mdm.Resolver.{AssignmentInput, EffectivePolicy, order_assignments, collect, source_ref}
use tak_mdm.Resolver.Explain.{of_type, group_of-group_by_type, any-sort_texts}
use tak_mdm.Resolver.Resolve.{
  MergeRules, Registry, Groups, TypeResult, Totals, registry_get, add_to_group, group_by_type,
  group_of, sort_texts, resolve_fields, add_field, add_type, resolve_types, resolve,
}

-- Every group holds an assignment.
abbrev AllFilled : Groups → Type 0
AllFilled [] = Unit
AllFilled ((t, l) ∷ g) = (l ≢ []) × AllFilled g

add_to_group-AllFilled :
    (a : AssignmentInput) (g : Groups) → AllFilled g → AllFilled (add_to_group a g)
unfolding add_to_group
add_to_group-AllFilled a [] f = (append-ne-nil [] a, tt)
add_to_group-AllFilled a ((t, l) ∷ g) (n, f) = elim (Bool-cases (text_eq t a.policy.policy_type)) [
  | inl e ↦ rw (e, AllFilled) ((append-ne-nil l a, f))
  | inr e ↦ rw (e, AllFilled) ((n, add_to_group-AllFilled a g f))
]

group_by_type-AllFilled :
    (l : List AssignmentInput) (g : Groups) → AllFilled g → AllFilled (group_by_type l g)
unfolding group_by_type
group_by_type-AllFilled [] g f = f
group_by_type-AllFilled (a ∷ l) g f =
    group_by_type-AllFilled l (add_to_group a g) (add_to_group-AllFilled a g f)

group_of-filled :
    (g : Groups) (t : String)
    → AllFilled g
    → any (λ k. text_eq k t) (keys g) ≡ true
    → group_of t g ≢ []
group_of-filled [] t f h = absurd (cc)
group_of-filled ((s, l) ∷ g) t (n, f) h = elim (Bool-cases (text_eq s t)) [
  | inl e ↦ rw (e, group_of) n
  | inr e ↦ rw (e, group_of) (group_of-filled g t f (rw e at h))
]

module _ (dumps : Value → String) where
  -- What somebody sets can be merged by the rule.
  abbrev pub CanMerge : List AssignmentInput → String → Merge → Type 0
  CanMerge l f rule =
      (c : Contribution) (cs : List Contribution)
      → collect l f ≡ c ∷ cs
      → (o : MergeOutcome) × (apply_strategy dumps (c ∷ cs) rule ≡ ok o)

  -- The type is registered, and every field of it can be merged.
  abbrev pub CanResolve : Registry → String → List AssignmentInput → Type 0
  CanResolve reg t l =
      (rules : MergeRules) × (get t reg ≡ some rules)
      × ((f : String) (rule : Merge) → In (f, rule) rules → CanMerge l f rule)

  resolve_fields-returns :
      (t : String) (l : List AssignmentInput) (rules : MergeRules)
      → ((f : String) (rule : Merge) → In (f, rule) rules → CanMerge l f rule)
      → (r : TypeResult) × (resolve_fields dumps t l rules ≡ ok r)
  unfolding resolve_fields
  resolve_fields-returns t l [] can = (_, refl)
  resolve_fields-returns t l ((f, rule) ∷ rules) can =
      let (rest, e) = resolve_fields-returns t l rules (λ f r i. can f r (inr i)) in
      by_contributions (collect l f) refl rest e
    where
      Step : List Contribution → Type 0
      Step cs =
          (r : TypeResult) × ((elim cs [
            | [] ↦ resolve_fields dumps t l rules
            | c ∷ cs ↦ do
              outcome ← apply_strategy dumps (c ∷ cs) rule
              rest ← resolve_fields dumps t l rules
              ok (add_field t f outcome rest)
          ])
            ≡ ok r)

      by_contributions :
          (cs : List Contribution)
          → collect l f ≡ cs
          → (rest : TypeResult) → resolve_fields dumps t l rules ≡ ok rest
          → Step cs
      by_contributions [] h rest e = (rest, e)
      by_contributions (c ∷ cs) h rest e =
          let (o, a) = can f rule (inl refl) c cs h in (add_field t f o rest, rw (a, e) refl)

  registry_get-found :
      (t : String) (reg : Registry) (rules : MergeRules)
      → get t reg ≡ some rules
      → registry_get t reg ≡ ok rules
  unfolding registry_get
  registry_get-found t reg rules h = rw (h, registry_get) refl

  resolve_types-returns :
      (reg : Registry) (g : Groups) (ts : List String)
      → ((t : String) → In t ts → CanResolve reg t (group_of t g))
      → (tot : Totals) × (resolve_types dumps reg g ts ≡ ok tot)
  unfolding resolve_types
  resolve_types-returns reg g [] can = (_, refl)
  resolve_types-returns reg g (t ∷ ts) can =
      let (rules, found, fields) = can t (inl refl) in
      let (r, e) = resolve_fields-returns t (group_of t g) rules fields in
      let (rest, h) = resolve_types-returns reg g ts (λ s i. can s (inr i)) in
      (
        add_type t r rest,
        ap
              (λ m. m >>= λ rules. resolve_fields dumps t (group_of t g) rules >>= λ r.
                resolve_types dumps reg g ts >>= λ rest. ok (add_type t r rest))
              (registry_get-found t reg rules found)
            ∙ ap (λ m. m >>= λ r. resolve_types dumps reg g ts >>= λ rest. ok (add_type t r rest)) e
            ∙ ap (λ m. m >>= λ rest. ok (add_type t r rest)) h,
      )

  -- `resolve` returns a policy for the device, if every type that is assigned to it is registered
  -- and the values that its assignments set can be merged by the rules of their fields.
  pub resolve-returns :
      (reg : Registry) (device_id : String) (l : List AssignmentInput)
      → ((t : String)
          → of_type t (order_assignments l) ≢ []
          → CanResolve reg t (of_type t (order_assignments l)))
      → (e : EffectivePolicy) × (resolve dumps reg device_id l ≡ ok e) × (e.device_id ≡ device_id)
  unfolding resolve
  resolve-returns reg device_id l can =
      let g = group_by_type (order_assignments l) [] in
      let (tot, e) = resolve_types-returns reg g (sort_texts (keys g)) known in
      (policy tot, ap (λ m. m >>= λ t. ok (policy t)) e, refl)
    where
      policy : Totals → EffectivePolicy
      policy tot = record {
        device_id = device_id;
        values = tot.values;
        provenance = tot.provenance;
        conflicts = tot.conflicts;
        considered = map source_ref (order_assignments l);
      }

      known :
          (t : String)
          → In t (sort_texts (keys (group_by_type (order_assignments l) [])))
          → CanResolve reg t (group_of t (group_by_type (order_assignments l) []))
      known t i =
          let g = group_by_type (order_assignments l) [] in
          let here = any_of_In (λ k. text_eq k t) (sort_texts (keys g)) t i (text_eq_refl t) in
          let filled =
            group_of-filled g t (group_by_type-AllFilled (order_assignments l) [] tt)
              (sym (any-sort_texts (λ k. text_eq k t) (keys g)) ∙ here) in
          let same = group_of-group_by_type (order_assignments l) [] t in
          subst (CanResolve reg t) (sym same) (can t (subst (λ k. k ≢ []) same filled))
