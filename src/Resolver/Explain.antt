-- ===== src/Resolver/Explain.antt =====
-- Why a field of the resolved policy of app/policies/resolver.py holds its value.
use mathlib.Core.List.{append-nil, append_assoc}
use tak_mdm.Base.{
  String, Bool, true, false, ◌≡◌, refl, sym, ap, ◌∙◌, subst, Option, none, some, List, [], ◌∷◌,
  ◌++◌, map, keep, any, arith, Bool-cases, Option-cases, if◌then◌else◌, inl, inr,
}
use tak_mdm.Base.Assoc.{get, keys}
use tak_mdm.Base.Text.{text_eq, text_eq_iff}
use tak_mdm.Json.{Value}
use tak_mdm.Merge.{Merge, Contribution, MergeOutcome, ok, err, ◌>>=◌, >>=-eq-ok, ok_injective}
use tak_mdm.Merge.Apply.{apply_strategy}
use tak_mdm.Resolver.{AssignmentInput, EffectivePolicy, collect}
use tak_mdm.Resolver.Resolve.{
  MergeRules, Groups, TypeResult, add_to_group, group_by_type, group_of, place_text, sort_texts,
  add_field, resolve_fields,
}

-- `explain`: the provenance record of a field.
unfoldable pub explain : EffectivePolicy → String → String → Option MergeOutcome
explain e policy_type field_name = elim (get policy_type e.provenance) [
  | none ↦ none
  | some fields ↦ get field_name fields
]

-- The value of a field, if it has one.
unfoldable pub value_of : EffectivePolicy → String → String → Option Value
value_of e policy_type field_name = elim (get policy_type e.values) [
  | none ↦ none
  | some fields ↦ get field_name fields
]

-- The assignments of one policy type.
abbrev pub of_type : String → List AssignmentInput → List AssignmentInput
of_type t = keep (λ a. text_eq t a.policy.policy_type)

module _ (dumps : Value → String) where
  -- What one field is merged to, if somebody sets it.
  abbrev pub merged_field : List Contribution → Merge → Option MergeOutcome
  merged_field [] rule = none
  merged_field (c ∷ cs) rule = elim (apply_strategy dumps (c ∷ cs) rule) [
    | ok o ↦ some o
    | err e ↦ none
  ]

  -- The reference: one field at a time.
  abbrev pub expected_field : List AssignmentInput → MergeRules → String → Option MergeOutcome
  expected_field l rules f = elim (get f rules) [
    | none ↦ none
    | some rule ↦ merged_field (collect l f) rule
  ]

  -- Nobody sets `f`, whatever its rule is.
  expected_field_unset :
      (l : List AssignmentInput) (rules : MergeRules) (f : String)
      → collect l f ≡ []
      → expected_field l rules f ≡ none
  expected_field_unset l rules f e = elim (Option-cases (get f rules)) [
    | inl n ↦ rw (n, expected_field)
    | inr (rule, n) ↦ rw (n, expected_field, e)
  ]

  fields_skip :
      (l : List AssignmentInput) (rules : MergeRules) (g f : String) (rule : Merge)
      → collect l g ≡ []
      → expected_field l rules f ≡ expected_field l ((g, rule) ∷ rules) f
  fields_skip l rules g f rule e = elim (Bool-cases (text_eq g f)) [
    | inl q ↦
        let unset = subst (λ k. collect l k ≡ []) ((text_eq_iff g f).0 q) e in
        expected_field_unset l rules f unset
        ∙ sym (expected_field_unset l ((g, rule) ∷ rules) f unset)
    | inr q ↦ rw (q, expected_field)
  ]

  fields_add :
      (l : List AssignmentInput) (rules : MergeRules) (g f : String) (rule : Merge)
      (c : Contribution) (cs : List Contribution) (o : MergeOutcome)
      → collect l g ≡ c ∷ cs
      → apply_strategy dumps (c ∷ cs) rule ≡ ok o
      → (if text_eq g f then some o else expected_field l rules f)
        ≡ expected_field l ((g, rule) ∷ rules) f
  fields_add l rules g f rule c cs o e a = elim (Bool-cases (text_eq g f)) [
    | inl q ↦
        rw (q, expected_field, ap (collect l) (sym ((text_eq_iff g f).0 q)) ∙ e, merged_field, a)
    | inr q ↦ rw (q, expected_field)
  ]

  -- The values are those of the outcomes, field by field.
  abbrev pub outcome_values : List (String × MergeOutcome) → List (String × Value)
  outcome_values = map (λ e. (e.0, e.1.value))

  abbrev FieldsRight : List AssignmentInput → MergeRules → TypeResult → Type 0
  FieldsRight l rules r =
      ((f : String) → get f r.provenance ≡ expected_field l rules f)
      × (r.values ≡ outcome_values r.provenance)

  pub resolve_fields-FieldsRight :
      (t : String) (l : List AssignmentInput) (rules : MergeRules) (r : TypeResult)
      → resolve_fields dumps t l rules ≡ ok r
      → FieldsRight l rules r
  unfolding resolve_fields add_field
  resolve_fields-FieldsRight t l [] r h =
      subst (FieldsRight l []) (ok_injective h) (λ f. refl, refl)
  resolve_fields-FieldsRight t l ((g, rule) ∷ rules) r h =
      by_contributions (collect l g) refl (resolve_fields-FieldsRight t l rules) h
    where
      by_contributions :
          (cs : List Contribution)
          → collect l g ≡ cs
          → ((r : TypeResult) → resolve_fields dumps t l rules ≡ ok r → FieldsRight l rules r)
          → (elim cs [
            | [] ↦ resolve_fields dumps t l rules
            | c ∷ cs ↦ do
              outcome ← apply_strategy dumps (c ∷ cs) rule
              rest ← resolve_fields dumps t l rules
              ok (add_field t g outcome rest)
          ])
            ≡ ok r
          → FieldsRight l ((g, rule) ∷ rules) r
      by_contributions [] e ih k =
          let (p, v) = ih r k in (λ f. p f ∙ fields_skip l rules g f rule e, v)
      by_contributions (c ∷ cs) e ih k =
          let (o, a, m) = >>=-eq-ok (apply_strategy dumps (c ∷ cs) rule) _ k in
          let (rest, b, n) = >>=-eq-ok (resolve_fields dumps t l rules) _ m in
          let (p, v) = ih rest b in
          subst (FieldsRight l ((g, rule) ∷ rules)) (ok_injective n) (
            λ f.
                ap (λ x. if text_eq g f then some o else x) (p f)
                ∙ fields_add l rules g f rule c cs o e a,
            ap (◌∷◌ (g, o.value)) v,
          )

-- Grouping and sorting do not change which types there are, or what a type's assignments are.
get-add_to_group :
    (a : AssignmentInput) (g : Groups) (t : String)
    → group_of t (add_to_group a g)
      ≡ group_of t g ++ (if text_eq t a.policy.policy_type then a ∷ [] else [])
unfolding add_to_group
get-add_to_group a [] t =
    ground (arith, text_eq_iff a.policy.policy_type t, text_eq_iff t a.policy.policy_type)
get-add_to_group a ((s, l) ∷ g) t = ground (
  arith,
  text_eq_iff s a.policy.policy_type,
  text_eq_iff t a.policy.policy_type,
  text_eq_iff s t,
  append-nil l,
  append-nil (group_of t g),
  get-add_to_group a g t,
)

pub group_of-group_by_type :
    (l : List AssignmentInput) (g : Groups) (t : String)
    → group_of t (group_by_type l g) ≡ group_of t g ++ of_type t l
unfolding group_by_type
group_of-group_by_type [] g t = sym (append-nil (group_of t g))
group_of-group_by_type (a ∷ l) g t =
    group_of-group_by_type l (add_to_group a g) t
    ∙ ap (λ x. x ++ of_type t l) (get-add_to_group a g t)
    ∙ elim (Bool-cases (text_eq t a.policy.policy_type)) [
      | inl e ↦ rw (e, append_assoc)
      | inr e ↦ rw (e, append-nil)
    ]

-- The groups' keys, sorted, are the same keys.
any-place_text :
    (p : String → Bool) (k : String) (l : List String) → any p (place_text k l) ≡ any p (k ∷ l)
unfolding place_text
any-place_text p k [] = refl
any-place_text p k (j ∷ l) = ground (arith, any-place_text p k l)

pub any-sort_texts : (p : String → Bool) (l : List String) → any p (sort_texts l) ≡ any p l
unfolding sort_texts
any-sort_texts p [] = refl
any-sort_texts p (k ∷ l) =
    any-place_text p k (sort_texts l) ∙ ap (λ x. if p k then true else x) (any-sort_texts p l)

-- A type that is no key has no assignments.
pub group_of_missing :
    (g : Groups) (t : String) → any (λ k. text_eq k t) (keys g) ≡ false → group_of t g ≡ []
group_of_missing [] t h = refl
group_of_missing ((s, l) ∷ g) t h = ground (arith, group_of_missing g t)
