-- ===== src/Resolver/Explained.antt =====
-- What `explain` answers on a policy that `resolve` of app/policies/resolver.py returned.
use mathlib.Core.List.{Permᴰ}
use tak_mdm.Base.{
  String, ◌≡◌, refl, sym, ap, ◌∙◌, subst, Option, none, some, List, [], ◌∷◌, map, any, Bool-cases,
  Option-cases, if◌then◌else◌, inl, inr,
}
use tak_mdm.Base.Assoc.{get, keys}
use tak_mdm.Base.Text.{text_eq, text_eq_iff}
use tak_mdm.Json.{Value}
use tak_mdm.Merge.{MergeOutcome, ok, >>=-eq-ok, ok_injective}
use tak_mdm.Resolver.{AssignmentInput, EffectivePolicy, order_assignments, collect}
use tak_mdm.Resolver.Order.{UniqueIds, order_assignments-perm}
use tak_mdm.Resolver.Explain.{
  explain, value_of, of_type, expected_field, outcome_values, resolve_fields-FieldsRight,
  group_of-group_by_type, any-sort_texts, group_of_missing,
}
use tak_mdm.Resolver.Resolve.{
  MergeRules, Registry, Groups, TypeResult, Totals, registry_get, group_by_type, group_of,
  sort_texts, add_type, resolve_fields, resolve_types, resolve,
}

-- A value found in a table of tables.
abbrev field_in : {A : Type 0} → String → String → List (String × List (String × A)) → Option A
field_in t f tables = elim (get t tables) [ none ↦ none | some fields ↦ get f fields ]

abbrev pub option_map : {A B : Type 0} → (A → B) → Option A → Option B
option_map h none = none
option_map h (some a) = some (h a)

get-map :
    {A B : Type 0} (h : A → B) (k : String) (l : List (String × A))
    → get k (map (λ e. (e.0, h e.1)) l) ≡ option_map h (get k l)
get-map h k [] = refl
get-map h k ((j, v) ∷ l) = elim (Bool-cases (text_eq j k)) [
  | inl e ↦ rw e refl
  | inr e ↦ rw e (get-map h k l)
]

option_eta : {A : Type 0} (m : Option A) → m ≡ (elim m [ none ↦ none | some o ↦ some o ])
option_eta none = refl
option_eta (some o) = refl

module _ (dumps : Value → String) where
  -- The reference for a whole policy: the rules of the type, applied to its assignments.
  abbrev pub expected : Registry → List AssignmentInput → String → String → Option MergeOutcome
  expected reg l t f = elim (get t reg) [
    | none ↦ none
    | some rules ↦ expected_field dumps l rules f
  ]

  expected_unassigned : (rules : MergeRules) (f : String) → expected_field dumps [] rules f ≡ none
  unfolding collect
  expected_unassigned rules f = elim (Option-cases (get f rules)) [
    | inl n ↦ rw (n, expected_field)
    | inr (rule, n) ↦ rw (n, expected_field)
  ]

  expected-none : (reg : Registry) (t f : String) → expected reg [] t f ≡ none
  expected-none reg t f = elim (Option-cases (get t reg)) [
    | inl n ↦ rw (expected, n) refl
    | inr (rules, n) ↦ rw (expected, n) (expected_unassigned rules f)
  ]

  registry_get_inverse :
      (t : String) (reg : Registry) (rules : MergeRules)
      → registry_get t reg ≡ ok rules
      → get t reg ≡ some rules
  unfolding registry_get
  registry_get_inverse t reg rules h = elim (Option-cases (get t reg)) [
    | inl n ↦ absurd (cc)
    | inr (rs, n) ↦ n ∙ ap some (ok_injective (cc))
  ]

  -- Adding a type changes the lookups of that type only.
  field_in-add_type :
      (s : String) (r : TypeResult) (rest : Totals) (t f : String)
      → r.values ≡ outcome_values dumps r.provenance
      → field_in t f (add_type s r rest).provenance ≡ (
          if text_eq s t
          then elim (get f r.provenance) [
            | none ↦ elim r.provenance [ [] ↦ field_in t f rest.provenance | p ∷ ps ↦ none ]
            | some o ↦ some o
          ]
          else field_in t f rest.provenance)
  unfolding add_type
  field_in-add_type s r rest t f v = by_fields r.provenance (r.values) v
    where
      by_fields :
          (p : List (String × MergeOutcome)) (w : List (String × Value))
          → w ≡ outcome_values dumps p
          → field_in t f (elim w [ [] ↦ rest.provenance | x ∷ xs ↦ (s, p) ∷ rest.provenance ]) ≡ (
              if text_eq s t
              then elim (get f p) [
                | none ↦ elim p [ [] ↦ field_in t f rest.provenance | q ∷ qs ↦ none ]
                | some o ↦ some o
              ]
              else field_in t f rest.provenance)
      by_fields [] w e =
          rw e (elim (Bool-cases (text_eq s t)) [ inl q ↦ rw q refl | inr q ↦ rw q refl ])
      by_fields (q ∷ qs) w e =
          rw (e, field_in)
            (elim (Bool-cases (text_eq s t)) [
              | inl h ↦ rw h (option_eta (get f (q ∷ qs)))
              | inr h ↦ rw h refl
            ])

  -- One type more in front: its own fields are right, and the others' are looked up further on.
  add_type-expected :
      (reg : Registry) (s : String) (ts : List String) (g : Groups) (rules : MergeRules)
      (r : TypeResult) (rest : Totals) (t f : String)
      → get s reg ≡ some rules
      → r.values ≡ outcome_values dumps r.provenance
      → get f r.provenance ≡ expected_field dumps (group_of s g) rules f
      → field_in t f rest.provenance
        ≡ (if any (λ k. text_eq k t) ts then expected reg (group_of t g) t f else none)
      → field_in t f (add_type s r rest).provenance
        ≡ (if any (λ k. text_eq k t) (s ∷ ts) then expected reg (group_of t g) t f else none)
  add_type-expected reg s ts g rules r rest t f n v p ih =
      field_in-add_type s r rest t f v ∙ elim (Bool-cases (text_eq s t)) [
        | inl e ↦
            let same = (text_eq_iff s t).0 e in
            let q =
              subst (λ k. get f r.provenance ≡ expected reg (group_of k g) k f) same
                (p ∙ sym (rw (n, expected) refl)) in
            rw e (by_provenance r.provenance q)
        | inr e ↦ rw e ih
      ]
    where
      by_provenance :
          (p : List (String × MergeOutcome))
          → get f p ≡ expected reg (group_of t g) t f
          → (elim (get f p) [
            | none ↦ elim p [ [] ↦ field_in t f rest.provenance | q ∷ qs ↦ none ]
            | some o ↦ some o
          ])
            ≡ expected reg (group_of t g) t f
      by_provenance [] q =
          ih ∙ elim (Bool-cases (any (λ k. text_eq k t) ts)) [ inl e ↦ rw e refl | inr e ↦ rw e q ]
      by_provenance (x ∷ xs) q = sym (option_eta (get f (x ∷ xs))) ∙ q

  -- The values are those of the outcomes, type by type.
  abbrev TotalsRight : Registry → List String → Groups → Totals → Type 0
  TotalsRight reg ts g tot =
      ((t f : String)
        → field_in t f tot.provenance
          ≡ (if any (λ k. text_eq k t) ts then expected reg (group_of t g) t f else none))
      × (tot.values ≡ map (λ e. (e.0, outcome_values dumps e.1)) tot.provenance)

  add_type-values :
      (s : String) (r : TypeResult) (rest : Totals)
      → r.values ≡ outcome_values dumps r.provenance
      → rest.values ≡ map (λ e. (e.0, outcome_values dumps e.1)) rest.provenance
      → (add_type s r rest).values
        ≡ map (λ e. (e.0, outcome_values dumps e.1)) (add_type s r rest).provenance
  unfolding add_type
  add_type-values s r rest v w = by_values r.values r.provenance v
    where
      by_values :
          (u : List (String × Value)) (p : List (String × MergeOutcome))
          → u ≡ outcome_values dumps p
          → (elim u [ [] ↦ rest.values | x ∷ xs ↦ (s, x ∷ xs) ∷ rest.values ])
            ≡ map
                (λ e. (e.0, outcome_values dumps e.1))
                (elim u [ [] ↦ rest.provenance | x ∷ xs ↦ (s, p) ∷ rest.provenance ])
      by_values [] p e = w
      by_values (x ∷ xs) p e = rw (e, w) refl

  resolve_types-TotalsRight :
      (reg : Registry) (g : Groups) (ts : List String) (tot : Totals)
      → resolve_types dumps reg g ts ≡ ok tot
      → TotalsRight reg ts g tot
  unfolding resolve_types
  resolve_types-TotalsRight reg g [] tot h =
      subst (TotalsRight reg [] g) (ok_injective h) (λ t f. refl, refl)
  resolve_types-TotalsRight reg g (s ∷ ts) tot h =
      let (rules, a, h1) = >>=-eq-ok (registry_get s reg) _ h in
      let (r, b, h2) = >>=-eq-ok (resolve_fields dumps s (group_of s g) rules) _ h1 in
      let (rest, c, h3) = >>=-eq-ok (resolve_types dumps reg g ts) _ h2 in
      let (p, v) = resolve_fields-FieldsRight dumps s (group_of s g) rules r b in
      let (q, w) = resolve_types-TotalsRight reg g ts rest c in
      subst (TotalsRight reg (s ∷ ts) g) (ok_injective h3) (
        λ t f.
            add_type-expected reg s ts g rules r rest t f (registry_get_inverse s reg rules a) v
              (p f) (q t f),
        add_type-values s r rest v w,
      )

  field_in-map :
      (tables : List (String × List (String × MergeOutcome))) (t f : String)
      → field_in t f (map (λ e. (e.0, outcome_values dumps e.1)) tables)
        ≡ option_map (λ o. o.value) (field_in t f tables)
  field_in-map tables t f =
      rw (field_in, get-map (outcome_values dumps) t tables)
        (elim (Option-cases (get t tables)) [
          | inl n ↦ rw (field_in, n) refl
          | inr (fields, n) ↦ rw (field_in, n) (get-map (λ o. o.value) f fields)
        ])

  -- The group of a type, and none if the type is no key.
  expected_grouped :
      (reg : Registry) (l : List AssignmentInput) (t f : String)
      → (if any (λ k. text_eq k t) (sort_texts (keys (group_by_type l [])))
          then expected reg (group_of t (group_by_type l [])) t f
          else none)
        ≡ expected reg (of_type t l) t f
  expected_grouped reg l t f =
      let g = group_by_type l [] in
      let here = group_of-group_by_type l [] t in
      rw (any-sort_texts (λ k. text_eq k t) (keys g))
        (elim (Bool-cases (any (λ k. text_eq k t) (keys g))) [
          | inl e ↦ rw e (ap (λ k. expected reg k t f) here)
          | inr e ↦
              let unassigned = sym here ∙ group_of_missing g t e in
              rw e (sym (ap (λ k. expected reg k t f) unassigned ∙ expected-none reg t f))
        ])

  -- Whenever `resolve` returns a policy, `explain` answers, for every type and field, the merge
  -- by the registered rule of what the assignments of that type, strongest first, set the field
  -- to, and nothing for a field that nobody sets or that has no rule; and the policy's value of
  -- every field is the value of that answer.
  pub resolve-explain :
      (reg : Registry) (device_id : String) (l : List AssignmentInput) (e : EffectivePolicy)
      → resolve dumps reg device_id l ≡ ok e
      → (t f : String)
      → (explain e t f ≡ expected reg (of_type t (order_assignments l)) t f)
        × (value_of e t f ≡ option_map (λ o. o.value) (explain e t f))
  unfolding resolve explain value_of
  resolve-explain reg device_id l e h t f =
      let g = group_by_type (order_assignments l) [] in
      let (tot, a, q) = >>=-eq-ok (resolve_types dumps reg g (sort_texts (keys g))) _ h in
      let (p, v) = resolve_types-TotalsRight reg g (sort_texts (keys g)) tot a in
      subst
        (λ e.
          (explain e t f ≡ expected reg (of_type t (order_assignments l)) t f)
          × (value_of e t f ≡ option_map (λ o. o.value) (explain e t f)))
        (ok_injective q)
        (
          p t f ∙ expected_grouped reg (order_assignments l) t f,
          ap (field_in t f) v ∙ field_in-map tot.provenance t f,
        )

  -- The resolved policy, errors included, is the same for every order in which the assignments
  -- of a device arrive, if one id stands for one assignment.
  pub resolve-perm :
      (reg : Registry) (device_id : String) (xs ys : List AssignmentInput)
      → UniqueIds xs
      → Permᴰ xs ys
      → resolve dumps reg device_id xs ≡ resolve dumps reg device_id ys
  unfolding resolve
  resolve-perm reg device_id xs ys u p = rw (order_assignments-perm u p) refl
