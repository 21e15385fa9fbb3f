-- ===== src/Effective/Reach/Deleted.antt =====
-- Deleting an archived policy changes nothing of what is gathered for any device.
use mathlib.Core.List.{flat_map}
use tak_mdm.Base.{
  ℕ, String, Bool, true, false, ◌≡◌, refl, sym, ap, ◌∙◌, none, some, List, [], In, keep, inl, inr,
  Bool-cases, Option-cases, ◌&&◌, not,
}
use tak_mdm.Base.Flat.{flat_map-same, flat_map-dropped, first_of-dropped, keep-dropped}
use tak_mdm.Base.Membership.{In-keep→}
use tak_mdm.Base.Text.{text_eq, text_eq_iff, text_eq-ne}
use tak_mdm.Breach.{is_engaged}
use tak_mdm.Deployment.{is_archived}
use tak_mdm.Effective.{
  is_id, reaches, policy_by_id, profile_by_id, breach_profile, sections, applies, applied_input,
  assignment_input, expanded, profile_input, breach_assignments, gather_assignments,
  gather_profile_assignments,
}
use tak_mdm.Effective.Affected.{IsConsistent}
use tak_mdm.Effective.Lookup.{policy_by_id-In}
use tak_mdm.Effective.Rows.{Policy, Assignment, ProfileAssignment, Device, Tables}
use tak_mdm.Effective.Writes.{drop_assignments}
use tak_mdm.Resolver.Resolve.{Registry}

module _ (t : Tables) (ok : IsConsistent t) (id : String) (p : Policy)
    (found : policy_by_id id t.policies ≡ some p) (archived : is_archived p.deployment ≡ true)
    (alone : p.profile_id ≡ none) where
  abbrev rest : List Policy
  rest = keep (λ q. not (text_eq q.id id)) t.policies

  -- the tables without the policy and its assignments
  abbrev pub deleted : Tables
  deleted = record (drop_assignments id t) { policies = rest }

  is_it : (q : Policy) → In q t.policies → text_eq q.id id ≡ true → q ≡ p
  is_it q i e =
      let (j, h) = policy_by_id-In id t.policies p found in
      ok.one_policy q p i j ((text_eq_iff q.id id).0 e ∙ sym h)

  sections_same : (profile_id : String) → sections profile_id rest ≡ sections profile_id t.policies
  unfolding sections is_id
  sections_same profile_id =
      keep-dropped (λ q. is_id profile_id q.profile_id) (λ q. text_eq q.id id) t.policies
        (λ q i e. rw (is_it q i e, alone) refl)

  nothing_made :
      (now : ℕ) (reg : Registry) (a : Assignment)
      → text_eq a.policy_id id ≡ true
      → assignment_input now reg t.policies a ≡ []
  unfolding assignment_input applied_input applies
  nothing_made now reg a e =
      let q : policy_by_id a.policy_id t.policies ≡ some p =
        ap (λ k. policy_by_id k t.policies) ((text_eq_iff a.policy_id id).0 e) ∙ found in
      rw (assignment_input, q, applied_input, applies, archived) refl

  lookup_same :
      (now : ℕ) (reg : Registry) (a : Assignment)
      → text_eq a.policy_id id ≡ false
      → assignment_input now reg rest a ≡ assignment_input now reg t.policies a
  unfolding assignment_input policy_by_id
  lookup_same now reg a e =
      ap (λ o. elim o [ none ↦ [] | some q ↦ applied_input now reg a q ])
        (first_of-dropped (λ q. text_eq q.id a.policy_id) (λ q. text_eq q.id id) t.policies
          (λ q i h.
            text_eq-ne q.id a.policy_id
              (λ s. differ e ((text_eq_iff a.policy_id id).1 (sym s ∙ (text_eq_iff q.id id).0 h)))))
    where
      differ : {x : Bool} → x ≡ false → x ≡ true → ⊥
      differ g k = cc

  profile_same :
      (now : ℕ) (reg : Registry) (pa : ProfileAssignment)
      → profile_input now reg t.profiles rest pa ≡ profile_input now reg t.profiles t.policies pa
  unfolding profile_input expanded
  profile_same now reg pa = elim (Option-cases (profile_by_id pa.profile_id t.profiles)) [
    | inl e ↦ rw (profile_input, e) refl
    | inr (q, e) ↦ rw (profile_input, e, expanded, sections_same q.id) refl
  ]

  breach_same : (reg : Registry) → breach_assignments reg deleted ≡ breach_assignments reg t
  unfolding breach_assignments drop_assignments
  breach_same reg = elim (Option-cases (breach_profile t.profiles)) [
    | inl e ↦ rw (breach_assignments, e) refl
    | inr (q, e) ↦ rw (breach_assignments, e, sections_same q.id) refl
  ]

  rows_same :
      (now : ℕ) (reg : Registry) (d : Device)
      → flat_map (assignment_input now reg rest) (
          keep
            (λ a. a.enabled && reaches d a.device_id a.group_id)
            (keep (λ a. not (text_eq a.policy_id id)) t.assignments))
        ≡ flat_map
            (assignment_input now reg t.policies)
            (keep (λ a. a.enabled && reaches d a.device_id a.group_id) t.assignments)
  rows_same now reg d =
      flat_map-same (assignment_input now reg rest) (assignment_input now reg t.policies)
        (keep (λ a. a.enabled && reaches d a.device_id a.group_id)
          (keep (λ a. not (text_eq a.policy_id id)) t.assignments))
        (λ a i.
          let (j, h) =
            In-keep→ (λ a. a.enabled && reaches d a.device_id a.group_id)
              (keep (λ a. not (text_eq a.policy_id id)) t.assignments) a i in
          let (k, g) = In-keep→ (λ a. not (text_eq a.policy_id id)) t.assignments a j in
          lookup_same now reg a (negated (text_eq a.policy_id id) g))
      ∙ flat_map-dropped (assignment_input now reg t.policies)
          (λ a. a.enabled && reaches d a.device_id a.group_id) (λ a. text_eq a.policy_id id)
          t.assignments (λ a i e. nothing_made now reg a e)
    where
      negated : (x : Bool) → not x ≡ true → x ≡ false
      negated true g = cc
      negated false g = refl

  -- What is gathered for a device is as before.
  pub deleted_gathers :
      (now : ℕ) (reg : Registry) (d : Device)
      → gather_assignments now reg deleted d ≡ gather_assignments now reg t d
  unfolding gather_assignments gather_profile_assignments drop_assignments
  deleted_gathers now reg d = elim (Bool-cases (is_engaged d.breached)) [
    | inl e ↦ rw e (breach_same reg)
    | inr e ↦
        rw
          (
            e,
            rows_same now reg d,
            flat_map-same (profile_input now reg t.profiles rest)
                (profile_input now reg t.profiles t.policies)
                (keep (λ pa. pa.enabled && reaches d pa.device_id pa.group_id)
                  t.profile_assignments)
                (λ pa i. profile_same now reg pa),
          )
          refl
  ]
