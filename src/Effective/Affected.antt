-- ===== src/Effective/Affected.antt =====
-- The devices that a change of a policy reaches, and those that an assignment reaches, are among the
-- ones that are invalidated.
use mathlib.Core.List.{flat_map}
use tak_mdm.Base.{
  String, Bool, true, false, ◌≡◌, refl, sym, ap, ◌∙◌, subst, Option, none, some, List, [], ◌∷◌,
  ◌++◌, arith, In, keep, any, inl, inr, ◌||◌, ◌⊎◌,
}
use tak_mdm.Base.Flat.{In-flat_map←}
use tak_mdm.Base.Keeping.{first_of-In, first_of_found}
use tak_mdm.Base.Membership.{In-keep←, In-append←, In-map←}
use tak_mdm.Base.Rows.{OneRow}
use tak_mdm.Base.Text.{text_eq, text_eq_iff, text_eq_refl}
use tak_mdm.Breach.{is_engaged}
use tak_mdm.Effective.{is_id, reaches, policy_by_id, profile_by_id, breach_profile}
use tak_mdm.Effective.Invalidation.{
  Fleet, if_any, members, targeted, devices_targeted_by, devices_targeted_by_profile_assignment,
  devices_affected_by_profile, devices_affected_by_policy, devices_in_breach_if_reserved,
}
use tak_mdm.Effective.Lookup.{breach_profile-In}
use tak_mdm.Effective.Rows.{
  Policy, PolicyProfile, Assignment, ProfileAssignment, AssignmentScope, device, group, Device,
  Tables, id_of,
}

-- The column that the scope names is the one that is set.
abbrev pub Targets : AssignmentScope → Option String → Option String → Type 0
Targets device device_id group_id = group_id ≡ none
Targets group device_id group_id = device_id ≡ none

-- What the keys and the constraints of the tables say.
pub record IsConsistent (t : Tables) : Type 0 where
  pub one_policy : OneRow (λ (p : Policy). p.id) t.policies
  pub one_profile : OneRow (λ (p : PolicyProfile). p.id) t.profiles
  pub one_assignment : OneRow (λ (a : Assignment). a.id) t.assignments
  pub assigned : (a : Assignment) → In a t.assignments → Targets a.scope a.device_id a.group_id
  pub profile_assigned :
      (a : ProfileAssignment) → In a t.profile_assignments → Targets a.scope a.device_id a.group_id

pub is_id-some : (id : String) (o : Option String) → is_id id o ≡ true → o ≡ some id
unfolding is_id
is_id-some id none h = absurd (cc)
is_id-some id (some other) h = ap some ((text_eq_iff other id).0 h)

no_group : (groups : List String) → any (λ g. is_id g none) groups ≡ false
unfolding is_id
no_group [] = refl
no_group (g ∷ groups) = no_group groups

pub reached_targeted :
    (devices : List Device) (d : Device) (scope : AssignmentScope)
    (device_id group_id : Option String)
    → In d devices
    → Targets scope device_id group_id
    → reaches d device_id group_id ≡ true
    → In (id_of d) (targeted devices scope device_id group_id)
unfolding reaches targeted members
reached_targeted devices d device device_id group_id i e h =
    subst (λ o. In (id_of d) (if_any o))
      (sym (is_id-some (id_of d) device_id (direct (no_group d.groups) (rw e at h)))) (inl refl)
  where
    direct : {x y : Bool} → y ≡ false → x || y ≡ true → x ≡ true
    direct p q = ground arith
reached_targeted devices d group device_id group_id i e h =
    In-map← id_of (keep (λ c. any (λ g. is_id g group_id) c.groups) devices) d (
      In-keep← (λ c. any (λ g. is_id g group_id) c.groups) devices d i
        (other (subst (λ o. is_id (id_of d) o ≡ false) (sym e) (none_is (id_of d))) h))
  where
    other : {x y : Bool} → x ≡ false → x || y ≡ true → y ≡ true
    other p q = ground arith

    none_is : (id : String) → is_id id none ≡ false
    none_is id = ground arith

-- A row is found under its id.
pub policy_found :
    (l : List Policy) (p : Policy)
    → In p l
    → OneRow (λ (q : Policy). q.id) l
    → policy_by_id p.id l ≡ some p
unfolding policy_by_id
policy_found l p i one =
    let (q, e) = first_of_found (λ q. text_eq q.id p.id) l p i (text_eq_refl p.id) in
    let (j, h) = first_of-In (λ q. text_eq q.id p.id) l q e in
    e ∙ ap some (one q p j i ((text_eq_iff q.id p.id).0 h))

pub profile_found :
    (l : List PolicyProfile) (p : PolicyProfile)
    → In p l
    → OneRow (λ (q : PolicyProfile). q.id) l
    → profile_by_id p.id l ≡ some p
unfolding profile_by_id
profile_found l p i one =
    let (q, e) = first_of_found (λ q. text_eq q.id p.id) l p i (text_eq_refl p.id) in
    let (j, h) = first_of-In (λ q. text_eq q.id p.id) l q e in
    e ∙ ap some (one q p j i ((text_eq_iff q.id p.id).0 h))

module _ (f : Fleet) (ok : IsConsistent f.tables) (d : Device) (i : In d f.devices) where
  -- An assignment of a profile that reaches the device.
  pub affected_by_profile :
      (id : String) (pa : ProfileAssignment)
      → In pa f.tables.profile_assignments
      → pa.profile_id ≡ id
      → reaches d pa.device_id pa.group_id ≡ true
      → In (id_of d) (devices_affected_by_profile id f)
  unfolding devices_affected_by_profile devices_targeted_by_profile_assignment
  affected_by_profile id pa j e h =
      In-flat_map← (devices_targeted_by_profile_assignment f.devices)
        (keep (λ pa. text_eq pa.profile_id id) f.tables.profile_assignments) pa (id_of d)
        (In-keep← (λ pa. text_eq pa.profile_id id) f.tables.profile_assignments pa j
          ((text_eq_iff pa.profile_id id).1 e))
        (reached_targeted f.devices d pa.scope pa.device_id pa.group_id i (ok.profile_assigned pa j)
          h)

  -- An assignment of a policy that reaches the device.
  pub affected_by_assignment :
      (id : String) (a : Assignment)
      → In a f.tables.assignments
      → a.policy_id ≡ id
      → reaches d a.device_id a.group_id ≡ true
      → In (id_of d) (devices_affected_by_policy id f)
  unfolding devices_affected_by_policy devices_targeted_by
  affected_by_assignment id a j e h =
      elim (policy_by_id id f.tables.policies)
        as (λ o. In (id_of d) (elim o [
          | none ↦ direct
          | some policy ↦ elim policy.profile_id [
            | none ↦ direct
            | some profile_id ↦
                direct
                ++ (devices_affected_by_profile profile_id f
                    ++ devices_in_breach_if_reserved profile_id f)
          ]
        ])) [
          | none ↦ there
          | some policy ↦
              elim policy.profile_id
                as (λ o. In (id_of d) (elim o [
                  | none ↦ direct
                  | some profile_id ↦
                      direct
                      ++ (devices_affected_by_profile profile_id f
                          ++ devices_in_breach_if_reserved profile_id f)
                ])) [
                  | none ↦ there
                  | some profile_id ↦
                      In-append← direct
                        (devices_affected_by_profile profile_id f
                          ++ devices_in_breach_if_reserved profile_id f)
                        (id_of d) (inl there)
                ]
        ]
    where
      direct : List String
      direct =
          flat_map (devices_targeted_by f.devices)
            (keep (λ a. text_eq a.policy_id id) f.tables.assignments)

      there : In (id_of d) direct
      there =
          In-flat_map← (devices_targeted_by f.devices)
            (keep (λ a. text_eq a.policy_id id) f.tables.assignments) a (id_of d)
            (In-keep← (λ a. text_eq a.policy_id id) f.tables.assignments a j
              ((text_eq_iff a.policy_id id).1 e))
            (reached_targeted f.devices d a.scope a.device_id a.group_id i (ok.assigned a j) h)

  -- A policy that is a section of a profile: what reaches the profile reaches the policy.
  pub affected_by_section :
      (p : Policy) (profile_id : String)
      → In p f.tables.policies
      → p.profile_id ≡ some profile_id
      → In (id_of d) (devices_affected_by_profile profile_id f)
        ⊎ In (id_of d) (devices_in_breach_if_reserved profile_id f)
      → In (id_of d) (devices_affected_by_policy p.id f)
  unfolding devices_affected_by_policy
  affected_by_section p profile_id j e h =
      rw (devices_affected_by_policy, policy_found f.tables.policies p j ok.one_policy, e)
        (In-append←
          (flat_map (devices_targeted_by f.devices)
            (keep (λ a. text_eq a.policy_id p.id) f.tables.assignments))
          (devices_affected_by_profile profile_id f ++ devices_in_breach_if_reserved profile_id f)
          (id_of d)
          (inr (
            In-append← (devices_affected_by_profile profile_id f)
              (devices_in_breach_if_reserved profile_id f) (id_of d) h)))

  -- A device in breach, for the profile that breach mode finds.
  pub in_breach_reserved :
      (reserved : PolicyProfile)
      → breach_profile f.tables.profiles ≡ some reserved
      → is_engaged d.breached ≡ true
      → In (id_of d) (devices_in_breach_if_reserved reserved.id f)
  unfolding devices_in_breach_if_reserved
  in_breach_reserved reserved e h =
      let (j, named) = breach_profile-In f.tables.profiles reserved e in
      rw
        (
          devices_in_breach_if_reserved,
          profile_found f.tables.profiles reserved j ok.one_profile,
          named,
        )
        (In-map← id_of (keep (λ c. is_engaged c.breached) f.devices) d
          (In-keep← (λ c. is_engaged c.breached) f.devices d i h))
