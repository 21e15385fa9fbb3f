-- ===== src/Effective/Reach.antt =====
-- A change of a policy leaves what is gathered for every device that it does not reach as it was.
pub mod Profiles
pub mod Assignments
pub mod Deleted
use mathlib.Core.List.{flat_map}
use tak_mdm.Base.{
  ℕ, String, Bool, true, false, ◌≡◌, refl, sym, ap, ◌∙◌, subst, Option, none, some, List, [], ◌∷◌,
  ◌++◌, arith, if◌then◌else◌, In, keep, map, inl, inr, Bool-cases, Option-cases, ◌&&◌, ◌⊎◌, not,
}
use tak_mdm.Base.Flat.{flat_map-same, keep-changed, first_of-changed}
use tak_mdm.Base.Membership.{In-keep→}
use tak_mdm.Base.Text.{text_eq, text_eq_iff, text_eq-ne}
use tak_mdm.Breach.{is_engaged}
use tak_mdm.Effective.{
  is_id, reaches, policy_by_id, profile_by_id, breach_profile, sections, assignment_input,
  profile_input, breach_assignments, gather_assignments, gather_profile_assignments,
}
use tak_mdm.Effective.Affected.{
  IsConsistent, is_id-some, affected_by_profile, affected_by_assignment, affected_by_section,
  in_breach_reserved,
}
use tak_mdm.Effective.Invalidation.{
  Fleet, devices_affected_by_profile, devices_affected_by_policy, devices_in_breach_if_reserved,
}
use tak_mdm.Effective.Lookup.{profile_by_id-In}
use tak_mdm.Effective.Rows.{Policy, PolicyProfile, Assignment, ProfileAssignment, Device, id_of}
use tak_mdm.Effective.Writes.{put_policy}
use tak_mdm.Resolver.Resolve.{Registry}

-- both tests of the query
pub chosen : (x y : Bool) → x && y ≡ true → y ≡ true
chosen x y h = ground arith

module _ (f : Fleet) (ok : IsConsistent f.tables) (d : Device) (i : In d f.devices) (id : String)
    (change : Policy → Policy) (same_id : (p : Policy) → (change p).id ≡ p.id)
    (same_profile : (p : Policy) → (change p).profile_id ≡ p.profile_id)
    (out : In (id_of d) (devices_affected_by_policy id f) → ⊥) where
  abbrev after : List Policy
  after = map (λ p. if text_eq p.id id then change p else p) f.tables.policies

  lookup_same :
      (a : Assignment)
      → In a f.tables.assignments
      → reaches d a.device_id a.group_id ≡ true
      → policy_by_id a.policy_id after ≡ policy_by_id a.policy_id f.tables.policies
  unfolding policy_by_id
  lookup_same a j h =
      first_of-changed (λ p. text_eq p.id a.policy_id) (λ p. text_eq p.id id) change
        f.tables.policies (λ p. rw (same_id p) refl)
        (λ p k e.
          text_eq-ne p.id a.policy_id (λ q.
            out (affected_by_assignment f ok d i id a j (sym q ∙ (text_eq_iff p.id id).0 e) h)))

  sections_same :
      (profile_id : String)
      → (In (id_of d) (devices_affected_by_profile profile_id f)
          ⊎ In (id_of d) (devices_in_breach_if_reserved profile_id f))
      → sections profile_id after ≡ sections profile_id f.tables.policies
  unfolding sections
  sections_same profile_id reached =
      keep-changed (λ p. is_id profile_id p.profile_id) (λ p. text_eq p.id id) change
        f.tables.policies
        (λ p k e. elim (Bool-cases (is_id profile_id p.profile_id)) [
          | inl own ↦ absurd (
              out (
                subst (λ x. In (id_of d) (devices_affected_by_policy x f))
                  ((text_eq_iff p.id id).0 e)
                  (affected_by_section f ok d i p profile_id k
                    (is_id-some profile_id p.profile_id own) reached)))
          | inr other ↦ (other, rw (same_profile p) other)
        ])

  profile_same :
      (now : ℕ) (reg : Registry) (pa : ProfileAssignment)
      → In pa f.tables.profile_assignments
      → reaches d pa.device_id pa.group_id ≡ true
      → profile_input now reg f.tables.profiles after pa
        ≡ profile_input now reg f.tables.profiles f.tables.policies pa
  unfolding profile_input
  profile_same now reg pa j h =
      elim (Option-cases (profile_by_id pa.profile_id f.tables.profiles)) [
        | inl e ↦ rw (profile_input, e) refl
        | inr (p, e) ↦
            rw
              (
                profile_input,
                e,
                sections_same p.id (
                    inl (
                      affected_by_profile f ok d i p.id pa j
                        (sym (profile_by_id-In pa.profile_id f.tables.profiles p e).1) h)),
              )
              refl
      ]

  breach_same :
      (reg : Registry)
      → is_engaged d.breached ≡ true
      → breach_assignments reg (put_policy id change f.tables) ≡ breach_assignments reg f.tables
  unfolding put_policy breach_assignments
  breach_same reg h = elim (Option-cases (breach_profile f.tables.profiles)) [
    | inl e ↦ rw (breach_assignments, e) refl
    | inr (p, e) ↦
        rw (breach_assignments, e, sections_same p.id (inr (in_breach_reserved f ok d i p e h)))
          refl
  ]

  -- What is gathered for the device is as before.
  pub put_policy_unreached :
      (now : ℕ) (reg : Registry)
      → gather_assignments now reg (put_policy id change f.tables) d
        ≡ gather_assignments now reg f.tables d
  unfolding gather_assignments gather_profile_assignments put_policy assignment_input
  put_policy_unreached now reg = elim (Bool-cases (is_engaged d.breached)) [
    | inl e ↦ rw e (breach_same reg e)
    | inr e ↦
        rw
          (
            e,
            flat_map-same (assignment_input now reg after)
                (assignment_input now reg f.tables.policies)
                (keep (λ a. a.enabled && reaches d a.device_id a.group_id) f.tables.assignments)
                (λ a k.
                  let (j, h) =
                    In-keep→ (λ a. a.enabled && reaches d a.device_id a.group_id)
                      f.tables.assignments a k in
                  rw
                    (
                      assignment_input,
                      lookup_same a j (chosen a.enabled (reaches d a.device_id a.group_id) h),
                    )
                    refl),
            flat_map-same (profile_input now reg f.tables.profiles after)
                (profile_input now reg f.tables.profiles f.tables.policies)
                (keep (λ pa. pa.enabled && reaches d pa.device_id pa.group_id)
                  f.tables.profile_assignments)
                (λ pa k.
                  let (j, h) =
                    In-keep→ (λ pa. pa.enabled && reaches d pa.device_id pa.group_id)
                      f.tables.profile_assignments pa k in
                  profile_same now reg pa j
                    (chosen pa.enabled (reaches d pa.device_id pa.group_id) h)),
          )
          refl
  ]
