-- ===== src/Effective/Horizon.antt =====
-- Until the next transition nothing that is gathered for a device changes.
use tak_mdm.Base.{
  ℕ, ◌≤◌, ◌<◌, false, ◌≡◌, refl, sym, Option, none, some, List, [], ◌∷◌, arith, In, keep, map, inl,
  inr, Bool-cases, Option-cases, ◌&&◌, subst,
}
use tak_mdm.Base.Flat.{flat_map-same}
use tak_mdm.Base.Membership.{In-map←}
use tak_mdm.Deployment.{Deployable, is_live, is_archived, has_come, coming, earlier, soonest}
use tak_mdm.Effective.{
  policy_by_id, profile_by_id, applies, assignment_input, profile_input, gather_assignments,
  gather_profile_assignments, next_transition, reaches,
}
use tak_mdm.Effective.Lookup.{policy_by_id-In, profile_by_id-In}
use tak_mdm.Effective.Rows.{Policy, PolicyProfile, Assignment, ProfileAssignment, Device, Tables}
use tak_mdm.Resolver.Resolve.{Registry}

-- A moment lies before another one, if there is another.
abbrev pub Before : ℕ → Option ℕ → Type 0
Before u none = Unit
Before u (some h) = u < h

pub Before-earlier : (u : ℕ) (a b : Option ℕ) → Before u (earlier a b) → Before u a × Before u b
unfolding earlier
Before-earlier u none b h = (tt, h)
Before-earlier u (some a) none h = (h, tt)
Before-earlier u (some a) (some b) h = (ground arith, ground arith)

is_live_same :
    (now u : ℕ) (item : Deployable)
    → now ≤ u
    → Before u (coming now item)
    → is_archived item ≡ false
    → is_live u item ≡ is_live now item
unfolding is_live coming has_come
is_live_same now u item le h live = ground arith

soonest-Before :
    (now u : ℕ) (items : List Deployable) (item : Deployable)
    → Before u (soonest now items)
    → In item items
    → Before u (coming now item)
unfolding soonest
soonest-Before now u [] item h i = absurd i
soonest-Before now u (x ∷ items) item h (inl e) =
    subst (λ y. Before u (coming now y)) (sym e)
      (Before-earlier u (coming now x) (soonest now items) h).0
soonest-Before now u (x ∷ items) item h (inr i) =
    soonest-Before now u items item (Before-earlier u (coming now x) (soonest now items) h).1 i

policy-Before :
    (now u : ℕ) (t : Tables) (p : Policy)
    → Before u (next_transition now t)
    → In p t.policies
    → Before u (coming now p.deployment)
unfolding next_transition
policy-Before now u t p h i =
    soonest-Before now u (map (λ q. q.deployment) t.policies) p.deployment
      (Before-earlier u (soonest now (map (λ q. q.deployment) t.policies))
        (soonest now (map (λ q. q.deployment) t.profiles)) h).0
      (In-map← (λ q. q.deployment) t.policies p i)

profile-Before :
    (now u : ℕ) (t : Tables) (p : PolicyProfile)
    → Before u (next_transition now t)
    → In p t.profiles
    → Before u (coming now p.deployment)
unfolding next_transition
profile-Before now u t p h i =
    soonest-Before now u (map (λ q. q.deployment) t.profiles) p.deployment
      (Before-earlier u (soonest now (map (λ q. q.deployment) t.policies))
        (soonest now (map (λ q. q.deployment) t.profiles)) h).1
      (In-map← (λ q. q.deployment) t.profiles p i)

applies_same :
    (now u : ℕ) (p : Policy)
    → now ≤ u
    → Before u (coming now p.deployment)
    → applies u p ≡ applies now p
unfolding applies
applies_same now u p le h = elim (Bool-cases (is_archived p.deployment)) [
  | inl e ↦ rw e refl
  | inr e ↦ rw (is_live_same now u p.deployment le h e) refl
]

module _ (now u : ℕ) (reg : Registry) (t : Tables) (le : now ≤ u)
    (h : Before u (next_transition now t)) where
  assignment_input_same :
      (a : Assignment) → assignment_input u reg t.policies a ≡ assignment_input now reg t.policies a
  unfolding assignment_input
  assignment_input_same a = elim (Option-cases (policy_by_id a.policy_id t.policies)) [
    | inl e ↦ rw (e, assignment_input) refl
    | inr (p, e) ↦
        rw
          (
            assignment_input,
            e,
            applies_same now u p le
                (policy-Before now u t p h (policy_by_id-In a.policy_id t.policies p e).0),
          )
          refl
  ]

  profile_input_same :
      (pa : ProfileAssignment)
      → profile_input u reg t.profiles t.policies pa
        ≡ profile_input now reg t.profiles t.policies pa
  unfolding profile_input
  profile_input_same pa = elim (Option-cases (profile_by_id pa.profile_id t.profiles)) [
    | inl e ↦ rw (e, profile_input) refl
    | inr (p, e) ↦ elim (Bool-cases (is_archived p.deployment)) [
      | inl g ↦ rw (profile_input, e, g) refl
      | inr g ↦
          rw
            (
              profile_input,
              e,
              is_live_same now u p.deployment le
                  (profile-Before now u t p h (profile_by_id-In pa.profile_id t.profiles p e).0) g,
            )
            refl
    ]
  ]

  -- Nothing that is gathered for a device changes before the next transition.
  pub gather_assignments_same :
      (d : Device) → gather_assignments u reg t d ≡ gather_assignments now reg t d
  unfolding gather_assignments gather_profile_assignments
  gather_assignments_same d =
      rw
        (
          flat_map-same (assignment_input u reg t.policies) (assignment_input now reg t.policies)
              (keep (λ a. a.enabled && reaches d a.device_id a.group_id) t.assignments)
              (λ a i. assignment_input_same a),
          flat_map-same (profile_input u reg t.profiles t.policies)
              (profile_input now reg t.profiles t.policies)
              (keep (λ pa. pa.enabled && reaches d pa.device_id pa.group_id) t.profile_assignments)
              (λ a i. profile_input_same a),
        )
        refl
