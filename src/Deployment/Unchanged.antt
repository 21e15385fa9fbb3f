-- ===== src/Deployment/Unchanged.antt =====
-- Activating what is live already changes nothing that is gathered.
use Prim.Native.String.{◌++◌ as glue}
use mathlib.Core.List.{flat_map}
use tak_mdm.Base.{
  ℕ, String, true, ◌≡◌, refl, sym, ap, Option, none, some, List, [], ◌∷◌, if◌then◌else◌, In, keep,
  map, inl, inr, Bool-cases, Option-cases, ◌&&◌, ◌⊎◌, not,
}
use tak_mdm.Base.Flat.{flat_map-same, flat_map-keep-changed}
use tak_mdm.Base.Text.{text_eq, text_eq_iff}
use tak_mdm.Breach.{is_engaged}
use tak_mdm.Deployment.{Deployable, is_live, is_archived}
use tak_mdm.Deployment.Sweep.{begin}
use tak_mdm.Effective.{
  policy_by_id, profile_by_id, breach_profile, sections, is_id, section_input, input_of, snapshot,
  assignment_input, applied_input, expanded, profile_input, breach_assignments, gather_assignments,
  gather_profile_assignments, reaches, applies, effective_version, latest_version,
}
use tak_mdm.Effective.Reach.Profiles
use tak_mdm.Effective.Rows.{
  scope_value, Policy, PolicyVersion, PolicyProfile, Assignment, ProfileAssignment, Device, Tables,
}
use tak_mdm.Effective.Writes.{put_policy, put_profile, deploy_policy, deploy_profile}
use tak_mdm.Base.Int.{ℤ, pos}
use tak_mdm.Resolver.Resolve.{Registry}

pub begin-is_live : (now u : ℕ) (item : Deployable) → is_live u (begin now item) ≡ true
unfolding is_live begin
begin-is_live now u item = refl

-- The input of a policy does not tell when it was deployed.
input_same :
    (change : Deployable → Deployable) (reg : Registry) (id scope : String) (rank : ℤ) (p : Policy)
    (v : Option PolicyVersion)
    → input_of reg id scope rank (deploy_policy change p) v ≡ input_of reg id scope rank p v
unfolding input_of snapshot
input_same change reg id scope rank p none = refl
input_same change reg id scope rank p (some v) = refl

applied_begun :
    (now u : ℕ) (reg : Registry) (a : Assignment) (p : Policy)
    → is_live u p.deployment ≡ true
    → applied_input u reg a (deploy_policy (begin now) p) ≡ applied_input u reg a p
unfolding applied_input applies begin
applied_begun now u reg a p h = λ i.
    if not (is_archived p.deployment)
      && (not p.is_template && (sym h i && not (text_eq p.policy_type "BREACH")))
    then input_same (begin now) reg a.id (scope_value a.scope) a.rank p (effective_version a p) i
    else []

module _ (now u : ℕ) (reg : Registry) (id : String) where
  abbrev policy_row : Policy → Policy
  policy_row p = if text_eq p.id id then deploy_policy (begin now) p else p

  section_same :
      (prefix scope : String) (rank : ℤ) (p : Policy)
      → section_input reg prefix scope rank (policy_row p) ≡ section_input reg prefix scope rank p
  unfolding section_input is_archived begin input_of snapshot
  section_same prefix scope rank p = elim (Bool-cases (text_eq p.id id)) [
    | inl e ↦ rw e (
        ap (λ l. if is_archived p.deployment then [] else l)
          (input_same (begin now) reg (glue prefix p.id) scope rank p (latest_version p.versions)))
    | inr e ↦ rw e refl
  ]

  sections_same :
      (prefix scope : String) (rank : ℤ) (profile_id : String) (l : List Policy)
      → flat_map (section_input reg prefix scope rank) (sections profile_id (map policy_row l))
        ≡ flat_map (section_input reg prefix scope rank) (sections profile_id l)
  unfolding sections
  sections_same prefix scope rank profile_id l =
      flat_map-keep-changed (section_input reg prefix scope rank)
        (λ p. is_id profile_id p.profile_id) policy_row l
        (λ p i. elim (Bool-cases (text_eq p.id id)) [ inl e ↦ rw e refl | inr e ↦ rw e refl ])
        (λ p i. section_same prefix scope rank p)

  policy_lookup :
      (k : String) (l : List Policy)
      → ((policy_by_id k (map policy_row l) ≡ none) × (policy_by_id k l ≡ none))
        ⊎ ((p : Policy) × In p l
            × (policy_by_id k (map policy_row l) ≡ some (policy_row p))
            × (policy_by_id k l ≡ some p))
  unfolding policy_by_id
  policy_lookup k [] = inl (refl, refl)
  policy_lookup k (x ∷ l) = elim (Bool-cases (text_eq x.id k)) [
    | inl e ↦ inr (x, inl refl, rw (row_id x, e) refl, rw e refl)
    | inr e ↦ elim (policy_lookup k l) [
      | inl (g, h) ↦ inl (rw (row_id x, e) g, rw e h)
      | inr (p, i, g, h) ↦ inr (p, inr i, rw (row_id x, e) g, rw e h)
    ]
  ]
    where
      row_id : (p : Policy) → (policy_row p).id ≡ p.id
      row_id p = elim (Bool-cases (text_eq p.id id)) [ inl e ↦ rw e refl | inr e ↦ rw e refl ]

  -- What the rows with this id are now, they are after the activation.
  assignment_same :
      (t : Tables) (a : Assignment)
      → ((p : Policy) → In p t.policies → p.id ≡ id → is_live u p.deployment ≡ true)
      → assignment_input u reg (map policy_row t.policies) a ≡ assignment_input u reg t.policies a
  unfolding assignment_input
  assignment_same t a live = elim (policy_lookup a.policy_id t.policies) [
    | inl (g, h) ↦ rw (assignment_input, g, h) refl
    | inr (p, i, g, h) ↦ elim (Bool-cases (text_eq p.id id)) [
      | inl e ↦
          rw (assignment_input, g, h, e)
            (applied_begun now u reg a p (live p i ((text_eq_iff p.id id).0 e)))
      | inr e ↦ rw (assignment_input, g, h, e) refl
    ]
  ]

  expanded_same :
      (policies : List Policy) (pa : ProfileAssignment) (p : PolicyProfile)
      → expanded u reg (map policy_row policies) pa p ≡ expanded u reg policies pa p
  unfolding expanded
  expanded_same policies pa p =
      ap (λ l. if not (is_archived p.deployment) && is_live u p.deployment then l else [])
        (sections_same (glue "profile:" (glue pa.id ":")) (scope_value pa.scope) pa.rank p.id
          policies)

  profile_same :
      (t : Tables) (pa : ProfileAssignment)
      → profile_input u reg t.profiles (map policy_row t.policies) pa
        ≡ profile_input u reg t.profiles t.policies pa
  unfolding profile_input
  profile_same t pa = elim (Option-cases (profile_by_id pa.profile_id t.profiles)) [
    | inl e ↦ rw (profile_input, e) refl
    | inr (p, e) ↦ rw (profile_input, e) (expanded_same t.policies pa p)
  ]

  breach_same :
      (t : Tables)
      → breach_assignments reg (record t { policies = map policy_row t.policies })
        ≡ breach_assignments reg t
  unfolding breach_assignments
  breach_same t = elim (Option-cases (breach_profile t.profiles)) [
    | inl e ↦ rw (breach_assignments, e) refl
    | inr (p, e) ↦
        rw (breach_assignments, e) (sections_same "breach:" "device" (pos 0) p.id t.policies)
  ]

  -- A policy that is live at a moment is gathered there as before.
  pub begun_policy :
      (t : Tables) (d : Device)
      → ((p : Policy) → In p t.policies → p.id ≡ id → is_live u p.deployment ≡ true)
      → gather_assignments u reg (put_policy id (deploy_policy (begin now)) t) d
        ≡ gather_assignments u reg t d
  unfolding gather_assignments gather_profile_assignments put_policy
  begun_policy t d live = elim (Bool-cases (is_engaged d.breached)) [
    | inl e ↦ rw e (breach_same t)
    | inr e ↦
        rw
          (
            e,
            flat_map-same (assignment_input u reg (map policy_row t.policies))
                (assignment_input u reg t.policies)
                (keep (λ a. a.enabled && reaches d a.device_id a.group_id) t.assignments)
                (λ a k. assignment_same t a live),
            flat_map-same (profile_input u reg t.profiles (map policy_row t.policies))
                (profile_input u reg t.profiles t.policies)
                (keep (λ pa. pa.enabled && reaches d pa.device_id pa.group_id)
                  t.profile_assignments)
                (λ pa k. profile_same t pa),
          )
          refl
  ]

  abbrev profile_row : PolicyProfile → PolicyProfile
  profile_row p = if text_eq p.id id then deploy_profile (begin now) p else p

  profile_lookup :
      (k : String) (l : List PolicyProfile)
      → ((profile_by_id k (map profile_row l) ≡ none) × (profile_by_id k l ≡ none))
        ⊎ ((p : PolicyProfile) × In p l
            × (profile_by_id k (map profile_row l) ≡ some (profile_row p))
            × (profile_by_id k l ≡ some p))
  unfolding profile_by_id
  profile_lookup k [] = inl (refl, refl)
  profile_lookup k (x ∷ l) = elim (Bool-cases (text_eq x.id k)) [
    | inl e ↦ inr (x, inl refl, rw (row_id x, e) refl, rw e refl)
    | inr e ↦ elim (profile_lookup k l) [
      | inl (g, h) ↦ inl (rw (row_id x, e) g, rw e h)
      | inr (p, i, g, h) ↦ inr (p, inr i, rw (row_id x, e) g, rw e h)
    ]
  ]
    where
      row_id : (p : PolicyProfile) → (profile_row p).id ≡ p.id
      row_id p = elim (Bool-cases (text_eq p.id id)) [ inl e ↦ rw e refl | inr e ↦ rw e refl ]

  expanded_begun :
      (policies : List Policy) (pa : ProfileAssignment) (p : PolicyProfile)
      → is_live u p.deployment ≡ true
      → expanded u reg policies pa (deploy_profile (begin now) p) ≡ expanded u reg policies pa p
  unfolding expanded begin
  expanded_begun policies pa p h = λ i.
      if not (is_archived p.deployment) && sym h i
      then flat_map
          (section_input reg (glue "profile:" (glue pa.id ":")) (scope_value pa.scope) pa.rank)
          (sections p.id policies)
      else []

  profile_begun :
      (t : Tables) (pa : ProfileAssignment)
      → ((p : PolicyProfile) → In p t.profiles → p.id ≡ id → is_live u p.deployment ≡ true)
      → profile_input u reg (map profile_row t.profiles) t.policies pa
        ≡ profile_input u reg t.profiles t.policies pa
  unfolding profile_input
  profile_begun t pa live = elim (profile_lookup pa.profile_id t.profiles) [
    | inl (g, h) ↦ rw (profile_input, g, h) refl
    | inr (p, i, g, h) ↦ elim (Bool-cases (text_eq p.id id)) [
      | inl e ↦
          rw (profile_input, g, h, e)
            (expanded_begun t.policies pa p (live p i ((text_eq_iff p.id id).0 e)))
      | inr e ↦ rw (profile_input, g, h, e) refl
    ]
  ]

  -- A profile that is live at a moment is gathered there as before.
  pub begun_profile :
      (t : Tables) (d : Device)
      → ((p : PolicyProfile) → In p t.profiles → p.id ≡ id → is_live u p.deployment ≡ true)
      → gather_assignments u reg (put_profile id (deploy_profile (begin now)) t) d
        ≡ gather_assignments u reg t d
  unfolding gather_assignments gather_profile_assignments put_profile
  begun_profile t d live = elim (Bool-cases (is_engaged d.breached)) [
    | inl e ↦
        rw e (Profiles.breach_same t id (deploy_profile (begin now)) (λ p. refl) (λ p. refl) reg)
    | inr e ↦
        rw
          (
            e,
            flat_map-same (profile_input u reg (map profile_row t.profiles) t.policies)
                (profile_input u reg t.profiles t.policies)
                (keep (λ pa. pa.enabled && reaches d pa.device_id pa.group_id)
                  t.profile_assignments)
                (λ pa k. profile_begun t pa live),
          )
          refl
  ]
