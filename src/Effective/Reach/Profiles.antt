-- ===== src/Effective/Reach/Profiles.antt =====
-- A change of a profile leaves what is gathered for every device that it does not reach as it was.
use tak_mdm.Base.{
  ℕ, String, true, ◌≡◌, refl, sym, ◌∙◌, none, some, List, [], ◌∷◌, if◌then◌else◌, In, keep, map,
  inl, inr, Bool-cases, ◌&&◌, ◌⊎◌,
}
use tak_mdm.Base.Flat.{flat_map-same, first_of-changed}
use tak_mdm.Base.Membership.{In-keep→}
use tak_mdm.Base.Text.{text_eq, text_eq_iff, text_eq-ne}
use tak_mdm.Breach.{is_engaged}
use tak_mdm.Effective.{
  reaches, profile_by_id, breach_profile, profile_input, breach_assignments, gather_assignments,
  gather_profile_assignments,
}
use tak_mdm.Effective.Affected.{IsConsistent, affected_by_profile}
use tak_mdm.Effective.Invalidation.{Fleet, devices_affected_by_profile}
use tak_mdm.Effective.Reach.{chosen}
use tak_mdm.Effective.Rows.{PolicyProfile, ProfileAssignment, Device, id_of, Tables}
use tak_mdm.Effective.Writes.{put_profile}
use tak_mdm.Resolver.Resolve.{Registry}

module _ (t : Tables) (id : String) (change : PolicyProfile → PolicyProfile)
    (same_id : (p : PolicyProfile) → (change p).id ≡ p.id)
    (same_name : (p : PolicyProfile) → (change p).name ≡ p.name) where
  -- The profile of breach mode keeps its id.
  reserved_same :
      (l : List PolicyProfile)
      → (breach_profile (map (λ p. if text_eq p.id id then change p else p) l) ≡ none)
          × (breach_profile l ≡ none)
        ⊎ (p : PolicyProfile) × (q : PolicyProfile) × (breach_profile
              (map (λ p. if text_eq p.id id then change p else p) l)
            ≡ some p)
          × (breach_profile l ≡ some q)
          × (p.id ≡ q.id)
  unfolding breach_profile
  reserved_same [] = inl (refl, refl)
  reserved_same (x ∷ l) = elim (Bool-cases (text_eq x.id id)) [
    | inl e ↦ elim (Bool-cases (text_eq x.name "Breach mode")) [
      | inl b ↦ inr (change x, x, rw (e, same_name x, b) refl, rw b refl, same_id x)
      | inr b ↦ rw (e, same_name x, b) (reserved_same l)
    ]
    | inr e ↦ elim (Bool-cases (text_eq x.name "Breach mode")) [
      | inl b ↦ inr (x, x, rw (e, b) refl, rw b refl, refl)
      | inr b ↦ rw (e, b) (reserved_same l)
    ]
  ]

  pub breach_same :
      (reg : Registry) → breach_assignments reg (put_profile id change t) ≡ breach_assignments reg t
  unfolding put_profile breach_assignments
  breach_same reg = elim (reserved_same t.profiles) [
    | inl (e, g) ↦ rw (breach_assignments, e, g) refl
    | inr (p, q, e, g, h) ↦ rw (breach_assignments, e, g, h) refl
  ]

module _ (f : Fleet) (ok : IsConsistent f.tables) (d : Device) (i : In d f.devices) (id : String)
    (change : PolicyProfile → PolicyProfile) (same_id : (p : PolicyProfile) → (change p).id ≡ p.id)
    (same_name : (p : PolicyProfile) → (change p).name ≡ p.name) where
  abbrev after : List PolicyProfile
  after = map (λ p. if text_eq p.id id then change p else p) f.tables.profiles

  module _ (out : In (id_of d) (devices_affected_by_profile id f) → ⊥) where
    lookup_same :
        (pa : ProfileAssignment)
        → In pa f.tables.profile_assignments
        → reaches d pa.device_id pa.group_id ≡ true
        → profile_by_id pa.profile_id after ≡ profile_by_id pa.profile_id f.tables.profiles
    unfolding profile_by_id
    lookup_same pa j h =
        first_of-changed (λ p. text_eq p.id pa.profile_id) (λ p. text_eq p.id id) change
          f.tables.profiles (λ p. rw (same_id p) refl)
          (λ p k e.
            text_eq-ne p.id pa.profile_id (λ q.
              out (affected_by_profile f ok d i id pa j (sym q ∙ (text_eq_iff p.id id).0 e) h)))

    -- What is gathered for the device is as before.
    pub put_profile_unreached :
        (now : ℕ) (reg : Registry)
        → gather_assignments now reg (put_profile id change f.tables) d
          ≡ gather_assignments now reg f.tables d
    unfolding gather_assignments gather_profile_assignments put_profile profile_input
    put_profile_unreached now reg = elim (Bool-cases (is_engaged d.breached)) [
      | inl e ↦ rw e (breach_same f.tables id change same_id same_name reg)
      | inr e ↦
          rw
            (
              e,
              flat_map-same (profile_input now reg after f.tables.policies)
                  (profile_input now reg f.tables.profiles f.tables.policies)
                  (keep (λ pa. pa.enabled && reaches d pa.device_id pa.group_id)
                    f.tables.profile_assignments)
                  (λ pa k.
                    let (j, h) =
                      In-keep→ (λ pa. pa.enabled && reaches d pa.device_id pa.group_id)
                        f.tables.profile_assignments pa k in
                    rw
                      (
                        profile_input,
                        lookup_same pa j (chosen pa.enabled (reaches d pa.device_id pa.group_id) h),
                      )
                      refl),
            )
            refl
    ]
