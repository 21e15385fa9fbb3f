-- ===== src/Effective/Sound/Dropped.antt =====
-- Deleting a policy and archiving a profile, which drop rows, are sound writes.
use mathlib.Core.List.{flat_map}
use tak_mdm.Base.{
  ℕ, String, Bool, true, false, ◌≡◌, refl, ap, ◌∙◌, none, some, ◌++◌, In, keep, if◌then◌else◌, inl,
  inr, Bool-cases, Option-cases, ◌&&◌, not,
}
use tak_mdm.Base.Flat.{keep-dropped}
use tak_mdm.Base.Membership.{In-keep→}
use tak_mdm.Base.Rows.{OneRow-keep}
use tak_mdm.Base.Text.{text_eq, text_eq_iff}
use tak_mdm.Breach.{is_engaged}
use tak_mdm.Deployment.{is_archived}
use tak_mdm.Effective.{
  reaches, policy_by_id, assignment_input, profile_input, breach_assignments, gather_assignments,
  gather_profile_assignments,
}
use tak_mdm.Effective.Affected.{IsConsistent, affected_by_profile}
use tak_mdm.Effective.Calls.{or_same}
use tak_mdm.Effective.Consistent.{put_profile-IsConsistent}
use tak_mdm.Effective.Invalidation.{Fleet, devices_affected_by_profile}
use tak_mdm.Effective.Reach.Deleted.{deleted_gathers}
use tak_mdm.Effective.Reach.Profiles.{put_profile_unreached}
use tak_mdm.Effective.Rows.{Policy, PolicyProfile, Assignment, Device, Tables, id_of}
use tak_mdm.Effective.Sound.{IsSound, IsSound-refl, invalidated-IsSound}
use tak_mdm.Effective.Writes.{
  archive_profile, delete_policy, drop_assignments, put_profile, deploy_profile, set_archived,
  with_tables,
}
use tak_mdm.Resolver.Resolve.{Registry}

deleted-IsSound :
    (id : String) (p : Policy) (f : Fleet)
    → IsConsistent f.tables
    → policy_by_id id f.tables.policies ≡ some p
    → is_archived p.deployment ≡ true
    → p.profile_id ≡ none
    → IsSound f (
        with_tables f (record (drop_assignments id f.tables) {
          policies = keep (λ q. not (text_eq q.id id)) f.tables.policies;
        }))
unfolding drop_assignments
deleted-IsSound id p f ok found archived alone = record {
  consistent = record {
    one_policy =
        OneRow-keep (λ (q : Policy). q.id) (λ q. not (text_eq q.id id)) f.tables.policies
          ok.one_policy;
    one_profile = ok.one_profile;
    one_assignment =
        OneRow-keep (λ (a : Assignment). a.id) (λ a. not (text_eq a.policy_id id))
          f.tables.assignments ok.one_assignment;
    assigned = λ a i.
        ok.assigned a (In-keep→ (λ b. not (text_eq b.policy_id id)) f.tables.assignments a i).0;
    profile_assigned = ok.profile_assigned;
  };
  devices = refl;
  quiet =
      λ d c i e h. (i, e, λ u reg. deleted_gathers f.tables ok id p found archived alone u reg d);
}

pub delete_policy-IsSound :
    (id : String) (f : Fleet) → IsConsistent f.tables → IsSound f (or_same f (delete_policy id f))
unfolding delete_policy drop_assignments
delete_policy-IsSound id f ok = elim (Option-cases (policy_by_id id f.tables.policies)) [
  | inl e ↦ rw (delete_policy, e) (IsSound-refl f ok)
  | inr (p, e) ↦ elim (Bool-cases (is_archived p.deployment)) [
    | inl a ↦ elim (Option-cases p.profile_id) [
      | inl n ↦ rw (delete_policy, e, a, n) (deleted-IsSound id p f ok e a n)
      | inr (k, n) ↦ rw (delete_policy, e, a, n) (IsSound-refl f ok)
    ]
    | inr a ↦ rw (delete_policy, e, a) (IsSound-refl f ok)
  ]
]

module _ (f : Fleet) (ok : IsConsistent f.tables) (id : String) (t : Tables)
    (same : t.profile_assignments ≡ f.tables.profile_assignments) where
  -- The assignments of a profile reach none of the devices that it does not affect.
  dropped_gathers :
      (d : Device)
      → In d f.devices
      → (In (id_of d) (devices_affected_by_profile id f) → ⊥)
      → (u : ℕ) (reg : Registry)
      → gather_assignments u reg
          (record t {
            profile_assignments = keep (λ pa. not (text_eq pa.profile_id id)) t.profile_assignments;
          })
          d
        ≡ gather_assignments u reg t d
  unfolding gather_assignments gather_profile_assignments
  dropped_gathers d i out u reg =
      ap
        (λ rows.
          if is_engaged d.breached
          then breach_assignments reg t
          else flat_map (assignment_input u reg t.policies)
              (keep (λ a. a.enabled && reaches d a.device_id a.group_id) t.assignments)
            ++ flat_map (profile_input u reg t.profiles t.policies) rows)
        (keep-dropped (λ pa. pa.enabled && reaches d pa.device_id pa.group_id)
          (λ pa. text_eq pa.profile_id id) t.profile_assignments
          (λ pa j e. elim (Bool-cases (reaches d pa.device_id pa.group_id)) [
            | inl h ↦ absurd (
                out (
                  affected_by_profile f ok d i id pa (rw same at j)
                    ((text_eq_iff pa.profile_id id).0 e) h))
            | inr h ↦ rw h (off pa.enabled)
          ]))
    where
      off : (x : Bool) → x && false ≡ false
      off true = refl
      off false = refl

pub archive_profile-IsSound :
    (now : ℕ) (profile : PolicyProfile) (f : Fleet)
    → IsConsistent f.tables
    → IsSound f (archive_profile now profile f)
unfolding archive_profile
archive_profile-IsSound now profile f ok = elim (Bool-cases (is_archived profile.deployment)) [
  | inl a ↦ rw (archive_profile, a) (IsSound-refl f ok)
  | inr a ↦
      rw (archive_profile, a)
        (invalidated-IsSound (devices_affected_by_profile profile.id f) f without
          (record {
            one_policy = kept.one_policy;
            one_profile = kept.one_profile;
            one_assignment = kept.one_assignment;
            assigned = kept.assigned;
            profile_assigned = λ pa i.
                kept.profile_assigned pa
                  (In-keep→ (λ x. not (text_eq x.profile_id profile.id)) marked.profile_assignments
                    pa i).0;
          })
          (λ d i out u reg.
            dropped_gathers f ok profile.id marked (unfold put_profile in refl) d i out u reg
            ∙ put_profile_unreached f ok d i profile.id (deploy_profile (set_archived (some now)))
                (λ p. refl) (λ p. refl) out u reg))
]
  where
    marked : Tables
    marked = put_profile profile.id (deploy_profile (set_archived (some now))) f.tables

    without : Tables
    without = record marked {
      profile_assignments =
          keep (λ pa. not (text_eq pa.profile_id profile.id)) marked.profile_assignments;
    }

    kept : IsConsistent marked
    kept =
        put_profile-IsConsistent profile.id (deploy_profile (set_archived (some now))) f.tables
          (λ p. refl) ok
