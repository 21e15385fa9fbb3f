-- ===== src/Effective/NewSection.antt =====
-- A section that is new to a profile, in `upsert_section` of app/services/profiles.py.
use Prim.Native.String.{◌++◌ as glue}
use tak_mdm.Base.{ℕ, String, true, false, ◌≡◌, refl, none, some, [], ◌∷◌, In, inl, inr, ◌&&◌, ◌++◌}
use tak_mdm.Base.Membership.{In-append←}
use tak_mdm.Breach.{is_engaged}
use tak_mdm.Deployment.{is_archived}
use tak_mdm.Effective.{reaches, profile_by_id, latest_version, is_registered, gather_assignments}
use tak_mdm.Effective.Gathered.{input, gather_assignments-Gathered}
use tak_mdm.Effective.InForce.{Stands}
use tak_mdm.Effective.Invalidation.{Fleet}
use tak_mdm.Effective.Rows.{
  Policy, PolicyVersion, PolicyProfile, ProfileAssignment, Device, scope_value,
}
use tak_mdm.Effective.Writes.{section_for, upsert_section}
use tak_mdm.Json.{Fields}
use tak_mdm.Resolver.Resolve.{Registry}

-- A section that is new to a profile in force is gathered for every device outside breach that an
-- enabled assignment of the profile reaches, but no kept answer is marked as stale and no device woken.
pub upsert_section-unnoticed :
    (now : ℕ) (reg : Registry) (f : Fleet) (d : Device) (a : ProfileAssignment) (q : PolicyProfile)
    (category_key : String) (spec : Fields) (fresh : Policy) (v : PolicyVersion)
    → section_for q.id category_key f.tables.policies ≡ none
    → is_engaged d.breached ≡ false
    → In a f.tables.profile_assignments
    → a.enabled && reaches d a.device_id a.group_id ≡ true
    → profile_by_id a.profile_id f.tables.profiles ≡ some q
    → Stands now q
    → fresh.profile_id ≡ some q.id
    → is_archived fresh.deployment ≡ false
    → latest_version fresh.versions ≡ some v
    → is_registered reg fresh.policy_type ≡ true
    → In
        (input
          (glue (glue "profile:" (glue a.id ":")) fresh.id)
          (scope_value a.scope)
          a.rank
          fresh
          v)
        (gather_assignments now reg (upsert_section fresh q category_key spec f).tables d)
      × ((upsert_section fresh q category_key spec f).caches ≡ f.caches)
      × ((upsert_section fresh q category_key spec f).woken ≡ f.woken)
unfolding upsert_section
upsert_section-unnoticed now reg f d a q category_key spec fresh v e out i h k w own live latest
      registered =
    rw (upsert_section, e)
      (
        (gather_assignments-Gathered now reg
              (record f.tables { policies = f.tables.policies ++ fresh ∷ [] }) d
              (input (glue (glue "profile:" (glue a.id ":")) fresh.id) (scope_value a.scope) a.rank
                fresh v)).1
            (rw out (
              inr (
                a,
                q,
                i,
                h,
                k,
                w,
                (
                  fresh,
                  In-append← f.tables.policies (fresh ∷ []) fresh (inr (inl refl)),
                  own,
                  live,
                  (v, latest, registered, refl),
                ),
              ))),
        refl,
        refl,
      )
