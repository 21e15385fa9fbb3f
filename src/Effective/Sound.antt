-- ===== src/Effective/Sound.antt =====
-- Every write is quiet for the devices that it does not invalidate, and leaves the tables consistent.
pub mod Calls
pub mod Dropped
use tak_mdm.Base.{
  ℕ, String, Bool, true, false, ◌≡◌, refl, sym, ap, ◌∙◌, subst, Option, none, some, List, [], ◌∷◌,
  ◌++◌, arith, if◌then◌else◌, In, keep, map, any, inl, inr, Bool-cases, Option-cases, not, ◌⊎◌,
}
use tak_mdm.Base.Int.{ℤ}
use tak_mdm.Base.Membership.{In-map→, In-keep→, In-append→}
use tak_mdm.Base.Text.{text_eq}
use tak_mdm.Base.Rows.{OneRow, OneRow-map, OneRow-keep, OneRow-add, changed_id}
use tak_mdm.Effective.{policy_by_id, gather_assignments}
use tak_mdm.Effective.Affected.{IsConsistent, Targets}
use tak_mdm.Effective.Consistent.{
  put_policy-IsConsistent, put_profile-IsConsistent, with_assignments-IsConsistent,
}
use tak_mdm.Effective.Fresh.{Quiet, invalidate-Quiet, Quiet-refl, Quiet-trans}
use tak_mdm.Effective.Invalidation.{
  Fleet, invalidate, devices_affected_by_policy, devices_affected_by_profile,
  devices_in_breach_if_reserved, invalidate_for_policy, invalidate_for_profile,
  invalidate_for_assignment, devices_targeted_by,
}
use tak_mdm.Effective.Reach.{put_policy_unreached}
use tak_mdm.Effective.Reach.Assignments as Rows
use tak_mdm.Effective.Reach.Profiles.{put_profile_unreached}
use tak_mdm.Effective.Rows.{Policy, PolicyProfile, Assignment, Device, Tables, id_of}
use tak_mdm.Effective.Writes.{put_policy, put_profile, put_assignment, with_tables}
use tak_mdm.Resolver.Resolve.{Registry}

-- After the change the tables are consistent, no device was added, and what is kept is as it was.
pub record IsSound (f g : Fleet) : Type 0 where
  pub consistent : IsConsistent g.tables
  pub devices : g.devices ≡ f.devices
  pub quiet : Quiet f g

pub IsSound-refl : (f : Fleet) → IsConsistent f.tables → IsSound f f
IsSound-refl f ok = record { consistent = ok; devices = refl; quiet = Quiet-refl f }

pub IsSound-trans : (f g h : Fleet) → IsSound f g → IsSound g h → IsSound f h
IsSound-trans f g h p q = record {
  consistent = q.consistent;
  devices = q.devices ∙ p.devices;
  quiet = Quiet-trans f g h p.quiet q.quiet;
}

pub tables_of_invalidated :
    (ids : List String) (f : Fleet)
    → ((invalidate ids f).tables ≡ f.tables) × ((invalidate ids f).devices ≡ f.devices)
unfolding invalidate
tables_of_invalidated [] f = (refl, refl)
tables_of_invalidated (id ∷ ids) f = (refl, refl)

-- New tables, and the devices invalidated for which they gather something else.
pub invalidated-IsSound :
    (ids : List String) (f : Fleet) (t : Tables)
    → IsConsistent t
    → ((d : Device)
        → In d f.devices
        → (In (id_of d) ids → ⊥)
        → (u : ℕ) (reg : Registry)
        → gather_assignments u reg t d ≡ gather_assignments u reg f.tables d)
    → IsSound f (invalidate ids (with_tables f t))
invalidated-IsSound ids f t ok same = record {
  consistent = subst IsConsistent (sym (tables_of_invalidated ids (with_tables f t)).0) ok;
  devices = (tables_of_invalidated ids (with_tables f t)).1;
  quiet = invalidate-Quiet ids f t same;
}

-- The change of a policy keeps its profile, so that it affects the same devices after the change.
policy_lookup :
    (id : String) (change : Policy → Policy) (l : List Policy)
    → ((p : Policy) → (change p).id ≡ p.id)
    → ((policy_by_id id (map (λ p. if text_eq p.id id then change p else p) l) ≡ none)
        × (policy_by_id id l ≡ none))
      ⊎ ((q : Policy) × (policy_by_id id (map (λ p. if text_eq p.id id then change p else p) l)
            ≡ some (change q))
          × (policy_by_id id l ≡ some q))
unfolding policy_by_id
policy_lookup id change [] same = inl (refl, refl)
policy_lookup id change (x ∷ l) same = elim (Bool-cases (text_eq x.id id)) [
  | inl e ↦ inr (x, rw (e, same x, e) refl, rw e refl)
  | inr e ↦ rw (e, e) (policy_lookup id change l same)
]

affected_same :
    (f : Fleet) (id : String) (change : Policy → Policy)
    → ((p : Policy) → (change p).id ≡ p.id)
    → ((p : Policy) → (change p).profile_id ≡ p.profile_id)
    → devices_affected_by_policy id (with_tables f (put_policy id change f.tables))
      ≡ devices_affected_by_policy id f
unfolding devices_affected_by_policy put_policy devices_affected_by_profile
    devices_in_breach_if_reserved
affected_same f id change same_id same_profile =
    elim (policy_lookup id change f.tables.policies same_id) [
      | inl (e, g) ↦ rw (devices_affected_by_policy, e, g) refl
      | inr (q, e, g) ↦ rw (devices_affected_by_policy, e, g, same_profile q) refl
    ]

pub put_policy-IsSound :
    (f : Fleet) (id : String) (change : Policy → Policy)
    → ((p : Policy) → (change p).id ≡ p.id)
    → ((p : Policy) → (change p).profile_id ≡ p.profile_id)
    → IsConsistent f.tables
    → IsSound f (invalidate_for_policy id (with_tables f (put_policy id change f.tables)))
unfolding invalidate_for_policy
put_policy-IsSound f id change same_id same_profile ok =
    invalidated-IsSound
      (devices_affected_by_policy id (with_tables f (put_policy id change f.tables))) f
      (put_policy id change f.tables) (put_policy-IsConsistent id change f.tables same_id ok)
      (λ d i out u reg.
        put_policy_unreached f ok d i id change same_id same_profile
          (λ j. out (subst (In (id_of d)) (sym (affected_same f id change same_id same_profile)) j))
          u reg)

pub put_profile-IsSound :
    (f : Fleet) (id : String) (change : PolicyProfile → PolicyProfile)
    → ((p : PolicyProfile) → (change p).id ≡ p.id)
    → ((p : PolicyProfile) → (change p).name ≡ p.name)
    → IsConsistent f.tables
    → IsSound f (invalidate_for_profile id (with_tables f (put_profile id change f.tables)))
unfolding invalidate_for_profile devices_affected_by_profile put_profile
put_profile-IsSound f id change same_id same_name ok =
    invalidated-IsSound
      (devices_affected_by_profile id (with_tables f (put_profile id change f.tables))) f
      (put_profile id change f.tables) (put_profile-IsConsistent id change f.tables same_id ok)
      (λ d i out u reg. put_profile_unreached f ok d i id change same_id same_name out u reg)
