-- ===== src/Effective/Writes.antt =====
-- What changes the tables and then invalidates the devices that it reaches: app/services/policy_admin.py,
-- app/services/profiles.py, and the routers of policies and assignments under app/api/routers.
use tak_mdm.Base.{
  ℕ, ◌+◌, String, Bool, true, false, Option, none, some, List, [], ◌∷◌, ◌++◌, if◌then◌else◌, keep,
  map, not, first_of,
}
use tak_mdm.Base.Int.{ℤ}
use tak_mdm.Base.Text.{text_eq}
use tak_mdm.Deployment.{Deployable, is_archived}
use tak_mdm.Effective.{policy_by_id, sections, latest_version, is_id}
use tak_mdm.Effective.Invalidation.{
  Fleet, invalidate, invalidate_for_policy, invalidate_for_profile, invalidate_for_assignment,
  devices_affected_by_policy, devices_affected_by_profile, devices_targeted_by,
}
use tak_mdm.Effective.Rows.{
  Policy, PolicyVersion, PolicyProfile, Assignment, AssignmentScope, device, group, Tables,
}
use tak_mdm.Json.{Fields, obj, py_eq}

-- the row with this id is changed
unfoldable pub put_policy : String → (Policy → Policy) → Tables → Tables
put_policy id change t = record t {
  policies = map (λ p. if text_eq p.id id then change p else p) t.policies;
}

unfoldable pub put_profile : String → (PolicyProfile → PolicyProfile) → Tables → Tables
put_profile id change t = record t {
  profiles = map (λ p. if text_eq p.id id then change p else p) t.profiles;
}

unfoldable pub put_assignment : String → (Assignment → Assignment) → Tables → Tables
put_assignment id change t = record t {
  assignments = map (λ a. if text_eq a.id id then change a else a) t.assignments;
}

abbrev pub with_tables : Fleet → Tables → Fleet
with_tables f t = record f { tables = t }

-- the columns of deployment and archiving, of a policy and of a profile
abbrev pub deploy_policy : (Deployable → Deployable) → Policy → Policy
deploy_policy change p = record p { deployment = change p.deployment }

abbrev pub deploy_profile : (Deployable → Deployable) → PolicyProfile → PolicyProfile
deploy_profile change p = record p { deployment = change p.deployment }

abbrev pub set_archived : Option ℕ → Deployable → Deployable
set_archived at item = record item { archived_at = at }

-- `archive` and `restore` of app/services/policy_admin.py; `none` is the `PolicyAdminError`.
unfoldable pub archive_policy : ℕ → String → Fleet → Option Fleet
unfolding policy_by_id is_archived put_policy invalidate_for_policy
archive_policy now id f = elim (policy_by_id id f.tables.policies) [
  | none ↦ none
  | some policy ↦
      if is_archived policy.deployment
      then some f
      else some (
          invalidate_for_policy id
            (with_tables f (put_policy id (deploy_policy (set_archived (some now))) f.tables)))
]

unfoldable pub restore_policy : String → Fleet → Option Fleet
unfolding policy_by_id is_archived put_policy invalidate_for_policy
restore_policy id f = elim (policy_by_id id f.tables.policies) [
  | none ↦ none
  | some policy ↦
      if is_archived policy.deployment
      then some (
          invalidate_for_policy id
            (with_tables f (put_policy id (deploy_policy (set_archived none)) f.tables)))
      else some f
]

-- `(latest.version + 1) if latest else 1`
unfoldable pub next_number : List PolicyVersion → ℕ
unfolding latest_version
next_number versions = elim (latest_version versions) [ none ↦ 1 | some v ↦ v.version + 1 ]

unfoldable pub add_version : Fields → Policy → Policy
unfolding next_number
add_version spec p = record p {
  versions = p.versions ++ record { version = next_number p.versions; spec = spec } ∷ [];
}

-- `publish_version` of app/api/routers/policies.py, for a spec that was accepted
unfoldable pub publish_version : String → Fields → Fleet → Option Fleet
unfolding policy_by_id add_version put_policy invalidate_for_policy
publish_version id spec f = elim (policy_by_id id f.tables.policies) [
  | none ↦ none
  | some policy ↦
      some (invalidate_for_policy id (with_tables f (put_policy id (add_version spec) f.tables)))
]

-- `drop_assignments`
unfoldable pub drop_assignments : String → Tables → Tables
drop_assignments policy_id t = record t {
  assignments = keep (λ a. not (text_eq a.policy_id policy_id)) t.assignments;
}

-- `delete` of app/services/policy_admin.py
unfoldable pub delete_policy : String → Fleet → Option Fleet
unfolding policy_by_id is_archived drop_assignments
delete_policy id f = elim (policy_by_id id f.tables.policies) [
  | none ↦ none
  | some policy ↦
      if is_archived policy.deployment
      then elim policy.profile_id [
        | none ↦
            let dropped = drop_assignments id f.tables in
            some (
              with_tables f
                (record dropped { policies = keep (λ p. not (text_eq p.id id)) dropped.policies }))
        | some profile_id ↦ none
      ]
      else none
]

-- `archive` and `restore` of app/services/profiles.py
unfoldable pub archive_profile : ℕ → PolicyProfile → Fleet → Fleet
unfolding is_archived devices_affected_by_profile put_profile invalidate
archive_profile now profile f =
    if is_archived profile.deployment
    then f
    else let t = put_profile profile.id (deploy_profile (set_archived (some now))) f.tables in
      invalidate (devices_affected_by_profile profile.id f) (
        with_tables f (record t {
          profile_assignments =
              keep (λ pa. not (text_eq pa.profile_id profile.id)) t.profile_assignments;
        }))

unfoldable pub restore_profile : PolicyProfile → Fleet → Fleet
unfolding is_archived put_profile invalidate_for_profile
restore_profile profile f =
    if is_archived profile.deployment
    then invalidate_for_profile profile.id
        (with_tables f (put_profile profile.id (deploy_profile (set_archived none)) f.tables))
    else f

-- `section_for`
unfoldable pub section_for : String → String → List Policy → Option Policy
unfolding sections is_id
section_for profile_id category_key policies =
    first_of (λ p. is_id category_key p.profile_section) (sections profile_id policies)

-- `latest and latest.spec == validated`
unfoldable pub is_published : Fields → List PolicyVersion → Bool
unfolding latest_version py_eq
is_published spec versions = elim (latest_version versions) [
  | none ↦ false
  | some v ↦ py_eq (obj v.spec) (obj spec)
]

-- the writing part of `upsert_section`, for a spec that is not empty and was accepted; `fresh` is the
-- row of a new section
unfoldable pub upsert_section : Policy → PolicyProfile → String → Fields → Fleet → Fleet
unfolding section_for is_published add_version put_policy invalidate_for_policy
upsert_section fresh profile category_key spec f =
    elim (section_for profile.id category_key f.tables.policies) [
      | none ↦ with_tables f (record f.tables { policies = f.tables.policies ++ fresh ∷ [] })
      | some child ↦
          if is_published spec child.versions
          then f
          else invalidate_for_policy child.id
              (with_tables f (put_policy child.id (add_version spec) f.tables))
    ]

-- the writing part of `remove_section`
unfoldable pub remove_section : PolicyProfile → String → Fleet → Fleet
unfolding section_for devices_affected_by_policy invalidate
remove_section profile category_key f =
    elim (section_for profile.id category_key f.tables.policies) [
      | none ↦ f
      | some child ↦ invalidate (devices_affected_by_policy child.id f) (
          with_tables f (record f.tables {
            policies = keep (λ p. not (text_eq p.id child.id)) f.tables.policies;
          }))
    ]

-- the row that `create_assignment` builds, whose target stands in the column of its scope
unfoldable pub new_assignment :
    String → String → AssignmentScope → String → ℤ → Bool → Option PolicyVersion → Assignment
new_assignment fresh_id policy_id scope target_id rank enabled pinned = record {
  id = fresh_id;
  policy_id = policy_id;
  pinned_version = pinned;
  scope = scope;
  device_id = elim scope [ device ↦ some target_id | group ↦ none ];
  group_id = elim scope [ device ↦ none | group ↦ some target_id ];
  rank = rank;
  enabled = enabled;
}

-- `create_assignment` of app/api/routers/assignments.py, once the policy and the target are found
unfoldable pub create_assignment :
    String → String → AssignmentScope → String → ℤ → Bool → Option PolicyVersion → Fleet → Fleet
unfolding new_assignment invalidate_for_assignment
create_assignment fresh_id policy_id scope target_id rank enabled pinned f =
    let a = new_assignment fresh_id policy_id scope target_id rank enabled pinned in
    invalidate_for_assignment a
      (with_tables f (record f.tables { assignments = f.tables.assignments ++ a ∷ [] }))

-- `setattr` of the two columns that a request may name
abbrev pub updated : Option ℤ → Option Bool → Assignment → Assignment
updated rank enabled a =
    let ranked : Assignment = elim rank [ none ↦ a | some r ↦ record a { rank = r } ] in
    elim enabled [ none ↦ ranked | some e ↦ record ranked { enabled = e } ]

abbrev pub is_empty : Option ℤ → Option Bool → Bool
is_empty none none = true
is_empty _ _ = false

unfoldable pub update_assignment : Assignment → Option ℤ → Option Bool → Fleet → Fleet
unfolding put_assignment invalidate_for_assignment
update_assignment a rank enabled f =
    if is_empty rank enabled
    then f
    else invalidate_for_assignment a
        (with_tables f (put_assignment a.id (updated rank enabled) f.tables))

unfoldable pub delete_assignment : Assignment → Fleet → Fleet
unfolding devices_targeted_by invalidate
delete_assignment a f = invalidate (devices_targeted_by f.devices a) (
    with_tables f
      (record f.tables { assignments = keep (λ b. not (text_eq b.id a.id)) f.tables.assignments }))
