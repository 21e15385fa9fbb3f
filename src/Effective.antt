-- ===== src/Effective.antt =====
-- app/services/effective_policy.py: the assignments that reach a device, on the tables of
-- app/db/models.py. The rows of a query stand in the order of their table, which the resolver does not
-- see. `Rows` has the tables, `Invalidation` the cache rows, `Refresh` what is computed and kept.
pub mod Rows
pub mod Invalidation
pub mod Refresh
pub mod Writes
pub mod Lookup
pub mod Affected
pub mod Horizon
pub mod Reach
pub mod Calls
pub mod Fresh
pub mod Consistent
pub mod Kept
pub mod Reading
pub mod Sound
pub mod History
pub mod Again
pub mod InForce
pub mod Gathered
pub mod NewSection
use Prim.Native.String.{◌++◌ as glue}
use tak_mdm.Base.{
  ℕ, String, Bool, true, false, Option, none, some, List, [], ◌∷◌, ◌++◌, if◌then◌else◌, any, keep,
  first_of, map, not, ◌&&◌, ◌||◌,
}
use tak_mdm.Base.Int.{ℤ, pos}
use mathlib.Core.List.{flat_map}
use tak_mdm.Base.Text.{text_eq}
use tak_mdm.Breach.{is_engaged}
use tak_mdm.Deployment.{is_live, is_archived, soonest, earlier}
use tak_mdm.Effective.Rows.{
  Policy, PolicyVersion, PolicyProfile, Assignment, ProfileAssignment, Device, Tables, id_of,
  scope_value,
}
use tak_mdm.Merge.{ok, err}
use tak_mdm.Resolver.{AssignmentInput, PolicySnapshot}
use tak_mdm.Resolver.Resolve.{Registry, registry_get}

-- `session.get(Policy, id)`
unfoldable pub policy_by_id : String → List Policy → Option Policy
policy_by_id id = first_of (λ p. text_eq p.id id)

unfoldable pub profile_by_id : String → List PolicyProfile → Option PolicyProfile
profile_by_id id = first_of (λ p. text_eq p.id id)

-- A column that may be empty equals the value.
unfoldable pub is_id : String → Option String → Bool
is_id id none = false
is_id id (some other) = text_eq other id

-- `profile.sections`
unfoldable pub sections : String → List Policy → List Policy
unfolding is_id
sections profile_id policies = keep (λ p. is_id profile_id p.profile_id) policies

-- `versions[-1] if versions else None`
unfoldable pub latest_version : List PolicyVersion → Option PolicyVersion
latest_version [] = none
latest_version (v ∷ []) = some v
latest_version (v ∷ w ∷ versions) = latest_version (w ∷ versions)

-- the test `device_id == device.id or group_id in group_ids` of the queries
unfoldable pub reaches : Device → Option String → Option String → Bool
unfolding is_id
reaches d device_id group_id = is_id (id_of d) device_id || any (λ g. is_id g group_id) d.groups

-- `_effective_version`
unfoldable pub effective_version : Assignment → Policy → Option PolicyVersion
unfolding latest_version
effective_version a policy = elim a.pinned_version [
  | none ↦ latest_version policy.versions
  | some v ↦ some v
]

-- `_snapshot`
unfoldable pub snapshot : Policy → PolicyVersion → PolicySnapshot
snapshot policy version = record {
  policy_id = policy.id;
  policy_name = policy.name;
  policy_type = policy.policy_type;
  version = version.version;
  spec = version.spec;
}

unfoldable pub is_registered : Registry → String → Bool
unfolding registry_get
is_registered reg name = elim (registry_get name reg) [ ok rules ↦ true | err e ↦ false ]

-- the input that a policy with this version makes, unless its type is unknown
unfoldable pub input_of :
    Registry → String → String → ℤ → Policy → Option PolicyVersion → List AssignmentInput
unfolding is_registered snapshot
input_of reg id scope rank policy none = []
input_of reg id scope rank policy (some version) =
    if is_registered reg policy.policy_type
    then record { assignment_id = id; scope = scope; rank = rank; policy = snapshot policy version }
      ∷ []
    else []

-- what the loop of `gather_assignments` lets through
unfoldable pub applies : ℕ → Policy → Bool
unfolding is_archived is_live
applies now policy =
    not (is_archived policy.deployment)
    && (not policy.is_template
        && (is_live now policy.deployment && not (text_eq policy.policy_type "BREACH")))

-- the input that an assignment makes of its policy
unfoldable pub applied_input : ℕ → Registry → Assignment → Policy → List AssignmentInput
unfolding applies effective_version input_of scope_value
applied_input now reg a policy =
    if applies now policy
    then input_of reg a.id (scope_value a.scope) a.rank policy (effective_version a policy)
    else []

-- A row refers to a policy that is in the table.
unfoldable pub assignment_input : ℕ → Registry → List Policy → Assignment → List AssignmentInput
unfolding policy_by_id applied_input
assignment_input now reg policies a = elim (policy_by_id a.policy_id policies) [
  | none ↦ []
  | some policy ↦ applied_input now reg a policy
]

-- a section, under the id, scope and rank of what brings it
unfoldable pub section_input : Registry → String → String → ℤ → Policy → List AssignmentInput
unfolding is_archived latest_version input_of
section_input reg prefix scope rank section =
    if is_archived section.deployment
    then []
    else input_of reg (glue prefix section.id) scope rank section (latest_version section.versions)

-- the inputs that an assignment makes of the sections of its profile
unfoldable pub expanded :
    ℕ → Registry → List Policy → ProfileAssignment → PolicyProfile → List AssignmentInput
unfolding is_archived is_live sections section_input scope_value flat_map
expanded now reg policies pa profile =
    if not (is_archived profile.deployment) && is_live now profile.deployment
    then flat_map
        (section_input reg (glue "profile:" (glue pa.id ":")) (scope_value pa.scope) pa.rank)
        (sections profile.id policies)
    else []

unfoldable pub profile_input :
    ℕ → Registry → List PolicyProfile → List Policy → ProfileAssignment → List AssignmentInput
unfolding profile_by_id expanded
profile_input now reg profiles policies pa = elim (profile_by_id pa.profile_id profiles) [
  | none ↦ []
  | some profile ↦ expanded now reg policies pa profile
]

-- `_gather_profile_assignments`
unfoldable pub gather_profile_assignments : ℕ → Registry → Tables → Device → List AssignmentInput
unfolding reaches profile_input flat_map
gather_profile_assignments now reg t d =
    flat_map (profile_input now reg t.profiles t.policies)
      (keep (λ pa. pa.enabled && reaches d pa.device_id pa.group_id) t.profile_assignments)

-- `profile` of app/services/breach.py
unfoldable pub breach_profile : List PolicyProfile → Option PolicyProfile
breach_profile = first_of (λ p. text_eq p.name "Breach mode")

-- `_breach_assignments`
unfoldable pub breach_assignments : Registry → Tables → List AssignmentInput
unfolding breach_profile sections section_input flat_map
breach_assignments reg t = elim (breach_profile t.profiles) [
  | none ↦ []
  | some reserved ↦
      flat_map (section_input reg "breach:" "device" (pos 0)) (sections reserved.id t.policies)
]

unfoldable pub gather_assignments : ℕ → Registry → Tables → Device → List AssignmentInput
unfolding is_engaged breach_assignments reaches assignment_input gather_profile_assignments flat_map
gather_assignments now reg t d =
    if is_engaged d.breached
    then breach_assignments reg t
    else flat_map (assignment_input now reg t.policies)
        (keep (λ a. a.enabled && reaches d a.device_id a.group_id) t.assignments)
      ++ gather_profile_assignments now reg t d

-- `next_transition`, over both tables
unfoldable pub next_transition : ℕ → Tables → Option ℕ
unfolding soonest earlier
next_transition now t =
    earlier (soonest now (map (λ p. p.deployment) t.policies))
      (soonest now (map (λ p. p.deployment) t.profiles))
