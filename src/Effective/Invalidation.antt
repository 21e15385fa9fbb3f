-- ===== src/Effective/Invalidation.antt =====
-- The cache rows of app/services/effective_policy.py, and which devices a change of a row reaches.
use mathlib.Core.List.{flat_map}
use tak_mdm.Base.{
  ℕ, String, Bool, true, false, Option, none, some, List, [], ◌∷◌, ◌++◌, if◌then◌else◌, leb, any,
  keep, map,
}
use tak_mdm.Base.Text.{text_eq, distinct}
use tak_mdm.Breach.{is_engaged}
use tak_mdm.Effective.{is_id, policy_by_id, profile_by_id}
use tak_mdm.Effective.Rows.{
  Device, Assignment, ProfileAssignment, AssignmentScope, device, group, Tables, id_of,
}
use tak_mdm.Json.{Fields}

pub record EffectivePolicyCache : Type 0 where
  pub device_id : String
  pub state_version : ℕ
  pub payload : Fields
  pub stale : Bool
  pub computed_at : ℕ
  pub next_transition_at : Option ℕ

-- The database; `woken` are the devices that `schedule_wake` was called with, in order.
pub record Fleet : Type 0 where
  pub tables : Tables
  pub devices : List Device
  pub caches : List EffectivePolicyCache
  pub woken : List String

unfoldable pub expired : ℕ → EffectivePolicyCache → Bool
expired now cache = elim cache.next_transition_at [ none ↦ false | some t ↦ leb t now ]

unfoldable pub mark_stale : List String → EffectivePolicyCache → EffectivePolicyCache
mark_stale ids cache =
    if any (text_eq cache.device_id) ids then record cache { stale = true } else cache

unfoldable pub invalidate : List String → Fleet → Fleet
unfolding mark_stale
invalidate [] f = f
invalidate (id ∷ ids) f = record f {
  caches = map (mark_stale (id ∷ ids)) f.caches;
  woken = f.woken ++ distinct (id ∷ ids);
}

unfoldable pub invalidate_all : Fleet → Fleet
invalidate_all f = record f {
  caches = map {A = EffectivePolicyCache} (λ c. record c { stale = true }) f.caches;
  woken = f.woken ++ map (λ c. c.device_id) f.caches;
}

-- `{id} if id else set()`
abbrev pub if_any : Option String → List String
if_any none = []
if_any (some id) = id ∷ []

-- the devices of a group
unfoldable pub members : Option String → List Device → List String
unfolding is_id
members group_id devices = map id_of (keep (λ d. any (λ g. is_id g group_id) d.groups) devices)

-- what a row of this scope and these columns reaches
unfoldable pub targeted :
    List Device → AssignmentScope → Option String → Option String → List String
unfolding members
targeted devices device device_id group_id = if_any device_id
targeted devices group device_id group_id = members group_id devices

unfoldable pub devices_targeted_by : List Device → Assignment → List String
unfolding targeted
devices_targeted_by devices a = targeted devices a.scope a.device_id a.group_id

unfoldable pub devices_targeted_by_profile_assignment :
    List Device → ProfileAssignment → List String
unfolding targeted
devices_targeted_by_profile_assignment devices pa =
    targeted devices pa.scope pa.device_id pa.group_id

unfoldable pub devices_affected_by_profile : String → Fleet → List String
unfolding devices_targeted_by_profile_assignment flat_map
devices_affected_by_profile profile_id f =
    flat_map (devices_targeted_by_profile_assignment f.devices)
      (keep (λ pa. text_eq pa.profile_id profile_id) f.tables.profile_assignments)

-- `_devices_in_breach_if_reserved`
unfoldable pub devices_in_breach_if_reserved : String → Fleet → List String
unfolding profile_by_id is_engaged
devices_in_breach_if_reserved profile_id f = elim (profile_by_id profile_id f.tables.profiles) [
  | none ↦ []
  | some reserved ↦
      if text_eq reserved.name "Breach mode"
      then map id_of (keep (λ d. is_engaged d.breached) f.devices)
      else []
]

unfoldable pub devices_affected_by_policy : String → Fleet → List String
unfolding devices_targeted_by policy_by_id devices_affected_by_profile devices_in_breach_if_reserved
    flat_map
devices_affected_by_policy policy_id f =
    let direct =
      flat_map (devices_targeted_by f.devices)
        (keep (λ a. text_eq a.policy_id policy_id) f.tables.assignments) in
    elim (policy_by_id policy_id f.tables.policies) [
      | none ↦ direct
      | some policy ↦ elim policy.profile_id [
        | none ↦ direct
        | some profile_id ↦
            direct
            ++ (devices_affected_by_profile profile_id f
                ++ devices_in_breach_if_reserved profile_id f)
      ]
    ]

unfoldable pub invalidate_for_assignment : Assignment → Fleet → Fleet
unfolding devices_targeted_by invalidate
invalidate_for_assignment a f = invalidate (devices_targeted_by f.devices a) f

unfoldable pub invalidate_for_policy : String → Fleet → Fleet
unfolding devices_affected_by_policy invalidate
invalidate_for_policy policy_id f = invalidate (devices_affected_by_policy policy_id f) f

unfoldable pub invalidate_for_profile : String → Fleet → Fleet
unfolding devices_affected_by_profile invalidate
invalidate_for_profile profile_id f = invalidate (devices_affected_by_profile profile_id f) f
