-- ===== src/Effective/Calls.antt =====
-- What changes the policies and assignments of a fleet, and what reads them, as a sequence of calls.
use tak_mdm.Base.{
  ℕ, ◌≤◌, String, Bool, Option, none, some, List, [], ◌∷◌, if◌then◌else◌, any, first_of,
}
use tak_mdm.Base.Int.{ℤ}
use tak_mdm.Base.Text.{text_eq}
use tak_mdm.Deployment.Sweep.{Item, activate, hold, sweep}
use tak_mdm.Effective.Invalidation.{Fleet}
use tak_mdm.Effective.Refresh.{Payload, get_effective}
use tak_mdm.Effective.Rows.{
  Assignment, AssignmentScope, Device, PolicyProfile, PolicyVersion, id_of,
}
use tak_mdm.Effective.Writes.{
  archive_policy, restore_policy, delete_policy, publish_version, archive_profile, restore_profile,
  create_assignment, update_assignment, delete_assignment,
}
use tak_mdm.Json.{Value, Fields}
use tak_mdm.Merge.{ok, err}
use tak_mdm.Resolver.{EffectivePolicy}
use tak_mdm.Resolver.Resolve.{Registry}

pub data Call : Type 0 where
  read : String → Call
  publish : String → Fields → Call
  archive : String → Call
  restore : String → Call
  delete : String → Call
  archive_bundle : PolicyProfile → Call
  restore_bundle : PolicyProfile → Call
  deploy : Item → Call
  withdraw : Item → Option ℕ → Call
  deploy_due : Call
  assign : String → String → AssignmentScope → String → ℤ → Bool → Option PolicyVersion → Call
  change : String → Option ℤ → Option Bool → Call
  unassign : String → Call

unfoldable pub device_by_id : String → List Device → Option Device
device_by_id id = first_of (λ d. text_eq (id_of d) id)

-- `fetch_or_404`
unfoldable pub assignment_by_id : String → List Assignment → Option Assignment
assignment_by_id id = first_of (λ a. text_eq a.id id)

-- An exception leaves everything as it was.
abbrev pub or_same : Fleet → Option Fleet → Fleet
or_same f none = f
or_same f (some g) = g

module _ (dumps : Value → String) (reg : Registry)
    (finish : String → ℕ → EffectivePolicy → Payload × Option ℕ) where
  unfoldable pub read_device : ℕ → String → Fleet → Fleet
  unfolding device_by_id get_effective
  read_device now id f = elim (device_by_id id f.devices) [
    | none ↦ f
    | some d ↦ elim (get_effective dumps reg finish now f d) [ err e ↦ f | ok (p, g) ↦ g ]
  ]

  -- An id that is taken is refused by the table.
  unfoldable pub after_call : ℕ → Call → Fleet → Fleet
  unfolding read_device publish_version archive_policy restore_policy delete_policy archive_profile
      restore_profile activate hold sweep assignment_by_id create_assignment update_assignment
      delete_assignment
  after_call now (read id) f = read_device now id f
  after_call now (publish id spec) f = or_same f (publish_version id spec f)
  after_call now (archive id) f = or_same f (archive_policy now id f)
  after_call now (restore id) f = or_same f (restore_policy id f)
  after_call now (delete id) f = or_same f (delete_policy id f)
  after_call now (archive_bundle profile) f = archive_profile now profile f
  after_call now (restore_bundle profile) f = restore_profile profile f
  after_call now (deploy item) f = (activate now item f).1
  after_call now (withdraw item effective_at) f = hold item effective_at f
  after_call now deploy_due f = (sweep now f).1
  after_call now (assign id policy_id scope target_id rank enabled pinned) f =
      if any (λ a. text_eq a.id id) f.tables.assignments
      then f
      else create_assignment id policy_id scope target_id rank enabled pinned f
  after_call now (change id rank enabled) f = elim (assignment_by_id id f.tables.assignments) [
    | none ↦ f
    | some a ↦ update_assignment a rank enabled f
  ]
  after_call now (unassign id) f = elim (assignment_by_id id f.tables.assignments) [
    | none ↦ f
    | some a ↦ delete_assignment a f
  ]

  unfoldable pub after_calls : List (ℕ × Call) → Fleet → Fleet
  unfolding after_call
  after_calls [] f = f
  after_calls ((now, call) ∷ calls) f = after_calls calls (after_call now call f)

-- The clock does not run backwards, from a moment to the calls and on to another moment.
abbrev pub InOrder : ℕ → List (ℕ × Call) → ℕ → Type 0
InOrder start [] end_at = start ≤ end_at
InOrder start ((now, call) ∷ calls) end_at = (start ≤ now) × InOrder now calls end_at
