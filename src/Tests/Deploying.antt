-- ===== src/Tests/Deploying.antt =====
-- The theorems on app/services/effective_policy.py and app/services/deployment.py, at a concrete fleet.
use tak_mdm.Base.{
  ℕ, ◌≤◌, List, String, true, false, ◌≡◌, refl, Option, none, some, [], ◌∷◌, inl, inr, sym, ◌∙◌, In,
  arith, length, ◌↔◌,
}
use tak_mdm.Base.Int.{pos}
use tak_mdm.Breach.{is_engaged}
use tak_mdm.Deployment.{Deployable, is_archived}
use tak_mdm.Deployment.Sweep.{due, sweep}
use tak_mdm.Deployment.Swept.{sweep-exact}
use tak_mdm.Base.Rows.{OneRow}
use tak_mdm.Effective.{
  gather_assignments, reaches, profile_by_id, next_transition, latest_version, is_registered,
}
use tak_mdm.Effective.Affected.{IsConsistent}
use tak_mdm.Effective.Calls.{Call, publish, deploy_due}
use tak_mdm.Effective.Gathered.{Gathered, gather_assignments-Gathered, input}
use tak_mdm.Effective.Horizon.{Before, gather_assignments_same}
use tak_mdm.Effective.Invalidation.{EffectivePolicyCache, Fleet}
use tak_mdm.Effective.NewSection.{upsert_section-unnoticed}
use tak_mdm.Effective.Refresh.{Payload, stored, keep_payload}
use tak_mdm.Effective.Rows.{
  Policy, PolicyVersion, PolicyProfile, Assignment, ProfileAssignment, AssignmentScope, Device,
  Tables, scope_value,
}
use tak_mdm.Effective.Writes.{upsert_section, section_for}
use tak_mdm.Json.{Value, null, bool, obj, end, field}
use tak_mdm.Merge.{Merge, MergeStrategy}
use tak_mdm.Resolver.{EffectivePolicy, AssignmentInput}
use tak_mdm.Resolver.Resolve.{Registry}

abbrev dumps : Value → String
dumps v = ""

abbrev camera_rule : Merge
camera_rule = record {
  strategy = MergeStrategy.most_restrictive;
  key = none;
  note = none;
  identity = none;
}

abbrev registry : Registry
registry = ("restrictions", ("camera", camera_rule) ∷ []) ∷ ("BREACH", []) ∷ []

abbrev at_eight : Deployable
at_eight = record {
  archived_at = none;
  pending_deployment = true;
  effective_at = some 8;
  activated_at = none;
}

abbrev in_force : Deployable
in_force = record {
  archived_at = none;
  pending_deployment = false;
  effective_at = none;
  activated_at = none;
}

abbrev first_version : PolicyVersion
first_version = record { version = 1; spec = field "camera" (bool false) end }

abbrev no_camera : Policy
no_camera = record {
  id = "p";
  name = "No camera";
  policy_type = "restrictions";
  is_template = false;
  profile_id = none;
  profile_section = none;
  versions = first_version ∷ [];
  deployment = at_eight;
}

abbrev field_kit : PolicyProfile
field_kit = record { id = "k"; name = "Field kit"; is_template = false; deployment = in_force }

abbrev to_tablet : Assignment
to_tablet = record {
  id = "a";
  policy_id = "p";
  pinned_version = none;
  scope = AssignmentScope.device;
  device_id = some "tablet";
  group_id = none;
  rank = pos 10;
  enabled = true;
}

abbrev kit_to_scouts : ProfileAssignment
kit_to_scouts = record {
  id = "b";
  profile_id = "k";
  scope = AssignmentScope.group;
  device_id = none;
  group_id = some "scouts";
  rank = pos 5;
  enabled = true;
}

abbrev tablet : Device
tablet = record {
  breached = record {
    id = "tablet";
    serial_number = "R52";
    breach_engaged_at = none;
    breach_engaged_by = none;
    breach_confirmed_at = none;
  };
  groups = "scouts" ∷ [];
  state_version = 3;
}

abbrev tables : Tables
tables = record {
  policies = no_camera ∷ [];
  profiles = field_kit ∷ [];
  assignments = to_tablet ∷ [];
  profile_assignments = kit_to_scouts ∷ [];
}

abbrev fleet : Fleet
fleet = record { tables = tables; devices = tablet ∷ []; caches = []; woken = [] }

-- A payload with nothing but the resolved values in it, which never changes by itself.
abbrev finish : String → ℕ → EffectivePolicy → Payload × Option ℕ
finish id now e = (
  record {
    values = obj end;
    apps = null;
    store = null;
    files = null;
    wallpaper = null;
    oem_licensing = null;
    compliance_enforcement = null;
    tak_enroll = null;
    atlas_plugin_host = null;
    eula_version = null;
    distrusted_cas = null;
    others = end;
  },
  none,
)

one_row : {A : Type 0} (id : A → String) (x : A) → OneRow id (x ∷ [])
one_row id x a b (inl p) (inl q) e = p ∙ sym q
one_row id x a b (inl p) (inr j) e = absurd j
one_row id x a b (inr i) j e = absurd i

tables-IsConsistent : IsConsistent tables
tables-IsConsistent = record {
  one_policy = one_row (λ (p : Policy). p.id) no_camera;
  one_profile = one_row (λ (p : PolicyProfile). p.id) field_kit;
  one_assignment = one_row (λ (a : Assignment). a.id) to_tablet;
  assigned = λ a i. elim i [ inl e ↦ rw e refl | inr j ↦ absurd j ];
  profile_assigned = λ a i. elim i [ inl e ↦ rw e refl | inr j ↦ absurd j ];
}

abbrev calls : List (ℕ × Call)
calls = (7, publish "p" end) ∷ (9, deploy_due) ∷ []

sweep-exact_example :
    ((sweep 9 fleet).0 ≡ length (due 9 tables))
    × (due 9 (sweep 9 fleet).1.tables ≡ [])
    × ((u : ℕ) (reg : Registry) (d : Device)
        → 9 ≤ u
        → gather_assignments u reg (sweep 9 fleet).1.tables d ≡ gather_assignments u reg tables d)
sweep-exact_example = sweep-exact 9 fleet tables-IsConsistent

one_due : (sweep 9 fleet).0 ≡ 1
unfolding sweep
one_due = refl

nothing_at_seven : gather_assignments 7 registry tables tablet ≡ []
unfolding gather_assignments
nothing_at_seven = refl

abbrev camera_input : AssignmentInput
camera_input = input "a" "device" (pos 10) no_camera first_version

one_at_nine : gather_assignments 9 registry tables tablet ≡ camera_input ∷ []
unfolding gather_assignments
one_at_nine = refl

gather_assignments-Gathered_example :
    In camera_input (gather_assignments 9 registry tables tablet)
    ↔ Gathered 9 registry tables tablet camera_input
gather_assignments-Gathered_example =
    gather_assignments-Gathered 9 registry tables tablet camera_input

abbrev empty_policy : EffectivePolicy
empty_policy = record {
  device_id = "tablet";
  values = [];
  provenance = [];
  conflicts = [];
  considered = [];
}

abbrev kept : Fleet
kept = keep_payload dumps registry finish 7 fleet tablet (finish "tablet" 7 empty_policy)

abbrev kept_row : EffectivePolicyCache
kept_row = record {
  device_id = "tablet";
  state_version = 4;
  payload = stored (finish "tablet" 7 empty_policy).0;
  stale = false;
  computed_at = 7;
  next_transition_at = some 8;
}

-- a section for the profile, of the type that no assignment may bring
abbrev wipe_folders : Policy
wipe_folders = record {
  id = "s";
  name = "Field kit · Breach mode";
  policy_type = "BREACH";
  is_template = false;
  profile_id = some "k";
  profile_section = some "breach";
  versions = first_version ∷ [];
  deployment = in_force;
}

no_section : section_for "k" "breach" (no_camera ∷ []) ≡ none
unfolding section_for
no_section = refl

scouts_reached : reaches tablet none (some "scouts") ≡ true
unfolding reaches
scouts_reached = refl

kit_found : profile_by_id "k" (field_kit ∷ []) ≡ some field_kit
unfolding profile_by_id
kit_found = refl

upsert_section-unnoticed_example :
    In (input "profile:b:s" "group" (pos 5) wipe_folders first_version) (
      gather_assignments 7 registry
        (upsert_section wipe_folders field_kit "breach" end fleet).tables
        tablet)
    × ((upsert_section wipe_folders field_kit "breach" end fleet).caches ≡ [])
    × ((upsert_section wipe_folders field_kit "breach" end fleet).woken ≡ [])
unfolding is_engaged is_archived latest_version is_registered scope_value
upsert_section-unnoticed_example =
    upsert_section-unnoticed 7 registry fleet tablet kit_to_scouts field_kit "breach" end
      wipe_folders first_version no_section refl (inl refl) scouts_reached kit_found
      (refl, inl refl) refl refl refl refl

eight_ahead : Before 7 (next_transition 3 tables)
unfolding next_transition
eight_ahead = omega arith

gather_assignments_same_example :
    gather_assignments 7 registry tables tablet ≡ gather_assignments 3 registry tables tablet
gather_assignments_same_example =
    gather_assignments_same 3 7 registry tables (omega arith) eight_ahead tablet
