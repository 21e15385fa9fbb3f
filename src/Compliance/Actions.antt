-- ===== src/Compliance/Actions.antt =====
-- app/services/compliance_actions.py: the actions that are due while a device fails its rules.
use Prim.Native.String.{◌++◌ as glue}
use tak_mdm.Base.{
  ℕ, ◌+◌, ◌*◌, String, Bool, true, false, Option, none, some, List, [], ◌∷◌, ◌++◌, if◌then◌else◌,
  ltb, leb, min, first_of, ◌&&◌, map,
}
use tak_mdm.Base.Sorting.{sort_by}
use tak_mdm.Base.Text.{text_eq, join_with, sorted_set}
use tak_mdm.Json.{Fields, Items, bool, str, arr, nil, cons, end, field, lookup_field}
use tak_mdm.Compliance.{RuleResult, Device, Alert, record_check}
use tak_mdm.Commands.{CommandType, wipe, DeviceCommand, Queue, truthy, is_selected, enqueue, cancel}

-- the actions among the fields of the COMPLIANCE policy; no chosen package is the empty list
pub record ActionRules : Type 0 where
  pub suspend_packages : List String
  pub suspend_after_hours : Option ℕ
  pub lock_after_hours : Option ℕ
  pub wipe_after_days : Option ℕ

pub record Enforcement : Type 0 where
  pub suspend : List String
  pub lock_now : Bool
  pub wipe_now : Bool
  pub next_at : Option ℕ

-- `Enforcement()`
abbrev pub nothing_due : Enforcement
nothing_due = record { suspend = []; lock_now = false; wipe_now = false; next_at = none }

abbrev texts_of : List String → Items
texts_of [] = nil
texts_of (s ∷ l) = cons (str s) (texts_of l)

-- what the agent is sent
unfoldable pub state : Enforcement → Fields
state e =
    let suspended : Fields = elim e.suspend [
      | [] ↦ end
      | p ∷ ps ↦ field "suspend" (arr (texts_of (p ∷ ps))) end
    ] in
    if e.lock_now then field "lock" (bool true) suspended else suspended

-- `timedelta(hours=…)` and `timedelta(days=…)` in seconds
abbrev pub hours : Option ℕ → Option ℕ
hours none = none
hours (some n) = some (n * 3600)

abbrev pub whole_days : Option ℕ → Option ℕ
whole_days none = none
whole_days (some n) = some (n * 86400)

-- `reached`: whether the grace period is over, and the moments that are still to come.
unfoldable pub reached : ℕ → ℕ → Option ℕ → List ℕ → Bool × List ℕ
reached failing_since now none upcoming = (false, upcoming)
reached failing_since now (some after) upcoming =
    if leb (failing_since + after) now
    then (true, upcoming)
    else (false, upcoming ++ (failing_since + after) ∷ [])

-- `min(upcoming) if upcoming else None`
unfoldable pub earliest : List ℕ → Option ℕ
earliest [] = none
earliest (t ∷ l) = let rest = earliest l in elim rest [ none ↦ some t | some u ↦ some (min t u) ]

-- `rules.get("suspend_packages") or atak_packages`
unfoldable pub chosen_packages : ActionRules → List String → List String
chosen_packages rules atak_packages = elim rules.suspend_packages [
  | [] ↦ atak_packages
  | p ∷ ps ↦ p ∷ ps
]

unfoldable pub due : ActionRules → Option ℕ → ℕ → List String → Enforcement
unfolding reached earliest chosen_packages
due rules none now atak_packages = nothing_due
due rules (some since) now atak_packages =
    let suspended = reached since now (hours rules.suspend_after_hours) [] in
    let locked = reached since now (hours rules.lock_after_hours) suspended.1 in
    let wiped = reached since now (whole_days rules.wipe_after_days) locked.1 in
    record {
      suspend = if suspended.0 then sorted_set (chosen_packages rules atak_packages) else [];
      lock_now = locked.0;
      wipe_now = wiped.0;
      next_at = earliest wiped.1;
    }

pub record Step : Type 0 where
  pub action : String
  pub label : String
  pub at : ℕ
  pub active : Bool

-- the step of one action, if its rule is set
abbrev pub step_of : ℕ → ℕ → String → String → Option ℕ → List Step
step_of since now action label none = []
step_of since now action label (some after) =
    record { action = action; label = label; at = since + after; active = leb (since + after) now }
    ∷ []

-- `", ".join(sorted(set(…))) or "ATAK"`
unfoldable pub suspend_label : ActionRules → List String → String
unfolding chosen_packages
suspend_label rules atak =
    let apps = join_with ", " (sorted_set (chosen_packages rules atak)) in
    glue "Suspend " (if text_eq apps "" then "ATAK" else apps)

unfoldable pub timeline : ActionRules → Option ℕ → ℕ → List String → List Step
unfolding suspend_label sort_by
timeline rules none now atak = []
timeline rules (some since) now atak =
    sort_by (λ a b. ltb a.at b.at)
      (step_of since now "suspend" (suspend_label rules atak) (hours rules.suspend_after_hours)
        ++ (step_of since now "lock" "Lock the device on each check-in"
              (hours rules.lock_after_hours)
            ++ step_of since now "wipe" "Wipe the device" (whole_days rules.wipe_after_days)))

unfoldable pub is_wipe : CommandType → Bool
is_wipe wipe = true
is_wipe _ = false

-- a wipe that this module queued, still on its way
unfoldable pub is_our_wipe : String → DeviceCommand → Bool
unfolding is_selected is_wipe truthy
is_our_wipe device_id c =
    is_selected device_id c
    && is_wipe c.command_type
    && elim (lookup_field "compliance" c.params) [ none ↦ false | some v ↦ truthy v ]

unfoldable pub pending_wipe : String → List DeviceCommand → Option DeviceCommand
unfolding is_our_wipe
pending_wipe device_id l = first_of (is_our_wipe device_id) l

abbrev pub wipe_params : Fields
wipe_params = field "compliance" (bool true) (field "wipe_external_storage" (bool true) end)

-- `cancel` of our row, and its error
abbrev pub say_cancelled : String → DeviceCommand → DeviceCommand
say_cancelled id c =
    if text_eq c.id id
    then record c { error = some "cancelled: the device passes its compliance rules again" }
    else c

unfoldable pub withdraw : ℕ → String → List DeviceCommand → List DeviceCommand
unfolding cancel
withdraw now id l = map (say_cancelled id) (cancel now id l)

-- `none` is an exception of `enqueue`; `max_attempts` is its default.
unfoldable pub sync_wipe : ℕ → String → String → Enforcement → Queue → Option Queue
unfolding pending_wipe enqueue withdraw
sync_wipe now fresh_id device_id enforcement q = elim (pending_wipe device_id q.commands) [
  | none ↦
      if enforcement.wipe_now
      then elim (enqueue now fresh_id device_id wipe wipe_params none 5 q) [
        | none ↦ none
        | some (c, q') ↦ some q'
      ]
      else some q
  | some existing ↦
      if enforcement.wipe_now
      then some q
      else some (record q { commands = withdraw now existing.id q.commands })
]

-- `check`, on the results of the rules: the device is stored, and its wipe queued or cancelled. An
-- exception of the second part leaves the first.
unfoldable pub check :
    ℕ
    → String
    → List RuleResult
    → ActionRules
    → List String
    → Device
    → Queue
    → (Device × List Alert × Bool) × Queue
unfolding record_check due sync_wipe
check now fresh_id results rules atak_packages device q =
    let stored = record_check now results device in
    elim (sync_wipe now fresh_id device.id
      (due rules stored.0.rules_failing_since now atak_packages) q) [
        | none ↦ ((stored.0, stored.1, false), q)
        | some q' ↦ (stored, q')
      ]
