-- ===== src/Tests/Complying.antt =====
-- The theorems on app/services/compliance_rules.py and compliance_actions.py, at a failing device.
use tak_mdm.Base.{ℕ, true, false, ◌≡◌, ◌↔◌, refl, none, some, List, [], ◌∷◌, ◌++◌, In, arith}
use tak_mdm.Commands.{DeviceCommand, Queue}
use tak_mdm.Compliance.{RuleResult, fail, Device, is_non_compliant}
use tak_mdm.Compliance.Actions.{ActionRules, is_our_wipe, check}
use tak_mdm.Compliance.Clock.{Check, after_checks, EndsCalm, FailingRun, after_checks-FailingRun}
use tak_mdm.Compliance.Alerts.{alerts_of, Alternate, after_checks-Alternate}
use tak_mdm.Compliance.Check.{WipeDue, check-wipes}
use tak_mdm.Compliance.Wipe.{wipes}

abbrev tablet : Device
tablet = record {
  id = "tablet";
  rules_status = none;
  rules_results = [];
  rules_checked_at = none;
  rules_failing_since = none;
}

abbrev unencrypted : RuleResult
unencrypted = record {
  key = "require_encryption";
  label = "Storage encrypted";
  outcome = fail;
  detail = "Not encrypted";
  enforced = true;
}

abbrev checks : List Check
checks = record { now = 10; results = [] } ∷ record { now = 20; results = unencrypted ∷ [] } ∷ []

abbrev rules : ActionRules
rules = record {
  suspend_packages = [];
  suspend_after_hours = some 0;
  lock_after_hours = some 1;
  wipe_after_days = some 1;
}

abbrev empty_queue : Queue
empty_queue = record { commands = []; wakes = [] }

after_checks-FailingRun_example :
    ((t : ℕ)
      → ((after_checks checks tablet).rules_failing_since ≡ some t) ↔ FailingRun none t checks)
    × (((after_checks checks tablet).rules_failing_since ≡ none) ↔ EndsCalm none checks)
after_checks-FailingRun_example = after_checks-FailingRun checks tablet refl

after_checks-Alternate_example :
    Alternate
      (is_non_compliant tablet.rules_status)
      (is_non_compliant (after_checks checks tablet).rules_status)
      (alerts_of checks tablet)
after_checks-Alternate_example = after_checks-Alternate checks tablet

check-wipes_example :
    let before = after_checks checks tablet in
    let after = (check 90000 "w" (unencrypted ∷ []) rules [] before empty_queue).1 in
    let history = checks ++ record { now = 90000; results = unencrypted ∷ [] } ∷ [] in
    ((WipeDue rules 90000 history → wipes before.id after.commands ≡ 1)
      × ((WipeDue rules 90000 history → ⊥) → wipes before.id after.commands ≡ 0))
    × ((c : DeviceCommand)
        → In c empty_queue.commands
        → is_our_wipe before.id c ≡ false
        → In c after.commands)
check-wipes_example =
    check-wipes rules [] checks tablet refl 90000 "w" (unencrypted ∷ []) empty_queue (omega arith)
      (λ c d i j e. absurd i)
