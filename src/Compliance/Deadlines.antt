-- ===== src/Compliance/Deadlines.antt =====
-- The moments at which the actions of app/services/compliance_actions.py change.
use tak_mdm.Base.{ℕ, Bool, List, [], String, if◌then◌else◌}
use tak_mdm.Base.Text.{sorted_set}
use tak_mdm.Compliance.Actions.{
  ActionRules, Enforcement, hours, whole_days, reached, earliest, chosen_packages,
}

module _ (rules : ActionRules) (since : ℕ) (packages : List String) where
  abbrev suspended : ℕ → Bool × List ℕ
  suspended now = reached since now (hours rules.suspend_after_hours) []

  abbrev locked : ℕ → Bool × List ℕ
  locked now = reached since now (hours rules.lock_after_hours) (suspended now).1

  abbrev wiped : ℕ → Bool × List ℕ
  wiped now = reached since now (whole_days rules.wipe_after_days) (locked now).1

  abbrev enforcement_of : Bool × List ℕ → Bool × List ℕ → Bool × List ℕ → Enforcement
  enforcement_of s l w = record {
    suspend = if s.0 then sorted_set (chosen_packages rules packages) else [];
    lock_now = l.0;
    wipe_now = w.0;
    next_at = earliest w.1;
  }
