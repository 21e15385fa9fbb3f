-- ===== src/Compliance.antt =====
-- app/services/compliance_rules.py: the verdict on a device's rules and what is stored of it. The
-- results of the rules are given. Times are whole seconds.
pub mod Actions
pub mod Clock
pub mod Alerts
pub mod Deadlines
pub mod Timeline
pub mod Wipe
pub mod Check
use tak_mdm.Base.{
  ℕ, String, Bool, true, false, Option, none, some, List, [], ◌∷◌, map, keep, any, if◌then◌else◌,
  ◌&&◌, ◌||◌, not,
}
use tak_mdm.Base.Text.{join_with}

pub data Outcome : Type 0 where
  pass : Outcome
  fail : Outcome
  unreported : Outcome

pub data Verdict : Type 0 where
  no_rules : Verdict
  compliant : Verdict
  non_compliant : Verdict
  unknown : Verdict

pub record RuleResult : Type 0 where
  pub key : String
  pub label : String
  pub outcome : Outcome
  pub detail : String
  pub enforced : Bool

-- the columns of a device that the rules are recorded in
pub record Device : Type 0 where
  pub id : String
  pub rules_status : Option Verdict
  pub rules_results : List RuleResult
  pub rules_checked_at : Option ℕ
  pub rules_failing_since : Option ℕ

-- what `_note` hands to the alerts: the event and its detail
pub record Alert : Type 0 where
  pub event : String
  pub detail : Option String

unfoldable pub is_fail : Outcome → Bool
is_fail pass = false
is_fail fail = true
is_fail unreported = false

unfoldable pub is_pass : Outcome → Bool
is_pass pass = true
is_pass fail = false
is_pass unreported = false

-- Whether a failure counts toward suspend, lock and wipe.
unfoldable pub enforcing : List RuleResult → Bool
unfolding is_fail
enforcing = any (λ r. is_fail r.outcome && r.enforced)

unfoldable pub verdict : List RuleResult → Verdict
unfolding is_fail is_pass
verdict [] = no_rules
verdict (r ∷ rs) =
    if any (λ x. is_fail x.outcome) (r ∷ rs)
    then non_compliant
    else if any (λ x. is_pass x.outcome) (r ∷ rs)
    then compliant
    else unknown

unfoldable pub is_non_compliant : Option Verdict → Bool
is_non_compliant none = false
is_non_compliant (some no_rules) = false
is_non_compliant (some compliant) = false
is_non_compliant (some non_compliant) = true
is_non_compliant (some unknown) = false

-- `is not None`
abbrev pub is_set : Option ℕ → Bool
is_set none = false
is_set (some t) = true

-- the start of the clock that the actions count from
unfoldable pub next_failing_since : ℕ → List RuleResult → Option ℕ → Option ℕ
unfolding enforcing
next_failing_since now results since =
    if enforcing results then elim since [ none ↦ some now | some t ↦ some t ] else none

abbrev pub fails_event : String
fails_event = "device_fails_compliance_rules"

abbrev pub meets_event : String
meets_event = "device_meets_compliance_rules"

-- `record`: the device as it is stored, the alerts that are noted, and whether the actions due moved.
unfoldable pub record_check : ℕ → List RuleResult → Device → Device × List Alert × Bool
unfolding verdict is_non_compliant is_fail next_failing_since
record_check now results device =
    let was = is_non_compliant device.rules_status in
    let is_now = is_non_compliant (some (verdict results)) in
    let since = next_failing_since now results device.rules_failing_since in
    let stored = record device {
      rules_status = some (verdict results);
      rules_results = results;
      rules_checked_at = some now;
      rules_failing_since = since;
    } in
    let failing = join_with ", " (map (λ r. r.label) (keep (λ r. is_fail r.outcome) results)) in
    let moved = if is_set device.rules_failing_since then not (is_set since) else is_set since in
    if is_now && not was
    then (stored, record { event = fails_event; detail = some failing } ∷ [], true)
    else if not is_now && was
    then (stored, record { event = meets_event; detail = none } ∷ [], true)
    else (stored, [], moved)
