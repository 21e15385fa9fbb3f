-- ===== src/Compliance/Alerts.antt =====
-- The alerts that any sequence of checks notes.
use tak_mdm.Base.{
  ℕ, Bool, ◌≡◌, refl, sym, some, List, [], ◌∷◌, ◌++◌, Bool-cases, if◌then◌else◌, not, inl, inr,
}
use tak_mdm.Compliance.{
  RuleResult, Device, Alert, verdict, is_non_compliant, fails_event, meets_event, record_check,
}
use tak_mdm.Compliance.Clock.{Check, after_checks}

unfoldable pub alerts_of : List Check → Device → List Alert
unfolding record_check
alerts_of [] device = []
alerts_of (c ∷ cs) device =
    (record_check c.now c.results device).1 ++ alerts_of cs (record_check c.now c.results device).0

-- The device stops failing and starts to fail in turn, beginning as `failing` says and ending as `at_end`.
abbrev pub Alternate : Bool → Bool → List Alert → Type 0
Alternate failing at_end [] = failing ≡ at_end
Alternate failing at_end (a ∷ l) =
    (a.event ≡ (if failing then meets_event else fails_event)) × Alternate (not failing) at_end l

Alternate-append :
    (b c e : Bool) (xs ys : List Alert)
    → Alternate b c xs
    → Alternate c e ys
    → Alternate b e (xs ++ ys)
Alternate-append b c e [] ys p q = rw p q
Alternate-append b c e (x ∷ xs) ys (h, p) q = (h, Alternate-append (not b) c e xs ys p q)

record_check-Alternate :
    (now : ℕ) (results : List RuleResult) (device : Device)
    → Alternate
        (is_non_compliant device.rules_status)
        (is_non_compliant (record_check now results device).0.rules_status)
        (record_check now results device).1
unfolding record_check
record_check-Alternate now results device =
    elim (Bool-cases (is_non_compliant device.rules_status)) [
      | inl e ↦ elim (Bool-cases (is_non_compliant (some (verdict results)))) [
        | inl f ↦ rw (e, f) (sym f)
        | inr f ↦ rw (e, f) (refl, sym f)
      ]
      | inr e ↦ elim (Bool-cases (is_non_compliant (some (verdict results)))) [
        | inl f ↦ rw (e, f) (refl, sym f)
        | inr f ↦ rw (e, f) (sym f)
      ]
    ]

-- The alerts of any sequence of checks say in turn that the device fails its rules and that it meets
-- them again, beginning with the one that its status before was not, and the last one, or without an
-- alert the status before, is what the status says afterwards.
pub after_checks-Alternate :
    (checks : List Check) (device : Device)
    → Alternate
        (is_non_compliant device.rules_status)
        (is_non_compliant (after_checks checks device).rules_status)
        (alerts_of checks device)
unfolding after_checks alerts_of
after_checks-Alternate [] device = refl
after_checks-Alternate (c ∷ cs) device =
    let stored = (record_check c.now c.results device).0 in
    Alternate-append (is_non_compliant device.rules_status) (is_non_compliant stored.rules_status)
      (is_non_compliant (after_checks cs stored).rules_status)
      (record_check c.now c.results device).1 (alerts_of cs stored)
      (record_check-Alternate c.now c.results device) (after_checks-Alternate cs stored)
