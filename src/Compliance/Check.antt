-- ===== src/Compliance/Check.antt =====
-- `check` of app/services/compliance_rules.py after any sequence of checks.
use tak_mdm.Base.{
  ℕ, ◌+◌, ◌*◌, ◌≤◌, String, Bool, true, false, ◌≡◌, ◌↔◌, refl, sym, ap, ◌∙◌, subst, Option, none,
  some, List, [], ◌∷◌, ◌++◌, In, arith, if◌then◌else◌,
}
use tak_mdm.Commands.{DeviceCommand, Queue}
use tak_mdm.Compliance.{RuleResult, Device, record_check}
use tak_mdm.Compliance.Actions.{
  ActionRules, hours, whole_days, reached, due, is_our_wipe, sync_wipe, check,
}
use tak_mdm.Compliance.Clock.{Check, after_checks, FailingRun, after_checks-FailingRun}
use tak_mdm.Compliance.Wipe.{DistinctIds, wipes, sync_wipe-cases}

-- The checks end in an unbroken run of checks that found an enforced failure, as old at the last
-- check as the rules want it for a wipe.
abbrev pub WipeDue : ActionRules → ℕ → List Check → Type 0
WipeDue rules now checks =
    (t : ℕ) × FailingRun none t checks
    × ((days : ℕ) × (rules.wipe_after_days ≡ some days) × (t + days * 86400 ≤ now))

after_checks-append :
    (checks : List Check) (c : Check) (device : Device)
    → after_checks (checks ++ c ∷ []) device
      ≡ (record_check c.now c.results (after_checks checks device)).0
unfolding after_checks
after_checks-append [] c device = refl
after_checks-append (d ∷ ds) c device =
    after_checks-append ds c (record_check d.now d.results device).0

reached_iff :
    (since now : ℕ) (after : Option ℕ) (l : List ℕ)
    → ((reached since now (whole_days after) l).0 ≡ true)
      ↔ ((days : ℕ) × (after ≡ some days) × (since + days * 86400 ≤ now))
unfolding reached
reached_iff since now none l = (λ h. absurd (no_true h), λ (n, p, h). absurd (no_some p))
  where
    no_true : false ≡ true → ⊥
    no_true h = cc

    no_some : {n : ℕ} → none ≡ some n → ⊥
    no_some h = cc
reached_iff since now (some d) l = (λ h. (d, refl, begun h), λ (n, p, h). over (same p) h)
  where
    same : {a b : ℕ} → some a ≡ some b → a ≡ b
    same e = cc

    begun : (reached since now (some (d * 86400)) l).0 ≡ true → since + d * 86400 ≤ now
    begun h = ground arith

    over :
        {n : ℕ}
        → d ≡ n
        → since + n * 86400 ≤ now
        → (reached since now (some (d * 86400)) l).0 ≡ true
    over p h = ground arith

due_iff :
    (rules : ActionRules) (since : Option ℕ) (now : ℕ) (packages : List String)
    → ((due rules since now packages).wipe_now ≡ true) ↔ (
        (t : ℕ) × (since ≡ some t)
        × ((days : ℕ) × (rules.wipe_after_days ≡ some days) × (t + days * 86400 ≤ now)))
unfolding due
due_iff rules none now packages = (λ h. absurd (no_true h), λ (t, p, h). absurd (no_some p))
  where
    no_true : false ≡ true → ⊥
    no_true h = cc

    no_some : {n : ℕ} → none ≡ some n → ⊥
    no_some h = cc
due_iff rules (some s) now packages =
    let (into, out) =
      reached_iff s now rules.wipe_after_days
        (reached s now (hours rules.lock_after_hours)
          (reached s now (hours rules.suspend_after_hours) []).1).1 in
    (λ h. (s, refl, into h), λ (t, p, h). out (subst (λ u. Late u) (sym (same p)) h))
  where
    Late : ℕ → Type 0
    Late u = (days : ℕ) × (rules.wipe_after_days ≡ some days) × (u + days * 86400 ≤ now)

    same : {a b : ℕ} → some a ≡ some b → a ≡ b
    same e = cc

counted :
    (b : Bool) {n : ℕ} {D : Type 0}
    → n ≡ (if b then 1 else 0)
    → ((b ≡ true) ↔ D)
    → (D → n ≡ 1) × ((D → ⊥) → n ≡ 0)
counted true h (into, out) = (λ d. h, λ none_due. absurd (none_due (into refl)))
counted false {n} {D} h (into, out) = (λ d. absurd (no_true (out d)), λ none_due. h)
  where
    no_true : false ≡ true → ⊥
    no_true e = cc

module _ (rules : ActionRules) (packages : List String) (checks : List Check) (device : Device)
    (fresh : device.rules_failing_since ≡ none) where
  WipeDue-iff :
      (now : ℕ) (results : List RuleResult)
      → let stored = (record_check now results (after_checks checks device)).0 in
        ((due rules stored.rules_failing_since now packages).wipe_now ≡ true)
        ↔ WipeDue rules now (checks ++ record { now = now; results = results } ∷ [])
  WipeDue-iff now results =
      let last : Check = record { now = now; results = results } in
      let (into, out) =
        due_iff rules (record_check now results (after_checks checks device)).0.rules_failing_since
          now packages in
      let shown =
        ap (λ (d : Device). d.rules_failing_since) (after_checks-append checks last device) in
      let runs = (after_checks-FailingRun (checks ++ last ∷ []) device fresh).0 in
      (
        λ h. let (t, p, late) = into h in (t, (runs t).0 (shown ∙ p), late),
        λ (t, run, late). out (t, sym shown ∙ (runs t).1 run, late),
      )

  check-queue :
      (now : ℕ) (fresh_id : String) (results : List RuleResult) (d : Device) (q q' : Queue)
      → sync_wipe now fresh_id d.id
          (due rules (record_check now results d).0.rules_failing_since now packages)
          q
        ≡ some q'
      → (check now fresh_id results rules packages d q).1 ≡ q'
  unfolding check
  check-queue now fresh_id results d q q' e = rw (e, check) refl

  -- After a check, exactly one compliance wipe is on its way to the device if its checks, this one
  -- included, end in an unbroken run of enforced failures that began as many days ago as the rules
  -- want for a wipe, and otherwise none is; and every other command is in the queue as before. The
  -- device's clock stood still before the first check, no two commands have one id, and at most
  -- one compliance wipe is on its way to the device before the check.
  pub check-wipes :
      (now : ℕ) (fresh_id : String) (results : List RuleResult) (q : Queue)
      → let before = after_checks checks device in
        wipes before.id q.commands ≤ 1
        → DistinctIds q.commands
        → let after =
            (check now fresh_id results rules packages (after_checks checks device) q).1 in
          let history = checks ++ record { now = now; results = results } ∷ [] in
          ((WipeDue rules now history → wipes before.id after.commands ≡ 1)
            × ((WipeDue rules now history → ⊥) → wipes before.id after.commands ≡ 0))
          × ((c : DeviceCommand)
              → In c q.commands
              → is_our_wipe before.id c ≡ false
              → In c after.commands)
  check-wipes now fresh_id results q one ids =
      let before = after_checks checks device in
      let enforcement =
        due rules (record_check now results before).0.rules_failing_since now packages in
      let (q', e, (count, kept)) = sync_wipe-cases now fresh_id before.id enforcement q one ids in
      let shown = check-queue now fresh_id results before q q' e in
      (
        counted enforcement.wipe_now (ap (λ (x : Queue). wipes before.id x.commands) shown ∙ count)
            (WipeDue-iff now results),
        λ c i h. subst (λ (x : Queue). In c x.commands) (sym shown) (kept c i h),
      )
