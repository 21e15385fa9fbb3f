-- ===== src/Compliance/Clock.antt =====
-- The clock that any sequence of checks leaves.
use tak_mdm.Base.{
  ℕ, true, false, ◌≡◌, ◌↔◌, ◌⊎◌, refl, sym, ap, ◌∙◌, Option, none, some, List, [], ◌∷◌, ◌++◌, All,
  arith, Bool-cases, Option-cases, inl, inr,
}
use tak_mdm.Compliance.{RuleResult, Device, enforcing, next_failing_since, record_check}

pub record Check : Type 0 where
  pub now : ℕ
  pub results : List RuleResult

unfoldable pub after_checks : List Check → Device → Device
unfolding record_check
after_checks [] device = device
after_checks (c ∷ cs) device = after_checks cs (record_check c.now c.results device).0

record_check-since :
    (now : ℕ) (results : List RuleResult) (device : Device)
    → (record_check now results device).0.rules_failing_since
      ≡ next_failing_since now results device.rules_failing_since
unfolding record_check
record_check-since now results device = ground arith

-- The last of these checks finds no failing rule that is enforced; without a check, the clock
-- stands still.
abbrev pub EndsCalm : Option ℕ → List Check → Type 0
EndsCalm since [] = since ≡ none
EndsCalm since (c ∷ []) = enforcing c.results ≡ false
EndsCalm since (c ∷ d ∷ cs) = EndsCalm since (d ∷ cs)

-- The checks end in an unbroken run of checks that enforce, of which the first was at `t`.
pub record FailingRun (since : Option ℕ) (t : ℕ) (checks : List Check) : Type 0 where
  pub before : List Check
  pub first : Check
  pub after : List Check
  pub parts : checks ≡ before ++ first ∷ after
  pub starts : first.now ≡ t
  pub calm : EndsCalm since before
  pub failing : All (λ c. enforcing c.results ≡ true) (first ∷ after)

since_enforcing :
    (now : ℕ) (results : List RuleResult) (t : ℕ)
    → enforcing results ≡ true
    → next_failing_since now results (some t) ≡ some t
unfolding next_failing_since
since_enforcing now results t h = rw h refl

since_starts :
    (now : ℕ) (results : List RuleResult)
    → enforcing results ≡ true
    → next_failing_since now results none ≡ some now
unfolding next_failing_since
since_starts now results h = rw h refl

since_calm :
    (now : ℕ) (results : List RuleResult) (since : Option ℕ)
    → enforcing results ≡ false
    → next_failing_since now results since ≡ none
unfolding next_failing_since
since_calm now results since h = rw h refl

stands-calm :
    (now : ℕ) (results : List RuleResult) (since : Option ℕ)
    → next_failing_since now results since ≡ none
    → enforcing results ≡ false
stands-calm now results since h = elim (Bool-cases (enforcing results)) [
  | inl e ↦ absurd (running since e h)
  | inr e ↦ e
]
  where
    running :
        (s : Option ℕ) → enforcing results ≡ true → next_failing_since now results s ≡ none → ⊥
    running none e k = cc (k, since_starts now results e)
    running (some t) e k = cc (k, since_enforcing now results t e)

-- The run of checks, on the clock alone.
abbrev clock : List Check → Option ℕ → Option ℕ
clock [] since = since
clock (c ∷ cs) since = clock cs (next_failing_since c.now c.results since)

clock_lem :
    (checks : List Check) (device : Device)
    → (after_checks checks device).rules_failing_since ≡ clock checks device.rules_failing_since
unfolding after_checks
clock_lem [] device = refl
clock_lem (c ∷ cs) device =
    clock_lem cs (record_check c.now c.results device).0
    ∙ ap (clock cs) (record_check-since c.now c.results device)

clock-run :
    (checks : List Check) (t : ℕ)
    → All (λ c. enforcing c.results ≡ true) checks
    → clock checks (some t) ≡ some t
clock-run [] t a = refl
clock-run (c ∷ cs) t (h, a) = rw (since_enforcing c.now c.results t h) (clock-run cs t a)

clock-append :
    (xs ys : List Check) (since : Option ℕ) → clock (xs ++ ys) since ≡ clock ys (clock xs since)
clock-append [] ys since = refl
clock-append (x ∷ xs) ys since = clock-append xs ys (next_failing_since x.now x.results since)

EndsCalm-since :
    (d : Check) (cs : List Check) (since other : Option ℕ)
    → EndsCalm since (d ∷ cs)
    → EndsCalm other (d ∷ cs)
EndsCalm-since d [] since other e = e
EndsCalm-since d (c ∷ cs) since other e = EndsCalm-since c cs since other e

clock-calm :
    (checks : List Check) (since : Option ℕ) → EndsCalm since checks → clock checks since ≡ none
clock-calm [] since e = e
clock-calm (c ∷ []) since e = since_calm c.now c.results since e
clock-calm (c ∷ d ∷ cs) since e =
    clock-calm (d ∷ cs) (next_failing_since c.now c.results since)
      (EndsCalm-since d cs since (next_failing_since c.now c.results since) e)

clock-stands :
    (checks : List Check) (since : Option ℕ) → clock checks since ≡ none → EndsCalm since checks
clock-stands [] since h = h
clock-stands (c ∷ []) since h = stands-calm c.now c.results since h
clock-stands (c ∷ d ∷ cs) since h =
    EndsCalm-since d cs (next_failing_since c.now c.results since) since
      (clock-stands (d ∷ cs) (next_failing_since c.now c.results since) h)

clock-FailingRun :
    (checks : List Check) (since : Option ℕ) (t : ℕ)
    → FailingRun since t checks
    → clock checks since ≡ some t
clock-FailingRun checks since t r =
    ap (λ x. clock x since) r.parts
    ∙ clock-append r.before (r.first ∷ r.after) since
    ∙ ap (clock (r.first ∷ r.after)) (clock-calm r.before since r.calm)
    ∙ ap (clock r.after) (since_starts r.first.now r.first.results r.failing.0)
    ∙ clock-run r.after r.first.now r.failing.1
    ∙ ap some r.starts

-- Either all checks enforce and the clock ran before, or it was started by one of them.
clock-origin :
    (checks : List Check) (since : Option ℕ) (t : ℕ)
    → clock checks since ≡ some t
    → (All (λ c. enforcing c.results ≡ true) checks × (since ≡ some t)) ⊎ FailingRun since t checks
clock-origin [] since t h = inl (tt, h)
clock-origin (c ∷ cs) since t h =
    elim (clock-origin cs (next_failing_since c.now c.results since) t h) [
      | inl a ↦ started (a.0, a.1)
      | inr r ↦ inr (record {
        before = c ∷ r.before;
        first = r.first;
        after = r.after;
        parts = ap (◌∷◌ c) r.parts;
        starts = r.starts;
        calm = longer r.before r.calm;
        failing = r.failing;
      })
    ]
  where
    no_start : none ≡ some t → ⊥
    no_start e = cc

    same : {a b : ℕ} → some a ≡ some b → a ≡ b
    same e = cc

    longer :
        (before : List Check)
        → EndsCalm (next_failing_since c.now c.results since) before
        → EndsCalm since (c ∷ before)
    longer [] e = stands-calm c.now c.results since e
    longer (d ∷ ds) e = EndsCalm-since d ds (next_failing_since c.now c.results since) since e

    started :
        All (λ d. enforcing d.results ≡ true) cs
          × (next_failing_since c.now c.results since ≡ some t)
        → (All (λ d. enforcing d.results ≡ true) (c ∷ cs) × (since ≡ some t))
          ⊎ FailingRun since t (c ∷ cs)
    started (a, p) = elim (Bool-cases (enforcing c.results)) [
      | inl f ↦ elim (Option-cases since) [
        | inl q ↦ inr (record {
          before = [];
          first = c;
          after = cs;
          parts = refl;
          starts = same (
              sym (since_starts c.now c.results f)
              ∙ ap (next_failing_since c.now c.results) (sym q)
              ∙ p);
          calm = q;
          failing = (f, a);
        })
        | inr (u, q) ↦ inl (
          (f, a),
          q
              ∙ sym (since_enforcing c.now c.results u f)
              ∙ ap (next_failing_since c.now c.results) (sym q)
              ∙ p,
        )
      ]
      | inr f ↦ absurd (no_start (sym (since_calm c.now c.results since f) ∙ p))
    ]

-- The clock that the actions count from shows exactly the first check of the unbroken run of checks,
-- up to the last one, that found a failing rule which is enforced; and it stands still exactly if
-- there was no check or the last one found none: for a device whose clock stood still before.
pub after_checks-FailingRun :
    (checks : List Check) (device : Device)
    → device.rules_failing_since ≡ none
    → ((t : ℕ)
        → ((after_checks checks device).rules_failing_since ≡ some t) ↔ FailingRun none t checks)
      × (((after_checks checks device).rules_failing_since ≡ none) ↔ EndsCalm none checks)
after_checks-FailingRun checks device fresh = (
  (λ t. (λ h. origin t (sym shown ∙ h), λ r. shown ∙ clock-FailingRun checks none t r)),
  (λ h. clock-stands checks none (sym shown ∙ h), λ e. shown ∙ clock-calm checks none e),
)
  where
    shown : (after_checks checks device).rules_failing_since ≡ clock checks none
    shown = clock_lem checks device ∙ ap (clock checks) fresh

    no_start : {t : ℕ} → none ≡ some t → ⊥
    no_start e = cc

    origin : (t : ℕ) → clock checks none ≡ some t → FailingRun none t checks
    origin t h = elim (clock-origin checks none t h) [ inl a ↦ absurd (no_start a.1) | inr r ↦ r ]
