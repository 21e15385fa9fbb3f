-- ===== src/Compliance/Timeline.antt =====
-- The timeline of the device page against the actions that are due.
use tak_mdm.Base.{
  ℕ, String, Bool, true, false, ◌≡◌, refl, sym, ap, ◌∙◌, Option, none, some, List, [], ◌∷◌, ◌++◌,
  any, arith, if◌then◌else◌, ltb, ◌&&◌, ◌||◌,
}
use tak_mdm.Base.Sorting.{any-sort_by, InOrderBy, sort_by-InOrderBy}
use tak_mdm.Base.Text.{text_eq, sorted_set}
use tak_mdm.Compliance.Actions.{
  ActionRules, Step, hours, whole_days, reached, chosen_packages, due, step_of, suspend_label,
  timeline,
}

-- The timeline shows this action as begun.
abbrev pub shows : String → List Step → Bool
shows action = any (λ s. text_eq s.action action && s.active)

any-append : {A : Type 0} (p : A → Bool) (xs ys : List A) → any p (xs ++ ys) ≡ any p xs || any p ys
any-append p [] ys = refl
any-append p (x ∷ xs) ys = ground (arith, any-append p xs ys)

reached_begun :
    (since now : ℕ) (after : Option ℕ) (l m : List ℕ)
    → (reached since now after l).0 ≡ (reached since now after m).0
unfolding reached
reached_begun since now none l m = refl
reached_begun since now (some after) l m = ground arith

shows-step_of :
    (since now : ℕ) (action label : String) (after : Option ℕ)
    → text_eq action action ≡ true
    → shows action (step_of since now action label after) ≡ (reached since now after []).0
unfolding reached
shows-step_of since now action label none e = refl
shows-step_of since now action label (some after) e = ground arith

shows_other :
    (since now : ℕ) (action other label : String) (after : Option ℕ)
    → text_eq action other ≡ false
    → shows other (step_of since now action label after) ≡ false
shows_other since now action other label none e = refl
shows_other since now action other label (some after) e = ground arith

module _ (rules : ActionRules) (since now : ℕ) (packages : List String) where
  abbrev first : List Step
  first =
      step_of since now "suspend" (suspend_label rules packages) (hours rules.suspend_after_hours)

  abbrev second : List Step
  second =
      step_of since now "lock" "Lock the device on each check-in" (hours rules.lock_after_hours)

  abbrev third : List Step
  third = step_of since now "wipe" "Wipe the device" (whole_days rules.wipe_after_days)

  shows-parts :
      (action : String)
      → shows action (timeline rules (some since) now packages)
        ≡ shows action first || (shows action second || shows action third)
  unfolding timeline
  shows-parts action =
      any-sort_by (λ s. text_eq s.action action && s.active) (λ a b. ltb a.at b.at)
        (first ++ (second ++ third))
      ∙ any-append (λ s. text_eq s.action action && s.active) first (second ++ third)
      ∙ ap (◌||◌ (shows action first))
          (any-append (λ s. text_eq s.action action && s.active) second third)

  in_order : InOrderBy (λ a b. ltb a.at b.at) (timeline rules (some since) now packages)
  unfolding timeline
  in_order =
      sort_by-InOrderBy (λ a b. ltb a.at b.at) (first ++ (second ++ third)) (λ x y h. ground arith)

  shown_suspend :
      shows "suspend" (timeline rules (some since) now packages)
      ≡ (reached since now (hours rules.suspend_after_hours) []).0
  shown_suspend =
      only_first (shows-parts "suspend")
        (shows-step_of since now "suspend" (suspend_label rules packages)
          (hours rules.suspend_after_hours) refl)
        (shows_other since now "lock" "suspend" "Lock the device on each check-in"
          (hours rules.lock_after_hours) refl)
        (shows_other since now "wipe" "suspend" "Wipe the device" (whole_days rules.wipe_after_days)
          refl)
    where
      only_first : {r a b c x : Bool} → r ≡ a || (b || c) → a ≡ x → b ≡ false → c ≡ false → r ≡ x
      only_first h p q w = h ∙ ground arith

  shown_lock :
      shows "lock" (timeline rules (some since) now packages)
      ≡ (reached since now (hours rules.lock_after_hours) []).0
  shown_lock =
      only_second (shows-parts "lock")
        (shows_other since now "suspend" "lock" (suspend_label rules packages)
          (hours rules.suspend_after_hours) refl)
        (shows-step_of since now "lock" "Lock the device on each check-in"
          (hours rules.lock_after_hours) refl)
        (shows_other since now "wipe" "lock" "Wipe the device" (whole_days rules.wipe_after_days)
          refl)
    where
      only_second : {r a b c x : Bool} → r ≡ a || (b || c) → a ≡ false → b ≡ x → c ≡ false → r ≡ x
      only_second h p q w = h ∙ ground arith

  shown_wipe :
      shows "wipe" (timeline rules (some since) now packages)
      ≡ (reached since now (whole_days rules.wipe_after_days) []).0
  shown_wipe =
      only_third (shows-parts "wipe")
        (shows_other since now "suspend" "wipe" (suspend_label rules packages)
          (hours rules.suspend_after_hours) refl)
        (shows_other since now "lock" "wipe" "Lock the device on each check-in"
          (hours rules.lock_after_hours) refl)
        (shows-step_of since now "wipe" "Wipe the device" (whole_days rules.wipe_after_days) refl)
    where
      only_third : {r a b c x : Bool} → r ≡ a || (b || c) → a ≡ false → b ≡ false → c ≡ x → r ≡ x
      only_third h p q w = h ∙ ground arith

  -- The timeline of a failing device is in the order of time, and shows exactly those actions as begun
  -- that are due at that moment.
  pub timeline-due :
      InOrderBy (λ a b. ltb a.at b.at) (timeline rules (some since) now packages)
      × ((due rules (some since) now packages).suspend ≡ (
          if shows "suspend" (timeline rules (some since) now packages)
          then sorted_set (chosen_packages rules packages)
          else []))
      × ((due rules (some since) now packages).lock_now
          ≡ shows "lock" (timeline rules (some since) now packages))
      × ((due rules (some since) now packages).wipe_now
          ≡ shows "wipe" (timeline rules (some since) now packages))
  unfolding due
  timeline-due = (
    in_order,
    ap (λ (b : Bool). if b then sorted_set (chosen_packages rules packages) else [])
        (sym shown_suspend),
    reached_begun since now (hours rules.lock_after_hours)
          (reached since now (hours rules.suspend_after_hours) []).1 []
        ∙ sym shown_lock,
    reached_begun since now (whole_days rules.wipe_after_days)
          (reached since now (hours rules.lock_after_hours)
            (reached since now (hours rules.suspend_after_hours) []).1).1
          []
        ∙ sym shown_wipe,
  )
