-- ===== src/Breach/Runs.antt =====
-- Any sequence of the calls of app/services/breach.py on one device.
use tak_mdm.Base.{
  ℕ, suc, ◌+◌, ◌≤◌, String, true, false, ◌≡◌, refl, sym, ap, Option, none, some, List, [], ◌∷◌, not,
  arith, Bool-cases, if◌then◌else◌, ◌&&◌, ◌⊎◌, subst, inl, inr,
}
use tak_mdm.Breach.{Breached, Site, is_known, is_engaged, engage, clear, confirm}

pub data BreachCall : Type 0 where
  engaging : ℕ → Option String → String → BreachCall
  clearing : BreachCall
  confirming : ℕ → BreachCall

unfoldable pub after_call : BreachCall → Site → Breached → Site × Breached
unfolding engage clear confirm
after_call (engaging now by agent) site device = engage now by agent site device
after_call clearing site device = clear site device
after_call (confirming now) site device = (site, (confirm now device).1)

unfoldable pub after_calls : List BreachCall → Site → Breached → Site × Breached
unfolding after_call
after_calls [] site device = (site, device)
after_calls (c ∷ cs) site device =
    let next = after_call c site device in after_calls cs next.0 next.1

-- how often the device is engaged, and how often a confirmation is the first one
unfoldable pub engagements : List BreachCall → ℕ
engagements [] = 0
engagements (engaging now by agent ∷ cs) = suc (engagements cs)
engagements (clearing ∷ cs) = engagements cs
engagements (confirming now ∷ cs) = engagements cs

unfoldable pub first_confirmations : List BreachCall → Site → Breached → ℕ
unfolding after_call confirm
first_confirmations [] site device = 0
first_confirmations (engaging now by agent ∷ cs) site device =
    let next = after_call (engaging now by agent) site device in
    first_confirmations cs next.0 next.1
first_confirmations (clearing ∷ cs) site device =
    let next = after_call clearing site device in first_confirmations cs next.0 next.1
first_confirmations (confirming now ∷ cs) site device =
    let rest = first_confirmations cs site (confirm now device).1 in
    if (confirm now device).0 then suc rest else rest

-- A device that is not engaged has nobody who engaged it and no confirmation.
abbrev pub IsConsistent : Breached → Type 0
IsConsistent device =
    device.breach_engaged_at ≡ none
    → (device.breach_engaged_by ≡ none) × (device.breach_confirmed_at ≡ none)

-- the confirmation that is still to come
abbrev pub awaited : Breached → ℕ
awaited device = if is_engaged device && not (is_known device.breach_confirmed_at) then 1 else 0

-- A confirmation changes nothing, or is the one that is awaited.
confirm-cases :
    (now : ℕ) (device : Breached)
    → (((confirm now device).0 ≡ false) × ((confirm now device).1 ≡ device))
      ⊎ (((confirm now device).0 ≡ true)
          × ((confirm now device).1 ≡ record device { breach_confirmed_at = some now })
          × (awaited device ≡ 1)
          × (is_engaged device ≡ true))
unfolding confirm
confirm-cases now device = elim (Bool-cases (is_engaged device)) [
  | inl e ↦ elim (Bool-cases (is_known device.breach_confirmed_at)) [
    | inl f ↦ inl (rw (e, f) refl, rw (e, f) refl)
    | inr f ↦ inr (rw (e, f) refl, rw (e, f) refl, rw (e, f) refl, e)
  ]
  | inr e ↦ inl (rw e refl, rw e refl)
]

awaited_confirmed :
    (now : ℕ) (device : Breached) → awaited (record device { breach_confirmed_at = some now }) ≡ 0
unfolding is_known is_engaged
awaited_confirmed now device = elim (Bool-cases (is_known device.breach_engaged_at)) [
  | inl e ↦ rw e refl
  | inr e ↦ rw e refl
]

engaged-ne-none :
    (device : Breached) → is_engaged device ≡ true → device.breach_engaged_at ≡ none → ⊥
unfolding is_engaged is_known
engaged-ne-none device e n = cc (ap is_known n, e)

confirm-IsConsistent :
    (now : ℕ) (device : Breached) → IsConsistent device → IsConsistent (confirm now device).1
confirm-IsConsistent now device c = elim (confirm-cases now device) [
  | inl (b, e) ↦ subst IsConsistent (sym e) c
  | inr (b, e, w, engaged) ↦
      subst IsConsistent (sym e) (λ n. absurd (engaged-ne-none device engaged n))
]

after_call-IsConsistent :
    (call : BreachCall) (site : Site) (device : Breached)
    → IsConsistent device
    → IsConsistent (after_call call site device).1
unfolding after_call engage clear
after_call-IsConsistent (engaging now by agent) site device c = λ n. absurd (no_some n)
  where
    no_some : some now ≡ none → ⊥
    no_some e = cc
after_call-IsConsistent clearing site device c = λ n. (refl, refl)
after_call-IsConsistent (confirming now) site device c = confirm-IsConsistent now device c

after_calls-IsConsistent :
    (calls : List BreachCall) (site : Site) (device : Breached)
    → IsConsistent device
    → IsConsistent (after_calls calls site device).1
unfolding after_calls
after_calls-IsConsistent [] site device c = c
after_calls-IsConsistent (call ∷ calls) site device c =
    after_calls-IsConsistent calls (after_call call site device).0 (after_call call site device).1
      (after_call-IsConsistent call site device c)

awaited-le : (device : Breached) → awaited device ≤ 1
awaited-le device =
    elim (Bool-cases (is_engaged device && not (is_known device.breach_confirmed_at))) [
      | inl e ↦ rw e (omega arith)
      | inr e ↦ rw e (omega arith)
    ]

engaged_awaits :
    (now : ℕ) (by : Option String) (agent : String) (site : Site) (device : Breached)
    → awaited (engage now by agent site device).1 ≡ 1
unfolding engage is_engaged is_known
engaged_awaits now by agent site device = refl

confirmations-le :
    (calls : List BreachCall) (site : Site) (device : Breached)
    → first_confirmations calls site device ≤ awaited device + engagements calls
unfolding first_confirmations engagements
confirmations-le [] site device = omega arith
confirmations-le (engaging now by agent ∷ calls) site device =
    let next = after_call (engaging now by agent) site device in
    omega (arith, confirmations-le calls next.0 next.1, awaited-le next.1)
confirmations-le (clearing ∷ calls) site device =
    let next = after_call clearing site device in
    omega (arith, confirmations-le calls next.0 next.1, cleared)
  where
    cleared : awaited (after_call clearing site device).1 ≡ 0
    cleared = refl
confirmations-le (confirming now ∷ calls) site device =
    let ih = confirmations-le calls site (confirm now device).1 in
    elim (confirm-cases now device) [
      | inl (b, e) ↦ rw b (omega (arith, ih, ap awaited e))
      | inr (b, e, w, engaged) ↦
          rw b (omega (arith, ih, ap awaited e, awaited_confirmed now device, w))
    ]

-- After any sequence of calls on a device that is consistent, it is: without an engagement it has nobody
-- who engaged it and no confirmation. And of the confirmations that it sends at most one for each
-- engagement counts as the first, besides the one that was awaited before. A further engagement
-- awaits a confirmation, whatever was confirmed before it.
pub after_calls_sound :
    (calls : List BreachCall) (site : Site) (device : Breached)
    → IsConsistent device
    → IsConsistent (after_calls calls site device).1
      × (first_confirmations calls site device ≤ awaited device + engagements calls)
      × ((now : ℕ) (by : Option String) (agent : String)
          → let (then_site, then_device) = after_calls calls site device in
            awaited (engage now by agent then_site then_device).1 ≡ 1)
after_calls_sound calls site device c = (
  after_calls-IsConsistent calls site device c,
  confirmations-le calls site device,
  λ now by agent.
      engaged_awaits now by agent (after_calls calls site device).0
        (after_calls calls site device).1,
)
