-- ===== src/Deployment/Swept.antt =====
-- A sweep activates what is due, and changes nothing of what the devices should have.
use tak_mdm.Base.{
  ℕ, ◌≤◌, Bool, true, false, ◌≡◌, refl, sym, ap, ◌∙◌, subst, List, [], ◌∷◌, arith, if◌then◌else◌,
  In, keep, map, inl, inr, Bool-cases, length,
}
use tak_mdm.Base.Keeping.{keep_none}
use tak_mdm.Base.Membership.{In-map→, In-map←, In-keep→, In-keep←, In-append→, In-append←}
use tak_mdm.Base.Text.{text_eq, text_eq_refl}
use tak_mdm.Deployment.{Deployable, is_live, is_due, has_come}
use tak_mdm.Deployment.Live.{written, RowsLive, activate-cases, activate_all_gathers}
use tak_mdm.Deployment.Sweep.{
  Item, policy, profile, columns, due, begin, activate, activate_all, sweep,
}
use tak_mdm.Effective.{gather_assignments}
use tak_mdm.Effective.Affected.{IsConsistent}
use tak_mdm.Effective.Invalidation.{Fleet}
use tak_mdm.Effective.Rows.{Policy, PolicyProfile, Device, Tables}
use tak_mdm.Effective.Writes.{put_policy, put_profile, deploy_policy, deploy_profile}
use tak_mdm.Resolver.Resolve.{Registry}

-- The row of an item that is in the tables.
abbrev IsRow : Tables → Item → Type 0
IsRow t (policy p) = In p t.policies
IsRow t (profile p) = In p t.profiles

due-IsRow :
    (now : ℕ) (t : Tables) (item : Item)
    → In item (due now t)
    → IsRow t item × (is_due now (columns item) ≡ true)
unfolding due columns
due-IsRow now t item i =
    elim (In-append→ (map policy (keep (λ p. is_due now p.deployment) t.policies))
      (map profile (keep (λ p. is_due now p.deployment) t.profiles)) item i) [
        | inl j ↦
            let (p, k, e) =
              In-map→ policy (keep (λ p. is_due now p.deployment) t.policies) item j in
            subst (λ x. IsRow t x × (is_due now (columns x) ≡ true)) (sym e)
              (In-keep→ (λ p. is_due now p.deployment) t.policies p k)
        | inr j ↦
            let (p, k, e) =
              In-map→ profile (keep (λ p. is_due now p.deployment) t.profiles) item j in
            subst (λ x. IsRow t x × (is_due now (columns x) ≡ true)) (sym e)
              (In-keep→ (λ p. is_due now p.deployment) t.profiles p k)
      ]

In-due :
    (now : ℕ) (t : Tables) (item : Item)
    → IsRow t item
    → is_due now (columns item) ≡ true
    → In item (due now t)
unfolding due columns
In-due now t (policy p) i h =
    In-append← (map policy (keep (λ p. is_due now p.deployment) t.policies))
      (map profile (keep (λ p. is_due now p.deployment) t.profiles)) (policy p)
      (inl (
        In-map← policy (keep (λ p. is_due now p.deployment) t.policies) p
          (In-keep← (λ p. is_due now p.deployment) t.policies p i h)))
In-due now t (profile p) i h =
    In-append← (map policy (keep (λ p. is_due now p.deployment) t.policies))
      (map profile (keep (λ p. is_due now p.deployment) t.profiles)) (profile p)
      (inr (
        In-map← profile (keep (λ p. is_due now p.deployment) t.profiles) p
          (In-keep← (λ p. is_due now p.deployment) t.profiles p i h)))

due-pending : (now : ℕ) (c : Deployable) → is_due now c ≡ true → c.pending_deployment ≡ true
unfolding is_due
due-pending now c h = ground arith

due-is_live : (now u : ℕ) (c : Deployable) → now ≤ u → is_due now c ≡ true → is_live u c ≡ true
unfolding is_due is_live has_come
due-is_live now u c le h = ground arith

due-RowsLive :
    (now u : ℕ) (t : Tables) (item : Item)
    → IsConsistent t
    → now ≤ u
    → In item (due now t)
    → RowsLive u t item
unfolding columns
due-RowsLive now u t (policy q) ok le i = λ p j e.
    let (k, h) = due-IsRow now t (policy q) i in
    rw (ok.one_policy p q j k e) (due-is_live now u q.deployment le h)
due-RowsLive now u t (profile q) ok le i = λ p j e.
    let (k, h) = due-IsRow now t (profile q) i in
    rw (ok.one_profile p q j k e) (due-is_live now u q.deployment le h)

-- What is due after an activation was due before, and is another item.
still_due :
    (now : ℕ) (item other : Item) (t : Tables)
    → IsRow (written now item t) other
    → is_due now (columns other) ≡ true
    → IsRow t other × (other ≡ item → ⊥)
unfolding put_policy put_profile columns begin is_due
still_due now (policy p) (policy q) t i h =
    let (a, j, e) =
      In-map→ (λ a. if text_eq a.id p.id then deploy_policy (begin now) a else a) t.policies q i in
    elim (Bool-cases (text_eq a.id p.id)) [
      | inl g ↦
          let begun : q ≡ deploy_policy (begin now) a = e ∙ rw g refl in
          absurd (done (subst (λ (x : Policy). is_due now x.deployment ≡ true) begun h))
      | inr g ↦
          let same : q ≡ a = e ∙ rw g refl in
          (
            rw same j,
            λ s.
                differ (ap (λ o. elim o [ policy x ↦ text_eq x.id p.id | profile x ↦ true ]) s)
                  (subst (λ (x : Policy). text_eq x.id p.id ≡ false) (sym same) g)
                  (text_eq_refl p.id),
          )
    ]
  where
    done : false ≡ true → ⊥
    done e = cc

    differ : {x y : Bool} → x ≡ y → x ≡ false → y ≡ true → ⊥
    differ e g k = cc
still_due now (policy p) (profile q) t i h = (i, λ s. cc)
still_due now (profile p) (policy q) t i h = (i, λ s. cc)
still_due now (profile p) (profile q) t i h =
    let (a, j, e) =
      In-map→ (λ a. if text_eq a.id p.id then deploy_profile (begin now) a else a) t.profiles q i in
    elim (Bool-cases (text_eq a.id p.id)) [
      | inl g ↦
          let begun : q ≡ deploy_profile (begin now) a = e ∙ rw g refl in
          absurd (done (subst (λ (x : PolicyProfile). is_due now x.deployment ≡ true) begun h))
      | inr g ↦
          let same : q ≡ a = e ∙ rw g refl in
          (
            rw same j,
            λ s.
                differ (ap (λ o. elim o [ policy x ↦ true | profile x ↦ text_eq x.id p.id ]) s)
                  (subst (λ (x : PolicyProfile). text_eq x.id p.id ≡ false) (sym same) g)
                  (text_eq_refl p.id),
          )
    ]
  where
    done : false ≡ true → ⊥
    done e = cc

    differ : {x y : Bool} → x ≡ y → x ≡ false → y ≡ true → ⊥
    differ e g k = cc

-- What is due after activating some items was due before, and is none of them.
activate_all-due :
    (now : ℕ) (items : List Item) (f : Fleet) (other : Item)
    → ((item : Item) → In item items → (columns item).pending_deployment ≡ true)
    → IsRow (activate_all now items f).1.tables other
    → is_due now (columns other) ≡ true
    → IsRow f.tables other × (In other items → ⊥)
unfolding activate_all
activate_all-due now [] f other pending i h = (i, λ j. j)
activate_all-due now (item ∷ items) f other pending i h =
    let (j, out) =
      activate_all-due now items (activate now item f).1 other (λ x k. pending x (inr k)) i h in
    elim (activate-cases now item f) [
      | inl (e, g, t) ↦
          let (k, differs) = still_due now item other f.tables (subst (λ x. IsRow x other) t j) h in
          (k, λ m. apart differs out m)
      | inr (e, t) ↦ absurd (cc (e, pending item (inl refl)))
    ]
  where
    apart : (other ≡ item → ⊥) → (In other items → ⊥) → In other (item ∷ items) → ⊥
    apart p q (inl e) = p e
    apart p q (inr k) = q k

activate_all-count :
    (now : ℕ) (items : List Item) (f : Fleet)
    → ((item : Item) → In item items → (columns item).pending_deployment ≡ true)
    → (activate_all now items f).0 ≡ length items
unfolding activate_all
activate_all-count now [] f pending = refl
activate_all-count now (item ∷ items) f pending = elim (activate-cases now item f) [
  | inl (e, g, t) ↦ rw g (
      omega
        (arith, activate_all-count now items (activate now item f).1 (λ x k. pending x (inr k))))
  | inr (e, t) ↦ absurd (cc (e, pending item (inl refl)))
]

due_pending :
    (now : ℕ) (t : Tables) (item : Item)
    → In item (due now t)
    → (columns item).pending_deployment ≡ true
due_pending now t item i = due-pending now (columns item) (due-IsRow now t item i).1

-- A sweep activates everything that is due, as often as it says, and leaves nothing due; and at that
-- moment and ever after it gathers for every device what was gathered without it. Rows with one id are
-- one row.
pub sweep-exact :
    (now : ℕ) (f : Fleet)
    → IsConsistent f.tables
    → ((sweep now f).0 ≡ length (due now f.tables))
      × (due now (sweep now f).1.tables ≡ [])
      × ((u : ℕ) (reg : Registry) (d : Device)
          → now ≤ u
          → gather_assignments u reg (sweep now f).1.tables d ≡ gather_assignments u reg f.tables d)
unfolding sweep
sweep-exact now f ok = (
  activate_all-count now (due now f.tables) f (due_pending now f.tables),
  nothing_due,
  λ u reg d le.
      activate_all_gathers now u reg d (due now f.tables) f
        (λ item i. due-RowsLive now u f.tables item ok le i),
)
  where
    not_due :
        (item : Item)
        → IsRow (activate_all now (due now f.tables) f).1.tables item
        → is_due now (columns item) ≡ false
    not_due item i = elim (Bool-cases (is_due now (columns item))) [
      | inl h ↦
          let (j, out) =
            activate_all-due now (due now f.tables) f item (due_pending now f.tables) i h in
          absurd (out (In-due now f.tables item j h))
      | inr h ↦ h
    ]

    nothing_due : due now (activate_all now (due now f.tables) f).1.tables ≡ []
    nothing_due =
        unfold due columns in
        rw
          (
            keep_none (λ (p : Policy). is_due now p.deployment)
                (activate_all now (due now f.tables) f).1.tables.policies
                (λ p i. not_due (policy p) i),
            keep_none (λ (p : PolicyProfile). is_due now p.deployment)
                (activate_all now (due now f.tables) f).1.tables.profiles
                (λ p i. not_due (profile p) i),
          )
          refl
