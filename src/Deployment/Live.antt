-- ===== src/Deployment/Live.antt =====
-- Activating items whose rows are live changes nothing of what the devices should have.
use tak_mdm.Base.{
  ℕ, true, false, ◌≡◌, refl, sym, ap, ◌∙◌, subst, List, [], ◌∷◌, if◌then◌else◌, In, inl, inr,
  Bool-cases, ◌⊎◌,
}
use tak_mdm.Base.Membership.{In-map→}
use tak_mdm.Base.Text.{text_eq}
use tak_mdm.Deployment.{is_live}
use tak_mdm.Deployment.Sweep.{Item, policy, profile, columns, write, begin, activate, activate_all}
use tak_mdm.Deployment.Unchanged.{begin-is_live, begun_policy, begun_profile}
use tak_mdm.Effective.{gather_assignments}
use tak_mdm.Effective.Invalidation.{
  Fleet, invalidate_for_policy, invalidate_for_profile, devices_affected_by_policy,
  devices_affected_by_profile,
}
use tak_mdm.Effective.Rows.{Policy, PolicyProfile, Device, Tables}
use tak_mdm.Effective.Sound.{tables_of_invalidated}
use tak_mdm.Effective.Writes.{put_policy, put_profile, with_tables, deploy_policy, deploy_profile}
use tak_mdm.Resolver.Resolve.{Registry}

-- the row of an item is written
abbrev pub written : ℕ → Item → Tables → Tables
written now (policy p) t = put_policy p.id (deploy_policy (begin now)) t
written now (profile p) t = put_profile p.id (deploy_profile (begin now)) t

pub tables_of_write :
    (now : ℕ) (item : Item) (f : Fleet)
    → (write item (begin now) f).tables ≡ written now item f.tables
unfolding write invalidate_for_policy invalidate_for_profile
tables_of_write now (policy p) f =
    let g = with_tables f (put_policy p.id (deploy_policy (begin now)) f.tables) in
    (tables_of_invalidated (devices_affected_by_policy p.id g) g).0
tables_of_write now (profile p) f =
    let g = with_tables f (put_profile p.id (deploy_profile (begin now)) f.tables) in
    (tables_of_invalidated (devices_affected_by_profile p.id g) g).0

-- The rows of an item are live at the moment.
abbrev pub RowsLive : ℕ → Tables → Item → Type 0
RowsLive u t (policy q) =
    (p : Policy) → In p t.policies → p.id ≡ q.id → is_live u p.deployment ≡ true
RowsLive u t (profile q) =
    (p : PolicyProfile) → In p t.profiles → p.id ≡ q.id → is_live u p.deployment ≡ true

module _ (now u : ℕ) (t : Tables) where
  written_gathers :
      (item : Item) (reg : Registry) (d : Device)
      → RowsLive u t item
      → gather_assignments u reg (written now item t) d ≡ gather_assignments u reg t d
  written_gathers (policy p) reg d live = begun_policy now u reg p.id t d live
  written_gathers (profile p) reg d live = begun_profile now u reg p.id t d live

  -- Writing one item leaves what is live live.
  written-RowsLive :
      (item other : Item) → RowsLive u t other → RowsLive u (written now item t) other
  unfolding put_policy put_profile
  written-RowsLive (policy p) (policy q) live = λ r i e.
      let (a, j, h) =
        In-map→ (λ a. if text_eq a.id p.id then deploy_policy (begin now) a else a) t.policies r
          i in
      elim (Bool-cases (text_eq a.id p.id)) [
        | inl g ↦ rw (h, g) (begin-is_live now u a.deployment)
        | inr g ↦
            let same : r ≡ a = h ∙ rw g refl in
            rw same (live a j (ap (λ (x : Policy). x.id) (sym same) ∙ e))
      ]
  written-RowsLive (policy p) (profile q) live = live
  written-RowsLive (profile p) (policy q) live = live
  written-RowsLive (profile p) (profile q) live = λ r i e.
      let (a, j, h) =
        In-map→ (λ a. if text_eq a.id p.id then deploy_profile (begin now) a else a) t.profiles r
          i in
      elim (Bool-cases (text_eq a.id p.id)) [
        | inl g ↦ rw (h, g) (begin-is_live now u a.deployment)
        | inr g ↦
            let same : r ≡ a = h ∙ rw g refl in
            rw same (live a j (ap (λ (x : PolicyProfile). x.id) (sym same) ∙ e))
      ]

-- Activating is writing, if the item is pending, and otherwise nothing.
pub activate-cases :
    (now : ℕ) (item : Item) (f : Fleet)
    → (((columns item).pending_deployment ≡ true)
        × ((activate now item f).0 ≡ true)
        × ((activate now item f).1.tables ≡ written now item f.tables))
      ⊎ (((columns item).pending_deployment ≡ false) × ((activate now item f).1 ≡ f))
unfolding activate
activate-cases now item f = elim (Bool-cases (columns item).pending_deployment) [
  | inl e ↦ inl (e, rw (activate, e) refl, rw (activate, e) (tables_of_write now item f))
  | inr e ↦ inr (e, rw (activate, e) refl)
]

module _ (now u : ℕ) (reg : Registry) (d : Device) where
  activate_gathers :
      (item : Item) (f : Fleet)
      → RowsLive u f.tables item
      → gather_assignments u reg (activate now item f).1.tables d
        ≡ gather_assignments u reg f.tables d
  activate_gathers item f live = elim (activate-cases now item f) [
    | inl (e, g, h) ↦
        ap (λ t. gather_assignments u reg t d) h ∙ written_gathers now u f.tables item reg d live
    | inr (e, h) ↦ ap (λ (g : Fleet). gather_assignments u reg g.tables d) h
  ]

  activate-RowsLive :
      (item other : Item) (f : Fleet)
      → RowsLive u f.tables other
      → RowsLive u (activate now item f).1.tables other
  activate-RowsLive item other f live = elim (activate-cases now item f) [
    | inl (e, g, h) ↦
        subst (λ t. RowsLive u t other) (sym h) (written-RowsLive now u f.tables item other live)
    | inr (e, h) ↦ subst (λ (g : Fleet). RowsLive u g.tables other) (sym h) live
  ]

  pub activate_all_gathers :
      (items : List Item) (f : Fleet)
      → ((item : Item) → In item items → RowsLive u f.tables item)
      → gather_assignments u reg (activate_all now items f).1.tables d
        ≡ gather_assignments u reg f.tables d
  unfolding activate_all
  activate_all_gathers [] f live = refl
  activate_all_gathers (item ∷ items) f live =
      activate_all_gathers items (activate now item f).1
        (λ other i. activate-RowsLive item other f (live other (inr i)))
      ∙ activate_gathers item f (live item (inl refl))
