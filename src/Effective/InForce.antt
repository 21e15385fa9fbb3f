-- ===== src/Effective/InForce.antt =====
-- When a policy or a profile is in force, told by its columns.
use tak_mdm.Base.{
  ℕ, ◌≤◌, ◌≢◌, Bool, true, false, ◌≡◌, refl, Option, none, some, arith, inl, inr, Bool-cases, ◌&&◌,
  ◌⊎◌, not,
}
use tak_mdm.Base.Text.{text_eq_iff, text_eq-ne}
use tak_mdm.Deployment.{Deployable, is_archived, is_live, has_come}
use tak_mdm.Effective.{applies}
use tak_mdm.Effective.Rows.{Policy, PolicyProfile}

-- Not pending, or its moment has come.
abbrev pub InForce : ℕ → Deployable → Type 0
InForce now item =
    (item.pending_deployment ≡ false) ⊎ ((t : ℕ) × (item.effective_at ≡ some t) × t ≤ now)

pub is_live→ : (now : ℕ) (item : Deployable) → is_live now item ≡ true → InForce now item
unfolding is_live has_come
is_live→ now item h = elim (Bool-cases item.pending_deployment) [
  | inl e ↦ inr (moment item.effective_at (rw e at h))
  | inr e ↦ inl e
]
  where
    moment : (o : Option ℕ) → has_come now o ≡ true → (t : ℕ) × (o ≡ some t) × t ≤ now
    moment none h = absurd (cc)
    moment (some t) h = (t, refl, ground arith)

pub is_live← : (now : ℕ) (item : Deployable) → InForce now item → is_live now item ≡ true
unfolding is_live has_come
is_live← now item (inl e) = rw e refl
is_live← now item (inr (t, e, le)) = ground arith

-- A policy that is in force and neither a template, nor archived, nor a breach policy.
abbrev pub Applies : ℕ → Policy → Type 0
Applies now p =
    (is_archived p.deployment ≡ false)
    × (p.is_template ≡ false)
    × InForce now p.deployment
    × (p.policy_type ≢ "BREACH")

pub applies→ : (now : ℕ) (p : Policy) → applies now p ≡ true → Applies now p
unfolding applies
applies→ now p h = (
  ground arith,
  ground arith,
  is_live→ now p.deployment (ground arith),
  λ e. absurd (breach ((text_eq_iff p.policy_type "BREACH").1 e) (ground arith)),
)
  where
    breach : {x : Bool} → x ≡ true → x ≡ false → ⊥
    breach e g = cc

pub applies← : (now : ℕ) (p : Policy) → Applies now p → applies now p ≡ true
unfolding applies
applies← now p (a, b, c, e) =
    rw (a, b, is_live← now p.deployment c, text_eq-ne p.policy_type "BREACH" e) refl

-- A profile that is in force and not archived.
abbrev pub Stands : ℕ → PolicyProfile → Type 0
Stands now q = (is_archived q.deployment ≡ false) × InForce now q.deployment

pub stands→ :
    (now : ℕ) (q : PolicyProfile)
    → not (is_archived q.deployment) && is_live now q.deployment ≡ true
    → Stands now q
stands→ now q h = (ground arith, is_live→ now q.deployment (ground arith))

pub stands← :
    (now : ℕ) (q : PolicyProfile)
    → Stands now q
    → not (is_archived q.deployment) && is_live now q.deployment ≡ true
stands← now q (a, b) = rw (a, is_live← now q.deployment b) refl
