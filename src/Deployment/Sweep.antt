-- ===== src/Deployment/Sweep.antt =====
-- `due`, `activate`, `hold` and `sweep` of app/services/deployment.py, on the tables.
use tak_mdm.Base.{
  ℕ, ◌+◌, Bool, true, false, Option, none, some, List, [], ◌∷◌, ◌++◌, if◌then◌else◌, keep, map,
}
use tak_mdm.Deployment.{Deployable, is_due}
use tak_mdm.Effective.Invalidation.{Fleet, invalidate_for_policy, invalidate_for_profile}
use tak_mdm.Effective.Rows.{Policy, PolicyProfile, Tables}
use tak_mdm.Effective.Writes.{put_policy, put_profile, with_tables, deploy_policy, deploy_profile}

-- a policy or a profile
pub data Item : Type 0 where
  policy : Policy → Item
  profile : PolicyProfile → Item

unfoldable pub columns : Item → Deployable
columns (policy p) = p.deployment
columns (profile p) = p.deployment

unfoldable pub due : ℕ → Tables → List Item
unfolding is_due
due now t =
    map policy (keep (λ p. is_due now p.deployment) t.policies)
    ++ map profile (keep (λ p. is_due now p.deployment) t.profiles)

-- the columns of the row are written, and `_invalidate`
unfoldable pub write : Item → (Deployable → Deployable) → Fleet → Fleet
unfolding put_policy put_profile invalidate_for_policy invalidate_for_profile
write (policy p) change f =
    invalidate_for_policy p.id (with_tables f (put_policy p.id (deploy_policy change) f.tables))
write (profile p) change f =
    invalidate_for_profile p.id (with_tables f (put_profile p.id (deploy_profile change) f.tables))

unfoldable pub begin : ℕ → Deployable → Deployable
begin now item = record item { pending_deployment = false; activated_at = some now }

unfoldable pub activate : ℕ → Item → Fleet → Bool × Fleet
unfolding columns write begin
activate now item f =
    if (columns item).pending_deployment then (true, write item (begin now) f) else (false, f)

unfoldable pub withhold : Option ℕ → Deployable → Deployable
withhold effective_at item = record item {
  pending_deployment = true;
  effective_at = effective_at;
  activated_at = none;
}

unfoldable pub hold : Item → Option ℕ → Fleet → Fleet
unfolding write withhold
hold item effective_at f = write item (withhold effective_at) f

-- `sum(1 for item in … if activate(…))`
unfoldable pub activate_all : ℕ → List Item → Fleet → ℕ × Fleet
unfolding activate
activate_all now [] f = (0, f)
activate_all now (item ∷ items) f =
    let (changed, g) = activate now item f in
    let (n, h) = activate_all now items g in (if changed then n + 1 else n, h)

unfoldable pub sweep : ℕ → Fleet → ℕ × Fleet
unfolding due activate_all
sweep now f = activate_all now (due now f.tables) f
