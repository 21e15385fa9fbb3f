-- ===== src/Effective/History.antt =====
-- Whatever is written to the policies and assignments, a read answers as a new computation would.
use tak_mdm.Base.{ℕ, String, Option}
use tak_mdm.Base.Rows.{OneRow}
use tak_mdm.Effective.Affected.{IsConsistent}
use tak_mdm.Effective.Fresh.{IsFresh}
use tak_mdm.Effective.Invalidation.{Fleet}
use tak_mdm.Effective.Kept.{IsSteady}
use tak_mdm.Effective.Refresh.{Payload}
use tak_mdm.Effective.Rows.{id_of}
use tak_mdm.Json.{Value}
use tak_mdm.Resolver.{EffectivePolicy}
use tak_mdm.Resolver.Resolve.{Registry}

module _ (dumps : Value → String) (reg : Registry)
    (finish : String → ℕ → EffectivePolicy → Payload × Option ℕ) (steady : IsSteady finish) where
  -- What holds between the calls.
  pub record IsSane (now : ℕ) (f : Fleet) : Type 0 where
    pub consistent : IsConsistent f.tables
    pub one_device : OneRow id_of f.devices
    pub fresh : IsFresh dumps reg finish now f
