-- ===== src/Effective/Again.antt =====
-- A refresh that finds nothing moved does not move the version of the device.
use tak_mdm.Base.{ℕ, ◌≤◌, String, ◌≡◌, Option, List}
use tak_mdm.Effective.Invalidation.{Fleet}
use tak_mdm.Effective.Kept.{IsSteady}
use tak_mdm.Effective.Refresh.{
  Payload, cache_of, with_version, next_version, previous_of, compute, keep_payload,
}
use tak_mdm.Effective.Rows.{Device, id_of}
use tak_mdm.Json.{Value}
use tak_mdm.Merge.{ok}
use tak_mdm.Resolver.{EffectivePolicy}
use tak_mdm.Resolver.Resolve.{Registry}

module _ (dumps : Value → String) (reg : Registry)
    (finish : String → ℕ → EffectivePolicy → Payload × Option ℕ) (steady : IsSteady finish)
    (now u : ℕ) (f : Fleet) (d : Device) (ids : List String) (le : now ≤ u) where
  module _ (e : EffectivePolicy) (h : compute dumps reg finish now f d ≡ ok e) where
    abbrev after : Fleet
    after = keep_payload dumps reg finish now f d (finish (id_of d) now e)

    abbrev number : ℕ
    number =
        next_version (previous_of (cache_of (id_of d) f.caches)) (finish (id_of d) now e).0
          d.state_version

    abbrev moved : Device
    moved = with_version (id_of d) number d
