-- ===== src/Effective/Reading.antt =====
-- Reading and refreshing: what `get_effective` answers is what a new computation gives.
use tak_mdm.Base.{
  ℕ, String, false, ◌≡◌, refl, ap, Option, some, arith, In, inl, inr, Bool-cases, Option-cases, ◌⊎◌,
}
use tak_mdm.Base.Rows.{OneRow, OneRow-map}
use tak_mdm.Effective.Fresh.{IsFresh}
use tak_mdm.Effective.Invalidation.{EffectivePolicyCache, Fleet, expired}
use tak_mdm.Effective.Kept.{IsSteady, Result-cases, id_of_version, refresh-IsFresh}
use tak_mdm.Effective.Refresh.{
  Payload, stored, cache_of, compute, refresh, keep_payload, get_effective,
}
use tak_mdm.Effective.Rows.{Device, id_of}
use tak_mdm.Json.{Value, Fields}
use tak_mdm.Merge.{Result, ok, err, Error}
use tak_mdm.Resolver.{EffectivePolicy}
use tak_mdm.Resolver.Resolve.{Registry}

-- what is answered, without the fleet that results
abbrev pub answer : Result (Fields × Fleet) → Result Fields
answer (err e) = err e
answer (ok (p, f)) = ok p

-- the fleet that results
abbrev pub left : Fleet → Result (Fields × Fleet) → Fleet
left f (err e) = f
left f (ok (p, g)) = g

module _ (dumps : Value → String) (reg : Registry)
    (finish : String → ℕ → EffectivePolicy → Payload × Option ℕ) (now : ℕ) (f : Fleet)
    (d : Device) where
  pub refresh_ok :
      (e : EffectivePolicy)
      → compute dumps reg finish now f d ≡ ok e
      → refresh dumps reg finish now f d
        ≡ ok (
          stored (finish (id_of d) now e).0,
          keep_payload dumps reg finish now f d (finish (id_of d) now e),
        )
  unfolding refresh
  refresh_ok e h = rw (refresh, h) refl

  pub refresh_err :
      (e : Error)
      → compute dumps reg finish now f d ≡ err e
      → refresh dumps reg finish now f d ≡ err e
  unfolding refresh
  refresh_err e h = rw (refresh, h) refl

  -- The row of the device is used, or the policy is computed anew.
  get_effective-cases :
      ((c : EffectivePolicyCache) × (cache_of (id_of d) f.caches ≡ some c)
        × (c.stale ≡ false)
        × (expired now c ≡ false)
        × (get_effective dumps reg finish now f d ≡ ok (c.payload, f)))
      ⊎ (get_effective dumps reg finish now f d ≡ refresh dumps reg finish now f d)
  unfolding get_effective
  get_effective-cases = elim (Option-cases (cache_of (id_of d) f.caches)) [
    | inl n ↦ inr (rw (get_effective, n) refl)
    | inr (c, e) ↦ elim (Bool-cases c.stale) [
      | inl s ↦ inr (rw (get_effective, e, s) refl)
      | inr s ↦ elim (Bool-cases (expired now c)) [
        | inl x ↦ inr (rw (get_effective, e, s, x) refl)
        | inr x ↦ inl (c, e, s, x, rw (get_effective, e, s, x) refl)
      ]
    ]
  ]

module _ (dumps : Value → String) (reg : Registry)
    (finish : String → ℕ → EffectivePolicy → Payload × Option ℕ) (steady : IsSteady finish)
    (now : ℕ) (f : Fleet) (d : Device) (i : In d f.devices)
    (fresh : IsFresh dumps reg finish now f) where
  pub refresh_left :
      OneRow id_of f.devices
      → IsFresh dumps reg finish now (left f (refresh dumps reg finish now f d))
  refresh_left one = elim (Result-cases (compute dumps reg finish now f d)) [
    | inl (e, h) ↦ rw (refresh_err dumps reg finish now f d e h) fresh
    | inr (e, h) ↦
        rw (refresh_ok dumps reg finish now f d e h)
          (refresh-IsFresh dumps reg finish steady now f d e one i h fresh)
  ]

  -- A read answers as a refresh would, errors included.
  pub get_effective-answer :
      answer (get_effective dumps reg finish now f d) ≡ answer (refresh dumps reg finish now f d)
  get_effective-answer = elim (get_effective-cases dumps reg finish now f d) [
    | inl (c, e, s, x, h) ↦
        let (policy, q, r) = fresh d c i e s now (omega arith) x in
        rw (h, refresh_ok dumps reg finish now f d policy q, r) refl
    | inr h ↦ ap answer h
  ]

  pub get_effective_left :
      OneRow id_of f.devices
      → IsFresh dumps reg finish now (left f (get_effective dumps reg finish now f d))
  get_effective_left one = elim (get_effective-cases dumps reg finish now f d) [
    | inl (c, e, s, x, h) ↦ rw h fresh
    | inr h ↦ rw h (refresh_left one)
  ]

module _ (dumps : Value → String) (reg : Registry)
    (finish : String → ℕ → EffectivePolicy → Payload × Option ℕ) (now : ℕ) (f : Fleet)
    (d : Device) where
  -- A read leaves the tables alone, and every device its id.
  pub get_effective_kept :
      ((left f (get_effective dumps reg finish now f d)).tables ≡ f.tables)
      × (OneRow id_of f.devices
          → OneRow id_of (left f (get_effective dumps reg finish now f d)).devices)
  get_effective_kept = elim (get_effective-cases dumps reg finish now f d) [
    | inl (c, e, s, x, h) ↦ rw h (refl, λ one. one)
    | inr h ↦ rw h (refresh_kept (Result-cases (compute dumps reg finish now f d)))
  ]
    where
      refresh_kept :
          ((e : Error) × (compute dumps reg finish now f d ≡ err e))
            ⊎ ((e : EffectivePolicy) × (compute dumps reg finish now f d ≡ ok e))
          → ((left f (refresh dumps reg finish now f d)).tables ≡ f.tables)
            × (OneRow id_of f.devices
                → OneRow id_of (left f (refresh dumps reg finish now f d)).devices)
      refresh_kept (inl (e, h)) = rw (refresh_err dumps reg finish now f d e h) (refl, λ one. one)
      refresh_kept (inr (e, h)) = rw (refresh_ok dumps reg finish now f d e h) (
          unfold keep_payload in
          (refl, λ one. OneRow-map id_of _ f.devices (id_of_version (id_of d) _) one))
