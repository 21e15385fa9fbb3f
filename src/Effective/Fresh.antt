-- ===== src/Effective/Fresh.antt =====
-- The answers that are kept: as long as they are neither stale nor expired, they are what a new
-- computation gives.
use tak_mdm.Base.{
  ℕ, ◌≤◌, String, Bool, true, false, ◌≡◌, refl, ap, ◌∙◌, subst, Option, none, some, List, [], ◌∷◌,
  arith, In, map, any, inl, inr, Bool-cases,
}
use tak_mdm.Base.Text.{text_eq, text_eq_iff, text_eq_refl}
use tak_mdm.Base.Membership.{any_of_In}
use tak_mdm.Effective.{gather_assignments}
use tak_mdm.Effective.Invalidation.{EffectivePolicyCache, Fleet, expired, mark_stale, invalidate}
use tak_mdm.Effective.Refresh.{Payload, stored, cache_of, compute}
use tak_mdm.Effective.Rows.{Device, Tables, id_of}
use tak_mdm.Effective.Writes.{with_tables}
use tak_mdm.Json.{Value, Fields}
use tak_mdm.Merge.{ok}
use tak_mdm.Resolver.{EffectivePolicy}
use tak_mdm.Resolver.Resolve.{Registry, resolve}

-- Whatever is still kept after the change was kept before it, for a device that the change does not
-- concern.
abbrev pub Quiet : Fleet → Fleet → Type 0
Quiet f g =
    (d : Device) (c : EffectivePolicyCache)
    → In d g.devices
    → cache_of (id_of d) g.caches ≡ some c
    → c.stale ≡ false
    → In d f.devices
      × (cache_of (id_of d) f.caches ≡ some c)
      × ((u : ℕ) (reg : Registry)
          → gather_assignments u reg g.tables d ≡ gather_assignments u reg f.tables d)

-- A row that is kept after some devices were invalidated is not one of theirs.
kept_unmarked :
    (ids : List String) (id : String) (l : List EffectivePolicyCache) (c : EffectivePolicyCache)
    → cache_of id (map (mark_stale ids) l) ≡ some c
    → c.stale ≡ false
    → (any (text_eq id) ids ≡ false) × (cache_of id l ≡ some c)
unfolding cache_of mark_stale
kept_unmarked ids id [] c e h = absurd (cc)
kept_unmarked ids id (x ∷ l) c e h = elim (Bool-cases (any (text_eq x.device_id) ids)) [
  | inl m ↦ elim (Bool-cases (text_eq x.device_id id)) [
    | inl q ↦ absurd (is_stale (rw (m, q) at e))
    | inr q ↦ rw q (kept_unmarked ids id l c (rw (m, q) at e) h)
  ]
  | inr m ↦ elim (Bool-cases (text_eq x.device_id id)) [
    | inl q ↦ (
      subst (λ i. any (text_eq i) ids ≡ false) ((text_eq_iff x.device_id id).0 q) m,
      rw q (rw (m, q) at e),
    )
    | inr q ↦ rw q (kept_unmarked ids id l c (rw (m, q) at e) h)
  ]
]
  where
    is_stale : some (record x { stale = true }) ≡ some c → ⊥
    is_stale p = cc (
        ap {B = Bool}
          (λ (o : Option EffectivePolicyCache). elim o [ none ↦ true | some y ↦ y.stale ]) p)

-- A change that leaves alone what is gathered for the devices that are not invalidated is quiet.
pub invalidate-Quiet :
    (ids : List String) (f : Fleet) (t : Tables)
    → ((d : Device)
        → In d f.devices
        → (In (id_of d) ids → ⊥)
        → (u : ℕ) (reg : Registry)
        → gather_assignments u reg t d ≡ gather_assignments u reg f.tables d)
    → Quiet f (invalidate ids (with_tables f t))
unfolding invalidate
invalidate-Quiet [] f t same d c i e h = (i, e, same d i (λ j. j))
invalidate-Quiet (id ∷ ids) f t same d c i e h =
    let (m, k) = kept_unmarked (id ∷ ids) (id_of d) f.caches c e h in
    (
      i,
      k,
      same d i (λ j.
          marked (any_of_In (text_eq (id_of d)) (id ∷ ids) (id_of d) j (text_eq_refl (id_of d))) m),
    )
  where
    marked : {x : Bool} → x ≡ true → x ≡ false → ⊥
    marked p q = cc

pub Quiet-refl : (f : Fleet) → Quiet f f
Quiet-refl f d c i e h = (i, e, λ u reg. refl)

pub Quiet-trans : (f g h : Fleet) → Quiet f g → Quiet g h → Quiet f h
Quiet-trans f g h p q d c i e s =
    let (j, k, same) = q d c i e s in
    let (j', k', same') = p d c j k s in (j', k', λ u reg. same u reg ∙ same' u reg)

module _ (dumps : Value → String) (reg : Registry)
    (finish : String → ℕ → EffectivePolicy → Payload × Option ℕ) where
  -- What a computation at this moment would keep.
  abbrev pub Answers : ℕ → Fleet → Device → Fields → Type 0
  Answers u f d p =
      (e : EffectivePolicy) × (compute dumps reg finish u f d ≡ ok e)
      × (p ≡ stored (finish (id_of d) u e).0)

  abbrev pub IsFresh : ℕ → Fleet → Type 0
  IsFresh now f =
      (d : Device) (c : EffectivePolicyCache)
      → In d f.devices
      → cache_of (id_of d) f.caches ≡ some c
      → c.stale ≡ false
      → (u : ℕ) → now ≤ u
      → expired u c ≡ false
      → Answers u f d c.payload

  pub compute_same :
      (u : ℕ) (f g : Fleet) (d : Device)
      → gather_assignments u reg g.tables d ≡ gather_assignments u reg f.tables d
      → compute dumps reg finish u g d ≡ compute dumps reg finish u f d
  unfolding compute
  compute_same u f g d e = ap (resolve dumps reg (id_of d)) e

  pub Quiet-IsFresh : (now : ℕ) (f g : Fleet) → Quiet f g → IsFresh now f → IsFresh now g
  Quiet-IsFresh now f g quiet fresh d c i e h u le x =
      let (j, k, same) = quiet d c i e h in
      let (policy, q, r) = fresh d c j k h u le x in
      (policy, compute_same u f g d (same u reg) ∙ q, r)

  pub IsFresh_later : (now later : ℕ) (f : Fleet) → now ≤ later → IsFresh now f → IsFresh later f
  IsFresh_later now later f le fresh d c i e h u k x = fresh d c i e h u (omega arith) x
