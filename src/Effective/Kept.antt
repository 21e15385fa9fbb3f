-- ===== src/Effective/Kept.antt =====
-- What a refresh keeps is right until it expires.
use tak_mdm.Base.{
  ℕ, ◌≤◌, String, true, false, ◌≡◌, refl, sym, ap, ◌∙◌, subst, Option, none, some, List, [], ◌∷◌,
  arith, if◌then◌else◌, In, inl, inr, Bool-cases, ◌⊎◌, leb,
}
use tak_mdm.Base.Text.{text_eq, text_eq_iff, text_eq_refl, text_eq-ne}
use tak_mdm.Base.Membership.{In-map→}
use tak_mdm.Deployment.{earlier}
use tak_mdm.Base.Rows.{OneRow}
use tak_mdm.Effective.{gather_assignments, gather_profile_assignments, next_transition}
use tak_mdm.Effective.Fresh.{IsFresh, Answers, compute_same}
use tak_mdm.Effective.Horizon.{Before, Before-earlier, gather_assignments_same}
use tak_mdm.Effective.Invalidation.{EffectivePolicyCache, Fleet, expired}
use tak_mdm.Effective.Refresh.{
  Payload, stored, cache_of, keep_cache, with_version, next_version, previous_of, compute,
  keep_payload,
}
use tak_mdm.Effective.Rows.{Device, Tables, id_of}
use tak_mdm.Json.{Value}
use tak_mdm.Merge.{Result, ok, err, Error}
use tak_mdm.Resolver.{EffectivePolicy}
use tak_mdm.Resolver.Resolve.{Registry, resolve}

pub cache_of_kept :
    (c : EffectivePolicyCache) (l : List EffectivePolicyCache)
    → cache_of c.device_id (keep_cache c l) ≡ some c
unfolding cache_of keep_cache
cache_of_kept c [] = rw (text_eq_refl c.device_id) refl
cache_of_kept c (x ∷ l) = elim (Bool-cases (text_eq x.device_id c.device_id)) [
  | inl e ↦ rw (e, text_eq_refl c.device_id) refl
  | inr e ↦ rw (e, e) (cache_of_kept c l)
]

pub cache_of_other :
    (c : EffectivePolicyCache) (id : String) (l : List EffectivePolicyCache)
    → text_eq c.device_id id ≡ false
    → cache_of id (keep_cache c l) ≡ cache_of id l
unfolding cache_of keep_cache
cache_of_other c id [] h = rw h refl
cache_of_other c id (x ∷ l) h = elim (Bool-cases (text_eq x.device_id c.device_id)) [
  | inl e ↦
      rw
        (
          e,
          h,
          subst (λ i. text_eq i id ≡ false) (sym ((text_eq_iff x.device_id c.device_id).0 e)) h,
        )
        refl
  | inr e ↦ rw e (ap (λ r. if text_eq x.device_id id then some x else r) (cache_of_other c id l h))
]

pub unexpired-Before :
    (u : ℕ) (c : EffectivePolicyCache) → expired u c ≡ false → Before u c.next_transition_at
unfolding expired
unexpired-Before u c h = of_moment c.next_transition_at h
  where
    of_moment : (o : Option ℕ) → (elim o [ none ↦ false | some t ↦ leb t u ]) ≡ false → Before u o
    of_moment none h = tt
    of_moment (some t) h = ground arith

pub Result-cases :
    {A : Type 0} (r : Result A) → ((e : Error) × (r ≡ err e)) ⊎ ((a : A) × (r ≡ ok a))
Result-cases (err e) = inl (e, refl)
Result-cases (ok a) = inr (a, refl)

-- Only the version of a device is written.
gather_of_version :
    (u : ℕ) (reg : Registry) (t : Tables) (id : String) (n : ℕ) (d : Device)
    → gather_assignments u reg t (with_version id n d) ≡ gather_assignments u reg t d
unfolding with_version gather_assignments gather_profile_assignments
gather_of_version u reg t id n d = elim (Bool-cases (text_eq (id_of d) id)) [
  | inl e ↦ rw e refl
  | inr e ↦ rw e refl
]

pub id_of_version : (id : String) (n : ℕ) (d : Device) → id_of (with_version id n d) ≡ id_of d
unfolding with_version
id_of_version id n d = elim (Bool-cases (text_eq (id_of d) id)) [
  | inl e ↦ rw e refl
  | inr e ↦ rw e refl
]

-- `finish` makes the same payload until the moment that it names.
abbrev pub IsSteady : (String → ℕ → EffectivePolicy → Payload × Option ℕ) → Type 0
IsSteady finish =
    (id : String) (now u : ℕ) (e : EffectivePolicy)
    → now ≤ u
    → Before u (finish id now e).1
    → (finish id u e).0 ≡ (finish id now e).0

module _ (dumps : Value → String) (reg : Registry)
    (finish : String → ℕ → EffectivePolicy → Payload × Option ℕ) (steady : IsSteady finish) where
  pub compute_version :
      (u : ℕ) (g : Fleet) (id : String) (n : ℕ) (d : Device)
      → compute dumps reg finish u g (with_version id n d) ≡ compute dumps reg finish u g d
  unfolding compute
  compute_version u g id n d =
      λ i. resolve dumps reg (id_of_version id n d i) (gather_of_version u reg g.tables id n d i)

  pub compute_later :
      (now u : ℕ) (f : Fleet) (d : Device)
      → now ≤ u
      → Before u (next_transition now f.tables)
      → compute dumps reg finish u f d ≡ compute dumps reg finish now f d
  unfolding compute
  compute_later now u f d le b =
      ap (resolve dumps reg (id_of d)) (gather_assignments_same now u reg f.tables le b d)

  -- What a refresh keeps for its device answers as a computation would, until it expires.
  kept-Answers :
      (now : ℕ) (f : Fleet) (d : Device) (e : EffectivePolicy)
      → compute dumps reg finish now f d ≡ ok e
      → (u : ℕ) → now ≤ u
      → Before u (earlier (next_transition now f.tables) (finish (id_of d) now e).1)
      → (n : ℕ) (g : Fleet) → g.tables ≡ f.tables
      → Answers dumps reg finish u g
          (with_version (id_of d) n d)
          (stored (finish (id_of d) now e).0)
  kept-Answers now f d e h u le b n g same =
      let (first, second) =
        Before-earlier u (next_transition now f.tables) (finish (id_of d) now e).1 b in
      (
        e,
        compute_version u g (id_of d) n d
            ∙ compute_same dumps reg finish u f g d (ap (λ t. gather_assignments u reg t d) same)
            ∙ compute_later now u f d le first
            ∙ h,
        sym (
            ap (λ id. stored (finish id u e).0) (id_of_version (id_of d) n d)
            ∙ ap stored (steady (id_of d) now u e le second)),
      )

  module _ (now : ℕ) (f : Fleet) (d : Device) (e : EffectivePolicy) (one : OneRow id_of f.devices)
      (i : In d f.devices) (h : compute dumps reg finish now f d ≡ ok e)
      (fresh : IsFresh dumps reg finish now f) where
    abbrev after : Fleet
    after = keep_payload dumps reg finish now f d (finish (id_of d) now e)

    abbrev number : ℕ
    number =
        next_version (previous_of (cache_of (id_of d) f.caches)) (finish (id_of d) now e).0
          d.state_version

    abbrev new_row : EffectivePolicyCache
    new_row = record {
      device_id = id_of d;
      state_version = number;
      payload = stored (finish (id_of d) now e).0;
      stale = false;
      computed_at = now;
      next_transition_at = earlier (next_transition now f.tables) (finish (id_of d) now e).1;
    }

    own_row :
        (c : EffectivePolicyCache) (u : ℕ)
        → cache_of (id_of (with_version (id_of d) number d)) after.caches ≡ some c
        → now ≤ u
        → expired u c ≡ false
        → Answers dumps reg finish u after (with_version (id_of d) number d) c.payload
    unfolding keep_payload
    own_row c u k le x =
        let q : new_row ≡ c = same (
          sym (cache_of_kept new_row f.caches)
          ∙ ap (λ id. cache_of id (keep_cache new_row f.caches))
              (sym (id_of_version (id_of d) number d))
          ∙ k) in
        subst (λ y. Answers dumps reg finish u after (with_version (id_of d) number d) y.payload) q
          (kept-Answers now f d e h u le
            (unexpired-Before u new_row (subst (λ y. expired u y ≡ false) (sym q) x)) number after
            refl)
      where
        same : {x y : EffectivePolicyCache} → some x ≡ some y → x ≡ y
        same p = cc

    other_row :
        (a : Device) (c : EffectivePolicyCache) (u : ℕ)
        → In a f.devices
        → text_eq (id_of d) (id_of a) ≡ false
        → cache_of (id_of a) after.caches ≡ some c
        → c.stale ≡ false
        → now ≤ u
        → expired u c ≡ false
        → Answers dumps reg finish u after a c.payload
    unfolding keep_payload
    other_row a c u j ne k s le x =
        let (policy, q, r) =
          fresh a c j (sym (cache_of_other new_row (id_of a) f.caches ne) ∙ k) s u le x in
        (policy, compute_same dumps reg finish u f after a refl ∙ q, r)

    pub refresh-IsFresh : IsFresh dumps reg finish now after
    unfolding keep_payload with_version
    refresh-IsFresh d' c i' k s u le x =
        let (a, j, q) = In-map→ (with_version (id_of d) number) f.devices d' i' in
        elim (Bool-cases (text_eq (id_of a) (id_of d))) [
          | inl t ↦
              let same : d' ≡ with_version (id_of d) number d =
                q
                ∙ ap (with_version (id_of d) number)
                    (one a d j i ((text_eq_iff (id_of a) (id_of d)).0 t)) in
              subst (λ y. Answers dumps reg finish u after y c.payload) (sym same)
                (own_row c u (subst (λ y. cache_of (id_of y) after.caches ≡ some c) same k) le x)
          | inr t ↦
              let same : d' ≡ a = q ∙ rw t refl in
              subst (λ y. Answers dumps reg finish u after y c.payload) (sym same)
                (other_row a c u j (turned (id_of a) (id_of d) t)
                  (subst (λ y. cache_of (id_of y) after.caches ≡ some c) same k) s le x)
        ]
      where
        differ : true ≡ false → ⊥
        differ p = cc

        turned : (v w : String) → text_eq v w ≡ false → text_eq w v ≡ false
        turned v w n = text_eq-ne w v (λ p. differ (rw (p, text_eq_refl v) at n))
