-- ===== src/DeviceIdentity/Strongest.antt =====
-- The identifier that decides is the strongest one that is known.
use tak_mdm.Base.{
  ℕ, ◌<◌, String, Bool, true, false, ◌≡◌, refl, sym, ap, ◌∙◌, subst, none, some, List, [], ◌∷◌,
  arith, if◌then◌else◌, In, any, inl, inr, Bool-cases, Option-cases, ltb, ◌==◌, ==_iff, ◌⊎◌,
}
use tak_mdm.Base.Membership.{In-keep→, In-keep←, any-true, any_of_In}
use tak_mdm.Base.Rows.{OneRow}
use tak_mdm.Base.Sorting.{sort_by, sort_by-head, In-sort_by}
use tak_mdm.Base.Text.{text_eq, text_eq_iff, text_lt, text_lt_irrefl, text_lt_trans, text_lt_total}
use tak_mdm.DeviceIdentity.{
  rank, ReportedIdentifier, DeviceIdentifier, Device, rank_of, stronger, matching, get_device,
  decided, resolve, by_value,
}

-- The order of the keys: a smaller number first, and equal ones by their texts.
abbrev key_lt : ℕ → String → ℕ → String → Bool
key_lt m s n t = if m == n then text_lt s t else ltb m n

key_irrefl : (m : ℕ) (s : String) → key_lt m s m s ≡ false
key_irrefl m s = ground (arith, text_lt_irrefl s)

text_asym : (s t : String) → text_lt s t ≡ true → text_lt t s ≡ false
text_asym s t h = elim (Bool-cases (text_lt t s)) [
  | inl k ↦ absurd (cc (text_lt_trans s t s h k, text_lt_irrefl s))
  | inr k ↦ k
]

text_negtrans : (s t u : String) → text_lt s t ≡ false → text_lt t u ≡ false → text_lt s u ≡ false
text_negtrans s t u h k = elim (Bool-cases (text_lt s u)) [
  | inl l ↦ elim (Bool-cases (text_lt t s)) [
    | inl m ↦ absurd (cc (text_lt_trans t s u m l, k))
    | inr m ↦ absurd (cc (k, subst (λ x. text_lt x u ≡ true) (text_lt_total s t h m) l))
  ]
  | inr l ↦ l
]

key_asym : (m n : ℕ) (s t : String) → key_lt m s n t ≡ true → key_lt n t m s ≡ false
key_asym m n s t h = ground (arith, text_asym s t)

key_negtrans :
    (m n k : ℕ) (s t u : String)
    → key_lt m s n t ≡ false
    → key_lt n t k u ≡ false
    → key_lt m s k u ≡ false
key_negtrans m n k s t u h g = ground (arith, text_negtrans s t u)

by_value-In :
    (v : String) (l : List ReportedIdentifier) (r : ReportedIdentifier)
    → by_value v l ≡ some r
    → In r l × (r.value ≡ v)
unfolding by_value
by_value-In v [] r e = absurd (cc)
by_value-In v (x ∷ l) r e = elim (Option-cases (by_value v l)) [
  | inl n ↦ elim (Bool-cases (text_eq x.value v)) [
    | inl h ↦
        let same : x ≡ r = only (rw (n, h) at e) in
        (
          inl (sym same),
          ap (λ (y : ReportedIdentifier). y.value) (sym same) ∙ (text_eq_iff x.value v).0 h,
        )
    | inr h ↦ absurd (no_some (rw (n, h) at e))
  ]
  | inr (y, n) ↦ let (i, q) = by_value-In v l r (n ∙ (rw n at e)) in (inr i, q)
]
  where
    only : {y z : ReportedIdentifier} → some y ≡ some z → y ≡ z
    only p = cc

    no_some : none ≡ some r → ⊥
    no_some p = cc

by_value-found :
    (v : String) (l : List ReportedIdentifier) (x : ReportedIdentifier)
    → In x l
    → x.value ≡ v
    → (r : ReportedIdentifier) × (by_value v l ≡ some r)
unfolding by_value
by_value-found v [] x i e = absurd i
by_value-found v (y ∷ l) x i e = elim (Option-cases (by_value v l)) [
  | inr (r, n) ↦ (r, rw n refl)
  | inl n ↦ elim i [
    | inl q ↦ (
      y,
      rw (n, (text_eq_iff y.value v).1 (ap (λ (z : ReportedIdentifier). z.value) (sym q) ∙ e)) refl,
    )
    | inr j ↦ let (r, m) = by_value-found v l x j e in absurd (no_some (sym n ∙ m))
  ]
]
  where
    no_some : {r : ReportedIdentifier} → none ≡ some r → ⊥
    no_some p = cc

-- The place of a value is that of the kind under which it was reported.
rank_of-reported :
    (reported : List ReportedIdentifier) (x : ReportedIdentifier)
    → OneRow (λ (r : ReportedIdentifier). r.value) reported
    → In x reported
    → (rank_of reported x.value ≡ rank x.kind) × (by_value x.value reported ≡ some x)
unfolding rank_of
rank_of-reported reported x one i =
    let (r, e) = by_value-found x.value reported x i refl in
    let (j, q) = by_value-In x.value reported r e in
    let found : by_value x.value reported ≡ some x = e ∙ ap some (one r x j i q) in
    (rw (rank_of, found) refl, found)

-- no later than the other in the order of the kinds, and of the values under one kind
abbrev pub NoLater : ReportedIdentifier → ReportedIdentifier → Type 0
NoLater r x =
    (rank r.kind < rank x.kind) ⊎ ((rank r.kind ≡ rank x.kind) × (text_lt x.value r.value ≡ false))

no_later :
    (r x : ReportedIdentifier)
    → key_lt (rank x.kind) x.value (rank r.kind) r.value ≡ false
    → NoLater r x
no_later r x h = elim (Bool-cases (rank x.kind == rank r.kind)) [
  | inl e ↦ inr (sym ((==_iff (rank x.kind) (rank r.kind)).0 e), rw e at h)
  | inr e ↦ inl (below (rank x.kind) (rank r.kind) e (rw e at h))
]
  where
    below : (m n : ℕ) → (m == n) ≡ false → ltb m n ≡ false → n < m
    below m n p q = ground arith

module _ (reported : List ReportedIdentifier) (rows : List DeviceIdentifier) (devices : List Device)
    (one : OneRow (λ (r : ReportedIdentifier). r.value) reported) where
  abbrev sorted : List DeviceIdentifier
  sorted = sort_by (stronger reported) (matching reported rows)

  -- The first of the sorted rows, and the identifier of its value.
  head_row :
      (row w : DeviceIdentifier) (l : List DeviceIdentifier) (x : ReportedIdentifier)
      → sorted ≡ w ∷ l
      → In x reported
      → In row rows
      → x.value ≡ row.value
      → (r : ReportedIdentifier) × (by_value w.value reported ≡ some r)
        × In r reported
        × In w rows
        × (w.value ≡ r.value)
        × NoLater r x
  unfolding matching stronger
  head_row row w l x e i j q =
      let known =
        In-keep← (λ y. any (λ r. text_eq r.value y.value) reported) rows row j
          (any_of_In (λ r. text_eq r.value row.value) reported x i
            ((text_eq_iff x.value row.value).1 q)) in
      let least =
        sort_by-head (stronger reported) (matching reported rows)
          (λ a. key_irrefl (rank_of reported a.value) a.value)
          (λ a b h.
            key_asym (rank_of reported a.value) (rank_of reported b.value) a.value b.value h)
          (λ a b c h g.
            key_negtrans (rank_of reported a.value) (rank_of reported b.value)
              (rank_of reported c.value) a.value b.value c.value h g)
          w l e row known in
      let (m, h) =
        In-keep→ (λ y. any (λ r. text_eq r.value y.value) reported) rows w
          ((In-sort_by (stronger reported) w (matching reported rows)).0
            (subst (In w) (sym e) (inl refl))) in
      let (r, k, g) = any-true (λ r. text_eq r.value w.value) reported h in
      let same : r.value ≡ w.value = (text_eq_iff r.value w.value).0 g in
      (
        r,
        subst (λ v. by_value v reported ≡ some r) same (rank_of-reported reported r one k).1,
        k,
        m,
        sym same,
        no_later r x (
            subst (λ n. key_lt (rank x.kind) x.value n r.value ≡ false)
              (rank_of-reported reported r one k).0
              (subst (λ n. key_lt n x.value (rank_of reported r.value) r.value ≡ false)
                (rank_of-reported reported x one i).0
                (subst
                  (λ v. key_lt (rank_of reported x.value) x.value (rank_of reported v) v ≡ false)
                  (sym same)
                  (subst
                    (λ v. key_lt (rank_of reported v) v (rank_of reported w.value) w.value ≡ false)
                    (sym q) least)))),
      )

  -- If an identifier that is reported is known, `resolve` answers the device of a reported and known
  -- identifier, and no reported and known identifier comes before that one in the order of the kinds,
  -- or under one kind in that of the values: so the answer does not depend on the order in which
  -- identifiers are reported or rows are stored. No value is reported twice.
  pub resolve-strongest :
      (x : ReportedIdentifier) (row : DeviceIdentifier)
      → In x reported
      → In row rows
      → x.value ≡ row.value
      → (r : ReportedIdentifier) × (w : DeviceIdentifier) × ((resolve reported rows
            devices).matched_on
          ≡ some r)
        × ((resolve reported rows devices).device ≡ get_device w.device_id devices)
        × In r reported
        × In w rows
        × (w.value ≡ r.value)
        × NoLater r x
  unfolding resolve matching
  resolve-strongest x row i j q = first_row sorted refl
    where
      known : In row (matching reported rows)
      known =
          In-keep← (λ y. any (λ r. text_eq r.value y.value) reported) rows row j
            (any_of_In (λ r. text_eq r.value row.value) reported x i
              ((text_eq_iff x.value row.value).1 q))

      first_row :
          (l : List DeviceIdentifier)
          → sorted ≡ l
          → (r : ReportedIdentifier) × (w : DeviceIdentifier) × ((resolve reported rows
                devices).matched_on
              ≡ some r)
            × ((resolve reported rows devices).device ≡ get_device w.device_id devices)
            × In r reported
            × In w rows
            × (w.value ≡ r.value)
            × NoLater r x
      first_row [] e =
          absurd (
            subst (In row) e
              ((In-sort_by (stronger reported) row (matching reported rows)).1 known))
      first_row (w ∷ l) e =
          let (r, g, k, m, same, least) = head_row row w l x e i j q in
          (
            r,
            w,
            ap (λ s. (decided reported devices s).matched_on) e ∙ answer_on w l ∙ g,
            ap (λ s. (decided reported devices s).device) e ∙ answer_device w l,
            k,
            m,
            same,
            least,
          )
        where
          answer_on :
              (w : DeviceIdentifier) (l : List DeviceIdentifier)
              → (decided reported devices (w ∷ l)).matched_on ≡ by_value w.value reported
          answer_on w l = unfold decided in refl

          answer_device :
              (w : DeviceIdentifier) (l : List DeviceIdentifier)
              → (decided reported devices (w ∷ l)).device ≡ get_device w.device_id devices
          answer_device w l = unfold decided in refl
