-- ===== src/Commands/Delivery.antt =====
-- Which commands of app/services/commands.py a device is handed, and which expire.
use tak_mdm.Base.{
  ℕ, suc, ◌+◌, ◌≤◌, String, Bool, true, false, ◌≡◌, ◌↔◌, ◌⊎◌, refl, sym, ap, ◌∙◌, subst, some, List,
  [], ◌∷◌, map, keep, length, In, arith, Bool-cases, not, ltb, ◌&&◌, inl, inr,
}
use tak_mdm.Base.Text.{text_eq}
use tak_mdm.Base.Membership.{In-map→, In-map←, In-keep→, In-keep←}
use tak_mdm.Commands.{
  dispatched, DeviceCommand, is_open, is_live, is_selected, expire_one, count_stale, expire_stale,
  claim_one, claim_for_delivery, place_created, order_created,
}

In-place_created :
    (c x : DeviceCommand) (l : List DeviceCommand) → In x (place_created c l) ↔ In x (c ∷ l)
unfolding place_created
In-place_created c x [] = (λ i. i, λ i. i)
In-place_created c x (d ∷ l) = elim (Bool-cases (ltb d.created_at c.created_at)) [
  | inl e ↦ rw e (
      (
        λ i. elim i [ inl p ↦ inr (inl p) | inr j ↦ past ((In-place_created c x l).0 j) ],
        λ i. elim i [
          | inl p ↦ inr ((In-place_created c x l).1 (inl p))
          | inr j ↦ elim j [ inl p ↦ inl p | inr k ↦ inr ((In-place_created c x l).1 (inr k)) ]
        ],
      ))
  | inr e ↦ rw e ((λ i. i, λ i. i))
]
  where
    past : In x (c ∷ l) → In x (c ∷ d ∷ l)
    past (inl p) = inl p
    past (inr k) = inr (inr k)

In-order_created : (x : DeviceCommand) (l : List DeviceCommand) → In x (order_created l) ↔ In x l
unfolding order_created
In-order_created x [] = (λ i. i, λ i. i)
In-order_created x (c ∷ l) =
    let (into, out) = In-place_created c x (order_created l) in
    let (down, up) = In-order_created x l in
    (
      λ i. elim (into i) [ inl p ↦ inl p | inr j ↦ inr (down j) ],
      λ i. elim i [ inl p ↦ out (inl p) | inr j ↦ out (inr (up j)) ],
    )

-- The row as the device is handed it.
abbrev pub handed : ℕ → DeviceCommand → DeviceCommand
handed now c = record c { status = dispatched; dispatched_at = some now; attempts = suc c.attempts }

-- A row that is open and live passes `expire_stale`, and no other row does.
expire_one-live :
    (now : ℕ) (d : String) (c : DeviceCommand) → is_live now c ≡ true → expire_one now d c ≡ c
unfolding expire_one
expire_one-live now d c h = ground arith

expire_one-cases :
    (now : ℕ) (d : String) (c : DeviceCommand)
    → (is_selected d (expire_one now d c) ≡ false) ⊎ (expire_one now d c ≡ c)
unfolding expire_one is_selected is_open
expire_one-cases now d c = elim (Bool-cases (is_selected d c && not (is_live now c))) [
  | inl e ↦
      inl
        (rw e (elim (Bool-cases (text_eq c.device_id d)) [ inl f ↦ rw f refl | inr f ↦ rw f refl ]))
  | inr e ↦ inr (rw e refl)
]

is_live-earlier :
    (now later : ℕ) (c : DeviceCommand)
    → now ≤ later
    → is_live later c ≡ true
    → is_live now c ≡ true
unfolding is_live
is_live-earlier now later c h k = ground arith

is_live→is_open : (now : ℕ) (c : DeviceCommand) → is_live now c ≡ true → is_open c.status ≡ true
unfolding is_live
is_live→is_open now c h = ground arith

claim_one-live :
    (now : ℕ) (d : String) (c : DeviceCommand)
    → text_eq c.device_id d ≡ true
    → is_live now c ≡ true
    → claim_one now d c ≡ handed now c
unfolding claim_one is_selected
claim_one-live now d c h k = ground (arith, is_live→is_open now c)

no_both : {b : Bool} → b ≡ true → b ≡ false → ⊥
no_both e f = cc

selected_own :
    (d : String) (c : DeviceCommand) → is_selected d c ≡ true → text_eq c.device_id d ≡ true
unfolding is_selected
selected_own d c h = ground arith

selected_if :
    (d : String) (c : DeviceCommand)
    → text_eq c.device_id d ≡ true
    → is_open c.status ≡ true
    → is_selected d c ≡ true
unfolding is_selected
selected_if d c h k = ground arith

-- `claim_for_delivery` hands a device exactly its own commands that are live at that moment, each
-- as it was in the table except that it is dispatched now and one attempt is counted, if the
-- clock does not run backwards between its two readings.
pub claim_for_delivery-exact :
    (expire_now now : ℕ) (d : String) (l : List DeviceCommand)
    → expire_now ≤ now
    → (c : DeviceCommand)
    → In c (claim_for_delivery expire_now now d l).0 ↔ (
        (b : DeviceCommand) × In b l
        × (text_eq b.device_id d ≡ true)
        × (is_live now b ≡ true)
        × (c ≡ handed now b))
unfolding claim_for_delivery expire_stale
claim_for_delivery-exact expire_now now d l h c = (to, from)
  where
    Handed : Type 0
    Handed =
        (b : DeviceCommand) × In b l
        × (text_eq b.device_id d ≡ true)
        × (is_live now b ≡ true)
        × (c ≡ handed now b)

    to : In c (claim_for_delivery expire_now now d l).0 → Handed
    to i =
        let (x, j, p) = In-map→ (claim_one now d) _ c i in
        let (k, live) = In-keep→ (is_live now) _ x j in
        let (m, chosen) = In-keep→ (is_selected d) _ x ((In-order_created x _).0 k) in
        let (b, n, q) = In-map→ (expire_one expire_now d) l x m in
        elim (expire_one-cases expire_now d b) [
          | inl e ↦ absurd (no_both (subst (λ z. is_selected d z ≡ true) q chosen) e)
          | inr e ↦
              let same = q ∙ e in
              let own = subst (λ z. is_selected d z ≡ true) same chosen in
              let mine = selected_own d b own in
              let alive = subst (λ z. is_live now z ≡ true) same live in
              (b, n, mine, alive, p ∙ ap (claim_one now d) same ∙ claim_one-live now d b mine alive)
        ]

    from : Handed → In c (claim_for_delivery expire_now now d l).0
    from (b, n, mine, alive, p) =
        let same = expire_one-live expire_now d b (is_live-earlier expire_now now b h alive) in
        let i =
          subst (λ z. In z (map (expire_one expire_now d) l)) same
            (In-map← (expire_one expire_now d) l b n) in
        let chosen = selected_if d b mine (is_live→is_open now b alive) in
        let j = In-keep← (is_selected d) _ b i chosen in
        let k = In-keep← (is_live now) _ b ((In-order_created b _).1 j) alive in
        subst (λ z. In z (claim_for_delivery expire_now now d l).0)
          (claim_one-live now d b mine alive ∙ sym p) (In-map← (claim_one now d) _ b k)

-- How many commands of a device are open.
abbrev pub open_count : String → List DeviceCommand → ℕ
open_count d l = length (keep (is_selected d) l)

expire_one-dead :
    (now : ℕ) (d : String) (c : DeviceCommand)
    → is_live now c ≡ false
    → is_selected d (expire_one now d c) ≡ false
unfolding expire_one is_selected is_open
expire_one-dead now d c h = elim (Bool-cases (is_selected d c && not (is_live now c))) [
  | inl e ↦
      rw e (elim (Bool-cases (text_eq c.device_id d)) [ inl f ↦ rw f refl | inr f ↦ rw f refl ])
  | inr e ↦ rw e (unselected (is_selected d c) (rw h at e))
]
  where
    unselected : (b : Bool) → (b && not false) ≡ false → b ≡ false
    unselected true k = k
    unselected false k = k

count_stale-keep :
    (now : ℕ) (d : String) (l : List DeviceCommand)
    → count_stale now d l + open_count d (map (expire_one now d) l) ≡ open_count d l
unfolding count_stale
count_stale-keep now d [] = refl
count_stale-keep now d (c ∷ l) =
    ground (arith, count_stale-keep now d l, expire_one-live now d c, expire_one-dead now d c)

-- After `expire_stale` every open command of the device is live, and the number that it returns
-- is by how many commands the device has fewer open ones.
pub expire_stale-settled :
    (now : ℕ) (d : String) (l : List DeviceCommand)
    → ((c : DeviceCommand)
        → In c (expire_stale now d l).1
        → is_selected d c ≡ true
        → is_live now c ≡ true)
      × ((expire_stale now d l).0 + open_count d (expire_stale now d l).1 ≡ open_count d l)
unfolding expire_stale
expire_stale-settled now d l = (
  λ c i chosen.
      let (b, n, q) = In-map→ (expire_one now d) l c i in
      elim (Bool-cases (is_live now b)) [
        | inl e ↦ subst (λ z. is_live now z ≡ true) (sym (q ∙ expire_one-live now d b e)) e
        | inr e ↦
            absurd
              (no_both (subst (λ z. is_selected d z ≡ true) q chosen) (expire_one-dead now d b e))
      ],
  count_stale-keep now d l,
)
