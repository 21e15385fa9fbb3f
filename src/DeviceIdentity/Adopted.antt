-- ===== src/DeviceIdentity/Adopted.antt =====
-- Resolving: the strongest identifier decides, and a device that was recorded is found again.
use tak_mdm.Base.{ℕ, String, ◌≡◌, refl, sym, ap, ◌∙◌, List, [], ◌∷◌, In, any, inl, inr}
use tak_mdm.Base.Membership.{In-keep→, In-keep←, any-true, any_of_In}
use tak_mdm.Base.Sorting.{sort_by, In-sort_by}
use tak_mdm.Base.Text.{text_eq, text_eq_iff}
use tak_mdm.DeviceIdentity.{
  ReportedIdentifier, DeviceIdentifier, Device, stronger, matching, get_device, others, decided,
  resolve, record_all,
}
use tak_mdm.DeviceIdentity.Recorded.{OneValue, record_all-IsRecorded}

others_none :
    (id : String) (rows : List DeviceIdentifier) (devices found : List Device)
    → ((r : DeviceIdentifier) → In r rows → r.device_id ≡ id)
    → others id rows devices found ≡ found
unfolding others
others_none id [] devices found own = refl
others_none id (row ∷ rows) devices found own =
    rw ((text_eq_iff row.device_id id).1 (own row (inl refl)))
      (others_none id rows devices found (λ r i. own r (inr i)))

-- Rows of one device decide for it, and nothing is ambiguous.
decided_one :
    (reported : List ReportedIdentifier) (devices : List Device) (l : List DeviceIdentifier)
    (id : String) (r : DeviceIdentifier)
    → In r l
    → ((r : DeviceIdentifier) → In r l → r.device_id ≡ id)
    → ((decided reported devices l).device ≡ get_device id devices)
      × ((decided reported devices l).ambiguous_with ≡ [])
unfolding decided
decided_one reported devices [] id r i own = absurd i
decided_one reported devices (w ∷ l) id r i own = (
  ap (λ x. get_device x devices) (own w (inl refl)),
  others_none w.device_id l devices [] (λ r j. own r (inr j) ∙ sym (own w (inl refl))),
)

module _ (now : ℕ) (device_id : String) (reported : List ReportedIdentifier)
    (rows : List DeviceIdentifier) (apart : OneValue rows)
    (free : (r : DeviceIdentifier) (x : ReportedIdentifier)
      → In r rows
      → In x reported
      → r.value ≡ x.value
      → r.device_id ≡ device_id)
    (later : List ReportedIdentifier)
    (again : (x : ReportedIdentifier)
      → In x later
      → (y : ReportedIdentifier) × In y reported × (y.value ≡ x.value)) where
  abbrev table : List DeviceIdentifier
  table = record_all now device_id reported rows

  own_match : (r : DeviceIdentifier) → In r (matching later table) → r.device_id ≡ device_id
  unfolding matching
  own_match r i =
      let (j, h) = In-keep→ (λ row. any (λ x. text_eq x.value row.value) later) table r i in
      let (x, k, e) = any-true (λ x. text_eq x.value r.value) later h in
      let (y, l, q) = again x k in
      elim ((record_all-IsRecorded now device_id reported rows apart).origin r j) [
        | inl w ↦
            w.2.1 ∙ free w.0 y w.1 l (sym w.2.0 ∙ sym ((text_eq_iff x.value r.value).0 e) ∙ sym q)
        | inr g ↦ g
      ]

  some_match :
      (x : ReportedIdentifier) → In x later → (r : DeviceIdentifier) × In r (matching later table)
  unfolding matching
  some_match x i =
      let (y, j, e) = again x i in
      let (s, k, h) = (record_all-IsRecorded now device_id reported rows apart).known y j in
      (
        s,
        In-keep← (λ row. any (λ z. text_eq z.value row.value) later) table s k
            (any_of_In (λ z. text_eq z.value s.value) later x i
              ((text_eq_iff x.value s.value).1 (sym e ∙ sym h))),
      )

  -- A device whose identifiers were recorded, none of them claimed by another device, is found by
  -- whichever of them it reports later, in whatever order and under whatever kinds; and no other device
  -- is.
  pub resolve-record_all :
      (x : ReportedIdentifier) (devices : List Device)
      → In x later
      → ((resolve later table devices).device ≡ get_device device_id devices)
        × ((resolve later table devices).ambiguous_with ≡ [])
  unfolding resolve
  resolve-record_all x devices i =
      let (r, j) = some_match x i in
      let sorted = sort_by (stronger later) (matching later table) in
      decided_one later devices sorted device_id r
        ((In-sort_by (stronger later) r (matching later table)).1 j)
        (λ s k. own_match s ((In-sort_by (stronger later) s (matching later table)).0 k))
