-- ===== src/Tests/Identifying.antt =====
-- The theorems on app/services/device_identity.py, at concrete identifiers.
use tak_mdm.Base.{List, String, ◌≡◌, refl, sym, ap, ◌∙◌, none, some, [], ◌∷◌, In, inl, inr}
use tak_mdm.Base.Rows.{OneRow}
use tak_mdm.Base.Text.{text_eq_iff}
use tak_mdm.DeviceIdentity.{
  IdentifierKind, ReportedIdentifier, DeviceIdentifier, Device, parse_reported, resolve, record_all,
  get_device, promote_display_serial,
}
use tak_mdm.DeviceIdentity.Adopted.{resolve-record_all}
use tak_mdm.DeviceIdentity.Recorded.{IsRecorded, record_all-IsRecorded, OneValue}
use tak_mdm.DeviceIdentity.Strongest.{NoLater, resolve-strongest}

abbrev hardware : ReportedIdentifier
hardware = record { kind = IdentifierKind.serial; value = "R52" }

abbrev fallback : ReportedIdentifier
fallback = record { kind = IdentifierKind.android_id; value = "a1f" }

abbrev no_strip : String → String
no_strip s = s

-- An older agent sends no list.
only_serial :
    parse_reported no_strip [] "R52" ≡ record { kind = IdentifierKind.legacy; value = "R52" } ∷ []
unfolding parse_reported
only_serial = refl

-- What comes first under a value stands.
both :
    parse_reported no_strip
      (record { kind = some "serial"; value = some "R52" }
        ∷ record { kind = some "android_id"; value = some "a1f" }
        ∷ [])
      "R52"
    ≡ hardware ∷ fallback ∷ []
unfolding parse_reported
both = refl

abbrev tablet : Device
tablet = record { id = "d1"; serial_number = "a1f" }

abbrev old_tablet : Device
old_tablet = record { id = "d2"; serial_number = "b2e" }

abbrev devices : List Device
devices = tablet ∷ old_tablet ∷ []

abbrev fallback_row : DeviceIdentifier
fallback_row = record {
  device_id = "d1";
  kind = IdentifierKind.android_id;
  value = "a1f";
  first_seen_at = 1;
  last_seen_at = 1;
}

one_value : OneValue (fallback_row ∷ [])
one_value a b (inl p) (inl q) e = p ∙ sym q
one_value a b (inl p) (inr j) e = absurd j
one_value a b (inr i) j e = absurd i

record_all-IsRecorded_example :
    IsRecorded "d1"
      (hardware ∷ fallback ∷ [])
      (fallback_row ∷ [])
      (record_all 5 "d1" (hardware ∷ fallback ∷ []) (fallback_row ∷ []))
record_all-IsRecorded_example =
    record_all-IsRecorded 5 "d1" (hardware ∷ fallback ∷ []) (fallback_row ∷ []) one_value

its_own :
    (r : DeviceIdentifier) (x : ReportedIdentifier)
    → In r (fallback_row ∷ [])
    → In x (hardware ∷ fallback ∷ [])
    → r.value ≡ x.value
    → r.device_id ≡ "d1"
its_own r x (inl p) j e = ap (λ (y : DeviceIdentifier). y.device_id) p
its_own r x (inr i) j e = absurd i

same_serial :
    (x : ReportedIdentifier)
    → In x (hardware ∷ [])
    → (y : ReportedIdentifier) × In y (hardware ∷ fallback ∷ []) × (y.value ≡ x.value)
same_serial x (inl p) = (hardware, inl refl, ap (λ (y : ReportedIdentifier). y.value) (sym p))
same_serial x (inr i) = absurd i

-- After a reset the tablet is found by its serial alone.
resolve-record_all_example :
    ((resolve
        (hardware ∷ [])
        (record_all 5 "d1" (hardware ∷ fallback ∷ []) (fallback_row ∷ []))
        devices).device
      ≡ get_device "d1" devices)
    × ((resolve
          (hardware ∷ [])
          (record_all 5 "d1" (hardware ∷ fallback ∷ []) (fallback_row ∷ []))
          devices).ambiguous_with
        ≡ [])
resolve-record_all_example =
    resolve-record_all 5 "d1" (hardware ∷ fallback ∷ []) (fallback_row ∷ []) one_value its_own
      (hardware ∷ []) same_serial hardware devices (inl refl)

found : get_device "d1" devices ≡ some tablet
unfolding get_device
found = refl

apart : hardware.value ≡ fallback.value → ⊥
apart h = cc ((text_eq_iff "R52" "a1f").1 h)

two_values : OneRow (λ (r : ReportedIdentifier). r.value) (hardware ∷ fallback ∷ [])
two_values a b (inl p) (inl q) e = p ∙ sym q
two_values a b (inl p) (inr (inl q)) e = absurd (apart (ap value_of (sym p) ∙ e ∙ ap value_of q))
  where
    value_of : ReportedIdentifier → String
    value_of r = r.value
two_values a b (inl p) (inr (inr j)) e = absurd j
two_values a b (inr (inl p)) (inl q) e =
    absurd (apart (ap value_of (sym q) ∙ sym e ∙ ap value_of p))
  where
    value_of : ReportedIdentifier → String
    value_of r = r.value
two_values a b (inr (inl p)) (inr (inl q)) e = p ∙ sym q
two_values a b (inr (inl p)) (inr (inr j)) e = absurd j
two_values a b (inr (inr i)) j e = absurd i

resolve-strongest_example :
    (r : ReportedIdentifier) × (w : DeviceIdentifier) × ((resolve
        (hardware ∷ fallback ∷ [])
        (fallback_row ∷ [])
        devices).matched_on
      ≡ some r)
    × ((resolve (hardware ∷ fallback ∷ []) (fallback_row ∷ []) devices).device
        ≡ get_device w.device_id devices)
    × In r (hardware ∷ fallback ∷ [])
    × In w (fallback_row ∷ [])
    × (w.value ≡ r.value)
    × NoLater r fallback
resolve-strongest_example =
    resolve-strongest (hardware ∷ fallback ∷ []) (fallback_row ∷ []) devices two_values fallback
      fallback_row (inr (inl refl)) (inl refl) refl

-- The serial is shown from then on, unless another record holds it.
promoted : promote_display_serial tablet (hardware ∷ fallback ∷ []) devices ≡ some "R52"
unfolding promote_display_serial
promoted = refl

held :
    promote_display_serial tablet
      (hardware ∷ [])
      (record { id = "d3"; serial_number = "R52" } ∷ devices)
    ≡ none
unfolding promote_display_serial
held = refl
