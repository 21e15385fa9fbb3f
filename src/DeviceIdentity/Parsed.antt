-- ===== src/DeviceIdentity/Parsed.antt =====
-- What is parsed has each value once.
use tak_mdm.Base.{String, List, [], ◌∷◌, any, inl, inr, Bool-cases}
use tak_mdm.Base.Rows.{OneRow, OneRow-add}
use tak_mdm.Base.Text.{text_eq}
use tak_mdm.DeviceIdentity.{
  ReportedIdentifier, RawIdentifier, legacy, kind_of_raw, note_identifier, text_or_empty, note_raw,
  note_entries, parse_reported,
}

abbrev OneValue : List ReportedIdentifier → Type 0
OneValue = OneRow (λ (r : ReportedIdentifier). r.value)

note_identifier-OneValue :
    (item : ReportedIdentifier) (seen : List ReportedIdentifier)
    → OneValue seen
    → OneValue (note_identifier item seen)
unfolding note_identifier
note_identifier-OneValue item seen one =
    elim (Bool-cases (any (λ (r : ReportedIdentifier). text_eq r.value item.value) seen)) [
      | inl e ↦ rw (note_identifier, e) one
      | inr e ↦
          rw (note_identifier, e) (OneRow-add (λ (r : ReportedIdentifier). r.value) seen item e one)
    ]

module _ (strip : String → String) where
  note_entries-OneValue :
      (raw : List RawIdentifier) (seen : List ReportedIdentifier)
      → OneValue seen
      → OneValue (note_entries strip raw seen)
  unfolding note_entries note_raw
  note_entries-OneValue [] seen one = one
  note_entries-OneValue (entry ∷ raw) seen one =
      note_entries-OneValue raw (note_raw strip entry seen)
        (elim (Bool-cases (text_eq (strip (text_or_empty entry.value)) "")) [
          | inl e ↦ rw (note_raw, e) one
          | inr e ↦
              rw (note_raw, e)
                (note_identifier-OneValue
                  (record {
                    kind = kind_of_raw entry.kind;
                    value = strip (text_or_empty entry.value);
                  })
                  seen one)
        ])

  -- No value stands twice in what is parsed, as resolving asks for.
  pub parse_reported-OneValue :
      (raw : List RawIdentifier) (serial_number : String)
      → OneValue (parse_reported strip raw serial_number)
  unfolding parse_reported
  parse_reported-OneValue raw serial_number =
      let one = note_entries-OneValue raw [] (λ a b i j e. absurd i) in
      elim (Bool-cases (text_eq (strip serial_number) "")) [
        | inl e ↦ rw (parse_reported, e) one
        | inr e ↦
            rw (parse_reported, e)
              (note_identifier-OneValue (record { kind = legacy; value = strip serial_number })
                (note_entries strip raw []) one)
      ]
