-- ===== src/DeviceIdentity.antt =====
-- app/services/device_identity.py: which device a set of reported identifiers belongs to.
-- The rows of `device_identifier` are given in the order of the table; `strip` stands for `str.strip`.
pub mod Recorded
pub mod Adopted
pub mod Strongest
pub mod Parsed
use tak_mdm.Base.{
  ℕ, ◌+◌, String, Bool, true, false, Option, none, some, List, [], ◌∷◌, ◌++◌, if◌then◌else◌, ltb,
  ◌==◌, any, keep, first_of, map, not, ◌&&◌, ◌||◌,
}
use tak_mdm.Base.Sorting.{sort_by}
use tak_mdm.Base.Text.{text_eq, text_lt}

pub data IdentifierKind : Type 0 where
  serial : IdentifierKind
  legacy : IdentifierKind
  android_id : IdentifierKind

-- the place of a kind in `IDENTIFIER_PRIORITY`, which has them all
unfoldable pub rank : IdentifierKind → ℕ
rank serial = 0
rank legacy = 1
rank android_id = 2

pub record ReportedIdentifier : Type 0 where
  pub kind : IdentifierKind
  pub value : String

-- an entry of the list that the agent sends
pub record RawIdentifier : Type 0 where
  pub kind : Option String
  pub value : Option String

-- A kind that is unknown is a legacy one.
unfoldable pub kind_of_raw : Option String → IdentifierKind
kind_of_raw none = legacy
kind_of_raw (some s) =
    if text_eq s "serial" then serial else if text_eq s "android_id" then android_id else legacy

-- `seen.setdefault(value, …)`
unfoldable pub note_identifier :
    ReportedIdentifier → List ReportedIdentifier → List ReportedIdentifier
note_identifier item seen =
    if any (λ r. text_eq r.value item.value) seen then seen else seen ++ item ∷ []

abbrev pub text_or_empty : Option String → String
text_or_empty none = ""
text_or_empty (some s) = s

module _ (strip : String → String) where
  unfoldable pub note_raw : RawIdentifier → List ReportedIdentifier → List ReportedIdentifier
  unfolding note_identifier kind_of_raw
  note_raw entry seen =
      if text_eq (strip (text_or_empty entry.value)) ""
      then seen
      else note_identifier
          (record { kind = kind_of_raw entry.kind; value = strip (text_or_empty entry.value) }) seen

  unfoldable pub note_entries :
      List RawIdentifier → List ReportedIdentifier → List ReportedIdentifier
  unfolding note_raw
  note_entries [] seen = seen
  note_entries (entry ∷ raw) seen = note_entries raw (note_raw entry seen)

  unfoldable pub parse_reported : List RawIdentifier → String → List ReportedIdentifier
  unfolding note_entries note_identifier
  parse_reported raw serial_number =
      let seen = note_entries raw [] in
      if text_eq (strip serial_number) ""
      then seen
      else note_identifier (record { kind = legacy; value = strip serial_number }) seen

pub record DeviceIdentifier : Type 0 where
  pub device_id : String
  pub kind : IdentifierKind
  pub value : String
  pub first_seen_at : ℕ
  pub last_seen_at : ℕ

-- the columns of a device that this module reads and writes
pub record Device : Type 0 where
  pub id : String
  pub serial_number : String

pub record Resolution : Type 0 where
  pub device : Option Device
  pub matched_on : Option ReportedIdentifier
  pub ambiguous_with : List Device

abbrev pub nobody : Resolution
nobody = record { device = none; matched_on = none; ambiguous_with = [] }

-- `{r.value: r for r in reported}`, where a later one replaces an earlier one
unfoldable pub by_value : String → List ReportedIdentifier → Option ReportedIdentifier
by_value v [] = none
by_value v (r ∷ reported) =
    let rest = by_value v reported in
    elim rest [ none ↦ if text_eq r.value v then some r else none | some later ↦ some later ]

-- the place of the kind under which a value was reported, behind all others for a value that was not
unfoldable pub rank_of : List ReportedIdentifier → String → ℕ
unfolding by_value rank
rank_of reported v = elim (by_value v reported) [ none ↦ 3 | some r ↦ rank r.kind ]

-- the order of the keys `(IDENTIFIER_PRIORITY.index(…), row.value)`
unfoldable pub stronger : List ReportedIdentifier → DeviceIdentifier → DeviceIdentifier → Bool
unfolding rank_of text_lt
stronger reported a b =
    if rank_of reported a.value == rank_of reported b.value
    then text_lt a.value b.value
    else ltb (rank_of reported a.value) (rank_of reported b.value)

unfoldable pub matching : List ReportedIdentifier → List DeviceIdentifier → List DeviceIdentifier
matching reported rows = keep (λ row. any (λ r. text_eq r.value row.value) reported) rows

-- `session.get(Device, id)`
unfoldable pub get_device : String → List Device → Option Device
get_device id = first_of (λ d. text_eq d.id id)

-- the loop over the rows behind the first
unfoldable pub others : String → List DeviceIdentifier → List Device → List Device → List Device
unfolding get_device
others winner_id [] devices found = found
others winner_id (row ∷ rows) devices found = others winner_id rows devices (
    if text_eq row.device_id winner_id then found else elim (get_device row.device_id devices) [
      | none ↦ found
      | some d ↦ if any (λ e. text_eq e.id d.id) found then found else found ++ d ∷ []
    ])

-- what the sorted rows say
unfoldable pub decided : List ReportedIdentifier → List Device → List DeviceIdentifier → Resolution
unfolding by_value get_device others
decided reported devices [] = nobody
decided reported devices (winner ∷ rows) = record {
  device = get_device winner.device_id devices;
  matched_on = by_value winner.value reported;
  ambiguous_with = others winner.device_id rows devices [];
}

unfoldable pub resolve : List ReportedIdentifier → List DeviceIdentifier → List Device → Resolution
unfolding matching stronger sort_by decided
resolve reported rows devices =
    decided reported devices (sort_by (stronger reported) (matching reported rows))

unfoldable pub row_of : String → List DeviceIdentifier → Option DeviceIdentifier
row_of v = first_of (λ r. text_eq r.value v)

-- A known value is seen again, and keeps the better of its kinds.
unfoldable pub seen_again : ℕ → IdentifierKind → DeviceIdentifier → DeviceIdentifier
unfolding rank
seen_again now kind row = record row {
  last_seen_at = now;
  kind = if ltb (rank kind) (rank row.kind) then kind else row.kind;
}

unfoldable pub record_identifier :
    ℕ → String → ReportedIdentifier → List DeviceIdentifier → List DeviceIdentifier
unfolding row_of seen_again
record_identifier now device_id item rows = elim (row_of item.value rows) [
  | none ↦
      rows
      ++ record {
        device_id = device_id;
        kind = item.kind;
        value = item.value;
        first_seen_at = now;
        last_seen_at = now;
      }
        ∷ []
  | some existing ↦
      if text_eq existing.device_id device_id
      then map (λ r. if text_eq r.value item.value then seen_again now item.kind r else r) rows
      else rows
]

-- `record`; what it returns are the rows that were not there before.
unfoldable pub record_all :
    ℕ → String → List ReportedIdentifier → List DeviceIdentifier → List DeviceIdentifier
unfolding record_identifier
record_all now device_id [] rows = rows
record_all now device_id (item ∷ reported) rows =
    record_all now device_id reported (record_identifier now device_id item rows)

-- `min(…, key=…)`, the first of the least
unfoldable pub strongest : List ReportedIdentifier → Option ReportedIdentifier
unfolding rank
strongest [] = none
strongest (r ∷ reported) =
    let rest = strongest reported in
    elim rest [
      | none ↦ some r
      | some s ↦ if ltb (rank s.kind) (rank r.kind) then some s else some r
    ]

unfoldable pub is_serial : IdentifierKind → Bool
is_serial serial = true
is_serial _ = false

-- The new serial number, or nothing if none is adopted.
unfoldable pub promote_display_serial :
    Device → List ReportedIdentifier → List Device → Option String
unfolding strongest is_serial
promote_display_serial device reported devices = elim (strongest reported) [
  | none ↦ none
  | some best ↦
      if not (is_serial best.kind) || text_eq device.serial_number best.value
      then none
      else if any (λ d. text_eq d.serial_number best.value && not (text_eq d.id device.id)) devices
      then none
      else some best.value
]
