-- ===== src/DeviceIdentity/Recorded.antt =====
-- What recording identifiers does to the table: one step, and all of them.
use tak_mdm.Base.{
  ℕ, ◌≤◌, String, true, false, ◌≡◌, refl, sym, ap, ◌∙◌, subst, none, some, List, [], ◌∷◌, ◌++◌,
  arith, if◌then◌else◌, In, map, any, inl, inr, Bool-cases, Option-cases, ltb, ◌⊎◌,
}
use tak_mdm.Base.Keeping.{first_of-In}
use tak_mdm.Base.Membership.{In-map→, In-map←, In-append→, In-append←}
use tak_mdm.Base.Rows.{OneRow, OneRow-map, OneRow-add}
use tak_mdm.Base.Text.{text_eq, text_eq_iff}
use tak_mdm.DeviceIdentity.{
  IdentifierKind, rank, ReportedIdentifier, DeviceIdentifier, row_of, seen_again, record_identifier,
  record_all,
}

-- One row for each value.
abbrev pub OneValue : List DeviceIdentifier → Type 0
OneValue = OneRow (λ (r : DeviceIdentifier). r.value)

-- A later state of a row: of the same device, first seen at the same time, under a kind at least as
-- strong.
abbrev pub Kept : DeviceIdentifier → DeviceIdentifier → Type 0
Kept r s =
    (s.value ≡ r.value)
    × (s.device_id ≡ r.device_id)
    × (s.first_seen_at ≡ r.first_seen_at)
    × (rank s.kind ≤ rank r.kind)

-- What a step guarantees: the values stay apart, no row is lost, and a row that is new is the device's,
-- under a value that it reported.
pub record IsRecorded (device_id : String) (reported : List ReportedIdentifier)
    (rows rows' : List DeviceIdentifier) : Type 0 where
  pub apart : OneValue rows'
  pub kept : (r : DeviceIdentifier) → In r rows → (s : DeviceIdentifier) × In s rows' × Kept r s
  pub others_kept : (r : DeviceIdentifier) → In r rows → (r.device_id ≡ device_id → ⊥) → In r rows'
  pub known :
      (item : ReportedIdentifier)
      → In item reported
      → (s : DeviceIdentifier) × In s rows' × (s.value ≡ item.value)
  pub origin :
      (s : DeviceIdentifier)
      → In s rows'
      → ((r : DeviceIdentifier) × In r rows × Kept r s) ⊎ (s.device_id ≡ device_id)

Kept-refl : (r : DeviceIdentifier) → Kept r r
Kept-refl r = (refl, refl, refl, omega arith)

Kept-trans : (a b c : DeviceIdentifier) → Kept a b → Kept b c → Kept a c
Kept-trans a b c (p, q, r, s) (p', q', r', s') = (p' ∙ p, q' ∙ q, r' ∙ r, omega arith)

seen_again-Kept :
    (now : ℕ) (kind : IdentifierKind) (r : DeviceIdentifier) → Kept r (seen_again now kind r)
unfolding seen_again
seen_again-Kept now kind r = (refl, refl, refl, better (Bool-cases (ltb (rank kind) (rank r.kind))))
  where
    better :
        (ltb (rank kind) (rank r.kind) ≡ true) ⊎ (ltb (rank kind) (rank r.kind) ≡ false)
        → rank (if ltb (rank kind) (rank r.kind) then kind else r.kind) ≤ rank r.kind
    better (inl e) = rw e (ground arith)
    better (inr e) = rw e (omega arith)

free_value :
    (v : String) (rows : List DeviceIdentifier)
    → row_of v rows ≡ none
    → any (λ (r : DeviceIdentifier). text_eq r.value v) rows ≡ false
unfolding row_of
free_value v [] e = refl
free_value v (r ∷ rows) e = elim (Bool-cases (text_eq r.value v)) [
  | inl h ↦ absurd (no_row (rw h at e))
  | inr h ↦ rw h (free_value v rows (rw h at e))
]
  where
    no_row : some r ≡ none → ⊥
    no_row p = cc

module _ (now : ℕ) (device_id : String) (item : ReportedIdentifier) (rows : List DeviceIdentifier)
    (apart : OneValue rows) where
  abbrev new_row : DeviceIdentifier
  new_row = record {
    device_id = device_id;
    kind = item.kind;
    value = item.value;
    first_seen_at = now;
    last_seen_at = now;
  }

  abbrev row : DeviceIdentifier → DeviceIdentifier
  row r = if text_eq r.value item.value then seen_again now item.kind r else r

  row-Kept : (r : DeviceIdentifier) → Kept r (row r)
  row-Kept r = elim (Bool-cases (text_eq r.value item.value)) [
    | inl e ↦ rw e (seen_again-Kept now item.kind r)
    | inr e ↦ rw e (Kept-refl r)
  ]

  added :
      row_of item.value rows ≡ none → IsRecorded device_id (item ∷ []) rows (rows ++ new_row ∷ [])
  added e = record {
    apart =
        OneRow-add (λ (r : DeviceIdentifier). r.value) rows new_row (free_value item.value rows e)
          apart;
    kept = λ r i. (r, In-append← rows (new_row ∷ []) r (inl i), Kept-refl r);
    others_kept = λ r i out. In-append← rows (new_row ∷ []) r (inl i);
    known = λ x i. (
      new_row,
      In-append← rows (new_row ∷ []) new_row (inr (inl refl)),
      elim i [ inl q ↦ ap (λ (y : ReportedIdentifier). y.value) (sym q) | inr j ↦ absurd j ],
    );
    origin = λ s i. elim (In-append→ rows (new_row ∷ []) s i) [
      | inl j ↦ inl (s, j, Kept-refl s)
      | inr j ↦ elim j [
        | inl q ↦ inr (ap (λ (y : DeviceIdentifier). y.device_id) q)
        | inr k ↦ absurd k
      ]
    ];
  }

  refreshed :
      (existing : DeviceIdentifier)
      → row_of item.value rows ≡ some existing
      → existing.device_id ≡ device_id
      → IsRecorded device_id (item ∷ []) rows (map row rows)
  unfolding row_of
  refreshed existing e own =
      let (i, h) = first_of-In (λ r. text_eq r.value item.value) rows existing e in
      record {
        apart = OneRow-map (λ (r : DeviceIdentifier). r.value) row rows (λ r. (row-Kept r).0) apart;
        kept = λ r j. (row r, In-map← row rows r j, row-Kept r);
        others_kept = λ r j out. elim (Bool-cases (text_eq r.value item.value)) [
          | inl q ↦ absurd (
              out (
                ap (λ (y : DeviceIdentifier). y.device_id)
                  (apart r existing j i (
                    (text_eq_iff r.value item.value).0 q
                    ∙ sym ((text_eq_iff existing.value item.value).0 h)))
                ∙ own))
          | inr q ↦ subst (λ y. In y (map row rows)) (rw q refl) (In-map← row rows r j)
        ];
        known = λ x j. (
          row existing,
          In-map← row rows existing i,
          (row-Kept existing).0 ∙ (text_eq_iff existing.value item.value).0 h ∙ elim j [
            | inl q ↦ ap (λ (y : ReportedIdentifier). y.value) (sym q)
            | inr k ↦ absurd k
          ],
        );
        origin = λ s j.
            let (r, k, q) = In-map→ row rows s j in inl (r, k, subst (Kept r) (sym q) (row-Kept r));
      }

  left_alone :
      (existing : DeviceIdentifier)
      → row_of item.value rows ≡ some existing
      → IsRecorded device_id (item ∷ []) rows rows
  unfolding row_of
  left_alone existing e =
      let (i, h) = first_of-In (λ r. text_eq r.value item.value) rows existing e in
      record {
        apart = apart;
        kept = λ r j. (r, j, Kept-refl r);
        others_kept = λ r j out. j;
        known = λ x j. (
          existing,
          i,
          (text_eq_iff existing.value item.value).0 h ∙ elim j [
            | inl q ↦ ap (λ (y : ReportedIdentifier). y.value) (sym q)
            | inr k ↦ absurd k
          ],
        );
        origin = λ s j. inl (s, j, Kept-refl s);
      }

  record_identifier-IsRecorded :
      IsRecorded device_id (item ∷ []) rows (record_identifier now device_id item rows)
  unfolding record_identifier
  record_identifier-IsRecorded = elim (Option-cases (row_of item.value rows)) [
    | inl e ↦ rw (record_identifier, e) (added e)
    | inr (existing, e) ↦ elim (Bool-cases (text_eq existing.device_id device_id)) [
      | inl h ↦
          rw (record_identifier, e, h)
            (refreshed existing e ((text_eq_iff existing.device_id device_id).0 h))
      | inr h ↦ rw (record_identifier, e, h) (left_alone existing e)
    ]
  ]

IsRecorded-trans :
    (device_id : String) (item : ReportedIdentifier) (reported : List ReportedIdentifier)
    (a b c : List DeviceIdentifier)
    → IsRecorded device_id (item ∷ []) a b
    → IsRecorded device_id reported b c
    → IsRecorded device_id (item ∷ reported) a c
IsRecorded-trans device_id item reported a b c p q = record {
  apart = q.apart;
  kept = λ r i.
      let (s, j, k) = p.kept r i in let (u, l, m) = q.kept s j in (u, l, Kept-trans r s u k m);
  others_kept = λ r i out. q.others_kept r (p.others_kept r i out) out;
  known = λ x i. elim i [
    | inl e ↦
        let (s, j, h) = p.known item (inl refl) in
        let (u, l, m) = q.kept s j in
        (u, l, m.0 ∙ h ∙ ap (λ (y : ReportedIdentifier). y.value) (sym e))
    | inr j ↦ q.known x j
  ];
  origin = λ s i. elim (q.origin s i) [
    | inl w ↦ elim (p.origin w.0 w.1) [
      | inl z ↦ inl (z.0, z.1, Kept-trans z.0 w.0 s z.2 w.2)
      | inr e ↦ inr (w.2.1 ∙ e)
    ]
    | inr e ↦ inr e
  ];
}

-- Recording keeps the values of the table apart, loses no row and moves none to another device, leaves
-- the rows of other devices as they were, and those of the device under a kind at least as strong;
-- afterwards every reported value has a row, and every row that was not there is the device's.
pub record_all-IsRecorded :
    (now : ℕ) (device_id : String) (reported : List ReportedIdentifier)
    (rows : List DeviceIdentifier)
    → OneValue rows
    → IsRecorded device_id reported rows (record_all now device_id reported rows)
unfolding record_all
record_all-IsRecorded now device_id [] rows apart = record {
  apart = apart;
  kept = λ r i. (r, i, Kept-refl r);
  others_kept = λ r i out. i;
  known = λ x i. absurd i;
  origin = λ s i. inl (s, i, Kept-refl s);
}
record_all-IsRecorded now device_id (item ∷ reported) rows apart =
    let first = record_identifier-IsRecorded now device_id item rows apart in
    IsRecorded-trans device_id item reported rows (record_identifier now device_id item rows)
      (record_all now device_id reported (record_identifier now device_id item rows)) first
      (record_all-IsRecorded now device_id reported (record_identifier now device_id item rows)
        first.apart)
