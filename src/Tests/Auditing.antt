-- ===== src/Tests/Auditing.antt =====
-- The theorems on app/services/audit.py, at concrete logs. Numbers are printed with a stroke for each one.
use tak_mdm.Base.{
  ℕ, zero, suc, String, true, false, ◌≡◌, ◌↔◌, ◌-◌, ap, arith, refl, none, some, List, [], ◌∷◌,
  length,
}
use tak_mdm.Base.Int.{pos}
use tak_mdm.Base.Text.{text_eq, text_eq-ne}
use tak_mdm.Json.{Fields, str, end, field}
use tak_mdm.Audit.Diff.{Printing}
use tak_mdm.Audit.{Library, AuditEvent, Entry, oldest_first, expected_first, verify}
use tak_mdm.Audit.Chain.{IsLinked, verify-ok_iff}
use tak_mdm.Audit.History.{AuditCall, recording, pruning, setting, after_calls, after_calls-verify}

abbrev strokes : ℕ → String
strokes zero = "|"
strokes (suc n) = String.◌∷◌ "|" (strokes n)

abbrev count : String → ℕ
count String.[] = 0
count (String.◌∷◌ c s) = suc (count s)

count-strokes : (n : ℕ) → count (strokes n) ≡ suc n
count-strokes zero = refl
count-strokes (suc n) = ap suc (count-strokes n)

-- The digest is the first of the fields, the row's id.
abbrev fields : Library
fields = record {
  digest = λ values. elim values [ str s ∷ rest ↦ s | other ↦ "?" ];
  search = λ path. none;
  to_text = strokes;
  to_int = λ text. some (pos (count text - 1));
}

abbrev signing_in : Entry
signing_in = record {
  actor = "ann";
  groups = [];
  anonymous = false;
  source_ip = none;
  method = "POST";
  path = "/login";
  status_code = some 200;
  refusal = none;
  description = none;
}

abbrev calls : List AuditCall
calls =
    recording 5 "a" signing_in
    ∷ setting (pos 0) none
    ∷ pruning 9 "b"
    ∷ recording 7 "c" signing_in
    ∷ []

printed : (n : ℕ) → strokes n ≡ "" → ⊥
printed zero e = no_text (ap count e)
  where
    no_text : suc zero ≡ zero → ⊥
    no_text k = omega (arith, k)
printed (suc n) e = no_text (ap count e)
  where
    no_text : suc (count (strokes n)) ≡ zero → ⊥
    no_text k = omega (arith, k)

prints :
    (n : ℕ)
    → (fields.to_int (fields.to_text n) ≡ some (pos n)) × (text_eq (fields.to_text n) "" ≡ false)
prints n = (
  ap (λ (m : ℕ). some (pos m)) (minus_one (count-strokes n)),
  text_eq-ne (strokes n) "" (printed n),
)
  where
    minus_one : {m : ℕ} → m ≡ suc n → m - 1 ≡ n
    minus_one h = omega (arith, h)

after_calls-verify_example :
    let log = (after_calls fields calls (record { setting = none; log = [] })).log in
    ((verify fields log).ok ≡ true) × ((verify fields log).checked ≡ length log)
after_calls-verify_example =
    after_calls-verify fields calls prints ((λ d e. cc), (tt, (tt, ((λ d e. cc), tt))))

abbrev edited : AuditEvent
edited = record {
  id = "a";
  seq = 1;
  occurred_at = 5;
  actor = "bob";
  actor_groups = none;
  anonymous = false;
  source_ip = none;
  method = "POST";
  path = "/login";
  action = "request";
  target_type = none;
  target_id = none;
  summary = none;
  outcome = "ok";
  status_code = some 200;
  prev_hash = "";
  hash = "b";
}

verify-ok_iff_example :
    (((verify fields (edited ∷ [])).ok ≡ true)
      ↔ IsLinked fields (expected_first fields (edited ∷ [])) none (oldest_first (edited ∷ [])))
    × ((verify fields (edited ∷ [])).ok ≡ true
        → (verify fields (edited ∷ [])).checked ≡ length (oldest_first (edited ∷ [])))
verify-ok_iff_example = verify-ok_iff fields (edited ∷ [])

abbrev printing : Printing
printing = record { secretish = λ name. false; print = λ n. "#"; print_count = strokes }

abbrev password : String → Fields
password s = field "wifi_password" (str s) end
