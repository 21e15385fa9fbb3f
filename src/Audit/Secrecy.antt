-- ===== src/Audit/Secrecy.antt =====
-- What the audit log may not tell of a changed spec: app/services/audit_diff.py.
use Prim.Native.String.{◌++◌ as glue}
use tak_mdm.Base.{String, ◌≡◌, ◌⊎◌, Option, none, some, ◌++◌}
use tak_mdm.Json.{Value, Fields, str, end, field}

-- Two values that are the same or both texts.
abbrev pub SameButTexts : Value → Value → Type 0
SameButTexts v w = (v ≡ w) ⊎ ((s : String) × (t : String) × (v ≡ str s) × (w ≡ str t))

-- Two specs with the same names, in order, whose values are the same or both texts.
abbrev pub SameButTextFields : Fields → Fields → Type 0
SameButTextFields end end = Unit
SameButTextFields end (field k v fs) = ⊥
SameButTextFields (field k v fs) end = ⊥
SameButTextFields (field k v fs) (field j w gs) =
    (k ≡ j) × SameButTexts v w × SameButTextFields fs gs

abbrev pub SameButTextLookup : Option Value → Option Value → Type 0
SameButTextLookup none none = Unit
SameButTextLookup none (some w) = ⊥
SameButTextLookup (some v) none = ⊥
SameButTextLookup (some v) (some w) = SameButTexts v w
