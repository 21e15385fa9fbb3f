-- ===== src/Base/Text.antt =====
-- Texts: equality by a Boolean test, and Python's order of `str`, by code points.
use Prim.Native.Char.{code}
use Prim.Native.String.{String, ◌++◌ as glue}
use mathlib.Core.Bool.{Bool, true, false}
use mathlib.Core.List.{List, [], ◌∷◌}
use mathlib.Core.Logic.{◌↔◌, inl, inr}
use mathlib.Core.Path.{◌≡◌, refl}
use native.Mathlib.Omega.{arith}
use text.Mathlib.Text.{◌==◌ as str_eq}
use text.Mathlib.TextEquality.{eq_iff, Char-path}
use text.Mathlib.TextPositions.{eq_refl}
use tak_mdm.Base.Lists.{any}
use tak_mdm.Base.Sorting.{sort_by}
use tak_mdm.Base.Tests.{ltb, ◌==◌, if◌then◌else◌, Bool-cases}

abbrev pub text_eq : String → String → Bool
text_eq = str_eq

pub text_eq_iff : (s t : String) → (text_eq s t ≡ true) ↔ (s ≡ t)
text_eq_iff s t = eq_iff s t

pub text_eq_refl : (s : String) → text_eq s s ≡ true
text_eq_refl = eq_refl

pub text_eq-ne : (s t : String) → (s ≡ t → ⊥) → text_eq s t ≡ false
text_eq-ne s t h = elim (Bool-cases (text_eq s t)) [
  | inl e ↦ absurd (h ((eq_iff s t).0 e))
  | inr e ↦ e
]

-- `s < t`
unfoldable pub text_lt : String → String → Bool
text_lt String.[] String.[] = false
text_lt String.[] (String.◌∷◌ d t) = true
text_lt (String.◌∷◌ c s) String.[] = false
text_lt (String.◌∷◌ c s) (String.◌∷◌ d t) =
    let rest = text_lt s t in
    if ltb (code c) (code d) then true else if code c == code d then rest else false

pub text_lt_irrefl : (s : String) → text_lt s s ≡ false
unfolding text_lt
text_lt_irrefl String.[] = refl
text_lt_irrefl (String.◌∷◌ c s) = ground (arith, text_lt_irrefl s)

pub text_lt_trans : (s t u : String) → text_lt s t ≡ true → text_lt t u ≡ true → text_lt s u ≡ true
unfolding text_lt
text_lt_trans String.[] t (String.◌∷◌ e u) h k = refl
text_lt_trans String.[] String.[] String.[] h k = h
text_lt_trans String.[] (String.◌∷◌ d t) String.[] h k = k
text_lt_trans (String.◌∷◌ c s) String.[] u h k = ground arith
text_lt_trans (String.◌∷◌ c s) (String.◌∷◌ d t) String.[] h k = ground arith
text_lt_trans (String.◌∷◌ c s) (String.◌∷◌ d t) (String.◌∷◌ e u) h k =
    ground (arith, text_lt_trans s t u)

pub text_lt_total : (s t : String) → text_lt s t ≡ false → text_lt t s ≡ false → s ≡ t
unfolding text_lt
text_lt_total String.[] String.[] h k = refl
text_lt_total String.[] (String.◌∷◌ d t) h k = ground arith
text_lt_total (String.◌∷◌ c s) String.[] h k = ground arith
text_lt_total (String.◌∷◌ c s) (String.◌∷◌ d t) h k =
    ground (arith, text_lt_total s t, Char-path c d)

pub String_discrete : Discrete String
String_discrete s t = elim (Bool-cases (text_eq s t)) [
  | inl h ↦ yes ((eq_iff s t).0 h)
  | inr h ↦ no (λ e. cc (h, (eq_iff s t).1 e))
]

-- `separator.join(texts)`
abbrev pub join_with : String → List String → String
join_with separator [] = ""
join_with separator (s ∷ []) = s
join_with separator (s ∷ t ∷ l) = glue s (glue separator (join_with separator (t ∷ l)))

-- the members of `set(texts)`, each once
abbrev pub distinct : List String → List String
distinct [] = []
distinct (s ∷ l) = let rest = distinct l in if any (text_eq s) rest then rest else s ∷ rest

-- `sorted(set(texts))`
abbrev pub sorted_set : List String → List String
unfolding sort_by text_lt
sorted_set l = sort_by text_lt (distinct l)
