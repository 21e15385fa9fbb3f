-- ===== src/Json/Equality.antt =====
-- `==` of Python on the values of a spec is an equivalence, and `in` respects it.
use mathlib.Core.Bool.{decide_iff}
use tak_mdm.Base.{
  String, Bool, true, false, ◌≡◌, refl, sym, ◌∙◌, ◌↔◌, List, [], ◌∷◌, arith, inl, inr, Bool-cases,
  In,
}
use tak_mdm.Base.Text.{text_eq, text_eq_iff}
use tak_mdm.Json.{str, Value, bool, plain, py_eq, member, Value-discrete}

pub py_eq_iff : (a b : Value) → (py_eq a b ≡ true) ↔ (plain a ≡ plain b)
unfolding py_eq
py_eq_iff a b = decide_iff (Value-discrete (plain a) (plain b))

pub py_eq_refl : (a : Value) → py_eq a a ≡ true
py_eq_refl a = (py_eq_iff a a).1 refl

pub py_eq_sym : (a b : Value) → py_eq a b ≡ py_eq b a
py_eq_sym a b = elim (Bool-cases (py_eq a b)) [
  | inl h ↦ h ∙ sym ((py_eq_iff b a).1 (sym ((py_eq_iff a b).0 h)))
  | inr h ↦ elim (Bool-cases (py_eq b a)) [
    | inl k ↦ (py_eq_iff a b).1 (sym ((py_eq_iff b a).0 k)) ∙ sym k
    | inr k ↦ h ∙ sym k
  ]
]

-- Equal values are equal to the same values.
pub py_eq_congr : (a b c : Value) → py_eq a b ≡ true → py_eq a c ≡ py_eq b c
unfolding py_eq
py_eq_congr a b c h = rw ((py_eq_iff a b).0 h)

pub member_congr : (a b : Value) (s : List Value) → py_eq a b ≡ true → member a s ≡ member b s
unfolding member
member_congr a b [] h = refl
member_congr a b (c ∷ s) h = ground (arith, py_eq_congr a b c h, member_congr a b s h)

-- What a list holds is a member of it.
pub member_of_In : (a : Value) (s : List Value) → In a s → member a s ≡ true
unfolding member
member_of_In a [] h = absurd h
member_of_In a (c ∷ s) h = ground (arith, py_eq_refl a, member_of_In a s)

-- A member of a list is equal to something that the list holds.
pub In-of_member :
    (a : Value) (s : List Value) → member a s ≡ true → (b : Value) × In b s × (py_eq a b ≡ true)
unfolding member
In-of_member a [] h = absurd (cc)
In-of_member a (c ∷ s) h = elim (Bool-cases (py_eq a c)) [
  | inl e ↦ (c, inl refl, e)
  | inr e ↦ let (b, i, p) = In-of_member a s (ground arith) in (b, inr i, p)
]

-- Flags and numbers are equal as what they stand for.
pub py_eq-bool : (a b : Bool) → py_eq (bool a) (bool b) ≡ true → a ≡ b
unfolding plain
py_eq-bool true true h = refl
py_eq-bool false false h = refl
py_eq-bool true false h = cc ((py_eq_iff (bool true) (bool false)).0 h)
py_eq-bool false true h = cc ((py_eq_iff (bool false) (bool true)).0 h)

pub member_head : (a : Value) (s : List Value) → member a (a ∷ s) ≡ true
unfolding member
member_head a s = rw (py_eq_refl a)

pub member_tail : (a b : Value) (s : List Value) → member a s ≡ true → member a (b ∷ s) ≡ true
unfolding member
member_tail a b s h = ground arith

-- Texts that differ are not equal as values.
pub py_eq_texts : (s t : String) → text_eq s t ≡ false → py_eq (str s) (str t) ≡ false
unfolding plain
py_eq_texts s t h = elim (Bool-cases (py_eq (str s) (str t))) [
  | inl e ↦ absurd (differ (same ((py_eq_iff (str s) (str t)).0 e)))
  | inr e ↦ e
]
  where
    same : plain (str s) ≡ plain (str t) → s ≡ t
    same p = cc

    differ : s ≡ t → ⊥
    differ p = cc ((text_eq_iff s t).1 p, h)
