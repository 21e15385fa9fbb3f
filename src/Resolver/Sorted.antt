-- ===== src/Resolver/Sorted.antt =====
-- `_order` of app/policies/resolver.py sorts by precedence and loses nothing.
use mathlib.Core.List.{Permᴰ}
use tak_mdm.Base.{false, ◌≡◌, refl, List, [], ◌∷◌, All, arith, Bool-cases, inl, inr}
use tak_mdm.Resolver.{AssignmentInput, precedes, place, order_assignments}
use tak_mdm.Resolver.Order.{precedes_asymm, precedes_split}

-- Nothing further on precedes `a`.
abbrev NothingBefore : AssignmentInput → List AssignmentInput → Type 0
NothingBefore a = All (λ b. precedes b a ≡ false)

abbrev pub InPrecedence : List AssignmentInput → Type 0
InPrecedence [] = Unit
InPrecedence (a ∷ l) = NothingBefore a l × InPrecedence l

place-NothingBefore :
    (a b : AssignmentInput) (l : List AssignmentInput)
    → precedes a b ≡ false
    → NothingBefore b l
    → NothingBefore b (place a l)
unfolding place
place-NothingBefore a b [] h s = (h, s)
place-NothingBefore a b (c ∷ l) h (k, s) = elim (Bool-cases (precedes c a)) [
  | inl e ↦ rw e ((k, place-NothingBefore a b l h s))
  | inr e ↦ rw e ((h, (k, s)))
]

NothingBefore-trans :
    (a b : AssignmentInput) (l : List AssignmentInput)
    → precedes b a ≡ false
    → NothingBefore b l
    → NothingBefore a l
NothingBefore-trans a b [] h s = s
NothingBefore-trans a b (c ∷ l) h (k, s) =
    (ground (arith, precedes_split b a c), NothingBefore-trans a b l h s)

place-InPrecedence :
    (a : AssignmentInput) (l : List AssignmentInput) → InPrecedence l → InPrecedence (place a l)
unfolding place
place-InPrecedence a [] s = (s, s)
place-InPrecedence a (b ∷ l) (n, s) = elim (Bool-cases (precedes b a)) [
  | inl e ↦ rw e (place-NothingBefore a b l (precedes_asymm b a e) n, place-InPrecedence a l s)
  | inr e ↦ rw e (((e, NothingBefore-trans a b l e n), (n, s)))
]

perm_refl : (l : List AssignmentInput) → Permᴰ l l
perm_refl [] = Permᴰ.nil
perm_refl (a ∷ l) = Permᴰ.cons refl (perm_refl l)

place-perm : (a : AssignmentInput) (l : List AssignmentInput) → Permᴰ (a ∷ l) (place a l)
unfolding place
place-perm a [] = perm_refl (a ∷ [])
place-perm a (b ∷ l) = elim (Bool-cases (precedes b a)) [
  | inl e ↦ rw e (Permᴰ.trans (Permᴰ.swap refl refl) (Permᴰ.cons refl (place-perm a l)))
  | inr e ↦ rw e (perm_refl (a ∷ b ∷ l))
]

-- The order of precedence has every assignment of the input, each as often as there, and none
-- in it is preceded by a later one.
pub order_assignments-InPrecedence :
    (l : List AssignmentInput) → Permᴰ l (order_assignments l) × InPrecedence (order_assignments l)
unfolding order_assignments
order_assignments-InPrecedence [] = (Permᴰ.nil, tt)
order_assignments-InPrecedence (a ∷ l) =
    let (p, s) = order_assignments-InPrecedence l in
    (
      Permᴰ.trans (Permᴰ.cons refl p) (place-perm a (order_assignments l)),
      place-InPrecedence a (order_assignments l) s,
    )
