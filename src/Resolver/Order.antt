-- ===== src/Resolver/Order.antt =====
-- The order of precedence of app/policies/resolver.py does not depend on the order of the input.
use mathlib.Core.List.{Permᴰ}
use mathlib.Core.Path.{ap₂}
use tak_mdm.Base.{
  ℕ, ◌+◌, ◌<◌, ◌==◌, ◌⊎◌, true, false, ◌≡◌, refl, sym, ◌∙◌, List, [], ◌∷◌, if◌then◌else◌, arith, In,
  inl, inr, Bool-cases,
}
use tak_mdm.Base.Int.{pos_part, neg_part, eqb_ℤ}
use tak_mdm.Base.Membership.{In-perm}
use tak_mdm.Base.Text.{text_lt, text_lt_irrefl, text_lt_trans, text_lt_total}
use tak_mdm.Resolver.{AssignmentInput, specificity, precedes, place, order_assignments}

precedes_irrefl : (a : AssignmentInput) → precedes a a ≡ false
unfolding precedes
precedes_irrefl a = ground (arith, text_lt_irrefl a.assignment_id)

-- `precedes` as a relation: by rank, then by specificity, then by id.
abbrev Higher : AssignmentInput → AssignmentInput → Type 0
Higher a b = pos_part b.rank + neg_part a.rank < pos_part a.rank + neg_part b.rank

abbrev Level : AssignmentInput → AssignmentInput → Type 0
Level a b = pos_part a.rank + neg_part b.rank ≡ pos_part b.rank + neg_part a.rank

abbrev spec_of : AssignmentInput → ℕ
spec_of a = specificity a.scope

abbrev ById : AssignmentInput → AssignmentInput → Type 0
ById a b = (spec_of a ≡ spec_of b) × (text_lt a.assignment_id b.assignment_id ≡ true)

abbrev Before : AssignmentInput → AssignmentInput → Type 0
Before a b = Higher a b ⊎ (Level a b × ((spec_of b < spec_of a) ⊎ ById a b))

precedes→Before : (a b : AssignmentInput) → precedes a b ≡ true → Before a b
unfolding precedes
precedes→Before a b h = elim (Bool-cases (eqb_ℤ a.rank b.rank)) [
  | inl e ↦ elim (Bool-cases (spec_of a == spec_of b)) [
    | inl f ↦ inr (ground arith, inr (ground arith, ground arith))
    | inr f ↦ inr (ground arith, inl (ground arith))
  ]
  | inr e ↦ inl (ground arith)
]

Before→precedes : (a b : AssignmentInput) → Before a b → precedes a b ≡ true
unfolding precedes
Before→precedes a b (inl h) = ground arith
Before→precedes a b (inr (e, inl h)) = ground arith
Before→precedes a b (inr (e, inr (f, h))) = ground arith

Before-trans : (a b c : AssignmentInput) → Before a b → Before b c → Before a c
Before-trans a b c (inl h) (inl k) = inl (omega arith)
Before-trans a b c (inl h) (inr (e, k)) = inl (omega arith)
Before-trans a b c (inr (d, h)) (inl k) = inl (omega arith)
Before-trans a b c (inr (d, inl h)) (inr (e, inl k)) = inr (omega arith, inl (omega arith))
Before-trans a b c (inr (d, inl h)) (inr (e, inr (f, k))) = inr (omega arith, inl (omega arith))
Before-trans a b c (inr (d, inr (f, h))) (inr (e, inl k)) = inr (omega arith, inl (omega arith))
Before-trans a b c (inr (d, inr (f, h))) (inr (e, inr (g, k))) =
    inr (omega arith, inr (omega arith, text_lt_trans _ _ _ h k))

precedes_trans :
    (a b c : AssignmentInput) → precedes a b ≡ true → precedes b c ≡ true → precedes a c ≡ true
precedes_trans a b c h k =
    Before→precedes a c (Before-trans a b c (precedes→Before a b h) (precedes→Before b c k))

-- Assignments that do not precede one another are level in all three keys.
abbrev Tied : AssignmentInput → AssignmentInput → Type 0
Tied a b = Level a b × (spec_of a ≡ spec_of b) × (a.assignment_id ≡ b.assignment_id)

precedes_total : (a b : AssignmentInput) → precedes a b ≡ false → precedes b a ≡ false → Tied a b
unfolding precedes
precedes_total a b h k = elim (Bool-cases (eqb_ℤ a.rank b.rank)) [
  | inl e ↦ elim (Bool-cases (spec_of a == spec_of b)) [
    | inl f ↦ (
      ground arith,
      ground arith,
      text_lt_total a.assignment_id b.assignment_id (ground arith) (ground arith),
    )
    | inr f ↦ absurd (ground arith)
  ]
  | inr e ↦ absurd (ground arith)
]

Before-Tied : (a b x : AssignmentInput) → Tied a x → Before x b → Before a b
Before-Tied a b x (d, e, f) (inl h) = inl (omega arith)
Before-Tied a b x (d, e, f) (inr (g, inl h)) = inr (omega arith, inl (omega arith))
Before-Tied a b x (d, e, f) (inr (g, inr (i, h))) = inr (omega arith, inr (omega arith, rw f h))

pub precedes_split :
    (a b x : AssignmentInput) → precedes x b ≡ true → precedes x a ≡ false → precedes a b ≡ true
precedes_split a b x h k = elim (Bool-cases (precedes a x)) [
  | inl e ↦ precedes_trans a x b e h
  | inr e ↦ Before→precedes a b (Before-Tied a b x (precedes_total a x e k) (precedes→Before x b h))
]

pub precedes_asymm : (a b : AssignmentInput) → precedes a b ≡ true → precedes b a ≡ false
precedes_asymm a b h = ground (arith, precedes_trans a b a, precedes_irrefl a)

-- In front of a list the order of two assignments is settled between them.
place_two :
    (a b : AssignmentInput) (l : List AssignmentInput)
    → (a.assignment_id ≡ b.assignment_id → a ≡ b)
    → (if precedes b a then b ∷ a ∷ l else a ∷ b ∷ l)
      ≡ (if precedes a b then a ∷ b ∷ l else b ∷ a ∷ l)
place_two a b l same = elim (Bool-cases (precedes a b)) [
  | inl e ↦ rw (e, precedes_asymm a b e)
  | inr e ↦ elim (Bool-cases (precedes b a)) [
    | inl f ↦ rw (e, f)
    | inr f ↦
        let p = same (precedes_total a b e f).2 in rw (e, f) (ap₂ (λ x y. x ∷ y ∷ l) p (sym p))
  ]
]

place_swap :
    (a b : AssignmentInput) (l : List AssignmentInput)
    → (a.assignment_id ≡ b.assignment_id → a ≡ b)
    → place a (place b l) ≡ place b (place a l)
unfolding place
place_swap a b [] same = place_two a b [] same
place_swap a b (x ∷ l) same = ground (
  arith,
  precedes_split a b x,
  precedes_split b a x,
  place_two a b (x ∷ l) same,
  place_swap a b l same,
  precedes_asymm a b,
  precedes_asymm b a,
)

-- One id stands for one assignment.
abbrev pub UniqueIds : List AssignmentInput → Type 0
UniqueIds l = (a b : AssignmentInput) → In a l → In b l → a.assignment_id ≡ b.assignment_id → a ≡ b

-- The order of precedence is the same for every order in which the assignments arrive.
pub order_assignments-perm :
    {xs ys : List AssignmentInput}
    → UniqueIds xs
    → Permᴰ xs ys
    → order_assignments xs ≡ order_assignments ys
unfolding order_assignments
order_assignments-perm u Permᴰ.nil = refl
order_assignments-perm u (Permᴰ.cons e p) =
    ap₂ place e (order_assignments-perm (λ a b i j. u a b (inr i) (inr j)) p)
order_assignments-perm u (Permᴰ.swap {a} {b} {l = l} e f) =
    let ids = λ (q : a.assignment_id ≡ b.assignment_id). u a b (inl refl) (inr (inl refl)) q in
    place_swap a b (order_assignments l) ids
    ∙ ap₂ (λ x y. place x (place y (order_assignments l))) f e
order_assignments-perm u (Permᴰ.trans p q) =
    order_assignments-perm u p
    ∙ order_assignments-perm (λ a b i j. u a b (In-perm a p i) (In-perm b p j)) q
