-- ===== src/Base/Keeping.antt =====
-- What a comprehension keeps, and the first of it.
use Prim.Native.Nat.{◌≤◌}
use mathlib.Core.Bool.{Bool, true, false}
use mathlib.Core.List.{List, [], ◌∷◌, ◌++◌, map}
use mathlib.Core.Logic.{inl, inr}
use mathlib.Core.Option.{none, some}
use mathlib.Core.Path.{◌≡◌, refl, sym, ap, ◌∙◌, subst}
use native.Mathlib.Omega.{arith}
use tak_mdm.Base.Lists.{keep, first_of, length, In}
use tak_mdm.Base.Tests.{Bool-cases}

pub first_of-In :
    {A : Type 0} (p : A → Bool) (l : List A) (a : A) → first_of p l ≡ some a → In a l × (p a ≡ true)
first_of-In p [] a h = absurd (cc)
first_of-In {A} p (x ∷ l) a h = elim (Bool-cases (p x)) [
  | inl e ↦ (inl (same (sym (rw e at h))), subst (λ y. p y ≡ true) (same (rw e at h)) e)
  | inr e ↦ let (i, q) = first_of-In p l a (rw e at h) in (inr i, q)
]
  where
    same : {x y : A} → some x ≡ some y → x ≡ y
    same e = cc

pub first_of-none : {A : Type 0} (p : A → Bool) (l : List A) → first_of p l ≡ none → keep p l ≡ []
first_of-none p [] h = refl
first_of-none p (x ∷ l) h = elim (Bool-cases (p x)) [
  | inl e ↦ absurd (no_first (rw e at h))
  | inr e ↦ rw e (first_of-none p l (rw e at h))
]
  where
    no_first : some x ≡ none → ⊥
    no_first e = cc

pub keep-append :
    {A : Type 0} (p : A → Bool) (xs ys : List A) → keep p (xs ++ ys) ≡ keep p xs ++ keep p ys
keep-append p [] ys = refl
keep-append p (x ∷ xs) ys = elim (Bool-cases (p x)) [
  | inl e ↦ rw e (ap (◌∷◌ x) (keep-append p xs ys))
  | inr e ↦ rw e (keep-append p xs ys)
]

pub keep-map_none :
    {A : Type 0} (p : A → Bool) (f : A → A) (l : List A)
    → ((a : A) → In a l → p (f a) ≡ false)
    → keep p (map f l) ≡ []
keep-map_none p f [] h = refl
keep-map_none p f (x ∷ l) h = rw (h x (inl refl)) (keep-map_none p f l (λ a i. h a (inr i)))

-- At most one element passes the test: any two are the same.
pub one_kept :
    {A : Type 0} (p : A → Bool) (l : List A) (a b : A)
    → length (keep p l) ≤ 1
    → In a (keep p l)
    → In b (keep p l)
    → a ≡ b
one_kept {A} p l a b h i j = only (keep p l) h i j
  where
    only : (m : List A) → length m ≤ 1 → In a m → In b m → a ≡ b
    only [] h i j = absurd i
    only (x ∷ []) h (inl q) (inl r) = q ∙ sym r
    only (x ∷ []) h (inr i) j = absurd i
    only (x ∷ []) h (inl q) (inr j) = absurd j
    only (x ∷ y ∷ m) h i j = absurd (omega (arith, h))

-- Where an element passes the test, a first one is found.
pub first_of_found :
    {A : Type 0} (p : A → Bool) (l : List A) (a : A)
    → In a l
    → p a ≡ true
    → (b : A) × (first_of p l ≡ some b)
first_of_found p [] a i h = absurd i
first_of_found p (x ∷ l) a (inl e) h = (x, rw (subst (λ y. p y ≡ true) e h) refl)
first_of_found p (x ∷ l) a (inr i) h = elim (Bool-cases (p x)) [
  | inl e ↦ (x, rw e refl)
  | inr e ↦ rw e (first_of_found p l a i h)
]

pub keep_none :
    {A : Type 0} (p : A → Bool) (l : List A) → ((a : A) → In a l → p a ≡ false) → keep p l ≡ []
keep_none p [] h = refl
keep_none p (x ∷ l) h = rw (h x (inl refl)) (keep_none p l (λ a i. h a (inr i)))
