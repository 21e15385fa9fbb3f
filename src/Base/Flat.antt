-- ===== src/Base/Flat.antt =====
-- Lists that a loop makes from the items of another list, and lists with a row changed.
use mathlib.Core.Bool.{Bool, true, false, not}
use mathlib.Core.List.{List, [], ◌∷◌, ◌++◌, map, flat_map, append_assoc}
use mathlib.Core.Logic.{inl, inr}
use mathlib.Core.Option.{some}
use mathlib.Core.Path.{◌≡◌, refl, ap, subst}
use tak_mdm.Base.Lists.{keep, first_of, In}
use tak_mdm.Base.Membership.{In-append→, In-append←}
use tak_mdm.Base.Tests.{Bool-cases, if◌then◌else◌}

module _ {A B : Type 0} where
  pub flat_map-same :
      (f g : A → List B) (l : List A) → ((a : A) → In a l → f a ≡ g a) → flat_map f l ≡ flat_map g l
  unfolding flat_map
  flat_map-same f g [] h = refl
  flat_map-same f g (x ∷ l) h =
      rw (h x (inl refl)) (ap (◌++◌ (g x)) (flat_map-same f g l (λ a i. h a (inr i))))

  pub flat_map-append :
      (f : A → List B) (xs ys : List A) → flat_map f (xs ++ ys) ≡ flat_map f xs ++ flat_map f ys
  unfolding flat_map
  flat_map-append f [] ys = refl
  flat_map-append f (x ∷ xs) ys = rw (flat_map-append f xs ys, append_assoc) refl

  pub In-flat_map→ :
      (f : A → List B) (l : List A) (b : B) → In b (flat_map f l) → (a : A) × In a l × In b (f a)
  unfolding flat_map
  In-flat_map→ f [] b i = absurd i
  In-flat_map→ f (x ∷ l) b i = elim (In-append→ (f x) (flat_map f l) b i) [
    | inl j ↦ (x, inl refl, j)
    | inr j ↦ let (a, k, q) = In-flat_map→ f l b j in (a, inr k, q)
  ]

  pub In-flat_map← :
      (f : A → List B) (l : List A) (a : A) (b : B) → In a l → In b (f a) → In b (flat_map f l)
  unfolding flat_map
  In-flat_map← f [] a b i j = absurd i
  In-flat_map← f (x ∷ l) a b (inl e) j =
      In-append← (f x) (flat_map f l) b (inl (subst (λ y. In b (f y)) e j))
  In-flat_map← f (x ∷ l) a b (inr i) j =
      In-append← (f x) (flat_map f l) b (inr (In-flat_map← f l a b i j))

module _ {A : Type 0} where
  pub keep-same :
      (p q : A → Bool) (l : List A) → ((a : A) → In a l → p a ≡ q a) → keep p l ≡ keep q l
  keep-same p q [] h = refl
  keep-same p q (x ∷ l) h = rw (h x (inl refl), keep-same p q l (λ a i. h a (inr i))) refl

  -- A change of rows that the test keeps out, before and after, changes nothing of what it keeps.
  pub keep-changed :
      (p here : A → Bool) (change : A → A) (l : List A)
      → ((a : A) → In a l → here a ≡ true → (p a ≡ false) × (p (change a) ≡ false))
      → keep p (map (λ a. if here a then change a else a) l) ≡ keep p l
  keep-changed p here change [] out = refl
  keep-changed p here change (x ∷ l) out = elim (Bool-cases (here x)) [
    | inl e ↦
        let (g, h) = out x (inl refl) e in
        rw (e, g, h) (keep-changed p here change l (λ a i. out a (inr i)))
    | inr e ↦
        rw e
          (ap (λ r. if p x then x ∷ r else r) (keep-changed p here change l (λ a i. out a (inr i))))
  ]

  -- Nor does it matter whether such rows are there.
  pub keep-dropped :
      (p here : A → Bool) (l : List A)
      → ((a : A) → In a l → here a ≡ true → p a ≡ false)
      → keep p (keep (λ a. not (here a)) l) ≡ keep p l
  keep-dropped p here [] out = refl
  keep-dropped p here (x ∷ l) out = elim (Bool-cases (here x)) [
    | inl e ↦ rw (e, out x (inl refl) e) (keep-dropped p here l (λ a i. out a (inr i)))
    | inr e ↦
        rw e (ap (λ r. if p x then x ∷ r else r) (keep-dropped p here l (λ a i. out a (inr i))))
  ]

  -- Nor does it change the first row that a test finds.
  pub first_of-changed :
      (p here : A → Bool) (change : A → A) (l : List A)
      → ((a : A) → p (change a) ≡ p a)
      → ((a : A) → In a l → here a ≡ true → p a ≡ false)
      → first_of p (map (λ a. if here a then change a else a) l) ≡ first_of p l
  first_of-changed p here change [] same out = refl
  first_of-changed p here change (x ∷ l) same out = elim (Bool-cases (here x)) [
    | inl e ↦
        rw (e, same x, out x (inl refl) e)
          (first_of-changed p here change l same (λ a i. out a (inr i)))
    | inr e ↦ rw e (
        ap (λ r. if p x then some x else r)
          (first_of-changed p here change l same (λ a i. out a (inr i))))
  ]

-- Rows that are changed without effect on a test and on what is made of them.
pub flat_map-keep-changed :
    {A B : Type 0} (f : A → List B) (p : A → Bool) (w : A → A) (l : List A)
    → ((a : A) → In a l → p (w a) ≡ p a)
    → ((a : A) → In a l → f (w a) ≡ f a)
    → flat_map f (keep p (map w l)) ≡ flat_map f (keep p l)
unfolding flat_map
flat_map-keep-changed f p w [] same made = refl
flat_map-keep-changed f p w (x ∷ l) same made = elim (Bool-cases (p x)) [
  | inl e ↦
      rw (same x (inl refl), e, made x (inl refl))
        (ap (◌++◌ (f x))
          (flat_map-keep-changed f p w l (λ a i. same a (inr i)) (λ a i. made a (inr i))))
  | inr e ↦
      rw (same x (inl refl), e)
        (flat_map-keep-changed f p w l (λ a i. same a (inr i)) (λ a i. made a (inr i)))
]

-- Rows that make nothing may as well be dropped.
pub flat_map-dropped :
    {A B : Type 0} (f : A → List B) (p here : A → Bool) (l : List A)
    → ((a : A) → In a l → here a ≡ true → f a ≡ [])
    → flat_map f (keep p (keep (λ a. not (here a)) l)) ≡ flat_map f (keep p l)
unfolding flat_map
flat_map-dropped f p here [] h = refl
flat_map-dropped f p here (x ∷ l) h = elim (Bool-cases (here x)) [
  | inl e ↦ elim (Bool-cases (p x)) [
    | inl g ↦ rw (e, g, h x (inl refl) e) (flat_map-dropped f p here l (λ a i. h a (inr i)))
    | inr g ↦ rw (e, g) (flat_map-dropped f p here l (λ a i. h a (inr i)))
  ]
  | inr e ↦ elim (Bool-cases (p x)) [
    | inl g ↦ rw (e, g) (ap (◌++◌ (f x)) (flat_map-dropped f p here l (λ a i. h a (inr i))))
    | inr g ↦ rw (e, g) (flat_map-dropped f p here l (λ a i. h a (inr i)))
  ]
]

-- The first row that a test finds stays when others are dropped.
pub first_of-dropped :
    {A : Type 0} (p here : A → Bool) (l : List A)
    → ((a : A) → In a l → here a ≡ true → p a ≡ false)
    → first_of p (keep (λ a. not (here a)) l) ≡ first_of p l
first_of-dropped p here [] out = refl
first_of-dropped p here (x ∷ l) out = elim (Bool-cases (here x)) [
  | inl e ↦ rw (e, out x (inl refl) e) (first_of-dropped p here l (λ a i. out a (inr i)))
  | inr e ↦
      rw e (ap (λ r. if p x then some x else r) (first_of-dropped p here l (λ a i. out a (inr i))))
]
