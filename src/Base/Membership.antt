-- ===== src/Base/Membership.antt =====
-- What is in a list that is mapped, filtered or joined.
use mathlib.Core.Bool.{Bool, true, false}
use mathlib.Core.List.{List, [], ◌∷◌, ◌++◌, map}
use mathlib.Core.List.{Permᴰ}
use mathlib.Core.Logic.{◌⊎◌, inl, inr}
use mathlib.Core.Path.{◌≡◌, refl, sym, ap, ◌∙◌}
use native.Mathlib.Omega.{arith}
use tak_mdm.Base.Lists.{keep, all, any, In}
use tak_mdm.Base.Tests.{Bool-cases}

module _ {A : Type 0} where
  pub In-keep→ : (p : A → Bool) (xs : List A) (a : A) → In a (keep p xs) → In a xs × (p a ≡ true)
  In-keep→ p [] a i = absurd i
  In-keep→ p (x ∷ xs) a i = elim (Bool-cases (p x)) [
    | inl e ↦ elim (rw e at i) [
      | inl q ↦ (inl q, rw q e)
      | inr j ↦ let (k, h) = In-keep→ p xs a j in (inr k, h)
    ]
    | inr e ↦ let (k, h) = In-keep→ p xs a (rw e at i) in (inr k, h)
  ]

  pub In-keep← : (p : A → Bool) (xs : List A) (a : A) → In a xs → p a ≡ true → In a (keep p xs)
  In-keep← p [] a i h = i
  In-keep← p (x ∷ xs) a (inl q) h = rw (← q, h) (inl refl)
  In-keep← p (x ∷ xs) a (inr j) h = elim (Bool-cases (p x)) [
    | inl e ↦ rw e (inr (In-keep← p xs a j h))
    | inr e ↦ rw e (In-keep← p xs a j h)
  ]

  pub In-append→ : (xs ys : List A) (a : A) → In a (xs ++ ys) → In a xs ⊎ In a ys
  In-append→ [] ys a i = inr i
  In-append→ (x ∷ xs) ys a (inl q) = inl (inl q)
  In-append→ (x ∷ xs) ys a (inr j) = elim (In-append→ xs ys a j) [
    | inl k ↦ inl (inr k)
    | inr k ↦ inr k
  ]

  pub In-append← : (xs ys : List A) (a : A) → In a xs ⊎ In a ys → In a (xs ++ ys)
  In-append← [] ys a (inl i) = absurd i
  In-append← [] ys a (inr i) = i
  In-append← (x ∷ xs) ys a (inl (inl q)) = inl q
  In-append← (x ∷ xs) ys a (inl (inr j)) = inr (In-append← xs ys a (inl j))
  In-append← (x ∷ xs) ys a (inr i) = inr (In-append← xs ys a (inr i))

  -- A failing test is at some element.
  pub all-false :
      (p : A → Bool) (xs : List A) → all p xs ≡ false → (a : A) × In a xs × (p a ≡ false)
  all-false p [] h = absurd (cc)
  all-false p (x ∷ xs) h = elim (Bool-cases (p x)) [
    | inl e ↦ let (a, i, q) = all-false p xs (rw e at h) in (a, inr i, q)
    | inr e ↦ (x, inl refl, e)
  ]

  pub all-true : (p : A → Bool) (xs : List A) (a : A) → all p xs ≡ true → In a xs → p a ≡ true
  all-true p [] a h i = absurd i
  all-true p (x ∷ xs) a h (inl q) = ground (arith, ap p q)
  all-true p (x ∷ xs) a h (inr j) = all-true p xs a (ground arith) j

  pub any-true : (p : A → Bool) (xs : List A) → any p xs ≡ true → (a : A) × In a xs × (p a ≡ true)
  any-true p [] h = absurd (cc)
  any-true p (x ∷ xs) h = elim (Bool-cases (p x)) [
    | inl e ↦ (x, inl refl, e)
    | inr e ↦ let (a, i, q) = any-true p xs (rw e at h) in (a, inr i, q)
  ]

  pub any_of_In : (p : A → Bool) (xs : List A) (a : A) → In a xs → p a ≡ true → any p xs ≡ true
  any_of_In p [] a i h = absurd i
  any_of_In p (x ∷ xs) a (inl q) h = ground (arith, ap p q)
  any_of_In p (x ∷ xs) a (inr j) h = ground (arith, any_of_In p xs a j h)

  pub In-perm : {xs ys : List A} (a : A) → Permᴰ xs ys → In a ys → In a xs
  In-perm a Permᴰ.nil i = i
  In-perm a (Permᴰ.cons e p) (inl q) = inl (q ∙ sym e)
  In-perm a (Permᴰ.cons e p) (inr j) = inr (In-perm a p j)
  In-perm a (Permᴰ.swap e f) (inl q) = inr (inl (q ∙ sym f))
  In-perm a (Permᴰ.swap e f) (inr (inl q)) = inl (q ∙ sym e)
  In-perm a (Permᴰ.swap e f) (inr (inr j)) = inr (inr j)
  In-perm a (Permᴰ.trans p q) i = In-perm a p (In-perm a q i)

module _ {A B : Type 0} where
  pub In-map→ : (f : A → B) (xs : List A) (b : B) → In b (map f xs) → (a : A) × In a xs × (b ≡ f a)
  In-map→ f [] b i = absurd i
  In-map→ f (x ∷ xs) b (inl q) = (x, inl refl, q)
  In-map→ f (x ∷ xs) b (inr j) = let (a, i, q) = In-map→ f xs b j in (a, inr i, q)

  pub In-map← : (f : A → B) (xs : List A) (a : A) → In a xs → In (f a) (map f xs)
  In-map← f [] a i = absurd i
  In-map← f (x ∷ xs) a (inl q) = inl (ap f q)
  In-map← f (x ∷ xs) a (inr j) = inr (In-map← f xs a j)
