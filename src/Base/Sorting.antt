-- ===== src/Base/Sorting.antt =====
-- `sorted` with a key: stable insertion by a test that says what goes before what.
use mathlib.Core.Bool.{Bool, true, false}
use mathlib.Core.List.{List, [], ◌∷◌}
use mathlib.Core.Logic.{◌↔◌, inl, inr}
use mathlib.Core.Path.{◌≡◌, refl, sym, ap, ◌∙◌, subst}
use native.Mathlib.Omega.{arith}
use tak_mdm.Base.Lists.{In, any}
use tak_mdm.Base.Tests.{Bool-cases, if◌then◌else◌}

module _ {A : Type 0} where
  unfoldable pub insert_by : (A → A → Bool) → A → List A → List A
  insert_by before a [] = a ∷ []
  insert_by before a (b ∷ l) = if before b a then b ∷ insert_by before a l else a ∷ b ∷ l

  unfoldable pub sort_by : (A → A → Bool) → List A → List A
  unfolding insert_by
  sort_by before [] = []
  sort_by before (a ∷ l) = insert_by before a (sort_by before l)

  In-insert_by :
      (before : A → A → Bool) (a x : A) (l : List A) → In x (insert_by before a l) ↔ In x (a ∷ l)
  unfolding insert_by
  In-insert_by before a x [] = (λ i. i, λ i. i)
  In-insert_by before a x (b ∷ l) = elim (Bool-cases (before b a)) [
    | inl e ↦
        let (into, out) = In-insert_by before a x l in
        rw e (
          (
            λ i. elim i [
              | inl p ↦ inr (inl p)
              | inr j ↦ elim (into j) [ inl p ↦ inl p | inr k ↦ inr (inr k) ]
            ],
            λ i. elim i [
              | inl p ↦ inr (out (inl p))
              | inr j ↦ elim j [ inl p ↦ inl p | inr k ↦ inr (out (inr k)) ]
            ],
          ))
    | inr e ↦ rw e ((λ i. i, λ i. i))
  ]

  pub In-sort_by : (before : A → A → Bool) (x : A) (l : List A) → In x (sort_by before l) ↔ In x l
  unfolding sort_by
  In-sort_by before x [] = (λ i. i, λ i. i)
  In-sort_by before x (a ∷ l) =
      let (into, out) = In-insert_by before a x (sort_by before l) in
      let (down, up) = In-sort_by before x l in
      (
        λ i. elim (into i) [ inl p ↦ inl p | inr j ↦ inr (down j) ],
        λ i. elim i [ inl p ↦ out (inl p) | inr j ↦ out (inr (up j)) ],
      )

  -- No element goes before the one in front of it.
  abbrev pub InOrderBy : (A → A → Bool) → List A → Type 0
  InOrderBy before [] = Unit
  InOrderBy before (a ∷ []) = Unit
  InOrderBy before (a ∷ b ∷ l) = (before b a ≡ false) × InOrderBy before (b ∷ l)

  pub sort_by-ordered :
      (before : A → A → Bool) (l : List A) → InOrderBy before l → sort_by before l ≡ l
  unfolding sort_by insert_by
  sort_by-ordered before [] o = refl
  sort_by-ordered before (a ∷ []) o = refl
  sort_by-ordered before (a ∷ b ∷ l) (h, o) =
      ap (insert_by before a) (sort_by-ordered before (b ∷ l) o) ∙ front
    where
      front : insert_by before a (b ∷ l) ≡ a ∷ b ∷ l
      front = rw (h, insert_by) refl

  any-insert_by :
      (p : A → Bool) (before : A → A → Bool) (a : A) (l : List A)
      → any p (insert_by before a l) ≡ any p (a ∷ l)
  unfolding insert_by
  any-insert_by p before a [] = refl
  any-insert_by p before a (b ∷ l) = ground (arith, any-insert_by p before a l)

  pub any-sort_by :
      (p : A → Bool) (before : A → A → Bool) (l : List A) → any p (sort_by before l) ≡ any p l
  unfolding sort_by
  any-sort_by p before [] = refl
  any-sort_by p before (a ∷ l) =
      any-insert_by p before a (sort_by before l)
      ∙ ap (λ (r : Bool). if p a then true else r) (any-sort_by p before l)

  insert_by-InOrderBy :
      (before : A → A → Bool) (a : A) (l : List A)
      → ((x y : A) → before x y ≡ true → before y x ≡ false)
      → InOrderBy before l
      → InOrderBy before (insert_by before a l)
  unfolding insert_by
  insert_by-InOrderBy before a [] asym o = tt
  insert_by-InOrderBy before a (b ∷ []) asym o = elim (Bool-cases (before b a)) [
    | inl e ↦ rw e (asym b a e, tt)
    | inr e ↦ rw e (e, tt)
  ]
  insert_by-InOrderBy before a (b ∷ c ∷ l) asym (h, o) =
      let rest = insert_by-InOrderBy before a (c ∷ l) asym o in
      elim (Bool-cases (before b a)) [
        | inr e ↦ rw e (e, (h, o))
        | inl e ↦ elim (Bool-cases (before c a)) [
          | inl f ↦ rw (e, f) (h, rw f at rest)
          | inr f ↦ rw (e, f) (asym b a e, (f, o))
        ]
      ]

  pub sort_by-InOrderBy :
      (before : A → A → Bool) (l : List A)
      → ((x y : A) → before x y ≡ true → before y x ≡ false)
      → InOrderBy before (sort_by before l)
  unfolding sort_by
  sort_by-InOrderBy before [] asym = tt
  sort_by-InOrderBy before (a ∷ l) asym =
      insert_by-InOrderBy before a (sort_by before l) asym (sort_by-InOrderBy before l asym)

-- Nothing goes before the head of the sorted list, for a test that orders as keys do.
pub sort_by-head :
    {A : Type 0} (before : A → A → Bool) (l : List A)
    → ((a : A) → before a a ≡ false)
    → ((a b : A) → before a b ≡ true → before b a ≡ false)
    → ((a b c : A) → before a b ≡ false → before b c ≡ false → before a c ≡ false)
    → (h : A) (t : List A) → sort_by before l ≡ h ∷ t
    → (x : A) → In x l
    → before x h ≡ false
unfolding sort_by insert_by
sort_by-head before [] irrefl asym negtrans h t e x i = absurd i
sort_by-head {A} before (a ∷ l) irrefl asym negtrans h t e x i =
    step (sort_by before l) refl (λ b k q y j. sort_by-head before l irrefl asym negtrans b k q y j)
      e i
  where
    head_eq : {b c : A} {m n : List A} → b ∷ m ≡ c ∷ n → b ≡ c
    head_eq p = cc

    none_in : (y : A) → In y l → sort_by before l ≡ [] → ⊥
    none_in y j p = subst (In y) p ((In-sort_by before y l).1 j)

    at_least :
        (b : A)
        → ((y : A) → In y l → before y b ≡ false)
        → before b a ≡ false
        → In x (a ∷ l)
        → before x a ≡ false
    at_least b least p (inl q) = subst (λ y. before y a ≡ false) (sym q) (irrefl a)
    at_least b least p (inr j) = negtrans x b a (least x j) p

    smaller :
        (b : A)
        → ((y : A) → In y l → before y b ≡ false)
        → before b a ≡ true
        → In x (a ∷ l)
        → before x b ≡ false
    smaller b least p (inl q) = subst (λ y. before y b ≡ false) (sym q) (asym b a p)
    smaller b least p (inr j) = least x j

    step :
        (m : List A)
        → sort_by before l ≡ m
        → ((b : A) (k : List A) → sort_by before l ≡ b ∷ k → (y : A) → In y l → before y b ≡ false)
        → insert_by before a m ≡ h ∷ t
        → In x (a ∷ l)
        → before x h ≡ false
    step [] q least p (inl r) =
        subst (λ y. before y h ≡ false) (sym r)
          (subst (λ y. before a y ≡ false) (head_eq p) (irrefl a))
    step [] q least p (inr j) = absurd (none_in x j q)
    step (b ∷ k) q least p j = elim (Bool-cases (before b a)) [
      | inl g ↦ subst (λ y. before x y ≡ false) (head_eq (rw g at p)) (smaller b (least b k q) g j)
      | inr g ↦ subst (λ y. before x y ≡ false) (head_eq (rw g at p)) (at_least b (least b k q) g j)
    ]
