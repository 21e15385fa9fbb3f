-- ===== src/Base/Rows.antt =====
-- The rows of a table, told apart by a key.
use mathlib.Core.Bool.{Bool, false}
use mathlib.Core.List.{List, [], ◌∷◌, ◌++◌, map}
use mathlib.Core.Logic.{inl, inr}
use mathlib.Core.Path.{◌≡◌, refl, sym, ap, ◌∙◌}
use Prim.Native.String.{String}
use tak_mdm.Base.Lists.{keep, any, In}
use tak_mdm.Base.Membership.{In-map→, In-keep→, In-append→, any_of_In}
use tak_mdm.Base.Tests.{Bool-cases, if◌then◌else◌}
use tak_mdm.Base.Text.{text_eq, text_eq_iff}

-- Rows with one id are one row.
abbrev pub OneRow : {A : Type 0} → (A → String) → List A → Type 0
OneRow {A} id l = (a b : A) → In a l → In b l → id a ≡ id b → a ≡ b

module _ {A : Type 0} (id : A → String) where
  pub OneRow-map :
      (w : A → A) (l : List A) → ((a : A) → id (w a) ≡ id a) → OneRow id l → OneRow id (map w l)
  OneRow-map w l same one a b i j e =
      let (a', i', p) = In-map→ w l a i in
      let (b', j', q) = In-map→ w l b j in
      p ∙ ap w (one a' b' i' j' (sym (same a') ∙ ap id (sym p) ∙ e ∙ ap id q ∙ same b')) ∙ sym q

  pub OneRow-keep : (p : A → Bool) (l : List A) → OneRow id l → OneRow id (keep p l)
  OneRow-keep p l one a b i j e = one a b (In-keep→ p l a i).0 (In-keep→ p l b j).0 e

  pub OneRow-add :
      (l : List A) (x : A)
      → any (λ a. text_eq (id a) (id x)) l ≡ false
      → OneRow id l
      → OneRow id (l ++ x ∷ [])
  OneRow-add l x free one a b i j e = elim (In-append→ l (x ∷ []) a i) [
    | inl i' ↦ elim (In-append→ l (x ∷ []) b j) [
      | inl j' ↦ one a b i' j' e
      | inr j' ↦ absurd (taken a i' (e ∙ ap id (only b j')))
    ]
    | inr i' ↦ elim (In-append→ l (x ∷ []) b j) [
      | inl j' ↦ absurd (taken b j' (sym e ∙ ap id (only a i')))
      | inr j' ↦ only a i' ∙ sym (only b j')
    ]
  ]
    where
      only : (c : A) → In c (x ∷ []) → c ≡ x
      only c (inl q) = q
      only c (inr k) = absurd k

      taken : (c : A) → In c l → id c ≡ id x → ⊥
      taken c k q =
          cc (any_of_In (λ a. text_eq (id a) (id x)) l c k ((text_eq_iff (id c) (id x)).1 q), free)

-- A changed row keeps what the change keeps.
pub changed_id :
    {A : Type 0} (id : A → String) (here : A → Bool) (change : A → A)
    → ((a : A) → id (change a) ≡ id a)
    → (a : A) → id (if here a then change a else a) ≡ id a
changed_id id here change same a = elim (Bool-cases (here a)) [
  | inl e ↦ rw e (same a)
  | inr e ↦ rw e refl
]
