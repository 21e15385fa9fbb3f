-- ===== src/Merge/Lists.antt =====
-- Contributions that are lists, which the list strategies of app/policies/strategies.py merge.
use tak_mdm.Base.{List, [], ◌∷◌, ◌++◌, ◌≡◌, refl, ap, All, In, inl, inr, Bool, keep, Bool-cases}
use tak_mdm.Base.Membership.{In-append→, In-append←}
use tak_mdm.Json.{Value, Items, arr, list_of}
use tak_mdm.Merge.{Contribution, ok, as_sequence}

abbrev pub AllLists : List Contribution → Type 0
AllLists = All (λ c. (vs : Items) × (c.value ≡ arr vs))

-- The items of one contribution, and of all in order.
abbrev pub items : Contribution → List Value
items c = elim c.value [ arr vs ↦ list_of vs | _ ↦ [] ]

abbrev pub all_items : List Contribution → List Value
all_items [] = []
all_items (c ∷ cs) = items c ++ all_items cs

pub as_sequence-items :
    (c : Contribution) → (vs : Items) × (c.value ≡ arr vs) → as_sequence c.value ≡ ok (items c)
unfolding as_sequence
as_sequence-items c (vs, e) = rw e

pub In-all_items :
    (cs : List Contribution) (v : Value)
    → In v (all_items cs)
    → (c : Contribution) × In c cs × In v (items c)
In-all_items [] v i = absurd i
In-all_items (c ∷ cs) v i = elim (In-append→ (items c) (all_items cs) v i) [
  | inl j ↦ (c, inl refl, j)
  | inr j ↦ let (d, k, x) = In-all_items cs v j in (d, inr k, x)
]

pub all_items_of_In :
    (cs : List Contribution) (v : Value) (c : Contribution)
    → In c cs
    → In v (items c)
    → In v (all_items cs)
all_items_of_In [] v c i j = absurd i
all_items_of_In (d ∷ cs) v c (inl p) j =
    In-append← (items d) (all_items cs) v (inl (rw (ap (λ (x : Contribution). items x) p) at j))
all_items_of_In (d ∷ cs) v c (inr i) j =
    In-append← (items d) (all_items cs) v (inr (all_items_of_In cs v c i j))

-- `Keeps xs ys`: `xs` is `ys` with some items left out, the rest in the same order.
pub data Keeps : List Value → List Value → Type 0 where
  done : Keeps [] []
  take : {x : Value} {xs ys : List Value} → Keeps xs ys → Keeps (x ∷ xs) (x ∷ ys)
  skip : {y : Value} {xs ys : List Value} → Keeps xs ys → Keeps xs (y ∷ ys)

pub keep-Keeps : (p : Value → Bool) (xs : List Value) → Keeps (keep p xs) xs
keep-Keeps p [] = done
keep-Keeps p (x ∷ xs) = elim (Bool-cases (p x)) [
  | inl e ↦ rw e (take (keep-Keeps p xs))
  | inr e ↦ rw e (skip (keep-Keeps p xs))
]
