-- ===== src/Merge/Bounds.antt =====
-- What `_merge_max` and `_merge_min` of app/policies/strategies.py pick.
use tak_mdm.Base.{
  Bool, true, false, ◌≡◌, refl, sym, ap, ◌∙◌, subst, some, List, [], ◌∷◌, map, arith, inl, inr, In,
  All, Bool-cases, if◌then◌else◌,
}
use tak_mdm.Base.Int.{ℤ, ltb_ℤ}
use tak_mdm.Base.Membership.{In-map→, In-map←}
use tak_mdm.Json.{Value, num, plain, py_lt, py_eq}
use tak_mdm.Json.Equality.{py_eq_refl}
use tak_mdm.Merge.{Contribution, MergeOutcome, SourceRef, ok}
use tak_mdm.Merge.Extremum.{beats, pick, extremum_outcome, merge_extremum, merge_max, merge_min}
use tak_mdm.Merge.Sources.{IsFirst, first_with, first_with-IsFirst}

-- An `int`, or a flag that is compared as one.
abbrev pub IsNumber : Value → Type 0
IsNumber v = (n : ℤ) × (plain v ≡ num n)

abbrev pub AllNumbers : List Contribution → Type 0
AllNumbers = All (λ c. IsNumber c.value)

abbrev beats_ℤ : Bool → ℤ → ℤ → Bool
beats_ℤ take_max a b = if take_max then ltb_ℤ b a else ltb_ℤ a b

beats-beats_ℤ :
    (t : Bool) (u w : Value) (m n : ℤ)
    → plain u ≡ num m
    → plain w ≡ num n
    → beats t u w ≡ some (beats_ℤ t m n)
unfolding beats py_lt
beats-beats_ℤ true u w m n e f = rw (e, f)
beats-beats_ℤ false u w m n e f = rw (e, f)

-- An item that lost to the best so far loses to a later best, and so does a replaced best.
beats_ℤ_lost :
    (t : Bool) (a b c : ℤ) → beats_ℤ t a b ≡ false → beats_ℤ t b c ≡ false → beats_ℤ t a c ≡ false
beats_ℤ_lost t a b c h k = ground arith

beats_ℤ_replaced :
    (t : Bool) (a b c : ℤ) → beats_ℤ t a b ≡ true → beats_ℤ t a c ≡ false → beats_ℤ t b c ≡ false
beats_ℤ_replaced t a b c h k = ground arith

beats_ℤ_irrefl : (t : Bool) (a : ℤ) → beats_ℤ t a a ≡ false
beats_ℤ_irrefl t a = ground arith

-- Nothing in the list beats `k`.
abbrev Unbeaten : Bool → ℤ → List Value → Type 0
Unbeaten t k vs = (u : Value) (j : ℤ) → In u vs → plain u ≡ num j → beats_ℤ t j k ≡ false

num-injective : {m n : ℤ} → num m ≡ num n → m ≡ n
num-injective h = cc

Unbeaten-cons :
    (t : Bool) (k : ℤ) (v : Value) (vs : List Value) (n : ℤ)
    → plain v ≡ num n
    → beats_ℤ t n k ≡ false
    → Unbeaten t k vs
    → Unbeaten t k (v ∷ vs)
Unbeaten-cons t k v vs n e b h u j (inl p) f = rw (num-injective (sym f ∙ ap plain p ∙ e)) b
Unbeaten-cons t k v vs n e b h u j (inr i) f = h u j i f

pick_won :
    (t : Bool) (best v : Value) (vs : List Value)
    → beats t v best ≡ some true
    → pick t best (v ∷ vs) ≡ pick t v vs
unfolding pick
pick_won t best v vs h = rw (h, pick)

pick_lost :
    (t : Bool) (best v : Value) (vs : List Value)
    → beats t v best ≡ some false
    → pick t best (v ∷ vs) ≡ pick t best vs
unfolding pick
pick_lost t best v vs h = rw (h, pick)

pick-best :
    (t : Bool) (best : Value) (vs : List Value) (n : ℤ)
    → plain best ≡ num n
    → All IsNumber vs
    → (w : Value) × (k : ℤ) × (pick t best vs ≡ ok w)
      × (plain w ≡ num k)
      × In w (best ∷ vs)
      × Unbeaten t k (best ∷ vs)
pick-best t best [] n e h = (
  best,
  n,
  unfold pick in refl,
  e,
  inl refl,
  Unbeaten-cons t n best [] n e (beats_ℤ_irrefl t n) (λ u j i f. absurd i),
)
pick-best t best (v ∷ vs) n e ((m, f), h) = elim (Bool-cases (beats_ℤ t m n)) [
  | inl won ↦
      let (w, k, picked, g, i, unbeaten) = pick-best t v vs m f h in
      (
        w,
        k,
        pick_won t best v vs (beats-beats_ℤ t v best m n f e ∙ ap some won) ∙ picked,
        g,
        inr i,
        Unbeaten-cons t k best (v ∷ vs) n e
            (beats_ℤ_replaced t m n k won (unbeaten v m (inl refl) f)) unbeaten,
      )
  | inr lost ↦
      let (w, k, picked, g, i, unbeaten) = pick-best t best vs n e h in
      let b = unbeaten best n (inl refl) e in
      (
        w,
        k,
        pick_lost t best v vs (beats-beats_ℤ t v best m n f e ∙ ap some lost) ∙ picked,
        g,
        elim i [ inl p ↦ inl p | inr j ↦ inr (inr j) ],
        Unbeaten-cons t k best (v ∷ vs) n e b (
            Unbeaten-cons t k v vs m f (beats_ℤ_lost t m n k lost b)
              (λ u j x. unbeaten u j (inr x))),
      )
]

values_numbers : (cs : List Contribution) → AllNumbers cs → All IsNumber (map (λ d. d.value) cs)
values_numbers [] h = tt
values_numbers (c ∷ cs) (n, h) = (n, values_numbers cs h)

IsNumber-of_In :
    (cs : List Contribution) (d : Contribution) → AllNumbers cs → In d cs → IsNumber d.value
IsNumber-of_In [] d h i = absurd i
IsNumber-of_In (c ∷ cs) d ((n, e), h) (inl p) = (n, ap (λ (x : Contribution). plain x.value) p ∙ e)
IsNumber-of_In (c ∷ cs) d (_, h) (inr i) = IsNumber-of_In cs d h i

-- A value of the list is that of a contribution.
contribution_of_value :
    (cs : List Contribution) (v : Value)
    → In v (map (λ d. d.value) cs)
    → (d : Contribution) × In d cs × (py_eq d.value v ≡ true)
contribution_of_value cs v i =
    let (d, j, e) = In-map→ (λ (d : Contribution). d.value) cs v i in
    (d, j, subst (λ u. py_eq u v ≡ true) e (py_eq_refl v))

-- The outcome `o` of taking the greatest (`true`) or the least (`false`) number of `cs`: no
-- contribution beats it, and the winner is the first contribution with the value.
pub record IsExtremum (t : Bool) (cs : List Contribution) (o : MergeOutcome) : Type 0 where
  pub unbeaten : (d : Contribution) → In d cs → beats t d.value o.value ≡ some false
  pub source : SourceRef
  pub won : o.winner ≡ some source
  pub first : IsFirst o.value source cs

merge_extremum_lem :
    (t : Bool) (c : Contribution) (cs : List Contribution) (w : Value) (s : SourceRef)
    → pick t c.value (map (λ d. d.value) cs) ≡ ok w
    → first_with w (c ∷ cs) ≡ some s
    → merge_extremum t (c ∷ cs) ≡ ok (extremum_outcome t w s (c ∷ cs))
unfolding merge_extremum
merge_extremum_lem t c cs w s h k = rw (h, k)

pub merge_extremum-IsExtremum :
    (t : Bool) (c : Contribution) (cs : List Contribution)
    → AllNumbers (c ∷ cs)
    → (o : MergeOutcome) × (merge_extremum t (c ∷ cs) ≡ ok o) × IsExtremum t (c ∷ cs) o
unfolding extremum_outcome
merge_extremum-IsExtremum t c cs h =
    let ((n, e), rest) = h in
    let (w, k, picked, g, i, unbeaten) =
      pick-best t c.value (map (λ d. d.value) cs) n e (values_numbers cs rest) in
    let (d, j, q) = contribution_of_value (c ∷ cs) w i in
    let (s, found, first) = first_with-IsFirst w (c ∷ cs) d j q in
    (
      extremum_outcome t w s (c ∷ cs),
      merge_extremum_lem t c cs w s picked found,
      record {
        unbeaten = λ x y.
            let (m, f) = IsNumber-of_In (c ∷ cs) x h y in
            beats-beats_ℤ t x.value w m k f g
            ∙ ap some (unbeaten x.value m (In-map← (λ (d : Contribution). d.value) (c ∷ cs) x y) f);
        source = s;
        won = refl;
        first = first;
      },
    )

-- On numbers `max` returns: its value is a contribution's, no contribution's value is greater, and
-- the winner is the first contribution, from the highest precedence down, that has this value.
pub merge_max-IsExtremum :
    (c : Contribution) (cs : List Contribution)
    → AllNumbers (c ∷ cs)
    → (o : MergeOutcome) × (merge_max (c ∷ cs) ≡ ok o)
      × ((d : Contribution) → In d (c ∷ cs) → py_lt o.value d.value ≡ some false)
      × (s : SourceRef) × (o.winner ≡ some s)
      × IsFirst o.value s (c ∷ cs)
unfolding merge_max beats
merge_max-IsExtremum c cs h =
    let (o, e, x) = merge_extremum-IsExtremum true c cs h in
    (o, e, x.unbeaten, x.source, x.won, x.first)

-- On numbers `min` returns: its value is a contribution's, no contribution's value is less, and
-- the winner is the first contribution, from the highest precedence down, that has this value.
pub merge_min-IsExtremum :
    (c : Contribution) (cs : List Contribution)
    → AllNumbers (c ∷ cs)
    → (o : MergeOutcome) × (merge_min (c ∷ cs) ≡ ok o)
      × ((d : Contribution) → In d (c ∷ cs) → py_lt d.value o.value ≡ some false)
      × (s : SourceRef) × (o.winner ≡ some s)
      × IsFirst o.value s (c ∷ cs)
unfolding merge_min beats
merge_min-IsExtremum c cs h =
    let (o, e, x) = merge_extremum-IsExtremum false c cs h in
    (o, e, x.unbeaten, x.source, x.won, x.first)

-- On numbers `max` and `min` return: the value is a contribution's, no contribution's value is greater
-- or, for `min`, less, and the winner is the first contribution, from the highest precedence down, that
-- has this value.
pub merge_extremes-IsExtremum :
    (c : Contribution) (cs : List Contribution)
    → AllNumbers (c ∷ cs)
    → ((o : MergeOutcome) × (merge_max (c ∷ cs) ≡ ok o)
        × ((d : Contribution) → In d (c ∷ cs) → py_lt o.value d.value ≡ some false)
        × (s : SourceRef) × (o.winner ≡ some s)
        × IsFirst o.value s (c ∷ cs))
      × ((o : MergeOutcome) × (merge_min (c ∷ cs) ≡ ok o)
          × ((d : Contribution) → In d (c ∷ cs) → py_lt d.value o.value ≡ some false)
          × (s : SourceRef) × (o.winner ≡ some s)
          × IsFirst o.value s (c ∷ cs))
merge_extremes-IsExtremum c cs h = (merge_max-IsExtremum c cs h, merge_min-IsExtremum c cs h)
