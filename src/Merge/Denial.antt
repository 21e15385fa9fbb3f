-- ===== src/Merge/Denial.antt =====
-- What `_merge_most_restrictive` of app/policies/strategies.py decides, and who decided it.
use tak_mdm.Base.{
  Bool, true, false, ◌≡◌, refl, sym, ap, ◌∙◌, ◌↔◌, some, List, [], ◌∷◌, arith, inl, inr, In, All,
  all, Bool-cases,
}
use tak_mdm.Base.Membership.{all-false, all-true}
use tak_mdm.Json.{bool, py_eq}
use tak_mdm.Json.Equality.{py_eq_refl, py_eq-bool}
use tak_mdm.Merge.{Contribution, MergeOutcome, SourceRef, ok}
use tak_mdm.Merge.Flags.{is_bool, allows, first_denier, flags_outcome, merge_most_restrictive}
use tak_mdm.Merge.Sources.{IsFirst, here, later}

-- Every contribution is a flag.
abbrev pub AllFlags : List Contribution → Type 0
AllFlags = All (λ c. (b : Bool) × (c.value ≡ bool b))

-- Some contribution denies.
abbrev pub Denied : List Contribution → Type 0
Denied cs = (c : Contribution) × In c cs × (c.value ≡ bool false)

all-is_bool : (cs : List Contribution) → AllFlags cs → all is_bool cs ≡ true
unfolding is_bool
all-is_bool [] h = refl
all-is_bool (c ∷ cs) ((b, e), h) = rw e (all-is_bool cs h)

flag_of_In :
    (cs : List Contribution) (c : Contribution)
    → AllFlags cs
    → In c cs
    → (b : Bool) × (c.value ≡ bool b)
flag_of_In [] c h i = absurd i
flag_of_In (d ∷ cs) c ((b, e), h) (inl p) = (b, ap (λ (x : Contribution). x.value) p ∙ e)
flag_of_In (d ∷ cs) c (_, h) (inr j) = flag_of_In cs c h j

allows_flag : (c : Contribution) (b : Bool) → c.value ≡ bool b → allows c ≡ b
unfolding allows
allows_flag c b e = rw e

Denied-iff :
    (cs : List Contribution) → AllFlags cs → (bool (all allows cs) ≡ bool false) ↔ Denied cs
Denied-iff cs h = (
  λ p.
      let (c, i, n) = all-false allows cs (ground arith) in
      let (b, e) = flag_of_In cs c h i in (c, i, e ∙ ap bool (sym (allows_flag c b e) ∙ n)),
  λ (c, i, e). elim (Bool-cases (all allows cs)) [
    | inl t ↦ cc (all-true allows cs c t i, allows_flag c false e)
    | inr f ↦ rw f
  ],
)

denier-IsFirst :
    (default : SourceRef) (cs : List Contribution)
    → AllFlags cs
    → all allows cs ≡ false
    → IsFirst (bool false) (first_denier default cs) cs
unfolding first_denier
denier-IsFirst default [] h p = absurd (cc)
denier-IsFirst default (c ∷ cs) ((true, e), h) p =
    rw (allows_flag c true e, first_denier)
      (later (rw e (not_denied refl))
        (denier-IsFirst default cs h (rw (allows_flag c true e) at p)))
  where
    not_denied : true ≡ true → py_eq (bool true) (bool false) ≡ false
    not_denied _ = elim (Bool-cases (py_eq (bool true) (bool false))) [
      | inl t ↦ absurd (cc (py_eq-bool true false t))
      | inr f ↦ f
    ]
denier-IsFirst default (c ∷ cs) ((false, e), h) p =
    rw (allows_flag c false e, first_denier) (here (rw e (py_eq_refl (bool false))) refl)

all_denier :
    (default : SourceRef) (cs : List Contribution)
    → all allows cs ≡ true
    → first_denier default cs ≡ default
unfolding first_denier
all_denier default [] p = refl
all_denier default (c ∷ cs) p = ground (arith, all_denier default cs)

winner-IsFirst :
    (c : Contribution) (cs : List Contribution)
    → AllFlags (c ∷ cs)
    → IsFirst (bool (all allows (c ∷ cs))) (first_denier c.source (c ∷ cs)) (c ∷ cs)
winner-IsFirst c cs h = elim (Bool-cases (all allows (c ∷ cs))) [
  | inl t ↦
      let (b, e) = h.0 in
      rw (t, all_denier c.source (c ∷ cs) t)
        (here
          (rw (e, ← allows_flag c b e, all-true allows (c ∷ cs) c t (inl refl))
            (py_eq_refl (bool true)))
          refl)
  | inr f ↦ rw f (denier-IsFirst c.source (c ∷ cs) h f)
]

-- On flags the merge returns: the value is a denial exactly if some contribution denies, and the
-- winner is the source of the first contribution that has the merged value.
pub merge_most_restrictive-denies :
    (c : Contribution) (cs : List Contribution)
    → AllFlags (c ∷ cs)
    → (o : MergeOutcome) × (merge_most_restrictive (c ∷ cs) ≡ ok o)
      × ((o.value ≡ bool false) ↔ Denied (c ∷ cs))
      × (s : SourceRef) × (o.winner ≡ some s)
      × IsFirst o.value s (c ∷ cs)
unfolding merge_most_restrictive
merge_most_restrictive-denies c cs h = (
  flags_outcome c cs,
  rw (all-is_bool (c ∷ cs) h),
  Denied-iff (c ∷ cs) h,
  first_denier c.source (c ∷ cs),
  refl,
  winner-IsFirst c cs h,
)
