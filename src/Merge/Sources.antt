-- ===== src/Merge/Sources.antt =====
-- Who won and who lost: the two parts of an outcome that name contributions, in
-- app/policies/strategies.py.
use tak_mdm.Base.{
  Bool, true, false, ◌≡◌, refl, sym, not, map, keep, ◌↔◌, Option, none, some, List, [], ◌∷◌, arith,
  inl, inr, In, Bool-cases, if◌then◌else◌,
}
use tak_mdm.Base.Membership.{In-keep→, In-keep←, In-map→, In-map←}
use tak_mdm.Json.{Value, py_eq}
use tak_mdm.Merge.{Contribution, SourceRef, losers}

-- `s` is the source of the first contribution, from the highest precedence down, whose value is `v`.
pub data IsFirst (v : Value) (s : SourceRef) : List Contribution → Type 0 where
  here :
      {c : Contribution} {cs : List Contribution}
      → py_eq c.value v ≡ true
      → c.source ≡ s
      → IsFirst v s (c ∷ cs)
  later :
      {c : Contribution} {cs : List Contribution}
      → py_eq c.value v ≡ false
      → IsFirst v s cs
      → IsFirst v s (c ∷ cs)

-- `next(c.source for c in contributions if c.value == value)`, `none` for `StopIteration`
unfoldable pub first_with : Value → List Contribution → Option SourceRef
first_with v [] = none
first_with v (c ∷ cs) = if py_eq c.value v then some c.source else first_with v cs

pub first_with-IsFirst :
    (v : Value) (cs : List Contribution) (c : Contribution)
    → In c cs
    → py_eq c.value v ≡ true
    → (s : SourceRef) × (first_with v cs ≡ some s) × IsFirst v s cs
unfolding first_with
first_with-IsFirst v [] c i h = absurd i
first_with-IsFirst v (d ∷ cs) c i h = elim (Bool-cases (py_eq d.value v)) [
  | inl e ↦ (d.source, rw e, here e refl)
  | inr e ↦ elim i [
    | inl p ↦ absurd (cc (e, h, p))
    | inr j ↦
        let (s, found, first) = first_with-IsFirst v cs c j h in (s, rw e found, later e first)
  ]
]

-- The source in `IsFirst` is that of a contribution with the value.
pub IsFirst-In :
    {v : Value} {s : SourceRef} {cs : List Contribution}
    → IsFirst v s cs
    → (c : Contribution) × In c cs × (py_eq c.value v ≡ true) × (c.source ≡ s)
IsFirst-In (here {c} e p) = (c, inl refl, e, p)
IsFirst-In (later e f) = let (c, i, q, p) = IsFirst-In f in (c, inr i, q, p)

-- The contributions that fail a test, as `overridden` lists them.
abbrev pub rejected : (Contribution → Bool) → List Contribution → List (Value × SourceRef)
rejected p cs = map (λ c. (c.value, c.source)) (keep (λ c. not (p c)) cs)

abbrev pub Rejected : (Contribution → Bool) → List Contribution → Value × SourceRef → Type 0
Rejected p cs l = (c : Contribution) × In c cs × (p c ≡ false) × ((c.value, c.source) ≡ l)

pub rejected_iff :
    (p : Contribution → Bool) (cs : List Contribution) (l : Value × SourceRef)
    → In l (rejected p cs) ↔ Rejected p cs l
rejected_iff p cs l = (
  λ i.
      let (c, j, e) = In-map→ (λ (c : Contribution). (c.value, c.source)) _ l i in
      let (k, n) = In-keep→ (λ c. not (p c)) cs c j in (c, k, ground arith, sym e),
  λ (c, i, n, e). rw (← e) (
      In-map← (λ (c : Contribution). (c.value, c.source)) _ c
        (In-keep← (λ c. not (p c)) cs c i (rw n))),
)

-- The contributions with another value than `v`.
abbrev pub Lost : List Contribution → Value → Value × SourceRef → Type 0
Lost cs v = Rejected (λ c. py_eq c.value v) cs

pub losers_iff :
    (cs : List Contribution) (v : Value) (l : Value × SourceRef) → In l (losers cs v) ↔ Lost cs v l
unfolding losers
losers_iff cs v l = rejected_iff (λ c. py_eq c.value v) cs l
