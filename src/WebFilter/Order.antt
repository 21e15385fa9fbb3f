-- ===== src/WebFilter/Order.antt =====
-- The order in which the rules of app/policies/web_filter_rules.py are compared.
use tak_mdm.Base.{
  ℕ, String, Bool, true, false, ◌≡◌, refl, sym, ap, subst, arith, Bool-cases, List, [], ◌∷◌, In,
  if◌then◌else◌, inl, inr, ◌&&◌, ◌||◌,
}
use tak_mdm.WebFilter.{
  Source, allowlist, blocklist, is_allowlist, is_blocklist, specificity, tuple_lt, tuple_eq, weaker,
  strongest,
}

abbrev key_lt : ℕ × ℕ × ℕ → Source → ℕ × ℕ × ℕ → Source → Bool
unfolding is_allowlist is_blocklist
key_lt a s b t = tuple_lt a b || (tuple_eq a b && (is_allowlist s && is_blocklist t))

key_lt_neg :
    (a b c : ℕ × ℕ × ℕ) (s t u : Source)
    → key_lt a s b t ≡ false
    → key_lt b t c u ≡ false
    → key_lt a s c u ≡ false
unfolding tuple_lt tuple_eq is_allowlist is_blocklist
key_lt_neg (a, b, c) (x, y, z) (u, v, w) allowlist allowlist allowlist h m = ground arith
key_lt_neg (a, b, c) (x, y, z) (u, v, w) allowlist allowlist blocklist h m = ground arith
key_lt_neg (a, b, c) (x, y, z) (u, v, w) allowlist blocklist allowlist h m = ground arith
key_lt_neg (a, b, c) (x, y, z) (u, v, w) allowlist blocklist blocklist h m = ground arith
key_lt_neg (a, b, c) (x, y, z) (u, v, w) blocklist allowlist allowlist h m = ground arith
key_lt_neg (a, b, c) (x, y, z) (u, v, w) blocklist allowlist blocklist h m = ground arith
key_lt_neg (a, b, c) (x, y, z) (u, v, w) blocklist blocklist allowlist h m = ground arith
key_lt_neg (a, b, c) (x, y, z) (u, v, w) blocklist blocklist blocklist h m = ground arith

key_lt_irrefl : (a : ℕ × ℕ × ℕ) (s : Source) → key_lt a s a s ≡ false
unfolding tuple_lt tuple_eq is_allowlist is_blocklist
key_lt_irrefl (a, b, c) allowlist = ground arith
key_lt_irrefl (a, b, c) blocklist = ground arith

weaker_neg :
    (c d e : String × Source) → weaker c d ≡ false → weaker d e ≡ false → weaker c e ≡ false
unfolding weaker is_allowlist is_blocklist
weaker_neg (p, s) (q, t) (r, u) h k =
    key_lt_neg (specificity p) (specificity q) (specificity r) s t u h k

key_lt_asym : (a b : ℕ × ℕ × ℕ) (s t : Source) → key_lt a s b t ≡ true → key_lt b t a s ≡ false
unfolding tuple_lt tuple_eq is_allowlist is_blocklist
key_lt_asym (a, b, c) (x, y, z) allowlist allowlist h = ground arith
key_lt_asym (a, b, c) (x, y, z) allowlist blocklist h = ground arith
key_lt_asym (a, b, c) (x, y, z) blocklist allowlist h = ground arith
key_lt_asym (a, b, c) (x, y, z) blocklist blocklist h = ground arith

weaker_asym : (c d : String × Source) → weaker c d ≡ true → weaker d c ≡ false
unfolding weaker is_allowlist is_blocklist
weaker_asym (p, s) (q, t) h = key_lt_asym (specificity p) (specificity q) s t h

weaker_irrefl : (c : String × Source) → weaker c c ≡ false
unfolding weaker is_allowlist is_blocklist
weaker_irrefl (p, s) = key_lt_irrefl (specificity p) s

-- The strongest candidate is one of them, and none is stronger.
pub strongest_lem :
    (c : String × Source) (l : List (String × Source))
    → In (strongest c l) (c ∷ l)
      × ((d : String × Source) → In d (c ∷ l) → weaker (strongest c l) d ≡ false)
unfolding strongest
strongest_lem c [] = (inl refl, λ d i. elim i [ inl p ↦ rw p (weaker_irrefl c) | inr j ↦ absurd j ])
strongest_lem c (d ∷ l) = elim (Bool-cases (weaker c d)) [
  | inl e ↦
      let (i, top) = strongest_lem d l in
      subst Strongest (sym (step e)) (
        elim i [ inl p ↦ inr (inl p) | inr j ↦ inr (inr j) ],
        λ x k. elim k [
          | inl p ↦
              subst (λ y. weaker (strongest d l) y ≡ false) (sym p)
                (weaker_neg (strongest d l) d c (top d (inl refl)) (weaker_asym c d e))
          | inr j ↦ top x j
        ],
      )
  | inr e ↦
      let (i, top) = strongest_lem c l in
      subst Strongest (sym (step e)) (
        elim i [ inl p ↦ inl p | inr j ↦ inr (inr j) ],
        λ x k. elim k [
          | inl p ↦ top x (inl p)
          | inr j ↦ elim j [
            | inl q ↦
                subst (λ y. weaker (strongest c l) y ≡ false) (sym q)
                  (weaker_neg (strongest c l) c d (top c (inl refl)) e)
            | inr m ↦ top x (inr m)
          ]
        ],
      )
]
  where
    step : {b : Bool} → weaker c d ≡ b → strongest c (d ∷ l) ≡ strongest (if b then d else c) l
    step e = ap (λ (b : Bool). strongest (if b then d else c) l) e

    Strongest : String × Source → Type 0
    Strongest r = In r (c ∷ d ∷ l) × ((x : String × Source) → In x (c ∷ d ∷ l) → weaker r x ≡ false)
