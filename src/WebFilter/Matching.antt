-- ===== src/WebFilter/Matching.antt =====
-- Which hostnames a rule of app/policies/web_filter_rules.py matches.
use Prim.Native.String.{◌++◌ as glue}
use Prim.Native.Char.{Char}
use text.Mathlib.TextLemmas.{nil-append, cons-append}
use tak_mdm.Base.{
  String, Bool, true, false, ◌≡◌, ◌↔◌, ◌⊎◌, refl, sym, ap, ◌∙◌, none, some, arith, Bool-cases,
  Option-cases, ◌||◌, inl, inr,
}
use tak_mdm.Base.Text.{text_eq, text_eq_iff}
use tak_mdm.WebFilter.{ends_with, after_prefix, matches}

-- `host.endswith(suffix)` says that the suffix stands at the end.
ends_with→ :
    (host suffix : String) → ends_with host suffix ≡ true → (x : String) × (host ≡ glue x suffix)
unfolding ends_with
ends_with→ String.[] suffix h = ("", (text_eq_iff "" suffix).0 h ∙ sym (nil-append suffix))
ends_with→ (String.◌∷◌ c s) suffix h = elim (Bool-cases (text_eq (String.◌∷◌ c s) suffix)) [
  | inl e ↦ ("", (text_eq_iff (String.◌∷◌ c s) suffix).0 e ∙ sym (nil-append suffix))
  | inr e ↦
      let (x, p) = ends_with→ s suffix (rw e at h) in
      (String.◌∷◌ c x, ap (String.◌∷◌ c) p ∙ sym (cons-append c x suffix))
]

ends_with_refl : (s : String) → ends_with s s ≡ true
unfolding ends_with
ends_with_refl String.[] = refl
ends_with_refl (String.◌∷◌ c s) = rw ((text_eq_iff (String.◌∷◌ c s) (String.◌∷◌ c s)).1 refl) refl

ends_with_longer :
    (c : Char) (s suffix : String)
    → ends_with s suffix ≡ true
    → ends_with (String.◌∷◌ c s) suffix ≡ true
unfolding ends_with
ends_with_longer c s suffix h = elim (Bool-cases (text_eq (String.◌∷◌ c s) suffix)) [
  | inl e ↦ rw e refl
  | inr e ↦ rw e h
]

ends_with← : (x suffix : String) → ends_with (glue x suffix) suffix ≡ true
ends_with← String.[] suffix = rw (nil-append suffix) (ends_with_refl suffix)
ends_with← (String.◌∷◌ c x) suffix =
    rw (cons-append c x suffix) (ends_with_longer c (glue x suffix) suffix (ends_with← x suffix))

after_prefix→ : (prefix s rest : String) → after_prefix prefix s ≡ some rest → s ≡ glue prefix rest
unfolding after_prefix
after_prefix→ String.[] s rest h = same h ∙ sym (nil-append rest)
  where
    same : some s ≡ some rest → s ≡ rest
    same e = cc
after_prefix→ (String.◌∷◌ d prefix) String.[] rest h = absurd (cc)
after_prefix→ (String.◌∷◌ d prefix) (String.◌∷◌ c s) rest h =
    elim (Bool-cases (text_eq (String.◌∷◌ c "") (String.◌∷◌ d ""))) [
      | inl e ↦
          let p = after_prefix→ prefix s rest (rw e at h) in
          joined ((text_eq_iff (String.◌∷◌ c "") (String.◌∷◌ d "")).0 e) p
      | inr e ↦ absurd (no_rest (rw e at h))
    ]
  where
    no_rest : none ≡ some rest → ⊥
    no_rest e = cc

    joined :
        String.◌∷◌ c "" ≡ String.◌∷◌ d ""
        → s ≡ glue prefix rest
        → String.◌∷◌ c s ≡ glue (String.◌∷◌ d prefix) rest
    joined e p = same e p ∙ sym (cons-append d prefix rest)
      where
        same :
            String.◌∷◌ c "" ≡ String.◌∷◌ d ""
            → s ≡ glue prefix rest
            → String.◌∷◌ c s ≡ String.◌∷◌ d (glue prefix rest)
        same e p = cc

-- A rule with neither a dot nor a star in front.
abbrev pub IsPlain : String → Type 0
IsPlain rule = (after_prefix "*." rule ≡ none) × (after_prefix "." rule ≡ none)

-- What a rule covers: every host; the subdomains of a name; a name; or a name with its subdomains.
abbrev pub Covers : String → String → Type 0
Covers rule host =
    (rule ≡ "*")
    ⊎ ((name : String) × (rule ≡ glue "*." name) × ((x : String) × (host ≡ glue x (glue "." name))))
    ⊎ (rule ≡ glue "." host)
    ⊎ (IsPlain rule × ((host ≡ rule) ⊎ ((x : String) × (host ≡ glue x (glue "." rule)))))

after_prefix← : (prefix rest : String) → after_prefix prefix (glue prefix rest) ≡ some rest
unfolding after_prefix
after_prefix← String.[] rest = ap some (nil-append rest)
after_prefix← (String.◌∷◌ d prefix) rest =
    rw (cons-append d prefix rest, (text_eq_iff (String.◌∷◌ d "") (String.◌∷◌ d "")).1 refl)
      (after_prefix← prefix rest)

no_star : (name : String) → after_prefix "*." (glue "." name) ≡ none
unfolding after_prefix
no_star name = rw (cons-append "." "" name) refl

-- A rule other than the star matches exactly by its kind.
module _ (rule host : String) where
  by_star : text_eq rule "*" ≡ true → (matches rule host ≡ true)
  unfolding matches
  by_star e = rw e refl

  by_subdomains :
      (name : String)
      → text_eq rule "*" ≡ false
      → after_prefix "*." rule ≡ some name
      → matches rule host ≡ ends_with host (glue "." name)
  unfolding matches
  by_subdomains name e f = rw (e, f) refl

  by_name :
      (name : String)
      → text_eq rule "*" ≡ false
      → after_prefix "*." rule ≡ none
      → after_prefix "." rule ≡ some name
      → matches rule host ≡ text_eq host name
  unfolding matches
  by_name name e f g = rw (e, f, g) refl

  by_site :
      text_eq rule "*" ≡ false
      → IsPlain rule
      → matches rule host ≡ text_eq host rule || ends_with host (glue "." rule)
  unfolding matches
  by_site e (f, g) = rw (e, f, g) refl

  matches-Covers : (matches rule host ≡ true) → Covers rule host
  matches-Covers h = elim (Bool-cases (text_eq rule "*")) [
    | inl e ↦ inl ((text_eq_iff rule "*").0 e)
    | inr e ↦ elim (Option-cases (after_prefix "*." rule)) [
      | inr (name, f) ↦ inr (
          inl (
            name,
            after_prefix→ "*." rule name f,
            ends_with→ host (glue "." name) (sym (by_subdomains name e f) ∙ h),
          ))
      | inl f ↦ elim (Option-cases (after_prefix "." rule)) [
        | inr (name, g) ↦ inr (
            inr (
              inl (
                after_prefix→ "." rule name g
                ∙ ap (glue ".") (sym ((text_eq_iff host name).0 (sym (by_name name e f g) ∙ h))))))
        | inl g ↦ inr (inr (inr ((f, g), site (sym (by_site e (f, g)) ∙ h))))
      ]
    ]
  ]
    where
      site :
          (text_eq host rule || ends_with host (glue "." rule)) ≡ true
          → (host ≡ rule) ⊎ ((x : String) × (host ≡ glue x (glue "." rule)))
      site k = elim (Bool-cases (text_eq host rule)) [
        | inl e ↦ inl ((text_eq_iff host rule).0 e)
        | inr e ↦ inr (ends_with→ host (glue "." rule) (rw e at k))
      ]

  Covers-matches : Covers rule host → matches rule host ≡ true
  Covers-matches c = elim (Bool-cases (text_eq rule "*")) [
    | inl e ↦ by_star e
    | inr e ↦ elim c [
      | inl p ↦ by_star ((text_eq_iff rule "*").1 p)
      | inr d ↦ elim d [
        | inl (name, p, (x, q)) ↦
            by_subdomains name e (ap (after_prefix "*.") p ∙ after_prefix← "*." name)
            ∙ ap (λ h. ends_with h (glue "." name)) q
            ∙ ends_with← x (glue "." name)
        | inr d ↦ elim d [
          | inl p ↦
              by_name host e (ap (after_prefix "*.") p ∙ no_star host)
                (ap (after_prefix ".") p ∙ after_prefix← "." host)
              ∙ (text_eq_iff host host).1 refl
          | inr (plain, k) ↦ by_site e plain ∙ site k
        ]
      ]
    ]
  ]
    where
      site :
          (host ≡ rule) ⊎ ((x : String) × (host ≡ glue x (glue "." rule)))
          → (text_eq host rule || ends_with host (glue "." rule)) ≡ true
      site (inl p) = rw ((text_eq_iff host rule).1 p) refl
      site (inr (x, q)) =
          at_end (text_eq host rule)
            (ap (λ h. ends_with h (glue "." rule)) q ∙ ends_with← x (glue "." rule))
        where
          at_end : (a : Bool) {b : Bool} → b ≡ true → (a || b) ≡ true
          at_end a h = ground arith

-- A rule matches exactly the hosts that it covers: the star every host, `*.name` the hosts that end in
-- a dot and the name, `.name` the name, and any other rule its name and the hosts that end in a dot
-- and the name.
pub matches_iff : (rule host : String) → (matches rule host ≡ true) ↔ Covers rule host
matches_iff rule host = (matches-Covers rule host, Covers-matches rule host)
