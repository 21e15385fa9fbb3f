-- ===== src/WebFilter/Decision.antt =====
-- What `evaluate` of app/policies/web_filter_rules.py decides.
use tak_mdm.Base.{
  ℕ, String, true, false, ◌≡◌, ◌↔◌, refl, sym, subst, none, some, List, [], ◌∷◌, map, keep, any, In,
  arith, Bool-cases, if◌then◌else◌, ◌&&◌, ◌||◌, inl, inr, ◌⊎◌,
}
use tak_mdm.Base.Membership.{In-append→, In-append←, In-map→, In-map←, In-keep→, In-keep←, any-true}
use tak_mdm.Base.Text.{text_eq}
use tak_mdm.WebFilter.{
  Source, allowlist, blocklist, is_allowlist, is_blocklist, WebVerdict, matches, specificity,
  tuple_lt, tuple_eq, weaker, strongest, candidates, decide_among, evaluate,
}
use tak_mdm.WebFilter.Order.{strongest_lem}

-- the list that a source names
abbrev pub rules_of : Source → List String → List String → List String
rules_of allowlist allowed blocked = allowed
rules_of blocklist allowed blocked = blocked

-- A candidate is a rule of the list that its source names, and matches the host.
abbrev IsCandidate : String → List String → List String → String × Source → Type 0
IsCandidate host allowed blocked c =
    In c.0 (rules_of c.1 allowed blocked) × (matches c.0 host ≡ true)

candidates→ :
    (host : String) (allowed blocked : List String) (c : String × Source)
    → In c (candidates host allowed blocked)
    → IsCandidate host allowed blocked c
unfolding candidates
candidates→ host allowed blocked c i =
    elim (In-append→ (map (λ x. (x, allowlist)) (keep (λ x. matches x host) allowed))
      (map (λ x. (x, blocklist)) (keep (λ x. matches x host) blocked)) c i) [
        | inl j ↦
            let (x, k, e) =
              In-map→ (λ x. (x, allowlist)) (keep (λ x. matches x host) allowed) c j in
            subst (IsCandidate host allowed blocked) (sym e)
              (In-keep→ (λ x. matches x host) allowed x k)
        | inr j ↦
            let (x, k, e) =
              In-map→ (λ x. (x, blocklist)) (keep (λ x. matches x host) blocked) c j in
            subst (IsCandidate host allowed blocked) (sym e)
              (In-keep→ (λ x. matches x host) blocked x k)
      ]

candidates← :
    (host : String) (allowed blocked : List String) (p : String) (s : Source)
    → IsCandidate host allowed blocked (p, s)
    → In {A = String × Source} (p, s) (candidates host allowed blocked)
unfolding candidates
candidates← host allowed blocked p allowlist (i, h) =
    In-append← (map (λ x. (x, allowlist)) (keep (λ x. matches x host) allowed))
      (map (λ x. (x, blocklist)) (keep (λ x. matches x host) blocked)) (p, allowlist)
      (inl (
        In-map← (λ x. (x, allowlist)) (keep (λ x. matches x host) allowed) p
          (In-keep← (λ x. matches x host) allowed p i h)))
candidates← host allowed blocked p blocklist (i, h) =
    In-append← (map (λ x. (x, allowlist)) (keep (λ x. matches x host) allowed))
      (map (λ x. (x, blocklist)) (keep (λ x. matches x host) blocked)) (p, blocklist)
      (inr (
        In-map← (λ x. (x, blocklist)) (keep (λ x. matches x host) blocked) p
          (In-keep← (λ x. matches x host) blocked p i h)))

-- Of an allowing rule that no blocking one is stronger than, no blocking one is as strong.
beats_blocking :
    (p b : String)
    → weaker (p, allowlist) (b, blocklist) ≡ false
    → tuple_lt (specificity b) (specificity p) ≡ true
unfolding weaker tuple_lt tuple_eq is_allowlist is_blocklist
beats_blocking p b h = trichotomy (specificity p) (specificity b) h
  where
    trichotomy :
        (x y : ℕ × ℕ × ℕ)
        → (tuple_lt x y || (tuple_eq x y && (is_allowlist allowlist && is_blocklist blocklist)))
          ≡ false
        → tuple_lt y x ≡ true
    trichotomy (x, y, z) (u, v, w) h = ground arith

weaker_of_lt :
    (p a : String)
    → tuple_lt (specificity p) (specificity a) ≡ true
    → weaker (p, blocklist) (a, allowlist) ≡ true
unfolding weaker
weaker_of_lt p a h = rw h refl

-- Every blocking rule that matches the host is less specific than an allowing one that does.
abbrev pub Outdone : String → List String → List String → Type 0
Outdone host allowed blocked =
    (b : String)
    → In b blocked
    → matches b host ≡ true
    → (a : String) × In a allowed
      × (matches a host ≡ true)
      × (tuple_lt (specificity b) (specificity a) ≡ true)

-- The verdict allows exactly if all blocking rules that match are outdone, and the rule that it names
-- is a rule of the list that it names, of the allowing one exactly if the verdict allows, and matches.
abbrev pub Decides : String → List String → List String → WebVerdict → Type 0
Decides host allowed blocked v =
    ((v.allowed ≡ true) ↔ Outdone host allowed blocked)
    × ((p : String)
        → v.rule ≡ some p
        → (matches p host ≡ true) × In p (if v.allowed then allowed else blocked))

abbrev verdict_of : String × Source → WebVerdict
unfolding is_allowlist
verdict_of c = record { allowed = is_allowlist c.1; rule = some c.0; source = some c.1 }

-- The verdict of a candidate that none is stronger than.
verdict_of-Decides :
    (host : String) (allowed blocked : List String) (p : String) (s : Source)
    → IsCandidate host allowed blocked (p, s)
    → ((d : String × Source) → In d (candidates host allowed blocked) → weaker (p, s) d ≡ false)
    → Decides host allowed blocked (verdict_of (p, s))
unfolding is_allowlist
verdict_of-Decides host allowed blocked p allowlist (i, h) top = (
  (
    λ e b j m. (
      p,
      i,
      h,
      beats_blocking p b (top (b, blocklist) (candidates← host allowed blocked b blocklist (j, m))),
    ),
    λ o. refl,
  ),
  λ q e. subst Named (same e) (h, i),
)
  where
    same : {x y : String} → some x ≡ some y → x ≡ y
    same e = cc

    Named : String → Type 0
    Named q = (matches q host ≡ true) × In q allowed
verdict_of-Decides host allowed blocked p blocklist (i, h) top =
    ((λ e. absurd (no_true e), λ o. absurd (outdone (o p i h))), λ q e. subst Named (same e) (h, i))
  where
    no_true : false ≡ true → ⊥
    no_true e = cc

    same : {x y : String} → some x ≡ some y → x ≡ y
    same e = cc

    Named : String → Type 0
    Named q = (matches q host ≡ true) × In q blocked

    outdone :
        (a : String) × In a allowed
          × (matches a host ≡ true)
          × (tuple_lt (specificity p) (specificity a) ≡ true)
        → ⊥
    outdone (a, j, m, lt) =
        stronger (top (a, allowlist) (candidates← host allowed blocked a allowlist (j, m))) lt
      where
        stronger :
            weaker (p, blocklist) (a, allowlist) ≡ false
            → tuple_lt (specificity p) (specificity a) ≡ true
            → ⊥
        stronger h k = cc (h, weaker_of_lt p a k)

decide_among-Decides :
    (host : String) (allowed blocked : List String) (l : List (String × Source))
    → candidates host allowed blocked ≡ l
    → Decides host allowed blocked (decide_among l)
unfolding decide_among
decide_among-Decides host allowed blocked [] e = (
  (
    λ t b j m. absurd (
        subst (In {A = String × Source} (b, blocklist)) e
          (candidates← host allowed blocked b blocklist (j, m))),
    λ o. refl,
  ),
  λ p h. absurd (no_rule h),
)
  where
    no_rule : {p : String} → none ≡ some p → ⊥
    no_rule h = cc
decide_among-Decides host allowed blocked (c ∷ l) e =
    let (i, top) = strongest_lem c l in
    verdict_of-Decides host allowed blocked (strongest c l).0 (strongest c l).1
      (candidates→ host allowed blocked (strongest c l) (subst (In (strongest c l)) (sym e) i))
      (λ d j. top d (subst (In d) e j))

no_empty :
    (host : String) (allowed blocked : List String)
    → ((p : String) → In p allowed ⊎ In p blocked → text_eq p "" ≡ false)
    → any (λ (c : String × Source). text_eq c.0 "") (candidates host allowed blocked) ≡ false
no_empty host allowed blocked filled =
    elim (Bool-cases
      (any (λ (c : String × Source). text_eq c.0 "") (candidates host allowed blocked))) [
        | inl e ↦
            let (c, i, h) =
              any-true (λ (c : String × Source). text_eq c.0 "") (candidates host allowed blocked)
                e in
            absurd (clash c (candidates→ host allowed blocked c i).0 h)
        | inr e ↦ e
      ]
  where
    listed :
        (c : String) (s : Source) → In c (rules_of s allowed blocked) → In c allowed ⊎ In c blocked
    listed c allowlist i = inl i
    listed c blocklist i = inr i

    clash :
        (c : String × Source) → In c.0 (rules_of c.1 allowed blocked) → text_eq c.0 "" ≡ true → ⊥
    clash c i h = cc (filled c.0 (listed c.0 c.1 i), h)

-- `evaluate` returns a verdict, if no rule is empty. It allows the host exactly if every blocking
-- rule that matches is less specific than an allowing rule that matches, so a tie blocks and a host
-- that no rule matches is allowed; and the rule that it names matches, and stands in the allowing
-- list if the host is allowed and otherwise in the blocking one.
pub evaluate-Decides :
    (host : String) (allowed blocked : List String)
    → ((p : String) → In p allowed ⊎ In p blocked → text_eq p "" ≡ false)
    → (v : WebVerdict) × (evaluate host allowed blocked ≡ some v) × Decides host allowed blocked v
unfolding evaluate
evaluate-Decides host allowed blocked filled = (
  decide_among (candidates host allowed blocked),
  rw (no_empty host allowed blocked filled) refl,
  decide_among-Decides host allowed blocked (candidates host allowed blocked) refl,
)
