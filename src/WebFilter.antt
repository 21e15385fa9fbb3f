-- ===== src/WebFilter.antt =====
-- app/policies/web_filter_rules.py: which rule of the web filter decides about a hostname.
pub mod Order
pub mod Decision
pub mod Matching
use Prim.Native.Char.{Char}
use Prim.Native.String.{◌++◌ as glue}
use tak_mdm.Base.{
  ℕ, zero, suc, ◌+◌, String, Bool, true, false, Option, none, some, List, [], ◌∷◌, ◌++◌, map, keep,
  any, if◌then◌else◌, ltb, ◌==◌, ◌&&◌, ◌||◌,
}
use tak_mdm.Base.Text.{text_eq}

-- `host.endswith(suffix)`
unfoldable pub ends_with : String → String → Bool
ends_with String.[] suffix = text_eq "" suffix
ends_with (String.◌∷◌ c s) suffix =
    let rest = ends_with s suffix in text_eq (String.◌∷◌ c s) suffix || rest

-- the text after the prefix, if it starts with it
unfoldable pub after_prefix : String → String → Option String
after_prefix String.[] s = some s
after_prefix (String.◌∷◌ d prefix) String.[] = none
after_prefix (String.◌∷◌ d prefix) (String.◌∷◌ c s) =
    let rest = after_prefix prefix s in
    if text_eq (String.◌∷◌ c "") (String.◌∷◌ d "") then rest else none

-- `s.removeprefix(prefix)`
unfoldable pub remove_prefix : String → String → String
unfolding after_prefix
remove_prefix prefix s = elim (after_prefix prefix s) [ none ↦ s | some rest ↦ rest ]

-- `name.count(".")`
unfoldable pub count_dots : String → ℕ
count_dots String.[] = 0
count_dots (String.◌∷◌ c s) =
    let rest = count_dots s in if text_eq (String.◌∷◌ c "") "." then suc rest else rest

unfoldable pub name_of : String → String
unfolding remove_prefix
name_of pattern_text = remove_prefix "." (remove_prefix "*." pattern_text)

-- `_matches`, whose slices `pattern[1:]` are what the pattern has after its first character
unfoldable pub matches : String → String → Bool
unfolding ends_with after_prefix
matches rule host = if text_eq rule "*" then true else elim (after_prefix "*." rule) [
  | some name ↦ ends_with host (glue "." name)
  | none ↦ elim (after_prefix "." rule) [
    | some name ↦ text_eq host name
    | none ↦ text_eq host rule || ends_with host (glue "." rule)
  ]
]

-- `_KIND.get(pattern[0], 1)`
unfoldable pub kind_of : String → ℕ
kind_of String.[] = 1
kind_of (String.◌∷◌ c s) =
    if text_eq (String.◌∷◌ c "") "." then 3 else if text_eq (String.◌∷◌ c "") "*" then 2 else 1

unfoldable pub specificity : String → ℕ × ℕ × ℕ
unfolding name_of count_dots kind_of
specificity rule =
    if text_eq rule "*" then (0, 0, 0) else (1, count_dots (name_of rule) + 1, kind_of rule)

pub data Source : Type 0 where
  allowlist : Source
  blocklist : Source

pub record WebVerdict : Type 0 where
  pub allowed : Bool
  pub rule : Option String
  pub source : Option Source

unfoldable pub is_allowlist : Source → Bool
is_allowlist allowlist = true
is_allowlist blocklist = false

unfoldable pub is_blocklist : Source → Bool
is_blocklist allowlist = false
is_blocklist blocklist = true

-- the order of tuples
unfoldable pub tuple_lt : ℕ × ℕ × ℕ → ℕ × ℕ × ℕ → Bool
tuple_lt (a, b, c) (x, y, z) = ltb a x || (a == x && (ltb b y || (b == y && ltb c z)))

unfoldable pub tuple_eq : ℕ × ℕ × ℕ → ℕ × ℕ × ℕ → Bool
tuple_eq (a, b, c) (x, y, z) = a == x && (b == y && c == z)

-- the order of the keys of `max`
unfoldable pub weaker : String × Source → String × Source → Bool
unfolding tuple_lt tuple_eq specificity is_allowlist is_blocklist
weaker (p, s) (q, t) =
    tuple_lt (specificity p) (specificity q)
    || (tuple_eq (specificity p) (specificity q) && (is_allowlist s && is_blocklist t))

-- `max` of the first candidate and the rest: the first of the greatest
unfoldable pub strongest : String × Source → List (String × Source) → String × Source
unfolding weaker
strongest c [] = c
strongest c (d ∷ l) = strongest (if weaker c d then d else c) l

unfoldable pub candidates : String → List String → List String → List (String × Source)
unfolding matches
candidates host allowed blocked =
    map (λ p. (p, allowlist)) (keep (λ p. matches p host) allowed)
    ++ map (λ p. (p, blocklist)) (keep (λ p. matches p host) blocked)

unfoldable pub decide_among : List (String × Source) → WebVerdict
unfolding strongest is_allowlist
decide_among [] = record { allowed = true; rule = none; source = none }
decide_among (c ∷ l) =
    let (p, s) = strongest c l in
    record { allowed = is_allowlist s; rule = some p; source = some s }

-- `none` is the `IndexError` of `pattern[0]` on an empty pattern that matches.
unfoldable pub evaluate : String → List String → List String → Option WebVerdict
unfolding candidates
evaluate host allowed blocked =
    if any (λ (c : String × Source). text_eq c.0 "") (candidates host allowed blocked)
    then none
    else some (decide_among (candidates host allowed blocked))
