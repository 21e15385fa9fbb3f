-- ===== src/Tests/Filtering.antt =====
-- The theorems on app/policies/web_filter_rules.py, at concrete rules.
use tak_mdm.Base.{String, true, false, ◌≡◌, ◌↔◌, ◌⊎◌, refl, some, List, [], ◌∷◌, In, inl, inr}
use tak_mdm.Base.Text.{text_eq}
use tak_mdm.WebFilter.{
  WebVerdict, allowlist, matches, evaluate, candidates, after_prefix, ends_with, weaker, strongest,
  decide_among,
}
use tak_mdm.WebFilter.Decision.{Decides, evaluate-Decides}
use tak_mdm.WebFilter.Matching.{Covers, matches_iff}

abbrev blocked : List String
blocked = "*" ∷ "ads.example.com" ∷ []

filled : (p : String) → In p ("example.com" ∷ []) ⊎ In p blocked → text_eq p "" ≡ false
filled p (inl (inl e)) = rw e refl
filled p (inl (inr i)) = absurd i
filled p (inr (inl e)) = rw e refl
filled p (inr (inr (inl e))) = rw e refl
filled p (inr (inr (inr i))) = absurd i

evaluate-Decides_example :
    (v : WebVerdict) × (evaluate "www.example.com" ("example.com" ∷ []) blocked ≡ some v)
    × Decides "www.example.com" ("example.com" ∷ []) blocked v
evaluate-Decides_example = evaluate-Decides "www.example.com" ("example.com" ∷ []) blocked filled

matches_iff_example :
    (matches "*.example.com" "www.example.com" ≡ true) ↔ Covers "*.example.com" "www.example.com"
matches_iff_example = matches_iff "*.example.com" "www.example.com"

-- The allowing rule has more labels than the star.
evaluate_www :
    evaluate "www.example.com" ("example.com" ∷ []) blocked
    ≡ some (record { allowed = true; rule = some "example.com"; source = some allowlist })
unfolding evaluate candidates matches ends_with after_prefix decide_among strongest weaker
evaluate_www = refl
