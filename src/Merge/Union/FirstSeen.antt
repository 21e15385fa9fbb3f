-- ===== src/Merge/Union/FirstSeen.antt =====
-- What `_merge_union` of app/policies/strategies.py returns.
use tak_mdm.Base.{String, false, ◌≡◌, List, [], ◌∷◌, map, if◌then◌else◌}
use tak_mdm.Json.{Value, member}
use tak_mdm.Merge.Union.{dedupe_key}

module _ (dumps : Value → String) where
  -- No two items of the list have the same key.
  abbrev pub DistinctKeys : List Value → Type 0
  DistinctKeys [] = Unit
  DistinctKeys (x ∷ xs) =
      (member (dedupe_key dumps x) (map (dedupe_key dumps) xs) ≡ false) × DistinctKeys xs

  -- The items whose key is not among `seen`, each key at its first occurrence only.
  fresh : List Value → List Value → List Value
  fresh seen [] = []
  fresh seen (x ∷ xs) =
      let old = fresh seen xs in
      let new = x ∷ fresh (dedupe_key dumps x ∷ seen) xs in
      if member (dedupe_key dumps x) seen then old else new

  after : List Value → List Value → List Value
  after seen [] = seen
  after seen (x ∷ xs) =
      let old = after seen xs in
      let new = after (dedupe_key dumps x ∷ seen) xs in
      if member (dedupe_key dumps x) seen then old else new
