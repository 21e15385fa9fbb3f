-- ===== src/Merge/Union.antt =====
-- `_dedupe_key` and `_merge_union` of app/policies/strategies.py. `dumps` stands for
-- `json.dumps(·, sort_keys=True, default=str)`, of which nothing is assumed.
pub mod FirstSeen
use tak_mdm.Base.{String, Bool, false, Option, none, List, [], ◌∷◌, ◌++◌, if◌then◌else◌}
use tak_mdm.Json.{Value, str, arr, items_of, is_hashable, member}
use tak_mdm.Merge.{
  Contribution, MergeOutcome, MergeStrategy, Result, ok, err, ◌>>=◌, sources, as_sequence,
}

unfoldable pub union_outcome : List Contribution → List Value → MergeOutcome
unfolding sources
union_outcome cs merged = record {
  value = arr (items_of merged);
  strategy = MergeStrategy.union;
  contributors = sources cs;
  winner = none;
  overridden = [];
  conflict = false;
}

module _ (dumps : Value → String) where
  unfoldable pub dedupe_key : Value → Value
  unfolding is_hashable
  dedupe_key item = if is_hashable item then item else str (dumps item)

  -- the inner loop: `merged` and `seen` after the items of one contribution
  unfoldable pub union_items : List Value → List Value → List Value → List Value × List Value
  unfolding dedupe_key member
  union_items [] merged seen = (merged, seen)
  union_items (item ∷ items) merged seen =
      let key = dedupe_key item in
      let old = union_items items merged seen in
      let new = union_items items (merged ++ item ∷ []) (key ∷ seen) in
      if member key seen then old else new

  -- the outer loop
  unfoldable pub union_all : List Contribution → List Value → List Value → Result (List Value)
  unfolding union_items as_sequence
  union_all [] merged seen = ok merged
  union_all (c ∷ cs) merged seen = do
    items ← as_sequence c.value
    (merged', seen') ← ok (union_items items merged seen)
    union_all cs merged' seen'

  unfoldable pub merge_union : List Contribution → Result MergeOutcome
  unfolding union_all union_outcome
  merge_union cs = do merged ← union_all cs [] []; ok (union_outcome cs merged)
