-- ===== src/Merge/Apply.antt =====
-- `apply_strategy` of app/policies/strategies.py and its table `STRATEGY_FUNCTIONS`
use tak_mdm.Base.{String, List, [], ◌∷◌}
use tak_mdm.Json.{Value}
use tak_mdm.Merge.{
  Merge, MergeStrategy, Contribution, MergeOutcome, Result, err, empty_set, most_restrictive, union,
  intersect, merge_by_key, highest_rank,
}
use tak_mdm.Merge.Flags.{merge_most_restrictive}
use tak_mdm.Merge.Extremum.{merge_max, merge_min}
use tak_mdm.Merge.Union.{merge_union}
use tak_mdm.Merge.Intersect.{merge_intersect}
use tak_mdm.Merge.ByKey
use tak_mdm.Merge.Rank.{merge_highest_rank}

module _ (dumps : Value → String) where
  unfoldable pub strategy_function : MergeStrategy → Merge → List Contribution → Result MergeOutcome
  unfolding merge_most_restrictive merge_max merge_min merge_union merge_intersect
      ByKey.merge_by_key merge_highest_rank
  strategy_function most_restrictive cfg cs = merge_most_restrictive cs
  strategy_function MergeStrategy.max cfg cs = merge_max cs
  strategy_function MergeStrategy.min cfg cs = merge_min cs
  strategy_function union cfg cs = merge_union dumps cs
  strategy_function intersect cfg cs = merge_intersect cs
  strategy_function merge_by_key cfg cs = ByKey.merge_by_key cfg cs
  strategy_function highest_rank cfg cs = merge_highest_rank cs

  unfoldable pub apply_strategy : List Contribution → Merge → Result MergeOutcome
  unfolding strategy_function
  apply_strategy [] cfg = err empty_set
  apply_strategy (c ∷ cs) cfg = strategy_function cfg.strategy cfg (c ∷ cs)
