-- ===== src/Merge/Extremum.antt =====
-- `_merge_extremum`, `_merge_max` and `_merge_min` of app/policies/strategies.py
use tak_mdm.Base.{Bool, true, false, Option, none, some, List, [], ◌∷◌, map, if◌then◌else◌}
use tak_mdm.Json.{Value, py_lt}
use tak_mdm.Merge.{
  Contribution, MergeOutcome, SourceRef, MergeStrategy, Result, ok, err, ◌>>=◌, unorderable,
  index_error, stop_iteration, sources, losers,
}
use tak_mdm.Merge.Sources.{first_with}

-- `max` replaces its best by an item that is greater, `min` by one that is less.
unfoldable pub beats : Bool → Value → Value → Option Bool
beats take_max v best = if take_max then py_lt best v else py_lt v best

-- the rest of `picker(...)`, `best` being the best so far
unfoldable pub pick : Bool → Value → List Value → Result Value
unfolding beats
pick take_max best [] = ok best
pick take_max best (v ∷ vs) = elim (beats take_max v best) [
  | none ↦ err unorderable
  | some true ↦ pick take_max v vs
  | some false ↦ pick take_max best vs
]

abbrev pub or_stop : Option SourceRef → Result SourceRef
or_stop none = err stop_iteration
or_stop (some s) = ok s

unfoldable pub extremum_outcome : Bool → Value → SourceRef → List Contribution → MergeOutcome
unfolding sources losers
extremum_outcome take_max value winner cs = record {
  value = value;
  strategy = if take_max then MergeStrategy.max else MergeStrategy.min;
  contributors = sources cs;
  winner = some winner;
  overridden = losers cs value;
  conflict = false;
}

unfoldable pub merge_extremum : Bool → List Contribution → Result MergeOutcome
unfolding pick first_with extremum_outcome
merge_extremum take_max [] = err index_error
merge_extremum take_max (c ∷ cs) = do
  value ← pick take_max c.value (map (λ d. d.value) cs)
  winner ← or_stop (first_with value (c ∷ cs))
  ok (extremum_outcome take_max value winner (c ∷ cs))

unfoldable pub merge_max : List Contribution → Result MergeOutcome
unfolding merge_extremum
merge_max = merge_extremum true

unfoldable pub merge_min : List Contribution → Result MergeOutcome
unfolding merge_extremum
merge_min = merge_extremum false
