-- ===== src/Merge/Intersect.antt =====
-- `_merge_intersect` of app/policies/strategies.py. A set is a list of which only the members
-- count; building one from an unhashable item is a `TypeError`.
pub mod Common
use tak_mdm.Base.{
  Bool, true, false, not, Option, none, some, List, [], ◌∷◌, ◌&&◌, keep, all, if◌then◌else◌,
}
use tak_mdm.Json.{Value, arr, items_of, is_hashable, member}
use tak_mdm.Merge.{
  Contribution, MergeOutcome, SourceRef, MergeStrategy, Result, ok, err, ◌>>=◌, unhashable,
  index_error, sources, as_sequence,
}

-- `set(_as_sequence(value))`
unfoldable pub as_set : Value → Result (List Value)
unfolding as_sequence is_hashable
as_set v = do items ← as_sequence v; if all is_hashable items then ok items else err unhashable

-- `common & items`
unfoldable pub meet : List Value → List Value → List Value
unfolding member
meet common items = keep (λ v. member v items) common

-- `a == b` on sets
unfoldable pub same_set : List Value → List Value → Bool
unfolding member
same_set a b = all (λ v. member v b) a && all (λ v. member v a) b

-- the loop that computes `common`, `none` standing for `None`
unfoldable pub common_items : Option (List Value) → List Contribution → Result (Option (List Value))
unfolding as_set meet
common_items common [] = ok common
common_items none (c ∷ cs) = do items ← as_set c.value; common_items (some items) cs
common_items (some common) (c ∷ cs) = do
  items ← as_set c.value
  common_items (some (meet common items)) cs

-- `dropped`: the contributions whose set is not the merged one
unfoldable pub dropped : List Value → List Contribution → Result (List (Value × SourceRef))
unfolding as_set same_set
dropped merged [] = ok []
dropped merged (c ∷ cs) = do
  items ← as_set c.value
  rest ← dropped merged cs
  ok (if same_set items merged then rest else (c.value, c.source) ∷ rest)

abbrev pub or_empty : Option (List Value) → List Value
or_empty none = []
or_empty (some s) = s

unfoldable pub intersect_outcome :
    List Contribution → List Value → List (Value × SourceRef) → MergeOutcome
unfolding sources
intersect_outcome cs merged overridden = record {
  value = arr (items_of merged);
  strategy = MergeStrategy.intersect;
  contributors = sources cs;
  winner = none;
  overridden = overridden;
  conflict = false;
}

unfoldable pub merge_intersect : List Contribution → Result MergeOutcome
unfolding common_items as_sequence member intersect_outcome
merge_intersect [] = err index_error
merge_intersect (c ∷ cs) = do
  common ← common_items none (c ∷ cs)
  ordered_source ← as_sequence c.value
  let merged = keep (λ item. member item (or_empty common)) ordered_source
  overridden ← dropped merged (c ∷ cs)
  ok (intersect_outcome (c ∷ cs) merged overridden)
