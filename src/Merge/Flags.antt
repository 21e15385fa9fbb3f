-- ===== src/Merge/Flags.antt =====
-- `_merge_most_restrictive` of app/policies/strategies.py
use tak_mdm.Base.{Bool, true, false, some, List, [], ◌∷◌, all, if◌then◌else◌}
use tak_mdm.Json.{Value}
use tak_mdm.Merge.{
  Contribution, MergeOutcome, SourceRef, Result, ok, err, requires_bool, index_error,
  most_restrictive, sources, losers,
}

-- `isinstance(c.value, bool)`
unfoldable pub is_bool : Contribution → Bool
is_bool c = elim c.value [ Value.bool b ↦ true | _ ↦ false ]

-- `c.value` as a condition, once it is known to be a flag
unfoldable pub allows : Contribution → Bool
allows c = elim c.value [ Value.bool b ↦ b | _ ↦ false ]

-- `next((c.source for c in contributions if not c.value), default)`
unfoldable pub first_denier : SourceRef → List Contribution → SourceRef
first_denier default [] = default
first_denier default (c ∷ cs) = if allows c then first_denier default cs else c.source

-- The outcome for the contributions `c ∷ cs`, flags all.
unfoldable pub flags_outcome : Contribution → List Contribution → MergeOutcome
unfolding allows first_denier sources losers
flags_outcome c cs =
    let value = Value.bool (all allows (c ∷ cs)) in
    record {
      value = value;
      strategy = most_restrictive;
      contributors = sources (c ∷ cs);
      winner = some (first_denier c.source (c ∷ cs));
      overridden = losers (c ∷ cs) value;
      conflict = false;
    }

unfoldable pub merge_most_restrictive : List Contribution → Result MergeOutcome
unfolding is_bool flags_outcome
merge_most_restrictive [] = err index_error
merge_most_restrictive (c ∷ cs) =
    if all is_bool (c ∷ cs) then ok (flags_outcome c cs) else err requires_bool
