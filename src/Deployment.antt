-- ===== src/Deployment.antt =====
-- app/services/deployment.py: whether a policy or a profile is in force, and when the next one comes
-- into force. What is written and whom it reaches stands in the child `Sweep`.
pub mod Sweep
pub mod Unchanged
pub mod Live
pub mod Swept
use tak_mdm.Base.{
  ℕ, Bool, true, false, Option, none, some, List, [], ◌∷◌, if◌then◌else◌, ltb, leb, min, ◌&&◌, not,
}

-- the columns that a `Policy` and a `PolicyProfile` have in common
pub record Deployable : Type 0 where
  pub archived_at : Option ℕ
  pub pending_deployment : Bool
  pub effective_at : Option ℕ
  pub activated_at : Option ℕ

-- `effective_at is not None and effective_at <= now`
unfoldable pub has_come : ℕ → Option ℕ → Bool
has_come now none = false
has_come now (some t) = leb t now

unfoldable pub is_live : ℕ → Deployable → Bool
unfolding has_come
is_live now item = if item.pending_deployment then has_come now item.effective_at else true

pub data Status : Type 0 where
  live : Status
  held : Status
  scheduled : Status

unfoldable pub status : ℕ → Deployable → Status
unfolding is_live
status now item =
    if is_live now item then live else elim item.effective_at [ none ↦ held | some t ↦ scheduled ]

-- what the query of `due` selects
unfoldable pub is_due : ℕ → Deployable → Bool
unfolding has_come
is_due now item = item.pending_deployment && has_come now item.effective_at

unfoldable pub is_archived : Deployable → Bool
is_archived item = elim item.archived_at [ none ↦ false | some t ↦ true ]

-- `effective_at`, if the query of `next_transition` selects the row
unfoldable pub coming : ℕ → Deployable → Option ℕ
unfolding is_archived
coming now item =
    if item.pending_deployment && not (is_archived item)
    then elim item.effective_at [ none ↦ none | some t ↦ if ltb now t then some t else none ]
    else none

-- the earlier of two moments, either of which may be missing
unfoldable pub earlier : Option ℕ → Option ℕ → Option ℕ
earlier none b = b
earlier (some a) none = some a
earlier (some a) (some b) = some (min a b)

-- the first of the rows by `effective_at`
unfoldable pub soonest : ℕ → List Deployable → Option ℕ
unfolding coming earlier
soonest now [] = none
soonest now (item ∷ items) = earlier (coming now item) (soonest now items)
