-- ===== src/Merge/ByKey.antt =====
-- `_merge_by_key` of app/policies/strategies.py. `owner`, which the function fills and does not
-- return, is left out.
pub mod Entries
pub mod Collisions
pub mod Fairness
use tak_mdm.Base.{
  String, Bool, true, false, not, Option, none, some, List, [], ◌∷◌, ◌++◌, map, if◌then◌else◌,
}
use tak_mdm.Base.Text.{text_eq}
use tak_mdm.Json.{Value, Fields, arr, obj, items_of, lookup_field, py_eq, is_hashable}
use tak_mdm.Merge.{
  Merge, Contribution, MergeOutcome, SourceRef, MergeStrategy, Result, ok, err, ◌>>=◌, unhashable,
  requires_key, items_need_key, sources, as_sequence,
}

-- `merged`, `overridden` and `conflict` of the loop; `merged` in order of insertion
pub record State : Type 0 where
  pub merged : List (Value × Value)
  pub overridden : List (Value × SourceRef)
  pub conflict : Bool

-- `merged.get(identity)`
unfoldable pub find : Value → List (Value × Value) → Option Value
unfolding py_eq
find identity [] = none
find identity ((i, item) ∷ rest) = if py_eq identity i then some item else find identity rest

-- `cfg.identity(item) if cfg.identity else item[cfg.key]`
abbrev pub identity_of : Option (Fields → Value) → Fields → Value → Value
identity_of none item keyed = keyed
identity_of (some f) item keyed = f item

-- the identity of an item, which a dict must accept as a key
unfoldable pub entity : Merge → String → Value → Result Value
unfolding is_hashable
entity cfg key (obj item) = elim (lookup_field key item) [
  | none ↦ err items_need_key
  | some keyed ↦
      let identity = identity_of cfg.identity item keyed in
      if is_hashable identity then ok identity else err unhashable
]
entity cfg key _ = err items_need_key

-- the two branches of the loop's body
unfoldable pub note_item : State → SourceRef → Value → Value → State
unfolding find py_eq
note_item st source identity item = elim (find identity st.merged) [
  | none ↦ record st { merged = st.merged ++ (identity, item) ∷ [] }
  | some known ↦
      if py_eq known item
      then st
      else record st { overridden = st.overridden ++ (item, source) ∷ []; conflict = true }
]

unfoldable pub note_items : Merge → String → SourceRef → List Value → State → Result State
unfolding entity note_item
note_items cfg key source [] st = ok st
note_items cfg key source (item ∷ items) st = do
  identity ← entity cfg key item
  note_items cfg key source items (note_item st source identity item)

unfoldable pub note_all : Merge → String → List Contribution → State → Result State
unfolding note_items as_sequence
note_all cfg key [] st = ok st
note_all cfg key (c ∷ cs) st = do
  items ← as_sequence c.value
  st' ← note_items cfg key c.source items st
  note_all cfg key cs st'

abbrev pub nothing_yet : State
nothing_yet = record { merged = []; overridden = []; conflict = false }

-- `cfg.key`, which may be neither missing nor empty
abbrev pub required_key : Option String → Result String
required_key none = err requires_key
required_key (some k) = if text_eq k "" then err requires_key else ok k

unfoldable pub by_key_outcome : List Contribution → State → MergeOutcome
unfolding sources
by_key_outcome cs st = record {
  value = arr (items_of (map (λ e. e.1) st.merged));
  strategy = MergeStrategy.merge_by_key;
  contributors = sources cs;
  winner = none;
  overridden = st.overridden;
  conflict = st.conflict;
}

unfoldable pub merge_by_key : Merge → List Contribution → Result MergeOutcome
unfolding note_all by_key_outcome
merge_by_key cfg cs = do
  key ← required_key cfg.key
  st ← note_all cfg key cs nothing_yet
  ok (by_key_outcome cs st)
