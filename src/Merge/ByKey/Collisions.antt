-- ===== src/Merge/ByKey/Collisions.antt =====
-- What `_merge_by_key` of app/policies/strategies.py keeps of two items with one identity.
use mathlib.Core.List.{append-nil, append_assoc}
use tak_mdm.Base.{
  String, Bool, true, ◌≡◌, refl, ap, ◌∙◌, none, some, List, [], ◌∷◌, ◌++◌, map, arith, inl, inr,
  Bool-cases, Option-cases, if◌then◌else◌,
}
use tak_mdm.Json.{Value, arr, items_of, py_eq}
use tak_mdm.Json.Equality.{py_eq_refl, py_eq_sym}
use tak_mdm.Merge.{Merge, Contribution, MergeOutcome, SourceRef, ok}
use tak_mdm.Merge.Rank.{nonempty}
use tak_mdm.Merge.ByKey.{
  State, nothing_yet, find, note_item, required_key, by_key_outcome, merge_by_key,
}
use tak_mdm.Merge.ByKey.Entries.{
  name_of, AllNamed, entries, first_named, note_entries, note_all-entries, find-append,
  find-note_item, find-note_entries, agrees, disagreeing,
}

-- Whether an item is new or described as before.
accepted : State → Value → Value → Bool
accepted st i v = elim (find i st.merged) [ none ↦ true | some w ↦ py_eq w v ]

overridden-note_item :
    (st : State) (s : SourceRef) (i v : Value)
    → (note_item st s i v).overridden
      ≡ st.overridden ++ (if accepted st i v then [] else (v, s) ∷ [])
unfolding note_item accepted
overridden-note_item st s i v = ground (arith, append-nil st.overridden)

nonempty-append :
    (xs : List (Value × SourceRef)) (x : Value × SourceRef) → nonempty (xs ++ x ∷ []) ≡ true
unfolding nonempty
nonempty-append [] x = refl
nonempty-append (y ∷ xs) x = refl

conflict-note_item :
    (st : State) (s : SourceRef) (i v : Value)
    → st.conflict ≡ nonempty st.overridden
    → (note_item st s i v).conflict ≡ nonempty (note_item st s i v).overridden
unfolding note_item
conflict-note_item st s i v h = ground (arith, nonempty-append st.overridden (v, s))

module _ (cfg : Merge) (key : String) where
  agrees_iff_accepted :
      (st : State) (s : SourceRef) (v : Value) (es : List (Value × SourceRef))
      → agrees cfg key
          (note_entries cfg key (note_item st s (name_of cfg key v) v) es).merged
          (v, s)
        ≡ accepted st (name_of cfg key v) v
  unfolding agrees accepted
  agrees_iff_accepted st s v es =
      let i = name_of cfg key v in
      ground (
        arith,
        find-note_entries cfg key (note_item st s i v) es i,
        find-note_item st s i i v,
        py_eq_refl i,
        py_eq_refl v,
      )

  note_entries-overridden :
      (st : State) (es : List (Value × SourceRef))
      → (note_entries cfg key st es).overridden
        ≡ st.overridden ++ disagreeing cfg key (note_entries cfg key st es).merged es
  unfolding note_entries
  note_entries-overridden st [] = rw append-nil
  note_entries-overridden st ((v, s) ∷ es) =
      let i = name_of cfg key v in
      let st' = note_item st s i v in
      let rest = disagreeing cfg key (note_entries cfg key st' es).merged es in
      note_entries-overridden st' es
      ∙ ap (λ o. o ++ rest) (overridden-note_item st s i v)
      ∙ elim (Bool-cases (accepted st i v)) [
        | inl e ↦ rw (e, agrees_iff_accepted st s v es, e, append-nil)
        | inr e ↦ rw (e, agrees_iff_accepted st s v es, e, append_assoc)
      ]

  note_entries-conflict :
      (st : State) (es : List (Value × SourceRef))
      → st.conflict ≡ nonempty st.overridden
      → (note_entries cfg key st es).conflict ≡ nonempty (note_entries cfg key st es).overridden
  unfolding note_entries
  note_entries-conflict st [] h = h
  note_entries-conflict st ((v, s) ∷ es) h =
      let i = name_of cfg key v in
      note_entries-conflict (note_item st s i v) es (conflict-note_item st s i v h)

-- No two entries of `merged` have equal identities.
abbrev pub DistinctNames : List (Value × Value) → Type 0
DistinctNames [] = Unit
DistinctNames ((i, v) ∷ m) = (find i m ≡ none) × DistinctNames m

DistinctNames-append :
    (i v : Value) (m : List (Value × Value))
    → find i m ≡ none
    → DistinctNames m
    → DistinctNames (m ++ (i, v) ∷ [])
unfolding find
DistinctNames-append i v [] h d = (refl, tt)
DistinctNames-append i v ((j, w) ∷ m) h (e, d) = (
  ground (arith, find-append j i v m, py_eq_sym i j),
  DistinctNames-append i v m (ground arith) d,
)

DistinctNames-note_item :
    (st : State) (s : SourceRef) (i v : Value)
    → DistinctNames st.merged
    → DistinctNames (note_item st s i v).merged
unfolding note_item
DistinctNames-note_item st s i v d = elim (Option-cases (find i st.merged)) [
  | inl new ↦ rw (new, note_item) (DistinctNames-append i v st.merged new d)
  | inr (w, known) ↦ elim (Bool-cases (py_eq w v)) [
    | inl e ↦ rw (known, note_item, e) d
    | inr e ↦ rw (known, note_item, e) d
  ]
]

module _ (cfg : Merge) (key : String) where
  DistinctNames-note_entries :
      (st : State) (es : List (Value × SourceRef))
      → DistinctNames st.merged
      → DistinctNames (note_entries cfg key st es).merged
  unfolding note_entries
  DistinctNames-note_entries st [] d = d
  DistinctNames-note_entries st ((v, s) ∷ es) d =
      let i = name_of cfg key v in
      DistinctNames-note_entries (note_item st s i v) es (DistinctNames-note_item st s i v d)

  -- With a key, on lists of items that all have an identity, the merge returns. Its value holds one
  -- item for each identity, the first one from the highest precedence down; the overridden items
  -- are exactly those that describe their entity otherwise; a conflict is reported exactly if there
  -- is such an item.
  pub merge_by_key-Collisions :
      (cs : List Contribution)
      → required_key cfg.key ≡ ok key
      → AllNamed cfg key cs
      → (o : MergeOutcome) × (merged : List (Value × Value)) × (merge_by_key cfg cs ≡ ok o)
        × (o.value ≡ arr (items_of (map (λ e. e.1) merged)))
        × DistinctNames merged
        × ((i : Value) → find i merged ≡ first_named cfg key i (entries cfg key cs))
        × (o.overridden ≡ disagreeing cfg key merged (entries cfg key cs))
        × (o.conflict ≡ nonempty o.overridden)
  unfolding merge_by_key by_key_outcome find nonempty
  merge_by_key-Collisions cs k h =
      let st = note_entries cfg key nothing_yet (entries cfg key cs) in
      (
        by_key_outcome cs st,
        st.merged,
        rw (k, note_all-entries cfg key cs nothing_yet h),
        refl,
        DistinctNames-note_entries nothing_yet (entries cfg key cs) tt,
        λ i. find-note_entries cfg key nothing_yet (entries cfg key cs) i,
        note_entries-overridden cfg key nothing_yet (entries cfg key cs),
        note_entries-conflict cfg key nothing_yet (entries cfg key cs) refl,
      )
