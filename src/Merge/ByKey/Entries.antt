-- ===== src/Merge/ByKey/Entries.antt =====
-- The items that `_merge_by_key` of app/policies/strategies.py walks, with their identities.
use tak_mdm.Base.{
  String, Bool, true, false, not, ◌≡◌, refl, sym, ap, ◌∙◌, Option, none, some, List, [], ◌∷◌, ◌++◌,
  map, arith, inl, inr, All, Option-cases, if◌then◌else◌, keep,
}
use tak_mdm.Json.{Value, Items, arr, null, py_eq}
use tak_mdm.Json.Equality.{py_eq_congr}
use tak_mdm.Merge.{Merge, Contribution, SourceRef, ok, err}
use tak_mdm.Merge.Lists.{items, as_sequence-items}
use tak_mdm.Merge.ByKey.{State, find, entity, note_item, note_items, note_all}

module _ (cfg : Merge) (key : String) where
  -- The identity of an item that has one.
  unfoldable pub name_of : Value → Value
  name_of item = elim (entity cfg key item) [ ok i ↦ i | err e ↦ null ]

  -- Every item of every contribution has an identity.
  abbrev pub AllNamed : List Contribution → Type 0
  AllNamed = All (λ c.
      ((vs : Items) × (c.value ≡ arr vs)) × All (λ v. entity cfg key v ≡ ok (name_of v)) (items c))

  -- The items of all contributions with where they are from, the highest precedence first.
  abbrev pub entries : List Contribution → List (Value × SourceRef)
  entries [] = []
  entries (c ∷ cs) = map (λ v. (v, c.source)) (items c) ++ entries cs

  -- The reference: the first item with the identity.
  abbrev pub first_named : Value → List (Value × SourceRef) → Option Value
  first_named i [] = none
  first_named i ((v, s) ∷ es) = if py_eq i (name_of v) then some v else first_named i es

  unfoldable pub note_entries : State → List (Value × SourceRef) → State
  note_entries st [] = st
  note_entries st ((v, s) ∷ es) = note_entries (note_item st s (name_of v) v) es

  note_items-entries :
      (source : SourceRef) (vs : List Value) (st : State)
      → All (λ v. entity cfg key v ≡ ok (name_of v)) vs
      → note_items cfg key source vs st ≡ ok (note_entries st (map (λ v. (v, source)) vs))
  unfolding note_items note_entries
  note_items-entries source [] st h = refl
  note_items-entries source (v ∷ vs) st (e, h) =
      rw e (note_items-entries source vs (note_item st source (name_of v) v) h)

  note_entries-append :
      (es fs : List (Value × SourceRef)) (st : State)
      → note_entries st (es ++ fs) ≡ note_entries (note_entries st es) fs
  unfolding note_entries
  note_entries-append [] fs st = refl
  note_entries-append ((v, s) ∷ es) fs st = note_entries-append es fs (note_item st s (name_of v) v)

  pub note_all-entries :
      (cs : List Contribution) (st : State)
      → AllNamed cs
      → note_all cfg key cs st ≡ ok (note_entries st (entries cs))
  unfolding note_all note_entries
  note_all-entries [] st h = refl
  note_all-entries (c ∷ cs) st ((l, n), h) =
      rw (as_sequence-items c l, note_items-entries c.source (items c) st n)
        (note_all-entries cs (note_entries st (map (λ v. (v, c.source)) (items c))) h
          ∙ ap ok (sym (note_entries-append (map (λ v. (v, c.source)) (items c)) (entries cs) st)))

find_congr : (i j : Value) (m : List (Value × Value)) → py_eq i j ≡ true → find i m ≡ find j m
unfolding find
find_congr i j [] h = refl
find_congr i j ((k, w) ∷ m) h = ground (arith, py_eq_congr i j k h, find_congr i j m h)

-- One more entry at the end is found where nothing else is.
pub find-append :
    (i j v : Value) (m : List (Value × Value))
    → find i (m ++ (j, v) ∷ [])
      ≡ elim (find i m) [ some w ↦ some w | none ↦ if py_eq i j then some v else none ]
unfolding find
find-append i j v [] = refl
find-append i j v ((k, w) ∷ m) = ground (arith, find-append i j v m)

-- An item that is there stays: what comes first wins.
pub find-note_item :
    (st : State) (s : SourceRef) (i j v : Value)
    → find i (note_item st s j v).merged
      ≡ elim (find i st.merged) [ some w ↦ some w | none ↦ if py_eq i j then some v else none ]
unfolding note_item
find-note_item st s i j v = elim (Option-cases (find j st.merged)) [
  | inl new ↦ rw (new, note_item) (find-append i j v st.merged)
  | inr (w, known) ↦ ground (arith, find_congr i j st.merged)
]

-- `found` for the items seen before `es`, and then the first item with the identity.
abbrev or_first : Merge → String → Value → List (Value × SourceRef) → Option Value → Option Value
or_first cfg key i es found = elim found [ some w ↦ some w | none ↦ first_named cfg key i es ]

module _ (cfg : Merge) (key : String) where
  pub find-note_entries :
      (st : State) (es : List (Value × SourceRef)) (i : Value)
      → find i (note_entries cfg key st es).merged ≡ or_first cfg key i es (find i st.merged)
  unfolding note_entries
  find-note_entries st [] i = elim (Option-cases (find i st.merged)) [
    | inl e ↦ rw e
    | inr (w, e) ↦ rw e
  ]
  find-note_entries st ((v, s) ∷ es) i = ground (
    arith,
    find-note_entries (note_item st s (name_of cfg key v) v) es i,
    find-note_item st s i (name_of cfg key v) v,
  )

  -- An entry agrees with the item that `merged` has for its identity.
  unfoldable pub agrees : List (Value × Value) → Value × SourceRef → Bool
  agrees merged (v, s) = elim (find (name_of cfg key v) merged) [
    | none ↦ false
    | some w ↦ py_eq w v
  ]

  -- The entries that describe their entity otherwise than the first one does.
  abbrev pub disagreeing :
      List (Value × Value) → List (Value × SourceRef) → List (Value × SourceRef)
  disagreeing merged = keep (λ e. not (agrees merged e))
