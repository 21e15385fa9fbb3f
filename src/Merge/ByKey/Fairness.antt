-- ===== src/Merge/ByKey/Fairness.antt =====
-- The loop of `_merge_by_key` of app/policies/strategies.py blames only contributions.
use tak_mdm.Base.{
  append-ne-nil, String, true, ◌≡◌, ◌≢◌, refl, sym, ap, subst, List, [], ◌∷◌, inl, inr, In,
  Bool-cases, Option-cases,
}
use tak_mdm.Base.Membership.{In-append→}
use tak_mdm.Json.{Value, py_eq}
use tak_mdm.Merge.{Merge, Contribution, SourceRef, ok, >>=-eq-ok, sources, as_sequence}
use tak_mdm.Merge.ByKey

-- What the loop of `_merge_by_key` keeps: it blames only the sources in `srcs`.
pub record IsFair (srcs : List SourceRef) (st : ByKey.State) : Type 0 where
  pub blamed : (l : Value × SourceRef) → In l st.overridden → In l.1 srcs
  pub reported : st.conflict ≡ true → st.overridden ≢ []

note_item-IsFair :
    (srcs : List SourceRef) (st : ByKey.State) (s : SourceRef) (i v : Value)
    → In s srcs
    → IsFair srcs st
    → IsFair srcs (ByKey.note_item st s i v)
unfolding ByKey.note_item
note_item-IsFair srcs st s i v k f = elim (Option-cases (ByKey.find i st.merged)) [
  | inl new ↦ rw (new, ByKey.note_item) (record { blamed = f.blamed; reported = f.reported })
  | inr (w, known) ↦ elim (Bool-cases (py_eq w v)) [
    | inl e ↦ rw (known, ByKey.note_item, e) f
    | inr e ↦
        rw (known, ByKey.note_item, e)
          (record {
            blamed = λ l j. elim (In-append→ st.overridden ((v, s) ∷ []) l j) [
              | inl x ↦ f.blamed l x
              | inr (inl x) ↦ subst (λ y. In y srcs) (sym (ap (λ (y : Value × SourceRef). y.1) x)) k
              | inr (inr x) ↦ absurd x
            ];
            reported = λ p. append-ne-nil st.overridden (v, s);
          })
  ]
]

note_items-IsFair :
    (cfg : Merge) (key : String) (srcs : List SourceRef) (s : SourceRef) (vs : List Value)
    (st st' : ByKey.State)
    → In s srcs
    → IsFair srcs st
    → ByKey.note_items cfg key s vs st ≡ ok st'
    → IsFair srcs st'
unfolding ByKey.note_items
note_items-IsFair cfg key srcs s [] st st' k f h = subst (IsFair srcs) (cc (h)) f
note_items-IsFair cfg key srcs s (v ∷ vs) st st' k f h =
    let (i, p, rest) = >>=-eq-ok (ByKey.entity cfg key v) _ h in
    note_items-IsFair cfg key srcs s vs (ByKey.note_item st s i v) st' k
      (note_item-IsFair srcs st s i v k f) rest

pub note_all-IsFair :
    (cfg : Merge) (key : String) (srcs : List SourceRef) (cs : List Contribution)
    (st st' : ByKey.State)
    → ((s : SourceRef) → In s (sources cs) → In s srcs)
    → IsFair srcs st
    → ByKey.note_all cfg key cs st ≡ ok st'
    → IsFair srcs st'
unfolding ByKey.note_all sources
note_all-IsFair cfg key srcs [] st st' k f h = subst (IsFair srcs) (cc (h)) f
note_all-IsFair cfg key srcs (c ∷ cs) st st' k f h =
    let (vs, p, rest) = >>=-eq-ok (as_sequence c.value) _ h in
    let (mid, q, rest') = >>=-eq-ok (ByKey.note_items cfg key c.source vs st) _ rest in
    note_all-IsFair cfg key srcs cs mid st' (λ s i. k s (inr i))
      (note_items-IsFair cfg key srcs c.source vs st mid (k c.source (inl refl)) f q) rest'
