-- ===== src/Merge/Attribution.antt =====
-- Provenance of a merge, for `apply_strategy` of app/policies/strategies.py as a whole.
use tak_mdm.Base.{
  String, Bool, true, false, ◌≡◌, ◌≢◌, refl, sym, ap, subst, Option, none, some, List, [], ◌∷◌, map,
  arith, ◌⊎◌, inl, inr, In, Bool-cases, keep, all,
}
use tak_mdm.Base.Membership.{In-map←}
use tak_mdm.Json.{Value, py_eq, member}
use tak_mdm.Merge.{
  most_restrictive, union, intersect, merge_by_key, highest_rank, Merge, MergeStrategy,
  Contribution, MergeOutcome, SourceRef, ok, >>=-eq-ok, ok_injective, sources, losers, as_sequence,
}
use tak_mdm.Merge.Flags.{merge_most_restrictive, flags_outcome, first_denier, is_bool, allows}
use tak_mdm.Merge.Extremum.{merge_extremum, merge_max, merge_min, extremum_outcome, pick, or_stop}
use tak_mdm.Merge.Sources.{first_with, losers_iff}
use tak_mdm.Merge.Union.{merge_union, union_all, union_outcome}
use tak_mdm.Merge.Intersect.{
  merge_intersect, intersect_outcome, dropped, as_set, same_set, common_items, or_empty,
}
use tak_mdm.Merge.ByKey
use tak_mdm.Merge.ByKey.Fairness.{note_all-IsFair}
use tak_mdm.Merge.Rank.{merge_highest_rank, rank_outcome, nonempty}
use tak_mdm.Merge.Apply.{apply_strategy, strategy_function}

-- The outcome names every contribution, and nothing else: the winner and each overridden entry are
-- from contributions. A conflict has something overridden.
pub record IsAttributed (cs : List Contribution) (o : MergeOutcome) : Type 0 where
  pub contributors : o.contributors ≡ sources cs
  pub winner : (s : SourceRef) → o.winner ≡ some s → In s (sources cs)
  pub overridden : (l : Value × SourceRef) → In l o.overridden → In l.1 (sources cs)
  pub conflict : o.conflict ≡ true → o.overridden ≢ []

source_of_In : (cs : List Contribution) (c : Contribution) → In c cs → In c.source (sources cs)
unfolding sources
source_of_In cs c i = In-map← (λ (c : Contribution). c.source) cs c i

source_of_loser :
    (cs : List Contribution) (v : Value) (l : Value × SourceRef)
    → In l (losers cs v)
    → In l.1 (sources cs)
source_of_loser cs v l i =
    let (c, j, n, e) = (losers_iff cs v l).0 i in
    rw (← ap (λ (x : Value × SourceRef). x.1) e) (source_of_In cs c j)

first_denier-In :
    (s : SourceRef) (cs : List Contribution)
    → (first_denier s cs ≡ s) ⊎ In (first_denier s cs) (sources cs)
unfolding first_denier sources
first_denier-In s [] = inl refl
first_denier-In s (c ∷ cs) = elim (Bool-cases (allows c)) [
  | inl e ↦
      let step : first_denier s (c ∷ cs) ≡ first_denier s cs = rw (e, first_denier) in
      subst (λ x. (x ≡ s) ⊎ In x (sources (c ∷ cs))) (sym step)
        (elim (first_denier-In s cs) [ inl p ↦ inl p | inr i ↦ inr (inr i) ])
  | inr e ↦
      let step : first_denier s (c ∷ cs) ≡ c.source = rw (e, first_denier) in
      subst (λ x. (x ≡ s) ⊎ In x (sources (c ∷ cs))) (sym step) (inr (inl refl))
]

or_stop-eq-ok : (x : Option SourceRef) {s : SourceRef} → or_stop x ≡ ok s → x ≡ some s
or_stop-eq-ok none h = absurd (cc)
or_stop-eq-ok (some t) h = cc

first_with-In :
    (v : Value) (cs : List Contribution) (s : SourceRef)
    → first_with v cs ≡ some s
    → In s (sources cs)
unfolding first_with sources
first_with-In v [] s h = absurd (cc)
first_with-In v (c ∷ cs) s h = elim (Bool-cases (py_eq c.value v)) [
  | inl e ↦ inl (ground arith)
  | inr e ↦ inr (first_with-In v cs s (ground arith))
]

some-injective : {a b : SourceRef} → Option.some a ≡ some b → a ≡ b
some-injective h = cc

-- `next` finds the winner among the contributions, whatever the default is.
flags-IsAttributed :
    (cs : List Contribution) (o : MergeOutcome)
    → merge_most_restrictive cs ≡ ok o
    → IsAttributed cs o
unfolding merge_most_restrictive flags_outcome
flags-IsAttributed [] o h = absurd (cc)
flags-IsAttributed (c ∷ cs) o h = elim (Bool-cases (all is_bool (c ∷ cs))) [
  | inl e ↦ subst (IsAttributed (c ∷ cs)) (ok_injective (rw e at h)) (record {
    contributors = refl;
    winner = λ s p.
        subst (λ x. In x (sources (c ∷ cs))) (some-injective p)
          (elim (first_denier-In c.source (c ∷ cs)) [ inl q ↦ inl q | inr i ↦ i ]);
    overridden = source_of_loser (c ∷ cs) _;
    conflict = λ p. absurd (cc);
  })
  | inr e ↦ absurd (cc (h, e))
]

extremum-IsAttributed :
    (t : Bool) (cs : List Contribution) (o : MergeOutcome)
    → merge_extremum t cs ≡ ok o
    → IsAttributed cs o
unfolding merge_extremum extremum_outcome
extremum-IsAttributed t [] o h = absurd (cc)
extremum-IsAttributed t (c ∷ cs) o h =
    let (v, p, rest) = >>=-eq-ok (pick t c.value (map (λ d. d.value) cs)) _ h in
    let (s, q, e) = >>=-eq-ok (or_stop (first_with v (c ∷ cs))) _ rest in
    subst (IsAttributed (c ∷ cs)) (ok_injective e) (record {
      contributors = refl;
      winner = λ s' p'.
          subst (λ x. In x (sources (c ∷ cs))) (some-injective p')
            (first_with-In v (c ∷ cs) s (or_stop-eq-ok _ q));
      overridden = source_of_loser (c ∷ cs) v;
      conflict = λ p'. absurd (cc);
    })

union-IsAttributed :
    (dumps : Value → String) (cs : List Contribution) (o : MergeOutcome)
    → merge_union dumps cs ≡ ok o
    → IsAttributed cs o
unfolding merge_union union_outcome
union-IsAttributed dumps cs o h =
    let (merged, p, e) = >>=-eq-ok (union_all dumps cs [] []) _ h in
    subst (IsAttributed cs) (ok_injective e) (record {
      contributors = refl;
      winner = λ s q. absurd (cc);
      overridden = λ l i. absurd i;
      conflict = λ q. absurd (cc);
    })

rank-IsAttributed :
    (cs : List Contribution) (o : MergeOutcome) → merge_highest_rank cs ≡ ok o → IsAttributed cs o
unfolding merge_highest_rank rank_outcome nonempty
rank-IsAttributed [] o h = absurd (cc)
rank-IsAttributed (c ∷ cs) o h = subst (IsAttributed (c ∷ cs)) (ok_injective h) (record {
  contributors = refl;
  winner = λ s p. inl (sym (some-injective p));
  overridden = source_of_loser (c ∷ cs) c.value;
  conflict = λ p. nonempty-ne-nil (losers (c ∷ cs) c.value) p;
})
  where
    nonempty-ne-nil : (l : List (Value × SourceRef)) → nonempty l ≡ true → l ≢ []
    nonempty-ne-nil [] p = λ q. cc
    nonempty-ne-nil (x ∷ l) p = λ q. cc

dropped-In :
    (merged : List Value) (cs : List Contribution) (lost : List (Value × SourceRef))
    → dropped merged cs ≡ ok lost
    → (l : Value × SourceRef) → In l lost
    → In l.1 (sources cs)
unfolding dropped sources
dropped-In merged [] lost h l i = absurd (subst (In l) (sym (ok_injective h)) i)
dropped-In merged (c ∷ cs) lost h l i =
    let (items, p, rest) = >>=-eq-ok (as_set c.value) _ h in
    let (more, q, e) = >>=-eq-ok (dropped merged cs) _ rest in
    elim (Bool-cases (same_set items merged)) [
      | inl t ↦
          inr (dropped-In merged cs more q l (subst (In l) (sym (ok_injective (rw t at e))) i))
      | inr t ↦ elim (subst (In l) (sym (ok_injective (rw t at e))) i) [
        | inl x ↦ inl (ap (λ (y : Value × SourceRef). y.1) x)
        | inr j ↦ inr (dropped-In merged cs more q l j)
      ]
    ]

intersect-IsAttributed :
    (cs : List Contribution) (o : MergeOutcome) → merge_intersect cs ≡ ok o → IsAttributed cs o
unfolding merge_intersect intersect_outcome
intersect-IsAttributed [] o h = absurd (cc)
intersect-IsAttributed (c ∷ cs) o h =
    let (common, p, rest) = >>=-eq-ok (common_items none (c ∷ cs)) _ h in
    let (ordered, q, rest') = >>=-eq-ok (as_sequence c.value) _ rest in
    let merged = keep (λ v. member v (or_empty common)) ordered in
    let (lost, r, e) = >>=-eq-ok (dropped merged (c ∷ cs)) _ rest' in
    subst (IsAttributed (c ∷ cs)) (ok_injective e) (record {
      contributors = refl;
      winner = λ s x. absurd (cc);
      overridden = dropped-In merged (c ∷ cs) lost r;
      conflict = λ x. absurd (cc);
    })

by_key-IsAttributed :
    (cfg : Merge) (cs : List Contribution) (o : MergeOutcome)
    → ByKey.merge_by_key cfg cs ≡ ok o
    → IsAttributed cs o
unfolding ByKey.merge_by_key ByKey.by_key_outcome
by_key-IsAttributed cfg cs o h =
    let (key, p, rest) = >>=-eq-ok (ByKey.required_key cfg.key) _ h in
    let (st, q, e) = >>=-eq-ok (ByKey.note_all cfg key cs ByKey.nothing_yet) _ rest in
    let fair =
      note_all-IsFair cfg key (sources cs) cs ByKey.nothing_yet st (λ s i. i)
        (record { blamed = λ l i. absurd i; reported = λ x. absurd (cc) }) q in
    subst (IsAttributed cs) (ok_injective e) (record {
      contributors = refl;
      winner = λ s x. absurd (cc);
      overridden = fair.blamed;
      conflict = fair.reported;
    })

-- Whatever the strategy, an outcome that `apply_strategy` returns names all contributions as its
-- contributors, in order; its winner and the source of each overridden entry are among them; and
-- it reports a conflict only with something overridden.
pub apply_strategy-IsAttributed :
    (dumps : Value → String) (cs : List Contribution) (cfg : Merge) (o : MergeOutcome)
    → apply_strategy dumps cs cfg ≡ ok o
    → IsAttributed cs o
unfolding apply_strategy strategy_function merge_max merge_min
apply_strategy-IsAttributed dumps [] cfg o h = absurd (cc)
apply_strategy-IsAttributed dumps (c ∷ cs) cfg o h = by_strategy cfg.strategy h
  where
    by_strategy :
        (t : MergeStrategy)
        → strategy_function dumps t cfg (c ∷ cs) ≡ ok o
        → IsAttributed (c ∷ cs) o
    by_strategy most_restrictive e = flags-IsAttributed (c ∷ cs) o e
    by_strategy MergeStrategy.max e = extremum-IsAttributed true (c ∷ cs) o e
    by_strategy MergeStrategy.min e = extremum-IsAttributed false (c ∷ cs) o e
    by_strategy union e = union-IsAttributed dumps (c ∷ cs) o e
    by_strategy intersect e = intersect-IsAttributed (c ∷ cs) o e
    by_strategy merge_by_key e = by_key-IsAttributed cfg (c ∷ cs) o e
    by_strategy highest_rank e = rank-IsAttributed (c ∷ cs) o e
