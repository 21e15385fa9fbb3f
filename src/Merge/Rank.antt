-- ===== src/Merge/Rank.antt =====
-- `_merge_highest_rank` of app/policies/strategies.py
use tak_mdm.Base.{Bool, true, false, ◌≡◌, refl, ap, ◌↔◌, some, List, [], ◌∷◌, inl, inr, In}
use tak_mdm.Json.{Value, py_eq}
use tak_mdm.Json.Equality.{py_eq_refl}
use tak_mdm.Merge.Sources.{Lost, losers_iff}
use tak_mdm.Merge.{
  Contribution, MergeOutcome, SourceRef, MergeStrategy, Result, ok, err, index_error, sources,
  losers,
}

-- `bool(losers)`
unfoldable pub nonempty {ℓ} : {A : Type ℓ} → List A → Bool
nonempty [] = false
nonempty (x ∷ xs) = true

unfoldable pub rank_outcome : Contribution → List Contribution → MergeOutcome
unfolding nonempty losers sources
rank_outcome winning cs =
    let lost = losers (winning ∷ cs) winning.value in
    record {
      value = winning.value;
      strategy = MergeStrategy.highest_rank;
      contributors = sources (winning ∷ cs);
      winner = some winning.source;
      overridden = lost;
      conflict = nonempty lost;
    }

unfoldable pub merge_highest_rank : List Contribution → Result MergeOutcome
unfolding rank_outcome
merge_highest_rank [] = err index_error
merge_highest_rank (winning ∷ cs) = ok (rank_outcome winning cs)

nonempty_iff : {A : Type 0} (l : List A) → (nonempty l ≡ true) ↔ ((a : A) × In a l)
unfolding nonempty
nonempty_iff [] = (λ h. absurd (cc), λ (a, i). absurd i)
nonempty_iff (x ∷ l) = (λ h. (x, inl refl), λ h. refl)

-- The highest-ranked value is taken with its source, and a conflict is reported exactly if some
-- contribution below has another value.
pub merge_highest_rank-conflict :
    (c : Contribution) (cs : List Contribution)
    → (o : MergeOutcome) × (merge_highest_rank (c ∷ cs) ≡ ok o)
      × (o.value ≡ c.value)
      × (o.winner ≡ some c.source)
      × ((o.conflict ≡ true) ↔ ((d : Contribution) × In d cs × (py_eq d.value c.value ≡ false)))
unfolding merge_highest_rank rank_outcome
merge_highest_rank-conflict c cs = (
  rank_outcome c cs,
  refl,
  refl,
  refl,
  (
    λ h.
        let (l, i) = (nonempty_iff (losers (c ∷ cs) c.value)).0 h in
        below ((losers_iff (c ∷ cs) c.value l).0 i),
    λ (d, i, n). (nonempty_iff (losers (c ∷ cs) c.value)).1 (
      (d.value, d.source),
      (losers_iff (c ∷ cs) c.value (d.value, d.source)).1 (d, inr i, n, refl),
    ),
  ),
)
  where
    below :
        {l : Value × SourceRef}
        → Lost (c ∷ cs) c.value l
        → (d : Contribution) × In d cs × (py_eq d.value c.value ≡ false)
    below (d, inl p, n, e) =
        absurd (cc (n, ap (λ (x : Contribution). py_eq x.value c.value) p, py_eq_refl c.value))
    below (d, inr i, n, e) = (d, i, n)
