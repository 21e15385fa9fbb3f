-- ===== src/Merge/Intersect/Common.antt =====
-- What `_merge_intersect` of app/policies/strategies.py returns.
use tak_mdm.Base.{
  true, ◌≡◌, refl, sym, ◌∙◌, ◌↔◌, some, List, [], ◌∷◌, inl, inr, In, All, Bool-cases, all, keep,
}
use tak_mdm.Base.Membership.{In-keep→, In-keep←}
use tak_mdm.Json.{Value, Items, arr, items_of, member, is_hashable}
use tak_mdm.Json.Equality.{member_congr, member_of_In, In-of_member}
use tak_mdm.Merge.{Contribution, MergeOutcome, SourceRef, ok}
use tak_mdm.Merge.Lists.{Keeps, keep-Keeps, items, as_sequence-items}
use tak_mdm.Merge.Sources.{rejected, Rejected, rejected_iff}
use tak_mdm.Merge.Intersect.{
  as_set, meet, same_set, common_items, dropped, intersect_outcome, merge_intersect,
}

-- Every contribution is a list of hashable items.
abbrev IsSetValue : Contribution → Type 0
IsSetValue c = ((vs : Items) × (c.value ≡ arr vs)) × (all is_hashable (items c) ≡ true)

abbrev pub AllSets : List Contribution → Type 0
AllSets = All IsSetValue

as_set-items : (c : Contribution) → IsSetValue c → as_set c.value ≡ ok (items c)
unfolding as_set
as_set-items c (l, h) = rw (as_sequence-items c l, h)

-- Every contribution of `cs` permits `v`.
abbrev pub PermittedByAll : Value → List Contribution → Type 0
PermittedByAll v = All (λ c. member v (items c) ≡ true)

member-meet :
    (v : Value) (common xs : List Value)
    → (member v (meet common xs) ≡ true) ↔ ((member v common ≡ true) × (member v xs ≡ true))
unfolding meet
member-meet v common xs = (
  λ h.
      let (w, i, e) = In-of_member v (keep (λ w. member w xs) common) h in
      let (j, m) = In-keep→ (λ w. member w xs) common w i in
      (member_congr v w common e ∙ member_of_In w common j, member_congr v w xs e ∙ m),
  λ (h, k).
      let (w, i, e) = In-of_member v common h in
      member_congr v w (keep (λ w. member w xs) common) e
      ∙ member_of_In w (keep (λ w. member w xs) common)
          (In-keep← (λ w. member w xs) common w i (sym (member_congr v w xs e) ∙ k)),
)

meets : List Value → List Contribution → List Value
meets common [] = common
meets common (c ∷ cs) = meets (meet common (items c)) cs

common_items-meets :
    (common : List Value) (cs : List Contribution)
    → AllSets cs
    → common_items (some common) cs ≡ ok (some (meets common cs))
unfolding common_items meets
common_items-meets common [] h = refl
common_items-meets common (c ∷ cs) (l, h) =
    rw (as_set-items c l) (common_items-meets (meet common (items c)) cs h)

member-meets :
    (v : Value) (common : List Value) (cs : List Contribution)
    → (member v (meets common cs) ≡ true) ↔ ((member v common ≡ true) × PermittedByAll v cs)
unfolding meets
member-meets v common [] = (λ h. (h, tt), λ (h, k). h)
member-meets v common (c ∷ cs) = (
  λ h.
      let (m, k) = (member-meets v (meet common (items c)) cs).0 h in
      let (a, b) = (member-meet v common (items c)).0 m in (a, (b, k)),
  λ (a, (b, k)).
      (member-meets v (meet common (items c)) cs).1 ((member-meet v common (items c)).1 (a, b), k),
)

dropped-rejected :
    (merged : List Value) (cs : List Contribution)
    → AllSets cs
    → dropped merged cs ≡ ok (rejected (λ c. same_set (items c) merged) cs)
unfolding dropped
dropped-rejected merged [] h = refl
dropped-rejected merged (c ∷ cs) (l, h) =
    rw (as_set-items c l, dropped-rejected merged cs h)
      (elim (Bool-cases (same_set (items c) merged)) [ inl e ↦ rw e | inr e ↦ rw e ])

-- On lists of hashable items the intersection returns. Its value is the list of the highest
-- precedence from which exactly those items are left out that some contribution does not hold, and
-- the overridden contributions are exactly those that hold another set of items than the result.
pub merge_intersect-Common :
    (c : Contribution) (cs : List Contribution)
    → AllSets (c ∷ cs)
    → (o : MergeOutcome) × (merged : List Value) × (merge_intersect (c ∷ cs) ≡ ok o)
      × (o.value ≡ arr (items_of merged))
      × Keeps merged (items c)
      × ((v : Value) → In v merged ↔ (In v (items c) × PermittedByAll v (c ∷ cs)))
      × ((l : Value × SourceRef)
          → In l o.overridden ↔ Rejected (λ d. same_set (items d) merged) (c ∷ cs) l)
unfolding merge_intersect intersect_outcome
merge_intersect-Common c cs ((l, a), h) =
    let common = meets (items c) cs in
    let p = λ (v : Value). member v common in
    let merged = keep p (items c) in
    let lost = rejected (λ d. same_set (items d) merged) (c ∷ cs) in
    (
      intersect_outcome (c ∷ cs) merged lost,
      merged,
      rw (
        as_set-items c (l, a),
        common_items-meets (items c) cs h,
        as_sequence-items c l,
        dropped-rejected merged (c ∷ cs) ((l, a), h),
      ),
      refl,
      keep-Keeps p (items c),
      λ v. (
        λ i. let (j, m) = In-keep→ p (items c) v i in (j, (member-meets v (items c) cs).0 m),
        λ (j, m). In-keep← p (items c) v j ((member-meets v (items c) cs).1 m),
      ),
      rejected_iff (λ d. same_set (items d) merged) (c ∷ cs),
    )
