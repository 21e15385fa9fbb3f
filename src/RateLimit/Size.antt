-- ===== src/RateLimit/Size.antt =====
-- How many callers the limiter of app/security/ratelimit.py tracks.
use tak_mdm.Base.{
  ℕ, zero, suc, ◌-◌, ◌≤◌, ◌<◌, String, true, false, ◌≡◌, ◌≢◌, refl, sym, ap, ◌∙◌, subst, none, some,
  [], ◌∷◌, map, keep, take, length, arith, Bool-cases, if◌then◌else◌, ltb, leb, inl, inr,
}
use tak_mdm.RateLimit.{
  Limit, Bucket, Buckets, sweep_at, table_keep, same_caller, find, delete_all, place_touched,
  order_touched, is_idle, sweep, check,
}
use tak_mdm.RateLimit.Credit.{same_caller→eq, length-store}
use tak_mdm.RateLimit.Recovery.{same_caller_refl}
use tak_mdm.RateLimit.Distinct.{
  DistinctCallers, same_caller-sym, store-DistinctCallers, AllFound, length-delete_all,
  delete_all-DistinctCallers,
}

-- The oldest entries, and the sorted ones, are entries of the table.
find-take : (k : String × String) (n : ℕ) (l : Buckets) → find k l ≡ none → find k (take n l) ≡ none
unfolding find
find-take k zero l h = refl
find-take k (suc n) [] h = refl
find-take k (suc n) ((j, b) ∷ l) h = ground (arith, find-take k n l)

take-DistinctCallers : (n : ℕ) (l : Buckets) → DistinctCallers l → DistinctCallers (take n l)
take-DistinctCallers zero l d = tt
take-DistinctCallers (suc n) [] d = tt
take-DistinctCallers (suc n) ((k, b) ∷ l) (h, d) = (find-take k n l h, take-DistinctCallers n l d)

take-AllFound : (n : ℕ) (m l : Buckets) → AllFound m l → AllFound (take n m) l
take-AllFound zero m l f = tt
take-AllFound (suc n) [] l f = tt
take-AllFound (suc n) ((k, b) ∷ m) l (h, f) = (h, take-AllFound n m l f)

length-take : (n : ℕ) (l : Buckets) → n ≤ length l → length (take n l) ≡ n
length-take zero l h = refl
length-take (suc n) [] h = omega arith
length-take (suc n) (e ∷ l) h = omega (arith, length-take n l (omega arith))

find-place_touched :
    (j k : String × String) (b : Bucket) (l : Buckets)
    → find k l ≡ none
    → find j (place_touched (k, b) l) ≡ find j ((k, b) ∷ l)
unfolding find place_touched
find-place_touched j k b [] h = refl
find-place_touched j k b ((i, a) ∷ l) h = elim (Bool-cases (ltb a.touched b.touched)) [
  | inr e ↦ rw e refl
  | inl e ↦ rw e (elim (Bool-cases (same_caller i k)) [
    | inl f ↦ absurd (set_none (rw f at h))
    | inr f ↦ elim (Bool-cases (same_caller i j)) [
      | inl g ↦ rw (g, apart f g) refl
      | inr g ↦ rw g (find-place_touched j k b l (rw f at h))
    ]
  ])
]
  where
    set_none : {a : Bucket} → some a ≡ none → ⊥
    set_none p = cc

    apart : same_caller i k ≡ false → same_caller i j ≡ true → same_caller k j ≡ false
    apart f g = same_caller-sym k j ∙ ap (λ x. same_caller x k) (sym (same_caller→eq i j g)) ∙ f

place_touched-DistinctCallers :
    (k : String × String) (b : Bucket) (l : Buckets)
    → find k l ≡ none
    → DistinctCallers l
    → DistinctCallers (place_touched (k, b) l)
unfolding find place_touched
place_touched-DistinctCallers k b [] h d = (refl, tt)
place_touched-DistinctCallers k b ((i, a) ∷ l) h (n, d) =
    elim (Bool-cases (ltb a.touched b.touched)) [
      | inr e ↦ rw (e, DistinctCallers) ((h, (n, d)))
      | inl e ↦ elim (Bool-cases (same_caller i k)) [
        | inl f ↦ absurd (set_none (rw f at h))
        | inr f ↦
            rw (e, DistinctCallers)
              ((
                find-place_touched i k b l (rw f at h) ∙ rw (same_caller-sym k i, f) n,
                place_touched-DistinctCallers k b l (rw f at h) d,
              ))
      ]
    ]
  where
    set_none : {a : Bucket} → some a ≡ none → ⊥
    set_none p = cc

order_touched-found :
    (l : Buckets)
    → DistinctCallers l
    → DistinctCallers (order_touched l)
      × ((j : String × String) → find j (order_touched l) ≡ find j l)
unfolding order_touched find
order_touched-found [] d = (tt, λ j. refl)
order_touched-found ((k, b) ∷ l) (n, d) =
    let (distinct, found) = order_touched-found l d in
    let absent = found k ∙ n in
    (
      place_touched-DistinctCallers k b (order_touched l) absent distinct,
      λ j.
          find-place_touched j k b (order_touched l) absent
          ∙ ap (λ x. if same_caller k j then some b else x) (found j),
    )

length-place_touched :
    (e : (String × String) × Bucket) (l : Buckets) → length (place_touched e l) ≡ suc (length l)
unfolding place_touched
length-place_touched e [] = refl
length-place_touched e (d ∷ l) = ground (arith, length-place_touched e l)

length-order_touched : (l : Buckets) → length (order_touched l) ≡ length l
unfolding order_touched
length-order_touched [] = refl
length-order_touched (e ∷ l) =
    length-place_touched e (order_touched l) ∙ ap suc (length-order_touched l)

found_of_all :
    (m l : Buckets) → ((j : String × String) → find j m ≢ none → find j l ≢ none) → AllFound m l
unfolding find
found_of_all [] l h = tt
found_of_all ((k, b) ∷ m) l h = (
  h k (rw (same_caller_refl k) (λ p. set_none p)),
  found_of_all m l (λ j n.
      h j
        (elim (Bool-cases (same_caller k j)) [ inl e ↦ rw e (λ p. set_none p) | inr e ↦ rw e n ])),
)
  where
    set_none : {a : Bucket} → some a ≡ none → ⊥
    set_none p = cc

order_touched-AllFound : (l : Buckets) → DistinctCallers l → AllFound (order_touched l) l
order_touched-AllFound l d =
    found_of_all (order_touched l) l (λ j n p. n ((order_touched-found l d).1 j ∙ p))

-- Deleting the oldest entries beyond `table_keep` leaves that many.
evicted-length :
    (l : Buckets)
    → DistinctCallers l
    → table_keep ≤ length l
    → length (delete_all (map (λ e. e.0) (take (length l - table_keep) (order_touched l))) l)
      ≡ table_keep
evicted-length l d h =
    let n = length l - table_keep in
    let oldest = take n (order_touched l) in
    let counted =
      length-delete_all oldest l
        (take-DistinctCallers n (order_touched l) (order_touched-found l d).0)
        (take-AllFound n (order_touched l) l (order_touched-AllFound l d)) in
    let taken : length oldest ≡ n =
      length-take n (order_touched l) (omega (arith, length-order_touched l)) in
    omega (arith, counted, taken)

sweep-bounded :
    (now : ℕ) (l : Buckets)
    → DistinctCallers l
    → DistinctCallers (sweep now l) × (length (sweep now l) ≤ table_keep)
unfolding sweep
sweep-bounded now l d =
    let stale = map (λ (e : (String × String) × Bucket). e.0) (keep (λ e. is_idle now e.1) l) in
    let recent = delete_all stale l in
    let distinct = delete_all-DistinctCallers stale l d in
    let oldest = take (length recent - table_keep) (order_touched recent) in
    elim (Bool-cases (leb (length recent) table_keep)) [
      | inl e ↦ rw e ((distinct, ground arith))
      | inr e ↦ rw e (
          (
            delete_all-DistinctCallers (map (λ (e : (String × String) × Bucket). e.0) oldest) recent
                distinct,
            subst (λ n. n ≤ table_keep) (sym (evicted-length recent distinct (ground arith)))
                (omega arith),
          ))
    ]

-- If the table holds each caller once and at most `SWEEP_AT` callers, then it does so after
-- `check`, for whatever caller, time and limit, and a sweep leaves at most `KEEP` callers in it.
pub check-bounded :
    (now : ℕ) (scope key : String) (limit : Limit) (l : Buckets)
    → DistinctCallers l
    → length l ≤ sweep_at
    → (DistinctCallers (check now scope key limit l).1
        × (length (check now scope key limit l).1 ≤ sweep_at))
      × (length (sweep now l) ≤ table_keep)
unfolding check
check-bounded now scope key limit l d h =
    let (swept, few) = sweep-bounded now l d in
    (
      elim (Bool-cases (leb sweep_at (length l))) [
        | inl e ↦ rw e (
            (
              store-DistinctCallers (scope, key) _ (sweep now l) swept,
              within (length-store (scope, key) _ (sweep now l)) (omega (arith, few)),
            ))
        | inr e ↦ rw e (
            (
              store-DistinctCallers (scope, key) _ l d,
              within (length-store (scope, key) _ l) (ground arith),
            ))
      ],
      few,
    )
  where
    within : {a b : ℕ} → a ≤ suc b → b < sweep_at → a ≤ sweep_at
    within p q = omega (arith, p, q)
