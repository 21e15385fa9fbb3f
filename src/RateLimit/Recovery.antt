-- ===== src/RateLimit/Recovery.antt =====
-- A caller that app/security/ratelimit.py refused, and the time it is told to wait.
use native.Mathlib.Nat.{mul-le-mul_right, lt-div-mul-add}
use tak_mdm.Base.{
  ℕ, ◌+◌, ◌-◌, ◌*◌, ◌≤◌, ◌<◌, max, String, true, ◌≡◌, refl, sym, ap, ◌∙◌, some, length, arith,
  Bool-cases, ltb, inl, inr,
}
use tak_mdm.RateLimit.{
  Limit, Bucket, Buckets, token, second, sweep_at, same_caller, find, store, refill, allowed,
  rate_limited, retry_after, spend,
}
use tak_mdm.Base.Text.{text_eq_refl}
use tak_mdm.RateLimit.Credit.{
  Call, caller, answer, find-store, check_small, call_length, refill_touched,
}

rounds :
    (n p q r : ℕ)
    → 1000 * n + 999 * (1000000 * p) < q * (1000 * (1000000 * p)) + 1000 * (1000000 * p)
    → q ≤ r
    → n ≤ (r * 1000000 + 1000) * p
rounds n p q r h k = omega (arith, mul-le-mul_right p k)

max-right : (a b : ℕ) → b ≤ max a b
max-right a b = omega arith

-- Rounding to whole seconds falls short by less than a millisecond.
retry_after-enough :
    (needed : ℕ) (limit : Limit)
    → 1 ≤ limit.per_minute
    → needed ≤ (retry_after needed limit * second + 1000) * limit.per_minute
unfolding retry_after
retry_after-enough needed limit h =
    rounds needed limit.per_minute _ _
      (lt-div-mul-add {a = 1000 * needed + 999 * (1000000 * limit.per_minute)}
        {b = 1000 * (1000000 * limit.per_minute)} (omega arith))
      (max-right 1 _)

limited_injective : {a b : ℕ} → rate_limited a ≡ rate_limited b → a ≡ b
limited_injective h = cc

allowed_limited : (n : ℕ) → allowed ≡ rate_limited n → ⊥
allowed_limited n h = cc

-- A refused caller has less than a token, and is told to wait for the rest.
spend_refused :
    (limit : Limit) (b : Bucket) (n : ℕ)
    → (spend limit b).0 ≡ rate_limited n
    → (b.tokens < token) × ((spend limit b).1 ≡ b) × (retry_after (token - b.tokens) limit ≡ n)
unfolding spend
spend_refused limit b n h = elim (Bool-cases (ltb b.tokens token)) [
  | inl e ↦ (ground arith, rw e refl, limited_injective (rw e at h))
  | inr e ↦ absurd (allowed_limited n (rw e at h))
]

spend_allowed : (limit : Limit) (b : Bucket) → token ≤ b.tokens → (spend limit b).0 ≡ allowed
unfolding spend
spend_allowed limit b h = ground arith

pub same_caller_refl : (k : String × String) → same_caller k k ≡ true
same_caller_refl (s, t) = rw (text_eq_refl s, text_eq_refl t) refl

-- A bucket that was refused at `now` has a token once the wait is over.
refill_waited :
    (now later : ℕ) (limit : Limit) (b : Bucket)
    → 1 ≤ limit.burst
    → 1 ≤ limit.per_minute
    → b.touched ≡ now
    → now + retry_after (token - b.tokens) limit * second + 1000 ≤ later
    → token ≤ (refill later limit (some b)).tokens
unfolding refill
refill_waited now later limit b full rate t h =
    let burst = mul-le-mul_right token full in
    let wait = retry_after (token - b.tokens) limit * second + 1000 in
    let earned =
      mul-le-mul_right {m = wait} {n = later - b.touched} limit.per_minute (omega (arith, t)) in
    omega (arith, burst, earned, retry_after-enough (token - b.tokens) limit rate)

-- A caller that `check` refuses is let through by its next call, if it waits the seconds that the
-- refusal names and a millisecond, its limit allows a call at all, and the table is too small to
-- be swept.
pub check-recovers :
    (c : Call) (l : Buckets) (seconds later : ℕ)
    → length l + 1 < sweep_at
    → 1 ≤ c.limit.burst
    → 1 ≤ c.limit.per_minute
    → (answer c l).0 ≡ rate_limited seconds
    → c.now + seconds * second + 1000 ≤ later
    → (answer (record c { now = later }) (answer c l).1).0 ≡ allowed
check-recovers c l seconds later small full rate refused wait =
    let b = refill c.now c.limit (find (caller c) l) in
    let first = check_small c l (omega arith) in
    let (poor, kept, told) =
      spend_refused c.limit b seconds (ap (λ a. a.0) (sym first) ∙ refused) in
    let table = ap (λ a. a.1) first ∙ ap (λ x. store (caller c) x l) kept in
    let still : length (answer c l).1 < sweep_at = omega (arith, call_length c l (omega arith)) in
    let held =
      ap (find (caller c)) table
      ∙ find-store (caller c) (caller c) b l
      ∙ rw (same_caller_refl (caller c)) refl in
    let rich =
      refill_waited c.now later c.limit b full rate
        (refill_touched c.now c.limit (find (caller c) l)) (rw told wait) in
    ap (λ a. a.0) (check_small (record c { now = later }) (answer c l).1 still)
    ∙ ap (λ o. (spend c.limit (refill later c.limit o)).0) held
    ∙ spend_allowed c.limit (refill later c.limit (some b)) rich
