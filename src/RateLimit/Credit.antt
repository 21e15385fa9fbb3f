-- ===== src/RateLimit/Credit.antt =====
-- How often the limiter of app/security/ratelimit.py lets one caller through.
use native.Mathlib.Nat.{mul-le-mul_right, add-mul, zero-mul}
use tak_mdm.Base.{
  ℕ, suc, ◌+◌, ◌-◌, ◌*◌, ◌≤◌, ◌<◌, String, Bool, true, false, ◌≡◌, refl, sym, ap, ◌∙◌, subst,
  Option, none, some, List, [], ◌∷◌, length, All, arith, Bool-cases, Option-cases, if◌then◌else◌,
  ltb, leb, ◌&&◌, inl, inr,
}
use tak_mdm.Base.Text.{text_eq_iff}
use tak_mdm.RateLimit.{
  Limit, Bucket, Buckets, token, sweep_at, same_caller, find, store, refill, Answer, allowed,
  rate_limited, spend, check,
}

pub record Call : Type 0 where
  pub now : ℕ
  pub scope : String
  pub key : String
  pub limit : Limit

abbrev pub caller : Call → String × String
caller c = (c.scope, c.key)

abbrev pub answer : Call → Buckets → Answer × Buckets
answer c l = check c.now c.scope c.key c.limit l

abbrev pub is_allowed : Answer → Bool
is_allowed allowed = true
is_allowed (rate_limited n) = false

-- How many of a sequence of calls, of any callers, let caller `k` through.
abbrev pub times_allowed : String × String → List Call → Buckets → ℕ
times_allowed k [] l = 0
times_allowed k (c ∷ cs) l =
    let rest = times_allowed k cs (answer c l).1 in
    if same_caller (caller c) k && is_allowed (answer c l).0 then suc rest else rest

-- The clock does not run backwards from `from` on, and has not passed `until` at the end.
abbrev pub InOrder : ℕ → List Call → ℕ → Type 0
InOrder start [] until = start ≤ until
InOrder start (c ∷ cs) until = (start ≤ c.now) × InOrder c.now cs until

-- The caller's calls all name this limit.
abbrev pub HasLimit : String × String → Limit → Call → Type 0
HasLimit k limit c = same_caller (caller c) k ≡ true → c.limit ≡ limit

pub same_caller→eq : (a b : String × String) → same_caller a b ≡ true → a ≡ b
same_caller→eq (s, t) (u, v) h =
    let e = (text_eq_iff s u).0 (ground arith) in
    let f = (text_eq_iff t v).0 (ground arith) in ap (λ x. (x, t)) e ∙ ap (λ y. (u, y)) f

no_both : {b : Bool} → b ≡ true → b ≡ false → ⊥
no_both e f = cc

pub find-store :
    (j k : String × String) (b : Bucket) (l : Buckets)
    → find k (store j b l) ≡ (if same_caller j k then some b else find k l)
unfolding find store
find-store j k b [] = refl
find-store j k b ((i, a) ∷ l) = elim (Bool-cases (same_caller i j)) [
  | inl e ↦
      let same = ap (λ x. same_caller x k) (same_caller→eq i j e) in
      rw (e, same) (elim (Bool-cases (same_caller j k)) [ inl f ↦ rw f refl | inr f ↦ rw f refl ])
  | inr e ↦ rw e (elim (Bool-cases (same_caller i k)) [
    | inl f ↦ rw f (elim (Bool-cases (same_caller j k)) [
      | inl g ↦ absurd (no_both f (subst (λ x. same_caller i x ≡ false) (same_caller→eq j k g) e))
      | inr g ↦ rw g refl
    ])
    | inr f ↦ rw f (find-store j k b l)
  ])
]

-- What the caller has to spend at a time.
abbrev credit : String × String → Limit → Buckets → ℕ → ℕ
credit k limit l now = (refill now limit (find k l)).tokens

wait_split : (x now later : ℕ) → now ≤ later → later - x ≤ now - x + (later - now)
wait_split x now later h = omega arith

credit_grows :
    (k : String × String) (limit : Limit) (l : Buckets) (now later : ℕ)
    → now ≤ later
    → credit k limit l later ≤ credit k limit l now + (later - now) * limit.per_minute
unfolding refill
credit_grows k limit l now later h = elim (Option-cases (find k l)) [
  | inl n ↦ rw (credit, n) (omega arith)
  | inr (b, n) ↦
      let shorter = mul-le-mul_right limit.per_minute (wait_split b.touched now later h) in
      let split = add-mul (now - b.touched) (later - now) limit.per_minute in
      rw (credit, n) (omega (arith, shorter, split))
]

spans : (a b c : ℕ) → a ≤ b → b ≤ c → b - a + (c - b) ≤ c - a
spans a b c h k = omega arith

latest : (cs : List Call) (start until : ℕ) → InOrder start cs until → start ≤ until
latest [] start until h = h
latest (c ∷ cs) start until (h, order) = omega (arith, h, latest cs c.now until order)

-- A call that is let through costs its caller a token, any other call costs nobody anything.
abbrev paid : Bool → ℕ
paid true = token
paid false = 0

paid-spend :
    (limit : Limit) (b : Bucket)
    → paid (is_allowed (spend limit b).0) + (spend limit b).1.tokens ≤ b.tokens
unfolding spend
paid-spend limit b = elim (Bool-cases (ltb b.tokens token)) [
  | inl e ↦ rw e (omega arith)
  | inr e ↦ rw e (ground arith)
]

pub spend_touched : (limit : Limit) (b : Bucket) → (spend limit b).1.touched ≡ b.touched
unfolding spend
spend_touched limit b = elim (Bool-cases (ltb b.tokens token)) [
  | inl e ↦ rw e refl
  | inr e ↦ rw e refl
]

pub subtract_self : (n : ℕ) → n - n ≡ 0
subtract_self n = omega arith

pub credit_of_fresh :
    (now : ℕ) (limit : Limit) (b : Bucket)
    → b.touched ≡ now
    → (refill now limit (some b)).tokens ≤ b.tokens
unfolding refill
credit_of_fresh now limit b h = rw h (grind (arith, subtract_self now, zero-mul limit.per_minute))

pub refill_touched :
    (now : ℕ) (limit : Limit) (o : Option Bucket) → (refill now limit o).touched ≡ now
unfolding refill
refill_touched now limit none = refl
refill_touched now limit (some b) = refl

pub length-store :
    (k : String × String) (b : Bucket) (l : Buckets) → length (store k b l) ≤ suc (length l)
unfolding store
length-store k b [] = omega arith
length-store k b ((j, a) ∷ l) = ground (arith, length-store k b l)

-- While the table is small a call sweeps nothing.
pub check_small :
    (c : Call) (l : Buckets)
    → length l < sweep_at
    → answer c l ≡ (
      (spend c.limit (refill c.now c.limit (find (caller c) l))).0,
      store (caller c) (spend c.limit (refill c.now c.limit (find (caller c) l))).1 l,
    )
unfolding check
check_small c l h = elim (Bool-cases (leb sweep_at (length l))) [
  | inl e ↦ absurd (ground arith)
  | inr e ↦ rw e refl
]

-- The bucket of caller `j` with limit `m` as a call leaves it.
abbrev answered : ℕ → Limit → String × String → Buckets → Answer × Bucket
answered now m j l = spend m (refill now m (find j l))

own_paid :
    (now : ℕ) (m : Limit) (j : String × String) (l : Buckets)
    → paid (is_allowed (answered now m j l).0) + (refill now m (some (answered now m j l).1)).tokens
      ≤ (refill now m (find j l)).tokens
own_paid now m j l =
    let b = refill now m (find j l) in
    let fresh =
      credit_of_fresh now m (spend m b).1 (spend_touched m b ∙ refill_touched now m (find j l)) in
    omega (arith, fresh, paid-spend m b)

paid-store :
    (now : ℕ) (m limit : Limit) (j k : String × String) (l : Buckets)
    → (same_caller j k ≡ true → m ≡ limit)
    → paid (same_caller j k && is_allowed (answered now m j l).0)
        + credit k limit (store j (answered now m j l).1 l) now
      ≤ credit k limit l now
paid-store now m limit j k l has = elim (Bool-cases (same_caller j k)) [
  | inl e ↦
      rw (credit, find-store j k (answered now m j l).1 l, e)
        (subst
          (λ x.
            paid (is_allowed (answered now m j l).0)
              + (refill now x (some (answered now m j l).1)).tokens
            ≤ (refill now x (find k l)).tokens)
          (has e)
          (subst
            (λ x.
              paid (is_allowed (answered now m j l).0)
                + (refill now m (some (answered now m j l).1)).tokens
              ≤ (refill now m (find x l)).tokens)
            (same_caller→eq j k e) (own_paid now m j l)))
  | inr e ↦ rw (credit, find-store j k (answered now m j l).1 l, e) (omega arith)
]

-- One call: what the caller is charged and what it has left is no more than it had.
call_paid :
    (k : String × String) (limit : Limit) (c : Call) (l : Buckets)
    → length l < sweep_at
    → HasLimit k limit c
    → paid (same_caller (caller c) k && is_allowed (answer c l).0)
        + credit k limit (answer c l).1 c.now
      ≤ credit k limit l c.now
call_paid k limit c l small has =
    subst
      (λ a.
        paid (same_caller (caller c) k && is_allowed a.0) + credit k limit a.1 c.now
        ≤ credit k limit l c.now)
      (sym (check_small c l small)) (paid-store c.now c.limit limit (caller c) k l has)

pub call_length :
    (c : Call) (l : Buckets) → length l < sweep_at → length (answer c l).1 ≤ suc (length l)
call_length c l small =
    subst (λ a. length a.1 ≤ suc (length l)) (sym (check_small c l small))
      (length-store (caller c) _ l)

paid_step : (b : Bool) (rest : ℕ) → (if b then suc rest else rest) * token ≡ paid b + rest * token
unfolding token
paid_step true rest = omega arith
paid_step false rest = omega arith

times_allowed-credit :
    (k : String × String) (limit : Limit) (cs : List Call) (l : Buckets) (start until : ℕ)
    → length l + length cs ≤ sweep_at
    → InOrder start cs until
    → All (HasLimit k limit) cs
    → times_allowed k cs l * token ≤ credit k limit l start + (until - start) * limit.per_minute
times_allowed-credit k limit [] l start until small order has = omega (arith, zero-mul token)
times_allowed-credit k limit (c ∷ cs) l start until small (o, order) (h, has) =
    let here = call_paid k limit c l (omega arith) h in
    let grown = call_length c l (omega arith) in
    let rest =
      times_allowed-credit k limit cs (answer c l).1 c.now until (omega (arith, grown, small)) order
        has in
    let before = credit_grows k limit l start c.now o in
    let split = add-mul (c.now - start) (until - c.now) limit.per_minute in
    let whole =
      mul-le-mul_right limit.per_minute (spans start c.now until o (latest cs c.now until order)) in
    subst (λ n. n ≤ credit k limit l start + (until - start) * limit.per_minute)
      (sym (
        paid_step (same_caller (caller c) k && is_allowed (answer c l).0)
          (times_allowed k cs (answer c l).1)))
      (omega (arith, here, rest, before, split, whole))

credit_capped :
    (now : ℕ) (limit : Limit) (o : Option Bucket)
    → (refill now limit o).tokens ≤ limit.burst * token
unfolding refill
credit_capped now limit none = omega arith
credit_capped now limit (some b) = omega arith

-- Over any sequence of calls of any callers, in the order of the clock, one caller is let through
-- at most as often as its burst and its rate over the time that passed allow, whatever the table
-- held before, if the caller's calls all name one limit and the table is too small to be swept.
pub times_allowed-bound :
    (k : String × String) (limit : Limit) (cs : List Call) (l : Buckets) (start until : ℕ)
    → length l + length cs ≤ sweep_at
    → InOrder start cs until
    → All (HasLimit k limit) cs
    → times_allowed k cs l * token ≤ limit.burst * token + (until - start) * limit.per_minute
times_allowed-bound k limit cs l start until small order has = omega (
  arith,
  times_allowed-credit k limit cs l start until small order has,
  credit_capped start limit (find k l),
)
