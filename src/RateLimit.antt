-- ===== src/RateLimit.antt =====
-- app/security/ratelimit.py: token buckets keyed by caller. The clock is an argument. Where the
-- code counts seconds and tokens in floating point, the model counts exactly: times in
-- microseconds and tokens in units of which a caller with the rate 1 per minute earns one in a
-- microsecond. `_lock` makes each call one step.
pub mod Credit
pub mod Recovery
pub mod Distinct
pub mod Size
use tak_mdm.Base.{
  ℕ, suc, ◌+◌, ◌-◌, ◌*◌, ◌/◌, min, max, String, Bool, true, false, Option, none, some, List, [],
  ◌∷◌, map, keep, take, length, if◌then◌else◌, ltb, leb, ◌&&◌, not,
}
use tak_mdm.Base.Text.{text_eq}

pub record Limit : Type 0 where
  pub per_minute : ℕ
  pub burst : ℕ

pub record Bucket : Type 0 where
  pub tokens : ℕ
  pub touched : ℕ

-- `self._buckets`, in the order of insertion
abbrev pub Buckets : Type 0
Buckets = List ((String × String) × Bucket)

-- one token in units, one second in microseconds, and the constants of the module
unfoldable pub token : ℕ
token = 60000000

abbrev pub second : ℕ
second = 1000000

abbrev pub idle_seconds : ℕ
idle_seconds = 900

abbrev pub sweep_at : ℕ
sweep_at = 4096

abbrev pub table_keep : ℕ
table_keep = 3072

abbrev pub device_limit : Limit
device_limit = record { per_minute = 300; burst = 60 }

abbrev pub enrollment_limit : Limit
enrollment_limit = record { per_minute = 60; burst = 20 }

abbrev pub same_caller : String × String → String × String → Bool
same_caller a b = text_eq a.0 b.0 && text_eq a.1 b.1

unfoldable pub find : String × String → Buckets → Option Bucket
find k [] = none
find k ((j, b) ∷ l) = if same_caller j k then some b else find k l

unfoldable pub store : String × String → Bucket → Buckets → Buckets
store k b [] = (k, b) ∷ []
store k b ((j, a) ∷ l) = if same_caller j k then (j, b) ∷ l else (j, a) ∷ store k b l

-- `del self._buckets[identity]`
unfoldable pub delete : String × String → Buckets → Buckets
delete k [] = []
delete k ((j, b) ∷ l) = if same_caller j k then l else (j, b) ∷ delete k l

unfoldable pub delete_all : List (String × String) → Buckets → Buckets
unfolding delete
delete_all [] l = l
delete_all (k ∷ ks) l = delete_all ks (delete k l)

-- `sorted(..., key=touched)`
unfoldable pub place_touched : (String × String) × Bucket → Buckets → Buckets
place_touched e [] = e ∷ []
place_touched e (d ∷ l) = if ltb d.1.touched e.1.touched then d ∷ place_touched e l else e ∷ d ∷ l

unfoldable pub order_touched : Buckets → Buckets
unfolding place_touched
order_touched [] = []
order_touched (e ∷ l) = place_touched e (order_touched l)

unfoldable pub is_idle : ℕ → Bucket → Bool
is_idle now b = ltb (idle_seconds * second) (now - b.touched)

unfoldable pub sweep : ℕ → Buckets → Buckets
unfolding is_idle delete_all order_touched
sweep now l =
    let stale = map (λ e. e.0) (keep (λ e. is_idle now e.1) l) in
    let recent = delete_all stale l in
    if leb (length recent) table_keep
    then recent
    else delete_all (map (λ e. e.0) (take (length recent - table_keep) (order_touched recent)))
        recent

-- The bucket when its caller asks: a new one is full.
unfoldable pub refill : ℕ → Limit → Option Bucket → Bucket
unfolding token
refill now limit none = record { tokens = limit.burst * token; touched = now }
refill now limit (some b) = record {
  tokens = min (limit.burst * token) (b.tokens + (now - b.touched) * limit.per_minute);
  touched = now;
}

-- `max(1, int(retry_after + 0.999))`, of the seconds until `needed` units are there
unfoldable pub retry_after : ℕ → Limit → ℕ
retry_after needed limit =
    max 1
      ((1000 * needed + 999 * (second * limit.per_minute)) / (1000 * (second * limit.per_minute)))

-- `RateLimited` carries the seconds to wait.
pub data Answer : Type 0 where
  allowed : Answer
  rate_limited : ℕ → Answer

unfoldable pub spend : Limit → Bucket → Answer × Bucket
unfolding token retry_after
spend limit b =
    if ltb b.tokens token
    then (rate_limited (retry_after (token - b.tokens) limit), b)
    else (allowed, record b { tokens = b.tokens - token })

unfoldable pub check : ℕ → String → String → Limit → Buckets → Answer × Buckets
unfolding sweep find store refill spend
check now scope key limit l =
    let table = if leb sweep_at (length l) then sweep now l else l in
    let answer = spend limit (refill now limit (find (scope, key) table)) in
    (answer.0, store (scope, key) answer.1 table)

-- `reset` and `tracked`
unfoldable pub reset : Buckets → Buckets
reset l = []

unfoldable pub tracked : Buckets → ℕ
tracked l = length l
