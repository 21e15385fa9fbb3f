-- ===== src/Tests/Limiting.antt =====
-- The theorems on app/security/ratelimit.py, at concrete calls.
use tak_mdm.Base.{length, ℕ, ◌+◌, ◌-◌, ◌*◌, ◌≤◌, ◌≡◌, refl, [], ◌∷◌, arith}
use tak_mdm.RateLimit.{
  Buckets, token, enrollment_limit, allowed, check, find, store, refill, spend, retry_after, sweep,
  sweep_at, table_keep,
}
use tak_mdm.RateLimit.Distinct.{DistinctCallers}
use tak_mdm.RateLimit.Size.{check-bounded}
use tak_mdm.RateLimit.Credit.{Call, answer, times_allowed, times_allowed-bound}
use tak_mdm.RateLimit.Recovery.{check-recovers}

abbrev enrolling : ℕ → Call
enrolling now = record { now = now; scope = "enroll"; key = "token"; limit = enrollment_limit }

times_allowed-bound_example :
    times_allowed ("enroll", "token") (enrolling 5 ∷ enrolling 9 ∷ []) [] * token
    ≤ enrollment_limit.burst * token + (20 - 0) * enrollment_limit.per_minute
times_allowed-bound_example =
    times_allowed-bound ("enroll", "token") enrollment_limit (enrolling 5 ∷ enrolling 9 ∷ []) [] 0
      20 (omega arith) (omega arith, (omega arith, omega arith)) ((λ e. refl), ((λ e. refl), tt))

-- A caller that has spent its burst.
abbrev spent : Buckets
spent = (("enroll", "token"), record { tokens = 0; touched = 5 }) ∷ []

check-recovers_example : (answer (enrolling 2001005) (answer (enrolling 5) spent).1).0 ≡ allowed
unfolding check find store refill spend retry_after token
check-recovers_example =
    check-recovers (enrolling 5) spent 1 2001005 (omega arith) (omega arith) (omega arith) refl
      (omega arith)

check-bounded_example :
    (DistinctCallers (check 9 "enroll" "other" enrollment_limit spent).1
      × (length (check 9 "enroll" "other" enrollment_limit spent).1 ≤ sweep_at))
    × (length (sweep 9 spent) ≤ table_keep)
unfolding find
check-bounded_example =
    check-bounded 9 "enroll" "other" enrollment_limit spent (refl, tt) (omega arith)
