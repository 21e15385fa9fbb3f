-- ===== src/Commands/Soundness.antt =====
-- The columns of a row of app/services/commands.py agree with its status.
use tak_mdm.Base.{
  ℕ, ◌≤◌, ◌<◌, String, Bool, true, false, ◌≡◌, ◌≢◌, refl, sym, subst, none, some, List, [], ◌∷◌, In,
  arith, Bool-cases, not, ◌&&◌, inl, inr,
}
use tak_mdm.Base.Text.{text_eq}
use tak_mdm.Commands.{
  CommandStatus, pending, dispatched, succeeded, failed, expired, DeviceCommand, Queue, is_open,
  is_live, is_selected, new_command, expire_one, claim_one, Report, is_row_of, record_one,
  cancel_one,
}
use tak_mdm.Commands.Rows.{record_all}
use tak_mdm.Commands.History.{
  Operation, enqueuing, expiring, claiming, recording, cancelling, after, after_all, row_after,
  row_from, Added,
}

-- How far a row has come, with the columns that each status leaves set.
abbrev pub Progress : CommandStatus → DeviceCommand → Type 0
Progress pending c = (c.attempts ≡ 0) × (c.dispatched_at ≡ none) × (c.completed_at ≡ none)
Progress dispatched c = (1 ≤ c.attempts) × (c.dispatched_at ≢ none) × (c.completed_at ≡ none)
Progress succeeded c = c.completed_at ≢ none
Progress failed c = c.completed_at ≢ none
Progress expired c = c.completed_at ≢ none

abbrev pub IsSound : DeviceCommand → Type 0
IsSound c = (c.attempts ≤ c.max_attempts) × Progress c.status c

open_uncompleted :
    (s : CommandStatus) (c : DeviceCommand)
    → is_open s ≡ true
    → Progress s c
    → c.completed_at ≡ none
unfolding is_open
open_uncompleted pending c h (a, b, e) = e
open_uncompleted dispatched c h (a, b, e) = e
open_uncompleted succeeded c h p = absurd (cc)
open_uncompleted failed c h p = absurd (cc)
open_uncompleted expired c h p = absurd (cc)

some_set : {A : Type 0} (a : A) → some a ≢ none
some_set a h = cc

&&-true : (a b : Bool) → (a && b) ≡ true → (a ≡ true) × (b ≡ true)
&&-true true b h = (refl, h)
&&-true false b h = absurd (cc)

live_attempts : (now : ℕ) (c : DeviceCommand) → is_live now c ≡ true → c.attempts < c.max_attempts
unfolding is_live
live_attempts now c h = ground arith

expire_one-IsSound :
    (now : ℕ) (d : String) (c : DeviceCommand) → IsSound c → IsSound (expire_one now d c)
unfolding expire_one
expire_one-IsSound now d c (a, p) = elim (Bool-cases (is_selected d c && not (is_live now c))) [
  | inl e ↦ rw (e, IsSound) ((a, some_set now))
  | inr e ↦ rw (e, IsSound) ((a, p))
]

claim_one-IsSound :
    (now : ℕ) (d : String) (c : DeviceCommand) → IsSound c → IsSound (claim_one now d c)
unfolding claim_one is_selected
claim_one-IsSound now d c (a, p) = elim (Bool-cases (is_selected d c && is_live now c)) [
  | inl e ↦
      let (f, g) = &&-true (is_selected d c) _ e in
      let (h, k) = &&-true (text_eq c.device_id d) _ f in
      rw (e, IsSound)
        ((live_attempts now c g, (omega arith, some_set now, open_uncompleted c.status c k p)))
  | inr e ↦ rw (e, IsSound) ((a, p))
]

record_one-IsSound :
    (now : ℕ) (d : String) (r : Report) (c : DeviceCommand)
    → IsSound c
    → IsSound (record_one now d r c)
unfolding record_one
record_one-IsSound now d r c (a, p) =
    elim (Bool-cases (is_row_of d r.command_id c && is_open c.status)) [
      | inl e ↦ elim (Bool-cases r.succeeded_flag) [
        | inl f ↦ rw (e, f, IsSound) ((a, some_set now))
        | inr f ↦ rw (e, f, IsSound) ((a, some_set now))
      ]
      | inr e ↦ rw (e, IsSound) ((a, p))
    ]

record_all-IsSound :
    (now : ℕ) (d : String) (rs : List Report) (c : DeviceCommand)
    → IsSound c
    → IsSound (record_all now d rs c)
record_all-IsSound now d [] c s = s
record_all-IsSound now d (r ∷ rs) c s =
    record_all-IsSound now d rs (record_one now d r c) (record_one-IsSound now d r c s)

cancel_one-IsSound :
    (now : ℕ) (id : String) (c : DeviceCommand) → IsSound c → IsSound (cancel_one now id c)
unfolding cancel_one
cancel_one-IsSound now id c (a, p) = elim (Bool-cases (text_eq c.id id && is_open c.status)) [
  | inl e ↦ rw (e, IsSound) ((a, some_set now))
  | inr e ↦ rw (e, IsSound) ((a, p))
]

row_after-IsSound : (o : Operation) (c : DeviceCommand) → IsSound c → IsSound (row_after o c)
row_after-IsSound (enqueuing now id d t params ttl m) c s = s
row_after-IsSound (expiring now d) c s = expire_one-IsSound now d c s
row_after-IsSound (claiming expire_now now d) c s =
    claim_one-IsSound now d _ (expire_one-IsSound expire_now d c s)
row_after-IsSound (recording now d rs) c s = record_all-IsSound now d rs c s
row_after-IsSound (cancelling now id) c s = cancel_one-IsSound now id c s

Added-IsSound : (c : DeviceCommand) → Added c → IsSound c
unfolding new_command
Added-IsSound c (now, id, d, t, params, ttl, m, e) =
    subst IsSound (sym e) ((omega arith, (refl, refl, refl)))

-- If every row is sound, then after any sequence of calls every row is: no row has more attempts
-- than its maximum, a pending row was never handed out, a dispatched row was handed out at least
-- once, and the completion time is set on the finished rows and on no other.
pub after_all-IsSound :
    (os : List Operation) (q : Queue)
    → ((c : DeviceCommand) → In c q.commands → IsSound c)
    → (c : DeviceCommand) → In c (after_all os q).commands
    → IsSound c
unfolding after_all
after_all-IsSound [] q s c i = s c i
after_all-IsSound (o ∷ os) q s c i =
    after_all-IsSound os (after o q)
      (λ c i. elim (row_from o q c i) [
        | inl (b, j, e) ↦ subst IsSound (sym e) (row_after-IsSound o b (s b j))
        | inr a ↦ Added-IsSound c a
      ])
      c i
