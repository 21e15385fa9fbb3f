-- ===== src/Commands/History.antt =====
-- Any sequence of the operations of app/services/commands.py on the queue.
use tak_mdm.Base.{
  ℕ, String, false, ◌≡◌, ◌⊎◌, refl, sym, ap, ◌∙◌, subst, Option, none, some, List, [], ◌∷◌, ◌++◌,
  In, arith, Bool-cases, not, ◌&&◌, inl, inr,
}
use tak_mdm.Base.Membership.{In-append→, In-append←, In-map→, In-map←}
use tak_mdm.Json.{Fields}
use tak_mdm.Commands.{
  CommandType, DeviceCommand, Queue, is_open, needs_package_name, has_package_name, new_command,
  ttl_of, enqueue, expire_one, expire_stale, claim_one, claim_for_delivery, Report, record_results,
  cancel_one, cancel,
}
use tak_mdm.Commands.Rows.{
  record_all, record_results-rows, map-map, expire_one-finished, claim_one-finished,
  record_all-finished,
}

-- A call of one of the functions that write to the table.
pub data Operation : Type 0 where
  enqueuing : ℕ → String → String → CommandType → Fields → Option ℕ → ℕ → Operation
  expiring : ℕ → String → Operation
  claiming : ℕ → ℕ → String → Operation
  recording : ℕ → String → List Report → Operation
  cancelling : ℕ → String → Operation

-- The table after the call. A refused request leaves it.
unfoldable pub after : Operation → Queue → Queue
unfolding enqueue expire_stale claim_for_delivery record_results cancel
after (enqueuing now id d t params ttl m) q = elim (enqueue now id d t params ttl m q) [
  | none ↦ q
  | some (c, r) ↦ r
]
after (expiring now d) q = record q { commands = (expire_stale now d q.commands).1 }
after (claiming expire_now now d) q = record q {
  commands = (claim_for_delivery expire_now now d q.commands).1;
}
after (recording now d rs) q = record q { commands = (record_results now d rs q.commands).1 }
after (cancelling now id) q = record q { commands = cancel now id q.commands }

unfoldable pub after_all : List Operation → Queue → Queue
unfolding after
after_all [] q = q
after_all (o ∷ os) q = after_all os (after o q)

-- What a call does to a row, and the rows it adds.
abbrev pub row_after : Operation → DeviceCommand → DeviceCommand
row_after (enqueuing now id d t params ttl m) c = c
row_after (expiring now d) c = expire_one now d c
row_after (claiming expire_now now d) c = claim_one now d (expire_one expire_now d c)
row_after (recording now d rs) c = record_all now d rs c
row_after (cancelling now id) c = cancel_one now id c

abbrev pub Added : DeviceCommand → Type 0
Added c =
    (now : ℕ) × (id : String) × (d : String) × (t : CommandType) × (params : Fields) × (ttl : ℕ)
    × (m : ℕ) × (c ≡ new_command now id d t params ttl m)

-- The table after a request that is refused, and after one that is not.
after_enqueuing :
    (now : ℕ) (id d : String) (t : CommandType) (params : Fields) (ttl : Option ℕ) (m : ℕ)
    (q : Queue)
    → ((after (enqueuing now id d t params ttl m) q).commands ≡ q.commands)
      ⊎ ((after (enqueuing now id d t params ttl m) q).commands
          ≡ q.commands ++ new_command now id d t params (ttl_of ttl t) m ∷ [])
unfolding after enqueue
after_enqueuing now id d t params ttl m q =
    elim (Bool-cases (needs_package_name t && not (has_package_name params))) [
      | inl e ↦ inl (rw (e, after) refl)
      | inr e ↦ inr (rw (e, after) refl)
    ]

-- A row after a call is a row from before it, or a new one, and every row has one after it.
pub row_from :
    (o : Operation) (q : Queue) (c : DeviceCommand)
    → In c (after o q).commands
    → ((b : DeviceCommand) × In b q.commands × (c ≡ row_after o b)) ⊎ Added c
unfolding after expire_stale claim_for_delivery cancel
row_from (enqueuing now id d t params ttl m) q c i =
    elim (after_enqueuing now id d t params ttl m q) [
      | inl e ↦ inl (c, subst (In c) e i, refl)
      | inr e ↦ elim (In-append→ q.commands _ c (subst (In c) e i)) [
        | inl j ↦ inl (c, j, refl)
        | inr (inl p) ↦ inr (now, id, d, t, params, ttl_of ttl t, m, p)
        | inr (inr j) ↦ absurd j
      ]
    ]
row_from (expiring now d) q c i = inl (In-map→ (expire_one now d) q.commands c i)
row_from (claiming expire_now now d) q c i = inl (
    In-map→ _ q.commands c
      (subst (In c) (map-map (claim_one now d) (expire_one expire_now d) q.commands) i))
row_from (recording now d rs) q c i =
    inl (In-map→ _ q.commands c (subst (In c) (record_results-rows now d rs q.commands) i))
row_from (cancelling now id) q c i = inl (In-map→ (cancel_one now id) q.commands c i)

row_to :
    (o : Operation) (q : Queue) (c : DeviceCommand)
    → In c q.commands
    → In (row_after o c) (after o q).commands
unfolding after expire_stale claim_for_delivery cancel
row_to (enqueuing now id d t params ttl m) q c i =
    elim (after_enqueuing now id d t params ttl m q) [
      | inl e ↦ subst (In c) (sym e) i
      | inr e ↦ subst (In c) (sym e) (In-append← q.commands _ c (inl i))
    ]
row_to (expiring now d) q c i = In-map← (expire_one now d) q.commands c i
row_to (claiming expire_now now d) q c i =
    subst (In (claim_one now d (expire_one expire_now d c)))
      (sym (map-map (claim_one now d) (expire_one expire_now d) q.commands))
      (In-map← _ q.commands c i)
row_to (recording now d rs) q c i =
    subst (In (record_all now d rs c)) (sym (record_results-rows now d rs q.commands))
      (In-map← _ q.commands c i)
row_to (cancelling now id) q c i = In-map← (cancel_one now id) q.commands c i

row_after-finished :
    (o : Operation) (c : DeviceCommand) → is_open c.status ≡ false → row_after o c ≡ c
unfolding cancel_one
row_after-finished (enqueuing now id d t params ttl m) c h = refl
row_after-finished (expiring now d) c h = expire_one-finished now d c h
row_after-finished (claiming expire_now now d) c h =
    ap (claim_one now d) (expire_one-finished expire_now d c h) ∙ claim_one-finished now d c h
row_after-finished (recording now d rs) c h = record_all-finished now d rs c h
row_after-finished (cancelling now id) c h = ground arith

-- A command that has succeeded, failed or expired stays in the table as it is, whatever calls
-- follow.
pub after_all-finished :
    (os : List Operation) (q : Queue) (c : DeviceCommand)
    → is_open c.status ≡ false
    → In c q.commands
    → In c (after_all os q).commands
unfolding after_all
after_all-finished [] q c h i = i
after_all-finished (o ∷ os) q c h i =
    after_all-finished os (after o q) c h
      (subst (λ b. In b (after o q).commands) (row_after-finished o c h) (row_to o q c i))
