-- ===== src/Audit/History.antt =====
-- Any sequence of the calls of app/services/audit.py and app/services/audit_retention.py that write.
use tak_mdm.Base.{
  ℕ, suc, String, true, ◌≡◌, refl, sym, ap, ◌∙◌, subst, Option, none, some, List, [], ◌∷◌, length,
  All, Bool-cases, ltb, ◌==◌, not, inl, inr, ◌&&◌,
}
use tak_mdm.Base.Int.{ℤ, pos, negsuc}
use tak_mdm.Audit.{
  Library, AuditEvent, Entry, oldest_first, newest_first, first_pruned, record_entry,
  expected_first, verify,
}
use tak_mdm.Audit.Chain.{IsLinked, verify-ok_iff}
use tak_mdm.Audit.Honest.{Chained, Chained-oldest_first}
use tak_mdm.Audit.Retention.{AuditStore, min_days, set_days, prune}
use tak_mdm.Audit.Preserved.{Prints, IsRequest, IsHonest, record_entry-IsHonest, prune-IsHonest}

-- A call that writes to the log or to the setting.
pub data AuditCall : Type 0 where
  recording : ℕ → String → Entry → AuditCall
  pruning : ℕ → String → AuditCall
  setting : ℤ → Option String → AuditCall

abbrev pub IsExpected : AuditCall → Type 0
IsExpected (recording now id entry) = IsRequest entry
IsExpected (pruning now id) = Unit
IsExpected (setting n by) = Unit

module _ (lib : Library) where
  unfoldable pub after_call : AuditCall → AuditStore → AuditStore
  unfolding record_entry prune set_days
  after_call (recording now id entry) s = record s { log = record_entry lib now id entry s.log }
  after_call (pruning now id) s = record s { log = (prune lib now id s).1 }
  after_call (setting n by) s = elim (set_days lib n by s) [ none ↦ s | some t ↦ t ]

  unfoldable pub after_calls : List AuditCall → AuditStore → AuditStore
  unfolding after_call
  after_calls [] s = s
  after_calls (c ∷ cs) s = after_calls cs (after_call c s)

  setting-log :
      (n : ℤ) (by : Option String) (s : AuditStore) → (after_call (setting n by) s).log ≡ s.log
  unfolding after_call set_days
  setting-log (negsuc n) by s = refl
  setting-log (pos n) by s = elim (Bool-cases (not (n == 0) && ltb n min_days)) [
    | inl e ↦ rw (e, after_call, set_days) refl
    | inr e ↦ rw (e, after_call, set_days) refl
  ]

  after_call-IsHonest :
      (call : AuditCall) (s : AuditStore)
      → Prints lib
      → IsExpected call
      → IsHonest lib s.log
      → IsHonest lib (after_call call s).log
  unfolding after_call
  after_call-IsHonest (recording now id entry) s prints r h =
      record_entry-IsHonest lib now id entry s.log r h
  after_call-IsHonest (pruning now id) s prints r h = prune-IsHonest lib now id s prints h
  after_call-IsHonest (setting n by) s prints r h =
      subst (IsHonest lib) (sym (setting-log n by s)) h

  after_calls-IsHonest :
      (calls : List AuditCall) (s : AuditStore)
      → Prints lib
      → All IsExpected calls
      → IsHonest lib s.log
      → IsHonest lib (after_calls calls s).log
  unfolding after_calls
  after_calls-IsHonest [] s prints r h = h
  after_calls-IsHonest (c ∷ cs) s prints (r, rs) h =
      after_calls-IsHonest cs (after_call c s) prints rs (after_call-IsHonest c s prints r h)

  Chained-IsLinked :
      (n : ℕ) (hash : String) (expected : ℤ) (log : List AuditEvent)
      → Chained lib n (some hash) log
      → IsLinked lib expected (some hash) log
  Chained-IsLinked n hash expected [] c = tt
  Chained-IsLinked n hash expected (r ∷ log) ((s, l, h), c) =
      ((l, h), Chained-IsLinked (suc n) r.hash expected log c)

  IsHonest-IsLinked :
      (log : List AuditEvent)
      → IsHonest lib log
      → IsLinked lib (expected_first lib log) none (oldest_first log)
  IsHonest-IsLinked log (n, c, e, first) =
      subst (λ x. IsLinked lib x none (oldest_first log)) (sym e)
        (subst (IsLinked lib (pos n) none) (sym (Chained-oldest_first lib n none log c))
          (from_start log c))
    where
      from_start : (log : List AuditEvent) → Chained lib n none log → IsLinked lib (pos n) none log
      from_start [] c = tt
      from_start (r ∷ log) ((s, l, h), c) =
          ((ap pos s, h), Chained-IsLinked (suc n) r.hash (pos n) log c)

  -- Whatever requests are recorded, whatever windows are set and whenever the log is pruned, `verify`
  -- accepts the log that results from an empty one and has checked every row of it, if numbers are
  -- printed as texts that read back, and no request is recorded under the action of a prune.
  pub after_calls-verify :
      (calls : List AuditCall)
      → Prints lib
      → All IsExpected calls
      → let log = (after_calls calls (record { setting = none; log = [] })).log in
        ((verify lib log).ok ≡ true) × ((verify lib log).checked ≡ length log)
  unfolding expected_first newest_first first_pruned
  after_calls-verify calls prints r =
      let log = (after_calls calls (record { setting = none; log = [] })).log in
      let honest =
        after_calls-IsHonest calls (record { setting = none; log = [] }) prints r empty in
      let ((linked, back), counted) = verify-ok_iff lib log in
      let accepted = back (IsHonest-IsLinked log honest) in
      (accepted, counted accepted ∙ ap length (Chained-oldest_first lib honest.0 none log honest.1))
    where
      empty : IsHonest lib []
      empty = (1, tt, refl, λ p. refl)
