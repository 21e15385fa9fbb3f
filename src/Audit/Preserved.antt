-- ===== src/Audit/Preserved.antt =====
-- What `record` and `prune` of app/services/audit.py and app/services/audit_retention.py keep of a log.
use tak_mdm.Base.{
  ℕ, suc, ◌+◌, ◌-◌, ◌≤◌, ◌<◌, min, String, false, ◌≡◌, ◌⊎◌, refl, sym, ap, ◌∙◌, subst, Option, none,
  some, List, [], ◌∷◌, length, In, arith, Bool-cases, Option-cases, ltb, leb, ◌==◌, not, inl, inr,
  append-ne-nil,
}
use tak_mdm.Base.Int.{pos}
use tak_mdm.Base.Membership.{In-keep→, In-keep←}
use tak_mdm.Base.Sorting.{In-sort_by}
use tak_mdm.Base.Text.{text_eq}
use tak_mdm.Audit.{
  Library, AuditEvent, Description, Entry, pruned, genesis, hash_of, newest_first, last_link,
  first_pruned, new_event, record_entry, expected_first,
}
use tak_mdm.Audit.Honest.{
  Link, tail_hash, Chained, Chained-seq, newest_first-append, last_link-Chained, Chained-append,
  Chained-keep,
}
use tak_mdm.Audit.Retention.{
  AuditStore, days, max_seq, max_old_seq, delete_up_to, removed_count, prune_entry, prune_up_to,
  prune,
}

-- A number is printed as a text that reads back as the number, and is not empty.
abbrev pub Prints : Library → Type 0
Prints lib =
    (n : ℕ) → (lib.to_int (lib.to_text n) ≡ some (pos n)) × (text_eq (lib.to_text n) "" ≡ false)

-- What an administrator's request is recorded as, which is never a prune.
abbrev pub IsRequest : Entry → Type 0
IsRequest entry = (d : Description) → entry.description ≡ some d → text_eq d.action pruned ≡ false

module _ (lib : Library) where
  -- The log is numbered without a gap from the number on that the last prune leaves.
  abbrev pub IsHonest : List AuditEvent → Type 0
  IsHonest log =
      (n : ℕ) × Chained lib n none log × (expected_first lib log ≡ pos n) × (log ≡ [] → n ≡ 1)

  new_event-link :
      (now : ℕ) (id : String) (entry : Entry) (link : ℕ × String)
      → ((new_event lib now id entry link).seq ≡ suc link.0)
        × ((new_event lib now id entry link).prev_hash ≡ link.1)
  unfolding new_event
  new_event-link now id entry (n, h) = (refl, refl)

  -- The row as it is added.
  abbrev sealed : ℕ → String → Entry → List AuditEvent → AuditEvent
  sealed now id entry log =
      let event = new_event lib now id entry (last_link log) in
      record event { hash = hash_of lib event }

  sealed-hash :
      (now : ℕ) (id : String) (entry : Entry) (log : List AuditEvent)
      → hash_of lib (sealed now id entry log) ≡ (sealed now id entry log).hash
  unfolding hash_of
  sealed-hash now id entry log = refl

  -- The link that the next row gets.
  sealed-Link :
      (n : ℕ) (now : ℕ) (id : String) (entry : Entry) (log : List AuditEvent)
      → Chained lib n none log
      → (log ≡ [] → n ≡ 1)
      → ((sealed now id entry log).seq ≡ n + length log)
        × Link (tail_hash none log) (sealed now id entry log)
  unfolding last_link newest_first
  sealed-Link n now id entry [] c first =
      (omega (arith, first refl, (new_event-link now id entry (0, genesis)).0), tt)
  sealed-Link n now id entry (r ∷ log) c first =
      let (e, l, split, number, end) = last_link-Chained lib n none r log c in
      let link : last_link (r ∷ log) ≡ (e.seq, e.hash) = rw (split, last_link) refl in
      let (number', prev) = new_event-link now id entry (last_link (r ∷ log)) in
      let counted = number' ∙ ap (λ (x : ℕ × String). suc x.0) link in
      (
        omega (arith, counted, number),
        subst (λ t. Link t (sealed now id entry (r ∷ log))) (sym end)
            (prev ∙ ap (λ (x : ℕ × String). x.1) link),
      )

  -- Adding a row to a log that is numbered from `n` on.
  record_entry-Chained :
      (n : ℕ) (now : ℕ) (id : String) (entry : Entry) (log : List AuditEvent)
      → Chained lib n none log
      → (log ≡ [] → n ≡ 1)
      → Chained lib n none (record_entry lib now id entry log)
        × (newest_first (record_entry lib now id entry log)
            ≡ sealed now id entry log ∷ newest_first log)
  unfolding record_entry
  record_entry-Chained n now id entry log c first =
      let (number, link) = sealed-Link n now id entry log c first in
      (
        Chained-append lib n none log (sealed now id entry log) c number link
            (sealed-hash now id entry log),
        newest_first-append lib log (sealed now id entry log)
            (λ row i. omega (arith, number, (Chained-seq lib n none log row c i).1)),
      )

  sealed-request :
      (now : ℕ) (id : String) (entry : Entry) (log : List AuditEvent)
      → IsRequest entry
      → text_eq (sealed now id entry log).action pruned ≡ false
  unfolding new_event
  sealed-request now id entry log r = by_description entry.description refl
    where
      by_description :
          (d : Option Description)
          → entry.description ≡ d
          → text_eq (elim d [ none ↦ "request" | some d ↦ d.action ]) pruned ≡ false
      by_description none h = refl
      by_description (some d) h = r d h

  pub record_entry-IsHonest :
      (now : ℕ) (id : String) (entry : Entry) (log : List AuditEvent)
      → IsRequest entry
      → IsHonest log
      → IsHonest (record_entry lib now id entry log)
  unfolding expected_first first_pruned record_entry
  record_entry-IsHonest now id entry log r (n, c, e, first) =
      let (chained, order) = record_entry-Chained n now id entry log c first in
      let same : expected_first lib (record_entry lib now id entry log) ≡ expected_first lib log =
        rw (order, expected_first, sealed-request now id entry log r) refl in
      (n, chained, same ∙ e, λ p. absurd (append-ne-nil log (sealed now id entry log) p))

  -- A prune up to a number that leaves the newest row.
  prune_up_to-IsHonest :
      (n : ℕ) (now : ℕ) (id : String) (window last : ℕ) (log : List AuditEvent)
      (newest : AuditEvent)
      → Prints lib
      → Chained lib n none log
      → n ≤ suc last
      → In newest log
      → last < newest.seq
      → IsHonest (prune_up_to lib now id window last log).1
  unfolding prune_up_to delete_up_to expected_first first_pruned record_entry
  prune_up_to-IsHonest n now id window last log newest prints c low i high =
      let rest = delete_up_to last log in
      let entry = prune_entry lib (removed_count last log) window last in
      let kept : In newest rest =
        In-keep← (λ e. not (leb e.seq last)) log newest i (ground arith) in
      let chained = Chained-keep lib n last none log c low in
      let (longer, order) =
        record_entry-Chained (suc last) now id entry rest chained
          (λ p. absurd (subst (λ l. In newest l) p kept)) in
      let here : expected_first lib (record_entry lib now id entry rest) ≡ pos (suc last) =
        rw (order, expected_first, (prints last).1, (prints last).0, (prints last).1) refl in
      (suc last, longer, here, λ p. absurd (append-ne-nil rest (sealed now id entry rest) p))

  -- The greatest number of a list of rows is that of one of them.
  max_seq-In :
      (log : List AuditEvent) (m : ℕ)
      → max_seq log ≡ some m
      → (row : AuditEvent) × In row log × (row.seq ≡ m)
  unfolding max_seq newest_first
  max_seq-In log m h = by_order (newest_first log) refl h
    where
      by_order :
          (l : List AuditEvent)
          → newest_first log ≡ l
          → (elim l [ [] ↦ none | e ∷ l ↦ some e.seq ]) ≡ some m
          → (row : AuditEvent) × In row log × (row.seq ≡ m)
      by_order [] e k = absurd (cc)
      by_order (r ∷ l) e k =
          (r, (In-sort_by (λ a b. ltb b.seq a.seq) r log).0 (subst (In r) (sym e) (inl refl)), cc)

  -- What a prune does: nothing, or it deletes up to a number below the newest row's and not below
  -- an old row's.
  abbrev Cut : ℕ → String → AuditStore → ℕ → ℕ → ℕ → Type 0
  Cut now id s old newest last =
      (max_old_seq now (days lib s.setting) s.log ≡ some old)
      × (max_seq s.log ≡ some newest)
      × (last ≡ min old (newest - 1))
      × (1 ≤ last)
      × ((prune lib now id s).1 ≡ (prune_up_to lib now id (days lib s.setting) last s.log).1)

  prune_cases :
      (now : ℕ) (id : String) (s : AuditStore)
      → ((prune lib now id s).1 ≡ s.log)
        ⊎ ((old : ℕ) × (newest : ℕ) × (last : ℕ) × Cut now id s old newest last)
  unfolding prune
  prune_cases now id s = elim (Bool-cases (days lib s.setting == 0)) [
    | inl e ↦ inl (rw (e, prune) refl)
    | inr e ↦ elim (Option-cases (max_old_seq now (days lib s.setting) s.log)) [
      | inl m ↦ inl (rw (e, m, prune) refl)
      | inr (old, m) ↦ elim (Option-cases (max_seq s.log)) [
        | inl k ↦ inl (rw (e, m, k, prune) refl)
        | inr (newest, k) ↦ elim (Bool-cases (ltb (min old (newest - 1)) 1)) [
          | inl t ↦ inl (rw (e, m, k, t, prune) refl)
          | inr t ↦ inr (
            old,
            newest,
            min old (newest - 1),
            (m, k, refl, ground arith, rw (e, m, k, t, prune) refl),
          )
        ]
      ]
    ]
  ]

  pub prune-IsHonest :
      (now : ℕ) (id : String) (s : AuditStore)
      → Prints lib
      → IsHonest s.log
      → IsHonest (prune lib now id s).1
  unfolding max_old_seq
  prune-IsHonest now id s prints (n, c, e, first) = elim (prune_cases now id s) [
    | inl same ↦ subst IsHonest (sym same) (n, c, e, first)
    | inr (old, newest, last, (m, k, cut, least, same)) ↦
        let window = days lib s.setting in
        let (row, i, p) = max_seq-In _ old m in
        let (row', j, q) = max_seq-In s.log newest k in
        let (low, high) = Chained-seq lib n none s.log row c (In-keep→ _ s.log row i).0 in
        let (low', high') = Chained-seq lib n none s.log row' c j in
        subst IsHonest (sym same) (
          prune_up_to-IsHonest n now id window last s.log row' prints c
            (omega (arith, p, q, low, low', cut)) j (omega (arith, q, cut, least)))
  ]
