-- ===== src/Audit/Honest.antt =====
-- The log as app/services/audit.py and app/services/audit_retention.py write it.
use tak_mdm.Base.{
  ℕ, suc, ◌+◌, ◌≤◌, ◌<◌, String, ◌≡◌, refl, sym, ap, ◌∙◌, subst, Option, none, some, List, [], ◌∷◌,
  ◌++◌, keep, length, In, arith, Bool-cases, ltb, leb, not, inl, inr, lt→ltb,
}
use tak_mdm.Base.Sorting.{sort_by, insert_by, InOrderBy, sort_by-ordered}
use tak_mdm.Audit.{Library, AuditEvent, hash_of, oldest_first, newest_first}

-- Rows that are numbered from `n` on, each linked to the one before it.
abbrev pub Link : Option String → AuditEvent → Type 0
Link none row = Unit
Link (some hash) row = row.prev_hash ≡ hash

-- The hash that the next row links to.
abbrev pub tail_hash : Option String → List AuditEvent → Option String
tail_hash previous [] = previous
tail_hash previous (row ∷ rows) = tail_hash (some row.hash) rows

module _ (lib : Library) where
  abbrev pub Chained : ℕ → Option String → List AuditEvent → Type 0
  Chained n previous [] = Unit
  Chained n previous (row ∷ rows) =
      ((row.seq ≡ n) × Link previous row × (hash_of lib row ≡ row.hash))
      × Chained (suc n) (some row.hash) rows

  pub Chained-seq :
      (n : ℕ) (previous : Option String) (log : List AuditEvent) (row : AuditEvent)
      → Chained n previous log
      → In row log
      → (n ≤ row.seq) × (row.seq < n + length log)
  Chained-seq n previous [] row c i = absurd i
  Chained-seq n previous (r ∷ log) row ((s, l, h), c) (inl p) =
      let same = ap (λ (x : AuditEvent). x.seq) p in
      (omega (arith, same, s), omega (arith, same, s))
  Chained-seq n previous (r ∷ log) row (h, c) (inr i) =
      let (low, high) = Chained-seq (suc n) (some r.hash) log row c i in
      (omega (arith, low), omega (arith, high))

  Chained-ordered :
      (n : ℕ) (previous : Option String) (log : List AuditEvent)
      → Chained n previous log
      → InOrderBy (λ a b. ltb a.seq b.seq) log
  Chained-ordered n previous [] c = tt
  Chained-ordered n previous (a ∷ []) c = tt
  Chained-ordered n previous (a ∷ b ∷ log) ((s, l, h), ((t, m, k), c)) =
      (ground (arith, s, t), Chained-ordered (suc n) (some a.hash) (b ∷ log) ((t, m, k), c))

  pub Chained-oldest_first :
      (n : ℕ) (previous : Option String) (log : List AuditEvent)
      → Chained n previous log
      → oldest_first log ≡ log
  unfolding oldest_first
  Chained-oldest_first n previous log c = sort_by-ordered _ log (Chained-ordered n previous log c)

  -- A row behind the others comes first in the descending order.
  pub newest_first-append :
      (log : List AuditEvent) (e : AuditEvent)
      → ((row : AuditEvent) → In row log → row.seq < e.seq)
      → newest_first (log ++ e ∷ []) ≡ e ∷ newest_first log
  unfolding newest_first sort_by insert_by
  newest_first-append [] e later = refl
  newest_first-append (r ∷ log) e later =
      ap (insert_by (λ a b. ltb b.seq a.seq) r) (newest_first-append log e (λ x i. later x (inr i)))
      ∙ front (later r (inl refl))
    where
      front :
          r.seq < e.seq
          → insert_by (λ a b. ltb b.seq a.seq) r (e ∷ newest_first log)
            ≡ e ∷ insert_by (λ a b. ltb b.seq a.seq) r (newest_first log)
      front h = rw (lt→ltb r.seq e.seq h) refl

  -- The end of a chained log, and a row behind it.
  pub last_link-Chained :
      (n : ℕ) (previous : Option String) (r : AuditEvent) (log : List AuditEvent)
      → Chained n previous (r ∷ log)
      → (e : AuditEvent) × (l : List AuditEvent) × (newest_first (r ∷ log) ≡ e ∷ l)
        × (e.seq ≡ n + length log)
        × (tail_hash previous (r ∷ log) ≡ some e.hash)
  unfolding newest_first sort_by insert_by
  last_link-Chained n previous r [] ((s, m, h), c) = (r, [], refl, omega (arith, s), refl)
  last_link-Chained n previous r (q ∷ log) ((s, m, h), c) =
      let (e, l, split, number, end) = last_link-Chained (suc n) (some r.hash) q log c in
      (
        e,
        insert_by (λ a b. ltb b.seq a.seq) r l,
        ap (insert_by (λ a b. ltb b.seq a.seq) r) split
            ∙ rw (lt→ltb r.seq e.seq (omega (arith, s, number))) refl,
        omega (arith, number),
        end,
      )

  pub Chained-append :
      (n : ℕ) (previous : Option String) (log : List AuditEvent) (e : AuditEvent)
      → Chained n previous log
      → e.seq ≡ n + length log
      → Link (tail_hash previous log) e
      → hash_of lib e ≡ e.hash
      → Chained n previous (log ++ e ∷ [])
  Chained-append n previous [] e c s l h = ((omega (arith, s), l, h), tt)
  Chained-append n previous (r ∷ log) e (f, c) s l h =
      (f, Chained-append (suc n) (some r.hash) log e c (omega (arith, s)) l h)

  -- Deleting the rows up to a number leaves the rows from the next number on.
  Chained-keep_all :
      (n last : ℕ) (previous : Option String) (log : List AuditEvent)
      → Chained n previous log
      → last < n
      → keep (λ e. not (leb e.seq last)) log ≡ log
  Chained-keep_all n last previous [] c h = refl
  Chained-keep_all n last previous (r ∷ log) ((s, m, k), c) h =
      let rest = Chained-keep_all (suc n) last (some r.hash) log c (omega (arith, h)) in
      ground (arith, s, rest)

  pub Chained-keep :
      (n last : ℕ) (previous : Option String) (log : List AuditEvent)
      → Chained n previous log
      → n ≤ suc last
      → Chained (suc last) none (keep (λ e. not (leb e.seq last)) log)
  Chained-keep n last previous [] c h = tt
  Chained-keep n last previous (r ∷ log) ((s, l, k), c) h = elim (Bool-cases (leb r.seq last)) [
    | inl e ↦ rw e (Chained-keep (suc n) last (some r.hash) log c (ground (arith, s)))
    | inr e ↦
        let number : suc last ≡ n = ground (arith, s) in
        rw (e, Chained-keep_all (suc n) last (some r.hash) log c (omega (arith, number)))
          (((s ∙ sym number, tt, k), subst (λ m. Chained (suc m) (some r.hash) log) (sym number) c))
  ]
