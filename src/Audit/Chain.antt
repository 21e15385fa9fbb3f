-- ===== src/Audit/Chain.antt =====
-- What `verify` of app/services/audit.py accepts.
use tak_mdm.Base.{
  ℕ, suc, ◌+◌, String, true, false, ◌≡◌, ◌≢◌, ◌↔◌, refl, sym, subst, Option, none, some, List, [],
  ◌∷◌, length, In, arith, Bool-cases, inl, inr,
}
use tak_mdm.Base.Int.{ℤ, pos, eqb_ℤ_iff}
use tak_mdm.Base.Sorting.{In-sort_by}
use tak_mdm.Base.Text.{text_eq_iff}
use tak_mdm.Audit.{
  Library, AuditEvent, hash_of, oldest_first, expected_first, is_broken, verify_loop, verify,
}

module _ (lib : Library) where
  -- The row is the one that is expected after `previous`: with the expected number at the start of
  -- the log, and otherwise with a link to the row before it.
  abbrev pub Follows : ℤ → Option String → AuditEvent → Type 0
  Follows expected none row = pos row.seq ≡ expected
  Follows expected (some hash) row = row.prev_hash ≡ hash

  -- A log, oldest row first, in which every row follows the one before it and has its own hash.
  abbrev pub IsLinked : ℤ → Option String → List AuditEvent → Type 0
  IsLinked expected previous [] = Unit
  IsLinked expected previous (row ∷ rows) =
      (Follows expected previous row × (hash_of lib row ≡ row.hash))
      × IsLinked expected (some row.hash) rows

  fits :
      (expected : ℤ) (previous : Option String) (row : AuditEvent)
      → (is_broken lib expected previous row ≡ false)
        ↔ (Follows expected previous row × (hash_of lib row ≡ row.hash))
  unfolding is_broken
  fits expected none row =
      ground (arith, eqb_ℤ_iff (pos row.seq) expected, text_eq_iff (hash_of lib row) row.hash)
  fits expected (some hash) row =
      ground (arith, text_eq_iff row.prev_hash hash, text_eq_iff (hash_of lib row) row.hash)

  -- What the loop answers: either nothing is broken and all rows are counted, or the first broken
  -- row is named.
  loop_answer :
      (expected : ℤ) (previous : Option String) (n : ℕ) (rows : List AuditEvent)
      → (verify_loop lib expected previous n rows).ok ≡ true
      → IsLinked expected previous rows
        × ((verify_loop lib expected previous n rows).checked ≡ n + length rows)
  unfolding verify_loop
  loop_answer expected previous n [] h = (tt, omega arith)
  loop_answer expected previous n (row ∷ rows) h =
      elim (Bool-cases (is_broken lib expected previous row)) [
        | inl e ↦ absurd (no_ok (rw e at h))
        | inr e ↦
            let (linked, counted) = loop_answer expected (some row.hash) (suc n) rows (rw e at h) in
            rw e (((fits expected previous row).0 e, linked), omega (arith, counted))
      ]
    where
      no_ok : false ≡ true → ⊥
      no_ok k = cc

  linked_ok :
      (expected : ℤ) (previous : Option String) (n : ℕ) (rows : List AuditEvent)
      → IsLinked expected previous rows
      → (verify_loop lib expected previous n rows).ok ≡ true
  unfolding verify_loop
  linked_ok expected previous n [] l = refl
  linked_ok expected previous n (row ∷ rows) (f, l) =
      rw ((fits expected previous row).1 f) (linked_ok expected (some row.hash) (suc n) rows l)

  -- `verify` accepts a log exactly if, oldest row first, the first row has the number that the last
  -- prune leaves it, every later row has the hash of the row before it as its link, and every row
  -- has the hash of its own content; and then it has checked all rows.
  pub verify-ok_iff :
      (log : List AuditEvent)
      → (((verify lib log).ok ≡ true) ↔ IsLinked (expected_first lib log) none (oldest_first log))
        × ((verify lib log).ok ≡ true → (verify lib log).checked ≡ length (oldest_first log))
  unfolding verify
  verify-ok_iff log = (
    (
      λ h. (loop_answer (expected_first lib log) none 0 (oldest_first log) h).0,
      linked_ok (expected_first lib log) none 0 (oldest_first log),
    ),
    λ h. counted ((loop_answer (expected_first lib log) none 0 (oldest_first log) h).1),
  )
    where
      counted : {n m : ℕ} → n ≡ 0 + m → n ≡ m
      counted h = omega (arith, h)

  IsLinked-In :
      (expected : ℤ) (previous : Option String) (rows : List AuditEvent) (row : AuditEvent)
      → IsLinked expected previous rows
      → In row rows
      → hash_of lib row ≡ row.hash
  IsLinked-In expected previous [] row l i = absurd i
  IsLinked-In expected previous (r ∷ rows) row ((f, h), l) (inl p) =
      subst (λ x. hash_of lib x ≡ x.hash) (sym p) h
  IsLinked-In expected previous (r ∷ rows) row (f, l) (inr i) =
      IsLinked-In expected (some r.hash) rows row l i

  -- A row that was edited in the table, so that its content no longer has its hash, makes `verify`
  -- fail, wherever it stands and whatever else is in the log.
  pub verify-edited :
      (log : List AuditEvent) (row : AuditEvent)
      → In row log
      → hash_of lib row ≢ row.hash
      → (verify lib log).ok ≡ false
  unfolding oldest_first
  verify-edited log row i edited = elim (Bool-cases (verify lib log).ok) [
    | inl e ↦ absurd (
        edited (
          IsLinked-In (expected_first lib log) none (oldest_first log) row
            ((verify-ok_iff log).0.0 e) ((In-sort_by _ row log).1 i)))
    | inr e ↦ e
  ]
