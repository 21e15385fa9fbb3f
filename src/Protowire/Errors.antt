-- ===== src/Protowire/Errors.antt =====
-- Messages of app/services/app_sources/protowire.py that are cut short.
use tak_mdm.Base.{
  ℕ, zero, suc, ◌+◌, ◌*◌, ◌%◌, ◌^◌, ◌≤◌, ◌<◌, true, ◌≡◌, ◌⊎◌, refl, sym, ap, subst, List, [], ◌∷◌,
  ◌++◌, length, take, arith, ltb, inl, inr, length-append,
}
use tak_mdm.Base.Int.{ℤ, pos}
use tak_mdm.Protowire.{
  Result, WireError, ok, err, truncated_varint, truncated_field, raw_varint, varint, string,
  read_varint, read_value, read_field, decode_loop, decode,
}
use tak_mdm.Protowire.Varint.{read_varint_cut}
use tak_mdm.Protowire.RoundTrip.{Written, as_varint, as_string, encode, IsEncodable, read_key}

-- An error of some kind.
abbrev pub IsError : {A : Type 0} → Result A → Type 0
IsError r = (e : WireError) × (r ≡ err e)

-- Cutting a text of two parts cuts the first, or keeps it and cuts the second.
take_cases :
    {A : Type 0} (k : ℕ) (xs ys : List A)
    → ((k < length xs) × (take k (xs ++ ys) ≡ take k xs))
      ⊎ ((j : ℕ) × (k ≡ length xs + j) × (take k (xs ++ ys) ≡ xs ++ take j ys))
take_cases k [] ys = inr (k, omega arith, refl)
take_cases zero (x ∷ xs) ys = inl (omega arith, refl)
take_cases (suc k) (x ∷ xs) ys = elim (take_cases k xs ys) [
  | inl (lt, e) ↦ inl (omega (arith, lt), ap (◌∷◌ x) e)
  | inr (j, p, e) ↦ inr (j, omega (arith, p), ap (◌∷◌ x) e)
]

length-take : {A : Type 0} (k : ℕ) (xs : List A) → k ≤ length xs → length (take k xs) ≡ k
length-take zero xs h = refl
length-take (suc k) [] h = absurd (omega (arith, h))
length-take (suc k) (x ∷ xs) h = ap suc (length-take k xs (omega (arith, h)))

cut_value-varint :
    (n : ℤ) (k : ℕ) → k < length (raw_varint n) → IsError (read_value 0 (take k (raw_varint n)))
unfolding read_value
cut_value-varint n k lt = (truncated_varint, rw (read_varint_cut n k lt) refl)

cut_value-string :
    (value : List ℕ) (k : ℕ)
    → length value < 2 ^ 64
    → k < length (raw_varint (pos (length value)) ++ value)
    → IsError (read_value 2 (take k (raw_varint (pos (length value)) ++ value)))
unfolding read_value
cut_value-string value k small lt = elim (take_cases k (raw_varint (pos (length value))) value) [
  | inl (h, e) ↦ (truncated_varint, rw (e, read_varint_cut (pos (length value)) k h) refl)
  | inr (j, p, e) ↦ (
    truncated_field,
    rw
        (
          e,
          read_key (length value) (take j value) small,
          too_short (take j value) j (length-take j value (fits j p)) (less j p),
        )
        refl,
  )
]
  where
    less : (j : ℕ) → k ≡ length (raw_varint (pos (length value))) + j → j < length value
    less j p = omega (arith, p, lt, length-append (raw_varint (pos (length value))) value)

    fits : (j : ℕ) → k ≡ length (raw_varint (pos (length value))) + j → j ≤ length value
    fits j p = omega (arith, less j p)

    too_short :
        (bytes : List ℕ) (j : ℕ)
        → length bytes ≡ j
        → j < length value
        → ltb (length bytes) (length value) ≡ true
    too_short bytes j p h = ground arith

read_field_key :
    (bytes : List ℕ) (e : WireError) → read_varint bytes ≡ err e → IsError (read_field bytes)
unfolding read_field
read_field_key bytes e h = (e, rw h refl)

read_field_value :
    (bytes after : List ℕ) (key wire : ℕ)
    → read_varint bytes ≡ ok (key, after)
    → key % 8 ≡ wire
    → IsError (read_value wire after)
    → IsError (read_field bytes)
unfolding read_field
read_field_value bytes after key wire h p (e, r) = (e, rw (h, p, r) refl)

-- A key and what follows it, cut short.
cut_field :
    (key wire k : ℕ) (after : List ℕ)
    → key < 2 ^ 64
    → key % 8 ≡ wire
    → k < length (raw_varint (pos key) ++ after)
    → ((j : ℕ) → j < length after → IsError (read_value wire (take j after)))
    → IsError (read_field (take k (raw_varint (pos key) ++ after)))
cut_field key wire k after small p lt cut = elim (take_cases k (raw_varint (pos key)) after) [
  | inl (h, e) ↦
      subst (λ b. IsError (read_field b)) (sym e)
        (read_field_key (take k (raw_varint (pos key))) truncated_varint
          (read_varint_cut (pos key) k h))
  | inr (j, q, e) ↦
      subst (λ b. IsError (read_field b)) (sym e)
        (read_field_value (raw_varint (pos key) ++ take j after) (take j after) key wire
          (read_key key (take j after) small) p (cut j (less j q)))
]
  where
    less : (j : ℕ) → k ≡ length (raw_varint (pos key)) + j → j < length after
    less j q = omega (arith, q, lt, length-append (raw_varint (pos key)) after)

cut_encode :
    (w : Written) (k : ℕ)
    → IsEncodable w
    → k < length (encode w)
    → IsError (read_field (take k (encode w)))
unfolding encode varint string
cut_encode (as_varint field value) k h lt =
    cut_field (field * 8) 0 k (raw_varint value) (omega arith) (omega arith) lt
      (cut_value-varint value)
cut_encode (as_string field value) k (h, small) lt =
    cut_field (field * 8 + 2) 2 k (raw_varint (pos (length value)) ++ value) h (omega arith) lt
      (λ j less. cut_value-string value j small less)

decode-IsError :
    (bytes : List ℕ) → 0 < length bytes → IsError (read_field bytes) → IsError (decode bytes)
unfolding decode decode_loop
decode-IsError [] h r = absurd (omega (arith, h))
decode-IsError (b ∷ bytes) h (e, r) = (e, rw r refl)

-- A field that is cut short anywhere, with a byte of it left, is an error and no message.
pub decode_cut :
    (w : Written) (k : ℕ)
    → IsEncodable w
    → 0 < k
    → k < length (encode w)
    → (e : WireError) × (decode (take k (encode w)) ≡ err e)
decode_cut w k h pos_k lt =
    decode-IsError (take k (encode w)) (left (length-take k (encode w) (omega (arith, lt))))
      (cut_encode w k h lt)
  where
    left : length (take k (encode w)) ≡ k → 0 < length (take k (encode w))
    left e = omega (arith, e)
