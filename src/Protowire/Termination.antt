-- ===== src/Protowire/Termination.antt =====
-- The loop of `decode` in app/services/app_sources/protowire.py reads every byte within its fuel.
use tak_mdm.Base.{
  Bool, ℕ, zero, suc, ◌+◌, ◌*◌, ◌/◌, ◌%◌, ◌≤◌, ◌<◌, true, false, ◌≡◌, ◌⊎◌, refl, subst, List, [],
  ◌∷◌, length, take, drop, arith, Bool-cases, if◌then◌else◌, ltb, ◌==◌, inl, inr, length-drop,
}
use tak_mdm.Protowire.{
  Result, WireError, ok, err, ◌>>=◌, read_groups, read_varint, WireValue, number, payload, Message,
  add_value, read_value, read_field, decode_loop, little_endian, truncated_fixed64,
  truncated_fixed32, truncated_field,
}

-- A result leaves fewer than `n` bytes.
abbrev Leaves : {A : Type 0} → ℕ → (A → List ℕ) → Result A → Type 0
Leaves n left (ok a) = length (left a) < n
Leaves n left (err e) = Unit

read_groups-Leaves :
    (groups scale result n : ℕ) (bytes : List ℕ)
    → length bytes ≤ n
    → 0 < n
    → Leaves n (λ (r : ℕ × List ℕ). r.1) (read_groups groups scale result bytes)
unfolding read_groups
read_groups-Leaves zero scale result n bytes h p = tt
read_groups-Leaves (suc groups) scale result n [] h p = tt
read_groups-Leaves (suc groups) scale result n (b ∷ bytes) h p = elim (Bool-cases (ltb b 128)) [
  | inl e ↦ rw e (omega (arith, h))
  | inr e ↦ rw e (
      read_groups-Leaves groups (scale * 128) (result + b % 128 * scale) n bytes (omega (arith, h))
        p)
]

read_varint-Leaves :
    (n : ℕ) (bytes : List ℕ)
    → length bytes ≤ n
    → 0 < n
    → Leaves n (λ (r : ℕ × List ℕ). r.1) (read_varint bytes)
unfolding read_varint
read_varint-Leaves n bytes h p = read_groups-Leaves 10 1 0 n bytes h p

Leaves->>= :
    {A B : Type 0} (n m : ℕ) (left : A → List ℕ) (out : B → List ℕ) (r : Result A)
    (f : A → Result B)
    → Leaves n left r
    → ((a : A) → length (left a) < n → Leaves m out (f a))
    → Leaves m out (r >>= f)
Leaves->>= n m left out (ok a) f h k = k a h
Leaves->>= n m left out (err e) f h k = tt

Leaves-if :
    (n : ℕ) (b : Bool) (e : WireError) (v : WireValue) (rest : List ℕ)
    → length rest < n
    → Leaves n (λ (r : WireValue × List ℕ). r.1) (if b then err e else ok (v, rest))
Leaves-if n true e v rest h = tt
Leaves-if n false e v rest h = h

dropped : (k n : ℕ) (bytes : List ℕ) → length bytes < n → length (drop k bytes) < n
dropped k n bytes h = omega (arith, length-drop k bytes, h)

read_value-Leaves :
    (wire n : ℕ) (bytes : List ℕ)
    → length bytes < n
    → Leaves n (λ (r : WireValue × List ℕ). r.1) (read_value wire bytes)
unfolding read_value
read_value-Leaves wire n bytes h = elim (Bool-cases (wire == 0)) [
  | inl e ↦ rw e (
      Leaves->>= n n (λ (r : ℕ × List ℕ). r.1) (λ (r : WireValue × List ℕ). r.1) (read_varint bytes)
        (λ (v : ℕ × List ℕ). ok (number v.0, v.1))
        (read_varint-Leaves n bytes (omega (arith, h)) (omega (arith, h))) (λ a lt. lt))
  | inr e ↦ elim (Bool-cases (wire == 1)) [
    | inl f ↦
        rw (e, f)
          (Leaves-if n (ltb (length bytes) 8) truncated_fixed64
            (number (little_endian (take 8 bytes))) (drop 8 bytes) (dropped 8 n bytes h))
    | inr f ↦ elim (Bool-cases (wire == 2)) [
      | inl g ↦
          rw (e, f, g)
            (Leaves->>= n n (λ (r : ℕ × List ℕ). r.1) (λ (r : WireValue × List ℕ). r.1)
              (read_varint bytes)
              (λ (v : ℕ × List ℕ).
                if ltb (length v.1) v.0
                then err truncated_field
                else ok (payload (take v.0 v.1), drop v.0 v.1))
              (read_varint-Leaves n bytes (omega (arith, h)) (omega (arith, h)))
              (λ a lt.
                Leaves-if n (ltb (length a.1) a.0) truncated_field (payload (take a.0 a.1))
                  (drop a.0 a.1) (dropped a.0 n a.1 lt)))
      | inr g ↦ elim (Bool-cases (wire == 5)) [
        | inl k ↦
            rw (e, f, g, k)
              (Leaves-if n (ltb (length bytes) 4) truncated_fixed32
                (number (little_endian (take 4 bytes))) (drop 4 bytes) (dropped 4 n bytes h))
        | inr k ↦ rw (e, f, g, k) tt
      ]
    ]
  ]
]

read_field-Leaves :
    (n : ℕ) (bytes : List ℕ)
    → length bytes ≤ n
    → 0 < n
    → Leaves n (λ (r : ℕ × WireValue × List ℕ). r.2) (read_field bytes)
unfolding read_field
read_field-Leaves n bytes h p =
    Leaves->>= n n (λ (r : ℕ × List ℕ). r.1) (λ (r : ℕ × WireValue × List ℕ). r.2)
      (read_varint bytes)
      (λ (key : ℕ × List ℕ).
        read_value (key.0 % 8) key.1 >>= λ (v : WireValue × List ℕ). ok (key.0 / 8, v.0, v.1))
      (read_varint-Leaves n bytes h p)
      (λ key lt.
        Leaves->>= n n (λ (r : WireValue × List ℕ). r.1) (λ (r : ℕ × WireValue × List ℕ). r.2)
          (read_value (key.0 % 8) key.1) (λ (v : WireValue × List ℕ). ok (key.0 / 8, v.0, v.1))
          (read_value-Leaves (key.0 % 8) n key.1 lt) (λ v less. less))

left_over :
    (b : ℕ) (bytes : List ℕ) (r : ℕ × WireValue × List ℕ)
    → read_field (b ∷ bytes) ≡ ok r
    → length r.2 ≤ length bytes
left_over b bytes r e =
    let less : length r.2 < suc (length bytes) =
      subst (Leaves (suc (length bytes)) (λ (x : ℕ × WireValue × List ℕ). x.2)) e
        (read_field-Leaves (suc (length bytes)) (b ∷ bytes) (omega arith) (omega arith)) in
    omega arith

Result-cases :
    {A : Type 0} (r : Result A) → ((a : A) × (r ≡ ok a)) ⊎ ((e : WireError) × (r ≡ err e))
Result-cases (ok a) = inl (a, refl)
Result-cases (err e) = inr (e, refl)

-- More fuel than there are bytes changes nothing: the loop of `decode` ends because no byte is left or
-- with an error, and never for want of fuel.
pub decode_loop_enough :
    (fuel more : ℕ) (out : Message) (bytes : List ℕ)
    → length bytes ≤ fuel
    → length bytes ≤ more
    → decode_loop fuel out bytes ≡ decode_loop more out bytes
unfolding decode_loop
decode_loop_enough zero zero out [] h k = refl
decode_loop_enough zero (suc more) out [] h k = refl
decode_loop_enough (suc fuel) zero out [] h k = refl
decode_loop_enough (suc fuel) (suc more) out [] h k = refl
decode_loop_enough zero more out (b ∷ bytes) h k = absurd (omega (arith, h))
decode_loop_enough (suc fuel) zero out (b ∷ bytes) h k = absurd (omega (arith, k))
decode_loop_enough (suc fuel) (suc more) out (b ∷ bytes) h k =
    elim (Result-cases (read_field (b ∷ bytes))) [
      | inl (r, e) ↦ rw e (
          decode_loop_enough fuel more (add_value r.0 r.1 out) r.2
            (omega (arith, h, left_over b bytes r e)) (omega (arith, k, left_over b bytes r e)))
      | inr (x, e) ↦ rw e refl
    ]
