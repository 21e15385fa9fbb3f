-- ===== src/Protowire/Varint.antt =====
-- Numbers of app/services/app_sources/protowire.py, written and read back.
use tak_mdm.Base.{
  ℕ, zero, suc, ◌+◌, ◌*◌, ◌/◌, ◌%◌, ◌≤◌, ◌<◌, true, false, ◌≡◌, refl, ap, ◌∙◌, List, ◌++◌, length,
  take, arith, Bool-cases, ltb, ◌==◌, inl, inr,
}
use tak_mdm.Base.Int.{ℤ, pos, negsuc}
use tak_mdm.Protowire.{
  ok, err, truncated_varint, mask64, varint_loop, raw_varint, read_groups, read_varint,
}

-- The number has at most this many groups of seven bits.
abbrev Fits : ℕ → ℕ → Type 0
Fits zero n = n ≡ 0
Fits (suc fuel) n = Fits fuel (n / 128)

mask64-Fits : (n : ℤ) → Fits 10 (mask64 n)
unfolding mask64
mask64-Fits (pos n) = omega arith
mask64-Fits (negsuc n) = omega arith

group_sum :
    (result n scale : ℕ) → result + n % 128 * scale + n / 128 * (scale * 128) ≡ result + n * scale
group_sum result n scale = omega (arith, ap (λ (t : ℕ). t * scale) whole)
  where
    whole : n ≡ n % 128 + n / 128 * 128
    whole = omega arith

last_group : (n : ℕ) → (n / 128 == 0) ≡ true → (ltb (n % 128) 128 ≡ true) × (n % 128 % 128 ≡ n)
last_group n e = (ground arith, ground arith)

more_groups : (n : ℕ) → (ltb (n % 128 + 128) 128 ≡ false) × ((n % 128 + 128) % 128 ≡ n % 128)
more_groups n = (ground arith, omega arith)

fuel_left : (fuel n : ℕ) → (n / 128 == 0) ≡ false → Fits fuel (n / 128) → 0 < fuel
fuel_left zero n e fits = ground arith
fuel_left (suc fuel) n e fits = omega arith

read_groups-varint_loop :
    (fuel groups scale result n : ℕ) (rest : List ℕ)
    → Fits fuel n
    → fuel ≤ groups
    → 0 < fuel
    → read_groups groups scale result (varint_loop fuel n ++ rest) ≡ ok (result + n * scale, rest)
unfolding read_groups varint_loop
read_groups-varint_loop zero groups scale result n rest fits le lt = absurd (omega arith)
read_groups-varint_loop (suc fuel) zero scale result n rest fits le lt = absurd (omega arith)
read_groups-varint_loop (suc fuel) (suc groups) scale result n rest fits le lt =
    elim (Bool-cases (n / 128 == 0)) [
      | inl e ↦ let (small, same) = last_group n e in rw (e, small) (rw same refl)
      | inr e ↦
          let (large, same) = more_groups n in
          rw (e, large)
            (rw same (
              read_groups-varint_loop fuel groups (scale * 128) (result + n % 128 * scale) (n / 128)
                rest fits (omega (arith, le)) (fuel_left fuel n e fits)
              ∙ ap (λ (t : ℕ). ok (t, rest)) (group_sum result n scale)))
    ]

-- A number, cut to 64 bits, is read back from its bytes, and what follows them is left.
pub read_varint-raw_varint :
    (n : ℤ) (rest : List ℕ) → read_varint (raw_varint n ++ rest) ≡ ok (mask64 n, rest)
unfolding read_varint raw_varint
read_varint-raw_varint n rest =
    read_groups-varint_loop 10 10 1 0 (mask64 n) rest (mask64-Fits n) (omega arith) (omega arith)
    ∙ ap (λ (t : ℕ). ok (t, rest)) (unit (mask64 n))
  where
    unit : (t : ℕ) → 0 + t * 1 ≡ t
    unit t = omega arith

cut_groups :
    (fuel groups scale result n k : ℕ)
    → Fits fuel n
    → fuel ≤ groups
    → k < length (varint_loop fuel n)
    → read_groups groups scale result (take k (varint_loop fuel n)) ≡ err truncated_varint
unfolding read_groups varint_loop
cut_groups zero groups scale result n k fits le lt = absurd (omega (arith, lt))
cut_groups (suc fuel) zero scale result n k fits le lt = absurd (omega (arith, le))
cut_groups (suc fuel) (suc groups) scale result n zero fits le lt = refl
cut_groups (suc fuel) (suc groups) scale result n (suc k) fits le lt =
    elim (Bool-cases (n / 128 == 0)) [
      | inl e ↦ absurd (short e (rw e at lt))
      | inr e ↦
          let (large, same) = more_groups n in
          rw (e, large)
            (cut_groups fuel groups (scale * 128) (result + (n % 128 + 128) % 128 * scale) (n / 128)
              k fits (omega (arith, le)) (left (rw e at lt)))
    ]
  where
    short : (n / 128 == 0) ≡ true → suc k < 1 → ⊥
    short e h = omega (arith, h)

    left :
        suc k < suc (length (varint_loop fuel (n / 128))) → k < length (varint_loop fuel (n / 128))
    left h = omega (arith, h)

-- A number whose bytes are cut short is not read.
pub read_varint_cut :
    (n : ℤ) (k : ℕ)
    → k < length (raw_varint n)
    → read_varint (take k (raw_varint n)) ≡ err truncated_varint
unfolding read_varint raw_varint
read_varint_cut n k lt = cut_groups 10 10 1 0 (mask64 n) k (mask64-Fits n) (omega arith) lt
