-- ===== src/Protowire/RoundTrip.antt =====
-- Messages of app/services/app_sources/protowire.py, written field by field and decoded.
use mathlib.Core.List.{append_assoc, append-nil}
use tak_mdm.Base.{
  ℕ, zero, suc, ◌+◌, ◌*◌, ◌/◌, ◌%◌, ◌^◌, ◌≤◌, ◌<◌, false, ◌≡◌, refl, sym, ap, ◌∙◌, List, [], ◌∷◌,
  ◌++◌, map, keep, length, take, drop, All, arith, Bool-cases, if◌then◌else◌, ltb, ◌==◌, inl, inr,
  length-append,
}
use tak_mdm.Base.Int.{ℤ, pos}
use tak_mdm.Protowire.{
  ok, mask64, raw_varint, varint, string, read_varint, WireValue, number, payload, Message,
  add_value, read_value, read_field, decode_loop, decode, values_of,
}
use tak_mdm.Protowire.Varint.{read_varint-raw_varint}

-- A field as a caller writes it.
pub data Written : Type 0 where
  as_varint : ℕ → ℤ → Written
  as_string : ℕ → List ℕ → Written

abbrev pub field_of : Written → ℕ
field_of (as_varint field value) = field
field_of (as_string field value) = field

abbrev pub value_of : Written → WireValue
unfolding mask64
value_of (as_varint field value) = number (mask64 value)
value_of (as_string field value) = payload value

unfoldable pub encode : Written → List ℕ
unfolding varint string
encode (as_varint field value) = varint field value
encode (as_string field value) = string field value

abbrev pub encode_all : List Written → List ℕ
encode_all [] = []
encode_all (w ∷ ws) = encode w ++ encode_all ws

-- The key of the field and the length of its value are numbers of 64 bits.
abbrev pub IsEncodable : Written → Type 0
IsEncodable (as_varint field value) = field * 8 + 2 < 2 ^ 64
IsEncodable (as_string field value) = (field * 8 + 2 < 2 ^ 64) × (length value < 2 ^ 64)

mask64_small : (n : ℕ) → n < 2 ^ 64 → mask64 (pos n) ≡ n
unfolding mask64
mask64_small n h = omega arith

take-append : {A : Type 0} (xs ys : List A) → take (length xs) (xs ++ ys) ≡ xs
take-append [] ys = refl
take-append (x ∷ xs) ys = ap (◌∷◌ x) (take-append xs ys)

drop-append : {A : Type 0} (xs ys : List A) → drop (length xs) (xs ++ ys) ≡ ys
drop-append [] ys = refl
drop-append (x ∷ xs) ys = drop-append xs ys

pub read_key :
    (key : ℕ) (rest : List ℕ)
    → key < 2 ^ 64
    → read_varint (raw_varint (pos key) ++ rest) ≡ ok (key, rest)
read_key key rest h =
    read_varint-raw_varint (pos key) rest ∙ ap (λ (t : ℕ). ok (t, rest)) (mask64_small key h)

read_value-varint :
    (n : ℤ) (rest : List ℕ) → read_value 0 (raw_varint n ++ rest) ≡ ok (number (mask64 n), rest)
unfolding read_value
read_value-varint n rest = rw (read_varint-raw_varint n rest) refl

read_value-string :
    (value rest : List ℕ)
    → length value < 2 ^ 64
    → read_value 2 (raw_varint (pos (length value)) ++ (value ++ rest)) ≡ ok (payload value, rest)
unfolding read_value
read_value-string value rest h =
    rw (read_key (length value) (value ++ rest) h, enough)
      (rw (take-append value rest, drop-append value rest) refl)
  where
    enough : ltb (length (value ++ rest)) (length value) ≡ false
    enough = ground (arith, length-append value rest)

read_field_of :
    (bytes after : List ℕ) (key field : ℕ) (wire : ℕ) (value : WireValue) (rest : List ℕ)
    → read_varint bytes ≡ ok (key, after)
    → key ≡ field * 8 + wire
    → wire < 8
    → read_value wire after ≡ ok (value, rest)
    → read_field bytes ≡ ok (field, value, rest)
unfolding read_field
read_field_of bytes after key field wire value rest h e lt r =
    rw (h, wire_type, r) (ap (λ (f : ℕ). ok (f, value, rest)) field_number)
  where
    wire_type : key % 8 ≡ wire
    wire_type = omega arith

    field_number : key / 8 ≡ field
    field_number = omega arith

read_field-encode :
    (w : Written) (rest : List ℕ)
    → IsEncodable w
    → read_field (encode w ++ rest) ≡ ok (field_of w, value_of w, rest)
unfolding encode varint string
read_field-encode (as_varint field value) rest h =
    ap read_field (append_assoc (raw_varint (pos (field * 8))) (raw_varint value) rest)
    ∙ read_field_of (raw_varint (pos (field * 8)) ++ (raw_varint value ++ rest))
        (raw_varint value ++ rest) (field * 8) field 0 (number (mask64 value)) rest
        (read_key (field * 8) (raw_varint value ++ rest) (omega arith)) (omega arith) (omega arith)
        (read_value-varint value rest)
read_field-encode (as_string field value) rest (h, k) =
    let len = raw_varint (pos (length value)) in
    let key = raw_varint (pos (field * 8 + 2)) in
    ap read_field
      (append_assoc key (len ++ value) rest ∙ ap (◌++◌ key) (append_assoc len value rest))
    ∙ read_field_of (key ++ (len ++ (value ++ rest))) (len ++ (value ++ rest)) (field * 8 + 2) field
        2 (payload value) rest (read_key (field * 8 + 2) (len ++ (value ++ rest)) h) refl
        (omega arith) (read_value-string value rest k)

read_field-nil : {r : ℕ × WireValue × List ℕ} → read_field [] ≡ ok r → ⊥
unfolding read_field read_varint
read_field-nil e = cc

decode_loop-step :
    (fuel : ℕ) (out : Message) (bytes : List ℕ) (field : ℕ) (value : WireValue) (rest : List ℕ)
    → read_field bytes ≡ ok (field, value, rest)
    → decode_loop (suc fuel) out bytes ≡ decode_loop fuel (add_value field value out) rest
unfolding decode_loop
decode_loop-step fuel out [] field value rest h = absurd (read_field-nil h)
decode_loop-step fuel out (b ∷ bytes) field value rest h = rw h refl

decode_loop-nil : (fuel : ℕ) (out : Message) → decode_loop fuel out [] ≡ ok out
unfolding decode_loop
decode_loop-nil zero out = refl
decode_loop-nil (suc fuel) out = refl

-- the message that the fields make
collect : List Written → Message → Message
collect [] out = out
collect (w ∷ ws) out = collect ws (add_value (field_of w) (value_of w) out)

encode-pos : (w : Written) (rest : List ℕ) → IsEncodable w → 0 < length (encode w ++ rest)
encode-pos w rest h = filled (encode w ++ rest) (read_field-encode w rest h)
  where
    filled :
        (bytes : List ℕ) → read_field bytes ≡ ok (field_of w, value_of w, rest) → 0 < length bytes
    filled [] e = absurd (read_field-nil e)
    filled (b ∷ bytes) e = omega arith

fields_le : (ws : List Written) → All IsEncodable ws → length ws ≤ length (encode_all ws)
fields_le [] a = omega arith
fields_le (w ∷ ws) (h, a) = omega (
  arith,
  fields_le ws a,
  own,
  length-append (encode w) (encode_all ws),
  length-append (encode w) [],
)
  where
    own : 0 < length (encode w ++ [])
    own = encode-pos w [] h

decode_loop-encode_all :
    (ws : List Written) (fuel : ℕ) (out : Message)
    → All IsEncodable ws
    → length ws ≤ fuel
    → decode_loop fuel out (encode_all ws) ≡ ok (collect ws out)
unfolding collect
decode_loop-encode_all [] fuel out a le = decode_loop-nil fuel out
decode_loop-encode_all (w ∷ ws) zero out a le = absurd (omega (arith, le))
decode_loop-encode_all (w ∷ ws) (suc fuel) out (h, a) le =
    decode_loop-step fuel out (encode w ++ encode_all ws) (field_of w) (value_of w) (encode_all ws)
      (read_field-encode w (encode_all ws) h)
    ∙ decode_loop-encode_all ws fuel (add_value (field_of w) (value_of w) out) a (omega (arith, le))

values_of-add_value :
    (f g : ℕ) (v : WireValue) (out : Message)
    → values_of f (add_value g v out)
      ≡ (if g == f then values_of f out ++ v ∷ [] else values_of f out)
unfolding values_of add_value
values_of-add_value f g v [] = refl
values_of-add_value f g v ((j, values) ∷ out) = ground (arith, values_of-add_value f g v out)

-- the values that were written to this field, in order
abbrev pub written_to : ℕ → List Written → List WireValue
written_to f ws = map value_of (keep (λ w. field_of w == f) ws)

values_of-collect :
    (f : ℕ) (ws : List Written) (out : Message)
    → values_of f (collect ws out) ≡ values_of f out ++ written_to f ws
unfolding collect
values_of-collect f [] out = sym (append-nil (values_of f out))
values_of-collect f (w ∷ ws) out =
    values_of-collect f ws (add_value (field_of w) (value_of w) out)
    ∙ ap (λ vs. vs ++ written_to f ws) (values_of-add_value f (field_of w) (value_of w) out)
    ∙ elim (Bool-cases (field_of w == f)) [
      | inl e ↦ rw e (append_assoc (values_of f out) (value_of w ∷ []) (written_to f ws))
      | inr e ↦ rw e refl
    ]

-- What is written field by field decodes, and has under every field number exactly the values that
-- were written to it, in order: the numbers cut to 64 bits, the bytes as they are. The numbers of the
-- fields and the lengths of the values are such that they fit 64 bits.
pub decode-encode_all :
    (ws : List Written)
    → All IsEncodable ws
    → (m : Message) × (decode (encode_all ws) ≡ ok m) × ((f : ℕ) → values_of f m ≡ written_to f ws)
unfolding decode values_of
decode-encode_all ws a = (
  collect ws [],
  decode_loop-encode_all ws (length (encode_all ws)) [] a (fields_le ws a),
  λ f. values_of-collect f ws [],
)
