-- ===== src/Protowire.antt =====
-- app/services/app_sources/protowire.py: the wire format of protocol buffers. Bytes are numbers below
-- 256. A text is turned into its UTF-8 bytes before `string` is called.
pub mod Varint
pub mod RoundTrip
pub mod Errors
pub mod Termination
use tak_mdm.Base.{
  ℕ, zero, suc, ◌+◌, ◌-◌, ◌*◌, ◌/◌, ◌%◌, ◌^◌, String, Bool, true, false, Option, none, some, List,
  [], ◌∷◌, ◌++◌, length, take, drop, if◌then◌else◌, ltb, leb, ◌==◌, ◌||◌,
}
use tak_mdm.Base.Int.{ℤ, pos, negsuc}

pub data WireError : Type 0 where
  truncated_varint : WireError
  truncated_fixed64 : WireError
  truncated_field : WireError
  truncated_fixed32 : WireError
  unsupported : ℕ → WireError

pub data Result (A : Type 0) : Type 0 where
  ok : A → Result A
  err : WireError → Result A

infixl 5 ◌>>=◌
abbrev pub ◌>>=◌ : {A B : Type 0} → Result A → (A → Result B) → Result B
ok a >>= f = f a
err e >>= f = err e

-- `n & ((1 << 64) - 1)`
unfoldable pub mask64 : ℤ → ℕ
mask64 (pos n) = n % 2 ^ 64
mask64 (negsuc n) = 2 ^ 64 - 1 - n % 2 ^ 64

-- The loop of `_varint`, with fuel for the groups of seven bits.
unfoldable pub varint_loop : ℕ → ℕ → List ℕ
varint_loop zero n = []
varint_loop (suc fuel) n =
    let rest = varint_loop fuel (n / 128) in
    if n / 128 == 0 then n % 128 ∷ [] else (n % 128 + 128) ∷ rest

-- `_varint`: a number of 64 bits has at most ten groups.
unfoldable pub raw_varint : ℤ → List ℕ
unfolding mask64 varint_loop
raw_varint n = varint_loop 10 (mask64 n)

unfoldable pub varint : ℕ → ℤ → List ℕ
unfolding raw_varint
varint field value = raw_varint (pos (field * 8)) ++ raw_varint value

unfoldable pub string : ℕ → List ℕ → List ℕ
unfolding raw_varint
string field value = raw_varint (pos (field * 8 + 2)) ++ (raw_varint (pos (length value)) ++ value)

-- The loop of `_read_varint`, on the bytes from `buf[i]` on. The number of groups that may still be read
-- takes the place of `shift > 63`: there are ten.
unfoldable pub read_groups : ℕ → ℕ → ℕ → List ℕ → Result (ℕ × List ℕ)
read_groups zero scale result bytes = err truncated_varint
read_groups (suc groups) scale result [] = err truncated_varint
read_groups (suc groups) scale result (b ∷ bytes) =
    let rest = read_groups groups (scale * 128) (result + b % 128 * scale) bytes in
    if ltb b 128 then ok (result + b % 128 * scale, bytes) else rest

unfoldable pub read_varint : List ℕ → Result (ℕ × List ℕ)
unfolding read_groups
read_varint bytes = read_groups 10 1 0 bytes

pub data WireValue : Type 0 where
  number : ℕ → WireValue
  payload : List ℕ → WireValue

-- field numbers with their values, both in the order of arrival
abbrev pub Message : Type 0
Message = List (ℕ × List WireValue)

-- `out.setdefault(field, []).append(value)`
unfoldable pub add_value : ℕ → WireValue → Message → Message
add_value field value [] = (field, value ∷ []) ∷ []
add_value field value ((f, values) ∷ out) =
    let rest = add_value field value out in
    if f == field then (f, values ++ value ∷ []) ∷ out else (f, values) ∷ rest

-- `struct.unpack` of an unsigned number
unfoldable pub little_endian : List ℕ → ℕ
little_endian [] = 0
little_endian (b ∷ bytes) = b + 256 * little_endian bytes

-- the value of a field of this wire type, and the bytes after it
unfoldable pub read_value : ℕ → List ℕ → Result (WireValue × List ℕ)
unfolding read_varint little_endian
read_value wire_type bytes =
    if wire_type == 0
    then (read_varint bytes >>= λ (v : ℕ × List ℕ). ok (number v.0, v.1))
    else if wire_type == 1
    then if ltb (length bytes) 8
      then err truncated_fixed64
      else ok (number (little_endian (take 8 bytes)), drop 8 bytes)
    else if wire_type == 2
    then (read_varint bytes >>= λ (v : ℕ × List ℕ).
        if ltb (length v.1) v.0
        then err truncated_field
        else ok (payload (take v.0 v.1), drop v.0 v.1))
    else if wire_type == 5
    then if ltb (length bytes) 4
      then err truncated_fixed32
      else ok (number (little_endian (take 4 bytes)), drop 4 bytes)
    else err (unsupported wire_type)

-- one round of the loop of `decode`: the field, its value and the bytes after them
unfoldable pub read_field : List ℕ → Result (ℕ × WireValue × List ℕ)
unfolding read_varint read_value
read_field bytes = read_varint bytes >>= λ (key : ℕ × List ℕ).
    read_value (key.0 % 8) key.1 >>= λ (v : WireValue × List ℕ). ok (key.0 / 8, v.0, v.1)

-- The loop of `decode`, with fuel: each round reads a byte.
unfoldable pub decode_loop : ℕ → Message → List ℕ → Result Message
unfolding read_field add_value
decode_loop fuel out [] = ok out
decode_loop zero out (b ∷ bytes) = ok out
decode_loop (suc fuel) out (b ∷ bytes) = read_field (b ∷ bytes) >>= λ (r : ℕ × WireValue × List ℕ).
    decode_loop fuel (add_value r.0 r.1 out) r.2

unfoldable pub decode : List ℕ → Result Message
unfolding decode_loop
decode bytes = decode_loop (length bytes) [] bytes

-- `decode(buf).get(field)`, with no values for a missing field
unfoldable pub values_of : ℕ → Message → List WireValue
values_of field [] = []
values_of field ((f, values) ∷ out) =
    let rest = values_of field out in if f == field then values else rest

-- `values[0] if values else None`
unfoldable pub head_of : List WireValue → Option WireValue
head_of [] = none
head_of (v ∷ vs) = some v

unfoldable pub first : Option WireValue → List ℕ → Result (Option WireValue)
unfolding decode values_of head_of
first buf [] = ok buf
first none (field ∷ fields) = ok none
first (some (number n)) (field ∷ fields) = ok none
first (some (payload bytes)) (field ∷ fields) =
    decode bytes >>= λ (out : Message). first (head_of (values_of field out)) fields

-- `value.decode("utf-8", errors="replace")` is a parameter.
unfoldable pub text : (List ℕ → String) → Option WireValue → Option String
text from_utf8 none = none
text from_utf8 (some (number n)) = none
text from_utf8 (some (payload [])) = none
text from_utf8 (some (payload (b ∷ bytes))) = some (from_utf8 (b ∷ bytes))
