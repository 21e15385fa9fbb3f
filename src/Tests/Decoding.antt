-- ===== src/Tests/Decoding.antt =====
-- The theorems on app/services/app_sources/protowire.py, at concrete messages.
use tak_mdm.Base.{ℕ, ◌≡◌, refl, List, [], ◌∷◌, length, take, arith}
use tak_mdm.Base.Int.{pos, negsuc}
use tak_mdm.Protowire.{
  WireError, err, ok, Message, decode, decode_loop, values_of, raw_varint, mask64, varint_loop,
  varint,
}
use tak_mdm.Protowire.RoundTrip.{
  Written, as_varint, as_string, encode, encode_all, written_to, decode-encode_all,
}
use tak_mdm.Protowire.Errors.{decode_cut}
use tak_mdm.Protowire.Termination.{decode_loop_enough}

abbrev fields : List Written
fields = as_varint 1 (pos 300) ∷ as_string 2 (104 ∷ 105 ∷ []) ∷ as_varint 1 (negsuc 0) ∷ []

decode-encode_all_example :
    (m : Message) × (decode (encode_all fields) ≡ ok m)
    × ((f : ℕ) → values_of f m ≡ written_to f fields)
decode-encode_all_example =
    decode-encode_all fields (omega arith, ((omega arith, omega arith), (omega arith, tt)))

decode_cut_example : (e : WireError) × (decode (take 2 (encode (as_varint 1 (pos 300)))) ≡ err e)
unfolding encode varint raw_varint varint_loop mask64
decode_cut_example = decode_cut (as_varint 1 (pos 300)) 2 (omega arith) (omega arith) (omega arith)

decode_loop_enough_example : decode_loop 9 [] (8 ∷ 1 ∷ []) ≡ decode_loop 2 [] (8 ∷ 1 ∷ [])
decode_loop_enough_example = decode_loop_enough 9 2 [] (8 ∷ 1 ∷ []) (omega arith) (omega arith)

-- 300 takes two bytes, and -1 ten.
raw_varint_300 : raw_varint (pos 300) ≡ 172 ∷ 2 ∷ []
unfolding raw_varint
raw_varint_300 = refl

raw_varint_minus_one : length (raw_varint (negsuc 0)) ≡ 10
unfolding raw_varint
raw_varint_minus_one = refl
