-- ===== src/Tests/Strings.antt =====
-- The string codec at concrete inputs.
use qv_lite.Prelude.{
  ℕ, ◌≡◌, ◌≤◌, ◌<◌, ◌^◌, refl, sym, ap, ◌∙◌, arith, Option, none, List, [], ◌∷◌, some, true, false,
  length, map, drop, suc,
}
use qv_lite.Codec.Text
use qv_lite.Codec.Text.Size.{bytes_smallest}
use qv_lite.Codec.Text.RoundTrip.{string_round_trip}
use qv_lite.Wire.Uvarint.{put_uvarint}

-- A compression that adds ten bytes.
abbrev stored_plain : Text.Snappy
stored_plain = record {
  max_length = 1000;
  encode = λ xs. 0 ∷ 0 ∷ 0 ∷ 0 ∷ 0 ∷ 0 ∷ 0 ∷ 0 ∷ 0 ∷ 0 ∷ xs;
  decode = λ xs. some (drop 10 xs);
}

abbrev states : List (List ℕ)
states = (111 ∷ 110 ∷ []) ∷ (111 ∷ 102 ∷ 102 ∷ []) ∷ (111 ∷ 110 ∷ []) ∷ []

states_dict :
    Text.bytes stored_plain (Text.write_all states Text.new_encoder)
    ≡ some (11 ∷ 2 ∷ 2 ∷ 111 ∷ 110 ∷ 3 ∷ 111 ∷ 102 ∷ 102 ∷ 0 ∷ 1 ∷ 0 ∷ [])
unfolding Text.bytes Text.write_all put_uvarint Text.uvarint_len
states_dict = refl

abbrev length_of : Option (List ℕ) → ℕ
length_of none = 0
length_of (some b) = length b

states_taken : length (Text.entries states) ≤ stored_plain.max_length
unfolding put_uvarint
states_taken = omega arith

states_raw : length (Text.write_all states Text.new_encoder).bytes ≤ stored_plain.max_length
unfolding Text.write_all put_uvarint
states_raw = omega arith

states_total : length (Text.entries states) < 2 ^ 63
unfolding put_uvarint
states_total = omega arith

states_stored :
    (b : List ℕ)
    → Text.bytes stored_plain (Text.write_all states Text.new_encoder) ≡ some b
    → length b < 2 ^ 63
states_stored b h =
    let size : 12 ≡ length b = ap length_of (sym states_dict ∙ h) in omega (arith, size)

string_round_trip_example :
    (b : List ℕ) × (Text.bytes stored_plain (Text.write_all states Text.new_encoder) ≡ some b)
    × ((d : Text.Decoder) × (Text.set_bytes stored_plain (λ n. true) b ≡ Text.returns d)
        × (Text.drain 4 d ≡ some (map some states)))
string_round_trip_example =
    string_round_trip stored_plain (λ n. true) states (λ x h. refl) (λ n h. refl) states_taken
      states_total states_stored

bytes_smallest_example :
    (length (Text.encode_dict (Text.write_all states Text.new_encoder))
      ≡ Text.dict_encoded_len (Text.write_all states Text.new_encoder))
    × ((b : List ℕ) × (Text.bytes stored_plain (Text.write_all states Text.new_encoder) ≡ some b)
        × (length b
            ≤ suc (length (stored_plain.encode (Text.write_all states Text.new_encoder).bytes)))
        × ((Text.write_all states Text.new_encoder).dict_full ≡ false
            → length b ≤ length (Text.encode_dict (Text.write_all states Text.new_encoder))))
bytes_smallest_example =
    bytes_smallest stored_plain (Text.write_all states Text.new_encoder) states_raw
