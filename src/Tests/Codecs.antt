-- ===== src/Tests/Codecs.antt =====
-- The segment codecs at concrete inputs.
use qv_lite.Prelude.{ℕ, ◌-◌, ◌^◌, ◌≡◌, refl, arith, List, [], ◌∷◌, some, none}
use qv_lite.Wire.{sub64}
use qv_lite.Wire.BigEndian.{put_be}
use qv_lite.Wire.Uvarint.{put_uvarint}
use qv_lite.Codec.Defs.{ok}
use qv_lite.Codec.ZigZag.{zigzag_encode, zigzag_decode, zigzag_bijective}
use qv_lite.Codec.Int
use qv_lite.Codec.Int.RoundTrip.{int_round_trip}
use qv_lite.Codec.Time
use qv_lite.Codec.Time.RoundTrip.{time_round_trip}
use qv_lite.Codec.Flag
use qv_lite.Codec.Flag.RoundTrip.{flag_round_trip, flag_reuse}
use qv_lite.Prelude.{Bool, true, false, drop}
use qv_lite.Tests.Packing.{plain, plain-IsLossless, plain-PacksBack}

zigzag_minus_one : zigzag_encode (2 ^ 64 - 1) ≡ 1
unfolding zigzag_encode
zigzag_minus_one = refl

zigzag_bijective_example :
    (zigzag_decode (zigzag_encode (2 ^ 64 - 3)) ≡ 2 ^ 64 - 3)
    × (zigzag_encode (zigzag_decode (2 ^ 64 - 3)) ≡ 2 ^ 64 - 3)
zigzag_bijective_example = zigzag_bijective (2 ^ 64 - 3) (omega arith)

abbrev readings : List ℕ
readings = 20 ∷ 25 ∷ (2 ^ 64 - 3) ∷ 7 ∷ []

int_round_trip_example :
    (stored : List ℕ) × (Int.bytes plain
        (Int.write_all (λ (v : ℕ). some v) readings Int.new_encoder)
      ≡ ok stored)
    × (Int.drain plain 5 (Int.set_bytes stored Int.new_decoder) ≡ some (readings, none))
int_round_trip_example =
    int_round_trip plain (λ (v : ℕ). some v) readings readings plain-IsLossless refl (omega arith)
      (omega arith) Int.new_decoder

abbrev old_decoder : Time.Decoder
old_decoder = record {
  v = 9;
  at = 4;
  n = 7;
  ts = 1 ∷ [];
  rle_delta = 3;
  encoding = 2;
  error = none;
}

time_round_trip_example :
    (stored : List ℕ) × ((Time.bytes plain
        (Time.write_all (1000 ∷ 2000 ∷ 3500 ∷ []) Time.new_encoder)).1
      ≡ ok stored)
    × (Time.drain 4 (Time.init plain stored old_decoder) ≡ some (1000 ∷ 2000 ∷ 3500 ∷ [], none))
time_round_trip_example =
    time_round_trip plain 1000 (2000 ∷ 3500 ∷ []) plain-PacksBack (omega arith) (omega arith)
      old_decoder

-- Three timestamps at equal distances are stored as a run: the exponent is 3, the scaled delta 1.
time_run :
    (Time.bytes plain (Time.write_all (1000 ∷ 2000 ∷ 3000 ∷ []) Time.new_encoder)).1
    ≡ ok (35 ∷ 0 ∷ 0 ∷ 0 ∷ 0 ∷ 0 ∷ 0 ∷ 3 ∷ 232 ∷ 1 ∷ 3 ∷ [])
unfolding Time.bytes Time.write_all Time.reduce Time.encode_rle sub64 put_be put_uvarint
time_run = refl

abbrev switches : List Bool
switches = true ∷ true ∷ true ∷ false ∷ true ∷ false ∷ false ∷ true ∷ true ∷ []

flag_round_trip_example :
    (d' : Flag.Decoder) × (Flag.set_bytes
        (Flag.bytes (Flag.write_all (λ (v : Bool). some v) switches Flag.new_encoder))
        (record Flag.new_decoder { i = 2 })
      ≡ some d')
    × (Flag.drain 10 d' ≡ some (drop 2 switches, record d' { i = 10 }))
flag_round_trip_example =
    flag_round_trip (λ (v : Bool). some v) switches switches refl (omega arith)
      (record Flag.new_decoder { i = 2 }) refl

flag_reuse_example :
    (d : Flag.Decoder) × (used : Flag.Decoder) × (d' : Flag.Decoder) × (end : Flag.Decoder)
    × (Flag.set_bytes
          (Flag.bytes (Flag.write_all (λ (v : Bool). some v) switches Flag.new_encoder))
          Flag.new_decoder
        ≡ some d)
    × (Flag.drain 10 d ≡ some (switches, used))
    × (Flag.set_bytes
          (Flag.bytes (Flag.write_all (λ (v : Bool). some v) (true ∷ false ∷ []) Flag.new_encoder))
          used
        ≡ some d')
    × (Flag.drain 3 d' ≡ some ([], end))
flag_reuse_example =
    flag_reuse (λ (v : Bool). some v) switches (true ∷ false ∷ []) switches (true ∷ false ∷ []) refl
      refl (omega arith) (omega arith) (omega arith) (omega arith)

-- Nine mixed values: one full byte and one bit of a second.
flag_packed :
    Flag.bytes (Flag.write_all (λ (v : Bool). some v) switches Flag.new_encoder)
    ≡ 6 ∷ 0 ∷ 0 ∷ 0 ∷ 0 ∷ 0 ∷ 0 ∷ 0 ∷ 9 ∷ 233 ∷ 128 ∷ []
unfolding Flag.bytes Flag.write_all put_be Flag.push Flag.pack Flag.break_run mathlib.Core.Bool.xor
    Flag.start_run Flag.cancel_rle Flag.shift_in
flag_packed = refl
