-- ===== src/Codec/ZigZag.antt =====
-- ZigZagEncode and ZigZagDecode of tsdb/segment_compression.go.
use qv_lite.Prelude.{ℕ, ◌+◌, ◌-◌, ◌*◌, ◌/◌, ◌%◌, ◌^◌, ◌≤◌, ◌<◌, ◌≡◌, arith, bit_xor}
use qv_lite.Prelude.{ltb, if◌then◌else◌}
use qv_lite.Prelude.Xor.{bit_xor-zero, bit_xor_ones}
use qv_lite.Wire.{IsWord, sign_word}

-- `uint64(x<<1) ^ uint64(int64(x)>>63)`
unfoldable pub zigzag_encode : ℕ → ℕ
unfolding sign_word
zigzag_encode x = bit_xor (x * 2 % 2 ^ 64) (sign_word x)

-- `int64((v >> 1) ^ uint64((int64(v&1)<<63)>>63))`
unfoldable pub zigzag_decode : ℕ → ℕ
unfolding sign_word
zigzag_decode v = bit_xor (v / 2) (sign_word (v % 2 * 2 ^ 63 % 2 ^ 64))

-- The two in plain arithmetic.
pub zigzag_encode_lem :
    (x : ℕ) → IsWord x → zigzag_encode x ≡ (if ltb x (2 ^ 63) then 2 * x else 2 ^ 65 - 1 - 2 * x)
unfolding zigzag_encode
zigzag_encode_lem x h =
    ground (arith, bit_xor-zero (x * 2 % 2 ^ 64), bit_xor_ones 64 (x * 2 % 2 ^ 64))

pub zigzag_decode_lem :
    (v : ℕ) → IsWord v → zigzag_decode v ≡ (if ltb (v % 2) 1 then v / 2 else 2 ^ 64 - 1 - v / 2)
unfolding zigzag_decode
zigzag_decode_lem v h = ground (arith, bit_xor-zero (v / 2), bit_xor_ones 64 (v / 2))

pub zigzag_encode-IsWord : (x : ℕ) → IsWord x → IsWord (zigzag_encode x)
zigzag_encode-IsWord x h = ground (arith, zigzag_encode_lem x)

pub zigzag_decode-encode : (x : ℕ) → IsWord x → zigzag_decode (zigzag_encode x) ≡ x
zigzag_decode-encode x h =
    ground (arith, zigzag_encode_lem x, zigzag_decode_lem (zigzag_encode x), zigzag_encode-IsWord x)

-- Zigzag is a bijection of the 64-bit words: each of the two functions undoes the other.
pub zigzag_bijective :
    (x : ℕ)
    → IsWord x
    → (zigzag_decode (zigzag_encode x) ≡ x) × (zigzag_encode (zigzag_decode x) ≡ x)
zigzag_bijective x h = (zigzag_decode-encode x h, back)
  where
    back : zigzag_encode (zigzag_decode x) ≡ x
    back = ground (arith, zigzag_decode_lem x, zigzag_encode_lem (zigzag_decode x))

-- A signed number of magnitude at most `m` is encoded by at most `2 * m`.
pub zigzag_small :
    (x m : ℕ) → IsWord x → (x + m) % 2 ^ 64 ≤ 2 * m → m < 2 ^ 63 → zigzag_encode x ≤ 2 * m
zigzag_small x m h near hm = ground (arith, zigzag_encode_lem x)
