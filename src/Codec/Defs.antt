-- ===== src/Codec/Defs.antt =====
-- What the segment codecs share: results, marker bytes, and the interface of simple8b.
use qv_lite.Prelude.{ℕ, ◌≤◌, ◌≡◌, List, [], ◌∷◌, ◌++◌, Option, some, All}
use qv_lite.Wire.{IsWord}

pub data Error : Type 0 where
  bad_value pack_failed unpack_failed unknown_encoding short_data bad_uvarint : Error

-- Go's (value, error) pair.
pub data Result {ℓ} (A : Type ℓ) : Type ℓ where
  ok : A → Result A
  err : Error → Result A

-- Marker bytes.
abbrev pub int_uncompressed : ℕ
int_uncompressed = 0

abbrev pub int_compressed_simple : ℕ
int_compressed_simple = 1

abbrev pub int_compressed_rle : ℕ
int_compressed_rle = 2

-- github.com/jwilder/encoding/simple8b: `simple8b.MaxValue`, `EncodeAll` and `Decode` over words;
-- `pack` is `Write` of each number on a reset `Encoder` and then `Bytes`, and `unpack` is
-- `SetBytes` on a `Decoder` and then `Next` and `Read` to the end.
pub record Simple8b : Type 0 where
  pub max_value : ℕ
  pub encode_all : List ℕ → Option (List ℕ)
  pub decode : ℕ → Option (List ℕ)
  pub pack : List ℕ → Option (List ℕ)
  pub unpack : List ℕ → List ℕ

-- Decoding the words one after the other gives the numbers; no word is empty.
abbrev pub Unpacks : Simple8b → List ℕ → List ℕ → Type 0
Unpacks s [] xs = xs ≡ []
Unpacks s (w ∷ ws) xs =
    IsWord w
    × ((v : ℕ) × (vs : List ℕ) × (rest : List ℕ) × (s.decode w ≡ some (v ∷ vs))
        × (xs ≡ (v ∷ vs) ++ rest)
        × Unpacks s ws rest)

-- Numbers up to `max_value` are packed, and their words decode to them.
abbrev pub IsLossless : Simple8b → Type 0
IsLossless s =
    (xs : List ℕ)
    → All (λ x. x ≤ s.max_value) xs
    → (ws : List ℕ) × (s.encode_all xs ≡ some ws) × Unpacks s ws xs

abbrev pub PacksBack : Simple8b → Type 0
PacksBack s =
    (xs : List ℕ)
    → All (λ x. x ≤ s.max_value) xs
    → (packed : List ℕ) × (s.pack xs ≡ some packed) × (s.unpack packed ≡ xs)
