-- ===== src/Codec/Int/Deltas.antt =====
-- The zigzag deltas of a list of integers, and their sum.
use qv_lite.Prelude.{ℕ, zero, suc, ◌+◌, ◌≡◌, refl, ap₂, arith}
use qv_lite.Prelude.{List, [], ◌∷◌, All, replicate, length}
use qv_lite.Wire.{IsWord, add64, sub64, mul64, add64-sub64, sub64-IsWord}
use qv_lite.Codec.ZigZag.{zigzag_encode, zigzag_decode, zigzag_decode-encode, zigzag_encode-IsWord}

abbrev pub deltas : ℕ → List ℕ → List ℕ
deltas prev [] = []
deltas prev (v ∷ vs) = zigzag_encode (sub64 v prev) ∷ deltas v vs

abbrev pub undelta : ℕ → List ℕ → List ℕ
undelta prev [] = []
undelta prev (w ∷ ws) = let v = add64 (zigzag_decode w) prev in v ∷ undelta v ws

pub undelta_step :
    (v prev : ℕ)
    → IsWord v
    → IsWord prev
    → add64 (zigzag_decode (zigzag_encode (sub64 v prev))) prev ≡ v
undelta_step v prev hv hp =
    rw (zigzag_decode-encode (sub64 v prev) (sub64-IsWord v prev)) (add64-sub64 v prev hv hp)

pub undelta-deltas :
    (prev : ℕ) (vs : List ℕ) → IsWord prev → All IsWord vs → undelta prev (deltas prev vs) ≡ vs
undelta-deltas prev [] hp h = refl
undelta-deltas prev (v ∷ vs) hp (hv, h) =
    rw (undelta_step v prev hv hp) (ap₂ ◌∷◌ refl (undelta-deltas v vs hv h))

pub deltas-IsWord : (prev : ℕ) (vs : List ℕ) → All IsWord (deltas prev vs)
deltas-IsWord prev [] = tt
deltas-IsWord prev (v ∷ vs) =
    (zigzag_encode-IsWord (sub64 v prev) (sub64-IsWord v prev), deltas-IsWord v vs)

pub length-deltas : (prev : ℕ) (vs : List ℕ) → length (deltas prev vs) ≡ length vs
length-deltas prev [] = refl
length-deltas prev (v ∷ vs) = omega (arith, length-deltas v vs)

-- `k` values of an arithmetic progression, from its `i`-th on.
abbrev pub progression : ℕ → ℕ → ℕ → ℕ → List ℕ
progression base step i zero = []
progression base step i (suc k) = add64 base (mul64 i step) ∷ progression base step (i + 1) k

progression_next :
    (base step i : ℕ) → add64 step (add64 base (mul64 i step)) ≡ add64 base (mul64 (i + 1) step)
unfolding add64 mul64
progression_next base step i = omega arith

-- Equal deltas make a progression.
pub undelta-replicate :
    (base d i k : ℕ)
    → undelta (add64 base (mul64 i (zigzag_decode d))) (replicate k d)
      ≡ progression base (zigzag_decode d) (i + 1) k
undelta-replicate base d i zero = refl
undelta-replicate base d i (suc k) =
    rw (progression_next base (zigzag_decode d) i)
      (ap₂ ◌∷◌ refl (undelta-replicate base d (i + 1) k))
