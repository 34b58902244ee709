-- ===== src/Codec/Flag/Bits.antt =====
-- The bits of a byte and of a list of bytes, highest bit first.
use qv_lite.Prelude.{
  ℕ, zero, suc, ◌+◌, ◌-◌, ◌*◌, ◌/◌, ◌%◌, ◌^◌, ◌<◌, ◌≡◌, refl, sym, ap, ◌∙◌, arith,
}
use qv_lite.Prelude.{
  Bool, true, false, List, [], ◌∷◌, ◌++◌, append-nil, append_assoc, length, length-append,
}
use qv_lite.Prelude.{
  some, get_or, get_elem?-get_or, replicate, replicate-append_one, ltb, ◌==◌, if◌then◌else◌,
  Bool-cases, inl, inr, get_or-append_front, get_or-append_back,
}
use qv_lite.Codec.Flag.{filler, bit_of, bit_at}
use native.Mathlib.Nat.{pow-suc, one-le-pow, mul_assoc}

abbrev pub low_bits : ℕ → ℕ → List Bool
low_bits zero b = []
low_bits (suc i) b = low_bits i (b / 2) ++ ((b % 2 == 1) ∷ [])

abbrev pub byte_bits : List ℕ → List Bool
byte_bits [] = []
byte_bits (b ∷ bs) = low_bits 8 b ++ byte_bits bs

pub byte_bits-append : (xs ys : List ℕ) → byte_bits (xs ++ ys) ≡ byte_bits xs ++ byte_bits ys
byte_bits-append [] ys = refl
byte_bits-append (x ∷ xs) ys =
    ap (λ l. low_bits 8 x ++ l) (byte_bits-append xs ys)
    ∙ sym (append_assoc (low_bits 8 x) (byte_bits xs) (byte_bits ys))

pub length-low_bits : (i b : ℕ) → length (low_bits i b) ≡ i
length-low_bits zero b = refl
length-low_bits (suc i) b =
    omega (arith, length-append (low_bits i (b / 2)) ((b % 2 == 1) ∷ []), length-low_bits i (b / 2))

pub low_bits_ones : (i : ℕ) → low_bits i (2 ^ i - 1) ≡ replicate i true
low_bits_ones zero = refl
low_bits_ones (suc i) =
    let half : (2 ^ suc i - 1) / 2 ≡ 2 ^ i - 1 = omega (arith, pow-suc 2 i, one-le-pow i 2) in
    let odd : ((2 ^ suc i - 1) % 2 == 1) ≡ true = ground (arith, pow-suc 2 i, one-le-pow i 2) in
    rw (half, odd, low_bits_ones i) (replicate-append_one i true)

pub low_bits_zeros : (i : ℕ) → low_bits i 0 ≡ replicate i false
low_bits_zeros zero = refl
low_bits_zeros (suc i) = rw (low_bits_zeros i) (replicate-append_one i false)

-- A byte of `i` bits that is moved to the left by `k` places.
pub low_bits_shifted :
    (n i k b : ℕ) → n ≡ i + k → low_bits n (b * 2 ^ k) ≡ low_bits i b ++ replicate k false
low_bits_shifted n i zero b h =
    let e : n ≡ i = omega arith in
    let one : b * 2 ^ 0 ≡ b = omega arith in rw (e, one, append-nil (low_bits i b)) refl
low_bits_shifted zero i (suc k) b h = absurd (omega arith)
low_bits_shifted (suc n) i (suc k) b h =
    let half : b * 2 ^ suc k / 2 ≡ b * 2 ^ k = omega (arith, doubled) in
    let even : (b * 2 ^ suc k % 2 == 1) ≡ false = ground (arith, doubled) in
    rw (half, even, low_bits_shifted n i k b (omega arith))
      (append_assoc (low_bits i b) (replicate k false) (false ∷ [])
        ∙ ap (λ l. low_bits i b ++ l) (replicate-append_one k false))
  where
    doubled : b * 2 ^ suc k ≡ b * 2 ^ k * 2
    doubled = ap (λ (t : ℕ). b * t) (pow-suc 2 k) ∙ sym (mul_assoc b (2 ^ k) 2)

pub low_bits_push :
    (i b : ℕ) (bit : Bool)
    → low_bits (suc i) (b * 2 + (if bit then 1 else 0)) ≡ low_bits i b ++ (bit ∷ [])
low_bits_push i b true =
    let half : (b * 2 + 1) / 2 ≡ b = omega arith in
    let odd : ((b * 2 + 1) % 2 == 1) ≡ true = ground arith in rw (half, odd) refl
low_bits_push i b false =
    let half : (b * 2 + 0) / 2 ≡ b = omega arith in
    let even : ((b * 2 + 0) % 2 == 1) ≡ false = ground arith in rw (half, even) refl

replicate-append : (m n : ℕ) (a : Bool) → replicate m a ++ replicate n a ≡ replicate (m + n) a
replicate-append zero n a = let e : 0 + n ≡ n = omega arith in rw e refl
replicate-append (suc m) n a =
    let e : suc m + n ≡ suc (m + n) = omega arith in rw (e, replicate-append m n a) refl

-- Whole bytes of one value, and what is left of it.
pub byte_bits-replicate :
    (k r : ℕ) (a : Bool)
    → byte_bits (replicate k (filler a)) ++ replicate r a ≡ replicate (8 * k + r) a
byte_bits-replicate zero r a = ap (λ n. replicate n a) (omega arith)
byte_bits-replicate (suc k) r true =
    append_assoc (low_bits 8 255) (byte_bits (replicate k 255)) (replicate r true)
    ∙ ap (λ l. low_bits 8 255 ++ l) (byte_bits-replicate k r true)
    ∙ replicate-append 8 (8 * k + r) true
    ∙ ap (λ n. replicate n true) (omega arith)
byte_bits-replicate (suc k) r false =
    append_assoc (low_bits 8 0) (byte_bits (replicate k 0)) (replicate r false)
    ∙ ap (λ l. low_bits 8 0 ++ l) (byte_bits-replicate k r false)
    ∙ replicate-append 8 (8 * k + r) false
    ∙ ap (λ n. replicate n false) (omega arith)

bit : {x : ℕ} {y : ℕ} → x ≡ y → (x % 2 == 1) ≡ (y % 2 == 1)
bit h = ap (λ (t : ℕ). t % 2 == 1) h

get_or-low_bits : (k v : ℕ) → k < 8 → get_or (low_bits 8 v) k false ≡ (v / 2 ^ (7 - k) % 2 == 1)
get_or-low_bits zero v h = bit {x = v / 2 / 2 / 2 / 2 / 2 / 2 / 2} (omega arith)
get_or-low_bits (suc zero) v h = bit {x = v / 2 / 2 / 2 / 2 / 2 / 2} (omega arith)
get_or-low_bits (suc (suc zero)) v h = bit {x = v / 2 / 2 / 2 / 2 / 2} (omega arith)
get_or-low_bits (suc (suc (suc zero))) v h = bit {x = v / 2 / 2 / 2 / 2} (omega arith)
get_or-low_bits (suc (suc (suc (suc zero)))) v h = bit {x = v / 2 / 2 / 2} (omega arith)
get_or-low_bits (suc (suc (suc (suc (suc zero))))) v h = bit {x = v / 2 / 2} (omega arith)
get_or-low_bits (suc (suc (suc (suc (suc (suc zero)))))) v h = bit {x = v / 2} (omega arith)
get_or-low_bits (suc (suc (suc (suc (suc (suc (suc zero))))))) v h = bit {x = v} (omega arith)
get_or-low_bits (suc (suc (suc (suc (suc (suc (suc (suc k)))))))) v h = absurd (omega arith)

-- The bit that `bit_at` reads in range.
abbrev bit_inside : List ℕ → ℕ → Bool
bit_inside b index = get_or b (index / 8) 0 / 2 ^ (7 - index % 8) % 2 == 1

bit_inside-byte_bits :
    (b : List ℕ) (index : ℕ)
    → index < 8 * length b
    → bit_inside b index ≡ get_or (byte_bits b) index false
bit_inside-byte_bits [] index h = absurd (omega arith)
bit_inside-byte_bits (v ∷ b) index h = elim (Bool-cases (ltb index 8)) [
  | inl near ↦
      let here : index / 8 ≡ 0 = ground arith in
      let same : index % 8 ≡ index = ground arith in
      let size = length-low_bits 8 v in
      rw (here, same)
        (sym (get_or-low_bits index v (ground arith))
          ∙ sym (get_or-append_front (low_bits 8 v) (byte_bits b) index false (ground arith)))
  | inr far ↦
      let later : index / 8 ≡ suc ((index - 8) / 8) = ground arith in
      let same : index % 8 ≡ (index - 8) % 8 = ground arith in
      let shift : index ≡ 8 + (index - 8) = ground arith in
      rw (later, same)
        (bit_inside-byte_bits b (index - 8) (ground arith)
          ∙ sym (get_or-append_back (low_bits 8 v) (byte_bits b) (index - 8) false)
          ∙ ap (λ k. get_or (byte_bits (v ∷ b)) k false) (sym shift))
]

-- `bit_at` reads the list of the bits.
pub bit_at-byte_bits :
    (b : List ℕ) (index : ℕ)
    → index < 8 * length b
    → bit_at b index ≡ some (get_or (byte_bits b) index false)
unfolding bit_at
bit_at-byte_bits b index h =
    let inside : index / 8 < length b = omega arith in
    ap (bit_of (index % 8)) (get_elem?-get_or b (index / 8) 0 inside)
    ∙ ap some (bit_inside-byte_bits b index h)

pub length-byte_bits : (bs : List ℕ) → length (byte_bits bs) ≡ 8 * length bs
length-byte_bits [] = refl
length-byte_bits (b ∷ bs) =
    omega
      (arith, length-append (low_bits 8 b) (byte_bits bs), length-low_bits 8 b, length-byte_bits bs)
