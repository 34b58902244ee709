-- ===== src/Wire/Uvarint.antt =====
-- binary.PutUvarint and binary.Uvarint: seven bits a byte, lowest group first.
use qv_lite.Prelude.{ℕ, zero, suc, ◌+◌, ◌*◌, ◌/◌, ◌%◌, ◌^◌, ◌≤◌, ◌<◌, ◌≡◌, ap, arith}
use qv_lite.Prelude.{◌&&◌, Option, none, some, List, [], ◌∷◌, ◌++◌, length}
use qv_lite.Prelude.{ltb, ◌==◌, if◌then◌else◌}
use native.Mathlib.Nat.{pow-suc, div-add-mod}

-- At most `k` bytes with the top bit set, then the last one.
unfoldable pub put_groups : ℕ → ℕ → List ℕ
put_groups zero v = v ∷ []
put_groups (suc k) v =
    let rest = put_groups k (v / 128) in if ltb v 128 then v ∷ [] else (v % 128 + 128) ∷ rest

-- A uint64 takes at most ten bytes.
unfoldable pub put_uvarint : ℕ → List ℕ
unfolding put_groups
put_uvarint v = put_groups 9 v

-- The `i`-th byte counts `scale` fold. The result is the value and the bytes read; `none` stands
-- for a count `n <= 0`: the input ends inside the number, or it does not fit 64 bits.
unfoldable pub get_groups : List ℕ → ℕ → ℕ → ℕ → Option (ℕ × ℕ)
get_groups [] i scale x = none
get_groups (b ∷ bs) i scale x =
    let more = get_groups bs (i + 1) (scale * 128) (x + b % 128 * scale) in
    if i == 10
    then none
    else if ltb b 128
    then (if i == 9 && ltb 1 b then none else some (x + b * scale, i + 1))
    else more

unfoldable pub get_uvarint : List ℕ → Option (ℕ × ℕ)
unfolding get_groups
get_uvarint b = get_groups b 0 1 0

split_scaled : (v s : ℕ) → v * s ≡ v % 128 * s + v / 128 * (s * 128)
split_scaled v s = omega (arith, ap (λ (t : ℕ). t * s) (div-add-mod v 128))

get_groups-put_groups :
    (k v i scale x : ℕ) (rest : List ℕ)
    → i + k ≡ 9
    → v < 2 * 128 ^ k
    → get_groups (put_groups k v ++ rest) i scale x
      ≡ some (x + v * scale, i + length (put_groups k v))
unfolding put_groups get_groups
get_groups-put_groups zero v i scale x rest hi hv = ground arith
get_groups-put_groups (suc k) v i scale x rest hi hv = ground (
  arith,
  split_scaled v scale,
  pow-suc 128 k,
  get_groups-put_groups k (v / 128) (i + 1) (scale * 128) (x + v % 128 * scale) rest,
)

-- A uint64 is read back from the front of whatever follows it.
pub get_uvarint-put_uvarint :
    (v : ℕ) (rest : List ℕ)
    → v < 2 ^ 64
    → get_uvarint (put_uvarint v ++ rest) ≡ some (v, length (put_uvarint v))
unfolding get_uvarint put_uvarint
get_uvarint-put_uvarint v rest h = ground (arith, get_groups-put_groups 9 v 0 1 0 rest)

length-put_groups : (k v : ℕ) → (1 ≤ length (put_groups k v)) × (length (put_groups k v) ≤ k + 1)
unfolding put_groups
length-put_groups zero v = omega arith
length-put_groups (suc k) v = ground (arith, length-put_groups k (v / 128))

pub length-put_uvarint : (v : ℕ) → (1 ≤ length (put_uvarint v)) × (length (put_uvarint v) ≤ 10)
unfolding put_uvarint
length-put_uvarint v = length-put_groups 9 v
