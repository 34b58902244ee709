-- ===== src/Wire.antt =====
-- Words of 64 bits and the byte formats of Go's encoding/binary that tsdb and server write.
-- A byte is a number below 256; an int64 is kept as its two's complement pattern below 2 ^ 64.
pub mod BigEndian
pub mod Uvarint
use qv_lite.Prelude.{ℕ, ◌+◌, ◌-◌, ◌*◌, ◌/◌, ◌%◌, ◌^◌, ◌≤◌, ◌<◌, ◌≡◌, Bool, arith}
use qv_lite.Prelude.{ltb, leb, if◌then◌else◌}

abbrev pub IsByte : ℕ → Type 0
IsByte b = b < 256

abbrev pub IsWord : ℕ → Type 0
IsWord v = v < 2 ^ 64

-- `a + b`, `a - b` and `a * b` of uint64, and of int64 patterns alike.
unfoldable pub add64 : ℕ → ℕ → ℕ
add64 a b = (a + b) % 2 ^ 64

unfoldable pub sub64 : ℕ → ℕ → ℕ
sub64 a b = (a + 2 ^ 64 - b) % 2 ^ 64

unfoldable pub mul64 : ℕ → ℕ → ℕ
mul64 a b = a * b % 2 ^ 64

-- `int64(x) >> 63`: no bits, or a word of ones.
unfoldable pub sign_word : ℕ → ℕ
sign_word x = if ltb x (2 ^ 63) then 0 else 2 ^ 64 - 1

-- The place of a pattern in the order of int64.
abbrev pub rank : ℕ → ℕ
rank x = (x + 2 ^ 63) % 2 ^ 64

-- `a <= b` and `a < b` of int64.
abbrev pub leb64 : ℕ → ℕ → Bool
leb64 a b = leb (rank a) (rank b)

abbrev pub ltb64 : ℕ → ℕ → Bool
ltb64 a b = ltb (rank a) (rank b)

pub add64-sub64 : (v p : ℕ) → IsWord v → IsWord p → add64 (sub64 v p) p ≡ v
unfolding add64 sub64
add64-sub64 v p hv hp = omega arith

pub sub64-IsWord : (v p : ℕ) → IsWord (sub64 v p)
unfolding sub64
sub64-IsWord v p = omega arith
