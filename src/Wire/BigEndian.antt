-- ===== src/Wire/BigEndian.antt =====
-- binary.BigEndian and binary.LittleEndian at any width.
use qv_lite.Prelude.{ℕ, zero, suc, ◌+◌, ◌*◌, ◌/◌, ◌%◌, ◌^◌, ◌<◌, ◌≡◌, refl, ap, arith}
use qv_lite.Prelude.{List, [], ◌∷◌, ◌++◌, length, length-append, All, All-append}
use qv_lite.Prelude.{take, drop, take-append, drop-append, ◌∙◌, ◌≤◌}
use native.Mathlib.Nat.{pow-suc}

-- The `k` bytes of `v`, highest first.
unfoldable pub put_be : ℕ → ℕ → List ℕ
put_be zero v = []
put_be (suc k) v = put_be k (v / 256) ++ (v % 256 ∷ [])

unfoldable pub get_be_from : ℕ → List ℕ → ℕ
get_be_from acc [] = acc
get_be_from acc (b ∷ bs) = get_be_from (acc * 256 + b) bs

unfoldable pub get_be : List ℕ → ℕ
unfolding get_be_from
get_be = get_be_from 0

-- The `k` bytes of `v`, lowest first.
unfoldable pub put_le : ℕ → ℕ → List ℕ
put_le zero v = []
put_le (suc k) v = (v % 256) ∷ put_le k (v / 256)

unfoldable pub get_le : List ℕ → ℕ
get_le [] = 0
get_le (b ∷ bs) = b + get_le bs * 256

pub length-put_be : (k v : ℕ) → length (put_be k v) ≡ k
unfolding put_be
length-put_be zero v = refl
length-put_be (suc k) v =
    omega (arith, length-append (put_be k (v / 256)) (v % 256 ∷ []), length-put_be k (v / 256))

get_be_from_append :
    (acc : ℕ) (xs : List ℕ) (b : ℕ)
    → get_be_from acc (xs ++ (b ∷ [])) ≡ get_be_from acc xs * 256 + b
unfolding get_be_from
get_be_from_append acc [] b = refl
get_be_from_append acc (x ∷ xs) b = get_be_from_append (acc * 256 + x) xs b

pub get_be-put_be : (k v : ℕ) → v < 256 ^ k → get_be (put_be k v) ≡ v
unfolding put_be get_be
get_be-put_be zero v h = omega arith
get_be-put_be (suc k) v h = omega (
  arith,
  get_be_from_append 0 (put_be k (v / 256)) (v % 256),
  get_be-put_be k (v / 256) (omega (arith, pow-suc 256 k)),
)

pub put_be-IsByte : (k v : ℕ) → All (λ b. b < 256) (put_be k v)
unfolding put_be
put_be-IsByte zero v = tt
put_be-IsByte (suc k) v =
    All-append (λ b. b < 256) (put_be k (v / 256)) (v % 256 ∷ []) (put_be-IsByte k (v / 256))
      (omega arith)

pub length-put_le : (k v : ℕ) → length (put_le k v) ≡ k
unfolding put_le
length-put_le zero v = refl
length-put_le (suc k) v = ap suc (length-put_le k (v / 256))

pub get_le-put_le : (k v : ℕ) → v < 256 ^ k → get_le (put_le k v) ≡ v
unfolding put_le get_le
get_le-put_le zero v h = omega arith
get_le-put_le (suc k) v h = omega (arith, get_le-put_le k (v / 256) (omega (arith, pow-suc 256 k)))

-- The bytes begin with the word `w`.
pub record Front (bytes : List ℕ) (w : ℕ) (rest : List ℕ) : Type 0 where
  pub enough : 8 ≤ length bytes
  pub word : get_be (take 8 bytes) ≡ w
  pub after : drop 8 bytes ≡ rest

pub put_be-Front : (w : ℕ) (rest : List ℕ) → w < 2 ^ 64 → Front (put_be 8 w ++ rest) w rest
put_be-Front w rest h = record {
  enough = omega (arith, length-append (put_be 8 w) rest, length-put_be 8 w);
  word = ap get_be (take-append 8 (put_be 8 w) rest (length-put_be 8 w)) ∙ get_be-put_be 8 w h;
  after = drop-append 8 (put_be 8 w) rest (length-put_be 8 w);
}
