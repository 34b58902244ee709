-- ===== src/Index/Search.antt =====
-- The binary search of `sort.Search` finds the border of a monotone test.
use qv_lite.Prelude.{
  ℕ, zero, suc, ◌+◌, ◌/◌, ◌≤◌, ◌<◌, ◌≡◌, arith, Bool, true, false, Bool-cases, inl, inr,
}
use qv_lite.Prelude.{ltb}
use qv_lite.Index.{search_from, sort_search}

-- `f` fails below `r` and holds from there up to `n`.
pub record Border (n : ℕ) (f : ℕ → Bool) (r : ℕ) : Type 0 where
  pub below : (k : ℕ) → k < r → f k ≡ false
  pub above : (k : ℕ) → r ≤ k → k < n → f k ≡ true
  pub inside : r ≤ n

abbrev pub IsMonotone : ℕ → (ℕ → Bool) → Type 0
IsMonotone n f = (i j : ℕ) → i ≤ j → j < n → f i ≡ true → f j ≡ true

search_from-Border :
    (fuel n : ℕ) (f : ℕ → Bool) (i j : ℕ)
    → IsMonotone n f
    → j ≤ n
    → i ≤ j
    → j ≤ fuel + i
    → ((k : ℕ) → k < i → f k ≡ false)
    → ((k : ℕ) → j ≤ k → k < n → f k ≡ true)
    → Border n f (search_from fuel f i j)
unfolding search_from
search_from-Border zero n f i j mono hj hi hf low high = record {
  below = low;
  above = λ k hk. high k (omega arith);
  inside = omega arith;
}
search_from-Border (suc fuel) n f i j mono hj hi hf low high = elim (Bool-cases (ltb i j)) [
  | inr done ↦
      let met : j ≤ i = ground arith in
      rw done (record { below = low; above = λ k hk. high k (omega arith); inside = omega arith })
  | inl open_interval ↦
      let wide : i < j = ground arith in
      elim (Bool-cases (f ((i + j) / 2))) [
        | inl hit ↦
            rw (open_interval, hit)
              (search_from-Border fuel n f i ((i + j) / 2) mono (omega arith) (omega arith)
                (omega arith) low (λ k hk hn. mono ((i + j) / 2) k hk hn hit))
        | inr miss ↦
            rw (open_interval, miss)
              (search_from-Border fuel n f ((i + j) / 2 + 1) j mono hj (omega arith) (omega arith)
                (λ k hk. misses n f mono ((i + j) / 2) k (omega arith) (omega arith) miss) high)
      ]
]
  where
    misses :
        (n : ℕ) (f : ℕ → Bool)
        → IsMonotone n f
        → (h k : ℕ) → k ≤ h
        → h < n
        → f h ≡ false
        → f k ≡ false
    misses n f mono h k hk hn miss = elim (Bool-cases (f k)) [
      | inr no' ↦ no'
      | inl yes' ↦ let wrong : f h ≡ true = mono k h hk hn yes' in cc
    ]

pub sort_search-Border : (n : ℕ) (f : ℕ → Bool) → IsMonotone n f → Border n f (sort_search n f)
sort_search-Border n f mono =
    search_from-Border n n f 0 n mono (omega arith) (omega arith) (omega arith)
      (λ k hk. absurd (omega arith)) (λ k hk hn. absurd (omega arith))
