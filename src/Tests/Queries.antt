-- ===== src/Tests/Queries.antt =====
-- The iterator of a query at concrete inputs: two sources of numbers.
use qv_lite.Prelude.{
  ℕ, ◌≡◌, ◌++◌, refl, arith, Bool, false, Bool-cases, inl, inr, List, [], ◌∷◌, none, some, ltb,
  ◌==◌, if◌then◌else◌,
}
use qv_lite.Query.{Pull, found, ended, failed, Verdict, keep, leave, broken, drain, query_iter}
use qv_lite.Query.Merged.{drain-page}
use qv_lite.Query.Results.{query, query_points, result_limit_exceeded}
use qv_lite.Query.Results.Bounded.{at_most, query-drain}
use qv_lite.Query.Walk.{for_each_query_point}
use qv_lite.Query.Walk.Counters.{collect}
use qv_lite.Query.Walk.Pages.{for_each_query_point-drain}

-- A list gives its points and then an end that is the number 9, an error.
abbrev pull_point : List ℕ → List ℕ × Pull ℕ ℕ
pull_point [] = ([], ended)
pull_point (x ∷ xs) = (xs, if x == 9 then failed 9 else found x)

-- Numbers below 5 pass, and 7 breaks the condition.
abbrev below_five : ℕ → Verdict ℕ
below_five x = if x == 7 then broken 7 else if ltb x 5 then keep else leave

-- One point is left out and two are given; 7 is not looked at any more.
drain-page_example :
    drain pull_point pull_point
      (some below_five)
      (λ t. none)
      9
      9
      (query_iter 2 1 (1 ∷ 6 ∷ 2 ∷ []) (3 ∷ 7 ∷ []))
    ≡ (2 ∷ 3 ∷ [], none)
drain-page_example =
    drain-page pull_point pull_point (some below_five) (λ t. none) 2 1 (1 ∷ 6 ∷ 2 ∷ []) (3 ∷ 7 ∷ [])
      (1 ∷ 6 ∷ 2 ∷ []) (3 ∷ 7 ∷ []) none none 9 9 (λ h. absurd (omega (arith, h))) (λ t. refl)
      (refl, (refl, (refl, refl))) (refl, (refl, refl)) (omega arith) (omega arith)

-- Without a limit the error of the condition ends the query.
broken_condition :
    drain pull_point pull_point
      (some below_five)
      (λ t. none)
      9
      9
      (query_iter 0 1 (1 ∷ 6 ∷ 2 ∷ []) (3 ∷ 7 ∷ []))
    ≡ (2 ∷ 3 ∷ [], some 7)
unfolding drain
broken_condition = refl

abbrev small_only : ℕ → Verdict ℕ
small_only x = if ltb x 5 then keep else leave

small_only-NeverBroken : (x e : ℕ) → small_only x ≡ broken e → ⊥
small_only-NeverBroken x e h = elim (Bool-cases (ltb x 5)) [
  | inl small ↦ let wrong : keep ≡ broken e = rw small at h in cc
  | inr large ↦ let wrong : leave ≡ broken e = rw large at h in cc
]

for_each_query_point-drain_example :
    for_each_query_point pull_point pull_point
      (some small_only)
      2
      1
      collect
      9
      (1 ∷ 6 ∷ 2 ∷ [])
      (3 ∷ 4 ∷ [])
      []
    ≡ (
      (drain pull_point pull_point
          (some small_only)
          (λ t. none)
          9
          9
          (query_iter 2 1 (1 ∷ 6 ∷ 2 ∷ []) (3 ∷ 4 ∷ []))).0,
      none,
    )
for_each_query_point-drain_example =
    for_each_query_point-drain pull_point pull_point (some small_only) (λ t. none) 2 1
      (1 ∷ 6 ∷ 2 ∷ []) (3 ∷ 4 ∷ []) (1 ∷ 6 ∷ 2 ∷ []) (3 ∷ 4 ∷ []) 9 (λ t. refl)
      small_only-NeverBroken (refl, (refl, (refl, refl))) (refl, (refl, refl)) (omega arith)

-- A function that asks to stop at once is called again for the first point of the log.
abbrev stop_at_once : ℕ → List ℕ → List ℕ × Bool
stop_at_once p ps = (ps ++ (p ∷ []), false)

stopped_twice :
    for_each_query_point pull_point pull_point none 0 0 stop_at_once 9 (1 ∷ 2 ∷ []) (3 ∷ 4 ∷ []) []
    ≡ (1 ∷ 3 ∷ [], none)
unfolding for_each_query_point
stopped_twice = refl

-- Four points pass, one more than the limit.
query-drain_example :
    query pull_point pull_point (some small_only) 3 9 (1 ∷ 6 ∷ 2 ∷ []) (3 ∷ 4 ∷ [])
    ≡ at_most 3
        (drain pull_point pull_point
          (some small_only)
          (λ t. none)
          9
          9
          (query_iter 0 0 (1 ∷ 6 ∷ 2 ∷ []) (3 ∷ 4 ∷ []))).0
query-drain_example =
    query-drain pull_point pull_point (some small_only) (λ t. none) 3 (1 ∷ 6 ∷ 2 ∷ []) (3 ∷ 4 ∷ [])
      (1 ∷ 6 ∷ 2 ∷ []) (3 ∷ 4 ∷ []) 9 (λ t. refl) small_only-NeverBroken
      (refl, (refl, (refl, refl))) (refl, (refl, refl)) (omega arith)

too_many :
    query pull_point pull_point (some small_only) 3 9 (1 ∷ 6 ∷ 2 ∷ []) (3 ∷ 4 ∷ [])
    ≡ result_limit_exceeded
unfolding query
too_many = refl

just_enough :
    query pull_point pull_point (some small_only) 4 9 (1 ∷ 6 ∷ 2 ∷ []) (3 ∷ 4 ∷ [])
    ≡ query_points (1 ∷ 2 ∷ 3 ∷ 4 ∷ [])
unfolding query
just_enough = refl
