-- ===== src/Query/Results.antt =====
-- The materialised query of tsdb/table.go: resultLimitFn and Query, behind the flush of the write batcher
-- and the lookup of the tag.
pub mod Folds
pub mod Bounded
use qv_lite.Prelude.{
  ℕ, zero, suc, ◌+◌, Bool, true, false, Option, none, some, List, [], ltb, if◌then◌else◌,
}
use qv_lite.Query.{Pull, Verdict}
use qv_lite.Query.Walk.{for_each_query_point}
use qv_lite.Query.Walk.Counters.{collect}

-- What the wrapped function captures: `exceeded` tells whether the limit's error is set, and `acc` is
-- what the function inside changes.
pub record Guard (T : Type 0) : Type 0 where
  pub acc : T
  pub count : ℕ
  pub exceeded : Bool

abbrev pub new_guard : {T : Type 0} → T → Guard T
new_guard acc = record { acc = acc; count = 0; exceeded = false }

-- 0 stands for every `maxQueryPoints` that is not positive: the function is not wrapped then.
unfoldable pub result_limit_fn :
    {P T : Type 0} → ℕ → (P → T → T × Bool) → P → Guard T → Guard T × Bool
result_limit_fn zero fn p g = (record g { acc = (fn p g.acc).0 }, (fn p g.acc).1)
result_limit_fn (suc max) fn p g =
    let (acc, on) = fn p g.acc in
    let counted =
      if ltb (suc max) (g.count + 1)
      then (record g { acc = acc; count = g.count + 1; exceeded = true }, false)
      else (record g { acc = acc; count = g.count + 1 }, true) in
    if on then counted else (record g { acc = acc }, false)

pub data QueryResult (P E : Type 0) : Type 0 where
  query_points : List P → QueryResult P E
  query_failed : E → QueryResult P E
  result_limit_exceeded : QueryResult P E

abbrev pub result_of : {P E : Type 0} → Guard (List P) × Option E → QueryResult P E
result_of (g, some e) = query_failed e
result_of (g, none) = if g.exceeded then result_limit_exceeded else query_points g.acc

unfoldable pub query :
    {A B P E : Type 0}
    → (A → A × Pull P E)
    → (B → B × Pull P E)
    → Option (P → Verdict E)
    → ℕ
    → ℕ
    → A
    → B
    → QueryResult P E
unfolding for_each_query_point result_limit_fn
query next_a next_b condition max_query_points fuel a b = result_of (
    for_each_query_point next_a next_b condition 0 0 (result_limit_fn max_query_points collect) fuel
      a b (new_guard []))
