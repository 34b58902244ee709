-- ===== src/Query.antt =====
-- The iterator of a query over two sources, the mergePointIter of tsdb/point_iter.go.
pub mod Pages
pub mod Ahead
pub mod Iteration
pub mod Merged
pub mod Walk
pub mod Results
use qv_lite.Prelude.{
  ℕ, zero, suc, ◌+◌, ◌%◌, Bool, true, false, ◌&&◌, ◌||◌, Option, none, some, List, [], ◌∷◌, ltb,
  leb, ◌==◌, if◌then◌else◌,
}

-- What a call of `next` gives: a point, the end, or an error.
pub data Pull (P E : Type 0) : Type 0 where
  found : P → Pull P E
  ended : Pull P E
  failed : E → Pull P E

-- What a condition says of a point.
pub data Verdict (E : Type 0) : Type 0 where
  keep leave : Verdict E
  broken : E → Verdict E

pub data Source : Type 0 where
  first second : Source

-- Whether an iteration of the loop of `next` goes on or returns.
pub data Step (P E : Type 0) : Type 0 where
  again : Step P E
  give : Pull P E → Step P E

-- The two sources have the states `A` and `B`; `cur` is nil before the first call.
pub record Merge (A B E : Type 0) : Type 0 where
  pub a : A
  pub b : B
  pub cur : Option Source
  pub done : Bool
  pub err : Option E
  pub ctx_tick : ℕ
  pub limit : ℕ
  pub offset : ℕ
  pub emitted : ℕ
  pub skipped : ℕ

abbrev pub ctx_check_mask : ℕ
ctx_check_mask = 4095

-- `next_a` and `next_b` are the methods of the sources, `condition` is nil or the compiled condition, and
-- `expired` gives the error of the context when it is asked at a tick, if it has one.
module _ {A B P E : Type 0} (next_a : A → A × Pull P E) (next_b : B → B × Pull P E)
    (condition : Option (P → Verdict E)) (expired : ℕ → Option E) where
  abbrev pub eval_cond : P → Verdict E
  eval_cond p = elim condition [ none ↦ keep | some f ↦ f p ]

  abbrev pub is_second : Option Source → Bool
  is_second none = false
  is_second (some first) = false
  is_second (some second) = true

  -- `m.cur.next()`: the source, now current, after its call, and what it gives.
  abbrev pub pull : Merge A B E → Merge A B E × Pull P E
  pull m =
      let (a', from_a) = next_a m.a in
      let (b', from_b) = next_b m.b in
      if is_second m.cur
      then (record m { b = b' }, from_b)
      else (record m { a = a'; cur = some first }, from_a)

  abbrev pub judge : P → Verdict E → Merge A B E → Merge A B E × Step P E
  judge p keep m =
      if ltb m.skipped m.offset
      then (record m { skipped = m.skipped + 1 }, again)
      else (record m { emitted = m.emitted + 1 }, give (found p))
  judge p leave m = (m, again)
  judge p (broken e) m = (record m { err = some e }, give (failed e))

  abbrev pub handle : Merge A B E × Pull P E → Merge A B E × Step P E
  handle (m, found p) = judge p (eval_cond p) m
  handle (m, ended) =
      if is_second m.cur || m.done
      then (record m { done = true }, give ended)
      else (record m { cur = some second }, again)
  handle (m, failed e) = (record m { err = some e }, give (failed e))

  abbrev pub is_at_limit : Merge A B E → Bool
  is_at_limit m = ltb 0 m.limit && leb m.limit m.emitted

  -- The context is asked once in 4096 iterations.
  abbrev pub context_error : ℕ → Option E
  context_error tick = if tick % (ctx_check_mask + 1) == 0 then expired tick else none

  abbrev pub go_on : Option E → Merge A B E → Merge A B E × Step P E
  go_on none m = handle (pull (record m { ctx_tick = m.ctx_tick + 1 }))
  go_on (some e) m = (record m { err = some e }, give (failed e))

  abbrev pub checked : Option E → Merge A B E → Merge A B E × Step P E
  checked none m =
      let later = go_on (context_error m.ctx_tick) m in
      if is_at_limit m then (m, give ended) else later
  checked (some e) m = (m, give (failed e))

  -- One iteration.
  abbrev pub iterate : Merge A B E → Merge A B E × Step P E
  iterate m = checked m.err m

  abbrev pub returned : Merge A B E × Pull P E → Step P E → Merge A B E → Merge A B E × Pull P E
  returned later again m = later
  returned later (give r) m = (m, r)

  unfoldable pub next : ℕ → Merge A B E → Merge A B E × Pull P E
  next zero m = (m, ended)
  next (suc fuel) m = let (m', step) = iterate m in returned (next fuel m') step m'

  -- A caller's loop: the points, and the error at the end.
  abbrev pub with_point : P → List P × Option E → List P × Option E
  with_point p (ps, error) = (p ∷ ps, error)

  abbrev pub gather : Pull P E → List P × Option E → List P × Option E
  gather (found p) later = with_point p later
  gather ended later = ([], none)
  gather (failed e) later = ([], some e)

  unfoldable pub drain : ℕ → ℕ → Merge A B E → List P × Option E
  unfolding next
  drain zero fuel m = ([], none)
  drain (suc n) fuel m = let (m', r) = next fuel m in gather r (drain n fuel m')

-- An iterator at its start, as `queryIter` makes it.
abbrev pub query_iter : {A B E : Type 0} → ℕ → ℕ → A → B → Merge A B E
query_iter limit offset a b = record {
  a = a;
  b = b;
  cur = none;
  done = false;
  err = none;
  ctx_tick = 0;
  limit = limit;
  offset = offset;
  emitted = 0;
  skipped = 0;
}
