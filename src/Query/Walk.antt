-- ===== src/Query/Walk.antt =====
-- The loops of tsdb/point_iter.go that hand the points of a query to a function: walk and
-- forEachQueryPoint.
pub mod Counters
pub mod Pages
use qv_lite.Prelude.{
  ℕ, zero, suc, ◌+◌, Bool, true, false, ◌&&◌, Option, none, some, List, ltb, leb, ◌==◌,
  if◌then◌else◌,
}
use qv_lite.Query.{Pull, found, ended, failed, Verdict, keep, leave, broken}

-- `src` is the source's state, and `acc` what the function changes.
pub record Walk (S T : Type 0) : Type 0 where
  pub src : S
  pub emitted : ℕ
  pub skipped : ℕ
  pub acc : T

-- Whether the loop goes on, or returns, with an error or without.
pub data Turn (E : Type 0) : Type 0 where
  goes_on : Turn E
  stops : Option E → Turn E

-- `fn` answers whether to go on; a limit of 0 is none, and so is an offset of 0.
module _ {S T P E : Type 0} (step : S → S × Pull P E) (condition : Option (P → Verdict E))
    (limit offset : ℕ) (fn : P → T → T × Bool) where
  abbrev pub judged : P → Verdict E
  judged p = elim condition [ none ↦ keep | some f ↦ f p ]

  abbrev pub is_nil : Bool
  is_nil = elim condition [ none ↦ true | some f ↦ false ]

  abbrev pub hand : P → Walk S T → Walk S T × Turn E
  hand p w =
      let (acc, on) = fn p w.acc in
      (record w { emitted = w.emitted + 1; acc = acc }, if on then goes_on else stops none)

  abbrev pub weigh : P → Verdict E → Walk S T → Walk S T × Turn E
  weigh p keep w =
      if ltb w.skipped offset
      then (record w { skipped = w.skipped + 1 }, goes_on)
      else if ltb 0 limit && leb limit w.emitted
      then (w, stops none)
      else hand p w
  weigh p leave w = (w, goes_on)
  weigh p (broken e) w = (w, stops (some e))

  abbrev pub take_pull : Pull P E → Walk S T → Walk S T × Turn E
  take_pull (found p) w = weigh p (judged p) w
  take_pull ended w = (w, stops none)
  take_pull (failed e) w = (w, stops (some e))

  -- Without a condition, a limit and an offset the counters are left alone.
  abbrev pub hand_plain : Pull P E → Walk S T → Walk S T × Turn E
  hand_plain (found p) w =
      let (acc, on) = fn p w.acc in (record w { acc = acc }, if on then goes_on else stops none)
  hand_plain ended w = (w, stops none)
  hand_plain (failed e) w = (w, stops (some e))

  abbrev pub finish_turn : Walk S T × Option E → Turn E → Walk S T → Walk S T × Option E
  finish_turn later goes_on w = later
  finish_turn later (stops error) w = (w, error)

  abbrev pub walk_filtered : ℕ → Walk S T → Walk S T × Option E
  walk_filtered zero w = (w, none)
  walk_filtered (suc fuel) w =
      let (s, q) = step w.src in
      let (w', turn) = take_pull q (record w { src = s }) in
      finish_turn (walk_filtered fuel w') turn w'

  abbrev pub walk_plain : ℕ → Walk S T → Walk S T × Option E
  walk_plain zero w = (w, none)
  walk_plain (suc fuel) w =
      let (s, q) = step w.src in
      let (w', turn) = hand_plain q (record w { src = s }) in
      finish_turn (walk_plain fuel w') turn w'

  abbrev pub walk : ℕ → Walk S T → Walk S T × Option E
  walk fuel w =
      let plain = walk_plain fuel w in
      let filtered = walk_filtered fuel w in
      if is_nil && (limit == 0 && offset == 0) then plain else filtered

module _ {A B T P E : Type 0} (next_a : A → A × Pull P E) (next_b : B → B × Pull P E)
    (condition : Option (P → Verdict E)) (limit offset : ℕ) (fn : P → T → T × Bool) where
  abbrev pub start_walk : {S : Type 0} → S → T → Walk S T
  start_walk s acc = record { src = s; emitted = 0; skipped = 0; acc = acc }

  -- The walk over the log has the counters of the walk over the disk.
  abbrev pub then_second : ℕ → B → Walk A T × Option E → T × Option E
  then_second fuel b (w, some e) = (w.acc, some e)
  then_second fuel b (w, none) =
      let (w', error) =
        walk next_b condition limit offset fn fuel
          (record { src = b; emitted = w.emitted; skipped = w.skipped; acc = w.acc }) in
      if ltb 0 limit && leb limit w.emitted then (w.acc, none) else (w'.acc, error)

  unfoldable pub for_each_query_point : ℕ → A → B → T → T × Option E
  for_each_query_point fuel a b acc =
      then_second fuel b (walk next_a condition limit offset fn fuel (start_walk a acc))
