-- ===== src/Query/Results/Folds.antt =====
-- A walk without a limit and an offset runs its function over the points that pass, until it asks to stop.
use qv_lite.Prelude.{
  ℕ, zero, suc, ◌+◌, ◌<◌, ◌≡◌, refl, sym, ap, ap₂, subst, ◌∙◌, arith, Bool, true, false, ◌&&◌,
  if-true, if-false, Bool-cases, inl, inr, Option, none, some, List, [], ◌∷◌, length, ltb, leb,
  ◌==◌, if◌then◌else◌,
}
use qv_lite.Query.{Pull, Verdict, keep, leave, broken}
use qv_lite.Query.Pages.{filtered, sift}
use qv_lite.Query.Ahead.{Streams}
use qv_lite.Query.Walk.{
  Walk, Turn, goes_on, stops, is_nil, weigh, hand, hand_plain, take_pull, finish_turn, walk_plain,
  walk_filtered, walk, start_walk, then_second, for_each_query_point,
}
use qv_lite.Query.Walk.Counters.{nil_keeps}

abbrev pub fold_until : {P T : Type 0} → (P → T → T × Bool) → List P → T → T
fold_until fn [] s = s
fold_until fn (p ∷ ps) s =
    let later = fold_until fn ps (fn p s).0 in if (fn p s).1 then later else (fn p s).0

abbrev pub judge_by : {P E : Type 0} → Option (P → Verdict E) → P → Verdict E
judge_by condition p = elim condition [ none ↦ keep | some f ↦ f p ]

abbrev pub passing : {P E : Type 0} → Option (P → Verdict E) → List P → List P
passing condition ps = (filtered (judge_by condition) ps none).0

abbrev pub Sound : {P E : Type 0} → Option (P → Verdict E) → Type 0
Sound {P = P} {E = E} condition = (p : P) (e : E) → judge_by condition p ≡ broken e → ⊥

module _ {S T P E : Type 0} (step : S → S × Pull P E) (condition : Option (P → Verdict E))
    (fn : P → T → T × Bool) where
  record Folds (acc : T) (ps : List P) (r : Walk S T × Option E) : Type 0 where
    fine : r.1 ≡ none
    same : r.0.acc ≡ fold_until fn (passing condition ps) acc

  passing-sift :
      (p : P) (ps : List P) (v : Verdict E)
      → judge_by condition p ≡ v
      → passing condition (p ∷ ps) ≡ (sift v p (filtered (judge_by condition) ps none)).0
  passing-sift p ps v h = ap (λ u. (sift u p (filtered (judge_by condition) ps none)).0) h

  -- A point is handed over: the walk goes on or stops as the function answers.
  handed-Folds :
      (p : P) (ps : List P) (w w2 : Walk S T) (later : Walk S T × Option E)
      → judge_by condition p ≡ keep
      → w2.acc ≡ (fn p w.acc).0
      → Folds w2.acc ps later
      → Folds w.acc (p ∷ ps) (if (fn p w.acc).1 then later else (w2, none))
  handed-Folds p ps w w2 later kept moved f =
      let P2 : Walk S T × Option E → Type 0 = Folds w.acc (p ∷ ps) in
      let rest = passing condition ps in
      let front = ap (λ l. fold_until fn l w.acc) (passing-sift p ps keep kept) in
      elim (Bool-cases (fn p w.acc).1) [
        | inl on ↦ subst P2 (sym (if-true _ _ on)) (record {
          fine = f.fine;
          same = f.same ∙ ap (fold_until fn rest) moved ∙ sym (if-true _ _ on) ∙ sym front;
        })
        | inr off ↦
            subst P2 (sym (if-false _ _ off))
              (record { fine = refl; same = moved ∙ sym (if-false _ _ off) ∙ sym front })
      ]

  turn_lem :
      (b : Bool) (later : Walk S T × Option E) (w : Walk S T)
      → finish_turn step condition 0 0 fn later (if b then goes_on else stops none) w
        ≡ (if b then later else (w, none))
  turn_lem true later w = refl
  turn_lem false later w = refl

  weigh-hand :
      (p : P) (w : Walk S T) → weigh step condition 0 0 fn p keep w ≡ hand step condition 0 0 fn p w
  weigh-hand p w =
      let nothing_to_skip : ltb w.skipped 0 ≡ false = ground arith in
      let no_limit : (ltb 0 0 && leb 0 w.emitted) ≡ false = ground arith in
      let shown = hand step condition 0 0 fn p w in
      let at_end : Walk S T × Turn E = (w, stops none) in
      if-false _ (if ltb 0 0 && leb 0 w.emitted then at_end else shown) nothing_to_skip
      ∙ if-false at_end shown no_limit

  -- A turn of `walk_filtered`; `f` is the rest of the walk.
  turn-Folds :
      (fuel : ℕ) (p : P) (ps : List P) (w : Walk S T) (v : Verdict E)
      → judge_by condition p ≡ v
      → Sound condition
      → ((w2 : Walk S T)
          → w2.src ≡ w.src
          → Folds w2.acc ps (walk_filtered step condition 0 0 fn fuel w2))
      → Folds w.acc (p ∷ ps) (
          finish_turn step condition 0 0 fn
            (walk_filtered step condition 0 0 fn fuel (weigh step condition 0 0 fn p v w).0)
            (weigh step condition 0 0 fn p v w).1
            (weigh step condition 0 0 fn p v w).0)
  turn-Folds fuel p ps w keep h sound f =
      let w2 : Walk S T = record w { emitted = w.emitted + 1; acc = (fn p w.acc).0 } in
      let later = walk_filtered step condition 0 0 fn fuel w2 in
      subst
        (λ (r : Walk S T × Turn E). Folds w.acc (p ∷ ps) (
          finish_turn step condition 0 0 fn (walk_filtered step condition 0 0 fn fuel r.0) r.1 r.0))
        (sym (weigh-hand p w))
        (subst (Folds w.acc (p ∷ ps)) (sym (turn_lem (fn p w.acc).1 later w2))
          (handed-Folds p ps w w2 later h refl (f w2 refl)))
  turn-Folds fuel p ps w leave h sound f =
      let g = f w refl in
      record {
        fine = g.fine;
        same = g.same ∙ sym (ap (λ l. fold_until fn l w.acc) (passing-sift p ps leave h));
      }
  turn-Folds fuel p ps w (broken e) h sound f = absurd (sound p e h)

  walk_filtered-Folds :
      (fuel : ℕ) (ps : List P) (w : Walk S T)
      → Sound condition
      → Streams step w.src ps none
      → length ps < fuel
      → Folds w.acc ps (walk_filtered step condition 0 0 fn fuel w)
  walk_filtered-Folds zero ps w sound h k = absurd (omega arith)
  walk_filtered-Folds (suc fuel) [] w sound h k =
      let w1 : Walk S T = record w { src = (step w.src).0 } in
      subst
        (λ (q : Pull P E). Folds w.acc [] (
          finish_turn step condition 0 0 fn
            (walk_filtered step condition 0 0 fn fuel (take_pull step condition 0 0 fn q w1).0)
            (take_pull step condition 0 0 fn q w1).1 (take_pull step condition 0 0 fn q w1).0))
        (sym h) (record { fine = refl; same = refl })
  walk_filtered-Folds (suc fuel) (p ∷ ps) w sound (h, hs) k =
      let w1 : Walk S T = record w { src = (step w.src).0 } in
      subst
        (λ (q : Pull P E). Folds w.acc (p ∷ ps) (
          finish_turn step condition 0 0 fn
            (walk_filtered step condition 0 0 fn fuel (take_pull step condition 0 0 fn q w1).0)
            (take_pull step condition 0 0 fn q w1).1 (take_pull step condition 0 0 fn q w1).0))
        (sym h)
        (turn-Folds fuel p ps w1 (judge_by condition p) refl sound (λ w2 same.
          walk_filtered-Folds fuel ps w2 sound (subst (λ s. Streams step s ps none) (sym same) hs)
            (omega (arith, k))))

  walk_plain-Folds :
      (fuel : ℕ) (ps : List P) (w : Walk S T)
      → ((p : P) → judge_by condition p ≡ keep)
      → Streams step w.src ps none
      → length ps < fuel
      → Folds w.acc ps (walk_plain step condition 0 0 fn fuel w)
  walk_plain-Folds zero ps w keeps h k = absurd (omega arith)
  walk_plain-Folds (suc fuel) [] w keeps h k =
      let w1 : Walk S T = record w { src = (step w.src).0 } in
      subst
        (λ (q : Pull P E). Folds w.acc [] (
          finish_turn step condition 0 0 fn
            (walk_plain step condition 0 0 fn fuel (hand_plain step condition 0 0 fn q w1).0)
            (hand_plain step condition 0 0 fn q w1).1 (hand_plain step condition 0 0 fn q w1).0))
        (sym h) (record { fine = refl; same = refl })
  walk_plain-Folds (suc fuel) (p ∷ ps) w keeps (h, hs) k =
      let w1 : Walk S T = record w { src = (step w.src).0 } in
      let w2 : Walk S T = record w1 { acc = (fn p w.acc).0 } in
      let later = walk_plain step condition 0 0 fn fuel w2 in
      subst
        (λ (q : Pull P E). Folds w.acc (p ∷ ps) (
          finish_turn step condition 0 0 fn
            (walk_plain step condition 0 0 fn fuel (hand_plain step condition 0 0 fn q w1).0)
            (hand_plain step condition 0 0 fn q w1).1 (hand_plain step condition 0 0 fn q w1).0))
        (sym h)
        (subst (Folds w.acc (p ∷ ps)) (sym (turn_lem (fn p w.acc).1 later w2)) (
          handed-Folds p ps w w2 later (keeps p) refl
            (walk_plain-Folds fuel ps w2 keeps hs (omega (arith, k)))))

  walk-Folds :
      (fuel : ℕ) (ps : List P) (w : Walk S T)
      → Sound condition
      → Streams step w.src ps none
      → length ps < fuel
      → Folds w.acc ps (walk step condition 0 0 fn fuel w)
  walk-Folds fuel ps w sound h k =
      let plain = is_nil step condition 0 0 fn && (0 == 0 && 0 == 0) in
      elim (Bool-cases plain) [
        | inl unfiltered ↦
            let nil : is_nil step condition 0 0 fn ≡ true = ground (arith, unfiltered) in
            subst (Folds w.acc ps) (sym (if-true _ _ unfiltered))
              (walk_plain-Folds fuel ps w (λ p. nil_keeps condition p nil) h k)
        | inr counted ↦
            subst (Folds w.acc ps) (sym (if-false _ _ counted))
              (walk_filtered-Folds fuel ps w sound h k)
      ]

-- Both walks: the second one goes on with the function even if it has asked the first one to stop.
pub for_each_query_point-fold_until :
    {A B T P E : Type 0} (next_a : A → A × Pull P E) (next_b : B → B × Pull P E)
    (condition : Option (P → Verdict E)) (fn : P → T → T × Bool) (fuel : ℕ) (a : A) (b : B)
    (in_a in_b : List P) (acc : T)
    → Sound condition
    → Streams next_a a in_a none
    → Streams next_b b in_b none
    → length in_a + length in_b + 1 < fuel
    → for_each_query_point next_a next_b condition 0 0 fn fuel a b acc
      ≡ (fold_until fn (passing condition in_b) (fold_until fn (passing condition in_a) acc), none)
unfolding for_each_query_point
for_each_query_point-fold_until {B = B} {T = T} {E = E} next_a next_b condition fn fuel a b in_a
      in_b acc sound from_a from_b h =
    let no_error : Option E = none in
    let w = start_walk next_a next_b condition 0 0 fn a acc in
    let r = walk next_a condition 0 0 fn fuel w in
    let f = walk-Folds next_a condition fn fuel in_a w sound from_a (omega (arith, h)) in
    let w1 : Walk B T = record {
      src = b;
      emitted = r.0.emitted;
      skipped = r.0.skipped;
      acc = r.0.acc;
    } in
    let g = walk-Folds next_b condition fn fuel in_b w1 sound from_b (omega (arith, h)) in
    let no_limit : (ltb 0 0 && leb 0 r.0.emitted) ≡ false = ground arith in
    ap (λ e. then_second next_a next_b condition 0 0 fn fuel b (r.0, e)) f.fine
    ∙ if-false (r.0.acc, no_error)
        ((walk next_b condition 0 0 fn fuel w1).0.acc, (walk next_b condition 0 0 fn fuel w1).1)
        no_limit
    ∙ ap₂ (λ s e. (s, e)) (g.same ∙ ap (fold_until fn (passing condition in_b)) f.same) g.fine
