-- ===== src/Query/Walk/Pages.antt =====
-- A function that collects the points it is handed gets the page that the iterator gives.
use qv_lite.Prelude.{
  ℕ, zero, suc, ◌+◌, ◌-◌, ◌<◌, ◌≡◌, refl, sym, ap, ap₂, subst, ◌∙◌, arith, true, false, ◌&&◌,
  if-true, if-false, Bool-cases, inl, inr, Option, none, List, [], ◌∷◌, ◌++◌, append-nil,
  append_assoc, length, length-append, drop, ltb, ◌==◌,
}
use qv_lite.Query.{Pull, Verdict, keep, drain, query_iter}
use qv_lite.Query.Pages.{filtered, limited, skipped_page, rest, rest-empty}
use qv_lite.Query.Ahead.{Streams}
use qv_lite.Query.Merged.{drain-skipped_page}
use qv_lite.Query.Walk.{
  Walk, is_nil, hand_plain, finish_turn, walk_plain, walk, start_walk, then_second,
  for_each_query_point,
}
use qv_lite.Query.Walk.Counters.{
  collect, nil_keeps, judge_of, is_at_end_of_page, to_collect, NeverBroken, to_collect-full,
  to_collect-give, Collects, walk_filtered-Collects,
}

module _ {S P E : Type 0} (step : S → S × Pull P E) (condition : Option (P → Verdict E))
    (limit offset : ℕ) where
  to_collect-plain :
      (emitted skipped : ℕ) (p : P) (ps : List P)
      → judge_of step condition limit offset p ≡ keep
      → (limit == 0 && offset == 0) ≡ true
      → to_collect step condition limit offset emitted skipped (p ∷ ps)
        ≡ p ∷ to_collect step condition limit offset emitted skipped ps
  to_collect-plain emitted skipped p ps h none_set =
      let late : ltb skipped offset ≡ false = ground (arith, none_set) in
      let room : is_at_end_of_page step condition limit offset emitted ≡ false =
        ground (arith, none_set) in
      let room' : is_at_end_of_page step condition limit offset (emitted + 1) ≡ false =
        ground (arith, none_set) in
      let same_left : limit - (emitted + 1) ≡ limit - emitted = ground (arith, none_set) in
      to_collect-give step condition limit offset emitted skipped p ps h late room
      ∙ ap₂
          (λ b n.
            p
            ∷ (rest b n (offset - skipped)
                (filtered (judge_of step condition limit offset) ps none)).0)
          (room' ∙ sym room) same_left

  walk_plain-Collects :
      (fuel : ℕ) (ps : List P) (w : Walk S (List P))
      → ((p : P) → judge_of step condition limit offset p ≡ keep)
      → (limit == 0 && offset == 0) ≡ true
      → Streams step w.src ps none
      → length ps < fuel
      → Collects step condition limit offset w ps
          (walk_plain step condition limit offset collect fuel w)
  walk_plain-Collects zero ps w keeps none_set h k = absurd (omega arith)
  walk_plain-Collects (suc fuel) [] w keeps none_set h k =
      let w1 : Walk S (List P) = record w { src = (step w.src).0 } in
      subst
        (λ (q : Pull P E). Collects step condition limit offset w [] (
          finish_turn step condition limit offset collect
            (walk_plain step condition limit offset collect fuel
              (hand_plain step condition limit offset collect q w1).0)
            (hand_plain step condition limit offset collect q w1).1
            (hand_plain step condition limit offset collect q w1).0))
        (sym h) (record { fine = refl; same = λ qs. refl })
  walk_plain-Collects (suc fuel) (p ∷ ps) w keeps none_set (h, hs) k =
      let w1 : Walk S (List P) = record w { src = (step w.src).0 } in
      let w2 : Walk S (List P) = record w1 { acc = w.acc ++ (p ∷ []) } in
      let c = walk_plain-Collects fuel ps w2 keeps none_set hs (omega (arith, k)) in
      let c' : Collects step condition limit offset w (p ∷ ps)
          (walk_plain step condition limit offset collect fuel w2) =
        record {
          fine = c.fine;
          same = λ qs.
              c.same qs
              ∙ append_assoc w.acc (p ∷ [])
                  (to_collect step condition limit offset w.emitted w.skipped (ps ++ qs))
              ∙ ap (λ l. w.acc ++ l)
                  (sym (to_collect-plain w.emitted w.skipped p (ps ++ qs) (keeps p) none_set));
        } in
      subst
        (λ (q : Pull P E). Collects step condition limit offset w (p ∷ ps) (
          finish_turn step condition limit offset collect
            (walk_plain step condition limit offset collect fuel
              (hand_plain step condition limit offset collect q w1).0)
            (hand_plain step condition limit offset collect q w1).1
            (hand_plain step condition limit offset collect q w1).0))
        (sym h) c'

  walk-Collects :
      (fuel : ℕ) (ps : List P) (w : Walk S (List P))
      → NeverBroken step condition limit offset
      → Streams step w.src ps none
      → length ps < fuel
      → Collects step condition limit offset w ps (walk step condition limit offset collect fuel w)
  walk-Collects fuel ps w sound h k =
      let plain =
        is_nil step condition limit offset (collect {P = P}) && (limit == 0 && offset == 0) in
      elim (Bool-cases plain) [
        | inl unfiltered ↦
            let nil : is_nil step condition limit offset (collect {P = P}) ≡ true =
              ground (arith, unfiltered) in
            let none_set : (limit == 0 && offset == 0) ≡ true = ground (arith, unfiltered) in
            subst (Collects step condition limit offset w ps) (sym (if-true _ _ unfiltered))
              (walk_plain-Collects fuel ps w (λ p. nil_keeps condition p nil) none_set h k)
        | inr counted ↦
            subst (Collects step condition limit offset w ps) (sym (if-false _ _ counted))
              (walk_filtered-Collects step condition limit offset fuel ps w sound h k)
      ]

  to_collect-empty :
      (emitted skipped : ℕ) → to_collect step condition limit offset emitted skipped [] ≡ []
  to_collect-empty emitted skipped =
      elim (Bool-cases (is_at_end_of_page step condition limit offset emitted)) [
        | inl full ↦ to_collect-full step condition limit offset emitted skipped [] full
        | inr room ↦
            let no_error : Option E = none in
            ap
              (λ b.
                (rest b (limit - emitted) (offset - skipped)
                  (filtered (judge_of step condition limit offset) [] no_error)).0)
              room
            ∙ ap (λ (q : List P × Option E). q.0)
                (rest-empty (limit - emitted) (offset - skipped) no_error)
      ]

  to_collect-page :
      (ps : List P)
      → to_collect step condition limit offset 0 0 ps
        ≡ (skipped_page (judge_of step condition limit offset) limit offset ps none).0
  to_collect-page ps =
      let r = filtered (judge_of step condition limit offset) ps none in
      let room : is_at_end_of_page step condition limit offset 0 ≡ false = ground arith in
      let whole_limit : limit - 0 ≡ limit = omega arith in
      let whole_offset : offset - 0 ≡ offset = omega arith in
      ap (λ b. (rest b (limit - 0) (offset - 0) r).0) room
      ∙ ap₂ (λ l o. (limited l (drop o r.0, r.1)).0) whole_limit whole_offset

module _ {A B P E : Type 0} (next_a : A → A × Pull P E) (next_b : B → B × Pull P E)
    (condition : Option (P → Verdict E)) (limit offset : ℕ) where
  -- The walk over the log, after a walk over the disk that has no error.
  second-page :
      (fuel : ℕ) (b : B) (in_a in_b : List P) (w : Walk A (List P))
      → NeverBroken next_b condition limit offset
      → Streams next_b b in_b none
      → length in_b < fuel
      → w.acc ++ to_collect next_b condition limit offset w.emitted w.skipped in_b
        ≡ to_collect next_b condition limit offset 0 0 (in_a ++ in_b)
      → then_second next_a next_b condition limit offset collect fuel b (w, none)
        ≡ (to_collect next_b condition limit offset 0 0 (in_a ++ in_b), none)
  second-page fuel b in_a in_b w sound h k same =
      let w1 : Walk B (List P) = record {
        src = b;
        emitted = w.emitted;
        skipped = w.skipped;
        acc = w.acc;
      } in
      let r = walk next_b condition limit offset collect fuel w1 in
      let c = walk-Collects next_b condition limit offset fuel in_b w1 sound h k in
      elim (Bool-cases (is_at_end_of_page next_b condition limit offset w.emitted)) [
        | inl full ↦
            if-true _ _ full
            ∙ ap (λ l. (l, none))
                (sym (append-nil w.acc)
                  ∙ ap (λ l. w.acc ++ l)
                      (sym (
                        to_collect-full next_b condition limit offset w.emitted w.skipped in_b
                          full))
                  ∙ same)
        | inr room ↦
            let collected : r.0.acc ≡ to_collect next_b condition limit offset 0 0 (in_a ++ in_b) =
              sym (append-nil r.0.acc)
              ∙ ap (λ l. r.0.acc ++ l)
                  (sym (to_collect-empty next_b condition limit offset r.0.emitted r.0.skipped))
              ∙ c.same []
              ∙ ap (λ l. w.acc ++ to_collect next_b condition limit offset w.emitted w.skipped l)
                  (append-nil in_b)
              ∙ same in
            if-false _ _ room ∙ ap₂ (λ l e. (l, e)) collected c.fine
      ]

-- When neither a source nor the condition fails, the points that forEachQueryPoint hands to a function
-- that collects every point and never asks to stop are those that an iterator with the same condition,
-- limit and offset gives, and it returns no error. No context stops the iterator, and the loops have
-- more rounds than there are points.
pub for_each_query_point-drain :
    {A B P E : Type 0} (next_a : A → A × Pull P E) (next_b : B → B × Pull P E)
    (condition : Option (P → Verdict E)) (expired : ℕ → Option E) (limit offset : ℕ) (a : A) (b : B)
    (in_a in_b : List P) (fuel : ℕ)
    → ((t : ℕ) → expired t ≡ none)
    → NeverBroken next_b condition limit offset
    → Streams next_a a in_a none
    → Streams next_b b in_b none
    → length in_a + length in_b + 1 < fuel
    → for_each_query_point next_a next_b condition limit offset collect fuel a b []
      ≡ ((drain next_a next_b condition expired fuel fuel (query_iter limit offset a b)).0, none)
unfolding for_each_query_point
for_each_query_point-drain next_a next_b condition expired limit offset a b in_a in_b fuel never
      sound from_a from_b h =
    let total = length-append in_a in_b in
    let w = start_walk next_a next_b condition limit offset collect a [] in
    let r = walk next_a condition limit offset collect fuel w in
    let c =
      walk-Collects next_a condition limit offset fuel in_a w sound from_a (omega (arith, h)) in
    let given =
      drain-skipped_page next_a next_b condition expired limit offset a b in_a in_b none none fuel
        fuel never from_a from_b (omega (arith, h, total)) (omega (arith, h, total)) in
    ap (λ e. then_second next_a next_b condition limit offset collect fuel b (r.0, e)) c.fine
    ∙ second-page next_a next_b condition limit offset fuel b in_a in_b r.0 sound from_b
        (omega (arith, h)) (c.same in_b)
    ∙ ap (λ l. (l, none))
        (to_collect-page next_b condition limit offset (in_a ++ in_b) ∙ sym (ap (λ q. q.0) given))
