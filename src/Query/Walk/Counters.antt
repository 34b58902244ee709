-- ===== src/Query/Walk/Counters.antt =====
-- What a walk has still to collect, and the walk that counts its points.
use qv_lite.Prelude.{
  ℕ, zero, suc, ◌+◌, ◌-◌, ◌<◌, ◌≡◌, refl, sym, ap, ap₂, subst, ◌∙◌, arith, Bool, true, false, ◌&&◌,
  if-true, if-false, Bool-cases, inl, inr, Option, none, some, List, [], ◌∷◌, ◌++◌, append_assoc,
  length, ltb, leb,
}
use qv_lite.Query.{Pull, Verdict, keep, leave, broken}
use qv_lite.Query.Pages.{filtered, joined, sift, rest, rest-give}
use qv_lite.Query.Ahead.{Streams}
use qv_lite.Query.Walk.{Walk, Turn, judged, weigh, take_pull, finish_turn, walk_filtered}

-- The function that `Query` wraps: it collects every point and never asks to stop.
abbrev pub collect : {P : Type 0} → P → List P → List P × Bool
collect p ps = (ps ++ (p ∷ []), true)

pub nil_keeps :
    {P E : Type 0} (condition : Option (P → Verdict E)) (p : P)
    → elim condition [ none ↦ true | some f ↦ false ] ≡ true
    → elim condition [ none ↦ keep | some f ↦ f p ] ≡ keep
nil_keeps none p h = refl
nil_keeps (some f) p h = let wrong : false ≡ true = h in cc

module _ {S P E : Type 0} (step : S → S × Pull P E) (condition : Option (P → Verdict E))
    (limit offset : ℕ) where
  abbrev pub judge_of : P → Verdict E
  judge_of p = judged step condition limit offset (collect {P = P}) p

  abbrev pub is_at_end_of_page : ℕ → Bool
  is_at_end_of_page emitted = ltb 0 limit && leb limit emitted

  -- What a walk with these counters still collects of some points.
  abbrev pub to_collect : ℕ → ℕ → List P → List P
  to_collect emitted skipped ps =
      (rest (is_at_end_of_page emitted) (limit - emitted) (offset - skipped)
        (filtered judge_of ps none)).0

  abbrev pub NeverBroken : Type 0
  NeverBroken = (p : P) (e : E) → judge_of p ≡ broken e → ⊥

  sifted :
      (p : P) (ps : List P) (v : Verdict E)
      → judge_of p ≡ v
      → filtered judge_of (p ∷ ps) none ≡ sift v p (filtered judge_of ps none)
  sifted p ps v h = ap (λ u. sift u p (filtered judge_of ps none)) h

  -- One more is left out.
  to_collect-skip :
      (emitted skipped : ℕ) (p : P) (ps : List P)
      → judge_of p ≡ keep
      → ltb skipped offset ≡ true
      → to_collect emitted skipped (p ∷ ps) ≡ to_collect emitted (skipped + 1) ps
  to_collect-skip emitted skipped p ps h early =
      let one_more : offset - skipped ≡ suc (offset - (skipped + 1)) = ground (arith, early) in
      ap (λ r. (rest (is_at_end_of_page emitted) (limit - emitted) (offset - skipped) r).0)
        (sifted p ps keep h)
      ∙ ap
          (λ k.
            (rest (is_at_end_of_page emitted) (limit - emitted) k
              (joined p (filtered judge_of ps none))).0)
          one_more

  -- Nothing is collected behind the limit.
  pub to_collect-full :
      (emitted skipped : ℕ) (ps : List P)
      → is_at_end_of_page emitted ≡ true
      → to_collect emitted skipped ps ≡ []
  to_collect-full emitted skipped ps h =
      ap (λ b. (rest b (limit - emitted) (offset - skipped) (filtered judge_of ps none)).0) h

  pub to_collect-give :
      (emitted skipped : ℕ) (p : P) (ps : List P)
      → judge_of p ≡ keep
      → ltb skipped offset ≡ false
      → is_at_end_of_page emitted ≡ false
      → to_collect emitted skipped (p ∷ ps) ≡ p ∷ to_collect (emitted + 1) skipped ps
  to_collect-give emitted skipped p ps h late room =
      let none_more : offset - skipped ≡ 0 = ground (arith, late) in
      let r = filtered judge_of ps none in
      ap (λ q. (rest (is_at_end_of_page emitted) (limit - emitted) (offset - skipped) q).0)
        (sifted p ps keep h)
      ∙ ap₂ (λ b k. (rest b (limit - emitted) k (joined p r)).0) room none_more
      ∙ ap (λ (q : List P × Option E). q.0) (rest-give limit emitted p r room)
      ∙ ap (λ k. p ∷ (rest (is_at_end_of_page (emitted + 1)) (limit - (emitted + 1)) k r).0)
          (sym none_more)

  -- A walk that began at `w` with the points `ps` ahead has no error, and what it has collected, and is
  -- still to collect of any later points, is what was to be collected of all.
  pub record Collects (w : Walk S (List P)) (ps : List P) (r : Walk S (List P) × Option E)
      : Type 0 where
    pub fine : r.1 ≡ none
    pub same :
        (qs : List P)
        → r.0.acc ++ to_collect r.0.emitted r.0.skipped qs
          ≡ w.acc ++ to_collect w.emitted w.skipped (ps ++ qs)

  weigh-Collects :
      (w w1 : Walk S (List P)) (later : Walk S (List P) → Walk S (List P) × Option E) (p : P)
      (ps : List P) (v : Verdict E)
      → judge_of p ≡ v
      → NeverBroken
      → w1.emitted ≡ w.emitted
      → w1.skipped ≡ w.skipped
      → w1.acc ≡ w.acc
      → ((w2 : Walk S (List P)) → w2.src ≡ w1.src → Collects w2 ps (later w2))
      → Collects w (p ∷ ps) (
          finish_turn step condition limit offset collect
            (later (weigh step condition limit offset collect p v w1).0)
            (weigh step condition limit offset collect p v w1).1
            (weigh step condition limit offset collect p v w1).0)
  weigh-Collects w w1 later p ps leave h sound he hs ha ih =
      let c = ih w1 refl in
      record {
        fine = c.fine;
        same = λ qs.
            c.same qs
            ∙ ap₂ (λ x y. w1.acc ++ to_collect x y (ps ++ qs)) he hs
            ∙ ap₂
                (λ x r.
                  x
                  ++ (rest (is_at_end_of_page w.emitted) (limit - w.emitted) (offset - w.skipped)
                      r).0)
                ha (sym (sifted p (ps ++ qs) leave h));
      }
  weigh-Collects w w1 later p ps (broken e) h sound he hs ha ih = absurd (sound p e h)
  weigh-Collects w w1 later p ps keep h sound he hs ha ih =
      let Good : Walk S (List P) × Turn E → Type 0 = λ o.
        Collects w (p ∷ ps) (finish_turn step condition limit offset collect (later o.0) o.1 o.0) in
      elim (Bool-cases (ltb w1.skipped offset)) [
        | inl early ↦
            let c = ih (record w1 { skipped = w1.skipped + 1 }) refl in
            subst Good (sym (if-true _ _ early)) (record {
              fine = c.fine;
              same = λ qs.
                  c.same qs
                  ∙ ap (λ l. w1.acc ++ l)
                      (sym (to_collect-skip w1.emitted w1.skipped p (ps ++ qs) h early))
                  ∙ ap₂ (λ x y. w1.acc ++ to_collect x y (p ∷ (ps ++ qs))) he hs
                  ∙ ap (λ x. x ++ to_collect w.emitted w.skipped (p ∷ (ps ++ qs))) ha;
            })
        | inr late ↦ elim (Bool-cases (is_at_end_of_page w1.emitted)) [
          | inl full ↦ subst Good (sym (if-false _ _ late ∙ if-true _ _ full)) (record {
            fine = refl;
            same = λ qs.
                ap (λ l. w1.acc ++ l)
                  (to_collect-full w1.emitted w1.skipped qs full
                    ∙ sym (to_collect-full w1.emitted w1.skipped (p ∷ (ps ++ qs)) full))
                ∙ ap₂ (λ x y. w1.acc ++ to_collect x y (p ∷ (ps ++ qs))) he hs
                ∙ ap (λ x. x ++ to_collect w.emitted w.skipped (p ∷ (ps ++ qs))) ha;
          })
          | inr room ↦
              let w2 : Walk S (List P) = record w1 {
                emitted = w1.emitted + 1;
                acc = w1.acc ++ (p ∷ []);
              } in
              let c = ih w2 refl in
              subst Good (sym (if-false _ _ late ∙ if-false _ _ room)) (record {
                fine = c.fine;
                same = λ qs.
                    c.same qs
                    ∙ append_assoc w1.acc (p ∷ [])
                        (to_collect (w1.emitted + 1) w1.skipped (ps ++ qs))
                    ∙ ap (λ l. w1.acc ++ l)
                        (sym (to_collect-give w1.emitted w1.skipped p (ps ++ qs) h late room))
                    ∙ ap₂ (λ x y. w1.acc ++ to_collect x y (p ∷ (ps ++ qs))) he hs
                    ∙ ap (λ x. x ++ to_collect w.emitted w.skipped (p ∷ (ps ++ qs))) ha;
              })
        ]
      ]

  pub walk_filtered-Collects :
      (fuel : ℕ) (ps : List P) (w : Walk S (List P))
      → NeverBroken
      → Streams step w.src ps none
      → length ps < fuel
      → Collects w ps (walk_filtered step condition limit offset collect fuel w)
  walk_filtered-Collects zero ps w sound h k = absurd (omega arith)
  walk_filtered-Collects (suc fuel) [] w sound h k =
      let w1 : Walk S (List P) = record w { src = (step w.src).0 } in
      subst
        (λ (q : Pull P E). Collects w [] (
          finish_turn step condition limit offset collect
            (walk_filtered step condition limit offset collect fuel
              (take_pull step condition limit offset collect q w1).0)
            (take_pull step condition limit offset collect q w1).1
            (take_pull step condition limit offset collect q w1).0))
        (sym h) (record { fine = refl; same = λ qs. refl })
  walk_filtered-Collects (suc fuel) (p ∷ ps) w sound (h, hs) k =
      let w1 : Walk S (List P) = record w { src = (step w.src).0 } in
      subst
        (λ (q : Pull P E). Collects w (p ∷ ps) (
          finish_turn step condition limit offset collect
            (walk_filtered step condition limit offset collect fuel
              (take_pull step condition limit offset collect q w1).0)
            (take_pull step condition limit offset collect q w1).1
            (take_pull step condition limit offset collect q w1).0))
        (sym h)
        (weigh-Collects w w1 (walk_filtered step condition limit offset collect fuel) p ps
          (judge_of p) refl sound refl refl refl
          (λ w2 hw.
            walk_filtered-Collects fuel ps w2 sound
              (subst (λ s. Streams step s ps none) (sym hw) hs) (omega (arith, k))))
