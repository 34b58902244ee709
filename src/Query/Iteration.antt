-- ===== src/Query/Iteration.antt =====
-- One iteration of the loop of `next`.
use qv_lite.Prelude.{
  ℕ, ◌+◌, ◌%◌, ◌≡◌, refl, sym, ap, subst, ◌∙◌, arith, Bool, true, false, ◌||◌, if-true, if-false,
  Bool-cases, inl, inr, Option, none, some, List, [], ◌∷◌, ◌==◌,
}
use qv_lite.Query.{
  Pull, found, Verdict, Source, first, second, Step, Merge, ctx_check_mask, is_second, pull, handle,
  is_at_limit, context_error, go_on, checked, iterate,
}
use qv_lite.Query.Ahead.{
  Streams, both, verdict, InFirst, InSecond, Ahead, phase_cost, After, Counts, left-Counts,
  judge-After, finished,
}

module _ {A B P E : Type 0} (next_a : A → A × Pull P E) (next_b : B → B × Pull P E)
    (condition : Option (P → Verdict E)) (expired : ℕ → Option E) where
  abbrev is_at_second : Option Source → Bool
  is_at_second cur = is_second next_a next_b condition expired cur

  abbrev handled : Merge A B E × Pull P E → Merge A B E × Step P E
  handled r = handle next_a next_b condition expired r

  -- The second source is asked; `m1` is `m` with another tick.
  second-After :
      (m m1 : Merge A B E) (ps : List P) (ending : Option E)
      → Counts next_a next_b condition expired m m1
      → m1.cur ≡ m.cur
      → InSecond next_a next_b condition expired m1 ps ending
      → After next_a next_b condition expired m ps ending
          (handled (pull next_a next_b condition expired m1)).0
          (handled (pull next_a next_b condition expired m1)).1
  second-After m m1 ps ending c cur s =
      let asked : pull next_a next_b condition expired m1
          ≡ (record m1 { b = (next_b m1.b).0 }, (next_b m1.b).1) =
        if-true _ _ s.here in
      subst
        (λ (o : Merge A B E × Pull P E).
          After next_a next_b condition expired m ps ending (handled o).0 (handled o).1)
        (sym asked) (second-given ps ending s.from_b)
    where
      second-given :
          (ps : List P) (ending : Option E)
          → Streams next_b m1.b ps ending
          → After next_a next_b condition expired m ps ending
              (handled (record m1 { b = (next_b m1.b).0 }, (next_b m1.b).1)).0
              (handled (record m1 { b = (next_b m1.b).0 }, (next_b m1.b).1)).1
      second-given [] none h =
          let m2 : Merge A B E = record m1 { b = (next_b m1.b).0 } in
          let over : (is_at_second m2.cur || m2.done) ≡ true = ap (λ b. b || m1.done) s.here in
          subst
            (λ (q : Pull P E).
              After next_a next_b condition expired m [] none (handled (m2, q)).0
                (handled (m2, q)).1)
            (sym h)
            (subst
              (λ (o : Merge A B E × Step P E).
                After next_a next_b condition expired m [] none o.0 o.1)
              (sym (if-true _ _ over)) (finished next_a next_b condition expired m none c.open_end))
      second-given [] (some e) h =
          let m2 : Merge A B E = record m1 { b = (next_b m1.b).0 } in
          subst
            (λ (q : Pull P E).
              After next_a next_b condition expired m [] (some e) (handled (m2, q)).0
                (handled (m2, q)).1)
            (sym h) (finished next_a next_b condition expired m (some e) c.open_end)
      second-given (p ∷ ps) ending (h, hs) =
          let m2 : Merge A B E = record m1 { b = (next_b m1.b).0 } in
          let same_phase = ap (phase_cost next_a next_b condition expired) cur in
          subst
            (λ (q : Pull P E).
              After next_a next_b condition expired m (p ∷ ps) ending (handled (m2, q)).0
                (handled (m2, q)).1)
            (sym h)
            (judge-After next_a next_b condition expired m m2 p ps ending
              (verdict next_a next_b condition expired p) refl
              (record {
                limit = c.limit;
                offset = c.offset;
                emitted = c.emitted;
                skipped = c.skipped;
                fine = c.fine;
                open_end = c.open_end;
              })
              (λ m3 ha hb hc hd. inr (record {
                here = ap is_at_second hc ∙ s.here;
                from_b = subst (λ b. Streams next_b b ps ending) (sym hb) hs;
              }))
              (omega (arith, same_phase)))

  -- The first source is asked, and the second one when it has ended.
  first-After :
      (m m1 : Merge A B E) (ps : List P) (ending : Option E)
      → Counts next_a next_b condition expired m m1
      → m1.cur ≡ m.cur
      → InFirst next_a next_b condition expired m1 ps ending
      → After next_a next_b condition expired m ps ending
          (handled (pull next_a next_b condition expired m1)).0
          (handled (pull next_a next_b condition expired m1)).1
  first-After m m1 ps ending c cur s =
      let asked : pull next_a next_b condition expired m1
          ≡ (record m1 { a = (next_a m1.a).0; cur = some first }, (next_a m1.a).1) =
        if-false _ _ s.here in
      subst
        (λ (o : Merge A B E × Pull P E).
          After next_a next_b condition expired m ps ending (handled o).0 (handled o).1)
        (sym asked)
        (subst
          (λ (x : List P × Option E).
            After next_a next_b condition expired m x.0 x.1
              (handled (record m1 { a = (next_a m1.a).0; cur = some first }, (next_a m1.a).1)).0
              (handled (record m1 { a = (next_a m1.a).0; cur = some first }, (next_a m1.a).1)).1)
          s.points (first-given s.of_a s.end_a s.from_a))
    where
      phase : phase_cost next_a next_b condition expired m.cur ≡ 1
      phase = if-false _ _ (ap is_at_second (sym cur) ∙ s.here)

      first-found :
          (p : P) (ps : List P) (end_a : Option E)
          → (next_a m1.a).1 ≡ found p
          → Streams next_a (next_a m1.a).0 ps end_a
          → After next_a next_b condition expired m
              (p ∷ (both ps end_a s.of_b s.end_b).0)
              (both ps end_a s.of_b s.end_b).1
              (handled (record m1 { a = (next_a m1.a).0; cur = some first }, (next_a m1.a).1)).0
              (handled (record m1 { a = (next_a m1.a).0; cur = some first }, (next_a m1.a).1)).1
      first-found p ps end_a h hs =
          let m2 : Merge A B E = record m1 { a = (next_a m1.a).0; cur = some first } in
          let x = both ps end_a s.of_b s.end_b in
          subst
            (λ (q : Pull P E).
              After next_a next_b condition expired m (p ∷ x.0) x.1 (handled (m2, q)).0
                (handled (m2, q)).1)
            (sym h)
            (judge-After next_a next_b condition expired m m2 p x.0 x.1
              (verdict next_a next_b condition expired p) refl
              (record {
                limit = c.limit;
                offset = c.offset;
                emitted = c.emitted;
                skipped = c.skipped;
                fine = c.fine;
                open_end = c.open_end;
              })
              (λ m3 ha hb hc hd. inl (record {
                of_a = ps;
                end_a = end_a;
                of_b = s.of_b;
                end_b = s.end_b;
                here = ap is_at_second hc;
                going = hd ∙ s.going;
                from_a = subst (λ a. Streams next_a a ps end_a) (sym ha) hs;
                from_b = subst (λ b. Streams next_b b s.of_b s.end_b) (sym hb) s.from_b;
                points = refl;
              }))
              (omega (arith, phase)))

      first-given :
          (ps : List P) (end_a : Option E)
          → Streams next_a m1.a ps end_a
          → After next_a next_b condition expired m
              (both ps end_a s.of_b s.end_b).0
              (both ps end_a s.of_b s.end_b).1
              (handled (record m1 { a = (next_a m1.a).0; cur = some first }, (next_a m1.a).1)).0
              (handled (record m1 { a = (next_a m1.a).0; cur = some first }, (next_a m1.a).1)).1
      first-given [] none h =
          let m2 : Merge A B E = record m1 { a = (next_a m1.a).0; cur = some first } in
          let m3 : Merge A B E = record m2 { cur = some second } in
          subst
            (λ (q : Pull P E).
              After next_a next_b condition expired m s.of_b s.end_b (handled (m2, q)).0
                (handled (m2, q)).1)
            (sym h)
            (subst
              (λ (o : Merge A B E × Step P E).
                After next_a next_b condition expired m s.of_b s.end_b o.0 o.1)
              (sym (if-false _ _ s.going))
              (record {
                points = s.of_b;
                ahead = inr (record { here = refl; from_b = s.from_b });
                same = sym (
                    left-Counts next_a next_b condition expired m m3 s.of_b s.end_b (record {
                      limit = c.limit;
                      offset = c.offset;
                      emitted = c.emitted;
                      skipped = c.skipped;
                      fine = c.fine;
                      open_end = c.open_end;
                    }));
                fewer = omega (arith, phase);
                fine = c.fine;
              }))
      first-given [] (some e) h =
          let m2 : Merge A B E = record m1 { a = (next_a m1.a).0; cur = some first } in
          subst
            (λ (q : Pull P E).
              After next_a next_b condition expired m [] (some e) (handled (m2, q)).0
                (handled (m2, q)).1)
            (sym h) (finished next_a next_b condition expired m (some e) c.open_end)
      first-given (p ∷ ps) none (h, hs) = first-found p ps none h hs
      first-given (p ∷ ps) (some e) (h, hs) = first-found p ps (some e) h hs

  context_error-none :
      (tick : ℕ)
      → ((t : ℕ) → expired t ≡ none)
      → context_error next_a next_b condition expired tick ≡ none
  context_error-none tick never = elim (Bool-cases (tick % (ctx_check_mask + 1) == 0)) [
    | inl asked ↦ if-true _ _ asked ∙ never tick
    | inr spared ↦ if-false _ _ spared
  ]

  pulled-After :
      (m : Merge A B E) (ps : List P) (ending : Option E)
      → m.err ≡ none
      → is_at_limit next_a next_b condition expired m ≡ false
      → Ahead next_a next_b condition expired m ps ending
      → let m1 : Merge A B E = record m { ctx_tick = m.ctx_tick + 1 } in
        After next_a next_b condition expired m ps ending
          (handled (pull next_a next_b condition expired m1)).0
          (handled (pull next_a next_b condition expired m1)).1
  pulled-After m ps ending fine room ahead =
      let m1 : Merge A B E = record m { ctx_tick = m.ctx_tick + 1 } in
      let c : Counts next_a next_b condition expired m m1 = record {
        limit = refl;
        offset = refl;
        emitted = refl;
        skipped = refl;
        fine = fine;
        open_end = room;
      } in
      elim ahead [
        | inl s ↦ first-After m m1 ps ending c refl (record {
          of_a = s.of_a;
          end_a = s.end_a;
          of_b = s.of_b;
          end_b = s.end_b;
          here = s.here;
          going = s.going;
          from_a = s.from_a;
          from_b = s.from_b;
          points = s.points;
        })
        | inr s ↦ second-After m m1 ps ending c refl (record { here = s.here; from_b = s.from_b })
      ]

  pub iterate-After :
      (m : Merge A B E) (ps : List P) (ending : Option E)
      → ((t : ℕ) → expired t ≡ none)
      → m.err ≡ none
      → Ahead next_a next_b condition expired m ps ending
      → After next_a next_b condition expired m ps ending
          (iterate next_a next_b condition expired m).0
          (iterate next_a next_b condition expired m).1
  iterate-After m ps ending never fine ahead =
      let Good : Merge A B E × Step P E → Type 0 =
        λ o. After next_a next_b condition expired m ps ending o.0 o.1 in
      subst (λ e. Good (checked next_a next_b condition expired e m)) (sym fine)
        (elim (Bool-cases (is_at_limit next_a next_b condition expired m)) [
          | inl full ↦ subst Good (sym (if-true _ _ full)) (if-true _ _ full)
          | inr room ↦
              subst Good
                (sym (
                  if-false _ _ room
                  ∙ ap (λ e. go_on next_a next_b condition expired e m)
                      (context_error-none m.ctx_tick never)))
                (pulled-After m ps ending fine room ahead)
        ])
