-- ===== src/Query/Ahead.antt =====
-- What the iterator has left to give, and a point that its condition has judged.
use qv_lite.Prelude.{
  ℕ, suc, ◌+◌, ◌-◌, ◌<◌, ◌≡◌, refl, sym, ap, ap₂, subst, ◌∙◌, arith, true, false, ◌&&◌, if-true,
  if-false, Bool-cases, ◌⊎◌, inl, inr, Option, none, some, List, [], ◌∷◌, ◌++◌, length, ltb, leb,
  if◌then◌else◌,
}
use qv_lite.Query.{
  Pull, found, ended, failed, Verdict, keep, leave, broken, Source, Step, again, give, Merge,
  eval_cond, is_second, judge, is_at_limit,
}
use qv_lite.Query.Pages.{filtered, joined, sift, rest, rest-give, rest-empty}

module _ {P E : Type 0} where
  abbrev pub pull_of : Option E → Pull P E
  pull_of none = ended
  pull_of (some e) = failed e

module _ {S P E : Type 0} where
  -- A source in the state `s` gives the points `ps` and then its end, or an error.
  abbrev pub Streams : (S → S × Pull P E) → S → List P → Option E → Type 0
  Streams step s [] ending = (step s).1 ≡ pull_of ending
  Streams step s (p ∷ ps) ending = ((step s).1 ≡ found p) × Streams step (step s).0 ps ending

-- The points of one source and then of another, which an error in the first one hides.
module _ {P E : Type 0} where
  abbrev pub both : List P → Option E → List P → Option E → List P × Option E
  both ps none qs e = (ps ++ qs, e)
  both ps (some e) qs e' = (ps, some e)

module _ {A B P E : Type 0} (next_a : A → A × Pull P E) (next_b : B → B × Pull P E)
    (condition : Option (P → Verdict E)) (expired : ℕ → Option E) where
  abbrev pub verdict : P → Verdict E
  verdict p = eval_cond next_a next_b condition expired p

  filtered-leave :
      (p : P) (ps : List P) (ending : Option E)
      → verdict p ≡ leave
      → filtered verdict (p ∷ ps) ending ≡ filtered verdict ps ending
  filtered-leave p ps ending h = ap (λ v. sift v p (filtered verdict ps ending)) h

  filtered-broken :
      (p : P) (ps : List P) (ending : Option E) (e : E)
      → verdict p ≡ broken e
      → filtered verdict (p ∷ ps) ending ≡ ([], some e)
  filtered-broken p ps ending e h = ap (λ v. sift v p (filtered verdict ps ending)) h

  filtered-keep :
      (p : P) (ps : List P) (ending : Option E)
      → verdict p ≡ keep
      → filtered verdict (p ∷ ps) ending ≡ joined p (filtered verdict ps ending)
  filtered-keep p ps ending h = ap (λ v. sift v p (filtered verdict ps ending)) h

  pub record InFirst (m : Merge A B E) (ps : List P) (ending : Option E) : Type 0 where
    pub of_a : List P
    pub end_a : Option E
    pub of_b : List P
    pub end_b : Option E
    pub here : is_second next_a next_b condition expired m.cur ≡ false
    pub going : m.done ≡ false
    pub from_a : Streams next_a m.a of_a end_a
    pub from_b : Streams next_b m.b of_b end_b
    pub points : both of_a end_a of_b end_b ≡ (ps, ending)

  pub record InSecond (m : Merge A B E) (ps : List P) (ending : Option E) : Type 0 where
    pub here : is_second next_a next_b condition expired m.cur ≡ true
    pub from_b : Streams next_b m.b ps ending

  -- The points `ps` and then `ending` are still to come.
  abbrev pub Ahead : Merge A B E → List P → Option E → Type 0
  Ahead m ps ending = InFirst m ps ending ⊎ InSecond m ps ending

  -- What the iterator has left to give.
  abbrev pub left : Merge A B E → List P → Option E → List P × Option E
  left m ps ending =
      rest (is_at_limit next_a next_b condition expired m) (m.limit - m.emitted)
        (m.offset - m.skipped) (filtered verdict ps ending)

  -- One more iteration while the first source is not left.
  abbrev pub phase_cost : Option Source → ℕ
  phase_cost cur = if is_second next_a next_b condition expired cur then 0 else 1

  abbrev pub measure : Merge A B E → List P → ℕ
  measure m ps = length ps + phase_cost m.cur

  -- What one iteration, or a call, leaves to do.
  pub record Further (m : Merge A B E) (before : List P) (ending : Option E) (m' : Merge A B E)
      (change : List P × Option E → List P × Option E) : Type 0 where
    pub points : List P
    pub ahead : Ahead m' points ending
    pub same : left m before ending ≡ change (left m' points ending)
    pub fewer : measure m' points < measure m before
    pub fine : m'.err ≡ none

  abbrev pub After : Merge A B E → List P → Option E → Merge A B E → Step P E → Type 0
  After m ps ending m' again = Further m ps ending m' (λ r. r)
  After m ps ending m' (give (found p)) = Further m ps ending m' (joined p)
  After m ps ending m' (give ended) = left m ps ending ≡ ([], none)
  After m ps ending m' (give (failed e)) = left m ps ending ≡ ([], some e)

  -- The limit is not reached at `m`, which has the counters of `m'`.
  pub record Counts (m m' : Merge A B E) : Type 0 where
    pub limit : m'.limit ≡ m.limit
    pub offset : m'.offset ≡ m.offset
    pub emitted : m'.emitted ≡ m.emitted
    pub skipped : m'.skipped ≡ m.skipped
    pub fine : m'.err ≡ none
    pub open_end : is_at_limit next_a next_b condition expired m ≡ false

  pub left-Counts :
      (m m' : Merge A B E) (ps : List P) (ending : Option E)
      → Counts m m'
      → left m' ps ending ≡ left m ps ending
  left-Counts m m' ps ending c = rw (c.limit, c.offset, c.emitted, c.skipped) refl

  -- A point that the condition has judged.
  pub judge-After :
      (m m2 : Merge A B E) (p : P) (ps : List P) (ending : Option E) (v : Verdict E)
      → verdict p ≡ v
      → Counts m m2
      → ((m3 : Merge A B E)
          → m3.a ≡ m2.a
          → m3.b ≡ m2.b
          → m3.cur ≡ m2.cur
          → m3.done ≡ m2.done
          → Ahead m3 ps ending)
      → measure m2 ps < measure m (p ∷ ps)
      → After m
          (p ∷ ps)
          ending
          (judge next_a next_b condition expired p v m2).0
          (judge next_a next_b condition expired p v m2).1
  judge-After m m2 p ps ending leave hv c ahead fewer = record {
    points = ps;
    ahead = ahead m2 refl refl refl refl;
    same =
        ap
          (λ r.
            rest (is_at_limit next_a next_b condition expired m) (m.limit - m.emitted)
              (m.offset - m.skipped) r)
          (filtered-leave p ps ending hv)
        ∙ sym (left-Counts m m2 ps ending c);
    fewer = fewer;
    fine = c.fine;
  }
  judge-After m m2 p ps ending (broken e) hv c ahead fewer =
      ap
        (λ r.
          rest (is_at_limit next_a next_b condition expired m) (m.limit - m.emitted)
            (m.offset - m.skipped) r)
        (filtered-broken p ps ending e hv)
      ∙ ap (λ b. rest b (m.limit - m.emitted) (m.offset - m.skipped) ([], some e)) c.open_end
      ∙ rest-empty (m.limit - m.emitted) (m.offset - m.skipped) (some e)
  judge-After m m2 p ps ending keep hv c ahead fewer =
      let r = filtered verdict ps ending in
      let n = m.limit - m.emitted in
      let before : left m (p ∷ ps) ending ≡ rest false n (m.offset - m.skipped) (joined p r) =
        ap (λ q. rest (is_at_limit next_a next_b condition expired m) n (m.offset - m.skipped) q)
          (filtered-keep p ps ending hv)
        ∙ ap (λ b. rest b n (m.offset - m.skipped) (joined p r)) c.open_end in
      elim (Bool-cases (ltb m2.skipped m2.offset)) [
        | inl early ↦
            let m3 : Merge A B E = record m2 { skipped = m2.skipped + 1 } in
            let one_more : m.offset - m.skipped ≡ suc (m2.offset - (m2.skipped + 1)) =
              ground (arith, c.offset, c.skipped, early) in
            let full : is_at_limit next_a next_b condition expired m3 ≡ false =
              ap₂ (λ x y. ltb 0 x && leb x y) c.limit c.emitted ∙ c.open_end in
            let same_left : m3.limit - m3.emitted ≡ n = ap₂ (λ x y. x - y) c.limit c.emitted in
            subst (λ (o : Merge A B E × Step P E). After m (p ∷ ps) ending o.0 o.1)
              (sym (if-true _ _ early))
              (record {
                points = ps;
                ahead = ahead m3 refl refl refl refl;
                same =
                    before
                    ∙ ap (λ k. rest false n k (joined p r)) one_more
                    ∙ sym (ap₂ (λ b l. rest b l (m3.offset - m3.skipped) r) full same_left);
                fewer = fewer;
                fine = c.fine;
              })
        | inr late ↦
            let m3 : Merge A B E = record m2 { emitted = m2.emitted + 1 } in
            let none_more : m.offset - m.skipped ≡ 0 = ground (arith, c.offset, c.skipped, late) in
            let none_later : m3.offset - m3.skipped ≡ 0 = ground (arith, late) in
            subst (λ (o : Merge A B E × Step P E). After m (p ∷ ps) ending o.0 o.1)
              (sym (if-false _ _ late))
              (record {
                points = ps;
                ahead = ahead m3 refl refl refl refl;
                same =
                    before
                    ∙ ap (λ k. rest false n k (joined p r)) none_more
                    ∙ rest-give m.limit m.emitted p r c.open_end
                    ∙ ap (joined p) (
                        sym (
                          ap
                            (λ k.
                              rest (is_at_limit next_a next_b condition expired m3)
                                (m3.limit - m3.emitted) k r)
                            none_later
                          ∙ ap₂ (λ x y. rest (ltb 0 x && leb x (y + 1)) (x - (y + 1)) 0 r) c.limit
                              c.emitted));
                fewer = fewer;
                fine = c.fine;
              })
      ]

  -- The end of all points, or the error behind them.
  pub finished :
      (m : Merge A B E) (ending : Option E)
      → is_at_limit next_a next_b condition expired m ≡ false
      → left m [] ending ≡ ([], ending)
  finished m ending open_end =
      ap (λ b. rest b (m.limit - m.emitted) (m.offset - m.skipped) ([], ending)) open_end
      ∙ rest-empty (m.limit - m.emitted) (m.offset - m.skipped) ending
