-- ===== src/Query/Pages.antt =====
-- The page of a query: filter, then leave out `offset` points, then give at most `limit`.
use qv_lite.Prelude.{
  ℕ, zero, suc, ◌+◌, ◌-◌, ◌≡◌, refl, sym, ap, ◌∙◌, arith, Bool, true, false, ◌&&◌, if-true,
  if-false, Bool-cases, inl, inr, Option, none, some, List, [], ◌∷◌, length, take, drop, ltb, leb,
  ◌==◌, if◌then◌else◌,
}
use qv_lite.Query.{Verdict, keep, leave, broken}

module _ {P E : Type 0} where
  abbrev pub joined : P → List P × Option E → List P × Option E
  joined p (ps, ending) = (p ∷ ps, ending)

  abbrev pub sift : Verdict E → P → List P × Option E → List P × Option E
  sift keep p later = joined p later
  sift leave p later = later
  sift (broken e) p later = ([], some e)

  abbrev pub limited : ℕ → List P × Option E → List P × Option E
  limited zero r = r
  limited (suc n) (ps, ending) =
      if leb (suc n) (length ps) then (take (suc n) ps, none) else (ps, ending)

module _ {P E : Type 0} (verdict : P → Verdict E) where
  -- The points that pass, up to the first error of the condition or of the sources.
  abbrev pub filtered : List P → Option E → List P × Option E
  filtered [] ending = ([], ending)
  filtered (p ∷ ps) ending = let later = filtered ps ending in sift (verdict p) p later

  -- What the documents promise: 0 is no limit, and the offset counts only with a limit.
  abbrev pub page : ℕ → ℕ → List P → Option E → List P × Option E
  page zero offset ps ending = filtered ps ending
  page (suc n) offset ps ending =
      let r = filtered ps ending in limited (suc n) (drop offset r.0, r.1)

  -- What the code does: it leaves out `offset` points without a limit too.
  abbrev pub skipped_page : ℕ → ℕ → List P → Option E → List P × Option E
  skipped_page limit offset ps ending =
      let r = filtered ps ending in limited limit (drop offset r.0, r.1)

  pub page-skipped_page :
      (limit offset : ℕ) (ps : List P) (ending : Option E)
      → (limit ≡ 0 → offset ≡ 0)
      → skipped_page limit offset ps ending ≡ page limit offset ps ending
  page-skipped_page zero offset ps ending h =
      ap (λ o. (drop o (filtered ps ending).0, (filtered ps ending).1)) (h refl)
  page-skipped_page (suc n) offset ps ending h = refl

-- What is left to give when some points are given and left out already.
module _ {P E : Type 0} where
  -- `full` tells whether the limit is reached.
  abbrev pub rest : Bool → ℕ → ℕ → List P × Option E → List P × Option E
  rest full n k r = if full then ([], none) else limited n (drop k r.0, r.1)

  limited-empty : (n : ℕ) (ending : Option E) → limited {P = P} n ([], ending) ≡ ([], ending)
  limited-empty zero ending = refl
  limited-empty (suc n) ending =
      let short : leb (suc n) 0 ≡ false = ground arith in if-false _ _ short

  pub rest-empty : (n k : ℕ) (ending : Option E) → rest false n k ([], ending) ≡ ([], ending)
  rest-empty n zero ending = limited-empty n ending
  rest-empty n (suc k) ending = limited-empty n ending

  pub limited-cons :
      (n : ℕ) (p : P) (ps : List P) (ending : Option E)
      → limited (suc n) (p ∷ ps, ending)
        ≡ joined p (if n == 0 then ([], none) else limited n (ps, ending))
  limited-cons zero p ps ending =
      let enough : leb 1 (suc (length ps)) ≡ true = ground arith in if-true _ _ enough
  limited-cons (suc n) p ps ending =
      let some_left : (suc n == 0) ≡ false = ground arith in
      let same_test : leb (suc (suc n)) (suc (length ps)) ≡ leb (suc n) (length ps) =
        ground arith in
      elim (Bool-cases (leb (suc n) (length ps))) [
        | inl enough ↦
            if-true _ _ (same_test ∙ enough)
            ∙ sym (ap (joined p) (if-false _ _ some_left ∙ if-true _ _ enough))
        | inr short ↦
            if-false _ _ (same_test ∙ short)
            ∙ sym (ap (joined p) (if-false _ _ some_left ∙ if-false _ _ short))
      ]

  -- A point is given: one less is left to give.
  pub rest-give :
      (limit emitted : ℕ) (p : P) (r : List P × Option E)
      → (ltb 0 limit && leb limit emitted) ≡ false
      → rest false (limit - emitted) 0 (joined p r)
        ≡ joined p (rest (ltb 0 limit && leb limit (emitted + 1)) (limit - (emitted + 1)) 0 r)
  rest-give zero emitted p r h =
      let none_left : 0 - emitted ≡ 0 = omega arith in
      let none_later : 0 - (emitted + 1) ≡ 0 = omega arith in
      let no_limit : (ltb 0 0 && leb 0 (emitted + 1)) ≡ false = ground arith in
      ap (λ n. limited n (joined p r)) none_left
      ∙ sym (ap (joined p) (if-false ([], none) _ no_limit ∙ ap (λ n. limited n r) none_later))
  rest-give (suc l) emitted p r h =
      let n = suc l - (emitted + 1) in
      let left : suc l - emitted ≡ suc n = ground (arith, h) in
      let same_test : (ltb 0 (suc l) && leb (suc l) (emitted + 1)) ≡ (n == 0) = ground (arith, h) in
      ap (λ k. limited k (joined p r)) left
      ∙ limited-cons n p r.0 r.1
      ∙ ap (λ b. joined p (rest b n 0 r)) (sym same_test)
