-- ===== src/Query/Merged.antt =====
-- The iterator gives the page of the points of its sources, one after the other.
use qv_lite.Prelude.{
  ℕ, zero, suc, ◌+◌, ◌-◌, ◌<◌, ◌≡◌, refl, sym, ap, ap₂, ◌∙◌, arith, false, ◌&&◌, inl, Option, none,
  List, length, drop, ltb, leb,
}
use qv_lite.Query.{
  Pull, found, ended, failed, Verdict, Step, again, give, Merge, eval_cond, iterate, returned, next,
  gather, drain, query_iter,
}
use qv_lite.Query.Pages.{filtered, limited, page, skipped_page, page-skipped_page, joined, rest}
use qv_lite.Query.Ahead.{Streams, both, Ahead, left, measure, Further, After}
use qv_lite.Query.Iteration.{iterate-After}

module _ {A B P E : Type 0} (next_a : A → A × Pull P E) (next_b : B → B × Pull P E)
    (condition : Option (P → Verdict E)) (expired : ℕ → Option E) where
  After-trans :
      (m m' m'' : Merge A B E) (ps : List P) (ending : Option E) (q : Pull P E)
      (f : Further next_a next_b condition expired m ps ending m' (λ r. r))
      → After next_a next_b condition expired m' f.points ending m'' (give q)
      → After next_a next_b condition expired m ps ending m'' (give q)
  After-trans m m' m'' ps ending (found p) f g = record {
    points = g.points;
    ahead = g.ahead;
    same = f.same ∙ g.same;
    fewer = omega (arith, f.fewer, g.fewer);
    fine = g.fine;
  }
  After-trans m m' m'' ps ending ended f g = f.same ∙ g
  After-trans m m' m'' ps ending (failed e) f g = f.same ∙ g

  -- A call, after its first iteration; `later` is the rest of the call.
  returned-After :
      (fuel : ℕ) (m m' : Merge A B E) (ps : List P) (ending : Option E) (step : Step P E)
      → ((f : Further next_a next_b condition expired m ps ending m' (λ r. r))
          → After next_a next_b condition expired m' f.points ending
              (next next_a next_b condition expired fuel m').0
              (give (next next_a next_b condition expired fuel m').1))
      → After next_a next_b condition expired m ps ending m' step
      → After next_a next_b condition expired m ps ending
          (returned next_a next_b condition expired
            (next next_a next_b condition expired fuel m')
            step
            m').0
          (give
            (returned next_a next_b condition expired
              (next next_a next_b condition expired fuel m')
              step
              m').1)
  returned-After fuel m m' ps ending again later f = After-trans m m' _ ps ending _ f (later f)
  returned-After fuel m m' ps ending (give (found p)) later f = f
  returned-After fuel m m' ps ending (give ended) later f = f
  returned-After fuel m m' ps ending (give (failed e)) later f = f

  next-After :
      (fuel : ℕ) (m : Merge A B E) (ps : List P) (ending : Option E)
      → ((t : ℕ) → expired t ≡ none)
      → measure next_a next_b condition expired m ps < fuel
      → m.err ≡ none
      → Ahead next_a next_b condition expired m ps ending
      → After next_a next_b condition expired m ps ending
          (next next_a next_b condition expired fuel m).0
          (give (next next_a next_b condition expired fuel m).1)
  unfolding next
  next-After zero m ps ending never h fine ahead = absurd (omega arith)
  next-After (suc fuel) m ps ending never h fine ahead =
      let (m', step) = iterate next_a next_b condition expired m in
      returned-After fuel m m' ps ending step
        (λ f. next-After fuel m' f.points ending never (omega (arith, f.fewer, h)) f.fine f.ahead)
        (iterate-After next_a next_b condition expired m ps ending never fine ahead)

  gathered :
      (later : List P × Option E) (m m' : Merge A B E) (ps : List P) (ending : Option E)
      (q : Pull P E)
      → ((p : P) (f : Further next_a next_b condition expired m ps ending m' (joined p))
          → later ≡ left next_a next_b condition expired m' f.points ending)
      → After next_a next_b condition expired m ps ending m' (give q)
      → gather next_a next_b condition expired q later
        ≡ left next_a next_b condition expired m ps ending
  gathered later m m' ps ending (found p) h f = ap (joined p) (h p f) ∙ sym f.same
  gathered later m m' ps ending ended h f = sym f
  gathered later m m' ps ending (failed e) h f = sym f

  drain-left :
      (n fuel : ℕ) (m : Merge A B E) (ps : List P) (ending : Option E)
      → ((t : ℕ) → expired t ≡ none)
      → measure next_a next_b condition expired m ps < n
      → measure next_a next_b condition expired m ps < fuel
      → m.err ≡ none
      → Ahead next_a next_b condition expired m ps ending
      → drain next_a next_b condition expired n fuel m
        ≡ left next_a next_b condition expired m ps ending
  unfolding drain
  drain-left zero fuel m ps ending never h k fine ahead = absurd (omega arith)
  drain-left (suc n) fuel m ps ending never h k fine ahead =
      let (m', q) = next next_a next_b condition expired fuel m in
      gathered (drain next_a next_b condition expired n fuel m') m m' ps ending q
        (λ p f.
          drain-left n fuel m' f.points ending never (omega (arith, f.fewer, h))
            (omega (arith, f.fewer, k)) f.fine f.ahead)
        (next-After fuel m ps ending never k fine ahead)

-- The page as the code counts it, with or without a limit. A call, and the caller's loop, need no more
-- rounds than two more than there are points.
pub drain-skipped_page :
    {A B P E : Type 0} (next_a : A → A × Pull P E) (next_b : B → B × Pull P E)
    (condition : Option (P → Verdict E)) (expired : ℕ → Option E) (limit offset : ℕ) (a : A) (b : B)
    (in_a in_b : List P) (end_a end_b : Option E) (n fuel : ℕ)
    → ((t : ℕ) → expired t ≡ none)
    → Streams next_a a in_a end_a
    → Streams next_b b in_b end_b
    → length (both in_a end_a in_b end_b).0 + 1 < n
    → length (both in_a end_a in_b end_b).0 + 1 < fuel
    → drain next_a next_b condition expired n fuel (query_iter limit offset a b)
      ≡ skipped_page
          (eval_cond next_a next_b condition expired)
          limit
          offset
          (both in_a end_a in_b end_b).0
          (both in_a end_a in_b end_b).1
drain-skipped_page next_a next_b condition expired limit offset a b in_a in_b end_a end_b n fuel
      never from_a from_b hn hf =
    let x = both in_a end_a in_b end_b in
    let r = filtered (eval_cond next_a next_b condition expired) x.0 x.1 in
    let whole_limit : limit - 0 ≡ limit = omega arith in
    let whole_offset : offset - 0 ≡ offset = omega arith in
    let none_given : (ltb 0 limit && leb limit 0) ≡ false = ground arith in
    drain-left next_a next_b condition expired n fuel (query_iter limit offset a b) x.0 x.1 never hn
      hf refl
      (inl (record {
        of_a = in_a;
        end_a = end_a;
        of_b = in_b;
        end_b = end_b;
        here = refl;
        going = refl;
        from_a = from_a;
        from_b = from_b;
        points = refl;
      }))
    ∙ ap (λ c. rest c (limit - 0) (offset - 0) r) none_given
    ∙ ap₂ (λ l o. limited l (drop o r.0, r.1)) whole_limit whole_offset

-- A query that no context stops, and that gives no offset without a limit, gives the page that it
-- promises of the points of its two sources, the first source's before the second's: those that pass
-- the condition, all of them if the limit is 0 and else without the first `offset` of them and at
-- most `limit`, and then the end, or the first error of the sources or of the condition if the limit
-- is not reached before it. A call, and the caller's loop, need no more rounds than two more than
-- there are points.
pub drain-page :
    {A B P E : Type 0} (next_a : A → A × Pull P E) (next_b : B → B × Pull P E)
    (condition : Option (P → Verdict E)) (expired : ℕ → Option E) (limit offset : ℕ) (a : A) (b : B)
    (in_a in_b : List P) (end_a end_b : Option E) (n fuel : ℕ)
    → (limit ≡ 0 → offset ≡ 0)
    → ((t : ℕ) → expired t ≡ none)
    → Streams next_a a in_a end_a
    → Streams next_b b in_b end_b
    → length (both in_a end_a in_b end_b).0 + 1 < n
    → length (both in_a end_a in_b end_b).0 + 1 < fuel
    → drain next_a next_b condition expired n fuel (query_iter limit offset a b)
      ≡ page
          (eval_cond next_a next_b condition expired)
          limit
          offset
          (both in_a end_a in_b end_b).0
          (both in_a end_a in_b end_b).1
drain-page next_a next_b condition expired limit offset a b in_a in_b end_a end_b n fuel counts
      never from_a from_b hn hf =
    let x = both in_a end_a in_b end_b in
    drain-skipped_page next_a next_b condition expired limit offset a b in_a in_b end_a end_b n fuel
      never from_a from_b hn hf
    ∙ page-skipped_page (eval_cond next_a next_b condition expired) limit offset x.0 x.1 counts
