-- ===== src/Query/Results/Bounded.antt =====
-- The points that Query returns, and the limit on their number.
use qv_lite.Prelude.{
  ℕ, zero, suc, ◌+◌, ◌≤◌, ◌<◌, ◌≡◌, refl, sym, ap, ap₂, subst, ◌∙◌, arith, Bool, true, false, ◌&&◌,
  if-true, if-false, Bool-cases, inl, inr, Option, none, List, [], ◌∷◌, ◌++◌, append-nil,
  append_assoc, length, length-append, ltb, if◌then◌else◌,
}
use qv_lite.Query.{Pull, Verdict, drain, query_iter}
use qv_lite.Query.Ahead.{Streams}
use qv_lite.Query.Walk.Counters.{collect}
use qv_lite.Query.Walk.Pages.{for_each_query_point-drain}
use qv_lite.Query.Results.{
  Guard, new_guard, result_limit_fn, QueryResult, query_points, result_limit_exceeded, result_of,
  query,
}
use qv_lite.Query.Results.Folds.{fold_until, passing, Sound, for_each_query_point-fold_until}

fold_until-collect : {P : Type 0} (ps acc : List P) → fold_until collect ps acc ≡ acc ++ ps
fold_until-collect [] acc = sym (append-nil acc)
fold_until-collect (p ∷ ps) acc =
    fold_until-collect ps (acc ++ (p ∷ [])) ∙ append_assoc acc (p ∷ []) ps

module _ {P : Type 0} where
  abbrev guarded : ℕ → P → Guard (List P) → Guard (List P) × Bool
  guarded max p g = result_limit_fn max collect p g

  unlimited :
      (ps : List P) (g : Guard (List P))
      → fold_until (guarded 0) ps g ≡ record g { acc = g.acc ++ ps }
  unfolding result_limit_fn
  unlimited [] g = ap (λ l. record g { acc = l }) (sym (append-nil g.acc))
  unlimited (p ∷ ps) g =
      unlimited ps (record g { acc = g.acc ++ (p ∷ []) })
      ∙ ap (λ l. record g { acc = l }) (append_assoc g.acc (p ∷ []) ps)

  -- Once the error is set it stays.
  exceeded_stays :
      (max : ℕ) (ps : List P) (g : Guard (List P))
      → g.exceeded ≡ true
      → (fold_until (guarded (suc max)) ps g).exceeded ≡ true
  unfolding result_limit_fn
  exceeded_stays max [] g h = h
  exceeded_stays max (p ∷ ps) g h = elim (Bool-cases (ltb (suc max) (g.count + 1))) [
    | inl over ↦ rw over refl
    | inr room ↦
        rw room
          (exceeded_stays max ps (record g { acc = g.acc ++ (p ∷ []); count = g.count + 1 }) h)
  ]

  -- The points fit.
  within :
      (max : ℕ) (ps : List P) (g : Guard (List P))
      → g.count + length ps ≤ suc max
      → fold_until (guarded (suc max)) ps g
        ≡ record g { acc = g.acc ++ ps; count = g.count + length ps }
  unfolding result_limit_fn
  within max [] g h =
      ap₂ (λ l n. record g { acc = l; count = n }) (sym (append-nil g.acc)) (omega arith)
  within max (p ∷ ps) g h =
      let room : ltb (suc max) (g.count + 1) ≡ false = ground (arith, h) in
      let counted : g.count + 1 + length ps ≡ g.count + suc (length ps) = omega arith in
      rw room (
        within max ps (record g { acc = g.acc ++ (p ∷ []); count = g.count + 1 }) (omega (arith, h))
        ∙ ap₂ (λ l n. record g { acc = l; count = n }) (append_assoc g.acc (p ∷ []) ps) counted)

  -- One point too many.
  beyond :
      (max : ℕ) (ps : List P) (g : Guard (List P))
      → g.count ≤ suc max
      → suc max < g.count + length ps
      → (fold_until (guarded (suc max)) ps g).exceeded ≡ true
  unfolding result_limit_fn
  beyond max [] g h k = absurd (omega (arith, h, k))
  beyond max (p ∷ ps) g h k = elim (Bool-cases (ltb (suc max) (g.count + 1))) [
    | inl over ↦ rw over refl
    | inr room ↦ rw room (
        beyond max ps (record g { acc = g.acc ++ (p ∷ []); count = g.count + 1 })
          (ground (arith, room)) (omega (arith, k)))
  ]

  -- The answer for some points.
  abbrev pub at_most : {E : Type 0} → ℕ → List P → QueryResult P E
  at_most max ps =
      if ltb 0 max && ltb max (length ps) then result_limit_exceeded else query_points ps

  two_walks :
      {E : Type 0} (max : ℕ) (ps qs : List P)
      → result_of {E = E}
          (fold_until (guarded max) qs (fold_until (guarded max) ps (new_guard [])), none)
        ≡ at_most max (ps ++ qs)
  two_walks {E = E} zero ps qs =
      let refused : QueryResult P E = result_limit_exceeded in
      let free : (ltb 0 0 && ltb 0 (length (ps ++ qs))) ≡ false = ground arith in
      ap (λ g. result_of {E = E} (g, none))
        (ap (fold_until (guarded 0) qs) (unlimited ps (new_guard []))
          ∙ unlimited qs (record { acc = ps; count = 0; exceeded = false }))
      ∙ sym (if-false refused (query_points (ps ++ qs)) free)
  two_walks {E = E} (suc max) ps qs =
      let total = length-append ps qs in
      let first = fold_until (guarded (suc max)) ps (new_guard []) in
      let counted : Guard (List P) = record { acc = ps; count = 0 + length ps; exceeded = false } in
      elim (Bool-cases (ltb (suc max) (length (ps ++ qs)))) [
        | inr few ↦
            let test : (ltb 0 (suc max) && ltb (suc max) (length (ps ++ qs))) ≡ false =
              ground (arith, few) in
            ap (λ g. result_of {E = E} (g, none))
              (ap (fold_until (guarded (suc max)) qs)
                  (within max ps (new_guard []) (ground (arith, few, total)))
                ∙ within max qs counted (ground (arith, few, total)))
            ∙ sym (if-false _ _ test)
        | inl many ↦
            let test : (ltb 0 (suc max) && ltb (suc max) (length (ps ++ qs))) ≡ true =
              ground (arith, many) in
            if-true _ _ (over many) ∙ sym (if-true _ _ test)
      ]
    where
      over :
          ltb (suc max) (length (ps ++ qs)) ≡ true
          → (fold_until
              (guarded (suc max))
              qs
              (fold_until (guarded (suc max)) ps (new_guard []))).exceeded
            ≡ true
      over many = elim (Bool-cases (ltb (suc max) (length ps))) [
        | inl early ↦
            exceeded_stays max qs (fold_until (guarded (suc max)) ps (new_guard []))
              (beyond max ps (new_guard []) (omega arith) (ground (arith, early)))
        | inr late ↦
            subst (λ g. (fold_until (guarded (suc max)) qs g).exceeded ≡ true)
              (sym (within max ps (new_guard []) (ground (arith, late))))
              (beyond max qs (record { acc = ps; count = 0 + length ps; exceeded = false })
                (ground (arith, late)) (ground (arith, many, length-append ps qs)))
      ]

-- When neither a source nor the condition fails, `Query` returns the points that an iterator with the
-- same condition gives, which has no limit and no offset; but if there is a limit on the points of a
-- query and there are more, it returns the error for that. No context stops the iterator, and the
-- loops have more rounds than there are points.
pub query-drain :
    {A B P E : Type 0} (next_a : A → A × Pull P E) (next_b : B → B × Pull P E)
    (condition : Option (P → Verdict E)) (expired : ℕ → Option E) (max_query_points : ℕ) (a : A)
    (b : B) (in_a in_b : List P) (fuel : ℕ)
    → ((t : ℕ) → expired t ≡ none)
    → Sound condition
    → Streams next_a a in_a none
    → Streams next_b b in_b none
    → length in_a + length in_b + 1 < fuel
    → query next_a next_b condition max_query_points fuel a b
      ≡ at_most max_query_points
          (drain next_a next_b condition expired fuel fuel (query_iter 0 0 a b)).0
unfolding query
query-drain {E = E} next_a next_b condition expired max_query_points a b in_a in_b fuel never sound
      from_a from_b h =
    let ps = passing condition in_a in
    let qs = passing condition in_b in
    let collected =
      for_each_query_point-fold_until next_a next_b condition collect fuel a b in_a in_b [] sound
        from_a from_b h in
    let given =
      for_each_query_point-drain next_a next_b condition expired 0 0 a b in_a in_b fuel never sound
        from_a from_b h in
    let joined =
      sym (ap (λ r. r.0) given)
      ∙ ap (λ r. r.0) collected
      ∙ ap (fold_until collect qs) (fold_until-collect ps [])
      ∙ fold_until-collect qs ps in
    ap result_of (
      for_each_query_point-fold_until next_a next_b condition (guarded max_query_points) fuel a b
        in_a in_b (new_guard []) sound from_a from_b h)
    ∙ two_walks {E = E} max_query_points ps qs
    ∙ ap (at_most max_query_points) (sym joined)
