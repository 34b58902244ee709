-- ===== src/Condition/Agreement.antt =====
-- The compiled form of a condition gives the outcomes of its evaluation.
use qv_lite.Prelude.{
  ℕ, suc, ◌≡◌, refl, ap₂, arith, true, false, none, List, [], ◌∷◌, length, ◌==◌, Bool-cases,
  Option-cases, inl, inr,
}
use qv_lite.Condition.{
  Variants, Condition, is_map, split, onto_first, is_empty_name, find_column, eval_condition,
  eval_compiled_condition, compile_leaf, compile_condition, compile_each, run_all, run_some,
  eval_any_condition, eval_all, eval_some, AnyCondition, Conditions, no_more, more, nil_any,
  condition, logical_condition, other_any, logical_and, logical_or, other_logical, and_then,
  or_else,
}

split-empty : is_empty_name (split []) ≡ true
unfolding split
split-empty = refl

onto_first-nonempty : (c : ℕ) (ws : List (List ℕ)) → is_empty_name (onto_first c ws) ≡ false
onto_first-nonempty c [] = refl
onto_first-nonempty c (w ∷ []) = refl
onto_first-nonempty c (w ∷ x ∷ ws) = refl

-- No other name than the empty one is split into one empty part.
split_some : (name : List ℕ) → (w : List ℕ) × (ws : List (List ℕ)) × (split name ≡ w ∷ ws)
unfolding split
split_some [] = ([], [], refl)
split_some (c ∷ cs) = elim (Bool-cases (c == 46)) [
  | inl dot ↦ ([], split cs, rw dot refl)
  | inr other ↦ let (w, ws, h) = split_some cs in (c ∷ w, ws, rw (other, h) refl)
]

split-nonempty : (c : ℕ) (cs : List ℕ) → is_empty_name (split (c ∷ cs)) ≡ false
unfolding split
split-nonempty c cs = elim (Bool-cases (c == 46)) [
  | inl dot ↦ let (w, ws, h) = split_some cs in rw (dot, h) refl
  | inr other ↦ rw other (onto_first-nonempty c (split cs))
]

module _ (v : Variants) where
  open v use {V, kind, map_get}

  eval_compiled_condition-find_column :
      (c : Condition v) (names : List (List ℕ)) (point : V)
      → eval_compiled_condition v c names point ≡ find_column v c names point
  unfolding eval_compiled_condition find_column
  eval_compiled_condition-find_column c [] point = refl
  eval_compiled_condition-find_column c (n ∷ names) point = elim (Option-cases (map_get point n)) [
    | inl missing ↦ rw (missing, eval_compiled_condition, find_column) refl
    | inr (column, found) ↦
        rw
          (
            found,
            eval_compiled_condition,
            find_column,
            eval_compiled_condition-find_column c names column,
          )
          refl
  ]

  leaf_by_name :
      (name : List ℕ) (c : Condition v) (point : V)
      → c.column_attribute_name ≡ name
      → ((is_map (kind point) ≡ true) → map_get point [] ≡ none)
      → compile_leaf v c point ≡ eval_condition v c point
  unfolding compile_leaf eval_condition split
  leaf_by_name [] c point e h = elim (Bool-cases (is_map (kind point))) [
    | inl mapped ↦ rw (e, mapped, find_column, h mapped) refl
    | inr plain ↦ rw (e, plain) refl
  ]
  leaf_by_name (b ∷ bs) c point e h =
      let some_name : (suc (length bs) == 0) ≡ false = ground arith in
      rw (e, some_name, split-nonempty b bs)
        (eval_compiled_condition-find_column c (split (b ∷ bs)) point)

  compile_leaf-eval_condition :
      (c : Condition v) (point : V)
      → ((is_map (kind point) ≡ true) → map_get point [] ≡ none)
      → compile_leaf v c point ≡ eval_condition v c point
  compile_leaf-eval_condition c point h = leaf_by_name c.column_attribute_name c point refl h

  mutual
    unfolding compile_condition eval_any_condition

    compile-eval :
        (c : AnyCondition v) (point : V)
        → ((is_map (kind point) ≡ true) → map_get point [] ≡ none)
        → compile_condition v c point ≡ eval_any_condition v c point
    compile-eval nil_any point h = refl
    compile-eval (condition c) point h = compile_leaf-eval_condition c point h
    compile-eval (logical_condition op no_more) point h = refl
    compile-eval (logical_condition logical_and (more c cs)) point h =
        ap₂ and_then (compile-eval c point h) (compile-eval_all cs point h)
    compile-eval (logical_condition logical_or (more c cs)) point h =
        ap₂ or_else (compile-eval c point h) (compile-eval_some cs point h)
    compile-eval (logical_condition (other_logical n) (more c cs)) point h = refl
    compile-eval other_any point h = refl

    compile-eval_all :
        (cs : Conditions v) (point : V)
        → ((is_map (kind point) ≡ true) → map_get point [] ≡ none)
        → run_all (compile_each v cs) point ≡ eval_all v cs point
    compile-eval_all no_more point h = refl
    compile-eval_all (more c cs) point h =
        ap₂ and_then (compile-eval c point h) (compile-eval_all cs point h)

    compile-eval_some :
        (cs : Conditions v) (point : V)
        → ((is_map (kind point) ≡ true) → map_get point [] ≡ none)
        → run_some (compile_each v cs) point ≡ eval_some v cs point
    compile-eval_some no_more point h = refl
    compile-eval_some (more c cs) point h =
        ap₂ or_else (compile-eval c point h) (compile-eval_some cs point h)

-- A compiled condition decides every point as the evaluation of the condition does, with the same
-- errors, if the point is no map, or a map without an entry under the empty name.
pub compile_condition-eval :
    (v : Variants) (c : AnyCondition v) (point : v.V)
    → ((is_map (v.kind point) ≡ true) → v.map_get point [] ≡ none)
    → compile_condition v c point ≡ eval_any_condition v c point
compile_condition-eval v c point h = compile-eval v c point h
