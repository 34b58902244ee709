-- ===== src/Condition.antt =====
-- Query conditions of tsdb/condition.go: evaluation and compilation.
pub mod Agreement
use qv_lite.Prelude.{
  ℕ, Bool, true, false, not, ◌&&◌, Option, none, some, List, [], ◌∷◌, length, ◌==◌, if◌then◌else◌,
}

pub data Operator : Type 0 where
  not_equal equal greater_than greater_than_or_equal less_than less_than_or_equal : Operator
  other_operator : List ℕ → Operator

pub data LogicalOperator : Type 0 where
  logical_and logical_or : LogicalOperator
  other_logical : List ℕ → LogicalOperator

pub data Kind : Type 0 where
  string_kind list_kind map_kind other_kind : Kind

-- `compare_failed` is the error that `variant.CompareNumberBySymbol` gives.
pub data Error : Type 0 where
  column_not_found : List ℕ → Error
  invalid_operator : Operator → Error
  unknown_logical : LogicalOperator → Error
  empty_logical invalid_condition compare_failed : Error

pub data Outcome : Type 0 where
  verdict : Bool → Outcome
  failure : Error → Outcome

-- github.com/mababaNiubi/variant as far as conditions use it.
pub record Variants : Type 1 where
  pub V : Type 0
  pub kind : V → Kind
  pub map_get : V → List ℕ → Option V
  pub is_equal : V → V → Bool
  pub compare_number : V → V → Operator → Outcome

-- `strings.Split(name, ".")`
abbrev pub onto_first : ℕ → List (List ℕ) → List (List ℕ)
onto_first c [] = (c ∷ []) ∷ []
onto_first c (w ∷ ws) = (c ∷ w) ∷ ws

unfoldable pub split : List ℕ → List (List ℕ)
split [] = [] ∷ []
split (c ∷ cs) = let rest = split cs in if c == 46 then [] ∷ rest else onto_first c rest

abbrev pub is_map : Kind → Bool
is_map map_kind = true
is_map string_kind = false
is_map list_kind = false
is_map other_kind = false

-- A loop over results that goes on while they are `true`, and one that goes on while they are `false`.
abbrev pub and_then : Outcome → Outcome → Outcome
and_then (verdict true) rest = rest
and_then (verdict false) rest = verdict false
and_then (failure e) rest = failure e

abbrev pub or_else : Outcome → Outcome → Outcome
or_else (verdict true) rest = verdict true
or_else (verdict false) rest = rest
or_else (failure e) rest = failure e

-- `len(parts) == 1 && parts[0] == ""`
abbrev pub is_empty_name : List (List ℕ) → Bool
is_empty_name ([] ∷ []) = true
is_empty_name ((c ∷ cs) ∷ []) = false
is_empty_name [] = false
is_empty_name (w ∷ x ∷ ws) = false

-- The compiled functions of a conjunction and of a disjunction, called one after the other.
abbrev pub run_all : {V : Type 0} → List (V → Outcome) → V → Outcome
run_all [] point = verdict true
run_all (fn ∷ fns) point = and_then (fn point) (run_all fns point)

abbrev pub run_some : {V : Type 0} → List (V → Outcome) → V → Outcome
run_some [] point = verdict false
run_some (fn ∷ fns) point = or_else (fn point) (run_some fns point)

module _ (v : Variants) where
  open v use {V, kind, map_get, is_equal, compare_number}

  pub record Condition : Type 0 where
    pub column_attribute_name : List ℕ
    pub operator : Operator
    pub value : V

  abbrev pub compare_structure : Condition → V → Outcome
  compare_structure cond column_value = elim cond.operator [
    | equal ↦ verdict (is_equal column_value cond.value)
    | not_equal ↦ verdict (not (is_equal column_value cond.value))
    | _ ↦ failure (invalid_operator cond.operator)
  ]

  unfoldable pub compare_value : Condition → V → Outcome
  compare_value cond column_value = elim (kind column_value) [
    | other_kind ↦ compare_number column_value cond.value cond.operator
    | _ ↦ compare_structure cond column_value
  ]

  -- The loop of `EvalCondition`.
  unfoldable pub find_column : Condition → List (List ℕ) → V → Outcome
  unfolding compare_value
  find_column cond [] point = verdict false
  find_column cond (name ∷ names) point = elim (map_get point name) [
    | none ↦ failure (column_not_found name)
    | some column_value ↦
        if is_map (kind column_value)
        then find_column cond names column_value
        else compare_value cond column_value
  ]

  unfoldable pub eval_condition : Condition → V → Outcome
  unfolding find_column split
  eval_condition cond point =
      if length cond.column_attribute_name == 0 && not (is_map (kind point))
      then compare_value cond point
      else find_column cond (split cond.column_attribute_name) point

  -- The values that a condition argument of type `any` may have; `other_any` stands for all others.
  mutual
    pub data AnyCondition : Type 0 where
      nil_any : AnyCondition
      condition : Condition → AnyCondition
      logical_condition : LogicalOperator → Conditions → AnyCondition
      other_any : AnyCondition

    pub data Conditions : Type 0 where
      no_more : Conditions
      more : AnyCondition → Conditions → Conditions

  unfoldable mutual
    unfolding eval_condition

    pub eval_any_condition : AnyCondition → V → Outcome
    eval_any_condition nil_any point = verdict true
    eval_any_condition (condition c) point = eval_condition c point
    eval_any_condition (logical_condition op cond) point = eval_logical_condition op cond point
    eval_any_condition other_any point = failure invalid_condition

    pub eval_logical_condition : LogicalOperator → Conditions → V → Outcome
    eval_logical_condition op no_more point = failure empty_logical
    eval_logical_condition logical_and (more c cs) point =
        and_then (eval_any_condition c point) (eval_all cs point)
    eval_logical_condition logical_or (more c cs) point =
        or_else (eval_any_condition c point) (eval_some cs point)
    eval_logical_condition (other_logical name) (more c cs) point =
        failure (unknown_logical (other_logical name))

    pub eval_all : Conditions → V → Outcome
    eval_all no_more point = verdict true
    eval_all (more c cs) point = and_then (eval_any_condition c point) (eval_all cs point)

    pub eval_some : Conditions → V → Outcome
    eval_some no_more point = verdict false
    eval_some (more c cs) point = or_else (eval_any_condition c point) (eval_some cs point)

  unfoldable pub eval_compiled_condition : Condition → List (List ℕ) → V → Outcome
  unfolding compare_value
  eval_compiled_condition cond [] point = verdict false
  eval_compiled_condition cond (part ∷ parts) point = elim (map_get point part) [
    | none ↦ failure (column_not_found part)
    | some column_value ↦
        if is_map (kind column_value)
        then eval_compiled_condition cond parts column_value
        else compare_value cond column_value
  ]

  unfoldable pub compile_leaf : Condition → V → Outcome
  unfolding split eval_compiled_condition
  compile_leaf c =
      let parts = split c.column_attribute_name in
      if is_empty_name parts
      then (λ point.
          if is_map (kind point) then failure (column_not_found []) else compare_value c point)
      else λ point. eval_compiled_condition c parts point

  unfoldable mutual
    unfolding compile_leaf

    pub compile_condition : AnyCondition → V → Outcome
    compile_condition nil_any = λ point. verdict true
    compile_condition (condition c) = compile_leaf c
    compile_condition (logical_condition op cond) = compile_logical op cond
    compile_condition other_any = λ point. failure invalid_condition

    pub compile_logical : LogicalOperator → Conditions → V → Outcome
    compile_logical op no_more = λ point. failure empty_logical
    compile_logical logical_and (more c cs) =
        let fns = compile_condition c ∷ compile_each cs in λ point. run_all fns point
    compile_logical logical_or (more c cs) =
        let fns = compile_condition c ∷ compile_each cs in λ point. run_some fns point
    compile_logical (other_logical name) (more c cs) =
        λ point. failure (unknown_logical (other_logical name))

    pub compile_each : Conditions → List (V → Outcome)
    compile_each no_more = []
    compile_each (more c cs) = compile_condition c ∷ compile_each cs
