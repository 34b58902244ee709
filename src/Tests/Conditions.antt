-- ===== src/Tests/Conditions.antt =====
-- Conditions at concrete inputs.
use qv_lite.Prelude.{
  ℕ, zero, suc, ◌≡◌, refl, List, [], ◌∷◌, Option, some, none, true, ltb, ◌==◌, if◌then◌else◌,
}
use qv_lite.Condition
use qv_lite.Condition.Agreement.{compile_condition-eval}

-- Numbers, and 0 as a map that has 7 under "a", and 9 under the empty name.
abbrev look_up : ℕ → List ℕ → Option ℕ
look_up zero [] = some 9
look_up zero (c ∷ cs) = if c == 97 then some 7 else none
look_up (suc n) name = none

abbrev kind_of : ℕ → Condition.Kind
kind_of zero = Condition.map_kind
kind_of (suc n) = Condition.other_kind

abbrev numbers : Condition.Variants
numbers = record {
  V = ℕ;
  kind = kind_of;
  map_get = look_up;
  is_equal = λ a b. a == b;
  compare_number = λ a b op. Condition.verdict (ltb b a);
}

abbrev above_five : Condition.AnyCondition numbers
above_five = Condition.logical_condition Condition.logical_and (
    Condition.more
      (Condition.condition
        (record { column_attribute_name = []; operator = Condition.greater_than; value = 5 }))
      Condition.no_more)

compile_condition-eval_example :
    Condition.compile_condition numbers above_five 8
    ≡ Condition.eval_any_condition numbers above_five 8
compile_condition-eval_example = compile_condition-eval numbers above_five 8 (λ h. cc)

abbrev unnamed : Condition.Condition numbers
unnamed = record { column_attribute_name = []; operator = Condition.greater_than; value = 5 }

-- On a map with a value under the empty name a condition without a column name is an error when it
-- is compiled, and holds when it is evaluated.
unnamed_compiled :
    Condition.compile_condition numbers (Condition.condition unnamed) 0
    ≡ Condition.failure (Condition.column_not_found [])
unfolding Condition.compile_condition Condition.compile_leaf Condition.split
unnamed_compiled = refl

unnamed_evaluated :
    Condition.eval_any_condition numbers (Condition.condition unnamed) 0 ≡ Condition.verdict true
unfolding Condition.eval_any_condition Condition.eval_condition Condition.split
unnamed_evaluated = refl
