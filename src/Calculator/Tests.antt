-- ===== src/Calculator/Tests.antt =====
-- Sums of digits, over numbers that read one digit.
use crewai_go.Base.{ℕ, ◌+◌, ◌-◌, ◌*◌, ◌==◌, none, some, [], ◌∷◌, ◌≡◌, ◌≢◌, refl}
use crewai_go.Base.Result.{ok, err}
use crewai_go.Calculator.{
  Float64, plus, times, out_of_fuel, division_by_zero, is_numeric, eval_expr,
}
use crewai_go.Calculator.Grammar.{
  Expression, sum, no_sum, and_sum, product, no_product, and_product, number, group, print,
  IsLegible, value,
}
use crewai_go.Calculator.Fuel.{eval_expr_ends}
use crewai_go.Calculator.RoundTrip.{eval_expr-print}

abbrev digits : Float64 ℕ
digits = record {
  add = λ a b. a + b;
  sub = λ a b. a - b;
  mul = λ a b. a * b;
  div = λ a b. a;
  neg = λ a. a;
  is_zero = λ a. a == 0;
  read = λ ds. elim ds [ [] ↦ none | d ∷ rest ↦ some (d - 48) ];
}

-- "2 + 3 * 4" and "1/0".
two_plus : eval_expr digits (50 ∷ 32 ∷ 43 ∷ 32 ∷ 51 ∷ 32 ∷ 42 ∷ 32 ∷ 52 ∷ []) ≡ ok 14
unfolding eval_expr
two_plus = refl

one_over : eval_expr digits (49 ∷ 47 ∷ 48 ∷ []) ≡ err division_by_zero
unfolding eval_expr
one_over = refl

-- 2+3*(4).
abbrev sample : Expression
sample = sum (product (number 50 []) no_product) (
    and_sum plus
      (product (number 51 [])
        (and_product times (group (sum (product (number 52 []) no_product) no_sum)) no_product))
      no_sum)

sample-IsLegible : IsLegible sample
unfolding IsLegible is_numeric
sample-IsLegible = (((refl, tt), tt), (((refl, tt), ((((refl, tt), tt), tt), tt)), tt))

eval_expr-print_example : eval_expr digits (print sample []) ≡ value digits sample
eval_expr-print_example = eval_expr-print digits sample sample-IsLegible

eval_expr_ends_example : eval_expr digits (40 ∷ 49 ∷ 43 ∷ []) ≢ err out_of_fuel
eval_expr_ends_example = eval_expr_ends digits (40 ∷ 49 ∷ 43 ∷ [])
