-- ===== src/Calculator.antt =====
-- tools/calculator.go: the recursive-descent parser behind the calculator tool. The parser's state is
-- the text from its position on, as bytes; float64 with strconv.ParseFloat is an interface.
-- `Grammar` has the expressions that the parser's comment describes, `Fuel` and `RoundTrip` the
-- theorems.
pub mod Fuel
pub mod Grammar
pub mod Steps
pub mod RoundTrip
mod Tests
use crewai_go.Base.{
  ℕ, zero, suc, ◌+◌, ◌*◌, ◌==◌, leb, if◌then◌else◌, Bool, true, false, ◌&&◌, ◌||◌, Option, none,
  some, List, [], ◌∷◌, length,
}
use crewai_go.Base.Result.{Result, ok, err, ◌>>=◌}

-- The arithmetic of float64, `v == 0`, and ParseFloat, which may refuse a text.
pub record Float64 (F : Type 0) : Type 0 where
  pub add : F → F → F
  pub sub : F → F → F
  pub mul : F → F → F
  pub div : F → F → F
  pub neg : F → F
  pub is_zero : F → Bool
  pub read : List ℕ → Option F

-- The errors; `out_of_fuel` is the model's own.
pub data CalcError : Type 0 where
  unexpected_end expected_close division_by_zero bad_number out_of_fuel : CalcError
  expected_number invalid_near : List ℕ → CalcError

-- unicode.IsSpace of a byte.
pub is_space : ℕ → Bool
is_space c = leb 9 c && leb c 13 || (c == 32 || (c == 133 || c == 160))

pub skip_spaces : List ℕ → List ℕ
unfolding is_space
skip_spaces [] = []
skip_spaces (c ∷ cs) = let rest = skip_spaces cs in if is_space c then rest else c ∷ cs

-- A digit or the point.
pub is_numeric : ℕ → Bool
is_numeric c = leb 48 c && leb c 57 || c == 46

pub data SumOp : Type 0 where
  plus minus : SumOp

pub data ProductOp : Type 0 where
  times over : ProductOp

-- `op != '+' && op != '-'`, and the operator otherwise.
pub sum_op : ℕ → Option SumOp
sum_op c = if c == 43 then some plus else if c == 45 then some minus else none

pub product_op : ℕ → Option ProductOp
product_op c = if c == 42 then some times else if c == 47 then some over else none

-- The cases of the switch of parseFactor.
pub data Start : Type 0 where
  plus_sign minus_sign paren other : Start

pub start_of : ℕ → Start
start_of c =
    if c == 43 then plus_sign else if c == 45 then minus_sign else if c == 40 then paren else other

-- The loop of parseNumber: the bytes of the number and what follows them.
pub span_number : List ℕ → List ℕ × List ℕ
unfolding is_numeric
span_number [] = ([], [])
span_number (c ∷ cs) =
    let (digits, rest) = span_number cs in if is_numeric c then (c ∷ digits, rest) else ([], c ∷ cs)

module _ {F : Type 0} (fl : Float64 F) where
  pub apply_sum : SumOp → F → F → F
  apply_sum plus v rhs = fl.add v rhs
  apply_sum minus v rhs = fl.sub v rhs

  pub apply_product : ProductOp → F → F → Result CalcError F
  apply_product times v rhs = ok (fl.mul v rhs)
  apply_product over v rhs = if fl.is_zero rhs then err division_by_zero else ok (fl.div v rhs)

  pub read_number : List ℕ → Result CalcError F
  read_number digits = elim (fl.read digits) [ none ↦ err bad_number | some v ↦ ok v ]

  -- parseNumber after its loop.
  pub finish_number : List ℕ × List ℕ → Result CalcError (F × List ℕ)
  unfolding read_number
  finish_number ([], rest) = err (expected_number rest)
  finish_number (d ∷ ds, rest) = read_number (d ∷ ds) >>= λ v. ok (v, rest)

  pub parse_number : List ℕ → Result CalcError (F × List ℕ)
  unfolding skip_spaces span_number finish_number
  parse_number s = finish_number (span_number (skip_spaces s))

  -- The closing parenthesis of a factor.
  pub close_paren : F → List ℕ → Result CalcError (F × List ℕ)
  close_paren v [] = err expected_close
  close_paren v (c ∷ cs) = if c == 41 then ok (v, cs) else err expected_close

  -- The calls that the steps below make: of parseTerm or parseFactor, of the loop itself, and of
  -- parseExpression.
  abbrev pub Parser : Type 0
  Parser = List ℕ → Result CalcError (F × List ℕ)

  -- A round of the loop of parseExpression, after its spaces.
  pub sum_step : Parser → (F → Parser) → F → Parser
  unfolding sum_op apply_sum
  sum_step term loop v [] = ok (v, [])
  sum_step term loop v (c ∷ cs) = elim (sum_op c) [
    | none ↦ ok (v, c ∷ cs)
    | some op ↦ term cs >>= λ r. loop (apply_sum op v r.0) r.1
  ]

  -- A round of the loop of parseTerm, after its spaces.
  pub product_step : Parser → (F → Parser) → F → Parser
  unfolding product_op apply_product
  product_step factor loop v [] = ok (v, [])
  product_step factor loop v (c ∷ cs) = elim (product_op c) [
    | none ↦ ok (v, c ∷ cs)
    | some op ↦ factor cs >>= λ r. apply_product op v r.0 >>= λ v'. loop v' r.1
  ]

  -- The switch of parseFactor.
  pub factor_step : Parser → Parser → Parser
  unfolding start_of parse_number close_paren
  factor_step factor expression [] = err unexpected_end
  factor_step factor expression (c ∷ cs) = elim (start_of c) [
    | plus_sign ↦ factor cs
    | minus_sign ↦ factor cs >>= λ r. ok (fl.neg r.0, r.1)
    | paren ↦ expression cs >>= λ r. close_paren r.0 (skip_spaces r.1)
    | other ↦ parse_number (c ∷ cs)
  ]

  -- The four mutually recursive loops and functions, on fuel: a call costs a unit.
  mutual
    unfolding sum_step product_step factor_step skip_spaces

    pub parse_expression : ℕ → Parser
    parse_expression zero s = err out_of_fuel
    parse_expression (suc n) s = parse_term n s >>= λ r. sum_loop n r.0 r.1

    pub sum_loop : ℕ → F → Parser
    sum_loop zero v s = err out_of_fuel
    sum_loop (suc n) v s = sum_step (parse_term n) (sum_loop n) v (skip_spaces s)

    pub parse_term : ℕ → Parser
    parse_term zero s = err out_of_fuel
    parse_term (suc n) s = parse_factor n s >>= λ r. product_loop n r.0 r.1

    pub product_loop : ℕ → F → Parser
    product_loop zero v s = err out_of_fuel
    product_loop (suc n) v s = product_step (parse_factor n) (product_loop n) v (skip_spaces s)

    pub parse_factor : ℕ → Parser
    parse_factor zero s = err out_of_fuel
    parse_factor (suc n) s = factor_step (parse_factor n) (parse_expression n) (skip_spaces s)

  -- The end of evalExpr.
  pub finish_eval : F → List ℕ → Result CalcError F
  finish_eval v [] = ok v
  finish_eval v (c ∷ cs) = err (invalid_near (c ∷ cs))

  -- evalExpr; a byte costs three calls at most.
  pub eval_expr : List ℕ → Result CalcError F
  unfolding parse_expression finish_eval skip_spaces
  eval_expr s = parse_expression (3 * length s + 3) s >>= λ r. finish_eval r.0 (skip_spaces r.1)
