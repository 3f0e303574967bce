-- ===== src/Calculator/Grammar.antt =====
-- The grammar in the comment of `parser`: its expressions, their text and their value.
use crewai_go.Base.{ℕ, true, ◌≡◌, List, [], ◌∷◌, ◌++◌}
use crewai_go.Base.Result.{Result, ok, ◌>>=◌}
use crewai_go.Calculator.{
  Float64, CalcError, is_numeric, SumOp, plus, minus, ProductOp, times, over, apply_sum,
  apply_product, read_number,
}

-- `Sums` and `Products` are the parts in braces. A number has its first byte and the others.
mutual
  pub data Expression : Type 0 where
    sum : Term → Sums → Expression

  pub data Sums : Type 0 where
    no_sum : Sums
    and_sum : SumOp → Term → Sums → Sums

  pub data Term : Type 0 where
    product : Factor → Products → Term

  pub data Products : Type 0 where
    no_product : Products
    and_product : ProductOp → Factor → Products → Products

  pub data Factor : Type 0 where
    number : ℕ → List ℕ → Factor
    positive negative : Factor → Factor
    group : Expression → Factor

abbrev pub sum_byte : SumOp → ℕ
sum_byte plus = 43
sum_byte minus = 45

abbrev pub product_byte : ProductOp → ℕ
product_byte times = 42
product_byte over = 47

-- The text of an expression, before a text that follows it.
unfoldable mutual
  pub print : Expression → List ℕ → List ℕ
  print (sum t ss) rest = print_term t (print_sums ss rest)

  pub print_sums : Sums → List ℕ → List ℕ
  print_sums no_sum rest = rest
  print_sums (and_sum op t ss) rest = sum_byte op ∷ print_term t (print_sums ss rest)

  pub print_term : Term → List ℕ → List ℕ
  print_term (product f ps) rest = print_factor f (print_products ps rest)

  pub print_products : Products → List ℕ → List ℕ
  print_products no_product rest = rest
  print_products (and_product op f ps) rest =
      product_byte op ∷ print_factor f (print_products ps rest)

  pub print_factor : Factor → List ℕ → List ℕ
  print_factor (number d ds) rest = d ∷ (ds ++ rest)
  print_factor (positive f) rest = 43 ∷ print_factor f rest
  print_factor (negative f) rest = 45 ∷ print_factor f rest
  print_factor (group e) rest = 40 ∷ print e (41 ∷ rest)

abbrev pub AllNumeric : List ℕ → Type 0
AllNumeric [] = Unit {0}
AllNumeric (d ∷ ds) = (is_numeric d ≡ true) × AllNumeric ds

-- The numbers of the expression are made of digits and points.
unfoldable mutual
  pub IsLegible : Expression → Type 0
  IsLegible (sum t ss) = AreLegibleTerm t × AreLegibleSums ss

  pub AreLegibleSums : Sums → Type 0
  AreLegibleSums no_sum = Unit {0}
  AreLegibleSums (and_sum op t ss) = AreLegibleTerm t × AreLegibleSums ss

  pub AreLegibleTerm : Term → Type 0
  AreLegibleTerm (product f ps) = AreLegibleFactor f × AreLegibleProducts ps

  pub AreLegibleProducts : Products → Type 0
  AreLegibleProducts no_product = Unit {0}
  AreLegibleProducts (and_product op f ps) = AreLegibleFactor f × AreLegibleProducts ps

  pub AreLegibleFactor : Factor → Type 0
  AreLegibleFactor (number d ds) = (is_numeric d ≡ true) × AllNumeric ds
  AreLegibleFactor (positive f) = AreLegibleFactor f
  AreLegibleFactor (negative f) = AreLegibleFactor f
  AreLegibleFactor (group e) = IsLegible e

-- The value: operators of one kind from the left, with the first error from the left.
module _ {F : Type 0} (fl : Float64 F) where
  unfoldable mutual
    unfolding apply_sum apply_product read_number

    pub value : Expression → Result CalcError F
    value (sum t ss) = value_term t >>= λ v. value_sums v ss

    pub value_sums : F → Sums → Result CalcError F
    value_sums v no_sum = ok v
    value_sums v (and_sum op t ss) = value_term t >>= λ r. value_sums (apply_sum fl op v r) ss

    pub value_term : Term → Result CalcError F
    value_term (product f ps) = value_factor f >>= λ v. value_products v ps

    pub value_products : F → Products → Result CalcError F
    value_products v no_product = ok v
    value_products v (and_product op f ps) =
        value_factor f >>= λ r. apply_product fl op v r >>= λ v'. value_products v' ps

    pub value_factor : Factor → Result CalcError F
    value_factor (number d ds) = read_number fl (d ∷ ds)
    value_factor (positive f) = value_factor f
    value_factor (negative f) = value_factor f >>= λ v. ok (fl.neg v)
    value_factor (group e) = value e
