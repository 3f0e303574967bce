-- ===== src/Calculator/Steps.antt =====
-- What the steps of the parser read from the text of an expression.
use crewai_go.Base.{
  ℕ, ◌≤◌, true, false, none, List, [], ◌∷◌, ◌++◌, length, length-append, ◌≡◌, refl, ap, ◌∙◌, arith,
}
use crewai_go.Base.Result.{Result, ok, err, ◌>>=◌}
use crewai_go.Calculator.{
  Float64, CalcError, is_space, skip_spaces, is_numeric, span_number, SumOp, plus, minus, ProductOp,
  times, over, sum_op, product_op, start_of, other, apply_sum, apply_product, finish_number,
  read_number, parse_number, close_paren, sum_step, product_step, factor_step, finish_eval,
}
use crewai_go.Calculator.Grammar.{
  Expression, sum, Sums, no_sum, and_sum, Term, product, Products, no_product, and_product, Factor,
  number, positive, negative, group, sum_byte, product_byte, print, print_sums, print_term,
  print_products, print_factor, AllNumeric,
}

-- What may follow a number, a term and an expression.
abbrev pub EndsNumber : List ℕ → Type 0
EndsNumber [] = Unit {0}
EndsNumber (c ∷ cs) = is_numeric c ≡ false

abbrev pub EndsTerm : List ℕ → Type 0
EndsTerm [] = Unit {0}
EndsTerm (c ∷ cs) = (is_numeric c ≡ false) × (is_space c ≡ false) × (product_op c ≡ none)

abbrev pub EndsSum : List ℕ → Type 0
EndsSum [] = Unit {0}
EndsSum (c ∷ cs) =
    (is_numeric c ≡ false) × (is_space c ≡ false) × (product_op c ≡ none) × (sum_op c ≡ none)

pub numeric_is_no_space : (d : ℕ) → is_numeric d ≡ true → is_space d ≡ false
unfolding is_numeric is_space
numeric_is_no_space d h = ground arith

pub numeric_starts_other : (d : ℕ) → is_numeric d ≡ true → start_of d ≡ other
unfolding is_numeric start_of
numeric_starts_other d h = ground arith

pub EndsTerm-EndsNumber : (s : List ℕ) → EndsTerm s → EndsNumber s
EndsTerm-EndsNumber [] e = tt
EndsTerm-EndsNumber (c ∷ cs) e = e.0

pub EndsSum-EndsTerm : (s : List ℕ) → EndsSum s → EndsTerm s
EndsSum-EndsTerm [] e = tt
EndsSum-EndsTerm (c ∷ cs) e = (e.0, e.1, e.2)

pub paren_EndsSum : (s : List ℕ) → EndsSum (41 ∷ s)
unfolding is_numeric is_space product_op sum_op
paren_EndsSum s = (refl, refl, refl, refl)

pub skip_spaces-kept : (c : ℕ) (cs : List ℕ) → is_space c ≡ false → skip_spaces (c ∷ cs) ≡ c ∷ cs
unfolding skip_spaces
skip_spaces-kept c cs h = rw h refl

pub skip_spaces-ends : (s : List ℕ) → EndsTerm s → skip_spaces s ≡ s
unfolding skip_spaces
skip_spaces-ends [] e = refl
skip_spaces-ends (c ∷ cs) e = skip_spaces-kept c cs e.1

pub EndsTerm-print_sums : (ss : Sums) (rest : List ℕ) → EndsSum rest → EndsTerm (print_sums ss rest)
unfolding print is_numeric is_space product_op
EndsTerm-print_sums no_sum rest e = EndsSum-EndsTerm rest e
EndsTerm-print_sums (and_sum plus t ss) rest e = (refl, refl, refl)
EndsTerm-print_sums (and_sum minus t ss) rest e = (refl, refl, refl)

pub EndsNumber-print_products :
    (ps : Products) (rest : List ℕ) → EndsTerm rest → EndsNumber (print_products ps rest)
unfolding print is_numeric
EndsNumber-print_products no_product rest e = EndsTerm-EndsNumber rest e
EndsNumber-print_products (and_product times f ps) rest e = refl
EndsNumber-print_products (and_product over f ps) rest e = refl

pub span_number-read :
    (ds rest : List ℕ) → AllNumeric ds → EndsNumber rest → span_number (ds ++ rest) ≡ (ds, rest)
unfolding span_number
span_number-read [] [] h e = refl
span_number-read [] (c ∷ cs) h e = rw e refl
span_number-read (d ∷ ds) rest h e = rw (h.0, span_number-read ds rest h.1 e) refl

mutual
  unfolding print

  pub print-le : (e : Expression) (rest : List ℕ) → length rest ≤ length (print e rest)
  print-le (sum t ss) rest =
      omega (arith, print_term-le t (print_sums ss rest), print_sums-le ss rest)

  pub print_sums-le : (ss : Sums) (rest : List ℕ) → length rest ≤ length (print_sums ss rest)
  print_sums-le no_sum rest = omega arith
  print_sums-le (and_sum op t ss) rest =
      omega (arith, print_term-le t (print_sums ss rest), print_sums-le ss rest)

  pub print_term-le : (t : Term) (rest : List ℕ) → length rest ≤ length (print_term t rest)
  print_term-le (product f ps) rest =
      omega (arith, print_factor-le f (print_products ps rest), print_products-le ps rest)

  pub print_products-le :
      (ps : Products) (rest : List ℕ) → length rest ≤ length (print_products ps rest)
  print_products-le no_product rest = omega arith
  print_products-le (and_product op f ps) rest =
      omega (arith, print_factor-le f (print_products ps rest), print_products-le ps rest)

  pub print_factor-le : (f : Factor) (rest : List ℕ) → length rest ≤ length (print_factor f rest)
  print_factor-le (number d ds) rest = omega (arith, length-append ds rest)
  print_factor-le (positive f) rest = omega (arith, print_factor-le f rest)
  print_factor-le (negative f) rest = omega (arith, print_factor-le f rest)
  print_factor-le (group e) rest = omega (arith, print-le e (41 ∷ rest))

-- A step whose first parser reads a value, and whose continuation goes on from it.
pub chain_reads :
    {A C : Type 0} (p : Result CalcError (A × List ℕ)) (m : Result CalcError A) (s : List ℕ)
    (next : A × List ℕ → Result CalcError C) (g : A → Result CalcError C)
    → p ≡ (m >>= λ v. ok (v, s))
    → ((v : A) → next (v, s) ≡ g v)
    → (p >>= next) ≡ (m >>= g)
chain_reads p (err x) s next g h k = ap (λ r. r >>= next) h
chain_reads p (ok v) s next g h k = ap (λ r. r >>= next) h ∙ k v

pub chain_same :
    {A B : Type 0} (m : Result CalcError A) (f g : A → Result CalcError B)
    → ((v : A) → f v ≡ g v)
    → (m >>= f) ≡ (m >>= g)
chain_same (err x) f g h = refl
chain_same (ok v) f g h = h v

pub chain_unit : {A : Type 0} (m : Result CalcError A) → (m >>= λ v. ok v) ≡ m
chain_unit (err x) = refl
chain_unit (ok v) = refl

pub chain_assoc :
    {A B C : Type 0} (m : Result CalcError A) (f : A → Result CalcError B)
    (g : B → Result CalcError C)
    → (m >>= λ v. f v >>= g) ≡ ((m >>= f) >>= g)
chain_assoc (err x) f g = refl
chain_assoc (ok v) f g = refl

module _ {F : Type 0} (fl : Float64 F) where
  pub finish_number-reads :
      (r : List ℕ × List ℕ) (d : ℕ) (ds rest : List ℕ)
      → r ≡ (d ∷ ds, rest)
      → finish_number fl r ≡ (read_number fl (d ∷ ds) >>= λ v. ok (v, rest))
  unfolding finish_number
  finish_number-reads r d ds rest h = ap (finish_number fl) h

  pub parse_number-reads :
      (d : ℕ) (ds rest : List ℕ)
      → is_numeric d ≡ true
      → AllNumeric ds
      → EndsNumber rest
      → parse_number fl (d ∷ (ds ++ rest)) ≡ (read_number fl (d ∷ ds) >>= λ v. ok (v, rest))
  unfolding parse_number
  parse_number-reads d ds rest h hs e =
      finish_number-reads (span_number (skip_spaces (d ∷ (ds ++ rest)))) d ds rest (
        ap span_number (skip_spaces-kept d (ds ++ rest) (numeric_is_no_space d h))
        ∙ span_number-read (d ∷ ds) rest (h, hs) e)

  pub sum_step-ends :
      (term : List ℕ → Result CalcError (F × List ℕ))
      (loop : F → List ℕ → Result CalcError (F × List ℕ)) (v : F) (s : List ℕ)
      → EndsSum s
      → sum_step fl term loop v s ≡ ok (v, s)
  unfolding sum_step
  sum_step-ends term loop v [] e = refl
  sum_step-ends term loop v (c ∷ cs) e = rw (e.3, sum_step) refl

  pub product_step-ends :
      (factor : List ℕ → Result CalcError (F × List ℕ))
      (loop : F → List ℕ → Result CalcError (F × List ℕ)) (v : F) (s : List ℕ)
      → EndsTerm s
      → product_step fl factor loop v s ≡ ok (v, s)
  unfolding product_step
  product_step-ends factor loop v [] e = refl
  product_step-ends factor loop v (c ∷ cs) e = rw (e.2, product_step) refl

  pub sum_byte_kept : (op : SumOp) (s : List ℕ) → skip_spaces (sum_byte op ∷ s) ≡ sum_byte op ∷ s
  unfolding skip_spaces
  sum_byte_kept plus s = refl
  sum_byte_kept minus s = refl

  pub product_byte_kept :
      (op : ProductOp) (s : List ℕ) → skip_spaces (product_byte op ∷ s) ≡ product_byte op ∷ s
  unfolding skip_spaces
  product_byte_kept times s = refl
  product_byte_kept over s = refl

  pub sum_step-op :
      (term : List ℕ → Result CalcError (F × List ℕ))
      (loop : F → List ℕ → Result CalcError (F × List ℕ)) (v : F) (op : SumOp) (s : List ℕ)
      → sum_step fl term loop v (sum_byte op ∷ s)
        ≡ (term s >>= λ r. loop (apply_sum fl op v r.0) r.1)
  unfolding sum_step sum_op
  sum_step-op term loop v plus s = refl
  sum_step-op term loop v minus s = refl

  pub product_step-op :
      (factor : List ℕ → Result CalcError (F × List ℕ))
      (loop : F → List ℕ → Result CalcError (F × List ℕ)) (v : F) (op : ProductOp) (s : List ℕ)
      → product_step fl factor loop v (product_byte op ∷ s)
        ≡ (factor s >>= λ r. apply_product fl op v r.0 >>= λ v'. loop v' r.1)
  unfolding product_step product_op
  product_step-op factor loop v times s = refl
  product_step-op factor loop v over s = refl

  pub start_number :
      (factor expression : List ℕ → Result CalcError (F × List ℕ)) (d : ℕ) (s : List ℕ)
      → is_numeric d ≡ true
      → factor_step fl factor expression (skip_spaces (d ∷ s)) ≡ parse_number fl (d ∷ s)
  unfolding factor_step
  start_number factor expression d s h =
      ap (factor_step fl factor expression) (skip_spaces-kept d s (numeric_is_no_space d h))
      ∙ rw (numeric_starts_other d h, factor_step) refl

  pub start_positive :
      (factor expression : List ℕ → Result CalcError (F × List ℕ)) (s : List ℕ)
      → factor_step fl factor expression (skip_spaces (43 ∷ s)) ≡ factor s
  unfolding factor_step start_of skip_spaces
  start_positive factor expression s = refl

  pub start_negative :
      (factor expression : List ℕ → Result CalcError (F × List ℕ)) (s : List ℕ)
      → factor_step fl factor expression (skip_spaces (45 ∷ s))
        ≡ (factor s >>= λ r. ok (fl.neg r.0, r.1))
  unfolding factor_step start_of skip_spaces
  start_negative factor expression s = refl

  pub start_group :
      (factor expression : List ℕ → Result CalcError (F × List ℕ)) (s : List ℕ)
      → factor_step fl factor expression (skip_spaces (40 ∷ s))
        ≡ (expression s >>= λ r. close_paren fl r.0 (skip_spaces r.1))
  unfolding factor_step start_of skip_spaces
  start_group factor expression s = refl

  pub closes : (v : F) (s : List ℕ) → close_paren fl v (skip_spaces (41 ∷ s)) ≡ ok (v, s)
  unfolding close_paren skip_spaces
  closes v s = refl

  pub finished : (v : F) → finish_eval fl v (skip_spaces []) ≡ ok v
  unfolding finish_eval skip_spaces
  finished v = refl
