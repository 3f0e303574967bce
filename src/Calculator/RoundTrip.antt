-- ===== src/Calculator/RoundTrip.antt =====
-- evalExpr reads the text of an expression as the grammar says: precedence, associativity, values
-- and errors.
use crewai_go.Base.{
  ℕ, zero, suc, ◌+◌, ◌*◌, ◌≤◌, List, [], ◌∷◌, ◌++◌, length, ◌≡◌, refl, ap, ◌∙◌, arith,
}
use crewai_go.Base.Result.{ok, ◌>>=◌}
use crewai_go.Calculator.{
  Float64, skip_spaces, apply_sum, apply_product, close_paren, sum_step, product_step,
  parse_expression, sum_loop, parse_term, product_loop, parse_factor, finish_eval, eval_expr,
}
use crewai_go.Calculator.Grammar.{
  Expression, sum, Sums, no_sum, and_sum, Term, product, Products, no_product, and_product, Factor,
  number, positive, negative, group, print, print_sums, print_term, print_products, print_factor,
  IsLegible, AreLegibleSums, AreLegibleTerm, AreLegibleProducts, AreLegibleFactor, value,
  value_sums, value_term, value_products, value_factor,
}
use crewai_go.Calculator.Steps.{
  EndsNumber, EndsTerm, EndsSum, EndsSum-EndsTerm, paren_EndsSum, skip_spaces-ends,
  EndsTerm-print_sums, EndsNumber-print_products, print_term-le, print_factor-le, chain_reads,
  chain_same, chain_unit, chain_assoc, parse_number-reads, sum_step-ends, product_step-ends,
  sum_byte_kept, product_byte_kept, sum_step-op, product_step-op, start_number, start_positive,
  start_negative, start_group, closes, finished,
}

module _ {F : Type 0} (fl : Float64 F) where
  mutual
    unfolding print value IsLegible parse_expression

    reads :
        (n : ℕ) (e : Expression) (rest : List ℕ)
        → 3 * length (print e rest) + 3 ≤ n
        → IsLegible e
        → EndsSum rest
        → parse_expression fl n (print e rest) ≡ (value fl e >>= λ v. ok (v, rest))
    reads zero e rest h l f = absurd (omega arith)
    reads (suc n) (sum t ss) rest h l f =
        let s = print_sums ss rest in
        chain_reads (parse_term fl n (print_term t s)) (value_term fl t) s
          (λ r. sum_loop fl n r.0 r.1) (λ v. value_sums fl v ss >>= λ v'. ok (v', rest))
          (reads_term n t s (omega arith) l.0 (EndsTerm-print_sums ss rest f))
          (λ v. reads_sums n v ss rest (omega (arith, print_term-le t s)) l.1 f)
        ∙ chain_assoc (value_term fl t) (λ v. value_sums fl v ss) (λ v'. ok (v', rest))

    reads_sums :
        (n : ℕ) (v : F) (ss : Sums) (rest : List ℕ)
        → 3 * length (print_sums ss rest) + 1 ≤ n
        → AreLegibleSums ss
        → EndsSum rest
        → sum_loop fl n v (print_sums ss rest) ≡ (value_sums fl v ss >>= λ v'. ok (v', rest))
    reads_sums zero v ss rest h l f = absurd (omega arith)
    reads_sums (suc n) v no_sum rest h l f =
        ap (sum_step fl (parse_term fl n) (sum_loop fl n) v)
          (skip_spaces-ends rest (EndsSum-EndsTerm rest f))
        ∙ sum_step-ends fl (parse_term fl n) (sum_loop fl n) v rest f
    reads_sums (suc n) v (and_sum op t ss) rest h l f =
        let s = print_sums ss rest in
        ap (sum_step fl (parse_term fl n) (sum_loop fl n) v) (sum_byte_kept fl op (print_term t s))
        ∙ sum_step-op fl (parse_term fl n) (sum_loop fl n) v op (print_term t s)
        ∙ chain_reads (parse_term fl n (print_term t s)) (value_term fl t) s
            (λ r. sum_loop fl n (apply_sum fl op v r.0) r.1)
            (λ r. value_sums fl (apply_sum fl op v r) ss >>= λ v'. ok (v', rest))
            (reads_term n t s (omega arith) l.0 (EndsTerm-print_sums ss rest f))
            (λ r.
              reads_sums n (apply_sum fl op v r) ss rest (omega (arith, print_term-le t s)) l.1 f)
        ∙ chain_assoc (value_term fl t) (λ r. value_sums fl (apply_sum fl op v r) ss)
            (λ v'. ok (v', rest))

    reads_term :
        (n : ℕ) (t : Term) (rest : List ℕ)
        → 3 * length (print_term t rest) + 2 ≤ n
        → AreLegibleTerm t
        → EndsTerm rest
        → parse_term fl n (print_term t rest) ≡ (value_term fl t >>= λ v. ok (v, rest))
    reads_term zero t rest h l f = absurd (omega arith)
    reads_term (suc n) (product x ps) rest h l f =
        let s = print_products ps rest in
        chain_reads (parse_factor fl n (print_factor x s)) (value_factor fl x) s
          (λ r. product_loop fl n r.0 r.1) (λ v. value_products fl v ps >>= λ v'. ok (v', rest))
          (reads_factor n x s (omega arith) l.0 (EndsNumber-print_products ps rest f))
          (λ v. reads_products n v ps rest (omega (arith, print_factor-le x s)) l.1 f)
        ∙ chain_assoc (value_factor fl x) (λ v. value_products fl v ps) (λ v'. ok (v', rest))

    reads_products :
        (n : ℕ) (v : F) (ps : Products) (rest : List ℕ)
        → 3 * length (print_products ps rest) + 1 ≤ n
        → AreLegibleProducts ps
        → EndsTerm rest
        → product_loop fl n v (print_products ps rest)
          ≡ (value_products fl v ps >>= λ v'. ok (v', rest))
    reads_products zero v ps rest h l f = absurd (omega arith)
    reads_products (suc n) v no_product rest h l f =
        ap (product_step fl (parse_factor fl n) (product_loop fl n) v) (skip_spaces-ends rest f)
        ∙ product_step-ends fl (parse_factor fl n) (product_loop fl n) v rest f
    reads_products (suc n) v (and_product op x ps) rest h l f =
        let s = print_products ps rest in
        ap (product_step fl (parse_factor fl n) (product_loop fl n) v)
          (product_byte_kept fl op (print_factor x s))
        ∙ product_step-op fl (parse_factor fl n) (product_loop fl n) v op (print_factor x s)
        ∙ chain_reads (parse_factor fl n (print_factor x s)) (value_factor fl x) s
            (λ r. apply_product fl op v r.0 >>= λ v'. product_loop fl n v' r.1)
            (λ r.
              (apply_product fl op v r >>= λ v'. value_products fl v' ps) >>= λ v'. ok (v', rest))
            (reads_factor n x s (omega arith) l.0 (EndsNumber-print_products ps rest f))
            (λ r.
              chain_same (apply_product fl op v r) (λ v'. product_loop fl n v' s)
                (λ v'. value_products fl v' ps >>= λ v''. ok (v'', rest))
                (λ v'. reads_products n v' ps rest (omega (arith, print_factor-le x s)) l.1 f)
              ∙ chain_assoc (apply_product fl op v r) (λ v'. value_products fl v' ps)
                  (λ v''. ok (v'', rest)))
        ∙ chain_assoc (value_factor fl x)
            (λ r. apply_product fl op v r >>= λ v'. value_products fl v' ps) (λ v'. ok (v', rest))

    reads_factor :
        (n : ℕ) (x : Factor) (rest : List ℕ)
        → 3 * length (print_factor x rest) + 1 ≤ n
        → AreLegibleFactor x
        → EndsNumber rest
        → parse_factor fl n (print_factor x rest) ≡ (value_factor fl x >>= λ v. ok (v, rest))
    reads_factor zero x rest h l f = absurd (omega arith)
    reads_factor (suc n) (number d ds) rest h l f =
        start_number fl (parse_factor fl n) (parse_expression fl n) d (ds ++ rest) l.0
        ∙ parse_number-reads fl d ds rest l.0 l.1 f
    reads_factor (suc n) (positive x) rest h l f =
        start_positive fl (parse_factor fl n) (parse_expression fl n) (print_factor x rest)
        ∙ reads_factor n x rest (omega arith) l f
    reads_factor (suc n) (negative x) rest h l f =
        start_negative fl (parse_factor fl n) (parse_expression fl n) (print_factor x rest)
        ∙ chain_reads (parse_factor fl n (print_factor x rest)) (value_factor fl x) rest
            (λ r. ok (fl.neg r.0, r.1)) (λ v. ok (fl.neg v, rest))
            (reads_factor n x rest (omega arith) l f) (λ v. refl)
        ∙ chain_assoc (value_factor fl x) (λ v. ok (fl.neg v)) (λ v. ok (v, rest))
    reads_factor (suc n) (group e) rest h l f =
        start_group fl (parse_factor fl n) (parse_expression fl n) (print e (41 ∷ rest))
        ∙ chain_reads (parse_expression fl n (print e (41 ∷ rest))) (value fl e) (41 ∷ rest)
            (λ r. close_paren fl r.0 (skip_spaces r.1)) (λ v. ok (v, rest))
            (reads n e (41 ∷ rest) (omega arith) l (paren_EndsSum rest)) (λ v. closes fl v rest)

  -- The text of an expression whose numbers are made of digits and points evaluates as the grammar
  -- says: to the value of the expression, products before sums and operators of one kind from the
  -- left, or to its first error from the left.
  pub eval_expr-print : (e : Expression) → IsLegible e → eval_expr fl (print e []) ≡ value fl e
  unfolding eval_expr
  eval_expr-print e l =
      let s = print e [] in
      chain_reads (parse_expression fl (3 * length s + 3) s) (value fl e) []
        (λ r. finish_eval fl r.0 (skip_spaces r.1)) (λ v. ok v)
        (reads (3 * length s + 3) e [] (omega arith) l tt) (finished fl)
      ∙ chain_unit (value fl e)
