-- ===== src/Calculator/Fuel.antt =====
-- The fuel of evalExpr is enough.
use crewai_go.Base.{
  ℕ, zero, suc, ◌+◌, ◌*◌, ◌<◌, ◌≤◌, ◌==◌, Bool, true, false, List, [], ◌∷◌, length, ◌≡◌, ◌≢◌, refl,
  inl, inr, Bool-cases, Option-cases, arith, subst,
}
use crewai_go.Base.Result.{Result, ok, err, ◌>>=◌}
use crewai_go.Calculator.{
  Float64, CalcError, unexpected_end, expected_close, division_by_zero, bad_number, out_of_fuel,
  expected_number, invalid_near, skip_spaces, is_numeric, span_number, sum_op, product_op,
  ProductOp, times, over, Start, start_of, plus_sign, minus_sign, paren, other, apply_product,
  read_number, finish_number, parse_number, close_paren, Parser, sum_step, product_step,
  factor_step, parse_expression, sum_loop, parse_term, product_loop, parse_factor, finish_eval,
  eval_expr,
}

abbrev is_fuel : CalcError → Bool
is_fuel out_of_fuel = true
is_fuel unexpected_end = false
is_fuel expected_close = false
is_fuel division_by_zero = false
is_fuel bad_number = false
is_fuel (expected_number s) = false
is_fuel (invalid_near s) = false

-- A result that leaves fewer than b bytes, or an error of the source.
abbrev Ends {ℓ} : {A : Type ℓ} → ℕ → Result CalcError (A × List ℕ) → Type 0
Ends b (ok (v, rest)) = length rest < b
Ends b (err e) = is_fuel e ≡ false

Ends-weaken :
    {A : Type 0} (b b' : ℕ) (r : Result CalcError (A × List ℕ)) → b ≤ b' → Ends b r → Ends b' r
Ends-weaken b b' (ok (v, rest)) h e = omega (arith, e)
Ends-weaken b b' (err x) h e = e

Ends-chain :
    {A B : Type 0} (b b' : ℕ) (m : Result CalcError (A × List ℕ))
    (next : A × List ℕ → Result CalcError (B × List ℕ))
    → Ends b m
    → ((v : A) (rest : List ℕ) → length rest < b → Ends b' (next (v, rest)))
    → Ends b' (m >>= next)
Ends-chain b b' (ok (v, rest)) next e h = h v rest e
Ends-chain b b' (err x) next e h = e

skip_spaces-le : (s : List ℕ) → length (skip_spaces s) ≤ length s
unfolding skip_spaces
skip_spaces-le [] = omega arith
skip_spaces-le (c ∷ cs) = ground (arith, skip_spaces-le cs)

span_number-length : (s : List ℕ) → length (span_number s).0 + length (span_number s).1 ≡ length s
unfolding span_number
span_number-length [] = omega arith
span_number-length (c ∷ cs) = elim (Bool-cases (is_numeric c)) [
  | inl h ↦ rw (h, span_number) (omega (arith, span_number-length cs))
  | inr h ↦ rw (h, span_number) (omega arith)
]

module _ {F : Type 0} (fl : Float64 F) where
  finish_number-Ends :
      (r : List ℕ × List ℕ) (n : ℕ) → length r.0 + length r.1 ≡ n → Ends n (finish_number fl r)
  unfolding finish_number read_number
  finish_number-Ends ([], rest) n h = refl
  finish_number-Ends (d ∷ ds, rest) n h = elim (Option-cases (fl.read (d ∷ ds))) [
    | inl e ↦ rw (e, Ends) refl
    | inr (v, e) ↦ rw (e, Ends) (omega arith)
  ]

  parse_number-Ends : (s : List ℕ) → Ends (length s) (parse_number fl s)
  unfolding parse_number
  parse_number-Ends s =
      Ends-weaken (length (skip_spaces s)) (length s) (parse_number fl s) (skip_spaces-le s) (
        finish_number-Ends (span_number (skip_spaces s)) (length (skip_spaces s))
          (span_number-length (skip_spaces s)))

  close_paren-Ends : (v : F) (s : List ℕ) → Ends (length s) (close_paren fl v s)
  unfolding close_paren
  close_paren-Ends v [] = refl
  close_paren-Ends v (c ∷ cs) = elim (Bool-cases (c == 41)) [
    | inl h ↦ rw h (omega arith)
    | inr h ↦ rw h refl
  ]

  -- The parsers that a step calls end on what the step has left to read.
  abbrev EndsBelow : ℕ → ℕ → Parser fl → Type 0
  EndsBelow extra n p = (s : List ℕ) → length s < n → Ends (length s + extra) (p s)

  sum_step-Ends :
      (term : Parser fl) (loop : F → Parser fl) (v : F) (s : List ℕ)
      → EndsBelow 0 (length s) term
      → ((v : F) → EndsBelow 1 (length s) (loop v))
      → Ends (length s + 1) (sum_step fl term loop v s)
  unfolding sum_step
  sum_step-Ends term loop v [] h h' = omega arith
  sum_step-Ends term loop v (c ∷ cs) h h' = elim (Option-cases (sum_op c)) [
    | inl e ↦ rw (e, sum_step) (omega arith)
    | inr (op, e) ↦
        rw (e, sum_step)
          (Ends-chain (length cs + 0) (suc (length cs) + 1) (term cs) _ (h cs (omega arith))
            (λ r rest lt.
              Ends-weaken (length rest + 1) _ _ (omega (arith, lt))
                (h' _ rest (omega (arith, lt)))))
  ]

  product_tail :
      (m : Result CalcError F) (rest : List ℕ) (loop : F → Parser fl) (b n : ℕ)
      → ((e : CalcError) → m ≡ err e → is_fuel e ≡ false)
      → length rest < n
      → length rest + 1 ≤ b
      → ((v : F) → EndsBelow 1 n (loop v))
      → Ends b (m >>= λ v. loop v rest)
  product_tail (err e) rest loop b n h lt le h' = h e refl
  product_tail (ok v) rest loop b n h lt le h' =
      Ends-weaken (length rest + 1) b (loop v rest) le (h' v rest lt)

  apply_product_error :
      (op : ProductOp) (v rhs : F) (e : CalcError)
      → apply_product fl op v rhs ≡ err e
      → is_fuel e ≡ false
  unfolding apply_product
  apply_product_error times v rhs e h = absurd (cc)
  apply_product_error over v rhs e h = elim (Bool-cases (fl.is_zero rhs)) [
    | inl z ↦
        let same : division_by_zero ≡ e = ground arith in subst (λ x. is_fuel x ≡ false) same refl
    | inr z ↦ absurd (ground arith)
  ]

  product_step-Ends :
      (factor : Parser fl) (loop : F → Parser fl) (v : F) (s : List ℕ)
      → EndsBelow 0 (length s) factor
      → ((v : F) → EndsBelow 1 (length s) (loop v))
      → Ends (length s + 1) (product_step fl factor loop v s)
  unfolding product_step
  product_step-Ends factor loop v [] h h' = omega arith
  product_step-Ends factor loop v (c ∷ cs) h h' = elim (Option-cases (product_op c)) [
    | inl e ↦ rw (e, product_step) (omega arith)
    | inr (op, e) ↦
        rw (e, product_step)
          (Ends-chain (length cs + 0) (suc (length cs) + 1) (factor cs) _ (h cs (omega arith))
            (λ r rest lt.
              product_tail (apply_product fl op v r) rest loop (suc (length cs) + 1)
                (length (c ∷ cs)) (apply_product_error op v r) (omega (arith, lt))
                (omega (arith, lt)) h'))
  ]

  factor_step-Ends :
      (factor expression : Parser fl) (s : List ℕ)
      → EndsBelow 0 (length s) factor
      → EndsBelow 0 (length s) expression
      → Ends (length s) (factor_step fl factor expression s)
  unfolding factor_step
  factor_step-Ends factor expression [] h h' = refl
  factor_step-Ends factor expression (c ∷ cs) h h' = by_start (start_of c) refl
    where
      by_start :
          (k : Start)
          → start_of c ≡ k
          → Ends (length (c ∷ cs)) (factor_step fl factor expression (c ∷ cs))
      by_start plus_sign e =
          rw (e, factor_step)
            (Ends-weaken (length cs + 0) _ (factor cs) (omega arith) (h cs (omega arith)))
      by_start minus_sign e =
          rw (e, factor_step)
            (Ends-chain (length cs + 0) _ (factor cs) _ (h cs (omega arith))
              (λ v rest lt. omega (arith, lt)))
      by_start paren e =
          rw (e, factor_step)
            (Ends-chain (length cs + 0) _ (expression cs) _ (h' cs (omega arith)) (λ v rest lt.
              Ends-weaken (length (skip_spaces rest)) _ (close_paren fl v (skip_spaces rest))
                (omega (arith, skip_spaces-le rest, lt)) (close_paren-Ends v (skip_spaces rest))))
      by_start other e = rw (e, factor_step) (parse_number-Ends (c ∷ cs))

  mutual
    unfolding parse_expression

    parse_expression-Ends :
        (n : ℕ) (s : List ℕ) → 3 * length s + 3 ≤ n → Ends (length s) (parse_expression fl n s)
    parse_expression-Ends zero s h = absurd (omega arith)
    parse_expression-Ends (suc n) s h =
        Ends-chain (length s) (length s) (parse_term fl n s) (λ r. sum_loop fl n r.0 r.1)
          (parse_term-Ends n s (omega arith))
          (λ v rest lt.
            Ends-weaken (length rest + 1) (length s) (sum_loop fl n v rest) (omega (arith, lt))
              (sum_loop-Ends n v rest (omega (arith, lt))))

    sum_loop-Ends :
        (n : ℕ) (v : F) (s : List ℕ)
        → 3 * length s + 1 ≤ n
        → Ends (length s + 1) (sum_loop fl n v s)
    sum_loop-Ends zero v s h = absurd (omega arith)
    sum_loop-Ends (suc n) v s h =
        let le = skip_spaces-le s in
        Ends-weaken (length (skip_spaces s) + 1) (length s + 1)
          (sum_step fl (parse_term fl n) (sum_loop fl n) v (skip_spaces s)) (omega (arith, le))
          (sum_step-Ends (parse_term fl n) (sum_loop fl n) v (skip_spaces s)
            (λ t lt.
              Ends-weaken (length t) (length t + 0) (parse_term fl n t) (omega arith)
                (parse_term-Ends n t (omega (arith, lt, le))))
            (λ v t lt. sum_loop-Ends n v t (omega (arith, lt, le))))

    parse_term-Ends :
        (n : ℕ) (s : List ℕ) → 3 * length s + 2 ≤ n → Ends (length s) (parse_term fl n s)
    parse_term-Ends zero s h = absurd (omega arith)
    parse_term-Ends (suc n) s h =
        Ends-chain (length s) (length s) (parse_factor fl n s) (λ r. product_loop fl n r.0 r.1)
          (parse_factor-Ends n s (omega arith))
          (λ v rest lt.
            Ends-weaken (length rest + 1) (length s) (product_loop fl n v rest) (omega (arith, lt))
              (product_loop-Ends n v rest (omega (arith, lt))))

    product_loop-Ends :
        (n : ℕ) (v : F) (s : List ℕ)
        → 3 * length s + 1 ≤ n
        → Ends (length s + 1) (product_loop fl n v s)
    product_loop-Ends zero v s h = absurd (omega arith)
    product_loop-Ends (suc n) v s h =
        let le = skip_spaces-le s in
        Ends-weaken (length (skip_spaces s) + 1) (length s + 1)
          (product_step fl (parse_factor fl n) (product_loop fl n) v (skip_spaces s))
          (omega (arith, le))
          (product_step-Ends (parse_factor fl n) (product_loop fl n) v (skip_spaces s)
            (λ t lt.
              Ends-weaken (length t) (length t + 0) (parse_factor fl n t) (omega arith)
                (parse_factor-Ends n t (omega (arith, lt, le))))
            (λ v t lt. product_loop-Ends n v t (omega (arith, lt, le))))

    parse_factor-Ends :
        (n : ℕ) (s : List ℕ) → 3 * length s + 1 ≤ n → Ends (length s) (parse_factor fl n s)
    parse_factor-Ends zero s h = absurd (omega arith)
    parse_factor-Ends (suc n) s h =
        let le = skip_spaces-le s in
        Ends-weaken (length (skip_spaces s)) (length s)
          (factor_step fl (parse_factor fl n) (parse_expression fl n) (skip_spaces s)) le
          (factor_step-Ends (parse_factor fl n) (parse_expression fl n) (skip_spaces s)
            (λ t lt.
              Ends-weaken (length t) (length t + 0) (parse_factor fl n t) (omega arith)
                (parse_factor-Ends n t (omega (arith, lt, le))))
            (λ t lt.
              Ends-weaken (length t) (length t + 0) (parse_expression fl n t) (omega arith)
                (parse_expression-Ends n t (omega (arith, lt, le)))))

  finish_eval_error :
      (v : F) (s : List ℕ) (e : CalcError) → finish_eval fl v s ≡ err e → is_fuel e ≡ false
  unfolding finish_eval
  finish_eval_error v [] e h = absurd (cc)
  finish_eval_error v (c ∷ cs) e h =
      let same : invalid_near (c ∷ cs) ≡ e = cc in subst (λ x. is_fuel x ≡ false) same refl

  chain_error :
      (b : ℕ) (m : Result CalcError (F × List ℕ)) (e : CalcError)
      → Ends b m
      → (m >>= λ r. finish_eval fl r.0 (skip_spaces r.1)) ≡ err e
      → is_fuel e ≡ false
  chain_error b (err x) e ends h = let same : x ≡ e = cc in subst (λ x. is_fuel x ≡ false) same ends
  chain_error b (ok (v, rest)) e ends h = finish_eval_error v (skip_spaces rest) e h

  -- evalExpr ends on every text, with a value or an error of its own: the fuel of the model, three
  -- calls for each byte and three more, is never used up, whatever float64 is.
  pub eval_expr_ends : (s : List ℕ) → eval_expr fl s ≢ err out_of_fuel
  unfolding eval_expr
  eval_expr_ends s h = absurd (
      cc (
        chain_error (length s) (parse_expression fl (3 * length s + 3) s) out_of_fuel
          (parse_expression-Ends (3 * length s + 3) s (omega arith)) h))
