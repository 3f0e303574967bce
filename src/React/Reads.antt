-- ===== src/React/Reads.antt =====
-- Reading an ASCII reply does not panic, since ToLower keeps the length of such a text.
use crewai_go.Base.{
  ℕ, zero, suc, ◌+◌, ◌≤◌, ◌<◌, true, Option, none, some, List, [], ◌∷◌, length, ◌≡◌, refl, sym, ap,
  ◌∙◌, subst, arith, inl, inr, Bool-cases, Option-cases,
}
use crewai_go.Base.Result.{Result, ok, ◌>>=◌}
use crewai_go.React.{
  bytes, Panic, Strings, starts_with, index, slice_from, slice_to, Reply, marker_start, from_found,
  after_marker, parse_final_answer, or_text, strip_final_answer, before_found, before_marker,
  with_input, with_action, parse_action, as_action, as_answer, read_reply,
}

starts_with-length : (p s : List ℕ) → starts_with p s ≡ true → length p ≤ length s
unfolding starts_with
starts_with-length [] s h = omega arith
starts_with-length (a ∷ p) [] h = absurd (cc)
starts_with-length (a ∷ p) (b ∷ s) h = omega (arith, starts_with-length p s (ground arith))

-- What is found at an index fits there.
index-fits : (sub s : List ℕ) (i : ℕ) → index sub s ≡ some i → i + length sub ≤ length s
unfolding index
index-fits sub [] i h = elim (Bool-cases (starts_with sub [])) [
  | inl e ↦ let at : 0 ≡ i = cc (rw e at h) in omega (arith, at, starts_with-length sub [] e)
  | inr e ↦ absurd (cc (rw e at h))
]
index-fits sub (b ∷ s) i h = elim (Bool-cases (starts_with sub (b ∷ s))) [
  | inl e ↦ let at : 0 ≡ i = cc (rw e at h) in omega (arith, at, starts_with-length sub (b ∷ s) e)
  | inr e ↦ elim (Option-cases (index sub s)) [
    | inl missing ↦ absurd (cc (rw (e, missing) at h))
    | inr (j, found) ↦
        let at : suc j ≡ i = cc (rw (e, found) at h) in omega (arith, at, index-fits sub s j found)
  ]
]

-- A text of ASCII bytes.
unfoldable pub IsAscii : List ℕ → Type 0
IsAscii [] = Unit {0}
IsAscii (b ∷ s) = (b < 128) × IsAscii s

IsAsciiIfAny : Option (List ℕ) → Type 0
IsAsciiIfAny none = Unit {0}
IsAsciiIfAny (some s) = IsAscii s

-- A result that is no panic but a value of which P holds.
Returns : {A : Type 0} → (A → Type 0) → Result Panic A → Type 0
Returns {A} P r = (a : A) × (r ≡ ok a) × P a

Always : {A : Type 0} → A → Type 0
Always a = Unit {0}

slice_from-Returns :
    (i : ℕ) (s : List ℕ) → i ≤ length s → IsAscii s → Returns IsAscii (slice_from i s)
unfolding slice_from Returns IsAscii
slice_from-Returns zero s h a = (s, refl, a)
slice_from-Returns (suc i) [] h a = absurd (omega (arith, h))
slice_from-Returns (suc i) (b ∷ s) h a = slice_from-Returns i s (omega (arith, h)) a.1

slice_to-Returns : (i : ℕ) (s : List ℕ) → i ≤ length s → Returns Always (slice_to i s)
unfolding slice_to Returns Always
slice_to-Returns zero s h = ([], refl, tt)
slice_to-Returns (suc i) [] h = absurd (omega (arith, h))
slice_to-Returns (suc i) (b ∷ s) h =
    let (t, at, u) = slice_to-Returns i s (omega (arith, h)) in
    (b ∷ t, ap (λ r. r >>= (λ t. ok (b ∷ t))) at, tt)

ok-Returns : {A : Type 0} (a : A) → Returns Always (ok a)
unfolding Returns Always
ok-Returns a = (a, refl, tt)

chain-Returns :
    {A B : Type 0} (P : A → Type 0) (Q : B → Type 0) (r : Result Panic A)
    (next : A → Result Panic B)
    → Returns P r
    → ((a : A) → P a → Returns Q (next a))
    → Returns Q (r >>= next)
unfolding Returns
chain-Returns P Q r next (a, at, holds) each =
    let (b, to, q) = each a holds in (b, ap (λ r. r >>= next) at ∙ to, q)

module _ (str : Strings)
    (keeps : (s : List ℕ) → IsAscii s → length (str.to_lower s) ≡ length s) where
  marker_start-fits :
      (s marker : List ℕ) (i : ℕ)
      → IsAscii s
      → marker_start str s marker ≡ some i
      → i + length marker ≤ length s
  unfolding marker_start
  marker_start-fits s marker i a h =
      omega (arith, keeps s a, index-fits marker (str.to_lower s) i h)

  after_marker-Returns :
      (s marker : List ℕ) → IsAscii s → Returns IsAsciiIfAny (after_marker str s marker)
  unfolding after_marker from_found IsAsciiIfAny Returns
  after_marker-Returns s marker a = elim (Option-cases (marker_start str s marker)) [
    | inl e ↦ subst (λ f. Returns IsAsciiIfAny (from_found str f marker s)) (sym e) (none, refl, tt)
    | inr (i, e) ↦
        subst (λ f. Returns IsAsciiIfAny (from_found str f marker s)) (sym e)
          (chain-Returns IsAscii IsAsciiIfAny (slice_from (i + length marker) s) _
            (slice_from-Returns (i + length marker) s (marker_start-fits s marker i a e) a)
            (λ t at. (some t, refl, at)))
  ]

  before_marker-Returns :
      (s marker : List ℕ) → IsAscii s → Returns Always (before_marker str s marker)
  unfolding before_marker before_found
  before_marker-Returns s marker a = elim (Option-cases (marker_start str s marker)) [
    | inl e ↦ subst (λ f. Returns Always (before_found str f s)) (sym e) (ok-Returns s)
    | inr (i, e) ↦
        subst (λ f. Returns Always (before_found str f s)) (sym e)
          (slice_to-Returns i s (omega (arith, marker_start-fits s marker i a e)))
  ]

  with_input-Returns :
      (rest : List ℕ) (found : Option (List ℕ))
      → IsAscii rest
      → IsAsciiIfAny found
      → Returns Always (with_input str rest found)
  unfolding with_input IsAsciiIfAny
  with_input-Returns rest none a b = ok-Returns _
  with_input-Returns rest (some input_part) a b =
      chain-Returns Always Always (before_marker str rest (bytes "action input:")) _
        (before_marker-Returns rest (bytes "action input:") a)
        (λ action_part u.
          chain-Returns Always Always (before_marker str input_part (bytes "observation:")) _
            (before_marker-Returns input_part (bytes "observation:") b) (λ input u. ok-Returns _))

  with_action-Returns :
      (found : Option (List ℕ)) → IsAsciiIfAny found → Returns Always (with_action str found)
  unfolding with_action IsAsciiIfAny
  with_action-Returns none a = ok-Returns none
  with_action-Returns (some rest) a =
      chain-Returns IsAsciiIfAny Always (after_marker str rest (bytes "action input:")) _
        (after_marker-Returns rest (bytes "action input:") a)
        (λ found b. with_input-Returns rest found a b)

  as_answer-Returns :
      (out : List ℕ) (found : Option (List ℕ))
      → IsAscii out
      → Returns Always (as_answer str out found)
  unfolding as_answer parse_action
  as_answer-Returns out (some t) a = ok-Returns _
  as_answer-Returns out none a =
      chain-Returns Always Always (parse_action str out) _
        (chain-Returns IsAsciiIfAny Always (after_marker str out (bytes "action:"))
          (with_action str) (after_marker-Returns out (bytes "action:") a) with_action-Returns)
        (λ found u. ok-Returns (as_action str out found))

  pub read_reply_returns : (out : List ℕ) → IsAscii out → (r : Reply) × (read_reply str out ≡ ok r)
  unfolding read_reply parse_final_answer Returns
  read_reply_returns out a =
      let (r, at, u) =
        chain-Returns IsAsciiIfAny Always (parse_final_answer str out) (as_answer str out)
          (after_marker-Returns out (bytes "final answer:") a)
          (λ found b. as_answer-Returns out found a) in
      (r, at)

  pub strip_final_answer_returns :
      (out : List ℕ) → IsAscii out → (t : List ℕ) × (strip_final_answer str out ≡ ok t)
  unfolding strip_final_answer parse_final_answer Returns
  strip_final_answer_returns out a =
      let (t, at, u) =
        chain-Returns IsAsciiIfAny Always (parse_final_answer str out) _
          (after_marker-Returns out (bytes "final answer:") a)
          (λ found b. ok-Returns (or_text str out found)) in
      (t, at)
