-- ===== src/ToolCall/Depth.antt =====
-- `jsonDepth` against the nesting of the document that it scans.
use crewai_go.Base.{
  ℕ, suc, ◌+◌, ◌≤◌, ◌==◌, ltb, if◌then◌else◌, Bool, true, false, ◌||◌, ◌≡◌, ◌↔◌, refl, none, List,
  [], ◌∷◌, ◌++◌, length, arith, ap, ◌∙◌, Bool-cases, inl, inr,
}
use crewai_go.Base.Int.{pos}
use crewai_go.ToolCall.{
  Mode, outside, inside, Scan, scan_byte, scan_bytes, json_depth, validate_tool_args, deeper,
}

-- A byte that opens or closes nothing outside of a text.
abbrev pub is_special : ℕ → Bool
is_special b = b == 34 || b == 123 || b == 91 || b == 125 || b == 93

-- A piece of a text: a byte that is no quote and no backslash, or a backslash and any byte.
pub data Piece : Type 0 where
  plain_byte : (b : ℕ) → (b == 34 || b == 92) ≡ false → Piece
  escape : ℕ → Piece

-- The documents, as the scan sees them: JSON's texts, its brackets around documents, and the bytes
-- of its numbers, words, separators and blanks.
mutual
  pub data Doc : Type 0 where
    done : Doc
    byte : (b : ℕ) → is_special b ≡ false → Doc → Doc
    quoted : List Piece → Doc → Doc
    group : Bool → Doc → Doc → Doc

abbrev pub print_pieces : List Piece → List ℕ
print_pieces [] = []
print_pieces (plain_byte b p ∷ ps) = b ∷ print_pieces ps
print_pieces (escape b ∷ ps) = 92 ∷ b ∷ print_pieces ps

-- A document's bytes; `group true` stands for braces, `group false` for brackets.
abbrev pub print : Doc → List ℕ
print done = []
print (byte b p d) = b ∷ print d
print (quoted ps d) = 34 ∷ print_pieces ps ++ 34 ∷ print d
print (group braces inner d) =
    (if braces then 123 else 91) ∷ print inner ++ (if braces then 125 else 93) ∷ print d

abbrev max_ℕ : ℕ → ℕ → ℕ
max_ℕ a b = if ltb a b then b else a

abbrev pub nesting : Doc → ℕ
nesting done = 0
nesting (byte b p d) = nesting d
nesting (quoted ps d) = nesting d
nesting (group braces inner d) = max_ℕ (suc (nesting inner)) (nesting d)

abbrev at : ℕ → ℕ → Mode → Scan
at d m mode = record { depth = pos d; deepest = pos m; mode = mode }

scan_bytes-append :
    (xs ys : List ℕ) (s : Scan) → scan_bytes (xs ++ ys) s ≡ scan_bytes ys (scan_bytes xs s)
unfolding scan_bytes
scan_bytes-append [] ys s = refl
scan_bytes-append (x ∷ xs) ys s = scan_bytes-append xs ys (scan_byte x s)

scan_pieces :
    (ps : List Piece) (d m : ℕ) → scan_bytes (print_pieces ps) (at d m inside) ≡ at d m inside
unfolding scan_bytes
scan_pieces [] d m = refl
scan_pieces (plain_byte b p ∷ ps) d m =
    let quote : (b == 34) ≡ false = ground arith in
    let slash : (b == 92) ≡ false = ground arith in
    let h : scan_byte b (at d m inside) ≡ at d m inside = rw (slash, quote) refl in
    ap (scan_bytes (print_pieces ps)) h ∙ scan_pieces ps d m
scan_pieces (escape b ∷ ps) d m = scan_pieces ps d m

plain_outside : (b d m : ℕ) → is_special b ≡ false → scan_byte b (at d m outside) ≡ at d m outside
plain_outside b d m q =
    let a : (b == 34) ≡ false = ground arith in
    let c : (b == 123) ≡ false = ground arith in
    let e : (b == 91) ≡ false = ground arith in
    let f : (b == 125) ≡ false = ground arith in
    let g : (b == 93) ≡ false = ground arith in rw (a, c, e, f, g) refl

deeper-at : (d m : ℕ) → deeper (at d m outside) ≡ at (suc d) (max_ℕ m (suc d)) outside
deeper-at d m = elim (Bool-cases (ltb m (suc d))) [ inl h ↦ rw h refl | inr h ↦ rw h refl ]

abbrev Scanned : Doc → Type 0
Scanned doc =
    (d m : ℕ)
    → d ≤ m
    → scan_bytes (print doc) (at d m outside) ≡ at d (max_ℕ m (d + nesting doc)) outside

-- What stands between two brackets, and the closing one, `c`.
scan_group :
    (inner doc : Doc) (c : ℕ)
    → ((d m : ℕ) → scan_byte c (at (suc d) m outside) ≡ at d m outside)
    → Scanned inner
    → Scanned doc
    → (d m : ℕ) → d ≤ m
    → scan_bytes (print inner ++ c ∷ print doc) (deeper (at d m outside))
      ≡ at d (max_ℕ m (d + max_ℕ (suc (nesting inner)) (nesting doc))) outside
unfolding scan_bytes
scan_group inner doc c closes in_inner in_doc d m p =
    let m' = max_ℕ m (suc d) in
    let m'' = max_ℕ m' (suc d + nesting inner) in
    rw
      (
        deeper-at d m,
        scan_bytes-append (print inner) (c ∷ print doc) (at (suc d) m' outside),
        in_inner (suc d) m' (ground arith),
      )
      (ap (scan_bytes (print doc)) (closes d m'')
        ∙ in_doc d m'' (ground arith)
        ∙ ap (λ k. at d k outside) (ground arith))

scan_doc :
    (doc : Doc) (d m : ℕ)
    → d ≤ m
    → scan_bytes (print doc) (at d m outside) ≡ at d (max_ℕ m (d + nesting doc)) outside
unfolding scan_bytes
scan_doc done d m p = ground arith
scan_doc (byte b q doc) d m p =
    let h : (scan_byte b (at d m outside)) ≡ at d m outside = plain_outside b d m q in
    ap (scan_bytes (print doc)) h ∙ scan_doc doc d m p
scan_doc (quoted ps doc) d m p =
    rw (scan_bytes-append (print_pieces ps) (34 ∷ print doc) (at d m inside), scan_pieces ps d m)
      (scan_doc doc d m p)
scan_doc (group true inner doc) d m p =
    scan_group inner doc 125 (λ d' m'. refl) (scan_doc inner) (scan_doc doc) d m p
scan_doc (group false inner doc) d m p =
    scan_group inner doc 93 (λ d' m'. refl) (scan_doc inner) (scan_doc doc) d m p

-- jsonDepth returns the nesting of the brackets of every document, texts and escapes included.
pub json_depth-nesting : (doc : Doc) → json_depth (print doc) ≡ pos (nesting doc)
unfolding json_depth
json_depth-nesting doc =
    ap (λ s. s.deepest) (scan_doc doc 0 0 (omega arith)) ∙ ap pos (ground arith)

-- validateToolArgs accepts a document exactly if it has at most 1 MiB and at most 100 levels.
pub validate_tool_args_decides :
    (doc : Doc)
    → (validate_tool_args (print doc) ≡ none)
      ↔ ((length (print doc) ≤ 1048576) × (nesting doc ≤ 100))
unfolding validate_tool_args
validate_tool_args_decides doc = ground (arith, json_depth-nesting doc)
