-- ===== src/Memory/Recent.antt =====
-- The hits that a query takes: the longest part of an order that its bounds allow.
use crewai_go.Base.{
  ℕ, suc, ◌+◌, ◌≤◌, ◌<◌, ◌≡◌, refl, ◌⊎◌, inl, inr, leb, Bool-cases, Bool, true, false, List, [],
  ◌∷◌, ◌++◌, length, arith,
}
use crewai_go.Base.Int.{ℤ, pos, negsuc}
use crewai_go.Memory.{
  Entry, clamp_limit, clamp_max_chars, fits, take_fitting, take_latest_n, reverse,
}
use crewai_go.Memory.Text.{len}

-- How many bytes of content the entries hold.
abbrev pub bytes_of : {F : Type 0} → List (Entry F) → ℕ
bytes_of [] = 0
bytes_of (e ∷ es) = len e.content + bytes_of es

-- A property that every entry has.
abbrev pub All : {F : Type 0} → (Entry F → Type 0) → List (Entry F) → Type 0
All P [] = Unit {0}
All P (e ∷ es) = P e × All P es

-- `hits` begins `order`, and keeps the bounds after `taken` hits with `total` bytes; it ends where
-- `order` ends, where the limit is reached, or where the next entry would not fit.
pub record IsLongest {F : Type 0} (limit : ℕ) (max_chars : ℤ) (taken total : ℕ)
    (order hits : List (Entry F)) : Type 0 where
  pub rest : List (Entry F)
  pub begins : hits ++ rest ≡ order
  pub limited : taken + length hits ≤ limit
  pub capped : fits max_chars (total + bytes_of hits) ≡ true
  pub stops :
      (rest ≡ [])
      ⊎ (taken + length hits ≡ limit)
      ⊎ ((e : Entry F) × (later : List (Entry F)) × (rest ≡ e ∷ later)
          × (fits max_chars (total + bytes_of hits + len e.content) ≡ false))

fits-add :
    (max_chars : ℤ) (n k : ℕ) → k ≡ 0 → fits max_chars n ≡ true → fits max_chars (n + k) ≡ true
fits-add (negsuc c) n k e h = refl
fits-add (pos c) n k e h = ground arith

fits-not_add :
    (max_chars : ℤ) (n k : ℕ) → fits max_chars (n + k) ≡ false → fits max_chars (n + 0 + k) ≡ false
fits-not_add (negsuc c) n k h = h
fits-not_add (pos c) n k h = ground arith

fits_assoc :
    (max_chars : ℤ) (b : Bool) (n k j l : ℕ)
    → fits max_chars (n + k + j + l) ≡ b
    → fits max_chars (n + (k + j) + l) ≡ b
fits_assoc max_chars b n k j l h = let e : n + (k + j) + l ≡ n + k + j + l = omega arith in rw e h

module _ {F : Type 0} (limit : ℕ) (max_chars : ℤ) (taken total : ℕ) where
  longer :
      (e : Entry F) {order hits : List (Entry F)}
      → IsLongest limit max_chars (suc taken) (total + len e.content) order hits
      → IsLongest limit max_chars taken total (e ∷ order) (e ∷ hits)
  longer e {order} {hits} h = record {
    rest = h.rest;
    begins = rw h.begins;
    limited = omega (arith, h.limited);
    capped =
        let e : total + (len e.content + bytes_of hits) ≡ total + len e.content + bytes_of hits =
          omega arith in
        rw e h.capped;
    stops = elim h.stops [
      | inl end ↦ inl end
      | inr (inl full) ↦ inr (inl (omega (arith, full)))
      | inr (inr (e', later, r, big)) ↦ inr (
          inr (
            e',
            later,
            r,
            fits_assoc max_chars false total (len e.content) (bytes_of hits) (len e'.content) big,
          ))
    ];
  }

module _ {F : Type 0} (limit : ℕ) (max_chars : ℤ) where
  pub take_fitting-IsLongest :
      (taken total : ℕ) (order : List (Entry F))
      → taken ≤ limit
      → fits max_chars total ≡ true
      → IsLongest limit max_chars taken total order (take_fitting limit max_chars taken total order)
  unfolding take_fitting
  take_fitting-IsLongest taken total [] p q = record {
    rest = [];
    begins = refl;
    limited = omega (arith, p);
    capped = fits-add max_chars total 0 (omega arith) q;
    stops = inl refl;
  }
  take_fitting-IsLongest taken total (e ∷ order) p q =
      let total' = total + len e.content in
      elim (Bool-cases (leb limit taken)) [
        | inl full ↦ rw full (record {
          rest = e ∷ order;
          begins = refl;
          limited = omega (arith, p);
          capped = fits-add max_chars total 0 (omega arith) q;
          stops = inr (inl (ground arith));
        })
        | inr below ↦ elim (Bool-cases (fits max_chars total')) [
          | inr big ↦
              rw (below, big)
                (record {
                  rest = e ∷ order;
                  begins = refl;
                  limited = omega (arith, p);
                  capped = fits-add max_chars total 0 (omega arith) q;
                  stops =
                      inr (inr (e, order, refl, fits-not_add max_chars total (len e.content) big));
                })
          | inl small ↦
              rw (below, small)
                (longer limit max_chars taken total e
                  (take_fitting-IsLongest (suc taken) total' order (ground arith) small))
        ]
      ]

pub clamp_limit-le : (n : ℤ) → (0 < clamp_limit n) × (clamp_limit n ≤ 32)
unfolding clamp_limit
clamp_limit-le (negsuc n) = ground arith
clamp_limit-le (pos n) = ground arith

-- The same for the bound that a query asks for.
module _ {F : Type 0} where
  pub take_latest_n-IsLongest :
      (candidates : List (Entry F)) (limit : ℕ) (max_chars : ℤ)
      → fits max_chars 0 ≡ true
      → IsLongest limit max_chars 0 0
          (reverse candidates)
          (take_latest_n candidates limit max_chars)
  unfolding take_latest_n
  take_latest_n-IsLongest candidates limit max_chars q =
      take_fitting-IsLongest limit max_chars 0 0 (reverse candidates) (omega arith) q

  pub take_fitting-All :
      (P : Entry F → Type 0) (limit : ℕ) (max_chars : ℤ) (taken total : ℕ) (order : List (Entry F))
      → All P order
      → All P (take_fitting limit max_chars taken total order)
  unfolding take_fitting
  take_fitting-All P limit max_chars taken total [] all = tt
  take_fitting-All P limit max_chars taken total (e ∷ order) (p, all) =
      let rest = take_fitting-All P limit max_chars (suc taken) (total + len e.content) order all in
      elim (Bool-cases (leb limit taken)) [
        | inl full ↦ rw full tt
        | inr below ↦ elim (Bool-cases (fits max_chars (total + len e.content))) [
          | inr big ↦ rw (below, big) tt
          | inl small ↦ rw (below, small) (p, rest)
        ]
      ]

  pub All-append :
      (P : Entry F → Type 0) (xs ys : List (Entry F)) → All P xs → All P ys → All P (xs ++ ys)
  All-append P [] ys a b = b
  All-append P (x ∷ xs) ys (p, a) b = (p, All-append P xs ys a b)

  pub reverse-All : (P : Entry F → Type 0) (xs : List (Entry F)) → All P xs → All P (reverse xs)
  reverse-All P [] a = tt
  reverse-All P (x ∷ xs) (p, a) = All-append P (reverse xs) (x ∷ []) (reverse-All P xs a) (p, tt)

  pub take_latest_n-All :
      (P : Entry F → Type 0) (candidates : List (Entry F)) (limit : ℕ) (max_chars : ℤ)
      → All P candidates
      → All P (take_latest_n candidates limit max_chars)
  unfolding take_latest_n
  take_latest_n-All P candidates limit max_chars a =
      take_fitting-All P limit max_chars 0 0 (reverse candidates) (reverse-All P candidates a)

-- Zero characters always fit the cap of a query.
pub clamp_max_chars-fits : (n : ℤ) → fits (clamp_max_chars n) 0 ≡ true
unfolding clamp_max_chars
clamp_max_chars-fits (negsuc n) = refl
clamp_max_chars-fits (pos n) = ground arith
