-- ===== src/Memory/Ranked.antt =====
-- The ranking by similarity: it chooses among the candidates, and keeps the limit.
use crewai_go.Base.{
  ℕ, suc, ◌≤◌, ◌≡◌, inl, inr, Bool-cases, true, ◌||◌, List, [], ◌∷◌, length, arith, ◌==◌,
}
use crewai_go.Base.Int.{ℤ}
use crewai_go.Memory.{
  Entry, Floats, Scored, fits, take_fitting, score_from, ranks_before, insert_ranked, sort_ranked,
  entries, has_positive, drop_zeros, rank_by_embedding,
}
use crewai_go.Memory.Recent.{All, take_fitting-All, take_fitting-IsLongest}

module _ {F : Type 0} (fl : Floats F) (P : Entry F → Type 0) where
  insert_ranked-All :
      (x : Scored F) (ys : List (Scored F))
      → P x.entry
      → All P (entries fl ys)
      → All P (entries fl (insert_ranked fl x ys))
  insert_ranked-All x [] p a = (p, tt)
  insert_ranked-All x (y ∷ ys) p (q, a) = elim (Bool-cases (ranks_before fl y x)) [
    | inl before ↦ rw before (q, insert_ranked-All x ys p a)
    | inr after ↦ rw after (p, (q, a))
  ]

  sort_ranked-All :
      (xs : List (Scored F)) → All P (entries fl xs) → All P (entries fl (sort_ranked fl xs))
  unfolding sort_ranked
  sort_ranked-All [] a = tt
  sort_ranked-All (x ∷ xs) (p, a) = insert_ranked-All x (sort_ranked fl xs) p (sort_ranked-All xs a)

  score_from-All :
      (i : ℕ) (query : List F) (es : List (Entry F))
      → All P es
      → All P (entries fl (score_from fl i query es))
  unfolding score_from
  score_from-All i query [] a = tt
  score_from-All i query (e ∷ es) (p, a) = (p, score_from-All (suc i) query es a)

  drop_zeros-All :
      (xs : List (Scored F)) → All P (entries fl xs) → All P (entries fl (drop_zeros fl xs))
  unfolding drop_zeros
  drop_zeros-All [] a = tt
  drop_zeros-All (x ∷ xs) (p, a) = elim (Bool-cases (fl.le_f x.score fl.zero_f)) [
    | inl low ↦ rw low (drop_zeros-All xs a)
    | inr high ↦ rw high (p, drop_zeros-All xs a)
  ]

module _ {F : Type 0} (fl : Floats F) (query : List F) (candidates : List (Entry F)) (limit : ℕ)
    (max_chars : ℤ) where
  abbrev items : List (Scored F)
  items = sort_ranked fl (score_from fl 0 query candidates)

  -- The ranking takes hits from one of two orders, if it takes any.
  rank_by_embedding_cases :
      (Q : List (Entry F) → Type 0)
      → Q []
      → Q (take_fitting limit max_chars 0 0 (entries fl items))
      → Q (take_fitting limit max_chars 0 0 (entries fl (drop_zeros fl items)))
      → Q (rank_by_embedding fl query candidates limit max_chars)
  unfolding rank_by_embedding
  rank_by_embedding_cases Q a b c =
      elim (Bool-cases (length candidates == 0 || length query == 0)) [
        | inl nothing ↦ rw nothing a
        | inr something ↦ elim (Bool-cases (has_positive fl items)) [
          | inl high ↦ rw (something, high) c
          | inr low ↦ rw (something, low) b
        ]
      ]

  pub rank_by_embedding-All :
      (P : Entry F → Type 0)
      → All P candidates
      → All P (rank_by_embedding fl query candidates limit max_chars)
  rank_by_embedding-All P all =
      let ranked =
        sort_ranked-All fl P (score_from fl 0 query candidates)
          (score_from-All fl P 0 query candidates all) in
      rank_by_embedding_cases (All P) tt
        (take_fitting-All P limit max_chars 0 0 (entries fl items) ranked)
        (take_fitting-All P limit max_chars 0 0 (entries fl (drop_zeros fl items))
          (drop_zeros-All fl P items ranked))

  pub rank_by_embedding-le :
      fits max_chars 0 ≡ true
      → length (rank_by_embedding fl query candidates limit max_chars) ≤ limit
  rank_by_embedding-le q =
      rank_by_embedding_cases (λ hits. length hits ≤ limit) (omega arith)
        (omega (
          arith,
          (take_fitting-IsLongest limit max_chars 0 0 (entries fl items) (omega arith) q).limited,
        ))
        (omega (
          arith,
          (take_fitting-IsLongest limit max_chars 0 0 (entries fl (drop_zeros fl items))
              (omega arith) q).limited,
        ))
