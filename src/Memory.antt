-- ===== src/Memory.antt =====
-- memory.go, memory_store.go and memory_embed.go: the in-memory store. This file has the entries,
-- the bounds of a query and the two ways to choose its hits; `Store` is `Memory` itself, and
-- `Policy` is the buffer of memory_policy.go. The others are named for what they prove.
-- A time is an instant, so UTC() changes nothing; `none` is the zero time. float64 is an interface.
pub mod Text
pub mod Store
pub mod Recent
pub mod Ranked
pub mod Policy
use crewai_go.Base.{
  ℕ, zero, suc, ◌+◌, ◌==◌, ltb, leb, if◌then◌else◌, Bool, true, false, not, ◌&&◌, ◌||◌, Option,
  none, some, List, [], ◌∷◌, ◌++◌, length, String,
}
use crewai_go.Base.Int.{ℤ, pos, negsuc}
use crewai_go.Memory.Text.{len}

-- The arithmetic on float64 that the code uses, on the elements of a vector.
pub record Floats (F : Type 0) : Type 0 where
  pub zero_f : F
  pub add_f : F → F → F
  pub mul_f : F → F → F
  pub div_f : F → F → F
  pub sqrt_f : F → F
  pub eq_f : F → F → Bool
  pub gt_f : F → F → Bool
  pub le_f : F → F → Bool

pub record Entry (F : Type 0) : Type 0 where
  pub id : String
  pub scope : String
  pub agent : String
  pub task : String
  pub content : String
  pub created_at : Option ℕ
  pub embedding : List F

pub record Query (F : Type 0) : Type 0 where
  pub scope : String
  pub text : String
  pub embedding : List F
  pub limit : ℤ
  pub max_chars : ℤ

abbrev pub max_entry_bytes : ℕ
max_entry_bytes = 32768

abbrev pub max_query_limit : ℕ
max_query_limit = 32

abbrev pub default_query_limit : ℕ
default_query_limit = 8

abbrev pub default_max_chars : ℕ
default_max_chars = 4000

-- clampQueryBounds, its two results.
unfoldable pub clamp_limit : ℤ → ℕ
clamp_limit (negsuc n) = default_query_limit
clamp_limit (pos n) = if n == 0 || ltb max_query_limit n then default_query_limit else n

unfoldable pub clamp_max_chars : ℤ → ℤ
clamp_max_chars (negsuc n) = negsuc n
clamp_max_chars (pos n) = if n == 0 then pos default_max_chars else pos n

-- `!(maxChars >= 0 && n > maxChars)`.
abbrev pub fits : ℤ → ℕ → Bool
fits (negsuc c) n = true
fits (pos c) n = leb n c

module _ {F : Type 0} where
  -- The loop that takes the hits in a given order, with `len(out)` and `total`.
  pub take_fitting : ℕ → ℤ → ℕ → ℕ → List (Entry F) → List (Entry F)
  take_fitting limit max_chars taken total [] = []
  take_fitting limit max_chars taken total (e ∷ es) =
      let rest = take_fitting limit max_chars (suc taken) (total + len e.content) es in
      if leb limit taken
      then []
      else if not (fits max_chars (total + len e.content))
      then []
      else e ∷ rest

  abbrev pub reverse : List (Entry F) → List (Entry F)
  reverse [] = []
  reverse (e ∷ es) = reverse es ++ e ∷ []

  -- takeLatestN: from the last candidate down.
  unfoldable pub take_latest_n : List (Entry F) → ℕ → ℤ → List (Entry F)
  unfolding take_fitting
  take_latest_n candidates limit max_chars = take_fitting limit max_chars 0 0 (reverse candidates)

-- What the loop of cosineSimilarity adds up.
pub record Sums (F : Type 0) : Type 0 where
  pub dot : F
  pub na : F
  pub nb : F

-- A candidate with its score and its position.
pub record Scored (F : Type 0) : Type 0 where
  pub entry : Entry F
  pub score : F
  pub idx : ℕ

module _ {F : Type 0} (fl : Floats F) where
  abbrev pub add_terms : List F → List F → Sums F → Sums F
  add_terms [] ys s = s
  add_terms (a ∷ xs) [] s = s
  add_terms (a ∷ xs) (b ∷ ys) s = add_terms xs ys (record {
    dot = fl.add_f s.dot (fl.mul_f a b);
    na = fl.add_f s.na (fl.mul_f a a);
    nb = fl.add_f s.nb (fl.mul_f b b);
  })

  pub cosine_similarity : List F → List F → F
  cosine_similarity a b =
      let z = fl.zero_f in
      let s = add_terms a b (record { dot = z; na = z; nb = z }) in
      if length a == 0 || not (length a == length b)
      then z
      else if fl.eq_f s.na z || fl.eq_f s.nb z
      then z
      else fl.div_f s.dot (fl.mul_f (fl.sqrt_f s.na) (fl.sqrt_f s.nb))

  pub score_from : ℕ → List F → List (Entry F) → List (Scored F)
  unfolding cosine_similarity
  score_from i query [] = []
  score_from i query (e ∷ es) =
      record { entry = e; score = cosine_similarity query e.embedding; idx = i }
      ∷ score_from (suc i) query es

  -- The order of the ranking: the higher score first, among equals the later one.
  abbrev pub ranks_before : Scored F → Scored F → Bool
  ranks_before a b =
      if not (fl.eq_f a.score b.score) then fl.gt_f a.score b.score else ltb b.idx a.idx

  -- sort.SliceStable by that order.
  abbrev pub insert_ranked : Scored F → List (Scored F) → List (Scored F)
  insert_ranked x [] = x ∷ []
  insert_ranked x (y ∷ ys) = if ranks_before y x then y ∷ insert_ranked x ys else x ∷ y ∷ ys

  pub sort_ranked : List (Scored F) → List (Scored F)
  sort_ranked [] = []
  sort_ranked (x ∷ xs) = insert_ranked x (sort_ranked xs)

  abbrev pub entries : List (Scored F) → List (Entry F)
  entries [] = []
  entries (x ∷ xs) = x.entry ∷ entries xs

  pub has_positive : List (Scored F) → Bool
  has_positive [] = false
  has_positive (x ∷ xs) = fl.gt_f x.score fl.zero_f || has_positive xs

  -- `if it.score <= 0 { continue }`.
  pub drop_zeros : List (Scored F) → List (Scored F)
  drop_zeros [] = []
  drop_zeros (x ∷ xs) = if fl.le_f x.score fl.zero_f then drop_zeros xs else x ∷ drop_zeros xs

  -- rankByEmbedding.
  pub rank_by_embedding : List F → List (Entry F) → ℕ → ℤ → List (Entry F)
  unfolding take_fitting sort_ranked score_from has_positive drop_zeros
  rank_by_embedding query candidates limit max_chars =
      let items = sort_ranked (score_from 0 query candidates) in
      let out = take_fitting limit max_chars 0 0 (entries items) in
      let trimmed = take_fitting limit max_chars 0 0 (entries (drop_zeros items)) in
      if length candidates == 0 || length query == 0
      then []
      else if has_positive items
      then trimmed
      else out
