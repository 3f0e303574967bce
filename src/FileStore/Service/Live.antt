-- ===== src/FileStore/Service/Live.antt =====
-- What Query returns: entries that the scope has under their ids.
use crewai_go.Base.{
  ℕ, suc, ◌+◌, ◌≤◌, ==_iff, ltb, Bool, true, ◌&&◌, Option, none, some, List, [], ◌∷◌, length,
  get_elem?, String, ◌≡◌, ap, sym, ◌∙◌, inl, inr, Bool-cases, arith, subst,
}
use crewai_go.Base.Table.{lookup, string_key}
use crewai_go.Base.Result.{ok}
use crewai_go.Memory.{Floats, Entry, Query}
use crewai_go.Memory.Text.{Unicode, to_lower, trim_space}
use crewai_go.Memory.Recent.{All}
use crewai_go.Memory.Store.Recall.{chosen-All}
use crewai_go.FileStore.{ScopeIndex, Partition}
use crewai_go.FileStore.View.{view, view-some}
use crewai_go.FileStore.Service.{FileStore, is_current, asks_for, candidates, query_in, store_query}

is_current-some : (found : Option ℕ) (i : ℕ) → is_current found i ≡ true → found ≡ some i
unfolding is_current
is_current-some none i h = absurd (cc)
is_current-some (some j) i h = ap some ((==_iff j i).0 h)

module _ {F : Type 0} (u : Unicode) (semantic : Bool) (text : String) (idx : ScopeIndex F) where
  -- The candidates from a position on, if the entries from there on are the rest of the scope's.
  candidates-live :
      (i : ℕ) (es : List (Entry F))
      → ((j : ℕ) → get_elem? es j ≡ get_elem? idx.entries (i + j))
      → All (λ e. view idx e.id ≡ some e) (candidates u semantic text idx.by_id i es)
  unfolding candidates
  candidates-live i [] same = tt
  candidates-live i (e ∷ es) same =
      let next : (j : ℕ) → get_elem? es j ≡ get_elem? idx.entries (suc i + j) =
        λ j. same (suc j) ∙ ap (get_elem? idx.entries) (omega arith) in
      let rest = candidates-live (suc i) es next in
      elim (Bool-cases (is_current (lookup e.id idx.by_id) i && asks_for u semantic text e)) [
        | inl h ↦
            let at : lookup e.id idx.by_id ≡ some i =
              is_current-some (lookup e.id idx.by_id) i (ground arith) in
            let first : i ≡ i + 0 = omega arith in
            rw h (view-some idx e.id i at ∙ ap (get_elem? idx.entries) first ∙ sym (same 0), rest)
        | inr h ↦ rw h rest
      ]

-- The entry of an id in a scope of the store.
unfoldable pub view_in : {F : Type 0} → Option (Partition F) → String → Option (Entry F)
view_in none id = none
view_in (some part) id = view part.index id

unfoldable pub view_of : {F : Type 0} → FileStore F → String → String → Option (Entry F)
unfolding view_in
view_of fs scope id = view_in (lookup scope fs.by_scope) id

query_in-live :
    {F : Type 0} (fl : Floats F) (u : Unicode) (q : Query F) (found : Option (Partition F))
    → All (λ e. view_in found e.id ≡ some e) (query_in fl u q found)
      × (length (query_in fl u q found) ≤ 32)
unfolding query_in view_in
query_in-live fl u q none = (tt, omega arith)
query_in-live fl u q (some part) =
    let semantic = ltb 0 (length q.embedding) in
    let text = to_lower u (trim_space u q.text) in
    chosen-All fl q.embedding (λ e. view part.index e.id ≡ some e) q.limit q.max_chars semantic _
      (candidates-live u semantic text part.index 0 part.index.entries
        (λ j. ap (get_elem? part.index.entries) (omega arith)))

-- Where Query returns hits, ranked by similarity or not, each is the entry that the store has under
-- its id in the scope that the query names, and there are at most 32.
pub store_query-live :
    {F : Type 0} (fl : Floats F) (u : Unicode) (done : Bool) (q : Query F) (fs : FileStore F)
    (hits : List (Entry F))
    → store_query fl u done q fs ≡ ok hits
    → All (λ e. view_of fs q.scope e.id ≡ some e) hits × (length hits ≤ 32)
unfolding store_query view_of
store_query-live fl u done q fs hits h = elim (Bool-cases done) [
  | inl d ↦ absurd (ground arith)
  | inr d ↦ elim (Bool-cases fs.closed) [
    | inl c ↦ absurd (ground arith)
    | inr c ↦
        let found = lookup q.scope fs.by_scope in
        let same : query_in fl u q found ≡ hits = cc (rw (d, c) at h) in
        subst (λ hs. All (λ e. view_in found e.id ≡ some e) hs × (length hs ≤ 32)) same
          (query_in-live fl u q found)
  ]
]
