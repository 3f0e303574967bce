-- ===== src/Kahn/Invariant.antt =====
-- What one round of the release loop keeps, for any queue discipline.
use crewai_go.Base.{
  ℕ, zero, suc, ◌+◌, ◌≤◌, ◌<◌, ◌==◌, ltb, ◌≡◌, if◌then◌else◌, ◌&&◌, List, [], ◌∷◌, ◌++◌, arith,
  length, length-append, inl, inr, Bool-cases,
}
use crewai_go.Base.Int.{ℤ, pos, pred_ℤ-suc}
use crewai_go.Base.Count.{count, count-append, length-le_of_distinct}
use crewai_go.Kahn.{Counters, release, release_all}
use crewai_go.Kahn.Edges.{
  Edges, between, open_edges, InRange, open_edges-snoc, done_of_open_edges, waits_for,
}

-- Releasing `ts` takes its counts off the counters, and queues each node whose counter gets to 0.
release_all_lem :
    (ts : List ℕ) (s : Counters) (left : ℕ → ℕ)
    → ((j : ℕ) → s.0 j ≡ pos (left j + count j ts))
    → (j : ℕ)
    → ((release_all s ts).0 j ≡ pos (left j))
      × (count j (release_all s ts).1
          ≡ count j s.1 + (if left j == 0 && ltb 0 (count j ts) then 1 else 0))
unfolding release_all release
release_all_lem [] s left h j = ground (arith, h j)
release_all_lem (t ∷ ts) s left h j =
    let ih =
      release_all_lem ts (release s t) left
        (λ k. ground (arith, h k, pred_ℤ-suc (left t) (count t ts))) j in
    ground (arith, ih, h j, h t, pred_ℤ-suc (left t) (count t ts), count-append j s.1 (t ∷ []))

-- `done` are the finished nodes, `queue` the ready ones.
pub record Inv (n : ℕ) (es : Edges) (done queue : List ℕ) (indegree : ℕ → ℤ) : Type 0 where
  pub degrees : (j : ℕ) → indegree j ≡ pos (open_edges es done j)
  pub placed :
      (j : ℕ)
      → count j done + count j queue ≡ (if ltb j n && open_edges es done j == 0 then 1 else 0)

module _ {n : ℕ} {es : Edges} (in_range : InRange n es) (adjacent : ℕ → List ℕ)
    (targets : (i j : ℕ) → count j (adjacent i) ≡ between es i j) where
  pub Inv-step :
      (done rest next : List ℕ) (i : ℕ) (indegree : ℕ → ℤ)
      → Inv n es done (i ∷ rest ++ next) indegree
      → Inv n es
          (done ++ i ∷ [])
          (rest ++ (release_all (indegree, next) (adjacent i)).1)
          (release_all (indegree, next) (adjacent i)).0
  Inv-step done rest next i indegree h = record {
    degrees = λ j. (facts j).0;
    placed = λ j. ground (
      arith,
      h.placed j,
      (facts j).1,
      targets i j,
      in_range i j,
      open_edges-snoc es done i j fresh,
      count-append j done (i ∷ []),
      count-append j rest next,
      count-append j rest (release_all (indegree, next) (adjacent i)).1,
    );
  }
    where
      fresh : count i done ≡ 0
      fresh = ground (arith, h.placed i)

      facts :
          (j : ℕ)
          → ((release_all (indegree, next) (adjacent i)).0 j
              ≡ pos (open_edges es (done ++ i ∷ []) j))
            × (count j (release_all (indegree, next) (adjacent i)).1
                ≡ count j next
                  + (if open_edges es (done ++ i ∷ []) j == 0 && ltb 0 (count j (adjacent i))
                      then 1
                      else 0))
      facts =
          release_all_lem (adjacent i) (indegree, next) (open_edges es (done ++ i ∷ []))
            (λ j. cc (h.degrees j, targets i j, open_edges-snoc es done i j fresh))

pub Inv-done_le :
    {n : ℕ} {es : Edges} {done queue : List ℕ} {indegree : ℕ → ℤ}
    → Inv n es done queue indegree
    → length done + length queue ≤ n
Inv-done_le {n} {es} {done} {queue} h = omega (
  arith,
  length-append done queue,
  length-le_of_distinct n (done ++ queue)
      (λ j. ground (arith, h.placed j, count-append j done queue))
      (λ j p. ground (arith, h.placed j, count-append j done queue)),
)

-- A node of the queue has all of its dependencies done.
pub Inv-queued :
    {n : ℕ} {es : Edges} {done queue : List ℕ} {indegree : ℕ → ℤ} (i j : ℕ)
    → Inv n es done queue indegree
    → 0 < count j queue
    → 0 < between es i j
    → 0 < count i done
Inv-queued {es} {done} i j h q e = done_of_open_edges es done i j (ground (arith, h.placed j)) e

-- With an empty queue and a ranking of the nodes, every node below `n` is done.
module _ {n : ℕ} {es : Edges} {done : List ℕ} {indegree : ℕ → ℤ} (in_range : InRange n es)
    (h : Inv n es done [] indegree) (rank : ℕ → ℕ)
    (ranked : (i j : ℕ) → 0 < between es i j → rank i < rank j) where
  descent : (bound j : ℕ) → rank j < bound → j < n → count j done ≡ 1
  descent zero j r p = absurd (omega arith)
  descent (suc bound) j r p = elim (Bool-cases (open_edges es done j == 0)) [
    | inl closed ↦ ground (arith, h.placed j)
    | inr open_ ↦
        let (i, e, c) = waits_for es done j (ground arith) in
        absurd (omega (arith, c, descent bound i (omega (arith, ranked i j e)) (in_range i j e).0))
  ]

  pub Inv-complete : (j : ℕ) → j < n → count j done ≡ 1
  Inv-complete j = descent (suc (rank j)) j (omega arith)
