-- ===== src/Schedule/Index.antt =====
-- The map from task pointers to positions.
use crewai_go.Base.{ℕ, suc, ◌≡◌, refl, List, [], ◌∷◌, inl, inr, map, Option-cases, subst, arith}
use crewai_go.Base.Table.{Table, lookup, insert, nat_key}
use crewai_go.Base.Positions.{
  Distinct, positions, AllFresh, AllFresh-of_Distinct, IsIndex, positions-IsIndex,
}
use crewai_go.Base.Result.{ok}
use crewai_go.Schedule.{Task, index_tasks}

abbrev pub pointers : List Task → List ℕ
pointers = map (λ t. t.pointer)

-- Where the loop returns, no pointer was there before, and the table has all of them.
index_tasks-positions :
    (i : ℕ) (index : Table ℕ ℕ) (ts : List Task) {r : Table ℕ ℕ}
    → index_tasks i index ts ≡ ok r
    → AllFresh i index (pointers ts) × (positions i index (pointers ts) ≡ r)
unfolding index_tasks
index_tasks-positions i index [] h = (tt, ground arith)
index_tasks-positions i index (t ∷ ts) h = elim (Option-cases (lookup t.pointer index)) [
  | inl absent ↦
      let (fresh, same) =
        index_tasks-positions (suc i) (insert t.pointer i index) ts
          (rw (absent, index_tasks) at h) in
      ((absent, fresh), same)
  | inr (a, present) ↦ absurd (cc (rw (present, index_tasks) at h))
]

index_tasks-returns :
    (i : ℕ) (index : Table ℕ ℕ) (ts : List Task)
    → AllFresh i index (pointers ts)
    → index_tasks i index ts ≡ ok (positions i index (pointers ts))
unfolding index_tasks
index_tasks-returns i index [] fresh = refl
index_tasks-returns i index (t ∷ ts) fresh =
    rw (fresh.0, index_tasks) (index_tasks-returns (suc i) (insert t.pointer i index) ts fresh.1)

pub index_tasks-IsIndex :
    (tasks : List Task) {index : Table ℕ ℕ}
    → index_tasks 0 [] tasks ≡ ok index
    → IsIndex (pointers tasks) index
index_tasks-IsIndex tasks h =
    let (fresh, same) = index_tasks-positions 0 [] tasks h in
    subst (IsIndex (pointers tasks)) same (positions-IsIndex (pointers tasks) fresh)

pub index_tasks-total :
    (tasks : List Task)
    → Distinct (pointers tasks)
    → (r : Table ℕ ℕ) × (index_tasks 0 [] tasks ≡ ok r)
index_tasks-total tasks distinct =
    let fresh = AllFresh-of_Distinct 0 [] (pointers tasks) (λ j k h. refl) distinct in
    (positions 0 [] (pointers tasks), index_tasks-returns 0 [] tasks fresh)
