-- ===== src/Flow/Exec/Reasons.antt =====
-- Why a run ran a step, or skipped it, in terms of the step's dependencies.
use crewai_go.Base.{
  ℕ, ◌≡◌, ◌⊎◌, inl, inr, Bool, true, false, not, ◌&&◌, some, List, [], ◌∷◌, String, eq_iff,
  str_eq_refl, get_elem?, arith, Bool-cases, ap,
}
use crewai_go.Base.Table.{Table}
use crewai_go.Flow.{Node, Flow, mem, index_of}
use crewai_go.Flow.Ready.{done, failed, skipped, is_router, selects, deps_loop, deps_state}
use crewai_go.Flow.Judge.{Run}
use crewai_go.Flow.Exec.{Env, run_all}
use crewai_go.Flow.Exec.Fold.{has_run}
use crewai_go.Flow.Exec.Settled.{Justified-good, Status-cases, run_all-IsSettled}

-- What one dependency of a step must be for the step to run.
abbrev pub LetsRun : {S : Type 0} → List (Node S) → Run S → String → ℕ → Type 0
LetsRun nodes r name j =
    (r.status j ≡ done) × (is_router nodes j ≡ true → selects (r.selected j) name ≡ true)

module _ {S : Type 0} (nodes : List (Node S)) (index : Table String ℕ) (r : Run S) where
  deps_loop-good :
      (name c : String) (ds : List String) (all_ok gated : Bool)
      → let d = deps_loop nodes index r.status r.selected name ds all_ok gated in
        (d.all_ok && d.gated) ≡ true
        → ((all_ok && gated) ≡ true) × (mem c ds ≡ true → LetsRun nodes r name (index_of index c))
  unfolding deps_loop
  deps_loop-good name c [] all_ok gated h = (h, λ m. absurd (cc))
  deps_loop-good name c (d ∷ ds) all_ok gated h =
      let j = index_of index d in
      ground (
        arith,
        deps_loop-good name c ds false gated,
        deps_loop-good name c ds all_ok
            (gated && not (is_router nodes j && not (selects (r.selected j) name))),
        ap (index_of index) ((eq_iff d c).0 _),
      )

-- What one dependency of a step must be for the step to be skipped.
abbrev pub Blocks : {S : Type 0} → List (Node S) → Run S → String → ℕ → Type 0
Blocks nodes r name j =
    (r.status j ≡ failed)
    ⊎ (r.status j ≡ skipped)
    ⊎ ((is_router nodes j ≡ true) × (selects (r.selected j) name ≡ false))

module _ {S : Type 0} (nodes : List (Node S)) (index : Table String ℕ) (r : Run S) where
  -- A finished step that may not run has a dependency that blocks it.
  deps_loop-blocked :
      (name : String) (ds : List String) (all_ok gated : Bool)
      → let d = deps_loop nodes index r.status r.selected name ds all_ok gated in
        d.finished ≡ true
        → (d.all_ok && d.gated) ≡ false
        → ((all_ok && gated) ≡ false)
          ⊎ ((c : String) × (mem c ds ≡ true) × Blocks nodes r name (index_of index c))
  unfolding deps_loop
  deps_loop-blocked name [] all_ok gated h g = inl g
  deps_loop-blocked name (d ∷ ds) all_ok gated h g =
      let j = index_of index d in
      let gated' = gated && not (is_router nodes j && not (selects (r.selected j) name)) in
      elim (Status-cases (r.status j)) [
        | inl waits ↦ absurd (ground arith)
        | inr (inl bad) ↦ inr (d, rw (str_eq_refl d), inl bad)
        | inr (inr (inl bad)) ↦ inr (d, rw (str_eq_refl d), inr (inl bad))
        | inr (inr (inr good)) ↦ elim (Bool-cases (all_ok && gated)) [
          | inr bad ↦ inl bad
          | inl fine ↦ elim (Bool-cases (is_router nodes j && not (selects (r.selected j) name))) [
            | inl gate ↦ inr (d, rw (str_eq_refl d), inr (inr (ground arith)))
            | inr ungated ↦
                elim (deps_loop-blocked name ds all_ok gated' (ground arith) (ground arith)) [
                  | inl bad ↦ absurd (ground arith)
                  | inr (c, m, b) ↦ inr (c, rw m (ground arith), b)
                ]
          ]
        ]
      ]

-- At the end of a run, a step is done or failed only if each of its dependencies is done, and
-- chose it where it is a router; a step is skipped only if one of its dependencies failed, was
-- skipped, or is a router that did not choose it.
pub run_all_justifies :
    {S : Type 0} (env : Env) (f : Flow S) (index : Table String ℕ) (initial : S) (i : ℕ)
    (n : Node S)
    → get_elem? f.nodes i ≡ some n
    → let r = (run_all env f index initial).0 in
      (has_run (r.status i) ≡ true
        → (c : String) → mem c n.deps ≡ true
        → LetsRun f.nodes r n.name (index_of index c))
      × (r.status i ≡ skipped
          → (c : String) × (mem c n.deps ≡ true) × Blocks f.nodes r n.name (index_of index c))
unfolding deps_state
run_all_justifies env f index initial i n e =
    let r = (run_all env f index initial).0 in
    let j = run_all-IsSettled env f index initial i n e in
    (
      λ h c.
          (deps_loop-good f.nodes index r n.name c n.deps true true
            (Justified-good (r.status i) _ h j)).1,
      λ h.
          let (fin, bad) = rw h at j in
          elim (deps_loop-blocked f.nodes index r n.name n.deps true true fin bad) [
            | inl wrong ↦ absurd (cc)
            | inr found ↦ found
          ],
    )
