-- ===== src/Crew/Group/Success.antt =====
-- A group without a first error.
use crewai_go.Base.{
  ℕ, zero, suc, ◌==◌, ==_iff, Bool, true, false, Option, none, some, List, [], ◌∷◌, ◌≡◌, ◌⊎◌, ◌∙◌,
  refl, ap, sym, inl, inr, Bool-cases, Option-cases, get_elem?, map, arith, length, subst,
}
use crewai_go.Memory.Policy.{Policy}
use crewai_go.Crew.{Agent, Task, Crew, Host, State}
use crewai_go.Crew.Context.{is_in}
use crewai_go.Crew.Group.{
  Group, Barrier, no_result, record_err, run_worker, take_member, take_turn, take_turns,
  run_task_group,
}
use crewai_go.Crew.Group.Results.{HasSucceeded, run_worker_first, run_worker_other}

-- The positions whose turns these are.
abbrev pub turns_of : List (ℕ × Bool) → List ℕ
turns_of turns = map (λ t. t.0) turns

module _ {F W : Type 0} (host : Host F W) (c : Crew) (p : Policy) (g : Group) where
  take_member_first :
      (k : ℕ) (l : Bool) (m : Option (Task × Option Agent)) (b : Barrier F W)
      → (take_member host c p g k l m b).first ≡ none
      → (b.first ≡ none)
        × ((t : Task) (ag : Option Agent)
            → m ≡ some (t, ag)
            → HasSucceeded t ag ((take_member host c p g k l m b).results k))
  unfolding take_member record_err
  take_member_first k l none b h = (h, λ t ag e. absurd (cc))
  take_member_first k l (some (t, none)) b h = elim (Option-cases b.first) [
    | inl x ↦ absurd (ground arith)
    | inr (y, x) ↦ absurd (ground arith)
  ]
  take_member_first k l (some (t, some a)) b h =
      let (before, done) = run_worker_first host c p g k l t a b h in
      (
        before,
        λ u ag e.
            subst
              (λ (m : Task × Option Agent).
                HasSucceeded m.0 m.1 ((run_worker host c p g k l t a b).results k))
              {x = (t, some a)} {y = (u, ag)} (cc) done,
      )

  pub take_member_other :
      (k j : ℕ) (l : Bool) (m : Option (Task × Option Agent)) (b : Barrier F W)
      → (j == k) ≡ false
      → (take_member host c p g k l m b).results j ≡ b.results j
  unfolding take_member record_err
  take_member_other k j l none b h = refl
  take_member_other k j l (some (t, none)) b h = refl
  take_member_other k j l (some (t, some a)) b h = run_worker_other host c p g k j l t a b h

  take_turns_first :
      (turns : List (ℕ × Bool)) (b : Barrier F W)
      → (take_turns host c p g turns b).first ≡ none
      → b.first ≡ none
  unfolding take_turns
  take_turns_first [] b h = h
  take_turns_first ((k, l) ∷ turns) b h =
      (take_member_first k l (get_elem? g.members k) b
        (take_turns_first turns (take_turn host c p g (k, l) b) h)).0

  module _ (j : ℕ) (t : Task) (ag : Option Agent) (e : get_elem? g.members j ≡ some (t, ag)) where
    own_turn :
        (k : ℕ) (l : Bool) (b : Barrier F W)
        → (take_turn host c p g (k, l) b).first ≡ none
        → (j == k) ≡ true
        → HasSucceeded t ag ((take_turn host c p g (k, l) b).results j)
    own_turn k l b h same =
        let here : j ≡ k = (==_iff j k).0 same in
        subst (λ i. HasSucceeded t ag ((take_turn host c p g (k, l) b).results i)) (sym here)
          ((take_member_first k l (get_elem? g.members k) b h).1 t ag
            (ap (get_elem? g.members) (sym here) ∙ e))

    -- A success is not undone where no error comes, and every turn is one.
    take_turns_succeed :
        (turns : List (ℕ × Bool)) (b : Barrier F W)
        → (take_turns host c p g turns b).first ≡ none
        → (is_in j (turns_of turns) ≡ true) ⊎ HasSucceeded t ag (b.results j)
        → HasSucceeded t ag ((take_turns host c p g turns b).results j)
    unfolding take_turns
    take_turns_succeed [] b h (inl never) = absurd (cc)
    take_turns_succeed [] b h (inr done) = done
    take_turns_succeed ((k, l) ∷ turns) b h why =
        let b' = take_turn host c p g (k, l) b in
        take_turns_succeed turns b' h (elim (Bool-cases (j == k)) [
          | inl same ↦ inr (own_turn k l b (take_turns_first turns b' h) same)
          | inr other ↦ elim why [
            | inl later ↦ inl (ground arith)
            | inr done ↦ inr (
                subst (λ r. HasSucceeded t ag r)
                  (sym (take_member_other k j l (get_elem? g.members k) b other)) done)
          ]
        ])

  -- Where runTaskGroup records no first error and every member has its turn, each member has an
  -- agent, and its result has this task and this agent and no error.
  pub run_task_group_succeeds :
      (s : State F W) (k : ℕ) (t : Task) (ag : Option Agent)
      → (run_task_group host c p g s).first ≡ none
      → is_in k (turns_of (host.order (length g.members) s.world)) ≡ true
      → get_elem? g.members k ≡ some (t, ag)
      → HasSucceeded t ag ((run_task_group host c p g s).results k)
  unfolding run_task_group
  run_task_group_succeeds s k t ag h visited e =
      take_turns_succeed k t ag e (host.order (length g.members) s.world)
        (record { results = λ k. no_result; first = none; stopped = false; state = s }) h
        (inl visited)

  lone_member :
      (k : ℕ) (l : Bool) (t : Task) (ms : List (Task × Option Agent)) (b : Barrier F W)
      → ms ≡ (t, none) ∷ []
      → ((take_member host c p g k l (get_elem? ms k) b).results ≡ b.results)
        × ((take_member host c p g k l (get_elem? ms k) b).state ≡ b.state)
  unfolding take_member record_err
  lone_member zero l t ms b h = rw h (refl, refl)
  lone_member (suc k) l t ms b h = rw h (refl, refl)

  -- A group of one task without an agent leaves no result and changes nothing.
  lone_turns :
      (t : Task) (turns : List (ℕ × Bool)) (b : Barrier F W)
      → g.members ≡ (t, none) ∷ []
      → ((take_turns host c p g turns b).results ≡ b.results)
        × ((take_turns host c p g turns b).state ≡ b.state)
  unfolding take_turns take_member record_err
  lone_turns t [] b h = (refl, refl)
  lone_turns t ((k, l) ∷ turns) b h =
      let (x, y) = lone_turns t turns (take_turn host c p g (k, l) b) h in
      let (x', y') = lone_member k l t g.members b h in (x ∙ x', y ∙ y')

  pub lone_results :
      (t : Task) (s : State F W)
      → g.members ≡ (t, none) ∷ []
      → ((run_task_group host c p g s).results 0 ≡ no_result)
        × ((run_task_group host c p g s).state ≡ s)
  unfolding run_task_group
  lone_results t s h =
      let (x, y) =
        lone_turns t (host.order (length g.members) s.world)
          (record { results = λ k. no_result; first = none; stopped = false; state = s }) h in
      (ap (λ r. r 0) x, y)
