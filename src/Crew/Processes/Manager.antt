-- ===== src/Crew/Processes/Manager.antt =====
-- The manager's choice of an agent.
use crewai_go.Base.{
  ℕ, zero, suc, Bool, true, false, Option, none, some, List, [], ◌∷◌, length, ◌≡◌, ◌<◌, ◌∙◌, refl,
  ap, inl, inr, Bool-cases, Option-cases, get_elem?, String, arith, subst,
}
use crewai_go.Base.Result.{Result, ok, err, Result-cases}
use crewai_go.Memory.Text.{contains}
use crewai_go.Crew.{Agent, Task, Error, Crew, Host, State, chain}
use crewai_go.Crew.Processes.{
  find_role, match_answer, delegate_among, delegate, take_agent, assign_from, assign, assign_all,
}

-- An agent that passes the test is found, if there is one.
find_role-some :
    (test : String → Bool) (as' : List Agent) {a : Agent}
    → find_role test as' ≡ some a
    → (k : ℕ) × (get_elem? as' k ≡ some a) × (test a.role ≡ true)
unfolding find_role
find_role-some test [] h = absurd (cc)
find_role-some test (b ∷ as') {a} h = elim (Bool-cases (test b.role)) [
  | inl passes ↦
      let same : b ≡ a = ground arith in
      (0, ap some same, subst (λ (x : Agent). test x.role ≡ true) same passes)
  | inr not_ ↦ let (k, at, passes) = find_role-some test as' (rw not_ at h) in (suc k, at, passes)
]

find_role-none :
    (test : String → Bool) (as' : List Agent)
    → find_role test as' ≡ none
    → (k : ℕ) (x : Agent) → get_elem? as' k ≡ some x
    → test x.role ≡ false
unfolding find_role
find_role-none test [] h k x e = absurd (cc)
find_role-none test (b ∷ as') h zero x e = elim (Bool-cases (test b.role)) [
  | inl passes ↦ absurd (ground arith)
  | inr not_ ↦
      let same : b ≡ x = ground arith in subst (λ (y : Agent). test y.role ≡ false) same not_
]
find_role-none test (b ∷ as') h (suc j) x e = elim (Bool-cases (test b.role)) [
  | inl passes ↦ absurd (ground arith)
  | inr not_ ↦ find_role-none test as' (rw not_ at h) j x e
]

module _ {F W : Type 0} (host : Host F W) (c : Crew) where
  -- Among the agents that delegate chooses from, the answer picks one of them; and where the answer,
  -- trimmed, is some agent's role up to case, it picks an agent of whom that holds.
  pub match_answer_chooses :
      (answer : String) (a : Agent) (as' : List Agent)
      → ((k : ℕ) × (get_elem? (a ∷ as') k ≡ some (match_answer host c answer a as')))
        × ((k : ℕ) (x : Agent)
            → get_elem? (a ∷ as') k ≡ some x
            → host.equal_fold (host.trim (host.trim answer)) x.role ≡ true
            → host.equal_fold (host.trim (host.trim answer)) (match_answer host c answer a as').role
              ≡ true)
  unfolding match_answer
  match_answer_chooses answer a as' =
      let resp = host.trim answer in
      let exact : String → Bool = λ role. host.equal_fold (host.trim resp) role in
      let within : String → Bool = λ role. contains (host.lower resp) (host.lower role) in
      elim (Option-cases (find_role exact (a ∷ as'))) [
        | inr (b, e) ↦
            let (k, at, passes) = find_role-some exact (a ∷ as') e in
            rw (e, match_answer) ((k, at), λ j x h same. passes)
        | inl e ↦
            let never = find_role-none exact (a ∷ as') e in
            elim (Option-cases (find_role within (a ∷ as'))) [
              | inr (b, e') ↦
                  let (k, at, passes) = find_role-some within (a ∷ as') e' in
                  rw (e, e', match_answer) ((k, at), λ j x h same. absurd (cc (never j x h)))
              | inl e' ↦
                  rw (e, e', match_answer) ((0, refl), λ j x h same. absurd (cc (never j x h)))
            ]
      ]

  delegate_among-some :
      (manager : Agent) (t : Task) (as' : List Agent) (w : W)
      → 0 < length as'
      → (b : Agent) × ((delegate_among host c manager t as' w).1 ≡ some b)
  unfolding delegate_among
  delegate_among-some manager t [] w h = absurd (omega arith)
  delegate_among-some manager t (a ∷ []) w h = (a, refl)
  delegate_among-some manager t (a ∷ b ∷ as') w h = elim (Result-cases (host.ask manager t w).1) [
    | inl (e, at) ↦ (a, rw (at, delegate_among) refl)
    | inr (x, at) ↦ (match_answer host c x a (b ∷ as'), rw (at, delegate_among) refl)
  ]

  take_agent-some :
      (s : State F W) (r : W × Option Agent) (a : Agent)
      → r.1 ≡ some a
      → (take_agent host c s r).1 ≡ ok a
  unfolding take_agent
  take_agent-some s (w, none) a h = absurd (cc)
  take_agent-some s (w, some b) a h = cc

  assign_from-some :
      (manager : Agent) (own : Option Agent) (t : Task) (s : State F W)
      → 0 < length c.agents
      → (b : Agent) × ((assign_from host c manager own t s).1 ≡ ok b)
  unfolding assign_from delegate
  assign_from-some manager (some a) t s h = (a, refl)
  assign_from-some manager none t s h =
      let (b, at) = delegate_among-some manager t c.agents s.world h in
      (b, take_agent-some s (delegate_among host c manager t c.agents s.world) b at)

  chain_to :
      {S A B : Type 0} (m : S × Result Error A) (next : S → A → S × Result Error B) {x : A}
      → m.1 ≡ ok x
      → chain m next ≡ next m.0 x
  chain_to (s, err e) next h = absurd (cc)
  chain_to (s, ok y) next h = ap (next s) (cc)

  -- In a crew that has an agent, the manager's round over the tasks returns one agent for each task,
  -- whatever the manager answers: a hierarchical crew does not fail for want of an agent.
  pub assign_all_returns :
      (manager : Agent) (ts : List Task) (s : State F W)
      → 0 < length c.agents
      → (as' : List Agent) × ((assign_all host c manager ts s).1 ≡ ok as')
        × (length as' ≡ length ts)
  unfolding assign_all
  assign_all_returns manager [] s h = ([], refl, refl)
  assign_all_returns manager (t ∷ ts) s h =
      let (b, first) = assign_from-some manager t.agent t s h in
      let (as', rest, len) = assign_all_returns manager ts (assign host c manager t s).0 h in
      (
        b ∷ as',
        ap (λ r. r.1)
            (chain_to (assign host c manager t s)
                (λ s' a. chain (assign_all host c manager ts s') (λ s'' as'. (s'', ok (a ∷ as'))))
                first
              ∙ chain_to (assign_all host c manager ts (assign host c manager t s).0)
                  (λ s'' as'. (s'', ok (b ∷ as'))) rest),
        ground (arith, len),
      )
