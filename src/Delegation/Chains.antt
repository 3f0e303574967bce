-- ===== src/Delegation/Chains.antt =====
-- What the guards promise of a delegation, and of delegations within delegations.
use crewai_go.Base.{
  ℕ, suc, not_empty, ◌≤◌, ◌<◌, ◌≡◌, ◌≢◌, refl, subst, ◌∙◌, ap, inl, inr, leb, Bool-cases,
  Option-cases, true, false, not, ◌&&◌, ◌||◌, sym, if◌then◌else◌, Option, none, some, List, [], ◌∷◌,
  String, str_eq, eq_iff, arith,
}
use crewai_go.Base.Result.{ok, err, chain_returns}
use crewai_go.Delegation.{
  Context, Agent, Input, Host, find_roster_agent, on_stack, Delegated, parse_input, nested_context,
  check_guards, choose_target, admit,
}

err≢ok : {E A : Type 0} {e : E} {x : A} → err e ≢ ok x
err≢ok h = cc

-- The text of a request with its context.
abbrev text_of : {W : Type 0} → Host W → Input → String
text_of host i =
    if str_eq (host.trim i.context) "" then i.request else host.describe i.request i.context

module _ {W : Type 0} (host : Host W) where
  -- What a delegation of this input that reaches the coworker has passed.
  pub record IsAllowed (c : Context) (input : String) (d : Delegated) : Type 0 where
    pub asked : Input
    pub decoded : host.unmarshal (host.trim input) ≡ some asked
    pub complete : (host.trim asked.coworker ≢ "") × (host.trim asked.request ≢ "")
    pub shallow : c.depth < 2
    pub deeper : d.context.depth ≡ suc c.depth
    pub eligible : d.target.allow_delegation ≡ true
    pub named : host.equal_fold (host.trim d.target.role) (host.trim asked.coworker) ≡ true
    pub other : c.role ≢ "" → host.equal_fold (host.trim asked.coworker) c.role ≡ false
    pub fresh : on_stack host c.stack (host.trim asked.coworker) ≡ false
    pub requested : str_eq (host.trim asked.context) "" ≡ true → d.text ≡ host.trim asked.request
    pub described :
        str_eq (host.trim asked.context) "" ≡ false
        → d.text ≡ host.describe (host.trim asked.request) asked.context

  -- What parsing makes of an input: the decoded fields, the first two of them trimmed and not empty.
  parse_input-reads :
      (input : String) (i : Input)
      → parse_input host input ≡ ok i
      → (asked : Input) × (host.unmarshal (host.trim input) ≡ some asked)
        × (i ≡ record {
          coworker = host.trim asked.coworker;
          request = host.trim asked.request;
          context = asked.context;
        })
        × (host.trim asked.coworker ≢ "")
        × (host.trim asked.request ≢ "")
  unfolding parse_input
  parse_input-reads input i h = elim (Bool-cases (str_eq (host.trim input) "")) [
    | inl empty ↦ absurd (err≢ok (rw (empty, parse_input) at h))
    | inr text ↦ elim (Option-cases (host.unmarshal (host.trim input))) [
      | inl bad ↦ absurd (err≢ok (rw (text, bad, parse_input) at h))
      | inr (asked, reads) ↦
          elim (Bool-cases
            (str_eq (host.trim asked.coworker) "" || str_eq (host.trim asked.request) "")) [
              | inl missing ↦ absurd (err≢ok (rw (text, reads, missing, parse_input) at h))
              | inr full ↦ (
                asked,
                reads,
                cc (rw (text, reads, full, parse_input) at h),
                (λ e. not_empty (host.trim asked.coworker) (ground arith) e),
                λ e. not_empty (host.trim asked.request) (ground arith) e,
              )
            ]
    ]
  ]

  find_roster_agent-named :
      (agents : List (Option Agent)) (role : String) {a : Agent}
      → find_roster_agent host agents role ≡ some a
      → host.equal_fold (host.trim a.role) role ≡ true
  unfolding find_roster_agent
  find_roster_agent-named [] role h = absurd (cc)
  find_roster_agent-named (none ∷ agents) role h = find_roster_agent-named agents role h
  find_roster_agent-named (some b ∷ agents) role {a} h =
      elim (Bool-cases (host.equal_fold (host.trim b.role) role)) [
        | inl same ↦
            let e : b ≡ a = ground (arith, rw (same, find_roster_agent) at h) in
            subst (λ x. host.equal_fold (host.trim x.role) role ≡ true) e same
        | inr differs ↦ find_roster_agent-named agents role (rw (differs, find_roster_agent) at h)
      ]

  check_guards-passes :
      (c : Context) (i i' : Input)
      → check_guards host c i ≡ ok i'
      → (i ≡ i')
        × (c.depth < 2)
        × (c.role ≢ "" → host.equal_fold i.coworker c.role ≡ false)
        × (on_stack host c.stack i.coworker ≡ false)
  unfolding check_guards
  check_guards-passes c i i' h = elim (Bool-cases (leb 2 c.depth)) [
    | inl deep ↦ absurd (err≢ok (rw (deep, check_guards) at h))
    | inr shallow ↦
        elim (Bool-cases (not (str_eq c.role "") && host.equal_fold i.coworker c.role)) [
          | inl self ↦ absurd (err≢ok (rw (shallow, self, check_guards) at h))
          | inr other ↦ elim (Bool-cases (on_stack host c.stack i.coworker)) [
            | inl again ↦ absurd (err≢ok (rw (shallow, other, again, check_guards) at h))
            | inr fresh ↦ (
              ground (arith, rw (shallow, other, fresh, check_guards) at h),
              ground arith,
              (λ named. elim (Bool-cases (str_eq c.role "")) [
                | inl empty ↦ absurd (named ((eq_iff c.role "").0 empty))
                | inr full ↦ rw full at other
              ]),
              fresh,
            )
          ]
        ]
  ]

  nested_context-depth : (c : Context) (a : Agent) → (nested_context host c a).depth ≡ suc c.depth
  unfolding nested_context
  nested_context-depth c a = elim (Bool-cases (str_eq a.role "")) [
    | inl empty ↦ rw empty refl
    | inr named ↦ rw named refl
  ]

  choose_target-passes :
      (agents : List (Option Agent)) (c : Context) (i : Input) {d : Delegated}
      → choose_target host agents c i ≡ ok d
      → (d.context.depth ≡ suc c.depth)
        × (d.target.allow_delegation ≡ true)
        × (host.equal_fold (host.trim d.target.role) i.coworker ≡ true)
        × (d.text ≡ (
            if str_eq (host.trim i.context) ""
            then i.request
            else host.describe i.request i.context))
  unfolding choose_target
  choose_target-passes agents c i {d} h =
      elim (Option-cases (find_roster_agent host agents i.coworker)) [
        | inl missing ↦ absurd (err≢ok (rw (missing, choose_target) at h))
        | inr (a, found) ↦ elim (Bool-cases a.allow_delegation) [
          | inr refused ↦ absurd (err≢ok (rw (found, refused, choose_target) at h))
          | inl allowed ↦
              let h' = rw (found, allowed, choose_target) at h in
              let who : a ≡ d.target = ground (arith, h') in
              let ctx : nested_context host c a ≡ d.context = ground (arith, h') in
              (
                subst (λ x. x.depth ≡ suc c.depth) ctx (nested_context-depth c a),
                subst (λ x. x.allow_delegation ≡ true) who allowed,
                subst (λ x. host.equal_fold (host.trim x.role) i.coworker ≡ true) who
                    (find_roster_agent-named agents i.coworker found),
                cc (h'),
              )
        ]
      ]

  -- A delegation reaches the coworker only if fewer than two are open, its input decodes, with a
  -- coworker and a request that are not blank, and the coworker allows it and has the name that the
  -- input asks for, which is neither the caller's nor one on the stack. The coworker is given the
  -- input's request, with the input's context where that is not blank.
  pub admit_allows :
      (roster : Option (List (Option Agent))) (c : Context) (input : String) {d : Delegated}
      → admit host roster c input ≡ ok d
      → IsAllowed c input d
  unfolding admit
  admit_allows none c input h = absurd (cc)
  admit_allows (some agents) c input {d} h =
      let (i, h1, e1) = chain_returns (parse_input host input) _ h in
      let (i', h2, e2) = chain_returns (check_guards host c i) _ h1 in
      let (same, shallow, other, fresh) = check_guards-passes c i i' e2 in
      let (deeper, eligible, named, text) = choose_target-passes agents c i' h2 in
      let (asked, decoded, reads, has_coworker, has_request) = parse_input-reads input i e1 in
      let coworker : i.coworker ≡ host.trim asked.coworker = ap (λ x. x.coworker) reads in
      let read' = sym same ∙ reads in
      record {
        shallow = shallow;
        deeper = deeper;
        eligible = eligible;
        asked = asked;
        decoded = decoded;
        complete = (has_coworker, has_request);
        named =
            subst (λ x. host.equal_fold (host.trim d.target.role) x.coworker ≡ true) read' named;
        other = λ role. subst (λ x. host.equal_fold x c.role ≡ false) coworker (other role);
        fresh = subst (λ x. on_stack host c.stack x ≡ false) coworker fresh;
        requested = λ blank. text ∙ ap (text_of host) read' ∙ rw blank refl;
        described = λ given. text ∙ ap (text_of host) read' ∙ rw given refl;
      }

-- Delegations within delegations: each runs in the context that the one around it made.
pub data Chain {W : Type 0} (host : Host W) : Context → ℕ → Context → Type 0 where
  none_open : {c : Context} → Chain host c 0 c
  one_more :
      {c c' : Context} {n : ℕ} (roster : Option (List (Option Agent))) (input : String)
      (d : Delegated)
      → Chain host c n c'
      → admit host roster c' input ≡ ok d
      → Chain host c (suc n) d.context

Chain-depth :
    {W : Type 0} (host : Host W) {c c' : Context} {n : ℕ}
    → Chain host c n c'
    → c.depth ≡ 0
    → (c'.depth ≡ n) × (n ≤ 2)
Chain-depth host none_open z = (z, omega arith)
Chain-depth host (one_more roster input d chain h) z =
    let (e, b) = Chain-depth host chain z in
    let a = admit_allows host roster _ input h in (a.deeper ∙ ap suc e, omega (arith, a.shallow, e))

-- From a context in which none is open, at most two delegations are ever open within each other.
pub Chain-le :
    {W : Type 0} (host : Host W) {c c' : Context} {n : ℕ} → Chain host c n c' → c.depth ≡ 0 → n ≤ 2
Chain-le host chain z = (Chain-depth host chain z).1
