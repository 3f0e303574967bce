-- ===== src/Crew/Context.antt =====
-- What the context of a task and its failed dependencies depend on.
use crewai_go.Base.{
  ℕ, ◌==◌, Bool, false, ◌||◌, none, List, [], ◌∷◌, ◌≡◌, refl, ap, ◌∙◌, String, arith,
}
use crewai_go.Base.Table.{Table, lookup, insert, nat_key}
use crewai_go.Crew.{
  Crew, Host, Task, State, context_part, context_loop, context_text, failed_dep, failed_upstream,
}

abbrev pub is_in : ℕ → List ℕ → Bool
is_in d [] = false
is_in d (e ∷ es) = d == e || is_in d es

module _ {F W : Type 0} (host : Host F W) (c : Crew) where
  context_loop-insert :
      (d : ℕ) (out : String) (outputs : Table ℕ String) (ds : List ℕ)
      → is_in d ds ≡ false
      → context_loop host c (insert d out outputs) ds ≡ context_loop host c outputs ds
  unfolding context_loop
  context_loop-insert d out outputs [] h = refl
  context_loop-insert d out outputs (e ∷ es) h =
      let other : (d == e) ≡ false = ground arith in
      let rest = context_loop-insert d out outputs es (ground arith) in
      let same : lookup e (insert d out outputs) ≡ lookup e outputs = rw other refl in
      ap (λ found. context_part host c e found (context_loop host c (insert d out outputs) es)) same
      ∙ ap (context_part host c e (lookup e outputs)) rest

  -- An output outside the Context of a task leaves its context as it is.
  pub context_text-insert :
      (t : Task) (d : ℕ) (out : String) (outputs : Table ℕ String)
      → is_in d t.plan.context ≡ false
      → context_text host c (insert d out outputs) t ≡ context_text host c outputs t
  unfolding context_text
  context_text-insert t d out outputs h =
      ap host.trim (context_loop-insert d out outputs t.plan.context h)

  failed_dep-none : (ds : List ℕ) → failed_dep host c [] ds ≡ none
  unfolding failed_dep
  failed_dep-none [] = refl
  failed_dep-none (d ∷ ds) = failed_dep-none ds

  pub failed_upstream-none :
      (t : Task) (s : State F W) → s.failed ≡ [] → failed_upstream host c t s ≡ none
  unfolding failed_upstream
  failed_upstream-none t s h =
      ap (λ failed. failed_dep host c failed t.plan.context) h ∙ failed_dep-none t.plan.context
