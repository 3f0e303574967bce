-- ===== src/Crew/Waves/Marks.antt =====
-- What marking every task of a group as failed changes, and what it leaves.
use crewai_go.Base.{
  ℕ, zero, suc, ◌==◌, ◌∙◌, Bool-cases, false, some, List, [], ◌∷◌, ◌≡◌, refl, inl, inr, get_elem?,
  subst,
}
use crewai_go.Base.Table.{lookup, nat_key, lookup-insert_self}
use crewai_go.Crew.{Error, State, mark_failed}
use crewai_go.Crew.Waves.{Member, mark_all}

module _ {F W : Type 0} where
  pub mark_all-world :
      (ms : List Member) (e : Error) (s : State F W) → (mark_all ms e s).world ≡ s.world
  unfolding mark_all mark_failed
  mark_all-world [] e s = refl
  mark_all-world ((i, t) ∷ ms) e s = mark_all-world ms e (mark_failed t e s)

  pub mark_all-outputs :
      (ms : List Member) (e : Error) (s : State F W) → (mark_all ms e s).outputs ≡ s.outputs
  unfolding mark_all mark_failed
  mark_all-outputs [] e s = refl
  mark_all-outputs ((i, t) ∷ ms) e s = mark_all-outputs ms e (mark_failed t e s)

  pub mark_all-buffer :
      (ms : List Member) (e : Error) (s : State F W) → (mark_all ms e s).buffer ≡ s.buffer
  unfolding mark_all mark_failed
  mark_all-buffer [] e s = refl
  mark_all-buffer ((i, t) ∷ ms) e s = mark_all-buffer ms e (mark_failed t e s)

  -- A task that is marked with an error stays so.
  mark_all-stays :
      (ms : List Member) (e : Error) (s : State F W) (task : ℕ)
      → lookup task s.failed ≡ some e
      → lookup task (mark_all ms e s).failed ≡ some e
  unfolding mark_all mark_failed
  mark_all-stays [] e s task h = h
  mark_all-stays ((i, t) ∷ ms) e s task h =
      mark_all-stays ms e (mark_failed t e s) task (elim (Bool-cases (t.plan.pointer == task)) [
        | inl same ↦ rw same refl
        | inr other ↦ rw other h
      ])

  pub mark_all-marks :
      (ms : List Member) (e : Error) (s : State F W) (k : ℕ) (x : Member)
      → get_elem? ms k ≡ some x
      → lookup x.1.plan.pointer (mark_all ms e s).failed ≡ some e
  unfolding mark_all mark_failed
  mark_all-marks [] e s k x h = absurd (cc)
  mark_all-marks ((i, t) ∷ ms) e s zero x h =
      let same : (i, t) ≡ x = cc in
      subst
        (λ (y : Member).
          lookup y.1.plan.pointer (mark_all ms e (mark_failed t e s)).failed ≡ some e)
        same
        (mark_all-stays ms e (mark_failed t e s) t.plan.pointer
          (lookup-insert_self t.plan.pointer e s.failed))
  mark_all-marks ((i, t) ∷ ms) e s (suc k) x h = mark_all-marks ms e (mark_failed t e s) k x h

  pub mark_all-others :
      (ms : List Member) (e : Error) (s : State F W) (task : ℕ)
      → ((k : ℕ) (x : Member) → get_elem? ms k ≡ some x → (x.1.plan.pointer == task) ≡ false)
      → lookup task (mark_all ms e s).failed ≡ lookup task s.failed
  unfolding mark_all mark_failed
  mark_all-others [] e s task others = refl
  mark_all-others ((i, t) ∷ ms) e s task others =
      mark_all-others ms e (mark_failed t e s) task (λ k x h. others (suc k) x h)
      ∙ rw (others 0 (i, t) refl) refl
