-- ===== src/Memory/Policy/Order.antt =====
-- A commit does not depend on the order in which the workers filled the buffer.
use crewai_go.Base.{
  ℕ, suc, ◌==◌, if◌then◌else◌, Bool, false, not, ◌||◌, ◌≡◌, ◌≢◌, refl, ap, ◌∙◌, sym, inl, inr,
  Bool-cases, Option-cases, Option, none, some, List, [], ◌∷◌, ◌++◌, length, ==_iff,
}
use crewai_go.Base.Table.{Table, lookup, insert, nat_key}
use crewai_go.Memory.{Entry}
use crewai_go.Memory.Policy.{Policy, Host, Buffer, by_task, save_entry, commit_loop, commit_buffer}

module _ {F : Type 0} where
  -- Two tables that agree on every task.
  abbrev Agree : Table ℕ (Entry F) → Table ℕ (Entry F) → Type 0
  Agree m m' = (t : ℕ) → lookup t m ≡ lookup t m'

  by_task-Agree :
      (es : List (ℕ × Entry F)) (m m' : Table ℕ (Entry F))
      → Agree m m'
      → Agree (by_task es m) (by_task es m')
  unfolding by_task
  by_task-Agree [] m m' same = same
  by_task-Agree ((task, e) ∷ es) m m' same =
      by_task-Agree es (insert task e m) (insert task e m')
        (λ t. elim (Bool-cases (task == t)) [ inl h ↦ rw h refl | inr h ↦ rw h (same t) ])

  exchange-Agree :
      (before after : List (ℕ × Entry F)) (a b : ℕ) (x y : Entry F) (m : Table ℕ (Entry F))
      → a ≢ b
      → Agree
          (by_task (before ++ (a, x) ∷ (b, y) ∷ after) m)
          (by_task (before ++ (b, y) ∷ (a, x) ∷ after) m)
  unfolding by_task
  exchange-Agree [] after a b x y m ne =
      by_task-Agree after (insert b y (insert a x m)) (insert a x (insert b y m)) (λ t.
        elim (Bool-cases (a == t)) [
          | inl at_a ↦ elim (Bool-cases (b == t)) [
            | inl at_b ↦ absurd (ne ((==_iff a t).0 at_a ∙ sym ((==_iff b t).0 at_b)))
            | inr not_b ↦ rw (at_a, not_b) refl
          ]
          | inr not_a ↦ elim (Bool-cases (b == t)) [
            | inl at_b ↦ rw (not_a, at_b) refl
            | inr not_b ↦ rw (not_a, not_b) refl
          ]
        ])
  exchange-Agree ((task, e) ∷ before) after a b x y m ne =
      exchange-Agree before after a b x y (insert task e m) ne

module _ {F W : Type 0} (host : Host F W) (put : W → Entry F → W × Bool) (p : Policy) where
  commit_loop-none :
      (m : Table ℕ (Entry F)) (t : ℕ) (ts : List ℕ) (w : W) (warned : List ℕ)
      → lookup t m ≡ none
      → commit_loop host put p m (t ∷ ts) w warned ≡ commit_loop host put p m ts w warned
  unfolding commit_loop
  commit_loop-none m t ts w warned h = rw (h, commit_loop) refl

  commit_loop-some :
      (m : Table ℕ (Entry F)) (t : ℕ) (ts : List ℕ) (w : W) (warned : List ℕ) (e : Entry F)
      → lookup t m ≡ some e
      → commit_loop host put p m (t ∷ ts) w warned
        ≡ commit_loop host put p m ts
            (save_entry host put p t e w warned).0
            (save_entry host put p t e w warned).1
  unfolding commit_loop
  commit_loop-some m t ts w warned e h = rw (h, commit_loop) refl

  commit_loop-Agree :
      (m m' : Table ℕ (Entry F)) (tasks : List ℕ) (w : W) (warned : List ℕ)
      → Agree m m'
      → commit_loop host put p m tasks w warned ≡ commit_loop host put p m' tasks w warned
  unfolding commit_loop
  commit_loop-Agree m m' [] w warned same = refl
  commit_loop-Agree m m' (t ∷ ts) w warned same = elim (Option-cases (lookup t m)) [
    | inl absent ↦
        commit_loop-none m t ts w warned absent
        ∙ commit_loop-Agree m m' ts w warned same
        ∙ sym (commit_loop-none m' t ts w warned (sym (same t) ∙ absent))
    | inr (e, there) ↦
        commit_loop-some m t ts w warned e there
        ∙ commit_loop-Agree m m' ts (save_entry host put p t e w warned).0
            (save_entry host put p t e w warned).1 same
        ∙ sym (commit_loop-some m' t ts w warned e (sym (same t) ∙ there))
  ]

length-exchange :
    {F : Type 0} (before after : List (ℕ × Entry F)) (a b : ℕ × Entry F)
    → length (before ++ a ∷ b ∷ after) ≡ length (before ++ b ∷ a ∷ after)
length-exchange [] after a b = refl
length-exchange (c ∷ before) after a b = ap suc (length-exchange before after a b)

-- Exchanging two neighbours of the buffer that belong to different tasks changes nothing in what a
-- commit leaves: the buffer, the store's world and the warned tasks.
pub commit_buffer-exchange :
    {F W : Type 0} (host : Host F W) (policy : Option Policy) (tasks : List ℕ) (armed : Bool)
    (before after : List (ℕ × Entry F)) (a b : ℕ) (x y : Entry F) (w : W)
    → a ≢ b
    → commit_buffer host tasks policy
        (record { buffering = armed; entries = before ++ (a, x) ∷ (b, y) ∷ after })
        w
      ≡ commit_buffer host tasks policy
          (record { buffering = armed; entries = before ++ (b, y) ∷ (a, x) ∷ after })
          w
unfolding commit_buffer
commit_buffer-exchange host none tasks armed before after a b x y w ne = refl
commit_buffer-exchange {F} {W} host (some p) tasks armed before after a b x y w ne =
    elim (Option-cases host.put) [
      | inl missing ↦ rw missing refl
      | inr (put, there) ↦
          let n = length (before ++ (b, y) ∷ (a, x) ∷ after) in
          let empty : Buffer F = record { buffering = false; entries = [] } in
          let finish : W × List ℕ → Buffer F × W × List ℕ =
            λ r. if not p.auto_save || n == 0 then (empty, w, []) else (empty, r.0, r.1) in
          rw (there, length-exchange before after (a, x) (b, y))
            (ap finish (
              commit_loop-Agree host put p _ _ tasks w []
                (exchange-Agree before after a b x y [] ne)))
    ]
