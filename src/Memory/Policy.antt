-- ===== src/Memory/Policy.antt =====
-- memory_policy.go: what a crew saves, and the buffer that holds it until a barrier. The store and
-- the embedder are an application's, over a world W; a task is its pointer. Warnings are kept as
-- the tasks that get one.
pub mod Order
mod Tests
use crewai_go.Base.{
  ℕ, zero, suc, ◌==◌, if◌then◌else◌, Bool, true, false, not, ◌&&◌, ◌||◌, Option, none, some, List,
  [], ◌∷◌, ◌++◌, length, String, str_eq,
}
use crewai_go.Base.Int.{ℤ, pos}
use crewai_go.Base.Table.{Table, lookup, insert, nat_key}
use crewai_go.Base.Result.{Result, ok, err}
use crewai_go.Memory.{Entry, default_query_limit, default_max_chars}

pub record Policy : Type 0 where
  pub auto_save : Bool
  pub auto_embed : Bool
  pub inject_when_empty : Bool
  pub default_limit : ℤ
  pub default_chars : ℤ
  pub scope : String

abbrev pub new_policy : Policy
new_policy = record {
  auto_save = true;
  auto_embed = false;
  inject_when_empty = true;
  default_limit = pos default_query_limit;
  default_chars = pos default_max_chars;
  scope = "";
}

abbrev pub resolve_policy : Option Policy → Policy
resolve_policy none = new_policy
resolve_policy (some p) = p

-- effectiveScope of a crew with a name.
unfoldable pub effective_scope : String → Option Policy → String
effective_scope name none = name
effective_scope name (some p) = if not (str_eq p.scope "") then p.scope else name

-- What the application provides: the store, if the crew has one, and the embedder.
pub record Host (F W : Type 0) : Type 0 where
  pub put : Option (W → Entry F → W × Bool)
  pub embed : Option (W → String → W × Result String (List (List F)))
  pub ctx_done : W → Bool

-- The crew's buffer, and the tasks that were warned.
pub record Buffer (F : Type 0) : Type 0 where
  pub buffering : Bool
  pub entries : List (ℕ × Entry F)

module _ {F : Type 0} where
  abbrev pub begin_buffer : Buffer F → Buffer F
  begin_buffer b = record { buffering = true; entries = [] }

  abbrev pub discard_buffer : Buffer F → Buffer F
  discard_buffer b = record { buffering = false; entries = [] }

  unfoldable pub stash : ℕ → Entry F → Buffer F → Buffer F
  stash task e b = record b { entries = b.entries ++ (task, e) ∷ [] }

  -- `byTask`: a task's later entry replaces the earlier one.
  pub by_task : List (ℕ × Entry F) → Table ℕ (Entry F) → Table ℕ (Entry F)
  by_task [] m = m
  by_task ((task, e) ∷ es) m = by_task es (insert task e m)

  -- The vector of the only text, if it has one that is not empty.
  abbrev pub first_vector : List (List F) → Option (List F)
  first_vector [] = none
  first_vector ([] ∷ vs) = none
  first_vector ((x ∷ xs) ∷ vs) = some (x ∷ xs)

module _ {F W : Type 0} (host : Host F W) where
  -- maybeEmbedEntry: the world, the entry and whether the task is warned.
  pub maybe_embed : Policy → Entry F → W → W × Entry F × Bool
  maybe_embed p e w = elim host.embed [
    | none ↦ (w, e, false)
    | some embed ↦
        let (w', r) = embed w e.content in
        if not p.auto_embed || str_eq e.content "" || host.ctx_done w
        then (w, e, false)
        else elim r [
          | err x ↦ (w', e, true)
          | ok vs ↦ elim (first_vector vs) [
            | none ↦ (w', e, false)
            | some v ↦ (w', record e { embedding = v }, false)
          ]
        ]
  ]

  -- `embed, then Put`: the world and the warnings.
  unfoldable pub save_entry :
      (W → Entry F → W × Bool) → Policy → ℕ → Entry F → W → List ℕ → W × List ℕ
  unfolding maybe_embed
  save_entry put p task e w warned =
      let (w', e', soft) = maybe_embed p e w in
      let (w'', stored) = put w' e' in
      let warned' = if soft then warned ++ task ∷ [] else warned in
      (w'', if stored then warned' else warned' ++ task ∷ [])

  -- The loop of commitMemoryBuffer over the tasks of the group.
  pub commit_loop :
      (W → Entry F → W × Bool) → Policy → Table ℕ (Entry F) → List ℕ → W → List ℕ → W × List ℕ
  unfolding save_entry
  commit_loop put p table [] w warned = (w, warned)
  commit_loop put p table (t ∷ ts) w warned = elim (lookup t table) [
    | none ↦ commit_loop put p table ts w warned
    | some e ↦
        let (w', warned') = save_entry put p t e w warned in commit_loop put p table ts w' warned'
  ]

  pub commit_buffer : List ℕ → Option Policy → Buffer F → W → Buffer F × W × List ℕ
  unfolding commit_loop by_task
  commit_buffer tasks policy b w =
      let empty = discard_buffer b in
      elim policy [
        | none ↦ (empty, w, [])
        | some p ↦ elim host.put [
          | none ↦ (empty, w, [])
          | some put ↦
              if not p.auto_save || length b.entries == 0
              then (empty, w, [])
              else let (w', warned) = commit_loop put p (by_task b.entries []) tasks w [] in
                (empty, w', warned)
        ]
      ]

-- autoSaveEntry; the role and the name are "" where the agent or the task is nil.
unfoldable pub auto_save_entry :
    {F : Type 0} → String → Option Policy → ℕ → Option String → Option String → String → Entry F
unfolding effective_scope
auto_save_entry name policy now role task result = record {
  id = "";
  scope = effective_scope name policy;
  agent = elim role [ none ↦ "" | some r ↦ r ];
  task = elim task [ none ↦ "" | some t ↦ t ];
  content = result;
  created_at = some now;
  embedding = [];
}
