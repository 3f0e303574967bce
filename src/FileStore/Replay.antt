-- ===== src/FileStore/Replay.antt =====
-- Reopening a scope: the lines of its file give back the index, and the map that it stands for.
use crewai_go.Base.{
  ltb, if◌then◌else◌, true, false, Option, none, some, List, [], ◌∷◌, ◌++◌, String, str_eq, eq_iff,
  ◌≡◌, refl, ap, sym, ◌∙◌, inl, inr, Bool-cases, Option-cases, subst, fun_ext, arith,
}
use crewai_go.Base.Table.{lookup, string_key}
use crewai_go.Base.Result.{ok}
use crewai_go.Memory.{Entry}
use crewai_go.Memory.Text.{len}
use crewai_go.FileStore.{
  ScopeIndex, empty_index, Codec, max_line, upsert, forget, Partition, appended, put_entry,
  delete_entry, load_entry, load_parsed, load_line, load_lines,
}
use crewai_go.FileStore.View.{
  view, IsIndexed, put_spec, delete_spec, view-none, view-upsert, view-forget, empty-IsIndexed,
}
use crewai_go.FileStore.View.Keeps.{upsert-IsIndexed, forget-IsIndexed}

pub data Op (F : Type 0) : Type 0 where
  put_op : Entry F → Op F
  delete_op : String → Op F

abbrev pub empty_partition : (F : Type 0) → Partition F
empty_partition F = record { index = empty_index F; lines = [] }

module _ {F : Type 0} where
  -- The operations one after the other, on a disk that takes every line, and on the abstract map.
  pub apply_op : Codec F → String → Op F → Partition F → Partition F
  unfolding put_entry delete_entry
  apply_op codec scope (put_op e) part = put_entry codec scope appended e part
  apply_op codec scope (delete_op id) part = delete_entry codec scope appended id part

  pub run_ops : Codec F → String → List (Op F) → Partition F → Partition F
  unfolding apply_op
  run_ops codec scope [] part = part
  run_ops codec scope (op ∷ ops) part = run_ops codec scope ops (apply_op codec scope op part)

  pub op_spec : Op F → (String → Option (Entry F)) → String → Option (Entry F)
  op_spec (put_op e) m = put_spec e m
  op_spec (delete_op id) m = delete_spec id m

  pub run_spec : List (Op F) → (String → Option (Entry F)) → String → Option (Entry F)
  unfolding op_spec
  run_spec [] m = m
  run_spec (op ∷ ops) m = run_spec ops (op_spec op m)

  -- A line that is written is read back as it was: it decodes to what was encoded, is neither blank
  -- nor trimmed, and is short enough for the scanner.
  pub record IsLine (codec : Codec F) (line : String) : Type 0 where
    pub trimmed : codec.trim line ≡ line
    pub not_blank : str_eq line "" ≡ false
    pub short : ltb (len line) max_line ≡ true

  -- An operation whose line is read back; the entry is one of the scope, and has an id.
  unfoldable pub Survives : Codec F → String → Op F → Type 0
  Survives codec scope (put_op e) =
      IsLine codec (codec.marshal_entry e)
      × (codec.unmarshal_tombstone (codec.marshal_entry e) ≡ some (e.id, false))
      × (codec.unmarshal_entry (codec.marshal_entry e) ≡ some e)
      × (e.scope ≡ scope)
      × (str_eq e.id "" ≡ false)
  Survives codec scope (delete_op id) =
      IsLine codec (codec.marshal_tombstone id)
      × (codec.unmarshal_tombstone (codec.marshal_tombstone id) ≡ some (id, true))
      × (str_eq id "" ≡ false)

  abbrev pub AllSurvive : Codec F → String → List (Op F) → Type 0
  AllSurvive codec scope [] = Unit {0}
  AllSurvive codec scope (op ∷ ops) = Survives codec scope op × AllSurvive codec scope ops

module _ {F : Type 0} (codec : Codec F) (scope : String) where
  load_line_of :
      (line : String) (idx : ScopeIndex F)
      → IsLine codec line
      → load_line codec scope line idx
        ≡ load_parsed codec scope (codec.unmarshal_tombstone line) line idx
  unfolding load_line
  load_line_of line idx l =
      ap
        (λ t.
          if str_eq t "" then idx else load_parsed codec scope (codec.unmarshal_tombstone t) t idx)
        l.trimmed
      ∙ rw l.not_blank refl

  load_entry_of :
      (e : Entry F) (idx : ScopeIndex F)
      → e.scope ≡ scope
      → str_eq e.id "" ≡ false
      → load_entry codec scope (some e) idx ≡ upsert e idx
  unfolding load_entry
  load_entry_of e idx same named =
      rw named (ap (λ s. upsert (record e { scope = s }) idx) (sym same))

  -- The line of an entry replays its upsert, and a tombstone its deletion.
  load_line-put :
      (e : Entry F) (idx : ScopeIndex F)
      → Survives codec scope (put_op e)
      → load_line codec scope (codec.marshal_entry e) idx ≡ upsert e idx
  unfolding Survives load_parsed
  load_line-put e idx (line, no_tombstone, reads, same, named) =
      load_line_of (codec.marshal_entry e) idx line
      ∙ ap (λ t. load_parsed codec scope t (codec.marshal_entry e) idx) no_tombstone
      ∙ ap (λ r. load_entry codec scope r idx) reads
      ∙ load_entry_of e idx same named

  load_line-delete :
      (id : String) (idx : ScopeIndex F)
      → Survives codec scope (delete_op id)
      → load_line codec scope (codec.marshal_tombstone id) idx ≡ forget id idx
  unfolding Survives load_parsed
  load_line-delete id idx (line, reads, named) =
      load_line_of (codec.marshal_tombstone id) idx line
      ∙ ap (λ t. load_parsed codec scope t (codec.marshal_tombstone id) idx) reads
      ∙ rw named refl

  load_lines-snoc :
      (lines : List String) (line : String) (idx idx' : ScopeIndex F)
      → load_lines codec scope lines idx ≡ ok idx'
      → ltb (len line) max_line ≡ true
      → load_lines codec scope (lines ++ line ∷ []) idx ≡ ok (load_line codec scope line idx')
  unfolding load_lines
  load_lines-snoc [] line idx idx' h short =
      let same : idx ≡ idx' = cc in rw short (ap (λ i. ok (load_line codec scope line i)) same)
  load_lines-snoc (x ∷ lines) line idx idx' h short = elim (Bool-cases (ltb (len x) max_line)) [
    | inl e ↦ rw e (load_lines-snoc lines line (load_line codec scope x idx) idx' (rw e at h) short)
    | inr e ↦ absurd (ground arith)
  ]

  empty_loads : load_lines codec scope [] (empty_index F) ≡ ok (empty_index F)
  unfolding load_lines
  empty_loads = refl

  empty_view : (id : String) → view (empty_index F) id ≡ none
  empty_view id = view-none (empty_index F) id refl

  -- The file of a partition gives back its index, which is well-formed.
  record IsConsistent (part : Partition F) : Type 0 where
    loads : load_lines codec scope part.lines (empty_index F) ≡ ok part.index
    indexed : IsIndexed part.index

  apply_op-IsConsistent :
      (op : Op F) (part : Partition F)
      → Survives codec scope op
      → IsConsistent part
      → IsConsistent (apply_op codec scope op part)
        × (view (apply_op codec scope op part).index ≡ op_spec op (view part.index))
  unfolding apply_op put_entry delete_entry op_spec Survives
  apply_op-IsConsistent (put_op e) part op c = (
    record {
      loads =
          load_lines-snoc part.lines (codec.marshal_entry e) (empty_index F) part.index c.loads
            op.0.short
          ∙ ap ok (load_line-put e part.index op);
      indexed = upsert-IsIndexed e part.index c.indexed;
    },
    fun_ext (view-upsert e part.index c.indexed),
  )
  apply_op-IsConsistent (delete_op id) part op c =
      elim (Option-cases (lookup id part.index.by_id)) [
        | inl missing ↦
            rw (op.2, missing, delete_entry)
              (
                c,
                fun_ext (λ k. elim (Bool-cases (str_eq id k)) [
                  | inl same ↦ rw same (
                      subst (λ x. view part.index x ≡ none) ((eq_iff id k).0 same)
                        (view-none part.index id missing))
                  | inr other ↦ rw other refl
                ]),
              )
        | inr (i, found) ↦
            rw (op.2, found, delete_entry)
              (
                record {
                  loads =
                      load_lines-snoc part.lines (codec.marshal_tombstone id) (empty_index F)
                        part.index c.loads op.0.short
                      ∙ ap ok (load_line-delete id part.index op);
                  indexed = forget-IsIndexed id part.index c.indexed;
                },
                fun_ext (view-forget id part.index),
              )
      ]

  run_ops-IsConsistent :
      (ops : List (Op F)) (part : Partition F)
      → AllSurvive codec scope ops
      → IsConsistent part
      → IsConsistent (run_ops codec scope ops part)
        × (view (run_ops codec scope ops part).index ≡ run_spec ops (view part.index))
  unfolding run_ops run_spec
  run_ops-IsConsistent [] part all c = (c, refl)
  run_ops-IsConsistent (op ∷ ops) part all c =
      let (c', step) = apply_op-IsConsistent op part all.0 c in
      let (c'', rest) = run_ops-IsConsistent ops (apply_op codec scope op part) all.1 c' in
      (c'', rest ∙ ap (run_spec ops) step)

  -- After any Puts and Deletes on a new scope whose lines the disk takes and reads back, loading the
  -- scope's file succeeds with the index that the store has, and this index stands for the map from
  -- ids to entries that the operations make of the empty map.
  pub run_ops-refines :
      (ops : List (Op F))
      → AllSurvive codec scope ops
      → (load_lines codec scope (run_ops codec scope ops (empty_partition F)).lines (empty_index F)
          ≡ ok (run_ops codec scope ops (empty_partition F)).index)
        × (view (run_ops codec scope ops (empty_partition F)).index ≡ run_spec ops (λ id. none))
  run_ops-refines ops all =
      let (c, spec) =
        run_ops-IsConsistent ops (empty_partition F) all
          (record { loads = empty_loads; indexed = empty-IsIndexed F }) in
      (c.loads, spec ∙ ap (run_spec ops) (fun_ext empty_view))
