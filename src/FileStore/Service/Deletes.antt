-- ===== src/FileStore/Service/Deletes.antt =====
-- What Delete changes in the store's map from scopes and ids to entries.
use crewai_go.Base.{
  ℕ, true, false, ◌&&◌, if◌then◌else◌, Option, none, some, String, str_eq, str_eq_refl, eq_iff, ◌≡◌,
  refl, ap, sym, ◌∙◌, inl, inr, Bool-cases, Option-cases, subst,
}
use crewai_go.Base.Table.{lookup, string_key}
use crewai_go.Base.Result.{Result, ok, err}
use crewai_go.FileStore.{Codec, Append, appended, Partition, delete_entry, forget}
use crewai_go.FileStore.View.{view, view-none, IsIndexed, view-forget}
use crewai_go.FileStore.View.Keeps.{forget-IsIndexed}
use crewai_go.FileStore.Service.{
  FileError, store_closed, Disk, FileStore, has_key, set_scope, written, delete_in, store_delete,
}
use crewai_go.FileStore.Service.Live.{view_in, view_of}
use crewai_go.FileStore.Service.Scopes.{
  IsStore, lookup-set_self, lookup-set_other, set_scope-IsStore,
}

module _ {F : Type 0} where
  -- The scope's partition after a deletion whose tombstone is appended.
  delete_entry-forgets :
      (codec : Codec F) (scope id : String) (ending : Append) (part : Partition F) (i : ℕ)
      → ending ≡ appended
      → str_eq id "" ≡ false
      → lookup id part.index.by_id ≡ some i
      → (delete_entry codec scope ending id part).index ≡ forget id part.index
  unfolding delete_entry
  delete_entry-forgets codec scope id ending part i a named found = rw (named, found, a) refl

  -- Setting a scope to the partition of a deletion takes the id out of the store's map.
  set_scope-view_forget :
      (k d : String) (part old : Partition F) (fs : FileStore F)
      → lookup k fs.by_scope ≡ some old
      → part.index ≡ forget d old.index
      → (scope id : String)
      → view_of (set_scope k part fs) scope id
        ≡ (if str_eq k scope && str_eq d id then none else view_of fs scope id)
  unfolding view_of view_in
  set_scope-view_forget k d part old fs at from scope id = elim (Bool-cases (str_eq k scope)) [
    | inl same ↦
        subst
          (λ sc.
            view_in (lookup sc (set_scope k part fs).by_scope) id
            ≡ (if str_eq k sc && str_eq d id then none else view_in (lookup sc fs.by_scope) id))
          ((eq_iff k scope).0 same)
          (ap (λ f. view_in f id) (lookup-set_self k part fs)
            ∙ ap (λ idx. view idx id) from
            ∙ view-forget d old.index id
            ∙ rw (str_eq_refl k) (ap (λ f. if str_eq d id then none else view_in f id) (sym at)))
    | inr other ↦ rw other (ap (λ f. view_in f id) (lookup-set_other k scope part fs other))
  ]

  -- A well-formed store, and its map without this id in this scope.
  pub IsDelete : String → String → FileStore F → FileStore F → Type 0
  IsDelete k d fs fs' =
      IsStore fs'
      × ((scope id : String)
          → view_of fs' scope id
            ≡ (if str_eq k scope && str_eq d id then none else view_of fs scope id))

  unchanged-IsDelete :
      (k d : String) (fs : FileStore F) → IsStore fs → view_of fs k d ≡ none → IsDelete k d fs fs
  unfolding IsDelete
  unchanged-IsDelete k d fs s missing = (
    s,
    λ scope id. elim (Bool-cases (str_eq k scope)) [
      | inl e ↦ elim (Bool-cases (str_eq d id)) [
        | inl e' ↦
            let at : view_of fs scope id ≡ none =
              subst (λ x. view_of fs x id ≡ none) ((eq_iff k scope).0 e)
                (subst (λ x. view_of fs k x ≡ none) ((eq_iff d id).0 e') missing) in
            rw (e, e') at
        | inr e' ↦ rw (e, e') refl
      ]
      | inr e ↦ rw e refl
    ],
  )

  changed-IsDelete :
      (codec : Codec F) (k d : String) (ending : Append) (part : Partition F) (i : ℕ)
      (fs : FileStore F)
      → IsStore fs
      → ending ≡ appended
      → str_eq d "" ≡ false
      → lookup k fs.by_scope ≡ some part
      → lookup d part.index.by_id ≡ some i
      → IsDelete k d fs (set_scope k (delete_entry codec k ending d part) fs)
  unfolding IsDelete IsStore
  changed-IsDelete codec k d ending part i fs s a named at found =
      let part' = delete_entry codec k ending d part in
      let from = delete_entry-forgets codec k d ending part i a named found in
      (
        set_scope-IsStore k part' fs
            (subst IsIndexed (sym from) (forget-IsIndexed d part.index (s k part at))) s,
        set_scope-view_forget k d part' part fs at from,
      )

  delete_in-IsDelete :
      (codec : Codec F) (disk : Disk) (k d : String) (fs : FileStore F)
      (found : Option (Partition F))
      → IsStore fs
      → disk.append ≡ appended
      → disk.meta_written ≡ true
      → str_eq d "" ≡ false
      → lookup k fs.by_scope ≡ found
      → ((delete_in codec disk k d found fs).1 ≡ ok tt)
        × IsDelete k d fs (delete_in codec disk k d found fs).0
  unfolding delete_in view_of view_in has_key
  delete_in-IsDelete codec disk k d fs none s a m named at =
      (refl, unchanged-IsDelete k d fs s (ap (λ f. view_in f d) at))
  delete_in-IsDelete codec disk k d fs (some part) s a m named at =
      let kept : FileStore F × Result FileError (Unit {0}) =
        (set_scope k (delete_entry codec k disk.append d part) fs, written disk tt) in
      let Outcome : (FileStore F × Result FileError (Unit {0})) → Type 0 =
        λ r. (r.1 ≡ ok tt) × IsDelete k d fs r.0 in
      elim (Option-cases (lookup d part.index.by_id)) [
        | inl missing ↦
            subst (λ b. Outcome (if b then kept else (fs, ok tt))) (sym (ap has_key missing))
              (
                refl,
                unchanged-IsDelete k d fs s
                    (ap (λ f. view_in f d) at ∙ view-none part.index d missing),
              )
        | inr (i, found) ↦
            subst (λ b. Outcome (if b then kept else (fs, ok tt))) (sym (ap has_key found))
              (rw (a, m) refl, changed-IsDelete codec k d disk.append part i fs s a named at found)
      ]

  -- Delete of a nonempty id on an open store whose disk takes the tombstone and meta.json succeeds,
  -- and the store's map is as before but without this id in this scope; the indexes stay
  -- well-formed.
  pub store_delete-IsDelete :
      (codec : Codec F) (disk : Disk) (scope id : String) (fs : FileStore F)
      → IsStore fs
      → fs.closed ≡ false
      → str_eq id "" ≡ false
      → disk.append ≡ appended
      → disk.meta_written ≡ true
      → ((store_delete codec false disk scope id fs).1 ≡ ok tt)
        × IsDelete scope id fs (store_delete codec false disk scope id fs).0
  unfolding store_delete
  store_delete-IsDelete codec disk scope id fs s is_open named a m =
      let reached : store_delete codec false disk scope id fs
          ≡ delete_in codec disk scope id (lookup scope fs.by_scope) fs =
        rw named (
          ap
            (λ c.
              if c
              then (fs, err store_closed)
              else delete_in codec disk scope id (lookup scope fs.by_scope) fs)
            is_open) in
      subst (λ r. (r.1 ≡ ok tt) × IsDelete scope id fs r.0) (sym reached)
        (delete_in-IsDelete codec disk scope id fs (lookup scope fs.by_scope) s a m named refl)
