-- ===== src/FileStore/Service/Scopes.antt =====
-- What Put changes in the store's map from scopes and ids to entries.
use crewai_go.Base.{
  ℕ, ltb, true, false, ◌&&◌, if◌then◌else◌, Option, none, some, String, str_eq, str_eq_refl, eq_iff,
  ◌≡◌, ◌≢◌, refl, ap, sym, ◌∙◌, inl, inr, Bool-cases, Option-cases, arith, subst,
}
use crewai_go.Base.Table.{lookup, string_key, lookup-insert_self}
use crewai_go.Base.Result.{ok, err}
use crewai_go.Memory.{Entry, max_entry_bytes}
use crewai_go.Memory.Text.{len}
use crewai_go.Memory.Store.{or_now}
use crewai_go.FileStore.{
  empty_index, remove, Codec, Append, unwritten, unsynced, appended, Partition, put_entry, upsert,
}
use crewai_go.FileStore.View.{
  view, view-none, IsIndexed, view-upsert, empty-IsIndexed, lookup-remove_other,
}
use crewai_go.FileStore.View.Keeps.{upsert-IsIndexed}
use crewai_go.FileStore.Service.{
  is_appended, is_used, store_closed, Disk, FileStore, partition_or_new, set_scope, entry_id,
  written, put_complete, put_named, store_put,
}
use crewai_go.Memory.Store.Ids.{IsFresh}
use crewai_go.FileStore.Service.Fresh.{entry_id-returns}
use crewai_go.FileStore.Service.Live.{view_in, view_of}

-- Each scope's index is well-formed.
unfoldable pub IsStore : {F : Type 0} → FileStore F → Type 0
IsStore {F} fs =
    (scope : String) (part : Partition F)
    → lookup scope fs.by_scope ≡ some part
    → IsIndexed part.index

-- The store's map after an entry is put.
abbrev pub put_in_scope :
    {F : Type 0}
    → Entry F
    → (String → String → Option (Entry F))
    → String
    → String
    → Option (Entry F)
put_in_scope e m scope id = if str_eq e.scope scope && str_eq e.id id then some e else m scope id

is_appended_lem : (append : Append) → is_appended append ≡ true → append ≡ appended
is_appended_lem unwritten h = absurd (cc)
is_appended_lem unsynced h = absurd (cc)
is_appended_lem appended h = refl

module _ {F : Type 0} where
  pub lookup-set_self :
      (scope : String) (part : Partition F) (fs : FileStore F)
      → lookup scope (set_scope scope part fs).by_scope ≡ some part
  unfolding set_scope
  lookup-set_self scope part fs = lookup-insert_self scope part (remove scope fs.by_scope)

  pub lookup-set_other :
      (scope d : String) (part : Partition F) (fs : FileStore F)
      → str_eq scope d ≡ false
      → lookup d (set_scope scope part fs).by_scope ≡ lookup d fs.by_scope
  unfolding set_scope
  lookup-set_other scope d part fs other = rw other (lookup-remove_other scope d fs.by_scope other)

  -- The partition that an operation finds or makes stands for the same entries.
  partition_or_new-view :
      (found : Option (Partition F)) (id : String)
      → view (partition_or_new found).index id ≡ view_in found id
  unfolding partition_or_new view_in
  partition_or_new-view none id = view-none (empty_index F) id refl
  partition_or_new-view (some part) id = refl

  partition_or_new-IsIndexed :
      (scope : String) (fs : FileStore F)
      → IsStore fs
      → IsIndexed (partition_or_new (lookup scope fs.by_scope)).index
  unfolding partition_or_new IsStore
  partition_or_new-IsIndexed scope fs s = elim (Option-cases (lookup scope fs.by_scope)) [
    | inl missing ↦
        subst (λ f. IsIndexed (partition_or_new f).index) (sym missing) (empty-IsIndexed F)
    | inr (part, found) ↦
        subst (λ f. IsIndexed (partition_or_new f).index) (sym found) (s scope part found)
  ]

  pub set_scope-IsStore :
      (scope : String) (part : Partition F) (fs : FileStore F)
      → IsIndexed part.index
      → IsStore fs
      → IsStore (set_scope scope part fs)
  unfolding IsStore
  set_scope-IsStore scope part fs ix s d other h = elim (Bool-cases (str_eq scope d)) [
    | inl e ↦
        let at : lookup d (set_scope scope part fs).by_scope ≡ some part =
          subst (λ x. lookup x (set_scope scope part fs).by_scope ≡ some part)
            ((eq_iff scope d).0 e) (lookup-set_self scope part fs) in
        let same : part ≡ other = cc in subst (λ p. IsIndexed p.index) same ix
    | inr e ↦ s d other (sym (lookup-set_other scope d part fs e) ∙ h)
  ]

  -- Setting a scope to the partition of an upsert puts its entry into the store's map.
  set_scope-view :
      (e : Entry F) (part : Partition F) (fs : FileStore F)
      → part.index ≡ upsert e (partition_or_new (lookup e.scope fs.by_scope)).index
      → IsStore fs
      → (scope id : String)
      → view_of (set_scope e.scope part fs) scope id ≡ put_in_scope e (view_of fs) scope id
  unfolding view_of view_in
  set_scope-view e part fs from s scope id = elim (Bool-cases (str_eq e.scope scope)) [
    | inl same ↦
        let old = lookup e.scope fs.by_scope in
        let p : e.scope ≡ scope = (eq_iff e.scope scope).0 same in
        subst
          (λ sc. view_in (lookup sc (set_scope e.scope part fs).by_scope) id ≡ (
            if str_eq e.scope sc && str_eq e.id id
            then some e
            else view_in (lookup sc fs.by_scope) id))
          p
          (ap (λ f. view_in f id) (lookup-set_self e.scope part fs)
            ∙ ap (λ idx. view idx id) from
            ∙ view-upsert e (partition_or_new old).index (partition_or_new-IsIndexed e.scope fs s)
                id
            ∙ rw (str_eq_refl e.scope)
                (ap (λ v. if str_eq e.id id then some e else v) (partition_or_new-view old id)))
    | inr other ↦ rw other (ap (λ f. view_in f id) (lookup-set_other e.scope scope part fs other))
  ]

  written-ok :
      (disk : Disk) (e e' : Entry F) → written disk e ≡ ok e' → (disk.append ≡ appended) × (e ≡ e')
  written-ok disk e e' h = elim (Bool-cases (is_appended disk.append && disk.meta_written)) [
    | inl w ↦ (is_appended_lem disk.append (ground arith), cc (rw w at h))
    | inr w ↦ absurd (ground arith)
  ]

  put_complete-view :
      (codec : Codec F) (disk : Disk) (e : Entry F) (fs : FileStore F)
      → IsStore fs
      → disk.append ≡ appended
      → IsStore (put_complete codec disk e fs).0
        × ((scope id : String)
            → view_of (put_complete codec disk e fs).0 scope id
              ≡ put_in_scope e (view_of fs) scope id)
  unfolding put_complete put_entry
  put_complete-view codec disk e fs s app =
      let part = partition_or_new (lookup e.scope fs.by_scope) in
      let part' = put_entry codec e.scope disk.append e part in
      let from : part'.index ≡ upsert e part.index =
        ap (λ a. (put_entry codec e.scope a e part).index) app in
      let ix : IsIndexed part'.index =
        subst IsIndexed (sym from)
          (upsert-IsIndexed e part.index (partition_or_new-IsIndexed e.scope fs s)) in
      (set_scope-IsStore e.scope part' fs ix s, set_scope-view e part' fs from s)

  -- The entry with its id and time, a well-formed store, and its map with this entry.
  pub IsPut : ℕ → Entry F → FileStore F → FileStore F → Entry F → Type 0
  IsPut now e fs fs' e' =
      (e' ≡ record e { id = e'.id; created_at = or_now now e.created_at })
      × IsStore fs'
      × ((scope id : String) → view_of fs' scope id ≡ put_in_scope e' (view_of fs) scope id)

  put_named-view :
      (codec : Codec F) (disk : Disk) (now : ℕ) (e : Entry F) (found : Option (String × ℕ))
      (fs fs' : FileStore F) (e' : Entry F)
      → IsStore fs
      → put_named codec disk now e found fs ≡ (fs', ok e')
      → IsPut now e fs fs' e'
  unfolding put_named IsPut IsStore view_of
  put_named-view codec disk now e none fs fs' e' s h = absurd (cc (ap (λ r. r.1) h))
  put_named-view codec disk now e (some (id, drawn)) fs fs' e' s h =
      let named = record e { id = id; created_at = or_now now e.created_at } in
      let drawn_fs = record fs { drawn = drawn } in
      let outcome : written disk named ≡ ok e' = ap (λ r. r.1) h in
      let (app, same) = written-ok disk named e' outcome in
      let (s', v) = put_complete-view codec disk named drawn_fs s app in
      let after = ap (λ r. r.0) h in
      subst (λ x. IsPut now e fs x e') after
        (subst (λ x. IsPut now e fs (put_complete codec disk named drawn_fs).0 x) same
          (refl, s', v))

  -- Put on an open store, of an entry of at most 32 KiB, where the random ids are distinct texts and
  -- the disk takes the line and meta.json, returns the entry with its id or, where it has none, with a
  -- nonempty one that no scope of the store has, and with its time or the clock's. The store's map is as
  -- before but for this entry, under its id in its scope, and the indexes stay well-formed.
  pub store_put-IsPut :
      (codec : Codec F) {ids : ℕ → String} (fresh : IsFresh ids) (now : ℕ) (disk : Disk)
      (e : Entry F) (fs : FileStore F)
      → IsStore fs
      → fs.closed ≡ false
      → ltb max_entry_bytes (len e.content) ≡ false
      → disk.append ≡ appended
      → disk.meta_written ≡ true
      → (id : String) × ((store_put codec ids now false disk e fs).1
          ≡ ok (record e { id = id; created_at = or_now now e.created_at }))
        × IsPut now e fs
            (store_put codec ids now false disk e fs).0
            (record e { id = id; created_at = or_now now e.created_at })
        × (e.id ≢ "" → id ≡ e.id)
        × (e.id ≡ "" → (id ≢ "") × (is_used id fs.by_scope ≡ false))
  unfolding store_put put_named put_complete
  store_put-IsPut codec {ids} fresh now disk e fs s is_open short app meta =
      let (id, drawn, has_id, given, free) = entry_id-returns fresh e.id fs in
      let e' = record e { id = id; created_at = or_now now e.created_at } in
      let done = record fs { drawn = drawn } in
      let reached : store_put codec ids now false disk e fs ≡ put_complete codec disk e' done =
        rw short (
          ap
            (λ c.
              if c
              then (fs, err store_closed)
              else put_named codec disk now e (entry_id ids e.id fs) fs)
            is_open
          ∙ ap (λ found. put_named codec disk now e found fs) has_id) in
      let outcome : written disk e' ≡ ok e' = rw (app, meta) refl in
      let all : (store_put codec ids now false disk e fs).1 ≡ ok e' =
        ap (λ r. r.1) reached ∙ outcome in
      let pair : put_complete codec disk e' done
          ≡ ((store_put codec ids now false disk e fs).0, ok e') =
        sym reached ∙ ap (λ r. ((store_put codec ids now false disk e fs).0, r)) all in
      (id, all, put_named-view codec disk now e (some (id, drawn)) fs _ e' s pair, given, free)
