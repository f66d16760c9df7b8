-- ===== src/App/Migrations/Prepare.antt =====
-- `migrate_store`, `check_kind` and `backup_store` of
-- src/application/migrations.rs, on the store and the backup files beside it.
use neurolithe.Base.Int.{ℤ, pos, exceeds, is_pos, as_usize, signed_text}
use neurolithe.Store.Schema.{
  when_absent, get_meta, on_table, set_meta, table_exists, has_user_tables, Database, Json,
}
use neurolithe.App.Migrations.{
  as_str, newer, wrong_kind, legacy_kind, migrating, statement, backup, drop_orphan_document_bodies,
  heal_stm_indexes, latest_version, migrations, StoreError, PrepareReport, Warning,
  signature_tables, Migration, StoreKind,
}
use neurolithe.Base.Decimal.{to_string}
use neurolithe.Base.Maps.{insert, remove, Map, lookup}
use neurolithe.Base.Outcome.{
  with_context, Action, Result, ◌>>=◌, ◌>>◌, return, modify, ok, err, transaction,
}
use neurolithe.Base.Text.{text, Text}
use neurolithe.Base.{
  ℕ, zero, suc, Bool, not, ◌&&◌, Option, none, some, List, [], ◌∷◌, ◌++◌, if◌then◌else◌, ◌==◌, drop,
  nat_key, text_key,
}

-- What the operating system answers: the time in seconds and as a text, the files that cannot be
-- created for another reason than that they exist, and the snapshots that fail.
pub record Os : Type 0 where
  pub secs : ℕ
  pub now : Text
  pub is_denied : Text → Bool
  pub vacuum_fails : Text → Bool

-- The store, and the files beside it: `none` is a file that is empty.
pub record Disk (R E : Type 0) : Type 0 where
  pub store : Database R E
  pub files : Map Text (Option (Database R E))

abbrev pub Io : Type 0 → Type 0 → Type 0 → Type 0
Io R E A = Action (Disk R E) StoreError A

abbrev pub StoreIo : Type 0 → Type 0 → Type 0 → Type 0
StoreIo R E A = Action (Database R E) StoreError A

abbrev pub max_names : ℕ
max_names = 1000

abbrev pub candidate_name : Text → ℕ → Text
candidate_name base zero = base
candidate_name base (suc n) = base ++ (text "-" ++ to_string (suc n))

abbrev pub unless_there : Option Text → Map Text Text → Map Text Text → Map Text Text
unless_there none added m = added
unless_there (some _) added m = m

abbrev pub insert_or_ignore : Text → Text → Map Text Text → Map Text Text
insert_or_ignore key value m = unless_there (lookup key m) (insert key value m) m

module _ {R E : Type 0} where
  -- The file system after a call on the store.
  abbrev pub put_store :
      {A : Type 0} → Disk R E → Result StoreError A × Database R E → Result StoreError A × Disk R E
  put_store disk (r, db) = (r, record disk { store = db })

  abbrev pub on_store : {A : Type 0} → StoreIo R E A → Io R E A
  on_store m disk = put_store disk (m disk.store)

  unfoldable pub write_meta : Text → Text → StoreIo R E (Unit {0})
  write_meta key value = with_context statement (set_meta key value)

  -- The error of `check_kind`, if there is one.
  unfoldable pub kind_error : StoreKind → Database R E → Option StoreError
  kind_error kind db =
      let (own, other) = signature_tables kind in
      if table_exists (text "meta") db
      then elim (get_meta (text "store_kind") db) [
        | none ↦ none
        | some stored ↦ if stored == as_str kind then none else some (wrong_kind stored)
      ]
      else if table_exists other db && not (table_exists own db)
      then some (legacy_kind kind)
      else none

  abbrev pub refuse : Option StoreError → StoreIo R E (Unit {0})
  refuse none db = (ok tt, db)
  refuse (some e) db = (err e, db)

  unfoldable pub check_kind : StoreKind → StoreIo R E (Unit {0})
  check_kind kind db = refuse (kind_error kind db) db

  -- The loop over the migrations; `i` is the version before the first of them.
  unfoldable pub run_migrations : ℕ → ℕ → List (Migration R E) → StoreIo R E (List Warning)
  run_migrations dim i [] db = (ok [], db)
  run_migrations dim i (m ∷ ms) db =
      (do
        ws ← with_context (migrating (suc i)) (m dim)
        more ← run_migrations dim (suc i) ms
        return (ws ++ more))
        db

  abbrev pub drop_orphans : StoreKind → StoreIo R E (Unit {0})
  drop_orphans kind = with_context statement (drop_orphan_document_bodies kind)

  module _ (os : Os) where
    open os use {secs, now, is_denied, vacuum_fails}

    -- The loop of `reserve_private_file` over the numbers from `n`.
    unfoldable pub reserve : Text → ℕ → ℕ → Io R E Text
    reserve base zero n disk = (err (backup base), disk)
    reserve base (suc left) n disk =
        let candidate = candidate_name base n in
        let rest = reserve base left (suc n) disk in
        when_absent (lookup candidate disk.files)
          (if is_denied candidate
            then (err (backup candidate), disk)
            else (ok candidate, record disk { files = insert candidate none disk.files }))
          rest

    unfoldable pub reserve_private_file : Text → Text → Io R E Text
    reserve_private_file db_path tag =
        reserve (db_path ++ (text ".bak-" ++ (tag ++ (text "-" ++ to_string secs)))) max_names 0

    -- `VACUUM INTO`, and the removal of the file where it fails.
    abbrev pub vacuum_into : Text → Io R E Text
    vacuum_into target disk =
        if vacuum_fails target
        then (err (backup target), record disk { files = remove target disk.files })
        else (ok target, record disk { files = insert target (some disk.store) disk.files })

    unfoldable pub backup_store : Text → Text → Io R E Text
    backup_store db_path tag = do target ← reserve_private_file db_path tag; vacuum_into target

    -- An existing store that has a path is backed up before it is touched.
    unfoldable pub back_up : Option Text → ℤ → Io R E (Option Text)
    back_up none from disk = (ok none, disk)
    back_up (some path) from disk =
        let copied =
          (do target ← backup_store path (text "v" ++ signed_text from); return (some target))
            disk in
        if has_user_tables disk.store then copied else (ok none, disk)

    -- `INSERT OR IGNORE` of `created_at`.
    unfoldable pub stamp : StoreIo R E (Unit {0})
    stamp = with_context statement (do
      on_table (text "meta")
      modify (λ db. record db { meta = insert_or_ignore (text "created_at") now db.meta }))

    module _ (kind : StoreKind) where
      -- The bookkeeping at the end of the transaction.
      unfoldable pub seal : StoreIo R E (Unit {0})
      seal = do
        write_meta (text "schema_version") (to_string (latest_version kind))
        write_meta (text "store_kind") (as_str kind)
        stamp
        modify (λ db. record db { user_version = pos (latest_version kind) })

    module _ (json : Json) (kind : StoreKind) where
      -- What the transaction does. `skip(from_version as usize)` leaves out the migrations before.
      unfoldable pub upgrade : ℕ → ℤ → StoreIo R E (List Warning)
      upgrade dim from = do
        ws ← run_migrations dim (as_usize from) (drop (as_usize from) (migrations json kind))
        seal kind
        return ws

      -- `migrate_store` for a store of this version.
      unfoldable pub open_latest : ℤ → StoreIo R E PrepareReport
      open_latest from = do
        ws ← with_context statement (heal_stm_indexes json kind)
        drop_orphans kind
        return (record { from_version = from; to_version = from; backup = none; warnings = ws })

      -- `migrate_store` for an older store.
      unfoldable pub migrate_from : Option Text → ℕ → ℤ → Io R E PrepareReport
      migrate_from db_path dim from = do
        copy ← back_up db_path from
        ws ← on_store (transaction (upgrade dim from))
        on_store (drop_orphans kind)
        return (record {
          from_version = from;
          to_version = pos (latest_version kind);
          backup = copy;
          warnings = ws;
        })

      -- What follows the guards.
      abbrev dispatch : Option Text → ℕ → ℤ → Io R E PrepareReport
      dispatch db_path dim from =
          if is_pos (latest_version kind) from
          then on_store (open_latest from)
          else migrate_from db_path dim from

      unfoldable pub migrate_store : Option Text → ℕ → Io R E PrepareReport
      migrate_store db_path dim disk =
          let from = disk.store.user_version in
          if exceeds (latest_version kind) from
          then (err (newer from (latest_version kind)), disk)
          else (do on_store (check_kind kind); dispatch db_path dim from) disk
