-- ===== src/App/Migrations/Sealing.antt =====
-- src/application/migrations.rs: what the bookkeeping of a migration leaves, and the steps before it.
use neurolithe.Base.Int.{pos}
use neurolithe.Store.Schema.{SqlError, no_such_table, on_table, set_meta, table_exists, Database}
use neurolithe.Base.Maps.{lookup-insert, insert, Map, lookup}
use neurolithe.App.Migrations.Prepare.{insert_or_ignore, write_meta, stamp, seal, Os}
use neurolithe.Base.Outcome.{ok, err, Ensures}
use neurolithe.App.Migrations.{statement, as_str, latest_version, StoreKind}
use neurolithe.Base.Decimal.{to_string}
use neurolithe.Base.Text.{text, Text}
use neurolithe.Base.{
  ◌≡◌, refl, ◌∙◌, inl, inr, true, false, Option, none, some, Bool-cases, ◌==◌, same_refl, nat_key,
  text_key,
}

-- The version and the kind are written down, and when the store was made.
pub record IsRecorded {R E : Type 0} (kind : StoreKind) (db : Database R E) : Type 0 where
  pub version : db.user_version ≡ pos (latest_version kind)
  pub schema_version :
      lookup (text "schema_version") db.meta ≡ some (to_string (latest_version kind))
  pub store_kind : lookup (text "store_kind") db.meta ≡ some (as_str kind)
  pub created_at : (t : Text) × (lookup (text "created_at") db.meta ≡ some t)
  pub catalogue : table_exists (text "meta") db ≡ true

module _ {R E : Type 0} where
  -- A statement that needs a table keeps what holds of the store.
  pub on_table-Ensures :
      (P : Database R E → Type 0) (Q : SqlError → Database R E → Type 0) (name : Text)
      (db : Database R E)
      → P db
      → ((e : SqlError) → Q e db)
      → Ensures (λ _ d. P d × (table_exists name d ≡ true)) Q (on_table name db)
  on_table-Ensures P Q name db p q = elim (Bool-cases (table_exists name db)) [
    | inl here ↦ rw here (p, here)
    | inr gone ↦ rw gone (q (no_such_table name))
  ]

  pub write_meta_ok :
      (key value : Text) (db : Database R E)
      → table_exists (text "meta") db ≡ true
      → write_meta key value db ≡ (ok tt, record db { meta = insert key value db.meta })
  unfolding write_meta set_meta
  write_meta_ok key value db here = rw here refl

  pub write_meta_err :
      (key value : Text) (db : Database R E)
      → table_exists (text "meta") db ≡ false
      → write_meta key value db ≡ (err (statement (no_such_table (text "meta"))), db)
  unfolding write_meta set_meta
  write_meta_err key value db gone = rw gone refl

  stamp_ok :
      (os : Os) (db : Database R E)
      → table_exists (text "meta") db ≡ true
      → stamp os db
        ≡ (ok tt, record db { meta = insert_or_ignore (text "created_at") os.now db.meta })
  unfolding stamp
  stamp_ok os db here = rw here refl

abbrev versioned : StoreKind → Map Text Text → Map Text Text
versioned kind m = insert (text "schema_version") (to_string (latest_version kind)) m

abbrev kinded : StoreKind → Map Text Text → Map Text Text
kinded kind m = insert (text "store_kind") (as_str kind) (versioned kind m)

module _ (os : Os) (kind : StoreKind) where
  abbrev sealed : Map Text Text → Map Text Text
  sealed m = insert_or_ignore (text "created_at") os.now (kinded kind m)

  module _ {R E : Type 0} (db : Database R E) where
    seal_ok :
        table_exists (text "meta") db ≡ true
        → seal os kind db
          ≡ (ok tt, record db { user_version = pos (latest_version kind); meta = sealed db.meta })
    unfolding seal table_exists
    seal_ok here =
        rw (write_meta_ok (text "schema_version") (to_string (latest_version kind)) db here) (
          rw
            (write_meta_ok (text "store_kind") (as_str kind)
              (record db {
                meta = insert (text "schema_version") (to_string (latest_version kind)) db.meta;
              })
              here)
            (rw
              (stamp_ok os
                (record db {
                  meta =
                      insert (text "store_kind") (as_str kind)
                        (insert (text "schema_version") (to_string (latest_version kind)) db.meta);
                })
                here)
              refl))

    seal_err :
        table_exists (text "meta") db ≡ false
        → seal os kind db ≡ (err (statement (no_such_table (text "meta"))), db)
    unfolding seal
    seal_err gone =
        rw (write_meta_err (text "schema_version") (to_string (latest_version kind)) db gone) refl

-- What `INSERT OR IGNORE` leaves at a key.
module _ (key value : Text) (m : Map Text Text) where
  lookup-insert_or_ignore :
      (j : Text) → (j == key) ≡ false → lookup j (insert_or_ignore key value m) ≡ lookup j m
  lookup-insert_or_ignore j h = other (lookup key m) refl
    where
      other :
          (found : Option Text)
          → lookup key m ≡ found
          → lookup j (insert_or_ignore key value m) ≡ lookup j m
      other none e = rw e (lookup-insert key j value m ∙ rw h refl)
      other (some t) e = rw e refl

  insert_or_ignore-some : (t : Text) × (lookup key (insert_or_ignore key value m) ≡ some t)
  insert_or_ignore-some = here (lookup key m) refl
    where
      here :
          (found : Option Text)
          → lookup key m ≡ found
          → (t : Text) × (lookup key (insert_or_ignore key value m) ≡ some t)
      here none e = (value, rw e (lookup-insert key key value m ∙ rw (same_refl key) refl))
      here (some t) e = (t, rw e e)

module _ (os : Os) (kind : StoreKind) {R E : Type 0} where
  -- The bookkeeping changes nothing but the version and the metadata.
  pub seal-Ensures :
      (db : Database R E)
      → Ensures
          (λ _ d.
            IsRecorded kind d × (d ≡ record db { user_version = d.user_version; meta = d.meta }))
          (λ _ _. Unit {0})
          (seal os kind db)
  unfolding table_exists
  seal-Ensures db = elim (Bool-cases (table_exists (text "meta") db)) [
    | inl here ↦ rw (seal_ok os kind db here) (recorded here, refl)
    | inr gone ↦ rw (seal_err os kind db gone) tt
  ]
    where
      recorded :
          table_exists (text "meta") db ≡ true
          → IsRecorded kind (record db {
            user_version = pos (latest_version kind);
            meta = sealed os kind db.meta;
          })
      recorded here = record {
        version = refl;
        schema_version =
            lookup-insert_or_ignore (text "created_at") os.now (kinded kind db.meta)
              (text "schema_version") refl
            ∙ (lookup-insert (text "store_kind") (text "schema_version") (as_str kind)
                  (versioned kind db.meta)
                ∙ lookup-insert (text "schema_version") (text "schema_version")
                    (to_string (latest_version kind)) db.meta);
        store_kind =
            lookup-insert_or_ignore (text "created_at") os.now (kinded kind db.meta)
              (text "store_kind") refl
            ∙ lookup-insert (text "store_kind") (text "store_kind") (as_str kind)
                (versioned kind db.meta);
        created_at = insert_or_ignore-some (text "created_at") os.now (kinded kind db.meta);
        catalogue = here;
      }
