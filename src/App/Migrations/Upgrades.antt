-- ===== src/App/Migrations/Upgrades.antt =====
-- `migrate_store` of src/application/migrations.rs: an upgrade is complete, or it did not happen.
use neurolithe.Base.Int.{pos}
use neurolithe.Base.{
  ℕ, ◌<◌, ◌≡◌, refl, ap, ◌∙◌, ◌≢◌, inl, inr, false, Option, none, some, arith, ltb, Bool-cases,
  Option-cases, ◌==◌, nat_key, text_key,
}
use neurolithe.App.Migrations.Rollback.{IsClean}
use neurolithe.App.Migrations.Runs.{IsMigrated}
use neurolithe.App.Migrations.Prepare.{Disk}
use neurolithe.App.Migrations.Backups.{IsBackedUp}
use neurolithe.App.Migrations.{PrepareReport, latest_version, StoreKind}
use neurolithe.Store.Schema.{Json}
use neurolithe.Base.Text.{Text}
use neurolithe.App.Migrations.Sealing.{IsRecorded}
use neurolithe.Base.{
  ℕ, ◌<◌, ◌≡◌, refl, ap, ◌∙◌, ◌≢◌, inl, inr, false, Option, none, some, arith, ltb, Bool-cases,
  Option-cases, ◌==◌, nat_key, text_key,
}

-- What an upgrade that succeeds reports and leaves.
pub record IsUpgraded {R E : Type 0} (json : Json) (kind : StoreKind) (db_path : Option Text)
    (from : ℕ) (disk : Disk R E) (r : PrepareReport) (d : Disk R E) : Type 0 where
  pub recorded : IsRecorded kind d.store
  pub migrated : IsMigrated json kind from disk.store d.store
  pub clean : IsClean kind d.store
  pub from_version : r.from_version ≡ pos from
  pub to_version : r.to_version ≡ pos (latest_version kind)
  pub backed_up : IsBackedUp db_path disk r.backup d
