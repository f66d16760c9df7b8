-- ===== src/Tests/Upgrades.antt =====
-- Stores that are opened and upgraded, for the theorems on src/application/migrations.rs.
use neurolithe.Base.Int.{pos}
use neurolithe.Base.Decimal.{digits}
use neurolithe.Base.Decimal.{parse}
use neurolithe.Base.Decimal.{to_string}
use neurolithe.Store.Schema.{sql_dim}
use neurolithe.App.Migrations.Identity.{record_embedding}
use neurolithe.App.Migrations.Identity.{count_vectors}
use neurolithe.App.Migrations.Identity.{adopt_embedding}
use neurolithe.App.Migrations.Identity.{stored_identity}
use neurolithe.App.Migrations.{drop_orphan_document_bodies}
use neurolithe.Store.Schema.{get_meta}
use neurolithe.Store.Schema.{set_meta}
use neurolithe.App.Migrations.Prepare.{write_meta}
use neurolithe.App.Migrations.Prepare.{stamp}
use neurolithe.App.Migrations.Prepare.{seal}
use neurolithe.App.Migrations.{ensure_stm_data_id_index}
use neurolithe.Store.Schema.{create_index}
use neurolithe.Store.Schema.{create_stm_edge_indexes}
use neurolithe.App.Migrations.{tenants}
use neurolithe.App.Migrations.{adopt_layers}
use neurolithe.App.Migrations.{
  stm_v3_indexes, stm_v2_single_tenant, PrepareReport, StoreError, merge_tenants, EmbeddingIdentity,
  stm,
}
use neurolithe.App.Migrations.Prepare.{
  run_migrations, upgrade, reserve, reserve_private_file, backup_store, back_up, migrate_from,
  kind_error, check_kind, migrate_store, Os, Disk,
}
use neurolithe.Store.Schema.{
  has_user_tables, vec_sql, vec_table_dim, table_exists, plain, Database, Json,
}
use neurolithe.App.Migrations.Identity.{prepare_store, check_embedding}
use neurolithe.Base.Outcome.{Result, Ensures}
use neurolithe.Base.Maps.{lookup}
use neurolithe.Base.Decimal.{usize_limit}
use neurolithe.App.Migrations.Acceptance.{check_embedding-IsAccepted, IsMismatch, IsAccepted}
use neurolithe.App.Migrations.Tenants.{merge_tenants-IsMerged, IsMerged}
use neurolithe.Store.Memory.Rows.{Layer}
use neurolithe.Base.Text.{Text, text}
use neurolithe.Base.{
  ℕ, ◌≡◌, refl, true, false, not, none, some, [], ◌∷◌, arith, if◌then◌else◌, is_some, ◌==◌, nat_key,
  text_key,
}

abbrev json : Json
json = record {
  json_valid = λ t. not (t == text "broken");
  extract = λ k t. if t == text "broken" then none else some (if t == k then some k else none);
}

abbrev os : Os
os = record { secs = 7; now = text "today"; is_denied = λ t. false; vacuum_fails = λ t. false }

-- A file that is new.
abbrev fresh : Database ℕ ℕ
fresh = record {
  user_version = pos 0;
  tables = [];
  indexes = [];
  meta = [];
  nodes = [];
  episodes = [];
  ccl_registry = [];
  vectors = [];
  tree_nodes = [];
  leaves = [];
  doc_bodies = [];
}

abbrev layer : Text → Text → Layer
layer tenant description = record {
  tenant_id = tenant;
  name = text "working";
  description = description;
}

-- A store of two tenants, of the first version.
abbrev shared : Database ℕ ℕ
shared = record fresh {
  user_version = pos 1;
  tables =
      (text "nodes", plain (text "nodes") (text "id" ∷ text "tenant_id" ∷ []))
      ∷ (text "episodes", plain (text "episodes") (text "id" ∷ []))
      ∷ (text "ccl_registry", plain (text "ccl_registry") (text "id" ∷ []))
      ∷ (text "edges", plain (text "edges") (text "source_id" ∷ []))
      ∷ (text "meta", plain (text "meta") (text "key" ∷ text "value" ∷ []))
      ∷ (text "vec_nodes", record { sql = vec_sql (text "vec_nodes") 384; columns = [] })
      ∷ [];
  nodes =
      record {
        id = 1;
        tenant_id = text "agent-7";
        status = text "active";
        payload = text "{}";
        rest = 0;
      }
      ∷ [];
  ccl_registry = layer (text "agent-7") (text "theirs") ∷ layer (text "default") (text "ours") ∷ [];
}

-- A store whose table of metadata is there.
abbrev recorded : Database ℕ ℕ
recorded = record fresh {
  tables = (text "meta", plain (text "meta") (text "key" ∷ text "value" ∷ [])) ∷ [];
}

abbrev disk : Disk ℕ ℕ
disk = record { store = shared; files = (text "stm.sqlite.bak-v1-7", none) ∷ [] }

abbrev model : EmbeddingIdentity
model = record { provider = text "local"; model = text "bge"; dim = 384 }

check_embedding-IsAccepted_example :
    Ensures
      (λ _ d. IsAccepted stm model recorded d)
      (λ _ d. (d ≡ recorded) × IsMismatch stm model recorded)
      (check_embedding stm model recorded)
unfolding usize_limit table_exists
check_embedding-IsAccepted_example =
    check_embedding-IsAccepted stm model recorded (omega arith) refl

merge_tenants-IsMerged_example : IsMerged shared (merge_tenants shared)
merge_tenants-IsMerged_example = merge_tenants-IsMerged shared (λ n. ground arith)

-- The store and its files once it is opened.
abbrev after : Result StoreError PrepareReport × Disk ℕ ℕ
after = prepare_store os json stm (some (text "stm.sqlite")) model disk

-- The store is at the latest version, the dimension is read back from the statement of the vector
-- table, and the backup took the first name that was free.
opened_test :
    (after.1.store.user_version ≡ pos 3)
    × (vec_table_dim (text "vec_nodes") after.1.store ≡ some 384)
    × (is_some (lookup (text "stm.sqlite.bak-v1-7-1") after.1.files) ≡ true)
unfolding prepare_store migrate_store check_kind kind_error table_exists migrate_from back_up
    has_user_tables backup_store reserve_private_file reserve upgrade run_migrations
    stm_v2_single_tenant stm_v3_indexes merge_tenants adopt_layers tenants create_stm_edge_indexes
    create_index ensure_stm_data_id_index seal stamp write_meta set_meta get_meta
    drop_orphan_document_bodies check_embedding stored_identity adopt_embedding count_vectors
    record_embedding vec_table_dim sql_dim to_string parse digits usize_limit
opened_test = (refl, refl, refl)
