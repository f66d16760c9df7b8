-- ===== src/App/Migrations/Runs.antt =====
-- `run_migrations` of src/application/migrations.rs: what the migrations that are left do together.
use neurolithe.Base.{
  ℕ, zero, suc, ◌<◌, ◌≡◌, refl, ap, ◌∙◌, Bool, true, false, not, List, [], ◌∷◌, map, arith, ltb,
  if◌then◌else◌, drop, any, first, All, All-mono, contains, nat_key, text_key,
}
use neurolithe.Base.Text.{Text, text}
use neurolithe.Base.Outcome.{Ensures, Ensures-continue, Ensures-mono, Ensures-with_context, explain}
use neurolithe.Store.Schema.{Database, Json, NodeCells, table_exists}
use neurolithe.Store.Schema.Catalogue.{Rows, rows}
use neurolithe.App.Migrations.{
  StoreKind, stm, ltm, Migration, migrating, migrations, latest_version, stm_v1_base,
  stm_v2_single_tenant, stm_v3_indexes, ltm_v1_base, ltm_v2_document_bodies, merge_tenants,
  adopt_node, adopt_episode,
}
use neurolithe.App.Migrations.Prepare.{run_migrations}
use neurolithe.App.Migrations.Stages.{
  stm_tables, IsBase, IsIndexed, IsCovered, stm_v1_base-IsBase, stm_v2_single_tenant-merge_tenants,
  stm_v3_indexes-IsIndexed, ltm_v1_base-rows, ltm_v2_document_bodies-IsCovered,
}

any-adopt :
    {R : Type 0} (p : Text → Bool) (ns : List (NodeCells R))
    → any (λ n. p n.payload) (map adopt_node ns) ≡ any (λ n. p n.payload) ns
any-adopt p [] = refl
any-adopt p (n ∷ ns) = ground (arith, any-adopt p ns)

module _ {R E : Type 0} (json : Json) where
  -- Short-term memory after the upgrade from a version: an old store has the rows of all tenants
  -- merged, a new one has every table, and the indexes are there, that of documents only if every
  -- payload is valid JSON.
  abbrev pub IsCurrent : ℕ → Database R E → Database R E → Type 0
  IsCurrent from b d =
      (from ≡ 0 → All (λ t. table_exists t d ≡ true) stm_tables)
      × (d.nodes ≡ (if ltb from 2 then map adopt_node b.nodes else b.nodes))
      × (d.episodes ≡ (if ltb from 2 then map adopt_episode b.episodes else b.episodes))
      × (d.ccl_registry ≡ (if ltb from 2 then (merge_tenants b).ccl_registry else b.ccl_registry))
      × (contains d.indexes (text "idx_edges_source") ≡ true)
      × (contains d.indexes (text "idx_edges_target") ≡ true)
      × (any (λ n. not (json.json_valid n.payload)) b.nodes ≡ false
          → contains d.indexes (text "idx_nodes_data_id") ≡ true)

  abbrev pub IsMigrated : StoreKind → ℕ → Database R E → Database R E → Type 0
  IsMigrated stm from b d = IsCurrent from b d
  IsMigrated ltm from b d = IsCovered b d

  module _ (P Q : Database R E → Type 0) (dim : ℕ) where
    run_last :
        (i : ℕ) (m : Migration R E) (db : Database R E)
        → Ensures (λ _ d. P d) (λ _ _. Unit {0}) (m dim db)
        → Ensures (λ _ d. P d) (λ _ _. Unit {0}) (run_migrations dim i (m ∷ []) db)
    unfolding run_migrations
    run_last i m db h =
        Ensures-continue (λ _ d. P d) (λ _ _. Unit {0}) (λ _ d. P d)
          (explain (migrating (suc i)) (m dim db)) _
          (Ensures-with_context (λ _ d. P d) (λ _ _. Unit {0}) (migrating (suc i)) (λ _ _. Unit {0})
            (m dim db) h (λ _ _ _. tt))
          (λ _ _ p. p)

    run_more :
        (i : ℕ) (m : Migration R E) (ms : List (Migration R E)) (db : Database R E)
        → Ensures (λ _ d. Q d) (λ _ _. Unit {0}) (m dim db)
        → ((d : Database R E)
            → Q d
            → Ensures (λ _ d. P d) (λ _ _. Unit {0}) (run_migrations dim (suc i) ms d))
        → Ensures (λ _ d. P d) (λ _ _. Unit {0}) (run_migrations dim i (m ∷ ms) db)
    unfolding run_migrations
    run_more i m ms db first h =
        Ensures-continue (λ _ d. Q d) (λ _ _. Unit {0}) (λ _ d. P d)
          (explain (migrating (suc i)) (m dim db)) _
          (Ensures-with_context (λ _ d. Q d) (λ _ _. Unit {0}) (migrating (suc i)) (λ _ _. Unit {0})
            (m dim db) first (λ _ _ _. tt))
          (λ ws d q.
            Ensures-continue (λ _ d. P d) (λ _ _. Unit {0}) (λ _ d. P d)
              (run_migrations dim (suc i) ms d) _ (h d q) (λ _ _ p. p))

  -- The second and the third migration, on a store with the rows of `b`.
  merged-IsCurrent :
      (from : ℕ) (b db : Database R E)
      → ltb from 2 ≡ true
      → rows db ≡ rows b
      → (from ≡ 0 → All (λ t. table_exists t db ≡ true) stm_tables)
      → (dim : ℕ)
      → Ensures
          (λ _ d. IsCurrent from b d)
          (λ _ _. Unit {0})
          (run_migrations dim 1 (stm_v2_single_tenant ∷ stm_v3_indexes json ∷ []) db)
  unfolding merge_tenants table_exists rows
  merged-IsCurrent from b db old same tables dim =
      run_more (IsCurrent from b) (λ d. d ≡ merge_tenants db) dim 1 stm_v2_single_tenant _ db
        (stm_v2_single_tenant-merge_tenants dim db)
        (λ d e.
          run_last (IsCurrent from b) (λ _. Unit {0}) dim 2 (stm_v3_indexes json) d
            (Ensures-mono _ (λ _ _. Unit {0}) (λ _ d'. IsCurrent from b d') (λ _ _. Unit {0})
              (stm_v3_indexes json dim d) (stm_v3_indexes-IsIndexed json dim d)
              (λ _ d' p. current d d' e p) (λ _ _ _. tt)))
    where
      current :
          (d d' : Database R E) → d ≡ merge_tenants db → IsIndexed json d d' → IsCurrent from b d'
      current d d' e p =
          let merged : rows d ≡ rows (merge_tenants b) =
            ap (λ (x : Database R E). rows x) e
            ∙ ap
                (λ (x : Rows R). (
                  map adopt_node x.0,
                  map adopt_episode x.1,
                  (merge_tenants (record b { ccl_registry = x.2 })).ccl_registry,
                  x.3,
                  x.4,
                  x.5,
                ))
                same in
          let all_rows = p.0 ∙ merged in
          rw old (
            λ start.
                All-mono (λ t. table_exists t db ≡ true) (λ t. table_exists t d' ≡ true)
                  (λ t h. p.1 t ∙ (ap (λ (x : Database R E). table_exists t x) e ∙ h)) stm_tables
                  (tables start),
            ap (λ (x : Rows R). x.0) all_rows,
            ap (λ (x : Rows R). x.1) all_rows,
            ap (λ (x : Rows R). x.2) all_rows,
            p.2,
            p.3,
            λ clean. p.4 (
                ap (λ (ns : List (NodeCells R)). any (λ n. not (json.json_valid n.payload)) ns)
                  (ap (λ (x : Rows R). x.0) merged)
                ∙ (any-adopt (λ t. not (json.json_valid t)) b.nodes ∙ clean)),
          )

  -- The migrations that are left for a version bring a store up to date, or fail.
  pub run_migrations-IsMigrated :
      (kind : StoreKind) (dim from : ℕ) (db : Database R E)
      → from < latest_version kind
      → Ensures
          (λ _ d. IsMigrated kind from db d)
          (λ _ _. Unit {0})
          (run_migrations dim from (drop from (migrations json kind)) db)
  unfolding rows
  run_migrations-IsMigrated stm dim zero db h =
      run_more (IsCurrent 0 db) (IsBase db) dim 0 (stm_v1_base json) _ db
        (stm_v1_base-IsBase json dim db)
        (λ d base. merged-IsCurrent 0 db d refl base.0 (λ _. base.1) dim)
  run_migrations-IsMigrated stm dim (suc zero) db h =
      merged-IsCurrent 1 db db refl refl (λ e. absurd (omega arith)) dim
  run_migrations-IsMigrated stm dim (suc (suc zero)) db h =
      run_last (IsCurrent 2 db) (λ _. Unit {0}) dim 2 (stm_v3_indexes json) db
        (Ensures-mono _ (λ _ _. Unit {0}) (λ _ d. IsCurrent 2 db d) (λ _ _. Unit {0})
          (stm_v3_indexes json dim db) (stm_v3_indexes-IsIndexed json dim db)
          (λ _ d p. (
            λ e. absurd (omega arith),
            ap (λ (x : Rows R). x.0) p.0,
            ap (λ (x : Rows R). x.1) p.0,
            ap (λ (x : Rows R). x.2) p.0,
            p.2,
            p.3,
            p.4,
          ))
          (λ _ _ _. tt))
  run_migrations-IsMigrated stm dim (suc (suc (suc n))) db h = absurd (omega arith)
  run_migrations-IsMigrated ltm dim zero db h =
      run_more (IsCovered db) (λ d. rows d ≡ rows db) dim 0 ltm_v1_base _ db
        (ltm_v1_base-rows dim db)
        (λ d same.
          run_last (IsCovered db) (λ _. Unit {0}) dim 1 ltm_v2_document_bodies d
            (ltm_v2_document_bodies-IsCovered dim db d same))
  run_migrations-IsMigrated ltm dim (suc zero) db h =
      run_last (IsCovered db) (λ _. Unit {0}) dim 1 ltm_v2_document_bodies db
        (ltm_v2_document_bodies-IsCovered dim db db refl)
  run_migrations-IsMigrated ltm dim (suc (suc n)) db h = absurd (omega arith)
