-- ===== src/App/Migrations.antt =====
-- src/application/migrations.rs: the guards of a store that is opened, its backup, the migrations
-- in one transaction, and the identity of its embeddings.
pub mod Prepare
pub mod Identity
pub mod Sealing
pub mod Backups
pub mod Stages
pub mod Runs
pub mod Rollback
pub mod Upgrades
pub mod Tenants
pub mod Acceptance
use neurolithe.Base.Int.{ℤ}
use neurolithe.Store.Schema.{
  NodeCells, create_index, EpisodeCells, plain, create_stm_edge_indexes, create_table, table_exists,
  BodyCells, Sql, LeafCells, SqlError, on_table, create_ltm_doc_bodies, Database, TreeCells, Json,
}
use neurolithe.Store.Schema.Tables.{ltm_vec_tables, init_ltm_schema, stm_vec_tables, init_schema}
use neurolithe.Base.Text.{text, Text}
use neurolithe.Store.Memory.Rows.{Layer}
use neurolithe.Base.Outcome.{ok, ◌>>=◌, ◌>>◌, return, read, modify}
use neurolithe.Base.Sort.{sort_by}
use neurolithe.Base.Text.Order.{text_cmp}
use neurolithe.Base.{
  ℕ, ◌-◌, compare, Bool, true, false, not, ◌&&◌, ◌||◌, Option, none, some, List, [], ◌∷◌, ◌++◌, map,
  ltb, if◌then◌else◌, ◌==◌, length, filter, any, find, contains, nat_key, text_key,
}

pub data StoreKind : Type 0 where
  stm ltm : StoreKind

abbrev pub as_str : StoreKind → Text
as_str stm = text "stm"
as_str ltm = text "ltm"

abbrev pub is_stm : StoreKind → Bool
is_stm stm = true
is_stm ltm = false

abbrev pub vec_tables : StoreKind → List Text
vec_tables stm = stm_vec_tables
vec_tables ltm = ltm_vec_tables

-- A table that only this kind has, and one that only the other kind has.
abbrev pub signature_tables : StoreKind → Text × Text
signature_tables stm = (text "nodes", text "tree_nodes")
signature_tables ltm = (text "tree_nodes", text "nodes")

abbrev pub workspace_tenant : Text
workspace_tenant = text "default"

pub record EmbeddingIdentity : Type 0 where
  pub provider : Text
  pub model : Text
  pub dim : ℕ

-- What the messages that are no errors say.
pub data Warning : Type 0 where
  merged_tenants : List Text → Warning
  malformed_payloads : ℕ → Warning
  backfilled_documents : ℕ → Warning
  assumed_vectors : ℕ → Warning

pub data StoreError : Type 0 where
  newer : ℤ → ℕ → StoreError
  wrong_kind : Text → StoreError
  legacy_kind : StoreKind → StoreError
  migrating : ℕ → SqlError → StoreError
  statement : SqlError → StoreError
  backup : Text → StoreError
  mismatch : Text → ℕ → StoreError

-- `PrepareReport`
pub record PrepareReport : Type 0 where
  pub from_version : ℤ
  pub to_version : ℤ
  pub backup : Option Text
  pub warnings : List Warning

-- `UNION .. ORDER BY 1`: the names in order, each once.
abbrev dedup : List Text → List Text
dedup [] = []
dedup (t ∷ ts) = let rest = dedup ts in if contains ts t then rest else t ∷ rest

abbrev sort_union : List Text → List Text
sort_union ts = dedup (sort_by text_cmp ts)

-- `UPDATE OR IGNORE ccl_registry`: a row whose new key another row has stays as it is.
unfoldable pub adopt_layers : List Layer → List Layer → List Layer
adopt_layers done [] = done
adopt_layers done (l ∷ ls) =
    let taken = any (λ o. (o.tenant_id == workspace_tenant) && (o.name == l.name)) in
    adopt_layers
      (done
        ++ ((if taken done || taken ls then l else record l { tenant_id = workspace_tenant }) ∷ []))
      ls

abbrev pub is_carried : List LeafCells → BodyCells → Bool
is_carried leaves b = any (λ l. l.data_id == b.data_id) leaves

-- `INSERT OR IGNORE .. SELECT .. FROM leaves JOIN tree_nodes`: the title and the summary of each
-- document that has no body, with the number of the rows put in.
unfoldable pub backfill : List TreeCells → List LeafCells → List BodyCells → List BodyCells
backfill nodes [] bodies = bodies
backfill nodes (l ∷ ls) bodies =
    backfill nodes ls (elim (find (λ n. n.id == l.tree_node_id) nodes) [
      | none ↦ bodies
      | some n ↦
          if any (λ b. b.data_id == l.data_id) bodies
          then bodies
          else bodies
            ++ (record { data_id = l.data_id; title = n.name; body = n.summary; backfilled = true }
                ∷ [])
    ])

abbrev pub Migration : Type 0 → Type 0 → Type 0
Migration R E = ℕ → Sql R E (List Warning)

abbrev pub adopt_node : {R : Type 0} → NodeCells R → NodeCells R
adopt_node n = record n { tenant_id = workspace_tenant }

abbrev pub adopt_episode : {R : Type 0} → EpisodeCells R → EpisodeCells R
adopt_episode e = record e { tenant_id = workspace_tenant }

module _ {R E : Type 0} where
  unfoldable pub create_meta_table : Database R E → Database R E
  create_meta_table =
      create_table (text "meta") (plain (text "meta") (text "key" ∷ text "value" ∷ []))

  unfoldable pub tenants : Database R E → List Text
  tenants db = sort_union (
      map (λ n. n.tenant_id) db.nodes
      ++ (map (λ e. e.tenant_id) db.episodes ++ map (λ l. l.tenant_id) db.ccl_registry))

  unfoldable pub merge_tenants : Database R E → Database R E
  merge_tenants db = record db {
    nodes = map adopt_node db.nodes;
    episodes = map adopt_episode db.episodes;
    ccl_registry = filter (λ l. l.tenant_id == workspace_tenant) (adopt_layers [] db.ccl_registry);
  }

  unfoldable pub stm_v2_single_tenant : Migration R E
  stm_v2_single_tenant dim = do
    on_table (text "nodes")
    on_table (text "episodes")
    on_table (text "ccl_registry")
    db ← read
    modify merge_tenants
    return (if ltb 1 (length (tenants db)) then merged_tenants (tenants db) ∷ [] else [])

  abbrev index_or_warn : ℕ → Sql R E (List Warning)
  index_or_warn malformed db =
      if malformed == 0
      then (ok [], create_index (text "idx_nodes_data_id") db)
      else (ok (malformed_payloads malformed ∷ []), db)

  unfoldable pub drop_orphan_document_bodies : StoreKind → Sql R E (Unit {0})
  drop_orphan_document_bodies kind db =
      if is_stm kind || not (table_exists (text "doc_bodies") db)
      then (ok tt, db)
      else (do
        modify create_ltm_doc_bodies
        on_table (text "leaves")
        modify (λ d. record d { doc_bodies = filter (is_carried d.leaves) d.doc_bodies }))
          db

  unfoldable pub ltm_v1_base : Migration R E
  ltm_v1_base dim = do modify (init_ltm_schema dim); modify create_meta_table; return []

  unfoldable pub ltm_v2_document_bodies : Migration R E
  ltm_v2_document_bodies dim = do
    modify create_ltm_doc_bodies
    on_table (text "leaves")
    on_table (text "tree_nodes")
    db ← read
    let bodies =
        backfill db.tree_nodes (sort_by (λ a b. compare a.tree_node_id b.tree_node_id) db.leaves)
          db.doc_bodies
    modify (λ d. record d { doc_bodies = bodies })
    let backfilled = length bodies - length db.doc_bodies
    return (if ltb 0 backfilled then backfilled_documents backfilled ∷ [] else [])

module _ (json : Json) {R E : Type 0} where
  open json use {json_valid}

  unfoldable pub stm_v1_base : Migration R E
  stm_v1_base dim = do init_schema json dim; modify create_meta_table; return []

  unfoldable pub ensure_stm_data_id_index : Sql R E (List Warning)
  ensure_stm_data_id_index = do
    on_table (text "nodes")
    db ← read
    let malformed = length (filter (λ n. not (json_valid n.payload)) db.nodes)
    index_or_warn malformed

  unfoldable pub stm_v3_indexes : Migration R E
  stm_v3_indexes dim = do
    on_table (text "edges")
    modify create_stm_edge_indexes
    ensure_stm_data_id_index

  unfoldable pub heal_stm_indexes : StoreKind → Sql R E (List Warning)
  heal_stm_indexes kind db =
      if is_stm kind && not (contains db.indexes (text "idx_nodes_data_id"))
      then ensure_stm_data_id_index db
      else (ok [], db)

  abbrev pub migrations : StoreKind → List (Migration R E)
  migrations stm = stm_v1_base ∷ stm_v2_single_tenant ∷ stm_v3_indexes ∷ []
  migrations ltm = ltm_v1_base ∷ ltm_v2_document_bodies ∷ []

-- `STM_SCHEMA_VERSION` and `LTM_SCHEMA_VERSION`
abbrev pub latest_version : StoreKind → ℕ
latest_version stm = 3
latest_version ltm = 2
