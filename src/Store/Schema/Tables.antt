-- ===== src/Store/Schema/Tables.antt =====
-- `init_schema` and `init_ltm_schema` of src/infrastructure/schema.rs: what a fresh store gets, and
-- an old one lacks.
use neurolithe.Base.{
  ℕ, Bool, true, false, not, Option, none, some, List, [], ◌∷◌, if◌then◌else◌, ◌==◌, filter,
  contains, nat_key, text_key,
}
use neurolithe.Base.Maps.{insert}
use neurolithe.Base.Outcome.{◌>>◌, ok, err, ◌>>◌, modify}
use neurolithe.Base.Text.{Text, text}
use neurolithe.Store.Memory.Rows.{active}
use neurolithe.Store.Schema.{
  Json, NodeCells, Database, Sql, malformed_json, plain, rows_of, create_table, create_index,
  add_column_if_missing, create_vec_table, create_vec_tables, create_ltm_doc_bodies,
}

abbrev pub stm_vec_tables : List Text
stm_vec_tables = text "vec_nodes" ∷ []

abbrev pub ltm_vec_tables : List Text
ltm_vec_tables = text "vec_ltm" ∷ text "vec_leaves" ∷ []

module _ (json : Json) {R : Type 0} where
  open json use {extract}

  -- `status != 'active' OR json_extract(payload, '$.kind') = 'subject'`; `none` is an error.
  unfoldable pub is_stale : NodeCells R → Option Bool
  is_stale n =
      if not (n.status == active) then some true else elim (extract (text "kind") n.payload) [
        | none ↦ none
        | some none ↦ some false
        | some (some kind) ↦ some (kind == text "subject")
      ]

  unfoldable pub stale_ids : List (NodeCells R) → Option (List ℕ)
  stale_ids [] = some []
  stale_ids (n ∷ ns) = elim (is_stale n) [
    | none ↦ none
    | some stale ↦ elim (stale_ids ns) [
      | none ↦ none
      | some ids ↦ some (if stale then n.id ∷ ids else ids)
    ]
  ]

  module _ {E : Type 0} where
    -- The DELETE of `init_schema`; its subquery is evaluated whatever `vec_nodes` holds.
    unfoldable pub purge_vectors : Sql R E (Unit {0})
    purge_vectors db = elim (stale_ids db.nodes) [
      | none ↦ (err malformed_json, db)
      | some ids ↦ (
        ok tt,
        record db {
          vectors =
              insert (text "vec_nodes")
                (filter (λ v. not (contains ids v.0)) (rows_of (text "vec_nodes") db)) db.vectors;
        },
      )
    ]

-- The columns of `nodes`.
abbrev pub node_columns : List Text
node_columns =
    text "id"
    ∷ text "tenant_id"
    ∷ text "source_episode_id"
    ∷ text "payload"
    ∷ text "status"
    ∷ text "ccl"
    ∷ text "is_explicit"
    ∷ text "support_count"
    ∷ text "relevance_score"
    ∷ text "context_key"
    ∷ text "last_accessed_at"
    ∷ text "last_decayed_at"
    ∷ text "created_at"
    ∷ text "updated_at"
    ∷ []

-- The tables of `init_schema` up to the vector index, and the columns that old stores lack.
module _ {R E : Type 0} where
  unfoldable pub create_stm_tables : ℕ → Database R E → Database R E
  create_stm_tables dim db =
      let ccl =
        create_table (text "ccl_registry")
          (plain (text "ccl_registry")
            (text "id" ∷ text "tenant_id" ∷ text "name" ∷ text "description" ∷ []))
          db in
      let eps =
        create_table (text "episodes")
          (plain (text "episodes") (
            text "id"
            ∷ text "tenant_id"
            ∷ text "session_id"
            ∷ text "raw_dialogue"
            ∷ text "ccl"
            ∷ text "created_at"
            ∷ []))
          ccl in
      let nds = create_table (text "nodes") (plain (text "nodes") node_columns) eps in
      let key = add_column_if_missing (text "nodes") (text "context_key") nds in
      let decayed = add_column_if_missing (text "nodes") (text "last_decayed_at") key in
      let recency = create_index (text "idx_nodes_context_recency") decayed in
      let edg =
        create_table (text "edges")
          (plain (text "edges") (
            text "source_id"
            ∷ text "target_id"
            ∷ text "relation"
            ∷ text "ccl"
            ∷ text "valid_from"
            ∷ text "valid_until"
            ∷ text "weight"
            ∷ []))
          recency in
      create_vec_table dim (text "vec_nodes") edg

  -- The keyword index and the ledger of commands.
  unfoldable pub create_stm_ledgers : Database R E → Database R E
  create_stm_ledgers db =
      create_table (text "processed_commands")
        (plain (text "processed_commands") (text "command_id" ∷ text "processed_at" ∷ []))
        (create_table (text "fts_nodes") (plain (text "fts_nodes") (text "payload" ∷ [])) db)

  unfoldable pub init_schema : Json → ℕ → Sql R E (Unit {0})
  init_schema json dim = do
    modify (create_stm_tables dim)
    purge_vectors json
    modify create_stm_ledgers

  unfoldable pub init_ltm_schema : ℕ → Database R E → Database R E
  init_ltm_schema dim db =
      let nds =
        create_table (text "tree_nodes")
          (plain (text "tree_nodes") (
            text "id"
            ∷ text "name"
            ∷ text "summary"
            ∷ text "kind"
            ∷ text "permanent"
            ∷ text "created_at"
            ∷ text "updated_at"
            ∷ []))
          db in
      let edg =
        create_table (text "tree_edges")
          (plain (text "tree_edges") (text "parent_id" ∷ text "child_id" ∷ text "weight" ∷ []))
          nds in
      let child = create_index (text "idx_tree_edges_child") edg in
      let lvs =
        create_table (text "leaves")
          (plain (text "leaves") (text "tree_node_id" ∷ text "data_id" ∷ text "provenance" ∷ []))
          child in
      let by_id = create_index (text "idx_leaves_data_id") lvs in
      let vecs = create_vec_tables dim ltm_vec_tables by_id in
      create_ltm_doc_bodies
        (create_table (text "fts_ltm") (plain (text "fts_ltm") (text "summary" ∷ [])) vecs)
