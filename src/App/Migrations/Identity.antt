-- ===== src/App/Migrations/Identity.antt =====
-- `check_embedding`, `record_embedding` and `prepare_store` of src/application/migrations.rs: the
-- model and the dimension that a store's vectors come from.
use neurolithe.Store.Schema.{
  drop_vec_tables, create_vec_tables, vec_table_dim, rows_of, get_meta, table_exists, Database,
  Json,
}
use neurolithe.App.Migrations.{
  vec_tables, EmbeddingIdentity, assumed_vectors, mismatch, PrepareReport, Warning, StoreKind,
}
use neurolithe.Base.Decimal.{parse, to_string}
use neurolithe.Base.Outcome.{◌>>=◌, ◌>>◌, return, ok, err}
use neurolithe.Base.Text.{text, Text}
use neurolithe.Base.{
  ℕ, ◌+◌, ◌&&◌, Option, none, some, List, [], ◌∷◌, ◌++◌, ltb, if◌then◌else◌, ◌==◌, length, nat_key,
  text_key,
}
use neurolithe.App.Migrations.Prepare.{StoreIo, Io, Os, write_meta, on_store, migrate_store}

-- Whether the vector index was made for another dimension.
abbrev pub misfit : ℕ → Option ℕ → Option ℕ
misfit dim none = none
misfit dim (some d) = if d == dim then none else some d

abbrev pub named : Text → Option ℕ → Option (Text × ℕ)
named model none = none
named model (some dim) = some (model, dim)

abbrev pub identity_of : Option Text → Option Text → Option (Text × ℕ)
identity_of none d = none
identity_of (some model) none = none
identity_of (some model) (some d) = named model (parse d)

module _ {R E : Type 0} where
  unfoldable pub record_embedding : EmbeddingIdentity → StoreIo R E (Unit {0})
  record_embedding embedding = do
    write_meta (text "embedding_provider") embedding.provider
    write_meta (text "embedding_model") embedding.model
    write_meta (text "embedding_dim") (to_string embedding.dim)

  -- The model and the dimension that are recorded, if both can be read.
  unfoldable pub stored_identity : Database R E → Option (Text × ℕ)
  stored_identity db =
      identity_of (get_meta (text "embedding_model") db) (get_meta (text "embedding_dim") db)

  unfoldable pub count_vectors : List Text → Database R E → ℕ
  count_vectors [] db = 0
  count_vectors (t ∷ ts) db =
      (if table_exists t db then length (rows_of t db) else 0) + count_vectors ts db

  abbrev pub first_dim : List Text → Database R E → Option ℕ
  first_dim [] db = none
  first_dim (t ∷ ts) db = vec_table_dim t db

  abbrev pub rebuild : StoreKind → ℕ → Database R E → Database R E
  rebuild kind dim db =
      create_vec_tables dim (vec_tables kind) (drop_vec_tables (vec_tables kind) db)

  -- The identity is recorded, with the warning for a store that has vectors.
  abbrev pub adopt : EmbeddingIdentity → ℕ → StoreIo R E (List Warning)
  adopt embedding vectors = do
    record_embedding embedding
    return (if ltb 0 vectors then assumed_vectors vectors ∷ [] else [])

  abbrev pub adopt_for : StoreKind → EmbeddingIdentity → ℕ → Option ℕ → StoreIo R E (List Warning)
  adopt_for kind embedding vectors none db = adopt embedding vectors db
  adopt_for kind embedding vectors (some d) db =
      if ltb 0 vectors
      then (err (mismatch (text "an unrecorded model") d), db)
      else adopt embedding vectors (rebuild kind embedding.dim db)

  -- A store with no identity takes the configured one, unless it has vectors of another dimension.
  unfoldable pub adopt_embedding : StoreKind → EmbeddingIdentity → StoreIo R E (List Warning)
  adopt_embedding kind embedding db =
      adopt_for kind embedding (count_vectors (vec_tables kind) db)
        (misfit embedding.dim (first_dim (vec_tables kind) db)) db

  abbrev pub check_identity :
      StoreKind → EmbeddingIdentity → Option (Text × ℕ) → StoreIo R E (List Warning)
  check_identity kind embedding none db = adopt_embedding kind embedding db
  check_identity kind embedding (some (model, dim)) db =
      if (model == embedding.model) && (dim == embedding.dim)
      then (ok [], db)
      else (err (mismatch model dim), db)

  unfoldable pub check_embedding : StoreKind → EmbeddingIdentity → StoreIo R E (List Warning)
  check_embedding kind embedding db = check_identity kind embedding (stored_identity db) db

  unfoldable pub prepare_store :
      Os → Json → StoreKind → Option Text → EmbeddingIdentity → Io R E PrepareReport
  prepare_store os json kind db_path embedding = do
    report ← migrate_store os json kind db_path embedding.dim
    ws ← on_store (check_embedding kind embedding)
    return (record report { warnings = report.warnings ++ ws })
