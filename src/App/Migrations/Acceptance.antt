-- ===== src/App/Migrations/Acceptance.antt =====
-- `check_embedding` of src/application/migrations.rs: which stores are opened with a model.
use neurolithe.App.Migrations.Identity.{
  check_identity, adopt_embedding, misfit, adopt_for, count_vectors, rebuild, first_dim,
  check_embedding, stored_identity, record_embedding,
}
use neurolithe.App.Migrations.{Warning, stm, ltm, vec_tables, EmbeddingIdentity, StoreKind}
use neurolithe.Base.Outcome.{return, continue, Ensures-mono, Ensures-continue, Ensures}
use neurolithe.Store.Schema.Tables.{ltm_vec_tables, stm_vec_tables}
use neurolithe.Store.Schema.Catalogue.{table_exists-drop_vec_tables, table_exists-create_vec_tables}
use neurolithe.Store.Schema.{drop_vec_tables, get_meta, table_exists, Database}
use neurolithe.Base.Decimal.{parse, parse-to_string, to_string, usize_limit}
use neurolithe.Base.Maps.{lookup, lookup-insert, insert}
use neurolithe.App.Migrations.Sealing.{write_meta_ok}
use neurolithe.Base.Text.{text, Text}
use neurolithe.Base.{
  ℕ, ◌<◌, ◌≡◌, refl, ◌∙◌, ◌≢◌, ◌⊎◌, inl, inr, true, ◌&&◌, Option, none, some, List, arith, ltb,
  Bool-cases, ◌==◌, text_key, nat_key,
}

-- Why a store is refused: another model or dimension is recorded, or none is, and the vectors
-- have another dimension.
pub data IsMismatch {R E : Type 0} (kind : StoreKind) (embedding : EmbeddingIdentity)
    (db : Database R E) : Type 0 where
  recorded :
      (model : Text) (dim : ℕ)
      → stored_identity db ≡ some (model, dim)
      → ¬ ((model ≡ embedding.model) × (dim ≡ embedding.dim))
      → IsMismatch kind embedding db
  misfitting :
      (dim : ℕ)
      → stored_identity db ≡ none
      → first_dim (vec_tables kind) db ≡ some dim
      → dim ≢ embedding.dim
      → 0 < count_vectors (vec_tables kind) db
      → IsMismatch kind embedding db

rebuild_meta :
    {R E : Type 0} (kind : StoreKind) (dim : ℕ) (db : Database R E)
    → table_exists (text "meta") db ≡ true
    → table_exists (text "meta") (rebuild kind dim db) ≡ true
rebuild_meta stm dim db here =
    table_exists-create_vec_tables (text "meta") dim stm_vec_tables
      (drop_vec_tables stm_vec_tables db)
      (table_exists-drop_vec_tables (text "meta") stm_vec_tables db refl ∙ here)
rebuild_meta ltm dim db here =
    table_exists-create_vec_tables (text "meta") dim ltm_vec_tables
      (drop_vec_tables ltm_vec_tables db)
      (table_exists-drop_vec_tables (text "meta") ltm_vec_tables db refl ∙ here)

module _ {R E : Type 0} (kind : StoreKind) (embedding : EmbeddingIdentity) where
  abbrev pub IsAccepted : Database R E → Database R E → Type 0
  IsAccepted db d =
      (stored_identity d ≡ some (embedding.model, embedding.dim))
      × (¬ IsMismatch kind embedding db)
      × ((stored_identity db ≡ none) ⊎ (d ≡ db))

  stored_identity_lem :
      (d : Database R E) (m t : Text) (n : ℕ)
      → table_exists (text "meta") d ≡ true
      → lookup (text "embedding_model") d.meta ≡ some m
      → lookup (text "embedding_dim") d.meta ≡ some t
      → parse t ≡ some n
      → stored_identity d ≡ some (m, n)
  unfolding stored_identity get_meta
  stored_identity_lem d m t n here hm ht hn = rw (here, hm, ht, hn) refl

  record_embedding-Ensures :
      (db : Database R E)
      → embedding.dim < usize_limit
      → table_exists (text "meta") db ≡ true
      → Ensures
          (λ _ d. stored_identity d ≡ some (embedding.model, embedding.dim))
          (λ _ _. ⊥)
          (record_embedding embedding db)
  unfolding record_embedding table_exists
  record_embedding-Ensures db small here =
      let one : Database R E = record db {
        meta = insert (text "embedding_provider") embedding.provider db.meta;
      } in
      let two : Database R E = record one {
        meta = insert (text "embedding_model") embedding.model one.meta;
      } in
      let three : Database R E = record two {
        meta = insert (text "embedding_dim") (to_string embedding.dim) two.meta;
      } in
      rw (write_meta_ok (text "embedding_provider") embedding.provider db here) (
        rw (write_meta_ok (text "embedding_model") embedding.model one here) (
          rw (write_meta_ok (text "embedding_dim") (to_string embedding.dim) two here) (
            stored_identity_lem three embedding.model (to_string embedding.dim) embedding.dim here
              (lookup-insert (text "embedding_dim") (text "embedding_model")
                  (to_string embedding.dim) two.meta
                ∙ lookup-insert (text "embedding_model") (text "embedding_model") embedding.model
                    one.meta)
              (lookup-insert (text "embedding_dim") (text "embedding_dim") (to_string embedding.dim)
                two.meta)
              (parse-to_string embedding.dim small))))

  unset_fits :
      (db : Database R E)
      → stored_identity db ≡ none
      → ((dim : ℕ)
          → first_dim (vec_tables kind) db ≡ some dim
          → dim ≢ embedding.dim
          → ¬ (0 < count_vectors (vec_tables kind) db))
      → ¬ IsMismatch kind embedding db
  unset_fits db unset fits (IsMismatch.recorded model dim e n) = cc
  unset_fits db unset fits (IsMismatch.misfitting dim e made n some_vectors) =
      fits dim made n some_vectors

  set_fits :
      (db : Database R E)
      → stored_identity db ≡ some (embedding.model, embedding.dim)
      → ¬ IsMismatch kind embedding db
  set_fits db set (IsMismatch.recorded model dim e n) = n (cc, cc)
  set_fits db set (IsMismatch.misfitting dim e made n some_vectors) = cc

  adopt-IsAccepted :
      (db base : Database R E) (ws : List Warning)
      → stored_identity db ≡ none
      → ¬ IsMismatch kind embedding db
      → embedding.dim < usize_limit
      → table_exists (text "meta") base ≡ true
      → Ensures
          (λ _ d. IsAccepted db d)
          (λ _ d. (d ≡ db) × IsMismatch kind embedding db)
          (continue (record_embedding embedding base) (λ _. return ws))
  adopt-IsAccepted db base ws unset fits small here =
      Ensures-mono (λ _ d. IsAccepted db d) (λ _ _. ⊥) (λ _ d. IsAccepted db d) _ _
        (Ensures-continue (λ _ d. stored_identity d ≡ some (embedding.model, embedding.dim))
          (λ _ _. ⊥) (λ _ d. IsAccepted db d) (record_embedding embedding base) (λ _. return ws)
          (record_embedding-Ensures base small here) (λ _ d p. (p, fits, inl unset)))
        (λ _ _ p. p) (λ _ _ no. absurd no)

  -- A store with no identity, by what its index was made for.
  adopt_for-IsAccepted :
      (db : Database R E) (o : Option ℕ)
      → stored_identity db ≡ none
      → first_dim (vec_tables kind) db ≡ o
      → embedding.dim < usize_limit
      → table_exists (text "meta") db ≡ true
      → Ensures
          (λ _ d. IsAccepted db d)
          (λ _ d. (d ≡ db) × IsMismatch kind embedding db)
          (adopt_for kind embedding
            (count_vectors (vec_tables kind) db)
            (misfit embedding.dim o)
            db)
  adopt_for-IsAccepted db none unset made small here =
      adopt-IsAccepted db db _ unset (unset_fits db unset (λ dim e _ _. cc)) small here
  adopt_for-IsAccepted db (some dim) unset made small here =
      elim (Bool-cases (dim == embedding.dim)) [
        | inl same ↦ rw same (
            adopt-IsAccepted db db _ unset
              (unset_fits db unset (λ d e n _. n (ground (arith, made, e)))) small here)
        | inr other ↦ elim (Bool-cases (ltb 0 (count_vectors (vec_tables kind) db))) [
          | inl full ↦
              rw (other, full)
                (refl, IsMismatch.misfitting dim unset made (ground arith) (ground arith))
          | inr empty ↦
              rw (other, empty)
                (adopt-IsAccepted db (rebuild kind embedding.dim db) _ unset
                  (unset_fits db unset (λ d e n more. ground arith)) small
                  (rebuild_meta kind embedding.dim db here))
        ]
      ]

  check_identity-IsAccepted :
      (db : Database R E) (o : Option (Text × ℕ))
      → stored_identity db ≡ o
      → embedding.dim < usize_limit
      → table_exists (text "meta") db ≡ true
      → Ensures
          (λ _ d. IsAccepted db d)
          (λ _ d. (d ≡ db) × IsMismatch kind embedding db)
          (check_identity kind embedding o db)
  unfolding adopt_embedding
  check_identity-IsAccepted db none unset small here =
      adopt_for-IsAccepted db (first_dim (vec_tables kind) db) unset refl small here
  check_identity-IsAccepted db (some (model, dim)) set small here =
      elim (Bool-cases ((model == embedding.model) && (dim == embedding.dim))) [
        | inl same ↦ rw same (set ∙ agreed same, set_fits db (set ∙ agreed same), inr refl)
        | inr other ↦ rw other (
          refl,
          IsMismatch.recorded model dim set
              (λ h. ground (arith, text_key.same_iff model embedding.model, h.0, h.1)),
        )
      ]
    where
      agreed :
          ((model == embedding.model) && (dim == embedding.dim)) ≡ true
          → ◌≡◌ {A = Option (Text × ℕ)} (some (model, dim)) (some (embedding.model, embedding.dim))
      agreed h = ground (arith, text_key.same_iff model embedding.model)

  -- A store that has the table of metadata is accepted exactly if its vectors fit, and then the
  -- configured model and dimension, which is a usize, are recorded; a store that is refused is left
  -- as it was.
  pub check_embedding-IsAccepted :
      (db : Database R E)
      → embedding.dim < usize_limit
      → table_exists (text "meta") db ≡ true
      → Ensures
          (λ _ d. IsAccepted db d)
          (λ _ d. (d ≡ db) × IsMismatch kind embedding db)
          (check_embedding kind embedding db)
  unfolding check_embedding
  check_embedding-IsAccepted db small here =
      check_identity-IsAccepted db (stored_identity db) refl small here
