-- ===== src/App/Migrations/Stages.antt =====
-- The migrations of src/application/migrations.rs, one by one: what each leaves of the rows, the
-- tables and the indexes.
use neurolithe.Base.{
  ℕ, compare, ◌≡◌, refl, sym, ap, ◌∙◌, inl, inr, Bool, true, false, not, ◌&&◌, ◌||◌, Option, none,
  some, List, [], ◌∷◌, ◌++◌, arith, Bool-cases, Option-cases, ◌==◌, text_key, length, filter, any,
  find, All, contains, nat_key,
}
use neurolithe.Base.Maps.{insert}
use neurolithe.Base.Outcome.{ok, err}
use neurolithe.Store.Schema.{malformed_json, rows_of, SqlError}
use neurolithe.Base.{
  ℕ, ◌≡◌, refl, ap, ◌∙◌, inl, inr, Bool, true, false, not, ◌||◌, List, [], ◌∷◌, arith, Bool-cases,
  Option-cases, ◌==◌, length, filter, any, find, All, contains, nat_key, text_key,
}
use neurolithe.Base.Text.{Text, text}
use neurolithe.Base.Outcome.{Ensures, Ensures-continue}
use neurolithe.Base.Sort.{any-perm, sort_by, sort_by-perm}
use neurolithe.Store.Schema.{
  Database, Json, NodeCells, TreeCells, LeafCells, BodyCells, table_exists, create_vec_table,
  create_ltm_doc_bodies, create_stm_edge_indexes, create_vec_tables,
}
use neurolithe.Store.Schema.Tables.{
  stale_ids, purge_vectors, create_stm_tables, create_stm_ledgers, init_schema, init_ltm_schema,
}
use neurolithe.Store.Schema.Catalogue.{
  rows, rows-create_table, rows-create_index, rows-add_column_if_missing,
  rows-create_ltm_doc_bodies, contains-create_index, table_exists-create_table,
  table_exists-create_index, table_exists-add_column_if_missing,
}
use neurolithe.App.Migrations.{
  stm_v1_base, stm_v2_single_tenant, stm_v3_indexes, ensure_stm_data_id_index, ltm_v1_base,
  ltm_v2_document_bodies, merge_tenants, create_meta_table, backfill,
}

-- The tables that the first migration of short-term memory makes.
abbrev pub stm_tables : List Text
stm_tables =
    text "ccl_registry"
    ∷ text "episodes"
    ∷ text "nodes"
    ∷ text "edges"
    ∷ text "vec_nodes"
    ∷ text "fts_nodes"
    ∷ text "processed_commands"
    ∷ text "meta"
    ∷ []

find-any : (p : TreeCells → Bool) (xs : List TreeCells) → find p xs ≡ none → any p xs ≡ false
find-any p [] h = refl
find-any p (x ∷ xs) h = ground (arith, find-any p xs)

any-append {ℓ} :
    {A : Type ℓ} (p : A → Bool) (xs ys : List A) → any p (xs ++ ys) ≡ (any p xs || any p ys)
any-append p [] ys = refl
any-append p (x ∷ xs) ys = ground (arith, any-append p xs ys)

contains_or : (b c : Bool) → c ≡ true → (b || c) ≡ true
contains_or b c h = ground arith

none_malformed :
    {R : Type 0} (p : NodeCells R → Bool) (ns : List (NodeCells R))
    → any p ns ≡ false
    → (length (filter p ns) == 0) ≡ true
none_malformed p [] h = refl
none_malformed p (n ∷ ns) h = ground (arith, none_malformed p ns)

backfill_grows :
    (x : Text) (nodes : List TreeCells) (ls : List LeafCells) (bs : List BodyCells)
    → any (λ b. b.data_id == x) bs ≡ true
    → any (λ b. b.data_id == x) (backfill nodes ls bs) ≡ true
unfolding backfill
backfill_grows x nodes [] bs h = h
backfill_grows x nodes (l ∷ ls) bs h =
    elim (Option-cases (find (λ n. n.id == l.tree_node_id) nodes)) [
      | inl missing ↦ rw missing (backfill_grows x nodes ls bs h)
      | inr (n, found) ↦ elim (Bool-cases (any (λ b. b.data_id == l.data_id) bs)) [
        | inl there ↦ rw (found, there) (backfill_grows x nodes ls bs h)
        | inr new ↦ rw (found, new) (backfill_grows x nodes ls _ (any-append _ bs _ ∙ rw h refl))
      ]
    ]

-- Each document of a leaf whose node is there gets a body.
pub backfill_covers :
    (x : Text) (nodes : List TreeCells) (ls : List LeafCells) (bs : List BodyCells)
    → any (λ l. (l.data_id == x) && any (λ n. n.id == l.tree_node_id) nodes) ls ≡ true
    → any (λ b. b.data_id == x) (backfill nodes ls bs) ≡ true
unfolding backfill
backfill_covers x nodes [] bs h = absurd (ground arith)
backfill_covers x nodes (l ∷ ls) bs h =
    elim (Bool-cases ((l.data_id == x) && any (λ n. n.id == l.tree_node_id) nodes)) [
      | inr other ↦ backfill_covers x nodes ls _ (ground (arith, h, other))
      | inl this ↦ elim (Option-cases (find (λ n. n.id == l.tree_node_id) nodes)) [
        | inl missing ↦
            absurd (ground (arith, find-any (λ n. n.id == l.tree_node_id) nodes missing, this))
        | inr (n, found) ↦ elim (Bool-cases (any (λ b. b.data_id == l.data_id) bs)) [
          | inl there ↦
              rw (found, there)
                (backfill_grows x nodes ls bs (
                  let e : l.data_id ≡ x = ground (arith, this, text_key.same_iff l.data_id x) in
                  rw (sym e) there))
          | inr new ↦
              rw (found, new)
                (backfill_grows x nodes ls _ (
                  let made : BodyCells = record {
                    data_id = l.data_id;
                    title = n.name;
                    body = n.summary;
                    backfilled = true;
                  } in
                  ground (arith, any-append (λ b. b.data_id == x) bs (made ∷ []), this)))
        ]
      ]
    ]

module _ {R E : Type 0} where
  rows-vectors : (v : _) (db : Database R E) → rows (record db { vectors = v }) ≡ rows db
  unfolding rows
  rows-vectors v db = refl

  table_exists-vectors :
      (j : Text) (v : _) (db : Database R E)
      → table_exists j (record db { vectors = v }) ≡ table_exists j db
  unfolding table_exists
  table_exists-vectors j v db = refl

  base_rows :
      (dim : ℕ) (db : Database R E) (v : _)
      → rows (
          create_meta_table
            (create_stm_ledgers (record (create_stm_tables dim db) { vectors = v })))
        ≡ rows db
  unfolding create_meta_table create_stm_ledgers create_stm_tables create_vec_table
  base_rows dim db v =
      simp (rows-create_table, rows-create_index, rows-add_column_if_missing, rows-vectors) refl

  base_tables :
      (dim : ℕ) (db : Database R E) (v : _)
      → All
          (λ t.
            table_exists t (
              create_meta_table
                (create_stm_ledgers (record (create_stm_tables dim db) { vectors = v })))
            ≡ true)
          stm_tables
  unfolding create_meta_table create_stm_ledgers create_stm_tables create_vec_table
  base_tables dim db v =
      simp
        (
          table_exists-create_table, table_exists-create_index, table_exists-add_column_if_missing,
          table_exists-vectors,
        )
        (refl, (refl, (refl, (refl, (refl, (refl, (refl, (refl, tt))))))))

  purge_vectors-Ensures :
      (json : Json) (db : Database R E)
      → Ensures
          (λ _ d. (v : _) × (d ≡ record db { vectors = v }))
          (λ _ _. Unit {0})
          (purge_vectors json db)
  unfolding purge_vectors
  purge_vectors-Ensures json db = by_ids (stale_ids json db.nodes)
    where
      by_ids :
          (o : Option (List ℕ))
          → Ensures {S = Database R E} {E = SqlError} {A = Unit {0}}
              (λ _ d. (v : _) × (d ≡ record db { vectors = v }))
              (λ _ _. Unit {0})
              (elim o [
                | none ↦ (err malformed_json, db)
                | some ids ↦ (
                  ok tt,
                  record db {
                    vectors =
                        insert
                          (text "vec_nodes")
                          (filter (λ v. not (contains ids v.0)) (rows_of (text "vec_nodes") db))
                          db.vectors;
                  },
                )
              ])
      by_ids none = tt
      by_ids (some ids) = (_, refl)

  abbrev pub IsBase : Database R E → Database R E → Type 0
  IsBase b d = (rows d ≡ rows b) × All (λ t. table_exists t d ≡ true) stm_tables

  pub stm_v1_base-IsBase :
      (json : Json) (dim : ℕ) (db : Database R E)
      → Ensures (λ _ d. IsBase db d) (λ _ _. Unit {0}) (stm_v1_base json dim db)
  unfolding stm_v1_base init_schema
  stm_v1_base-IsBase json dim db =
      Ensures-continue
        (λ _ d.
          rows (create_meta_table d) ≡ rows db
          × All (λ t. table_exists t (create_meta_table d) ≡ true) stm_tables)
        (λ _ _. Unit {0}) (λ _ d. IsBase db d) (init_schema json dim db) _
        (Ensures-continue (λ _ d. (v : _) × (d ≡ record (create_stm_tables dim db) { vectors = v }))
          (λ _ _. Unit {0}) _ (purge_vectors json (create_stm_tables dim db)) _
          (purge_vectors-Ensures json (create_stm_tables dim db))
          (λ _ d p. rw p.1 (base_rows dim db p.0, base_tables dim db p.0)))
        (λ _ d p. p)

  pub stm_v2_single_tenant-merge_tenants :
      (dim : ℕ) (db : Database R E)
      → Ensures (λ _ d. d ≡ merge_tenants db) (λ _ _. Unit {0}) (stm_v2_single_tenant dim db)
  unfolding stm_v2_single_tenant
  stm_v2_single_tenant-merge_tenants dim db = elim (Bool-cases (table_exists (text "nodes") db)) [
    | inr gone ↦ rw gone tt
    | inl a ↦ elim (Bool-cases (table_exists (text "episodes") db)) [
      | inr gone ↦ rw (a, gone) tt
      | inl b ↦ elim (Bool-cases (table_exists (text "ccl_registry") db)) [
        | inr gone ↦ rw (a, b, gone) tt
        | inl c ↦ rw (a, b, c) refl
      ]
    ]
  ]

  -- The rows and tables stay, and the indexes are there; that of documents only if every payload
  -- is valid JSON.
  abbrev pub IsIndexed : Json → Database R E → Database R E → Type 0
  IsIndexed json b d =
      (rows d ≡ rows b)
      × ((t : Text) → table_exists t d ≡ table_exists t b)
      × (contains d.indexes (text "idx_edges_source") ≡ true)
      × (contains d.indexes (text "idx_edges_target") ≡ true)
      × (any (λ n. not (json.json_valid n.payload)) b.nodes ≡ false
          → contains d.indexes (text "idx_nodes_data_id") ≡ true)

  pub ensure-IsIndexed :
      (json : Json) (b db : Database R E)
      → rows db ≡ rows b
      → ((t : Text) → table_exists t db ≡ table_exists t b)
      → contains db.indexes (text "idx_edges_source") ≡ true
      → contains db.indexes (text "idx_edges_target") ≡ true
      → Ensures (λ _ d. IsIndexed json b d) (λ _ _. Unit {0}) (ensure_stm_data_id_index json db)
  unfolding ensure_stm_data_id_index rows
  ensure-IsIndexed json b db same kept source target =
      elim (Bool-cases (table_exists (text "nodes") db)) [
        | inr gone ↦ rw gone tt
        | inl here ↦
            elim (Bool-cases
              (length (filter (λ n. not (json.json_valid n.payload)) db.nodes) == 0)) [
                | inl valid ↦
                    rw (here, valid)
                      (
                        rows-create_index (text "idx_nodes_data_id") db ∙ same,
                        λ t. table_exists-create_index t (text "idx_nodes_data_id") db ∙ kept t,
                        contains-create_index (text "idx_edges_source") (text "idx_nodes_data_id")
                              db
                            ∙ rw source refl,
                        contains-create_index (text "idx_edges_target") (text "idx_nodes_data_id")
                              db
                            ∙ rw target refl,
                        λ _.
                            contains-create_index (text "idx_nodes_data_id")
                              (text "idx_nodes_data_id") db
                            ∙ contains_or _ true refl,
                      )
                | inr bad ↦
                    rw (here, bad)
                      (
                        same,
                        kept,
                        source,
                        target,
                        λ clean.
                            let e : db.nodes ≡ b.nodes = ap (λ (x : _). x.0) same in
                            let none_bad =
                              none_malformed (λ n. not (json.json_valid n.payload)) db.nodes
                                (rw e clean) in
                            absurd (cc (none_bad, bad)),
                      )
              ]
      ]

  pub stm_v3_indexes-IsIndexed :
      (json : Json) (dim : ℕ) (db : Database R E)
      → Ensures (λ _ d. IsIndexed json db d) (λ _ _. Unit {0}) (stm_v3_indexes json dim db)
  unfolding stm_v3_indexes create_stm_edge_indexes
  stm_v3_indexes-IsIndexed json dim db = elim (Bool-cases (table_exists (text "edges") db)) [
    | inr gone ↦ rw gone tt
    | inl here ↦ rw here (
        ensure-IsIndexed json db (create_stm_edge_indexes db) (simp (rows-create_index) refl)
          (λ t. simp (table_exists-create_index) refl) (simp (contains-create_index) (ground arith))
          (simp (contains-create_index) (ground arith)))
  ]

  pub ltm_v1_base-rows :
      (dim : ℕ) (db : Database R E)
      → Ensures (λ _ d. rows d ≡ rows db) (λ _ _. Unit {0}) (ltm_v1_base dim db)
  unfolding ltm_v1_base init_ltm_schema create_meta_table create_vec_tables create_vec_table
  ltm_v1_base-rows dim db =
      simp (rows-create_ltm_doc_bodies, rows-create_table, rows-create_index) refl

  -- The nodes and leaves stay, and each leaf whose node is there has a body.
  abbrev pub IsCovered : Database R E → Database R E → Type 0
  IsCovered b d =
      (d.tree_nodes ≡ b.tree_nodes)
      × (d.leaves ≡ b.leaves)
      × (table_exists (text "leaves") d ≡ true)
      × (table_exists (text "doc_bodies") d ≡ true)
      × ((x : Text)
          → any (λ l. (l.data_id == x) && any (λ n. n.id == l.tree_node_id) b.tree_nodes) b.leaves
            ≡ true
          → any (λ y. y.data_id == x) d.doc_bodies ≡ true)

  doc_bodies_there :
      (db : Database R E) → table_exists (text "doc_bodies") (create_ltm_doc_bodies db) ≡ true
  unfolding create_ltm_doc_bodies
  doc_bodies_there db = simp (table_exists-add_column_if_missing, table_exists-create_table) refl

  pub ltm_v2_document_bodies-IsCovered :
      (dim : ℕ) (b db : Database R E)
      → rows db ≡ rows b
      → Ensures (λ _ d. IsCovered b d) (λ _ _. Unit {0}) (ltm_v2_document_bodies dim db)
  unfolding ltm_v2_document_bodies table_exists rows
  ltm_v2_document_bodies-IsCovered dim b db same =
      let made = create_ltm_doc_bodies db in
      let kept = rows-create_ltm_doc_bodies db ∙ same in
      let nodes : made.tree_nodes ≡ b.tree_nodes = ap (λ (x : _). x.3) kept in
      let leaves : made.leaves ≡ b.leaves = ap (λ (x : _). x.4) kept in
      elim (Bool-cases (table_exists (text "leaves") made)) [
        | inr gone ↦ rw gone tt
        | inl here ↦ elim (Bool-cases (table_exists (text "tree_nodes") made)) [
          | inr gone ↦ rw (here, gone) tt
          | inl there ↦
              rw (here, there)
                (
                  nodes,
                  leaves,
                  here,
                  doc_bodies_there db,
                  λ x h.
                      backfill_covers x made.tree_nodes
                        (sort_by (λ a b. compare a.tree_node_id b.tree_node_id) made.leaves)
                        made.doc_bodies
                        (any-perm _ (
                            sort_by-perm (λ a b. compare a.tree_node_id b.tree_node_id) made.leaves)
                          ∙ rw (nodes, leaves) h),
                )
        ]
      ]
