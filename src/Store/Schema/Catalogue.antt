-- ===== src/Store/Schema/Catalogue.antt =====
-- src/infrastructure/schema.rs: what the statements that create tables, columns and indexes leave in
-- the catalogue.
use neurolithe.Store.Schema.{NodeCells, EpisodeCells, TreeCells, LeafCells, BodyCells}
use neurolithe.Store.Memory.Rows.{Layer}
use neurolithe.Base.{
  ℕ, ◌≡◌, refl, ap, ◌∙◌, true, false, ◌||◌, Option, none, some, List, [], ◌∷◌, ◌++◌, arith,
  if◌then◌else◌, ◌==◌, text_key, contains, contains-append, nat_key,
}
use neurolithe.Base.Maps.{lookup-remove, remove, lookup, lookup-insert}
use neurolithe.Store.Schema.{
  when_absent, create_vec_table, drop_vec_tables, create_vec_tables, fts_bodies_table,
  create_body_tables, bodies_table, create_ltm_doc_bodies, alter_table, Database, create_index,
  create_table, add_column_if_missing, table_exists, Table,
}
use neurolithe.Base.Text.{text, Text}
use neurolithe.Base.{
  ℕ, ◌≡◌, refl, ap, ◌∙◌, true, false, ◌||◌, Option, none, some, List, [], ◌∷◌, ◌++◌, arith,
  if◌then◌else◌, ◌==◌, text_key, contains, nat_key,
}

module _ {R E : Type 0} where
  pub table_exists-create_table :
      (j name : Text) (t : Table) (db : Database R E)
      → table_exists j (create_table name t db) ≡ ((j == name) || table_exists j db)
  unfolding table_exists create_table
  table_exists-create_table j name t db =
      ground (arith, lookup-insert name j t db.tables, text_key.same_iff j name)

  pub table_exists-create_index :
      (j name : Text) (db : Database R E)
      → table_exists j (create_index name db) ≡ table_exists j db
  unfolding table_exists create_index
  table_exists-create_index j name db = ground arith

  pub table_exists-add_column_if_missing :
      (j table column : Text) (db : Database R E)
      → table_exists j (add_column_if_missing table column db) ≡ table_exists j db
  unfolding table_exists add_column_if_missing
  table_exists-add_column_if_missing j table column db = exists_after (lookup table db.tables) refl
    where
      exists_after :
          (o : Option Table)
          → lookup table db.tables ≡ o
          → table_exists j (add_column_if_missing table column db) ≡ table_exists j db
      exists_after none e = rw e refl
      exists_after (some t) e = rw e (
          ground (
            arith,
            e,
            lookup-insert table j (record t { columns = t.columns ++ (column ∷ []) }) db.tables,
            text_key.same_iff j table,
          ))

-- Only the catalogue differs: no row, no metadata and no version.
abbrev pub SameRows : {R E : Type 0} → Database R E → Database R E → Type 0
SameRows d db = d ≡ record db { tables = d.tables; indexes = d.indexes }

module _ {R E : Type 0} where
  pub SameRows-trans : (a b c : Database R E) → SameRows b a → SameRows c b → SameRows c a
  SameRows-trans a b c h k =
      k ∙ ap (λ (x : Database _ _). record x { tables = c.tables; indexes = c.indexes }) h

  pub create_table-SameRows :
      (name : Text) (t : Table) (db : Database R E) → SameRows (create_table name t db) db
  unfolding create_table
  create_table-SameRows name t db = ground arith

  pub create_index-SameRows : (name : Text) (db : Database R E) → SameRows (create_index name db) db
  unfolding create_index
  create_index-SameRows name db = ground arith

  pub alter_table-SameRows :
      (table column : Text) (o : Option Table) (db : Database R E)
      → SameRows (alter_table table column o db) db
  alter_table-SameRows table column none db = refl
  alter_table-SameRows table column (some t) db = ground arith

  pub create_ltm_doc_bodies-SameRows : (db : Database R E) → SameRows (create_ltm_doc_bodies db) db
  unfolding create_ltm_doc_bodies add_column_if_missing
  create_ltm_doc_bodies-SameRows db =
      let one = create_table (text "doc_bodies") bodies_table db in
      let two = create_body_tables db in
      SameRows-trans db two (create_ltm_doc_bodies db)
        (SameRows-trans db one two (create_table-SameRows (text "doc_bodies") bodies_table db)
          (create_table-SameRows (text "fts_doc_bodies") fts_bodies_table one))
        (alter_table-SameRows (text "doc_bodies") (text "backfilled")
          (lookup (text "doc_bodies") two.tables) two)

  pub table_exists-create_ltm_doc_bodies :
      (j : Text) (db : Database R E)
      → table_exists j db ≡ true
      → table_exists j (create_ltm_doc_bodies db) ≡ true
  unfolding create_ltm_doc_bodies
  table_exists-create_ltm_doc_bodies j db h =
      simp (table_exists-add_column_if_missing, table_exists-create_table, h) (ground arith)

-- Dropping and creating the tables of vectors keeps the others.
module _ {R E : Type 0} where
  pub table_exists-drop_vec_tables :
      (j : Text) (ts : List Text) (db : Database R E)
      → contains ts j ≡ false
      → table_exists j (drop_vec_tables ts db) ≡ table_exists j db
  unfolding drop_vec_tables table_exists
  table_exists-drop_vec_tables j [] db h = refl
  table_exists-drop_vec_tables j (t ∷ ts) db h =
      let dropped = record db { tables = remove t db.tables; vectors = remove t db.vectors } in
      table_exists-drop_vec_tables j ts dropped (ground arith)
      ∙ ap (λ (o : Option Table). when_absent o false true) (lookup-remove t j db.tables ∙ other)
    where
      other : (if j == t then none else lookup j db.tables) ≡ lookup j db.tables
      other = ground (arith, text_key.same_iff t j, text_key.same_iff j t)

  pub table_exists-create_vec_tables :
      (j : Text) (dim : ℕ) (ts : List Text) (db : Database R E)
      → table_exists j db ≡ true
      → table_exists j (create_vec_tables dim ts db) ≡ true
  unfolding create_vec_tables create_vec_table
  table_exists-create_vec_tables j dim [] db h = h
  table_exists-create_vec_tables j dim (t ∷ ts) db h =
      table_exists-create_vec_tables j dim ts (create_vec_table dim t db)
        (table_exists-create_table j t _ db ∙ rw h (ground arith))

-- The rows that the migrations read and write.
abbrev pub Rows : Type 0 → Type 0
Rows R =
    List (NodeCells R)
    × List (EpisodeCells R)
    × List Layer
    × List TreeCells
    × List LeafCells
    × List BodyCells

unfoldable pub rows : {R E : Type 0} → Database R E → Rows R
rows db = (db.nodes, db.episodes, db.ccl_registry, db.tree_nodes, db.leaves, db.doc_bodies)

module _ {R E : Type 0} where
  rows-SameRows : (d db : Database R E) → SameRows d db → rows d ≡ rows db
  unfolding rows
  rows-SameRows d db h = ap (λ (x : Database R E). rows x) h

  pub rows-create_table :
      (name : Text) (t : Table) (db : Database R E) → rows (create_table name t db) ≡ rows db
  rows-create_table name t db = rows-SameRows _ db (create_table-SameRows name t db)

  pub rows-create_index : (name : Text) (db : Database R E) → rows (create_index name db) ≡ rows db
  rows-create_index name db = rows-SameRows _ db (create_index-SameRows name db)

  pub rows-add_column_if_missing :
      (table column : Text) (db : Database R E)
      → rows (add_column_if_missing table column db) ≡ rows db
  unfolding add_column_if_missing
  rows-add_column_if_missing table column db =
      rows-SameRows _ db (alter_table-SameRows table column (lookup table db.tables) db)

  pub rows-create_ltm_doc_bodies : (db : Database R E) → rows (create_ltm_doc_bodies db) ≡ rows db
  rows-create_ltm_doc_bodies db = rows-SameRows _ db (create_ltm_doc_bodies-SameRows db)

  pub contains-create_index :
      (j name : Text) (db : Database R E)
      → contains (create_index name db).indexes j ≡ (contains db.indexes j || name == j)
  unfolding create_index
  contains-create_index j name db =
      ground (arith, contains-append db.indexes (name ∷ []) j, text_key.same_iff name j)
