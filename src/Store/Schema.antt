-- ===== src/Store/Schema.antt =====
-- src/infrastructure/schema.rs and the helpers of src/application/migrations.rs that read the
-- catalogue: a database file as its schema version, its tables with their statements, its indexes
-- and the rows that a migration reads or writes. The triggers and the tables that SQLite's
-- extensions keep for themselves are left out.
pub mod Tables
pub mod Catalogue
use neurolithe.Base.Int.{ℤ}
use neurolithe.Base.{
  ℕ, Bool, true, false, not, ◌&&◌, Option, none, some, List, [], ◌∷◌, ◌++◌, if◌then◌else◌, ◌==◌,
  length, is_empty, drop, contains, nat_key, text_key,
}
use neurolithe.Base.Decimal.{to_string, parse}
use neurolithe.Base.Maps.{Map, lookup, insert, remove}
use neurolithe.Base.Outcome.{◌>>◌, ok, err, Action, modify}
use neurolithe.Base.Text.{Text, text, join}
use neurolithe.Store.Memory.Rows.{Layer}

pub data SqlError : Type 0 where
  no_such_table : Text → SqlError
  malformed_json : SqlError

-- The columns of `nodes` that a migration reads or writes, and `rest` for the others.
pub record NodeCells (R : Type 0) : Type 0 where
  pub id : ℕ
  pub tenant_id : Text
  pub status : Text
  pub payload : Text
  pub rest : R

pub record EpisodeCells (R : Type 0) : Type 0 where
  pub tenant_id : Text
  pub rest : R

pub record TreeCells : Type 0 where
  pub id : ℕ
  pub name : Text
  pub summary : Text

pub record LeafCells : Type 0 where
  pub tree_node_id : ℕ
  pub data_id : Text

pub record BodyCells : Type 0 where
  pub data_id : Text
  pub title : Text
  pub body : Text
  pub backfilled : Bool

-- A row of `sqlite_master`: the statement of the table, and its columns.
pub record Table : Type 0 where
  pub sql : Text
  pub columns : List Text

pub record Database (R E : Type 0) : Type 0 where
  pub user_version : ℤ
  pub tables : Map Text Table
  pub indexes : List Text
  pub meta : Map Text Text
  pub nodes : List (NodeCells R)
  pub episodes : List (EpisodeCells R)
  pub ccl_registry : List Layer
  pub vectors : Map Text (List (ℕ × E))
  pub tree_nodes : List TreeCells
  pub leaves : List LeafCells
  pub doc_bodies : List BodyCells

-- SQLite's functions on JSON: `json_extract` of a field has a text, or no text, or fails.
pub record Json : Type 0 where
  pub json_valid : Text → Bool
  pub extract : Text → Text → Option (Option Text)

-- `CREATE TABLE IF NOT EXISTS` of an ordinary table; no code reads its statement.
abbrev pub plain : Text → List Text → Table
plain name columns = record {
  sql = text "CREATE TABLE " ++ (name ++ (text " (" ++ (join (text ", ") columns ++ text ")")));
  columns = columns;
}

abbrev pub vec_prefix : Text → Text
vec_prefix table =
    text "CREATE VIRTUAL TABLE "
    ++ (table ++ text " USING vec0( node_id INTEGER PRIMARY KEY, embedding ")

-- The statement of `create_vec_table`.
abbrev pub vec_sql : Text → ℕ → Text
vec_sql table dim = vec_prefix table ++ (text "float[" ++ (to_string dim ++ text "] )"))

abbrev starts_with : Text → Text → Bool
starts_with [] s = true
starts_with (p ∷ ps) [] = false
starts_with (p ∷ ps) (c ∷ cs) = (p == c) && starts_with ps cs

-- What follows the first occurrence of `p` in `s`: `str::find` and a slice.
unfoldable pub after : Text → Text → Option Text
after p [] = none
after p (c ∷ cs) =
    let rest = after p cs in
    if starts_with p (c ∷ cs) then some (drop (length p) (c ∷ cs)) else rest

-- What stands in front of the first `]`.
unfoldable pub before_bracket : Text → Option Text
before_bracket [] = none
before_bracket (c ∷ cs) =
    let rest = before_bracket cs in
    if c == 93 then some [] else elim rest [ none ↦ none | some t ↦ some (c ∷ t) ]

-- The parsing of `vec_table_dim`; a numeral of `create_vec_table` has no space to trim.
unfoldable pub sql_dim : Text → Option ℕ
unfolding after before_bracket
sql_dim sql = elim (after (text "float[") sql) [
  | none ↦ none
  | some rest ↦ elim (before_bracket rest) [ none ↦ none | some t ↦ parse t ]
]

abbrev pub when_absent {ℓ κ} : {A : Type ℓ} {B : Type κ} → Option A → B → B → B
when_absent none new old = new
when_absent (some _) new old = old

abbrev pub Sql : Type 0 → Type 0 → Type 0 → Type 0
Sql R E A = Action (Database R E) SqlError A

abbrev pub bodies_table : Table
bodies_table =
    plain (text "doc_bodies")
      (text "id" ∷ text "data_id" ∷ text "title" ∷ text "body" ∷ text "backfilled" ∷ [])

abbrev pub fts_bodies_table : Table
fts_bodies_table = plain (text "fts_doc_bodies") (text "title" ∷ text "body" ∷ [])

module _ {R E : Type 0} where
  unfoldable pub table_exists : Text → Database R E → Bool
  table_exists name db = when_absent (lookup name db.tables) false true

  unfoldable pub has_user_tables : Database R E → Bool
  has_user_tables db = not (is_empty db.tables)

  -- A statement on a table that is not there is an error.
  abbrev pub on_table : Text → Sql R E (Unit {0})
  on_table name db = if table_exists name db then (ok tt, db) else (err (no_such_table name), db)

  unfoldable pub create_table : Text → Table → Database R E → Database R E
  create_table name t db =
      when_absent (lookup name db.tables) (record db { tables = insert name t db.tables }) db

  unfoldable pub create_index : Text → Database R E → Database R E
  create_index name db =
      if contains db.indexes name then db else record db { indexes = db.indexes ++ (name ∷ []) }

  -- `ALTER TABLE .. ADD COLUMN`
  abbrev pub alter_table : Text → Text → Option Table → Database R E → Database R E
  alter_table table column none db = db
  alter_table table column (some t) db = if contains t.columns column then db else record db {
    tables = insert table (record t { columns = t.columns ++ (column ∷ []) }) db.tables;
  }

  unfoldable pub add_column_if_missing : Text → Text → Database R E → Database R E
  add_column_if_missing table column db = alter_table table column (lookup table db.tables) db

  unfoldable pub create_vec_table : ℕ → Text → Database R E → Database R E
  create_vec_table dim table db =
      create_table table
        (record { sql = vec_sql table dim; columns = text "node_id" ∷ text "embedding" ∷ [] }) db

  unfoldable pub create_vec_tables : ℕ → List Text → Database R E → Database R E
  create_vec_tables dim [] db = db
  create_vec_tables dim (t ∷ ts) db = create_vec_tables dim ts (create_vec_table dim t db)

  unfoldable pub drop_vec_tables : List Text → Database R E → Database R E
  drop_vec_tables [] db = db
  drop_vec_tables (t ∷ ts) db =
      drop_vec_tables ts (record db { tables = remove t db.tables; vectors = remove t db.vectors })

  unfoldable pub vec_table_dim : Text → Database R E → Option ℕ
  unfolding sql_dim
  vec_table_dim table db = elim (lookup table db.tables) [ none ↦ none | some t ↦ sql_dim t.sql ]

  abbrev pub rows_of : Text → Database R E → List (ℕ × E)
  rows_of table db = elim (lookup table db.vectors) [ none ↦ [] | some rows ↦ rows ]

  unfoldable pub get_meta : Text → Database R E → Option Text
  get_meta key db = if table_exists (text "meta") db then lookup key db.meta else none

  unfoldable pub set_meta : Text → Text → Sql R E (Unit {0})
  set_meta key value = do
    on_table (text "meta")
    modify (λ db. record db { meta = insert key value db.meta })

  unfoldable pub create_stm_edge_indexes : Database R E → Database R E
  create_stm_edge_indexes db =
      create_index (text "idx_edges_target") (create_index (text "idx_edges_source") db)

  abbrev pub create_body_tables : Database R E → Database R E
  create_body_tables db =
      create_table (text "fts_doc_bodies") fts_bodies_table
        (create_table (text "doc_bodies") bodies_table db)

  unfoldable pub create_ltm_doc_bodies : Database R E → Database R E
  create_ltm_doc_bodies db =
      add_column_if_missing (text "doc_bodies") (text "backfilled") (create_body_tables db)
