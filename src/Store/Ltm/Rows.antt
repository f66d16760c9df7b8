-- ===== src/Store/Ltm/Rows.antt =====
-- src/infrastructure/ltm_repository.rs and the tables of src/infrastructure/schema.rs: the rows,
-- and the parts of statements that work on the rows of one table.
use neurolithe.Base.{
  ℕ, Bool, true, false, not, ◌&&◌, Option, none, some, List, [], ◌∷◌, if◌then◌else◌, ◌==◌, nat_key,
  text_key, filter, any,
}
use neurolithe.Base.Text.{Text}
use neurolithe.Domain.Ltm.{
  TreeNodeKind, spine, grown, inbox, leaf, TreeNode, TreeEdge, Provenance, DocumentBody, Leaf,
}

-- A row of `tree_nodes`.
pub record NodeRow : Type 0 where
  pub id : ℕ
  pub name : Text
  pub summary : Text
  pub kind : TreeNodeKind
  pub permanent : Bool
  pub created_at : ℕ
  pub updated_at : ℕ

-- A row of `doc_bodies`.
pub record BodyRow : Type 0 where
  pub data_id : Text
  pub title : Text
  pub body : Text
  backfilled : Bool

-- `E` is the type of embeddings.
pub record Store (F E : Type 0) : Type 0 where
  pub next_id : ℕ
  pub clock : ℕ
  pub tree_nodes : List NodeRow
  pub tree_edges : List (TreeEdge F)
  pub leaves : List (Leaf F)
  pub vec_ltm : List (ℕ × E)
  pub vec_leaves : List (ℕ × E)
  pub doc_bodies : List BodyRow

abbrev pub is_concept : TreeNodeKind → Bool
is_concept spine = true
is_concept grown = true
is_concept inbox = false
is_concept leaf = false

abbrev pub is_inbox : TreeNodeKind → Bool
is_inbox inbox = true
is_inbox spine = false
is_inbox grown = false
is_inbox leaf = false

abbrev pub is_leaf : TreeNodeKind → Bool
is_leaf leaf = true
is_leaf spine = false
is_leaf grown = false
is_leaf inbox = false

-- `row_to_node`
abbrev pub row_to_node : NodeRow → TreeNode
row_to_node r = record {
  id = some r.id;
  name = r.name;
  summary = r.summary;
  kind = r.kind;
  permanent = r.permanent;
  created_at = some r.created_at;
  updated_at = some r.updated_at;
}

-- Whether `tree_nodes` has the id, which the foreign keys ask.
abbrev pub has_row : ℕ → List NodeRow → Bool
has_row id rows = any (λ r. r.id == id) rows

abbrev pub has_edge : {F : Type 0} → ℕ → ℕ → List (TreeEdge F) → Bool
has_edge p c es = any (λ e. (e.parent_id == p) && (e.child_id == c)) es

abbrev pub first_node : Option NodeRow → Option TreeNode
first_node none = none
first_node (some r) = some (row_to_node r)

abbrev pub row_of : ℕ → ℕ → TreeNode → TreeNodeKind → NodeRow
row_of id clock n kind = record {
  id = id;
  name = n.name;
  summary = n.summary;
  kind = kind;
  permanent = n.permanent;
  created_at = clock;
  updated_at = clock;
}

-- `UPSERT_DOCUMENT_BODY_SQL` and `FILL_DOCUMENT_BODY_SQL`, on the rows: the second writes over a
-- row only if it is backfilled.
abbrev body_row : Text → Text → Text → BodyRow
body_row data_id title body = record {
  data_id = data_id;
  title = title;
  body = body;
  backfilled = false;
}

unfoldable pub write_body : Bool → Text → Text → Text → List BodyRow → List BodyRow
write_body only_backfilled data_id title body [] = body_row data_id title body ∷ []
write_body only_backfilled data_id title body (r ∷ rows) =
    if r.data_id == data_id
    then (if only_backfilled && not r.backfilled then r else body_row data_id title body) ∷ rows
    else r ∷ write_body only_backfilled data_id title body rows

abbrev pub with_body : Text → Option DocumentBody → List BodyRow → List BodyRow
with_body data_id none rows = rows
with_body data_id (some b) rows = write_body false data_id b.title b.body rows

abbrev pub stamped : {F : Type 0} → ℕ → Provenance F → Provenance F
stamped clock p = record p {
  ingested_at = elim p.ingested_at [ none ↦ some clock | some t ↦ some t ];
}

-- The trigger `leaves_ad_doc_body` after the rows in `gone` left `leaves`: a body goes with the
-- last leaf that carries its `data_id`.
unfoldable pub drop_bodies :
    {F : Type 0} → List (Leaf F) → List (Leaf F) → List BodyRow → List BodyRow
drop_bodies gone left rows =
    filter
      (λ r.
        not
          (any (λ l. l.data_id == r.data_id) gone && not (any (λ l. l.data_id == r.data_id) left)))
      rows

abbrev pub vector_of : {E : Type 0} → ℕ → Option E → List (ℕ × E)
vector_of id none = []
vector_of id (some v) = (id, v) ∷ []
