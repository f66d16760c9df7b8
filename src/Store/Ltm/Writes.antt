-- ===== src/Store/Ltm/Writes.antt =====
-- src/infrastructure/ltm_repository.rs: the statements and transactions that write.
use neurolithe.Base.{
  ℕ, suc, true, false, not, ◌&&◌, ◌||◌, Option, none, some, List, [], ◌∷◌, ◌++◌, map, if◌then◌else◌,
  ◌==◌, nat_key, text_key, filter,
}
use neurolithe.Base.Text.{Text}
use neurolithe.Domain.Ltm.{leaf, TreeNode, TreeEdge, Provenance, DocumentBody}
use neurolithe.Store.Ltm.Rows.{
  Store, is_leaf, has_row, has_edge, row_of, write_body, with_body, stamped, vector_of, drop_bodies,
}

module _ {F E : Type 0} where
  -- `create_node`: the row, and its vector in the index of its kind.
  unfoldable pub create_node : TreeNode → Option E → Store F E → Store F E × ℕ
  create_node n embedding s =
      let id = s.next_id in
      let vector = vector_of id embedding in
      (
        record s {
          next_id = suc id;
          tree_nodes = s.tree_nodes ++ (row_of id s.clock n n.kind ∷ []);
          vec_leaves = if is_leaf n.kind then s.vec_leaves ++ vector else s.vec_leaves;
          vec_ltm = if is_leaf n.kind then s.vec_ltm else s.vec_ltm ++ vector;
        },
        id,
      )

  -- `add_edge`: INSERT OR IGNORE, which still enforces the foreign keys.
  unfoldable pub add_edge : TreeEdge F → Store F E → Option (Store F E)
  add_edge e s =
      if has_row e.parent_id s.tree_nodes && has_row e.child_id s.tree_nodes
      then some (
          if has_edge e.parent_id e.child_id s.tree_edges
          then s
          else record s { tree_edges = s.tree_edges ++ (e ∷ []) })
      else none

  unfoldable pub remove_edge : ℕ → ℕ → Store F E → Store F E
  remove_edge p c s = record s {
    tree_edges = filter (λ e. not ((e.parent_id == p) && (e.child_id == c))) s.tree_edges;
  }

  unfoldable put_document_body : Text → Text → Text → Store F E → Store F E
  put_document_body data_id title body s = record s {
    doc_bodies = write_body false data_id title body s.doc_bodies;
  }

  unfoldable fill_document_body : Text → Text → Text → Store F E → Store F E
  fill_document_body data_id title body s = record s {
    doc_bodies = write_body true data_id title body s.doc_bodies;
  }

  unfoldable pub delete_document_body : Text → Store F E → Store F E
  delete_document_body data_id s = record s {
    doc_bodies = filter (λ r. not (r.data_id == data_id)) s.doc_bodies;
  }

  unfoldable pub update_summary : ℕ → Text → Store F E → Store F E
  update_summary id summary s = record s {
    tree_nodes =
        map (λ r. if r.id == id then record r { summary = summary; updated_at = s.clock } else r)
          s.tree_nodes;
  }

  -- `set_concept_embedding`: delete, then insert.
  unfoldable pub set_concept_embedding : ℕ → E → Store F E → Store F E
  set_concept_embedding id embedding s = record s {
    vec_ltm = filter (λ v. not (v.0 == id)) s.vec_ltm ++ ((id, embedding) ∷ []);
  }

  -- What `create_leaf_node` commits.
  unfoldable pub filed :
      TreeNode → E → Text → Provenance F → ℕ → F → Option DocumentBody → Store F E → Store F E
  filed n embedding data_id provenance parent_id weight body s =
      let id = s.next_id in
      record s {
        next_id = suc id;
        tree_nodes = s.tree_nodes ++ (row_of id s.clock n leaf ∷ []);
        vec_leaves = s.vec_leaves ++ ((id, embedding) ∷ []);
        leaves =
            s.leaves
            ++ (record {
              tree_node_id = id;
              data_id = data_id;
              provenance = stamped s.clock provenance;
            }
                ∷ []);
        tree_edges =
            s.tree_edges ++ (record { parent_id = parent_id; child_id = id; weight = weight } ∷ []);
        doc_bodies = with_body data_id body s.doc_bodies;
      }

  -- `create_leaf_node`, one transaction: it fails as a whole if the parent is not there.
  unfoldable pub create_leaf_node :
      TreeNode
      → E
      → Text
      → Provenance F
      → ℕ
      → F
      → Option DocumentBody
      → Store F E
      → Option (Store F E × ℕ)
  create_leaf_node n embedding data_id provenance parent_id weight body s =
      if has_row parent_id (s.tree_nodes ++ (row_of s.next_id s.clock n leaf ∷ []))
      then some (filed n embedding data_id provenance parent_id weight body s, s.next_id)
      else none

  unfoldable pub set_summaries : List (ℕ × Text) → Store F E → Store F E
  set_summaries [] s = s
  set_summaries ((id, summary) ∷ rest) s = set_summaries rest (update_summary id summary s)

  -- `delete_node_with_summaries`, one transaction.
  unfoldable pub delete_node_with_summaries : ℕ → List (ℕ × Text) → Store F E → Store F E
  delete_node_with_summaries id summaries s =
      let left = filter (λ l. not (l.tree_node_id == id)) s.leaves in
      let gone = filter (λ l. l.tree_node_id == id) s.leaves in
      set_summaries summaries (record s {
        tree_edges = filter (λ e. not ((e.parent_id == id) || (e.child_id == id))) s.tree_edges;
        vec_ltm = filter (λ v. not (v.0 == id)) s.vec_ltm;
        vec_leaves = filter (λ v. not (v.0 == id)) s.vec_leaves;
        leaves = left;
        doc_bodies = drop_bodies gone left s.doc_bodies;
        tree_nodes = filter (λ r. not (r.id == id)) s.tree_nodes;
      })

  unfoldable delete_node : ℕ → Store F E → Store F E
  delete_node id s = delete_node_with_summaries id [] s

  -- `reset_store`: AUTOINCREMENT goes on counting.
  unfoldable pub reset_store : Store F E → Store F E
  reset_store s = record s {
    tree_edges = [];
    vec_ltm = [];
    vec_leaves = [];
    leaves = [];
    doc_bodies = [];
    tree_nodes = [];
  }
