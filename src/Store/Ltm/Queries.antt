-- ===== src/Store/Ltm/Queries.antt =====
-- src/infrastructure/ltm_repository.rs: the SELECT statements.
use neurolithe.Base.{
  ℕ, not, ◌&&◌, Option, none, some, List, [], ◌∷◌, ◌++◌, map, if◌then◌else◌, ◌==◌, filter, any,
  find, contains, nat_key, text_key,
}
use neurolithe.Base.Text.{Text}
use neurolithe.Domain.Ltm.{TreeNode, TreeEdge, Leaf}
use neurolithe.Store.Ltm.Rows.{Store, is_concept, is_inbox, row_to_node, has_edge, first_node}

module _ {F E : Type 0} where
  unfoldable pub find_node_by_name : Text → Store F E → Option ℕ
  find_node_by_name name s = elim (find (λ r. r.name == name) s.tree_nodes) [
    | none ↦ none
    | some r ↦ some r.id
  ]

  unfoldable pub child_by_name : ℕ → Text → Store F E → Option ℕ
  child_by_name parent_id name s =
      elim (find
        (λ r. has_edge parent_id r.id s.tree_edges && ((r.name == name) && is_concept r.kind))
        s.tree_nodes) [ none ↦ none | some r ↦ some r.id ]

  unfoldable pub get_node : ℕ → Store F E → Option TreeNode
  get_node id s = first_node (find (λ r. r.id == id) s.tree_nodes)

  unfoldable pub get_children : ℕ → Store F E → List TreeNode
  get_children parent_id s =
      map row_to_node (filter (λ r. has_edge parent_id r.id s.tree_edges) s.tree_nodes)

  unfoldable pub get_parents : ℕ → Store F E → List TreeNode
  get_parents child_id s =
      map row_to_node (filter (λ r. has_edge r.id child_id s.tree_edges) s.tree_nodes)

  -- `SELECT DISTINCT ... JOIN leaves ... ORDER BY n.id`
  unfoldable pub get_nodes_by_data_id : Text → Store F E → List TreeNode
  get_nodes_by_data_id data_id s = map row_to_node (
      filter (λ r. any (λ l. (l.tree_node_id == r.id) && (l.data_id == data_id)) s.leaves)
        s.tree_nodes)

  unfoldable pub get_inbox : Store F E → Option TreeNode
  get_inbox s = first_node (find (λ r. is_inbox r.kind) s.tree_nodes)

  unfoldable pub get_roots : Store F E → List TreeNode
  get_roots s =
      map row_to_node (filter (λ r. not (any (λ e. e.child_id == r.id) s.tree_edges)) s.tree_nodes)

  unfoldable pub concepts_missing_embedding : Store F E → List TreeNode
  concepts_missing_embedding s =
      map row_to_node
        (filter (λ r. is_concept r.kind && not (any (λ v. v.0 == r.id) s.vec_ltm)) s.tree_nodes)

  unfoldable pub get_leaf : ℕ → Store F E → Option (Leaf F)
  get_leaf id s = find (λ l. l.tree_node_id == id) s.leaves

  unfoldable pub get_child_leaves : ℕ → Store F E → List (Leaf F)
  get_child_leaves parent_id s =
      filter (λ l. has_edge parent_id l.tree_node_id s.tree_edges) s.leaves

  -- One row for each edge from an inbox to the leaf of the vector.
  unfoldable pub repeat_vector : List ℕ → (ℕ × E) → List (TreeEdge F) → List (ℕ × E)
  repeat_vector inbox_ids v [] = []
  repeat_vector inbox_ids v (e ∷ es) =
      let rest = repeat_vector inbox_ids v es in
      if (e.child_id == v.0) && contains inbox_ids e.parent_id then v ∷ rest else rest

  unfoldable pub vectors_under : List ℕ → List (TreeEdge F) → List (ℕ × E) → List (ℕ × E)
  vectors_under inbox_ids es [] = []
  vectors_under inbox_ids es (v ∷ vs) =
      repeat_vector inbox_ids v es ++ vectors_under inbox_ids es vs

  unfoldable pub inbox_leaf_embeddings : Store F E → List (ℕ × E)
  unfolding repeat_vector vectors_under
  inbox_leaf_embeddings s =
      vectors_under (map (λ r. r.id) (filter (λ r. is_inbox r.kind) s.tree_nodes)) s.tree_edges
        s.vec_leaves
