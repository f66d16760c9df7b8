-- ===== src/Store/Ltm/Integrity.antt =====
-- Referential integrity of the knowledge tree: every statement and transaction keeps it.
use neurolithe.Base.{
  ℕ, suc, ◌<◌, ◌≡◌, refl, ◌∙◌, inl, inr, true, false, not, ◌&&◌, ◌||◌, Option, none, some, List, [],
  ◌∷◌, ◌++◌, append-nil, arith, Bool-cases, &&_split, ◌==◌, eqb_iff, filter, All, All-append,
  All-mono, distinct, distinct-snoc, nat_key, text_key,
}
use neurolithe.Base.{
  ℕ, suc, ◌<◌, ◌≡◌, refl, ◌∙◌, inl, inr, true, false, not, ◌&&◌, ◌||◌, Option, none, some, List, [],
  ◌∷◌, ◌++◌, append-nil, arith, Bool-cases, &&_split, ◌==◌, eqb_iff, filter, All, All-append,
  All-mono, distinct, distinct-snoc, nat_key, text_key,
}
use neurolithe.Base.Text.{Text}
use neurolithe.Domain.Ltm.{leaf, TreeNode, TreeEdge, Provenance, DocumentBody}
use neurolithe.Store.Ltm.Rows.{NodeRow, Store, is_leaf, has_row, has_edge, row_of, vector_of}
use neurolithe.Store.Ltm.Tables.{
  ids, has_row-append, has_row-filter, contains-ids, distinct-filter, ids-append, All-keep,
  fresh_id, grown_refs, grown_edges, has_row-summed, below-summed,
}
use neurolithe.Store.Ltm.Writes.{
  create_node, add_edge, update_summary, create_leaf_node, filed, set_summaries,
  delete_node_with_summaries,
}

module _ {F E : Type 0} where
  -- No id twice, none that AUTOINCREMENT has yet to give, and no edge, leaf or vector without its
  -- node.
  pub record IsValid (s : Store F E) : Type 0 where
    pub once : distinct (ids s.tree_nodes) ≡ true
    pub below : All (λ r. r.id < s.next_id) s.tree_nodes
    pub edges :
        All
          (λ e.
            (has_row e.parent_id s.tree_nodes ≡ true) × (has_row e.child_id s.tree_nodes ≡ true))
          s.tree_edges
    pub leaf_rows : All (λ l. has_row l.tree_node_id s.tree_nodes ≡ true) s.leaves
    pub concept_vectors : All (λ v. has_row v.0 s.tree_nodes ≡ true) s.vec_ltm
    pub leaf_vectors : All (λ v. has_row v.0 s.tree_nodes ≡ true) s.vec_leaves

  -- A row with the next id.
  module _ (s : Store F E) (r : NodeRow) (new : r.id ≡ s.next_id) where
    push_once :
        distinct (ids s.tree_nodes) ≡ true
        → All (λ r. r.id < s.next_id) s.tree_nodes
        → distinct (ids (s.tree_nodes ++ (r ∷ []))) ≡ true
    push_once once below = rw (ids-append s.tree_nodes (r ∷ [])) (
        distinct-snoc (ids s.tree_nodes) r.id once
          (contains-ids r.id s.tree_nodes ∙ rw new (fresh_id s.next_id s.tree_nodes below)))

    push_below :
        All (λ r. r.id < s.next_id) s.tree_nodes
        → All (λ r. r.id < suc s.next_id) (s.tree_nodes ++ (r ∷ []))
    push_below below =
        All-append _ s.tree_nodes (r ∷ []) (All-mono _ _ (λ x h. omega arith) s.tree_nodes below)
          (omega arith)

    push_has : has_row s.next_id (s.tree_nodes ++ (r ∷ [])) ≡ true
    push_has = ground (arith, has_row-append s.next_id s.tree_nodes (r ∷ []))

  push_vector :
      (s : Store F E) (r : NodeRow) (new : r.id ≡ s.next_id) (v : Option E) (vs : List (ℕ × E))
      → All (λ v. has_row v.0 s.tree_nodes ≡ true) vs
      → All (λ v. has_row v.0 (s.tree_nodes ++ (r ∷ [])) ≡ true) (vs ++ vector_of s.next_id v)
  push_vector s r new none vs h =
      rw (append-nil vs) (grown_refs s.tree_nodes (r ∷ []) (λ v. v.0) vs h)
  push_vector s r new (some v) vs h =
      All-append _ vs _ (grown_refs s.tree_nodes (r ∷ []) (λ v. v.0) vs h) (push_has s r new, tt)

  -- A new node with its vector keeps the references whole.
  pub create_node-IsValid :
      (n : TreeNode) (v : Option E) (s : Store F E)
      → IsValid s
      → IsValid (create_node n v s).0
        × (has_row (create_node n v s).1 (create_node n v s).0.tree_nodes ≡ true)
        × (has_row (create_node n v s).1 s.tree_nodes ≡ false)
  unfolding create_node
  create_node-IsValid n v s h =
      let r = row_of s.next_id s.clock n n.kind in
      let more = r ∷ [] in
      (
        record {
          once = push_once s r refl h.once h.below;
          below = push_below s r refl h.below;
          edges = grown_edges s.tree_nodes more s.tree_edges h.edges;
          leaf_rows = grown_refs s.tree_nodes more (λ l. l.tree_node_id) s.leaves h.leaf_rows;
          concept_vectors = elim (Bool-cases (is_leaf n.kind)) [
            | inl below_tree ↦
                rw below_tree (grown_refs s.tree_nodes more (λ v. v.0) s.vec_ltm h.concept_vectors)
            | inr in_tree ↦ rw in_tree (push_vector s r refl v s.vec_ltm h.concept_vectors)
          ];
          leaf_vectors = elim (Bool-cases (is_leaf n.kind)) [
            | inl below_tree ↦ rw below_tree (push_vector s r refl v s.vec_leaves h.leaf_vectors)
            | inr in_tree ↦
                rw in_tree (grown_refs s.tree_nodes more (λ v. v.0) s.vec_leaves h.leaf_vectors)
          ];
        },
        push_has s r refl,
        fresh_id s.next_id s.tree_nodes h.below,
      )

  -- An edge is added only between nodes that exist.
  pub add_edge-IsValid :
      (e : TreeEdge F) (s : Store F E) {t : Store F E}
      → IsValid s
      → add_edge e s ≡ some t
      → IsValid t
  unfolding add_edge
  add_edge-IsValid e s {t} h added =
      elim (Bool-cases (has_row e.parent_id s.tree_nodes && has_row e.child_id s.tree_nodes)) [
        | inr missing ↦ absurd (ground arith)
        | inl there ↦ elim (Bool-cases (has_edge e.parent_id e.child_id s.tree_edges)) [
          | inl old ↦ let same : t ≡ s = ground arith in rw same h
          | inr new ↦
              let same : t ≡ record s { tree_edges = s.tree_edges ++ (e ∷ []) } = ground arith in
              rw same (record {
                once = h.once;
                below = h.below;
                edges = All-append _ s.tree_edges (e ∷ []) h.edges (&&_split _ _ there, tt);
                leaf_rows = h.leaf_rows;
                concept_vectors = h.concept_vectors;
                leaf_vectors = h.leaf_vectors;
              })
        ]
      ]

  -- A document is filed whole or not at all: its row, vector, leaf and edge all refer to the new
  -- node and to a parent that exists.
  pub create_leaf_node-IsValid :
      (n : TreeNode) (v : E) (data_id : Text) (p : Provenance F) (parent_id : ℕ) (weight : F)
      (body : Option DocumentBody) (s : Store F E) {t : Store F E} {id : ℕ}
      → IsValid s
      → create_leaf_node n v data_id p parent_id weight body s ≡ some (t, id)
      → IsValid t
  unfolding create_leaf_node filed
  create_leaf_node-IsValid n v data_id p parent_id weight body s {t} {id} h made =
      let r = row_of s.next_id s.clock n leaf in
      let rows = s.tree_nodes ++ (r ∷ []) in
      elim (Bool-cases (has_row parent_id rows)) [
        | inr missing ↦ absurd (ground arith)
        | inl there ↦
            let whole : Store F E = filed n v data_id p parent_id weight body s in
            let same : t ≡ whole = ground arith in
            rw same (record {
              once = push_once s r refl h.once h.below;
              below = push_below s r refl h.below;
              edges =
                  All-append _ s.tree_edges _
                    (grown_edges s.tree_nodes (r ∷ []) s.tree_edges h.edges)
                    ((there, push_has s r refl), tt);
              leaf_rows =
                  All-append _ s.leaves _
                    (grown_refs s.tree_nodes (r ∷ []) (λ l. l.tree_node_id) s.leaves h.leaf_rows)
                    (push_has s r refl, tt);
              concept_vectors =
                  grown_refs s.tree_nodes (r ∷ []) (λ v. v.0) s.vec_ltm h.concept_vectors;
              leaf_vectors = push_vector s r refl (some v) s.vec_leaves h.leaf_vectors;
            })
      ]

  -- A summary is written over without touching an id.
  pub update_summary-IsValid :
      (id : ℕ) (t : Text) (s : Store F E) → IsValid s → IsValid (update_summary id t s)
  unfolding update_summary
  update_summary-IsValid id t s h = record {
    once = rw (has_row-summed id s.clock t 0 s.tree_nodes).1 h.once;
    below = below-summed id s.clock t s.next_id s.tree_nodes h.below;
    edges =
        All-mono _ _
          (λ e k. (
            (has_row-summed id s.clock t e.parent_id s.tree_nodes).0 ∙ k.0,
            (has_row-summed id s.clock t e.child_id s.tree_nodes).0 ∙ k.1,
          ))
          s.tree_edges h.edges;
    leaf_rows =
        All-mono _ _ (λ l k. (has_row-summed id s.clock t l.tree_node_id s.tree_nodes).0 ∙ k)
          s.leaves h.leaf_rows;
    concept_vectors =
        All-mono _ _ (λ v k. (has_row-summed id s.clock t v.0 s.tree_nodes).0 ∙ k) s.vec_ltm
          h.concept_vectors;
    leaf_vectors =
        All-mono _ _ (λ v k. (has_row-summed id s.clock t v.0 s.tree_nodes).0 ∙ k) s.vec_leaves
          h.leaf_vectors;
  }

  set_summaries-IsValid :
      (xs : List (ℕ × Text)) (s : Store F E) → IsValid s → IsValid (set_summaries xs s)
  unfolding set_summaries
  set_summaries-IsValid [] s h = h
  set_summaries-IsValid ((id, t) ∷ xs) s h =
      set_summaries-IsValid xs (update_summary id t s) (update_summary-IsValid id t s h)

  pub delete_node_with_summaries-IsValid :
      (id : ℕ) (summaries : List (ℕ × Text)) (s : Store F E)
      → IsValid s
      → IsValid (delete_node_with_summaries id summaries s)
  unfolding delete_node_with_summaries
  delete_node_with_summaries-IsValid id summaries s h =
      let kept = λ (j : ℕ) (k : has_row j s.tree_nodes ≡ true) (ne : not (j == id) ≡ true).
        has_row-filter id j s.tree_nodes ∙ rw (k, ne) in
      set_summaries-IsValid summaries _ (record {
        once = distinct-filter id s.tree_nodes h.once;
        below = All-keep _ _ _ (λ r _ k. k) s.tree_nodes h.below;
        edges =
            All-keep _ _ _
              (λ e p k. (kept e.parent_id k.0 (ground arith), kept e.child_id k.1 (ground arith)))
              s.tree_edges h.edges;
        leaf_rows = All-keep _ _ _ (λ l p k. kept l.tree_node_id k p) s.leaves h.leaf_rows;
        concept_vectors = All-keep _ _ _ (λ v p k. kept v.0 k p) s.vec_ltm h.concept_vectors;
        leaf_vectors = All-keep _ _ _ (λ v p k. kept v.0 k p) s.vec_leaves h.leaf_vectors;
      })

  -- Setting summaries touches no id, edge, leaf or vector.
  set_summaries_keeps :
      (xs : List (ℕ × Text)) (s : Store F E)
      → let t = set_summaries xs s in
        (t.tree_edges ≡ s.tree_edges)
        × (t.leaves ≡ s.leaves)
        × (t.vec_ltm ≡ s.vec_ltm)
        × (t.vec_leaves ≡ s.vec_leaves)
        × ((j : ℕ) → has_row j t.tree_nodes ≡ has_row j s.tree_nodes)
  unfolding set_summaries update_summary
  set_summaries_keeps [] s = (refl, refl, refl, refl, λ j. refl)
  set_summaries_keeps ((id, t) ∷ xs) s =
      let h = set_summaries_keeps xs (update_summary id t s) in
      (h.0, h.1, h.2, h.3, λ j. h.4 j ∙ (has_row-summed id s.clock t j s.tree_nodes).0)

  -- The node is gone with every edge, leaf and vector of its own, and nothing else is.
  pub record IsDeleted (id : ℕ) (s t : Store F E) : Type 0 where
    pub valid : IsValid t
    pub gone : has_row id t.tree_nodes ≡ false
    pub others : (j : ℕ) → (j == id) ≡ false → has_row j t.tree_nodes ≡ has_row j s.tree_nodes
    pub edges :
        t.tree_edges ≡ filter (λ e. not ((e.parent_id == id) || (e.child_id == id))) s.tree_edges
    pub leaves : t.leaves ≡ filter (λ l. not (l.tree_node_id == id)) s.leaves
    pub concept_vectors : t.vec_ltm ≡ filter (λ v. not (v.0 == id)) s.vec_ltm
    pub leaf_vectors : t.vec_leaves ≡ filter (λ v. not (v.0 == id)) s.vec_leaves

  -- Deleting a node of a valid store leaves a valid store without the node and without its edges,
  -- leaves and vectors; every other node, edge, leaf and vector is left.
  pub delete_node_with_summaries-IsDeleted :
      (id : ℕ) (summaries : List (ℕ × Text)) (s : Store F E)
      → IsValid s
      → IsDeleted id s (delete_node_with_summaries id summaries s)
  unfolding delete_node_with_summaries
  delete_node_with_summaries-IsDeleted id summaries s v =
      let k = set_summaries_keeps summaries _ in
      record {
        valid = delete_node_with_summaries-IsValid id summaries s v;
        gone = k.4 id ∙ ground (arith, has_row-filter id id s.tree_nodes, eqb_iff id id);
        others = λ j other. k.4 j ∙ ground (arith, has_row-filter id j s.tree_nodes);
        edges = k.0;
        leaves = k.1;
        concept_vectors = k.2;
        leaf_vectors = k.3;
      }
