-- ===== src/App/Placement/Filing/Upsert.antt =====
-- `place_with_body` and `replace_with_body`: where the new leaf stands, and that it is the only one.
use neurolithe.App.Placement.Filing.Leaves.{spared-kept, All-of_rows, spared-new, carries}
use neurolithe.App.Placement.Filing.Removal.{remove_leaves-IsValid}
use neurolithe.App.Placement.Filing.{
  replace_with_body, Placement, choose_parent, place_with_body, DocumentToPlace,
}
use neurolithe.Store.Ltm.Tables.{ids, ids-append, fresh_id, has_row-append}
use neurolithe.App.Placement.RollUp.Keeps.{roll_up_from-IsResummed}
use neurolithe.Store.Ltm.Integrity.{create_leaf_node-IsValid, IsValid}
use neurolithe.Store.Ltm.Rows.{
  row_of, with_body, is_inbox, Store, has_row, stamped, first_node, NodeRow,
}
use neurolithe.Store.Ltm.Similar.{found_id}
use neurolithe.App.Placement.Choice.{target-IsConcept, target, Placing}
use neurolithe.Store.Ltm.Spine.{found_has_row}
use neurolithe.Store.Ltm.Writes.{filed, create_leaf_node}
use neurolithe.Store.Ltm.Queries.{get_inbox}
use neurolithe.App.Placement.RollUp.{HashOrder}
use neurolithe.Base.{
  ℕ, ◌≡◌, refl, sym, ◌∙◌, inl, inr, Bool, true, false, not, Option, none, some, List, [], ◌∷◌, ◌++◌,
  arith, Option-cases, is_some, ◌==◌, eqb_iff, filter, find, All, All-mono, nat_key, text_key,
}
use neurolithe.Base.Float.{Float}
use neurolithe.Base.Text.{Unicode}
use neurolithe.Domain.Ltm.{TreeNodeKind, new_node, Leaf, DocumentBody}

-- The leaf of a document that is filed.
abbrev pub leaf_of : {F E : Type 0} → ℕ → DocumentToPlace F E → ℕ → Leaf F
leaf_of clock doc id = record {
  tree_node_id = id;
  data_id = doc.data_id;
  provenance = stamped clock doc.provenance;
}

-- Where a document goes: under the concept that is its target, or with none, under the inbox.
abbrev pub IsParent : Option ℕ → List NodeRow → ℕ → Type 0
IsParent none rows parent =
    (r : NodeRow) × (find (λ x. is_inbox x.kind) rows ≡ some r) × (r.id ≡ parent)
IsParent (some concept) rows parent = concept ≡ parent

-- What a document that is filed adds: its node with its leaf, its vector, its edge and its body.
pub record IsFiled {F E : Type 0} (weight : F) (parent : Option ℕ) (doc : DocumentToPlace F E)
    (body : Option DocumentBody) (s t : Store F E) (placed : Placement) : Type 0 where
  pub valid : IsValid t
  pub leaves : t.leaves ≡ s.leaves ++ (leaf_of s.clock doc placed.leaf_node_id ∷ [])
  pub fresh : has_row placed.leaf_node_id s.tree_nodes ≡ false
  pub nodes : ids t.tree_nodes ≡ ids s.tree_nodes ++ (placed.leaf_node_id ∷ [])
  pub under : IsParent parent s.tree_nodes placed.parent_id
  pub edges :
      t.tree_edges
      ≡ s.tree_edges
        ++ (record { parent_id = placed.parent_id; child_id = placed.leaf_node_id; weight = weight }
            ∷ [])
  pub vectors :
      (t.vec_ltm ≡ s.vec_ltm)
      × (t.vec_leaves ≡ s.vec_leaves ++ ((placed.leaf_node_id, doc.embedding) ∷ []))
  pub bodies : t.doc_bodies ≡ with_body doc.data_id body s.doc_bodies
  pub matched : placed.matched ≡ is_some parent

find-has_row :
    (q : NodeRow → Bool) (rows : List NodeRow)
    → is_some (first_node (find q rows)) ≡ true
    → (r : NodeRow) × (find q rows ≡ some r) × (has_row r.id rows ≡ true)
find-has_row q rows h = elim (Option-cases (find q rows)) [
  | inl missing ↦ absurd (ground arith)
  | inr (r, found) ↦ (r, found, (found_has_row q rows r found).0)
]

module _ (u : Unicode) (hash : HashOrder) (fl : Float) {E : Type 0}
    (nearest : List (ℕ × E) → E → ℕ → List (ℕ × fl.F64)) where
  -- The parent that is chosen is a node of the tree, and is the concept if there is one.
  choose_parent-has_row :
      (p : Placing fl.F64) (v : E) (s : Store fl.F64 E)
      → is_some (get_inbox s) ≡ true
      → (parent : ℕ) × (matched : Bool) × (choose_parent u hash fl nearest p v s
          ≡ some (parent, matched))
        × (has_row parent s.tree_nodes ≡ true)
        × (matched ≡ is_some (target fl nearest p v s))
        × IsParent (target fl nearest p v s) s.tree_nodes parent
  unfolding choose_parent get_inbox
  choose_parent-has_row p v s h = elim (Option-cases (target fl nearest p v s)) [
    | inl nowhere ↦
        let (r, found, there) = find-has_row (λ r. is_inbox r.kind) s.tree_nodes h in
        (
          r.id,
          false,
          rw (nowhere, found, choose_parent),
          there,
          rw nowhere,
          rw nowhere (r, found, refl),
        )
    | inr (id, best) ↦
        let (r, found, concept, below) = target-IsConcept fl nearest p v s best in
        (
          id,
          true,
          rw (best, choose_parent),
          rw (← found_id id s.tree_nodes r found) (found_has_row _ s.tree_nodes r found).0,
          rw best,
          rw best refl,
        )
  ]

  -- On a valid store with an inbox a document is always filed, under its target concept or else
  -- under the inbox, and `matched` says which. The store is valid; one node, leaf, edge and vector
  -- are added to those there were, and the body that is given is written.
  pub place_with_body-IsFiled :
      (p : Placing fl.F64) (doc : DocumentToPlace fl.F64 E) (body : Option DocumentBody)
      (s : Store fl.F64 E)
      → IsValid s
      → is_some (get_inbox s) ≡ true
      → (t : Store fl.F64 E) × (placed : Placement) × (place_with_body u hash fl nearest p doc body
            s
          ≡ some (t, placed))
        × IsFiled (fl.decimal 1 0) (target fl nearest p doc.embedding s) doc body s t placed
  unfolding place_with_body create_leaf_node filed
  place_with_body-IsFiled p doc body s v h =
      let (parent, matched, chosen, there, why, under) =
        choose_parent-has_row p doc.embedding s h in
      let n = new_node doc.name doc.summary TreeNodeKind.leaf in
      let row = row_of s.next_id s.clock n TreeNodeKind.leaf in
      let still : has_row parent (s.tree_nodes ++ (row ∷ [])) ≡ true =
        rw (has_row-append parent s.tree_nodes (row ∷ []), there) in
      let made = filed n doc.embedding doc.data_id doc.provenance parent (fl.decimal 1 0) body s in
      let stored : create_leaf_node n doc.embedding doc.data_id doc.provenance parent
            (fl.decimal 1 0) body s
          ≡ some (made, s.next_id) =
        rw still in
      let valid =
        create_leaf_node-IsValid n doc.embedding doc.data_id doc.provenance parent (fl.decimal 1 0)
          body s v stored in
      let (t, rolled, k) = roll_up_from-IsResummed u hash p.max_summary_len parent made valid in
      (
        t,
        record { leaf_node_id = s.next_id; parent_id = parent; matched = matched },
        rw (chosen, stored, rolled, place_with_body),
        record {
          valid = k.valid;
          leaves = k.leaves_kept;
          fresh = fresh_id s.next_id s.tree_nodes v.below;
          nodes = k.ids_kept ∙ ids-append s.tree_nodes (row ∷ []);
          under = under;
          edges = k.edges_kept;
          vectors = k.vectors_kept;
          bodies = k.bodies_kept;
          matched = why;
        },
      )

  -- Replacing never fails on a valid store with an inbox. Of the leaves that were there, exactly
  -- those of nodes that do not carry the document are left, and the new leaf is behind them; so the
  -- document has that one leaf.
  pub replace_with_body-leaves :
      (p : Placing fl.F64) (doc : DocumentToPlace fl.F64 E) (body : Option DocumentBody)
      (s : Store fl.F64 E)
      → IsValid s
      → is_some (get_inbox s) ≡ true
      → (t : Store fl.F64 E) × (placed : Placement) × (replaced : ℕ) × (replace_with_body u hash fl
            nearest p doc body s
          ≡ some (t, (placed, replaced)))
        × IsValid t
        × (t.leaves
            ≡ filter (λ l. not (carries doc.data_id s.leaves l.tree_node_id)) s.leaves
              ++ (leaf_of s.clock doc placed.leaf_node_id ∷ []))
        × All
            (λ l. (l.data_id == doc.data_id) ≡ true → l.tree_node_id ≡ placed.leaf_node_id)
            t.leaves
  unfolding replace_with_body
  replace_with_body-leaves p doc body s v h =
      let (made, placed, stored, filed) = place_with_body-IsFiled p doc body s v h in
      let id = placed.leaf_node_id in
      let (t, n, removed, valid', left, counted) =
        remove_leaves-IsValid u hash p.max_summary_len doc.data_id (some id) made filed.valid in
      (
        t,
        placed,
        n,
        rw (stored, removed, replace_with_body),
        valid',
        left
            ∙ (rw filed.leaves (
                spared-new doc.data_id (leaf_of s.clock doc id) s.leaves
                  (All-of_rows s.tree_nodes id filed.fresh s.leaves v.leaf_rows))),
        rw left (
            All-mono _ _ (λ l k e. sym ((eqb_iff id l.tree_node_id).0 (k e))) _
              (spared-kept doc.data_id (some id) made.leaves)),
      )
