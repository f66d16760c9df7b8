-- ===== src/App/Placement/Filing/Removal.antt =====
-- `remove_leaves` and `forget`: which leaves go, and that nothing is left of a forgotten document.
use neurolithe.Store.Ltm.Integrity.{delete_node_with_summaries-IsValid, IsValid}
use neurolithe.App.Placement.Filing.{
  push_parents, summary_without, remove_leaves, forget, Removing, is_id, remove_one, remove_each,
}
use neurolithe.Base.{
  ℕ, ◌+◌, ◌≡◌, refl, sym, ap, ◌∙◌, inl, inr, Bool, true, false, not, Option, none, some, List, [],
  ◌∷◌, map, arith, ltb, Bool-cases, ◌==◌, length, filter, any, All, All-mono, All-of, filter-cong,
  All-filter_self, nat_key, text_key,
}
use neurolithe.Base.Text.{Text, Unicode}
use neurolithe.Store.Ltm.Rows.{NodeRow, Store, row_to_node}
use neurolithe.Store.Ltm.Writes.{
  update_summary, set_summaries, delete_node_with_summaries, delete_document_body,
}
use neurolithe.Store.Ltm.Queries.{get_nodes_by_data_id, get_parents}
use neurolithe.App.Placement.RollUp.{HashOrder}
use neurolithe.App.Placement.Choice.{ids_of}
use neurolithe.App.Placement.RollUp.Keeps.{roll_up_all-IsResummed}
use neurolithe.App.Placement.Filing.Leaves.{
  spared-kept, spared, has_leaf, has_row-carrying, contains-targets, any-carries, carries, targets,
  without, without-nil, without-cons,
}

some-targets :
    (q : ℕ → Bool) (rows : List NodeRow)
    → ltb 0 (length (targets none (filter (λ r. q r.id) rows))) ≡ any (λ r. q r.id) rows
some-targets q [] = refl
some-targets q (r ∷ rows) = ground (arith, some-targets q rows)

unkept : (b : Bool) → (b ≡ true → false ≡ true) → b ≡ false
unkept true h = absurd (ground (arith, h refl))
unkept false h = refl

module _ {F E : Type 0} where
  set_summaries-leaves :
      (xs : List (ℕ × Text)) (s : Store F E) → (set_summaries xs s).leaves ≡ s.leaves
  unfolding set_summaries update_summary
  set_summaries-leaves [] s = refl
  set_summaries-leaves ((id, t) ∷ xs) s = set_summaries-leaves xs (update_summary id t s)

  delete-leaves :
      (id : ℕ) (xs : List (ℕ × Text)) (s : Store F E)
      → (delete_node_with_summaries id xs s).leaves
        ≡ filter (λ l. not (l.tree_node_id == id)) s.leaves
  unfolding delete_node_with_summaries
  delete-leaves id xs s = set_summaries-leaves xs _

  module _ (u : Unicode) (max_len : ℕ) (keep : Option ℕ) where
    -- What the loop has done after it went over these rows.
    record IsRemoved (rows : List NodeRow) (r r' : Removing F E) : Type 0 where
      valid : IsValid r'.store
      leaves_left : r'.store.leaves ≡ without (targets keep rows) r.store.leaves
      counted : r'.removed ≡ r.removed + length (targets keep rows)

    remove_each-IsRemoved :
        (rows : List NodeRow) (r : Removing F E)
        → IsValid r.store
        → (r' : Removing F E) × (remove_each u max_len keep (map row_to_node rows) r ≡ some r')
          × IsRemoved rows r r'
    unfolding remove_each remove_one
    remove_each-IsRemoved [] r v = (
      r,
      refl,
      record { valid = v; leaves_left = sym (without-nil r.store.leaves); counted = omega arith },
    )
    remove_each-IsRemoved (x ∷ rows) r v = elim (Bool-cases (is_id keep x.id)) [
      | inl kept ↦
          let (r', e, h) = remove_each-IsRemoved rows r v in
          rw kept (
            r',
            e,
            record {
              valid = h.valid;
              leaves_left = rw kept h.leaves_left;
              counted = rw kept h.counted;
            },
          )
      | inr gone ↦
          let pids = ids_of (get_parents x.id r.store) in
          let summaries = map (summary_without u max_len x.id r.store) pids in
          let next : Removing F E = record {
            store = delete_node_with_summaries x.id summaries r.store;
            parents = push_parents r.parents pids;
            removed = r.removed + 1;
          } in
          let (r', e, h) =
            remove_each-IsRemoved rows next
              (delete_node_with_summaries-IsValid x.id summaries r.store v) in
          rw gone (
            r',
            e,
            record {
              valid = h.valid;
              leaves_left = rw gone (
                  h.leaves_left
                  ∙ (ap (without (targets keep rows)) (delete-leaves x.id summaries r.store)
                      ∙ without-cons x.id (targets keep rows) r.store.leaves));
              counted = rw gone (omega (arith, h.counted));
            },
          )
    ]

  abbrev carrying : Text → Store F E → List NodeRow
  carrying data_id s = filter (λ r. carries data_id s.leaves r.id) s.tree_nodes

  left-spared :
      (data_id : Text) (keep : Option ℕ) (s : Store F E)
      → IsValid s
      → without (targets keep (carrying data_id s)) s.leaves
        ≡ filter (spared data_id keep s.leaves) s.leaves
  left-spared data_id keep s v = filter-cong _ _ s.leaves (
      All-mono _ _
        (λ l h. rw (
          contains-targets keep l.tree_node_id (carrying data_id s),
          has_row-carrying (carries data_id s.leaves) l.tree_node_id s.tree_nodes,
          h,
        ))
        s.leaves v.leaf_rows)

  module _ (u : Unicode) (hash : HashOrder) (max_len : ℕ) where
    -- Removal never fails on a valid store. It leaves exactly the leaves of the nodes that do not
    -- carry the document, and of the node that is to be kept.
    pub remove_leaves-IsValid :
        (data_id : Text) (keep : Option ℕ) (s : Store F E)
        → IsValid s
        → (t : Store F E) × (n : ℕ) × (remove_leaves u hash max_len data_id keep s ≡ some (t, n))
          × IsValid t
          × (t.leaves ≡ filter (spared data_id keep s.leaves) s.leaves)
          × (n ≡ length (targets keep (carrying data_id s)))
    unfolding remove_leaves get_nodes_by_data_id
    remove_leaves-IsValid data_id keep s v =
        let (r, e, h) =
          remove_each-IsRemoved u max_len keep (carrying data_id s)
            (record { store = s; parents = []; removed = 0 }) v in
        let (t, e', k) = roll_up_all-IsResummed u hash max_len r.parents r.store h.valid in
        (
          t,
          r.removed,
          rw (e, e', remove_leaves),
          k.valid,
          k.leaves_kept ∙ (h.leaves_left ∙ left-spared data_id keep s v),
          omega (arith, h.counted),
        )

    -- Forgetting never fails on a valid store. Afterwards no leaf and no body carries the document;
    -- the leaves that are left are those of the nodes that did not carry it; the store is valid;
    -- and the result says whether the document had a leaf.
    pub forget_complete :
        (data_id : Text) (s : Store F E)
        → IsValid s
        → (t : Store F E) × (found : Bool) × (forget u hash max_len data_id s ≡ some (t, found))
          × IsValid t
          × All (λ l. (l.data_id == data_id) ≡ false) t.leaves
          × All (λ b. (b.data_id == data_id) ≡ false) t.doc_bodies
          × (t.leaves ≡ filter (λ l. not (carries data_id s.leaves l.tree_node_id)) s.leaves)
          × (found ≡ has_leaf data_id s.leaves)
    unfolding forget delete_document_body
    forget_complete data_id s v =
        let (t, n, e, valid, left, counted) = remove_leaves-IsValid data_id none s v in
        let same : t.leaves ≡ filter (λ l. not (carries data_id s.leaves l.tree_node_id)) s.leaves =
          left ∙ filter-cong _ _ s.leaves (All-of (λ l. ground arith) s.leaves) in
        (
          delete_document_body data_id t,
          ltb 0 n,
          rw (e, forget),
          record {
            once = valid.once;
            below = valid.below;
            edges = valid.edges;
            leaf_rows = valid.leaf_rows;
            concept_vectors = valid.concept_vectors;
            leaf_vectors = valid.leaf_vectors;
          },
          rw left (
              All-mono _ _ (λ l k. unkept (l.data_id == data_id) k) _
                (spared-kept data_id none s.leaves)),
          All-mono _ _ (λ b k. ground arith) _
              (All-filter_self (λ b. not (b.data_id == data_id)) t.doc_bodies),
          same,
          ap (ltb 0) counted
              ∙ (some-targets (λ id. carries data_id s.leaves id) s.tree_nodes
                  ∙ any-carries data_id s.tree_nodes s.leaves v.leaf_rows),
        )
