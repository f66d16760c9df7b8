-- ===== src/App/Placement/RollUp/Keeps.antt =====
-- What a roll-up leaves as it was: everything but the summaries of nodes.
use neurolithe.Base.Sort.{any-perm}
use neurolithe.Base.Sort.{sort_by-perm, sort_by}
use mathlib.Core.List.Perm
use neurolithe.App.Placement.RollUp.Visits.{is_visited}
use neurolithe.Base.{
  ℕ, suc, ◌≡◌, refl, sym, ap, ◌∙◌, ◌↔◌, inl, inr, Bool, true, some, List, [], ◌∷◌, map, arith,
  Bool-cases, Option-cases, ◌==◌, eqb_iff, length, filter, any, contains, nat_key, text_key,
}
use neurolithe.Base.Text.{Text, Unicode}
use neurolithe.Base.Maps.{Map}
use neurolithe.Store.Ltm.Rows.{NodeRow, Store, has_row, has_edge, row_to_node}
use neurolithe.Store.Ltm.Queries.{get_node, get_children, get_parents}
use neurolithe.Store.Ltm.Writes.{update_summary}
use neurolithe.Store.Ltm.Tables.{ids, has_row-summed, contains-ids}
use neurolithe.Store.Ltm.Integrity.{IsValid, update_summary-IsValid}
use neurolithe.App.Placement.Choice.{ids_of}
use neurolithe.App.Placement.Summaries.{collection_summary, recompute_summary}
use neurolithe.App.Placement.RollUp.{
  HashOrder, walk, from_node, parent_ids, ancestors, by_depth, recompute_all, roll_up_from,
  roll_up_all,
}
use neurolithe.App.Placement.RollUp.Walk.{IsAncestor, walk-from_node}

-- A valid store with the same nodes, edges, leaves, vectors and bodies.
pub record IsResummed {F E : Type 0} (s t : Store F E) : Type 0 where
  pub valid : IsValid t
  pub ids_kept : ids t.tree_nodes ≡ ids s.tree_nodes
  pub edges_kept : t.tree_edges ≡ s.tree_edges
  pub leaves_kept : t.leaves ≡ s.leaves
  pub vectors_kept : (t.vec_ltm ≡ s.vec_ltm) × (t.vec_leaves ≡ s.vec_leaves)
  pub bodies_kept : t.doc_bodies ≡ s.doc_bodies
  pub next_kept : t.next_id ≡ s.next_id

any_key : (x : ℕ) (m : Map ℕ ℕ) → any (λ r. r.0 == x) m ≡ is_visited m x
any_key x [] = refl
any_key x (e ∷ m) = ground (arith, eqb_iff e.0 x, any_key x m)

ids_of-rows :
    (p : NodeRow → Bool) (rows : List NodeRow) (id : ℕ)
    → contains (ids_of (map row_to_node (filter p rows))) id ≡ true
    → has_row id rows ≡ true
unfolding ids_of
ids_of-rows p [] id h = cc
ids_of-rows p (r ∷ rows) id h = ground (arith, ids_of-rows p rows id)

length-ids : (rows : List NodeRow) → length (ids rows) ≡ length rows
length-ids [] = refl
length-ids (r ∷ rows) = ap suc (length-ids rows)

module _ {F E : Type 0} where
  IsResummed-refl : (s : Store F E) → IsValid s → IsResummed s s
  IsResummed-refl s v = record {
    valid = v;
    ids_kept = refl;
    edges_kept = refl;
    leaves_kept = refl;
    vectors_kept = (refl, refl);
    bodies_kept = refl;
    next_kept = refl;
  }

  IsResummed-trans : (r s t : Store F E) → IsResummed r s → IsResummed s t → IsResummed r t
  IsResummed-trans r s t h k = record {
    valid = k.valid;
    ids_kept = k.ids_kept ∙ h.ids_kept;
    edges_kept = k.edges_kept ∙ h.edges_kept;
    leaves_kept = k.leaves_kept ∙ h.leaves_kept;
    vectors_kept = (k.vectors_kept.0 ∙ h.vectors_kept.0, k.vectors_kept.1 ∙ h.vectors_kept.1);
    bodies_kept = k.bodies_kept ∙ h.bodies_kept;
    next_kept = k.next_kept ∙ h.next_kept;
  }

  IsResummed-has_row :
      (s t : Store F E)
      → IsResummed s t
      → (id : ℕ) → has_row id t.tree_nodes ≡ has_row id s.tree_nodes
  IsResummed-has_row s t h id =
      sym (contains-ids id t.tree_nodes)
      ∙ (ap (λ l. contains l id) h.ids_kept ∙ contains-ids id s.tree_nodes)

  update_summary-IsResummed :
      (id : ℕ) (x : Text) (s : Store F E) → IsValid s → IsResummed s (update_summary id x s)
  unfolding update_summary
  update_summary-IsResummed id x s v = record {
    valid = update_summary-IsValid id x s v;
    ids_kept = (has_row-summed id s.clock x 0 s.tree_nodes).1;
    edges_kept = refl;
    leaves_kept = refl;
    vectors_kept = (refl, refl);
    bodies_kept = refl;
    next_kept = refl;
  }

  -- The parents of a node are nodes of the tree.
  parent_ids-has_row :
      (s : Store F E) (x y : ℕ)
      → contains (parent_ids s x) y ≡ true
      → contains (ids s.tree_nodes) y ≡ true
  unfolding get_parents
  parent_ids-has_row s x y h =
      contains-ids y s.tree_nodes ∙ ids_of-rows (λ r. has_edge r.id x s.tree_edges) s.tree_nodes y h

  -- The nodes whose summaries are recomputed are the start and all the nodes above it.
  pub ancestors-IsAncestor :
      (start : ℕ) (s : Store F E)
      → (dist : Map ℕ ℕ) × (ancestors start s ≡ some dist)
        × ((x : ℕ) → (is_visited dist x ≡ true) ↔ IsAncestor (parent_ids s) start x)
  ancestors-IsAncestor start s =
      let (dist, e, above) =
        walk-from_node (parent_ids s) start (ids s.tree_nodes) (parent_ids-has_row s) in
      (
        dist,
        ap (λ n. walk (parent_ids s) (suc (suc n)) (from_node start))
              (sym (length-ids s.tree_nodes))
            ∙ e,
        above,
      )

  module _ (u : Unicode) (hash : HashOrder) (max_len : ℕ) where
    recompute_summary-IsResummed :
        (id : ℕ) (s : Store F E) → IsValid s → IsResummed s (recompute_summary u max_len id s)
    unfolding recompute_summary
    recompute_summary-IsResummed id s v =
        let new = collection_summary u (get_children id s) max_len in
        elim (Option-cases (get_node id s)) [
          | inl missing ↦ rw (missing, recompute_summary) (IsResummed-refl s v)
          | inr (n, found) ↦ elim (Bool-cases (n.summary == new)) [
            | inl same ↦ rw (found, same, recompute_summary) (IsResummed-refl s v)
            | inr other ↦
                rw (found, other, recompute_summary) (update_summary-IsResummed id new s v)
          ]
        ]

    recompute_all-IsResummed :
        (es : List (ℕ × ℕ)) (s : Store F E)
        → IsValid s
        → IsResummed s (recompute_all u hash max_len es s)
    unfolding recompute_all
    recompute_all-IsResummed [] s v = IsResummed-refl s v
    recompute_all-IsResummed (e ∷ es) s v =
        let one = recompute_summary-IsResummed e.0 s v in
        IsResummed-trans s _ _ one (recompute_all-IsResummed es _ one.valid)

    -- A roll-up always ends, and changes nothing but summaries.
    pub roll_up_from-IsResummed :
        (start : ℕ) (s : Store F E)
        → IsValid s
        → (t : Store F E) × (roll_up_from u hash max_len start s ≡ some t) × IsResummed s t
    unfolding roll_up_from
    roll_up_from-IsResummed start s v =
        let (dist, e, above) = ancestors-IsAncestor start s in
        let es = sort_by by_depth (hash.order dist) in
        (recompute_all u hash max_len es s, rw (e, roll_up_from), recompute_all-IsResummed es s v)

    -- A roll-up from a node always ends, and is a run of `recompute_summary` over the node and its
    -- ancestors: over each of them, and over no other node.
    pub roll_up_from_covers :
        (start : ℕ) (s : Store F E)
        → (rounds : List (ℕ × ℕ)) × (roll_up_from u hash max_len start s
            ≡ some (recompute_all u hash max_len rounds s))
          × ((x : ℕ) → (any (λ r. r.0 == x) rounds ≡ true) ↔ IsAncestor (parent_ids s) start x)
    unfolding roll_up_from
    roll_up_from_covers start s =
        let (dist, e, above) = ancestors-IsAncestor start s in
        let rounds = sort_by by_depth (hash.order dist) in
        (
          rounds,
          rw (e, roll_up_from) refl,
          λ x.
              rw
                (any-perm (λ r. r.0 == x)
                  (Perm.trans (sort_by-perm by_depth (hash.order dist)) (hash.order-perm dist)))
                (rw (any_key x dist) (above x)),
        )

    pub roll_up_all-IsResummed :
        (ps : List ℕ) (s : Store F E)
        → IsValid s
        → (t : Store F E) × (roll_up_all u hash max_len ps s ≡ some t) × IsResummed s t
    unfolding roll_up_all
    roll_up_all-IsResummed [] s v = (s, refl, IsResummed-refl s v)
    roll_up_all-IsResummed (p ∷ ps) s v =
        let (one, e, h) = roll_up_from-IsResummed p s v in
        let (t, e', h') = roll_up_all-IsResummed ps one h.valid in
        (t, rw (e, roll_up_all) e', IsResummed-trans s one t h h')
