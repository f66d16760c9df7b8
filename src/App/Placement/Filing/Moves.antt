-- ===== src/App/Placement/Filing/Moves.antt =====
-- What a move of a document out of the inbox keeps.
use neurolithe.App.Placement.RollUp.Keeps.{IsResummed}
use neurolithe.Store.Ltm.Rows.{has_row, Store, has_edge}
use neurolithe.Store.Ltm.Queries.{vectors_under, repeat_vector}
use neurolithe.Store.Ltm.Tables.{ids}
use neurolithe.Store.Ltm.Integrity.{add_edge-IsValid, IsValid}
use neurolithe.Store.Ltm.Writes.{remove_edge, add_edge}
use neurolithe.Base.{
  ℕ, ◌≡◌, refl, ◌∙◌, inl, inr, Bool, true, false, not, ◌&&◌, ◌||◌, some, List, [], ◌∷◌, ◌++◌, arith,
  Bool-cases, ◌==◌, eqb_iff, filter, any, All, All-append, contains, All-filter, nat_key, text_key,
}
use neurolithe.Domain.Ltm.{TreeEdge}

abbrev has_parent : {F : Type 0} → ℕ → List (TreeEdge F) → Bool
has_parent id es = any (λ e. e.child_id == id) es

has_parent-filter :
    {F : Type 0} (p c id : ℕ) (es : List (TreeEdge F))
    → (id == c) ≡ false
    → has_parent id (filter (λ e. not ((e.parent_id == p) && (e.child_id == c))) es)
      ≡ has_parent id es
has_parent-filter p c id [] h = refl
has_parent-filter p c id (e ∷ es) h =
    ground (
      arith,
      eqb_iff e.child_id c,
      eqb_iff e.child_id id,
      eqb_iff id c,
      has_parent-filter p c id es,
    )

has_parent-append :
    {F : Type 0} (id : ℕ) (xs ys : List (TreeEdge F))
    → has_parent id (xs ++ ys) ≡ (has_parent id xs || has_parent id ys)
has_parent-append id [] ys = refl
has_parent-append id (x ∷ xs) ys = ground (arith, has_parent-append id xs ys)

has_parent_of_edge :
    {F : Type 0} (p c : ℕ) (es : List (TreeEdge F))
    → has_edge p c es ≡ true
    → has_parent c es ≡ true
has_parent_of_edge p c [] h = cc
has_parent_of_edge p c (e ∷ es) h = ground (arith, has_parent_of_edge p c es)

-- A valid store with the same nodes, leaves, vectors and bodies, in which no node lost its last
-- parent.
pub record IsGardened {F E : Type 0} (s t : Store F E) : Type 0 where
  pub valid : IsValid t
  pub ids_kept : ids t.tree_nodes ≡ ids s.tree_nodes
  pub leaves_kept : t.leaves ≡ s.leaves
  pub leaf_vectors_kept : t.vec_leaves ≡ s.vec_leaves
  pub bodies_kept : t.doc_bodies ≡ s.doc_bodies
  pub parents_kept :
      (id : ℕ) → has_parent id s.tree_edges ≡ true → has_parent id t.tree_edges ≡ true

module _ {F E : Type 0} where
  pub IsGardened-refl : (s : Store F E) → IsValid s → IsGardened s s
  IsGardened-refl s v = record {
    valid = v;
    ids_kept = refl;
    leaves_kept = refl;
    leaf_vectors_kept = refl;
    bodies_kept = refl;
    parents_kept = λ id h. h;
  }

  pub IsGardened-trans : (r s t : Store F E) → IsGardened r s → IsGardened s t → IsGardened r t
  IsGardened-trans r s t h k = record {
    valid = k.valid;
    ids_kept = k.ids_kept ∙ h.ids_kept;
    leaves_kept = k.leaves_kept ∙ h.leaves_kept;
    leaf_vectors_kept = k.leaf_vectors_kept ∙ h.leaf_vectors_kept;
    bodies_kept = k.bodies_kept ∙ h.bodies_kept;
    parents_kept = λ id e. k.parents_kept id (h.parents_kept id e);
  }

  pub IsResummed-IsGardened : (s t : Store F E) → IsResummed s t → IsGardened s t
  IsResummed-IsGardened s t h = record {
    valid = h.valid;
    ids_kept = h.ids_kept;
    leaves_kept = h.leaves_kept;
    leaf_vectors_kept = h.vectors_kept.1;
    bodies_kept = h.bodies_kept;
    parents_kept = λ id e. rw h.edges_kept e;
  }

  remove_edge-IsValid : (p c : ℕ) (s : Store F E) → IsValid s → IsValid (remove_edge p c s)
  unfolding remove_edge
  remove_edge-IsValid p c s v = record {
    once = v.once;
    below = v.below;
    edges = All-filter _ (λ e. not ((e.parent_id == p) && (e.child_id == c))) s.tree_edges v.edges;
    leaf_rows = v.leaf_rows;
    concept_vectors = v.concept_vectors;
    leaf_vectors = v.leaf_vectors;
  }

  All-repeat_vector :
      (P : ℕ × E → Type 0) (is : List ℕ) (v : ℕ × E) (es : List (TreeEdge F))
      → P v
      → All P (repeat_vector is v es)
  unfolding repeat_vector
  All-repeat_vector P is v [] h = tt
  All-repeat_vector P is v (e ∷ es) h =
      elim (Bool-cases ((e.child_id == v.0) && contains is e.parent_id)) [
        | inl here ↦ rw (here, repeat_vector) (h, All-repeat_vector P is v es h)
        | inr other ↦ rw (other, repeat_vector) (All-repeat_vector P is v es h)
      ]

  pub All-vectors_under :
      (P : ℕ × E → Type 0) (is : List ℕ) (es : List (TreeEdge F)) (vs : List (ℕ × E))
      → All P vs
      → All P (vectors_under is es vs)
  unfolding vectors_under
  All-vectors_under P is es [] h = tt
  All-vectors_under P is es (v ∷ vs) h =
      All-append P _ _ (All-repeat_vector P is v es h.0) (All-vectors_under P is es vs h.1)

  -- The move of one leaf.
  pub move_leaf :
      (p : ℕ) (e : TreeEdge F) (s : Store F E)
      → IsValid s
      → has_row e.parent_id s.tree_nodes ≡ true
      → has_row e.child_id s.tree_nodes ≡ true
      → (t : Store F E) × (add_edge e (remove_edge p e.child_id s) ≡ some t) × IsGardened s t
  unfolding add_edge remove_edge
  move_leaf p e s v h k =
      let c = e.child_id in
      let left = filter (λ x. not ((x.parent_id == p) && (x.child_id == c))) s.tree_edges in
      elim (Bool-cases (has_edge e.parent_id c left)) [
        | inl old ↦
            let t : Store F E = record s { tree_edges = left } in
            let added : add_edge e (remove_edge p c s) ≡ some t = rw (h, k, old) in
            (
              t,
              added,
              record {
                valid = add_edge-IsValid e (remove_edge p c s) (remove_edge-IsValid p c s v) added;
                ids_kept = refl;
                leaves_kept = refl;
                leaf_vectors_kept = refl;
                bodies_kept = refl;
                parents_kept = λ id had. elim (Bool-cases (id == c)) [
                  | inl same ↦
                      rw ((eqb_iff id c).0 same) (has_parent_of_edge e.parent_id c left old)
                  | inr other ↦ has_parent-filter p c id s.tree_edges other ∙ had
                ];
              },
            )
        | inr new ↦
            let t : Store F E = record s { tree_edges = left ++ (e ∷ []) } in
            let added : add_edge e (remove_edge p c s) ≡ some t = rw (h, k, new) in
            (
              t,
              added,
              record {
                valid = add_edge-IsValid e (remove_edge p c s) (remove_edge-IsValid p c s v) added;
                ids_kept = refl;
                leaves_kept = refl;
                leaf_vectors_kept = refl;
                bodies_kept = refl;
                parents_kept = λ id had. elim (Bool-cases (id == c)) [
                  | inl same ↦
                      rw ((eqb_iff id c).0 same, has_parent-append c left (e ∷ []))
                        (ground (arith, eqb_iff c c))
                  | inr other ↦
                      rw (has_parent-append id left (e ∷ []))
                        (ground (arith, has_parent-filter p c id s.tree_edges other))
                ];
              },
            )
      ]
