-- ===== src/App/Placement/Filing/Garden.antt =====
-- `garden_inbox`: documents move from the inbox to concepts, and none is lost.
use neurolithe.App.Placement.Filing.Moves.{
  IsResummed-IsGardened, IsGardened-trans, All-vectors_under, move_leaf, IsGardened-refl,
  IsGardened,
}
use neurolithe.App.Placement.RollUp.Keeps.{roll_up_all-IsResummed}
use neurolithe.Store.Ltm.Spine.{found_has_row, new_edge}
use neurolithe.Store.Ltm.Rows.{is_inbox, has_row, Store}
use neurolithe.Store.Ltm.Queries.{inbox_leaf_embeddings, get_inbox}
use neurolithe.App.Placement.Filing.{
  push_parents, Removing, garden_finish, garden_inbox, garden_each, garden_one,
}
use neurolithe.Store.Ltm.Similar.{found_id}
use neurolithe.App.Placement.Choice.{target-IsConcept, target, Placing}
use neurolithe.Store.Ltm.Tables.{contains-ids, ids}
use neurolithe.Store.Ltm.Integrity.{IsValid}
use neurolithe.App.Placement.RollUp.{HashOrder}
use neurolithe.Base.{
  ℕ, ◌+◌, ◌≡◌, refl, sym, ap, ◌∙◌, inl, inr, true, some, List, [], ◌∷◌, arith, ltb, Bool-cases,
  Option-cases, find, All, All-mono, contains, nat_key, text_key,
}
use neurolithe.Base.Float.{Float}
use neurolithe.Base.Text.{Unicode}

module _ (u : Unicode) (hash : HashOrder) (fl : Float) {E : Type 0}
    (nearest : List (ℕ × E) → E → ℕ → List (ℕ × fl.F64)) where
  target-has_row :
      (p : Placing fl.F64) (v : E) (s : Store fl.F64 E) (id : ℕ)
      → target fl nearest p v s ≡ some id
      → has_row id s.tree_nodes ≡ true
  target-has_row p v s id best =
      let (r, found, concept, below) = target-IsConcept fl nearest p v s best in
      rw (← found_id id s.tree_nodes r found) (found_has_row _ s.tree_nodes r found).0

  ids-has_row :
      (s t : Store fl.F64 E) (id : ℕ)
      → ids t.tree_nodes ≡ ids s.tree_nodes
      → has_row id t.tree_nodes ≡ has_row id s.tree_nodes
  ids-has_row s t id e =
      sym (contains-ids id t.tree_nodes)
      ∙ (ap (λ l. contains l id) e ∙ contains-ids id s.tree_nodes)

  garden_one-IsGardened :
      (p : Placing fl.F64) (inbox_id : ℕ) (v : ℕ × E) (r : Removing fl.F64 E)
      → IsValid r.store
      → has_row v.0 r.store.tree_nodes ≡ true
      → (r' : Removing fl.F64 E) × (garden_one u hash fl nearest p inbox_id v r ≡ some r')
        × IsGardened r.store r'.store
        × (r'.removed ≡ 0 → (r.removed ≡ 0) × (r'.store ≡ r.store))
  unfolding garden_one
  garden_one-IsGardened p inbox_id (leaf_id, v) r valid there =
      elim (Option-cases (target fl nearest p v r.store)) [
        | inl nowhere ↦ (r, rw (nowhere, garden_one), IsGardened-refl r.store valid, λ h. (h, refl))
        | inr (id, best) ↦
            let (t, moved, h) =
              move_leaf inbox_id (new_edge fl id leaf_id) r.store valid
                (target-has_row p v r.store id best) there in
            (
              record {
                store = t;
                parents = push_parents r.parents (id ∷ []);
                removed = r.removed + 1;
              },
              rw (best, moved, garden_one),
              h,
              λ e. absurd (omega arith),
            )
      ]

  garden_each-IsGardened :
      (p : Placing fl.F64) (inbox_id : ℕ) (vs : List (ℕ × E)) (r : Removing fl.F64 E)
      → IsValid r.store
      → All (λ v. has_row v.0 r.store.tree_nodes ≡ true) vs
      → (r' : Removing fl.F64 E) × (garden_each u hash fl nearest p inbox_id vs r ≡ some r')
        × IsGardened r.store r'.store
        × (r'.removed ≡ 0 → (r.removed ≡ 0) × (r'.store ≡ r.store))
  unfolding garden_each
  garden_each-IsGardened p inbox_id [] r valid there =
      (r, refl, IsGardened-refl r.store valid, λ h. (h, refl))
  garden_each-IsGardened p inbox_id (v ∷ vs) r valid there =
      let (one, e, h, none_moved) = garden_one-IsGardened p inbox_id v r valid there.0 in
      let rest =
        All-mono _ _ (λ x k. ids-has_row r.store one.store x.0 h.ids_kept ∙ k) vs there.1 in
      let (r', e', h', none_moved') = garden_each-IsGardened p inbox_id vs one h.valid rest in
      (
        r',
        rw (e, garden_each) e',
        IsGardened-trans r.store one.store r'.store h h',
        λ k. let (z, same) = none_moved' k in let (z', same') = none_moved z in (z', same ∙ same'),
      )

  -- Gardening never fails on a valid store. Every node, leaf, leaf vector and body stays, no node
  -- loses its last parent, the store stays valid, and it is unchanged if nothing moved.
  pub garden_inbox-IsGardened :
      (p : Placing fl.F64) (s : Store fl.F64 E)
      → IsValid s
      → (t : Store fl.F64 E) × (moved : ℕ) × (garden_inbox u hash fl nearest p s ≡ some (t, moved))
        × IsGardened s t
        × (moved ≡ 0 → t ≡ s)
  unfolding garden_inbox garden_finish get_inbox inbox_leaf_embeddings
  garden_inbox-IsGardened p s valid =
      elim (Option-cases (find (λ r. is_inbox r.kind) s.tree_nodes)) [
        | inl missing ↦ (s, 0, rw (missing, garden_inbox), IsGardened-refl s valid, λ h. refl)
        | inr (i, found) ↦
            let (r, e, h, unmoved) =
              garden_each-IsGardened p i.id (inbox_leaf_embeddings s)
                (record { store = s; parents = []; removed = 0 }) valid
                (All-vectors_under _ _ s.tree_edges s.vec_leaves valid.leaf_vectors) in
            elim (Bool-cases (ltb 0 r.removed)) [
              | inr nothing ↦ (
                r.store,
                r.removed,
                rw (found, e, nothing, garden_inbox, garden_finish),
                h,
                λ k. (unmoved k).1,
              )
              | inl some_moved ↦
                  let (t, rolled, k) =
                    roll_up_all-IsResummed u hash p.max_summary_len (i.id ∷ hash.order r.parents)
                      r.store h.valid in
                  (
                    t,
                    r.removed,
                    rw (found, e, some_moved, rolled, garden_inbox, garden_finish),
                    IsGardened-trans s r.store t h (IsResummed-IsGardened r.store t k),
                    λ z. absurd (ground arith),
                  )
            ]
      ]
