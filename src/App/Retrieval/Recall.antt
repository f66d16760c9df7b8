-- ===== src/App/Retrieval/Recall.antt =====
-- `recall` never panics, and its result is bounded.
use neurolithe.App.Retrieval.{
  leaf_distances, keyword_leg, recall_max_k, RecallResult, Nodes, collect_nodes, fill_missing,
  expect_ids, recall_fused, recall, vector_leg,
}
use neurolithe.Domain.Ranking.Fusion.Results.{rrf_fuse_candidates}
use neurolithe.Store.Ltm.Similar.{find_similar_any-IsMatch, find_similar_any}
use neurolithe.Domain.Ranking.Query.{leg_depth}
use neurolithe.Store.Ltm.Queries.{get_node}
use neurolithe.Store.Ltm.Rows.{Store, NodeRow, row_to_node}
use neurolithe.Base.{
  ℕ, ◌≤◌, min, max, ◌≡◌, refl, ap, inl, inr, not, some, List, [], ◌∷◌, map, arith, Bool-cases,
  Option-cases, is_some, ◌==◌, length, take, filter, find, All, length-take, All-mono, nat_key,
  text_key,
}
use neurolithe.Base.Float.{Float}
use neurolithe.Base.Maps.{Map, lookup, insert}
use neurolithe.Base.Text.{Text, Unicode}
use neurolithe.Domain.Tuning.{Ranking}
use neurolithe.Domain.Ltm.{TreeNode}
use neurolithe.App.Retrieval.Hits.{All-insert, IsHit, IsFound, assemble-hits}

module _ {F E : Type 0} (s : Store F E) where
  -- A node that was found, as it is in the store.
  abbrev IsRow : TreeNode × F → Type 0
  IsRow m = (r : NodeRow) × (find (λ x. x.id == r.id) s.tree_nodes ≡ some r) × (m.0 ≡ row_to_node r)

  expect_ids-some :
      (ms : List (TreeNode × F)) → All IsRow ms → (out : List ℕ) × (expect_ids ms ≡ some out)
  unfolding expect_ids
  expect_ids-some [] h = ([], refl)
  expect_ids-some (m ∷ ms) ((r, found, same), h) =
      let (out, e) = expect_ids-some ms h in
      let id : m.0.id ≡ some r.id = ap (λ n. n.id) same in (r.id ∷ out, rw (id, e, expect_ids))

  collect_nodes-IsFound :
      (ms : List (TreeNode × F)) (m : Nodes F)
      → All IsRow ms
      → All (IsFound s) m
      → All (IsFound s) (collect_nodes ms m)
  unfolding collect_nodes
  collect_nodes-IsFound [] m rows h = h
  collect_nodes-IsFound (n ∷ ns) m ((r, found, same), rows) h =
      let id : n.0.id ≡ some r.id = ap (λ x. x.id) same in
      rw (id, collect_nodes)
        (collect_nodes-IsFound ns (insert r.id n m) rows
          (All-insert (IsFound s) r.id n m (r, found, same) h))

  fill_missing-IsFound :
      (distances : Map ℕ F) (keys : List ℕ) (m : Nodes F)
      → All (IsFound s) m
      → All (IsFound s) (fill_missing distances keys s m)
  unfolding fill_missing get_node
  fill_missing-IsFound distances [] m h = h
  fill_missing-IsFound distances (id ∷ keys) m h =
      elim (Option-cases (find (λ r. r.id == id) s.tree_nodes)) [
        | inl missing ↦
            rw (missing, fill_missing, get_node) (fill_missing-IsFound distances keys m h)
        | inr (r, found) ↦ elim (Option-cases (lookup id distances)) [
          | inl far ↦
              rw (found, far, fill_missing, get_node) (fill_missing-IsFound distances keys m h)
          | inr (d, near) ↦
              rw (found, near, fill_missing, get_node)
                (fill_missing-IsFound distances keys (insert id (row_to_node r, d) m)
                  (All-insert (IsFound s) id (row_to_node r, d) m (r, found, refl) h))
        ]
      ]

module _ (u : Unicode) (fl : Float) {E : Type 0}
    (nearest : List (ℕ × E) → E → ℕ → List (ℕ × fl.F64)) (distance : E → E → fl.F64)
    (search_bodies : Store fl.F64 E → Text → ℕ → List ℕ) (s : Store fl.F64 E) where
  vector_leg-IsRow :
      (ranking : Ranking fl.F64) (embedding : E) (depth : ℕ)
      → All (IsRow s) (vector_leg u fl nearest distance search_bodies ranking embedding depth s)
  vector_leg-IsRow ranking embedding depth =
      elim (Bool-cases (fl.lt (fl.decimal 0 0) ranking.vector_weight)) [
        | inl on ↦ rw on (
            All-mono _ _ (λ m k. (k.0, k.1, k.2))
              (find_similar_any fl nearest embedding fl.max_value depth s)
              (find_similar_any-IsMatch fl nearest embedding fl.max_value depth s))
        | inr off ↦ rw off tt
      ]

  -- Recall never panics, whatever the searches return. There are between 0 and `k` hits, for `k` in
  -- 1 to 50; each is at a node of the store and shows at most 20 children and 20 documents, and has
  -- a score exactly if scores are asked for.
  pub recall-IsHit :
      (ranking : Ranking fl.F64) (query : Text) (embedding : E) (asked : ℕ)
      → (hits : List (RecallResult fl.F64)) × (recall u fl nearest distance search_bodies ranking
            query embedding asked s
          ≡ some hits)
        × All (λ h. IsHit s h × (is_some h.score ≡ ranking.include_scores)) hits
        × (length hits ≤ min (max asked 1) 50)
  unfolding recall recall_fused
  recall-IsHit ranking query embedding asked =
      let k = min (max asked 1) recall_max_k in
      let depth = leg_depth k ranking in
      let vector = vector_leg u fl nearest distance search_bodies ranking embedding depth s in
      let keyword = keyword_leg u fl nearest distance search_bodies ranking query depth s in
      let rows = vector_leg-IsRow ranking embedding depth in
      let (vector_ids, known) = expect_ids-some s vector rows in
      let (out, fused, once, both, scores) = rrf_fuse_candidates fl vector_ids keyword ranking in
      let chosen = take k out in
      let nodes = collect_nodes vector [] in
      let missing = filter (λ id. not (is_some (lookup id nodes))) (map (λ e. e.0) chosen) in
      let filled = fill_missing (leaf_distances distance missing embedding s) missing s nodes in
      let found =
        fill_missing-IsFound s (leaf_distances distance missing embedding s) missing nodes
          (collect_nodes-IsFound s vector [] rows tt) in
      let (hits, assembled, good, few) =
        assemble-hits s ranking.include_scores chosen filled found in
      (
        hits,
        rw (known, fused, recall, recall_fused) assembled,
        All-mono _ _ (λ h x. (x.0, x.1)) hits good,
        omega (arith, few, length-take k out),
      )
