-- ===== src/App/Retrieval/Hits.antt =====
-- A hit of  is built at every node, and its lists are bounded.
use neurolithe.App.Retrieval.{
  to_ref, recall_max_leaves, NodeView, RecallResult, node_views, hit_children, hit_leaves,
  assemble_hit, Nodes, assemble,
}
use neurolithe.Store.Ltm.Similar.{found_id}
use neurolithe.Store.Ltm.Queries.{get_child_leaves, get_leaf, get_children}
use neurolithe.Store.Ltm.Rows.{has_edge, is_leaf, Store, NodeRow, row_to_node}
use mathlib.Core.Path.{subst}
use neurolithe.Base.{
  ℕ, zero, suc, ◌≤◌, ◌≡◌, refl, sym, ap, inl, inr, Bool, true, false, none, some, List, [], ◌∷◌,
  map, arith, if◌then◌else◌, Bool-cases, Option-cases, is_some, ◌==◌, eqb_iff, length, take, filter,
  find, All, length-take, All-mono, contains, length-map, nat_key, text_key,
}
use neurolithe.Base.Maps.{Map, lookup, insert, remove}
use neurolithe.Domain.Ltm.{TreeNode}
use neurolithe.App.Retrieval.Ancestors.{collect_ancestors-IsAbove}

abbrev view_of : NodeRow → NodeView
view_of r = record { id = r.id; name = r.name; summary = r.summary; kind = r.kind }

node_views-rows : (rs : List NodeRow) → node_views (map row_to_node rs) ≡ some (map view_of rs)
unfolding node_views
node_views-rows [] = refl
node_views-rows (r ∷ rs) = rw (node_views-rows rs)

take-map : {A B : Type 0} (f : A → B) (k : ℕ) (xs : List A) → take k (map f xs) ≡ map f (take k xs)
take-map f zero xs = refl
take-map f (suc k) [] = refl
take-map f (suc k) (x ∷ xs) = ap (◌∷◌ (f x)) (take-map f k xs)

module _ {V : Type 0} (P : ℕ × V → Type 0) where
  pub All-insert : (q : ℕ) (v : V) (m : Map ℕ V) → P (q, v) → All P m → All P (insert q v m)
  All-insert q v [] new h = (new, tt)
  All-insert q v (e ∷ m) new (here, h) = elim (Bool-cases (q == e.0)) [
    | inl same ↦ rw same (new, h)
    | inr other ↦ rw other (here, All-insert q v m new h)
  ]

  pub All-remove : (q : ℕ) (m : Map ℕ V) → All P m → All P (remove q m)
  All-remove q [] h = tt
  All-remove q (e ∷ m) (here, h) = elim (Bool-cases (q == e.0)) [
    | inl same ↦ rw same (All-remove q m h)
    | inr other ↦ rw other (here, All-remove q m h)
  ]

  All-lookup : (q : ℕ) (v : V) (m : Map ℕ V) → lookup q m ≡ some v → All P m → P (q, v)
  All-lookup q v [] e h = cc
  All-lookup q v (x ∷ m) e (here, h) = elim (Bool-cases (q == x.0)) [
    | inl same ↦
        let value : x.1 ≡ v = ground (arith, same, e) in
        let key : x.0 ≡ q = sym ((eqb_iff q x.0).0 same) in
        subst (λ z. P (z, v)) key (subst (λ z. P (x.0, z)) value here)
    | inr other ↦ All-lookup q v m (ground (arith, e, other)) h
  ]

module _ {F E : Type 0} (s : Store F E) where
  -- A hit at a node of the store, with bounded lists.
  abbrev pub IsHit : RecallResult F → Type 0
  IsHit h =
      ((r : NodeRow) × (find (λ x. x.id == r.id) s.tree_nodes ≡ some r) × (h.entry ≡ view_of r))
      × (length h.children ≤ 20)
      × (length h.leaves ≤ 20)

  -- A node of the store, under its id.
  abbrev pub IsFound : ℕ × (TreeNode × F) → Type 0
  IsFound e =
      (r : NodeRow) × (find (λ x. x.id == e.0) s.tree_nodes ≡ some r) × (e.1.0 ≡ row_to_node r)

  hit_children-rows :
      (r : NodeRow)
      → (rs : List NodeRow) × (hit_children (row_to_node r) r.id s ≡ map row_to_node rs)
        × (length rs ≤ 20)
  unfolding get_children
  hit_children-rows r = elim (Bool-cases (is_leaf r.kind)) [
    | inl leaf ↦ ([], rw leaf refl, omega arith)
    | inr other ↦
        let rows = filter (λ c. has_edge r.id c.id s.tree_edges) s.tree_nodes in
        (take 20 rows, rw other (take-map row_to_node 20 rows), omega (arith, length-take 20 rows))
  ]

  hit_leaves-length : (r : NodeRow) → length (hit_leaves (row_to_node r) r.id s) ≤ 20
  hit_leaves-length r = elim (Bool-cases (is_leaf r.kind)) [
    | inl leaf ↦ elim (Option-cases (get_leaf r.id s)) [
      | inl missing ↦ rw (leaf, missing) (omega arith)
      | inr (l, found) ↦ rw (leaf, found) (omega arith)
    ]
    | inr other ↦
        let ls = take recall_max_leaves (get_child_leaves r.id s) in
        rw other (omega (arith, length-map to_ref ls, length-take 20 (get_child_leaves r.id s)))
  ]

  assemble_hit-IsHit :
      (r : NodeRow) (distance : F)
      → find (λ x. x.id == r.id) s.tree_nodes ≡ some r
      → (h : RecallResult F) × (assemble_hit (row_to_node r) distance s ≡ some h)
        × IsHit h
        × (h.entry.id ≡ r.id)
  unfolding assemble_hit
  assemble_hit-IsHit r distance found =
      let (out, climbed, above, same, once, exactly) = collect_ancestors-IsAbove s r.id in
      let (below, children, few) = hit_children-rows r in
      (
        record {
          entry = view_of r;
          ancestors = map view_of above;
          children = map view_of below;
          leaves = hit_leaves (row_to_node r) r.id s;
          distance = distance;
          score = none;
        },
        rw (climbed, same, node_views-rows above, children, node_views-rows below, assemble_hit),
        ((r, found, refl), omega (arith, few, length-map view_of below), hit_leaves-length r),
        refl,
      )

  -- A hit for one of the ids, with a score if they are asked for.
  abbrev IsHitFor : Bool → List ℕ → RecallResult F → Type 0
  IsHitFor include_scores keys h =
      IsHit h × (is_some h.score ≡ include_scores) × (contains keys h.entry.id ≡ true)

  IsHitFor-more :
      (include_scores : Bool) (key : ℕ) (keys : List ℕ) (hits : List (RecallResult F))
      → All (IsHitFor include_scores keys) hits
      → All (IsHitFor include_scores (key ∷ keys)) hits
  IsHitFor-more include_scores key keys hits h =
      All-mono _ _ (λ x k. (k.0, k.1, ground (arith, k.2))) hits h

  scored_as : Bool → F → RecallResult F → RecallResult F
  scored_as include_scores score h = record h {
    score = if include_scores then some score else none;
  }

  scored_as-some :
      (include_scores : Bool) (score : F) (h : RecallResult F)
      → is_some (scored_as include_scores score h).score ≡ include_scores
  unfolding scored_as
  scored_as-some true score h = refl
  scored_as-some false score h = refl

  Assembled : Bool → List (ℕ × F) → Nodes F → Type 0
  Assembled include_scores fused m =
      (hits : List (RecallResult F)) × (assemble include_scores fused s m ≡ some hits)
      × All (IsHitFor include_scores (map (λ e. e.0) fused)) hits
      × (length hits ≤ length fused)

  assemble-one :
      (include_scores : Bool) (id : ℕ) (score : F) (fused : List (ℕ × F)) (m : Nodes F)
      (entry : TreeNode × F)
      → lookup id m ≡ some entry
      → IsFound (id, entry)
      → Assembled include_scores fused (remove id m)
      → Assembled include_scores ((id, score) ∷ fused) m
  unfolding assemble Assembled scored_as
  assemble-one include_scores id score fused m entry there (r, row, node) (hits, e, good, few) =
      let same = found_id id s.tree_nodes r row in
      let found : find (λ x. x.id == r.id) s.tree_nodes ≡ some r =
        subst (λ z. find (λ x. x.id == z) s.tree_nodes ≡ some r) (sym same) row in
      let (hit, assembled, is_hit, at) = assemble_hit-IsHit r entry.1 found in
      let made : assemble_hit entry.0 entry.1 s ≡ some hit =
        subst (λ n. assemble_hit n entry.1 s ≡ some hit) (sym node) assembled in
      (
        scored_as include_scores score hit ∷ hits,
        rw (there, made, e, assemble),
        (
          (
            is_hit,
            scored_as-some include_scores score hit,
            ground (arith, at, same, eqb_iff id hit.entry.id),
          ),
          IsHitFor-more include_scores id (map (λ x. x.0) fused) hits good,
        ),
        omega (arith, few),
      )

  -- The loop over the fused ids.
  assemble-IsHit :
      (include_scores : Bool) (fused : List (ℕ × F)) (m : Nodes F)
      → All IsFound m
      → Assembled include_scores fused m
  unfolding assemble Assembled
  assemble-IsHit include_scores [] m found = ([], refl, tt, omega arith)
  assemble-IsHit include_scores ((id, score) ∷ fused) m found = elim (Option-cases (lookup id m)) [
    | inl missing ↦
        let (hits, e, good, few) = assemble-IsHit include_scores fused m found in
        (
          hits,
          rw (missing, assemble) e,
          IsHitFor-more include_scores id (map (λ x. x.0) fused) hits good,
          omega (arith, few),
        )
    | inr (entry, there) ↦
        assemble-one include_scores id score fused m entry there
          (All-lookup IsFound id entry m there found)
          (assemble-IsHit include_scores fused (remove id m) (All-remove IsFound id m found))
  ]

  pub assemble-hits :
      (include_scores : Bool) (fused : List (ℕ × F)) (m : Nodes F)
      → All IsFound m
      → (hits : List (RecallResult F)) × (assemble include_scores fused s m ≡ some hits)
        × All (IsHitFor include_scores (map (λ e. e.0) fused)) hits
        × (length hits ≤ length fused)
  unfolding Assembled
  assemble-hits = assemble-IsHit
