-- ===== src/App/Retrieval/Views.antt =====
-- src/application/ltm_retrieval.rs: `map`, `subtree`, `ancestors`, `expand` and `drill`.
use neurolithe.Store.Ltm.Rows.{has_edge, row_to_node, NodeRow, Store, is_leaf}
use neurolithe.Base.{
  ℕ, zero, suc, ◌≤◌, max, ◌≡◌, refl, ap, ◌∙◌, inl, inr, Bool, false, not, ◌&&◌, ◌||◌, Option, none,
  some, List, [], ◌∷◌, map, arith, if◌then◌else◌, Bool-cases, ◌==◌, filter, any, nat_key, text_key,
}
use neurolithe.Base.Text.{Text}
use neurolithe.Domain.Ltm.{TreeNodeKind, TreeNode}
use neurolithe.Store.Ltm.Queries.{get_node, get_children, get_roots, get_child_leaves}
use neurolithe.App.Retrieval.{collect_ancestors, NodeView, LeafRef, node_view, node_views, to_ref}

mutual
  pub data MapNode : Type 0 where
    map_node : ℕ → Text → Text → TreeNodeKind → MapNodes → MapNode

  -- `Vec<MapNode>`
  pub data MapNodes : Type 0 where
    no_maps : MapNodes
    more_maps : MapNode → MapNodes → MapNodes

module _ {F E : Type 0} (s : Store F E) where
  -- `collect` over the nodes, with what is done for each.
  unfoldable pub map_each : (TreeNode → Option MapNode) → List TreeNode → Option MapNodes
  map_each f [] = some no_maps
  map_each f (n ∷ ns) =
      let rest = map_each f ns in
      elim (f n) [
        | none ↦ none
        | some m ↦ elim rest [ none ↦ none | some ms ↦ some (more_maps m ms) ]
      ]

  unfoldable pub build_map : ℕ → TreeNode → Option MapNode
  build_map zero n = elim n.id [
    | none ↦ none
    | some id ↦ some (map_node id n.name n.summary n.kind no_maps)
  ]
  build_map (suc zero) n = elim n.id [
    | none ↦ none
    | some id ↦ some (map_node id n.name n.summary n.kind no_maps)
  ]
  build_map (suc (suc remaining)) n = elim n.id [
    | none ↦ none
    | some id ↦
        elim (map_each (build_map (suc remaining))
          (filter (λ c. not (is_leaf c.kind)) (get_children id s))) [
            | none ↦ none
            | some children ↦ some (map_node id n.name n.summary n.kind children)
          ]
  ]

  -- `LtmRetrieval::map`
  unfoldable pub map_tree : ℕ → Option MapNodes
  map_tree depth = if depth == 0 then some no_maps else map_each (build_map depth) (get_roots s)

  unfoldable subtree : ℕ → ℕ → Option (Option MapNode)
  subtree node_id depth = if depth == 0 then some none else elim (get_node node_id s) [
    | none ↦ some none
    | some n ↦ elim (build_map depth n) [ none ↦ none | some m ↦ some (some m) ]
  ]

  -- `LtmRetrieval::ancestors`
  unfoldable ancestor_views : ℕ → Option (List NodeView)
  ancestor_views node_id = elim (collect_ancestors node_id s) [
    | none ↦ none
    | some out ↦ node_views out
  ]

  unfoldable expand : ℕ → Option (Option (NodeView × List NodeView))
  expand node_id = elim (get_node node_id s) [
    | none ↦ some none
    | some n ↦ elim (node_views (get_children node_id s)) [
      | none ↦ none
      | some children ↦ elim (node_view n) [ none ↦ none | some v ↦ some (some (v, children)) ]
    ]
  ]

  unfoldable drill : ℕ → Option (Option (NodeView × List (LeafRef F)))
  drill node_id = elim (get_node node_id s) [
    | none ↦ some none
    | some n ↦ elim (node_view n) [
      | none ↦ none
      | some v ↦ some (some (v, map to_ref (get_child_leaves node_id s)))
    ]
  ]

unfoldable mutual
  -- The layers of a map.
  layers : MapNode → ℕ
  layers (map_node id name summary kind children) = suc (layers_each children)

  pub layers_each : MapNodes → ℕ
  layers_each no_maps = 0
  layers_each (more_maps m ms) = max (layers m) (layers_each ms)

unfoldable mutual
  -- Whether a map shows a document.
  shows_leaf : MapNode → Bool
  shows_leaf (map_node id name summary kind children) = is_leaf kind || shows_leaf_each children

  pub shows_leaf_each : MapNodes → Bool
  shows_leaf_each no_maps = false
  shows_leaf_each (more_maps m ms) = shows_leaf m || shows_leaf_each ms

filter-rows :
    (p : TreeNode → Bool) (rs : List NodeRow)
    → filter p (map row_to_node rs) ≡ map row_to_node (filter (λ r. p (row_to_node r)) rs)
filter-rows p [] = refl
filter-rows p (r ∷ rs) = elim (Bool-cases (p (row_to_node r))) [
  | inl kept ↦ rw kept (ap (◌∷◌ (row_to_node r)) (filter-rows p rs))
  | inr gone ↦ rw gone (filter-rows p rs)
]

any-rows :
    (rs : List NodeRow)
    → any (λ n. is_leaf n.kind) (map row_to_node rs) ≡ any (λ r. is_leaf r.kind) rs
any-rows [] = refl
any-rows (r ∷ rs) = ap (λ b. is_leaf r.kind || b) (any-rows rs)

no_leaves :
    (rs : List NodeRow) → any (λ r. is_leaf r.kind) (filter (λ r. not (is_leaf r.kind)) rs) ≡ false
no_leaves [] = refl
no_leaves (r ∷ rs) = ground (arith, no_leaves rs)

module _ {F E : Type 0} (s : Store F E) where
  -- A map of at most `depth` layers, which shows a document only if its root is one.
  abbrev IsMap : ℕ → Bool → Option MapNode → Type 0
  IsMap depth root_is_leaf built =
      (m : MapNode) × (built ≡ some m) × (layers m ≤ depth) × (shows_leaf m ≡ root_is_leaf)

  map_each-IsMap :
      (f : TreeNode → Option MapNode) (depth : ℕ)
      → ((r : NodeRow) → IsMap depth (is_leaf r.kind) (f (row_to_node r)))
      → (rs : List NodeRow)
      → (ms : MapNodes) × (map_each s f (map row_to_node rs) ≡ some ms)
        × (layers_each ms ≤ depth)
        × (shows_leaf_each ms ≡ any (λ r. is_leaf r.kind) rs)
  unfolding map_each layers_each shows_leaf_each
  map_each-IsMap f depth h [] = (no_maps, refl, omega arith, refl)
  map_each-IsMap f depth h (r ∷ rs) =
      let (m, built, few, shown) = h r in
      let (ms, e, fewer, others) = map_each-IsMap f depth h rs in
      (more_maps m ms, rw (built, e, map_each), omega (arith, few, fewer), rw (shown, others))

  build_map-IsMap :
      (depth : ℕ) (r : NodeRow)
      → IsMap (suc depth) (is_leaf r.kind) (build_map s (suc depth) (row_to_node r))
  unfolding build_map layers layers_each shows_leaf shows_leaf_each get_children
  build_map-IsMap zero r =
      (map_node r.id r.name r.summary r.kind no_maps, refl, omega arith, ground arith)
  build_map-IsMap (suc depth) r =
      let rows = filter (λ c. has_edge r.id c.id s.tree_edges) s.tree_nodes in
      let (ms, e, few, shown) =
        map_each-IsMap (build_map s (suc depth)) (suc depth) (build_map-IsMap depth)
          (filter (λ c. not (is_leaf c.kind)) rows) in
      (
        map_node r.id r.name r.summary r.kind ms,
        rw (filter-rows (λ c. not (is_leaf c.kind)) rows, e, build_map, get_children),
        omega (arith, few),
        rw (shown, no_leaves rows) (ground arith),
      )

  -- The map of the tree never fails. It has at most `depth` layers, even in a graph with cycles,
  -- and it shows a document exactly if there is one among the roots that it shows.
  pub map_tree-IsBounded :
      (depth : ℕ)
      → (ms : MapNodes) × (map_tree s depth ≡ some ms)
        × (layers_each ms ≤ depth)
        × (shows_leaf_each ms ≡ (not (depth == 0) && any (λ n. is_leaf n.kind) (get_roots s)))
  unfolding map_tree get_roots layers_each shows_leaf_each
  map_tree-IsBounded zero = (no_maps, refl, omega arith, refl)
  map_tree-IsBounded (suc depth) =
      let roots = filter (λ r. not (any (λ e. e.child_id == r.id) s.tree_edges)) s.tree_nodes in
      let (ms, e, few, shown) =
        map_each-IsMap (build_map s (suc depth)) (suc depth) (build_map-IsMap depth) roots in
      let nonzero : map_tree s (suc depth)
          ≡ map_each s (build_map s (suc depth)) (map row_to_node roots) =
        ground arith in
      (ms, nonzero ∙ e, few, shown ∙ ground (arith, any-rows roots))
