-- ===== src/App/Retrieval.antt =====
-- src/application/ltm_retrieval.rs: the views of the tree and `recall`. `none` is a panic; reading
-- SQLite does not fail.
pub mod Views
pub mod Visits
pub mod Ancestors
pub mod Hits
pub mod Recall
use neurolithe.Domain.Ranking.Fusion.{rrf_fuse}
use neurolithe.Store.Ltm.Similar.{find_similar_any}
use neurolithe.Domain.Ranking.Query.{leg_depth, fts_match_query}
use neurolithe.Domain.Tuning.{Ranking}
use neurolithe.Store.Ltm.Queries.{get_node, get_children, get_parents, get_leaf, get_child_leaves}
use neurolithe.Base.Maps.{lookup, remove, insert, Map}
use neurolithe.Base.Float.{Float}
use neurolithe.Base.Text.{Unicode, Text}
use neurolithe.Base.{
  ℕ, zero, suc, min, max, Bool, not, Option, none, some, List, [], ◌∷◌, ◌++◌, map, if◌then◌else◌,
  is_some, length, take, filter, contains, nat_key, text_key,
}
use neurolithe.Domain.Ltm.{TreeNodeKind, TreeNode, Provenance, Leaf}
use neurolithe.Store.Ltm.Rows.{Store, is_leaf}

abbrev pub recall_max_k : ℕ
recall_max_k = 50

abbrev recall_max_children : ℕ
recall_max_children = 20

abbrev pub recall_max_leaves : ℕ
recall_max_leaves = 20

pub record NodeView : Type 0 where
  pub id : ℕ
  pub name : Text
  pub summary : Text
  pub kind : TreeNodeKind

pub record LeafRef (F : Type 0) : Type 0 where
  pub data_id : Text
  pub provenance : Provenance F

pub record RecallResult (F : Type 0) : Type 0 where
  pub entry : NodeView
  pub ancestors : List NodeView
  pub children : List NodeView
  pub leaves : List (LeafRef F)
  pub distance : F
  pub score : Option F

-- `NodeView::from`
abbrev pub node_view : TreeNode → Option NodeView
node_view n = elim n.id [
  | none ↦ none
  | some id ↦ some (record { id = id; name = n.name; summary = n.summary; kind = n.kind })
]

unfoldable pub node_views : List TreeNode → Option (List NodeView)
node_views [] = some []
node_views (n ∷ ns) =
    let rest = node_views ns in
    elim (node_view n) [
      | none ↦ none
      | some v ↦ elim rest [ none ↦ none | some vs ↦ some (v ∷ vs) ]
    ]

abbrev pub to_ref : {F : Type 0} → Leaf F → LeafRef F
to_ref l = record { data_id = l.data_id; provenance = l.provenance }

-- `seen`, `out` and `queue` of `collect_ancestors`.
pub record Climbing : Type 0 where
  pub seen : List ℕ
  pub out : List TreeNode
  pub queue : List ℕ

unfoldable pub climb_parents : List TreeNode → Climbing → Option Climbing
climb_parents [] w = some w
climb_parents (p ∷ ps) w = elim p.id [
  | none ↦ none
  | some pid ↦ climb_parents ps (
      if contains w.seen pid then w else record {
        seen = w.seen ++ (pid ∷ []);
        out = w.out ++ (p ∷ []);
        queue = w.queue ++ (pid ∷ []);
      })
]

module _ {F E : Type 0} where
  -- The `while` loop; `none` is also that the fuel ran out.
  unfoldable pub climb : Store F E → ℕ → Climbing → Option Climbing
  climb s zero w = none
  climb s (suc fuel) w = elim w.queue [
    | [] ↦ some w
    | current ∷ rest ↦ elim (climb_parents (get_parents current s) (record w { queue = rest })) [
      | none ↦ none
      | some w' ↦ climb s fuel w'
    ]
  ]

  -- A node is put into the queue once, and the first node once more.
  unfoldable pub collect_ancestors : ℕ → Store F E → Option (List TreeNode)
  collect_ancestors node_id s =
      elim (climb s (suc (suc (length s.tree_nodes)))
        (record { seen = []; out = []; queue = node_id ∷ [] })) [
          | none ↦ none
          | some w ↦ some w.out
        ]

  -- A leaf shows its document, a concept its children and documents.
  abbrev pub hit_children : TreeNode → ℕ → Store F E → List TreeNode
  hit_children entry id s =
      if is_leaf entry.kind then [] else take recall_max_children (get_children id s)

  abbrev pub hit_leaves : TreeNode → ℕ → Store F E → List (LeafRef F)
  hit_leaves entry id s =
      if is_leaf entry.kind
      then elim (get_leaf id s) [ none ↦ [] | some l ↦ to_ref l ∷ [] ]
      else map to_ref (take recall_max_leaves (get_child_leaves id s))

  unfoldable pub assemble_hit : TreeNode → F → Store F E → Option (RecallResult F)
  assemble_hit entry distance s = elim entry.id [
    | none ↦ none
    | some id ↦ elim (collect_ancestors id s) [
      | none ↦ none
      | some above ↦ elim (node_views above) [
        | none ↦ none
        | some ancestors ↦ elim (node_views (hit_children entry id s)) [
          | none ↦ none
          | some children ↦ elim (node_view entry) [
            | none ↦ none
            | some view ↦ some (record {
              entry = view;
              ancestors = ancestors;
              children = children;
              leaves = hit_leaves entry id s;
              distance = distance;
              score = none;
            })
          ]
        ]
      ]
    ]
  ]

-- The ids of `vector`, by `expect`.
unfoldable pub expect_ids : {F : Type 0} → List (TreeNode × F) → Option (List ℕ)
expect_ids [] = some []
expect_ids (m ∷ ms) =
    let rest = expect_ids ms in
    elim m.0.id [ none ↦ none | some id ↦ elim rest [ none ↦ none | some ids ↦ some (id ∷ ids) ] ]

-- `nodes`: the nodes that were found, with their distances.
abbrev pub Nodes : Type 0 → Type 0
Nodes F = Map ℕ (TreeNode × F)

unfoldable pub collect_nodes : {F : Type 0} → List (TreeNode × F) → Nodes F → Nodes F
collect_nodes [] m = m
collect_nodes (n ∷ ns) m = collect_nodes ns (elim n.0.id [ none ↦ m | some id ↦ insert id n m ])

module _ {F E : Type 0} where
  -- `leaf_distances`, by `vec_distance_l2` of sqlite-vec.
  unfoldable pub leaf_distances : (E → E → F) → List ℕ → E → Store F E → Map ℕ F
  leaf_distances distance [] embedding s = []
  leaf_distances distance (id ∷ ids) embedding s =
      let rest = leaf_distances distance ids embedding s in
      elim (lookup id s.vec_leaves) [ none ↦ rest | some v ↦ insert id (distance embedding v) rest ]

  -- The loop over `missing`.
  unfoldable pub fill_missing : Map ℕ F → List ℕ → Store F E → Nodes F → Nodes F
  fill_missing distances [] s m = m
  fill_missing distances (id ∷ ids) s m = fill_missing distances ids s (elim (get_node id s) [
    | none ↦ m
    | some node ↦ elim (lookup id distances) [ none ↦ m | some d ↦ insert id (node, d) m ]
  ])

  -- The loop over `fused`.
  unfoldable pub assemble :
      Bool → List (ℕ × F) → Store F E → Nodes F → Option (List (RecallResult F))
  assemble include_scores [] s m = some []
  assemble include_scores ((id, score) ∷ fused) s m =
      let rest = assemble include_scores fused s (remove id m) in
      let skipped = assemble include_scores fused s m in
      elim (lookup id m) [
        | none ↦ skipped
        | some (node, distance) ↦ elim (assemble_hit node distance s) [
          | none ↦ none
          | some hit ↦ elim rest [
            | none ↦ none
            | some hits ↦
                some (record hit { score = if include_scores then some score else none } ∷ hits)
          ]
        ]
      ]

-- `nearest` and `distance` are sqlite-vec's work and `search_bodies` that of FTS5.
module _ (u : Unicode) (fl : Float) {E : Type 0}
    (nearest : List (ℕ × E) → E → ℕ → List (ℕ × fl.F64)) (distance : E → E → fl.F64)
    (search_bodies : Store fl.F64 E → Text → ℕ → List ℕ) where
  abbrev pub vector_leg : Ranking fl.F64 → E → ℕ → Store fl.F64 E → List (TreeNode × fl.F64)
  vector_leg ranking embedding depth s =
      if fl.lt (fl.decimal 0 0) ranking.vector_weight
      then find_similar_any fl nearest embedding fl.max_value depth s
      else []

  abbrev pub keyword_leg : Ranking fl.F64 → Text → ℕ → Store fl.F64 E → List ℕ
  keyword_leg ranking query depth s = elim (fts_match_query u query ranking.fts_stopwords) [
    | none ↦ []
    | some q ↦ if fl.lt (fl.decimal 0 0) ranking.keyword_weight then search_bodies s q depth else []
  ]

  -- `recall` once the legs are fused.
  unfoldable pub recall_fused :
      Ranking fl.F64
      → List (ℕ × fl.F64)
      → E
      → List (TreeNode × fl.F64)
      → Store fl.F64 E
      → Option (List (RecallResult fl.F64))
  recall_fused ranking fused embedding vector s =
      let nodes = collect_nodes vector [] in
      let missing = filter (λ id. not (is_some (lookup id nodes))) (map (λ e. e.0) fused) in
      assemble ranking.include_scores fused s
        (fill_missing (leaf_distances distance missing embedding s) missing s nodes)

  unfoldable pub recall :
      Ranking fl.F64 → Text → E → ℕ → Store fl.F64 E → Option (List (RecallResult fl.F64))
  recall ranking query embedding asked s =
      let k = min (max asked 1) recall_max_k in
      let depth = leg_depth k ranking in
      let vector = vector_leg ranking embedding depth s in
      let keyword = keyword_leg ranking query depth s in
      elim (expect_ids vector) [
        | none ↦ none
        | some vector_ids ↦ elim (rrf_fuse fl vector_ids keyword ranking) [
          | none ↦ none
          | some fused ↦ recall_fused ranking (take k fused) embedding vector s
        ]
      ]
