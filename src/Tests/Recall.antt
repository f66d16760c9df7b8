-- ===== src/Tests/Recall.antt =====
-- Recall at a concrete store.
use neurolithe.Base.{
  ℕ, ◌≤◌, min, max, ◌≡◌, ◌↔◌, true, some, List, [], ◌∷◌, map, is_some, length, any, All, contains,
  distinct, nat_key, text_key,
}
use neurolithe.Base.Text.{Text, text}
use neurolithe.Domain.Ltm.{TreeNode}
use neurolithe.Domain.Tuning.{Ranking}
use neurolithe.Store.Ltm.Rows.{Store, NodeRow, row_to_node}
use neurolithe.Store.Ltm.Tables.{ids}
use neurolithe.App.Retrieval.{RecallResult, collect_ancestors, recall}
use neurolithe.App.Retrieval.Ancestors.{IsAbove, collect_ancestors-IsAbove}
use neurolithe.App.Retrieval.Hits.{IsHit}
use neurolithe.App.Retrieval.Recall.{recall-IsHit}
use neurolithe.App.Retrieval.Views.{
  MapNodes, map_tree, layers_each, shows_leaf_each, map_tree-IsBounded,
}
use neurolithe.Store.Ltm.Queries.{get_roots}
use neurolithe.Store.Ltm.Rows.{is_leaf}
use neurolithe.Tests.Floats.{Fixed, fixed}
use neurolithe.Tests.Unicode.{ascii}
use neurolithe.Tests.Tree.{nearest}
use neurolithe.Tests.Placement.{office}

collect_ancestors-IsAbove_example :
    (out : List TreeNode) × (collect_ancestors 4 office ≡ some out)
    × (rows : List NodeRow) × (out ≡ map row_to_node rows)
    × (distinct (ids rows) ≡ true)
    × ((x : ℕ) → (contains (ids rows) x ≡ true) ↔ IsAbove office 4 x)
collect_ancestors-IsAbove_example = collect_ancestors-IsAbove office 4

abbrev settings : Ranking Fixed
settings = record {
  rrf_k = fixed.decimal 60 0;
  vector_weight = fixed.decimal 7 1;
  keyword_weight = fixed.decimal 3 1;
  leg_k_factor = 3;
  fts_stopwords = true;
  include_scores = true;
}

-- The keyword search finds the lease and a row that is gone.
abbrev found_bodies : Store Fixed ℕ → Text → ℕ → List ℕ
found_bodies s q limit = 4 ∷ 9 ∷ []

recall-IsHit_example :
    (hits : List (RecallResult Fixed)) × (recall ascii fixed nearest
        (λ a b. fixed.decimal 1 0)
        found_bodies
        settings
        (text "the lease")
        9
        70
        office
      ≡ some hits)
    × All (λ h. IsHit office h × (is_some h.score ≡ true)) hits
    × (length hits ≤ min (max 70 1) 50)
recall-IsHit_example =
    recall-IsHit ascii fixed nearest (λ a b. fixed.decimal 1 0) found_bodies office settings
      (text "the lease") 9 70

map_tree-IsBounded_example :
    (ms : MapNodes) × (map_tree office 3 ≡ some ms)
    × (layers_each ms ≤ 3)
    × (shows_leaf_each ms ≡ (any (λ n. is_leaf n.kind) (get_roots office)))
map_tree-IsBounded_example = map_tree-IsBounded office 3
