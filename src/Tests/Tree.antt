-- ===== src/Tests/Tree.antt =====
-- The knowledge tree at concrete stores.
use neurolithe.Store.Ltm.Integrity.{delete_node_with_summaries-IsDeleted, IsDeleted, IsValid}
use neurolithe.Base.{ℕ, ◌≡◌, refl, true, none, some, List, [], ◌∷◌, arith, is_some, nat_key}
use neurolithe.Base.Text.{Text, text}
use neurolithe.Domain.Ltm.{TreeNodeKind, TreeNode, TreeEdge, Provenance, new_node, default_spine}
use neurolithe.Store.Ltm.Rows.{Store, NodeRow, has_row}
use neurolithe.Store.Ltm.Queries.{get_inbox}
use neurolithe.Store.Ltm.Writes.{create_leaf_node, filed, delete_node_with_summaries}
use neurolithe.Store.Ltm.Spine.{seed_spine_from, seed_spine_from-IsValid}
use neurolithe.Tests.Floats.{Fixed, fixed}
use neurolithe.Tests.Unicode.{ascii}

abbrev empty_store : Store Fixed ℕ
empty_store = record {
  next_id = 1;
  clock = 100;
  tree_nodes = [];
  tree_edges = [];
  leaves = [];
  vec_ltm = [];
  vec_leaves = [];
  doc_bodies = [];
}

empty_store-IsValid : IsValid empty_store
empty_store-IsValid = record {
  once = refl;
  below = tt;
  edges = tt;
  leaf_rows = tt;
  concept_vectors = tt;
  leaf_vectors = tt;
}

seed_spine_from-IsValid_example :
    (t : Store Fixed ℕ) × (seed_spine_from ascii fixed default_spine empty_store ≡ some t)
    × IsValid t
    × ((id : ℕ) → has_row id empty_store.tree_nodes ≡ true → has_row id t.tree_nodes ≡ true)
    × (is_some (get_inbox t) ≡ true)
seed_spine_from-IsValid_example =
    seed_spine_from-IsValid ascii fixed default_spine empty_store empty_store-IsValid

abbrev pub row : ℕ → Text → TreeNodeKind → NodeRow
row id name kind = record {
  id = id;
  name = name;
  summary = [];
  kind = kind;
  permanent = true;
  created_at = 100;
  updated_at = 100;
}

abbrev pub edge : ℕ → ℕ → TreeEdge Fixed
edge p c = record { parent_id = p; child_id = c; weight = fixed.decimal 1 0 }

-- A root with one branch, which has a vector.
abbrev pub small_store : Store Fixed ℕ
small_store = record empty_store {
  next_id = 3;
  tree_nodes =
      row 1 (text "root") TreeNodeKind.spine ∷ row 2 (text "notes") TreeNodeKind.spine ∷ [];
  tree_edges = edge 1 2 ∷ [];
  vec_ltm = (1, 0) ∷ (2, 5) ∷ [];
}

small_store-IsValid : IsValid small_store
small_store-IsValid = record {
  once = refl;
  below = omega arith;
  edges = ((refl, refl), tt);
  leaf_rows = tt;
  concept_vectors = (refl, (refl, tt));
  leaf_vectors = tt;
}

abbrev lease : TreeNode
lease = new_node (text "Lease") (text "The flat.") TreeNodeKind.leaf

abbrev pub source : Provenance Fixed
source = record { source = text "scan"; ingested_at = none; confidence = fixed.decimal 9 1 }

abbrev filed_store : Store Fixed ℕ
filed_store =
    unfold filed in filed lease 3 (text "doc-1") source 2 (fixed.decimal 1 0) none small_store

lease_filed :
    create_leaf_node lease 3 (text "doc-1") source 2 (fixed.decimal 1 0) none small_store
    ≡ some (filed_store, 3)
unfolding create_leaf_node filed
lease_filed = refl

delete_node_with_summaries-IsDeleted_example :
    IsDeleted 2 small_store (delete_node_with_summaries 2 ((1, text "empty") ∷ []) small_store)
delete_node_with_summaries-IsDeleted_example =
    delete_node_with_summaries-IsDeleted 2 ((1, text "empty") ∷ []) small_store small_store-IsValid

-- Every vector is equally near.
abbrev pub nearest : List (ℕ × ℕ) → ℕ → ℕ → List (ℕ × Fixed)
nearest [] v k = []
nearest (e ∷ es) v k = (e.0, fixed.decimal 3 1) ∷ nearest es v k
