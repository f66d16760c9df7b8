-- ===== src/Tests/Placement.antt =====
-- Document placement at concrete stores.
use neurolithe.App.Placement.RollUp.Keeps.{roll_up_from_covers}
use neurolithe.App.Placement.RollUp.{recompute_all, roll_up_from, HashOrder, parent_ids}
use neurolithe.App.Placement.Filing.Upsert.{
  IsFiled, leaf_of, place_with_body-IsFiled, replace_with_body-leaves,
}
use mathlib.Core.List.Perm
use neurolithe.Store.Ltm.Similar.{join_rows, find_similar_concepts}
use neurolithe.App.Placement.Choice.{
  margin, matches, ids_of, candidates, Candidates, Placing, decide, target, target-IsConcept,
}
use neurolithe.Store.Ltm.Queries.{get_roots, get_inbox}
use neurolithe.App.Placement.Filing.Leaves.{has_leaf, carries}
use neurolithe.Store.Ltm.Rows.{NodeRow, Store, is_concept}
use neurolithe.Base.{
  ℕ, ◌≡◌, refl, ◌↔◌, Bool, true, false, not, none, some, List, [], ◌∷◌, ◌++◌, arith, is_some, ◌==◌,
  filter, any, find, All, nat_key, text_key,
}
use neurolithe.Base.Text.{text}
use neurolithe.Domain.Ltm.{TreeNodeKind}
use neurolithe.Store.Ltm.Integrity.{IsValid}
use neurolithe.App.Placement.RollUp.Walk.{IsAncestor}
use neurolithe.App.Placement.Filing.{
  DocumentToPlace, Placement, forget, place_with_body, replace_with_body, garden_inbox,
}
use neurolithe.App.Placement.Filing.Removal.{forget_complete}
use neurolithe.App.Placement.Filing.Moves.{IsGardened}
use neurolithe.App.Placement.Filing.Garden.{garden_inbox-IsGardened}
use neurolithe.Tests.Floats.{Fixed, fixed}
use neurolithe.Tests.Unicode.{ascii}
use neurolithe.Tests.Tree.{small_store, nearest, row, edge, source}

abbrev in_order : HashOrder
in_order = record { order = λ xs. xs; order-perm = λ xs. Perm.refl xs }

abbrev placing : Placing Fixed
placing = record {
  max_distance = fixed.decimal 5 1;
  min_margin = fixed.decimal 0 0;
  max_summary_len = 600;
}

-- A root with a branch and the inbox, which holds a lease.
abbrev pub office : Store Fixed ℕ
office = record small_store {
  next_id = 5;
  tree_nodes =
      row 1 (text "root") TreeNodeKind.spine
      ∷ row 2 (text "notes") TreeNodeKind.spine
      ∷ row 3 (text "inbox") TreeNodeKind.inbox
      ∷ row 4 (text "Lease") TreeNodeKind.leaf
      ∷ [];
  tree_edges = edge 1 2 ∷ edge 1 3 ∷ edge 3 4 ∷ [];
  leaves = record { tree_node_id = 4; data_id = text "doc-1"; provenance = source } ∷ [];
  vec_leaves = (4, 7) ∷ [];
}

office-IsValid : IsValid office
office-IsValid = record {
  once = refl;
  below = omega arith;
  edges = ((refl, refl), ((refl, refl), ((refl, refl), tt)));
  leaf_rows = (refl, tt);
  concept_vectors = (refl, (refl, tt));
  leaf_vectors = (refl, tt);
}

abbrev lease : DocumentToPlace Fixed ℕ
lease = record {
  name = text "Lease 2";
  summary = text "The flat.";
  embedding = 9;
  data_id = text "doc-1";
  provenance = source;
}

abbrev two_matches : Candidates Fixed
two_matches = record {
  best = some (record { id = 2; name = text "notes"; distance = fixed.decimal 3 1 });
  runner_up = some (record { id = 5; name = text "home"; distance = fixed.decimal 4 1 });
}

nearest_concept : target fixed nearest placing 9 office ≡ some 2
unfolding target candidates get_roots ids_of matches find_similar_concepts decide margin join_rows
nearest_concept = refl

target-IsConcept_example :
    (r : NodeRow) × (find (λ x. x.id == 2) office.tree_nodes ≡ some r)
    × (is_concept r.kind ≡ true)
    × (any (λ e. e.child_id == 2) office.tree_edges ≡ true)
target-IsConcept_example = target-IsConcept fixed nearest placing 9 office nearest_concept

roll_up_from_covers_example :
    (rounds : List (ℕ × ℕ)) × (roll_up_from ascii in_order 600 4 office
      ≡ some (recompute_all ascii in_order 600 rounds office))
    × ((x : ℕ) → (any (λ r. r.0 == x) rounds ≡ true) ↔ IsAncestor (parent_ids office) 4 x)
roll_up_from_covers_example = roll_up_from_covers ascii in_order 600 4 office

forget_complete_example :
    (t : Store Fixed ℕ) × (found : Bool) × (forget ascii in_order 600 (text "doc-1") office
      ≡ some (t, found))
    × IsValid t
    × All (λ l. (l.data_id == text "doc-1") ≡ false) t.leaves
    × All (λ b. (b.data_id == text "doc-1") ≡ false) t.doc_bodies
    × (t.leaves
        ≡ filter (λ l. not (carries (text "doc-1") office.leaves l.tree_node_id)) office.leaves)
    × (found ≡ has_leaf (text "doc-1") office.leaves)
forget_complete_example = forget_complete ascii in_order 600 (text "doc-1") office office-IsValid

office_inbox : is_some (get_inbox office) ≡ true
unfolding get_inbox
office_inbox = refl

place_with_body-IsFiled_example :
    (t : Store Fixed ℕ) × (placed : Placement) × (place_with_body ascii in_order fixed nearest
        placing lease none office
      ≡ some (t, placed))
    × IsFiled
        (fixed.decimal 1 0)
        (target fixed nearest placing lease.embedding office)
        lease
        none
        office
        t
        placed
place_with_body-IsFiled_example =
    place_with_body-IsFiled ascii in_order fixed nearest placing lease none office office-IsValid
      office_inbox

replace_with_body-leaves_example :
    (t : Store Fixed ℕ) × (placed : Placement) × (replaced : ℕ) × (replace_with_body ascii in_order
        fixed nearest placing lease none office
      ≡ some (t, (placed, replaced)))
    × IsValid t
    × (t.leaves
        ≡ filter (λ l. not (carries lease.data_id office.leaves l.tree_node_id)) office.leaves
          ++ (leaf_of office.clock lease placed.leaf_node_id ∷ []))
    × All (λ l. (l.data_id == lease.data_id) ≡ true → l.tree_node_id ≡ placed.leaf_node_id) t.leaves
replace_with_body-leaves_example =
    replace_with_body-leaves ascii in_order fixed nearest placing lease none office office-IsValid
      office_inbox

garden_inbox-IsGardened_example :
    (t : Store Fixed ℕ) × (moved : ℕ) × (garden_inbox ascii in_order fixed nearest placing office
      ≡ some (t, moved))
    × IsGardened office t
    × (moved ≡ 0 → t ≡ office)
garden_inbox-IsGardened_example =
    garden_inbox-IsGardened ascii in_order fixed nearest placing office office-IsValid
