-- ===== src/App/Placement/Filing.antt =====
-- src/application/ltm_placement.rs: `place_with_body`, `remove_leaves`, `forget`,
-- `replace_with_body` and `garden_inbox`. `none` is an error or a panic; SQLite does not fail.
pub mod Leaves
pub mod Removal
pub mod Upsert
pub mod Moves
pub mod Garden
use neurolithe.Base.{
  ℕ, ◌+◌, Bool, true, false, not, Option, none, some, List, [], ◌∷◌, ◌++◌, map, ltb, if◌then◌else◌,
  ◌==◌, filter, contains, nat_key, text_key,
}
use neurolithe.Base.Float.{Float}
use neurolithe.Base.Text.{Text, Unicode}
use neurolithe.Domain.Ltm.{TreeNodeKind, TreeNode, new_node, Provenance, DocumentBody}
use neurolithe.Store.Ltm.Rows.{Store}
use neurolithe.Store.Ltm.Queries.{
  get_children, get_parents, get_nodes_by_data_id, get_inbox, inbox_leaf_embeddings,
}
use neurolithe.Store.Ltm.Writes.{
  add_edge, remove_edge, create_leaf_node, delete_node_with_summaries, delete_document_body,
}
use neurolithe.Store.Ltm.Spine.{new_edge}
use neurolithe.App.Placement.Choice.{Placing, target, ids_of}
use neurolithe.App.Placement.Summaries.{collection_summary}
use neurolithe.App.Placement.RollUp.{HashOrder, roll_up_from, roll_up_all}

pub record DocumentToPlace (F E : Type 0) : Type 0 where
  pub name : Text
  pub summary : Text
  pub embedding : E
  pub data_id : Text
  pub provenance : Provenance F

pub record Placement : Type 0 where
  pub leaf_node_id : ℕ
  pub parent_id : ℕ
  pub matched : Bool

-- `if !parents.contains(&pid) { parents.push(pid) }`, for each parent.
unfoldable pub push_parents : List ℕ → List ℕ → List ℕ
push_parents out [] = out
push_parents out (p ∷ ps) = push_parents (if contains out p then out else out ++ (p ∷ [])) ps

-- The variables of the loop of `remove_leaves`, with the store.
pub record Removing (F E : Type 0) : Type 0 where
  pub store : Store F E
  pub parents : List ℕ
  pub removed : ℕ

abbrev pub is_id : Option ℕ → ℕ → Bool
is_id none id = false
is_id (some k) id = k == id

module _ (u : Unicode) (max_len : ℕ) {F E : Type 0} where
  -- The summary of a parent without the leaf.
  abbrev pub summary_without : ℕ → Store F E → ℕ → ℕ × Text
  summary_without leaf_id s pid = (
    pid,
    collection_summary u (filter (λ c. not (is_id c.id leaf_id)) (get_children pid s)) max_len,
  )

  -- One round of the loop; `none` is the panic of a stored node with no id.
  unfoldable pub remove_one : Option ℕ → TreeNode → Removing F E → Option (Removing F E)
  remove_one keep leaf r = elim leaf.id [
    | none ↦ none
    | some id ↦ some (
        if is_id keep id
        then r
        else let pids = ids_of (get_parents id r.store) in
          record {
            store = delete_node_with_summaries id (map (summary_without id r.store) pids) r.store;
            parents = push_parents r.parents pids;
            removed = r.removed + 1;
          })
  ]

  unfoldable pub remove_each : Option ℕ → List TreeNode → Removing F E → Option (Removing F E)
  remove_each keep [] r = some r
  remove_each keep (n ∷ ns) r = elim (remove_one keep n r) [
    | none ↦ none
    | some r' ↦ remove_each keep ns r'
  ]

module _ (u : Unicode) (hash : HashOrder) (max_len : ℕ) {F E : Type 0} where
  unfoldable pub remove_leaves : Text → Option ℕ → Store F E → Option (Store F E × ℕ)
  remove_leaves data_id keep s =
      elim (remove_each u max_len keep (get_nodes_by_data_id data_id s)
        (record { store = s; parents = []; removed = 0 })) [
          | none ↦ none
          | some r ↦ elim (roll_up_all u hash max_len r.parents r.store) [
            | none ↦ none
            | some t ↦ some (t, r.removed)
          ]
        ]

  unfoldable pub forget : Text → Store F E → Option (Store F E × Bool)
  forget data_id s = elim (remove_leaves data_id none s) [
    | none ↦ none
    | some (t, removed) ↦ some (delete_document_body data_id t, ltb 0 removed)
  ]

module _ (u : Unicode) (hash : HashOrder) (fl : Float) {E : Type 0}
    (nearest : List (ℕ × E) → E → ℕ → List (ℕ × fl.F64)) where
  -- The parent, and whether a concept matched; `none` is the error of a store with no inbox.
  unfoldable pub choose_parent : Placing fl.F64 → E → Store fl.F64 E → Option (ℕ × Bool)
  choose_parent p embedding s = elim (target fl nearest p embedding s) [
    | some concept_id ↦ some (concept_id, true)
    | none ↦ elim (get_inbox s) [
      | none ↦ none
      | some i ↦ elim i.id [ none ↦ none | some id ↦ some (id, false) ]
    ]
  ]

  unfoldable pub place_with_body :
      Placing fl.F64
      → DocumentToPlace fl.F64 E
      → Option DocumentBody
      → Store fl.F64 E
      → Option (Store fl.F64 E × Placement)
  place_with_body p doc body s = elim (choose_parent p doc.embedding s) [
    | none ↦ none
    | some (parent_id, matched) ↦
        elim (create_leaf_node (new_node doc.name doc.summary TreeNodeKind.leaf) doc.embedding
          doc.data_id doc.provenance parent_id (fl.decimal 1 0) body s) [
            | none ↦ none
            | some (t, leaf) ↦ elim (roll_up_from u hash p.max_summary_len parent_id t) [
              | none ↦ none
              | some t' ↦
                  some
                    (t', record { leaf_node_id = leaf; parent_id = parent_id; matched = matched })
            ]
          ]
  ]

  unfoldable pub replace_with_body :
      Placing fl.F64
      → DocumentToPlace fl.F64 E
      → Option DocumentBody
      → Store fl.F64 E
      → Option (Store fl.F64 E × (Placement × ℕ))
  replace_with_body p doc body s = elim (place_with_body p doc body s) [
    | none ↦ none
    | some (t, placed) ↦
        elim (remove_leaves u hash p.max_summary_len doc.data_id (some placed.leaf_node_id) t) [
          | none ↦ none
          | some (t', replaced) ↦ some (t', (placed, replaced))
        ]
  ]

  -- The loop of `garden_inbox`: the store, the concepts touched and the number moved.
  unfoldable pub garden_one :
      Placing fl.F64 → ℕ → ℕ × E → Removing fl.F64 E → Option (Removing fl.F64 E)
  garden_one p inbox_id (leaf_id, embedding) r = elim (target fl nearest p embedding r.store) [
    | none ↦ some r
    | some concept_id ↦
        elim (add_edge (new_edge fl concept_id leaf_id) (remove_edge inbox_id leaf_id r.store)) [
          | none ↦ none
          | some t ↦ some (record {
            store = t;
            parents = push_parents r.parents (concept_id ∷ []);
            removed = r.removed + 1;
          })
        ]
  ]

  unfoldable pub garden_each :
      Placing fl.F64 → ℕ → List (ℕ × E) → Removing fl.F64 E → Option (Removing fl.F64 E)
  garden_each p inbox_id [] r = some r
  garden_each p inbox_id (v ∷ vs) r = elim (garden_one p inbox_id v r) [
    | none ↦ none
    | some r' ↦ garden_each p inbox_id vs r'
  ]

  -- The roll-ups after the loop.
  unfoldable pub garden_finish :
      Placing fl.F64 → ℕ → Removing fl.F64 E → Option (Store fl.F64 E × ℕ)
  garden_finish p inbox_id r =
      let rolled = roll_up_all u hash p.max_summary_len (inbox_id ∷ hash.order r.parents) r.store in
      if ltb 0 r.removed
      then elim rolled [ none ↦ none | some t ↦ some (t, r.removed) ]
      else some (r.store, r.removed)

  unfoldable pub garden_inbox : Placing fl.F64 → Store fl.F64 E → Option (Store fl.F64 E × ℕ)
  garden_inbox p s = elim (get_inbox s) [
    | none ↦ some (s, 0)
    | some i ↦ elim i.id [
      | none ↦ none
      | some inbox_id ↦
          elim (garden_each p inbox_id (inbox_leaf_embeddings s)
            (record { store = s; parents = []; removed = 0 })) [
              | none ↦ none
              | some r ↦ garden_finish p inbox_id r
            ]
    ]
  ]
