-- ===== src/Store/Ltm/Spine.antt =====
-- src/infrastructure/ltm_repository.rs: `seed_spine_from`, which creates the configured branches.
use neurolithe.Base.{
  ℕ, ◌≡◌, refl, ◌∙◌, inl, inr, Bool, true, ◌&&◌, Option, none, some, List, [], ◌∷◌, ◌++◌, arith,
  if◌then◌else◌, Bool-cases, Option-cases, is_some, ◌==◌, nat_key, text_key, is_empty, find,
}
use neurolithe.Base.Float.{Float}
use neurolithe.Base.Text.{Text, text, Unicode}
use neurolithe.Domain.Ltm.{spine, inbox, TreeNode, new_node, TreeEdge, SpineSeed, segments}
use neurolithe.Store.Ltm.Rows.{
  NodeRow, Store, is_concept, is_inbox, has_row, has_edge, first_node, row_of,
}
use neurolithe.Store.Ltm.Queries.{find_node_by_name, child_by_name, get_inbox}
use neurolithe.Store.Ltm.Writes.{create_node, add_edge}
use neurolithe.Store.Ltm.Tables.{has_row-append}
use neurolithe.Store.Ltm.Integrity.{IsValid, create_node-IsValid, add_edge-IsValid}

-- `TreeEdge::new`: full weight.
abbrev pub new_edge : (fl : Float) → ℕ → ℕ → TreeEdge fl.F64
new_edge fl parent_id child_id = record {
  parent_id = parent_id;
  child_id = child_id;
  weight = fl.decimal 1 0;
}

pub found_has_row :
    (p : NodeRow → Bool) (rows : List NodeRow) (r : NodeRow)
    → find p rows ≡ some r
    → (has_row r.id rows ≡ true) × (p r ≡ true)
found_has_row p [] r h = cc
found_has_row p (x ∷ rows) r h = ground (arith, found_has_row p rows r)

has_inbox-append :
    (rows : List NodeRow) (r : NodeRow)
    → is_inbox r.kind ≡ true
    → is_some (first_node (find (λ r. is_inbox r.kind) (rows ++ (r ∷ [])))) ≡ true
has_inbox-append [] r h = rw h
has_inbox-append (x ∷ rows) r h = ground (arith, has_inbox-append rows r h)

module _ (u : Unicode) (fl : Float) {E : Type 0} where
  -- A new node below `parent`; `none` is the error of the edge.
  unfoldable pub create_below : ℕ → TreeNode → Store fl.F64 E → Option (Store fl.F64 E × ℕ)
  create_below parent n s =
      let (made, child) = create_node n none s in
      elim (add_edge (new_edge fl parent child) made) [ none ↦ none | some t ↦ some (t, child) ]

  -- One segment of a path.
  unfoldable pub ensure_child : ℕ → Text → Text → Store fl.F64 E → Option (Store fl.F64 E × ℕ)
  ensure_child parent name summary s = elim (child_by_name parent name s) [
    | some id ↦ some (s, id)
    | none ↦ create_below parent (new_node name summary spine) s
  ]

  -- The inner loop: only the last segment has the description.
  unfoldable pub ensure_path : ℕ → List Text → Text → Store fl.F64 E → Option (Store fl.F64 E × ℕ)
  ensure_path parent [] description s = some (s, parent)
  ensure_path parent (name ∷ rest) description s =
      elim (ensure_child parent name (if is_empty rest then description else []) s) [
        | none ↦ none
        | some (t, child) ↦ ensure_path child rest description t
      ]

  unfoldable pub ensure_paths : ℕ → List SpineSeed → Store fl.F64 E → Option (Store fl.F64 E)
  ensure_paths root [] s = some s
  ensure_paths root (seed ∷ seeds) s =
      elim (ensure_path root (segments u seed) seed.description s) [
        | none ↦ none
        | some (t, last) ↦ ensure_paths root seeds t
      ]

  unfoldable pub ensure_root : Store fl.F64 E → Store fl.F64 E × ℕ
  ensure_root s = elim (find_node_by_name (text "root") s) [
    | some id ↦ (s, id)
    | none ↦ create_node (new_node (text "root") (text "Root of the knowledge tree.") spine) none s
  ]

  unfoldable pub ensure_inbox : ℕ → Store fl.F64 E → Option (Store fl.F64 E)
  ensure_inbox root s = elim (get_inbox s) [
    | some there ↦ some s
    | none ↦
        elim (create_below root
          (new_node (text "inbox") (text "Unsorted documents awaiting placement.") inbox) s) [
            | none ↦ none
            | some (t, child) ↦ some t
          ]
  ]

  unfoldable pub seed_spine_from : List SpineSeed → Store fl.F64 E → Option (Store fl.F64 E)
  seed_spine_from seeds s =
      let (rooted, root) = ensure_root s in
      elim (ensure_paths root seeds rooted) [ none ↦ none | some t ↦ ensure_inbox root t ]

  -- A valid store with all the nodes of another.
  abbrev Grew : Store fl.F64 E → Store fl.F64 E → Type 0
  Grew s t =
      IsValid t × ((id : ℕ) → has_row id s.tree_nodes ≡ true → has_row id t.tree_nodes ≡ true)

  create_node-keeps :
      (n : TreeNode) (s : Store fl.F64 E) (id : ℕ)
      → has_row id s.tree_nodes ≡ true
      → has_row id (create_node n none s).0.tree_nodes ≡ true
  unfolding create_node
  create_node-keeps n s id h =
      has_row-append id s.tree_nodes (row_of s.next_id s.clock n n.kind ∷ []) ∙ rw h

  add_edge-succeeds :
      (e : TreeEdge fl.F64) (s : Store fl.F64 E)
      → has_row e.parent_id s.tree_nodes ≡ true
      → has_row e.child_id s.tree_nodes ≡ true
      → (t : Store fl.F64 E) × (add_edge e s ≡ some t) × (t.tree_nodes ≡ s.tree_nodes)
  unfolding add_edge
  add_edge-succeeds e s p c = elim (Bool-cases (has_edge e.parent_id e.child_id s.tree_edges)) [
    | inl old ↦ (s, rw (p, c, old), refl)
    | inr new ↦ (record s { tree_edges = s.tree_edges ++ (e ∷ []) }, rw (p, c, new), refl)
  ]

  create_below-Grew :
      (parent : ℕ) (n : TreeNode) (s : Store fl.F64 E)
      → IsValid s
      → has_row parent s.tree_nodes ≡ true
      → (t : Store fl.F64 E) × (child : ℕ) × (create_below parent n s ≡ some (t, child))
        × Grew s t
        × (has_row child t.tree_nodes ≡ true)
        × (t.tree_nodes ≡ (create_node n none s).0.tree_nodes)
  unfolding create_below
  create_below-Grew parent n s h p =
      let (made, child) = create_node n none s in
      let (valid, new, fresh) = create_node-IsValid n none s h in
      let keeps = create_node-keeps n s in
      let (t, added, rows) =
        add_edge-succeeds (new_edge fl parent child) made (keeps parent p) new in
      (
        t,
        child,
        rw (added, create_below),
        (
          add_edge-IsValid (new_edge fl parent child) made valid added,
          λ id k. rw rows (keeps id k),
        ),
        rw rows new,
        rows,
      )

  ensure_child-Grew :
      (parent : ℕ) (name summary : Text) (s : Store fl.F64 E)
      → IsValid s
      → has_row parent s.tree_nodes ≡ true
      → (t : Store fl.F64 E) × (child : ℕ) × (ensure_child parent name summary s ≡ some (t, child))
        × Grew s t
        × (has_row child t.tree_nodes ≡ true)
  unfolding ensure_child child_by_name
  ensure_child-Grew parent name summary s h p =
      let wanted : NodeRow → Bool =
        λ r. has_edge parent r.id s.tree_edges && ((r.name == name) && is_concept r.kind) in
      elim (Option-cases (find wanted s.tree_nodes)) [
        | inl missing ↦
            let (t, child, made, grew, there, rows) =
              create_below-Grew parent (new_node name summary spine) s h p in
            (t, child, rw (missing, ensure_child) made, grew, there)
        | inr (r, found) ↦ (
          s,
          r.id,
          rw (found, ensure_child),
          (h, λ id k. k),
          (found_has_row wanted s.tree_nodes r found).0,
        )
      ]

  ensure_path-Grew :
      (parent : ℕ) (names : List Text) (description : Text) (s : Store fl.F64 E)
      → IsValid s
      → has_row parent s.tree_nodes ≡ true
      → (t : Store fl.F64 E) × (last : ℕ) × (ensure_path parent names description s
          ≡ some (t, last))
        × Grew s t
  unfolding ensure_path
  ensure_path-Grew parent [] description s h p = (s, parent, refl, (h, λ id k. k))
  ensure_path-Grew parent (name ∷ rest) description s h p =
      let (t, child, e, (valid, keeps), there) =
        ensure_child-Grew parent name (if is_empty rest then description else []) s h p in
      let (t', last, e', (valid', keeps')) =
        ensure_path-Grew child rest description t valid there in
      (t', last, rw (e, ensure_path) e', (valid', λ id k. keeps' id (keeps id k)))

  ensure_paths-Grew :
      (root : ℕ) (seeds : List SpineSeed) (s : Store fl.F64 E)
      → IsValid s
      → has_row root s.tree_nodes ≡ true
      → (t : Store fl.F64 E) × (ensure_paths root seeds s ≡ some t) × Grew s t
  unfolding ensure_paths
  ensure_paths-Grew root [] s h p = (s, refl, (h, λ id k. k))
  ensure_paths-Grew root (seed ∷ seeds) s h p =
      let (t, last, e, (valid, keeps)) =
        ensure_path-Grew root (segments u seed) seed.description s h p in
      let (t', e', (valid', keeps')) = ensure_paths-Grew root seeds t valid (keeps root p) in
      (t', rw (e, ensure_paths) e', (valid', λ id k. keeps' id (keeps id k)))

  ensure_root-Grew :
      (s : Store fl.F64 E)
      → IsValid s
      → Grew s (ensure_root s).0 × (has_row (ensure_root s).1 (ensure_root s).0.tree_nodes ≡ true)
  unfolding ensure_root find_node_by_name
  ensure_root-Grew s h =
      let n = new_node (text "root") (text "Root of the knowledge tree.") spine in
      let wanted : NodeRow → Bool = λ r. r.name == text "root" in
      elim (Option-cases (find wanted s.tree_nodes)) [
        | inl missing ↦
            let (valid, new, fresh) = create_node-IsValid n none s h in
            rw (missing, ensure_root) ((valid, create_node-keeps n s), new)
        | inr (r, found) ↦
            rw (found, ensure_root) ((h, λ id k. k), (found_has_row wanted s.tree_nodes r found).0)
      ]

  ensure_inbox-Grew :
      (root : ℕ) (s : Store fl.F64 E)
      → IsValid s
      → has_row root s.tree_nodes ≡ true
      → (t : Store fl.F64 E) × (ensure_inbox root s ≡ some t)
        × Grew s t
        × (is_some (get_inbox t) ≡ true)
  unfolding ensure_inbox get_inbox create_node
  ensure_inbox-Grew root s h p =
      let n = new_node (text "inbox") (text "Unsorted documents awaiting placement.") inbox in
      elim (Option-cases (get_inbox s)) [
        | inl missing ↦
            let (t, child, made, grew, there, rows) = create_below-Grew root n s h p in
            (
              t,
              rw (missing, made, ensure_inbox),
              grew,
              rw rows (has_inbox-append s.tree_nodes (row_of s.next_id s.clock n inbox) refl),
            )
        | inr (i, found) ↦ (s, rw (found, ensure_inbox), (h, λ id k. k), rw found)
      ]

  -- Seeding a valid store never fails, whatever the seeds: the result is valid, has every node
  -- that was there, and has an inbox.
  pub seed_spine_from-IsValid :
      (seeds : List SpineSeed) (s : Store fl.F64 E)
      → IsValid s
      → (t : Store fl.F64 E) × (seed_spine_from seeds s ≡ some t)
        × IsValid t
        × ((id : ℕ) → has_row id s.tree_nodes ≡ true → has_row id t.tree_nodes ≡ true)
        × (is_some (get_inbox t) ≡ true)
  unfolding seed_spine_from
  seed_spine_from-IsValid seeds s h =
      let (rooted, root) = ensure_root s in
      let ((valid, keeps), there) = ensure_root-Grew s h in
      let (t, e, (valid', keeps')) = ensure_paths-Grew root seeds rooted valid there in
      let (t', e', (valid'', keeps''), has) = ensure_inbox-Grew root t valid' (keeps' root there) in
      (t', rw (e, seed_spine_from) e', valid'', λ id k. keeps'' id (keeps' id (keeps id k)), has)
