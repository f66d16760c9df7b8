-- ===== src/App/Placement/Spine.antt =====
-- src/application/ltm_placement.rs: `embed_spine_concepts`.
use neurolithe.Store.Codec.{check_dim}
use neurolithe.Base.{
  ℕ, ◌+◌, ◌≡◌, refl, ap, ◌∙◌, inl, inr, Bool, true, false, not, ◌&&◌, ◌||◌, Option, none, some,
  List, [], ◌∷◌, ◌++◌, map, arith, if◌then◌else◌, Bool-cases, ◌==◌, eqb_iff, length, is_empty,
  filter, any, All, All-append, All-mono, All-filter, length-map, nat_key, text_key,
}
use neurolithe.Base.Text.{Text, text, Unicode, trim}
use neurolithe.Domain.Ltm.{TreeNode}
use neurolithe.Store.Ltm.Rows.{Store, NodeRow, has_row, is_concept, row_to_node}
use neurolithe.Store.Ltm.Queries.{concepts_missing_embedding}
use neurolithe.Store.Ltm.Writes.{set_concept_embedding}
use neurolithe.Store.Ltm.Integrity.{IsValid}

-- The text that is embedded for a concept.
abbrev concept_text : Unicode → TreeNode → Text
concept_text u n =
    if is_empty (trim u.is_whitespace n.summary) then n.name else n.name ++ (text ": " ++ n.summary)

-- `embed_text` is the embedding model, which may fail, and `dim` the length of a vector.
module _ (u : Unicode) {F E : Type 0} (embed_text : Text → Option E) (dim : E → ℕ)
    (expected : ℕ) where
  -- The loop: `none` is an error or a panic, after which the vectors that were written stay.
  unfoldable pub embed_each : List TreeNode → ℕ → Store F E → Option ℕ × Store F E
  embed_each [] embedded s = (some embedded, s)
  embed_each (n ∷ ns) embedded s = elim n.id [
    | none ↦ (none, s)
    | some id ↦ elim (embed_text (concept_text u n)) [
      | none ↦ (none, s)
      | some v ↦
          let rest = embed_each ns (embedded + 1) (set_concept_embedding id v s) in
          if check_dim (dim v) expected then rest else (none, s)
    ]
  ]

  unfoldable pub embed_spine_concepts : Store F E → Option ℕ × Store F E
  embed_spine_concepts s = embed_each (concepts_missing_embedding s) 0 s

-- Whether a node has a vector.
abbrev has_vector : {E : Type 0} → ℕ → List (ℕ × E) → Bool
has_vector id vs = any (λ v. v.0 == id) vs

module _ (u : Unicode) {E : Type 0} (embed_text : Text → Option E) (dim : E → ℕ)
    (expected : ℕ) where
  -- The model gives a vector of the right dimension for the node.
  abbrev pub IsEmbeddable : TreeNode → Type 0
  IsEmbeddable n =
      (v : E) × (embed_text (concept_text u n) ≡ some v) × (check_dim (dim v) expected ≡ true)

rows_there : (rows : List NodeRow) → All (λ r. has_row r.id rows ≡ true) rows
rows_there [] = tt
rows_there (r ∷ rows) = (
  ground (arith, eqb_iff r.id r.id),
  All-mono _ _ (λ x h. ground (arith, h)) rows (rows_there rows),
)

All-unmap :
    {A B : Type 0} (P : B → Type 0) (f : A → B) (xs : List A)
    → All P (map f xs)
    → All (λ x. P (f x)) xs
All-unmap P f [] h = tt
All-unmap P f (x ∷ xs) (here, h) = (here, All-unmap P f xs h)

module _ {E : Type 0} where
  replaced_there :
      (id : ℕ) (v : E) (x : ℕ) (vs : List (ℕ × E))
      → (has_vector x vs || (id == x)) ≡ true
      → has_vector x (filter (λ w. not (w.0 == id)) vs ++ ((id, v) ∷ [])) ≡ true
  replaced_there id v x [] h = ground (arith, h)
  replaced_there id v x (w ∷ vs) h =
      ground (arith, h, replaced_there id v x vs, eqb_iff w.0 id, eqb_iff w.0 x, eqb_iff id x)

  none_missing :
      (vs ws : List (ℕ × E)) (rows : List NodeRow)
      → ((id : ℕ) → has_vector id vs ≡ true → has_vector id ws ≡ true)
      → All
          (λ r. has_vector r.id ws ≡ true)
          (filter (λ r. is_concept r.kind && not (has_vector r.id vs)) rows)
      → filter (λ r. is_concept r.kind && not (has_vector r.id ws)) rows ≡ []
  none_missing vs ws [] kept given = refl
  none_missing vs ws (r ∷ rows) kept given =
      elim (Bool-cases (is_concept r.kind && not (has_vector r.id vs))) [
        | inl missing ↦
            let (got, rest) = rw missing at given in
            let full : (is_concept r.kind && not (has_vector r.id ws)) ≡ false =
              ground (arith, got) in
            rw full (none_missing vs ws rows kept rest)
        | inr other ↦
            let full : (is_concept r.kind && not (has_vector r.id ws)) ≡ false =
              elim (Bool-cases (has_vector r.id vs)) [
                | inl had ↦ let got = kept r.id had in ground (arith, got)
                | inr had ↦ ground (arith, other, had)
              ] in
            rw full (none_missing vs ws rows kept (rw other at given))
      ]

module _ {F E : Type 0} where
  -- The store after the rows `rs` got their vectors.
  record IsEmbedded (rs : List NodeRow) (s t : Store F E) : Type 0 where
    valid : IsValid t
    nodes : t.tree_nodes ≡ s.tree_nodes
    kept : (id : ℕ) → has_vector id s.vec_ltm ≡ true → has_vector id t.vec_ltm ≡ true
    given : All (λ r. has_vector r.id t.vec_ltm ≡ true) rs

  set_concept_embedding-IsValid :
      (id : ℕ) (v : E) (s : Store F E)
      → IsValid s
      → has_row id s.tree_nodes ≡ true
      → IsValid (set_concept_embedding id v s)
  unfolding set_concept_embedding
  set_concept_embedding-IsValid id v s h there = record {
    once = h.once;
    below = h.below;
    edges = h.edges;
    leaf_rows = h.leaf_rows;
    concept_vectors =
        All-append _ _ _ (All-filter _ (λ w. not (w.0 == id)) s.vec_ltm h.concept_vectors)
          (there, tt);
    leaf_vectors = h.leaf_vectors;
  }

module _ (u : Unicode) {F E : Type 0} (embed_text : Text → Option E) (dim : E → ℕ)
    (expected : ℕ) where
  embed_each-IsEmbedded :
      (rs : List NodeRow) (k : ℕ) (s : Store F E)
      → IsValid s
      → All (λ r. has_row r.id s.tree_nodes ≡ true) rs
      → All (λ r. IsEmbeddable u embed_text dim expected (row_to_node r)) rs
      → (t : Store F E) × (embed_each u embed_text dim expected (map row_to_node rs) k s
          ≡ (some (k + length rs), t))
        × IsEmbedded rs s t
  unfolding embed_each set_concept_embedding
  embed_each-IsEmbedded [] k s h there able =
      (s, ground arith, record { valid = h; nodes = refl; kept = λ id e. e; given = tt })
  embed_each-IsEmbedded (r ∷ rs) k s h (here, there) ((v, found, fits), able) =
      let s' = set_concept_embedding r.id v s in
      let (t, e, done) =
        embed_each-IsEmbedded rs (k + 1) s' (set_concept_embedding-IsValid r.id v s h here) there
          able in
      (
        t,
        rw (found, fits) (e ∙ ap (λ n. (some n, t)) (omega arith)),
        record {
          valid = done.valid;
          nodes = done.nodes;
          kept = λ id had. done.kept id (replaced_there r.id v id s.vec_ltm (rw had refl));
          given = (
            done.kept r.id
                (replaced_there r.id v r.id s.vec_ltm (ground (arith, eqb_iff r.id r.id))),
            done.given,
          );
        },
      )

  -- If the model gives a vector of the right dimension for each concept that has none, the run
  -- counts these concepts and afterwards no concept is without a vector; the store stays valid and
  -- its nodes are as they were.
  pub embed_spine_concepts_complete :
      (s : Store F E)
      → IsValid s
      → All (IsEmbeddable u embed_text dim expected) (concepts_missing_embedding s)
      → (t : Store F E) × (embed_spine_concepts u embed_text dim expected s
          ≡ (some (length (concepts_missing_embedding s)), t))
        × IsValid t
        × (t.tree_nodes ≡ s.tree_nodes)
        × (concepts_missing_embedding t ≡ [])
  unfolding embed_spine_concepts concepts_missing_embedding
  embed_spine_concepts_complete s h able =
      let rs = filter (λ r. is_concept r.kind && not (has_vector r.id s.vec_ltm)) s.tree_nodes in
      let (t, e, done) =
        embed_each-IsEmbedded rs 0 s h (All-filter _ _ s.tree_nodes (rows_there s.tree_nodes))
          (All-unmap _ row_to_node rs able) in
      (
        t,
        e ∙ ap (λ n. (some n, t)) (omega (arith, length-map row_to_node rs)),
        done.valid,
        done.nodes,
        rw (done.nodes, none_missing s.vec_ltm t.vec_ltm s.tree_nodes done.kept done.given) refl,
      )
