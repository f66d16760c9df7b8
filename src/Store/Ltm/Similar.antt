-- ===== src/Store/Ltm/Similar.antt =====
-- src/infrastructure/ltm_repository.rs: `find_similar_concepts` and `find_similar_any`, the searches
-- by meaning. The `k` nearest rows of a vec0 table are sqlite-vec's work, the parameter `nearest`.
use neurolithe.Base.{
  ℕ, zero, suc, ◌≤◌, Ordering, ◌≡◌, refl, ap, ◌∙◌, inl, inr, Bool, true, ◌&&◌, none, some, List, [],
  ◌∷◌, ◌++◌, arith, if◌then◌else◌, Bool-cases, Option-cases, &&_split, ◌==◌, length, take, find,
  All, length-take, All-take, All-append, nat_key, text_key,
}
use neurolithe.Base.Float.{Float, OrderLaws}
use neurolithe.Base.Sort.{sort_by, IsOrdered, IsOrder, All-sort_by, sort_by-IsOrdered}
use neurolithe.Domain.Ltm.{TreeNode}
use neurolithe.Store.Ltm.Rows.{NodeRow, Store, is_concept, row_to_node}

-- The first `n` elements of a sorted list are sorted.
IsOrdered-take {ℓ} :
    {A : Type ℓ} (cmp : A → A → Ordering) (n : ℕ) (xs : List A)
    → IsOrdered cmp xs
    → IsOrdered cmp (take n xs)
IsOrdered-take cmp zero xs h = tt
IsOrdered-take cmp (suc n) [] h = tt
IsOrdered-take cmp (suc n) (x ∷ xs) h = (All-take _ n xs h.0, IsOrdered-take cmp n xs h.1)

-- A row that is found by its id has it.
pub found_id :
    (id : ℕ) (rows : List NodeRow) (r : NodeRow) → find (λ x. x.id == id) rows ≡ some r → r.id ≡ id
found_id id [] r h = cc
found_id id (x ∷ rows) r h = ground (arith, found_id id rows r)

module _ (fl : Float) where
  open fl use {F64, le, total_cmp}

  abbrev pub by_distance : {A : Type 0} → A × F64 → A × F64 → Ordering
  by_distance a b = total_cmp a.1 b.1

  -- The join of the neighbours with the rows that a condition keeps, within the distance.
  unfoldable pub join_rows :
      (NodeRow → Bool) → List NodeRow → F64 → List (ℕ × F64) → List (TreeNode × F64)
  join_rows keep rows max_distance [] = []
  join_rows keep rows max_distance (v ∷ vs) =
      let rest = join_rows keep rows max_distance vs in
      elim (find (λ r. r.id == v.0) rows) [
        | none ↦ rest
        | some r ↦ if keep r && le v.1 max_distance then (row_to_node r, v.1) ∷ rest else rest
      ]

  order_laws : (laws : OrderLaws fl) {A : Type 0} → IsOrder (by_distance {A = A})
  order_laws laws = record {
    total = λ x y h. ground (arith, laws.cmp_flip x.1 y.1);
    trans = λ x y z h k.
        ground (arith, laws.cmp_trans x.1 y.1 z.1, laws.cmp_eq x.1 y.1, laws.cmp_eq y.1 z.1);
  }

  -- A node of the table, within the distance, that the condition keeps.
  abbrev pub IsMatch : (NodeRow → Bool) → List NodeRow → F64 → TreeNode × F64 → Type 0
  IsMatch keep rows max_distance m =
      (r : NodeRow) × (find (λ x. x.id == r.id) rows ≡ some r)
      × (m.0 ≡ row_to_node r)
      × (keep r ≡ true)
      × (le m.1 max_distance ≡ true)

  join_rows-IsMatch :
      (keep : NodeRow → Bool) (rows : List NodeRow) (d : F64) (vs : List (ℕ × F64))
      → All (IsMatch keep rows d) (join_rows keep rows d vs)
  unfolding join_rows
  join_rows-IsMatch keep rows d [] = tt
  join_rows-IsMatch keep rows d (v ∷ vs) = elim (Option-cases (find (λ r. r.id == v.0) rows)) [
    | inl missing ↦ rw (missing, join_rows) (join_rows-IsMatch keep rows d vs)
    | inr (r, found) ↦ elim (Bool-cases (keep r && le v.1 d)) [
      | inl kept ↦
          let (keeps, near) = &&_split _ _ kept in
          rw (found, kept, join_rows)
            (
              (
                r,
                ap (λ i. find (λ x. x.id == i) rows) (found_id v.0 rows r found) ∙ found,
                refl,
                keeps,
                near,
              ),
              join_rows-IsMatch keep rows d vs,
            )
      | inr far ↦ rw (found, far, join_rows) (join_rows-IsMatch keep rows d vs)
    ]
  ]

  module _ {E : Type 0} (nearest : List (ℕ × E) → E → ℕ → List (ℕ × F64)) where
    -- `WHERE v.embedding MATCH ? AND k = ?` takes the nearest rows before the other conditions.
    unfoldable pub find_similar_concepts : E → F64 → ℕ → Store F64 E → List (TreeNode × F64)
    find_similar_concepts embedding max_distance limit s = sort_by by_distance (
        join_rows (λ r. is_concept r.kind) s.tree_nodes max_distance
          (nearest s.vec_ltm embedding limit))

    -- The closure `query_index`.
    unfoldable pub query_index : List (ℕ × E) → E → F64 → ℕ → Store F64 E → List (TreeNode × F64)
    query_index table embedding max_distance limit s =
        sort_by by_distance
          (join_rows (λ r. true) s.tree_nodes max_distance (nearest table embedding limit))

    unfoldable pub find_similar_any : E → F64 → ℕ → Store F64 E → List (TreeNode × F64)
    find_similar_any embedding max_distance limit s = take limit (
        sort_by by_distance (
          query_index s.vec_ltm embedding max_distance limit s
          ++ query_index s.vec_leaves embedding max_distance limit s))

    pub find_similar_concepts-IsMatch :
        (v : E) (d : F64) (limit : ℕ) (s : Store F64 E)
        → All (IsMatch (λ r. is_concept r.kind) s.tree_nodes d) (find_similar_concepts v d limit s)
    unfolding find_similar_concepts
    find_similar_concepts-IsMatch v d limit s =
        All-sort_by by_distance _
          (join_rows (λ r. is_concept r.kind) s.tree_nodes d (nearest s.vec_ltm v limit))
          (join_rows-IsMatch _ s.tree_nodes d _)

    -- A search for concepts finds concepts of the tree only, within the distance, nearest first.
    find_similar_concepts-IsOrdered :
        (laws : OrderLaws fl) (v : E) (d : F64) (limit : ℕ) (s : Store F64 E)
        → All (IsMatch (λ r. is_concept r.kind) s.tree_nodes d) (find_similar_concepts v d limit s)
          × IsOrdered by_distance (find_similar_concepts v d limit s)
    unfolding find_similar_concepts
    find_similar_concepts-IsOrdered laws v d limit s =
        let found = join_rows (λ r. is_concept r.kind) s.tree_nodes d (nearest s.vec_ltm v limit) in
        (
          find_similar_concepts-IsMatch v d limit s,
          sort_by-IsOrdered by_distance (order_laws laws) found,
        )

    query_index-IsMatch :
        (table : List (ℕ × E)) (v : E) (d : F64) (limit : ℕ) (s : Store F64 E)
        → All (IsMatch (λ r. true) s.tree_nodes d) (query_index table v d limit s)
    unfolding query_index
    query_index-IsMatch table v d limit s =
        All-sort_by by_distance _ (join_rows (λ r. true) s.tree_nodes d (nearest table v limit))
          (join_rows-IsMatch _ s.tree_nodes d _)

    pub find_similar_any-IsMatch :
        (v : E) (d : F64) (limit : ℕ) (s : Store F64 E)
        → All (IsMatch (λ r. true) s.tree_nodes d) (find_similar_any v d limit s)
    unfolding find_similar_any
    find_similar_any-IsMatch v d limit s =
        let concepts = query_index s.vec_ltm v d limit s in
        let leaves = query_index s.vec_leaves v d limit s in
        All-take _ limit (sort_by by_distance (concepts ++ leaves)) (
          All-sort_by by_distance _ (concepts ++ leaves) (
            All-append _ concepts leaves (query_index-IsMatch s.vec_ltm v d limit s)
              (query_index-IsMatch s.vec_leaves v d limit s)))

    -- The merged search returns at most `limit` nodes of the tree, all within the distance and
    -- nearest first.
    pub find_similar_any-IsOrdered :
        (laws : OrderLaws fl) (v : E) (d : F64) (limit : ℕ) (s : Store F64 E)
        → All (IsMatch (λ r. true) s.tree_nodes d) (find_similar_any v d limit s)
          × IsOrdered by_distance (find_similar_any v d limit s)
          × (length (find_similar_any v d limit s) ≤ limit)
    unfolding find_similar_any
    find_similar_any-IsOrdered laws v d limit s =
        let concepts = query_index s.vec_ltm v d limit s in
        let leaves = query_index s.vec_leaves v d limit s in
        let merged = sort_by by_distance (concepts ++ leaves) in
        (
          find_similar_any-IsMatch v d limit s,
          IsOrdered-take by_distance limit merged
              (sort_by-IsOrdered by_distance (order_laws laws) (concepts ++ leaves)),
          omega (arith, length-take {0} limit merged),
        )
