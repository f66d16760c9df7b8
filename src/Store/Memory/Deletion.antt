-- ===== src/Store/Memory/Deletion.antt =====
-- Deleting nodes leaves no edge and no vector without its node.
use neurolithe.Base.{
  ℕ, ◌≡◌, inl, inr, Bool, true, false, not, ◌||◌, List, [], ◌∷◌, arith, Bool-cases, ◌==◌, filter,
  All, nat_key, text_key,
}
use neurolithe.Base.Text.{Text}
use neurolithe.Store.Memory.Rows.{MemoryNode, MemoryEdge, Memory, has_node}
use neurolithe.Store.Memory.Lifecycle.{
  carries, is_hit, delete_where, delete_nodes_by_data_id, delete_tenant,
}

none_left :
    {A : Type 0} (p : A → Bool) (xs : List A) → All (λ x. p x ≡ false) (filter (λ x. not (p x)) xs)
none_left p [] = tt
none_left p (x ∷ xs) = elim (Bool-cases (p x)) [
  | inl gone ↦ rw gone (none_left p xs)
  | inr kept ↦ rw kept (kept, none_left p xs)
]

module _ {F : Type 0} where
  still_there :
      (p : MemoryNode F → Bool) (id : ℕ) (ns : List (MemoryNode F))
      → is_hit p ns id ≡ false
      → has_node id ns ≡ true
      → has_node id (filter (λ n. not (p n)) ns) ≡ true
  still_there p id [] miss h = h
  still_there p id (n ∷ ns) miss h = ground (arith, miss, h, still_there p id ns)

  edges_left :
      (p : MemoryNode F → Bool) (ns : List (MemoryNode F)) (es : List (MemoryEdge F))
      → All (λ e. (has_node e.source_id ns ≡ true) × (has_node e.target_id ns ≡ true)) es
      → All
          (λ e.
            (has_node e.source_id (filter (λ n. not (p n)) ns) ≡ true)
            × (has_node e.target_id (filter (λ n. not (p n)) ns) ≡ true))
          (filter (λ e. not (is_hit p ns e.source_id || is_hit p ns e.target_id)) es)
  edges_left p ns [] h = tt
  edges_left p ns (e ∷ es) ((from, to), h) =
      elim (Bool-cases (is_hit p ns e.source_id || is_hit p ns e.target_id)) [
        | inl hit ↦ rw hit (edges_left p ns es h)
        | inr miss ↦ rw miss (
          (
            still_there p e.source_id ns (ground (arith, miss)) from,
            still_there p e.target_id ns (ground (arith, miss)) to,
          ),
          edges_left p ns es h,
        )
      ]

module _ {F E : Type 0} where
  -- The edges and the vectors belong to nodes that are there.
  pub record IsWhole (m : Memory F E) : Type 0 where
    pub edges_whole :
        All
          (λ e. (has_node e.source_id m.nodes ≡ true) × (has_node e.target_id m.nodes ≡ true))
          m.edges
    pub vectors_whole : All (λ v. has_node v.0 m.nodes ≡ true) m.vec_nodes

  vectors_left :
      (p : MemoryNode F → Bool) (ns : List (MemoryNode F)) (vs : List (ℕ × E))
      → All (λ v. has_node v.0 ns ≡ true) vs
      → All
          (λ v. has_node v.0 (filter (λ n. not (p n)) ns) ≡ true)
          (filter (λ v. not (is_hit p ns v.0)) vs)
  vectors_left p ns [] h = tt
  vectors_left p ns (v ∷ vs) (there, h) = elim (Bool-cases (is_hit p ns v.0)) [
    | inl hit ↦ rw hit (vectors_left p ns vs h)
    | inr miss ↦ rw miss (still_there p v.0 ns miss there, vectors_left p ns vs h)
  ]

  delete_where-IsWhole :
      (p : MemoryNode F → Bool) (m : Memory F E) → IsWhole m → IsWhole (delete_where p m)
  delete_where-IsWhole p m h = record {
    edges_whole = edges_left p m.nodes m.edges h.edges_whole;
    vectors_whole = vectors_left p m.nodes m.vec_nodes h.vectors_whole;
  }

  -- After a document is forgotten no node carries it, and no edge and no vector is left without its
  -- node.
  pub delete_nodes_by_data_id-IsWhole :
      (data_id : Text) (m : Memory F E)
      → IsWhole m
      → IsWhole (delete_nodes_by_data_id data_id m)
        × All (λ n. carries data_id n ≡ false) (delete_nodes_by_data_id data_id m).nodes
  unfolding delete_nodes_by_data_id
  delete_nodes_by_data_id-IsWhole data_id m h =
      (delete_where-IsWhole (carries data_id) m h, none_left (carries data_id) m.nodes)

  -- After a tenant is deleted nothing of it is left in any table, and no edge and no vector is left
  -- without its node.
  delete_tenant-IsWhole :
      (tenant_id : Text) (m : Memory F E)
      → IsWhole m
      → IsWhole (delete_tenant tenant_id m)
        × All (λ n. (n.tenant_id == tenant_id) ≡ false) (delete_tenant tenant_id m).nodes
        × All (λ e. (e.tenant_id == tenant_id) ≡ false) (delete_tenant tenant_id m).episodes
        × All (λ l. (l.tenant_id == tenant_id) ≡ false) (delete_tenant tenant_id m).ccl_registry
  unfolding delete_tenant
  delete_tenant-IsWhole tenant_id m h =
      let whole = delete_where-IsWhole (λ n. n.tenant_id == tenant_id) m h in
      (
        record { edges_whole = whole.edges_whole; vectors_whole = whole.vectors_whole },
        none_left (λ n. n.tenant_id == tenant_id) m.nodes,
        none_left (λ e. e.tenant_id == tenant_id) m.episodes,
        none_left (λ l. l.tenant_id == tenant_id) m.ccl_registry,
      )
