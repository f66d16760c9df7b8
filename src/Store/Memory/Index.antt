-- ===== src/Store/Memory/Index.antt =====
-- The vector index has no archived nodes after a sweep.
use neurolithe.Base.{
  ℕ, zero, suc, ◌≡◌, refl, ◌∙◌, inl, inr, Bool, false, not, ◌&&◌, some, List, [], ◌∷◌, map, arith,
  ltb, Bool-cases, ◌==◌, eqb_iff, length, take, filter, any, All, All-mono, nat_key, text_key,
}
use mathlib.Core.Path.{subst}
use neurolithe.Base.Float.{Float}
use neurolithe.Domain.Decay.{DecayEngine, should_archive}
use neurolithe.Store.Memory.Rows.{MemoryNode, Memory, is_active}
use neurolithe.Store.Memory.Lifecycle.{
  is_due, last_id, update_row, new_score, sweep_node, sweep_nodes, sweep_decay_batch, sweep_from,
}

-- Whether the id is that of a node that is not active.
abbrev is_retired : {F : Type 0} → ℕ → List (MemoryNode F) → Bool
is_retired id ns = any (λ n. (n.id == id) && not (is_active n)) ns

-- Every vector belongs to no node or to an active one.
abbrev pub IsIndex : {F E : Type 0} → Memory F E → Type 0
IsIndex m = All (λ v. is_retired v.0 m.nodes ≡ false) m.vec_nodes

module _ (fl : Float) (elapsed_days : ℕ → ℕ → fl.F64) (engine : DecayEngine fl.F64) where
  retired-other :
      (now id : ℕ) (n : MemoryNode fl.F64) (ns : List (MemoryNode fl.F64))
      → (id == n.id) ≡ false
      → is_retired id (map (update_row fl elapsed_days engine now n) ns) ≡ is_retired id ns
  retired-other now id n [] other = refl
  retired-other now id n (r ∷ ns) other = elim (Bool-cases (r.id == n.id)) [
    | inl same ↦
        let apart : (r.id == id) ≡ false =
          ground (arith, same, other, eqb_iff r.id n.id, eqb_iff id n.id, eqb_iff r.id id) in
        rw (same, apart, retired-other now id n ns other)
    | inr differs ↦ rw (differs, retired-other now id n ns other)
  ]

  retired-active :
      (now id : ℕ) (n : MemoryNode fl.F64) (ns : List (MemoryNode fl.F64))
      → should_archive fl (new_score fl elapsed_days engine now n) ≡ false
      → is_retired id ns ≡ false
      → is_retired id (map (update_row fl elapsed_days engine now n) ns) ≡ false
  retired-active now id n [] stays h = refl
  retired-active now id n (r ∷ ns) stays h = elim (Bool-cases (r.id == n.id)) [
    | inl same ↦ rw (same, stays) (ground (arith, h, retired-active now id n ns stays))
    | inr differs ↦ rw differs (ground (arith, h, retired-active now id n ns stays))
  ]

  vectors_kept :
      {E : Type 0} (now : ℕ) (n : MemoryNode fl.F64) (ns : List (MemoryNode fl.F64))
      (vs : List (ℕ × E))
      → All (λ v. is_retired v.0 ns ≡ false) vs
      → All
          (λ v. is_retired v.0 (map (update_row fl elapsed_days engine now n) ns) ≡ false)
          (filter (λ v. not (v.0 == n.id)) vs)
  vectors_kept now n ns [] h = tt
  vectors_kept now n ns (v ∷ vs) (here, h) = elim (Bool-cases (v.0 == n.id)) [
    | inl gone ↦ rw gone (vectors_kept now n ns vs h)
    | inr other ↦ rw other (retired-other now v.0 n ns other ∙ here, vectors_kept now n ns vs h)
  ]

  module _ {E : Type 0} where
    sweep_node-IsIndex :
        (now : ℕ) (n : MemoryNode fl.F64) (m : Memory fl.F64 E)
        → IsIndex m
        → IsIndex (sweep_node fl elapsed_days engine now n m)
    unfolding sweep_node
    sweep_node-IsIndex now n m h =
        elim (Bool-cases (should_archive fl (new_score fl elapsed_days engine now n))) [
          | inl gone ↦ rw gone (vectors_kept now n m.nodes m.vec_nodes h)
          | inr stays ↦
              rw stays
                (All-mono _ _ (λ v k. retired-active now v.0 n m.nodes stays k) m.vec_nodes h)
        ]

    sweep_nodes-IsIndex :
        (now : ℕ) (ns : List (MemoryNode fl.F64)) (m : Memory fl.F64 E)
        → IsIndex m
        → IsIndex (sweep_nodes fl elapsed_days engine now ns m)
    unfolding sweep_nodes
    sweep_nodes-IsIndex now [] m h = h
    sweep_nodes-IsIndex now (n ∷ ns) m h =
        sweep_nodes-IsIndex now ns (sweep_node fl elapsed_days engine now n m)
          (sweep_node-IsIndex now n m h)

    pub sweep_from-IsIndex :
        (clock : ℕ → ℕ) (fuel after k : ℕ) (m t : Memory fl.F64 E)
        → IsIndex m
        → sweep_from fl elapsed_days engine fuel clock after k m ≡ some t
        → IsIndex t
    unfolding sweep_from sweep_decay_batch
    sweep_from-IsIndex clock zero after k m t h e = cc
    sweep_from-IsIndex clock (suc fuel) after k m t h e =
        let due = take k (filter (is_due after) m.nodes) in
        let swept = sweep_nodes fl elapsed_days engine (clock fuel) due m in
        let kept = sweep_nodes-IsIndex (clock fuel) due m h in
        elim (Bool-cases (ltb (length due) k)) [
          | inl short ↦ let same : swept ≡ t = ground (arith, short, e) in subst IsIndex same kept
          | inr full ↦
              sweep_from-IsIndex clock fuel (last_id after due) k swept t kept (rw full at e)
        ]
