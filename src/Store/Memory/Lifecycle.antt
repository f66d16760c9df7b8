-- ===== src/Store/Memory/Lifecycle.antt =====
-- src/infrastructure/repository/lifecycle.rs: the decay sweep and the deletion of nodes; `unindex`
-- of src/infrastructure/repository/vector_index.rs.
use neurolithe.Base.{
  ℕ, zero, suc, Bool, false, not, ◌&&◌, ◌||◌, Option, none, some, List, [], ◌∷◌, map, ltb,
  if◌then◌else◌, ◌==◌, length, take, filter, any, nat_key, text_key,
}
use neurolithe.Base.Float.{Float}
use neurolithe.Base.Json.Value.{get, as_str}
use neurolithe.Base.Text.{Text, text}
use neurolithe.Domain.Decay.{DecayEngine, calculate_decay_for, should_archive}
use neurolithe.Store.Memory.Rows.{MemoryNode, Memory, active, archived, is_active}

abbrev pub sweep_batch : ℕ
sweep_batch = 500

abbrev pub unindex : {F E : Type 0} → ℕ → Memory F E → Memory F E
unindex id m = record m { vec_nodes = filter (λ v. not (v.0 == id)) m.vec_nodes }

-- `nodes.last().map_or(after_id, |n| n.0)`
abbrev pub last_id : {F : Type 0} → ℕ → List (MemoryNode F) → ℕ
last_id after_id [] = after_id
last_id after_id (n ∷ ns) = last_id n.id ns

-- The condition of the SELECT.
abbrev pub is_due : {F : Type 0} → ℕ → MemoryNode F → Bool
is_due after_id n = is_active n && ltb after_id n.id

-- `elapsed_days now since` is what SQLite computes by MAX(0.0, julianday(..) - julianday(..)).
module _ (fl : Float) (elapsed_days : ℕ → ℕ → fl.F64) (engine : DecayEngine fl.F64) where
  abbrev pub since : MemoryNode fl.F64 → ℕ
  since n = elim n.last_decayed_at [ none ↦ n.last_accessed_at | some t ↦ t ]

  abbrev pub new_score : ℕ → MemoryNode fl.F64 → fl.F64
  new_score now n =
      calculate_decay_for fl engine n.relevance_score (elapsed_days now (since n)) n.ccl

  -- The UPDATE of the row with the id of `n`, with what was computed from `n`.
  abbrev pub update_row : ℕ → MemoryNode fl.F64 → MemoryNode fl.F64 → MemoryNode fl.F64
  update_row now n r =
      if r.id == n.id
      then record r {
        relevance_score = new_score now n;
        status = if should_archive fl (new_score now n) then archived else active;
        last_decayed_at = some now;
      }
      else r

  module _ {E : Type 0} where
    -- One round of the `for` loop: the UPDATE of the node that was read, and its vector.
    unfoldable pub sweep_node : ℕ → MemoryNode fl.F64 → Memory fl.F64 E → Memory fl.F64 E
    sweep_node now n m =
        let written = record m { nodes = map (update_row now n) m.nodes } in
        if should_archive fl (new_score now n) then unindex n.id written else written

    unfoldable pub sweep_nodes : ℕ → List (MemoryNode fl.F64) → Memory fl.F64 E → Memory fl.F64 E
    sweep_nodes now [] m = m
    sweep_nodes now (n ∷ ns) m = sweep_nodes now ns (sweep_node now n m)

    unfoldable pub sweep_decay_batch : ℕ → ℕ → ℕ → Memory fl.F64 E → (ℕ × ℕ) × Memory fl.F64 E
    sweep_decay_batch now after_id batch m =
        let due = take batch (filter (is_due after_id) m.nodes) in
        ((last_id after_id due, length due), sweep_nodes now due m)

    -- The loop of `sweep_decay`: `clock` has the time of each batch; `none` is that the fuel ran out.
    unfoldable pub sweep_from : ℕ → (ℕ → ℕ) → ℕ → ℕ → Memory fl.F64 E → Option (Memory fl.F64 E)
    sweep_from zero clock after_id batch m = none
    sweep_from (suc fuel) clock after_id batch m =
        let ((last, rows), swept) = sweep_decay_batch (clock fuel) after_id batch m in
        let rest = sweep_from fuel clock last batch swept in
        if ltb rows batch then some swept else rest

    unfoldable pub sweep_decay : (ℕ → ℕ) → Memory fl.F64 E → Option (Memory fl.F64 E)
    sweep_decay clock m = sweep_from (suc (length m.nodes)) clock 0 sweep_batch m

-- `json_extract(payload, '$.dataId') = ?1`
abbrev pub carries : {F : Type 0} → Text → MemoryNode F → Bool
carries data_id n = elim (as_str (get (text "dataId") n.payload)) [
  | none ↦ false
  | some t ↦ t == data_id
]

-- `id IN (SELECT id FROM nodes WHERE ..)`
abbrev pub is_hit : {F : Type 0} → (MemoryNode F → Bool) → List (MemoryNode F) → ℕ → Bool
is_hit p ns id = any (λ n. p n && (n.id == id)) ns

module _ {F E : Type 0} where
  -- `DELETE .. WHERE id IN (SELECT id FROM nodes WHERE ..)`, edges and vectors first.
  abbrev pub delete_where : (MemoryNode F → Bool) → Memory F E → Memory F E
  delete_where p m = record m {
    edges =
        filter (λ e. not (is_hit p m.nodes e.source_id || is_hit p m.nodes e.target_id)) m.edges;
    vec_nodes = filter (λ v. not (is_hit p m.nodes v.0)) m.vec_nodes;
    nodes = filter (λ n. not (p n)) m.nodes;
  }

  unfoldable pub delete_nodes_by_data_id : Text → Memory F E → Memory F E
  delete_nodes_by_data_id data_id m = delete_where (carries data_id) m

  unfoldable pub delete_tenant : Text → Memory F E → Memory F E
  delete_tenant tenant_id m = record (delete_where (λ n. n.tenant_id == tenant_id) m) {
    episodes = filter (λ e. not (e.tenant_id == tenant_id)) m.episodes;
    ccl_registry = filter (λ l. not (l.tenant_id == tenant_id)) m.ccl_registry;
  }

  unfoldable pub reset_store : Memory F E → Memory F E
  reset_store m = record {
    nodes = [];
    edges = [];
    vec_nodes = [];
    episodes = [];
    ccl_registry = [];
  }
