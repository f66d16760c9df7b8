-- ===== src/App/Resets/Hard.antt =====
-- `hard_reset` of src/application/reset_service.rs: what it asks for and what it leaves.
use neurolithe.Domain.Ltm.{SpineSeed}
use neurolithe.Store.Ltm.Spine.{seed_spine_from}
use neurolithe.Store.Memory.Lifecycle
use neurolithe.Base.Text.{Text, Unicode}
use neurolithe.Store.Ltm.Rows.{Store}
use neurolithe.Store.Ltm.Queries.{get_inbox}
use neurolithe.Store.Ltm.Integrity.{IsValid}
use neurolithe.Base.Float.{Float}
use neurolithe.App.Commands.{Stores}
use neurolithe.Base.{◌≡◌, true, some, List, [], is_some}
use neurolithe.Store.Ltm.Writes

-- A tree with nothing in it, whose ids go on counting.
abbrev emptied : {F : Type 0} → Store F (List F) → Store F (List F)
emptied s = record {
  next_id = s.next_id;
  clock = s.clock;
  tree_nodes = [];
  tree_edges = [];
  leaves = [];
  vec_ltm = [];
  vec_leaves = [];
  doc_bodies = [];
}

-- The stores after a hard reset: short-term memory is empty, the tree is the configured spine seeded
-- into an empty tree, whole and with an inbox, and the ledger of commands is what it was.
pub record IsReset (u : Unicode) (fl : Float) (spine : List SpineSeed) (s t : Stores fl.F64)
    : Type 0 where
  pub no_nodes : t.short_term.memory.nodes ≡ []
  pub no_edges : t.short_term.memory.edges ≡ []
  pub no_vectors : t.short_term.memory.vec_nodes ≡ []
  pub no_episodes : t.short_term.memory.episodes ≡ []
  pub ledger : t.short_term.processed_commands ≡ s.short_term.processed_commands
  pub tree : seed_spine_from u fl spine (emptied s.long_term) ≡ some t.long_term
  pub whole : IsValid t.long_term
  pub inbox : is_some (get_inbox t.long_term) ≡ true
