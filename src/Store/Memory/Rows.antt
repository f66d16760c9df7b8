-- ===== src/Store/Memory/Rows.antt =====
-- src/infrastructure/schema.rs: the tables of short-term memory.
use neurolithe.Base.{ℕ, Bool, Option, List, ◌==◌, any, nat_key, text_key}
use neurolithe.Base.Json.Value.{Value}
use neurolithe.Base.Text.{Text, text}

pub record MemoryNode (F : Type 0) : Type 0 where
  pub id : ℕ
  pub tenant_id : Text
  pub payload : Value
  pub status : Text
  pub ccl : Text
  pub is_explicit : Bool
  pub support_count : ℕ
  pub relevance_score : F
  pub context_key : Option Text
  pub last_accessed_at : ℕ
  pub last_decayed_at : Option ℕ

pub record MemoryEdge (F : Type 0) : Type 0 where
  pub source_id : ℕ
  pub target_id : ℕ
  pub relation : Text
  pub ccl : Text
  pub valid_from : Option ℕ
  pub valid_until : Option ℕ
  pub weight : F

pub record Episode : Type 0 where
  pub id : ℕ
  pub tenant_id : Text
  session_id : Text
  raw_dialogue : Text
  pub ccl : Text

-- A row of `ccl_registry`.
pub record Layer : Type 0 where
  pub tenant_id : Text
  pub name : Text
  pub description : Text

-- `E` is the type of embeddings.
pub record Memory (F E : Type 0) : Type 0 where
  pub nodes : List (MemoryNode F)
  pub edges : List (MemoryEdge F)
  pub vec_nodes : List (ℕ × E)
  pub episodes : List Episode
  pub ccl_registry : List Layer

abbrev pub active : Text
active = text "active"

abbrev pub archived : Text
archived = text "archived"

abbrev pub is_active : {F : Type 0} → MemoryNode F → Bool
is_active n = n.status == active

-- Whether `nodes` has the id, which the foreign keys ask.
abbrev pub has_node : {F : Type 0} → ℕ → List (MemoryNode F) → Bool
has_node id ns = any (λ n. n.id == id) ns
