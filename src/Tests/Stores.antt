-- ===== src/Tests/Stores.antt =====
-- Short-term memory, blobs and the concepts' vectors at concrete inputs.
use mathlib.Core.HLevel.{Σ_prop_path}
use native.Mathlib.Nat.{ℕ_set}
use neurolithe.Base.{
  ℕ, ◌-◌, ◌%◌, ◌≡◌, refl, ◌↔◌, true, false, none, some, [], ◌∷◌, arith, length, All,
}
use neurolithe.Base.Text.{Text, text}
use neurolithe.Base.Json.Value.{object, field, string, end}
use neurolithe.Domain.Decay.{DecayEngine}
use neurolithe.Store.Codec.{F32Bytes, BytesLaws, as_blob, from_blob, from_blob-as_blob}
use neurolithe.Store.Ltm.Rows.{Store}
use neurolithe.Store.Ltm.Queries.{concepts_missing_embedding}
use neurolithe.Store.Ltm.Integrity.{IsValid}
use neurolithe.Store.Memory.Rows.{MemoryNode, Memory, active, archived}
use neurolithe.Store.Memory.Lifecycle.{delete_nodes_by_data_id, carries}
use neurolithe.Store.Memory.Deletion.{IsWhole, delete_nodes_by_data_id-IsWhole}
use neurolithe.App.Placement.Spine.{
  embed_spine_concepts, IsEmbeddable, embed_spine_concepts_complete,
}
use neurolithe.Tests.Floats.{Fixed, fixed}
use neurolithe.Tests.Unicode.{ascii}
use neurolithe.Tests.Tree.{small_store}

-- A byte is a number below 256, and a number of 32 bits is four bytes.
abbrev Byte : Type 0
Byte = (n : ℕ) × ((n % 256) ≡ n)

abbrev to_byte : ℕ → Byte
to_byte n = (n % 256, omega arith)

abbrev Word : Type 0
Word = Byte × Byte × Byte × Byte

abbrev four_bytes : F32Bytes
four_bytes = record {
  F32 = Word;
  bytes = λ x. (x.0.0, x.1.0, x.2.0, x.3.0);
  from_ne_bytes = λ b. (to_byte b.0, to_byte b.1, to_byte b.2, to_byte b.3);
}

to_byte_lem : (b : Byte) → to_byte b.0 ≡ b
to_byte_lem b = Σ_prop_path (λ n. ℕ_set (n % 256) n) b.1

four_bytes-BytesLaws : BytesLaws four_bytes
four_bytes-BytesLaws = record {
  read_back = λ x. rw (to_byte_lem x.0, to_byte_lem x.1, to_byte_lem x.2, to_byte_lem x.3) refl;
  write_back = λ a b c d k.
      let ea : a % 256 ≡ a = omega (arith, k.0) in
      let eb : b % 256 ≡ b = omega (arith, k.1.0) in
      let ec : c % 256 ≡ c = omega (arith, k.1.1.0) in
      let ed : d % 256 ≡ d = omega (arith, k.1.1.1.0) in cc (ea, eb, ec, ed);
}

abbrev one : Word
one = (to_byte 0, to_byte 0, to_byte 128, to_byte 63)

from_blob-as_blob_example :
    (from_blob four_bytes (0 ∷ 0 ∷ 128 ∷ 63 ∷ []) ≡ some (one ∷ []))
    ↔ (as_blob four_bytes (one ∷ []) ≡ 0 ∷ 0 ∷ 128 ∷ 63 ∷ [])
from_blob-as_blob_example =
    from_blob-as_blob four_bytes four_bytes-BytesLaws (0 ∷ 0 ∷ 128 ∷ 63 ∷ []) (one ∷ [])
      (omega arith, (omega arith, (omega arith, (omega arith, tt))))

abbrev node : ℕ → Text → Text → MemoryNode Fixed
node id status data_id = record {
  id = id;
  tenant_id = text "local";
  payload = object (field (text "dataId") (string data_id) end);
  status = status;
  ccl = text "reality";
  is_explicit = true;
  support_count = 1;
  relevance_score = fixed.decimal 1 0;
  context_key = none;
  last_accessed_at = 10;
  last_decayed_at = none;
}

abbrev memory : Memory Fixed ℕ
memory = record {
  nodes = node 1 active (text "doc-1") ∷ node 2 archived (text "doc-2") ∷ [];
  edges =
      record {
        source_id = 1;
        target_id = 2;
        relation = text "about";
        ccl = text "reality";
        valid_from = none;
        valid_until = none;
        weight = fixed.decimal 1 0;
      }
      ∷ [];
  vec_nodes = (1, 8) ∷ [];
  episodes = [];
  ccl_registry = [];
}

abbrev engine : DecayEngine Fixed
engine = record {
  default_half_life_days = fixed.decimal 7 0;
  working_half_life_days = fixed.decimal 1 0;
}

-- A day for each unit of the clock.
abbrev days : ℕ → ℕ → Fixed
days now since = fixed.decimal (now - since) 0

delete_nodes_by_data_id-IsWhole_example :
    IsWhole (delete_nodes_by_data_id (text "doc-1") memory)
    × All
        (λ n. carries (text "doc-1") n ≡ false)
        (delete_nodes_by_data_id (text "doc-1") memory).nodes
delete_nodes_by_data_id-IsWhole_example =
    delete_nodes_by_data_id-IsWhole (text "doc-1") memory
      (record { edges_whole = ((refl, refl), tt); vectors_whole = (refl, tt) })

-- The vector of a branch has left the index.
abbrev bare_store : Store Fixed ℕ
bare_store = record small_store { vec_ltm = [] }

abbrev four_long : ℕ → ℕ
four_long v = 4

bare_store-IsValid : IsValid bare_store
bare_store-IsValid = record {
  once = refl;
  below = omega arith;
  edges = ((refl, refl), tt);
  leaf_rows = tt;
  concept_vectors = tt;
  leaf_vectors = tt;
}

bare_store_able :
    All (IsEmbeddable ascii (λ t. some 3) four_long 4) (concepts_missing_embedding bare_store)
unfolding concepts_missing_embedding
bare_store_able = ((3, refl, refl), ((3, refl, refl), tt))

embed_spine_concepts_complete_example :
    (t : Store Fixed ℕ) × (embed_spine_concepts ascii (λ t. some 3) four_long 4 bare_store
      ≡ (some (length (concepts_missing_embedding bare_store)), t))
    × IsValid t
    × (t.tree_nodes ≡ bare_store.tree_nodes)
    × (concepts_missing_embedding t ≡ [])
embed_spine_concepts_complete_example =
    embed_spine_concepts_complete ascii (λ t. some 3) four_long 4 bare_store bare_store-IsValid
      bare_store_able
