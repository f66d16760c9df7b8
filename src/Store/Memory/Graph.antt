-- ===== src/Store/Memory/Graph.antt =====
-- src/infrastructure/repository/graph.rs, commands.rs and `find_working_subject` of working.rs: the
-- writes to the memory graph, and the ledger of the commands that were applied. SQLite does not fail.
use neurolithe.Base.{
  ℕ, suc, ◌+◌, Bool, true, false, not, ◌&&◌, ◌||◌, Option, none, some, List, [], ◌∷◌, ◌++◌, map,
  ltb, if◌then◌else◌, ◌==◌, length, filter, any, find, contains, nat_key, text_key,
}
use neurolithe.Store.Memory.Lifecycle.{unindex, carries, delete_where}
use neurolithe.Base.{
  ℕ, suc, ◌+◌, Bool, true, false, not, ◌&&◌, Option, none, some, List, [], ◌∷◌, ◌++◌, map, ltb,
  if◌then◌else◌, ◌==◌, filter, any, find, contains, nat_key, text_key,
}
use neurolithe.Base.Float.{Float}
use neurolithe.Base.Json.Value.{Value, get, as_str}
use neurolithe.Base.Text.{Text, text}
use neurolithe.Store.Memory.Rows.{MemoryNode, MemoryEdge, Episode, Memory, active, is_active}

-- The tables, the next ids and the ledger `processed_commands` with the times of its rows.
pub record Graph (F E : Type 0) : Type 0 where
  pub memory : Memory F E
  pub next_id : ℕ
  pub next_episode_id : ℕ
  pub processed_commands : List (Text × ℕ)

-- `MemoryNode` of src/domain/models.rs, before it is stored.
pub record NewNode (F : Type 0) : Type 0 where
  pub tenant_id : Text
  pub payload : Value
  pub status : Text
  pub ccl : Text
  pub is_explicit : Bool
  pub support_count : ℕ
  pub relevance_score : F
  pub context_key : Option Text

abbrev pub text_of : Text → Value → Option Text
text_of key payload = as_str (get key payload)

abbrev pub is_text : Option Text → Text → Bool
is_text none t = false
is_text (some s) t = s == t

-- The condition of `FIND_WORKING_SUBJECT_SQL`.
abbrev pub is_subject : {F : Type 0} → Text → Text → Text → MemoryNode F → Bool
is_subject tenant_id context_key data_id n =
    (n.tenant_id == tenant_id)
    && is_text n.context_key context_key
    && (n.ccl == text "working")
    && is_active n
    && is_text (text_of (text "kind") n.payload) (text "subject")
    && is_text (text_of (text "dataId") n.payload) data_id

abbrev later : ℕ → Option ℕ → Option ℕ
later id none = some id
later id (some best) = if ltb best id then some id else some best

-- `ORDER BY id DESC LIMIT 1`
unfoldable pub newest : {F : Type 0} → (MemoryNode F → Bool) → List (MemoryNode F) → Option ℕ
newest p [] = none
newest p (n ∷ ns) = if p n then later n.id (newest p ns) else newest p ns

-- `DOCUMENT_FACT`: the facts of a document itself, and not the anchors that refer to it.
abbrev pub is_document_fact : {F : Type 0} → Text → MemoryNode F → Bool
is_document_fact data_id n =
    carries data_id n && elim (get (text "kind") n.payload) [ none ↦ true | some _ ↦ false ]

module _ {F E : Type 0} where
  unfoldable pub is_command_processed : Text → Graph F E → Bool
  is_command_processed id g = any (λ r. r.0 == id) g.processed_commands

  -- `INSERT OR IGNORE`
  unfoldable pub mark_command_processed : ℕ → Text → Graph F E → Graph F E
  unfolding is_command_processed
  mark_command_processed now id g =
      if is_command_processed id g
      then g
      else record g { processed_commands = g.processed_commands ++ ((id, now) ∷ []) }

  -- `cutoff` is the time the rows before which are deleted.
  unfoldable pub sweep_processed_commands : ℕ → Graph F E → Graph F E
  sweep_processed_commands cutoff g = record g {
    processed_commands = filter (λ r. not (ltb r.1 cutoff)) g.processed_commands;
  }

  unfoldable pub find_working_subject : Text → Text → Text → Graph F E → Option ℕ
  unfolding newest
  find_working_subject tenant_id context_key data_id g =
      newest (is_subject tenant_id context_key data_id) g.memory.nodes

  unfoldable pub store_episode : (ℕ → Episode) → Graph F E → Graph F E × ℕ
  store_episode row g = (
    record g {
      memory = record g.memory { episodes = g.memory.episodes ++ (row g.next_episode_id ∷ []) };
      next_episode_id = suc g.next_episode_id;
    },
    g.next_episode_id,
  )

  unfoldable pub store_edge : MemoryEdge F → Graph F E → Graph F E
  store_edge e g = record g { memory = record g.memory { edges = g.memory.edges ++ (e ∷ []) } }

module _ (fl : Float) where
  open fl use {F64, eq, decimal}

  abbrev pub Vector : Type 0
  Vector = List F64

  unfoldable pub is_indexable : Vector → Bool
  is_indexable = any (λ x. not (eq x (decimal 0 0)))

  abbrev pub index_if_eligible : ℕ → Text → Vector → Memory F64 Vector → Memory F64 Vector
  index_if_eligible id status embedding m =
      if (status == active) && is_indexable embedding
      then record m { vec_nodes = m.vec_nodes ++ ((id, embedding) ∷ []) }
      else m

  -- Whether vec0 takes the vector, if it is offered: it has the dimension of the table.
  unfoldable pub accepts : ℕ → Text → Vector → Bool
  accepts dim status embedding =
      not ((status == active) && is_indexable embedding) || (length embedding == dim)

  abbrev pub node_row : ℕ → ℕ → NewNode F64 → MemoryNode F64
  node_row now id n = record {
    id = id;
    tenant_id = n.tenant_id;
    payload = n.payload;
    status = n.status;
    ccl = n.ccl;
    is_explicit = n.is_explicit;
    support_count = n.support_count;
    relevance_score = n.relevance_score;
    context_key = n.context_key;
    last_accessed_at = now;
    last_decayed_at = some now;
  }

  -- The statements of `store_node`, for a vector that the index accepts.
  unfoldable pub insert_node : ℕ → NewNode F64 → Vector → Graph F64 Vector → Graph F64 Vector × ℕ
  insert_node now n embedding g =
      let grown = record g.memory { nodes = g.memory.nodes ++ (node_row now g.next_id n ∷ []) } in
      (
        record g {
          memory = index_if_eligible g.next_id n.status embedding grown;
          next_id = suc g.next_id;
        },
        g.next_id,
      )

  -- One transaction; `none` is a vector that is refused.
  unfoldable pub store_node :
      ℕ → ℕ → NewNode F64 → Vector → Graph F64 Vector → Option (Graph F64 Vector × ℕ)
  unfolding insert_node accepts
  store_node dim now n embedding g =
      if accepts dim n.status embedding then some (insert_node now n embedding g) else none

  -- One transaction: the old facts of the document go, and the new node comes.
  unfoldable pub replace_document_node :
      ℕ → ℕ → Text → NewNode F64 → Vector → Graph F64 Vector → Option (Graph F64 Vector × ℕ)
  unfolding store_node
  replace_document_node dim now data_id n embedding g =
      store_node dim now n embedding
        (record g { memory = delete_where (is_document_fact data_id) g.memory })

  abbrev pub boosted : ℕ → MemoryNode F64 → MemoryNode F64
  boosted now n = record n {
    relevance_score = decimal 1 0;
    last_accessed_at = now;
    last_decayed_at = some now;
  }

  unfoldable pub boost_relevance : ℕ → List ℕ → Graph F64 Vector → Graph F64 Vector
  boost_relevance now ids g = record g {
    memory = record g.memory {
      nodes = map (λ n. if contains ids n.id then boosted now n else n) g.memory.nodes;
    };
  }

  abbrev supported : Option Value → MemoryNode F64 → MemoryNode F64
  supported none n = record n { support_count = n.support_count + 1; relevance_score = decimal 1 0 }
  supported (some payload) n = record n {
    support_count = n.support_count + 1;
    relevance_score = decimal 1 0;
    payload = payload;
  }

  unfoldable pub update_node_support : ℕ → Option Value → Graph F64 Vector → Graph F64 Vector
  update_node_support id payload g = record g {
    memory = record g.memory {
      nodes = map (λ n. if n.id == id then supported payload n else n) g.memory.nodes;
    };
  }

  -- One transaction; `none` is a node that is not there, or a vector that is refused.
  unfoldable pub update_node_content :
      ℕ → ℕ → Value → Vector → Graph F64 Vector → Option (Graph F64 Vector)
  unfolding accepts
  update_node_content dim id payload embedding g = elim (find (λ n. n.id == id) g.memory.nodes) [
    | none ↦ none
    | some row ↦
        let written = record g.memory {
          nodes = map (λ n. if n.id == id then supported (some payload) n else n) g.memory.nodes;
        } in
        if accepts dim row.status embedding
        then some
            (record g { memory = index_if_eligible id row.status embedding (unindex id written) })
        else none
  ]
