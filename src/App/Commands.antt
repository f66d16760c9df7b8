-- ===== src/App/Commands.antt =====
-- src/application/reset_service.rs and src/application/write_service.rs: the commands of an agent
-- and of an operator, and the service that applies writes once.
pub mod Ledger
pub mod Subjects
pub mod Redelivery
use neurolithe.Store.Memory.Graph.{store_node}
use neurolithe.Store.Memory.Rows.{active, MemoryEdge}
use neurolithe.Base.Json.Value.{object, field, end, string, array, of_list}
use neurolithe.App.Placement.Choice.{Placing}
use neurolithe.Store.Memory.Graph.{
  boost_relevance, is_command_processed, insert_node, find_working_subject, NewNode,
  mark_command_processed, store_edge, Graph,
}
use neurolithe.Store.Memory.Lifecycle.{delete_nodes_by_data_id}
use neurolithe.Base.Text.{split, trim, Unicode, Text, text}
use neurolithe.App.Placement.Filing.{place_with_body, Placement, forget, DocumentToPlace}
use neurolithe.Base.Outcome.{Result, Action, ◌>>=◌, ◌>>◌, ok, err, return, modify}
use neurolithe.App.Placement.RollUp.{HashOrder}
use neurolithe.Domain.Decay.{reality_ccl}
use neurolithe.Domain.Ltm.{DocumentBody}
use neurolithe.Store.Ltm.Rows.{Store}
use neurolithe.Base.{
  ℕ, zero, suc, Bool, true, Option, none, some, List, [], ◌∷◌, ◌++◌, map, ltb, if◌then◌else◌, ◌==◌,
  length, is_empty, take, nat_key, text_key,
}
use neurolithe.Base.Float.{Float}

pub data WriteScope : Type 0 where
  stm ltm : WriteScope

pub record SubjectRef : Type 0 where
  pub data_id : Text
  pub label : Text

pub record RememberCommand : Type 0 where
  pub command_id : Text
  pub scope : WriteScope
  pub fact : Option Text
  pub note : Option Text
  pub ccl : Option Text
  pub context_key : Option Text
  pub tags : List Text
  pub subjects : List SubjectRef

pub record ForgetCommand : Type 0 where
  pub command_id : Text
  pub data_id : Text

pub data MemoryCommand : Type 0 where
  reset_soft : MemoryCommand
  reset_hard : Text → MemoryCommand
  remember_command : RememberCommand → MemoryCommand
  forget_command : ForgetCommand → MemoryCommand

pub data WriteOutcome : Type 0 where
  remembered_stm : WriteOutcome
  remembered_ltm : Text → Bool → WriteOutcome
  forgotten : Text → WriteOutcome
  skipped : WriteOutcome

pub data WriteError : Type 0 where
  missing_fact missing_text not_embedded not_indexed not_placed not_a_write : WriteError

abbrev pub agent_tenant : Text
agent_tenant = text "default"

abbrev pub note_source : Text
note_source = text "agent"

abbrev pub name_max : ℕ
name_max = 60

-- The name of a note, from its first line: `first_line` has no line feed.
abbrev clip : Text → Text
clip t = if ltb name_max (length t) then take name_max t ++ text "…" else t

abbrev first_piece : List Text → Text
first_piece [] = []
first_piece (line ∷ rest) = line

unfoldable pub leaf_name : Unicode → Text → Text
leaf_name u t = clip (trim u.is_whitespace (first_piece (split (λ c. c == 10) t)))

-- Both stores of a workspace.
pub record Stores (F : Type 0) : Type 0 where
  pub short_term : Graph F (List F)
  pub long_term : Store F (List F)

abbrev pub Writing : Type 0 → Type 0 → Type 0
Writing F A = Action (Stores F) WriteError A

-- What a service calls: the embedding model, the nearest-neighbour search, and the settings.
pub record Service (fl : Float) : Type 1 where
  pub unicode : Unicode
  pub hash : HashOrder
  pub nearest : List (ℕ × List fl.F64) → List fl.F64 → ℕ → List (ℕ × fl.F64)
  pub placing : Placing fl.F64
  pub stm_vector_dim : ℕ

-- What is new at each delivery: the clock, the id of a note and the answers of the model.
pub record Delivery (F : Type 0) : Type 0 where
  pub now : ℕ
  pub uuid : Text
  pub embed_text : Text → Option (List F)

abbrev pub required : {F A : Type 0} → WriteError → Option A → Writing F A
required e none s = (err e, s)
required e (some a) s = (ok a, s)

-- A store with no inbox is the error of a placement.
abbrev pub placed :
    {F : Type 0}
    → Stores F
    → Option (Store F (List F) × Placement)
    → Result WriteError Bool × Stores F
placed s none = (err not_placed, s)
placed s (some (t, p)) = (ok p.matched, record s { long_term = t })

-- A vector that the index refuses is the error of storing a node.
abbrev pub node_stored :
    {F : Type 0} → Stores F → Option (Graph F (List F) × ℕ) → Result WriteError ℕ × Stores F
node_stored s none = (err not_indexed, s)
node_stored s (some (g, id)) = (ok id, record s { short_term = g })

abbrev pub dropped :
    {F : Type 0}
    → Text
    → Stores F
    → Option (Store F (List F) × Bool)
    → Result WriteError (Unit {0}) × Stores F
dropped data_id s none = (err not_placed, s)
dropped data_id s (some (t, removed)) = (
  ok tt,
  record {
    short_term = record s.short_term {
      memory = delete_nodes_by_data_id data_id s.short_term.memory;
    };
    long_term = t;
  },
)

abbrev pub zeros {ℓ} : {F : Type ℓ} → F → ℕ → List F
zeros zero_value zero = []
zeros zero_value (suc n) = zero_value ∷ zeros zero_value n

module _ (fl : Float) (service : Service fl) where
  open fl use {F64, decimal}

  abbrev on_graph : (Graph F64 (List F64) → Graph F64 (List F64)) → Stores F64 → Stores F64
  on_graph f s = record s { short_term = f s.short_term }

  abbrev pub anchor : Text → Text → SubjectRef → NewNode F64
  anchor context_key ccl subject = record {
    tenant_id = agent_tenant;
    payload = object (
        field (text "dataId") (string subject.data_id) (
          field (text "fact") (string subject.label)
            (field (text "kind") (string (text "subject")) end)));
    status = active;
    ccl = ccl;
    is_explicit = true;
    support_count = 1;
    relevance_score = decimal 1 0;
    context_key = some context_key;
  }

  abbrev turn : Text → Text → RememberCommand → NewNode F64
  turn fact ccl cmd = record {
    tenant_id = agent_tenant;
    payload = object (
        field (text "fact") (string fact) (
          field (text "kind") (string (text "turn"))
            (field (text "tags") (array (of_list (map (λ t. string t) cmd.tags))) end)));
    status = active;
    ccl = ccl;
    is_explicit = true;
    support_count = 1;
    relevance_score = decimal 1 0;
    context_key = cmd.context_key;
  }

  -- What is found is boosted, what is not is created. A zero vector is not offered to the index, so
  -- that it is not refused.
  abbrev pub reuse_or_create :
      ℕ → Text → Text → SubjectRef → Graph F64 (List F64) → Option ℕ → Graph F64 (List F64) × ℕ
  reuse_or_create now context_key ccl subject g none =
      insert_node fl now (anchor context_key ccl subject)
        (zeros (decimal 0 0) service.stm_vector_dim) g
  reuse_or_create now context_key ccl subject g (some existing) =
      (boost_relevance fl now (existing ∷ []) g, existing)

  unfoldable pub find_or_create_subject :
      ℕ → Text → Text → SubjectRef → Graph F64 (List F64) → Graph F64 (List F64) × ℕ
  find_or_create_subject now context_key ccl subject g =
      reuse_or_create now context_key ccl subject g
        (find_working_subject agent_tenant context_key subject.data_id g)

  abbrev about : ℕ → ℕ → Text → MemoryEdge F64
  about turn_id subject_id ccl = record {
    source_id = turn_id;
    target_id = subject_id;
    relation = text "about";
    ccl = ccl;
    valid_from = none;
    valid_until = none;
    weight = decimal 1 0;
  }

  unfoldable pub link_subject :
      ℕ → Text → Text → ℕ → SubjectRef → Graph F64 (List F64) → Graph F64 (List F64)
  link_subject now context_key ccl turn_id subject g =
      let (found, subject_id) = find_or_create_subject now context_key ccl subject g in
      if is_empty subject.data_id then g else store_edge (about turn_id subject_id ccl) found

  unfoldable pub link_subjects :
      ℕ → Text → Text → ℕ → List SubjectRef → Graph F64 (List F64) → Graph F64 (List F64)
  link_subjects now context_key ccl turn_id [] g = g
  link_subjects now context_key ccl turn_id (s ∷ ss) g =
      link_subjects now context_key ccl turn_id ss (link_subject now context_key ccl turn_id s g)

  abbrev link_all :
      ℕ → Option Text → Text → ℕ → List SubjectRef → Graph F64 (List F64) → Graph F64 (List F64)
  link_all now none ccl turn_id subjects g = g
  link_all now (some context_key) ccl turn_id subjects g =
      link_subjects now context_key ccl turn_id subjects g

  abbrev pub layer_of : Option Text → Text
  layer_of none = reality_ccl
  layer_of (some ccl) = ccl

  abbrev store_turn : ℕ → RememberCommand → Text → List F64 → Writing F64 ℕ
  store_turn now cmd fact embedding s = node_stored s (
      store_node fl service.stm_vector_dim now (turn fact (layer_of cmd.ccl) cmd) embedding
        s.short_term)

  unfoldable pub remember_stm : Delivery F64 → RememberCommand → Writing F64 WriteOutcome
  remember_stm d cmd = do
    fact ← required missing_fact cmd.fact
    embedding ← required not_embedded (d.embed_text fact)
    turn_id ← store_turn d.now cmd fact embedding
    modify (on_graph (link_all d.now cmd.context_key (layer_of cmd.ccl) turn_id cmd.subjects))
    return remembered_stm

  abbrev note : Delivery F64 → Text → List F64 → DocumentToPlace F64 (List F64)
  note d t embedding = record {
    name = leaf_name service.unicode t;
    summary = t;
    embedding = embedding;
    data_id = text "note_" ++ d.uuid;
    provenance = record { source = note_source; ingested_at = none; confidence = decimal 1 0 };
  }

  abbrev note_body : Text → DocumentBody
  note_body t = record { title = leaf_name service.unicode t; body = t }

  abbrev place : DocumentToPlace F64 (List F64) → DocumentBody → Writing F64 Bool
  place doc body s = placed s (
      place_with_body service.unicode service.hash fl service.nearest service.placing doc
        (some body) s.long_term)

  unfoldable pub remember_ltm : Delivery F64 → RememberCommand → Writing F64 WriteOutcome
  remember_ltm d cmd = do
    t ← required missing_text cmd.note
    embedding ← required not_embedded (d.embed_text t)
    matched ← place (note d t embedding) (note_body t)
    return (remembered_ltm (text "note_" ++ d.uuid) matched)

  abbrev pub scoped : Delivery F64 → RememberCommand → WriteScope → Writing F64 WriteOutcome
  scoped d cmd stm = remember_stm d cmd
  scoped d cmd ltm = remember_ltm d cmd

  unfoldable pub remember : Delivery F64 → RememberCommand → Writing F64 WriteOutcome
  remember d cmd = scoped d cmd cmd.scope

  -- `IngestionService::forget`: the document goes from the tree and from short-term memory.
  abbrev forget_document : Text → Writing F64 (Unit {0})
  forget_document data_id s =
      dropped data_id s
        (forget service.unicode service.hash service.placing.max_summary_len data_id s.long_term)

  abbrev pub apply : Delivery F64 → MemoryCommand → Writing F64 WriteOutcome
  apply d reset_soft s = (err not_a_write, s)
  apply d (reset_hard confirm) s = (err not_a_write, s)
  apply d (remember_command r) s = remember d r s
  apply d (forget_command f) s = (do forget_document f.data_id; return (forgotten f.data_id)) s

  -- The id is marked after the write, and only then.
  abbrev pub apply_once : Delivery F64 → Text → MemoryCommand → Writing F64 WriteOutcome
  apply_once d id cmd s =
      let applied =
        (do
          outcome ← apply d cmd
          modify (on_graph (mark_command_processed d.now id))
          return outcome)
          s in
      if is_command_processed id s.short_term then (ok skipped, s) else applied

  unfoldable pub handle : Delivery F64 → MemoryCommand → Writing F64 WriteOutcome
  handle d reset_soft s = (err not_a_write, s)
  handle d (reset_hard confirm) s = (err not_a_write, s)
  handle d (remember_command r) s = apply_once d r.command_id (remember_command r) s
  handle d (forget_command f) s = apply_once d f.command_id (forget_command f) s
