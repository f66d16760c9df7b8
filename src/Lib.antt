-- ===== src/Lib.antt =====
-- NeuroLithe, a contextual memory database for agents.
--
-- An agent writes dialogue, facts and documents. Dialogue goes through the session manager,
-- which keeps a window of recent messages and a running summary per session. A fact goes
-- through the conflict resolver, which compares it with the nearest memories and reinforces
-- one, refines one or asks for a new one. A document is distilled and filed in a knowledge
-- tree: placement looks for the nearest concept, or takes the inbox, stores the leaf, and rolls
-- summaries up to the ancestors. A query runs a vector search and a keyword search, which the
-- ranking code fuses.
--
-- Writes from outside arrive on a topic of commands: the consumer hands resets to the reset
-- service and the rest to the write service, which keeps a ledger of the commands it has applied.
-- A store is migrated when it is opened, and refused if it was embedded with another model.
--
-- The files and the code:
--   Base: lists, keys, maps, stable sorting, texts (Unicode scalar values with the operations of
--     `str` and `char`), JSON values (`serde_json`), decimal numbers, bytes, and the interface of
--     `f64`. Base.Outcome has actions that may fail, with transactions and `Ensures`, which says
--     what holds after a success and after an error.
--   Domain.Thresholds: src/domain/thresholds.rs. Domain.Decay: src/domain/decay.rs.
--   Domain.Tuning: src/domain/tuning.rs. Domain.Ltm: src/domain/ltm.rs.
--   Domain.Ranking: src/domain/ranking.rs; StopWords is `is_stop_word`, Query is
--     `fts_match_query` and `leg_depth`, Fusion is `rrf_fuse`.
--   Domain.Resolver: src/domain/cognition/conflict_resolver.rs.
--   Store.Ltm: src/infrastructure/ltm_repository.rs, with the tables of
--     src/infrastructure/schema.rs; Rows has the tables, Queries and Similar the reads, Writes and
--     Spine the writes.
--   Store.Memory: src/infrastructure/repository/lifecycle.rs, with the tables of
--     src/infrastructure/schema.rs and `unindex` of src/infrastructure/repository/vector_index.rs.
--     Store.Memory.Graph: graph.rs and commands.rs of src/infrastructure/repository, with
--     `find_working_subject` of working.rs and the index of vector_index.rs there.
--   Store.Schema: src/infrastructure/schema.rs, with the readings of the catalogue and of `meta` of
--     src/application/migrations.rs; Tables is `init_schema` and `init_ltm_schema`.
--   Store.Codec: src/infrastructure/embedding_codec.rs.
--   App.Placement: src/application/ltm_placement.rs; Choice is `candidates`, `decide` and `target`,
--     Summaries is `recompute_summary`, RollUp is `roll_up_from`, Filing has the operations on
--     documents, and Spine is `embed_spine_concepts`.
--   App.Retrieval: src/application/ltm_retrieval.rs; Ancestors is `collect_ancestors`, Hits is
--     `assemble_hit`, Recall is `recall` and Views has the rest.
--   App.Sessions: src/application/session_manager.rs.
--   App.Migrations: src/application/migrations.rs; the parent has the migrations, Prepare is
--     `migrate_store` with the backups, and Identity is `check_embedding` and `prepare_store`. The
--     proofs about an upgrade are in Stages (each migration), Runs, Sealing, Rollback and Upgrades.
--   App.Commands: src/application/write_service.rs, with the commands of
--     src/application/reset_service.rs. App.Resets: the rest of reset_service.rs.
--   Interfaces.Commands: src/interfaces/command_consumer.rs.
--   Tests: the theorems at concrete inputs, and inputs of the program's own tests.
-- Definitions keep the names of the code; a part of a longer function has a name of its own and
-- stands beside the function that calls it.
--
-- How code becomes a definition. A method that changes an object takes the state and returns
-- the new one. `Result` and a panic are `Option`, with `none` for the error. A table is a list
-- of rows in the order of its key or of insertion, and AUTOINCREMENT is a counter in the store.
-- The version of a store is signed, as in the code. A HashMap whose order cannot be seen is an
-- association list. Where what an error leaves behind
-- matters (migrations, commands and resets), code is an action of Base.Outcome, which returns a
-- result and the new state, also after an error.
--
-- Loops. The `while` loop of `evict_sessions` has the number of sessions as fuel, since each
-- round removes one. The walk of `roll_up_from` has the number of nodes and two more: a node
-- enters the queue once, since it is reached in the order of distance. The same fuel is enough
-- for `collect_ancestors`, which marks what it has seen. The binary search of the stop-words
-- halves an interval, and its length and one more is enough fuel. The decay sweep has the
-- number of nodes and one more, since a full batch gets past a node. A decimal number has at
-- most as many digits as the number and one more. The 1000 names that `reserve_private_file`
-- tries are the code's own bound. All else is structural recursion.
--
-- What is a parameter: the `f64` operations (Base.Float), the classification and the lower case
-- of characters (Base.Text), the nearest-neighbour search of sqlite-vec, the iteration order of a
-- HashMap or a HashSet where it can be seen, any permutation, the full-text search of FTS5, the
-- age of a node in days, which SQLite computes, the JSON functions of SQLite on a text
-- (Store.Schema.Json), the bytes of an `f32` and of a text, the parsing of a command by serde,
-- the chat and embedding models, the clock, new uuids, what the operating system answers for a
-- backup file (App.Migrations.Prepare.Os), and the memory repository of the resolver. A law of
-- `f64` that a theorem needs is a named hypothesis, and Tests.Floats has fixed-point numbers that
-- meet all of them.
--
-- What is not modelled: failures of SQLite other than those of migrations and a vector of another
-- dimension in short-term memory; the hybrid search and the other reads of the memory repository;
-- ingestion, the sleep cycle and reembedding; the feeder and the consumer of queries; the HTTP,
-- MCP and command line interfaces; the configuration files; the daemon. These are I/O or calls of
-- third-party crates, or components above the ones modelled here.
pub mod Base
pub mod Domain
pub mod Store
pub mod App
pub mod Interfaces
mod Tests
