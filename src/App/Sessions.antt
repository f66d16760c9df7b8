-- ===== src/App/Sessions.antt =====
-- src/application/session_manager.rs: rolling message windows, one per tenant and session, with
-- eviction, trimming and compression by a chat model.
--
-- Instants are numbers of nanoseconds. A wait for the chat model may let other pushes run, so the call
-- is a parameter that takes the table of sessions and returns the table found after the wait.
pub mod Eviction
pub mod Windows
pub mod Compression
use neurolithe.Base.{
  ℕ, zero, suc, ◌+◌, ◌-◌, ◌*◌, ◌/◌, min, Bool, true, false, ◌||◌, Option, none, some, List, [], ◌∷◌,
  ◌++◌, ltb, leb, if◌then◌else◌, ◌==◌, length, take, drop, filter, nat_key, text_key,
}
use neurolithe.Base.Text.{Text, text, join}
use neurolithe.Base.Maps.{Map, lookup, insert, remove}
use neurolithe.Domain.Tuning.{chars_per_token}

pub record SessionBuffer : Type 0 where
  pub messages : List Text
  pub summary : Option Text
  pub token_count : ℕ
  pub last_used : ℕ

abbrev pub Sessions : Type 0
Sessions = Map Text SessionBuffer

abbrev pub max_sessions : ℕ
max_sessions = 256

abbrev pub session_idle_ttl : ℕ
session_idle_ttl = 6 * 60 * 60 * 1000000000

-- `SessionBuffer::new`
abbrev pub new_buffer : ℕ → SessionBuffer
new_buffer now = record { messages = []; summary = none; token_count = 0; last_used = now }

-- `session_key`: the tenant, the unit separator and the session.
abbrev pub session_key : Text → Text → Text
session_key tenant session = tenant ++ (0x1f ∷ session)

-- The number of UTF-8 bytes, which `str::len` counts.
abbrev utf8_width : ℕ → ℕ
utf8_width c = if ltb c 0x80 then 1 else if ltb c 0x800 then 2 else if ltb c 0x10000 then 3 else 4

unfoldable utf8_len : Text → ℕ
utf8_len [] = 0
utf8_len (c ∷ cs) = utf8_width c + utf8_len cs

unfoldable pub estimate_tokens : Text → ℕ
unfolding utf8_len
estimate_tokens t = utf8_len t / chars_per_token

-- The sum that `trim_to_recent` and `compress_buffer` store.
unfoldable pub count_messages : List Text → ℕ
unfolding estimate_tokens
count_messages [] = 0
count_messages (m ∷ ms) = estimate_tokens m + count_messages ms

unfoldable pub count_summary : Option Text → ℕ
unfolding estimate_tokens
count_summary none = 0
count_summary (some t) = estimate_tokens t

-- `retain` in `evict_sessions`; `now - last_used` stops at zero, as `saturating_duration_since`.
abbrev pub is_kept : ℕ → ℕ → Text → Text × SessionBuffer → Bool
is_kept now ttl keep (k, b) = (k == keep) || leb (now - b.last_used) ttl

-- `filter(..).min_by_key(..)`: the least recently used session but `keep`, the first on a tie.
unfoldable pub oldest : Text → Sessions → Option (Text × SessionBuffer)
oldest keep [] = none
oldest keep ((k, b) ∷ s) =
    let rest = oldest keep s in
    if k == keep then rest else elim rest [
      | none ↦ some (k, b)
      | some (k', b') ↦ if leb b.last_used b'.last_used then some (k, b) else some (k', b')
    ]

-- The `while` loop of `evict_sessions`; a round removes a session, so the number of sessions is
-- enough fuel.
unfoldable pub evict_loop : ℕ → ℕ → Text → Sessions → Sessions
evict_loop zero max_count keep s = s
evict_loop (suc fuel) max_count keep s = elim (ltb max_count (length s)) [
  | false ↦ s
  | true ↦ elim (oldest keep s) [
    | none ↦ s
    | some (k, b) ↦ evict_loop fuel max_count keep (remove k s)
  ]
]

unfoldable pub evict_sessions : Sessions → ℕ → ℕ → ℕ → Text → Sessions × ℕ
unfolding evict_loop oldest
evict_sessions s now ttl max_count keep =
    let live = filter (is_kept now ttl keep) s in
    let left = evict_loop (length live) max_count keep live in (left, length s - length left)

pub record Config : Type 0 where
  pub token_threshold : ℕ
  pub keep_recent : ℕ

-- `trim_to_recent` on a buffer.
unfoldable pub trim_buffer : ℕ → SessionBuffer → SessionBuffer
unfolding count_messages count_summary
trim_buffer keep_recent b =
    let left = drop (length b.messages - keep_recent) b.messages in
    record b { messages = left; token_count = count_messages left + count_summary b.summary }

unfoldable pub trim_to_recent : Config → Text → Sessions → Sessions
trim_to_recent cfg key s = elim (lookup key s) [
  | none ↦ s
  | some b ↦ insert key (trim_buffer cfg.keep_recent b) s
]

-- The reply to `compress_context` (`none` is an error) and the sessions after the wait.
abbrev pub Chat : Type 0
Chat = Text → Sessions → Option Text × Sessions

-- `text_to_compress`
abbrev pub compression_text : Option Text → List Text → Text
compression_text none ms = join (text "\n") ms
compression_text (some old) ms =
    text "Previous summary: " ++ (old ++ (text "\n\nNew messages:\n" ++ join (text "\n") ms))

-- The last part of `compress_buffer`, when the lock is taken again.
unfoldable pub store_summary : ℕ → Text → SessionBuffer → SessionBuffer
unfolding count_messages count_summary
store_summary compressed new_summary b =
    let left = drop (min compressed (length b.messages)) b.messages in
    record b {
      messages = left;
      summary = some new_summary;
      token_count = count_messages left + count_summary (some new_summary);
    }

-- `compress_buffer` after the wait; `false` is an error of the chat model.
unfoldable pub finish_compress : Text → ℕ → Option Text → Sessions → Bool × Sessions
unfolding store_summary
finish_compress key compressed none s = (false, s)
finish_compress key compressed (some new_summary) s = (
  true,
  elim (lookup key s) [ none ↦ s | some b ↦ insert key (store_summary compressed new_summary b) s ],
)

unfoldable pub compress_buffer : Config → Chat → Text → Sessions → Bool × Sessions
compress_buffer cfg chat key s = elim (lookup key s) [
  | none ↦ (true, s)
  | some b ↦
      let count = length b.messages - cfg.keep_recent in
      let (reply, s') = chat (compression_text b.summary (take count b.messages)) s in
      if leb (length b.messages) cfg.keep_recent
      then (true, s)
      else finish_compress key count reply s'
]

-- Step 2 of `push_dialogue`: eviction, then the message goes into the buffer of `key`.
unfoldable pub append_message : Text → ℕ → SessionBuffer → SessionBuffer
unfolding estimate_tokens
append_message msg now b = record b {
  messages = b.messages ++ (msg ∷ []);
  token_count = b.token_count + estimate_tokens msg;
  last_used = now;
}

abbrev pub buffer_or_new : ℕ → Option SessionBuffer → SessionBuffer
buffer_or_new now none = new_buffer now
buffer_or_new now (some b) = b

unfoldable pub record_message : Text → Text → ℕ → Sessions → Sessions
record_message key msg now s =
    let live = (evict_sessions s now session_idle_ttl max_sessions key).0 in
    insert key (append_message msg now (buffer_or_new now (lookup key live))) live

-- Step 3: over the threshold the buffer is compressed, or trimmed without a chat model or after
-- its failure. The flag says that a warning is given.
unfoldable pub reduce : Config → Option Chat → Text → Sessions → Bool × Sessions
reduce cfg none key s = (false, trim_to_recent cfg key s)
reduce cfg (some chat) key s =
    let (compressed, s') = compress_buffer cfg chat key s in
    if compressed then (false, s') else (true, trim_to_recent cfg key s')

pub record ContextWindow (Fact : Type 0) : Type 0 where
  pub summary : Option Text
  pub recent_messages : List Text
  pub relevant_facts : List Fact
  pub compression_failed : Bool
  pub recall_failed : Bool

-- The episode store and the recall of facts: each may fail.
pub record Services (Fact : Type 0) : Type 0 where
  pub store_episode : Text → Text → Text → Text → Option ℕ
  pub chat : Option Chat
  pub relevant_facts : Text → Text → Text → Option (List Fact)

abbrev pub window_of :
    {Fact : Type 0} → Text → Option SessionBuffer → Bool → Option (List Fact) → ContextWindow Fact
window_of msg b failed facts = record {
  summary = elim b [ none ↦ none | some b ↦ b.summary ];
  recent_messages = elim b [ none ↦ msg ∷ [] | some b ↦ b.messages ];
  relevant_facts = elim facts [ none ↦ [] | some fs ↦ fs ];
  compression_failed = failed;
  recall_failed = elim facts [ none ↦ true | some fs ↦ false ];
}

-- `push_dialogue`: `none` is a failure to archive the message.
unfoldable pub push_dialogue :
    {Fact : Type 0}
    → Services Fact
    → Config
    → Text
    → Text
    → Text
    → Text
    → ℕ
    → Sessions
    → Option (ContextWindow Fact × ℕ) × Sessions
push_dialogue sv cfg tenant session msg ccl now s =
    let key = session_key tenant session in
    elim (sv.store_episode tenant session msg ccl) [
      | none ↦ (none, s)
      | some episode_id ↦
          let pushed = record_message key msg now s in
          let over = ltb cfg.token_threshold (buffer_or_new now (lookup key pushed)).token_count in
          let (failed, reduced) = if over then reduce cfg sv.chat key pushed else (false, pushed) in
          let facts = sv.relevant_facts tenant msg ccl in
          (some (window_of msg (lookup key reduced) failed facts, episode_id), reduced)
    ]
