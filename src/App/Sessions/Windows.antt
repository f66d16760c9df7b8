-- ===== src/App/Sessions/Windows.antt =====
-- What a push leaves in the window of its session and in the other windows.
use neurolithe.Base.{
  ℕ, zero, suc, ◌+◌, ◌-◌, ◌≤◌, ◌<◌, ◌≡◌, refl, ap, ◌⊎◌, inl, inr, false, not, ◌||◌, Option, none,
  some, List, [], ◌∷◌, ◌++◌, arith, ltb, leb, if◌then◌else◌, Bool-cases, Option-cases, is_some,
  ◌==◌, list_eqb_iff, length, drop, length-drop, contains, nat_key, text_key,
}
use neurolithe.App.Sessions.{ContextWindow}
use neurolithe.Base.{
  ℕ, ◌+◌, ◌-◌, ◌≤◌, ◌≡◌, refl, ap, ◌⊎◌, inl, inr, false, ◌||◌, Option, none, some, List, [], ◌∷◌,
  ◌++◌, arith, ltb, leb, if◌then◌else◌, Bool-cases, Option-cases, ◌==◌, nat_key, text_key,
  list_eqb_iff, length, drop, length-drop, contains,
}
use neurolithe.Base.Text.{Text}
use neurolithe.Base.Maps.{lookup, insert, lookup-insert}
use neurolithe.App.Sessions.{
  SessionBuffer, Sessions, Config, Chat, Services, count_messages, count_summary, estimate_tokens,
  trim_buffer, trim_to_recent, store_summary, finish_compress, compress_buffer, append_message,
  buffer_or_new, record_message, reduce, push_dialogue, evict_sessions, max_sessions,
  session_idle_ttl, session_key, new_buffer,
}
use neurolithe.App.Sessions.Eviction.{IsTable, keys, evict_sessions-IsEvicted}

-- The stored count is the estimate of what the buffer holds.
abbrev IsCounted : SessionBuffer → Type 0
IsCounted b = b.token_count ≡ count_messages b.messages + count_summary b.summary

count_messages-append :
    (xs ys : List Text) → count_messages (xs ++ ys) ≡ count_messages xs + count_messages ys
unfolding count_messages
count_messages-append [] ys = omega arith
count_messages-append (x ∷ xs) ys = omega (arith, count_messages-append xs ys)

count_messages-one : (m : Text) → count_messages (m ∷ []) ≡ estimate_tokens m
unfolding count_messages
count_messages-one m = omega arith

append_message-IsCounted :
    (m : Text) (now : ℕ) (b : SessionBuffer) → IsCounted b → IsCounted (append_message m now b)
unfolding append_message
append_message-IsCounted m now b h =
    omega (arith, h, count_messages-append b.messages (m ∷ []), count_messages-one m)

trim_buffer-IsCounted : (n : ℕ) (b : SessionBuffer) → IsCounted (trim_buffer n b)
unfolding trim_buffer
trim_buffer-IsCounted n b = refl

store_summary-IsCounted : (n : ℕ) (t : Text) (b : SessionBuffer) → IsCounted (store_summary n t b)
unfolding store_summary
store_summary-IsCounted n t b = refl

new_buffer-IsCounted : (now : ℕ) → IsCounted (new_buffer now)
unfolding count_messages count_summary
new_buffer-IsCounted now = refl

-- The invariant of the table: no key twice, and every buffer counted.
pub record IsSound (s : Sessions) : Type 0 where
  pub table : IsTable s
  pub counted : (j : Text) (b : SessionBuffer) → lookup j s ≡ some b → IsCounted b

contains-insert :
    (k j : Text) (b : SessionBuffer) (s : Sessions)
    → contains (keys (insert k b s)) j ≡ (contains (keys s) j || (k == j))
contains-insert k j b [] = ground arith
contains-insert k j b (e ∷ s) =
    ground
      (arith, list_eqb_iff k e.0, list_eqb_iff e.0 j, list_eqb_iff k j, contains-insert k j b s)

insert-IsTable : (k : Text) (b : SessionBuffer) (s : Sessions) → IsTable s → IsTable (insert k b s)
insert-IsTable k b [] h = refl
insert-IsTable k b (e ∷ s) h =
    ground (arith, list_eqb_iff k e.0, contains-insert k e.0 b s, insert-IsTable k b s)

insert-IsSound :
    (k : Text) (b : SessionBuffer) (s : Sessions) → IsCounted b → IsSound s → IsSound (insert k b s)
insert-IsSound k b s c h = record {
  table = insert-IsTable k b s h.table;
  counted = λ j c' found. ground (arith, lookup-insert k j b s, h.counted j c', c);
}

buffer_or_new-IsCounted :
    (now : ℕ) (key : Text) (s : Sessions) → IsSound s → IsCounted (buffer_or_new now (lookup key s))
buffer_or_new-IsCounted now key s h = elim (Option-cases (lookup key s)) [
  | inl new ↦ rw new (new_buffer-IsCounted now)
  | inr (b, old) ↦ rw old (h.counted key b old)
]

record_message-IsSound :
    (key m : Text) (now : ℕ) (s : Sessions) → IsSound s → IsSound (record_message key m now s)
unfolding record_message
record_message-IsSound key m now s h =
    let live = (evict_sessions s now session_idle_ttl max_sessions key).0 in
    let e = evict_sessions-IsEvicted s now session_idle_ttl max_sessions key h.table in
    let sound : IsSound live = record {
      table = e.table;
      counted = λ j b found. h.counted j b (e.same j b found);
    } in
    insert-IsSound key (append_message m now (buffer_or_new now (lookup key live))) live
      (append_message-IsCounted m now (buffer_or_new now (lookup key live))
        (buffer_or_new-IsCounted now key live sound))
      sound

trim_to_recent-IsSound :
    (cfg : Config) (key : Text) (s : Sessions) → IsSound s → IsSound (trim_to_recent cfg key s)
unfolding trim_to_recent
trim_to_recent-IsSound cfg key s h = elim (Option-cases (lookup key s)) [
  | inl new ↦ rw (new, trim_to_recent) h
  | inr (b, old) ↦
      rw (old, trim_to_recent) (insert-IsSound key _ s (trim_buffer-IsCounted cfg.keep_recent b) h)
]

-- The wait for the chat model keeps the invariant.
abbrev pub Keeps : Chat → Type 0
Keeps chat = (t : Text) (s : Sessions) → IsSound s → IsSound (chat t s).1

finish_compress-IsSound :
    (key : Text) (n : ℕ) (reply : Option Text) (s : Sessions)
    → IsSound s
    → IsSound (finish_compress key n reply s).1
unfolding finish_compress
finish_compress-IsSound key n none s h = h
finish_compress-IsSound key n (some t) s h = elim (Option-cases (lookup key s)) [
  | inl gone ↦ rw (gone, finish_compress) h
  | inr (b, there) ↦
      rw (there, finish_compress) (insert-IsSound key _ s (store_summary-IsCounted n t b) h)
]

compress_buffer-IsSound :
    (cfg : Config) (chat : Chat) (key : Text) (s : Sessions)
    → Keeps chat
    → IsSound s
    → IsSound (compress_buffer cfg chat key s).1
unfolding compress_buffer
compress_buffer-IsSound cfg chat key s keeps h = elim (Option-cases (lookup key s)) [
  | inl gone ↦ rw (gone, compress_buffer) h
  | inr (b, there) ↦ elim (Bool-cases (leb (length b.messages) cfg.keep_recent)) [
    | inl few ↦ rw (there, few, compress_buffer) h
    | inr many ↦ rw (there, many, compress_buffer) (finish_compress-IsSound key _ _ _ (keeps _ s h))
  ]
]

abbrev KeepsAny : Option Chat → Type 0
KeepsAny none = Unit
KeepsAny (some chat) = Keeps chat

reduce-IsSound :
    (cfg : Config) (chat : Option Chat) (key : Text) (s : Sessions)
    → KeepsAny chat
    → IsSound s
    → IsSound (reduce cfg chat key s).1
unfolding reduce
reduce-IsSound cfg none key s keeps h = trim_to_recent-IsSound cfg key s h
reduce-IsSound cfg (some chat) key s keeps h =
    let (compressed, s') = compress_buffer cfg chat key s in
    let sound = compress_buffer-IsSound cfg chat key s keeps h in
    elim (Bool-cases compressed) [
      | inl done ↦ rw (done, reduce) sound
      | inr failed ↦ rw (failed, reduce) (trim_to_recent-IsSound cfg key s' sound)
    ]

-- A push keeps the invariant on every path, the failures included: no session stands twice in the
-- table, and every buffer's count is the estimate of its messages and its summary.
pub push_dialogue-IsSound :
    {Fact : Type 0} (sv : Services Fact) (cfg : Config) (tenant session msg ccl : Text) (now : ℕ)
    (s : Sessions)
    → KeepsAny sv.chat
    → IsSound s
    → IsSound (push_dialogue sv cfg tenant session msg ccl now s).1
unfolding push_dialogue
push_dialogue-IsSound sv cfg tenant session msg ccl now s keeps h =
    let key = session_key tenant session in
    let pushed = record_message key msg now s in
    let sound = record_message-IsSound key msg now s h in
    let over = ltb cfg.token_threshold (buffer_or_new now (lookup key pushed)).token_count in
    elim (Option-cases (sv.store_episode tenant session msg ccl)) [
      | inl refused ↦ rw (refused, push_dialogue) h
      | inr (id, stored) ↦ elim (Bool-cases over) [
        | inl yes_over ↦
            rw (stored, yes_over, push_dialogue) (reduce-IsSound cfg sv.chat key pushed keeps sound)
        | inr fits ↦ rw (stored, fits, push_dialogue) sound
      ]
    ]

pub drop-append : (n : ℕ) (xs ys : List Text) → n ≤ length xs → drop n (xs ++ ys) ≡ drop n xs ++ ys
drop-append zero xs ys h = refl
drop-append (suc n) [] ys h = absurd (omega arith)
drop-append (suc n) (x ∷ xs) ys h = drop-append n xs ys (omega arith)

-- The lines of the window of a session.
abbrev pub previous : Text → Sessions → List Text
previous key s = elim (lookup key s) [ none ↦ [] | some b ↦ b.messages ]

-- What a push without a chat model leaves in the buffer of its session.
pub record IsWindow (cfg : Config) (msg : Text) (now : ℕ) (before : List Text) (b : SessionBuffer)
    : Type 0 where
  pub used : b.last_used ≡ now
  pub lines :
      ((b.messages ≡ before ++ (msg ∷ [])) × (b.token_count ≤ cfg.token_threshold))
      ⊎ ((b.messages
            ≡ drop (length (before ++ (msg ∷ [])) - cfg.keep_recent) (before ++ (msg ∷ [])))
          × (length b.messages ≤ cfg.keep_recent))
  pub last : 0 < cfg.keep_recent → (front : List Text) × (b.messages ≡ front ++ (msg ∷ []))

-- What the caller is shown of a buffer.
pub record IsShown {Fact : Type 0} (b : SessionBuffer) (facts : Option (List Fact))
    (w : ContextWindow Fact) : Type 0 where
  pub recent_messages : w.recent_messages ≡ b.messages
  pub summary : w.summary ≡ b.summary
  pub compression_failed : w.compression_failed ≡ false
  pub recall_failed : w.recall_failed ≡ not (is_some facts)

-- The buffer just after the message went in.
abbrev appended : Text → Text → ℕ → Sessions → SessionBuffer
appended key msg now s = append_message msg now (buffer_or_new now (lookup key s))
