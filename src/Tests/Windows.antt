-- ===== src/Tests/Windows.antt =====
-- Session windows at concrete tables.
use neurolithe.App.Sessions.Windows.{IsSound, push_dialogue-IsSound}
use neurolithe.App.Sessions.{
  SessionBuffer, Sessions, Config, Chat, Services, session_key, evict_sessions, compress_buffer,
  push_dialogue, record_message, max_sessions, session_idle_ttl, is_kept,
}
use neurolithe.Base.{
  ℕ, zero, suc, ◌+◌, ◌≡◌, refl, true, Option, none, some, List, [], ◌∷◌, ◌++◌, arith, length, take,
  All, nat_key, text_key,
}
use neurolithe.Base.Text.{Text, text}
use neurolithe.Base.Maps.{lookup}
use neurolithe.App.Sessions.Eviction.{IsEvicted, evict_sessions-IsEvicted}
use neurolithe.App.Sessions.Compression.{compress_buffer_keeps_new, record_message_over_cap}

abbrev buffer : List Text → ℕ → SessionBuffer
buffer ms used = record { messages = ms; summary = none; token_count = 0; last_used = used }

abbrev small : Config
small = record { token_threshold = 2; keep_recent = 1 }

abbrev key : Text
key = session_key (text "t") (text "a")

abbrev table : Sessions
table =
    (text "old", buffer [] 5)
    ∷ (key, buffer (text "hi" ∷ text "yo" ∷ []) 90)
    ∷ (text "new", buffer [] 80)
    ∷ []

evict_sessions-IsEvicted_example :
    IsEvicted 100 50 1 key table
      (evict_sessions table 100 50 1 key).0
      (evict_sessions table 100 50 1 key).1
evict_sessions-IsEvicted_example = evict_sessions-IsEvicted table 100 50 1 key refl

abbrev services : Option Chat → Services ℕ
services chat = record {
  store_episode = λ t s m c. some 9;
  chat = chat;
  relevant_facts = λ t m c. some [];
}

-- The model answers, and the wait changes nothing.
abbrev calm : Chat
calm t s = (some (text "in short"), s)

table-IsSound : IsSound []
table-IsSound = record { table = refl; counted = λ j b h. cc }

push_dialogue-IsSound_example :
    IsSound
      (push_dialogue
        (services (some calm))
        small
        (text "t")
        (text "a")
        (text "hello")
        (text "c")
        100
        []).1
push_dialogue-IsSound_example =
    push_dialogue-IsSound (services (some calm)) small (text "t") (text "a") (text "hello")
      (text "c") 100 [] (λ t s h. h) table-IsSound

-- The model answers, and a message comes in meanwhile.
abbrev busy : Chat
busy t s =
    (some (text "in short"), (key, buffer (text "hi" ∷ text "yo" ∷ text "more" ∷ []) 95) ∷ [])

compress_buffer_keeps_new_example :
    let (done, after) = compress_buffer small busy key table in
    (done ≡ true)
    × (c : SessionBuffer) × (lookup key after ≡ some c)
    × (c.summary ≡ some (text "in short"))
    × (kept : List Text) × (length kept ≡ 1)
    × (c.messages ≡ kept ++ (text "more" ∷ []))
    × (take 1 (text "hi" ∷ text "yo" ∷ []) ++ kept ≡ text "hi" ∷ text "yo" ∷ [])
compress_buffer_keeps_new_example =
    compress_buffer_keeps_new small busy key table
      ((key, buffer (text "hi" ∷ text "yo" ∷ text "more" ∷ []) 95) ∷ [])
      (buffer (text "hi" ∷ text "yo" ∷ []) 90)
      (buffer (text "hi" ∷ text "yo" ∷ text "more" ∷ []) 95) (text "in short") (text "more" ∷ [])
      refl (omega arith) refl refl refl

-- As many sessions as are allowed, with the names 1, 2 and so on.
abbrev many : ℕ → Sessions
many zero = []
many (suc n) = (suc n ∷ [], buffer [] 90) ∷ many n

All-kept : (n : ℕ) → All (λ e. is_kept 100 session_idle_ttl key e ≡ true) (many n)
All-kept zero = tt
All-kept (suc n) = (ground arith, All-kept n)

record_message_over_cap_example :
    length (record_message key (text "hello") 100 (many max_sessions)) ≡ max_sessions + 1
record_message_over_cap_example =
    record_message_over_cap key (text "hello") 100 (many max_sessions) refl (All-kept 256) refl
