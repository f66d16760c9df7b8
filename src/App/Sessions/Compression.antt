-- ===== src/App/Sessions/Compression.antt =====
-- Compression across a wait, and the size of the table.
use neurolithe.Base.{
  ℕ, zero, suc, ◌+◌, ◌-◌, ◌≤◌, ◌<◌, min, ◌≡◌, refl, ◌∙◌, inl, inr, Bool, true, false, none, some,
  List, [], ◌∷◌, ◌++◌, arith, leb, Option-cases, list_eqb_iff, length, take, drop, filter, All,
  length-append, length-drop, take-append-drop, nat_key, text_key,
}
use neurolithe.Base.Text.{Text}
use neurolithe.Base.Maps.{lookup, insert, lookup-insert}
use neurolithe.App.Sessions.{
  SessionBuffer, Sessions, Config, Chat, store_summary, finish_compress, compress_buffer,
  append_message, buffer_or_new, record_message, evict_sessions, evict_loop, is_kept, max_sessions,
  session_idle_ttl, compression_text,
}
use neurolithe.App.Sessions.Windows.{drop-append}
use neurolithe.App.Sessions.Eviction.{IsTable, evict_sessions-IsEvicted}

-- If other pushes only appended to the window during the wait, a successful compression drops
-- exactly the messages that were summarised: the `keep_recent` last ones of the old window and
-- every message that came in meanwhile stay, in order, and the reply is the new summary.
pub compress_buffer_keeps_new :
    (cfg : Config) (chat : Chat) (key : Text) (s s' : Sessions) (b b' : SessionBuffer)
    (reply : Text) (new : List Text)
    → lookup key s ≡ some b
    → cfg.keep_recent < length b.messages
    → chat (compression_text b.summary (take (length b.messages - cfg.keep_recent) b.messages)) s
      ≡ (some reply, s')
    → lookup key s' ≡ some b'
    → b'.messages ≡ b.messages ++ new
    → let (done, after) = compress_buffer cfg chat key s in
      (done ≡ true)
      × (c : SessionBuffer) × (lookup key after ≡ some c)
      × (c.summary ≡ some reply)
      × (kept : List Text) × (length kept ≡ cfg.keep_recent)
      × (c.messages ≡ kept ++ new)
      × (take (length b.messages - cfg.keep_recent) b.messages ++ kept ≡ b.messages)
unfolding compress_buffer finish_compress store_summary
compress_buffer_keeps_new cfg chat key s s' b b' reply new here long wait there grown =
    let n = length b.messages - cfg.keep_recent in
    let c = store_summary n reply b' in
    let many : leb (length b.messages) cfg.keep_recent ≡ false = ground arith in
    let room : min n (length b'.messages) ≡ n =
      rw grown (omega (arith, length-append {0} b.messages new)) in
    rw (here, many, wait, there, compress_buffer, finish_compress)
      (
        refl,
        c,
        rw (lookup-insert, (list_eqb_iff key key).1 refl),
        refl,
        drop n b.messages,
        omega (arith, length-drop {0} n b.messages),
        rw (room, grown) (drop-append n b.messages new (omega arith)),
        take-append-drop n b.messages,
      )

-- An insertion under a new key makes the table one longer.
length-insert_new :
    (k : Text) (b : SessionBuffer) (s : Sessions)
    → lookup k s ≡ none
    → length (insert k b s) ≡ length s + 1
length-insert_new k b [] h = omega arith
length-insert_new k b (e ∷ s) h = ground (arith, length-insert_new k b s)

length-insert_old :
    (k : Text) (b c : SessionBuffer) (s : Sessions)
    → lookup k s ≡ some c
    → length (insert k b s) ≡ length s
length-insert_old k b c [] h = cc
length-insert_old k b c (e ∷ s) h = ground (arith, length-insert_old k b c s)

-- A push leaves at most one session more than the stated maximum.
pub record_message-count :
    (key m : Text) (now : ℕ) (s : Sessions)
    → IsTable s
    → length (record_message key m now s) ≤ max_sessions + 1
unfolding record_message
record_message-count key m now s t =
    let live = (evict_sessions s now session_idle_ttl max_sessions key).0 in
    let e = evict_sessions-IsEvicted s now session_idle_ttl max_sessions key t in
    elim (Option-cases (lookup key live)) [
      | inl new ↦ omega (
        arith,
        length-insert_new key (append_message m now (buffer_or_new now (lookup key live))) live new,
        e.bounded,
      )
      | inr (c, old) ↦ omega (
        arith,
        length-insert_old key (append_message m now (buffer_or_new now (lookup key live))) c live
            old,
        e.bounded,
      )
    ]

filter-All :
    (p : Text × SessionBuffer → Bool) (s : Sessions) → All (λ e. p e ≡ true) s → filter p s ≡ s
filter-All p [] h = refl
filter-All p (e ∷ s) h = rw (h.0, filter-All p s h.1)

evict_loop_fits :
    (fuel max_count : ℕ) (keep : Text) (s : Sessions)
    → length s ≤ max_count
    → evict_loop fuel max_count keep s ≡ s
unfolding evict_loop
evict_loop_fits zero max_count keep s h = refl
evict_loop_fits (suc fuel) max_count keep s h = ground arith

-- With exactly the maximum of sessions, none of them idle, a push to a new session goes one over
-- the maximum: eviction makes room for the table as it is, not for the session to come.
pub record_message_over_cap :
    (key m : Text) (now : ℕ) (s : Sessions)
    → length s ≡ max_sessions
    → All (λ e. is_kept now session_idle_ttl key e ≡ true) s
    → lookup key s ≡ none
    → length (record_message key m now s) ≡ max_sessions + 1
unfolding record_message evict_sessions
record_message_over_cap key m now s full fresh new =
    let p = is_kept now session_idle_ttl key in
    let b = append_message m now (buffer_or_new now (lookup key s)) in
    rw (filter-All p s fresh, evict_loop_fits (length s) max_sessions key s (omega arith))
      (length-insert_new key b s new ∙ omega arith)
