-- ===== src/Domain/Ranking/Query/Safety.antt =====
-- What the keyword query is made of, and when there is none.
use neurolithe.Base.{
  ℕ, ◌*◌, ◌^◌, ◌≤◌, ◌<◌, max, ◌≡◌, refl, sym, ◌∙◌, ◌↔◌, inl, inr, Bool, true, false, not, none,
  some, List, [], ◌∷◌, map, arith, if◌then◌else◌, Bool-cases, length, is_empty, take, filter, all,
  any, All, length-take, All-take, All-filter, nat_key, text_key,
}
use neurolithe.Base.Text.{Text, text, Unicode, split, prepend, join}
use neurolithe.Base.Float.{Float}
use neurolithe.Domain.Tuning.{Ranking, problems, problems-nil_iff}
use neurolithe.Domain.Ranking.StopWords.{is_stop_word}
use neurolithe.Domain.Ranking.Query.{
  max_query_terms, quote, tokens, content, terms, words, fts_match_query, leg_depth,
}

module _ (u : Unicode) where
  -- A piece of text that FTS5 reads as one plain word.
  abbrev pub IsWord : Text → Type 0
  IsWord t = (is_empty t ≡ false) × (all u.is_alphanumeric t ≡ true)

  abbrev sep : ℕ → Bool
  sep c = not (u.is_alphanumeric c)

  prepend-alphanumeric :
      (c : ℕ) (ws : List Text)
      → u.is_alphanumeric c ≡ true
      → All (λ t. all u.is_alphanumeric t ≡ true) ws
      → All (λ t. all u.is_alphanumeric t ≡ true) (prepend c ws)
  prepend-alphanumeric c [] hc h = (ground arith, tt)
  prepend-alphanumeric c (w ∷ ws) hc h = (ground arith, h.1)

  split-alphanumeric : (raw : Text) → All (λ t. all u.is_alphanumeric t ≡ true) (split sep raw)
  split-alphanumeric [] = (refl, tt)
  split-alphanumeric (c ∷ cs) = elim (Bool-cases (u.is_alphanumeric c)) [
    | inl yes_word ↦
        rw yes_word (prepend-alphanumeric c (split sep cs) yes_word (split-alphanumeric cs))
    | inr break ↦ rw break (refl, split-alphanumeric cs)
  ]

  nonempty-IsWord :
      (ws : List Text)
      → All (λ t. all u.is_alphanumeric t ≡ true) ws
      → All IsWord (filter (λ t. not (is_empty t)) ws)
  nonempty-IsWord [] h = tt
  nonempty-IsWord ([] ∷ ws) h = nonempty-IsWord ws h.1
  nonempty-IsWord ((c ∷ cs) ∷ ws) h = ((refl, h.0), nonempty-IsWord ws h.1)

  tokens-IsWord : (raw : Text) → All IsWord (tokens u raw)
  unfolding tokens
  tokens-IsWord raw = nonempty-IsWord (split sep raw) (split-alphanumeric raw)

  words-IsWord : (raw : Text) (d : Bool) → All IsWord (words u raw d)
  unfolding words content
  words-IsWord raw true =
      let ts = tokens u raw in
      let kept = filter (λ t. not (is_stop_word u t)) ts in
      elim (Bool-cases (is_empty kept)) [
        | inl only_stops ↦ rw only_stops (All-take IsWord max_query_terms ts (tokens-IsWord raw))
        | inr some_kept ↦ rw some_kept (
            All-take IsWord max_query_terms kept
              (All-filter IsWord (λ t. not (is_stop_word u t)) ts (tokens-IsWord raw)))
      ]
  words-IsWord raw false = All-take IsWord max_query_terms (tokens u raw) (tokens-IsWord raw)

  length-words-le : (raw : Text) (d : Bool) → length (words u raw d) ≤ 32
  unfolding words
  length-words-le raw d =
      let kept = content u d (tokens u raw) in
      omega (arith, length-take {0} max_query_terms (if is_empty kept then tokens u raw else kept))

  quoted_nonempty : (ws : List Text) → is_empty (map quote ws) ≡ false → 1 ≤ length ws
  quoted_nonempty [] h = cc
  quoted_nonempty (w ∷ ws) h = omega arith

  -- A query is the words that were found, each quoted, joined by OR: between 1 and 32 of them,
  -- each non-empty and alphanumeric, so that no operator of FTS5 can come from the text.
  pub fts_match_query-IsSafe :
      (raw : Text) (d : Bool) {q : Text}
      → fts_match_query u raw d ≡ some q
      → (ws : List Text) × (q ≡ join (text " OR ") (map quote ws))
        × (1 ≤ length ws)
        × (length ws ≤ 32)
        × All IsWord ws
  unfolding fts_match_query terms
  fts_match_query-IsSafe raw d h =
      let ws = words u raw d in
      elim (Bool-cases (is_empty (map quote ws))) [
        | inl nothing ↦ absurd (ground arith)
        | inr something ↦ (
          ws,
          ground arith,
          quoted_nonempty ws something,
          length-words-le raw d,
          words-IsWord raw d,
        )
      ]

  filter-prepend :
      (c : ℕ) (ws : List Text) → is_empty (filter (λ t. not (is_empty t)) (prepend c ws)) ≡ false
  filter-prepend c [] = refl
  filter-prepend c (w ∷ ws) = refl

  tokens-empty :
      (raw : Text)
      → is_empty (filter (λ t. not (is_empty t)) (split sep raw)) ≡ not (any u.is_alphanumeric raw)
  tokens-empty [] = refl
  tokens-empty (c ∷ cs) = elim (Bool-cases (u.is_alphanumeric c)) [
    | inl in_word ↦ rw in_word (filter-prepend c (split sep cs))
    | inr break ↦ rw break (tokens-empty cs)
  ]

  take-empty : (ws : List Text) → is_empty (take 32 ws) ≡ is_empty ws
  take-empty [] = refl
  take-empty (w ∷ ws) = refl

  content-some :
      (d : Bool) (ws : List Text) → is_empty (content u d ws) ≡ false → is_empty ws ≡ false
  unfolding content
  content-some true [] h = h
  content-some false [] h = h
  content-some d (w ∷ ws) h = refl

  map-empty : (ws : List Text) → is_empty (map quote ws) ≡ is_empty ws
  map-empty [] = refl
  map-empty (w ∷ ws) = refl

  words-empty : (raw : Text) (d : Bool) → is_empty (words u raw d) ≡ is_empty (tokens u raw)
  unfolding words content
  words-empty raw d =
      let kept = content u d (tokens u raw) in
      elim (Bool-cases (is_empty kept)) [
        | inl nothing ↦ rw nothing (take-empty (tokens u raw))
        | inr something ↦
            rw something
              (take-empty kept ∙ (something ∙ sym (content-some d (tokens u raw) something)))
      ]

  -- The keyword leg is skipped exactly when the text has no alphanumeric character, whether
  -- stop-words are dropped or not.
  pub fts_match_query-none_iff :
      (raw : Text) (d : Bool)
      → (fts_match_query u raw d ≡ none) ↔ (any u.is_alphanumeric raw ≡ false)
  unfolding fts_match_query terms tokens
  fts_match_query-none_iff raw d =
      let same = map-empty (words u raw d) ∙ (words-empty raw d ∙ tokens-empty raw) in
      (λ h. ground (arith, same), λ h. ground (arith, same))

  plain_words :
      (ws : List Text)
      → All (λ t. is_stop_word u t ≡ false) (filter (λ t. not (is_stop_word u t)) ws)
  plain_words [] = tt
  plain_words (w ∷ ws) = elim (Bool-cases (is_stop_word u w)) [
    | inl stop ↦ rw stop (plain_words ws)
    | inr plain ↦ rw plain (plain, plain_words ws)
  ]

  plain_none :
      (ws : List Text)
      → is_empty (filter (λ t. not (is_stop_word u t)) ws)
        ≡ not (any (λ t. not (is_stop_word u t)) ws)
  plain_none [] = refl
  plain_none (w ∷ ws) = ground (arith, plain_none ws)

  -- If some word of the text is no stop-word, a query that drops stop-words has none; else it has
  -- the first 32 words of the text.
  words_drop_stops :
      (raw : Text)
      → let plain = any (λ t. not (is_stop_word u t)) (tokens u raw) in
        (plain ≡ true → All (λ t. is_stop_word u t ≡ false) (words u raw true))
        × (plain ≡ false → words u raw true ≡ take 32 (tokens u raw))
  unfolding words content
  words_drop_stops raw =
      let ts = tokens u raw in
      let kept = filter (λ t. not (is_stop_word u t)) ts in
      (
        λ h.
            let e : is_empty kept ≡ false = ground (arith, plain_none ts) in
            rw e (All-take (λ t. is_stop_word u t ≡ false) 32 kept (plain_words ts)),
        λ h. let e : is_empty kept ≡ true = ground (arith, plain_none ts) in rw e,
      )

factor_bounds : (n f : ℕ) → 1 ≤ f → f ≤ 50 → (n ≤ n * f) × (n * f ≤ n * 50)
factor_bounds n f low high = grind arith

-- With validated settings a leg ranks at least as many candidates as are asked for, and at most
-- fifty times as many, with no overflow for a `k` that leaves room.
pub leg_depth_bounds :
    (fl : Float) (r : Ranking fl.F64) (k : ℕ)
    → problems fl r ≡ []
    → k * 50 < 2 ^ 64
    → (leg_depth k r ≡ max k 1 * r.leg_k_factor)
      × (k ≤ leg_depth k r)
      × (1 ≤ leg_depth k r)
      × (leg_depth k r ≤ max k 1 * 50)
unfolding leg_depth
leg_depth_bounds fl r k h room =
    let ok = (problems-nil_iff fl r).0 h in
    let f = r.leg_k_factor in
    let one : max f 1 ≡ f = omega arith in
    let (low, high) = factor_bounds (max k 1) f ok.factor_pos ok.factor_bounded in
    rw one (omega arith)
