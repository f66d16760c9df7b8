-- ===== src/Domain/Ranking/Query.antt =====
-- src/domain/ranking.rs: `fts_match_query`, which turns raw text into an FTS5 expression, and
-- `leg_depth`.
pub mod Safety
use neurolithe.Base.{
  ℕ, ◌*◌, min, max, Bool, not, Option, none, some, List, [], ◌∷◌, ◌++◌, map, if◌then◌else◌, nat_key,
  text_key, is_empty, take, filter,
}
use neurolithe.Base.Text.{Text, text, Unicode, split, join}
use neurolithe.Domain.Tuning.{Ranking, usize_max}
use neurolithe.Domain.Ranking.StopWords.{is_stop_word}

abbrev pub max_query_terms : ℕ
max_query_terms = 32

abbrev quote_mark : ℕ
quote_mark = b'"'

-- `format!("\"{t}\"")`
abbrev pub quote : Text → Text
quote t = quote_mark ∷ (t ++ (quote_mark ∷ []))

unfoldable pub tokens : Unicode → Text → List Text
tokens u raw = filter (λ t. not (is_empty t)) (split (λ c. not (u.is_alphanumeric c)) raw)

unfoldable pub content : Unicode → Bool → List Text → List Text
content u drop_stop_words ts =
    if drop_stop_words then filter (λ t. not (is_stop_word u t)) ts else []

-- The terms before they are quoted.
unfoldable pub words : Unicode → Text → Bool → List Text
unfolding tokens content
words u raw drop_stop_words =
    let ts = tokens u raw in
    let kept = content u drop_stop_words ts in
    take max_query_terms (if is_empty kept then ts else kept)

unfoldable pub terms : Unicode → Text → Bool → List Text
unfolding words
terms u raw drop_stop_words = map quote (words u raw drop_stop_words)

unfoldable pub fts_match_query : Unicode → Text → Bool → Option Text
unfolding terms
fts_match_query u raw drop_stop_words =
    let ts = terms u raw drop_stop_words in
    if is_empty ts then none else some (join (text " OR ") ts)

abbrev saturating_mul : ℕ → ℕ → ℕ
saturating_mul a b = min (a * b) usize_max

unfoldable pub leg_depth : {F : Type 0} → ℕ → Ranking F → ℕ
leg_depth k ranking = saturating_mul (max k 1) (max ranking.leg_k_factor 1)
