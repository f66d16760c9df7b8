-- ===== src/Tests/Ranking.antt =====
-- Fusion, the keyword query and the retrieval settings at concrete inputs.
use neurolithe.Base.{
  ℕ, ◌≤◌, ◌≡◌, refl, true, ◌||◌, some, List, [], ◌∷◌, map, length, All, contains, distinct, nat_key,
  text_key,
}
use neurolithe.Base.Text.{Text, text, join}
use neurolithe.Base.Text.Order.{text_cmp}
use neurolithe.Domain.Tuning.{Ranking, default_ranking, problems}
use neurolithe.Domain.Ranking.Fusion.{
  contribution, credit, add_one, add_all, collect, ranked, rrf_fuse,
}
use neurolithe.Domain.Ranking.Fusion.Results.{
  keys, IsScored, IsBestFirst, rrf_fuse_candidates, rrf_fuse-IsBestFirst,
}
use neurolithe.Domain.Ranking.StopWords.{stop_words, search, binary_search, is_stop_word}
use neurolithe.Domain.Ranking.StopWords.Search.{is_stop_word-contains}
use neurolithe.Domain.Ranking.Query.{quote, tokens, content, words, terms, fts_match_query}
use neurolithe.Domain.Ranking.Query.Safety.{IsWord, fts_match_query-IsSafe}
use neurolithe.Tests.Floats.{Fixed, num, fixed, fixed-OrderLaws}
use neurolithe.Tests.Unicode.{ascii}

abbrev vector_leg : List ℕ
vector_leg = 1 ∷ 2 ∷ 1 ∷ []

abbrev keyword_leg : List ℕ
keyword_leg = 2 ∷ 3 ∷ []

abbrev settings : Ranking Fixed
settings = default_ranking fixed

rrf_fuse_candidates_example :
    (out : List (ℕ × Fixed)) × (rrf_fuse fixed vector_leg keyword_leg settings ≡ some out)
    × (distinct (keys fixed out) ≡ true)
    × ((q : ℕ) → contains (keys fixed out) q ≡ (contains vector_leg q || contains keyword_leg q))
    × All (IsScored fixed vector_leg keyword_leg settings) out
rrf_fuse_candidates_example = rrf_fuse_candidates fixed vector_leg keyword_leg settings

abbrev fused : List (ℕ × Fixed)
fused = (2, num 317857142) ∷ (1, num 166666666) ∷ (3, num 150000000) ∷ []

-- The key that both lists have is first.
rrf_fuse_test : rrf_fuse fixed vector_leg keyword_leg settings ≡ some fused
unfolding rrf_fuse ranked collect add_all add_one credit contribution
rrf_fuse_test = refl

rrf_fuse-IsBestFirst_example : IsBestFirst fixed fused
rrf_fuse-IsBestFirst_example =
    rrf_fuse-IsBestFirst fixed fixed-OrderLaws vector_leg keyword_leg settings rrf_fuse_test

is_stop_word-contains_example :
    is_stop_word ascii (text "The") ≡ contains stop_words (ascii.to_lowercase (text "The"))
is_stop_word-contains_example = is_stop_word-contains ascii (text "The")

the_is_stop_word : is_stop_word ascii (text "The") ≡ true
unfolding is_stop_word binary_search search text_cmp
the_is_stop_word = refl

-- Words and operators of FTS5, with no meaning left.
abbrev raw : Text
raw = text "the \"cat\" OR NEAR(dog*)"

abbrev query : Text
query = text "\"cat\" OR \"NEAR\" OR \"dog\""

fts_match_query_test : fts_match_query ascii raw true ≡ some query
unfolding fts_match_query terms words content tokens is_stop_word binary_search search text_cmp
fts_match_query_test = refl

fts_match_query-IsSafe_example :
    (ws : List Text) × (query ≡ join (text " OR ") (map quote ws))
    × (1 ≤ length ws)
    × (length ws ≤ 32)
    × All (IsWord ascii) ws
fts_match_query-IsSafe_example = fts_match_query-IsSafe ascii raw true fts_match_query_test

no_problem : problems fixed settings ≡ []
unfolding problems
no_problem = refl
