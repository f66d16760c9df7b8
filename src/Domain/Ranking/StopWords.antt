-- ===== src/Domain/Ranking/StopWords.antt =====
-- src/domain/ranking.rs: the English stop-words and the test for one, a binary search.
pub mod Search
use neurolithe.Base.{
  ℕ, zero, suc, ◌/◌, Ordering, Bool, true, false, not, some, List, [], ◌∷◌, nat_key, text_key,
  length, take, drop, all, any,
}
use neurolithe.Base.Text.{Text, text, Unicode}
use neurolithe.Base.Text.Order.{text_cmp}

-- `STOP_WORDS`, in the source's order.
abbrev pub stop_words : List Text
stop_words =
    text "a"
    ∷ text "about"
    ∷ text "above"
    ∷ text "after"
    ∷ text "again"
    ∷ text "against"
    ∷ text "all"
    ∷ text "am"
    ∷ text "an"
    ∷ text "and"
    ∷ text "any"
    ∷ text "are"
    ∷ text "as"
    ∷ text "at"
    ∷ text "be"
    ∷ text "because"
    ∷ text "been"
    ∷ text "before"
    ∷ text "being"
    ∷ text "below"
    ∷ text "between"
    ∷ text "both"
    ∷ text "but"
    ∷ text "by"
    ∷ text "can"
    ∷ text "could"
    ∷ text "did"
    ∷ text "do"
    ∷ text "does"
    ∷ text "doing"
    ∷ text "don"
    ∷ text "down"
    ∷ text "during"
    ∷ text "each"
    ∷ text "few"
    ∷ text "for"
    ∷ text "from"
    ∷ text "further"
    ∷ text "had"
    ∷ text "has"
    ∷ text "have"
    ∷ text "having"
    ∷ text "he"
    ∷ text "her"
    ∷ text "here"
    ∷ text "hers"
    ∷ text "herself"
    ∷ text "him"
    ∷ text "himself"
    ∷ text "his"
    ∷ text "how"
    ∷ text "i"
    ∷ text "if"
    ∷ text "in"
    ∷ text "into"
    ∷ text "is"
    ∷ text "it"
    ∷ text "its"
    ∷ text "itself"
    ∷ text "just"
    ∷ text "me"
    ∷ text "more"
    ∷ text "most"
    ∷ text "my"
    ∷ text "myself"
    ∷ text "no"
    ∷ text "nor"
    ∷ text "not"
    ∷ text "now"
    ∷ text "of"
    ∷ text "off"
    ∷ text "on"
    ∷ text "once"
    ∷ text "only"
    ∷ text "or"
    ∷ text "other"
    ∷ text "our"
    ∷ text "ours"
    ∷ text "ourselves"
    ∷ text "out"
    ∷ text "over"
    ∷ text "own"
    ∷ text "s"
    ∷ text "same"
    ∷ text "she"
    ∷ text "should"
    ∷ text "so"
    ∷ text "some"
    ∷ text "such"
    ∷ text "t"
    ∷ text "than"
    ∷ text "that"
    ∷ text "the"
    ∷ text "their"
    ∷ text "theirs"
    ∷ text "them"
    ∷ text "themselves"
    ∷ text "then"
    ∷ text "there"
    ∷ text "these"
    ∷ text "they"
    ∷ text "this"
    ∷ text "those"
    ∷ text "through"
    ∷ text "to"
    ∷ text "too"
    ∷ text "under"
    ∷ text "until"
    ∷ text "up"
    ∷ text "very"
    ∷ text "was"
    ∷ text "we"
    ∷ text "were"
    ∷ text "what"
    ∷ text "when"
    ∷ text "where"
    ∷ text "which"
    ∷ text "while"
    ∷ text "who"
    ∷ text "whom"
    ∷ text "why"
    ∷ text "will"
    ∷ text "with"
    ∷ text "would"
    ∷ text "you"
    ∷ text "your"
    ∷ text "yours"
    ∷ text "yourself"
    ∷ text "yourselves"
    ∷ []

-- The search of a slice; the fuel bounds its length.
unfoldable pub search : ℕ → List Text → Text → Bool
search zero words t = false
search (suc fuel) words t =
    let half = length words / 2 in
    elim (drop half words) [
      | [] ↦ false
      | mid ∷ above ↦ elim (text_cmp mid t) [
        | Ordering.eq ↦ true
        | Ordering.lt ↦ search fuel above t
        | Ordering.gt ↦ search fuel (take half words) t
      ]
    ]

-- `binary_search(..).is_ok()`
unfoldable pub binary_search : List Text → Text → Bool
unfolding search text_cmp
binary_search words t = search (suc (length words)) words t

-- `is_stop_word`
unfoldable pub is_stop_word : Unicode → Text → Bool
unfolding binary_search
is_stop_word u term = binary_search stop_words (u.to_lowercase term)
