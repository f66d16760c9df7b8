-- ===== src/Tests/Unicode.antt =====
-- The Unicode tables on ASCII.
use neurolithe.Base.{ℕ, ◌+◌, Bool, ◌&&◌, ◌||◌, map, leb, if◌then◌else◌, ◌==◌, nat_key, text_key}
use neurolithe.Base.Text.{Unicode}

abbrev is_lower : ℕ → Bool
is_lower c = leb b'a' c && leb c b'z'

abbrev is_upper : ℕ → Bool
is_upper c = leb b'A' c && leb c b'Z'

abbrev is_digit : ℕ → Bool
is_digit c = leb b'0' c && leb c b'9'

abbrev pub ascii : Unicode
ascii = record {
  is_alphanumeric = λ c. is_lower c || (is_upper c || is_digit c);
  is_whitespace = λ c. (c == 32) || (leb 9 c && leb c 13);
  to_lowercase = map (λ c. if is_upper c then c + 32 else c);
}
