-- ===== src/Base/Int.antt =====
-- Signed integers: the versions of a store, which SQLite keeps as signed numbers.
use neurolithe.Base.{ℕ, suc, ◌-◌, Bool, false, ltb, ◌==◌, ◌++◌, nat_key, text_key}
use neurolithe.Base.Decimal.{to_string}
use neurolithe.Base.Text.{Text, text}

-- `negsuc n` is -(n + 1).
pub data ℤ : Type 0 where
  pos negsuc : ℕ → ℤ

-- Whether the integer is above the number, and whether it is the number.
abbrev pub exceeds : ℕ → ℤ → Bool
exceeds bound (pos n) = ltb bound n
exceeds bound (negsuc n) = false

abbrev pub is_pos : ℕ → ℤ → Bool
is_pos m (pos n) = n == m
is_pos m (negsuc n) = false

-- `as usize`, which takes a negative number modulo 2^64.
abbrev pub as_usize : ℤ → ℕ
as_usize (pos n) = n
as_usize (negsuc n) = 18446744073709551616 - suc n

abbrev pub signed_text : ℤ → Text
signed_text (pos n) = to_string n
signed_text (negsuc n) = text "-" ++ to_string (suc n)
