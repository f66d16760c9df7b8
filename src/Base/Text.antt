-- ===== src/Base/Text.antt =====
-- Strings as lists of code points: literals, splitting, trimming and joining.
pub mod Order
use Prim.Native.Nat.{ℕ}
use Prim.Native.Char.{code}
use Prim.Native.String.{String}
use mathlib.Core.Bool.{Bool}
use mathlib.Core.List.{List, [], ◌∷◌, ◌++◌, reverse}
use neurolithe.Base.Bools.{if◌then◌else◌}

abbrev pub Text : Type 0
Text = List ℕ

-- A string literal.
abbrev pub text : String → Text
text String.[] = []
text (String.◌∷◌ c s) = code c ∷ text s

-- What the program uses of the standard library's Unicode tables.
pub record Unicode : Type 0 where
  pub is_alphanumeric : ℕ → Bool
  pub is_whitespace : ℕ → Bool
  pub to_lowercase : Text → Text

-- `str::split` by a predicate: the pieces between the characters that satisfy it.
abbrev pub prepend : ℕ → List Text → List Text
prepend c [] = (c ∷ []) ∷ []
prepend c (w ∷ ws) = (c ∷ w) ∷ ws

abbrev pub split : (ℕ → Bool) → Text → List Text
split sep [] = [] ∷ []
split sep (c ∷ cs) = let rest = split sep cs in if sep c then [] ∷ rest else prepend c rest

abbrev trim_start : (ℕ → Bool) → Text → Text
trim_start ws [] = []
trim_start ws (c ∷ cs) = if ws c then trim_start ws cs else c ∷ cs

-- `str::trim`.
unfoldable pub trim : (ℕ → Bool) → Text → Text
trim ws s = reverse (trim_start ws (reverse (trim_start ws s)))

-- `[T]::join` on strings.
abbrev pub join : Text → List Text → Text
join sep [] = []
join sep (w ∷ []) = w
join sep (w ∷ v ∷ ws) = w ++ (sep ++ join sep (v ∷ ws))
