-- ===== src/Base/Decimal.antt =====
-- Decimal numerals: `to_string` of an unsigned number and `str::parse::<usize>`.
use neurolithe.Base.{
  ℕ, zero, suc, ◌+◌, ◌*◌, ◌/◌, ◌%◌, ◌^◌, ◌-◌, ◌<◌, ◌≡◌, refl, inl, inr, ◌&&◌, Option, none, some,
  [], ◌∷◌, arith, if◌then◌else◌, Bool-cases, ltb, leb, eqb, ap, sym, ◌≤◌,
}
use neurolithe.Base.Text.{Text}
use mathlib.Core.Path.{◌≡⟨◌⟩◌, ◌∎}

unfoldable pub usize_limit : ℕ
usize_limit = 2 ^ 64

-- The digits of `n` in front of `rest`; the fuel is above `n`.
unfoldable pub digits : ℕ → ℕ → Text → Text
digits zero n rest = rest
digits (suc fuel) n rest =
    let more = digits fuel (n / 10) ((48 + n % 10) ∷ rest) in
    if ltb n 10 then (48 + n) ∷ rest else more

unfoldable pub to_string : ℕ → Text
unfolding digits
to_string n = digits (suc n) n []

-- `none` is a character that is no digit, or an overflow.
unfoldable pub parse_digits : ℕ → Text → Option ℕ
parse_digits n [] = some n
parse_digits n (c ∷ cs) =
    let next = n * 10 + (c - 48) in
    let rest = parse_digits next cs in
    if (leb 48 c && ltb c 58) && ltb next usize_limit then rest else none

-- A leading plus is accepted, an empty numeral is not.
unfoldable pub parse : Text → Option ℕ
unfolding parse_digits
parse [] = none
parse (c ∷ cs) = elim cs [
  | [] ↦ parse_digits 0 (c ∷ [])
  | d ∷ ds ↦ if eqb c 43 then parse_digits 0 (d ∷ ds) else parse_digits 0 (c ∷ d ∷ ds)
]

parse_digits-digits :
    (fuel n : ℕ) (rest : Text)
    → n < fuel
    → n < usize_limit
    → parse_digits 0 (digits fuel n rest) ≡ parse_digits n rest
unfolding digits parse_digits
parse_digits-digits zero n rest h b = absurd (omega arith)
parse_digits-digits (suc fuel) n rest h b = elim (Bool-cases (ltb n 10)) [
  | inl one ↦ ground arith
  | inr more ↦ rw more (
      rw (parse_digits-digits fuel (n / 10) ((48 + n % 10) ∷ rest) (ground arith) (omega arith))
        (ground arith))
]

-- The first character of a printed number is a digit.
digits_first :
    (fuel n : ℕ) (rest : Text)
    → n < fuel
    → (c : ℕ) × (cs : Text) × (digits fuel n rest ≡ c ∷ cs) × (48 ≤ c)
unfolding digits
digits_first zero n rest h = absurd (omega arith)
digits_first (suc fuel) n rest h = elim (Bool-cases (ltb n 10)) [
  | inl one ↦ rw one (48 + n, rest, refl, omega arith)
  | inr more ↦ rw more (digits_first fuel (n / 10) ((48 + n % 10) ∷ rest) (ground arith))
]

parse_first : (c : ℕ) (cs : Text) → 48 ≤ c → parse (c ∷ cs) ≡ parse_digits 0 (c ∷ cs)
unfolding parse
parse_first c [] h = refl
parse_first c (d ∷ ds) h = ground arith

parse_digits_end : (n : ℕ) → parse_digits n [] ≡ some n
unfolding parse_digits
parse_digits_end n = refl

-- A printed number is read back.
pub parse-to_string : (n : ℕ) → n < usize_limit → parse (to_string n) ≡ some n
unfolding to_string
parse-to_string n b =
    let (c, cs, e, h) = digits_first (suc n) n [] (omega arith) in
    parse (digits (suc n) n [])
    ≡⟨ ap parse e ⟩ parse (c ∷ cs)
    ≡⟨ parse_first c cs h ⟩ parse_digits 0 (c ∷ cs)
    ≡⟨ ap (parse_digits 0) (sym e) ⟩ parse_digits 0 (digits (suc n) n [])
    ≡⟨ parse_digits-digits (suc n) n [] (omega arith) b ⟩ parse_digits n []
    ≡⟨ parse_digits_end n ⟩ some n ∎
