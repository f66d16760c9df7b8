-- ===== src/Base/Bytes.antt =====
-- `^` and `|` on `u8`: no two bytes break the laws that the comparison of tokens needs.
use neurolithe.Base.{
  ℕ, zero, suc, ◌≡◌, ◌<◌, refl, Bool, true, false, not, ◌&&◌, ◌||◌, List, [], ◌∷◌, any, eqb, ltb,
  arith, ◌↔◌,
}
use Prim.Native.Nat.{bit_xor, bit_or}

down_from : ℕ → List ℕ
down_from zero = []
down_from (suc last) = last ∷ down_from last

-- What no member of the list breaks, a number of its range does not break.
none_breaks :
    (breaks : ℕ → Bool) (size : ℕ)
    → any breaks (down_from size) ≡ false
    → (v : ℕ) → v < size
    → breaks v ≡ false
unfolding down_from
none_breaks breaks zero clean v small = absurd (omega arith)
none_breaks breaks (suc last) clean v small =
    ground (arith, none_breaks breaks last (ground arith) v)

abbrev differ : Bool → Bool → Bool
differ true b = not b
differ false b = b

-- `^` is zero exactly on equal bytes, `|` exactly on two zeros, and both give bytes.
abbrev breaks_xor : ℕ → ℕ → Bool
breaks_xor a b = differ (eqb (bit_xor a b) 0) (eqb a b) || not (ltb (bit_xor a b) 256)

abbrev breaks_or : ℕ → ℕ → Bool
breaks_or a b = differ (eqb (bit_or a b) 0) (eqb a 0 && eqb b 0) || not (ltb (bit_or a b) 256)

abbrev some_pair : (ℕ → ℕ → Bool) → Bool
some_pair breaks = any (λ a. any (breaks a) (down_from 256)) (down_from 256)

no_pair_breaks :
    (breaks : ℕ → ℕ → Bool)
    → some_pair breaks ≡ false
    → (a b : ℕ) → a < 256
    → b < 256
    → breaks a b ≡ false
no_pair_breaks breaks clean a b ha hb =
    none_breaks (breaks a) 256 (none_breaks (λ a. any (breaks a) (down_from 256)) 256 clean a ha) b
      hb

xor_clean : some_pair breaks_xor ≡ false
unfolding down_from
xor_clean = refl

or_clean : some_pair breaks_or ≡ false
unfolding down_from
or_clean = refl

pub xor_bound : (a b : ℕ) → a < 256 → b < 256 → bit_xor a b < 256
xor_bound a b ha hb = ground (arith, no_pair_breaks breaks_xor xor_clean a b ha hb)

pub xor_zero : (a b : ℕ) → a < 256 → b < 256 → (bit_xor a b ≡ 0) ↔ (a ≡ b)
xor_zero a b ha hb =
    let law = no_pair_breaks breaks_xor xor_clean a b ha hb in
    (λ h. ground (arith, law), λ h. ground (arith, law))

pub or_bound : (a b : ℕ) → a < 256 → b < 256 → bit_or a b < 256
or_bound a b ha hb = ground (arith, no_pair_breaks breaks_or or_clean a b ha hb)

pub or_zero : (a b : ℕ) → a < 256 → b < 256 → (bit_or a b ≡ 0) ↔ ((a ≡ 0) × (b ≡ 0))
or_zero a b ha hb =
    let law = no_pair_breaks breaks_or or_clean a b ha hb in
    (λ h. (ground (arith, law), ground (arith, law)), λ h. ground (arith, law))
