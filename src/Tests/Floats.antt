-- ===== src/Tests/Floats.antt =====
-- Fixed-point numbers with a NaN, in units of 1e-9: a concrete `Float` that meets the laws.
use neurolithe.Base.{
  ℕ, zero, suc, ◌+◌, ◌-◌, ◌*◌, ◌/◌, ◌^◌, ◌≤◌, ◌<◌, compare, Ordering, ◌≡◌, refl, ap, Bool, true,
  false, not, arith, ltb, leb, eqb, nat_key, text_key,
}
use neurolithe.Base.Float.{Float, DecimalLaws, ScaleLaws, OrderLaws, flip}

pub data Fixed : Type 0 where
  nan : Fixed
  num : ℕ → Fixed

abbrev unit : ℕ
unit = 1_000_000_000

abbrev pow10 : ℕ → ℕ
pow10 zero = 1
pow10 (suc n) = 10 * pow10 n

abbrev both : (ℕ → ℕ → Bool) → Fixed → Fixed → Bool
both f nan b = false
both f (num x) nan = false
both f (num x) (num y) = f x y

abbrev lift : (ℕ → ℕ → ℕ) → Fixed → Fixed → Fixed
lift f nan b = nan
lift f (num x) nan = nan
lift f (num x) (num y) = num (f x y)

abbrev times : ℕ → ℕ → ℕ
times x y = x * y / unit

abbrev power : ℕ → ℕ → ℕ
power x zero = unit
power x (suc n) = times x (power x n)

abbrev cmp : Fixed → Fixed → Ordering
cmp nan nan = Ordering.eq
cmp nan (num y) = Ordering.gt
cmp (num x) nan = Ordering.lt
cmp (num x) (num y) = compare x y

abbrev finite : Fixed → Bool
finite nan = false
finite (num x) = true

abbrev pub fixed : Float
fixed = record {
  F64 = Fixed;
  lt = both ltb;
  le = both leb;
  eq = both eqb;
  add = lift (λ x y. x + y);
  sub = lift (λ x y. x - y);
  mul = lift times;
  div = lift (λ x y. x * unit / y);
  powf = lift (λ x y. power x (y / unit));
  is_nan = λ a. not (finite a);
  is_finite = finite;
  decimal = λ m k. num (m * pow10 (9 - k));
  max_value = num (2 ^ 64);
  total_cmp = cmp;
}

pow10_pos : (n : ℕ) → 0 < pow10 n
pow10_pos zero = omega arith
pow10_pos (suc n) = omega (arith, pow10_pos n)

lt_scaled : (a b p : ℕ) → a < b → 0 < p → a * p < b * p
lt_scaled a b p h q = grind arith

le_scaled : (a b p : ℕ) → a ≤ b → a * p ≤ b * p
le_scaled a b p h = grind arith

scale_lt : (a b p : ℕ) → 0 < p → ltb (a * p) (b * p) ≡ ltb a b
scale_lt a b p h = ground (arith, lt_scaled a b p, le_scaled b a p)

scale_le : (a b p : ℕ) → 0 < p → leb (a * p) (b * p) ≡ leb a b
scale_le a b p h = ground (arith, le_scaled a b p, lt_scaled b a p)

decimal_laws_lt :
    (a b k : ℕ)
    → a < 2 ^ 32
    → b < 2 ^ 32
    → k ≤ 9
    → fixed.lt (fixed.decimal a k) (fixed.decimal b k) ≡ ltb a b
decimal_laws_lt a b k _ _ _ = scale_lt a b (pow10 (9 - k)) (pow10_pos (9 - k))

decimal_laws_le :
    (a b k : ℕ)
    → a < 2 ^ 32
    → b < 2 ^ 32
    → k ≤ 9
    → fixed.le (fixed.decimal a k) (fixed.decimal b k) ≡ leb a b
decimal_laws_le a b k _ _ _ = scale_le a b (pow10 (9 - k)) (pow10_pos (9 - k))

pub fixed-DecimalLaws : DecimalLaws fixed
fixed-DecimalLaws = record {
  decimal_lt = decimal_laws_lt;
  decimal_le = decimal_laws_le;
  decimal_zero = λ k h. ap num (omega arith);
  decimal_finite = λ a k h h'. refl;
}

times-le : (x y : ℕ) → y ≤ unit → times x y ≤ x
times-le x y h = omega (arith, le_scaled y unit x h)

power-le : (n : ℕ) → power 500_000_000 n ≤ unit
power-le zero = omega arith
power-le (suc n) = omega (arith, power-le n)

le_refl_fixed : (a : Fixed) → fixed.is_nan a ≡ false → fixed.le a a ≡ true
le_refl_fixed nan h = cc
le_refl_fixed (num x) h = ground arith

zero-le_num : (x : ℕ) → fixed.le (fixed.decimal 0 0) (num x) ≡ true
zero-le_num x = ground arith

div_nonneg_fixed :
    (a b : Fixed)
    → fixed.lt (fixed.decimal 0 0) a ≡ true
    → fixed.is_finite b ≡ true
    → fixed.lt (fixed.decimal 0 0) b ≡ true
    → fixed.le (fixed.decimal 0 0) (fixed.div a b) ≡ true
div_nonneg_fixed nan b h k l = cc
div_nonneg_fixed (num x) nan h k l = cc
div_nonneg_fixed (num x) (num y) h k l = zero-le_num (x * unit / y)

half_nonneg_fixed :
    (x : Fixed)
    → fixed.le (fixed.decimal 0 0) x ≡ true
    → fixed.le (fixed.decimal 0 0) (fixed.powf (fixed.decimal 5 1) x) ≡ true
half_nonneg_fixed nan h = cc
half_nonneg_fixed (num x) h = zero-le_num (power 500_000_000 (x / unit))

half_le_one_fixed :
    (x : Fixed)
    → fixed.le (fixed.decimal 0 0) x ≡ true
    → fixed.le (fixed.powf (fixed.decimal 5 1) x) (fixed.decimal 1 0) ≡ true
half_le_one_fixed nan h = cc
half_le_one_fixed (num x) h = ground (arith, power-le (x / unit))

mul_nonneg_fixed :
    (a b : Fixed)
    → fixed.is_finite a ≡ true
    → fixed.le (fixed.decimal 0 0) a ≡ true
    → fixed.le (fixed.decimal 0 0) b ≡ true
    → fixed.le b (fixed.decimal 1 0) ≡ true
    → fixed.le (fixed.decimal 0 0) (fixed.mul a b) ≡ true
mul_nonneg_fixed nan b f h k l = cc
mul_nonneg_fixed (num x) nan f h k l = cc
mul_nonneg_fixed (num x) (num y) f h k l = zero-le_num (times x y)

mul_le_left_fixed :
    (a b : Fixed)
    → fixed.is_finite a ≡ true
    → fixed.le (fixed.decimal 0 0) a ≡ true
    → fixed.le (fixed.decimal 0 0) b ≡ true
    → fixed.le b (fixed.decimal 1 0) ≡ true
    → fixed.le (fixed.mul a b) a ≡ true
mul_le_left_fixed nan b f h k l = cc
mul_le_left_fixed (num x) nan f h k l = cc
mul_le_left_fixed (num x) (num y) f h k l = ground (arith, times-le x y)

lt_or_le_fixed :
    (a b : Fixed)
    → fixed.is_nan a ≡ false
    → fixed.is_nan b ≡ false
    → fixed.le a b ≡ false
    → fixed.lt b a ≡ true
lt_or_le_fixed nan b h k l = cc
lt_or_le_fixed (num x) nan h k l = cc
lt_or_le_fixed (num x) (num y) h k l = ground arith

pub fixed-ScaleLaws : ScaleLaws fixed
fixed-ScaleLaws = record {
  le_refl = le_refl_fixed;
  div_nonneg = div_nonneg_fixed;
  half_powf_nonneg = half_nonneg_fixed;
  half_powf_le_one = half_le_one_fixed;
  mul_nonneg = mul_nonneg_fixed;
  mul_le_left = mul_le_left_fixed;
  lt_or_le = lt_or_le_fixed;
  finite_not_nan = λ a h. rw h;
  zero_finite = refl;
}

cmp-flip_fixed : (a b : Fixed) → cmp b a ≡ flip (cmp a b)
cmp-flip_fixed nan nan = refl
cmp-flip_fixed nan (num y) = refl
cmp-flip_fixed (num x) nan = refl
cmp-flip_fixed (num x) (num y) = ground arith

cmp_eq_fixed : (a b : Fixed) → cmp a b ≡ Ordering.eq → a ≡ b
cmp_eq_fixed nan nan h = refl
cmp_eq_fixed nan (num y) h = cc
cmp_eq_fixed (num x) nan h = cc
cmp_eq_fixed (num x) (num y) h = ground arith

cmp_trans_fixed :
    (a b c : Fixed) → cmp a b ≡ Ordering.lt → cmp b c ≡ Ordering.lt → cmp a c ≡ Ordering.lt
cmp_trans_fixed nan nan c h k = cc
cmp_trans_fixed nan (num y) c h k = cc
cmp_trans_fixed (num x) nan nan h k = refl
cmp_trans_fixed (num x) nan (num z) h k = cc
cmp_trans_fixed (num x) (num y) nan h k = refl
cmp_trans_fixed (num x) (num y) (num z) h k = ground arith

pub fixed-OrderLaws : OrderLaws fixed
fixed-OrderLaws = record {
  cmp_flip = cmp-flip_fixed;
  cmp_eq = cmp_eq_fixed;
  cmp_trans = cmp_trans_fixed;
}
