-- ===== src/Base/Float.antt =====
-- `f64` as an interface: the operations that the program calls, and the facts about IEEE 754
-- arithmetic and `f64::total_cmp` that theorems name as hypotheses.
use neurolithe.Base.Bools.{ltb, leb}
use Prim.Native.Nat.{ℕ, ◌≤◌, ◌<◌, ◌^◌, Ordering}
use mathlib.Core.Path.{◌≡◌}
use mathlib.Core.Bool.{Bool, true, false}

pub record Float : Type 1 where
  pub F64 : Type 0
  -- `<` and `<=`: false on a NaN
  pub lt : F64 → F64 → Bool
  pub le : F64 → F64 → Bool
  -- `==`: false on a NaN
  pub eq : F64 → F64 → Bool
  pub add : F64 → F64 → F64
  pub sub : F64 → F64 → F64
  pub mul : F64 → F64 → F64
  pub div : F64 → F64 → F64
  pub powf : F64 → F64 → F64
  pub is_nan : F64 → Bool
  pub is_finite : F64 → Bool
  -- the literal m / 10 ^ k
  pub decimal : ℕ → ℕ → F64
  -- `f64::MAX`
  pub max_value : F64
  pub total_cmp : F64 → F64 → Ordering

-- `Ordering::reverse`.
abbrev pub flip : Ordering → Ordering
flip Ordering.lt = Ordering.gt
flip Ordering.eq = Ordering.eq
flip Ordering.gt = Ordering.lt

-- Short literals are finite, distinct and in their numeric order.
pub record DecimalLaws (fl : Float) : Type 0 where
  pub decimal_lt :
      (a b k : ℕ)
      → a < 2 ^ 32
      → b < 2 ^ 32
      → k ≤ 9
      → fl.lt (fl.decimal a k) (fl.decimal b k) ≡ ltb a b
  pub decimal_le :
      (a b k : ℕ)
      → a < 2 ^ 32
      → b < 2 ^ 32
      → k ≤ 9
      → fl.le (fl.decimal a k) (fl.decimal b k) ≡ leb a b
  pub decimal_zero : (k : ℕ) → k ≤ 9 → fl.decimal 0 k ≡ fl.decimal 0 0
  pub decimal_finite : (a k : ℕ) → a < 2 ^ 32 → k ≤ 9 → fl.is_finite (fl.decimal a k) ≡ true

-- A product with a factor in [0, 1], a quotient and a power of one half.
pub record ScaleLaws (fl : Float) : Type 0 where
  pub le_refl : (a : fl.F64) → fl.is_nan a ≡ false → fl.le a a ≡ true
  pub div_nonneg :
      (a b : fl.F64)
      → fl.lt (fl.decimal 0 0) a ≡ true
      → fl.is_finite b ≡ true
      → fl.lt (fl.decimal 0 0) b ≡ true
      → fl.le (fl.decimal 0 0) (fl.div a b) ≡ true
  pub half_powf_nonneg :
      (x : fl.F64)
      → fl.le (fl.decimal 0 0) x ≡ true
      → fl.le (fl.decimal 0 0) (fl.powf (fl.decimal 5 1) x) ≡ true
  pub half_powf_le_one :
      (x : fl.F64)
      → fl.le (fl.decimal 0 0) x ≡ true
      → fl.le (fl.powf (fl.decimal 5 1) x) (fl.decimal 1 0) ≡ true
  pub mul_nonneg :
      (a b : fl.F64)
      → fl.is_finite a ≡ true
      → fl.le (fl.decimal 0 0) a ≡ true
      → fl.le (fl.decimal 0 0) b ≡ true
      → fl.le b (fl.decimal 1 0) ≡ true
      → fl.le (fl.decimal 0 0) (fl.mul a b) ≡ true
  pub mul_le_left :
      (a b : fl.F64)
      → fl.is_finite a ≡ true
      → fl.le (fl.decimal 0 0) a ≡ true
      → fl.le (fl.decimal 0 0) b ≡ true
      → fl.le b (fl.decimal 1 0) ≡ true
      → fl.le (fl.mul a b) a ≡ true
  pub lt_or_le :
      (a b : fl.F64)
      → fl.is_nan a ≡ false
      → fl.is_nan b ≡ false
      → fl.le a b ≡ false
      → fl.lt b a ≡ true
  pub finite_not_nan : (a : fl.F64) → fl.is_finite a ≡ true → fl.is_nan a ≡ false
  pub zero_finite : fl.is_finite (fl.decimal 0 0) ≡ true

-- `total_cmp` is a total order.
pub record OrderLaws (fl : Float) : Type 0 where
  pub cmp_flip : (a b : fl.F64) → fl.total_cmp b a ≡ flip (fl.total_cmp a b)
  pub cmp_eq : (a b : fl.F64) → fl.total_cmp a b ≡ Ordering.eq → a ≡ b
  pub cmp_trans :
      (a b c : fl.F64)
      → fl.total_cmp a b ≡ Ordering.lt
      → fl.total_cmp b c ≡ Ordering.lt
      → fl.total_cmp a c ≡ Ordering.lt
