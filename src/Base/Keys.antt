-- ===== src/Base/Keys.antt =====
-- Equality tests: Rust's `Eq`, as an interface with the law that callers rely on.
use Prim.Native.Nat.{ℕ}
use mathlib.Core.Path.{◌≡◌, refl}
use mathlib.Core.Logic.{◌↔◌}
use mathlib.Core.Bool.{Bool, true, false, ◌&&◌}
use mathlib.Core.List.{List, [], ◌∷◌}
use native.Mathlib.Omega.{arith}
use neurolithe.Base.Bools.{eqb}

pub record Key {ℓ} (A : Type ℓ) : Type ℓ where
  pub same : A → A → Bool
  pub same_iff : (a b : A) → (same a b ≡ true) ↔ (a ≡ b)

infix 50 ◌==◌
abbrev pub ◌==◌ {ℓ} : {A : Type ℓ} ⦃k : Key A⦄ → A → A → Bool
◌==◌ ⦃k⦄ = k.same

pub eqb_iff : (a b : ℕ) → (eqb a b ≡ true) ↔ (a ≡ b)
eqb_iff a b = (λ h. ground arith, λ h. ground arith)

instance abbrev pub nat_key : Key ℕ
nat_key = record { same = eqb; same_iff = eqb_iff }

-- Equality of lists, element by element.
abbrev list_eqb : List ℕ → List ℕ → Bool
list_eqb [] [] = true
list_eqb [] (y ∷ ys) = false
list_eqb (x ∷ xs) [] = false
list_eqb (x ∷ xs) (y ∷ ys) = eqb x y && list_eqb xs ys

list_eqb→eq : (s t : List ℕ) → list_eqb s t ≡ true → s ≡ t
list_eqb→eq [] [] h = refl
list_eqb→eq [] (y ∷ ys) h = ground arith
list_eqb→eq (x ∷ xs) [] h = ground arith
list_eqb→eq (x ∷ xs) (y ∷ ys) h = ground (arith, list_eqb→eq xs ys)

list_eqb_refl : (s : List ℕ) → list_eqb s s ≡ true
list_eqb_refl [] = refl
list_eqb_refl (x ∷ xs) = ground (arith, list_eqb_refl xs)

list_eq→eqb : (s t : List ℕ) → s ≡ t → list_eqb s t ≡ true
list_eq→eqb s t h = ground (arith, list_eqb_refl s)

pub list_eqb_iff : (s t : List ℕ) → (list_eqb s t ≡ true) ↔ (s ≡ t)
list_eqb_iff s t = (list_eqb→eq s t, list_eq→eqb s t)

instance abbrev pub text_key : Key (List ℕ)
text_key = record { same = list_eqb; same_iff = list_eqb_iff }

module _ {ℓ} {A : Type ℓ} ⦃k : Key A⦄ where
  pub same_refl : (a : A) → (a == a) ≡ true
  same_refl a = (k.same_iff a a).1 refl

  pub same→eq : (a b : A) → (a == b) ≡ true → a ≡ b
  same→eq a b = (k.same_iff a b).0
