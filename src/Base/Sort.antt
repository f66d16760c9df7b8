-- ===== src/Base/Sort.antt =====
-- `slice::sort_by`: a stable sort, here by insertion after the elements that are not greater.
use mathlib.Core.Path.{refl, ◌∙◌}
use mathlib.Core.Logic.{∥∥₁_elim}
use mathlib.Core.Bool.{Bool-set}
use mathlib.Core.List.{Permᴰ}
use native.Mathlib.Omega.{arith}
use neurolithe.Base.Lists.{any}
use Prim.Native.Nat.{Ordering}
use mathlib.Core.Path.{◌≡◌}
use mathlib.Core.Logic.{inl, inr}
use mathlib.Core.Bool.{Bool, true, false}
use mathlib.Core.List.{List, [], ◌∷◌, Perm}
use mathlib.Core.List.Perm
use neurolithe.Base.Bools.{if◌then◌else◌, Bool-cases}
use neurolithe.Base.Lists.{All, All-mono}

-- The comparison does not put the second argument first.
abbrev pub is_le : Ordering → Bool
is_le Ordering.lt = true
is_le Ordering.eq = true
is_le Ordering.gt = false

module _ {ℓ} {A : Type ℓ} (cmp : A → A → Ordering) where
  -- Later elements are put in first, so `x` goes before those that are equal to it.
  abbrev pub insert_sorted : A → List A → List A
  insert_sorted x [] = x ∷ []
  insert_sorted x (y ∷ ys) = if is_le (cmp x y) then x ∷ y ∷ ys else y ∷ insert_sorted x ys

  abbrev pub sort_by : List A → List A
  sort_by [] = []
  sort_by (x ∷ xs) = insert_sorted x (sort_by xs)

  insert_sorted-perm : (x : A) (ys : List A) → Perm (insert_sorted x ys) (x ∷ ys)
  insert_sorted-perm x [] = Perm.refl _
  insert_sorted-perm x (y ∷ ys) = elim (Bool-cases (is_le (cmp x y))) [
    | inl before ↦ rw before (Perm.refl _)
    | inr after ↦ rw after (Perm.trans (Perm.cons y (insert_sorted-perm x ys)) (Perm.swap x y ys))
  ]

  -- Sorting loses and invents nothing.
  pub sort_by-perm : (xs : List A) → Perm (sort_by xs) xs
  sort_by-perm [] = Perm.refl _
  sort_by-perm (x ∷ xs) =
      Perm.trans (insert_sorted-perm x (sort_by xs)) (Perm.cons x (sort_by-perm xs))

  abbrev pub IsOrdered : List A → Type ℓ
  IsOrdered [] = Unit
  IsOrdered (x ∷ xs) = All (λ y. is_le (cmp x y) ≡ true) xs × IsOrdered xs

  All-insert_sorted {κ} :
      (P : A → Type κ) (x : A) (ys : List A) → P x → All P ys → All P (insert_sorted x ys)
  All-insert_sorted P x [] h k = (h, tt)
  All-insert_sorted P x (y ∷ ys) h k = elim (Bool-cases (is_le (cmp x y))) [
    | inl before ↦ rw before (h, k)
    | inr after ↦ rw after (k.0, All-insert_sorted P x ys h k.1)
  ]

  pub All-sort_by {κ} : (P : A → Type κ) (xs : List A) → All P xs → All P (sort_by xs)
  All-sort_by P [] h = tt
  All-sort_by P (x ∷ xs) h = All-insert_sorted P x (sort_by xs) h.0 (All-sort_by P xs h.1)

  pub record IsOrder : Type ℓ where
    pub total : (x y : A) → is_le (cmp x y) ≡ false → is_le (cmp y x) ≡ true
    pub trans :
        (x y z : A) → is_le (cmp x y) ≡ true → is_le (cmp y z) ≡ true → is_le (cmp x z) ≡ true

  insert_sorted-IsOrdered :
      (o : IsOrder) (x : A) (ys : List A) → IsOrdered ys → IsOrdered (insert_sorted x ys)
  insert_sorted-IsOrdered o x [] h = (tt, tt)
  insert_sorted-IsOrdered o x (y ∷ ys) h = elim (Bool-cases (is_le (cmp x y))) [
    | inl before ↦
        rw before ((before, All-mono _ _ (λ z below. o.trans x y z before below) ys h.0), h)
    | inr after ↦
        rw after
          (All-insert_sorted _ x ys (o.total x y after) h.0, insert_sorted-IsOrdered o x ys h.1)
  ]

  -- Sorting by a total preorder puts every element before those that follow it.
  pub sort_by-IsOrdered : IsOrder → (xs : List A) → IsOrdered (sort_by xs)
  sort_by-IsOrdered o [] = tt
  sort_by-IsOrdered o (x ∷ xs) = insert_sorted-IsOrdered o x (sort_by xs) (sort_by-IsOrdered o xs)

any-permᴰ {ℓ} : {A : Type ℓ} (q : A → Bool) {xs ys : List A} → Permᴰ xs ys → any q xs ≡ any q ys
any-permᴰ q Permᴰ.nil = refl
any-permᴰ q (Permᴰ.cons e p) = cc (e, any-permᴰ q p)
any-permᴰ q (Permᴰ.swap x y) = ground arith
any-permᴰ q (Permᴰ.trans p r) = any-permᴰ q p ∙ any-permᴰ q r

-- A permutation has the same elements.
pub any-perm {ℓ} : {A : Type ℓ} (q : A → Bool) {xs ys : List A} → Perm xs ys → any q xs ≡ any q ys
any-perm q p = ∥∥₁_elim p (Bool-set _ _) (any-permᴰ q)
