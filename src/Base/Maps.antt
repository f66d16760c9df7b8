-- ===== src/Base/Maps.antt =====
-- `HashMap` and `BTreeMap` as association lists; `insert` writes in place or at the end.
use neurolithe.Base.Bools.{if◌then◌else◌}
use neurolithe.Base.Keys.{Key, ◌==◌}
use mathlib.Core.Path.{◌≡◌, refl}
use mathlib.Core.Option.{Option, none, some}
use mathlib.Core.List.{List, [], ◌∷◌}
use native.Mathlib.Omega.{arith}

abbrev pub Map {ℓ κ} : Type ℓ → Type κ → Type (ℓ ⊔ κ)
Map K V = List (K × V)

module _ {ℓ κ} {K : Type ℓ} {V : Type κ} ⦃k : Key K⦄ where
  abbrev pub lookup : K → Map K V → Option V
  lookup q [] = none
  lookup q (e ∷ m) = if q == e.0 then some e.1 else lookup q m

  abbrev pub insert : K → V → Map K V → Map K V
  insert q v [] = (q, v) ∷ []
  insert q v (e ∷ m) = if q == e.0 then (q, v) ∷ m else e ∷ insert q v m

  abbrev pub remove : K → Map K V → Map K V
  remove q [] = []
  remove q (e ∷ m) = if q == e.0 then remove q m else e ∷ remove q m

  pub lookup-insert :
      (q j : K) (v : V) (m : Map K V)
      → lookup j (insert q v m) ≡ (if j == q then some v else lookup j m)
  lookup-insert q j v [] = refl
  lookup-insert q j v (e ∷ m) =
      ground (arith, k.same_iff q e.0, k.same_iff j e.0, k.same_iff j q, lookup-insert q j v m)

  pub lookup-remove :
      (q j : K) (m : Map K V) → lookup j (remove q m) ≡ (if j == q then none else lookup j m)
  lookup-remove q j [] = ground arith
  lookup-remove q j (e ∷ m) =
      ground (arith, k.same_iff q e.0, k.same_iff j e.0, k.same_iff j q, lookup-remove q j m)
