-- ===== src/Base/Outcome.antt =====
-- Code that may fail on a state that it changes: what is written before a failure stays, unless a
-- transaction takes it back.
use mathlib.Core.Path.{◌≡◌, refl}
use mathlib.Core.Bool.{Bool, true, false}
use neurolithe.Base.Bools.{if◌then◌else◌}

pub data Result {ℓ κ} (E : Type ℓ) (A : Type κ) : Type (ℓ ⊔ κ) where
  ok : A → Result E A
  err : E → Result E A

abbrev pub Action : Type 0 → Type 0 → Type 0 → Type 0
Action S E A = S → Result E A × S

module _ {S E : Type 0} where
  abbrev pub continue : {A B : Type 0} → Result E A × S → (A → Action S E B) → Result E B × S
  continue (ok a, s) f = f a s
  continue (err e, s) f = (err e, s)

  infixl 5 ◌>>=◌ ◌>>◌
  abbrev pub ◌>>=◌ : {A B : Type 0} → Action S E A → (A → Action S E B) → Action S E B
  ◌>>=◌ m f s = continue (m s) f

  abbrev pub ◌>>◌ : {B : Type 0} → Action S E (Unit {0}) → Action S E B → Action S E B
  ◌>>◌ m k s = continue (m s) (λ _. k)

  abbrev pub return : {A : Type 0} → A → Action S E A
  return a s = (ok a, s)

  abbrev pub fail : {A : Type 0} → E → Action S E A
  fail e s = (err e, s)

  abbrev pub read : Action S E S
  read s = (ok s, s)

  abbrev pub modify : (S → S) → Action S E (Unit {0})
  modify f s = (ok tt, f s)

  -- A transaction that fails is rolled back.
  abbrev pub commit_or : S → {A : Type 0} → Result E A × S → Result E A × S
  commit_or before (ok a, s) = (ok a, s)
  commit_or before (err e, s) = (err e, before)

  abbrev pub transaction : {A : Type 0} → Action S E A → Action S E A
  transaction m s = commit_or s (m s)

module _ {S E E' A : Type 0} (f : E → E') where
  abbrev pub explain : Result E A × S → Result E' A × S
  explain (ok a, s) = (ok a, s)
  explain (err e, s) = (err (f e), s)

  -- `with_context`, and the conversions of `?`.
  abbrev pub with_context : Action S E A → Action S E' A
  with_context m s = explain (m s)

-- What holds after a run that succeeds, and after one that fails.
abbrev pub Ensures :
    {S E A : Type 0} → (A → S → Type 0) → (E → S → Type 0) → Result E A × S → Type 0
Ensures P Q (ok a, s) = P a s
Ensures P Q (err e, s) = Q e s

pub Ensures-Unit :
    {S E A : Type 0} (m : Result E A × S) → Ensures (λ _ _. Unit {0}) (λ _ _. Unit {0}) m
Ensures-Unit (ok a, s) = tt
Ensures-Unit (err e, s) = tt

module _ {S E A : Type 0} (P : A → S → Type 0) (Q : E → S → Type 0) where
  pub Ensures-continue :
      {B : Type 0} (P' : B → S → Type 0) (m : Result E A × S) (f : A → Action S E B)
      → Ensures P Q m
      → ((a : A) (s : S) → P a s → Ensures P' Q (f a s))
      → Ensures P' Q (continue m f)
  Ensures-continue P' (ok a, s) f h k = k a s h
  Ensures-continue P' (err e, s) f h k = h

  pub Ensures-mono :
      (P' : A → S → Type 0) (Q' : E → S → Type 0) (m : Result E A × S)
      → Ensures P Q m
      → ((a : A) (s : S) → P a s → P' a s)
      → ((e : E) (s : S) → Q e s → Q' e s)
      → Ensures P' Q' m
  Ensures-mono P' Q' (ok a, s) h f g = f a s h
  Ensures-mono P' Q' (err e, s) h f g = g e s h

  commits :
      (s : S) (r : Result E A × S) → Ensures P Q r → Ensures P (λ e s'. s' ≡ s) (commit_or s r)
  commits s (ok a, s') h = h
  commits s (err e, s') h = refl

  -- A transaction that fails leaves what was there.
  pub Ensures-transaction :
      (m : Action S E A) (s : S) → Ensures P Q (m s) → Ensures P (λ e s'. s' ≡ s) (transaction m s)
  Ensures-transaction m s h = commits s (m s) h

  pub Ensures-with_context :
      {E' : Type 0} (g : E → E') (Q' : E' → S → Type 0) (m : Result E A × S)
      → Ensures P Q m
      → ((e : E) (s : S) → Q e s → Q' (g e) s)
      → Ensures P Q' (explain g m)
  Ensures-with_context g Q' (ok a, s) h k = h
  Ensures-with_context g Q' (err e, s) h k = k e s h

  -- The branches of a test.
  pub Ensures-if :
      (b : Bool) (x y : Result E A × S)
      → (b ≡ true → Ensures P Q x)
      → (b ≡ false → Ensures P Q y)
      → Ensures P Q (if b then x else y)
  Ensures-if true x y h k = h refl
  Ensures-if false x y h k = k refl
