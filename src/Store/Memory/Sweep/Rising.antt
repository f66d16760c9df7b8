-- ===== src/Store/Memory/Sweep/Rising.antt =====
-- Rows with rising ids, and what a batch leaves to be read.
use neurolithe.Store.Memory.Lifecycle.{last_id}
use neurolithe.Store.Memory.Rows.{MemoryNode}
use neurolithe.Base.{
  ℕ, zero, suc, ◌≤◌, ◌<◌, ◌≡◌, refl, sym, ap, inl, inr, Bool, true, List, [], ◌∷◌, arith, ltb,
  Bool-cases, length, take, filter, All, nat_key, text_key,
}

-- Two tables of the same length, row by row.
abbrev pub Rowwise : {A : Type 0} → (A → A → Type 0) → List A → List A → Type 0
Rowwise R [] [] = Unit
Rowwise R [] (y ∷ ys) = ⊥
Rowwise R (x ∷ xs) [] = ⊥
Rowwise R (x ∷ xs) (y ∷ ys) = R x y × Rowwise R xs ys

-- The ids are above `low` and rise.
abbrev pub IsRising : {F : Type 0} → ℕ → List (MemoryNode F) → Type 0
IsRising low [] = Unit
IsRising low (n ∷ ns) = (low < n.id) × IsRising n.id ns

IsRising-weaken :
    {F : Type 0} (low high : ℕ) (ns : List (MemoryNode F))
    → low ≤ high
    → IsRising high ns
    → IsRising low ns
IsRising-weaken low high [] h r = tt
IsRising-weaken low high (n ∷ ns) h (above, r) = (omega (arith, h, above), r)

pub IsRising-filter :
    {F : Type 0} (p : MemoryNode F → Bool) (low : ℕ) (ns : List (MemoryNode F))
    → IsRising low ns
    → IsRising low (filter p ns)
IsRising-filter p low [] r = tt
IsRising-filter p low (n ∷ ns) (above, r) = elim (Bool-cases (p n)) [
  | inl kept ↦ rw kept (above, IsRising-filter p n.id ns r)
  | inr gone ↦
      rw gone (IsRising-weaken low n.id _ (omega (arith, above)) (IsRising-filter p n.id ns r))
]

pub IsRising-take :
    {F : Type 0} (k low : ℕ) (ns : List (MemoryNode F)) → IsRising low ns → IsRising low (take k ns)
IsRising-take zero low ns r = tt
IsRising-take (suc k) low [] r = tt
IsRising-take (suc k) low (n ∷ ns) (above, r) = (above, IsRising-take k n.id ns r)

pub last_id-ge :
    {F : Type 0} (low : ℕ) (ns : List (MemoryNode F)) → IsRising low ns → low ≤ last_id low ns
last_id-ge low [] r = omega arith
last_id-ge low (n ∷ ns) (above, r) = omega (arith, above, last_id-ge n.id ns r)

pub IsRising-All :
    {F : Type 0} (low high : ℕ) (ns : List (MemoryNode F))
    → low ≤ high
    → IsRising high ns
    → All (λ n. low < n.id) ns
IsRising-All low high [] h r = tt
IsRising-All low high (n ∷ ns) h (above, r) =
    (omega (arith, h, above), IsRising-All low n.id ns (omega (arith, h, above)) r)

pub IsRising-due :
    {F : Type 0} (p : MemoryNode F → Bool) (after low : ℕ) (ns : List (MemoryNode F))
    → All (λ n. p n ≡ true → after < n.id) ns
    → IsRising low ns
    → IsRising after (filter p ns)
IsRising-due p after low [] due r = tt
IsRising-due p after low (n ∷ ns) (here, due) (above, r) = elim (Bool-cases (p n)) [
  | inl kept ↦ rw kept (here kept, IsRising-filter p n.id ns r)
  | inr gone ↦ rw gone (IsRising-due p after n.id ns due r)
]

-- How many rows are above `after`.
abbrev pub left_above : {F : Type 0} → ℕ → List (MemoryNode F) → ℕ
left_above after ns = length (filter (λ n. ltb after n.id) ns)

left_above_mono :
    {F : Type 0} (a b : ℕ) (ns : List (MemoryNode F)) → a ≤ b → left_above b ns ≤ left_above a ns
left_above_mono a b [] h = omega arith
left_above_mono a b (n ∷ ns) h = ground (arith, h, left_above_mono a b ns h)

left_above_head :
    {F : Type 0} (a b : ℕ) (n : MemoryNode F) (ns : List (MemoryNode F))
    → a < n.id
    → n.id ≤ b
    → left_above b (n ∷ ns) < left_above a (n ∷ ns)
left_above_head a b n ns h k = ground (arith, h, k, left_above_mono a b ns (omega (arith, h, k)))

left_above_tail :
    {F : Type 0} (a b : ℕ) (n : MemoryNode F) (ns : List (MemoryNode F))
    → a ≤ b
    → left_above b ns < left_above a ns
    → left_above b (n ∷ ns) < left_above a (n ∷ ns)
left_above_tail a b n ns h k = ground (arith, h, k)

-- `last` is behind `after`, and fewer rows are above it.
pub record IsFurther {F : Type 0} (after last : ℕ) (ns : List (MemoryNode F)) : Type 0 where
  pub on : after ≤ last
  pub fewer : left_above last ns < left_above after ns

-- A batch that is not empty gets on.
pub left_above_batch :
    {F : Type 0} (p : MemoryNode F → Bool) (k after low : ℕ) (ns : List (MemoryNode F))
    → IsRising low ns
    → All (λ n. p n ≡ true → after < n.id) ns
    → 1 ≤ length (take (suc k) (filter p ns))
    → IsFurther after (last_id after (take (suc k) (filter p ns))) ns
left_above_batch p k after low [] rising due some_due = absurd (omega (arith, some_due))
left_above_batch p k after low (n ∷ ns) (above, rising) (due, later) some_due =
    elim (Bool-cases (p n)) [
      | inl kept ↦
          let tail = take k (filter p ns) in
          let chosen : take (suc k) (filter p (n ∷ ns)) ≡ n ∷ tail = rw kept refl in
          let last : last_id after (take (suc k) (filter p (n ∷ ns))) ≡ last_id n.id tail =
            ap (last_id after) chosen in
          let far =
            last_id-ge n.id tail (IsRising-take k n.id _ (IsRising-filter p n.id ns rising)) in
          rw last (record {
            on = omega (arith, due kept, far);
            fewer = left_above_head after _ n ns (due kept) far;
          })
      | inr gone ↦
          let chosen : take (suc k) (filter p (n ∷ ns)) ≡ take (suc k) (filter p ns) =
            rw gone refl in
          let h =
            left_above_batch p k after n.id ns rising later
              (rw (sym (ap length chosen)) some_due) in
          rw chosen (record { on = h.on; fewer = left_above_tail after _ n ns h.on h.fewer })
    ]
