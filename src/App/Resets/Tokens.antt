-- ===== src/App/Resets/Tokens.antt =====
-- `constant_time_eq` of src/application/reset_service.rs is equality.
use neurolithe.App.Resets.{constant_time_eq, compare_from, byte_at}
use neurolithe.Base.{
  ℕ, zero, suc, ◌+◌, ◌<◌, max, ◌≡◌, refl, ap, ◌∙◌, ◌↔◌, true, List, [], ◌∷◌, arith, if◌then◌else◌,
  ◌==◌, same→eq, length, All, nat_key, text_key,
}
use Prim.Native.Nat.{bit_or, bit_xor}
use neurolithe.Base.Bytes.{xor_bound, xor_zero, or_bound, or_zero}

abbrev pub Bytes : List ℕ → Type 0
Bytes = All (λ b. b < 256)

byte_at_bound : (a : List ℕ) (i : ℕ) → Bytes a → byte_at a i < 256
byte_at_bound [] i h = omega arith
byte_at_bound (x ∷ xs) zero h = h.0
byte_at_bound (x ∷ xs) (suc i) h = byte_at_bound xs i h.1

-- Equal lengths and equal bytes make equal lists.
bytes_ext :
    (a b : List ℕ)
    → length a ≡ length b
    → ((k : ℕ) → k < length a → byte_at a k ≡ byte_at b k)
    → a ≡ b
bytes_ext [] [] e h = refl
bytes_ext [] (y ∷ ys) e h = absurd (omega arith)
bytes_ext (x ∷ xs) [] e h = absurd (omega arith)
bytes_ext (x ∷ xs) (y ∷ ys) e h =
    cc (h 0 (omega arith), bytes_ext xs ys (omega arith) (λ k lt. h (suc k) (omega arith)))

module _ (a b : List ℕ) (ha : Bytes a) (hb : Bytes b) where
  abbrev next_diff : ℕ → ℕ → ℕ
  next_diff i diff = bit_or diff (bit_xor (byte_at a i) (byte_at b i))

  abbrev xored : ℕ → ℕ
  xored i = bit_xor (byte_at a i) (byte_at b i)

  xored_bound : (i : ℕ) → xored i < 256
  xored_bound i =
      xor_bound (byte_at a i) (byte_at b i) (byte_at_bound a i ha) (byte_at_bound b i hb)

  xored_zero : (i : ℕ) → (xored i ≡ 0) ↔ (byte_at a i ≡ byte_at b i)
  xored_zero i = xor_zero (byte_at a i) (byte_at b i) (byte_at_bound a i ha) (byte_at_bound b i hb)

  -- A difference is never forgotten.
  compare_from_sound :
      (left i diff : ℕ)
      → diff < 256
      → compare_from a b i left diff ≡ 0
      → (diff ≡ 0) × ((k : ℕ) → k < left → byte_at a (i + k) ≡ byte_at b (i + k))
  unfolding compare_from
  compare_from_sound zero i diff small h = (h, λ k lt. absurd (omega arith))
  compare_from_sound (suc left) i diff small h =
      let (now, later) =
        compare_from_sound left (suc i) (next_diff i diff)
          (or_bound diff (xored i) small (xored_bound i)) h in
      let (before, here) = (or_zero diff (xored i) small (xored_bound i)).0 now in
      (before, each later ((xored_zero i).0 here))
    where
      each :
          ((k : ℕ) → k < left → byte_at a (suc i + k) ≡ byte_at b (suc i + k))
          → byte_at a i ≡ byte_at b i
          → (k : ℕ) → k < suc left
          → byte_at a (i + k) ≡ byte_at b (i + k)
      each later here zero lt = let e : i + 0 ≡ i = omega arith in rw e here
      each later here (suc k) lt =
          let e : i + suc k ≡ suc i + k = omega arith in rw e (later k (omega arith))

  compare_from_same :
      (left i : ℕ) → ((k : ℕ) → byte_at a k ≡ byte_at b k) → compare_from a b i left 0 ≡ 0
  unfolding compare_from
  compare_from_same zero i same = refl
  compare_from_same (suc left) i same =
      let e : next_diff i 0 ≡ 0 =
        (or_zero 0 (xored i) (omega arith) (xored_bound i)).1 (refl, (xored_zero i).1 (same i)) in
      ap (compare_from a b (suc i) left) e ∙ compare_from_same left (suc i) same

  -- The comparison of a hard reset accepts exactly the token: it is equality on byte strings.
  pub constant_time_eq_iff : (constant_time_eq a b ≡ true) ↔ (a ≡ b)
  unfolding constant_time_eq
  constant_time_eq_iff = (sound, same)
    where
      rounds : ℕ
      rounds = max (length a) (length b)

      first_diff : ℕ
      first_diff = if length a == length b then 0 else 1

      sound : (compare_from a b 0 rounds first_diff == 0) ≡ true → a ≡ b
      sound h =
          let (started, equal) =
            compare_from_sound rounds 0 first_diff (ground arith)
              (same→eq (compare_from a b 0 rounds first_diff) 0 h) in
          let lengths : length a ≡ length b = ground arith in
          bytes_ext a b lengths
            (λ k lt. let e : 0 + k ≡ k = omega arith in rw e at (equal k (omega arith)))

      same : a ≡ b → (compare_from a b 0 rounds first_diff == 0) ≡ true
      same h =
          let lengths : length a ≡ length b = ap length h in
          let started : first_diff ≡ 0 = ground arith in
          rw started
            (rw (compare_from_same rounds 0 (λ k. ap (λ (x : List ℕ). byte_at x k) h)) refl)
