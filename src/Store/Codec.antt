-- ===== src/Store/Codec.antt =====
-- src/infrastructure/embedding_codec.rs: embeddings as blobs.
use neurolithe.Base.{
  ℕ, ◌*◌, ◌%◌, ◌<◌, ◌≡◌, refl, sym, ◌↔◌, inl, inr, Bool, true, Option, none, some, List, [], ◌∷◌,
  arith, if◌then◌else◌, Bool-cases, ◌==◌, eqb_iff, length, All, nat_key, text_key,
}

-- `f32` and its four bytes in memory order, with `from_ne_bytes`.
pub record F32Bytes : Type 1 where
  pub F32 : Type 0
  pub bytes : F32 → ℕ × ℕ × ℕ × ℕ
  pub from_ne_bytes : ℕ × ℕ × ℕ × ℕ → F32

abbrev pub AreBytes : List ℕ → Type 0
AreBytes = All (λ b. b < 256)

-- A number is its four bytes, any four numbers below 256.
pub record BytesLaws (f : F32Bytes) : Type 0 where
  pub read_back : (x : f.F32) → f.from_ne_bytes (f.bytes x) ≡ x
  pub write_back :
      (a b c d : ℕ)
      → AreBytes (a ∷ b ∷ c ∷ d ∷ [])
      → f.bytes (f.from_ne_bytes (a, b, c, d)) ≡ (a, b, c, d)

abbrev f32_bytes : ℕ
f32_bytes = 4

abbrev pub check_dim : ℕ → ℕ → Bool
check_dim len expected = len == expected

module _ (f : F32Bytes) where
  unfoldable pub as_blob : List f.F32 → List ℕ
  as_blob [] = []
  as_blob (x ∷ xs) = let (a, b, c, d) = f.bytes x in a ∷ b ∷ c ∷ d ∷ as_blob xs

  -- `chunks_exact(4).map(..)`, which leaves out a shorter rest.
  unfoldable pub chunks : List ℕ → List f.F32
  chunks [] = []
  chunks (a ∷ []) = []
  chunks (a ∷ b ∷ []) = []
  chunks (a ∷ b ∷ c ∷ []) = []
  chunks (a ∷ b ∷ c ∷ d ∷ rest) = f.from_ne_bytes (a, b, c, d) ∷ chunks rest

  -- `none` is the error of a corrupt row.
  unfoldable pub from_blob : List ℕ → Option (List f.F32)
  from_blob blob = if length blob % f32_bytes == 0 then some (chunks blob) else none

  length-as_blob : (v : List f.F32) → length (as_blob v) ≡ 4 * length v
  unfolding as_blob
  length-as_blob [] = omega arith
  length-as_blob (x ∷ xs) = omega (arith, length-as_blob xs)

  module _ (laws : BytesLaws f) where
    chunks-as_blob : (v : List f.F32) → chunks (as_blob v) ≡ v
    unfolding as_blob chunks
    chunks-as_blob [] = refl
    chunks-as_blob (x ∷ xs) = rw (laws.read_back x, chunks-as_blob xs)

    as_blob-chunks : (b : List ℕ) → AreBytes b → length b % 4 ≡ 0 → as_blob (chunks b) ≡ b
    unfolding as_blob chunks
    as_blob-chunks [] k h = refl
    as_blob-chunks (a ∷ []) k h = absurd (omega (arith, h))
    as_blob-chunks (a ∷ b ∷ []) k h = absurd (omega (arith, h))
    as_blob-chunks (a ∷ b ∷ c ∷ []) k h = absurd (omega (arith, h))
    as_blob-chunks (a ∷ b ∷ c ∷ d ∷ rest) (ka, (kb, (kc, (kd, k)))) h = rw (
      laws.write_back a b c d (ka, (kb, (kc, (kd, tt)))),
      as_blob-chunks rest k (omega (arith, h)),
    )

    read :
        (blob : List ℕ) (v : List f.F32)
        → AreBytes blob
        → from_blob blob ≡ some v
        → as_blob v ≡ blob
    unfolding from_blob
    read blob v k e = elim (Bool-cases (length blob % f32_bytes == 0)) [
      | inl whole ↦
          let same : chunks blob ≡ v = ground (arith, whole, e) in
          rw (sym same) (as_blob-chunks blob k (ground (arith, whole, eqb_iff (length blob % 4) 0)))
      | inr cut ↦ absurd (ground (arith, cut, e))
    ]

    written : (v : List f.F32) → from_blob (as_blob v) ≡ some v
    unfolding from_blob
    written v =
        let whole : (length (as_blob v) % f32_bytes == 0) ≡ true =
          (eqb_iff (length (as_blob v) % f32_bytes) 0).1 (omega (arith, length-as_blob v)) in
        rw (whole, chunks-as_blob v)

    -- A string of bytes is read as an embedding exactly if it is the blob of that embedding, given
    -- that a number is its four bytes, and any four bytes are a number.
    pub from_blob-as_blob :
        (blob : List ℕ) (v : List f.F32)
        → AreBytes blob
        → (from_blob blob ≡ some v) ↔ (as_blob v ≡ blob)
    from_blob-as_blob blob v k = (read blob v k, λ e. rw (sym e) (written v))
