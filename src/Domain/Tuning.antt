-- ===== src/Domain/Tuning.antt =====
-- src/domain/tuning.rs: constants, the `[retrieval]` settings and their validation.
use neurolithe.Base.{
  ℕ, ◌-◌, ◌^◌, ◌≤◌, ◌≡◌, ◌↔◌, Bool, true, false, not, ◌&&◌, List, [], ◌∷◌, ◌++◌, arith, leb,
  if◌then◌else◌, nat_key, text_key,
}
use neurolithe.Base.Float.{Float}

-- The largest `usize`.
abbrev pub usize_max : ℕ
usize_max = 2 ^ 64 - 1

abbrev stm_recall_k : ℕ
stm_recall_k = 10

abbrev session_context_k : ℕ
session_context_k = 5

abbrev session_token_threshold : ℕ
session_token_threshold = 4000

abbrev session_keep_recent : ℕ
session_keep_recent = 10

abbrev pub chars_per_token : ℕ
chars_per_token = 4

abbrev default_leg_k_factor : ℕ
default_leg_k_factor = 4

abbrev max_leg_k_factor : ℕ
max_leg_k_factor = 50

pub record Ranking (F : Type 0) : Type 0 where
  pub rrf_k : F
  pub vector_weight : F
  pub keyword_weight : F
  pub leg_k_factor : ℕ
  pub fts_stopwords : Bool
  pub include_scores : Bool

-- The messages of `Ranking::problems`, with the values that they print.
pub data Problem (F : Type 0) : Type 0 where
  bad_rrf_k : F → Problem F
  bad_vector_weight : F → Problem F
  bad_keyword_weight : F → Problem F
  both_weights_zero : Problem F
  bad_leg_k_factor : ℕ → Problem F

module _ (fl : Float) where
  open fl use {F64, lt, le, eq, is_finite, decimal}

  -- `ARCHIVE_THRESHOLD`, 0.1
  abbrev pub archive_threshold : F64
  archive_threshold = decimal 1 1

  -- `Ranking::default`
  abbrev pub default_ranking : Ranking F64
  default_ranking = record {
    rrf_k = decimal 50 1;
    vector_weight = decimal 10 1;
    keyword_weight = decimal 105 2;
    leg_k_factor = default_leg_k_factor;
    fts_stopwords = true;
    include_scores = false;
  }

  abbrev when : Bool → Problem F64 → List (Problem F64)
  when b p = if b then p ∷ [] else []

  abbrev is_weight : F64 → Bool
  is_weight w = is_finite w && le (decimal 0 0) w

  unfoldable pub problems : Ranking F64 → List (Problem F64)
  problems r =
      when (not (is_finite r.rrf_k && (le (decimal 0 0) r.rrf_k && le r.rrf_k (decimal 10000 0))))
        (bad_rrf_k r.rrf_k)
      ++ (when (not (is_weight r.vector_weight)) (bad_vector_weight r.vector_weight)
          ++ (when (not (is_weight r.keyword_weight)) (bad_keyword_weight r.keyword_weight)
              ++ (when (eq r.vector_weight (decimal 0 0) && eq r.keyword_weight (decimal 0 0))
                    both_weights_zero
                  ++ when (not (leb 1 r.leg_k_factor && leb r.leg_k_factor max_leg_k_factor))
                      (bad_leg_k_factor r.leg_k_factor))))

  pub record IsUsable (r : Ranking F64) : Type 0 where
    pub k_finite : is_finite r.rrf_k ≡ true
    pub k_nonneg : le (decimal 0 0) r.rrf_k ≡ true
    pub k_bounded : le r.rrf_k (decimal 10000 0) ≡ true
    pub vector_finite : is_finite r.vector_weight ≡ true
    pub vector_nonneg : le (decimal 0 0) r.vector_weight ≡ true
    pub keyword_finite : is_finite r.keyword_weight ≡ true
    pub keyword_nonneg : le (decimal 0 0) r.keyword_weight ≡ true
    pub some_weight :
        (eq r.vector_weight (decimal 0 0) && eq r.keyword_weight (decimal 0 0)) ≡ false
    pub factor_pos : 1 ≤ r.leg_k_factor
    pub factor_bounded : r.leg_k_factor ≤ max_leg_k_factor

  -- Validation reports no problem exactly for the settings that meet every documented range.
  pub problems-nil_iff : (r : Ranking F64) → (problems r ≡ []) ↔ IsUsable r
  unfolding problems
  problems-nil_iff r = (λ h. ground arith, λ h. ground arith)
