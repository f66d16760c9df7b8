-- ===== src/Domain/Decay.antt =====
-- src/domain/decay.rs: the forgetting curve of short-term memory.
use neurolithe.Base.{
  ◌≡◌, Bool, true, not, ◌&&◌, ◌||◌, arith, if◌then◌else◌, ◌==◌, nat_key, text_key,
}
use neurolithe.Base.Text.{Text, text}
use neurolithe.Base.Float.{Float, ScaleLaws}
use neurolithe.Domain.Tuning.{archive_threshold}

-- `WORKING_CCL` and `REALITY_CCL` of src/domain/models.rs
abbrev pub working_ccl : Text
working_ccl = text "working"

abbrev pub reality_ccl : Text
reality_ccl = text "reality"

pub record DecayEngine (F : Type 0) : Type 0 where
  pub default_half_life_days : F
  pub working_half_life_days : F

module _ (fl : Float) where
  open fl use {F64, lt, le, mul, div, powf, is_nan, is_finite, decimal}

  unfoldable pub should_archive : F64 → Bool
  should_archive score = lt score (archive_threshold fl)

  -- `DecayEngine::new`
  with_half_life : F64 → DecayEngine F64
  with_half_life d = record { default_half_life_days = d; working_half_life_days = d }

  unfoldable pub half_life_for : DecayEngine F64 → Text → F64
  half_life_for e ccl =
      if ccl == working_ccl then e.working_half_life_days else e.default_half_life_days

  unfoldable pub decay : F64 → F64 → F64 → F64
  decay current_score days_elapsed half_life_days =
      if is_nan days_elapsed || le days_elapsed (decimal 0 0)
      then current_score
      else if not (is_finite half_life_days && lt (decimal 0 0) half_life_days)
      then decimal 0 0
      else mul current_score (powf (decimal 5 1) (div days_elapsed half_life_days))

  unfoldable pub calculate_decay_for : DecayEngine F64 → F64 → F64 → Text → F64
  calculate_decay_for e score days ccl = decay score days (half_life_for e ccl)

  module _ (laws : ScaleLaws fl) where
    -- What a score must stay within.
    abbrev pub Within : F64 → F64 → Type 0
    Within a s = (le (decimal 0 0) a ≡ true) × (le a s ≡ true)

    decay_bounds :
        (score days half : F64)
        → is_finite score ≡ true
        → le (decimal 0 0) score ≡ true
        → Within (decay score days half) score
    unfolding decay
    decay_bounds score days half finite nonneg =
        let zero_ok = laws.finite_not_nan (decimal 0 0) laws.zero_finite in
        let quotient = div days half in
        ground (
          arith,
          laws.le_refl score (laws.finite_not_nan score finite),
          laws.le_refl (decimal 0 0) zero_ok,
          laws.lt_or_le days (decimal 0 0),
          zero_ok,
          laws.div_nonneg days half,
          laws.half_powf_nonneg quotient,
          laws.half_powf_le_one quotient,
          laws.mul_nonneg score (powf (decimal 5 1) quotient),
          laws.mul_le_left score (powf (decimal 5 1) quotient),
        )

    -- The decayed score of a finite score of at least zero lies between zero and that score,
    -- whatever the elapsed time (a NaN or a negative one included), the layer and the
    -- half-lives (a NaN, an infinite or a negative one included).
    pub calculate_decay_for_bounds :
        (e : DecayEngine F64) (score days : F64) (ccl : Text)
        → is_finite score ≡ true
        → le (decimal 0 0) score ≡ true
        → Within (calculate_decay_for e score days ccl) score
    unfolding calculate_decay_for
    calculate_decay_for_bounds e score days ccl = decay_bounds score days (half_life_for e ccl)
