-- ===== src/Tests/Settings.antt =====
-- Thresholds and decay at concrete inputs.
use neurolithe.Base.{◌≡◌, refl, none, some}
use neurolithe.Base.Text.{Text, text, trim}
use neurolithe.Domain.Thresholds.{
  ThresholdOverrides, ThresholdSource, Threshold, Thresholds, ok, ascii_lower, after_colon,
  find_defaults, model_defaults, validate, uses_fallback, assemble, resolve,
}
use neurolithe.Domain.Thresholds.Validity.{IsValid, resolve-IsValid}
use neurolithe.Domain.Decay.{DecayEngine, Within, calculate_decay_for, calculate_decay_for_bounds}
use neurolithe.Tests.Floats.{Fixed, fixed, fixed-ScaleLaws}
use neurolithe.Tests.Unicode.{ascii}

-- A model that has no calibrated defaults, with one distance configured.
abbrev unknown_model : Text
unknown_model = text "vertex:other"

abbrev configured : ThresholdOverrides Fixed
configured = record {
  placement_max_distance = none;
  placement_min_margin = none;
  assimilation = some (fixed.decimal 20 2);
  accommodation = none;
}

abbrev fallback_value : Fixed → Threshold Fixed
fallback_value v = record { value = v; source = ThresholdSource.fallback }

abbrev resolved : Thresholds Fixed
resolved = record {
  embedding_model = unknown_model;
  values = record {
    placement_max_distance = fallback_value (fixed.decimal 96 2);
    placement_min_margin = fallback_value (fixed.decimal 0 0);
    assimilation = record { value = fixed.decimal 20 2; source = ThresholdSource.config };
    accommodation = fallback_value (fixed.decimal 58 2);
  };
}

resolved_test : resolve fixed ascii unknown_model configured ≡ ok resolved (some unknown_model)
unfolding resolve model_defaults find_defaults after_colon ascii_lower trim assemble validate
    uses_fallback
resolved_test = refl

resolve-IsValid_example : IsValid fixed resolved
resolve-IsValid_example = resolve-IsValid fixed ascii unknown_model configured resolved_test

abbrev engine : DecayEngine Fixed
engine = record {
  default_half_life_days = fixed.decimal 30 0;
  working_half_life_days = fixed.decimal 1 0;
}

calculate_decay_for_bounds_example :
    Within fixed fixed-ScaleLaws
      (calculate_decay_for fixed engine (fixed.decimal 8 1) (fixed.decimal 3 0) (text "working"))
      (fixed.decimal 8 1)
calculate_decay_for_bounds_example =
    calculate_decay_for_bounds fixed fixed-ScaleLaws engine (fixed.decimal 8 1) (fixed.decimal 3 0)
      (text "working") refl refl
