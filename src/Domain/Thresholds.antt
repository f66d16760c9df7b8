-- ===== src/Domain/Thresholds.antt =====
-- src/domain/thresholds.rs: the distance thresholds of each embedding model, their overrides
-- from the configuration, and their validation.
pub mod Validity
use neurolithe.Base.{
  ℕ, ◌+◌, Bool, true, false, not, ◌&&◌, ◌||◌, Option, none, some, List, [], ◌∷◌, map, leb,
  if◌then◌else◌, ◌==◌, nat_key, text_key, contains,
}
use neurolithe.Base.Text.{Text, text, trim, Unicode}
use neurolithe.Base.Float.{Float}

-- `ThresholdValues` and `ThresholdOverrides` share their fields.
pub record Values (T : Type 0) : Type 0 where
  pub placement_max_distance : T
  pub placement_min_margin : T
  pub assimilation : T
  pub accommodation : T

abbrev pub ThresholdValues : Type 0 → Type 0
ThresholdValues F = Values F

abbrev pub ThresholdOverrides : Type 0 → Type 0
ThresholdOverrides F = Values (Option F)

pub data ThresholdSource : Type 0 where
  config model_default fallback : ThresholdSource

pub record Threshold (F : Type 0) : Type 0 where
  pub value : F
  pub source : ThresholdSource

pub record Thresholds (F : Type 0) : Type 0 where
  pub embedding_model : Text
  pub values : Values (Threshold F)

-- The messages of `validate`, with the values that they print.
pub data ThresholdError (F : Type 0) : Type 0 where
  not_positive : Text → F → ThresholdError F
  negative_margin : F → ThresholdError F
  not_ordered : F → F → Text → ThresholdError F

-- `resolve` returns the thresholds and the model name that its warning prints, or an error.
pub data Resolved (F : Type 0) : Type 0 where
  ok : Thresholds F → Option Text → Resolved F
  err : ThresholdError F → Resolved F

abbrev pub colon : ℕ
colon = b':'

-- `u8::to_ascii_lowercase`
unfoldable pub ascii_lower : ℕ → ℕ
ascii_lower c = if leb b'A' c && leb c b'Z' then c + 32 else c

-- `split_once(':').map(|(_, m)| m).unwrap_or(&id)`: what follows the first colon, if there is one.
unfoldable pub after_colon : Text → Option Text
after_colon [] = none
after_colon (c ∷ cs) = if c == colon then some cs else after_colon cs

abbrev pub or_else {ℓ} : {A : Type ℓ} → Option A → A → A
or_else none d = d
or_else (some a) d = a

module _ (fl : Float) where
  open fl use {F64, lt, le, is_finite, decimal}

  abbrev pub text_embedding_004 : ThresholdValues F64
  text_embedding_004 = record {
    placement_max_distance = decimal 110 2;
    placement_min_margin = decimal 0 0;
    assimilation = decimal 15 2;
    accommodation = decimal 35 2;
  }

  abbrev pub bge_small_en_v15 : ThresholdValues F64
  bge_small_en_v15 = record {
    placement_max_distance = decimal 96 2;
    placement_min_margin = decimal 0 0;
    assimilation = decimal 40 2;
    accommodation = decimal 58 2;
  }

  abbrev pub all_model_defaults : List (Text × ThresholdValues F64)
  all_model_defaults =
      (text "text-embedding-004", text_embedding_004)
      ∷ (text "local:bge-small-en-v1.5", bge_small_en_v15)
      ∷ (text "local:bge-small-en-v1.5-q", bge_small_en_v15)
      ∷ []

  -- The `find_map` of `model_defaults`: a key with a colon is compared with the whole id.
  unfoldable pub find_defaults :
      Text → Text → List (Text × ThresholdValues F64) → Option (ThresholdValues F64)
  find_defaults id model_only [] = none
  find_defaults id model_only ((key, values) ∷ rest) =
      if (if contains key colon then key == id else key == model_only)
      then some values
      else find_defaults id model_only rest

  unfoldable pub model_defaults : Unicode → Text → Option (ThresholdValues F64)
  unfolding find_defaults after_colon
  model_defaults u model_id =
      let id = map ascii_lower (trim u.is_whitespace model_id) in
      find_defaults id (or_else (after_colon id) id) all_model_defaults

  -- `match model_defaults(model_id)`, with the fallback.
  abbrev pub choose_defaults : Option (ThresholdValues F64) → ThresholdValues F64 × ThresholdSource
  choose_defaults (some values) = (values, ThresholdSource.model_default)
  choose_defaults none = (bge_small_en_v15, ThresholdSource.fallback)

  abbrev pub pick : ThresholdSource → Option F64 → F64 → Threshold F64
  pick source (some v) default = record { value = v; source = ThresholdSource.config }
  pick source none default = record { value = default; source = source }

  abbrev is_positive : F64 → Bool
  is_positive v = is_finite v && lt (decimal 0 0) v

  unfoldable pub validate : Thresholds F64 → Option (ThresholdError F64)
  validate t =
      let place = t.values.placement_max_distance.value in
      let assim = t.values.assimilation.value in
      let accom = t.values.accommodation.value in
      let margin = t.values.placement_min_margin.value in
      if not (is_positive place)
      then some (not_positive (text "placement_max_distance") place)
      else if not (is_positive assim)
      then some (not_positive (text "assimilation_threshold") assim)
      else if not (is_positive accom)
      then some (not_positive (text "accommodation_threshold") accom)
      else if not (is_finite margin && le (decimal 0 0) margin)
      then some (negative_margin margin)
      else if le accom assim
      then some (not_ordered assim accom t.embedding_model)
      else none

  abbrev is_fallback : Threshold F64 → Bool
  is_fallback t = elim t.source [ ThresholdSource.fallback ↦ true | _ ↦ false ]

  unfoldable pub uses_fallback : Thresholds F64 → Bool
  uses_fallback t =
      is_fallback t.values.placement_max_distance
      || (is_fallback t.values.assimilation || is_fallback t.values.accommodation)

  unfoldable pub assemble :
      Text → ThresholdValues F64 × ThresholdSource → ThresholdOverrides F64 → Thresholds F64
  assemble model_id (defaults, source) o = record {
    embedding_model = model_id;
    values = record {
      placement_max_distance = pick source o.placement_max_distance defaults.placement_max_distance;
      placement_min_margin = pick source o.placement_min_margin defaults.placement_min_margin;
      assimilation = pick source o.assimilation defaults.assimilation;
      accommodation = pick source o.accommodation defaults.accommodation;
    };
  }

  -- The end of `resolve`: validation, then the warning.
  abbrev finish : Text → Thresholds F64 → Option (ThresholdError F64) → Resolved F64
  finish model_id t (some e) = err e
  finish model_id t none = ok t (if uses_fallback t then some model_id else none)

  unfoldable pub resolve : Unicode → Text → ThresholdOverrides F64 → Resolved F64
  unfolding assemble
  resolve u model_id o =
      let t = assemble model_id (choose_defaults (model_defaults u model_id)) o in
      finish model_id t (validate t)

  abbrev pub no_overrides : ThresholdOverrides F64
  no_overrides = record {
    placement_max_distance = none;
    placement_min_margin = none;
    assimilation = none;
    accommodation = none;
  }
