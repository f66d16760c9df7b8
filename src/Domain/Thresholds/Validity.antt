-- ===== src/Domain/Thresholds/Validity.antt =====
-- What `Thresholds::resolve` guarantees: ranges, sources and warnings.
use neurolithe.Base.{
  ◌≡◌, refl, ◌↔◌, ◌⊎◌, inl, inr, true, false, Option, none, some, List, [], ◌∷◌, map, arith,
  if◌then◌else◌, Bool-cases, Option-cases, ◌==◌, nat_key, text_key, All, contains,
}
use neurolithe.Base.Text.{Text, Unicode, trim}
use neurolithe.Base.Float.{Float, DecimalLaws}
use neurolithe.Domain.Thresholds.{
  ThresholdValues, ThresholdOverrides, ThresholdSource, config, Threshold, Thresholds, ok,
  text_embedding_004, bge_small_en_v15, find_defaults, model_defaults, choose_defaults, pick,
  validate, uses_fallback, assemble, resolve, no_overrides, colon, all_model_defaults, ascii_lower,
  or_else, after_colon,
}

module _ (fl : Float) where
  open fl use {F64, lt, le, is_finite, decimal}

  pub record IsValid (t : Thresholds F64) : Type 0 where
    pub placement_finite : is_finite t.values.placement_max_distance.value ≡ true
    pub placement_pos : lt (decimal 0 0) t.values.placement_max_distance.value ≡ true
    pub assimilation_finite : is_finite t.values.assimilation.value ≡ true
    pub assimilation_pos : lt (decimal 0 0) t.values.assimilation.value ≡ true
    pub accommodation_finite : is_finite t.values.accommodation.value ≡ true
    pub accommodation_pos : lt (decimal 0 0) t.values.accommodation.value ≡ true
    pub margin_finite : is_finite t.values.placement_min_margin.value ≡ true
    pub margin_nonneg : le (decimal 0 0) t.values.placement_min_margin.value ≡ true
    pub ordered : le t.values.accommodation.value t.values.assimilation.value ≡ false

  validate-none_iff : (t : Thresholds F64) → (validate fl t ≡ none) ↔ IsValid t
  unfolding validate
  validate-none_iff t = (λ h. ground arith, λ h. ground arith)

  -- Whatever the model and the overrides, thresholds that `resolve` hands out are valid.
  pub resolve-IsValid :
      (u : Unicode) (model_id : Text) (o : ThresholdOverrides F64) {t : Thresholds F64}
      {w : Option Text}
      → resolve fl u model_id o ≡ ok t w
      → IsValid t
  unfolding resolve
  resolve-IsValid u model_id o {t} h =
      let chosen = choose_defaults fl (model_defaults fl u model_id) in
      (validate-none_iff t).0 (ground (arith, assemble fl model_id chosen o))

  abbrev assembled : Unicode → Text → ThresholdOverrides F64 → Thresholds F64
  assembled u model_id o =
      assemble fl model_id (choose_defaults fl (model_defaults fl u model_id)) o

  resolve-inv :
      (u : Unicode) (model_id : Text) (o : ThresholdOverrides F64) {t : Thresholds F64}
      {w : Option Text}
      → resolve fl u model_id o ≡ ok t w
      → (t ≡ assembled u model_id o) × (w ≡ (if uses_fallback fl t then some model_id else none))
  unfolding resolve
  resolve-inv u model_id o h = ground arith

  -- A threshold is the configured one, marked so, if there is one.
  abbrev IsPicked : Option F64 → Threshold F64 → Type 0
  IsPicked (some v) t = (t.value ≡ v) × (t.source ≡ config)
  IsPicked none t = ¬ (t.source ≡ config)

  pick-IsPicked :
      (s : ThresholdSource) (c : Option F64) (d : F64) → ¬ (s ≡ config) → IsPicked c (pick fl s c d)
  pick-IsPicked s none d h = h
  pick-IsPicked s (some v) d h = (refl, refl)

  choose-ne-config : (m : Option (ThresholdValues F64)) → ¬ ((choose_defaults fl m).1 ≡ config)
  choose-ne-config none = λ h. cc
  choose-ne-config (some v) = λ h. cc

  -- Every configured threshold is used as it is and marked as configured, and no other one is.
  resolve-sources :
      (u : Unicode) (model_id : Text) (o : ThresholdOverrides F64) {t : Thresholds F64}
      {w : Option Text}
      → resolve fl u model_id o ≡ ok t w
      → IsPicked o.placement_max_distance t.values.placement_max_distance
        × IsPicked o.placement_min_margin t.values.placement_min_margin
        × IsPicked o.assimilation t.values.assimilation
        × IsPicked o.accommodation t.values.accommodation
  unfolding assemble
  resolve-sources u model_id o h =
      let m = model_defaults fl u model_id in
      let (values, source) = choose_defaults fl m in
      let ne = choose-ne-config m in
      rw (resolve-inv u model_id o h).0 (
        pick-IsPicked source o.placement_max_distance values.placement_max_distance ne,
        pick-IsPicked source o.placement_min_margin values.placement_min_margin ne,
        pick-IsPicked source o.assimilation values.assimilation ne,
        pick-IsPicked source o.accommodation values.accommodation ne,
      )

  -- The warning is given exactly when the model has no calibrated defaults and one of the three
  -- distances is not configured.
  resolve-warns_iff :
      (u : Unicode) (model_id : Text) (o : ThresholdOverrides F64) {t : Thresholds F64}
      {w : Option Text}
      → resolve fl u model_id o ≡ ok t w
      → (w ≡ some model_id) ↔ (
          (model_defaults fl u model_id ≡ none)
          × ((o.placement_max_distance ≡ none)
              ⊎ ((o.assimilation ≡ none) ⊎ (o.accommodation ≡ none))))
  unfolding uses_fallback assemble
  resolve-warns_iff u model_id o h =
      let (same, warns) = resolve-inv u model_id o h in
      (λ e. ground (arith, same, warns), λ e. ground (arith, same, warns))

  -- Values that pass validation with no overrides.
  abbrev IsSound : ThresholdValues F64 → Type 0
  IsSound v =
      (s : ThresholdSource) (id : Text)
      → validate fl (assemble fl id (v, s) (no_overrides fl)) ≡ none

  find_defaults-IsSound :
      (id model_only : Text) (table : List (Text × ThresholdValues F64)) (v : ThresholdValues F64)
      → All (λ e. IsSound e.1) table
      → find_defaults fl id model_only table ≡ some v
      → IsSound v
  unfolding find_defaults
  find_defaults-IsSound id model_only [] v all_sound h = cc
  find_defaults-IsSound id model_only ((key, values) ∷ rest) v all_sound h =
      elim (Bool-cases (if contains key colon then key == id else key == model_only)) [
        | inl hit ↦ let e : v ≡ values = ground arith in rw e all_sound.0
        | inr miss ↦ find_defaults-IsSound id model_only rest v all_sound.1 (rw miss at h)
      ]

  table-IsSound :
      (laws : DecimalLaws fl) → IsSound (text_embedding_004 fl) × IsSound (bge_small_en_v15 fl)
  unfolding validate assemble
  table-IsSound laws = (
    λ s id. ground (
      arith,
      laws.decimal_finite 110 2,
      laws.decimal_finite 15 2,
      laws.decimal_finite 35 2,
      laws.decimal_finite 0 0,
      laws.decimal_zero 2,
      laws.decimal_lt 0 110 2,
      laws.decimal_lt 0 15 2,
      laws.decimal_lt 0 35 2,
      laws.decimal_le 0 0 2,
      laws.decimal_le 35 15 2,
    ),
    λ s id. ground (
      arith,
      laws.decimal_finite 96 2,
      laws.decimal_finite 40 2,
      laws.decimal_finite 58 2,
      laws.decimal_finite 0 0,
      laws.decimal_zero 2,
      laws.decimal_lt 0 96 2,
      laws.decimal_lt 0 40 2,
      laws.decimal_lt 0 58 2,
      laws.decimal_le 0 0 2,
      laws.decimal_le 58 40 2,
    ),
  )

  model_defaults-IsSound :
      (laws : DecimalLaws fl) (u : Unicode) (model_id : Text) (v : ThresholdValues F64)
      → model_defaults fl u model_id ≡ some v
      → IsSound v
  unfolding model_defaults
  model_defaults-IsSound laws u model_id v found =
      let (old, bge) = table-IsSound laws in
      let id = map ascii_lower (trim u.is_whitespace model_id) in
      find_defaults-IsSound id (or_else (after_colon id) id) (all_model_defaults fl) v
        (old, (bge, (bge, tt))) found

  chosen-IsSound :
      (laws : DecimalLaws fl) (u : Unicode) (model_id : Text)
      → IsSound (choose_defaults fl (model_defaults fl u model_id)).0
  chosen-IsSound laws u model_id = elim (Option-cases (model_defaults fl u model_id)) [
    | inl missing ↦ rw missing (table-IsSound laws).1
    | inr (v, found) ↦ rw found (model_defaults-IsSound laws u model_id v found)
  ]

  -- The built-in defaults are valid for every model id, so that with no overrides `resolve`
  -- succeeds and the `expect` of `text_embedding_004` cannot panic.
  pub resolve-defaults_succeed :
      (laws : DecimalLaws fl) (u : Unicode) (model_id : Text)
      → (t : Thresholds F64) × (w : Option Text) × (resolve fl u model_id (no_overrides fl)
          ≡ ok t w)
  unfolding resolve
  resolve-defaults_succeed laws u model_id =
      let t = assembled u model_id (no_overrides fl) in
      (
        t,
        if uses_fallback fl t then some model_id else none,
        ground (
          arith,
          chosen-IsSound laws u model_id (choose_defaults fl (model_defaults fl u model_id)).1
              model_id,
        ),
      )
