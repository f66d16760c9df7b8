-- ===== src/Store/Memory/Sweep/Batch.antt =====
-- One batch of the decay sweep, row by row.
use neurolithe.Store.Memory.Lifecycle.{last_id, update_row, new_score}
use neurolithe.Store.Memory.Rows.{MemoryNode, active, archived, is_active}
use neurolithe.Base.{
  ℕ, zero, suc, ◌≤◌, ◌<◌, ◌≡◌, refl, ap, ◌∙◌, ◌⊎◌, inl, inr, Bool, true, false, some, List, [], ◌∷◌,
  map, arith, ltb, if◌then◌else◌, Bool-cases, ◌==◌, eqb_iff, length, take, filter, All, All-mono,
  nat_key, text_key,
}
use neurolithe.Base.Float.{Float}
use neurolithe.Domain.Decay.{DecayEngine, should_archive}
use neurolithe.Store.Memory.Sweep.Rising.{
  Rowwise, IsRising, IsRising-filter, IsRising-take, last_id-ge, IsRising-All,
}

module _ (fl : Float) (elapsed_days : ℕ → ℕ → fl.F64) (engine : DecayEngine fl.F64) where
  -- A row with its new score, by its age at `now`.
  abbrev decayed : ℕ → MemoryNode fl.F64 → MemoryNode fl.F64
  decayed now r = record r {
    relevance_score = new_score fl elapsed_days engine now r;
    status =
        if should_archive fl (new_score fl elapsed_days engine now r) then archived else active;
    last_decayed_at = some now;
  }

  -- The row after the sweep: an active node is decayed once, by its age at the time of its batch.
  abbrev pub IsSwept : MemoryNode fl.F64 → MemoryNode fl.F64 → Type 0
  IsSwept r r' =
      ((is_active r ≡ false) × (r' ≡ r)) ⊎ ((is_active r ≡ true) × (now : ℕ) × (r' ≡ decayed now r))

  abbrev pub update_each :
      ℕ → List (MemoryNode fl.F64) → List (MemoryNode fl.F64) → List (MemoryNode fl.F64)
  update_each now [] rows = rows
  update_each now (n ∷ ns) rows =
      update_each now ns (map (update_row fl elapsed_days engine now n) rows)

  -- What the rows of a batch become: `p` is the condition of the SELECT.
  abbrev pass :
      ℕ → (MemoryNode fl.F64 → Bool) → ℕ → List (MemoryNode fl.F64) → List (MemoryNode fl.F64)
  pass now p zero rs = rs
  pass now p (suc k) [] = []
  pass now p (suc k) (r ∷ rs) =
      if p r then decayed now r ∷ pass now p k rs else r ∷ pass now p (suc k) rs

  update_each-skip :
      (now low : ℕ) (r : MemoryNode fl.F64) (ns rows : List (MemoryNode fl.F64))
      → r.id ≤ low
      → IsRising low ns
      → update_each now ns (r ∷ rows) ≡ r ∷ update_each now ns rows
  update_each-skip now low r [] rows h rising = refl
  update_each-skip now low r (n ∷ ns) rows h (above, rising) =
      let other : (r.id == n.id) ≡ false = ground (arith, h, above, eqb_iff r.id n.id) in
      rw other (update_each-skip now n.id r ns _ (omega (arith, h, above)) rising)

  update_row-others :
      (now low : ℕ) (n : MemoryNode fl.F64) (rows : List (MemoryNode fl.F64))
      → n.id ≤ low
      → IsRising low rows
      → map (update_row fl elapsed_days engine now n) rows ≡ rows
  update_row-others now low n [] h rising = refl
  update_row-others now low n (r ∷ rows) h (above, rising) =
      let other : (r.id == n.id) ≡ false = ground (arith, h, above, eqb_iff r.id n.id) in
      rw other
        (ap (λ l. r ∷ l) (update_row-others now r.id n rows (omega (arith, h, above)) rising))

  pub update_each-pass :
      (now : ℕ) (p : MemoryNode fl.F64 → Bool) (k low : ℕ) (rows : List (MemoryNode fl.F64))
      → IsRising low rows
      → update_each now (take k (filter p rows)) rows ≡ pass now p k rows
  update_each-pass now p zero low rows rising = refl
  update_each-pass now p (suc k) low [] rising = refl
  update_each-pass now p (suc k) low (r ∷ rows) (above, rising) = elim (Bool-cases (p r)) [
    | inl kept ↦
        let same : (r.id == r.id) ≡ true = ground (arith, eqb_iff r.id r.id) in
        let others = update_row-others now r.id r rows (omega arith) rising in
        let later = IsRising-take k r.id _ (IsRising-filter p r.id rows rising) in
        rw (kept, same, others)
          (update_each-skip now r.id (decayed now r) (take k (filter p rows)) rows (omega arith)
              later
            ∙ ap (λ l. decayed now r ∷ l) (update_each-pass now p k r.id rows rising))
    | inr gone ↦
        let later = IsRising-take (suc k) r.id _ (IsRising-filter p r.id rows rising) in
        rw gone (
          update_each-skip now r.id r (take (suc k) (filter p rows)) rows (omega arith) later
          ∙ ap (λ l. r ∷ l) (update_each-pass now p (suc k) r.id rows rising))
  ]

  -- The row after a batch that ended at `last`: it was not selected, or it was, or it is behind a
  -- full batch.
  abbrev pub IsHandled :
      ℕ → (MemoryNode fl.F64 → Bool) → ℕ → Bool → MemoryNode fl.F64 → MemoryNode fl.F64 → Type 0
  IsHandled now p last short r r' =
      ((p r ≡ false) × (r' ≡ r))
      ⊎ (((p r ≡ true) × (r.id ≤ last) × (r' ≡ decayed now r))
          ⊎ ((last < r.id) × (r' ≡ r) × (short ≡ false)))

  behind_batch :
      (now : ℕ) (p : MemoryNode fl.F64 → Bool) (last : ℕ) (rows : List (MemoryNode fl.F64))
      → All (λ r. p r ≡ true → last < r.id) rows
      → Rowwise (IsHandled now p last false) rows rows
  behind_batch now p last [] due = tt
  behind_batch now p last (r ∷ rows) (due, later) = (
    elim (Bool-cases (p r)) [
      | inl kept ↦ inr (inr (due kept, refl, refl))
      | inr gone ↦ inl (gone, refl)
    ],
    behind_batch now p last rows later,
  )

  -- What a batch does that ends at `last`.
  pub record IsBatch (now : ℕ) (p : MemoryNode fl.F64 → Bool) (last : ℕ) (short : Bool)
      (rows swept : List (MemoryNode fl.F64)) : Type 0 where
    pub handled : Rowwise (IsHandled now p last short) rows swept

  pub pass-IsBatch :
      (now : ℕ) (p : MemoryNode fl.F64 → Bool) (k after low : ℕ) (rows : List (MemoryNode fl.F64))
      → IsRising low rows
      → All (λ r. p r ≡ true → after < r.id) rows
      → IsBatch now p
          (last_id after (take k (filter p rows)))
          (ltb (length (take k (filter p rows))) k)
          rows
          (pass now p k rows)
  pass-IsBatch now p zero after low rows rising due = record {
    handled = behind_batch now p after rows due;
  }
  pass-IsBatch now p (suc k) after low [] rising due = record { handled = tt }
  pass-IsBatch now p (suc k) after low (r ∷ rows) (above, rising) (due, later) =
      elim (Bool-cases (p r)) [
        | inl kept ↦
            let tail = take k (filter p rows) in
            let chosen : take (suc k) (filter p (r ∷ rows)) ≡ r ∷ tail = rw kept refl in
            let passed : pass now p (suc k) (r ∷ rows) ≡ decayed now r ∷ pass now p k rows =
              rw kept refl in
            let far =
              last_id-ge r.id tail (IsRising-take k r.id _ (IsRising-filter p r.id rows rising)) in
            let beyond = IsRising-All r.id r.id rows (omega arith) rising in
            let h =
              pass-IsBatch now p k r.id r.id rows rising (All-mono _ _ (λ x b e. b) rows beyond) in
            let one_more : ltb (suc (length tail)) (suc k) ≡ ltb (length tail) k = ground arith in
            rw (chosen, passed, one_more)
              (record { handled = (inr (inl (kept, far, refl)), h.handled) })
        | inr gone ↦
            let chosen : take (suc k) (filter p (r ∷ rows)) ≡ take (suc k) (filter p rows) =
              rw gone refl in
            let passed : pass now p (suc k) (r ∷ rows) ≡ r ∷ pass now p (suc k) rows =
              rw gone refl in
            let h = pass-IsBatch now p (suc k) after r.id rows rising later in
            rw (chosen, passed) (record { handled = (inl (gone, refl), h.handled) })
      ]
