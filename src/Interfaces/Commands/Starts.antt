-- ===== src/Interfaces/Commands/Starts.antt =====
-- `pin_command_start` of src/interfaces/command_consumer.rs: where each partition starts.
use mathlib.Core.Path.{subst}
use neurolithe.Interfaces.Commands.{
  pin_command_start, StartPosition, plan_command_start, commit_pins,
}
use neurolithe.Base.{
  ℕ, ◌≡◌, refl, sym, ap, ◌∙◌, ◌≢◌, ◌⊎◌, inl, inr, true, ◌&&◌, none, some, List, [], ◌∷◌, map, arith,
  if◌then◌else◌, Bool-cases, Option-cases, is_some, ◌==◌, eqb_iff, any, All, nat_key, text_key,
}
use neurolithe.Base.Maps.{Map, lookup, insert, lookup-insert}

abbrev planned : List (ℕ × ℕ) → Map ℕ ℕ → List (ℕ × StartPosition)
planned ends committed = plan_command_start (map (λ e. (e.0, lookup e.0 committed, e.1)) ends)

module _ (committed : Map ℕ ℕ) where
  -- A round of the plan for a partition with an offset, and for one with none.
  pin_one :
      (p e : ℕ) (ends : List (ℕ × ℕ)) (c : Map ℕ ℕ)
      → commit_pins (planned ((p, e) ∷ ends) committed) c
        ≡ commit_pins
            (planned ends committed)
            (if is_some (lookup p committed) then c else insert p e c)
  unfolding plan_command_start commit_pins
  pin_one p e ends c = elim (Option-cases (lookup p committed)) [
    | inl unset ↦ rw unset refl
    | inr (o, set) ↦ rw set refl
  ]

  pins_keep :
      (j o : ℕ) (ends : List (ℕ × ℕ)) (c : Map ℕ ℕ)
      → lookup j committed ≡ some o
      → lookup j c ≡ some o
      → lookup j (commit_pins (planned ends committed) c) ≡ some o
  unfolding commit_pins plan_command_start
  pins_keep j o [] c set here = here
  pins_keep j o ((p, e) ∷ ends) c set here =
      ap (lookup j) (pin_one p e ends c)
      ∙ pins_keep j o ends (if is_some (lookup p committed) then c else insert p e c) set
          (ground (arith, lookup-insert p j e c, set, here, eqb_iff j p))

  pins_grow :
      (j : ℕ) (ends : List (ℕ × ℕ)) (c : Map ℕ ℕ)
      → is_some (lookup j c) ≡ true
      → is_some (lookup j (commit_pins (planned ends committed) c)) ≡ true
  unfolding commit_pins plan_command_start
  pins_grow j [] c here = here
  pins_grow j ((p, e) ∷ ends) c here =
      ap (λ (m : Map ℕ ℕ). is_some (lookup j m)) (pin_one p e ends c)
      ∙ pins_grow j ends (if is_some (lookup p committed) then c else insert p e c)
          (ground (arith, lookup-insert p j e c))

  pins_cover :
      (ends : List (ℕ × ℕ)) (c : Map ℕ ℕ)
      → ((j : ℕ) → is_some (lookup j committed) ≡ true → is_some (lookup j c) ≡ true)
      → All (λ e. is_some (lookup e.0 (commit_pins (planned ends committed) c)) ≡ true) ends
  pins_cover [] c more = tt
  pins_cover ((p, e) ∷ ends) c more =
      subst
        (λ (m : Map ℕ ℕ).
          (is_some (lookup p m) ≡ true) × All (λ e. is_some (lookup e.0 m) ≡ true) ends)
        (sym (pin_one p e ends c))
        (
          pins_grow p ends next (ground (arith, lookup-insert p p e c, more p, eqb_iff p p)),
          pins_cover ends next (λ j set. ground (arith, lookup-insert p j e c, more j set)),
        )
    where
      next : Map ℕ ℕ
      next = if is_some (lookup p committed) then c else insert p e c

  pins_at_end :
      (j o : ℕ) (ends : List (ℕ × ℕ)) (c : Map ℕ ℕ)
      → lookup j committed ≡ none
      → lookup j (commit_pins (planned ends committed) c) ≡ some o
      → (lookup j c ≡ some o) ⊎ (any (λ e. (e.0 == j) && (e.1 == o)) ends ≡ true)
  unfolding commit_pins plan_command_start
  pins_at_end j o [] c unset here = inl here
  pins_at_end j o ((p, e) ∷ ends) c unset here =
      from_rest (pins_at_end j o ends next unset (ap (lookup j) (sym (pin_one p e ends c)) ∙ here))
    where
      next : Map ℕ ℕ
      next = if is_some (lookup p committed) then c else insert p e c

      from_rest :
          (lookup j next ≡ some o) ⊎ (any (λ e. (e.0 == j) && (e.1 == o)) ends ≡ true)
          → (lookup j c ≡ some o) ⊎ (any (λ e. (e.0 == j) && (e.1 == o)) ((p, e) ∷ ends) ≡ true)
      from_rest (inr later) = inr (ground (arith, later))
      from_rest (inl now) = elim (Bool-cases ((p == j) && (e == o))) [
        | inl hit ↦ inr (ground (arith, hit))
        | inr miss ↦
            inl (ground (arith, now, miss, lookup-insert p j e c, eqb_iff j p, eqb_iff e o))
      ]

-- What the offsets of a group are once it has started: those it had, and the end of each partition
-- that had none.
pub record IsPinned (ends : List (ℕ × ℕ)) (before after : Map ℕ ℕ) : Type 0 where
  pub keeps : (p o : ℕ) → lookup p before ≡ some o → lookup p after ≡ some o
  pub covers : All (λ e. is_some (lookup e.0 after) ≡ true) ends
  pub at_end :
      (p o : ℕ)
      → lookup p before ≡ none
      → lookup p after ≡ some o
      → any (λ e. (e.0 == p) && (e.1 == o)) ends ≡ true

-- Starting the group on a topic with partitions succeeds: a partition with an offset resumes there,
-- one with none starts at its end.
pub pin_command_start-IsPinned :
    (ends : List (ℕ × ℕ)) (committed : Map ℕ ℕ)
    → ends ≢ []
    → (after : Map ℕ ℕ) × (pin_command_start ends committed ≡ some after)
      × IsPinned ends committed after
unfolding pin_command_start
pin_command_start-IsPinned [] committed h = absurd (h refl)
pin_command_start-IsPinned (e ∷ ends) committed h = (
  commit_pins (planned (e ∷ ends) committed) committed,
  refl,
  record {
    keeps = λ p o set. pins_keep committed p o (e ∷ ends) committed set set;
    covers = pins_cover committed (e ∷ ends) committed (λ j set. set);
    at_end = λ p o unset set.
        at_end p o unset (pins_at_end committed p o (e ∷ ends) committed unset set);
  },
)
  where
    at_end :
        (p o : ℕ)
        → lookup p committed ≡ none
        → (lookup p committed ≡ some o) ⊎ (any (λ e. (e.0 == p) && (e.1 == o)) (e ∷ ends) ≡ true)
        → any (λ e. (e.0 == p) && (e.1 == o)) (e ∷ ends) ≡ true
    at_end p o unset (inl set) = absurd (cc (unset, set))
    at_end p o unset (inr found) = found
