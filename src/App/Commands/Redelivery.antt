-- ===== src/App/Commands/Redelivery.antt =====
-- src/application/write_service.rs under at-least-once delivery: a command that is delivered again and
-- again.
use neurolithe.Base.{
  ℕ, ◌≡◌, refl, ap, ◌∙◌, inl, inr, Bool, true, false, Option, none, some, List, [], ◌∷◌, arith,
  Bool-cases, Option-cases, any,
}
use neurolithe.Store.Memory.Rows.{active}
use neurolithe.Store.Memory.Graph.{accepts}
use neurolithe.App.Commands.Ledger.{IsFailed, IsHandled, handle-IsHandled, write_id}
use neurolithe.App.Commands.{
  handle, WriteOutcome, Stores, Delivery, WriteError, MemoryCommand, Service,
}
use neurolithe.Store.Memory.Graph.{is_command_processed}
use neurolithe.Base.Text.{Text}
use neurolithe.Base.Float.{Float}
use neurolithe.Base.{
  ◌≡◌, refl, ap, ◌∙◌, inl, inr, Bool, true, false, Option, none, some, List, [], ◌∷◌, arith,
  Bool-cases, Option-cases, any,
}
use neurolithe.Base.Outcome.{Result, Ensures, ok, err}

module _ (fl : Float) (service : Service fl) (cmd : MemoryCommand) where
  -- The stores after the deliveries; an error is logged.
  unfoldable pub redeliver : List (Delivery fl.F64) → Stores fl.F64 → Stores fl.F64
  redeliver [] s = s
  redeliver (d ∷ ds) s = redeliver ds (handle fl service d cmd s).1

  abbrev first_of : Result WriteError WriteOutcome × Stores fl.F64 → Stores fl.F64 → Stores fl.F64
  first_of (ok o, t) rest = t
  first_of (err e, t) rest = rest

  -- The stores after the first delivery that succeeds.
  unfoldable pub first_applied : List (Delivery fl.F64) → Stores fl.F64 → Stores fl.F64
  first_applied [] s = s
  first_applied (d ∷ ds) s = first_of (handle fl service d cmd s) (first_applied ds s)

  module _ (id : Text) (writes : write_id cmd ≡ some id) where
    stays :
        (d : Delivery fl.F64) (s : Stores fl.F64)
        (r : Result WriteError WriteOutcome × Stores fl.F64)
        → Ensures (IsHandled fl service d cmd id s) (IsFailed fl service d cmd id s) r
        → is_command_processed id s.short_term ≡ true
        → r.1 ≡ s
    stays d s (ok o, t) (inl h) there = h.2
    stays d s (ok o, t) (inr h) there = cc (h.0, there)
    stays d s (err e, t) h there = h.1

    redeliver_stays :
        (ds : List (Delivery fl.F64)) (s : Stores fl.F64)
        → is_command_processed id s.short_term ≡ true
        → redeliver ds s ≡ s
    unfolding redeliver
    redeliver_stays [] s there = refl
    redeliver_stays (d ∷ ds) s there =
        ap (redeliver ds) (
          stays d s (handle fl service d cmd s) (handle-IsHandled fl service d cmd id s writes)
            there)
        ∙ redeliver_stays ds s there

    -- However often a write is delivered, it has the effect of the first delivery that succeeds; if
    -- none does, the stores are as they were.
    pub redeliver-first_applied :
        (ds : List (Delivery fl.F64)) (s : Stores fl.F64) → redeliver ds s ≡ first_applied ds s
    unfolding redeliver first_applied
    redeliver-first_applied [] s = refl
    redeliver-first_applied (d ∷ ds) s =
        split (handle fl service d cmd s) (handle-IsHandled fl service d cmd id s writes)
          (redeliver-first_applied ds s)
      where
        split :
            (r : Result WriteError WriteOutcome × Stores fl.F64)
            → Ensures (IsHandled fl service d cmd id s) (IsFailed fl service d cmd id s) r
            → redeliver ds s ≡ first_applied ds s
            → redeliver ds r.1 ≡ first_of r (first_applied ds s)
        split (ok o, t) (inl h) ih = redeliver_stays ds t (rw h.2 h.0)
        split (ok o, t) (inr h) ih = redeliver_stays ds t h.1
        split (err e, t) h ih = ap (redeliver ds) h.1 ∙ ih

-- The model has answered, and the index takes the vector.
abbrev pub is_answered : (fl : Float) → ℕ → Option (List fl.F64) → Bool
is_answered fl dim none = false
is_answered fl dim (some v) = accepts fl dim active v
