-- ===== src/App/Resets.antt =====
-- src/application/reset_service.rs: the soft and the hard reset, and the token that guards the hard one.
pub mod Tokens
pub mod Hard
use neurolithe.Base.Text.{Unicode, trim, Text}
use neurolithe.Store.Ltm.Rows.{Store}
use neurolithe.Store.Ltm.Spine.{seed_spine_from}
use neurolithe.App.Commands.{
  MemoryCommand, Stores, reset_soft, reset_hard, remember_command, forget_command,
}
use neurolithe.Domain.Ltm.{SpineSeed}
use neurolithe.Base.Float.{Float}
use neurolithe.Store.Memory.Lifecycle
use neurolithe.Store.Ltm.Writes
use neurolithe.Base.{
  ℕ, zero, suc, max, Bool, Option, none, some, List, [], ◌∷◌, leb, if◌then◌else◌, ◌==◌, length,
  nat_key, text_key,
}
use Prim.Native.Nat.{bit_or, bit_xor}
use neurolithe.Base.Outcome.{Action, Result, ok, err}

pub data ResetError : Type 0 where
  disabled token_mismatch not_seeded not_a_reset : ResetError

pub data ResetKind : Type 0 where
  soft hard : ResetKind

abbrev pub min_reset_token_len : ℕ
min_reset_token_len = 16

-- `a.get(i).copied().unwrap_or(0)`
abbrev pub byte_at : List ℕ → ℕ → ℕ
byte_at [] i = 0
byte_at (x ∷ xs) zero = x
byte_at (x ∷ xs) (suc i) = byte_at xs i

-- The loop over the indices from `i`, with `left` rounds to go.
unfoldable pub compare_from : List ℕ → List ℕ → ℕ → ℕ → ℕ → ℕ
compare_from a b i zero diff = diff
compare_from a b i (suc left) diff =
    compare_from a b (suc i) left (bit_or diff (bit_xor (byte_at a i) (byte_at b i)))

unfoldable pub constant_time_eq : List ℕ → List ℕ → Bool
unfolding compare_from
constant_time_eq a b =
    compare_from a b 0 (max (length a) (length b)) (if length a == length b then 0 else 1) == 0

unfoldable pub usable_reset_token : (ℕ → Bool) → Option Text → Option Text
usable_reset_token whitespace none = none
usable_reset_token whitespace (some raw) =
    let t = trim whitespace raw in if leb min_reset_token_len (length t) then some t else none

-- `confirm_token`, and the spine to seed again. `utf8` has the bytes of a text.
pub record ResetService : Type 0 where
  pub confirm_token : Option Text
  pub spine : List SpineSeed
  pub utf8 : Text → List ℕ

abbrev pub Resetting : Type 0 → Type 0 → Type 0
Resetting F A = Action (Stores F) ResetError A

module _ {F : Type 0} where
  -- The ids go on counting, and the ledger of commands stays.
  abbrev pub wipe_short_term : Stores F → Stores F
  wipe_short_term s = record s {
    short_term = record s.short_term { memory = Lifecycle.reset_store s.short_term.memory };
  }

  abbrev pub seeded : Stores F → Option (Store F (List F)) → Result ResetError (Unit {0}) × Stores F
  seeded s none = (err not_seeded, s)
  seeded s (some t) = (ok tt, record s { long_term = t })

  -- What a hard reset does once it is confirmed.
  abbrev pub wipe_all : Stores F → Stores F
  wipe_all s = record (wipe_short_term s) { long_term = Writes.reset_store s.long_term }

  abbrev as_kind :
      ResetKind → Result ResetError (Unit {0}) × Stores F → Result ResetError ResetKind × Stores F
  as_kind k (ok _, s) = (ok k, s)
  as_kind k (err e, s) = (err e, s)

module _ (u : Unicode) (fl : Float) (service : ResetService) where
  unfoldable pub soft_reset : Resetting fl.F64 (Unit {0})
  soft_reset s = (ok tt, wipe_short_term s)

  abbrev pub confirmed : Option Text → Text → Resetting fl.F64 (Unit {0})
  confirmed none confirm s = (err disabled, s)
  confirmed (some token) confirm s =
      if constant_time_eq (service.utf8 confirm) (service.utf8 token)
      then seeded (wipe_all s) (seed_spine_from u fl service.spine (wipe_all s).long_term)
      else (err token_mismatch, s)

  unfoldable pub hard_reset : Text → Resetting fl.F64 (Unit {0})
  hard_reset confirm s = confirmed service.confirm_token confirm s

  unfoldable pub apply : MemoryCommand → Resetting fl.F64 ResetKind
  apply reset_soft s = as_kind soft (soft_reset s)
  apply (reset_hard confirm) s = as_kind hard (hard_reset confirm s)
  apply (remember_command r) s = (err not_a_reset, s)
  apply (forget_command f) s = (err not_a_reset, s)
