-- ===== src/Store/Memory/Sweep.antt =====
-- The decay sweep ends, and handles every active node once.
pub mod Rising
pub mod Batch
use neurolithe.Store.Memory.Rows.{Memory, MemoryNode}
use neurolithe.Base.{ℕ, ◌≤◌, ◌<◌, ◌≡◌, nat_key, text_key}
use neurolithe.Base.Float.{Float}
use neurolithe.Domain.Decay.{DecayEngine}
use neurolithe.Store.Memory.Sweep.Batch.{IsSwept}

module _ (fl : Float) (elapsed_days : ℕ → ℕ → fl.F64) (engine : DecayEngine fl.F64) where
  -- The row once the sweep has come to `after`.
  abbrev IsUpTo : ℕ → MemoryNode fl.F64 → MemoryNode fl.F64 → Type 0
  IsUpTo after r r' =
      (r'.id ≡ r.id)
      × (r.id ≤ after → IsSwept fl elapsed_days engine r r')
      × (after < r.id → r' ≡ r)
