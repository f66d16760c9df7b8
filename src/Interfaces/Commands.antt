-- ===== src/Interfaces/Commands.antt =====
-- src/interfaces/command_consumer.rs: where the group starts to read the topic of commands, the
-- routing of a message, and the loop that commits its offset.
pub mod Starts
pub mod Losses
use neurolithe.App.Commands.{
  handle, Service, MemoryCommand, Delivery, Stores, reset_soft, reset_hard, remember_command,
  forget_command,
}
use neurolithe.App.Resets.{ResetService, hard, soft}
use neurolithe.Base.Float.{Float}
use neurolithe.Base.{
  ℕ, suc, Bool, true, false, Option, none, some, List, [], ◌∷◌, map, if◌then◌else◌, is_empty,
  nat_key, text_key,
}
use neurolithe.Base.Maps.{Map, lookup, insert}
use neurolithe.Base.Outcome.{Result, ok, err}
use neurolithe.App.Resets

pub data StartPosition : Type 0 where
  resume pin_at_end : ℕ → StartPosition

-- The committed offset of a partition, and its end.
abbrev pub Probe : Type 0
Probe = ℕ × Option ℕ × ℕ

abbrev start_of : Option ℕ → ℕ → StartPosition
start_of (some offset) end_offset = resume offset
start_of none end_offset = pin_at_end end_offset

unfoldable pub plan_command_start : List Probe → List (ℕ × StartPosition)
plan_command_start [] = []
plan_command_start ((p, committed, end_offset) ∷ ps) =
    (p, start_of committed end_offset) ∷ plan_command_start ps

-- The offsets that are committed for the partitions with no offset.
unfoldable pub commit_pins : List (ℕ × StartPosition) → Map ℕ ℕ → Map ℕ ℕ
commit_pins [] committed = committed
commit_pins ((p, resume o) ∷ plan) committed = commit_pins plan committed
commit_pins ((p, pin_at_end o) ∷ plan) committed = commit_pins plan (insert p o committed)

-- `pin_command_start` on the committed offsets of the group; `ends` has the end of each partition,
-- and `none` is the error of a topic with no partitions.
unfoldable pub pin_command_start : List (ℕ × ℕ) → Map ℕ ℕ → Option (Map ℕ ℕ)
pin_command_start ends committed =
    if is_empty ends
    then none
    else some (
        commit_pins (plan_command_start (map (λ e. (e.0, lookup e.0 committed, e.1)) ends))
          committed)

-- A message, with what arrives with it from outside: the answers of the model and whether the broker
-- takes the commit.
pub record Message (F : Type 0) : Type 0 where
  pub partition : ℕ
  pub offset : ℕ
  pub payload : Option (List ℕ)
  pub delivery : Delivery F
  pub is_committed : Bool

pub record Consuming (F : Type 0) : Type 0 where
  pub stores : Stores F
  pub committed : Map ℕ ℕ
  pub rewinds : ℕ

-- What the consumer is made of; `parse` is serde's reading of a command.
pub record Consumer (fl : Float) : Type 1 where
  pub write : Service fl
  pub reset : ResetService
  pub parse : List ℕ → Option MemoryCommand
  pub embed_spine : Stores fl.F64 → Stores fl.F64

module _ (fl : Float) (consumer : Consumer fl) where
  open consumer use {write, reset, parse, embed_spine}

  -- After a hard reset the spine is embedded, and then the feeder is rewound.
  abbrev after_reset :
      Result Resets.ResetError Resets.ResetKind × Stores fl.F64 → Stores fl.F64 × Bool
  after_reset (ok hard, s) = (embed_spine s, true)
  after_reset (ok soft, s) = (s, false)
  after_reset (err e, s) = (s, false)

  -- The stores after a command, and whether the feeder is to be rewound.
  unfoldable pub route : Delivery fl.F64 → MemoryCommand → Stores fl.F64 → Stores fl.F64 × Bool
  route d reset_soft s = after_reset (Resets.apply write.unicode fl reset reset_soft s)
  route d (reset_hard confirm) s =
      after_reset (Resets.apply write.unicode fl reset (reset_hard confirm) s)
  route d (remember_command r) s = ((handle fl write d (remember_command r) s).1, false)
  route d (forget_command f) s = ((handle fl write d (forget_command f) s).1, false)

  abbrev pub route_parsed :
      Delivery fl.F64 → Option MemoryCommand → Stores fl.F64 → Stores fl.F64 × Bool
  route_parsed d none s = (s, false)
  route_parsed d (some cmd) s = route d cmd s

  abbrev pub process_payload :
      Delivery fl.F64 → Option (List ℕ) → Stores fl.F64 → Stores fl.F64 × Bool
  process_payload d none s = (s, false)
  process_payload d (some bytes) s = route_parsed d (parse bytes) s

  unfoldable pub process : Message fl.F64 → Stores fl.F64 → Stores fl.F64 × Bool
  process m s = process_payload m.delivery m.payload s

  -- One round of `run`: the message is processed and its offset is committed.
  unfoldable pub consume : Message fl.F64 → Consuming fl.F64 → Consuming fl.F64
  consume m c =
      let (s, rewound) = process m c.stores in
      record {
        stores = s;
        committed =
            if m.is_committed then insert m.partition (suc m.offset) c.committed else c.committed;
        rewinds = if rewound then suc c.rewinds else c.rewinds;
      }

  unfoldable pub run : List (Message fl.F64) → Consuming fl.F64 → Consuming fl.F64
  run [] c = c
  run (m ∷ ms) c = run ms (consume m c)
