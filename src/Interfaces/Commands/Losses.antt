-- ===== src/Interfaces/Commands/Losses.antt =====
-- The loop of src/interfaces/command_consumer.rs: the offset of a message is committed whatever the
-- command did.
use neurolithe.App.Commands.Ledger.{IsFailed, handle-IsHandled, IsHandled, write_id}
use neurolithe.Base.Maps.{lookup-insert, lookup}
use neurolithe.Interfaces.Commands.{
  route_parsed, process_payload, route, Consuming, Message, process, consume, Consumer,
}
use neurolithe.Base.Outcome.{Ensures, Result, ok, err}
use neurolithe.App.Commands.{
  WriteOutcome, WriteError, handle, Stores, MemoryCommand, Delivery, remember_command,
  forget_command, reset_soft, reset_hard,
}
use neurolithe.Base.Text.{Text}
use neurolithe.Base.Float.{Float}
use neurolithe.Base.{
  ℕ, suc, ◌≡◌, refl, ap, ◌∙◌, Bool, true, false, Option, some, List, same_refl, nat_key, text_key,
}

abbrev pub is_error : {S E A : Type 0} → Result E A × S → Bool
is_error (ok a, s) = false
is_error (err e, s) = true

module _ (fl : Float) (consumer : Consumer fl) where
  failed_unchanged :
      (d : Delivery fl.F64) (cmd : MemoryCommand) (id : Text) (s : Stores fl.F64)
      → write_id cmd ≡ some id
      → is_error (handle fl consumer.write d cmd s) ≡ true
      → (handle fl consumer.write d cmd s).1 ≡ s
  failed_unchanged d cmd id s writes failed =
      go (handle fl consumer.write d cmd s) (handle-IsHandled fl consumer.write d cmd id s writes)
        failed
    where
      go :
          (r : Result WriteError WriteOutcome × Stores fl.F64)
          → Ensures
              (IsHandled fl consumer.write d cmd id s)
              (IsFailed fl consumer.write d cmd id s)
              r
          → is_error r ≡ true
          → r.1 ≡ s
      go (ok o, t) h failed = cc
      go (err e, t) h failed = h.1

  route_write :
      (d : Delivery fl.F64) (cmd : MemoryCommand) (id : Text) (s : Stores fl.F64)
      → write_id cmd ≡ some id
      → (route fl consumer d cmd s).0 ≡ (handle fl consumer.write d cmd s).1
  unfolding route
  route_write d reset_soft id s h = cc
  route_write d (reset_hard confirm) id s h = cc
  route_write d (remember_command r) id s h = refl
  route_write d (forget_command f) id s h = refl

  -- A write that fails is not retried: nothing is stored, and if the broker takes the commit, the
  -- committed offset of the partition is the one after the message.
  pub consume_loses_failed :
      (m : Message fl.F64) (c : Consuming fl.F64) (bytes : List ℕ) (cmd : MemoryCommand) (id : Text)
      → m.payload ≡ some bytes
      → consumer.parse bytes ≡ some cmd
      → write_id cmd ≡ some id
      → is_error (handle fl consumer.write m.delivery cmd c.stores) ≡ true
      → m.is_committed ≡ true
      → ((consume fl consumer m c).stores ≡ c.stores)
        × (lookup m.partition (consume fl consumer m c).committed ≡ some (suc m.offset))
  unfolding consume process
  consume_loses_failed m c bytes cmd id sent parsed writes failed done = (
    ap (λ (o : Option (List ℕ)). (process_payload fl consumer m.delivery o c.stores).0) sent
        ∙ (ap (λ (o : Option MemoryCommand). (route_parsed fl consumer m.delivery o c.stores).0)
              parsed
            ∙ (route_write m.delivery cmd id c.stores writes
                ∙ failed_unchanged m.delivery cmd id c.stores writes failed)),
    rw done (
        lookup-insert m.partition m.partition (suc m.offset) c.committed
        ∙ rw (same_refl m.partition) refl),
  )
