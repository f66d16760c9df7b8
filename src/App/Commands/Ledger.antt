-- ===== src/App/Commands/Ledger.antt =====
-- `WriteService::handle` of src/application/write_service.rs: a command is applied once, however
-- often it is delivered.
use neurolithe.App.Commands.{node_stored}
use mathlib.Core.Path.{subst}
use neurolithe.Base.Outcome.{Ensures-if, Result, Ensures, ok, err, return, modify, ◌>>◌, continue}
use neurolithe.App.Commands.{
  handle, WriteOutcome, apply_once, stm, ltm, reset_soft, reset_hard, remember_command,
  forget_command, skipped, missing_fact, missing_text, not_embedded, apply, placed, dropped, scoped,
  MemoryCommand, remember, Writing, WriteScope, RememberCommand, Delivery, required, remember_stm,
  Stores, WriteError, remember_ltm, Service,
}
use neurolithe.App.Placement.Filing.{Placement}
use neurolithe.Store.Ltm.Rows.{Store}
use neurolithe.Store.Memory.Graph.{Graph, is_command_processed, mark_command_processed}
use neurolithe.Base.Text.{Text}
use neurolithe.Base.Float.{Float}
use neurolithe.Base.{
  ℕ, ◌≡◌, refl, ap, ◌∙◌, ◌⊎◌, inl, inr, Bool, true, false, Option, none, some, List, [], ◌∷◌, ◌++◌,
  arith, Bool-cases, ◌==◌, same_refl, any, nat_key, text_key,
}

any_last :
    (now : ℕ) (id : Text) (rs : List (Text × ℕ))
    → any (λ r. r.0 == id) (rs ++ ((id, now) ∷ [])) ≡ true
any_last now id [] = ground (arith, same_refl id)
any_last now id (r ∷ rs) = ground (arith, any_last now id rs)

pub is_processed-mark :
    {F E : Type 0} (now : ℕ) (id : Text) (g : Graph F E)
    → is_command_processed id (mark_command_processed now id g) ≡ true
unfolding mark_command_processed is_command_processed
is_processed-mark now id g = elim (Bool-cases (any (λ r. r.0 == id) g.processed_commands)) [
  | inl there ↦ rw there there
  | inr new ↦ rw new (any_last now id g.processed_commands)
]

module _ {F : Type 0} where
  -- A failure leaves both stores as they were.
  abbrev Unchanged : {A : Type 0} → Stores F → Result WriteError A × Stores F → Type 0
  Unchanged s = Ensures (λ _ _. Unit {0}) (λ _ s'. s' ≡ s)

  required_then :
      {A B : Type 0} (e : WriteError) (o : Option A) (f : A → Writing F B) (s : Stores F)
      → ((a : A) → Unchanged s (f a s))
      → Unchanged s (continue (required e o s) f)
  required_then e none f s h = refl
  required_then e (some a) f s h = h a

  placed-Unchanged :
      (s : Stores F) (o : Option (Store F (List F) × Placement)) → Unchanged s (placed s o)
  placed-Unchanged s none = refl
  placed-Unchanged s (some (t, p)) = tt

  node_stored-Unchanged :
      (s : Stores F) (o : Option (Graph F (List F) × ℕ)) → Unchanged s (node_stored s o)
  node_stored-Unchanged s none = refl
  node_stored-Unchanged s (some (g, id)) = tt

  dropped-Unchanged :
      (data_id : Text) (s : Stores F) (o : Option (Store F (List F) × Bool))
      → Unchanged s (dropped data_id s o)
  dropped-Unchanged data_id s none = refl
  dropped-Unchanged data_id s (some (t, b)) = tt

  then-Unchanged :
      {A B : Type 0} (s : Stores F) (m : Result WriteError A × Stores F) (f : A → Writing F B)
      → Unchanged s m
      → ((a : A) (s' : Stores F) → (b : B) × (t : Stores F) × (f a s' ≡ (ok b, t)))
      → Unchanged s (continue m f)
  then-Unchanged s (ok a, s') f h total = let (b, t, e) = total a s' in rw e tt
  then-Unchanged s (err e, s') f h total = h

module _ (fl : Float) (service : Service fl) where
  scoped-Unchanged :
      (d : Delivery fl.F64) (cmd : RememberCommand) (scope : WriteScope) (s : Stores fl.F64)
      → Unchanged s (scoped fl service d cmd scope s)
  unfolding remember_stm remember_ltm
  scoped-Unchanged d cmd stm s = required_then missing_fact cmd.fact _ s (λ fact.
      required_then not_embedded (d.embed_text fact) _ s
        (λ v. then-Unchanged s _ _ (node_stored-Unchanged s _) (λ id s'. (_, _, refl))))
  scoped-Unchanged d cmd ltm s = required_then missing_text cmd.note _ s (λ t.
      required_then not_embedded (d.embed_text t) _ s
        (λ v. then-Unchanged s _ _ (placed-Unchanged s _) (λ b s'. (_, s', refl))))

  apply-Unchanged :
      (d : Delivery fl.F64) (cmd : MemoryCommand) (s : Stores fl.F64)
      → Unchanged s (apply fl service d cmd s)
  unfolding remember
  apply-Unchanged d reset_soft s = refl
  apply-Unchanged d (reset_hard confirm) s = refl
  apply-Unchanged d (remember_command r) s = scoped-Unchanged d r r.scope s
  apply-Unchanged d (forget_command f) s =
      then-Unchanged s _ _ (dropped-Unchanged f.data_id s _) (λ b s'. (_, s', refl))

-- The id of a command that the write service takes.
abbrev pub write_id : MemoryCommand → Option Text
write_id reset_soft = none
write_id (reset_hard confirm) = none
write_id (remember_command r) = some r.command_id
write_id (forget_command f) = some f.command_id

module _ (fl : Float) (service : Service fl) where
  -- What one delivery may do when it succeeds: skip a command that is in the ledger, or apply another
  -- and put it there.
  abbrev pub IsHandled :
      Delivery fl.F64 → MemoryCommand → Text → Stores fl.F64 → WriteOutcome → Stores fl.F64 → Type 0
  IsHandled d cmd id s o t =
      ((is_command_processed id s.short_term ≡ true) × (o ≡ skipped) × (t ≡ s))
      ⊎ ((is_command_processed id s.short_term ≡ false)
          × (is_command_processed id t.short_term ≡ true)
          × (u : Stores fl.F64) × (apply fl service d cmd s ≡ (ok o, u))
          × (t ≡ record u { short_term = mark_command_processed d.now id u.short_term }))

  -- A delivery that fails: applying the command fails, and nothing changes.
  abbrev pub IsFailed :
      Delivery fl.F64 → MemoryCommand → Text → Stores fl.F64 → WriteError → Stores fl.F64 → Type 0
  IsFailed d cmd id s e t =
      (is_command_processed id s.short_term ≡ false)
      × (t ≡ s)
      × (apply fl service d cmd s ≡ (err e, s))

  apply_once-IsHandled :
      (d : Delivery fl.F64) (id : Text) (cmd : MemoryCommand) (s : Stores fl.F64)
      → Ensures (IsHandled d cmd id s) (IsFailed d cmd id s) (apply_once fl service d id cmd s)
  apply_once-IsHandled d id cmd s =
      Ensures-if (IsHandled d cmd id s) (IsFailed d cmd id s) (is_command_processed id s.short_term)
        _ _ (λ there. inl (there, refl, refl))
        (λ new. marked new (apply fl service d cmd s) refl (apply-Unchanged fl service d cmd s))
    where
      marked :
          is_command_processed id s.short_term ≡ false
          → (r : Result WriteError WriteOutcome × Stores fl.F64) → apply fl service d cmd s ≡ r
          → Unchanged s r
          → Ensures (IsHandled d cmd id s) (IsFailed d cmd id s) (
              continue r (λ o.
                modify (λ t. record t { short_term = mark_command_processed d.now id t.short_term })
                >> return o))
      marked new (ok o, t) e h = inr (new, is_processed-mark d.now id t.short_term, t, e, refl)
      marked new (err x, t) e h = (new, h, e ∙ ap (λ (u : Stores fl.F64). (err x, u)) h)

  -- `handle` on a write: a command that is in the ledger is skipped and changes nothing, another is
  -- applied and put there, and where applying it fails, neither the stores nor the ledger change.
  pub handle-IsHandled :
      (d : Delivery fl.F64) (cmd : MemoryCommand) (id : Text) (s : Stores fl.F64)
      → write_id cmd ≡ some id
      → Ensures (IsHandled d cmd id s) (IsFailed d cmd id s) (handle fl service d cmd s)
  unfolding handle
  handle-IsHandled d reset_soft id s h = cc
  handle-IsHandled d (reset_hard confirm) id s h = cc
  handle-IsHandled d (remember_command r) id s h =
      let e : r.command_id ≡ id = cc in
      subst
        (λ (i : Text).
          Ensures (IsHandled d (remember_command r) i s) (IsFailed d (remember_command r) i s)
            (apply_once fl service d r.command_id (remember_command r) s))
        e (apply_once-IsHandled d r.command_id (remember_command r) s)
  handle-IsHandled d (forget_command f) id s h =
      let e : f.command_id ≡ id = cc in
      subst
        (λ (i : Text).
          Ensures (IsHandled d (forget_command f) i s) (IsFailed d (forget_command f) i s)
            (apply_once fl service d f.command_id (forget_command f) s))
        e (apply_once-IsHandled d f.command_id (forget_command f) s)
